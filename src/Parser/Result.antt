-- ===== src/Parser/Result.antt =====
-- Results of src/parser/mod.rs: a value, an error, or a panic (`unwrap`, `panic!`, `unreachable!`).
-- A loop of the model that runs out of fuel counts as a panic too.
use sorug.Common.{ℕ, ◌^◌, Option, none, some, ltb, if◌then◌else◌, ◌≡◌, arith}

-- `ParseError` of src/lib.rs
pub data ParseError : Type 0 where
  failure input_too_long : ParseError

pub data Result {ℓ} (A : Type ℓ) : Type ℓ where
  ok : A → Result A
  err : ParseError → Result A
  panicked : Result A

infixl 5 ◌>>=◌
abbrev pub ◌>>=◌ {ℓ κ} : {A : Type ℓ} {B : Type κ} → Result A → (A → Result B) → Result B
ok a >>= f = f a
err e >>= f = err e
panicked >>= f = panicked

-- `map_err(|_| ParseError::Failure)`
abbrev pub or_failure {ℓ} : {A : Type ℓ} → Option A → Result A
or_failure none = err failure
or_failure (some a) = ok a

abbrev pub unwrap {ℓ} : {A : Type ℓ} → Option A → Result A
unwrap none = panicked
unwrap (some a) = ok a

unfoldable pub to_u32 : ℕ → Result ℕ
to_u32 i = if ltb i (2 ^ 32) then ok i else err input_too_long

-- There is a value, neither an error nor a panic, and it has the property.
abbrev pub Returns {ℓ} : {A : Type ℓ} → (A → Type 0) → Result A → Type 0
Returns P (ok a) = P a
Returns P (err e) = ⊥
Returns P panicked = ⊥

pub Returns-bind {ℓ κ} :
    {A : Type ℓ} {B : Type κ} (P : A → Type 0) (Q : B → Type 0) (m : Result A) (f : A → Result B)
    → Returns P m
    → ((a : A) → P a → Returns Q (f a))
    → Returns Q (m >>= f)
Returns-bind P Q (ok a) f h k = k a h
Returns-bind P Q (err e) f h k = absurd h
Returns-bind P Q panicked f h k = absurd h

pub Returns-map {ℓ} :
    {A : Type ℓ} (P Q : A → Type 0) (m : Result A)
    → ((a : A) → P a → Q a)
    → Returns P m
    → Returns Q m
Returns-map P Q (ok a) f h = f a h
Returns-map P Q (err e) f h = h
Returns-map P Q panicked f h = h

-- No panic, and a value, where there is one, has the property.
abbrev pub Holds {ℓ} : {A : Type ℓ} → (A → Type 0) → Result A → Type 0
Holds P (ok a) = P a
Holds P (err e) = Unit
Holds P panicked = ⊥

pub Holds-bind {ℓ κ} :
    {A : Type ℓ} {B : Type κ} (P : A → Type 0) (Q : B → Type 0) (m : Result A) (f : A → Result B)
    → Holds P m
    → ((a : A) → P a → Holds Q (f a))
    → Holds Q (m >>= f)
Holds-bind P Q (ok a) f h k = k a h
Holds-bind P Q (err e) f h k = tt
Holds-bind P Q panicked f h k = absurd h

pub Holds-map {ℓ} :
    {A : Type ℓ} (P Q : A → Type 0) (m : Result A) → ((a : A) → P a → Q a) → Holds P m → Holds Q m
Holds-map P Q (ok a) f h = f a h
Holds-map P Q (err e) f h = tt
Holds-map P Q panicked f h = h

pub Holds-both {ℓ} :
    {A : Type ℓ} (P Q : A → Type 0) (m : Result A)
    → Holds P m
    → Holds Q m
    → Holds (λ a. P a × Q a) m
Holds-both P Q (ok a) h k = (h, k)
Holds-both P Q (err e) h k = tt
Holds-both P Q panicked h k = h

pub Holds-to_u32 : (i : ℕ) → Holds (λ j. j ≡ i) (to_u32 i)
unfolding to_u32
Holds-to_u32 i = ground arith
