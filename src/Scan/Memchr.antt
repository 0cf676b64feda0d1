-- ===== src/Scan/Memchr.antt =====
-- The `memchr` crate, which src/parser/scan.rs calls on long inputs: its searches, with what its
-- documentation says of them. A search returns the first (or, for `memrchr`, the last) index at
-- which a needle stands, or nothing if none does.
use sorug.Common.{
  ℕ, suc, Bool, true, false, ◌||◌, [], ◌∷◌, Option, none, some, Bytes, All, take, drop, get_elem?,
  position, ◌==◌, if◌then◌else◌, ◌≡◌, refl, zero, arith, Bool-cases, ◌⊎◌, inl, inr,
}

-- The first index that passes.
abbrev pub IsFirst : (ℕ → Bool) → Bytes → Option ℕ → Type 0
IsFirst p h none = All (λ b. p b ≡ false) h
IsFirst p h (some i) =
    (b : ℕ) × (get_elem? h i ≡ some b) × (p b ≡ true) × All (λ c. p c ≡ false) (take i h)

-- The last index that passes.
abbrev pub IsLast : (ℕ → Bool) → Bytes → Option ℕ → Type 0
IsLast p h none = All (λ b. p b ≡ false) h
IsLast p h (some i) =
    (b : ℕ) × (get_elem? h i ≡ some b) × (p b ≡ true) × All (λ c. p c ≡ false) (drop (suc i) h)

pub record Memchr : Type 0 where
  pub memchr : ℕ → Bytes → Option ℕ
  pub memchr2 : ℕ → ℕ → Bytes → Option ℕ
  pub memchr3 : ℕ → ℕ → ℕ → Bytes → Option ℕ
  pub memrchr : ℕ → Bytes → Option ℕ
  pub memchr_first : (n : ℕ) (h : Bytes) → IsFirst (λ b. b == n) h (memchr n h)
  pub memchr2_first :
      (n1 n2 : ℕ) (h : Bytes) → IsFirst (λ b. b == n1 || b == n2) h (memchr2 n1 n2 h)
  pub memchr3_first :
      (n1 n2 n3 : ℕ) (h : Bytes)
      → IsFirst (λ b. b == n1 || b == n2 || b == n3) h (memchr3 n1 n2 n3 h)
  pub memrchr_last : (n : ℕ) (h : Bytes) → IsLast (λ b. b == n) h (memrchr n h)

abbrev later : Option ℕ → Option ℕ
later none = none
later (some i) = some (suc i)

-- There is one first index.
pub IsFirst-position : (p : ℕ → Bool) (h : Bytes) (o : Option ℕ) → IsFirst p h o → o ≡ position p h
IsFirst-position p [] none f = refl
IsFirst-position p [] (some i) f = ground arith
IsFirst-position p (x ∷ h) none f = ground (arith, IsFirst-position p h none f.1)
IsFirst-position p (x ∷ h) (some zero) f = ground arith
IsFirst-position p (x ∷ h) (some (suc i)) (b, at, pass, before) =
    ground (arith, IsFirst-position p h (some i) (b, at, pass, before.1))

pub position-IsFirst : (p : ℕ → Bool) (h : Bytes) → IsFirst p h (position p h)
position-IsFirst p [] = tt
position-IsFirst p (x ∷ h) = step (Bool-cases (p x)) (position p h) (position-IsFirst p h)
  where
    step :
        (p x ≡ true) ⊎ (p x ≡ false)
        → (o : Option ℕ) → IsFirst p h o
        → IsFirst p
            (x ∷ h)
            (if p x then some 0 else (elim o [ none ↦ none | some i ↦ some (suc i) ]))
    step (inl e) o f = rw e (x, refl, e, tt)
    step (inr e) none f = rw e (e, f)
    step (inr e) (some i) (b, at, pass, before) = rw e (b, at, pass, (e, before))
