-- ===== src/Common/Options.antt =====
-- Properties of optional results.
use mathlib.Core.Option.{Option, none, some}

-- Where there is a result, it has the property.
abbrev pub OnSome : {A : Type 0} → (A → Type 0) → Option A → Type 0
OnSome P none = Unit
OnSome P (some a) = P a

pub OnSome-bind :
    {A B : Type 0} (P : A → Type 0) (Q : B → Type 0) (f : A → Option B) (o : Option A)
    → OnSome P o
    → ((a : A) → P a → OnSome Q (f a))
    → OnSome Q (elim o [ none ↦ none | some a ↦ f a ])
OnSome-bind P Q f none h k = tt
OnSome-bind P Q f (some a) h k = k a h

pub OnSome-all : {A : Type 0} (o : Option A) → OnSome (λ a. Unit) o
OnSome-all none = tt
OnSome-all (some a) = tt
