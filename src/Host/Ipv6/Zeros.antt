-- ===== src/Host/Ipv6/Zeros.antt =====
-- The run of zeros that src/parser/host.rs writes as `::`.
use sorug.Host.Ipv6.Print.{
  finish_sequence, or_start, zero_loop, at_least_two, longest_zero_sequence,
}
use sorug.Common.{
  ==_iff, ℕ, suc, ◌+◌, ◌-◌, ◌≤◌, ◌<◌, Bool, true, false, List, [], ◌∷◌, Option, none, some, length,
  get_or, ltb, ◌==◌, if◌then◌else◌, Bool-cases, ◌⊎◌, ltb→lt, inl, inr, ◌≡◌, refl, ◌∙◌, subst, arith,
}

-- The pieces from `a` on, `n` of them, are there and are zero.
abbrev pub ZerosAt : List ℕ → ℕ → ℕ → Type 0
ZerosAt pieces a n = (a + n ≤ length pieces) × ((i : ℕ) → i < n → get_or pieces (a + i) 1 ≡ 0)

-- A run that was found, among the pieces `seen` so far.
abbrev Found : List ℕ → Option (ℕ × ℕ) → Type 0
Found pieces none = Unit
Found pieces (some (a, n)) = ZerosAt pieces a n

abbrev Open : List ℕ → ℕ → Option ℕ → Type 0
Open pieces i none = Unit
Open pieces i (some a) = (a ≤ i) × ZerosAt pieces a (i - a)

finish_sequence-Found :
    (pieces : List ℕ) (i : ℕ) (start : Option ℕ) (longest : Option (ℕ × ℕ))
    → Open pieces i start
    → Found pieces longest
    → Found pieces (finish_sequence i start longest)
finish_sequence-Found pieces i none longest o f = f
finish_sequence-Found pieces i (some a) none o f = o.1
finish_sequence-Found pieces i (some a) (some (b, n)) o f = go (ltb n (i - a))
  where
    go : (test : Bool) → Found pieces (if test then some (a, i - a) else some (b, n))
    go true = o.1
    go false = f

or_start-Open :
    (pieces : List ℕ) (i : ℕ) (start : Option ℕ)
    → i < length pieces
    → get_or pieces i 1 ≡ 0
    → Open pieces i start
    → Open pieces (i + 1) (or_start start i)
or_start-Open pieces i none lt e o =
    (omega arith, (omega arith, λ j h. subst (λ k. get_or pieces k 1 ≡ 0) (same j h) e))
  where
    same : (j : ℕ) → j < i + 1 - i → i ≡ i + j
    same j h = omega arith
or_start-Open pieces i (some a) lt e o =
    (omega arith, (omega arith, λ j h. run j h (Bool-cases (ltb j (i - a)))))
  where
    the_end : (j : ℕ) → j < i + 1 - a → ltb j (i - a) ≡ false → i ≡ a + j
    the_end j h x = ground arith

    run :
        (j : ℕ)
        → j < i + 1 - a
        → (ltb j (i - a) ≡ true) ⊎ (ltb j (i - a) ≡ false)
        → get_or pieces (a + j) 1 ≡ 0
    run j h (inl x) = o.1.1 j (ltb→lt j (i - a) x)
    run j h (inr x) = subst (λ k. get_or pieces k 1 ≡ 0) (the_end j h x) e

-- `later` are the pieces from `i` on.
record From (pieces : List ℕ) (i : ℕ) (later : List ℕ) : Type 0 where
  size : i + length later ≡ length pieces
  agree : (j : ℕ) → j < length later → get_or pieces (i + j) 1 ≡ get_or later j 1

next-From :
    (pieces : List ℕ) (i p : ℕ) (ps : List ℕ) → From pieces i (p ∷ ps) → From pieces (i + 1) ps
next-From pieces i p ps f = record {
  size = omega (arith, f.size);
  agree = λ j h.
      subst (λ k. get_or pieces k 1 ≡ get_or ps j 1) (shift j) (f.agree (suc j) (omega arith));
}
  where
    shift : (j : ℕ) → i + suc j ≡ i + 1 + j
    shift j = omega arith

head-From :
    (pieces : List ℕ) (i p : ℕ) (ps : List ℕ) → From pieces i (p ∷ ps) → get_or pieces i 1 ≡ p
head-From pieces i p ps f = subst (λ k. get_or pieces k 1 ≡ p) same (f.agree 0 (omega arith))
  where
    same : i + 0 ≡ i
    same = omega arith

zero_loop-Found :
    (pieces : List ℕ) (later : List ℕ) (i : ℕ) (start : Option ℕ) (longest : Option (ℕ × ℕ))
    → From pieces i later
    → Open pieces i start
    → Found pieces longest
    → Found pieces (zero_loop later i start longest)
unfolding zero_loop
zero_loop-Found pieces [] i start longest at o f = finish_sequence-Found pieces i start longest o f
zero_loop-Found pieces (p ∷ ps) i start longest at o f = elim (Bool-cases (p == 0)) [
  | inl e ↦ rw e (
      zero_loop-Found pieces ps (i + 1) (or_start start i) longest (next-From pieces i p ps at)
        (or_start-Open pieces i start (omega (arith, at.size))
          (head-From pieces i p ps at ∙ (==_iff p 0).0 e) o)
        f)
  | inr e ↦ rw e (
      zero_loop-Found pieces ps (i + 1) none (finish_sequence i start longest)
        (next-From pieces i p ps at) tt (finish_sequence-Found pieces i start longest o f))
]

-- The bounds of a run that is written as `::`: two pieces at least, which are there and are zero.
abbrev pub ZeroRun : List ℕ → Option (ℕ × ℕ) → Type 0
ZeroRun pieces none = Unit
ZeroRun pieces (some (start, end)) =
    (start + 2 ≤ end)
    × (end ≤ length pieces)
    × ((i : ℕ) → start ≤ i → i < end → get_or pieces i 1 ≡ 0)

at_least_two-ZeroRun :
    (pieces : List ℕ) (longest : Option (ℕ × ℕ))
    → Found pieces longest
    → ZeroRun pieces (at_least_two longest)
at_least_two-ZeroRun pieces none f = tt
at_least_two-ZeroRun pieces (some (a, n)) f = elim (Bool-cases (ltb n 2)) [
  | inl e ↦ rw e tt
  | inr e ↦ rw e (
    ground arith,
    f.0,
    λ i lo hi. subst (λ k. get_or pieces k 1 ≡ 0) (back i lo) (f.1 (i - a) (omega arith)),
  )
]
  where
    back : (i : ℕ) → a ≤ i → a + (i - a) ≡ i
    back i lo = omega arith

-- If the printer finds a run for `::`, the run has two pieces or more, all of the address and zero.
pub longest_zero_sequence-ZeroRun :
    (pieces : List ℕ) → ZeroRun pieces (longest_zero_sequence pieces)
unfolding longest_zero_sequence
longest_zero_sequence-ZeroRun pieces = at_least_two-ZeroRun pieces (zero_loop pieces 0 none none) (
    zero_loop-Found pieces pieces 0 none none
      (record {
        size = omega arith;
        agree = λ j h. subst (λ k. get_or pieces k 1 ≡ get_or pieces j 1) (from_zero j) refl;
      })
      tt tt)
  where
    from_zero : (j : ℕ) → j ≡ 0 + j
    from_zero j = omega arith
