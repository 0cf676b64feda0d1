-- ===== src/Buffer/ZeroCopy.antt =====
-- When the buffer of src/parser/serialization.rs stays a borrow of its source.
use sorug.Buffer.Backing.{is_borrowed}
use sorug.Buffer.Defs.{
  starts_with, State, borrowed, owned, SerializationBuf, new, push_str_state, push_str,
  finish_state, finish,
}
use sorug.Buffer.Refines.{NextSlice}
use sorug.Common.{
  subst, ℕ, zero, suc, ◌+◌, Bool, true, false, ◌&&◌, List, [], ◌∷◌, ◌++◌, Bytes, length, take, drop,
  if◌then◌else◌, Bool-cases, inl, inr, ◌≡◌, refl, sym, ap, ◌∙◌, arith,
}

-- One `push_str` after the other: the answer of the test of the pointers, and the text.
unfoldable pub push_all : List (Bool × Bytes) → SerializationBuf → SerializationBuf
push_all [] b = b
push_all ((same, p) ∷ ps) b = push_all ps (push_str b same p)

-- The pointers are equal only at the slice that comes next in the source.
abbrev pub AllNext : List (Bool × Bytes) → SerializationBuf → Type 0
AllNext [] b = Unit
AllNext ((same, p) ∷ ps) b =
    (same ≡ true → NextSlice b.source b.state p) × AllNext ps (push_str b same p)

abbrev pub concat : List (Bool × Bytes) → Bytes
concat [] = []
concat ((same, p) ∷ ps) = p ++ concat ps

push_states : Bytes → State → List (Bool × Bytes) → State
push_states source st [] = st
push_states source st ((same, p) ∷ ps) = push_states source (push_str_state source st same p) ps

NextStates : Bytes → State → List (Bool × Bytes) → Type 0
NextStates source st [] = Unit
NextStates source st ((same, p) ∷ ps) =
    (same ≡ true → NextSlice source st p) × NextStates source (push_str_state source st same p) ps

push_all-states :
    (ps : List (Bool × Bytes)) (b : SerializationBuf)
    → push_all ps b ≡ record b { state = push_states b.source b.state ps }
unfolding push_all push_states push_str
push_all-states [] b = refl
push_all-states ((same, p) ∷ ps) b = push_all-states ps (push_str b same p)

AllNext-states :
    (ps : List (Bool × Bytes)) (b : SerializationBuf)
    → AllNext ps b
    → NextStates b.source b.state ps
unfolding NextStates push_str
AllNext-states [] b h = tt
AllNext-states ((same, p) ∷ ps) b (e, h) = (e, AllNext-states ps (push_str b same p) h)

is_borrow : State → Bool
is_borrow (borrowed n) = true
is_borrow (owned s) = false

owned_stays :
    (source t : Bytes) (ps : List (Bool × Bytes))
    → is_borrow (push_states source (owned t) ps) ≡ false
unfolding push_states push_str_state is_borrow
owned_stays source t [] = refl
owned_stays source t ((same, p) ∷ ps) = owned_stays source (t ++ p) ps

-- A text in two parts comes next if the first does, and then the second.
starts_with_parts :
    (s p q : Bytes) → starts_with s (p ++ q) ≡ starts_with s p && starts_with (drop (length p) s) q
unfolding starts_with
starts_with_parts s [] q = refl
starts_with_parts [] (x ∷ p) q = refl
starts_with_parts (c ∷ s) (x ∷ p) q = ground (arith, starts_with_parts s p q)

drop_nil : (n : ℕ) → drop {A = ℕ} n [] ≡ []
drop_nil zero = refl
drop_nil (suc n) = refl

suc_sum : (n m : ℕ) → suc n + m ≡ suc (n + m)
suc_sum n m = omega arith

drop-drop : (n m : ℕ) (s : Bytes) → drop m (drop n s) ≡ drop (n + m) s
drop-drop zero m s = ap (λ (k : ℕ). drop k s) (omega arith)
drop-drop (suc n) m [] = drop_nil m ∙ sym (drop_nil (suc n + m))
drop-drop (suc n) m (c ∷ s) = drop-drop n m s ∙ sym (ap (λ (k : ℕ). drop k (c ∷ s)) (suc_sum n m))

-- Where the pointers are equal, the text is compared no more, and it is the next one.
push_borrowed :
    (source : Bytes) (n : ℕ) (same : Bool) (p : Bytes)
    → (same ≡ true → starts_with (drop n source) p ≡ true)
    → push_str_state source (borrowed n) same p ≡ (
        if starts_with (drop n source) p
        then borrowed (n + length p)
        else owned (take n source ++ p))
unfolding push_str_state
push_borrowed source n false p h = ground arith
push_borrowed source n true p h = ground (arith, h refl)

borrowed_lem :
    (source : Bytes) (n : ℕ) (ps : List (Bool × Bytes))
    → NextStates source (borrowed n) ps
    → is_borrow (push_states source (borrowed n) ps) ≡ starts_with (drop n source) (concat ps)
unfolding push_states NextStates
borrowed_lem source n [] h = unfold is_borrow starts_with in refl
borrowed_lem source n ((same, p) ∷ ps) (e, h) = elim (Bool-cases (starts_with (drop n source) p)) [
  | inl f ↦
      let step : push_str_state source (borrowed n) same p ≡ borrowed (n + length p) =
        push_borrowed source n same p e ∙ rw f refl in
      rw (step, starts_with_parts (drop n source) p (concat ps), f)
        (borrowed_lem source (n + length p) ps (subst (λ st. NextStates source st ps) step h)
          ∙ ap (λ t. starts_with t (concat ps)) (sym (drop-drop n (length p) source)))
  | inr f ↦
      let step : push_str_state source (borrowed n) same p ≡ owned (take n source ++ p) =
        push_borrowed source n same p e ∙ rw f refl in
      rw (step, starts_with_parts (drop n source) p (concat ps), f)
        (owned_stays source (take n source ++ p) ps)
]

finish_is_borrow :
    (source : Bytes) (st : State) → is_borrowed (finish_state source st) ≡ is_borrow st
unfolding is_borrowed finish_state is_borrow
finish_is_borrow source (borrowed n) = refl
finish_is_borrow source (owned s) = refl

-- After any pieces have been written to a new buffer, the pointers equal only at the slice that comes
-- next, the finished text is a borrow exactly when the source starts with the pieces in a row.
pub push_all-is_borrowed :
    (source : Bytes) (ps : List (Bool × Bytes))
    → AllNext ps (new source)
    → is_borrowed (finish (push_all ps (new source))) ≡ starts_with source (concat ps)
unfolding finish new
push_all-is_borrowed source ps h = rw (push_all-states ps (new source)) (
    finish_is_borrow source (push_states source (borrowed 0) ps)
    ∙ borrowed_lem source 0 ps (AllNext-states ps (new source) h))
