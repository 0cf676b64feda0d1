-- ===== src/Buffer/Refines.antt =====
-- The buffer of src/parser/serialization.rs is a string, whether it borrows or owns its text.
use sorug.Buffer.Defs.{
  encode_utf8, starts_with, before_last_char, State, borrowed, owned, SerializationBuf, text_of,
  as_str, length_of, len, push_state, push_str_state,
}
use sorug.Common.{
  ℕ, zero, suc, ◌+◌, ◌-◌, ◌≤◌, Bool, true, false, ◌&&◌, [], ◌∷◌, ◌++◌, Bytes, length, take, drop,
  ltb, leb, if◌then◌else◌, Bool-cases, inl, inr, ◌≡◌, refl, sym, ap, ◌∙◌, arith,
}

abbrev pub Within : Bytes → State → Type 0
Within source (borrowed n) = n ≤ length source
Within source (owned s) = Unit

-- A borrow stays inside the source.
abbrev pub IsValid : SerializationBuf → Type 0
IsValid b = Within b.source b.state

starts_with-take :
    (s p : Bytes) → starts_with s p ≡ true → (take (length p) s ≡ p) × (length p ≤ length s)
unfolding starts_with
starts_with-take s [] e = (refl, omega arith)
starts_with-take [] (x ∷ p) e = cc
starts_with-take (c ∷ s) (x ∷ p) e = ground (arith, starts_with-take s p)

pub starts_with-append : (p r : Bytes) → starts_with (p ++ r) p ≡ true
unfolding starts_with
starts_with-append [] r = refl
starts_with-append (x ∷ p) r = ground (arith, starts_with-append p r)

take_nil : (n : ℕ) → take {A = ℕ} n [] ≡ []
take_nil zero = refl
take_nil (suc n) = refl

take-add : (n m : ℕ) (s : Bytes) → take (n + m) s ≡ take n s ++ take m (drop n s)
take-add zero m s = ap (λ (k : ℕ). take k s) (omega arith)
take-add (suc n) m [] = take_nil (suc n + m) ∙ sym (take_nil m)
take-add (suc n) m (c ∷ s) =
    ap (λ (k : ℕ). take k (c ∷ s)) (sum n m) ∙ ap (λ t. c ∷ t) (take-add n m s)
  where
    sum : (n m : ℕ) → suc n + m ≡ suc (n + m)
    sum n m = omega arith

length-drop : (n : ℕ) (s : Bytes) → length (drop n s) ≡ length s - n
length-drop zero s = omega arith
length-drop (suc n) [] = omega arith
length-drop (suc n) (x ∷ s) = omega (arith, length-drop n s)

pub length-take : (n : ℕ) (s : Bytes) → n ≤ length s → length (take n s) ≡ n
length-take zero s h = refl
length-take (suc n) [] h = absurd (omega arith)
length-take (suc n) (x ∷ s) h = omega (arith, length-take n s (omega arith))

-- Where the text comes next in the source, the cursor moves over it.
advance :
    (source : Bytes) (n : ℕ) (s : Bytes)
    → starts_with (drop n source) s ≡ true
    → n ≤ length source
    → (take (n + length s) source ≡ take n source ++ s) × (n + length s ≤ length source)
advance source n s e h =
    let (same, fits) = starts_with-take (drop n source) s e in
    (
      take-add n (length s) source ∙ ap (λ t. take n source ++ t) same,
      omega (arith, length-drop n source),
    )

-- A state writes `s`: its text has `s` behind, and a borrow stays inside the source.
abbrev pub Writes : Bytes → State → State → Bytes → Type 0
Writes source st st' s = (text_of source st' ≡ text_of source st ++ s) × Within source st'

write_borrowed :
    (source : Bytes) (n : ℕ) (s : Bytes) (hit : Bool)
    → (hit ≡ true → starts_with (drop n source) s ≡ true)
    → n ≤ length source
    → Writes source
        (borrowed n)
        (if hit then borrowed (n + length s) else owned (take n source ++ s))
        s
unfolding text_of
write_borrowed source n s true e h = advance source n s (e refl) h
write_borrowed source n s false e h = (refl, tt)

push_test :
    (rest : Bytes) (c : ℕ)
    → (if ltb c 0x80 then starts_with rest (c ∷ []) else starts_with rest (encode_utf8 c))
      ≡ starts_with rest (encode_utf8 c)
unfolding encode_utf8
push_test rest c = elim (Bool-cases (ltb c 0x80)) [ inl e ↦ rw e | inr e ↦ rw e ]

pub push_state-Writes :
    (source : Bytes) (st : State) (c : ℕ)
    → Within source st
    → Writes source st (push_state source st c) (encode_utf8 c)
unfolding push_state text_of
push_state-Writes source (borrowed n) c h = rw (push_test (drop n source) c) (
    write_borrowed source n (encode_utf8 c) (starts_with (drop n source) (encode_utf8 c)) (λ e. e)
      h)
push_state-Writes source (owned t) c h = (refl, tt)

-- What the address tells: the text is the slice of the source that comes next.
abbrev pub NextSlice : Bytes → State → Bytes → Type 0
NextSlice source (borrowed n) s = starts_with (drop n source) s ≡ true
NextSlice source (owned t) s = Unit

last_true : (a b c : Bool) → a && b && c ≡ true → c ≡ true
last_true a b c x = ground arith

pub push_str_state-Writes :
    (source : Bytes) (st : State) (same_slice : Bool) (s : Bytes)
    → (same_slice ≡ true → NextSlice source st s)
    → Within source st
    → Writes source st (push_str_state source st same_slice s) s
unfolding push_str_state text_of
push_str_state-Writes source (borrowed n) same_slice s e h =
    elim (Bool-cases (ltb 0 (length s) && leb (length s) (length (drop n source)) && same_slice)) [
      | inl x ↦ rw x (
          write_borrowed source n s true
            (λ _.
              e (
                last_true (ltb 0 (length s)) (leb (length s) (length (drop n source))) same_slice
                  x))
            h)
      | inr x ↦ rw x (write_borrowed source n s (starts_with (drop n source) s) (λ y. y) h)
    ]
push_str_state-Writes source (owned t) same_slice s e h = (refl, tt)

pub before_last_char-le : (s : Bytes) → before_last_char s ≤ length s
unfolding before_last_char
before_last_char-le [] = omega arith
before_last_char-le (b ∷ s) = ground (arith, before_last_char-le s)

len-as_str_state :
    (source : Bytes) (st : State) → Within source st → length_of st ≡ length (text_of source st)
unfolding length_of text_of
len-as_str_state source (borrowed n) h = sym (length-take n source h)
len-as_str_state source (owned s) h = refl

-- The length that a valid buffer (its cursor inside the source) reports is that of its text.
pub len-as_str : (b : SerializationBuf) → IsValid b → len b ≡ length (as_str b)
unfolding len as_str
len-as_str b h = len-as_str_state b.source b.state h
