-- ===== src/Punycode/Chars.antt =====
-- The decoder of src/parser/punycode.rs reads its text to the end.
use sorug.Punycode.{
  Decoding, Digit, overflow, last, more, take_digit, byte_to_digit, decode_number, is_char,
  insert_char, put_char, decode_round, decode_rounds, base,
}
use sorug.Common.{
  ℕ, zero, suc, ◌+◌, ◌/◌, ◌%◌, ◌≤◌, ◌<◌, true, List, [], ◌∷◌, Option, none, some, Bytes, All,
  All-append, All-take, length, take, drop, ◌≡◌, refl, arith, OnSome, OnSome-bind,
}

-- A Unicode scalar value.
abbrev pub IsChar : ℕ → Type 0
IsChar c = is_char c ≡ true

All-drop : (n : ℕ) (xs : List ℕ) → All IsChar xs → All IsChar (drop n xs)
All-drop zero xs h = h
All-drop (suc n) [] h = tt
All-drop (suc n) (x ∷ xs) h = All-drop n xs h.1

insert_char-IsChar :
    (output : List ℕ) (i c : ℕ) → All IsChar output → IsChar c → All IsChar (insert_char output i c)
insert_char-IsChar output i c h hc =
    All-append IsChar (take i output) (c ∷ drop i output) (All-take IsChar i output h)
      (hc, All-drop i output h)

abbrev Kept : Decoding → Type 0
Kept d = All IsChar d.output

put_char-Kept : (d : Decoding) (i : ℕ) → Kept d → OnSome Kept (put_char d i)
unfolding put_char
put_char-Kept d i h =
    let len = length d.output + 1 in
    let n = d.n + i / len in ground (arith, insert_char-IsChar d.output (i % len) n h)

-- A number takes one byte at least.
decode_number-length :
    (bias : ℕ) (s : Bytes) (i w k : ℕ)
    → OnSome (λ r. length r.1 < length s) (decode_number bias s i w k)
unfolding decode_number
decode_number-length bias [] i w k = tt
decode_number-length bias (b ∷ rest) i w k = go (byte_to_digit b) (decode_number-length bias rest)
  where
    weaken :
        (o : Option (ℕ × Bytes))
        → OnSome (λ r. length r.1 < length rest) o
        → OnSome (λ r. length r.1 < suc (length rest)) o
    weaken none h = tt
    weaken (some r) h = omega arith

    digit_case :
        (o : Digit)
        → ((i' w' k' : ℕ)
            → OnSome (λ r. length r.1 < length rest) (decode_number bias rest i' w' k'))
        → OnSome
            (λ r. length r.1 < suc (length rest))
            (elim o as (λ x. Option (ℕ × Bytes)) [
              | overflow ↦ none
              | last i' ↦ some (i', rest)
              | more i' w' k' ↦ decode_number bias rest i' w' k'
            ])
    digit_case overflow rec = tt
    digit_case (last i') rec = omega arith
    digit_case (more i' w' k') rec = weaken (decode_number bias rest i' w' k') (rec i' w' k')

    go :
        (o : Option ℕ)
        → ((i' w' k' : ℕ)
            → OnSome (λ r. length r.1 < length rest) (decode_number bias rest i' w' k'))
        → OnSome
            (λ r. length r.1 < suc (length rest))
            (elim o as (λ x. Option (ℕ × Bytes)) [
              | none ↦ none
              | some digit ↦ elim (take_digit bias digit i w k) [
                | overflow ↦ none
                | last i' ↦ some (i', rest)
                | more i' w' k' ↦ decode_number bias rest i' w' k'
              ]
            ])
    go none rec = tt
    go (some digit) rec = digit_case (take_digit bias digit i w k) rec

-- A round keeps the code points, and leaves less to read.
abbrev Progress : ℕ → Decoding × Bytes → Type 0
Progress size r = Kept r.0 × (length r.1 < size)

decode_round-Progress :
    (d : Decoding) (s : Bytes) → Kept d → OnSome (Progress (length s)) (decode_round d s)
unfolding decode_round
decode_round-Progress d s h =
    OnSome-bind (λ r. length r.1 < length s) (Progress (length s))
      (λ r. elim (put_char d r.0) [ none ↦ none | some d' ↦ some (d', r.1) ])
      (decode_number d.bias s d.i 1 base) (decode_number-length d.bias s d.i 1 base)
      (λ r shorter.
        OnSome-bind Kept (Progress (length s)) (λ d'. some (d', r.1)) (put_char d r.0)
          (put_char-Kept d r.0 h) (λ d' k. (k, shorter)))

-- Fuel of the text's length is enough: more of it gives the same result.
pub decode_rounds-fuel :
    (fuel enough : ℕ) (d : Decoding) (s : Bytes)
    → Kept d
    → length s ≤ fuel
    → length s ≤ enough
    → decode_rounds fuel d s ≡ decode_rounds enough d s
unfolding decode_rounds
decode_rounds-fuel zero zero d [] h le le' = refl
decode_rounds-fuel zero (suc enough) d [] h le le' = refl
decode_rounds-fuel (suc fuel) zero d [] h le le' = refl
decode_rounds-fuel (suc fuel) (suc enough) d [] h le le' = refl
decode_rounds-fuel zero enough d (b ∷ rest) h le le' = absurd (omega arith)
decode_rounds-fuel (suc fuel) zero d (b ∷ rest) h le le' = absurd (omega arith)
decode_rounds-fuel (suc fuel) (suc enough) d (b ∷ rest) h le le' =
    go (decode_round d (b ∷ rest)) (decode_round-Progress d (b ∷ rest) h)
      (λ d' s' k lt. decode_rounds-fuel fuel enough d' s' k (omega arith) (omega arith))
  where
    go :
        (o : Option (Decoding × Bytes))
        → OnSome (Progress (suc (length rest))) o
        → ((d' : Decoding) (s' : Bytes)
            → Kept d'
            → length s' < suc (length rest)
            → decode_rounds fuel d' s' ≡ decode_rounds enough d' s')
        → (elim o as (λ x. Option (List ℕ)) [
          | none ↦ none
          | some (d', rest') ↦ decode_rounds fuel d' rest'
        ])
          ≡ (elim o as (λ x. Option (List ℕ)) [
            | none ↦ none
            | some (d', rest') ↦ decode_rounds enough d' rest'
          ])
    go none p rec = refl
    go (some (d', rest')) p rec = rec d' rest' p.0 p.1
