-- ===== src/Punycode/Encoder.antt =====
-- src/parser/punycode.rs, the encoder of a label (RFC 3492), on its code points. The text written so
-- far is one list, which the source keeps on the stack first and on the heap later.
use sorug.Punycode.{
  base, initial_bias, initial_n, max_label_code_points, adapt, digit_to_byte, threshold,
}
use sorug.Common.{
  ℕ, zero, suc, ◌+◌, ◌-◌, ◌*◌, ◌/◌, ◌%◌, ◌^◌, ◌&&◌, List, [], ◌∷◌, ◌++◌, Option, none, some, Bytes,
  length, ltb, leb, within, ◌==◌, if◌then◌else◌,
}

abbrev pub max_ace_octets : ℕ
max_ace_octets = 4096

unfoldable pub push_ascii : Bytes → ℕ → Option Bytes
push_ascii ace b = if leb max_ace_octets (length ace) then none else some (ace ++ b ∷ [])

abbrev checked : ℕ → Option ℕ
checked v = if ltb v (2 ^ 32) then some v else none

abbrev to_ascii_lowercase : ℕ → ℕ
to_ascii_lowercase c = if within b'A' b'Z' c then c + 32 else c

-- The ASCII code points, in lower case, and their count.
unfoldable pub push_basic : List ℕ → Bytes → ℕ → Option (Bytes × ℕ)
unfolding push_ascii
push_basic [] ace count = some (ace, count)
push_basic (c ∷ cs) ace count =
    let plain = push_basic cs ace count in
    if ltb c 0x80
    then (elim (push_ascii ace (to_ascii_lowercase c)) [
      | none ↦ none
      | some ace' ↦ push_basic cs ace' (count + 1)
    ])
    else plain

-- The least code point from `n` on, below `m`.
unfoldable pub least_from : ℕ → List ℕ → ℕ → ℕ
least_from n [] m = m
least_from n (c ∷ cs) m = least_from n cs (if leb n c && ltb c m then c else m)

abbrev push_digit : Bytes → ℕ → Option Bytes
push_digit ace code = elim (digit_to_byte code) [ none ↦ none | some b ↦ push_ascii ace b ]

-- The digits of a number: twelve rounds are enough for 32 bits.
unfoldable pub push_number : ℕ → ℕ → ℕ → ℕ → Bytes → Option Bytes
unfolding push_ascii digit_to_byte
push_number zero bias q k ace = none
push_number (suc fuel) bias q k ace =
    let t = threshold k bias in
    if ltb q t then push_digit ace q else (elim (push_digit ace (t + (q - t) % (base - t))) [
      | none ↦ none
      | some ace' ↦ elim (checked (k + base)) [
        | none ↦ none
        | some k' ↦ push_number fuel bias ((q - t) / (base - t)) k' ace'
      ]
    ])

pub record Encoding : Type 0 where
  pub ace : Bytes
  pub delta : ℕ
  pub bias : ℕ
  pub h : ℕ

-- One code point of a pass over the label, for the code point `n`.
unfoldable pub encode_char : ℕ → ℕ → ℕ → Encoding → Option Encoding
unfolding push_number adapt
encode_char b n c e =
    if ltb c n
    then if ltb (e.delta + 1) (2 ^ 32)
      then some (record { ace = e.ace; delta = e.delta + 1; bias = e.bias; h = e.h })
      else none
    else if c == n
    then (elim (push_number 12 e.bias e.delta base e.ace) [
      | none ↦ none
      | some ace' ↦
          some (record {
            ace = ace';
            delta = 0;
            bias = adapt e.delta (e.h + 1) (e.h == b);
            h = e.h + 1;
          })
    ])
    else some e

unfoldable pub encode_pass : ℕ → ℕ → List ℕ → Encoding → Option Encoding
unfolding encode_char
encode_pass b n [] e = some e
encode_pass b n (c ∷ cs) e = elim (encode_char b n c e) [
  | none ↦ none
  | some e' ↦ encode_pass b n cs e'
]

-- What a round adds to the delta before its pass.
unfoldable pub advance : ℕ → ℕ → Encoding → Option Encoding
advance n m e =
    if m == 2 ^ 32 - 1
    then none
    else if ltb (e.delta + (m - n) * (e.h + 1)) (2 ^ 32)
    then some
        (record { ace = e.ace; delta = e.delta + (m - n) * (e.h + 1); bias = e.bias; h = e.h })
    else none

abbrev next_delta : Encoding → Encoding
next_delta e = record { ace = e.ace; delta = e.delta + 1; bias = e.bias; h = e.h }

abbrev end_round : ℕ → Option Encoding → Option Encoding
end_round m none = none
end_round m (some e) =
    if ltb (e.delta + 1) (2 ^ 32) && ltb (m + 1) (2 ^ 32) then some (next_delta e) else none

unfoldable pub encode_round : ℕ → ℕ → List ℕ → Encoding → Option Encoding
unfolding advance encode_pass
encode_round b n cs e =
    let m = least_from n cs (2 ^ 32 - 1) in
    elim (advance n m e) [ none ↦ none | some e' ↦ end_round m (encode_pass b m cs e') ]

-- The rounds: each encodes at least one code point, so there are as many as code points at most.
unfoldable pub encode_rounds : ℕ → ℕ → ℕ → List ℕ → Encoding → Option Bytes
unfolding least_from encode_round
encode_rounds zero b n cs e = if ltb e.h (length cs) then none else some e.ace
encode_rounds (suc fuel) b n cs e =
    if ltb e.h (length cs)
    then (elim (encode_round b n cs e) [
      | none ↦ none
      | some e' ↦ encode_rounds fuel b (least_from n cs (2 ^ 32 - 1) + 1) cs e'
    ])
    else some e.ace

abbrev with_dash : ℕ → Bytes → Option Bytes
with_dash b ace = if ltb 0 b then push_ascii ace b'-' else some ace

unfoldable pub encode_punycode : List ℕ → Option Bytes
unfolding push_ascii push_basic encode_rounds
encode_punycode cs =
    if ltb max_label_code_points (length cs) then none else (elim (push_basic cs [] 0) [
      | none ↦ none
      | some (ace, b) ↦ elim (with_dash b ace) [
        | none ↦ none
        | some ace' ↦
            encode_rounds (length cs) b initial_n cs
              (record { ace = ace'; delta = 0; bias = initial_bias; h = b })
      ]
    ])
