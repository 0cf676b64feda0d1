-- ===== src/Punycode.antt =====
-- src/parser/punycode.rs, the decoder of an ACE label (RFC 3492). A checked operation on `u32` that
-- overflows is `none`.
pub mod Chars
pub mod Digits
pub mod Encoder
pub mod Tests
use sorug.Common.{
  ℕ, zero, suc, ◌+◌, ◌-◌, ◌*◌, ◌/◌, ◌%◌, ◌^◌, Bool, true, false, ◌&&◌, ◌||◌, List, [], ◌∷◌, ◌++◌,
  Option, none, some, Bytes, length, take, drop, all, ltb, leb, within, ◌==◌, if◌then◌else◌,
}

abbrev pub base : ℕ
base = 36

abbrev pub tmin : ℕ
tmin = 1

abbrev pub tmax : ℕ
tmax = 26

abbrev pub skew : ℕ
skew = 38

abbrev pub damp : ℕ
damp = 700

abbrev pub initial_bias : ℕ
initial_bias = 72

abbrev pub initial_n : ℕ
initial_n = 0x80

-- The loop of `adapt`: seven rounds are enough for 32 bits.
unfoldable pub adapt_loop : ℕ → ℕ → ℕ → ℕ × ℕ
adapt_loop zero delta k = (delta, k)
adapt_loop (suc fuel) delta k =
    let next = adapt_loop fuel (delta / (base - tmin)) (k + base) in
    if ltb ((base - tmin) * tmax / 2) delta then next else (delta, k)

unfoldable pub adapt : ℕ → ℕ → Bool → ℕ
unfolding adapt_loop
adapt delta num_points first_time =
    let halved = if first_time then delta / damp else delta / 2 in
    let (d, k) = adapt_loop 7 (halved + halved / num_points) 0 in
    k + (base - tmin + 1) * d / (d + skew)

unfoldable pub digit_to_byte : ℕ → Option ℕ
digit_to_byte d =
    if leb d 25 then some (b'a' + d) else if leb d 35 then some (b'0' + (d - 26)) else none

unfoldable pub byte_to_digit : ℕ → Option ℕ
byte_to_digit b =
    if within b'a' b'z' b
    then some (b - b'a')
    else if within b'A' b'Z' b
    then some (b - b'A')
    else if within b'0' b'9' b
    then some (b - b'0' + 26)
    else none

abbrev pub threshold : ℕ → ℕ → ℕ
threshold k bias = if leb k bias then tmin else if leb (bias + tmax) k then tmax else k - bias

-- One digit of a number: an overflow, the last digit, or one that others follow (the number so far,
-- the weight of the next digit, and its `k`).
pub data Digit : Type 0 where
  overflow : Digit
  last : ℕ → Digit
  more : ℕ → ℕ → ℕ → Digit

unfoldable pub take_digit : ℕ → ℕ → ℕ → ℕ → ℕ → Digit
take_digit bias digit i w k =
    let t = threshold k bias in
    if ltb (i + digit * w) (2 ^ 32)
    then if ltb digit t
      then last (i + digit * w)
      else if ltb (w * (base - t)) (2 ^ 32) && ltb (k + base) (2 ^ 32)
      then more (i + digit * w) (w * (base - t)) (k + base)
      else overflow
    else overflow

-- The inner loop: the number, and what is unread.
unfoldable pub decode_number : ℕ → Bytes → ℕ → ℕ → ℕ → Option (ℕ × Bytes)
unfolding byte_to_digit take_digit
decode_number bias [] i w k = none
decode_number bias (b ∷ rest) i w k = elim (byte_to_digit b) [
  | none ↦ none
  | some digit ↦ elim (take_digit bias digit i w k) [
    | overflow ↦ none
    | last i' ↦ some (i', rest)
    | more i' w' k' ↦ decode_number bias rest i' w' k'
  ]
]

-- `char::from_u32`
abbrev pub is_char : ℕ → Bool
is_char n = ltb n 0xd800 || ltb 0xdfff n && ltb n 0x11_0000

pub record Decoding : Type 0 where
  pub output : List ℕ
  pub n : ℕ
  pub i : ℕ
  pub bias : ℕ

abbrev pub insert_char : List ℕ → ℕ → ℕ → List ℕ
insert_char output i c = take i output ++ c ∷ drop i output

abbrev pub max_label_code_points : ℕ
max_label_code_points = 2048

-- A number is read: the next code point is put in.
unfoldable pub put_char : Decoding → ℕ → Option Decoding
unfolding adapt
put_char d i =
    let len = length d.output + 1 in
    let n = d.n + i / len in
    if leb max_label_code_points (length d.output)
    then none
    else if ltb n (2 ^ 32) && is_char n
    then some (record {
      output = insert_char d.output (i % len) n;
      n = n;
      i = i % len + 1;
      bias = adapt (i - d.i) len (d.i == 0);
    })
    else none

unfoldable pub decode_round : Decoding → Bytes → Option (Decoding × Bytes)
unfolding decode_number put_char
decode_round d rest = elim (decode_number d.bias rest d.i 1 base) [
  | none ↦ none
  | some (i, rest') ↦ elim (put_char d i) [ none ↦ none | some d' ↦ some (d', rest') ]
]

unfoldable pub decode_rounds : ℕ → Decoding → Bytes → Option (List ℕ)
unfolding decode_round
decode_rounds fuel d [] = some d.output
decode_rounds zero d (b ∷ rest) = none
decode_rounds (suc fuel) d (b ∷ rest) = elim (decode_round d (b ∷ rest)) [
  | none ↦ none
  | some (d', rest') ↦ decode_rounds fuel d' rest'
]

-- What stands before the last dash, and behind it.
unfoldable pub split_at_dash : Bytes → Option (Bytes × Bytes)
split_at_dash [] = none
split_at_dash (b ∷ s) = elim (split_at_dash s) [
  | none ↦ if b == b'-' then some ([], s) else none
  | some (basic, rest) ↦ some (b ∷ basic, rest)
]

abbrev from_basic : Bytes → Decoding
from_basic basic = record { output = basic; n = initial_n; i = 0; bias = initial_bias }

abbrev basic_and_rest : Bytes → Option (Bytes × Bytes) → Bytes × Bytes
basic_and_rest input none = ([], input)
basic_and_rest input (some parts) = parts

unfoldable pub decode_parts : Bytes × Bytes → Option (List ℕ)
unfolding decode_rounds
decode_parts (basic, rest) =
    if all (λ b. ltb b 0x80) basic
    then decode_rounds (length rest) (from_basic basic) rest
    else none

unfoldable pub decode_punycode : Bytes → Option (List ℕ)
unfolding split_at_dash decode_parts
decode_punycode input = decode_parts (basic_and_rest input (split_at_dash input))
