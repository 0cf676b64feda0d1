-- ===== src/Percent/Codec.antt =====
-- src/parser/percent.rs, the encoder and the decoder. An output buffer is the text written so far,
-- and appending to it is `++`; a `char` is the bytes of its UTF-8 form.
use sorug.Percent.Sets.{
  in_fragment_encode_set, in_path_encode_set, in_query_encode_set, in_special_query_encode_set,
}
use sorug.Scan.Memchr.{Memchr}
use sorug.Common.{
  ℕ, ◌+◌, ◌-◌, ◌*◌, ◌/◌, ◌%◌, bit_and, bit_or, Bool, ◌||◌, [], ◌∷◌, ◌++◌, Option, none, some, Bytes,
  codes, any, take, drop, get_or, position, ltb, within, ◌==◌, if◌then◌else◌,
}

abbrev pub hex_table : Bytes
hex_table = codes "0123456789ABCDEF"

-- The three bytes that stand for one.
unfoldable pub escape : ℕ → Bytes
escape byte = b'%' ∷ get_or hex_table (byte / 16) 0 ∷ get_or hex_table (bit_and byte 0xf) 0 ∷ []

unfoldable pub append_percent : Bytes → ℕ → Bytes
unfolding escape
append_percent out byte = out ++ escape byte

unfoldable pub percent_encode_bytes : Bytes → (ℕ → Bool) → Bytes → Bytes
unfolding append_percent
percent_encode_bytes [] encode out = out
percent_encode_bytes (b ∷ bs) encode out =
    percent_encode_bytes bs encode
      (if ltb 0x7f b || encode b then append_percent out b else out ++ b ∷ [])

-- `find_first_encode` of src/parser/scan.rs.
abbrev pub find_first_encode : Bytes → (ℕ → Bool) → Option ℕ
find_first_encode bytes needs_encode = position needs_encode bytes

-- The two inner loops of `utf8_percent_encode`, from the current byte on: `safe_run` has the bytes of
-- the run so far, which are copied in bulk at its end; `encode_run` writes byte by byte.
unfoldable mutual
  unfolding append_percent

  pub safe_run : (ℕ → Bool) → Bytes → Bytes → Bytes → Bytes
  safe_run encode [] run out = out ++ run
  safe_run encode (b ∷ bs) run out =
      let stop = encode_run encode bs (append_percent (out ++ run) b) in
      let go = safe_run encode bs (run ++ b ∷ []) out in if encode b then stop else go

  pub encode_run : (ℕ → Bool) → Bytes → Bytes → Bytes
  encode_run encode [] out = out
  encode_run encode (b ∷ bs) out =
      let go = encode_run encode bs (append_percent out b) in
      let stop = safe_run encode bs (b ∷ []) out in if encode b then go else stop

unfoldable pub utf8_percent_encode : Bytes → (ℕ → Bool) → Bytes → Bytes
unfolding safe_run encode_run
utf8_percent_encode input encode out = elim (find_first_encode input encode) [
  | none ↦ out ++ input
  | some first ↦ safe_run encode (drop first input) [] (out ++ take first input)
]

unfoldable pub append_all_percent : Bytes → Bytes → Bytes
unfolding append_percent
append_all_percent [] out = out
append_all_percent (b ∷ bs) out = append_all_percent bs (append_percent out b)

unfoldable pub percent_encode_char : Bytes → (ℕ → Bool) → Bytes → Bytes
unfolding append_all_percent
percent_encode_char c encode out = if any encode c then append_all_percent c out else out ++ c

unfoldable pub append_path_segment : Bytes → Bytes → Bytes
unfolding utf8_percent_encode in_path_encode_set
append_path_segment segment out = utf8_percent_encode segment in_path_encode_set out

unfoldable pub append_query : Bytes → Bool → Bytes → Bytes
unfolding utf8_percent_encode in_query_encode_set in_special_query_encode_set
append_query segment special out =
    if special
    then utf8_percent_encode segment in_special_query_encode_set out
    else utf8_percent_encode segment in_query_encode_set out

unfoldable pub append_fragment : Bytes → Bytes → Bytes
unfolding utf8_percent_encode in_fragment_encode_set
append_fragment segment out = utf8_percent_encode segment in_fragment_encode_set out

unfoldable pub from_hex : ℕ → Option ℕ
from_hex b =
    if within b'0' b'9' b
    then some (b - b'0')
    else if within b'a' b'f' b
    then some (b - b'a' + 10)
    else if within b'A' b'F' b
    then some (b - b'A' + 10)
    else none

-- Two digits as a byte, if both are.
unfoldable pub hex_pair : ℕ → ℕ → Option ℕ
unfolding from_hex
hex_pair a b = elim (from_hex a) [
  | none ↦ none
  | some h ↦ elim (from_hex b) [ none ↦ none | some l ↦ some (bit_or (h * 16 % 256) l) ]
]

-- The loop of `percent_decode`, on the unread bytes.
unfoldable pub decode_loop : Bytes → Bytes
unfolding hex_pair
decode_loop [] = []
decode_loop (c ∷ []) = c ∷ []
decode_loop (c ∷ a ∷ []) = c ∷ a ∷ []
decode_loop (c ∷ a ∷ b ∷ rest) =
    let decoded = decode_loop rest in
    let kept = c ∷ decode_loop (a ∷ b ∷ rest) in
    if c == b'%' then (elim (hex_pair a b) [ none ↦ kept | some v ↦ v ∷ decoded ]) else kept

unfoldable pub percent_decode : Memchr → Bytes → Bytes
unfolding decode_loop
percent_decode m input = elim (m.memchr b'%' input) [ none ↦ input | some _ ↦ decode_loop input ]
