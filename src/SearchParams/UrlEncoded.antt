-- ===== src/SearchParams/UrlEncoded.antt =====
-- src/search_params.rs, `application/x-www-form-urlencoded`: the parser and the serializer. Whether
-- bytes are UTF-8, and what `from_utf8_lossy` makes of those that are not, is the standard library's.
pub mod Serialize
pub mod Parse
pub mod RoundTrip
use sorug.Percent.Codec.{append_percent, percent_decode}
use sorug.Scan.Memchr.{Memchr}
use sorug.Common.{
  ℕ, zero, suc, ◌+◌, Bool, true, false, ◌||◌, List, [], ◌∷◌, ◌++◌, map, Option, none, some, Bytes,
  length, take, drop, position, within, ◌==◌, if◌then◌else◌,
}

pub record Utf8 : Type 0 where
  pub is_utf8 : Bytes → Bool
  pub lossy : Bytes → Bytes

abbrev pub Pair : Type 0
Pair = Bytes × Bytes

-- `splitn(2, |&b| b == sep)`: what stands before the first separator, and what follows it.
unfoldable pub split_first : ℕ → Bytes → Bytes × Option Bytes
split_first sep [] = ([], none)
split_first sep (c ∷ s) =
    let (before, after) = split_first sep s in
    if c == sep then ([], some s) else (c ∷ before, after)

abbrev pub or_empty : Option Bytes → Bytes
or_empty none = []
or_empty (some s) = s

abbrev pub plus_to_space : ℕ → ℕ
plus_to_space b = if b == b'+' then b' ' else b

unfoldable pub replace_plus : Bytes → Bytes
replace_plus input = elim (position (λ b. b == b'+') input) [
  | none ↦ input
  | some first ↦ take first input ++ b' ' ∷ map plus_to_space (drop (suc first) input)
]

unfoldable pub byte_serialized_unchanged : ℕ → Bool
byte_serialized_unchanged b =
    b == b'*'
    || b == b'-'
    || b == b'.'
    || within b'0' b'9' b
    || within b'A' b'Z' b
    || b == b'_'
    || within b'a' b'z' b

-- The loop of `append_urlencoded`: `plain_loop` at its head, `run_loop` inside a run of bytes that are
-- copied in bulk at its end.
unfoldable mutual
  unfolding append_percent byte_serialized_unchanged

  pub plain_loop : Bytes → Bytes → Bytes
  plain_loop [] out = out
  plain_loop (b ∷ bs) out =
      let run = run_loop bs (b ∷ []) out in
      let next = plain_loop bs (if b == b' ' then out ++ b'+' ∷ [] else append_percent out b) in
      if byte_serialized_unchanged b then run else next

  pub run_loop : Bytes → Bytes → Bytes → Bytes
  run_loop [] run out = out ++ run
  run_loop (b ∷ bs) run out =
      let longer = run_loop bs (run ++ b ∷ []) out in
      let next =
        plain_loop bs
          (if b == b' ' then (out ++ run) ++ b'+' ∷ [] else append_percent (out ++ run) b) in
      if byte_serialized_unchanged b then longer else next

unfoldable pub append_urlencoded : Bytes → Bytes → Bytes
unfolding plain_loop run_loop
append_urlencoded bytes out = plain_loop bytes out

-- The loop of `serialize_urlencoded`; the flag is `i > 0`.
unfoldable pub serialize_loop : List Pair → Bool → Bytes → Bytes
unfolding append_urlencoded
serialize_loop [] later out = out
serialize_loop ((name, value) ∷ pairs) later out =
    let separated = if later then out ++ b'&' ∷ [] else out in
    let named = append_urlencoded name separated ++ b'=' ∷ [] in
    serialize_loop pairs true (append_urlencoded value named)

unfoldable pub serialize_urlencoded : List Pair → Bytes
unfolding serialize_loop
serialize_urlencoded pairs = serialize_loop pairs false []

module _ (m : Memchr) (u : Utf8) where
  unfoldable pub decode_urlencoded : Bytes → Bytes
  unfolding percent_decode replace_plus
  decode_urlencoded input =
      let bytes = percent_decode m (replace_plus input) in
      if u.is_utf8 bytes then bytes else u.lossy bytes

  unfoldable pub decode_pair : Bytes → Pair
  unfolding decode_urlencoded split_first
  decode_pair sequence =
      let (name, value) = split_first b'=' sequence in
      (decode_urlencoded name, decode_urlencoded (or_empty value))

  -- `Parse::next` until it ends. A round takes a sequence off the input, and gives no pair for an
  -- empty one; the first argument is fuel.
  unfoldable pub parse_loop : ℕ → Bytes → List Pair
  unfolding split_first decode_pair
  parse_loop zero input = []
  parse_loop (suc fuel) [] = []
  parse_loop (suc fuel) (c ∷ s) =
      let (sequence, rest) = split_first b'&' (c ∷ s) in
      let later = parse_loop fuel (or_empty rest) in
      if length sequence == 0 then later else decode_pair sequence ∷ later

  -- Each round takes a byte at least.
  unfoldable pub parse_urlencoded : Bytes → List Pair
  unfolding parse_loop
  parse_urlencoded input = parse_loop (length input) input
