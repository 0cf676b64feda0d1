-- ===== src/Host/Opaque.antt =====
-- src/parser/host.rs, `parse_opaque_host`: the host of a URL whose scheme is not special.
use sorug.Buffer.Defs.{encode_utf8}
use sorug.Host.Ipv6.{parse_ipv6}
use sorug.Percent.Codec.{escape, utf8_percent_encode}
use sorug.Percent.Encode.{encoded, utf8_percent_encode-encoded}
use sorug.Percent.Sets.{in_c0_encode_set}
use sorug.Common.{
  codes, ℕ, ◌<◌, Bool, true, false, not, ◌&&◌, ◌||◌, List, [], ◌∷◌, Option, none, some, Bytes,
  IsByte, IsBytes, All, All-append, all_below, all_below_sound, all, all_sound, any, flat_map, ltb,
  ◌==◌, if◌then◌else◌, Bool-cases, inl, inr, ◌≡◌, refl, subst, arith,
}

-- `Host`; an IPv4 address is its value, an IPv6 address its pieces.
pub data Host : Type 0 where
  domain : Bytes → Host
  ipv4 : ℕ → Host
  ipv6 : List ℕ → Host

abbrev pub is_stripped : ℕ → Bool
is_stripped b = b == b'\t' || b == b'\n' || b == b'\r'

abbrev strip : Bytes → Bytes
strip [] = []
strip (b ∷ s) = if is_stripped b then strip s else b ∷ strip s

-- Tabs and newlines are left out; then each byte that is left is taken for a code point of its own.
unfoldable pub cleaned : Bytes → Bytes
unfolding encode_utf8 flat_map
cleaned input = if any is_stripped input then flat_map encode_utf8 (strip input) else input

-- `strip_suffix(']')`
unfoldable pub without_bracket : Bytes → Option Bytes
without_bracket [] = none
without_bracket (c ∷ []) = if c == b']' then some [] else none
without_bracket (c ∷ d ∷ s) = elim (without_bracket (d ∷ s)) [
  | none ↦ none
  | some inner ↦ some (c ∷ inner)
]

unfoldable pub is_forbidden_host_code_point : ℕ → Bool
is_forbidden_host_code_point c =
    c == 0
    || c == b'\t'
    || c == b'\n'
    || c == b'\r'
    || c == b' '
    || c == b'#'
    || c == b'/'
    || c == b':'
    || c == b'<'
    || c == b'>'
    || c == b'?'
    || c == b'@'
    || c == b'['
    || c == b'\\'
    || c == b']'
    || c == b'^'
    || c == b'|'

abbrev as_ipv6 : Option (List ℕ) → Option Host
as_ipv6 none = none
as_ipv6 (some pieces) = some (ipv6 pieces)

unfoldable pub bracketed_host : Bytes → Option Host
unfolding without_bracket parse_ipv6
bracketed_host inner = elim (without_bracket inner) [
  | none ↦ none
  | some address ↦ as_ipv6 (parse_ipv6 address)
]

unfoldable pub encoded_host : Bytes → Option Host
unfolding is_forbidden_host_code_point utf8_percent_encode in_c0_encode_set
encoded_host s =
    if any is_forbidden_host_code_point s
    then none
    else some (domain (utf8_percent_encode s in_c0_encode_set []))

unfoldable pub after_cleaning : Bytes → Option Host
unfolding bracketed_host encoded_host
after_cleaning [] = encoded_host []
after_cleaning (c ∷ s) = if c == b'[' then bracketed_host s else encoded_host (c ∷ s)

unfoldable pub parse_opaque_host : Bytes → Option Host
unfolding cleaned after_cleaning
parse_opaque_host input = after_cleaning (cleaned input)

-- The delimiters that a host must not hold.
abbrev pub delimiters : Bytes
delimiters = codes "#/:<>?@[\\]^|"

-- A byte that an opaque host may hold: printable ASCII, neither a blank nor a delimiter.
abbrev pub IsHostByte : ℕ → Type 0
IsHostByte b = (0x20 < b) × (b < 0x7f) × (any (λ d. d == b) delimiters ≡ false)

abbrev host_byte : ℕ → Bool
host_byte b = ltb 0x20 b && ltb b 0x7f && not (any (λ d. d == b) delimiters)

escape_table : all_below 256 (λ b. all host_byte (escape b)) ≡ true
unfolding all_below escape
escape_table = refl

to_IsHostByte : (s : Bytes) → All (λ c. host_byte c ≡ true) s → All IsHostByte s
to_IsHostByte [] h = tt
to_IsHostByte (c ∷ s) (e, h) = (ground arith, to_IsHostByte s h)

escape-IsHostByte : (b : ℕ) → b < 256 → All IsHostByte (escape b)
escape-IsHostByte b lt = to_IsHostByte (escape b) (
    all_sound host_byte (escape b)
      (all_below_sound 256 (λ b. all host_byte (escape b)) b escape_table lt))

-- The space is forbidden, so what the set leaves as it is may stand in a host.
plain-IsHostByte :
    (b : ℕ) → in_c0_encode_set b ≡ false → is_forbidden_host_code_point b ≡ false → IsHostByte b
unfolding in_c0_encode_set is_forbidden_host_code_point
plain-IsHostByte b e f = ground arith

encoded-IsHostByte :
    (s : Bytes)
    → IsBytes s
    → any is_forbidden_host_code_point s ≡ false
    → All IsHostByte (encoded in_c0_encode_set s)
encoded-IsHostByte [] h e = tt
encoded-IsHostByte (b ∷ s) (lt, h) e = elim (Bool-cases (in_c0_encode_set b)) [
  | inl x ↦ rw x (
      All-append IsHostByte (escape b) _ (escape-IsHostByte b lt)
        (encoded-IsHostByte s h (ground arith)))
  | inr x ↦ rw x (plain-IsHostByte b x (ground arith), encoded-IsHostByte s h (ground arith))
]

abbrev byte : ℕ → Bool
byte b = ltb b 256

utf8_table : all_below 256 (λ b. all byte (encode_utf8 b)) ≡ true
unfolding all_below encode_utf8
utf8_table = refl

to_IsBytes : (s : Bytes) → All (λ c. byte c ≡ true) s → IsBytes s
to_IsBytes [] h = tt
to_IsBytes (c ∷ s) (e, h) = (ground arith, to_IsBytes s h)

strip-IsBytes : (s : Bytes) → IsBytes s → IsBytes (strip s)
strip-IsBytes [] h = tt
strip-IsBytes (b ∷ s) (lt, h) = ground (arith, strip-IsBytes s h)

flat_map-IsBytes : (s : Bytes) → IsBytes s → IsBytes (flat_map encode_utf8 s)
unfolding flat_map
flat_map-IsBytes [] h = tt
flat_map-IsBytes (b ∷ s) (lt, h) =
    All-append IsByte (encode_utf8 b) _
      (to_IsBytes (encode_utf8 b) (
        all_sound byte (encode_utf8 b)
          (all_below_sound 256 (λ b. all byte (encode_utf8 b)) b utf8_table lt)))
      (flat_map-IsBytes s h)

cleaned-IsBytes : (s : Bytes) → IsBytes s → IsBytes (cleaned s)
unfolding cleaned
cleaned-IsBytes s h = ground (arith, flat_map-IsBytes (strip s) (strip-IsBytes s h))

-- A host that is no address holds host bytes only.
abbrev IsClean : Option Host → Type 0
IsClean (some (domain d)) = All IsHostByte d
IsClean (some (ipv4 ip)) = Unit
IsClean (some (ipv6 pieces)) = Unit
IsClean none = Unit

as_ipv6-IsClean : (o : Option (List ℕ)) → IsClean (as_ipv6 o)
as_ipv6-IsClean none = tt
as_ipv6-IsClean (some pieces) = tt

bracketed_host-IsClean : (s : Bytes) → IsClean (bracketed_host s)
unfolding bracketed_host
bracketed_host-IsClean s = go (without_bracket s)
  where
    go :
        (o : Option Bytes)
        → IsClean (elim o as (λ x. Option Host) [
          | none ↦ none
          | some address ↦ as_ipv6 (parse_ipv6 address)
        ])
    go none = tt
    go (some address) = as_ipv6-IsClean (parse_ipv6 address)

encoded_host-IsClean : (s : Bytes) → IsBytes s → IsClean (encoded_host s)
unfolding encoded_host
encoded_host-IsClean s h = elim (Bool-cases (any is_forbidden_host_code_point s)) [
  | inl e ↦ rw e tt
  | inr e ↦ rw (e, utf8_percent_encode-encoded s in_c0_encode_set []) (encoded-IsHostByte s h e)
]

after_cleaning-IsClean : (s : Bytes) → IsBytes s → IsClean (after_cleaning s)
unfolding after_cleaning
after_cleaning-IsClean [] h = encoded_host-IsClean [] tt
after_cleaning-IsClean (c ∷ s) h =
    ground (arith, bracketed_host-IsClean s, encoded_host-IsClean (c ∷ s) h)

-- If the parser makes a domain of bytes, the domain is printable ASCII without a blank, and no byte
-- of it is one of the delimiters of a URL that a host must not hold.
pub parse_opaque_host-IsHostByte :
    (input d : Bytes) → IsBytes input → parse_opaque_host input ≡ some (domain d) → All IsHostByte d
unfolding parse_opaque_host
parse_opaque_host-IsHostByte input d h e =
    subst IsClean e (after_cleaning-IsClean (cleaned input) (cleaned-IsBytes input h))
