-- ===== src/Host/Special.antt =====
-- src/parser/host.rs, the hosts of special schemes: `parse_host`, and `append_host`, which writes the
-- host at once; and their ASCII domains, `to_ascii` and `to_ascii_append_validated` of
-- src/parser/punycode.rs.
pub mod Append
pub mod Printed
use sorug.Host.Ipv4.{ends_in_a_number, parse_ipv4, write_ipv4_to, ipv4_text}
use sorug.Host.Ipv6.{parse_ipv6}
use sorug.Host.Ipv6.Print.{write_ipv6_to, write_ipv6}
use sorug.Host.Opaque.{Host, domain, ipv4, ipv6, without_bracket}
use sorug.Percent.Codec.{percent_decode}
use sorug.Scan.Memchr.{Memchr}
use sorug.Common.{
  ℕ, ◌+◌, Bool, true, false, not, ◌||◌, List, [], ◌∷◌, ◌++◌, map, Option, none, some, Bytes, length,
  drop, any, all, leb, ltb, within, ◌==◌, if◌then◌else◌,
}

-- What is called with text that is not ASCII: what `to_ascii_into` of src/parser/punycode.rs appends
-- (the IDNA mapping), and the UTF-8 test of the standard library.
pub record Idna : Type 0 where
  pub to_ascii_into : Bytes → Option Bytes
  pub from_utf8 : Bytes → Bool

abbrev pub is_ascii_uppercase : ℕ → Bool
is_ascii_uppercase b = within b'A' b'Z' b

abbrev pub lower : ℕ → ℕ
lower b = if is_ascii_uppercase b then b + 32 else b

unfoldable pub lowercase_ascii : Bytes → Bytes
lowercase_ascii s = if any is_ascii_uppercase s then map lower s else s

abbrev pub is_forbidden_domain_byte : ℕ → Bool
is_forbidden_domain_byte b =
    leb b 0x1f
    || b == b' '
    || b == b'#'
    || b == b'/'
    || b == b':'
    || b == b'<'
    || b == b'>'
    || b == b'?'
    || b == b'@'
    || b == b'['
    || b == b'\\'
    || b == b']'
    || b == b'^'
    || b == b'|'
    || b == b'%'
    || b == 0x7f

unfoldable pub contains_forbidden_domain_code_point : Bytes → Bool
contains_forbidden_domain_code_point s = any is_forbidden_domain_byte s

abbrev pub is_ascii : Bytes → Bool
is_ascii s = all (λ b. ltb b 0x80) s

-- `AppendedHost`
pub data AppendedHost : Type 0 where
  empty_domain appended_domain appended_ipv4 appended_ipv6 : AppendedHost

-- `Display`, behind `out`; the standard library writes an IPv4 address as four decimal numbers.
unfoldable pub display : Bytes → Host → Bytes
unfolding ipv4_text write_ipv6
display out (domain d) = out ++ d
display out (ipv4 ip) = out ++ ipv4_text ip
display out (ipv6 pieces) = out ++ b'[' ∷ (write_ipv6 pieces ++ b']' ∷ [])

module _ (m : Memchr) (idna : Idna) where
  abbrev pub checked : Bytes → Option Bytes
  checked written =
      if length written == 0 || contains_forbidden_domain_code_point written
      then none
      else some written

  unfoldable pub to_ascii : Bytes → Option Bytes
  unfolding lowercase_ascii contains_forbidden_domain_code_point
  to_ascii [] = none
  to_ascii (c ∷ s) =
      let lower = lowercase_ascii (c ∷ s) in
      if is_ascii (c ∷ s)
      then if contains_forbidden_domain_code_point lower then none else some lower
      else (elim (idna.to_ascii_into (c ∷ s)) [ none ↦ none | some written ↦ checked written ])

  -- The text behind `start` is checked, as it stands in the buffer.
  abbrev pub check_written : Bytes → ℕ → Option Bytes
  check_written out start =
      if length (drop start out) == 0 || contains_forbidden_domain_code_point (drop start out)
      then none
      else some out

  unfoldable pub to_ascii_append_validated : Bytes → Bytes → Option Bytes
  unfolding contains_forbidden_domain_code_point
  to_ascii_append_validated [] out = none
  to_ascii_append_validated (c ∷ s) out =
      if is_ascii (c ∷ s)
      then if all (λ b. not (is_ascii_uppercase b)) (c ∷ s)
        then if contains_forbidden_domain_code_point (c ∷ s) then none else some (out ++ c ∷ s)
        else if contains_forbidden_domain_code_point (map lower (c ∷ s))
        then none
        else some (out ++ map lower (c ∷ s))
      else (elim (idna.to_ascii_into (c ∷ s)) [
        | none ↦ none
        | some written ↦ check_written (out ++ written) (length out)
      ])

  abbrev pub as_ipv4 : Option ℕ → Option Host
  as_ipv4 none = none
  as_ipv4 (some ip) = some (ipv4 ip)

  abbrev pub ascii_host : Bytes → Option Host
  ascii_host [] = none
  ascii_host (c ∷ s) =
      if ends_in_a_number (c ∷ s) then as_ipv4 (parse_ipv4 (c ∷ s)) else some (domain (c ∷ s))

  unfoldable pub domain_or_ipv4 : Bytes → Option Host
  unfolding to_ascii ends_in_a_number parse_ipv4
  domain_or_ipv4 decoded = elim (to_ascii decoded) [ none ↦ none | some ascii ↦ ascii_host ascii ]

  abbrev pub as_ipv6 : Option (List ℕ) → Option Host
  as_ipv6 none = none
  as_ipv6 (some pieces) = some (ipv6 pieces)

  abbrev pub bracketed : Bytes → Option Host
  bracketed inner = elim (without_bracket inner) [
    | none ↦ none
    | some address ↦ as_ipv6 (parse_ipv6 address)
  ]

  abbrev pub decoded_host : Bytes → Option Host
  decoded_host decoded = if idna.from_utf8 decoded then domain_or_ipv4 decoded else none

  unfoldable pub parse_host : Bytes → Option Host
  unfolding without_bracket parse_ipv6 percent_decode domain_or_ipv4
  parse_host [] = decoded_host (percent_decode m [])
  parse_host (c ∷ s) = if c == b'[' then bracketed s else decoded_host (percent_decode m (c ∷ s))

  -- The text that was appended behind `start` gives way to an address, if it is one.
  abbrev pub append_ipv4 : Bytes → Option ℕ → Option (AppendedHost × Bytes)
  append_ipv4 out none = none
  append_ipv4 out (some ip) = some (appended_ipv4, write_ipv4_to out ip)

  abbrev pub after_append : Bytes → Bytes → Option (AppendedHost × Bytes)
  after_append out written =
      let ascii = drop (length out) written in
      if length ascii == 0
      then none
      else if ends_in_a_number ascii
      then append_ipv4 out (parse_ipv4 ascii)
      else some (appended_domain, written)

  unfoldable pub append_domain_or_ipv4 : Bytes → Bytes → Option (AppendedHost × Bytes)
  unfolding to_ascii_append_validated ends_in_a_number parse_ipv4 write_ipv4_to
  append_domain_or_ipv4 decoded out = elim (to_ascii_append_validated decoded out) [
    | none ↦ none
    | some written ↦ after_append out written
  ]

  abbrev pub append_ipv6 : Bytes → Option (List ℕ) → Option (AppendedHost × Bytes)
  append_ipv6 out none = none
  append_ipv6 out (some pieces) =
      some (appended_ipv6, write_ipv6_to (out ++ b'[' ∷ []) pieces ++ b']' ∷ [])

  abbrev pub append_bracketed : Bytes → Bytes → Option (AppendedHost × Bytes)
  append_bracketed inner out = elim (without_bracket inner) [
    | none ↦ none
    | some address ↦ append_ipv6 out (parse_ipv6 address)
  ]

  abbrev pub append_decoded : Bytes → Bytes → Option (AppendedHost × Bytes)
  append_decoded decoded out =
      if idna.from_utf8 decoded then append_domain_or_ipv4 decoded out else none

  unfoldable pub append_host : Bytes → Bytes → Option (AppendedHost × Bytes)
  unfolding without_bracket parse_ipv6 write_ipv6_to percent_decode append_domain_or_ipv4
  append_host [] out = append_decoded (percent_decode m []) out
  append_host (c ∷ s) out =
      if c == b'[' then append_bracketed s out else append_decoded (percent_decode m (c ∷ s)) out
