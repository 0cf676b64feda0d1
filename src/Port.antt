-- ===== src/Port.antt =====
-- src/parser/mod.rs, ports: how they are read, in a URL and by the setter, and how they are written;
-- and src/parser/scheme.rs, whose default ports are left out. An `Input` is its unread code points,
-- of which tabs and newlines are skipped.
pub mod RoundTrip
pub mod Tests
use sorug.Common.{
  ℕ, zero, suc, ◌+◌, ◌-◌, ◌*◌, ◌/◌, ◌%◌, ◌^◌, Bool, true, false, not, ◌||◌, List, [], ◌∷◌, Option,
  none, some, Bytes, bytes_eq, codes, ltb, within, ◌==◌, if◌then◌else◌,
}

pub data SchemeType : Type 0 where
  file : SchemeType
  special_not_file : SchemeType
  not_special : SchemeType

unfoldable pub is_special : SchemeType → Bool
is_special not_special = false
is_special file = true
is_special special_not_file = true

unfoldable pub is_file : SchemeType → Bool
is_file file = true
is_file special_not_file = false
is_file not_special = false

-- `SchemeType::from`
unfoldable pub scheme_type : Bytes → SchemeType
unfolding bytes_eq
scheme_type s =
    if bytes_eq s (codes "http")
      || bytes_eq s (codes "https")
      || bytes_eq s (codes "ws")
      || bytes_eq s (codes "wss")
      || bytes_eq s (codes "ftp")
    then special_not_file
    else if bytes_eq s (codes "file")
    then file
    else not_special

unfoldable pub default_port : Bytes → Option ℕ
unfolding bytes_eq
default_port scheme =
    if bytes_eq scheme (codes "http") || bytes_eq scheme (codes "ws")
    then some 80
    else if bytes_eq scheme (codes "https") || bytes_eq scheme (codes "wss")
    then some 443
    else if bytes_eq scheme (codes "ftp")
    then some 21
    else none

unfoldable pub default_port_for_scheme : Bytes → Option ℕ
unfolding default_port
default_port_for_scheme scheme = default_port scheme

abbrev pub is_ignored : ℕ → Bool
is_ignored c = c == b'\t' || c == b'\n' || c == b'\r'

abbrev pub ends_port : ℕ → Bool
ends_port c = c == b'/' || c == b'\\' || c == b'?' || c == b'#'

-- The loop over the digits: `s` is what the iterator has not seen, and `input` what the parser goes
-- on with if the port ends here. A code point that is no digit ends the port, or is an error.
unfoldable pub port_loop : (ℕ → Bool) → List ℕ → List ℕ → ℕ → Bool → Option (ℕ × Bool × List ℕ)
port_loop stops [] input port has_any_digit = some (port, has_any_digit, input)
port_loop stops (c ∷ s) input port has_any_digit =
    let skipped = port_loop stops s input port has_any_digit in
    let next = port_loop stops s s (port * 10 + (c - b'0')) true in
    if is_ignored c
    then skipped
    else if within b'0' b'9' c
    then if ltb 65535 (port * 10 + (c - b'0')) then none else next
    else if stops c
    then some (port, has_any_digit, input)
    else none

abbrev pub is_default : ℕ → Option ℕ → Bool
is_default port none = false
is_default port (some d) = port == d

abbrev pub opt_port : ℕ → Bool → Option ℕ → Option ℕ
opt_port port has_any_digit default =
    if not has_any_digit || is_default (port % 2 ^ 16) default then none else some (port % 2 ^ 16)

-- What the two parsers make of the loop's result: the setter fails if there is no digit.
abbrev pub finish_port : Option ℕ → Option (ℕ × Bool × List ℕ) → Option (Option ℕ × List ℕ)
finish_port default none = none
finish_port default (some (port, has_any_digit, rest)) =
    some (opt_port port has_any_digit default, rest)

abbrev pub finish_port_setter : Option ℕ → Option (ℕ × Bool × List ℕ) → Option (Option ℕ × List ℕ)
finish_port_setter default none = none
finish_port_setter default (some (port, false, rest)) = none
finish_port_setter default (some (port, true, rest)) = some (opt_port port true default, rest)

unfoldable pub parse_port : List ℕ → Option ℕ → Option (Option ℕ × List ℕ)
unfolding port_loop
parse_port input default = finish_port default (port_loop ends_port input input 0 false)

unfoldable pub parse_port_setter : List ℕ → Option ℕ → Option (Option ℕ × List ℕ)
unfolding port_loop
parse_port_setter input default =
    finish_port_setter default (port_loop (λ c. true) input input 0 false)

-- The digits of a number of 16 bits: the loop of `itoa_buf`, for which five rounds are enough.
unfoldable pub itoa_loop : ℕ → ℕ → Bytes → Bytes
itoa_loop zero value buf = buf
itoa_loop (suc fuel) value buf =
    let longer = itoa_loop fuel (value / 10) ((b'0' + value % 10) ∷ buf) in
    if value == 0 then buf else longer

unfoldable pub itoa_buf : ℕ → Bytes
unfolding itoa_loop
itoa_buf value = if value == 0 then b'0' ∷ [] else itoa_loop 5 value []
