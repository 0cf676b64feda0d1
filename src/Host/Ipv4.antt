-- ===== src/Host/Ipv4.antt =====
-- src/parser/host.rs, IPv4: numbers in three radixes, addresses of up to four numbers, and how an
-- address is written. An address is its 32-bit value.
pub mod RoundTrip
pub mod Sums
use sorug.Common.{
  zero, suc, ℕ, suc, ◌+◌, ◌-◌, ◌*◌, ◌/◌, ◌%◌, ◌^◌, Bool, true, false, ◌&&◌, ◌||◌, List, [], ◌∷◌,
  ◌++◌, reverse, Option, none, some, Bytes, bytes_eq, codes, length, drop, any, all, ltb, leb,
  within, ◌==◌, if◌then◌else◌,
}

abbrev pub is_ascii_digit : ℕ → Bool
is_ascii_digit = within b'0' b'9'

abbrev pub is_ascii_hexdigit : ℕ → Bool
is_ascii_hexdigit c = within b'0' b'9' c || within b'a' b'f' c || within b'A' b'F' c

-- `split(sep)`: the parts between separators, of which there is at least one.
abbrev pub cons_first : ℕ → List Bytes → List Bytes
cons_first c [] = (c ∷ []) ∷ []
cons_first c (p ∷ ps) = (c ∷ p) ∷ ps

unfoldable pub split_on : ℕ → Bytes → List Bytes
split_on sep [] = [] ∷ []
split_on sep (c ∷ s) =
    let rest = split_on sep s in if c == sep then [] ∷ rest else cons_first c rest

-- `u32::from_str_radix` on digits of the radix: their value, if it has 32 bits.
abbrev digit_value : ℕ → ℕ
digit_value c =
    if within b'0' b'9' c
    then c - b'0'
    else if within b'a' b'f' c
    then c - b'a' + 10
    else c - b'A' + 10

unfoldable pub digits_value : ℕ → Bytes → ℕ → ℕ
digits_value radix [] value = value
digits_value radix (c ∷ s) value = digits_value radix s (value * radix + digit_value c)

unfoldable pub from_str_radix : ℕ → Bytes → Option ℕ
unfolding digits_value
from_str_radix radix s =
    let value = digits_value radix s 0 in if ltb value (2 ^ 32) then some value else none

-- The radix and the digits, without their prefix.
unfoldable pub radix_of : Bytes → ℕ × Bytes
radix_of (zero_digit ∷ x ∷ rest) =
    if zero_digit == b'0' && (x == b'x' || x == b'X')
    then (16, rest)
    else if zero_digit == b'0'
    then (8, x ∷ rest)
    else (10, zero_digit ∷ x ∷ rest)
radix_of input = (10, input)

unfoldable pub valid_digits : ℕ → Bytes → Bool
valid_digits radix input =
    if radix == 8
    then all (within b'0' b'7') input
    else if radix == 10
    then all is_ascii_digit input
    else if radix == 16
    then all is_ascii_hexdigit input
    else false

-- An error is `none`, and a value of more than 32 bits `some none`.
unfoldable pub number_value : ℕ → Bytes → Option (Option ℕ)
unfolding valid_digits from_str_radix
number_value radix [] = some (some 0)
number_value radix (c ∷ s) =
    if valid_digits radix (c ∷ s) then some (from_str_radix radix (c ∷ s)) else none

unfoldable pub parse_ipv4_number : Bytes → Option (Option ℕ)
unfolding radix_of number_value
parse_ipv4_number [] = none
parse_ipv4_number (c ∷ s) = let (radix, digits) = radix_of (c ∷ s) in number_value radix digits

unfoldable pub is_number_part : Bytes → Bool
unfolding parse_ipv4_number
is_number_part [] = false
is_number_part (c ∷ s) =
    all is_ascii_digit (c ∷ s)
    || (elim (parse_ipv4_number (c ∷ s)) [ none ↦ false | some _ ↦ true ])

-- The last part, or the one before it if the last is empty; the parts are in reverse.
abbrev last_part : List Bytes → Bytes
last_part [] = []
last_part ([] ∷ []) = []
last_part ([] ∷ p ∷ ps) = p
last_part ((c ∷ s) ∷ ps) = c ∷ s

unfoldable pub ends_in_a_number : Bytes → Bool
unfolding split_on is_number_part
ends_in_a_number input = is_number_part (last_part (reverse (split_on b'.' input)))

-- `parts.pop()` if the last part is empty.
unfoldable pub drop_empty_last : List Bytes → List Bytes
drop_empty_last [] = []
drop_empty_last (p ∷ []) = if length p == 0 then [] else p ∷ []
drop_empty_last (p ∷ q ∷ ps) = p ∷ drop_empty_last (q ∷ ps)

-- One round of the loop over the parts, before the later ones.
abbrev pub push_number : Option (Option ℕ) → Option (List ℕ) → Option (List ℕ)
push_number (some (some n)) (some ns) = some (n ∷ ns)
push_number _ _ = none

unfoldable pub parse_numbers : List Bytes → Option (List ℕ)
unfolding parse_ipv4_number
parse_numbers [] = some []
parse_numbers (p ∷ ps) = push_number (parse_ipv4_number p) (parse_numbers ps)

-- `pop().unwrap()` on a vector that is not empty.
unfoldable pub pop_last : ℕ → List ℕ → List ℕ × ℕ
pop_last x [] = ([], x)
pop_last x (y ∷ ys) = let (before, last) = pop_last y ys in (x ∷ before, last)

-- The loop that adds the numbers before the last one, from the count `counter` on.
unfoldable pub add_numbers : ℕ → List ℕ → ℕ → ℕ
add_numbers counter [] ipv4 = ipv4
add_numbers counter (n ∷ ns) ipv4 =
    add_numbers (counter + 1) ns ((ipv4 + n * 2 ^ (8 * (3 - counter)) % 2 ^ 32) % 2 ^ 32)

unfoldable pub ipv4_of_numbers : List ℕ → Option ℕ
unfolding pop_last add_numbers
ipv4_of_numbers [] = none
ipv4_of_numbers (x ∷ xs) =
    let (numbers, ipv4) = pop_last x xs in
    if ltb ((2 ^ 32 - 1) / 2 ^ (8 * length numbers)) ipv4
    then none
    else if any (ltb 255) numbers
    then none
    else some (add_numbers 0 numbers ipv4)

unfoldable pub parse_ipv4 : Bytes → Option ℕ
unfolding split_on drop_empty_last parse_numbers ipv4_of_numbers
parse_ipv4 input =
    let parts = drop_empty_last (split_on b'.' input) in
    if ltb 4 (length parts)
    then none
    else (elim (parse_numbers parts) [ none ↦ none | some numbers ↦ ipv4_of_numbers numbers ])

-- The decimal digits of one octet.
unfoldable pub octet_digits : ℕ → Bytes
octet_digits o =
    if leb 100 o
    then (b'0' + o / 100) ∷ (b'0' + o / 10 % 10) ∷ (b'0' + o % 10) ∷ []
    else if leb 10 o
    then (b'0' + o / 10) ∷ (b'0' + o % 10) ∷ []
    else (b'0' + o) ∷ []

-- `Ipv4Addr::octets`, the highest first.
abbrev pub octets : ℕ → List ℕ
octets ip = (ip / 2 ^ 24 % 256) ∷ (ip / 2 ^ 16 % 256) ∷ (ip / 2 ^ 8 % 256) ∷ (ip % 256) ∷ []

unfoldable pub write_octets : Bool → List ℕ → Bytes → Bytes
unfolding octet_digits
write_octets first [] out = out
write_octets first (o ∷ os) out =
    write_octets false os ((if first then out else out ++ b'.' ∷ []) ++ octet_digits o)

unfoldable pub write_ipv4_to : Bytes → ℕ → Bytes
unfolding write_octets
write_ipv4_to out ip = write_octets true (octets ip) out

-- `Display` of the standard library: a number of up to three digits, and an address.
unfoldable pub decimal : ℕ → ℕ → Bytes
decimal zero n = []
decimal (suc digits) n =
    let more = decimal digits (n / 10) in
    if ltb n 10 then (b'0' + n) ∷ [] else more ++ (b'0' + n % 10) ∷ []

unfoldable pub ipv4_text : ℕ → Bytes
unfolding decimal
ipv4_text ip =
    decimal 3 (ip / 2 ^ 24 % 256)
    ++ b'.'
      ∷ (decimal 3 (ip / 2 ^ 16 % 256)
          ++ b'.' ∷ (decimal 3 (ip / 2 ^ 8 % 256) ++ b'.' ∷ decimal 3 (ip % 256)))
