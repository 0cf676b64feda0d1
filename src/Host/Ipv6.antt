-- ===== src/Host/Ipv6.antt =====
-- src/parser/host.rs, IPv6: the parser and the printer. An address is its eight 16-bit pieces. The
-- parser's position is the text that is still unread. An index outside the eight pieces panics, and so
-- does a loop of the model that runs out of fuel.
pub mod Bounds
pub mod Fuel
pub mod NoPanic
pub mod Print
pub mod Zeros
use sorug.Parser.Result.{Result, ok, err, panicked, failure, or_failure, ◌>>=◌}
use sorug.Common.{
  ℕ, zero, suc, ◌+◌, ◌-◌, ◌*◌, ◌/◌, ◌%◌, ◌^◌, Bool, true, false, ◌&&◌, ◌||◌, List, [], ◌∷◌, ◌++◌,
  not, Option, none, some, Bytes, codes, length, get_or, set, ltb, within, ◌==◌, if◌then◌else◌,
}

pub record Parsing : Type 0 where
  pub pieces : List ℕ
  pub piece_pointer : ℕ
  pub compress_pointer : Option ℕ

-- `char::to_digit(16)`
abbrev pub to_digit : ℕ → Option ℕ
to_digit c =
    if within b'0' b'9' c
    then some (c - b'0')
    else if within b'a' b'f' c
    then some (c - b'a' + 10)
    else if within b'A' b'F' c
    then some (c - b'A' + 10)
    else none

-- Up to four hex digits, as a value of 16 bits, and what is unread.
unfoldable pub hex_group : ℕ → Bytes → ℕ → ℕ × Bytes
hex_group zero s value = (value, s)
hex_group (suc k) [] value = (value, [])
hex_group (suc k) (c ∷ s) value = elim (to_digit c) [
  | none ↦ (value, c ∷ s)
  | some digit ↦ hex_group k s ((value * 0x10 + digit) % 2 ^ 16)
]

-- One round of the loop over the groups: an error, a panic, the end (where `true` says that an IPv4
-- address is to follow), or the next round.
pub data Round : Type 0 where
  failed : Round
  panics : Round
  ended : Parsing → Bytes → Bool → Round
  again : Parsing → Bytes → Round

-- `pieces[i] = value`
abbrev pub write_at : List ℕ → ℕ → ℕ → Result (List ℕ)
write_at pieces i value = if ltb i (length pieces) then ok (set pieces i value) else panicked

abbrev pub with_pieces : Parsing → ℕ → List ℕ → Parsing
with_pieces p pointer pieces = record {
  pieces = pieces;
  piece_pointer = pointer;
  compress_pointer = p.compress_pointer;
}

abbrev pub store : Parsing → ℕ → Result Parsing
store p value =
    write_at p.pieces p.piece_pointer value
    >>= (λ pieces. ok (with_pieces p (p.piece_pointer + 1) pieces))

abbrev pub go_on : Result Parsing → Bytes → Round
go_on (ok p) s = again p s
go_on (err e) s = failed
go_on panicked s = panics

abbrev pub compress : Option ℕ → Parsing → Bytes → Round
compress (some _) p s = failed
compress none p s =
    again
      (record {
        pieces = p.pieces;
        piece_pointer = p.piece_pointer + 1;
        compress_pointer = some (p.piece_pointer + 1);
      })
      s

-- What follows a group: `start` is the text that it starts.
unfoldable pub after_group : Parsing → Bytes → ℕ → Bytes → Round
after_group p start value [] = go_on (store p value) []
after_group p start value (x ∷ rest) =
    if x == b'.'
    then if length (x ∷ rest) == length start
      then failed
      else if ltb 6 p.piece_pointer
      then failed
      else ended p start true
    else if x == b':'
    then if length rest == 0 then failed else go_on (store p value) rest
    else failed

unfoldable pub group_round : Parsing → Bytes → Round
unfolding hex_group after_group
group_round p [] = ended p [] false
group_round p (c ∷ s) =
    if p.piece_pointer == 8
    then failed
    else if c == b':'
    then compress p.compress_pointer p s
    else let (value, rest) = hex_group 4 (c ∷ s) 0 in after_group p (c ∷ s) value rest

unfoldable pub groups_loop : ℕ → Parsing → Bytes → Result (Parsing × Bytes × Bool)
unfolding group_round
groups_loop zero p s = panicked
groups_loop (suc fuel) p s = elim (group_round p s) [
  | failed ↦ err failure
  | panics ↦ panicked
  | ended p' s' ip_v4 ↦ ok (p', s', ip_v4)
  | again p' s' ↦ groups_loop fuel p' s'
]

-- A number of the IPv4 part, and one more digit of it.
abbrev pub more_digit : Option ℕ → ℕ → Option ℕ
more_digit none digit = some digit
more_digit (some zero) digit = none
more_digit (some (suc v)) digit =
    if ltb 255 (suc v * 10 + digit) then none else some (suc v * 10 + digit)

unfoldable pub ipv4_digits : Bytes → Option ℕ → Option (Option ℕ × Bytes)
ipv4_digits [] piece = some (piece, [])
ipv4_digits (c ∷ s) piece =
    if within b'0' b'9' c
    then (elim (more_digit piece (c - b'0')) [ none ↦ none | some v ↦ ipv4_digits s (some v) ])
    else some (piece, c ∷ s)

-- The dot before every number but the first.
unfoldable pub skip_dot : ℕ → Bytes → Option Bytes
skip_dot numbers_seen [] = some []
skip_dot numbers_seen (c ∷ s) =
    if ltb 0 numbers_seen
    then if ltb numbers_seen 4 && c == b'.' then some s else none
    else some (c ∷ s)

abbrev pub after_octet : ℕ → ℕ → ℕ
after_octet pointer numbers_seen =
    if numbers_seen == 2 || numbers_seen == 4 then pointer + 1 else pointer

abbrev pub store_octet : Parsing → ℕ → ℕ → Result Parsing
store_octet p numbers_seen v =
    write_at p.pieces p.piece_pointer ((get_or p.pieces p.piece_pointer 0 * 0x100 + v) % 2 ^ 16)
    >>= (λ pieces. ok (with_pieces p (after_octet p.piece_pointer numbers_seen) pieces))

abbrev pub push_octet : Parsing → ℕ → Option (Option ℕ × Bytes) → Result (Parsing × Bytes)
push_octet p numbers_seen none = err failure
push_octet p numbers_seen (some (none, rest)) = err failure
push_octet p numbers_seen (some (some v, rest)) =
    store_octet p (numbers_seen + 1) v >>= (λ p'. ok (p', rest))

unfoldable pub ipv4_round : Parsing → ℕ → Bytes → Result (Parsing × Bytes)
unfolding skip_dot ipv4_digits
ipv4_round p numbers_seen s =
    or_failure (skip_dot numbers_seen s) >>= (λ s'. push_octet p numbers_seen (ipv4_digits s' none))

unfoldable pub ipv4_loop : ℕ → Parsing → ℕ → Bytes → Result Parsing
unfolding ipv4_round
ipv4_loop fuel p numbers_seen [] = if numbers_seen == 4 then ok p else err failure
ipv4_loop zero p numbers_seen (c ∷ s) = panicked
ipv4_loop (suc fuel) p numbers_seen (c ∷ s) =
    ipv4_round p numbers_seen (c ∷ s) >>= (λ r. ipv4_loop fuel r.0 (numbers_seen + 1) r.1)

-- `pieces.swap(i, j)`
abbrev pub swap : List ℕ → ℕ → ℕ → Result (List ℕ)
swap xs i j =
    if ltb i (length xs) && ltb j (length xs)
    then ok (set (set xs i (get_or xs j 0)) j (get_or xs i 0))
    else panicked

abbrev pub decrement : ℕ → Result ℕ
decrement zero = panicked
decrement (suc n) = ok n

-- The loop that moves the pieces behind `::` to the end.
unfoldable pub swap_pieces : ℕ → List ℕ → ℕ → ℕ → Result (List ℕ)
swap_pieces zero pieces compress_pointer piece_pointer = ok pieces
swap_pieces (suc swaps) pieces compress_pointer piece_pointer =
    swap pieces piece_pointer (compress_pointer + swaps) >>= (λ swapped.
      decrement piece_pointer >>= (λ pointer. swap_pieces swaps swapped compress_pointer pointer))

unfoldable pub expand : Parsing → Option ℕ → Result (List ℕ)
unfolding swap_pieces
expand p (some start) =
    if ltb p.piece_pointer start
    then panicked
    else swap_pieces (p.piece_pointer - start) p.pieces start 7
expand p none = if p.piece_pointer == 8 then ok p.pieces else err failure

unfoldable pub finish_groups : Parsing × Bytes × Bool → Result (List ℕ)
unfolding ipv4_loop expand
finish_groups (p, s, false) = if length s == 0 then expand p p.compress_pointer else err failure
finish_groups (p, s, true) =
    if ltb 6 p.piece_pointer
    then err failure
    else ipv4_loop (length s) p 0 s >>= (λ p'. expand p' p'.compress_pointer)

-- The loops, from the first group on: each round takes a byte at least.
unfoldable pub parse_groups : Parsing → Bytes → Result (List ℕ)
unfolding groups_loop finish_groups
parse_groups p s = groups_loop (suc (length s)) p s >>= finish_groups

abbrev pub zeros : List ℕ
zeros = 0 ∷ 0 ∷ 0 ∷ 0 ∷ 0 ∷ 0 ∷ 0 ∷ 0 ∷ []

unfoldable pub read_ipv6 : Bytes → Result (List ℕ)
unfolding parse_groups
read_ipv6 [] = err failure
read_ipv6 (a ∷ []) = err failure
read_ipv6 (a ∷ b ∷ s) =
    if a == b':'
    then if b == b':'
      then parse_groups (record { pieces = zeros; piece_pointer = 1; compress_pointer = some 1 }) s
      else err failure
    else parse_groups (record { pieces = zeros; piece_pointer = 0; compress_pointer = none })
        (a ∷ b ∷ s)

abbrev pub value_of : Result (List ℕ) → Option (List ℕ)
value_of (ok pieces) = some pieces
value_of (err e) = none
value_of panicked = none

-- The parser as the hosts call it, with a panic and an error alike: `read_ipv6` tells them apart.
unfoldable pub parse_ipv6 : Bytes → Option (List ℕ)
unfolding read_ipv6
parse_ipv6 input = value_of (read_ipv6 input)
