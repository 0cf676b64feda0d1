-- ===== src/Host/Ipv4/RoundTrip.antt =====
-- Reading back the IPv4 address that src/parser/host.rs writes.
use sorug.Host.Ipv4.{
  last_part, push_number, split_on, parse_ipv4_number, is_number_part, ends_in_a_number,
  drop_empty_last, parse_numbers, pop_last, add_numbers, ipv4_of_numbers, parse_ipv4, octet_digits,
  octets, write_octets, write_ipv4_to,
}
use mathlib.Core.Path.{ap₂}
use sorug.Common.{
  ℕ, ◌/◌, ◌%◌, ◌^◌, ◌<◌, Bool, true, false, not, ◌&&◌, List, [], ◌∷◌, ◌++◌, append_assoc, Option,
  none, some, Bytes, All, all_below, all_below_sound, length, all, ltb, ◌==◌, ==_iff, false≢true,
  ◌≡◌, refl, sym, ap, ◌∙◌, arith,
}

pub split_on-last :
    (sep : ℕ) (s : Bytes) → All (λ c. (c == sep) ≡ false) s → split_on sep s ≡ s ∷ []
unfolding split_on
split_on-last sep [] h = refl
split_on-last sep (c ∷ s) (e, h) = rw (e, split_on-last sep s h)

pub split_on-part :
    (sep : ℕ) (s rest : Bytes)
    → All (λ c. (c == sep) ≡ false) s
    → split_on sep (s ++ sep ∷ rest) ≡ s ∷ split_on sep rest
unfolding split_on
split_on-part sep [] rest h = ground arith
split_on-part sep (c ∷ s) rest (e, h) = rw (e, split_on-part sep s rest h)

-- What the digits of every octet are checked for.
abbrev is_read : ℕ → Option (Option ℕ) → Bool
is_read o (some (some v)) = v == o
is_read o _ = false

abbrev octet_ok : ℕ → Bool
octet_ok o =
    let digits = octet_digits o in
    is_read o (parse_ipv4_number digits)
    && all (λ c. not (c == b'.')) digits
    && is_number_part digits
    && ltb 0 (length digits)

octets_ok : all_below 256 octet_ok ≡ true
unfolding all_below octet_digits parse_ipv4_number is_number_part
octets_ok = refl

is_read-some : (o : ℕ) (r : Option (Option ℕ)) → is_read o r ≡ true → r ≡ some (some o)
is_read-some o none h = absurd (false≢true h)
is_read-some o (some none) h = absurd (false≢true h)
is_read-some o (some (some v)) h = ap (λ x. some (some x)) ((==_iff v o).0 h)

no_dots : (s : Bytes) → all (λ c. not (c == b'.')) s ≡ true → All (λ c. (c == b'.') ≡ false) s
no_dots [] h = tt
no_dots (c ∷ s) h = (ground arith, no_dots s (ground arith))

-- The digits of an octet: read back, without a dot, a number, and not empty.
record IsOctetText (o : ℕ) : Type 0 where
  read : parse_ipv4_number (octet_digits o) ≡ some (some o)
  no_dot : All (λ c. (c == b'.') ≡ false) (octet_digits o)
  number : is_number_part (octet_digits o) ≡ true
  not_empty : (length (octet_digits o) == 0) ≡ false

octet_digits-IsOctetText : (o : ℕ) → o < 256 → IsOctetText o
octet_digits-IsOctetText o lt =
    let ok : octet_ok o ≡ true = all_below_sound 256 octet_ok o octets_ok lt in
    record {
      read = is_read-some o (parse_ipv4_number (octet_digits o)) (ground arith);
      no_dot = no_dots (octet_digits o) (ground arith);
      number = ground arith;
      not_empty = ground arith;
    }

-- Four octets with dots between them.
abbrev pub dotted : ℕ → ℕ → ℕ → ℕ → Bytes
dotted a b c d =
    octet_digits a ++ b'.' ∷ (octet_digits b ++ b'.' ∷ (octet_digits c ++ b'.' ∷ octet_digits d))

pub write_ipv4_to-dotted :
    (out : Bytes) (ip : ℕ)
    → write_ipv4_to out ip
      ≡ out ++ dotted (ip / 2 ^ 24 % 256) (ip / 2 ^ 16 % 256) (ip / 2 ^ 8 % 256) (ip % 256)
unfolding write_ipv4_to write_octets
write_ipv4_to-dotted out ip = simp append_assoc

drop_empty_last-four :
    (p q r s : Bytes)
    → (length s == 0) ≡ false
    → drop_empty_last (p ∷ q ∷ r ∷ s ∷ []) ≡ p ∷ q ∷ r ∷ s ∷ []
unfolding drop_empty_last
drop_empty_last-four p q r s e = rw e

parse_numbers-cons :
    (p : Bytes) (ps : List Bytes) (n : ℕ) (ns : List ℕ)
    → parse_ipv4_number p ≡ some (some n)
    → parse_numbers ps ≡ some ns
    → parse_numbers (p ∷ ps) ≡ some (n ∷ ns)
unfolding parse_numbers
parse_numbers-cons p ps n ns e later = ap₂ push_number e later

last_part-not_empty :
    (s : Bytes) (ps : List Bytes) → (length s == 0) ≡ false → last_part (s ∷ ps) ≡ s
last_part-not_empty [] ps e = absurd (false≢true (sym e))
last_part-not_empty (c ∷ s) ps e = refl

module _ (a b c d : ℕ) (ha : a < 256) (hb : b < 256) (hc : c < 256) (hd : d < 256) where
  parts : List Bytes
  parts = octet_digits a ∷ octet_digits b ∷ octet_digits c ∷ octet_digits d ∷ []

  split_on-dotted : split_on b'.' (dotted a b c d) ≡ parts
  unfolding parts
  split_on-dotted = rw (
    split_on-part b'.' (octet_digits a)
        (octet_digits b ++ b'.' ∷ (octet_digits c ++ b'.' ∷ octet_digits d))
        (octet_digits-IsOctetText a ha).no_dot,
    split_on-part b'.' (octet_digits b) (octet_digits c ++ b'.' ∷ octet_digits d)
        (octet_digits-IsOctetText b hb).no_dot,
    split_on-part b'.' (octet_digits c) (octet_digits d) (octet_digits-IsOctetText c hc).no_dot,
    split_on-last b'.' (octet_digits d) (octet_digits-IsOctetText d hd).no_dot,
  )

  parse_numbers-parts : parse_numbers parts ≡ some (a ∷ b ∷ c ∷ d ∷ [])
  unfolding parts
  parse_numbers-parts =
      parse_numbers-cons (octet_digits a) _ a _ (octet_digits-IsOctetText a ha).read (
        parse_numbers-cons (octet_digits b) _ b _ (octet_digits-IsOctetText b hb).read (
          parse_numbers-cons (octet_digits c) _ c _ (octet_digits-IsOctetText c hc).read (
            parse_numbers-cons (octet_digits d) [] d [] (octet_digits-IsOctetText d hd).read
              (unfold parse_numbers in refl))))

  kept : drop_empty_last parts ≡ parts
  unfolding parts
  kept =
      drop_empty_last-four (octet_digits a) (octet_digits b) (octet_digits c) (octet_digits d)
        (octet_digits-IsOctetText d hd).not_empty

  length-parts : length parts ≡ 4
  unfolding parts
  length-parts = refl

  parse_ipv4-dotted : parse_ipv4 (dotted a b c d) ≡ ipv4_of_numbers (a ∷ b ∷ c ∷ d ∷ [])
  unfolding parse_ipv4
  parse_ipv4-dotted = rw (split_on-dotted, kept, length-parts, parse_numbers-parts)

  ends_in_a_number-dotted : ends_in_a_number (dotted a b c d) ≡ true
  unfolding ends_in_a_number parts
  ends_in_a_number-dotted = rw split_on-dotted (
      ap is_number_part
        (last_part-not_empty (octet_digits d) _ (octet_digits-IsOctetText d hd).not_empty)
      ∙ (octet_digits-IsOctetText d hd).number)

-- The numbers of an address make it up again; no sum leaves 32 bits.
ipv4_of_numbers-octets : (ip : ℕ) → ip < 2 ^ 32 → ipv4_of_numbers (octets ip) ≡ some ip
unfolding ipv4_of_numbers pop_last add_numbers
ipv4_of_numbers-octets ip lt = ground arith

-- An address of 32 bits, written and parsed again, is the same address, and what is written ends in
-- a number, so that a host parser takes it for an address.
pub parse_ipv4-write_ipv4_to :
    (ip : ℕ)
    → ip < 2 ^ 32
    → (parse_ipv4 (write_ipv4_to [] ip) ≡ some ip) × (ends_in_a_number (write_ipv4_to [] ip) ≡ true)
parse_ipv4-write_ipv4_to ip lt = rw (write_ipv4_to-dotted [] ip) (
  parse_ipv4-dotted (ip / 2 ^ 24 % 256) (ip / 2 ^ 16 % 256) (ip / 2 ^ 8 % 256) (ip % 256)
        (omega arith) (omega arith) (omega arith) (omega arith)
      ∙ ipv4_of_numbers-octets ip lt,
  ends_in_a_number-dotted (ip / 2 ^ 24 % 256) (ip / 2 ^ 16 % 256) (ip / 2 ^ 8 % 256) (ip % 256)
      (omega arith) (omega arith) (omega arith) (omega arith),
)
