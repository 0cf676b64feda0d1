-- ===== src/Scan/Swar.antt =====
-- src/parser/scan.rs, the register-level scans: eight bytes at a time are one little-endian `u64`.
use sorug.Common.{
  ℕ, zero, suc, ◌+◌, ◌-◌, ◌*◌, ◌/◌, ◌%◌, ◌^◌, bit_and, bit_or, bit_xor, Bool, ◌||◌, [], ◌∷◌, Option,
  none, some, Bytes, take, drop, ◌==◌, if◌then◌else◌,
}

abbrev pub word_mod : ℕ
word_mod = 2 ^ 64

abbrev pub ones : ℕ
ones = 0x0101_0101_0101_0101

abbrev pub highs : ℕ
highs = 0x8080_8080_8080_8080

abbrev pub swar_threshold : ℕ
swar_threshold = 64

-- `u64::from_le_bytes`
unfoldable pub from_le_bytes : Bytes → ℕ
from_le_bytes [] = 0
from_le_bytes (b ∷ bs) = b + 256 * from_le_bytes bs

unfoldable pub load_u64_le : Bytes → ℕ → ℕ
unfolding from_le_bytes
load_u64_le bytes i = from_le_bytes (take 8 (drop i bytes))

-- `u64::wrapping_sub` and `!` on `u64`
abbrev pub wrapping_sub : ℕ → ℕ → ℕ
wrapping_sub x y = (x + word_mod - y) % word_mod

abbrev pub complement : ℕ → ℕ
complement x = word_mod - 1 - x

unfoldable pub has_zero_byte : ℕ → ℕ
has_zero_byte x = bit_and (bit_and (wrapping_sub x ones) (complement x)) highs

-- The zeros below the lowest one, of `bits` bits.
unfoldable pub low_zeros : ℕ → ℕ → ℕ
low_zeros zero m = 0
low_zeros (suc bits) m = let more = suc (low_zeros bits (m / 2)) in if m % 2 == 0 then more else 0

-- `u64::trailing_zeros`
abbrev pub trailing_zeros : ℕ → ℕ
trailing_zeros = low_zeros 64

unfoldable pub first_match_index : ℕ → ℕ
unfolding low_zeros
first_match_index mask = trailing_zeros mask / 8

unfoldable pub splat : ℕ → ℕ
splat b = b * ones

-- The bytes behind the last whole word, one by one.
unfoldable pub swar_tail : (ℕ → Bool) → Bytes → ℕ → Option ℕ
swar_tail hit [] i = none
swar_tail hit (b ∷ bs) i = let next = swar_tail hit bs (i + 1) in if hit b then some i else next

-- The loop that `swar_find` to `swar_find4` share, on the bytes from index `i` on.
unfoldable pub swar_scan : (ℕ → ℕ) → (ℕ → Bool) → Bytes → ℕ → Option ℕ
unfolding load_u64_le first_match_index swar_tail
swar_scan mask_of hit (a ∷ b ∷ c ∷ d ∷ e ∷ f ∷ g ∷ h ∷ rest) i =
    let next = swar_scan mask_of hit rest (i + 8) in
    let mask = mask_of (load_u64_le (a ∷ b ∷ c ∷ d ∷ e ∷ f ∷ g ∷ h ∷ rest) 0) in
    if mask == 0 then next else some (i + first_match_index mask)
swar_scan mask_of hit bytes i = swar_tail hit bytes i

unfoldable pub swar_find : Bytes → ℕ → Option ℕ
unfolding swar_scan has_zero_byte splat
swar_find haystack needle =
    let n = splat needle in
    swar_scan (λ word. has_zero_byte (bit_xor word n)) (λ b. b == needle) haystack 0

unfoldable pub swar_find2 : Bytes → ℕ → ℕ → Option ℕ
unfolding swar_scan has_zero_byte splat
swar_find2 haystack n1 n2 =
    let v1 = splat n1 in
    let v2 = splat n2 in
    swar_scan (λ word. bit_or (has_zero_byte (bit_xor word v1)) (has_zero_byte (bit_xor word v2)))
      (λ b. b == n1 || b == n2) haystack 0

unfoldable pub swar_find3 : Bytes → ℕ → ℕ → ℕ → Option ℕ
unfolding swar_scan has_zero_byte splat
swar_find3 haystack n1 n2 n3 =
    let v1 = splat n1 in
    let v2 = splat n2 in
    let v3 = splat n3 in
    swar_scan
      (λ word.
        bit_or (bit_or (has_zero_byte (bit_xor word v1)) (has_zero_byte (bit_xor word v2)))
          (has_zero_byte (bit_xor word v3)))
      (λ b. b == n1 || b == n2 || b == n3) haystack 0

unfoldable pub swar_find4 : Bytes → ℕ → ℕ → ℕ → ℕ → Option ℕ
unfolding swar_scan has_zero_byte splat
swar_find4 haystack n1 n2 n3 n4 =
    let v1 = splat n1 in
    let v2 = splat n2 in
    let v3 = splat n3 in
    let v4 = splat n4 in
    swar_scan
      (λ word.
        bit_or
          (bit_or (bit_or (has_zero_byte (bit_xor word v1)) (has_zero_byte (bit_xor word v2)))
            (has_zero_byte (bit_xor word v3)))
          (has_zero_byte (bit_xor word v4)))
      (λ b. b == n1 || b == n2 || b == n3 || b == n4) haystack 0
