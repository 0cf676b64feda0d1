-- ===== src/Scan/Backward.antt =====
-- src/parser/scan.rs, the search for the last at sign: words from the end, in which each lane that is
-- marked is looked at, then the bytes that are left.
use sorug.Scan.Memchr.{Memchr}
use sorug.Scan.Swar.{swar_threshold, load_u64_le, complement, has_zero_byte, splat}
use sorug.Common.{
  ℕ, zero, suc, ◌+◌, ◌-◌, ◌*◌, ◌/◌, ◌^◌, min, bit_and, bit_xor, ◌&&◌, Option, none, some, Bytes,
  length, take, get_or, ltb, leb, ◌==◌, if◌then◌else◌,
}

-- The bits of a number, of 64 at most; `leading_zeros` is 64 less these.
unfoldable pub bit_length : ℕ → ℕ → ℕ
bit_length zero m = 0
bit_length (suc fuel) m = let rest = bit_length fuel (m / 2) in if m == 0 then 0 else suc rest

unfoldable pub last_match_index : ℕ → Option ℕ
unfolding bit_length
last_match_index mask = if mask == 0 then none else some ((63 - (64 - bit_length 64 mask)) / 8)

-- The marked lanes of the word at `i`, from the last: a mark may be false, so the byte decides.
unfoldable pub verify_lanes : ℕ → Bytes → ℕ → ℕ → ℕ → ℕ → Option ℕ
unfolding last_match_index
verify_lanes zero haystack end needle i mask = none
verify_lanes (suc fuel) haystack end needle i mask = elim (last_match_index mask) [
  | none ↦ none
  | some lane ↦
      let rest =
        verify_lanes fuel haystack end needle i
          (bit_and mask (complement (0x80 * 2 ^ (lane * 8)))) in
      if ltb (i + lane) end && get_or haystack (i + lane) 0 == needle then some (i + lane) else rest
]

unfoldable pub rfind_tail : Bytes → ℕ → ℕ → Option ℕ
rfind_tail haystack needle zero = none
rfind_tail haystack needle (suc i) =
    let rest = rfind_tail haystack needle i in
    if get_or haystack i 0 == needle then some i else rest

-- The loop over the words; there are fewer than bytes. A word has eight lanes.
unfoldable pub rfind_words : ℕ → Bytes → ℕ → ℕ → ℕ → Option ℕ
unfolding load_u64_le has_zero_byte splat verify_lanes rfind_tail
rfind_words zero haystack end needle i = rfind_tail haystack needle i
rfind_words (suc fuel) haystack end needle i =
    if leb 8 i
    then (elim (verify_lanes 8 haystack end needle (i - 8)
        (has_zero_byte (bit_xor (load_u64_le haystack (i - 8)) (splat needle)))) [
          | none ↦ rfind_words fuel haystack end needle (i - 8)
          | some idx ↦ some idx
        ])
    else rfind_tail haystack needle i

unfoldable pub swar_rfind : Bytes → ℕ → ℕ → Option ℕ
unfolding rfind_words
swar_rfind haystack end needle =
    let end' = min end (length haystack) in rfind_words end' haystack end' needle end'

unfoldable pub find_last_at : Memchr → Bytes → ℕ → Option ℕ
unfolding swar_rfind
find_last_at m haystack end =
    let end' = min end (length haystack) in
    if ltb end' swar_threshold
    then swar_rfind haystack end' b'@'
    else m.memrchr b'@' (take end' haystack)
