-- ===== src/Scan/Lanes.antt =====
-- `has_zero_byte` (src/parser/scan.rs) on words of any number of 8-bit lanes.
use sorug.Common.Bits.{and_lane, bit_and-le}
use sorug.Common.{
  ℕ, zero, suc, ◌+◌, ◌-◌, ◌*◌, ◌%◌, ◌<◌, bit_and, true, ◌||◌, [], ◌∷◌, Bytes, IsBytes, length, leb,
  ◌==◌, if◌then◌else◌, all_below, all_below_sound, ◌≡◌, refl, ap, arith,
}
use sorug.Scan.Swar.{word_mod, ones, highs, from_le_bytes, wrapping_sub, has_zero_byte}

-- 2^(8k), and the words with 0x01 and 0x80 in each of `k` lanes.
abbrev pub modulus : ℕ → ℕ
modulus zero = 1
modulus (suc k) = 256 * modulus k

abbrev pub low_ones : ℕ → ℕ
low_ones zero = 0
low_ones (suc k) = 1 + 256 * low_ones k

abbrev pub high_bits : ℕ → ℕ
high_bits zero = 0
high_bits (suc k) = 128 + 256 * high_bits k

-- `has_zero_byte` on words of `k` lanes.
minus_ones : ℕ → ℕ → ℕ
minus_ones k x = if leb (low_ones k) x then x - low_ones k else x + modulus k - low_ones k

unfoldable pub zero_lanes : ℕ → ℕ → ℕ
unfolding minus_ones
zero_lanes k x = bit_and (bit_and (minus_ones k x) (modulus k - 1 - x)) (high_bits k)

pub has_zero_byte-zero_lanes : (x : ℕ) → x < word_mod → has_zero_byte x ≡ zero_lanes 8 x
unfolding has_zero_byte zero_lanes minus_ones
has_zero_byte-zero_lanes x h =
    ap (λ (t : ℕ). bit_and (bit_and t (word_mod - 1 - x)) highs) (wrapped x h)
  where
    wrapped : (x : ℕ) → x < word_mod → wrapping_sub x ones ≡ minus_ones 8 x
    wrapped x h = ground arith

pub load_bound : (bs : Bytes) → IsBytes bs → from_le_bytes bs < modulus (length bs)
unfolding from_le_bytes
load_bound [] h = omega arith
load_bound (b ∷ bs) h = omega (arith, load_bound bs h.1)

ones_bound : (k : ℕ) → low_ones k < modulus k
ones_bound zero = omega arith
ones_bound (suc k) = omega (arith, ones_bound k)

borrow_table : all_below 256 (λ b. b == 0 || bit_and (bit_and (b - 1) (255 - b)) 128 == 0) ≡ true
unfolding all_below
borrow_table = refl

lane_clear : (b : ℕ) → 0 < b → b < 256 → bit_and (bit_and (b - 1) (255 - b)) 128 ≡ 0
lane_clear b h lt = ground (arith, all_below_sound 256 _ b borrow_table lt)

module _ {c d : ℕ} (u v t : ℕ) (hc : c < 256) (hd : d < 256) where
  and_three :
      bit_and (bit_and (c + 256 * u) (d + 256 * v)) (128 + 256 * t)
      ≡ bit_and (bit_and c d) 128 + 256 * bit_and (bit_and u v) t
  and_three =
      rw (and_lane u v hc hd)
        (and_lane {d = 128} (bit_and u v) t (omega (arith, bit_and-le c d)) (omega arith))

module _ (k b w : ℕ) (lt : b < 256) (fits : w < modulus k) where
  complement_lane : modulus (suc k) - 1 - (b + 256 * w) ≡ (255 - b) + 256 * (modulus k - 1 - w)
  complement_lane = omega arith

  minus_ones-pos : 0 < b → minus_ones (suc k) (b + 256 * w) ≡ (b - 1) + 256 * minus_ones k w
  unfolding minus_ones
  minus_ones-pos h = ground (arith, ones_bound k)

  -- A lane that is not zero lends nothing and is not marked.
  pub zero_lanes-pos : 0 < b → zero_lanes (suc k) (b + 256 * w) ≡ 256 * zero_lanes k w
  unfolding zero_lanes
  zero_lanes-pos h =
      rw (complement_lane, minus_ones-pos h)
        (omega (
          arith,
          and_three {c = b - 1} {d = 255 - b} (minus_ones k w) (modulus k - 1 - w) (high_bits k)
              (omega arith) (omega arith),
          lane_clear b h lt,
        ))

-- What is left of the lanes above a zero lane.
abbrev lent : ℕ → ℕ → ℕ
lent k w = if leb (low_ones k + 1) w then w - 1 - low_ones k else w + modulus k - 1 - low_ones k

-- A zero lane is marked, and lends to the next one.
minus_ones-zero :
    (k w : ℕ) → w < modulus k → minus_ones (suc k) (0 + 256 * w) ≡ 255 + 256 * lent k w
unfolding minus_ones
minus_ones-zero k w fits = ground (arith, ones_bound k)

pub zero_lanes-zero : (k w : ℕ) → w < modulus k → zero_lanes (suc k) (0 + 256 * w) % 256 ≡ 128
unfolding zero_lanes
zero_lanes-zero k w fits =
    rw (complement_lane k 0 w (omega arith) fits, minus_ones-zero k w fits)
      (omega (
        arith,
        and_three {c = 255} {d = 255} (lent k w) (modulus k - 1 - w) (high_bits k) (omega arith)
            (omega arith),
      ))
