-- ===== src/Common/Bits.antt =====
-- The bit operations by 8-bit lanes: `digits` is the native recursion on binary digits with fuel;
-- the laws here peel one digit, then one lane, off a word of any width.
use Prim.Native.Nat.{
  ℕ, zero, suc, ◌+◌, ◌*◌, ◌/◌, ◌%◌, ◌≤◌, ◌<◌, min, max, differ, digits, bit_and, bit_or, bit_xor,
  bit_and-bitwise, bit_or-bitwise, bit_xor-bitwise,
}
use mathlib.Core.Path.{◌≡◌, refl}
use native.Mathlib.Nat.{le_refl}
use native.Mathlib.Omega.{arith}

-- The recursion stops of itself: any fuel from the first number on gives the same.
module _ (rest : ℕ → ℕ) (bit : ℕ → ℕ → ℕ) where
  enough_fuel :
      (x y less more : ℕ)
      → x ≤ more
      → x ≤ less
      → digits rest bit less x y ≡ digits rest bit more x y
  enough_fuel (suc x) y (suc less) (suc more) hm hl =
      rw (enough_fuel (suc x / 2) (y / 2) less more (omega arith) (omega arith))
  enough_fuel (suc x) y zero more hm hl = absurd (omega arith)
  enough_fuel (suc x) y less zero hm hl = absurd (omega arith)
  enough_fuel zero y (suc less) (suc more) hm hl = refl
  enough_fuel zero y (suc less) zero hm hl = refl
  enough_fuel zero y zero (suc more) hm hl = refl
  enough_fuel zero y zero zero hm hl = refl

  peel :
      (x y : ℕ)
      → digits rest bit (suc x) (suc x) y
        ≡ digits rest bit (suc x / 2) (suc x / 2) (y / 2) * 2 + bit (suc x % 2) (y % 2)
  peel x y =
      omega
        (arith, enough_fuel (suc x / 2) (y / 2) x (suc x / 2) (le_refl (suc x / 2)) (omega arith))

bit_xor_step : (a b : ℕ) → bit_xor a b ≡ bit_xor (a / 2) (b / 2) * 2 + differ (a % 2) (b % 2)
bit_xor_step (suc a) b = simp bit_xor-bitwise (peel (λ y. y) differ a b)
bit_xor_step zero b = simp bit_xor-bitwise (omega arith)

bit_or_step : (w v : ℕ) → bit_or w v ≡ bit_or (w / 2) (v / 2) * 2 + max (w % 2) (v % 2)
bit_or_step (suc w) v = simp bit_or-bitwise (peel (λ y. y) max w v)
bit_or_step zero v = simp bit_or-bitwise (omega arith)

bit_and_step : (w v : ℕ) → bit_and w v ≡ bit_and (w / 2) (v / 2) * 2 + min (w % 2) (v % 2)
bit_and_step (suc w) v = simp bit_and-bitwise (peel (λ y. 0) min w v)
bit_and_step zero v = simp bit_and-bitwise (omega arith)

differ_cases :
    (x y : ℕ)
    → x < 2
    → y < 2
    → (differ x y < 2) × (differ x y ≡ 0 → x ≡ y) × (x ≡ y → differ x y ≡ 0)
differ_cases zero zero p q = omega arith
differ_cases zero (suc zero) p q = omega arith
differ_cases (suc zero) zero p q = omega arith
differ_cases (suc zero) (suc zero) p q = omega arith
differ_cases (suc (suc x)) y p q = absurd (omega arith)
differ_cases zero (suc (suc y)) p q = absurd (omega arith)
differ_cases (suc zero) (suc (suc y)) p q = absurd (omega arith)

differ_bit : (a b : ℕ) → differ (a % 2) (b % 2) < 2
differ_bit a b = (differ_cases (a % 2) (b % 2) (omega arith) (omega arith)).0

differ_zero : (a b : ℕ) → differ (a % 2) (b % 2) ≡ 0 → a % 2 ≡ b % 2
differ_zero a b = (differ_cases (a % 2) (b % 2) (omega arith) (omega arith)).1

differ_self : (a : ℕ) → differ (a % 2) (a % 2) ≡ 0
differ_self a = (differ_cases (a % 2) (a % 2) (omega arith) (omega arith)).2 refl

-- An operation that works digit by digit works lane by lane.
module _ (op : ℕ → ℕ → ℕ) where
  abbrev Lanes : ℕ → Type 0
  Lanes p = (a b : ℕ) → op a b ≡ op (a % p) (b % p) + p * op (a / p) (b / p)

  Lanes-four : Lanes 2 → Lanes 4
  Lanes-four l a b = ground (arith, l a b, l (a / 2) (b / 2), l (a % 4) (b % 4))

  Lanes-sixteen : Lanes 4 → Lanes 16
  Lanes-sixteen l a b = ground (arith, l a b, l (a / 4) (b / 4), l (a % 16) (b % 16))

  Lanes-byte : Lanes 16 → Lanes 256
  Lanes-byte l a b = ground (arith, l a b, l (a / 16) (b / 16), l (a % 256) (b % 256))

  lanes : Lanes 2 → Lanes 256
  lanes l = Lanes-byte (Lanes-sixteen (Lanes-four l))

and_bits : Lanes bit_and 2
and_bits a b = omega (arith, bit_and_step a b, bit_and_step (a % 2) (b % 2), halves)
  where
    halves : bit_and (a % 2 / 2) (b % 2 / 2) ≡ 0
    halves = let e : a % 2 / 2 ≡ 0 = omega arith in rw e (bit_and-bitwise 0 (b % 2 / 2))

or_bits : Lanes bit_or 2
or_bits a b = omega (arith, bit_or_step a b, bit_or_step (a % 2) (b % 2), halves)
  where
    halves : bit_or (a % 2 / 2) (b % 2 / 2) ≡ 0
    halves = let e : a % 2 / 2 ≡ 0 = omega arith in let f : b % 2 / 2 ≡ 0 = omega arith in rw (e, f)

xor_bits : Lanes bit_xor 2
xor_bits a b = ground (arith, bit_xor_step a b, bit_xor_step (a % 2) (b % 2), halves)
  where
    halves : bit_xor (a % 2 / 2) (b % 2 / 2) ≡ 0
    halves = let e : a % 2 / 2 ≡ 0 = omega arith in let f : b % 2 / 2 ≡ 0 = omega arith in rw (e, f)

module _ {c d : ℕ} (u v : ℕ) (hc : c < 256) (hd : d < 256) where
  pub and_lane : bit_and (c + 256 * u) (d + 256 * v) ≡ bit_and c d + 256 * bit_and u v
  and_lane = ground (arith, lanes bit_and and_bits (c + 256 * u) (d + 256 * v))

  pub xor_lane : bit_xor (c + 256 * u) (d + 256 * v) ≡ bit_xor c d + 256 * bit_xor u v
  xor_lane = ground (arith, lanes bit_xor xor_bits (c + 256 * u) (d + 256 * v))

pub or_lanes :
    (a b : ℕ) → bit_or a b ≡ bit_or (a % 256) (b % 256) + 256 * bit_or (a / 256) (b / 256)
or_lanes = lanes bit_or or_bits

abbrev pow_two : ℕ → ℕ
pow_two zero = 1
pow_two (suc k) = 2 * pow_two k

-- Numbers of `k` bits have a difference of `k` bits.
xor_bound : (k a b : ℕ) → a < pow_two k → b < pow_two k → bit_xor a b < pow_two k
xor_bound zero zero zero p q = omega arith
xor_bound zero (suc a) b p q = absurd (omega arith)
xor_bound zero zero (suc b) p q = absurd (omega arith)
xor_bound (suc k) a b p q =
    ground (arith, bit_xor_step a b, differ_bit a b, xor_bound k (a / 2) (b / 2))

pub xor_byte : {a b : ℕ} → a < 256 → b < 256 → bit_xor a b < 256
xor_byte {a} {b} = xor_bound 8 a b

and-le_fuel : (n a b : ℕ) → a ≤ n → bit_and a b ≤ a
and-le_fuel n zero b h = omega (arith, bit_and-bitwise 0 b)
and-le_fuel zero (suc a) b h = absurd (omega arith)
and-le_fuel (suc n) (suc a) b h =
    omega (arith, bit_and_step (suc a) b, and-le_fuel n (suc a / 2) (b / 2))

pub bit_and-le : (a b : ℕ) → bit_and a b ≤ a
bit_and-le a b = and-le_fuel a a b (omega arith)

xor-eq-zero_fuel : (n a b : ℕ) → a ≤ n → bit_xor a b ≡ 0 → a ≡ b
xor-eq-zero_fuel n zero b h e = omega (arith, bit_xor-bitwise 0 b)
xor-eq-zero_fuel zero (suc a) b h e = absurd (omega arith)
xor-eq-zero_fuel (suc n) (suc a) b h e =
    ground
      (arith, bit_xor_step (suc a) b, differ_zero (suc a) b, xor-eq-zero_fuel n (suc a / 2) (b / 2))

pub xor-eq-zero : (a b : ℕ) → bit_xor a b ≡ 0 → a ≡ b
xor-eq-zero a b = xor-eq-zero_fuel a a b (omega arith)

xor_self_fuel : (n a : ℕ) → a ≤ n → bit_xor a a ≡ 0
xor_self_fuel n zero h = refl
xor_self_fuel zero (suc a) h = absurd (omega arith)
xor_self_fuel (suc n) (suc a) h =
    ground (arith, bit_xor_step (suc a) (suc a), differ_self (suc a), xor_self_fuel n (suc a / 2))

pub xor_self : (a : ℕ) → bit_xor a a ≡ 0
xor_self a = xor_self_fuel a a (omega arith)
