-- ===== src/Punycode/Digits.antt =====
-- The digits and the bias of src/parser/punycode.rs.
use sorug.Punycode.{adapt_loop, base, tmin, tmax, digit_to_byte, byte_to_digit}
use sorug.Common.{
  ℕ, zero, suc, ◌+◌, ◌-◌, ◌*◌, ◌/◌, ◌^◌, ◌≤◌, ◌<◌, some, ltb, leb, ◌≡◌, arith, Bool-cases, inl, inr,
}

-- A digit that is written is read back, and there are 36 digits.
pub byte_to_digit-digit_to_byte :
    (d : ℕ) → d < 36 → (b : ℕ) × (digit_to_byte d ≡ some b) × (byte_to_digit b ≡ some d)
unfolding digit_to_byte byte_to_digit
byte_to_digit-digit_to_byte d lt = elim (Bool-cases (leb d 25)) [
  | inl e ↦ (b'a' + d, ground arith, ground arith)
  | inr e ↦ (b'0' + (d - 26), ground arith, ground arith)
]

-- The number is small after this many divisions.
abbrev Fits : ℕ → ℕ → Type 0
Fits zero delta = delta < 456
Fits (suc fuel) delta = Fits fuel (delta / (base - tmin))

small-Fits : (fuel delta : ℕ) → delta < 456 → Fits fuel delta
small-Fits zero delta h = h
small-Fits (suc fuel) delta h = small-Fits fuel (delta / (base - tmin)) (omega arith)

adapt_loop-ends :
    (fuel delta k : ℕ) → Fits fuel delta → (adapt_loop fuel delta k).0 ≤ (base - tmin) * tmax / 2
unfolding adapt_loop
adapt_loop-ends zero delta k h = omega arith
adapt_loop-ends (suc fuel) delta k h = elim (Bool-cases (ltb 455 delta)) [
  | inl e ↦ rw e (adapt_loop-ends fuel (delta / (base - tmin)) (k + base) h)
  | inr e ↦ rw e (ground arith)
]

-- On 32 bits, the loop of `adapt` ends by its own test within seven rounds.
pub adapt_loop-bound :
    (delta k : ℕ) → delta < 2 ^ 32 → (adapt_loop 7 delta k).0 ≤ (base - tmin) * tmax / 2
adapt_loop-bound delta k h = adapt_loop-ends 7 delta k (omega arith)
