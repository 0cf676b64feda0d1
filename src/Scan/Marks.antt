-- ===== src/Scan/Marks.antt =====
-- What the mask of a word says of its bytes, lane by lane (src/parser/scan.rs).
use sorug.Common.Bits.{xor_lane, or_lanes, xor_byte, xor-eq-zero, xor_self}
use sorug.Common.{
  ℕ, zero, suc, ◌+◌, ◌*◌, ◌/◌, ◌%◌, ◌<◌, bit_or, bit_xor, Bool, true, false, ◌||◌, [], ◌∷◌, none,
  some, Bytes, IsBytes, length, length-map, map, position, ◌==◌, Bool-cases, ◌⊎◌, inl, inr,
  if◌then◌else◌, ◌≡◌, refl, sym, ◌∙◌, subst, arith,
}
use sorug.Scan.Lanes.{
  modulus, zero_lanes, has_zero_byte-zero_lanes, load_bound, zero_lanes-pos, zero_lanes-zero,
}
use sorug.Scan.Swar.{from_le_bytes, has_zero_byte, low_zeros, splat}

-- Lane by lane up to the first byte that passes: 0 where a byte does not, 0x80 where it does. Of the
-- lanes above that byte nothing is said, since a borrow can set them.
abbrev pub Marks : (ℕ → Bool) → Bytes → ℕ → Type 0
Marks p [] m = m ≡ 0
Marks p (b ∷ bs) m =
    (p b ≡ true → m % 256 ≡ 128) × (p b ≡ false → (m % 256 ≡ 0) × Marks p bs (m / 256))

zero_lanes-Marks :
    (bs : Bytes) → IsBytes bs → Marks (λ b. b == 0) bs (zero_lanes (length bs) (from_le_bytes bs))
unfolding from_le_bytes
zero_lanes-Marks [] h = unfold zero_lanes in refl
zero_lanes-Marks (zero ∷ bs) h =
    (λ _. zero_lanes-zero (length bs) (from_le_bytes bs) (load_bound bs h.1), λ e. cc)
zero_lanes-Marks (suc b ∷ bs) h = (
  λ e. ground arith,
  λ _. (
    omega (arith, step),
    subst (Marks (λ b. b == 0) bs) (omega (arith, step)) (zero_lanes-Marks bs h.1),
  ),
)
  where
    step :
        zero_lanes (suc (length bs)) (suc b + 256 * from_le_bytes bs)
        ≡ 256 * zero_lanes (length bs) (from_le_bytes bs)
    step =
        zero_lanes-pos (length bs) (suc b) (from_le_bytes bs) h.0 (load_bound bs h.1) (omega arith)

-- The same byte in each of `k` lanes.
lanes_of : ℕ → ℕ → ℕ
lanes_of n zero = 0
lanes_of n (suc k) = n + 256 * lanes_of n k

splat-lanes_of : (n : ℕ) → splat n ≡ lanes_of n 8
unfolding splat lanes_of
splat-lanes_of n = omega arith

xor-lanes_of :
    (n : ℕ) (bs : Bytes)
    → n < 256
    → IsBytes bs
    → bit_xor (from_le_bytes bs) (lanes_of n (length bs))
      ≡ from_le_bytes (map (λ b. bit_xor b n) bs)
unfolding from_le_bytes lanes_of
xor-lanes_of n [] lt h = refl
xor-lanes_of n (b ∷ bs) lt h = omega (
  arith,
  xor_lane {c = b} {d = n} (from_le_bytes bs) (lanes_of n (length bs)) h.0 lt,
  xor-lanes_of n bs lt h.1,
)

map_xor-IsBytes : (n : ℕ) (bs : Bytes) → n < 256 → IsBytes bs → IsBytes (map (λ b. bit_xor b n) bs)
map_xor-IsBytes n [] lt h = tt
map_xor-IsBytes n (b ∷ bs) lt h = (xor_byte h.0 lt, map_xor-IsBytes n bs lt h.1)

xor_test : (b n : ℕ) → (bit_xor b n == 0) ≡ (b == n)
xor_test b n = ground (arith, xor-eq-zero b n, xor_self b)

Marks-map :
    (n : ℕ) (bs : Bytes) (m : ℕ)
    → Marks (λ b. b == 0) (map (λ b. bit_xor b n) bs) m
    → Marks (λ b. b == n) bs m
Marks-map n [] m h = h
Marks-map n (b ∷ bs) m h = (
  λ e. h.0 (xor_test b n ∙ e),
  λ e. let r = h.1 (xor_test b n ∙ e) in (r.0, Marks-map n bs (m / 256) r.1),
)

or_low :
    (m w x y : ℕ)
    → m % 256 ≡ x
    → w % 256 ≡ y
    → bit_or x y < 256
    → (bit_or m w % 256 ≡ bit_or x y) × (bit_or m w / 256 ≡ bit_or (m / 256) (w / 256))
or_low m w x y e f lt =
    let low : bit_or (m % 256) (w % 256) ≡ bit_or x y = rw (e, f) in
    (omega (arith, or_lanes m w, low), omega (arith, or_lanes m w, low))

pub Marks-or :
    (p q : ℕ → Bool) (bs : Bytes) (m w : ℕ)
    → Marks p bs m
    → Marks q bs w
    → Marks (λ b. p b || q b) bs (bit_or m w)
Marks-or p q [] m w h k = ground arith
Marks-or p q (b ∷ bs) m w h k = (
  marked (Bool-cases (p b)) (Bool-cases (q b)),
  λ e. unmarked (Marks-or p q bs (m / 256) (w / 256)) e,
)
  where
    marked :
        (p b ≡ true) ⊎ (p b ≡ false)
        → (q b ≡ true) ⊎ (q b ≡ false)
        → p b || q b ≡ true
        → bit_or m w % 256 ≡ 128
    marked (inl x) (inl y) e = (or_low m w 128 128 (h.0 x) (k.0 y) (omega arith)).0
    marked (inl x) (inr y) e = (or_low m w 128 0 (h.0 x) (k.1 y).0 (omega arith)).0
    marked (inr x) (inl y) e = (or_low m w 0 128 (h.1 x).0 (k.0 y) (omega arith)).0
    marked (inr x) (inr y) e = ground arith

    unmarked :
        (Marks p bs (m / 256)
          → Marks q bs (w / 256)
          → Marks (λ b. p b || q b) bs (bit_or (m / 256) (w / 256)))
        → p b || q b ≡ false
        → (bit_or m w % 256 ≡ 0) × Marks (λ b. p b || q b) bs (bit_or m w / 256)
    unmarked ih e =
        let x : p b ≡ false = ground arith in
        let y : q b ≡ false = ground arith in
        let (low, high) = or_low m w 0 0 (h.1 x).0 (k.1 y).0 (omega arith) in
        (low, subst (Marks (λ b. p b || q b) bs) (sym high) (ih (h.1 x).1 (k.1 y).1))

-- The mask of one needle.
pub needle-Marks :
    (n : ℕ) (bs : Bytes)
    → n < 256
    → length bs ≡ 8
    → IsBytes bs
    → Marks (λ b. b == n) bs (has_zero_byte (bit_xor (from_le_bytes bs) (splat n)))
needle-Marks n bs lt len h = Marks-map n bs _ (
    subst (Marks (λ b. b == 0) lanes) (sym whole)
      (zero_lanes-Marks lanes (map_xor-IsBytes n bs lt h)))
  where
    lanes : Bytes
    lanes = map (λ b. bit_xor b n) bs

    lanes_length : length lanes ≡ 8
    lanes_length = length-map bs (λ b. bit_xor b n) ∙ len

    word : bit_xor (from_le_bytes bs) (splat n) ≡ from_le_bytes lanes
    word = rw (splat-lanes_of, ← len) (xor-lanes_of n bs lt h)

    fits : from_le_bytes lanes < modulus 8
    fits = rw lanes_length at (load_bound lanes (map_xor-IsBytes n bs lt h))

    whole :
        has_zero_byte (bit_xor (from_le_bytes bs) (splat n))
        ≡ zero_lanes (length lanes) (from_le_bytes lanes)
    whole = rw (word, lanes_length) (has_zero_byte-zero_lanes (from_le_bytes lanes) fits)

-- Eight bits for each lane.
abbrev pub lane_bits : ℕ → ℕ
lane_bits zero = 0
lane_bits (suc k) = suc (suc (suc (suc (suc (suc (suc (suc (lane_bits k))))))))

low_zeros-marked : (k m : ℕ) → m % 256 ≡ 128 → low_zeros (lane_bits (suc k)) m ≡ 7
unfolding low_zeros
low_zeros-marked k m h = ground arith

low_zeros-clear :
    (k m : ℕ)
    → m % 256 ≡ 0
    → low_zeros (lane_bits (suc k)) m ≡ 8 + low_zeros (lane_bits k) (m / 256)
unfolding low_zeros
low_zeros-clear k m h = ground arith

-- The lowest bit of a mask stands in the lane of the first byte that passes.
pub Marks-position :
    (p : ℕ → Bool) (bs : Bytes) (m : ℕ)
    → Marks p bs m
    → position p bs ≡ (if m == 0 then none else some (low_zeros (lane_bits (length bs)) m / 8))
Marks-position p [] m h = ground arith
Marks-position p (b ∷ bs) m h = elim (Bool-cases (p b)) [
  | inl e ↦ ground (arith, h.0 e, low_zeros-marked (length bs) m (h.0 e))
  | inr e ↦
      let (low, high) = h.1 e in
      ground (arith, low_zeros-clear (length bs) m low, Marks-position p bs (m / 256) high)
]
