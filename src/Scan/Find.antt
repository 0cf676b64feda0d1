-- ===== src/Scan/Find.antt =====
-- The forward scans of src/parser/scan.rs find the first match.
use sorug.Common.{
  ℕ, ◌+◌, ◌/◌, ◌<◌, bit_or, bit_xor, Bool, ◌||◌, [], ◌∷◌, ◌++◌, Option, none, some, Bytes, IsByte,
  IsBytes, All-split, length, position, ◌==◌, if◌then◌else◌, ◌≡◌, refl, sym, ◌∙◌, subst, arith,
}
use sorug.Scan.Marks.{Marks, Marks-or, needle-Marks, lane_bits, Marks-position}
use sorug.Scan.Swar.{
  from_le_bytes, has_zero_byte, low_zeros, first_match_index, splat, swar_tail, swar_scan,
  swar_find, swar_find2, swar_find3, swar_find4,
}

-- An index behind `i` others.
abbrev pub shift : ℕ → Option ℕ → Option ℕ
shift i none = none
shift i (some j) = some (i + j)

swar_tail-position :
    (hit : ℕ → Bool) (bs : Bytes) (i : ℕ) → swar_tail hit bs i ≡ shift i (position hit bs)
unfolding swar_tail
swar_tail-position hit [] i = refl
swar_tail-position hit (b ∷ bs) i = ground (arith, swar_tail-position hit bs (i + 1))

shift-zero : (o : Option ℕ) → shift 0 o ≡ o
shift-zero none = refl
shift-zero (some k) = ground arith

shift-shift : (i j : ℕ) (o : Option ℕ) → shift (i + j) o ≡ shift i (shift j o)
shift-shift i j none = refl
shift-shift i j (some k) = ground arith

-- The first match of two texts in a row.
abbrev earlier : Option ℕ → Option ℕ → Option ℕ
earlier (some i) later = some i
earlier none later = later

position-append :
    (hit : ℕ → Bool) (xs ys : Bytes)
    → position hit (xs ++ ys) ≡ earlier (position hit xs) (shift (length xs) (position hit ys))
position-append hit [] ys = sym (shift-zero (position hit ys))
position-append hit (x ∷ xs) ys = ground (arith, position-append hit xs ys)

-- What the mask of a whole word has to say.
abbrev Sees : (ℕ → ℕ) → (ℕ → Bool) → Type 0
Sees mask_of hit =
    (bs : Bytes) → length bs ≡ 8 → IsBytes bs → Marks hit bs (mask_of (from_le_bytes bs))

abbrev found : ℕ → Option ℕ
found mask = if mask == 0 then none else some (first_match_index mask)

module _ (mask_of : ℕ → ℕ) (hit : ℕ → Bool) (sees : Sees mask_of hit) where
  word_lem :
      (bs : Bytes)
      → length bs ≡ 8
      → IsBytes bs
      → position hit bs ≡ found (mask_of (from_le_bytes bs))
  unfolding first_match_index
  word_lem bs len h =
      subst
        (λ (k : ℕ). position hit bs ≡ (
          if mask_of (from_le_bytes bs) == 0
          then none
          else some (low_zeros (lane_bits k) (mask_of (from_le_bytes bs)) / 8)))
        len (Marks-position hit bs _ (sees bs len h))

  scan_step :
      (word rest : Bytes) (i : ℕ)
      → length word ≡ 8
      → IsBytes word
      → (if mask_of (from_le_bytes word) == 0
          then shift (i + 8) (position hit rest)
          else some (i + first_match_index (mask_of (from_le_bytes word))))
        ≡ shift i (position hit (word ++ rest))
  scan_step word rest i len h = ground (
    arith,
    position-append hit word rest,
    word_lem word len h,
    shift-shift i 8 (position hit rest),
  )

  swar_scan-position :
      (bs : Bytes) (i : ℕ) → IsBytes bs → swar_scan mask_of hit bs i ≡ shift i (position hit bs)
  unfolding swar_scan
  swar_scan-position (a ∷ b ∷ c ∷ d ∷ e ∷ f ∷ g ∷ h ∷ rest) i x =
      let word : Bytes = a ∷ b ∷ c ∷ d ∷ e ∷ f ∷ g ∷ h ∷ [] in
      let (hw, hr) = All-split IsByte word rest x in
      rw (swar_scan-position rest (i + 8) hr) (scan_step word rest i refl hw)
  swar_scan-position bs i h = swar_tail-position hit bs i

abbrev needle : ℕ → ℕ → ℕ
needle n word = has_zero_byte (bit_xor word (splat n))

-- Each needle adds its mask to those before it.
abbrev needles : ℕ → ℕ → ℕ → ℕ
needles n1 n2 word = bit_or (needle n1 word) (needle n2 word)

abbrev is : ℕ → ℕ → Bool
is n b = b == n

Sees-needle : (n : ℕ) → n < 256 → Sees (needle n) (is n)
Sees-needle n lt bs = needle-Marks n bs lt

Sees-or :
    (f g : ℕ → ℕ) (p q : ℕ → Bool)
    → Sees f p
    → Sees g q
    → Sees (λ w. bit_or (f w) (g w)) (λ b. p b || q b)
Sees-or f g p q sf sg bs len h = Marks-or p q bs _ _ (sf bs len h) (sg bs len h)

Sees-needles : (n1 n2 : ℕ) → n1 < 256 → n2 < 256 → Sees (needles n1 n2) (λ b. b == n1 || b == n2)
Sees-needles n1 n2 h1 h2 =
    Sees-or (needle n1) (needle n2) (is n1) (is n2) (Sees-needle n1 h1) (Sees-needle n2 h2)

-- The loop finds the first hit, from index 0.
scan_finds :
    (mask_of : ℕ → ℕ) (hit : ℕ → Bool) (h : Bytes)
    → Sees mask_of hit
    → IsBytes h
    → swar_scan mask_of hit h 0 ≡ position hit h
scan_finds mask_of hit h sees hb =
    swar_scan-position mask_of hit sees h 0 hb ∙ shift-zero (position hit h)

-- In bytes, the word-wise search for a byte gives the first index that a byte-wise search finds.
pub swar_find-position :
    (h : Bytes) (n : ℕ) → IsBytes h → n < 256 → swar_find h n ≡ position (λ b. b == n) h
unfolding swar_find
swar_find-position h n hb lt = scan_finds (needle n) (is n) h (Sees-needle n lt) hb

pub swar_find2-position :
    (h : Bytes) (n1 n2 : ℕ)
    → IsBytes h
    → n1 < 256
    → n2 < 256
    → swar_find2 h n1 n2 ≡ position (λ b. b == n1 || b == n2) h
unfolding swar_find2
swar_find2-position h n1 n2 hb h1 h2 =
    scan_finds (needles n1 n2) (λ b. b == n1 || b == n2) h (Sees-needles n1 n2 h1 h2) hb

pub swar_find3-position :
    (h : Bytes) (n1 n2 n3 : ℕ)
    → IsBytes h
    → n1 < 256
    → n2 < 256
    → n3 < 256
    → swar_find3 h n1 n2 n3 ≡ position (λ b. b == n1 || b == n2 || b == n3) h
unfolding swar_find3
swar_find3-position h n1 n2 n3 hb h1 h2 h3 =
    scan_finds mask (λ b. b == n1 || b == n2 || b == n3) h sees hb
  where
    mask : ℕ → ℕ
    mask w = bit_or (needles n1 n2 w) (needle n3 w)

    sees : Sees mask (λ b. b == n1 || b == n2 || b == n3)
    sees =
        Sees-or (needles n1 n2) (needle n3) (λ b. b == n1 || b == n2) (is n3)
          (Sees-needles n1 n2 h1 h2) (Sees-needle n3 h3)

-- In bytes, the word-wise search for four bytes gives the first index of any of them.
pub swar_find4-position :
    (h : Bytes) (n1 n2 n3 n4 : ℕ)
    → IsBytes h
    → n1 < 256
    → n2 < 256
    → n3 < 256
    → n4 < 256
    → swar_find4 h n1 n2 n3 n4 ≡ position (λ b. b == n1 || b == n2 || b == n3 || b == n4) h
unfolding swar_find4
swar_find4-position h n1 n2 n3 n4 hb h1 h2 h3 h4 =
    scan_finds mask (λ b. b == n1 || b == n2 || b == n3 || b == n4) h sees hb
  where
    three : ℕ → ℕ
    three w = bit_or (needles n1 n2 w) (needle n3 w)

    mask : ℕ → ℕ
    mask w = bit_or (three w) (needle n4 w)

    sees : Sees mask (λ b. b == n1 || b == n2 || b == n3 || b == n4)
    sees =
        Sees-or three (needle n4) (λ b. (b == n1 || b == n2) || b == n3) (is n4)
          (Sees-or (needles n1 n2) (needle n3) (λ b. b == n1 || b == n2) (is n3)
            (Sees-needles n1 n2 h1 h2) (Sees-needle n3 h3))
          (Sees-needle n4 h4)
