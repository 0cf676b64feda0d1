-- ===== src/Percent/Reference.antt =====
-- `percent_decode` (src/parser/percent.rs) against the rule of the URL standard: a percent sign with
-- two hex digits behind it is the byte of that value, and every other byte stands for itself.
use sorug.Percent.Codec.{from_hex, hex_pair, decode_loop, percent_decode}
use sorug.Percent.Decode.{
  decode_loop-literal, decode_loop-pair, decode_loop-kept, percent_decode-decode_loop, from_hex-lt,
}
use sorug.Scan.Memchr.{Memchr}
use sorug.Common.{
  ℕ, ◌+◌, ◌-◌, ◌*◌, ◌/◌, ◌%◌, ◌<◌, bit_or, true, false, [], ◌∷◌, none, some, some-injective, Bytes,
  all_below, all_below_sound, ltb, ◌==◌, if◌then◌else◌, Bool-cases, Option-cases, ◌⊎◌, inl, inr,
  ◌≡◌, refl, sym, ap, subst, ◌∙◌, ==_iff, arith,
}

-- The value of a hex digit.
abbrev pub Digit : ℕ → ℕ → Type 0
Digit c v =
    (v < 16)
    × ((c ≡ (if ltb v 10 then b'0' + v else b'a' + (v - 10)))
        ⊎ (c ≡ (if ltb v 10 then b'0' + v else b'A' + (v - 10))))

-- A text starts with a percent sign and two hex digits.
abbrev pub IsEscape : Bytes → Type 0
IsEscape [] = ⊥
IsEscape (c ∷ []) = ⊥
IsEscape (c ∷ a ∷ []) = ⊥
IsEscape (c ∷ a ∷ b ∷ s) = (c ≡ b'%') × ((h : ℕ) × Digit a h) × ((l : ℕ) × Digit b l)

pub data Decodes : Bytes → Bytes → Type 0 where
  at_end : Decodes [] []
  escaped :
      (a b h l : ℕ) (s t : Bytes)
      → Digit a h
      → Digit b l
      → Decodes s t
      → Decodes (b'%' ∷ a ∷ b ∷ s) ((h * 16 + l) ∷ t)
  itself : (c : ℕ) (s t : Bytes) → ¬ IsEscape (c ∷ s) → Decodes s t → Decodes (c ∷ s) (c ∷ t)

from_hex-Digit : (c v : ℕ) → from_hex c ≡ some v → Digit c v
unfolding from_hex
from_hex-Digit c v e = ground arith

Digit-from_hex : (c v : ℕ) → Digit c v → from_hex c ≡ some v
unfolding from_hex
Digit-from_hex c v d = ground arith

nibbles_table : all_below 256 (λ b. bit_or (b / 16 * 16 % 256) (b % 16) == b) ≡ true
unfolding all_below
nibbles_table = refl

nibbles : (h l : ℕ) → h < 16 → l < 16 → bit_or (h * 16 % 256) l ≡ h * 16 + l
nibbles h l p q =
    let x : (h * 16 + l) / 16 ≡ h = omega arith in
    let y : (h * 16 + l) % 16 ≡ l = omega arith in
    (==_iff _ _).0 (
      rw (x, y) at
        (all_below_sound 256 (λ b. bit_or (b / 16 * 16 % 256) (b % 16) == b) (h * 16 + l)
          nibbles_table (omega arith)))

none≢some : {A : Type 0} {a : A} → none ≡ some a → ⊥
none≢some e = ground arith

-- Two digits that the decoder reads, or a text that is no escape.
hex_pair-some : (a b : ℕ) → (h l : ℕ) → Digit a h → Digit b l → hex_pair a b ≡ some (h * 16 + l)
unfolding hex_pair
hex_pair-some a b h l d e =
    rw (hex_pair, Digit-from_hex a h d, Digit-from_hex b l e) (ap some (nibbles h l (d.0) (e.0)))

hex_pair-digits :
    (a b v : ℕ)
    → hex_pair a b ≡ some v
    → (h : ℕ) × (l : ℕ) × Digit a h × Digit b l × (v ≡ h * 16 + l)
unfolding hex_pair
hex_pair-digits a b v e = elim (Option-cases (from_hex a)) [
  | inl x ↦ absurd (none≢some (rw (hex_pair, x) at e))
  | inr (h, x) ↦ elim (Option-cases (from_hex b)) [
    | inl y ↦ absurd (none≢some (rw (hex_pair, x, y) at e))
    | inr (l, y) ↦ (
      h,
      l,
      from_hex-Digit a h x,
      from_hex-Digit b l y,
      sym (some-injective _ _ (rw (hex_pair, x, y) at e))
          ∙ nibbles h l (from_hex-lt a x) (from_hex-lt b y),
    )
  ]
]

not-IsEscape : (c a b : ℕ) (s : Bytes) → hex_pair a b ≡ none → ¬ IsEscape (c ∷ a ∷ b ∷ s)
not-IsEscape c a b s e (x, (h, d), (l, d')) = none≢some (sym e ∙ hex_pair-some a b h l d d')

no_sign-IsEscape : (c a b : ℕ) (s : Bytes) → (c == b'%') ≡ false → ¬ IsEscape (c ∷ a ∷ b ∷ s)
no_sign-IsEscape c a b s e (x, _, _) = ground arith

decode_loop-Decodes : (s : Bytes) → Decodes s (decode_loop s)
decode_loop-Decodes [] = unfold decode_loop in at_end
decode_loop-Decodes (c ∷ []) = unfold decode_loop in itself c [] [] (λ x. x) at_end
decode_loop-Decodes (c ∷ a ∷ []) =
    unfold decode_loop in itself c (a ∷ []) (a ∷ []) (λ x. x) (itself a [] [] (λ x. x) at_end)
decode_loop-Decodes (c ∷ a ∷ b ∷ s) =
    let near = decode_loop-Decodes (a ∷ b ∷ s) in
    let far = decode_loop-Decodes s in
    elim (Bool-cases (c == b'%')) [
      | inr x ↦
          rw (decode_loop-literal c (a ∷ b ∷ s) x)
            (itself c (a ∷ b ∷ s) (decode_loop (a ∷ b ∷ s)) (no_sign-IsEscape c a b s x) near)
      | inl x ↦ elim (Option-cases (hex_pair a b)) [
        | inl e ↦
            rw (decode_loop-kept c a b s e)
              (itself c (a ∷ b ∷ s) (decode_loop (a ∷ b ∷ s)) (not-IsEscape c a b s e) near)
        | inr (v, e) ↦
            let (h, l, d, d', k) = hex_pair-digits a b v e in
            subst (λ t. Decodes (c ∷ a ∷ b ∷ s) t)
              (sym (
                ap (λ t. decode_loop (t ∷ a ∷ b ∷ s)) ((==_iff c b'%').0 x)
                ∙ decode_loop-pair a b v s e))
              (subst (λ t. Decodes (t ∷ a ∷ b ∷ s) (v ∷ decode_loop s)) (sym ((==_iff c b'%').0 x))
                (subst (λ t. Decodes (b'%' ∷ a ∷ b ∷ s) (t ∷ decode_loop s)) (sym k)
                  (escaped a b h l s (decode_loop s) d d' far)))
      ]
    ]

-- The decoder follows the rule on any text, with its early return and its shifted digits: it replaces
-- each percent sign that two hex digits follow, from the left, by the byte of their value, goes on
-- behind them, and keeps every other byte.
pub percent_decode-Decodes : (m : Memchr) (s : Bytes) → Decodes s (percent_decode m s)
percent_decode-Decodes m s =
    subst (Decodes s) (sym (percent_decode-decode_loop m s)) (decode_loop-Decodes s)
