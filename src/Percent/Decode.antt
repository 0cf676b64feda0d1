-- ===== src/Percent/Decode.antt =====
-- `percent_decode` (src/parser/percent.rs) undoes the encoder.
use sorug.Percent.Codec.{
  escape, from_hex, hex_pair, decode_loop, percent_decode, utf8_percent_encode,
}
use sorug.Percent.Encode.{encoded, utf8_percent_encode-encoded}
use sorug.Scan.Memchr.{Memchr, IsFirst}
use sorug.Common.{
  ℕ, ◌<◌, Bool, true, false, [], ◌∷◌, ◌++◌, Option, none, some, Bytes, IsBytes, All, all_below,
  all_below_sound, ◌==◌, Bool-cases, inl, inr, ◌≡◌, refl, sym, ap, ◌∙◌, ==_iff, false≢true, arith,
}

-- A byte that is no percent sign stands for itself, whatever follows.
pub decode_loop-literal :
    (b : ℕ) (rest : Bytes) → (b == b'%') ≡ false → decode_loop (b ∷ rest) ≡ b ∷ decode_loop rest
unfolding decode_loop
decode_loop-literal b [] e = refl
decode_loop-literal b (x ∷ []) e = refl
decode_loop-literal b (x ∷ y ∷ rest) e = rw e

abbrev holds : ℕ → Option ℕ → Bool
holds b none = false
holds b (some v) = v == b

hex_table_pairs :
    all_below 256 (λ b. elim (escape b) [
      | [] ↦ false
      | x ∷ r ↦ elim r [
        | [] ↦ false
        | h ∷ t ↦ elim t [ [] ↦ false | l ∷ u ↦ holds b (hex_pair h l) ]
      ]
    ])
    ≡ true
unfolding all_below escape hex_pair
hex_table_pairs = refl

holds-some : (b : ℕ) (o : Option ℕ) → holds b o ≡ true → o ≡ some b
holds-some b none e = cc
holds-some b (some v) e = ground arith

-- The three bytes that stand for one are read as that one.
pub decode_loop-escape :
    (b : ℕ) (rest : Bytes) → b < 256 → decode_loop (escape b ++ rest) ≡ b ∷ decode_loop rest
unfolding decode_loop escape
decode_loop-escape b rest lt = rw (holds-some b _ (all_below_sound 256 _ b hex_table_pairs lt))

not_percent :
    (encode : ℕ → Bool) (b : ℕ) → encode b'%' ≡ true → encode b ≡ false → (b == b'%') ≡ false
not_percent encode b e x = elim (Bool-cases (b == b'%')) [
  | inl same ↦ absurd (false≢true (sym x ∙ ap encode ((==_iff b b'%').0 same) ∙ e))
  | inr other ↦ other
]

pub decode_loop-encoded :
    (encode : ℕ → Bool) (s : Bytes)
    → encode b'%' ≡ true
    → IsBytes s
    → decode_loop (encoded encode s) ≡ s
decode_loop-encoded encode [] e h = unfold decode_loop in refl
decode_loop-encoded encode (b ∷ s) e (lt, h) = elim (Bool-cases (encode b)) [
  | inl x ↦ rw x (decode_loop-escape b _ lt ∙ ap (λ t. b ∷ t) (decode_loop-encoded encode s e h))
  | inr x ↦ rw x (
      decode_loop-literal b _ (not_percent encode b e x)
      ∙ ap (λ t. b ∷ t) (decode_loop-encoded encode s e h))
]

decode_loop-no_percent : (s : Bytes) → All (λ b. (b == b'%') ≡ false) s → decode_loop s ≡ s
decode_loop-no_percent [] h = unfold decode_loop in refl
decode_loop-no_percent (b ∷ s) (e, h) =
    decode_loop-literal b s e ∙ ap (λ t. b ∷ t) (decode_loop-no_percent s h)

-- The early return on a text with no percent sign changes nothing.
pub percent_decode-decode_loop : (m : Memchr) (s : Bytes) → percent_decode m s ≡ decode_loop s
unfolding percent_decode
percent_decode-decode_loop m s = go (m.memchr b'%' s) (m.memchr_first b'%' s)
  where
    go :
        (o : Option ℕ)
        → IsFirst (λ b. b == b'%') s o
        → (elim o [ none ↦ s | some _ ↦ decode_loop s ]) ≡ decode_loop s
    go none h = sym (decode_loop-no_percent s h)
    go (some i) h = refl

pub from_hex-lt : (b : ℕ) {v : ℕ} → from_hex b ≡ some v → v < 16
unfolding from_hex
from_hex-lt b h = ground arith

-- How the loop goes on where three bytes are left.
pub decode_loop-pair :
    (a b v : ℕ) (rest : Bytes)
    → hex_pair a b ≡ some v
    → decode_loop (b'%' ∷ a ∷ b ∷ rest) ≡ v ∷ decode_loop rest
unfolding decode_loop
decode_loop-pair a b v rest e = rw e

pub decode_loop-kept :
    (c a b : ℕ) (rest : Bytes)
    → hex_pair a b ≡ none
    → decode_loop (c ∷ a ∷ b ∷ rest) ≡ c ∷ decode_loop (a ∷ b ∷ rest)
unfolding decode_loop
decode_loop-kept c a b rest e = elim (Bool-cases (c == b'%')) [ inl x ↦ rw (x, e) | inr x ↦ rw x ]

-- Bytes that are encoded with a set that holds the percent sign decode to the same bytes.
pub percent_decode-utf8_percent_encode :
    (m : Memchr) (encode : ℕ → Bool) (s : Bytes)
    → encode b'%' ≡ true
    → IsBytes s
    → percent_decode m (utf8_percent_encode s encode []) ≡ s
percent_decode-utf8_percent_encode m encode s e h =
    rw utf8_percent_encode-encoded
      (percent_decode-decode_loop m (encoded encode s) ∙ decode_loop-encoded encode s e h)
