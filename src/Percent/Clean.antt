-- ===== src/Percent/Clean.antt =====
-- What the encoder leaves behind (src/parser/percent.rs): no byte of the set, only printable ASCII.
use sorug.Percent.Codec.{escape, utf8_percent_encode}
use sorug.Percent.Encode.{encoded, utf8_percent_encode-encoded}
use sorug.Percent.Sets.{
  in_c0_encode_set, in_fragment_encode_set, in_query_encode_set, in_special_query_encode_set,
  in_path_encode_set, in_userinfo_encode_set,
}
use sorug.Common.{all_sound}
use sorug.Common.{
  ℕ, ◌<◌, ◌≤◌, Bool, true, false, not, ◌&&◌, ◌||◌, [], ◌∷◌, Bytes, IsBytes, All, All-append,
  all_below, all_below_sound, all, within, ◌==◌, Bool-cases, inl, inr, ◌≡◌, refl, ap, ◌∙◌, arith,
}

-- A percent sign or a digit of `escape`.
abbrev pub is_escape_byte : ℕ → Bool
is_escape_byte b = b == b'%' || within b'0' b'9' b || within b'A' b'F' b

-- A set that holds none of those: what it encodes needs no second encoding.
abbrev pub Spares : (ℕ → Bool) → Type 0
Spares encode = all_below 256 (λ b. not (is_escape_byte b && encode b)) ≡ true

escape_table : all_below 256 (λ b. all is_escape_byte (escape b)) ≡ true
unfolding all_below escape
escape_table = refl

pub escape_bytes : (b : ℕ) → b < 256 → All (λ c. is_escape_byte c ≡ true) (escape b)
escape_bytes b lt =
    all_sound is_escape_byte (escape b)
      (all_below_sound 256 (λ b. all is_escape_byte (escape b)) b escape_table lt)

pub All-map : (P Q : ℕ → Type 0) (s : Bytes) → ((c : ℕ) → P c → Q c) → All P s → All Q s
All-map P Q [] f h = tt
All-map P Q (c ∷ s) f h = (f c h.0, All-map P Q s f h.1)

-- What holds of the bytes of an escape, and of the bytes that are left as they are, holds of the
-- whole result.
pub encoded-All :
    (encode : ℕ → Bool) (P : ℕ → Type 0) (s : Bytes)
    → ((c : ℕ) → is_escape_byte c ≡ true → P c)
    → ((c : ℕ) → encode c ≡ false → P c)
    → IsBytes s
    → All P (encoded encode s)
encoded-All encode P [] f g h = tt
encoded-All encode P (b ∷ s) f g (lt, h) = elim (Bool-cases (encode b)) [
  | inl e ↦ rw e (
      All-append P (escape b) (encoded encode s) (All-map _ P (escape b) f (escape_bytes b lt))
        (encoded-All encode P s f g h))
  | inr e ↦ rw e (g b e, encoded-All encode P s f g h)
]

spared : (encode : ℕ → Bool) → Spares encode → (c : ℕ) → is_escape_byte c ≡ true → encode c ≡ false
spared encode sp c e =
    ground
      (arith, all_below_sound 256 (λ b. not (is_escape_byte b && encode b)) c sp (ground arith))

encoded_none :
    (encode : ℕ → Bool) (s : Bytes) → All (λ b. encode b ≡ false) s → encoded encode s ≡ s
encoded_none encode [] h = refl
encoded_none encode (b ∷ s) (e, h) = rw e (ap (λ t. b ∷ t) (encoded_none encode s h))

-- No byte of the result is in the set, and a second encoding changes nothing.
pub encode_twice :
    (encode : ℕ → Bool) (s : Bytes)
    → Spares encode
    → IsBytes s
    → All (λ b. encode b ≡ false) (utf8_percent_encode s encode [])
      × (utf8_percent_encode (utf8_percent_encode s encode []) encode []
          ≡ utf8_percent_encode s encode [])
encode_twice encode s sp h =
    let clean = encoded-All encode (λ b. encode b ≡ false) s (spared encode sp) (λ c e. e) h in
    rw (utf8_percent_encode-encoded s encode []) (
      clean,
      utf8_percent_encode-encoded (encoded encode s) encode [] ∙ encoded_none encode _ clean,
    )

-- The sets by which the parser writes a path, a query, a fragment, an opaque host and credentials
-- spare the bytes of an escape.
pub sets_Spare :
    Spares in_c0_encode_set
    × Spares in_fragment_encode_set
    × Spares in_query_encode_set
    × Spares in_special_query_encode_set
    × Spares in_path_encode_set
    × Spares in_userinfo_encode_set
unfolding all_below in_c0_encode_set in_fragment_encode_set in_query_encode_set
    in_special_query_encode_set in_path_encode_set in_userinfo_encode_set
sets_Spare = (refl, refl, refl, refl, refl, refl)

-- With a set that holds the controls and all that is not ASCII, the result is printable ASCII.
pub encode_printable :
    (encode : ℕ → Bool) (s : Bytes)
    → ((b : ℕ) → in_c0_encode_set b ≡ true → encode b ≡ true)
    → IsBytes s
    → All (λ b. (0x20 ≤ b) × (b ≤ 0x7e)) (utf8_percent_encode s encode [])
unfolding in_c0_encode_set
encode_printable encode s c0 h = rw (utf8_percent_encode-encoded s encode []) (
    encoded-All encode (λ b. (0x20 ≤ b) × (b ≤ 0x7e)) s (λ c e. ground arith)
      (λ c e. ground (arith, c0 c)) h)
