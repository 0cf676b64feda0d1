-- ===== src/Percent/Encode.antt =====
-- The encoder (src/parser/percent.rs) writes byte by byte what its runs write in bulk.
use sorug.Common.{
  ℕ, ◌<◌, ◌≤◌, Bool, true, ◌||◌, [], ◌∷◌, ◌++◌, append_assoc, append-nil, none, some, Bytes, All,
  take, drop, position, ltb, if◌then◌else◌, Bool-cases, Option-cases, zero, suc, inl, inr, ◌≡◌,
  refl, ◌∙◌, arith,
}
use sorug.Percent.Codec.{
  escape, append_percent, percent_encode_bytes, safe_run, encode_run, utf8_percent_encode,
  append_all_percent, percent_encode_char,
}

-- What one byte becomes, and a text.
abbrev pub encoded_byte : (ℕ → Bool) → ℕ → Bytes
encoded_byte encode b = if encode b then escape b else b ∷ []

abbrev pub encoded : (ℕ → Bool) → Bytes → Bytes
encoded encode [] = []
encoded encode (b ∷ bs) = encoded_byte encode b ++ encoded encode bs

mutual
  unfolding safe_run encode_run append_percent

  safe_run-encoded :
      (encode : ℕ → Bool) (bs run out : Bytes)
      → safe_run encode bs run out ≡ out ++ (run ++ encoded encode bs)
  safe_run-encoded encode [] run out = rw append-nil
  safe_run-encoded encode (b ∷ bs) run out = elim (Bool-cases (encode b)) [
    | inl e ↦ rw e (encode_run-encoded encode bs ((out ++ run) ++ escape b) ∙ simp append_assoc)
    | inr e ↦ rw e (safe_run-encoded encode bs (run ++ b ∷ []) out ∙ simp append_assoc)
  ]

  encode_run-encoded :
      (encode : ℕ → Bool) (bs out : Bytes) → encode_run encode bs out ≡ out ++ encoded encode bs
  encode_run-encoded encode [] out = rw append-nil
  encode_run-encoded encode (b ∷ bs) out = elim (Bool-cases (encode b)) [
    | inl e ↦ rw e (encode_run-encoded encode bs (out ++ escape b) ∙ simp append_assoc)
    | inr e ↦ rw e (safe_run-encoded encode bs (b ∷ []) out)
  ]

pub encoded-append :
    (encode : ℕ → Bool) (xs ys : Bytes)
    → encoded encode (xs ++ ys) ≡ encoded encode xs ++ encoded encode ys
encoded-append encode [] ys = refl
encoded-append encode (x ∷ xs) ys = simp (encoded-append encode xs ys, append_assoc)

-- Before the first byte of the set nothing changes.
encoded_clean :
    (encode : ℕ → Bool) (bs : Bytes) → position encode bs ≡ none → encoded encode bs ≡ bs
encoded_clean encode [] e = refl
encoded_clean encode (b ∷ bs) e = ground (arith, encoded_clean encode bs)

take_before :
    (encode : ℕ → Bool) (bs : Bytes) (i : ℕ)
    → position encode bs ≡ some i
    → encoded encode bs ≡ take i bs ++ encoded encode (drop i bs)
take_before encode [] i e = cc
take_before encode (b ∷ bs) zero e = refl
take_before encode (b ∷ bs) (suc i) e = ground (arith, take_before encode bs i)

-- The encoder with its early return and its runs copied in bulk appends each byte in order, escaped
-- if it is in the set.
pub utf8_percent_encode-encoded :
    (input : Bytes) (encode : ℕ → Bool) (out : Bytes)
    → utf8_percent_encode input encode out ≡ out ++ encoded encode input
unfolding utf8_percent_encode
utf8_percent_encode-encoded input encode out = elim (Option-cases (position encode input)) [
  | inl e ↦ rw (e, utf8_percent_encode) (rw (encoded_clean encode input e))
  | inr (i, e) ↦
      rw (e, utf8_percent_encode)
        (rw (take_before encode input i e)
          (safe_run-encoded encode (drop i input) [] (out ++ take i input) ∙ rw append_assoc))
]

append_all_percent-encoded :
    (encode : ℕ → Bool) (c out : Bytes)
    → All (λ b. encode b ≡ true) c
    → append_all_percent c out ≡ out ++ encoded encode c
unfolding append_all_percent append_percent
append_all_percent-encoded encode [] out h = rw append-nil
append_all_percent-encoded encode (b ∷ c) out (e, h) =
    rw e (append_all_percent-encoded encode c (out ++ escape b) h ∙ rw append_assoc)

-- The UTF-8 form of a code point: one ASCII byte, or bytes that are all from 0x80 on.
pub data IsCharBytes : Bytes → Type 0 where
  ascii : (b : ℕ) → b < 0x80 → IsCharBytes (b ∷ [])
  wide : (c : Bytes) → All (λ b. 0x80 ≤ b) c → IsCharBytes c

any_wide :
    (encode : ℕ → Bool) (c : Bytes)
    → ((b : ℕ) → 0x80 ≤ b → encode b ≡ true)
    → All (λ b. 0x80 ≤ b) c
    → All (λ b. encode b ≡ true) c
any_wide encode [] e h = tt
any_wide encode (b ∷ c) e h = (e b h.0, any_wide encode c e h.1)

-- For a set that holds all bytes from 0x80 on, encoding a code point (one ASCII byte, or bytes from
-- 0x80 on) appends what encoding its bytes one by one gives.
percent_encode_char-encoded :
    {c : Bytes} (encode : ℕ → Bool) (out : Bytes)
    → ((b : ℕ) → 0x80 ≤ b → encode b ≡ true)
    → IsCharBytes c
    → percent_encode_char c encode out ≡ out ++ encoded encode c
unfolding percent_encode_char
percent_encode_char-encoded encode out e (ascii b lt) = elim (Bool-cases (encode b)) [
  | inl x ↦ rw x (append_all_percent-encoded encode (b ∷ []) out (x, tt) ∙ rw x)
  | inr x ↦ rw x
]
percent_encode_char-encoded encode out e (wide [] h) = refl
percent_encode_char-encoded encode out e (wide (b ∷ c) h) =
    rw (e b h.0)
      (append_all_percent-encoded encode (b ∷ c) out (any_wide encode (b ∷ c) e h) ∙ rw (e b h.0))

-- `percent_encode_bytes` appends each byte in order, escaped if it is in the set or above 0x7f.
percent_encode_bytes-encoded :
    (input : Bytes) (encode : ℕ → Bool) (out : Bytes)
    → percent_encode_bytes input encode out ≡ out ++ encoded (λ b. ltb 0x7f b || encode b) input
unfolding percent_encode_bytes append_percent
percent_encode_bytes-encoded [] encode out = rw append-nil
percent_encode_bytes-encoded (b ∷ bs) encode out = elim (Bool-cases (ltb 0x7f b || encode b)) [
  | inl e ↦ rw e (percent_encode_bytes-encoded bs encode (out ++ escape b) ∙ rw append_assoc)
  | inr e ↦ rw e (percent_encode_bytes-encoded bs encode (out ++ b ∷ []) ∙ rw append_assoc)
]
