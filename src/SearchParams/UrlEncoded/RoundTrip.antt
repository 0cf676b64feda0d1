-- ===== src/SearchParams/UrlEncoded/RoundTrip.antt =====
-- Parsing what src/search_params.rs serializes gives the pairs back.
use sorug.Percent.Codec.{escape, decode_loop}
use sorug.Percent.Decode.{decode_loop-literal, decode_loop-escape, percent_decode-decode_loop}
use sorug.Scan.Memchr.{Memchr}
use sorug.SearchParams.UrlEncoded.Parse.{
  round_cons, split_first-last, split_first-part, parse_urlencoded_rounds,
}
use sorug.SearchParams.UrlEncoded.Serialize.{
  urlencoded_byte, urlencoded, urlencoded-output, output_byte, sequence_of, later_sequences,
  serialize_urlencoded-cons,
}
use sorug.SearchParams.UrlEncoded.{
  Utf8, Pair, plus_to_space, replace_plus, byte_serialized_unchanged, decode_urlencoded,
  decode_pair, serialize_urlencoded, parse_urlencoded,
}
use sorug.Common.{
  ℕ, suc, ◌<◌, true, false, List, [], ◌∷◌, ◌++◌, append-nil, map, none, some, Bytes, IsBytes, All,
  all_below, all_below_sound, take, drop, position, bytes_eq, bytes_eq_iff, ◌==◌, Bool-cases,
  Option-cases, inl, inr, ◌≡◌, refl, sym, ap, ◌∙◌, arith,
}
use mathlib.Core.List.{map-append}
use mathlib.Core.Path.{ap₂}
use sorug.Common.{zero, ==_iff, All-append, ◌≢◌}
use sorug.SearchParams.UrlEncoded.{parse_loop}

map_no_plus : (s : Bytes) → position (λ b. b == b'+') s ≡ none → map plus_to_space s ≡ s
map_no_plus [] e = refl
map_no_plus (c ∷ s) e = ground (arith, map_no_plus s)

map_from_plus :
    (s : Bytes) (i : ℕ)
    → position (λ b. b == b'+') s ≡ some i
    → take i s ++ b' ' ∷ map plus_to_space (drop (suc i) s) ≡ map plus_to_space s
map_from_plus [] i e = cc
map_from_plus (c ∷ s) zero e = ground arith
map_from_plus (c ∷ s) (suc i) e = ground (arith, map_from_plus s i)

-- Every plus sign becomes a space, with the shortcut and without.
replace_plus-map : (s : Bytes) → replace_plus s ≡ map plus_to_space s
unfolding replace_plus
replace_plus-map s = elim (Option-cases (position (λ b. b == b'+') s)) [
  | inl e ↦ rw (e, replace_plus) (sym (map_no_plus s e))
  | inr (i, e) ↦ rw (e, replace_plus) (map_from_plus s i e)
]

escape_no_plus_table :
    all_below 256 (λ b. bytes_eq (map plus_to_space (escape b)) (escape b)) ≡ true
unfolding all_below escape bytes_eq
escape_no_plus_table = refl

escape_no_plus : (b : ℕ) → b < 256 → map plus_to_space (escape b) ≡ escape b
escape_no_plus b lt = (bytes_eq_iff (map plus_to_space (escape b)) (escape b)).0 (
    all_below_sound 256 (λ c. bytes_eq (map plus_to_space (escape c)) (escape c)) b
      escape_no_plus_table lt)

unchanged_literal :
    (b : ℕ) → byte_serialized_unchanged b ≡ true → (plus_to_space b ≡ b) × ((b == b'%') ≡ false)
unfolding byte_serialized_unchanged
unchanged_literal b e = ground arith

decode_byte :
    (b : ℕ) (rest : Bytes)
    → b < 256
    → decode_loop (map plus_to_space (urlencoded_byte b) ++ rest) ≡ b ∷ decode_loop rest
decode_byte b rest lt = elim (Bool-cases (byte_serialized_unchanged b)) [
  | inl e ↦
      let (same, literal) = unchanged_literal b e in
      rw (e, same) (decode_loop-literal b rest literal)
  | inr e ↦ elim (Bool-cases (b == b' ')) [
    | inl x ↦
        rw (e, x)
          (decode_loop-literal b' ' rest refl
            ∙ ap (λ c. c ∷ decode_loop rest) (sym ((==_iff b b' ').0 x)))
    | inr x ↦ rw (e, x, escape_no_plus b lt) (decode_loop-escape b rest lt)
  ]
]

decode_text : (s : Bytes) → IsBytes s → decode_loop (map plus_to_space (urlencoded s)) ≡ s
decode_text [] h = unfold decode_loop in refl
decode_text (b ∷ s) h =
    rw (map-append plus_to_space (urlencoded_byte b) (urlencoded s))
      (decode_byte b _ h.0 ∙ ap (λ t. b ∷ t) (decode_text s h.1))

-- Bytes of UTF-8 text.
abbrev pub IsText : Utf8 → Bytes → Type 0
IsText u s = IsBytes s × (u.is_utf8 s ≡ true)

output_lacks :
    (sep : ℕ) (s : Bytes)
    → ((c : ℕ) → output_byte c ≡ true → (c == sep) ≡ false)
    → All (λ c. output_byte c ≡ true) s
    → All (λ c. (c == sep) ≡ false) s
output_lacks sep [] f h = tt
output_lacks sep (c ∷ s) f h = (f c h.0, output_lacks sep s f h.1)

lacks_equals : (s : Bytes) → IsBytes s → All (λ c. (c == b'=') ≡ false) (urlencoded s)
unfolding byte_serialized_unchanged
lacks_equals s h = output_lacks b'=' (urlencoded s) (λ c e. ground arith) (urlencoded-output s h)

urlencoded_lacks : (s : Bytes) → IsBytes s → All (λ c. (c == b'&') ≡ false) (urlencoded s)
unfolding byte_serialized_unchanged
urlencoded_lacks s h =
    output_lacks b'&' (urlencoded s) (λ c e. ground arith) (urlencoded-output s h)

lacks_ampersand :
    (n v : Bytes) → IsBytes n → IsBytes v → All (λ c. (c == b'&') ≡ false) (sequence_of (n, v))
lacks_ampersand n v hn hv =
    All-append (λ c. (c == b'&') ≡ false) (urlencoded n) (b'=' ∷ urlencoded v)
      (urlencoded_lacks n hn) (refl, urlencoded_lacks v hv)

sequence_not_empty : (p : Pair) → sequence_of p ≢ []
sequence_not_empty (n, v) = concat_not_empty (urlencoded n) b'=' (urlencoded v)
  where
    concat_not_empty : (s : Bytes) (c : ℕ) (t : Bytes) → s ++ c ∷ t ≢ []
    concat_not_empty [] c t e = cc
    concat_not_empty (x ∷ s) c t e = cc

module _ (m : Memchr) (u : Utf8) where
  decode_urlencoded-urlencoded : (s : Bytes) → IsText u s → decode_urlencoded m u (urlencoded s) ≡ s
  unfolding decode_urlencoded
  decode_urlencoded-urlencoded s (h, ok) =
      rw (replace_plus-map, percent_decode-decode_loop, decode_text s h, ok)

  decode_pair-sequence_of :
      (n v : Bytes) → IsText u n → IsText u v → decode_pair m u (sequence_of (n, v)) ≡ (n, v)
  unfolding decode_pair
  decode_pair-sequence_of n v hn hv =
      rw (split_first-part b'=' (urlencoded n) (urlencoded v) (lacks_equals n hn.0)) (
        ap₂ (λ (x y : Bytes). (x, y)) (decode_urlencoded-urlencoded n hn)
          (decode_urlencoded-urlencoded v hv))

  -- The first sequence of an input, if it holds something.
  parse_last :
      (c : ℕ) (s : Bytes)
      → All (λ d. (d == b'&') ≡ false) (c ∷ s)
      → parse_urlencoded m u (c ∷ s) ≡ decode_pair m u (c ∷ s) ∷ []
  parse_last c s h =
      parse_urlencoded_rounds m u c s
      ∙ rw (split_first-last b'&' (c ∷ s) h) (
          round_cons m u c s (parse_urlencoded m u []) ∙ unfold parse_urlencoded parse_loop in refl)

  parse_part :
      (c : ℕ) (s rest : Bytes)
      → All (λ d. (d == b'&') ≡ false) (c ∷ s)
      → parse_urlencoded m u (c ∷ (s ++ b'&' ∷ rest))
        ≡ decode_pair m u (c ∷ s) ∷ parse_urlencoded m u rest
  parse_part c s rest h =
      parse_urlencoded_rounds m u c (s ++ b'&' ∷ rest)
      ∙ rw (split_first-part b'&' (c ∷ s) rest h) (round_cons m u c s (parse_urlencoded m u rest))

  parse_first :
      (p : Pair) (tail : Bytes)
      → IsBytes p.0
      → IsBytes p.1
      → parse_urlencoded m u (sequence_of p ++ b'&' ∷ tail)
        ≡ decode_pair m u (sequence_of p) ∷ parse_urlencoded m u tail
  parse_first (n, v) tail hn hv =
      go (sequence_of (n, v)) (sequence_not_empty (n, v)) (lacks_ampersand n v hn hv)
    where
      go :
          (s : Bytes)
          → s ≢ []
          → All (λ d. (d == b'&') ≡ false) s
          → parse_urlencoded m u (s ++ b'&' ∷ tail) ≡ decode_pair m u s ∷ parse_urlencoded m u tail
      go [] ne h = absurd (ne refl)
      go (c ∷ s) ne h = parse_part c s tail h

  parse_only :
      (p : Pair)
      → IsBytes p.0
      → IsBytes p.1
      → parse_urlencoded m u (sequence_of p) ≡ decode_pair m u (sequence_of p) ∷ []
  parse_only (n, v) hn hv =
      go (sequence_of (n, v)) (sequence_not_empty (n, v)) (lacks_ampersand n v hn hv)
    where
      go :
          (s : Bytes)
          → s ≢ []
          → All (λ d. (d == b'&') ≡ false) s
          → parse_urlencoded m u s ≡ decode_pair m u s ∷ []
      go [] ne h = absurd (ne refl)
      go (c ∷ s) ne h = parse_last c s h

  parse_sequences :
      (p : Pair) (ps : List Pair)
      → IsText u p.0 × IsText u p.1
      → All (λ q. IsText u q.0 × IsText u q.1) ps
      → parse_urlencoded m u (sequence_of p ++ later_sequences ps) ≡ p ∷ ps
  parse_sequences (n, v) [] (hn, hv) h =
      rw append-nil
        (parse_only (n, v) hn.0 hv.0 ∙ ap (λ q. q ∷ []) (decode_pair-sequence_of n v hn hv))
  parse_sequences (n, v) (q ∷ qs) (hn, hv) h =
      parse_first (n, v) (sequence_of q ++ later_sequences qs) hn.0 hv.0
      ∙ ap₂ (λ (x : Pair) (y : List Pair). x ∷ y) (decode_pair-sequence_of n v hn hv)
          (parse_sequences q qs h.0 h.1)

  -- Pairs of texts that are UTF-8 bytes, serialized and parsed again, are the same pairs in order.
  pub parse-serialize :
      (ps : List Pair)
      → All (λ q. IsText u q.0 × IsText u q.1) ps
      → parse_urlencoded m u (serialize_urlencoded ps) ≡ ps
  parse-serialize [] h = unfold parse_urlencoded serialize_urlencoded in refl
  parse-serialize (p ∷ ps) h = rw serialize_urlencoded-cons (parse_sequences p ps h.0 h.1)
