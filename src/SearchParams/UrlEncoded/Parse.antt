-- ===== src/SearchParams/UrlEncoded/Parse.antt =====
-- The parser of src/search_params.rs: its rounds, and that its fuel is enough.
use sorug.SearchParams.UrlEncoded.{
  Utf8, Pair, split_first, or_empty, decode_pair, parse_loop, parse_urlencoded,
}
use sorug.Scan.Memchr.{Memchr}
use sorug.Common.{
  ℕ, zero, suc, ◌≤◌, false, List, [], ◌∷◌, ◌++◌, none, some, Bytes, All, length, ◌==◌,
  if◌then◌else◌, ◌≡◌, refl, ap, arith,
}

split_first-length :
    (sep c : ℕ) (s : Bytes) → length (or_empty (split_first sep (c ∷ s)).1) ≤ length s
unfolding split_first
split_first-length sep c [] = ground arith
split_first-length sep c (d ∷ s) = ground (arith, split_first-length sep d s)

-- A text with no separator is one part, and so is the text before the first separator.
pub split_first-last :
    (sep : ℕ) (s : Bytes) → All (λ c. (c == sep) ≡ false) s → split_first sep s ≡ (s, none)
unfolding split_first
split_first-last sep [] h = refl
split_first-last sep (c ∷ s) (e, h) = rw (e, split_first-last sep s h)

pub split_first-part :
    (sep : ℕ) (s rest : Bytes)
    → All (λ c. (c == sep) ≡ false) s
    → split_first sep (s ++ sep ∷ rest) ≡ (s, some rest)
unfolding split_first
split_first-part sep [] rest h = ground arith
split_first-part sep (c ∷ s) rest (e, h) = rw (e, split_first-part sep s rest h)

module _ (m : Memchr) (u : Utf8) where
  -- One round, with the pairs of the later rounds.
  abbrev pub round : Bytes → List Pair → List Pair
  round sequence later = if length sequence == 0 then later else decode_pair m u sequence ∷ later

  pub round_cons :
      (c : ℕ) (s : Bytes) (later : List Pair)
      → round (c ∷ s) later ≡ decode_pair m u (c ∷ s) ∷ later
  round_cons c s later = ground arith

  parse_fuel :
      (f g : ℕ) (input : Bytes)
      → length input ≤ f
      → length input ≤ g
      → parse_loop m u f input ≡ parse_loop m u g input
  unfolding parse_loop
  parse_fuel zero zero [] p q = refl
  parse_fuel zero (suc g) [] p q = refl
  parse_fuel (suc f) zero [] p q = refl
  parse_fuel (suc f) (suc g) [] p q = refl
  parse_fuel zero g (c ∷ s) p q = absurd (omega arith)
  parse_fuel (suc f) zero (c ∷ s) p q = absurd (omega arith)
  parse_fuel (suc f) (suc g) (c ∷ s) p q = ap (round (split_first b'&' (c ∷ s)).0) (
      parse_fuel f g (or_empty (split_first b'&' (c ∷ s)).1)
        (omega (arith, split_first-length b'&' c s)) (omega (arith, split_first-length b'&' c s)))

  -- Parsing a text that is not empty takes the part before the first separator, and then parses all
  -- that follows it: an empty part gives no pair, any other gives one, and the fuel never runs out.
  pub parse_urlencoded_rounds :
      (c : ℕ) (s : Bytes)
      → parse_urlencoded m u (c ∷ s)
        ≡ round
            (split_first b'&' (c ∷ s)).0
            (parse_urlencoded m u (or_empty (split_first b'&' (c ∷ s)).1))
  unfolding parse_urlencoded parse_loop
  parse_urlencoded_rounds c s = ap (round (split_first b'&' (c ∷ s)).0) (
      parse_fuel (length s) _ (or_empty (split_first b'&' (c ∷ s)).1) (split_first-length b'&' c s)
        (omega arith))
