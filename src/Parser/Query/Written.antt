-- ===== src/Parser/Query/Written.antt =====
-- What the query and fragment parsers of src/parser/mod.rs write, in bulk or char by char: the text
-- without tabs and newlines, percent-encoded.
use sorug.Parser.Input.{without_tabs, next}
use sorug.Parser.Query.{
  fragment_loop, parse_fragment, setter_query_loop, query_loop, parse_query, before_hash,
  behind_hash,
}
use sorug.Parser.Query.Text.{
  IsText, IsText-IsBytes, without_tabs-clean, upto, behind, upto-none, IsStop, NextOf, next-NextOf,
  no_tabs,
}
use sorug.Parser.Result.{ok}
use sorug.Percent.Codec.{append_fragment, append_query}
use sorug.Percent.Encode.{encoded, encoded-append, utf8_percent_encode-encoded}
use sorug.Percent.Sets.{in_fragment_encode_set, in_query_encode_set, in_special_query_encode_set}
use sorug.Port.{SchemeType, is_special}
use sorug.Scan.Delims.{find_hash, has_ascii_tab_or_newline}
use sorug.Scan.Delims.Laws.{find1-position}
use sorug.Scan.Memchr.{Memchr}
use sorug.Common.{
  ℕ, zero, suc, ◌<◌, Bool, true, false, [], ◌∷◌, ◌++◌, append_assoc, append-nil, Option, none, some,
  Bytes, IsByte, IsBytes, All-take, length, position, ◌==◌, if◌then◌else◌, Bool-cases, Option-cases,
  inl, inr, ◌≡◌, refl, sym, ap, ◌∙◌, subst, arith, false≢true,
}

encoded-next :
    (encode : ℕ → Bool) (out utf8 s t : Bytes)
    → s ≡ utf8 ++ t
    → (out ++ encoded encode utf8) ++ encoded encode t ≡ out ++ encoded encode s
encoded-next encode out utf8 s t e =
    rw (e, encoded-append encode utf8 t) (append_assoc out (encoded encode utf8) (encoded encode t))

pub append_fragment-encoded :
    (s out : Bytes) → append_fragment s out ≡ out ++ encoded in_fragment_encode_set s
unfolding append_fragment
append_fragment-encoded s out = utf8_percent_encode-encoded s in_fragment_encode_set out

abbrev pub query_set : Bool → ℕ → Bool
query_set special = if special then in_special_query_encode_set else in_query_encode_set

pub append_query-encoded :
    (s : Bytes) (special : Bool) (out : Bytes)
    → append_query s special out ≡ out ++ encoded (query_set special) s
unfolding append_query
append_query-encoded s true out = utf8_percent_encode-encoded s in_special_query_encode_set out
append_query-encoded s false out = utf8_percent_encode-encoded s in_query_encode_set out

pub never : IsStop (λ b. false)
never b e = absurd (false≢true e)

module _ (m : Memchr) where
  fragment_loop-Written :
      (fuel : ℕ) (out input : Bytes)
      → IsText input
      → length input < fuel
      → fragment_loop m fuel out input
        ≡ ok (out ++ encoded in_fragment_encode_set (without_tabs (upto (λ b. false) input)))
  unfolding fragment_loop
  fragment_loop-Written zero out input h lt = absurd (omega arith)
  fragment_loop-Written (suc fuel) out input h lt =
      elim (Bool-cases (has_ascii_tab_or_newline m input)) [
        | inr e ↦
            rw
              (
                e,
                append_fragment-encoded input out,
                upto-none input,
                without_tabs-clean input (no_tabs m input (IsText-IsBytes 0 input h) e),
              )
              refl
        | inl e ↦ elim (Option-cases (next input)) [
          | inl f ↦
              rw
                (
                  e,
                  f,
                  (subst (NextOf (λ b. false) input) f (next-NextOf (λ b. false) never input h)).0,
                  append-nil,
                )
                refl
          | inr ((c, utf8, rest), f) ↦
              let (k, less, _, more) =
                subst (NextOf (λ b. false) input) f (next-NextOf (λ b. false) never input h) in
              rw (e, f, append_fragment-encoded utf8 out)
                (fragment_loop-Written fuel (out ++ encoded in_fragment_encode_set utf8) rest k
                    (omega (arith, lt, less))
                  ∙ ap ok (encoded-next in_fragment_encode_set out utf8 _ _ (more refl).0))
        ]
      ]

  -- On text, the fragment parser has fuel enough and appends the text without its tabs and newlines,
  -- percent-encoded.
  pub parse_fragment-encoded :
      (out input : Bytes)
      → IsText input
      → parse_fragment m out input ≡ ok (out ++ encoded in_fragment_encode_set (without_tabs input))
  unfolding parse_fragment
  parse_fragment-encoded out input h =
      fragment_loop-Written (suc (length input)) out input h (omega arith)
      ∙ ap (λ s. ok (out ++ encoded in_fragment_encode_set (without_tabs s))) (upto-none input)

abbrev pub is_hash : ℕ → Bool
is_hash b = b == b'#'

hash : IsStop is_hash
hash b e = (ground arith, ground arith)

before_hash-upto : (s : Bytes) → before_hash s (position is_hash s) ≡ upto is_hash s
unfolding upto
before_hash-upto [] = refl
before_hash-upto (b ∷ s) = elim (Bool-cases (is_hash b)) [
  | inl e ↦ rw e refl
  | inr e ↦ rw e (later (position is_hash s) (before_hash-upto s))
]
  where
    later :
        (o : Option ℕ)
        → before_hash s o ≡ upto is_hash s
        → before_hash (b ∷ s) (elim o [ none ↦ none | some i ↦ some (suc i) ]) ≡ b ∷ upto is_hash s
    later none e = ap (λ t. b ∷ t) e
    later (some i) e = ap (λ t. b ∷ t) e

behind_hash-behind : (s : Bytes) → behind_hash s (position is_hash s) ≡ behind is_hash s
unfolding behind
behind_hash-behind [] = refl
behind_hash-behind (b ∷ s) = elim (Bool-cases (is_hash b)) [
  | inl e ↦ rw e refl
  | inr e ↦ rw e (later (position is_hash s) (behind_hash-behind s))
]
  where
    later :
        (o : Option ℕ)
        → behind_hash s o ≡ behind is_hash s
        → behind_hash (b ∷ s) (elim o [ none ↦ none | some i ↦ some (suc i) ]) ≡ behind is_hash s
    later none e = e
    later (some i) e = e

pub upto-IsBytes : (s : Bytes) → IsBytes s → IsBytes (upto is_hash s)
upto-IsBytes s h = subst IsBytes (before_hash-upto s) (taken (position is_hash s))
  where
    taken : (o : Option ℕ) → IsBytes (before_hash s o)
    taken none = h
    taken (some i) = All-take IsByte i s h

module _ (m : Memchr) (scheme_type : SchemeType) where
  abbrev write : Bytes → Bytes → Bytes
  write out s = out ++ encoded (query_set (is_special scheme_type)) (without_tabs s)

  setter_query_loop-Written :
      (fuel : ℕ) (out input : Bytes)
      → IsText input
      → length input < fuel
      → setter_query_loop m scheme_type fuel out input ≡ ok (write out (upto (λ b. false) input))
  unfolding setter_query_loop
  setter_query_loop-Written zero out input h lt = absurd (omega arith)
  setter_query_loop-Written (suc fuel) out input h lt =
      elim (Bool-cases (has_ascii_tab_or_newline m input)) [
        | inr e ↦
            rw
              (
                e,
                append_query-encoded input (is_special scheme_type) out,
                upto-none input,
                without_tabs-clean input (no_tabs m input (IsText-IsBytes 0 input h) e),
              )
              refl
        | inl e ↦ elim (Option-cases (next input)) [
          | inl f ↦
              rw
                (
                  e,
                  f,
                  (subst (NextOf (λ b. false) input) f (next-NextOf (λ b. false) never input h)).0,
                  append-nil,
                )
                refl
          | inr ((c, utf8, rest), f) ↦
              let (k, less, _, more) =
                subst (NextOf (λ b. false) input) f (next-NextOf (λ b. false) never input h) in
              rw (e, f, append_query-encoded utf8 (is_special scheme_type) out)
                (setter_query_loop-Written fuel
                    (out ++ encoded (query_set (is_special scheme_type)) utf8) rest k
                    (omega (arith, lt, less))
                  ∙ ap ok (
                      encoded-next (query_set (is_special scheme_type)) out utf8 _ _ (more refl).0))
        ]
      ]

  query_loop-Written :
      (fuel : ℕ) (out input : Bytes)
      → IsText input
      → length input < fuel
      → query_loop m scheme_type fuel out input
        ≡ ok (write out (upto is_hash input), behind is_hash input)
  unfolding query_loop find_hash
  query_loop-Written zero out input h lt = absurd (omega arith)
  query_loop-Written (suc fuel) out input h lt =
      let hb = IsText-IsBytes 0 input h in
      let before =
        ap (before_hash input) (find1-position m input hb b'#' (omega arith))
        ∙ before_hash-upto input in
      let rest =
        ap (behind_hash input) (find1-position m input hb b'#' (omega arith))
        ∙ behind_hash-behind input in
      elim (Bool-cases (has_ascii_tab_or_newline m (upto is_hash input))) [
        | inr e ↦
            rw
              (
                before,
                rest,
                e,
                append_query-encoded (upto is_hash input) (is_special scheme_type) out,
                without_tabs-clean (upto is_hash input)
                    (no_tabs m (upto is_hash input) (upto-IsBytes input hb) e),
              )
              refl
        | inl e ↦ elim (Option-cases (next input)) [
          | inl f ↦
              let (x, y) = subst (NextOf is_hash input) f (next-NextOf is_hash hash input h) in
              rw (before, e, f, x, y, append-nil) refl
          | inr ((c, utf8, tail), f) ↦
              let (k, less, stop, more) =
                subst (NextOf is_hash input) f (next-NextOf is_hash hash input h) in
              elim (Bool-cases (is_hash c)) [
                | inl g ↦ let (x, y) = stop g in rw (before, e, f, g, x, y, append-nil) refl
                | inr g ↦
                    let (x, y) = more g in
                    rw (before, e, f, g, append_query-encoded utf8 (is_special scheme_type) out)
                      (query_loop-Written fuel
                          (out ++ encoded (query_set (is_special scheme_type)) utf8) tail k
                          (omega (arith, lt, less))
                        ∙ ap ok (
                            ap (λ s. (s, behind is_hash tail))
                              (encoded-next (query_set (is_special scheme_type)) out utf8 _ _ x)
                            ∙ ap (λ r. (write out (upto is_hash input), r)) (sym y)))
              ]
        ]
      ]

-- What the query parser reads: all of the text for a setter, and what stands before the first hash
-- sign otherwise, behind which the fragment stands.
abbrev pub query_text : Bool → Bytes → Bytes
query_text true input = input
query_text false input = upto is_hash input

abbrev pub query_rest : Bool → Bytes → Option Bytes
query_rest true input = none
query_rest false input = behind is_hash input

-- On text, the query parser has fuel enough. It appends the query without its tabs and newlines,
-- percent-encoded by the set of the scheme's kind, and returns the text behind the first hash sign;
-- for a setter, a hash sign is part of the query.
pub parse_query-encoded :
    (m : Memchr) (for_setter : Bool) (scheme_type : SchemeType) (out input : Bytes)
    → IsText input
    → parse_query m for_setter scheme_type out input
      ≡ ok (
        out
            ++ encoded
                (query_set (is_special scheme_type))
                (without_tabs (query_text for_setter input)),
        query_rest for_setter input,
      )
unfolding parse_query
parse_query-encoded m true scheme_type out input h =
    rw
      (
        setter_query_loop-Written m scheme_type (suc (length input)) out input h (omega arith),
        upto-none input,
      )
      refl
parse_query-encoded m false scheme_type out input h =
    query_loop-Written m scheme_type (suc (length input)) out input h (omega arith)
