-- ===== src/Parser/Query.antt =====
-- src/parser/mod.rs, the ends of a URL: the opaque path, the query and the fragment. Text without
-- tabs and newlines is written in bulk, other text char by char. A loop has the length of its text
-- and one as fuel, as each round but the last takes a char.
pub mod Text
pub mod Written
pub mod Growth
pub mod Layout
pub mod Opaque
use sorug.Parser.Input.{next, peek_char, is_char, trim_end}
use sorug.Parser.Result.{Result, ok, panicked, to_u32, ◌>>=◌}
use sorug.Percent.Codec.{append_fragment, append_query, utf8_percent_encode}
use sorug.Percent.Sets.{in_c0_encode_set}
use sorug.Port.{SchemeType, is_special}
use sorug.Scan.Delims.{find_hash, find_query_or_hash, has_ascii_tab_or_newline}
use sorug.Scan.Memchr.{Memchr}
use sorug.Common.{
  ℕ, zero, suc, ◌-◌, Bool, true, false, not, ◌||◌, [], ◌∷◌, ◌++◌, Option, none, some, Bytes, codes,
  length, take, drop, ltb, ◌==◌, if◌then◌else◌,
}

-- The part before a hash sign, or all of the text.
abbrev pub before_hash : Bytes → Option ℕ → Bytes
before_hash input none = input
before_hash input (some i) = take i input

abbrev pub behind_hash : Bytes → Option ℕ → Option Bytes
behind_hash input none = none
behind_hash input (some i) = some (drop (suc i) input)

abbrev pub is_space : ℕ → Bool
is_space b = b == b' '

abbrev pub spaces : ℕ → Bytes
spaces zero = []
spaces (suc n) = b' ' ∷ spaces n

-- An opaque path that ends at a delimiter, in which the last space is encoded.
unfoldable pub bulk_opaque : Bytes → Bytes → Bytes
unfolding trim_end utf8_percent_encode in_c0_encode_set
bulk_opaque out text =
    let kept = trim_end is_space text in
    let written =
      if ltb 0 (length kept) then utf8_percent_encode kept in_c0_encode_set out else out in
    if ltb (length kept) (length text)
    then written ++ (spaces (length text - length kept - 1) ++ codes "%20")
    else written

-- An opaque path at the end of the text, whose last spaces are left out.
unfoldable pub last_opaque : Bytes → Bytes → Bytes
unfolding trim_end utf8_percent_encode in_c0_encode_set
last_opaque out text =
    let kept = trim_end is_space text in
    if ltb 0 (length kept) then utf8_percent_encode kept in_c0_encode_set out else out

abbrev pub encode_opaque : Bytes → ℕ → Bytes → Bytes → Bytes
encode_opaque out c utf8_c rest =
    if is_space c
    then out
      ++ (if is_char (λ d. d == b'?' || d == b'#') (peek_char rest) then codes "%20" else b' ' ∷ [])
    else utf8_percent_encode utf8_c in_c0_encode_set out

module _ (m : Memchr) where
  unfoldable pub fragment_loop : ℕ → Bytes → Bytes → Result Bytes
  unfolding next append_fragment has_ascii_tab_or_newline
  fragment_loop zero out input = panicked
  fragment_loop (suc fuel) out input =
      if not (has_ascii_tab_or_newline m input)
      then ok (append_fragment input out)
      else (elim (next input) [
        | none ↦ ok out
        | some (c, utf8_c, rest) ↦ fragment_loop fuel (append_fragment utf8_c out) rest
      ])

  unfoldable pub parse_fragment : Bytes → Bytes → Result Bytes
  unfolding fragment_loop
  parse_fragment out input = fragment_loop (suc (length input)) out input

  -- The query of a setter, in which a hash sign is content.
  unfoldable pub setter_query_loop : SchemeType → ℕ → Bytes → Bytes → Result Bytes
  unfolding next append_query has_ascii_tab_or_newline is_special
  setter_query_loop scheme_type zero out input = panicked
  setter_query_loop scheme_type (suc fuel) out input =
      if not (has_ascii_tab_or_newline m input)
      then ok (append_query input (is_special scheme_type) out)
      else (elim (next input) [
        | none ↦ ok out
        | some (c, utf8_c, rest) ↦
            setter_query_loop scheme_type fuel (append_query utf8_c (is_special scheme_type) out)
              rest
      ])

  -- The query of the parser; what is left is the fragment, where there is one.
  unfoldable pub query_loop : SchemeType → ℕ → Bytes → Bytes → Result (Bytes × Option Bytes)
  unfolding next append_query has_ascii_tab_or_newline is_special find_hash
  query_loop scheme_type zero out input = panicked
  query_loop scheme_type (suc fuel) out input =
      if not (has_ascii_tab_or_newline m (before_hash input (find_hash m input)))
      then ok (
        append_query (before_hash input (find_hash m input)) (is_special scheme_type) out,
        behind_hash input (find_hash m input),
      )
      else (elim (next input) [
        | none ↦ ok (out, none)
        | some (c, utf8_c, rest) ↦ elim (c == b'#') [
          | true ↦ ok (out, some rest)
          | false ↦
              query_loop scheme_type fuel (append_query utf8_c (is_special scheme_type) out) rest
        ]
      ])

  unfoldable pub parse_query : Bool → SchemeType → Bytes → Bytes → Result (Bytes × Option Bytes)
  unfolding setter_query_loop query_loop
  parse_query true scheme_type out input =
      setter_query_loop scheme_type (suc (length input)) out input >>= (λ o. ok (o, none))
  parse_query false scheme_type out input = query_loop scheme_type (suc (length input)) out input

  -- The serialization, and where the fragment starts.
  unfoldable pub write_fragment : Bytes → Option ℕ → Bytes → Result (Bytes × Option ℕ × Option ℕ)
  unfolding to_u32 parse_fragment
  write_fragment out query_start input = to_u32 (length out) >>= (λ fragment_start.
      parse_fragment (out ++ b'#' ∷ []) input >>= (λ o. ok (o, query_start, some fragment_start)))

  abbrev pub after_query : Option ℕ → Bytes × Option Bytes → Result (Bytes × Option ℕ × Option ℕ)
  after_query query_start (out, none) = ok (out, query_start, none)
  after_query query_start (out, some remaining) = write_fragment out query_start remaining

  unfoldable pub parse_query_and_fragment :
      Bool → SchemeType → Bytes → Bytes → Result (Bytes × Option ℕ × Option ℕ)
  unfolding next to_u32 parse_query write_fragment
  parse_query_and_fragment for_setter scheme_type out input = elim (next input) [
    | none ↦ ok (out, none, none)
    | some (c, utf8, rest) ↦
        if c == b'#'
        then write_fragment out none rest
        else if c == b'?'
        then to_u32 (length out) >>= (λ query_start.
          parse_query for_setter scheme_type (out ++ b'?' ∷ []) rest
          >>= after_query (some query_start))
        else panicked
  ]

  -- Text without tabs up to the delimiter is written in bulk.
  abbrev pub bulk_or :
      Bytes → Bytes → Option (ℕ × ℕ) → Result (Bytes × Bytes) → Result (Bytes × Bytes)
  bulk_or out input none slow =
      if not (has_ascii_tab_or_newline m input) then ok (last_opaque out input, []) else slow
  bulk_or out input (some (i, d)) slow =
      if not (has_ascii_tab_or_newline m (take i input))
      then ok (bulk_opaque out (take i input), drop i input)
      else slow

  unfoldable pub opaque_loop : ℕ → ℕ → Bytes → Bytes → Result (Bytes × Bytes)
  unfolding next peek_char trim_end bulk_opaque last_opaque find_query_or_hash
      has_ascii_tab_or_newline
  opaque_loop path_begin zero out input = panicked
  opaque_loop path_begin (suc fuel) out input =
      bulk_or out input (find_query_or_hash m input) (elim (next input) [
        | none ↦ ok (take path_begin out ++ trim_end is_space (drop path_begin out), [])
        | some (c, utf8_c, rest) ↦ elim (c == b'?' || c == b'#') [
          | true ↦ ok (out, input)
          | false ↦ opaque_loop path_begin fuel (encode_opaque out c utf8_c rest) rest
        ]
      ])

  unfoldable pub parse_opaque_path : Bytes → Bytes → Result (Bytes × Bytes)
  unfolding opaque_loop
  parse_opaque_path out input = opaque_loop (length out) (suc (length input)) out input
