-- ===== src/Parser/Url.antt =====
-- src/parser/mod.rs, `parse`: the scheme decides what follows, and
-- without a scheme the base does.
pub mod InOrder
use sorug.Host.Special.{Idna}
use sorug.Parser.File.{parse_file}
use sorug.Parser.Finish.{parse_non_special, fragment_only, after_double_slash}
use sorug.Parser.Input.{count_matching, trim_matches, split_prefix_str, starts_with_char}
use sorug.Parser.Record.{ParsedUrl, scheme, url_has_opaque_path}
use sorug.Parser.Relative.{parse_relative}
use sorug.Parser.Result.{Result, ok, err, failure, to_u32, ◌>>=◌}
use sorug.Parser.Scheme.{parse_scheme}
use sorug.Port.{SchemeType, file, special_not_file, not_special, is_file, scheme_type}
use sorug.Scan.Memchr.{Memchr}
use sorug.Common.{
  ℕ, ◌||◌, ◌==◌, [], ◌∷◌, ◌++◌, Option, none, some, Bytes, bytes_eq, codes, length, leb, ltb,
  if◌then◌else◌,
}

-- The base if its scheme is file.
unfoldable pub base_file : Option ParsedUrl → Result (Option ParsedUrl)
unfolding scheme bytes_eq
base_file none = ok none
base_file (some base_url) =
    scheme base_url >>= (λ s. ok (if bytes_eq s (codes "file") then some base_url else none))

-- Whether the base has this scheme.
unfoldable pub same_scheme : Bytes → Option ParsedUrl → Result (Option ParsedUrl)
unfolding scheme bytes_eq
same_scheme name none = ok none
same_scheme name (some base_url) =
    scheme base_url >>= (λ s. ok (if bytes_eq s name then some base_url else none))

module _ (m : Memchr) (idna : Idna) (base : Option ParsedUrl) where
  abbrev pub relative_or_authority :
      Bytes → ℕ → Bytes → ℕ × Bytes → Option ParsedUrl → Result ParsedUrl
  relative_or_authority name scheme_end input (slashes_count, remaining) none =
      after_double_slash m idna special_not_file scheme_end (name ++ b':' ∷ []) remaining
  relative_or_authority name scheme_end input (slashes_count, remaining) (some base_url) =
      if ltb slashes_count 2
      then parse_relative m idna input special_not_file base_url
      else after_double_slash m idna special_not_file scheme_end (name ++ b':' ∷ []) remaining

  abbrev pub by_scheme_type : SchemeType → Bytes → ℕ → Bytes → Result ParsedUrl
  by_scheme_type file name scheme_end input = base_file base >>= parse_file m idna input file
  by_scheme_type special_not_file name scheme_end input =
      same_scheme name base
      >>= relative_or_authority name scheme_end input
          (count_matching (λ c. c == b'/' || c == b'\\') input)
  by_scheme_type not_special name scheme_end input = elim (split_prefix_str input (codes "//")) [
    | some rest ↦ after_double_slash m idna not_special scheme_end (name ++ b':' ∷ []) rest
    | none ↦ parse_non_special m not_special scheme_end (name ++ b':' ∷ []) input
  ]

  unfoldable pub parse_with_scheme : Bytes → Bytes → Result ParsedUrl
  unfolding base_file same_scheme parse_file after_double_slash parse_relative parse_non_special
      count_matching split_prefix_str scheme_type to_u32
  parse_with_scheme name input =
      to_u32 (length name)
      >>= (λ scheme_end. by_scheme_type (scheme_type name) name scheme_end input)

  unfoldable pub parse_without_scheme : Bytes → Result ParsedUrl
  unfolding fragment_only parse_file parse_relative scheme scheme_type starts_with_char
      url_has_opaque_path is_file
  parse_without_scheme input = elim base [
    | none ↦ err failure
    | some base_url ↦
        if starts_with_char input b'#'
        then fragment_only m base_url input
        else if url_has_opaque_path base_url
        then err failure
        else scheme base_url >>= (λ s.
          if is_file (scheme_type s)
          then parse_file m idna input (scheme_type s) (some base_url)
          else parse_relative m idna input (scheme_type s) base_url)
  ]

  unfoldable pub parse_url : Bytes → Result ParsedUrl
  unfolding parse_scheme parse_with_scheme parse_without_scheme
  parse_url input = elim (parse_scheme input) [
    | some (name, remaining) ↦ parse_with_scheme name remaining
    | none ↦ parse_without_scheme input
  ]

  -- `parse`; what the ASCII fast path makes of a text is an argument.
  unfoldable pub parse : (Bytes → Option ParsedUrl) → Bytes → Result ParsedUrl
  unfolding parse_url trim_matches
  parse fast input =
      let trimmed = trim_matches (λ c. leb c b' ') input in
      elim base [
        | none ↦ elim (fast trimmed) [ some url ↦ ok url | none ↦ parse_url trimmed ]
        | some base_url ↦ parse_url trimmed
      ]
