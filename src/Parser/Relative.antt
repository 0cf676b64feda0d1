-- ===== src/Parser/Relative.antt =====
-- src/parser/mod.rs, URLs relative to a base whose scheme is not file.
use sorug.Host.Special.{Idna}
use sorug.Parser.Drive.{ensure_path_segment_boundary}
use sorug.Parser.Finish.{with_ends, with_query_and_fragment, fragment_only, after_double_slash}
use sorug.Parser.Input.{next, peek_char, count_matching}
use sorug.Parser.Path.{shorten_path, parse_path}
use sorug.Parser.Query.{parse_query_and_fragment}
use sorug.Parser.Record.{ParsedUrl, slice_to, before_fragment, before_query}
use sorug.Parser.Result.{Result, ok, ◌>>=◌}
use sorug.Port.{SchemeType, is_special, is_file}
use sorug.Scan.Memchr.{Memchr}
use sorug.Common.{
  ℕ, ◌+◌, Bool, false, not, ◌&&◌, ◌||◌, [], ◌∷◌, ◌++◌, none, some, Bytes, ltb, ◌==◌, if◌then◌else◌,
}

-- `split_first`: what follows the first code point, or nothing.
abbrev pub after_first : Bytes → Bytes
after_first input = elim (next input) [ none ↦ [] | some (c, utf8, rest) ↦ rest ]

-- The base without its fragment: the text is empty.
unfoldable pub same_document : ParsedUrl → Result ParsedUrl
unfolding before_fragment
same_document base_url =
    before_fragment base_url
    >>= (λ text. ok (with_ends base_url (text, base_url.query_start, none)))

-- The base up to its query, and another query.
unfoldable pub new_query : Memchr → SchemeType → ParsedUrl → Bytes → Result ParsedUrl
unfolding before_query parse_query_and_fragment
new_query m scheme_type base_url input = before_query base_url >>= (λ text.
    parse_query_and_fragment m false scheme_type text input
    >>= (λ ends. ok (with_ends base_url ends)))

abbrev pub no_ends : ParsedUrl → Bytes → ParsedUrl
no_ends base_url out = with_ends base_url (out, none, none)

module _ (m : Memchr) (idna : Idna) where
  abbrev pub after_slash : Bytes → Bytes
  after_slash input = elim (peek_char input) [
    | none ↦ input
    | some c ↦ if c == b'/' then after_first input else input
  ]

  unfoldable pub parse_relative_path : Bytes → SchemeType → ParsedUrl → Result ParsedUrl
  unfolding before_query shorten_path ensure_path_segment_boundary next peek_char
  parse_relative_path input scheme_type base_url =
      before_query base_url
      >>= shorten_path (is_file scheme_type) base_url.path_start
      >>= (λ shortened.
          parse_path m false scheme_type base_url.path_start
            (ensure_path_segment_boundary shortened base_url.path_start input
              (is_special scheme_type))
            (after_slash input)
          >>= (λ r. with_query_and_fragment m scheme_type (no_ends base_url r.0) r.1))

  abbrev pub is_slash : Bool → ℕ → Bool
  is_slash special c = c == b'/' || special && c == b'\\'

  -- One slash starts a path, and two an authority.
  unfoldable pub relative_slash : Bytes → SchemeType → ParsedUrl → Result ParsedUrl
  unfolding count_matching slice_to next
  relative_slash input scheme_type base_url =
      let (slashes_count, _) = count_matching (is_slash (is_special scheme_type)) input in
      if not (ltb slashes_count 2)
      then slice_to base_url.serialization (base_url.scheme_end + 1) >>= (λ out.
        after_double_slash m idna scheme_type base_url.scheme_end out
          (after_first (after_first input)))
      else slice_to base_url.serialization base_url.path_start >>= (λ out.
        parse_path m false scheme_type base_url.path_start (out ++ b'/' ∷ []) (after_first input)
        >>= (λ r. with_query_and_fragment m scheme_type (no_ends base_url r.0) r.1))

  unfoldable pub parse_relative : Bytes → SchemeType → ParsedUrl → Result ParsedUrl
  unfolding peek_char same_document new_query fragment_only relative_slash parse_relative_path
  parse_relative input scheme_type base_url = elim (peek_char input) [
    | none ↦ same_document base_url
    | some c ↦
        if c == b'?'
        then new_query m scheme_type base_url input
        else if c == b'#'
        then fragment_only m base_url input
        else if is_slash (is_special scheme_type) c
        then relative_slash input scheme_type base_url
        else parse_relative_path input scheme_type base_url
  ]
