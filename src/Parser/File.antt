-- ===== src/Parser/File.antt =====
-- src/parser/mod.rs, `parse_file`: URLs of the file scheme, whose hosts may be empty and whose
-- paths may start with a drive letter.
pub mod InOrder
use sorug.Host.Special.{Idna}
use sorug.Parser.Authority.{parse_file_host}
use sorug.Parser.Drive.{
  ensure_path_segment_boundary, is_normalized_windows_drive_letter,
  starts_with_windows_drive_letter_segment,
}
use sorug.Parser.Finish.{with_query_and_fragment, fragment_only}
use sorug.Parser.Input.{next, peek_char, is_char}
use sorug.Parser.Path.{shorten_path, parse_path, parse_path_start}
use sorug.Parser.Query.{parse_query_and_fragment}
use sorug.Parser.Record.{ParsedUrl, before_query, host_str, file_first_path_segment}
use sorug.Parser.Relative.{after_first, same_document, new_query, no_ends}
use sorug.Parser.Result.{Result, ok, to_u32, ◌>>=◌}
use sorug.Port.{SchemeType, file}
use sorug.Record.Flags.{special, has_empty_host, host_ipv4, host_ipv6, remove}
use sorug.Scan.Memchr.{Memchr}
use sorug.Common.{
  ℕ, bit_and, bit_or, Bool, true, false, ◌||◌, [], ◌∷◌, ◌++◌, Option, none, some, Bytes, codes,
  length, take, ◌==◌, if◌then◌else◌,
}

abbrev pub is_slash : ℕ → Bool
is_slash c = c == b'/' || c == b'\\'

-- A file URL whose host ends at `host_end`, where its path starts.
abbrev pub file_url : ℕ → ℕ → Bytes × Option ℕ × Option ℕ → ParsedUrl
file_url host_end flags (serialization, query_start, fragment_start) = record {
  serialization = serialization;
  scheme_end = 4;
  username_end = 7;
  host_start = 7;
  host_end = host_end;
  port = none;
  path_start = host_end;
  query_start = query_start;
  fragment_start = fragment_start;
  flags = flags;
}

-- The host of the base, behind the two slashes, and the flags that come with it.
abbrev pub base_host : Bytes → ParsedUrl → Option Bytes → Bytes × ℕ
base_host out base_url none = (out, bit_or special has_empty_host)
base_host out base_url (some host) =
    let kept =
      bit_or special
        (bit_and base_url.flags (bit_or (bit_or host_ipv4 host_ipv6) has_empty_host)) in
    (
      out ++ host,
      if length host == 0 then bit_or kept has_empty_host else remove kept has_empty_host,
    )

abbrev pub drive_segment : Bytes → Option Bytes → Bytes
drive_segment out none = out
drive_segment out (some segment) =
    if is_normalized_windows_drive_letter segment then (out ++ b'/' ∷ []) ++ segment else out

module _ (m : Memchr) (idna : Idna) where
  unfoldable pub file_with_host : Bytes → Result ParsedUrl
  unfolding parse_file_host to_u32
  file_with_host input = parse_file_host m idna (codes "file://") input >>= (λ h.
      let (out, path_start_flag, host_empty, remaining) = h in
      to_u32 (length out) >>= (λ host_end.
        (if path_start_flag
          then parse_path_start m false file out remaining
          else parse_path m false file (length out) (out ++ b'/' ∷ []) remaining)
        >>= (λ r. parse_query_and_fragment m false file r.0 r.1 >>= (λ ends. ok (
            file_url host_end (if host_empty then bit_or special has_empty_host else special)
              ends)))))

  -- The serialization, the end of the host, and the flags, before the path.
  unfoldable pub file_slash_start : Option ParsedUrl → Bytes → Result (Bytes × ℕ × ℕ)
  unfolding host_str starts_with_windows_drive_letter_segment file_first_path_segment remove
  file_slash_start none input = ok (codes "file://", 7, bit_or special has_empty_host)
  file_slash_start (some base_url) input = host_str base_url >>= (λ host.
      let (out, flags) = base_host (codes "file://") base_url host in
      if starts_with_windows_drive_letter_segment input
      then ok (out, length out, flags)
      else file_first_path_segment base_url
        >>= (λ segment. ok (drive_segment out segment, length out, flags)))

  unfoldable pub file_slash : Option ParsedUrl → Bytes → Result ParsedUrl
  unfolding file_slash_start
  file_slash base_file_url input = file_slash_start base_file_url (after_first input) >>= (λ s.
      parse_path m false file s.1 s.0 input >>= (λ r.
        parse_query_and_fragment m false file r.0 r.1 >>= (λ ends. ok (file_url s.1 s.2 ends))))

  -- The path of the base, emptied for a drive letter, or shortened.
  unfoldable pub file_path_base : ParsedUrl → Bytes → Bytes → Result Bytes
  unfolding starts_with_windows_drive_letter_segment shorten_path
  file_path_base base_url input text =
      if starts_with_windows_drive_letter_segment input
      then ok (take base_url.path_start text)
      else shorten_path true base_url.path_start text

  unfoldable pub file_relative_path : ParsedUrl → Bytes → Result ParsedUrl
  unfolding before_query file_path_base ensure_path_segment_boundary
  file_relative_path base_url input =
      before_query base_url >>= file_path_base base_url input >>= (λ text.
        parse_path m false file base_url.path_start
          (ensure_path_segment_boundary text base_url.path_start input true) input
        >>= (λ r. with_query_and_fragment m file (no_ends base_url r.0) r.1))

  unfoldable pub file_relative : SchemeType → ParsedUrl → Bytes → Result ParsedUrl
  unfolding peek_char same_document new_query fragment_only file_relative_path
  file_relative scheme_type base_url input = elim (peek_char input) [
    | none ↦ same_document base_url
    | some c ↦
        if c == b'?'
        then new_query m scheme_type base_url input
        else if c == b'#'
        then fragment_only m base_url input
        else file_relative_path base_url input
  ]

  abbrev pub without_base : Bytes → Result ParsedUrl
  without_base input = parse_path m false file 7 (codes "file:///") input >>= (λ r.
      parse_query_and_fragment m false file r.0 r.1
      >>= (λ ends. ok (file_url 7 (bit_or special has_empty_host) ends)))

  unfoldable pub parse_file : Bytes → SchemeType → Option ParsedUrl → Result ParsedUrl
  unfolding next peek_char file_with_host file_slash file_relative
  parse_file input scheme_type base_file_url =
      if is_char is_slash (peek_char input)
      then if is_char is_slash (peek_char (after_first input))
        then file_with_host (after_first (after_first input))
        else file_slash base_file_url input
      else (elim base_file_url [
        | none ↦ without_base input
        | some base_url ↦ file_relative scheme_type base_url input
      ])
