-- ===== src/Parser/Path.antt =====
-- src/parser/mod.rs, `parse_path`: the segments of a path, written one by one, with the dot segments
-- resolved. The serialization is the text that the buffer holds (Buffer).
pub mod Segments
pub mod Shorten
pub mod Segment
pub mod Chars
pub mod Resolved
pub mod Start
use sorug.Parser.Drive.{
  is_windows_drive_letter, is_normalized_windows_drive_letter, last_slash_can_be_removed, ends_with,
  rfind,
}
use sorug.Parser.Input.{next, peek_char, is_char}
use sorug.Parser.Result.{Result, ok, err, panicked, ◌>>=◌}
use sorug.Percent.Codec.{append_path_segment, percent_encode_char}
use sorug.Percent.Sets.{in_path_encode_set}
use sorug.Port.{SchemeType, is_special, is_file}
use sorug.Scan.Delims.{find_path_delim, find_path_delim_setter, has_ascii_tab_or_newline}
use sorug.Scan.Memchr.{Memchr}
use sorug.Common.{
  ℕ, zero, suc, ◌+◌, ◌-◌, Bool, true, false, not, ◌&&◌, ◌||◌, List, [], ◌∷◌, ◌++◌, Option, none,
  some, Bytes, bytes_eq, codes, length, take, drop, any, all, ltb, leb, ◌==◌, if◌then◌else◌,
}

-- What a segment leaves: the serialization, whether it ended at a slash, and the rest.
abbrev pub Segment : Type 0
Segment = Bytes × Bool × Bytes

unfoldable pub pop_path : Bool → ℕ → Bytes → Result Bytes
unfolding rfind is_normalized_windows_drive_letter
pop_path file path_start out =
    if ltb path_start (length out)
    then (elim (rfind b'/' (drop path_start out)) [
      | none ↦ panicked
      | some position ↦
          let segment_start = path_start + position + 1 in
          if file && is_normalized_windows_drive_letter (drop segment_start out)
          then ok out
          else ok (take segment_start out)
    ])
    else ok out

unfoldable pub shorten_path : Bool → ℕ → Bytes → Result Bytes
unfolding pop_path is_normalized_windows_drive_letter
shorten_path file path_start out =
    if length out == path_start
    then ok out
    else if file && is_normalized_windows_drive_letter (drop path_start out)
    then ok out
    else pop_path file path_start out

pub data SegAction : Type 0 where
  dot_dot dot other : SegAction
  win_drive : ℕ → SegAction

unfoldable pub is_dot_dot : Bytes → Bool
unfolding bytes_eq
is_dot_dot s =
    bytes_eq s (codes "..")
    || bytes_eq s (codes "%2e%2e")
    || bytes_eq s (codes "%2e%2E")
    || bytes_eq s (codes "%2E%2e")
    || bytes_eq s (codes "%2E%2E")
    || bytes_eq s (codes "%2e.")
    || bytes_eq s (codes "%2E.")
    || bytes_eq s (codes ".%2e")
    || bytes_eq s (codes ".%2E")

unfoldable pub is_dot : Bytes → Bool
unfolding bytes_eq
is_dot s = bytes_eq s (codes ".") || bytes_eq s (codes "%2e") || bytes_eq s (codes "%2E")

abbrev pub drive_of : Bytes → SegAction
drive_of [] = other
drive_of (c ∷ s) = win_drive c

unfoldable pub seg_action : Bool → ℕ → Bytes → Bytes → SegAction
unfolding is_dot_dot is_dot is_windows_drive_letter
seg_action file path_start before segment =
    if is_dot_dot segment
    then dot_dot
    else if is_dot segment
    then dot
    else if file && is_windows_drive_letter segment && all (λ b. b == b'/') (drop path_start before)
    then drive_of segment
    else other

abbrev pub with_slash : Bytes → Bytes
with_slash out = if ends_with out b'/' then out else out ++ b'/' ∷ []

unfoldable pub remove_slash : Bool → ℕ → Bytes → Bytes
unfolding ends_with last_slash_can_be_removed
remove_slash file path_start out =
    if ends_with out b'/' && last_slash_can_be_removed out path_start file
    then take (length out - 1) out
    else out

-- `before` is the serialization up to the segment, and `out` all of it.
unfoldable pub act : Bool → ℕ → Bytes → Bool → Bytes → SegAction → Result Bytes
unfolding remove_slash shorten_path ends_with
act file path_start before slash out other = ok out
act file path_start before slash out dot = ok (with_slash before)
act file path_start before slash out dot_dot =
    shorten_path file path_start (remove_slash file path_start before) >>= (λ o. ok (with_slash o))
act file path_start before slash out (win_drive c) =
    ok (before ++ c ∷ b':' ∷ (if slash then b'/' ∷ [] else []))

-- The segment that was written behind `segment_start`, without its slash.
abbrev pub segment_of : ℕ → Bool → Bytes → Bytes
segment_of segment_start slash out =
    drop segment_start (if slash then take (length out - 1) out else out)

module _ (m : Memchr) (for_setter : Bool) (scheme_type : SchemeType) (path_start : ℕ) where
  -- The char-wise path, for text with tabs and for what follows a drive letter.
  unfoldable pub slow_segment : ℕ → Bytes → Bytes → Result Segment
  unfolding next percent_encode_char in_path_encode_set is_special
  slow_segment zero out input = panicked
  slow_segment (suc fuel) out input = elim (next input) [
    | none ↦ ok (out, false, [])
    | some (c, utf8, rest) ↦
        let more = slow_segment fuel (percent_encode_char utf8 in_path_encode_set out) rest in
        if c == b'/' || c == b'\\' && is_special scheme_type
        then ok (out ++ b'/' ∷ [], true, rest)
        else if (c == b'?' || c == b'#') && not for_setter
        then ok (out, false, input)
        else more
  ]

  unfoldable pub path_delim : Bytes → Option (ℕ × ℕ)
  unfolding find_path_delim find_path_delim_setter is_special
  path_delim bytes =
      if for_setter
      then find_path_delim_setter m bytes (is_special scheme_type)
      else find_path_delim m bytes (is_special scheme_type)

  abbrev pub seg_end : Bytes → Option (ℕ × ℕ) → ℕ
  seg_end bytes none = length bytes
  seg_end bytes (some (i, d)) = i

  -- Behind a segment that was copied in bulk: its delimiter.
  unfoldable pub after_segment : Bytes → Bytes → Option (ℕ × ℕ) → Result Segment
  unfolding is_special
  after_segment out rest none = ok (out, false, rest)
  after_segment out rest (some (i, d)) =
      if d == b'/' || d == b'\\' && is_special scheme_type
      then ok (out ++ b'/' ∷ [], true, drop 1 rest)
      else if d == b'?' || d == b'#'
      then ok (out, false, rest)
      else panicked

  unfoldable pub fast_segment : Bytes → Bytes → Result Segment
  unfolding path_delim append_path_segment after_segment
  fast_segment out input =
      let end = seg_end input (path_delim input) in
      after_segment (append_path_segment (take end input) out) (drop end input) (path_delim input)

  unfoldable pub is_slow : Bytes → Bytes → Bool
  unfolding path_delim has_ascii_tab_or_newline is_normalized_windows_drive_letter is_file
  is_slow out input =
      has_ascii_tab_or_newline m (take (seg_end input (path_delim input)) input)
      || is_file scheme_type
        && ltb path_start (length out)
        && is_normalized_windows_drive_letter (drop (path_start + 1) out)

  unfoldable pub write_segment : Bytes → Bytes → Result Segment
  unfolding is_slow slow_segment fast_segment
  write_segment out input =
      if is_slow out input
      then slow_segment (suc (length input)) out input
      else fast_segment out input

  unfoldable pub finish_segment : Bytes → Segment → Result Segment
  unfolding seg_action act is_file
  finish_segment before (out, slash, rest) =
      act (is_file scheme_type) path_start before slash out
        (seg_action (is_file scheme_type) path_start before (segment_of (length before) slash out))
      >>= (λ o. ok (o, slash, rest))

  -- The loop: a round for each segment, and each but the last takes its slash.
  unfoldable pub path_loop : ℕ → Bytes → Bytes → Result (Bytes × Bytes)
  unfolding write_segment finish_segment
  path_loop zero out input = panicked
  path_loop (suc fuel) out input =
      write_segment out input
      >>= finish_segment out
      >>= (λ r. elim r.1 [ true ↦ path_loop fuel r.0 r.2 | false ↦ ok (r.0, r.2) ])

  unfoldable pub parse_path : Bytes → Bytes → Result (Bytes × Bytes)
  unfolding path_loop
  parse_path out input = path_loop (suc (length input)) out input

unfoldable pub parse_path_start :
    Memchr → Bool → SchemeType → Bytes → Bytes → Result (Bytes × Bytes)
unfolding next
parse_path_start m for_setter scheme_type out input =
    if is_special scheme_type
    then parse_path m for_setter scheme_type (length out) (out ++ b'/' ∷ []) (elim (next input) [
      | none ↦ input
      | some (c, utf8, remaining) ↦ if c == b'/' || c == b'\\' then remaining else input
    ])
    else if not for_setter && is_char (λ c. c == b'?' || c == b'#') (peek_char input)
    then ok (out, input)
    else parse_path m for_setter scheme_type (length out)
        (if is_char (λ c. not (c == b'/')) (peek_char input) then out ++ b'/' ∷ [] else out) input
