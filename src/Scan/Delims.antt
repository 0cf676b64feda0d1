-- ===== src/Scan/Delims.antt =====
-- src/parser/scan.rs, the searches that the parser calls: register-level scans below
-- `SWAR_THRESHOLD` bytes, the `memchr` crate from there on.
pub mod Laws
pub mod Host
use sorug.Scan.Memchr.{Memchr}
use sorug.Scan.Swar.{swar_threshold, swar_find, swar_find2, swar_find3, swar_find4}
use sorug.Common.{
  ℕ, suc, ◌+◌, Bool, true, false, not, ◌&&◌, ◌||◌, [], ◌∷◌, Option, none, some, Bytes, length, take,
  drop, get_or, min, ltb, ◌==◌, position, if◌then◌else◌,
}

-- The smaller of two results, as the `match` on a pair of options.
abbrev pub earliest : Option ℕ → Option ℕ → Option ℕ
earliest (some a) (some b) = some (min a b)
earliest (some a) none = some a
earliest none (some b) = some b
earliest none none = none

abbrev pub unwrap_or : Option ℕ → ℕ → ℕ
unwrap_or none d = d
unwrap_or (some i) d = i

abbrev pub is_some : Option ℕ → Bool
is_some none = false
is_some (some i) = true

-- The index with the byte that stands there.
abbrev pub with_byte : Bytes → Option ℕ → Option (ℕ × ℕ)
with_byte haystack none = none
with_byte haystack (some i) = some (i, get_or haystack i 0)

-- The tests of the parser's `matches!(b, b'\t' | b'\n' | b'\r')`.
abbrev pub is_ascii_tab_or_newline : ℕ → Bool
is_ascii_tab_or_newline b = b == b'\t' || b == b'\n' || b == b'\r'

-- The tests that end the loop of `find_host_end_bracketed`, outside brackets.
abbrev pub ends_host : Bool → ℕ → Bool
ends_host special c = c == b':' || special && c == b'\\' || c == b'/' || c == b'?' || c == b'#'

-- That loop from index `i` on.
unfoldable pub bracketed : Bool → Bytes → Bool → Bool → ℕ → ℕ × Bool
bracketed special [] inside ignored i = (i, ignored)
bracketed special (c ∷ cs) inside ignored i =
    let inside' = if c == b'[' then true else if c == b']' then false else inside in
    let rest = bracketed special cs inside' (ignored || is_ascii_tab_or_newline c) (i + 1) in
    if not inside && ends_host special c then (i, ignored) else rest

unfoldable pub find_host_end_bracketed : Bytes → Bool → ℕ × Bool
unfolding bracketed
find_host_end_bracketed haystack special = bracketed special haystack false false 0

-- The count of leading tabs and newlines.
unfoldable pub leading_ignored : Bytes → ℕ
leading_ignored [] = 0
leading_ignored (c ∷ cs) =
    let more = suc (leading_ignored cs) in if is_ascii_tab_or_newline c then more else 0

-- The end of a host that starts with a bracket at index `start`.
unfoldable pub bracketed_host_end : Bytes → Bool → ℕ → ℕ × Bool
unfolding find_host_end_bracketed
bracketed_host_end haystack special start =
    let (end, ignored) = find_host_end_bracketed (drop start haystack) special in
    (start + end, ltb 0 start || ignored)

module _ (m : Memchr) where
  open m use {memchr, memchr2, memchr3}

  unfoldable pub find4 : ℕ → ℕ → ℕ → ℕ → Bytes → Option ℕ
  unfolding swar_find4
  find4 n1 n2 n3 n4 haystack =
      if ltb (length haystack) swar_threshold
      then swar_find4 haystack n1 n2 n3 n4
      else earliest (memchr3 n1 n2 n3 haystack) (memchr n4 haystack)

  unfoldable pub find3 : ℕ → ℕ → ℕ → Bytes → Option ℕ
  unfolding swar_find3
  find3 n1 n2 n3 haystack =
      if ltb (length haystack) swar_threshold
      then swar_find3 haystack n1 n2 n3
      else memchr3 n1 n2 n3 haystack

  unfoldable pub find2 : ℕ → ℕ → Bytes → Option ℕ
  unfolding swar_find2
  find2 n1 n2 haystack =
      if ltb (length haystack) swar_threshold
      then swar_find2 haystack n1 n2
      else memchr2 n1 n2 haystack

  unfoldable pub find1 : ℕ → Bytes → Option ℕ
  unfolding swar_find
  find1 needle haystack =
      if ltb (length haystack) swar_threshold
      then swar_find haystack needle
      else memchr needle haystack

  unfoldable pub find_authority_end : Bytes → Bool → ℕ
  find_authority_end haystack special =
      if special
      then unwrap_or (find4 b'/' b'?' b'#' b'\\' haystack) (length haystack)
      else unwrap_or (find3 b'/' b'?' b'#' haystack) (length haystack)

  unfoldable pub find_path_delim : Bytes → Bool → Option (ℕ × ℕ)
  find_path_delim haystack special =
      with_byte haystack
        (if special then find4 b'/' b'\\' b'?' b'#' haystack else find3 b'/' b'?' b'#' haystack)

  unfoldable pub find_path_delim_setter : Bytes → Bool → Option (ℕ × ℕ)
  find_path_delim_setter haystack special =
      with_byte haystack (if special then find2 b'/' b'\\' haystack else find1 b'/' haystack)

  unfoldable pub find_hash : Bytes → Option ℕ
  find_hash = find1 b'#'

  unfoldable pub find_query_or_hash : Bytes → Option (ℕ × ℕ)
  find_query_or_hash haystack = with_byte haystack (find2 b'?' b'#' haystack)

  unfoldable pub has_ascii_tab_or_newline : Bytes → Bool
  has_ascii_tab_or_newline bytes = is_some (find3 b'\t' b'\n' b'\r' bytes)

  unfoldable pub find_file_host_end : Bytes → ℕ × Bool
  find_file_host_end haystack =
      let end = unwrap_or (find4 b'/' b'\\' b'?' b'#' haystack) (length haystack) in
      (end, has_ascii_tab_or_newline (take end haystack))

  unfoldable pub find_host_delim : Bytes → Bool → Option ℕ
  find_host_delim haystack special =
      if special
      then earliest (find4 b':' b'/' b'?' b'#' haystack) (find1 b'\\' haystack)
      else find4 b':' b'/' b'?' b'#' haystack

  -- The end of a host that does not start with a bracket, and whether bytes before it are ignored.
  unfoldable pub plain_host_end : Bytes → Bool → Bool → ℕ × Bool
  plain_host_end haystack special leading =
      let end = unwrap_or (find_host_delim haystack special) (length haystack) in
      (end, leading || is_some (find3 b'\t' b'\n' b'\r' (take end haystack)))

  unfoldable pub find_host_end : Bytes → Bool → ℕ × Bool
  unfolding leading_ignored bracketed_host_end plain_host_end
  find_host_end haystack special =
      let start = leading_ignored haystack in
      if get_or haystack start 0 == b'['
      then bracketed_host_end haystack special start
      else plain_host_end haystack special (ltb 0 start)
