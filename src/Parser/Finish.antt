-- ===== src/Parser/Finish.antt =====
-- src/parser/mod.rs, the end of a URL, and URLs with an authority or with neither that nor a base.
-- Where the source passes the offsets one by one, they stand in a record whose query and fragment
-- are not set.
pub mod Ordered
pub mod Absolute
use sorug.Host.Special.{Idna}
use sorug.Parser.Authority.{parse_host_and_port, host_flags_from_kind}
use sorug.Parser.Input.{is_ascii_tab_or_newline, next, split_prefix_char}
use sorug.Parser.Path.{parse_path, parse_path_start}
use sorug.Parser.Query.{parse_fragment, parse_opaque_path, parse_query_and_fragment}
use sorug.Parser.Record.{ParsedUrl, slice_between, before_fragment, scheme_flags}
use sorug.Parser.Result.{Result, ok, err, failure, to_u32, ◌>>=◌}
use sorug.Parser.Userinfo.{parse_userinfo}
use sorug.Port.{SchemeType, is_special}
use sorug.Record.Flags.{has_empty_host, opaque_path, host_idna}
use sorug.Scan.Memchr.{Memchr}
use sorug.Common.{
  ℕ, ◌+◌, ◌-◌, bit_or, Bool, false, not, ◌&&◌, ◌||◌, [], ◌∷◌, ◌++◌, Option, none, some, Bytes,
  bytes_eq, codes, get_elem?, length, take, drop, ◌==◌, if◌then◌else◌,
}

abbrev pub starts_with : Bytes → Bytes → Bool
starts_with s prefix = bytes_eq (take (length prefix) s) prefix

abbrev pub is_byte : Option ℕ → ℕ → Bool
is_byte none c = false
is_byte (some b) c = b == c

abbrev pub with_path : ParsedUrl → Bytes → ℕ → ParsedUrl
with_path u serialization path_start = record {
  serialization = serialization;
  scheme_end = u.scheme_end;
  username_end = u.username_end;
  host_start = u.host_start;
  host_end = u.host_end;
  port = u.port;
  path_start = path_start;
  query_start = u.query_start;
  fragment_start = u.fragment_start;
  flags = u.flags;
}

abbrev pub with_ends : ParsedUrl → Bytes × Option ℕ × Option ℕ → ParsedUrl
with_ends u (serialization, query_start, fragment_start) = record {
  serialization = serialization;
  scheme_end = u.scheme_end;
  username_end = u.username_end;
  host_start = u.host_start;
  host_end = u.host_end;
  port = u.port;
  path_start = u.path_start;
  query_start = query_start;
  fragment_start = fragment_start;
  flags = u.flags;
}

-- A path that starts with two slashes is not to be read as an authority.
unfoldable pub guard_path : ParsedUrl → ParsedUrl
unfolding bytes_eq
guard_path u =
    if u.path_start == u.scheme_end + 1
    then if starts_with (drop u.path_start u.serialization) (codes "//")
      then with_path u
          (take u.path_start u.serialization ++ (codes "/." ++ drop u.path_start u.serialization))
          (u.path_start + 2)
      else u
    else if u.path_start == u.scheme_end + 3
        && bytes_eq (take 3 (drop u.scheme_end u.serialization)) (codes ":/.")
        && not (is_byte (get_elem? u.serialization (u.path_start + 1)) b'/')
    then with_path u (take u.scheme_end u.serialization ++ b':' ∷ drop u.path_start u.serialization)
        (u.path_start - 2)
    else u

-- The spare slashes behind the two of an authority.
unfoldable pub skip_slashes : Bytes → Bytes → Bytes
skip_slashes [] remaining = remaining
skip_slashes (c ∷ s) remaining =
    let skipped = skip_slashes s remaining in
    let taken = skip_slashes s s in
    if is_ascii_tab_or_newline c
    then skipped
    else if c == b'/' || c == b'\\'
    then taken
    else remaining

-- `contains("xn--")`
unfoldable pub contains_ace : Bytes → Bool
unfolding bytes_eq
contains_ace [] = false
contains_ace (c ∷ s) = starts_with (c ∷ s) (codes "xn--") || contains_ace s

module _ (m : Memchr) where
  unfoldable pub with_query_and_fragment : SchemeType → ParsedUrl → Bytes → Result ParsedUrl
  unfolding guard_path
  with_query_and_fragment scheme_type u remaining =
      let guarded = guard_path u in
      parse_query_and_fragment m false scheme_type guarded.serialization remaining
      >>= (λ ends. ok (with_ends guarded ends))

  unfoldable pub parse_non_special : SchemeType → ℕ → Bytes → Bytes → Result ParsedUrl
  unfolding split_prefix_char to_u32
  parse_non_special scheme_type scheme_end out input = to_u32 (length out) >>= (λ path_start.
      (elim (split_prefix_char input b'/') [
        | some rest ↦ parse_path m false scheme_type path_start (out ++ b'/' ∷ []) rest
        | none ↦ parse_opaque_path m out input
      ])
      >>= (λ r.
          with_query_and_fragment scheme_type
            (record {
              serialization = r.0;
              scheme_end = scheme_end;
              username_end = path_start;
              host_start = path_start;
              host_end = path_start;
              port = none;
              path_start = path_start;
              query_start = none;
              fragment_start = none;
              flags = elim (split_prefix_char input b'/') [
                | some rest ↦ scheme_flags scheme_type
                | none ↦ bit_or (scheme_flags scheme_type) opaque_path
              ];
            })
            r.1))

  -- The text before the fragment, and the fragment behind its hash sign.
  unfoldable pub fragment_only : ParsedUrl → Bytes → Result ParsedUrl
  unfolding before_fragment next to_u32
  fragment_only base_url input = before_fragment base_url >>= (λ text.
      parse_fragment m (text ++ b'#' ∷ [])
        (elim (next input) [ none ↦ [] | some (c, utf8, rest) ↦ rest ])
      >>= (λ out. to_u32 (length text) >>= (λ fragment_start.
          ok (with_ends base_url (out, base_url.query_start, some fragment_start)))))

module _ (m : Memchr) (idna : Idna) where
  abbrev pub host_flags : SchemeType → Bool → ℕ → Bytes → ℕ
  host_flags scheme_type empty_host kind_flags host =
      if empty_host
      then if is_special scheme_type then has_empty_host else 0
      else bit_or kind_flags (if contains_ace host then host_idna else 0)

  unfoldable pub after_double_slash : SchemeType → ℕ → Bytes → Bytes → Result ParsedUrl
  unfolding skip_slashes is_special to_u32 slice_between contains_ace
  after_double_slash scheme_type scheme_end out input =
      let before = out ++ (b'/' ∷ b'/' ∷ []) in
      parse_userinfo m before (if is_special scheme_type then skip_slashes input input else input)
        scheme_type
      >>= (λ c.
          let (with_userinfo, username_end, behind_userinfo, cred_flags) = c in
          to_u32 (length with_userinfo) >>= (λ host_start.
            parse_host_and_port m idna with_userinfo behind_userinfo scheme_end scheme_type
            >>= (λ h.
                let (with_host, host_end, host_kind, port, behind_host, empty_host) = h in
                if empty_host && not (length before == length with_userinfo)
                then err failure
                else to_u32 (length with_host) >>= (λ path_start.
                  parse_path_start m false scheme_type with_host behind_host >>= (λ p.
                    (if empty_host then ok [] else slice_between p.0 host_start host_end)
                    >>= (λ host.
                        with_query_and_fragment m scheme_type
                          (record {
                            serialization = p.0;
                            scheme_end = scheme_end;
                            username_end = username_end;
                            host_start = host_start;
                            host_end = host_end;
                            port = port;
                            path_start = path_start;
                            query_start = none;
                            fragment_start = none;
                            flags = bit_or (bit_or (scheme_flags scheme_type) cred_flags) (
                                host_flags scheme_type empty_host (host_flags_from_kind host_kind)
                                  host);
                          })
                          p.1))))))
