-- ===== src/Parser/Authority.antt =====
-- src/parser/mod.rs, the host and the port, appended to the serialization.
pub mod Bounds
pub mod Ends
pub mod HasHost
use sorug.Host.Opaque.{Host, domain, ipv4, ipv6, parse_opaque_host}
use sorug.Host.Special.{
  Idna, AppendedHost, empty_domain, appended_domain, appended_ipv4, appended_ipv6, append_host,
  parse_host, display,
}
use sorug.Parser.Drive.{is_windows_drive_letter}
use sorug.Parser.Input.{starts_with_char, split_prefix_char, without_tabs}
use sorug.Parser.Record.{slice_to}
use sorug.Parser.Result.{Result, ok, err, failure, or_failure, to_u32, ◌>>=◌}
use sorug.Port.{
  SchemeType, file, special_not_file, not_special, is_special, default_port_for_scheme, parse_port,
  itoa_buf,
}
use sorug.Record.Flags.{host_ipv4, host_ipv6}
use sorug.Scan.Delims.{find_file_host_end, find_host_end}
use sorug.Scan.Memchr.{Memchr}
use sorug.Common.{
  ℕ, Bool, true, false, not, ◌&&◌, ◌||◌, [], ◌∷◌, ◌++◌, Option, none, some, Bytes, bytes_eq, codes,
  length, take, drop, ◌==◌, if◌then◌else◌,
}

abbrev pub appended : Bytes → Host → AppendedHost × Bytes
appended out (domain []) = (empty_domain, out)
appended out (domain (c ∷ d)) = (appended_domain, out ++ c ∷ d)
appended out (ipv4 ip) = (appended_ipv4, display out (ipv4 ip))
appended out (ipv6 pieces) = (appended_ipv6, display out (ipv6 pieces))

unfoldable pub append_opaque_host : Bytes → Bytes → Result (AppendedHost × Bytes)
unfolding parse_opaque_host display
append_opaque_host out host_str =
    or_failure (parse_opaque_host host_str) >>= (λ host. ok (appended out host))

abbrev pub is_special_not_file : SchemeType → Bool
is_special_not_file file = false
is_special_not_file special_not_file = true
is_special_not_file not_special = false

-- `HostKind`
pub data HostKind : Type 0 where
  kind_domain kind_ipv4 kind_ipv6 : HostKind

abbrev pub host_kind : AppendedHost → HostKind
host_kind empty_domain = kind_domain
host_kind appended_domain = kind_domain
host_kind appended_ipv4 = kind_ipv4
host_kind appended_ipv6 = kind_ipv6

abbrev pub host_flags_from_kind : HostKind → ℕ
host_flags_from_kind kind_domain = 0
host_flags_from_kind kind_ipv4 = host_ipv4
host_flags_from_kind kind_ipv6 = host_ipv6

abbrev pub is_empty_domain : AppendedHost → Bool
is_empty_domain empty_domain = true
is_empty_domain appended_domain = false
is_empty_domain appended_ipv4 = false
is_empty_domain appended_ipv6 = false

abbrev pub host_text : Bytes → ℕ × Bool → Bytes
host_text input (byte_end, has_ignored) =
    if has_ignored then without_tabs (take byte_end input) else take byte_end input

module _ (m : Memchr) (idna : Idna) where
  -- The host's text is not empty for a special scheme.
  abbrev pub append_host_text : Bytes → SchemeType → Bytes → Result (AppendedHost × Bytes)
  append_host_text out scheme_type text =
      if is_special_not_file scheme_type && length text == 0
      then err failure
      else if not (is_special scheme_type)
      then append_opaque_host out text
      else if length text == 0
      then ok (empty_domain, out)
      else or_failure (append_host m idna text out)

  unfoldable pub parse_host_input_append :
      Bytes → Bytes → SchemeType → Result (AppendedHost × Bytes × Bytes)
  unfolding find_host_end without_tabs append_opaque_host append_host is_special
  parse_host_input_append out input scheme_type =
      let end = find_host_end m input (is_special scheme_type) in
      append_host_text out scheme_type (host_text input end)
      >>= (λ r. ok (r.0, r.1, drop end.0 input))

  -- The serialization, the end of the host, its kind, the port, the rest, and whether the host is
  -- empty.
  abbrev pub Endpoint : Type 0
  Endpoint = Bytes × ℕ × HostKind × Option ℕ × Bytes × Bool

  abbrev pub write_port : Bytes → Option ℕ → Bytes
  write_port out none = out
  write_port out (some port) = (out ++ b':' ∷ []) ++ itoa_buf port

  unfoldable pub parse_port_part : Bytes → ℕ → Bytes → Result (Bytes × Option ℕ × Bytes)
  unfolding split_prefix_char slice_to default_port_for_scheme parse_port itoa_buf
  parse_port_part out scheme_end remaining = elim (split_prefix_char remaining b':') [
    | none ↦ ok (out, none, remaining)
    | some rest ↦ slice_to out scheme_end >>= (λ scheme.
        or_failure (parse_port rest (default_port_for_scheme scheme))
        >>= (λ r. ok (write_port out r.0, r.0, r.1)))
  ]

  unfoldable pub parse_host_and_port : Bytes → Bytes → ℕ → SchemeType → Result Endpoint
  unfolding parse_host_input_append starts_with_char is_special to_u32 parse_port_part
  parse_host_and_port out input scheme_end scheme_type =
      parse_host_input_append out input scheme_type >>= (λ h.
        let empty_host = is_empty_domain h.0 in
        if empty_host && (starts_with_char h.2 b':' || is_special scheme_type)
        then err failure
        else to_u32 (length h.1) >>= (λ host_end.
          parse_port_part h.1 scheme_end h.2
          >>= (λ p. ok (p.0, host_end, host_kind h.0, p.1, p.2, empty_host))))

  -- Whether the text is a host, the host, and the rest.
  unfoldable pub file_host : Bytes → Bool × Bytes × Bytes
  unfolding find_file_host_end without_tabs is_windows_drive_letter
  file_host input =
      let end = find_file_host_end m input in
      let text = host_text input end in
      if is_windows_drive_letter text then (false, [], input) else (true, text, drop end.0 input)

  abbrev pub is_local : Host → Bool
  is_local (domain d) = bytes_eq d (codes "localhost") || length d == 0
  is_local (ipv4 ip) = false
  is_local (ipv6 pieces) = false

  abbrev pub append_file_host : Bytes → Bytes → Host → Bytes × Bool × Bool × Bytes
  append_file_host out remaining host =
      if is_local host
      then (out, true, true, remaining)
      else (display out host, true, false, remaining)

  -- The serialization, whether a path starts, whether the host is empty, and the rest.
  unfoldable pub parse_file_host : Bytes → Bytes → Result (Bytes × Bool × Bool × Bytes)
  unfolding file_host parse_host bytes_eq display
  parse_file_host out input =
      let (has_host_buffer, text, remaining) = file_host input in
      if not has_host_buffer
      then ok (out, false, true, remaining)
      else if length text == 0
      then ok (out, true, true, remaining)
      else or_failure (parse_host m idna text)
        >>= (λ host. ok (append_file_host out remaining host))
