-- ===== src/Parser/HostSetter.antt =====
-- src/parser/mod.rs, `parse_host_setter`: the host that a setter reads, without writing it.
use sorug.Host.Opaque.{Host, domain, ipv4, ipv6, parse_opaque_host}
use sorug.Host.Special.{Idna, parse_host}
use sorug.Parser.Authority.{file_host, host_text, is_special_not_file}
use sorug.Parser.Result.{Result, ok, err, failure, or_failure, ◌>>=◌}
use sorug.Port.{SchemeType, is_special, is_file}
use sorug.Scan.Delims.{find_host_end}
use sorug.Scan.Memchr.{Memchr}
use sorug.Common.{
  Bool, true, false, not, ◌&&◌, [], Bytes, bytes_eq, codes, length, drop, ◌==◌, if◌then◌else◌,
}

-- A file URL on this machine has an empty host.
abbrev pub without_localhost : Host → Host
without_localhost (domain d) = if bytes_eq d (codes "localhost") then domain [] else domain d
without_localhost (ipv4 ip) = ipv4 ip
without_localhost (ipv6 pieces) = ipv6 pieces

abbrev pub is_empty_host : Host → Bool
is_empty_host (domain d) = length d == 0
is_empty_host (ipv4 ip) = false
is_empty_host (ipv6 pieces) = false

module _ (m : Memchr) (idna : Idna) where
  abbrev pub file_setter : Bool × Bytes × Bytes → Result (Host × Bool × Bytes)
  file_setter (_, text, remaining) =
      if length text == 0
      then ok (domain [], true, remaining)
      else or_failure (parse_host m idna text)
        >>= (λ host. ok (without_localhost host, is_empty_host (without_localhost host), remaining))

  abbrev pub text_setter : SchemeType → Bytes → Bytes → Result (Host × Bool × Bytes)
  text_setter scheme_type text rest =
      if is_special_not_file scheme_type && length text == 0
      then err failure
      else if not (is_special scheme_type)
      then or_failure (parse_opaque_host text) >>= (λ host. ok (host, is_empty_host host, rest))
      else if length text == 0
      then ok (domain [], true, rest)
      else or_failure (parse_host m idna text) >>= (λ host. ok (host, false, rest))

  -- The host, whether it is empty, and the rest.
  unfoldable pub parse_host_setter : Bytes → SchemeType → Result (Host × Bool × Bytes)
  unfolding file_host find_host_end is_file is_special parse_host parse_opaque_host bytes_eq
  parse_host_setter input scheme_type =
      if is_file scheme_type
      then file_setter (file_host m idna input)
      else text_setter scheme_type
          (host_text input (find_host_end m input (is_special scheme_type)))
          (drop (find_host_end m input (is_special scheme_type)).0 input)
