-- ===== src/Url/Tests.antt =====
-- Runs of the getters of `Url` (src/lib.rs) on concrete records, and their theorem at one.
use sorug.Host.Special.{Idna}
use sorug.Parser.Authority.{parse_host_and_port}
use sorug.Parser.Finish.{with_query_and_fragment}
use sorug.Parser.Path.{parse_path, parse_path_start}
use sorug.Parser.Query.{parse_query_and_fragment}
use sorug.Parser.Record.{ParsedUrl}
use sorug.Parser.Result.{ok}
use sorug.Parser.Url.{parse_url}
use sorug.Parser.Userinfo.{parse_userinfo}
use sorug.Scan.Delims.{find1, find3, find4, find_host_delim}
use sorug.Scan.Tests.{linear}
use sorug.Url.{
  from_parsed, or_absent, username, password, authority, host_with_port, search, hash,
  port_or_known_default,
}
use sorug.Url.Parts.{Parts, parse_url-Parts}
use sorug.Common.{true, none, some, are_bytes, codes, ◌≡◌, refl, arith}

abbrev ascii_only : Idna
ascii_only = record { to_ascii_into = λ s. none; from_utf8 = λ s. true }

abbrev full : ParsedUrl
full = record {
  serialization = codes "http://u:p@h:81/b?c#d";
  scheme_end = 4;
  username_end = 8;
  host_start = 11;
  host_end = 12;
  port = some 81;
  path_start = 15;
  query_start = some 17;
  fragment_start = some 19;
  flags = 19;
}

full_run : parse_url linear ascii_only none (codes "http://u:p@h:81/a/../b?c#d") ≡ ok full
unfolding parse_url parse_path parse_path_start parse_query_and_fragment parse_userinfo find1 find3
    find4 find_host_delim parse_host_and_port with_query_and_fragment
full_run = refl

parse_url-Parts_example : Parts full
parse_url-Parts_example =
    parse_url-Parts linear ascii_only (codes "http://u:p@h:81/a/../b?c#d") full
      (are_bytes (codes "http://u:p@h:81/a/../b?c#d") refl) full_run (omega arith)

credentials_run : username (from_parsed full) ≡ ok (codes "u")
unfolding username
credentials_run = refl

password_run : password (from_parsed full) ≡ ok (codes "p")
unfolding password
password_run = refl

authority_run : authority (from_parsed full) ≡ ok (some (codes "u:p@h:81"))
unfolding authority
authority_run = refl

host_run : host_with_port (from_parsed full) ≡ ok (codes "h:81")
unfolding host_with_port or_absent
host_run = refl

search_run : search (from_parsed full) ≡ ok (codes "?c")
unfolding search or_absent
search_run = refl

hash_run : hash (from_parsed full) ≡ ok (codes "#d")
unfolding hash or_absent
hash_run = refl

port_run : port_or_known_default (from_parsed full) ≡ ok (some 81)
unfolding port_or_known_default or_absent
port_run = refl
