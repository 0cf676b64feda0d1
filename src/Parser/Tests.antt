-- ===== src/Parser/Tests.antt =====
-- Runs of the parser of src/parser/mod.rs on concrete inputs, and its theorems at concrete inputs.
use sorug.Host.Special.{Idna}
use sorug.Parser.Authority.{parse_host_and_port}
use sorug.Parser.Finish.{with_query_and_fragment}
use sorug.Parser.Finish.Ordered.{IsRecord}
use sorug.Parser.Input.{peek_char, more_bytes, without_tabs}
use sorug.Parser.Path.{parse_path, parse_path_start}
use sorug.Parser.Path.Resolved.{Resolved}
use sorug.Parser.Path.Start.{parse_path_start-Resolved}
use sorug.Parser.Query.{parse_query, parse_query_and_fragment, parse_fragment}
use sorug.Parser.Query.Layout.{Layout, parse_query_and_fragment-Layout}
use sorug.Parser.Query.Text.{IsText, Chars, one_byte, upto, behind}
use sorug.Parser.Query.Written.{parse_query-encoded, parse_fragment-encoded}
use sorug.Parser.Record.{ParsedUrl}
use sorug.Parser.Result.{Result, ok, err, panicked, Returns, Holds}
use sorug.Parser.Url.{parse, parse_url}
use sorug.Parser.Url.InOrder.{parse_url-IsRecord}
use sorug.Parser.Userinfo.{parse_userinfo}
use sorug.Percent.Codec.{escape}
use sorug.Percent.Sets.{in_fragment_encode_set, in_special_query_encode_set}
use sorug.Port.{special_not_file, is_special}
use sorug.Scan.Delims.{find1, find3, find4, find_host_delim}
use sorug.Scan.Tests.{linear}
use sorug.Common.{
  true, false, [], ◌∷◌, Option, none, some, Bytes, are_bytes, codes, all, ltb, ◌≡◌, refl, sym,
  subst, arith,
}

-- ASCII is text.
is_text : (s : Bytes) → all (λ b. ltb b 0x80) s ≡ true → IsText s
is_text [] e = tt
is_text (b ∷ s) e =
    let one : more_bytes b ≡ 0 = one_byte b (ground arith) in
    (ground arith, subst (λ n. Chars n s) (sym one) (is_text s (ground arith)))

abbrev base : ParsedUrl
base = record {
  serialization = codes "http://h/a/b";
  scheme_end = 4;
  username_end = 7;
  host_start = 7;
  host_end = 8;
  port = none;
  path_start = 8;
  query_start = none;
  fragment_start = none;
  flags = 1;
}

-- Every domain that is not ASCII is refused.
abbrev ascii_only : Idna
ascii_only = record { to_ascii_into = λ s. none; from_utf8 = λ s. true }

abbrev href : Result ParsedUrl → Option Bytes
href (ok u) = some u.serialization
href (err e) = none
href panicked = none

-- The scheme in lower case, the default port left out, the dot segments resolved.
special_url :
    href (parse linear ascii_only none (λ s. none) (codes " HTTP://Ex.com:80/a/./b/../c d?x y#z "))
    ≡ some (codes "http://ex.com/a/c%20d?x%20y#z")
unfolding parse parse_path parse_path_start parse_query_and_fragment parse_userinfo find1 find3
    find4 find_host_delim parse_host_and_port with_query_and_fragment
special_url = refl

-- Against a base.
relative_url :
    href (parse linear ascii_only (some base) (λ s. none) (codes "../d?q"))
    ≡ some (codes "http://h/d?q")
unfolding parse parse_path parse_path_start parse_query_and_fragment find1 find3 find4
    with_query_and_fragment
relative_url = refl

parse_path_start-Resolved_example :
    Returns
      (Resolved linear false special_not_file (codes "http://h") true)
      (parse_path_start linear false special_not_file (codes "http://h") (codes "/a/%2E./b\\c?d"))
unfolding is_special
parse_path_start-Resolved_example =
    parse_path_start-Resolved linear false special_not_file (codes "http://h")
      (codes "/a/%2E./b\\c?d") (are_bytes (codes "/a/%2E./b\\c?d") refl)

parse_query_and_fragment-Layout_example :
    Holds (Layout (codes "http://h/")) (
      parse_query_and_fragment linear false special_not_file (codes "http://h/") (codes "?a b#c#d"))
unfolding peek_char
parse_query_and_fragment-Layout_example =
    parse_query_and_fragment-Layout linear special_not_file (codes "http://h/") (codes "?a b#c#d")
      (are_bytes (codes "?a b#c#d") refl) (refl, refl)

parse_url-IsRecord_example :
    Holds IsRecord (parse_url linear ascii_only none (codes "http://u:p@h:81/a/../b?c#d"))
parse_url-IsRecord_example =
    parse_url-IsRecord linear ascii_only (codes "http://u:p@h:81/a/../b?c#d")
      (are_bytes (codes "http://u:p@h:81/a/../b?c#d") refl)

-- The credentials end before the host, and the port is written.
with_credentials :
    parse_url linear ascii_only none (codes "http://u:p@h:81/a/../b?c#d")
    ≡ ok (record {
      serialization = codes "http://u:p@h:81/b?c#d";
      scheme_end = 4;
      username_end = 8;
      host_start = 11;
      host_end = 12;
      port = some 81;
      path_start = 15;
      query_start = some 17;
      fragment_start = some 19;
      flags = 19;
    })
unfolding parse_url parse_path parse_path_start parse_query_and_fragment parse_userinfo find1 find3
    find4 find_host_delim parse_host_and_port with_query_and_fragment
with_credentials = refl

parse_query-encoded_example :
    parse_query linear false special_not_file (codes "http://h/?") (codes "a 'b#c")
    ≡ ok (codes "http://h/?a%20%27b", some (codes "c"))
unfolding is_special upto behind without_tabs in_special_query_encode_set escape
parse_query-encoded_example =
    parse_query-encoded linear false special_not_file (codes "http://h/?") (codes "a 'b#c")
      (is_text (codes "a 'b#c") refl)

parse_fragment-encoded_example :
    parse_fragment linear (codes "a:#") (codes "x y") ≡ ok (codes "a:#x%20y")
unfolding without_tabs in_fragment_encode_set escape
parse_fragment-encoded_example =
    parse_fragment-encoded linear (codes "a:#") (codes "x y") (is_text (codes "x y") refl)
