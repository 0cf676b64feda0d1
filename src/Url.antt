-- ===== src/Url.antt =====
-- src/lib.rs, `Url`: the URL record as the library keeps it, with the largest 32-bit number for what
-- is absent, and its getters, which slice the serialization. A slice or an index behind the text
-- panics; the 32-bit offsets wrap around.
pub mod Parts
pub mod Tests
use sorug.Parser.Record.{ParsedUrl, slice_to, slice_between}
use sorug.Parser.Result.{Result, ok, panicked, ◌>>=◌}
use sorug.Port.{default_port_for_scheme}
use sorug.Record.Flags.{contains, has_empty_host, host_ipv4, host_ipv6}
use sorug.Common.{
  ℕ, ◌+◌, ◌-◌, ◌%◌, ◌^◌, Bool, true, false, not, ◌&&◌, ◌||◌, [], Option, none, some, Bytes,
  get_elem?, length, drop, ltb, leb, ◌==◌, if◌then◌else◌,
}

pub record Url : Type 0 where
  pub serialization : Bytes
  pub scheme_end : ℕ
  pub username_end : ℕ
  pub host_start : ℕ
  pub host_end : ℕ
  pub port : ℕ
  pub path_start : ℕ
  pub query_start : ℕ
  pub fragment_start : ℕ
  pub flags : ℕ

-- `Url::NONE` and `Url::NO_PORT`
abbrev pub absent : ℕ
absent = 2 ^ 32 - 1

unfoldable pub or_absent : Option ℕ → ℕ
or_absent none = absent
or_absent (some i) = i

abbrev pub from_parsed : ParsedUrl → Url
from_parsed p = record {
  serialization = p.serialization;
  scheme_end = p.scheme_end;
  username_end = p.username_end;
  host_start = p.host_start;
  host_end = p.host_end;
  port = or_absent p.port;
  path_start = p.path_start;
  query_start = or_absent p.query_start;
  fragment_start = or_absent p.fragment_start;
  flags = p.flags;
}

unfoldable pub byte_at : Url → ℕ → Result ℕ
byte_at u i = elim (get_elem? u.serialization i) [ none ↦ panicked | some b ↦ ok b ]

-- `&s[start..]`
unfoldable pub slice_from : Bytes → ℕ → Result Bytes
slice_from s start = if leb start (length s) then ok (drop start s) else panicked

unfoldable pub has_authority : Url → Result Bool
unfolding byte_at
has_authority u =
    if leb (u.scheme_end + 3) (length u.serialization)
    then byte_at u ((u.scheme_end + 1) % 2 ^ 32) >>= (λ a.
      if a == b'/'
      then byte_at u ((u.scheme_end + 2) % 2 ^ 32) >>= (λ b. ok (b == b'/'))
      else ok false)
    else ok false

unfoldable pub get_scheme : Url → Result Bytes
unfolding slice_to
get_scheme u = slice_to u.serialization u.scheme_end

unfoldable pub protocol : Url → Result Bytes
unfolding slice_to
protocol u = slice_to u.serialization (u.scheme_end + 1)

unfoldable pub has_host : Url → Bool
unfolding contains
has_host u = not (u.host_start == u.host_end) || contains u.flags has_empty_host

unfoldable pub host : Url → Result (Option Bytes)
unfolding has_host slice_between
host u =
    if has_host u
    then slice_between u.serialization u.host_start u.host_end >>= (λ h. ok (some h))
    else ok none

unfoldable pub host_domain : Url → Result (Option Bytes)
unfolding host contains
host_domain u = if contains u.flags host_ipv4 || contains u.flags host_ipv6 then ok none else host u

unfoldable pub authority : Url → Result (Option Bytes)
unfolding has_authority slice_between
authority u = has_authority u >>= (λ has.
    if has
    then slice_between u.serialization ((u.scheme_end + 3) % 2 ^ 32) u.path_start
      >>= (λ a. ok (some a))
    else ok none)

unfoldable pub username : Url → Result Bytes
unfolding has_authority slice_between
username u = has_authority u >>= (λ has.
    if has && ltb ((u.scheme_end + 3) % 2 ^ 32) u.username_end
    then slice_between u.serialization ((u.scheme_end + 3) % 2 ^ 32) u.username_end
    else ok [])

-- Whether a colon ends the username.
unfoldable pub has_password_slot : Url → Result Bool
unfolding has_authority byte_at
has_password_slot u = has_authority u >>= (λ has.
    if has && ltb u.username_end (length u.serialization)
    then byte_at u u.username_end >>= (λ b. ok (b == b':'))
    else ok false)

unfoldable pub password_opt : Url → Result (Option Bytes)
unfolding has_password_slot slice_between
password_opt u = has_password_slot u >>= (λ has.
    if has
    then slice_between u.serialization ((u.username_end + 1) % 2 ^ 32)
        ((u.host_start + (2 ^ 32 - 1)) % 2 ^ 32)
      >>= (λ p. ok (some p))
    else ok none)

unfoldable pub password : Url → Result Bytes
unfolding has_password_slot slice_between
password u = has_password_slot u >>= (λ has.
    if has
    then slice_between u.serialization ((u.username_end + 1) % 2 ^ 32)
        ((u.host_start + (2 ^ 32 - 1)) % 2 ^ 32)
    else ok [])

unfoldable pub port_u16 : Url → Option ℕ
port_u16 u = if u.port == absent || ltb 0xffff u.port then none else some (u.port % 2 ^ 16)

unfoldable pub or_default : Option ℕ → Result Bytes → Result (Option ℕ)
unfolding default_port_for_scheme
or_default (some p) scheme = ok (some p)
or_default none scheme = scheme >>= (λ s. ok (default_port_for_scheme s))

unfoldable pub port_or_known_default : Url → Result (Option ℕ)
unfolding port_u16 or_default get_scheme
port_or_known_default u = or_default (port_u16 u) (get_scheme u)

unfoldable pub host_with_port : Url → Result Bytes
unfolding has_host slice_between
host_with_port u =
    if has_host u
    then slice_between u.serialization u.host_start
        (if u.port == absent then u.host_end else u.path_start)
    else ok []

-- Where the query, or the path without query, ends.
unfoldable pub query_end : Url → ℕ
query_end u =
    if u.fragment_start == absent then length u.serialization % 2 ^ 32 else u.fragment_start

unfoldable pub path : Url → Result Bytes
unfolding query_end slice_between
path u =
    slice_between u.serialization u.path_start
      (if u.query_start == absent then query_end u else u.query_start)

unfoldable pub query : Url → Result (Option Bytes)
unfolding query_end slice_between
query u =
    if u.query_start == absent
    then ok none
    else slice_between u.serialization ((u.query_start + 1) % 2 ^ 32) (query_end u)
      >>= (λ q. ok (some q))

unfoldable pub search : Url → Result Bytes
unfolding query_end slice_between
search u =
    if u.query_start == absent
    then ok []
    else if query_end u == (u.query_start + 1) % 2 ^ 32
    then ok []
    else slice_between u.serialization u.query_start (query_end u)

unfoldable pub fragment : Url → Result (Option Bytes)
unfolding slice_from
fragment u =
    if u.fragment_start == absent
    then ok none
    else slice_from u.serialization (u.fragment_start + 1) >>= (λ f. ok (some f))

unfoldable pub hash : Url → Result Bytes
unfolding slice_from
hash u =
    if u.fragment_start == absent
    then ok []
    else if u.fragment_start + 1 == length u.serialization
    then ok []
    else slice_from u.serialization u.fragment_start
