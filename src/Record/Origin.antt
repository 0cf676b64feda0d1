-- ===== src/Record/Origin.antt =====
-- src/lib.rs, `Origin`: opaque, with a number of its own, or a scheme, a host and a port.
pub mod Ports
use sorug.Port.{default_port, itoa_buf}
use sorug.Common.{
  ◌%◌, ℕ, suc, ◌+◌, ◌^◌, ◌<◌, Bool, true, false, List, [], ◌∷◌, ◌++◌, Option, none, some, Bytes,
  bytes_eq, codes, ◌==◌, if◌then◌else◌, ◌≡◌, refl, arith, ◌≢◌,
}

pub data Origin : Type 0 where
  opaque : ℕ → Origin
  tuple : Bytes → Bytes → ℕ → Origin

-- `new_opaque`: the counter's value, and the counter afterwards (a 64-bit `fetch_add`).
unfoldable pub new_opaque : ℕ → Origin × ℕ
new_opaque counter = (opaque counter, (counter + 1) % 2 ^ 64)

abbrev is_port : Option ℕ → ℕ → Bool
is_port none port = false
is_port (some d) port = d == port

unfoldable pub serialized : Origin → Bytes
unfolding default_port itoa_buf
serialized (opaque n) = codes "null"
serialized (tuple scheme host port) =
    if is_port (default_port scheme) port
    then scheme ++ codes "://" ++ host
    else scheme ++ codes "://" ++ host ++ b':' ∷ itoa_buf port

unfoldable pub ascii_serialization : Origin → Bytes
unfolding serialized
ascii_serialization origin = serialized origin

unfoldable pub is_tuple : Origin → Bool
is_tuple (opaque n) = false
is_tuple (tuple scheme host port) = true
