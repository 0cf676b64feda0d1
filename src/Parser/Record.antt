-- ===== src/Parser/Record.antt =====
-- src/parser/mod.rs, `ParsedUrl`: the serialization of a URL and the offsets of its parts. A slice
-- that ends behind the text panics.
use sorug.Parser.Result.{Result, ok, panicked, ◌>>=◌}
use sorug.Port.{SchemeType, is_special}
use sorug.Record.Flags.{special, opaque_path, has_empty_host}
use sorug.Common.{
  ℕ, ◌-◌, bit_and, Bool, not, ◌&&◌, [], ◌∷◌, Option, none, some, Bytes, length, take, drop, leb,
  ◌==◌, if◌then◌else◌,
}

pub record ParsedUrl : Type 0 where
  pub serialization : Bytes
  pub scheme_end : ℕ
  pub username_end : ℕ
  pub host_start : ℕ
  pub host_end : ℕ
  pub port : Option ℕ
  pub path_start : ℕ
  pub query_start : Option ℕ
  pub fragment_start : Option ℕ
  pub flags : ℕ

-- `&s[..end]` and `&s[start..end]`
unfoldable pub slice_to : Bytes → ℕ → Result Bytes
slice_to s end = if leb end (length s) then ok (take end s) else panicked

unfoldable pub slice_between : Bytes → ℕ → ℕ → Result Bytes
slice_between s start end =
    if leb start end && leb end (length s) then ok (take (end - start) (drop start s)) else panicked

unfoldable pub scheme : ParsedUrl → Result Bytes
unfolding slice_to
scheme u = slice_to u.serialization u.scheme_end

unfoldable pub url_has_opaque_path : ParsedUrl → Bool
url_has_opaque_path u = not (bit_and u.flags opaque_path == 0)

unfoldable pub host_str : ParsedUrl → Result (Option Bytes)
unfolding slice_between
host_str u =
    if u.host_start == u.host_end
    then if not (bit_and u.flags has_empty_host == 0) then ok (some []) else ok none
    else slice_between u.serialization u.host_start u.host_end >>= (λ h. ok (some h))

unfoldable pub before_fragment : ParsedUrl → Result Bytes
unfolding slice_to
before_fragment u = elim (u.fragment_start) [
  | none ↦ ok u.serialization
  | some i ↦ slice_to u.serialization i
]

unfoldable pub before_query : ParsedUrl → Result Bytes
unfolding slice_to before_fragment
before_query u = elim (u.query_start) [
  | none ↦ before_fragment u
  | some i ↦ slice_to u.serialization i
]

-- `path[1..]` if the path starts with a slash.
abbrev strip_slash : Bytes → Bytes
strip_slash [] = []
strip_slash (c ∷ s) = if c == b'/' then s else c ∷ s

abbrev first_segment : Bytes → Bytes
first_segment [] = []
first_segment (c ∷ s) = if c == b'/' then [] else c ∷ first_segment s

abbrev some_segment : Bytes → Option Bytes
some_segment [] = none
some_segment (c ∷ s) = some (first_segment (c ∷ s))

unfoldable pub path_end : ParsedUrl → ℕ
path_end u = elim (u.query_start) [
  | some q ↦ q
  | none ↦ elim (u.fragment_start) [ some f ↦ f | none ↦ length u.serialization ]
]

unfoldable pub file_first_path_segment : ParsedUrl → Result (Option Bytes)
unfolding slice_between path_end
file_first_path_segment u =
    slice_between u.serialization u.path_start (path_end u)
    >>= (λ path. ok (some_segment (strip_slash path)))

abbrev pub scheme_flags : SchemeType → ℕ
scheme_flags t = if is_special t then special else 0
