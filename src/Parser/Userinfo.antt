-- ===== src/Parser/Userinfo.antt =====
-- src/parser/mod.rs, `parse_userinfo`: the credentials before the last at sign of the authority,
-- percent-encoded. Offsets are 32 bits wide.
pub mod Bounds
use sorug.Parser.Input.{is_ascii_tab_or_newline, more_bytes, peek_char}
use sorug.Parser.Result.{Result, ok, err, panicked, failure, to_u32, ◌>>=◌}
use sorug.Percent.Codec.{percent_encode_char}
use sorug.Percent.Sets.{in_userinfo_encode_set}
use sorug.Port.{SchemeType, is_special}
use sorug.Record.Flags.{has_credentials, has_password}
use sorug.Scan.Backward.{find_last_at}
use sorug.Scan.Delims.{find_authority_end}
use sorug.Scan.Memchr.{Memchr}
use sorug.Common.{
  ℕ, zero, suc, ◌+◌, bit_or, Bool, true, false, not, ◌&&◌, ◌||◌, [], ◌∷◌, ◌++◌, Option, none, some,
  Bytes, length, take, drop, any, all, ◌==◌, if◌then◌else◌,
}

pub record Userinfo : Type 0 where
  pub out : Bytes
  pub username_end : Option ℕ
  pub has_password : Bool
  pub has_username : Bool

abbrev pub is_some : Option ℕ → Bool
is_some none = false
is_some (some i) = true

-- A first colon: it is written only if the password is not empty.
abbrev pub split_password : Userinfo → Bytes → ℕ → Userinfo
split_password u rest i =
    if any (λ c. not (is_ascii_tab_or_newline c)) rest
    then record {
      out = u.out ++ b':' ∷ [];
      username_end = some i;
      has_password = true;
      has_username = u.has_username;
    }
    else record {
      out = u.out;
      username_end = some i;
      has_password = u.has_password;
      has_username = u.has_username;
    }

abbrev pub encode_userinfo : Userinfo → Bytes → Userinfo
encode_userinfo u ch = record {
  out = percent_encode_char ch in_userinfo_encode_set u.out;
  username_end = u.username_end;
  has_password = u.has_password;
  has_username = if not u.has_password then true else u.has_username;
}

-- Each round takes a byte at least.
unfoldable pub userinfo_loop : ℕ → Bytes → Userinfo → Result Userinfo
unfolding percent_encode_char in_userinfo_encode_set to_u32
userinfo_loop fuel [] u = ok u
userinfo_loop zero (b ∷ s) u = panicked
userinfo_loop (suc fuel) (b ∷ s) u =
    if is_ascii_tab_or_newline b
    then userinfo_loop fuel s u
    else if b == b':' && not (is_some u.username_end)
    then to_u32 (length u.out) >>= (λ i. userinfo_loop fuel s (split_password u s i))
    else userinfo_loop fuel (drop (more_bytes b) s) (encode_userinfo u (b ∷ take (more_bytes b) s))

abbrev pub or_len : Option ℕ → Bytes → Result ℕ
or_len none out = to_u32 (length out)
or_len (some i) out = ok i

-- The serialization, the end of the username, the rest, and the flags.
abbrev pub Credentials : Type 0
Credentials = Bytes × ℕ × Bytes × ℕ

unfoldable pub finish_userinfo : Bytes → Userinfo → Result Credentials
unfolding to_u32
finish_userinfo rest u = or_len u.username_end u.out >>= (λ username_end. ok (
  if u.has_username || u.has_password then u.out ++ b'@' ∷ [] else u.out,
  username_end,
  rest,
  bit_or (if u.has_username || u.has_password then has_credentials else 0)
      (if u.has_password then has_password else 0),
))

-- A host must follow empty credentials.
abbrev pub lacks_host : Bool → Option ℕ → Bool
lacks_host special none = true
lacks_host special (some c) = c == b'/' || c == b'?' || c == b'#' || special && c == b'\\'

unfoldable pub parse_userinfo : Memchr → Bytes → Bytes → SchemeType → Result Credentials
unfolding find_authority_end find_last_at peek_char to_u32 userinfo_loop finish_userinfo is_special
parse_userinfo m out input scheme_type =
    elim (find_last_at m input (find_authority_end m input (is_special scheme_type))) [
      | none ↦ to_u32 (length out) >>= (λ n. ok (out, n, input, 0))
      | some at ↦
          if at == 0 || all is_ascii_tab_or_newline (take at input)
          then if lacks_host (is_special scheme_type) (peek_char (drop (at + 1) input))
            then err failure
            else to_u32 (length out) >>= (λ n. ok (out, n, drop (at + 1) input, 0))
          else userinfo_loop (length (take at input)) (take at input) (record {
            out = out;
            username_end = none;
            has_password = false;
            has_username = false;
          })
            >>= finish_userinfo (drop (at + 1) input)
    ]
