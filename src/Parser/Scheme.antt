-- ===== src/Parser/Scheme.antt =====
-- src/parser/mod.rs, `parse_scheme` and `parse_scheme_setter`: the scheme is what stands before the
-- first colon. All of it is ASCII, so the loops go byte by byte.
use sorug.Parser.Input.{is_ascii_tab_or_newline, starts_with_ascii_alpha}
use sorug.Common.{
  ℕ, ◌+◌, Bool, true, false, ◌||◌, [], ◌∷◌, ◌++◌, Option, none, some, Bytes, within, ◌==◌,
  if◌then◌else◌,
}

abbrev pub is_scheme_char : ℕ → Bool
is_scheme_char c = within b'a' b'z' c || within b'0' b'9' c || c == b'+' || c == b'-' || c == b'.'

abbrev pub is_upper : ℕ → Bool
is_upper c = within b'A' b'Z' c

-- The scheme so far, and the unread text; at its end only the setter succeeds.
unfoldable pub scheme_loop : Bool → Bytes → Bytes → Option (Bytes × Bytes)
scheme_loop for_setter out [] = if for_setter then some (out, []) else none
scheme_loop for_setter out (c ∷ s) =
    let skipped = scheme_loop for_setter out s in
    let kept = scheme_loop for_setter (out ++ c ∷ []) s in
    let lowered = scheme_loop for_setter (out ++ (c + 32) ∷ []) s in
    if is_ascii_tab_or_newline c
    then skipped
    else if is_scheme_char c
    then kept
    else if is_upper c
    then lowered
    else if c == b':'
    then some (out, s)
    else none

unfoldable pub parse_scheme : Bytes → Option (Bytes × Bytes)
unfolding scheme_loop starts_with_ascii_alpha
parse_scheme input = if starts_with_ascii_alpha input then scheme_loop false [] input else none

unfoldable pub parse_scheme_setter : Bytes → Option (Bytes × Bytes)
unfolding scheme_loop starts_with_ascii_alpha
parse_scheme_setter input =
    if starts_with_ascii_alpha input then scheme_loop true [] input else none
