-- ===== src/Parser/Input.antt =====
-- src/parser/mod.rs, `Input`: the unread text, of which tabs and newlines are skipped. A code point
-- is its UTF-8 bytes; the first one tells how many follow.
use sorug.Common.{
  ℕ, suc, Bool, true, false, ◌||◌, [], ◌∷◌, Option, none, some, Bytes, take, drop, leb, ltb, within,
  ◌==◌, if◌then◌else◌,
}

abbrev pub is_ascii_tab_or_newline : ℕ → Bool
is_ascii_tab_or_newline c = c == b'\t' || c == b'\n' || c == b'\r'

abbrev pub is_ascii_alphabetic : ℕ → Bool
is_ascii_alphabetic c = within b'a' b'z' c || within b'A' b'Z' c

-- The bytes that follow the first one of a code point.
abbrev pub more_bytes : ℕ → ℕ
more_bytes b = if ltb b 0x80 then 0 else if ltb b 0xe0 then 1 else if ltb b 0xf0 then 2 else 3

-- `next`, `next_utf8` and `split_first`: the first byte of the next code point, its bytes, and the
-- rest.
unfoldable pub next : Bytes → Option (ℕ × Bytes × Bytes)
next [] = none
next (b ∷ s) =
    let later = next s in
    if is_ascii_tab_or_newline b
    then later
    else some (b, b ∷ take (more_bytes b) s, drop (more_bytes b) s)

-- The next code point, as far as it is compared with one that is ASCII.
unfoldable pub peek_char : Bytes → Option ℕ
unfolding next
peek_char s = elim (next s) [ none ↦ none | some (c, utf8, rest) ↦ some c ]

abbrev pub is_char : (ℕ → Bool) → Option ℕ → Bool
is_char p none = false
is_char p (some c) = p c

unfoldable pub is_empty : Bytes → Bool
unfolding peek_char
is_empty s = elim (peek_char s) [ none ↦ true | some c ↦ false ]

unfoldable pub starts_with_char : Bytes → ℕ → Bool
unfolding peek_char
starts_with_char s p = is_char (λ c. c == p) (peek_char s)

unfoldable pub starts_with_ascii_alpha : Bytes → Bool
unfolding peek_char
starts_with_ascii_alpha s = is_char is_ascii_alphabetic (peek_char s)

unfoldable pub split_prefix_char : Bytes → ℕ → Option Bytes
unfolding next
split_prefix_char s c = elim (next s) [
  | none ↦ none
  | some (d, utf8, rest) ↦ if d == c then some rest else none
]

unfoldable pub split_prefix_str : Bytes → Bytes → Option Bytes
unfolding split_prefix_char
split_prefix_str s [] = some s
split_prefix_str s (c ∷ cs) = elim (split_prefix_char s c) [
  | none ↦ none
  | some rest ↦ split_prefix_str rest cs
]

abbrev one_more : ℕ × Bytes → ℕ × Bytes
one_more (n, rest) = (suc n, rest)

-- `count_matching`, for a test that only ASCII passes: `s` is still to be seen, and `remaining` stands
-- behind the last match.
unfoldable pub count_loop : (ℕ → Bool) → Bytes → Bytes → ℕ × Bytes
count_loop f [] remaining = (0, remaining)
count_loop f (b ∷ s) remaining =
    let skipped = count_loop f s remaining in
    let matched = one_more (count_loop f s s) in
    if is_ascii_tab_or_newline b then skipped else if f b then matched else (0, remaining)

unfoldable pub count_matching : (ℕ → Bool) → Bytes → ℕ × Bytes
unfolding count_loop
count_matching f s = count_loop f s s

unfoldable pub skip_bytes : Bytes → ℕ → Bytes
skip_bytes s n = drop n s

-- `trim_matches` on both ends.
unfoldable pub trim_start : (ℕ → Bool) → Bytes → Bytes
trim_start p [] = []
trim_start p (b ∷ s) = let rest = trim_start p s in if p b then rest else b ∷ s

unfoldable pub trim_end : (ℕ → Bool) → Bytes → Bytes
trim_end p [] = []
trim_end p (b ∷ s) = elim (trim_end p s) [ [] ↦ if p b then [] else b ∷ [] | c ∷ t ↦ b ∷ c ∷ t ]

unfoldable pub trim_matches : (ℕ → Bool) → Bytes → Bytes
unfolding trim_start trim_end
trim_matches p s = trim_end p (trim_start p s)

unfoldable pub new_trim_tab_and_newlines : Bytes → Bytes
unfolding trim_matches
new_trim_tab_and_newlines s = trim_matches is_ascii_tab_or_newline s

-- The text without tabs and newlines, `chars().filter(..).collect()`.
unfoldable pub without_tabs : Bytes → Bytes
without_tabs [] = []
without_tabs (b ∷ s) =
    let rest = without_tabs s in if is_ascii_tab_or_newline b then rest else b ∷ rest

unfoldable pub new_trim_c0_control_and_space : Bytes → Bytes
unfolding trim_matches
new_trim_c0_control_and_space s = trim_matches (λ c. leb c b' ') s
