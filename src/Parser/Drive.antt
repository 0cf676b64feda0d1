-- ===== src/Parser/Drive.antt =====
-- src/parser/mod.rs, Windows drive letters and what depends on them at the end of a path.
use sorug.Parser.Input.{is_ascii_alphabetic, next, peek_char, is_char, is_empty}
use sorug.Common.{
  ℕ, suc, ◌-◌, Bool, true, false, not, ◌&&◌, ◌||◌, [], ◌∷◌, ◌++◌, Option, none, some, Bytes, length,
  take, drop, leb, ◌==◌, if◌then◌else◌,
}

abbrev pub is_colon_or_bar : ℕ → Bool
is_colon_or_bar b = b == b':' || b == b'|'

abbrev pub is_path_stop : ℕ → Bool
is_path_stop b = b == b'/' || b == b'\\' || b == b'?' || b == b'#'

unfoldable pub starts_with_windows_drive_letter : Bytes → Bool
starts_with_windows_drive_letter [] = false
starts_with_windows_drive_letter (a ∷ []) = false
starts_with_windows_drive_letter (a ∷ b ∷ []) = is_ascii_alphabetic a && is_colon_or_bar b
starts_with_windows_drive_letter (a ∷ b ∷ c ∷ s) =
    is_ascii_alphabetic a && is_colon_or_bar b && is_path_stop c

unfoldable pub is_windows_drive_letter : Bytes → Bool
unfolding starts_with_windows_drive_letter
is_windows_drive_letter segment = length segment == 2 && starts_with_windows_drive_letter segment

abbrev second_is_colon : Bytes → Bool
second_is_colon (a ∷ b ∷ s) = b == b':'
second_is_colon _ = false

unfoldable pub is_normalized_windows_drive_letter : Bytes → Bool
unfolding is_windows_drive_letter
is_normalized_windows_drive_letter segment =
    is_windows_drive_letter segment && second_is_colon segment

unfoldable pub path_starts_with_windows_drive_letter : Bytes → Bool
unfolding starts_with_windows_drive_letter
path_starts_with_windows_drive_letter [] = false
path_starts_with_windows_drive_letter (b ∷ s) = is_path_stop b && starts_with_windows_drive_letter s

-- The third code point, or the end of the text.
abbrev ends_drive : Option ℕ → Bool
ends_drive none = true
ends_drive (some c) = is_path_stop c

unfoldable pub starts_with_windows_drive_letter_segment : Bytes → Bool
unfolding next peek_char
starts_with_windows_drive_letter_segment input = elim (next input) [
  | none ↦ false
  | some (a, utf8, rest) ↦ elim (next rest) [
    | none ↦ false
    | some (b, utf8', rest') ↦
        is_ascii_alphabetic a && is_colon_or_bar b && ends_drive (peek_char rest')
  ]
]

unfoldable pub ends_with : Bytes → ℕ → Bool
ends_with [] c = false
ends_with (b ∷ []) c = b == c
ends_with (b ∷ x ∷ s) c = ends_with (x ∷ s) c

-- `rfind`: the last index of a byte.
unfoldable pub rfind : ℕ → Bytes → Option ℕ
rfind c [] = none
rfind c (b ∷ s) = elim (rfind c s) [
  | none ↦ if b == c then some 0 else none
  | some i ↦ some (suc i)
]

unfoldable pub last_slash_can_be_removed : Bytes → ℕ → Bool → Bool
unfolding rfind path_starts_with_windows_drive_letter
last_slash_can_be_removed serialization path_start is_file =
    elim (rfind b'/' (take (length serialization - 1) serialization)) [
      | none ↦ false
      | some before ↦
          leb path_start before
          && not (is_file && path_starts_with_windows_drive_letter (drop before serialization))
    ]

-- After a path was shortened, the next segment starts behind a slash.
unfoldable pub ensure_path_segment_boundary : Bytes → ℕ → Bytes → Bool → Bytes
unfolding is_empty ends_with peek_char
ensure_path_segment_boundary serialization path_start input special_or_nonempty_ok =
    if is_empty input && not special_or_nonempty_ok
    then serialization
    else if length serialization == path_start
    then if special_or_nonempty_ok || not (is_empty input)
      then serialization ++ b'/' ∷ []
      else serialization
    else if not (is_empty input)
        && not (ends_with serialization b'/')
        && not (is_char (λ c. c == b'/') (peek_char input))
    then serialization ++ b'/' ∷ []
    else serialization
