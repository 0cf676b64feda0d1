-- ===== src/Percent/Sets.antt =====
-- src/parser/percent.rs, the percent-encode sets of the URL standard, as tests on a byte.
use sorug.Common.{ℕ, Bool, ◌||◌, leb, ltb, ◌==◌}

unfoldable pub is_c0_control_or_space : ℕ → Bool
is_c0_control_or_space c = leb c 0x20

unfoldable pub in_c0_encode_set : ℕ → Bool
in_c0_encode_set c = leb c 0x1f || ltb 0x7e c

unfoldable pub in_fragment_encode_set : ℕ → Bool
unfolding in_c0_encode_set
in_fragment_encode_set c =
    in_c0_encode_set c || (c == b' ' || c == b'"' || c == b'<' || c == b'>' || c == b'`')

unfoldable pub in_query_encode_set : ℕ → Bool
unfolding in_c0_encode_set
in_query_encode_set c =
    in_c0_encode_set c || (c == b' ' || c == b'"' || c == b'#' || c == b'<' || c == b'>')

unfoldable pub in_special_query_encode_set : ℕ → Bool
unfolding in_query_encode_set
in_special_query_encode_set c = in_query_encode_set c || c == b'\''

unfoldable pub in_path_encode_set : ℕ → Bool
unfolding in_query_encode_set
in_path_encode_set c =
    in_query_encode_set c || (c == b'?' || c == b'^' || c == b'`' || c == b'{' || c == b'}')

unfoldable pub in_userinfo_encode_set : ℕ → Bool
unfolding in_path_encode_set
in_userinfo_encode_set c =
    in_path_encode_set c
    || (c == b'/'
        || c == b':'
        || c == b';'
        || c == b'='
        || c == b'@'
        || c == b'['
        || c == b'\\'
        || c == b']'
        || c == b'|')

unfoldable pub in_path_segment_encode_set : ℕ → Bool
unfolding in_path_encode_set
in_path_segment_encode_set c = in_path_encode_set c || c == b'/' || c == b'%'

unfoldable pub in_special_path_segment_encode_set : ℕ → Bool
unfolding in_path_segment_encode_set
in_special_path_segment_encode_set c = in_path_segment_encode_set c || c == b'\\'
