-- ===== src/Percent/Tests.antt =====
-- Runs of src/parser/percent.rs, and its theorems at concrete inputs.
use sorug.Percent.Clean.{encode_twice, sets_Spare, encode_printable}
use sorug.Percent.Codec.{utf8_percent_encode, percent_decode, escape}
use sorug.Percent.Reference.{Decodes, percent_decode-Decodes}
use sorug.Percent.Decode.{percent_decode-utf8_percent_encode}
use sorug.Percent.Encode.{utf8_percent_encode-encoded}
use sorug.Percent.Sets.{in_path_encode_set, in_query_encode_set, in_path_segment_encode_set}
use sorug.Scan.Tests.{linear}
use sorug.Common.{◌≤◌, false, [], ◌∷◌, Bytes, All, are_bytes, codes, ◌≡◌, refl, arith}

encode_blank :
    utf8_percent_encode (codes "a b?c") in_path_encode_set (codes "/") ≡ codes "/a%20b%3Fc"
unfolding utf8_percent_encode in_path_encode_set
encode_blank = refl

decode_blank : percent_decode linear (codes "a%20b%3fc%4") ≡ codes "a b?c%4"
unfolding percent_decode
decode_blank = refl

abbrev segment : Bytes
segment = codes "a b?c"

utf8_percent_encode-encoded_example :
    utf8_percent_encode segment in_path_encode_set (codes "/") ≡ codes "/a%20b%3Fc"
unfolding in_path_encode_set escape
utf8_percent_encode-encoded_example =
    utf8_percent_encode-encoded segment in_path_encode_set (codes "/")

percent_decode-utf8_percent_encode_example :
    percent_decode linear (utf8_percent_encode (codes "50% é") in_path_segment_encode_set [])
    ≡ codes "50% é"
percent_decode-utf8_percent_encode_example =
    percent_decode-utf8_percent_encode linear in_path_segment_encode_set (codes "50% é")
      (unfold in_path_segment_encode_set in refl) (are_bytes (codes "50% é") refl)

encode_twice_example :
    All
      (λ b. in_query_encode_set b ≡ false)
      (utf8_percent_encode (codes "x y") in_query_encode_set [])
    × (utf8_percent_encode
          (utf8_percent_encode (codes "x y") in_query_encode_set [])
          in_query_encode_set
          []
        ≡ utf8_percent_encode (codes "x y") in_query_encode_set [])
encode_twice_example =
    encode_twice in_query_encode_set (codes "x y") sets_Spare.2 (are_bytes (codes "x y") refl)

encode_printable_example :
    All
      (λ b. (0x20 ≤ b) × (b ≤ 0x7e))
      (utf8_percent_encode (b'a' ∷ 7 ∷ 0xe9 ∷ []) in_path_encode_set [])
unfolding in_path_encode_set
encode_printable_example =
    encode_printable in_path_encode_set (b'a' ∷ 7 ∷ 0xe9 ∷ []) (λ b h. ground arith)
      (are_bytes (b'a' ∷ 7 ∷ 0xe9 ∷ []) refl)

percent_decode-Decodes_example : Decodes (codes "%4a%zz%2") (codes "J%zz%2")
unfolding percent_decode
percent_decode-Decodes_example = percent_decode-Decodes linear (codes "%4a%zz%2")
