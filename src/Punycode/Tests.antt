-- ===== src/Punycode/Tests.antt =====
-- Runs of the decoder of src/parser/punycode.rs, and its theorems at concrete inputs.
use sorug.Punycode.{
  Decoding, adapt_loop, base, tmin, tmax, byte_to_digit, digit_to_byte, decode_punycode,
  decode_rounds,
}
use sorug.Punycode.Chars.{decode_rounds-fuel}
use sorug.Punycode.Encoder.{encode_punycode}
use sorug.Punycode.Digits.{byte_to_digit-digit_to_byte, adapt_loop-bound}
use sorug.Common.{◌-◌, ◌*◌, ◌/◌, ◌≤◌, arith, ℕ, codes, some, none, ◌≡◌, refl}

decode_umlaut : decode_punycode (codes "mnchen-3ya") ≡ some (codes "münchen")
unfolding decode_punycode
decode_umlaut = refl

decode_bad_digit : decode_punycode (codes "a-!") ≡ none
unfolding decode_punycode
decode_bad_digit = refl

abbrev start : Decoding
start = record { output = codes "mnchen"; n = 0x80; i = 0; bias = 72 }

decode_rounds-fuel_example :
    decode_rounds 3 start (codes "3ya") ≡ decode_rounds 90 start (codes "3ya")
decode_rounds-fuel_example =
    decode_rounds-fuel 3 90 start (codes "3ya") (refl, (refl, (refl, (refl, (refl, (refl, tt))))))
      (omega arith) (omega arith)

byte_to_digit-digit_to_byte_example :
    (b : ℕ) × (digit_to_byte 30 ≡ some b) × (byte_to_digit b ≡ some 30)
byte_to_digit-digit_to_byte_example = byte_to_digit-digit_to_byte 30 (omega arith)

adapt_loop-bound_example : (adapt_loop 7 4000000000 0).0 ≤ (base - tmin) * tmax / 2
adapt_loop-bound_example = adapt_loop-bound 4000000000 0 (omega arith)

encode_umlaut : encode_punycode (codes "münchen") ≡ some (codes "mnchen-3ya")
unfolding encode_punycode
encode_umlaut = refl

encode_two : encode_punycode (codes "ÄbÖ") ≡ some (codes "b-5da9c")
unfolding encode_punycode
encode_two = refl
