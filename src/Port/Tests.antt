-- ===== src/Port/Tests.antt =====
-- Runs of the ports of src/parser/mod.rs, and their theorems at concrete inputs.
use sorug.Port.{
  scheme_type, special_not_file, default_port, parse_port, parse_port_setter, itoa_buf,
}
use sorug.Port.RoundTrip.{parse_port-itoa_buf}
use sorug.Common.{[], none, some, codes, ◌≡◌, refl, arith}

wss_is_special : scheme_type (codes "wss") ≡ special_not_file
unfolding scheme_type
wss_is_special = refl

parse_default :
    parse_port (codes "4\t43/a") (default_port (codes "https")) ≡ some (none, codes "/a")
unfolding parse_port default_port
parse_default = refl

parse_above : parse_port (codes "65536") none ≡ none
unfolding parse_port
parse_above = refl

write_port : itoa_buf 8080 ≡ codes "8080"
unfolding itoa_buf
write_port = refl

parse_port-itoa_buf_example :
    (parse_port (itoa_buf 8080) (some 80) ≡ some (some 8080, []))
    × (parse_port_setter (itoa_buf 8080) (some 80) ≡ some (some 8080, []))
parse_port-itoa_buf_example = parse_port-itoa_buf 8080 (some 80) (omega arith)
