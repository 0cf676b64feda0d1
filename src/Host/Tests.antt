-- ===== src/Host/Tests.antt =====
-- Runs of src/parser/host.rs, and its theorems at concrete inputs.
use sorug.Host.Ipv4.{ends_in_a_number, parse_ipv4, write_ipv4_to}
use sorug.Host.Ipv4.RoundTrip.{parse_ipv4-write_ipv4_to}
use sorug.Host.Ipv4.Sums.{Made, parse_ipv4-Made}
use sorug.Host.Ipv6.{Parsing, groups_loop, read_ipv6, parse_ipv6}
use sorug.Host.Ipv6.Bounds.{IsAddress}
use sorug.Host.Ipv6.NoPanic.{read_ipv6-IsAddress}
use sorug.Parser.Result.{Holds}
use sorug.Host.Ipv6.Fuel.{groups_loop-fuel}
use sorug.Host.Ipv6.Print.{longest_zero_sequence, write_ipv6_to}
use sorug.Host.Ipv6.Zeros.{ZeroRun, longest_zero_sequence-ZeroRun}
use sorug.Host.Opaque.{domain, parse_opaque_host, IsHostByte, parse_opaque_host-IsHostByte}
use sorug.Host.Ipv4.{split_on, drop_empty_last}
use sorug.Host.Special.{Idna, parse_host, append_host, appended_ipv4, display}
use sorug.Host.Special.Append.{append_host-parse_host}
use sorug.Scan.Tests.{linear}
use sorug.Common.{true, [], ◌∷◌, none, some, codes, ◌≡◌, refl, arith, All, are_bytes}

parse_loopback : parse_ipv4 (codes "0x7f.1") ≡ some 2130706433
unfolding parse_ipv4
parse_loopback = refl

parse_too_big : parse_ipv4 (codes "256.1.1.1") ≡ none
unfolding parse_ipv4
parse_too_big = refl

write_loopback : write_ipv4_to (codes "//") 2130706433 ≡ codes "//127.0.0.1"
unfolding write_ipv4_to
write_loopback = refl

number_ends : ends_in_a_number (codes "a.0x1f.") ≡ true
unfolding ends_in_a_number
number_ends = refl

parse_compressed :
    parse_ipv6 (codes "2001:db8::1") ≡ some (0x2001 ∷ 0xdb8 ∷ 0 ∷ 0 ∷ 0 ∷ 0 ∷ 0 ∷ 1 ∷ [])
unfolding parse_ipv6
parse_compressed = refl

parse_mapped :
    parse_ipv6 (codes "::ffff:1.2.3.4") ≡ some (0 ∷ 0 ∷ 0 ∷ 0 ∷ 0 ∷ 0xffff ∷ 0x102 ∷ 0x304 ∷ [])
unfolding parse_ipv6
parse_mapped = refl

parse_two_gaps : parse_ipv6 (codes "1::2::3") ≡ none
unfolding parse_ipv6
parse_two_gaps = refl

write_compressed :
    write_ipv6_to [] (0x2001 ∷ 0xdb8 ∷ 0 ∷ 0 ∷ 1 ∷ 0 ∷ 0 ∷ 1 ∷ []) ≡ codes "2001:db8::1:0:0:1"
unfolding write_ipv6_to
write_compressed = refl

write_unspecified : write_ipv6_to [] (0 ∷ 0 ∷ 0 ∷ 0 ∷ 0 ∷ 0 ∷ 0 ∷ 0 ∷ []) ≡ codes "::"
unfolding write_ipv6_to
write_unspecified = refl

-- The bytes of `é`, with a tab behind them, are encoded as two code points.
opaque_tab : parse_opaque_host (0xc3 ∷ 0xa9 ∷ b'\t' ∷ []) ≡ some (domain (codes "%C3%83%C2%A9"))
unfolding parse_opaque_host
opaque_tab = refl

parse_ipv4-write_ipv4_to_example :
    (parse_ipv4 (write_ipv4_to [] 3232235777) ≡ some 3232235777)
    × (ends_in_a_number (write_ipv4_to [] 3232235777) ≡ true)
parse_ipv4-write_ipv4_to_example = parse_ipv4-write_ipv4_to 3232235777 (omega arith)

loopback : parse_ipv4 (codes "127.1.") ≡ some 2130706433
unfolding parse_ipv4
loopback = refl

parse_ipv4-Made_example : Made (drop_empty_last (split_on b'.' (codes "127.1."))) 2130706433
parse_ipv4-Made_example = parse_ipv4-Made (codes "127.1.") 2130706433 loopback

read_ipv6-IsAddress_example : Holds IsAddress (read_ipv6 (codes "1::ffff:1.2.3.4"))
read_ipv6-IsAddress_example = read_ipv6-IsAddress (codes "1::ffff:1.2.3.4")

abbrev empty_parsing : Parsing
empty_parsing = record {
  pieces = 0 ∷ 0 ∷ 0 ∷ 0 ∷ 0 ∷ 0 ∷ 0 ∷ 0 ∷ [];
  piece_pointer = 0;
  compress_pointer = none;
}

groups_loop-fuel_example :
    groups_loop 12 empty_parsing (codes "2001:db8::1")
    ≡ groups_loop 40 empty_parsing (codes "2001:db8::1")
groups_loop-fuel_example =
    groups_loop-fuel 12 40 empty_parsing (codes "2001:db8::1") (omega arith) (omega arith)

longest_zero_sequence-ZeroRun_example :
    ZeroRun (0x2001 ∷ 0xdb8 ∷ 0 ∷ 0 ∷ 1 ∷ 0 ∷ 0 ∷ 0 ∷ []) (some (5, 8))
unfolding longest_zero_sequence
longest_zero_sequence-ZeroRun_example =
    longest_zero_sequence-ZeroRun (0x2001 ∷ 0xdb8 ∷ 0 ∷ 0 ∷ 1 ∷ 0 ∷ 0 ∷ 0 ∷ [])

opaque_name : parse_opaque_host (codes "ex~mple") ≡ some (domain (codes "ex~mple"))
unfolding parse_opaque_host
opaque_name = refl

parse_opaque_host-IsHostByte_example : All IsHostByte (codes "ex~mple")
parse_opaque_host-IsHostByte_example =
    parse_opaque_host-IsHostByte (codes "ex~mple") (codes "ex~mple")
      (are_bytes (codes "ex~mple") refl) opaque_name

-- Every domain that is not ASCII is refused.
abbrev ascii_only : Idna
ascii_only = record { to_ascii_into = λ s. none; from_utf8 = λ s. true }

append_host-parse_host_example :
    append_host linear ascii_only (codes "0x7F.1") (codes "//")
    ≡ some (appended_ipv4, codes "//127.0.0.1")
unfolding parse_host display
append_host-parse_host_example =
    append_host-parse_host linear ascii_only (codes "0x7F.1") (codes "//")
