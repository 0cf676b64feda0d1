-- ===== src/Parser/Authority/HasHost.antt =====
-- The hosts of special schemes are not empty (`parse_host_and_port`, src/parser/mod.rs).
use sorug.Host.Opaque.{Host, domain, ipv4, ipv6}
use sorug.Host.Special.{Idna, AppendedHost}
use sorug.Parser.Authority.{is_empty_domain}
use sorug.Scan.Memchr.{Memchr}
use sorug.Common.{◌<◌, true, false, Bytes, length, ◌⊎◌, ◌≡◌}

abbrev HasText : Host → Type 0
HasText (domain d) = 0 < length d
HasText (ipv4 ip) = Unit
HasText (ipv6 pieces) = Unit

module _ (m : Memchr) (idna : Idna) where
  -- The kind of a host that was appended, and the text with it.
  abbrev Grown : Bytes → AppendedHost × Bytes → Type 0
  Grown out (k, o) = (is_empty_domain k ≡ false) × (length out < length o)

  -- What is appended is a host with text, or the host is empty.
  abbrev GrownOrEmpty : Bytes → AppendedHost × Bytes → Type 0
  GrownOrEmpty out r = Grown out r ⊎ (is_empty_domain r.0 ≡ true)
