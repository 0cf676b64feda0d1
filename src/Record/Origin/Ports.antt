-- ===== src/Record/Origin/Ports.antt =====
-- Origins of different ports are written differently (src/lib.rs, `Origin`).
use sorug.Port.{default_port, parse_port, itoa_buf}
use sorug.Port.RoundTrip.{parse_port-itoa_buf}
use sorug.Record.Origin.{tuple, is_port, serialized}
use sorug.Common.{
  ℕ, ◌^◌, ◌<◌, Bool, true, false, List, ◌∷◌, ◌++◌, append_assoc, Option, none, some, Bytes, codes,
  length, length-append, drop, drop-length-append, ◌≡◌, ◌≢◌, refl, sym, ap, ◌∙◌, Bool-cases, inl,
  inr, arith,
}

-- The port in what is parsed, if there is one.
abbrev port_of : Option (Option ℕ × List ℕ) → ℕ
port_of (some (some p, rest)) = p
port_of (some (none, rest)) = 0
port_of none = 0

itoa_buf-injective : (p q : ℕ) → p < 2 ^ 16 → q < 2 ^ 16 → itoa_buf p ≡ itoa_buf q → p ≡ q
itoa_buf-injective p q hp hq e =
    sym (ap port_of (parse_port-itoa_buf p none hp).0)
    ∙ ap (λ t. port_of (parse_port t none)) e
    ∙ ap port_of (parse_port-itoa_buf q none hq).0

is_port-injective : (d : Option ℕ) (p q : ℕ) → is_port d p ≡ true → is_port d q ≡ true → p ≡ q
is_port-injective none p q e f = ground arith
is_port-injective (some d) p q e f = ground arith

-- What stands before a port.
abbrev start_of : Bytes → Bytes → Bytes
start_of scheme host = scheme ++ codes "://" ++ host

abbrev written : Bytes → Bool → Bytes → Bytes
written start true digits = start
written start false digits = start ++ b':' ∷ digits

serialized-written :
    (scheme host : Bytes) (p : ℕ)
    → serialized (tuple scheme host p)
      ≡ written (start_of scheme host) (is_port (default_port scheme) p) (itoa_buf p)
unfolding serialized
serialized-written scheme host p = elim (Bool-cases (is_port (default_port scheme) p)) [
  | inl e ↦ rw e
  | inr e ↦ rw e (rw append_assoc)
]

longer_text : (s t : Bytes) (c : ℕ) → s ≢ s ++ c ∷ t
longer_text s t c e = omega (arith, ap length e, length-append s (c ∷ t))

same_digits : (start s t : Bytes) → start ++ b':' ∷ s ≡ start ++ b':' ∷ t → s ≡ t
same_digits start s t e = ap (drop 1) (
    sym (drop-length-append start (b':' ∷ s))
    ∙ ap (drop (length start)) e
    ∙ drop-length-append start (b':' ∷ t))

-- Two tuple origins of one scheme and host that are written the same have the same port: leaving out
-- the default port makes no two origins alike.
pub serialized-ports :
    (scheme host : Bytes) (p q : ℕ)
    → p < 2 ^ 16
    → q < 2 ^ 16
    → serialized (tuple scheme host p) ≡ serialized (tuple scheme host q)
    → p ≡ q
serialized-ports scheme host p q hp hq e =
    go (is_port d p) (is_port d q) refl refl
      (sym (serialized-written scheme host p) ∙ e ∙ serialized-written scheme host q)
  where
    d : Option ℕ
    d = default_port scheme

    start : Bytes
    start = start_of scheme host

    go :
        (b c : Bool)
        → is_port d p ≡ b
        → is_port d q ≡ c
        → written start b (itoa_buf p) ≡ written start c (itoa_buf q)
        → p ≡ q
    go true true x y same = is_port-injective d p q x y
    go true false x y same = absurd (longer_text start (itoa_buf q) b':' same)
    go false true x y same = absurd (longer_text start (itoa_buf p) b':' (sym same))
    go false false x y same =
        itoa_buf-injective p q hp hq (same_digits start (itoa_buf p) (itoa_buf q) same)
