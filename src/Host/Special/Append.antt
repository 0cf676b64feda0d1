-- ===== src/Host/Special/Append.antt =====
-- Writing a host at once (`append_host`, src/parser/host.rs) gives what parsing and printing it gives.
use sorug.Host.Ipv4.{ends_in_a_number, parse_ipv4}
use sorug.Host.Ipv6.{parse_ipv6}
use sorug.Host.Opaque.{Host, domain, ipv4, ipv6, without_bracket}
use sorug.Host.Special.{
  Idna, is_ascii_uppercase, lower, lowercase_ascii, contains_forbidden_domain_code_point, is_ascii,
  AppendedHost, appended_domain, appended_ipv4, appended_ipv6, display, to_ascii, check_written,
  checked, to_ascii_append_validated, as_ipv4, ascii_host, domain_or_ipv4, bracketed, decoded_host,
  parse_host, append_ipv4, after_append, append_domain_or_ipv4, append_bracketed, append_decoded,
  append_host,
}
use sorug.Host.Special.Printed.{display_ipv4, display_ipv6}
use sorug.Percent.Codec.{percent_decode}
use sorug.Scan.Memchr.{Memchr}
use sorug.Common.{
  ℕ, suc, false, not, ◌||◌, [], ◌∷◌, ◌++◌, map, Option, none, some, Bytes, length, any, all,
  drop-length-append, ◌==◌, if◌then◌else◌, Bool-cases, Option-cases, inl, inr, ◌≡◌, refl, sym, ap,
  arith,
}

-- The kind of a host, and its text behind `out`.
abbrev pub kind : Host → AppendedHost
kind (domain d) = appended_domain
kind (ipv4 ip) = appended_ipv4
kind (ipv6 pieces) = appended_ipv6

abbrev pub printed : Bytes → Option Host → Option (AppendedHost × Bytes)
printed out none = none
printed out (some h) = some (kind h, display out h)

none_upper : (s : Bytes) → all (λ b. not (is_ascii_uppercase b)) s ≡ not (any is_ascii_uppercase s)
none_upper [] = refl
none_upper (b ∷ s) = ground (arith, none_upper s)

abbrev behind : Bytes → Option Bytes → Option Bytes
behind out none = none
behind out (some written) = some (out ++ written)

not_empty : (n : ℕ) → (suc n == 0) ≡ false
not_empty n = ground arith

module _ (m : Memchr) (idna : Idna) where
  check_written-checked :
      (out written : Bytes)
      → check_written m idna (out ++ written) (length out) ≡ behind out (checked m idna written)
  check_written-checked out written =
      rw (drop-length-append out written)
        (elim (Bool-cases (length written == 0 || contains_forbidden_domain_code_point written)) [
          | inl e ↦ rw e refl
          | inr e ↦ rw e refl
        ])

  to_ascii_append_validated-to_ascii :
      (s out : Bytes) → to_ascii_append_validated m idna s out ≡ behind out (to_ascii m idna s)
  unfolding to_ascii_append_validated to_ascii lowercase_ascii
  to_ascii_append_validated-to_ascii [] out = refl
  to_ascii_append_validated-to_ascii (c ∷ s) out = elim (Bool-cases (is_ascii (c ∷ s))) [
    | inl e ↦ elim (Bool-cases (any is_ascii_uppercase (c ∷ s))) [
      | inl f ↦ rw (e, none_upper (c ∷ s), f) (forbidden (map lower (c ∷ s)))
      | inr f ↦ rw (e, none_upper (c ∷ s), f) (forbidden (c ∷ s))
    ]
    | inr e ↦ elim (Option-cases (idna.to_ascii_into (c ∷ s))) [
      | inl f ↦ rw (e, f) refl
      | inr (w, f) ↦ rw (e, f) (check_written-checked out w)
    ]
  ]
    where
      forbidden :
          (w : Bytes)
          → (if contains_forbidden_domain_code_point w then none else some (out ++ w))
            ≡ behind out (if contains_forbidden_domain_code_point w then none else some w)
      forbidden w = elim (Bool-cases (contains_forbidden_domain_code_point w)) [
        | inl e ↦ rw e refl
        | inr e ↦ rw e refl
      ]

  after_append-printed :
      (w out : Bytes) → after_append m idna out (out ++ w) ≡ printed out (ascii_host m idna w)
  unfolding display
  after_append-printed [] out = rw (drop-length-append out []) refl
  after_append-printed (b ∷ w) out =
      rw (drop-length-append out (b ∷ w), not_empty (length w))
        (elim (Bool-cases (ends_in_a_number (b ∷ w))) [
          | inl e ↦ rw e (address (parse_ipv4 (b ∷ w)))
          | inr e ↦ rw e refl
        ])
    where
      address : (o : Option ℕ) → append_ipv4 m idna out o ≡ printed out (as_ipv4 m idna o)
      address none = refl
      address (some ip) = ap (λ t. some (appended_ipv4, t)) (sym (display_ipv4 out ip))

  append_domain_or_ipv4-printed :
      (decoded out : Bytes)
      → append_domain_or_ipv4 m idna decoded out ≡ printed out (domain_or_ipv4 m idna decoded)
  unfolding append_domain_or_ipv4 domain_or_ipv4
  append_domain_or_ipv4-printed decoded out =
      rw (to_ascii_append_validated-to_ascii decoded out, append_domain_or_ipv4)
        (go (to_ascii m idna decoded))
    where
      go :
          (o : Option Bytes)
          → (elim (behind out o) as (λ x. Option (AppendedHost × Bytes)) [
            | none ↦ none
            | some written ↦ after_append m idna out written
          ])
            ≡ printed out (elim o as (λ x. Option Host) [
              | none ↦ none
              | some ascii ↦ ascii_host m idna ascii
            ])
      go none = refl
      go (some w) = after_append-printed w out

  decoded-printed :
      (decoded out : Bytes)
      → append_decoded m idna decoded out ≡ printed out (decoded_host m idna decoded)
  decoded-printed decoded out = elim (Bool-cases (idna.from_utf8 decoded)) [
    | inl e ↦ rw e (append_domain_or_ipv4-printed decoded out)
    | inr e ↦ rw e refl
  ]

  bracketed-printed :
      (inner out : Bytes) → append_bracketed m idna inner out ≡ printed out (bracketed m idna inner)
  bracketed-printed inner out = elim (Option-cases (without_bracket inner)) [
    | inl e ↦ rw (e, append_bracketed, bracketed) refl
    | inr (address, e) ↦
        rw (e, append_bracketed, bracketed)
          (elim (Option-cases (parse_ipv6 address)) [
            | inl f ↦ rw f refl
            | inr (pieces, f) ↦
                rw f (ap (λ t. some (appended_ipv6, t)) (sym (display_ipv6 out pieces)))
          ])
  ]

  -- Writing the host of a special scheme at once fails exactly where parsing it fails, and else
  -- appends the text of the host that the parser makes, and tells its kind. The IDNA mapping and the
  -- UTF-8 test are arbitrary.
  pub append_host-parse_host :
      (input out : Bytes) → append_host m idna input out ≡ printed out (parse_host m idna input)
  unfolding append_host parse_host
  append_host-parse_host [] out = decoded-printed (percent_decode m []) out
  append_host-parse_host (c ∷ s) out = elim (Bool-cases (c == b'[')) [
    | inl e ↦ rw e (bracketed-printed s out)
    | inr e ↦ rw e (decoded-printed (percent_decode m (c ∷ s)) out)
  ]
