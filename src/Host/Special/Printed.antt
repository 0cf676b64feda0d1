-- ===== src/Host/Special/Printed.antt =====
-- The two printers of an address in src/parser/host.rs write the same text: `Display`, and the
-- functions that append to the serialization.
use sorug.Host.Ipv4.{octet_digits, write_ipv4_to, decimal, ipv4_text}
use sorug.Host.Ipv4.RoundTrip.{write_ipv4_to-dotted}
use sorug.Host.Ipv6.Print.{
  longest_zero_sequence, lower_hex, starts_run, write_piece, write_loop, write_ipv6_to,
  display_piece, display_loop, write_ipv6,
}
use sorug.Host.Opaque.{ipv4, ipv6}
use sorug.Host.Special.{display}
use sorug.Common.{
  ℕ, get_or, zero, suc, ◌+◌, ◌/◌, ◌%◌, ◌^◌, ◌<◌, true, List, [], ◌∷◌, ◌++◌, append_assoc,
  append-nil, Option, Bytes, bytes_eq, bytes_eq_iff, all_below, all_below_sound, ltb, ◌==◌,
  if◌then◌else◌, Bool-cases, Option-cases, inl, inr, ◌≡◌, refl, sym, ap, ◌∙◌, arith,
}

decimals : all_below 256 (λ o. bytes_eq (decimal 3 o) (octet_digits o)) ≡ true
unfolding all_below decimal octet_digits bytes_eq
decimals = refl

decimal-octet_digits : (o : ℕ) → o < 256 → decimal 3 o ≡ octet_digits o
decimal-octet_digits o lt =
    (bytes_eq_iff (decimal 3 o) (octet_digits o)).0
      (all_below_sound 256 (λ x. bytes_eq (decimal 3 x) (octet_digits x)) o decimals lt)

-- An IPv4 address is displayed as it is written to the serialization.
pub display_ipv4 : (out : Bytes) (ip : ℕ) → display out (ipv4 ip) ≡ write_ipv4_to out ip
unfolding display ipv4_text
display_ipv4 out ip =
    rw
      (
        decimal-octet_digits (ip / 2 ^ 24 % 256) (omega arith),
        decimal-octet_digits (ip / 2 ^ 16 % 256) (omega arith),
        decimal-octet_digits (ip / 2 ^ 8 % 256) (omega arith),
        decimal-octet_digits (ip % 256) (omega arith),
      )
      (sym (write_ipv4_to-dotted out ip))

write_piece-display_piece :
    (segments : List ℕ) (i : ℕ) (out : Bytes)
    → write_piece segments i out ≡ out ++ display_piece segments i
unfolding write_piece display_piece
write_piece-display_piece segments i out = elim (Bool-cases (ltb i 7)) [
  | inl e ↦ rw e (append_assoc out (lower_hex (get_or segments i 0)) (b':' ∷ []))
  | inr e ↦ rw e (ap (λ t. out ++ t) (sym (append-nil (lower_hex (get_or segments i 0)))))
]

module _ (fuel : ℕ) (segments : List ℕ) (run : Option (ℕ × ℕ)) where
  -- The loops agree for this fuel.
  abbrev Agrees : Type 0
  Agrees =
      (i : ℕ) (out : Bytes)
      → write_loop fuel segments run i out ≡ out ++ display_loop fuel segments run i

  after_piece :
      (i : ℕ) (out : Bytes)
      → Agrees
      → write_loop fuel segments run (i + 1) (write_piece segments i out)
        ≡ out ++ (display_piece segments i ++ display_loop fuel segments run (i + 1))
  after_piece i out rec =
      rec (i + 1) (write_piece segments i out)
      ∙ ap (λ t. t ++ display_loop fuel segments run (i + 1))
          (write_piece-display_piece segments i out)
      ∙ append_assoc out (display_piece segments i) (display_loop fuel segments run (i + 1))

  -- Behind the colons of a run that ends at `end`.
  after_run :
      (end : ℕ) (out : Bytes)
      → Agrees
      → (if ltb end 8
          then write_loop fuel segments run (end + 1) (write_piece segments end out)
          else out)
        ≡ out
          ++ (if ltb end 8
              then display_piece segments end ++ display_loop fuel segments run (end + 1)
              else [])
  after_run end out rec = elim (Bool-cases (ltb end 8)) [
    | inl e ↦ rw e (after_piece end out rec)
    | inr e ↦ rw e (sym (append-nil out))
  ]

  colons : ℕ → Bytes
  colons i = (b':' ∷ []) ++ (if i == 0 then b':' ∷ [] else [])

  colons_lem :
      (i : ℕ) (out : Bytes)
      → (if i == 0 then (out ++ b':' ∷ []) ++ b':' ∷ [] else out ++ b':' ∷ []) ≡ out ++ colons i
  unfolding colons
  colons_lem i out = elim (Bool-cases (i == 0)) [
    | inl e ↦ rw e (append_assoc out (b':' ∷ []) (b':' ∷ []))
    | inr e ↦ rw e refl
  ]

write_loop-display_loop :
    (fuel : ℕ) (segments : List ℕ) (run : Option (ℕ × ℕ)) (i : ℕ) (out : Bytes)
    → write_loop fuel segments run i out ≡ out ++ display_loop fuel segments run i
unfolding write_loop display_loop
write_loop-display_loop zero segments run i out = sym (append-nil out)
write_loop-display_loop (suc fuel) segments run i out = elim (Bool-cases (ltb i 8)) [
  | inr e ↦ rw e (sym (append-nil out))
  | inl e ↦ elim (Option-cases (starts_run i run)) [
    | inl f ↦
        rw (e, f) (after_piece fuel segments run i out (write_loop-display_loop fuel segments run))
    | inr (end, f) ↦
        rw (e, f, colons_lem fuel segments run i out)
          (after_run fuel segments run end (out ++ colons fuel segments run i)
              (write_loop-display_loop fuel segments run)
            ∙ append_assoc out (colons fuel segments run i) (
                if ltb end 8
                then display_piece segments end ++ display_loop fuel segments run (end + 1)
                else [])
            ∙ ap (λ t. out ++ t) (unfold colons in refl))
  ]
]

-- An IPv6 address is displayed as it is written to the serialization, in its brackets.
pub display_ipv6 :
    (out : Bytes) (pieces : List ℕ)
    → display out (ipv6 pieces) ≡ write_ipv6_to (out ++ b'[' ∷ []) pieces ++ b']' ∷ []
unfolding display write_ipv6 write_ipv6_to
display_ipv6 out pieces = sym (
    ap (λ t. t ++ b']' ∷ [])
      (write_loop-display_loop 8 pieces (longest_zero_sequence pieces) 0 (out ++ b'[' ∷ []))
    ∙ ap (λ t. t ++ b']' ∷ []) (append_assoc out (b'[' ∷ []) _)
    ∙ append_assoc out (b'[' ∷ write_ipv6 pieces) (b']' ∷ []))
