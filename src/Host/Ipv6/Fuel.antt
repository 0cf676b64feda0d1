-- ===== src/Host/Ipv6/Fuel.antt =====
-- The loops of the IPv6 parser of src/parser/host.rs end: each round takes a byte at least.
use sorug.Host.Ipv6.{
  Parsing, Round, failed, panics, ended, again, store, go_on, to_digit, hex_group, compress,
  after_group, group_round, groups_loop,
}
use sorug.Parser.Result.{Result, ok, err, panicked, failure}
use sorug.Common.{
  ℕ, zero, suc, ◌+◌, ◌*◌, ◌%◌, ◌^◌, ◌≤◌, ◌<◌, Bool, [], ◌∷◌, Option, none, some, Bytes, length, ◌≡◌,
  refl, arith,
}

hex_group-length : (k : ℕ) (s : Bytes) (value : ℕ) → length (hex_group k s value).1 ≤ length s
unfolding hex_group
hex_group-length zero s value = omega arith
hex_group-length (suc k) [] value = omega arith
hex_group-length (suc k) (c ∷ s) value = go (to_digit c) (λ v. hex_group-length k s (v % 2 ^ 16))
  where
    go :
        (o : Option ℕ)
        → ((v : ℕ) → length (hex_group k s (v % 2 ^ 16)).1 ≤ length s)
        → length
            (elim o as (λ x. ℕ × Bytes) [
              | none ↦ (value, c ∷ s)
              | some digit ↦ hex_group k s ((value * 0x10 + digit) % 2 ^ 16)
            ]).1
          ≤ suc (length s)
    go none more = omega arith
    go (some digit) more = omega (arith, more (value * 0x10 + digit))

-- The next round's text is shorter than `n` bytes.
abbrev pub Shorter : ℕ → Round → Type 0
Shorter n (again p s) = length s < n
Shorter n (ended p s ip_v4) = Unit
Shorter n failed = Unit
Shorter n panics = Unit

go_on-Shorter : (r : Result Parsing) (s : Bytes) (n : ℕ) → length s < n → Shorter n (go_on r s)
go_on-Shorter (ok p) s n lt = lt
go_on-Shorter (err e) s n lt = tt
go_on-Shorter panicked s n lt = tt

after_group-Shorter :
    (p : Parsing) (c : ℕ) (s : Bytes) (value : ℕ) (rest : Bytes)
    → length rest ≤ suc (length s)
    → Shorter (suc (length s)) (after_group p (c ∷ s) value rest)
unfolding after_group
after_group-Shorter p c s value [] h =
    go_on-Shorter (store p value) [] (suc (length s)) (omega arith)
after_group-Shorter p c s value (x ∷ rest) h =
    ground (arith, go_on-Shorter (store p value) rest (suc (length s)) (omega arith))

compress-Shorter :
    (o : Option ℕ) (p : Parsing) (s : Bytes) → Shorter (suc (length s)) (compress o p s)
compress-Shorter none p s = omega arith
compress-Shorter (some i) p s = tt

pub group_round-Shorter : (p : Parsing) (s : Bytes) → Shorter (length s) (group_round p s)
unfolding group_round
group_round-Shorter p [] = tt
group_round-Shorter p (c ∷ s) =
    let (value, rest) = hex_group 4 (c ∷ s) 0 in
    ground (
      arith,
      after_group-Shorter p c s value rest (hex_group-length 4 (c ∷ s) 0),
      compress-Shorter p.compress_pointer p s,
    )

-- A text that is shorter than the fuel is read to its end: more fuel gives the same result.
pub groups_loop-fuel :
    (fuel more : ℕ) (p : Parsing) (s : Bytes)
    → length s < fuel
    → length s < more
    → groups_loop fuel p s ≡ groups_loop more p s
unfolding groups_loop
groups_loop-fuel zero more p s lt lt' = absurd (omega arith)
groups_loop-fuel (suc fuel) zero p s lt lt' = absurd (omega arith)
groups_loop-fuel (suc fuel) (suc more) p s lt lt' =
    go (group_round p s) (group_round-Shorter p s)
      (λ p' s' h. groups_loop-fuel fuel more p' s' (omega arith) (omega arith))
  where
    go :
        (o : Round)
        → Shorter (length s) o
        → ((p' : Parsing) (s' : Bytes)
            → length s' < length s
            → groups_loop fuel p' s' ≡ groups_loop more p' s')
        → (elim o as (λ x. Result (Parsing × Bytes × Bool)) [
          | failed ↦ err failure
          | panics ↦ panicked
          | ended p' s' ip_v4 ↦ ok (p', s', ip_v4)
          | again p' s' ↦ groups_loop fuel p' s'
        ])
          ≡ (elim o as (λ x. Result (Parsing × Bytes × Bool)) [
            | failed ↦ err failure
            | panics ↦ panicked
            | ended p' s' ip_v4 ↦ ok (p', s', ip_v4)
            | again p' s' ↦ groups_loop more p' s'
          ])
    go failed h rec = refl
    go panics h rec = refl
    go (ended p' s' ip_v4) h rec = refl
    go (again p' s') h rec = rec p' s' h
