-- ===== src/Host/Ipv6/Bounds.antt =====
-- The loop over the groups of an IPv6 address (src/parser/host.rs) keeps the eight pieces in order.
use sorug.Host.Ipv6.{
  Parsing, Round, failed, panics, ended, again, to_digit, hex_group, write_at, store, go_on,
  compress, after_group, group_round, groups_loop,
}
use sorug.Host.Ipv6.Fuel.{Shorter, group_round-Shorter}
use sorug.Parser.Result.{Result, ok, err, panicked, failure, Holds, Holds-bind}
use sorug.Common.{
  ℕ, zero, suc, ◌+◌, ◌*◌, ◌%◌, ◌^◌, ◌≤◌, ◌<◌, Bool, true, List, [], ◌∷◌, Option, none, some, Bytes,
  All, length, get_or, set, length-set, ltb, ◌==◌, Bool-cases, inl, inr, ◌≡◌, ◌∙◌, arith,
}

abbrev pub IsPiece : ℕ → Type 0
IsPiece v = v < 2 ^ 16

-- Eight pieces of 16 bits.
abbrev pub IsAddress : List ℕ → Type 0
IsAddress pieces = (length pieces ≡ 8) × All IsPiece pieces

All-set : (xs : List ℕ) (i v : ℕ) → All IsPiece xs → IsPiece v → All IsPiece (set xs i v)
All-set [] i v h hv = tt
All-set (x ∷ xs) zero v (hx, h) hv = (hv, h)
All-set (x ∷ xs) (suc i) v (hx, h) hv = (hx, All-set xs i v h hv)

pub get_or-IsPiece : (xs : List ℕ) (i : ℕ) → All IsPiece xs → IsPiece (get_or xs i 0)
get_or-IsPiece [] i h = omega arith
get_or-IsPiece (x ∷ xs) zero (hx, h) = hx
get_or-IsPiece (x ∷ xs) (suc i) (hx, h) = get_or-IsPiece xs i h

pub set-IsAddress : (xs : List ℕ) (i v : ℕ) → IsAddress xs → IsPiece v → IsAddress (set xs i v)
set-IsAddress xs i v (size, h) hv = (length-set xs i v ∙ size, All-set xs i v h hv)

hex_group-IsPiece :
    (k : ℕ) (s : Bytes) (value : ℕ) → IsPiece value → IsPiece (hex_group k s value).0
unfolding hex_group
hex_group-IsPiece zero s value h = h
hex_group-IsPiece (suc k) [] value h = h
hex_group-IsPiece (suc k) (c ∷ s) value h =
    go (to_digit c) (λ v. hex_group-IsPiece k s (v % 2 ^ 16) (omega arith))
  where
    go :
        (o : Option ℕ)
        → ((v : ℕ) → IsPiece (hex_group k s (v % 2 ^ 16)).0)
        → IsPiece
            (elim o as (λ x. ℕ × Bytes) [
              | none ↦ (value, c ∷ s)
              | some digit ↦ hex_group k s ((value * 0x10 + digit) % 2 ^ 16)
            ]).0
    go none more = h
    go (some digit) more = more (value * 0x10 + digit)

pub write_at-IsAddress :
    (xs : List ℕ) (i v : ℕ) → IsAddress xs → i < 8 → IsPiece v → Holds IsAddress (write_at xs i v)
write_at-IsAddress xs i v h lt hv =
    let inside : ltb i (length xs) ≡ true = ground (arith, h.0) in
    rw (inside, Holds) (set-IsAddress xs i v h hv)

-- The piece behind `::`, if there is one, stands behind the first.
abbrev pub Compressed : Option ℕ → ℕ → Type 0
Compressed none pointer = Unit
Compressed (some start) pointer = (1 ≤ start) × (start ≤ pointer)

pub Compressed-more : (o : Option ℕ) (n m : ℕ) → n ≤ m → Compressed o n → Compressed o m
Compressed-more none n m le h = tt
Compressed-more (some start) n m le (lo, hi) = (lo, omega arith)

abbrev pub Sound : Parsing → Type 0
Sound p = IsAddress p.pieces × (p.piece_pointer ≤ 8) × Compressed p.compress_pointer p.piece_pointer

store-Sound :
    (p : Parsing) (v : ℕ) → Sound p → p.piece_pointer < 8 → IsPiece v → Holds Sound (store p v)
store-Sound p v (h, _, c) lt hv =
    Holds-bind IsAddress Sound (write_at p.pieces p.piece_pointer v) _
      (write_at-IsAddress p.pieces p.piece_pointer v h lt hv)
      (λ pieces k. (
        k,
        omega (arith, lt),
        Compressed-more p.compress_pointer p.piece_pointer (p.piece_pointer + 1) (omega arith) c,
      ))

-- A round does not panic, and what it goes on with is sound.
abbrev Kept : Round → Type 0
Kept failed = Unit
Kept panics = ⊥
Kept (ended p s ip_v4) = Sound p
Kept (again p s) = Sound p

go_on-Kept : (r : Result Parsing) (s : Bytes) → Holds Sound r → Kept (go_on r s)
go_on-Kept (ok p) s h = h
go_on-Kept (err e) s h = tt
go_on-Kept panicked s h = h

after_group-Kept :
    (p : Parsing) (start : Bytes) (value : ℕ) (rest : Bytes)
    → Sound p
    → p.piece_pointer < 8
    → IsPiece value
    → Kept (after_group p start value rest)
unfolding after_group
after_group-Kept p start value [] h lt hv =
    go_on-Kept (store p value) [] (store-Sound p value h lt hv)
after_group-Kept p start value (x ∷ rest) h lt hv =
    let stored = go_on-Kept (store p value) rest (store-Sound p value h lt hv) in
    ground (arith, stored)

compress-Kept :
    (o : Option ℕ) (p : Parsing) (s : Bytes) → Sound p → p.piece_pointer < 8 → Kept (compress o p s)
compress-Kept none p s h lt = (h.0, omega (arith, lt), (omega arith, omega arith))
compress-Kept (some i) p s h lt = tt

group_round-Kept : (p : Parsing) (s : Bytes) → Sound p → Kept (group_round p s)
unfolding group_round
group_round-Kept p [] h = h
group_round-Kept p (c ∷ s) h = elim (Bool-cases (p.piece_pointer == 8)) [
  | inl e ↦ rw (e, Kept) tt
  | inr e ↦
      let lt : p.piece_pointer < 8 = ground (arith, h.1) in
      elim (Bool-cases (c == b':')) [
        | inl f ↦ rw (e, f) (compress-Kept p.compress_pointer p s h lt)
        | inr f ↦
            rw (e, f)
              (after_group-Kept p (c ∷ s) (hex_group 4 (c ∷ s) 0).0 (hex_group 4 (c ∷ s) 0).1 h lt
                (hex_group-IsPiece 4 (c ∷ s) 0 (omega arith)))
      ]
]

abbrev pub OkGroups : Parsing × Bytes × Bool → Type 0
OkGroups (p, s, ip_v4) = Sound p

pub groups_loop-OkGroups :
    (fuel : ℕ) (p : Parsing) (s : Bytes)
    → length s < fuel
    → Sound p
    → Holds OkGroups (groups_loop fuel p s)
unfolding groups_loop
groups_loop-OkGroups zero p s lt h = absurd (omega arith)
groups_loop-OkGroups (suc fuel) p s lt h =
    go (group_round p s) (group_round-Kept p s h) (group_round-Shorter p s)
      (λ p' s' less. groups_loop-OkGroups fuel p' s' (omega (arith, lt, less)))
  where
    go :
        (o : Round)
        → Kept o
        → Shorter (length s) o
        → ((p' : Parsing) (s' : Bytes)
            → length s' < length s
            → Sound p'
            → Holds OkGroups (groups_loop fuel p' s'))
        → Holds OkGroups (elim o as (λ x. Result (Parsing × Bytes × Bool)) [
          | failed ↦ err failure
          | panics ↦ panicked
          | ended p' s' ip_v4 ↦ ok (p', s', ip_v4)
          | again p' s' ↦ groups_loop fuel p' s'
        ])
    go failed k less rec = tt
    go panics k less rec = k
    go (ended p' s' ip_v4) k less rec = k
    go (again p' s') k less rec = rec p' s' less k
