-- ===== src/Host/Ipv6/NoPanic.antt =====
-- The IPv6 parser of src/parser/host.rs indexes its eight pieces inside their bounds, behind the
-- groups too: the IPv4 part, and the swaps that expand `::`.
use sorug.Host.Ipv6.{
  Parsing, write_at, groups_loop, more_digit, ipv4_digits, skip_dot, after_octet, store_octet,
  push_octet, ipv4_round, ipv4_loop, swap, decrement, swap_pieces, expand, finish_groups,
  parse_groups, zeros, read_ipv6,
}
use sorug.Host.Ipv6.Bounds.{
  IsAddress, Sound, OkGroups, Compressed, Compressed-more, get_or-IsPiece, set-IsAddress,
  write_at-IsAddress, groups_loop-OkGroups,
}
use sorug.Parser.Result.{or_failure, Holds, Holds-bind, Holds-map}
use sorug.Common.{
  OnSome, OnSome-bind, OnSome-all, ℕ, zero, suc, ◌+◌, ◌-◌, ◌*◌, ◌/◌, ◌%◌, ◌^◌, ◌≤◌, ◌<◌, Bool, true,
  false, ◌&&◌, List, [], ◌∷◌, Option, none, some, Bytes, length, get_or, set, ltb, within, ◌==◌,
  Bool-cases, inl, inr, ◌≡◌, refl, arith,
}

-- What is unread behind a number, of which there is a digit.
abbrev Eaten : ℕ → Option ℕ × Bytes → Type 0
Eaten n (none, rest) = Unit
Eaten n (some v, rest) = length rest < n

ipv4_digits-length :
    (s : Bytes) (piece : Option ℕ) → OnSome (λ r. length r.1 ≤ length s) (ipv4_digits s piece)
unfolding ipv4_digits
ipv4_digits-length [] piece = omega arith
ipv4_digits-length (c ∷ s) piece = elim (Bool-cases (within b'0' b'9' c)) [
  | inr e ↦ rw (e, OnSome, ipv4_digits) (omega arith)
  | inl e ↦ rw e (
      OnSome-bind (λ v. Unit) (λ r. length r.1 ≤ suc (length s)) (λ v. ipv4_digits s (some v))
        (more_digit piece (c - b'0')) (OnSome-all (more_digit piece (c - b'0')))
        (λ v _. longer (ipv4_digits s (some v)) (ipv4_digits-length s (some v))))
]
  where
    longer :
        (o : Option (Option ℕ × Bytes))
        → OnSome (λ r. length r.1 ≤ length s) o
        → OnSome (λ r. length r.1 ≤ suc (length s)) o
    longer none h = tt
    longer (some r) h = omega (arith, h)

ipv4_digits-Eaten : (s : Bytes) → OnSome (Eaten (length s)) (ipv4_digits s none)
unfolding ipv4_digits
ipv4_digits-Eaten [] = tt
ipv4_digits-Eaten (c ∷ s) = elim (Bool-cases (within b'0' b'9' c)) [
  | inr e ↦ rw (e, OnSome, ipv4_digits) tt
  | inl e ↦ rw e (eaten (ipv4_digits s (some (c - b'0'))) (ipv4_digits-length s (some (c - b'0'))))
]
  where
    eaten :
        (o : Option (Option ℕ × Bytes))
        → OnSome (λ r. length r.1 ≤ length s) o
        → OnSome (Eaten (suc (length s))) o
    eaten none h = tt
    eaten (some (none, rest)) h = tt
    eaten (some (some v, rest)) h = omega (arith, h)

skip_dot-fits :
    (seen : ℕ) (c : ℕ) (s : Bytes)
    → Holds (λ s'. (seen ≤ 3) × (length s' ≤ suc (length s))) (or_failure (skip_dot seen (c ∷ s)))
unfolding skip_dot
skip_dot-fits seen c s = ground arith

-- The pointer of the IPv4 part moves on with every second number.
after_octet-bounds :
    (pointer seen : ℕ)
    → pointer ≤ 6 + seen / 2
    → seen ≤ 3
    → (pointer ≤ after_octet pointer (seen + 1))
      × (after_octet pointer (seen + 1) ≤ 6 + (seen + 1) / 2)
after_octet-bounds pointer seen h lt = ground arith

abbrev Stored : ℕ → Parsing → Type 0
Stored seen p = Sound p × (p.piece_pointer ≤ 6 + seen / 2)

store_octet-Stored :
    (p : Parsing) (seen v : ℕ)
    → Stored seen p
    → seen ≤ 3
    → Holds (Stored (seen + 1)) (store_octet p (seen + 1) v)
store_octet-Stored p seen v (h, at) lt =
    let (lo, hi) = after_octet-bounds p.piece_pointer seen at lt in
    Holds-bind IsAddress (Stored (seen + 1))
      (write_at p.pieces p.piece_pointer ((get_or p.pieces p.piece_pointer 0 * 0x100 + v) % 2 ^ 16))
      _
      (write_at-IsAddress p.pieces p.piece_pointer
        ((get_or p.pieces p.piece_pointer 0 * 0x100 + v) % 2 ^ 16) h.0 (omega (arith, at, lt))
        (omega arith))
      (λ pieces k. (
        (
          k,
          omega (arith, hi, lt),
          Compressed-more p.compress_pointer p.piece_pointer
              (after_octet p.piece_pointer (seen + 1)) lo h.2,
        ),
        hi,
      ))

abbrev Numbered : ℕ → ℕ → Parsing × Bytes → Type 0
Numbered seen n (p, rest) = Stored seen p × (length rest < n)

push_octet-Numbered :
    (p : Parsing) (seen n : ℕ) (o : Option (Option ℕ × Bytes))
    → Stored seen p
    → seen ≤ 3
    → OnSome (Eaten n) o
    → Holds (Numbered (seen + 1) n) (push_octet p seen o)
push_octet-Numbered p seen n none h lt e = tt
push_octet-Numbered p seen n (some (none, rest)) h lt e = tt
push_octet-Numbered p seen n (some (some v, rest)) h lt e =
    Holds-bind (Stored (seen + 1)) (Numbered (seen + 1) n) (store_octet p (seen + 1) v) _
      (store_octet-Stored p seen v h lt) (λ q k. (k, e))

ipv4_round-Numbered :
    (p : Parsing) (seen c : ℕ) (s : Bytes)
    → Stored seen p
    → Holds (Numbered (seen + 1) (suc (length s))) (ipv4_round p seen (c ∷ s))
unfolding ipv4_round
ipv4_round-Numbered p seen c s h =
    Holds-bind (λ s'. (seen ≤ 3) × (length s' ≤ suc (length s)))
      (Numbered (seen + 1) (suc (length s))) (or_failure (skip_dot seen (c ∷ s))) _
      (skip_dot-fits seen c s)
      (λ s' (lt, le).
        Holds-map (Numbered (seen + 1) (length s')) (Numbered (seen + 1) (suc (length s)))
          (push_octet p seen (ipv4_digits s' none)) (λ r k. (k.0, omega (arith, k.1, le)))
          (push_octet-Numbered p seen (length s') (ipv4_digits s' none) h lt
            (ipv4_digits-Eaten s')))

ipv4_loop-Sound :
    (fuel : ℕ) (p : Parsing) (seen : ℕ) (s : Bytes)
    → length s ≤ fuel
    → Stored seen p
    → Holds Sound (ipv4_loop fuel p seen s)
unfolding ipv4_loop
ipv4_loop-Sound fuel p seen [] le h = elim (Bool-cases (seen == 4)) [
  | inl e ↦ rw (e, Holds, ipv4_loop) (h.0)
  | inr e ↦ rw (e, Holds, ipv4_loop) tt
]
ipv4_loop-Sound zero p seen (c ∷ s) le h = absurd (omega arith)
ipv4_loop-Sound (suc fuel) p seen (c ∷ s) le h =
    Holds-bind (Numbered (seen + 1) (suc (length s))) Sound (ipv4_round p seen (c ∷ s)) _
      (ipv4_round-Numbered p seen c s h)
      (λ r k. ipv4_loop-Sound fuel r.0 (seen + 1) r.1 (omega (arith, le, k.1)) k.0)

swap-IsAddress :
    (xs : List ℕ) (i j : ℕ) → IsAddress xs → i < 8 → j < 8 → Holds IsAddress (swap xs i j)
swap-IsAddress xs i j h lt lt' =
    let inside : (ltb i (length xs) && ltb j (length xs)) ≡ true = ground (arith, h.0) in
    rw (inside, Holds)
      (set-IsAddress (set xs i (get_or xs j 0)) j (get_or xs i 0)
        (set-IsAddress xs i (get_or xs j 0) h (get_or-IsPiece xs j h.1)) (get_or-IsPiece xs i h.1))

decrement-Holds : (n : ℕ) → 0 < n → Holds (λ m. suc m ≡ n) (decrement n)
decrement-Holds zero lt = absurd (omega arith)
decrement-Holds (suc n) lt = refl

swap_pieces-IsAddress :
    (swaps : ℕ) (pieces : List ℕ) (start end : ℕ)
    → IsAddress pieces
    → start + swaps ≤ 8
    → swaps ≤ end
    → end < 8
    → Holds IsAddress (swap_pieces swaps pieces start end)
unfolding swap_pieces
swap_pieces-IsAddress zero pieces start end h a b c = h
swap_pieces-IsAddress (suc swaps) pieces start end h a b c =
    Holds-bind IsAddress IsAddress (swap pieces end (start + swaps)) _
      (swap-IsAddress pieces end (start + swaps) h c (omega (arith, a)))
      (λ swapped k.
        Holds-bind (λ m. suc m ≡ end) IsAddress (decrement end) _
          (decrement-Holds end (omega (arith, b)))
          (λ m e.
            swap_pieces-IsAddress swaps swapped start m k (omega (arith, a)) (omega (arith, b, e))
              (omega (arith, c, e))))

expand-IsAddress :
    (p : Parsing) (o : Option ℕ)
    → IsAddress p.pieces
    → p.piece_pointer ≤ 8
    → Compressed o p.piece_pointer
    → Holds IsAddress (expand p o)
unfolding expand
expand-IsAddress p (some start) h le (lo, hi) =
    let order : ltb p.piece_pointer start ≡ false = ground (arith, hi) in
    rw order (
      swap_pieces-IsAddress (p.piece_pointer - start) p.pieces start 7 h (omega (arith, le, hi))
        (omega (arith, le, lo)) (omega arith))
expand-IsAddress p none h le c = elim (Bool-cases (p.piece_pointer == 8)) [
  | inl e ↦ rw (e, Holds, expand) h
  | inr e ↦ rw (e, Holds, expand) tt
]

expand-Sound : (p : Parsing) → Sound p → Holds IsAddress (expand p p.compress_pointer)
expand-Sound p (h, le, c) = expand-IsAddress p p.compress_pointer h le c

finish_groups-IsAddress :
    (r : Parsing × Bytes × Bool) → OkGroups r → Holds IsAddress (finish_groups r)
unfolding finish_groups
finish_groups-IsAddress (p, s, false) h = elim (Bool-cases (length s == 0)) [
  | inl e ↦ rw e (expand-Sound p h)
  | inr e ↦ rw (e, Holds, finish_groups) tt
]
finish_groups-IsAddress (p, s, true) h = elim (Bool-cases (ltb 6 p.piece_pointer)) [
  | inl e ↦ rw (e, Holds, finish_groups) tt
  | inr e ↦ rw e (
      Holds-bind Sound IsAddress (ipv4_loop (length s) p 0 s) _
        (ipv4_loop-Sound (length s) p 0 s (omega arith) (h, ground arith)) expand-Sound)
]

parse_groups-IsAddress : (p : Parsing) (s : Bytes) → Sound p → Holds IsAddress (parse_groups p s)
unfolding parse_groups
parse_groups-IsAddress p s h =
    Holds-bind OkGroups IsAddress (groups_loop (suc (length s)) p s) finish_groups
      (groups_loop-OkGroups (suc (length s)) p s (omega arith) h) finish_groups-IsAddress

zeros-IsAddress : IsAddress zeros
zeros-IsAddress = ground arith

-- On any text, the IPv6 parser indexes and swaps no piece outside its eight, subtracts nothing from a
-- lesser number, and its loops end within their fuel; an address that it returns has eight pieces,
-- each of 16 bits.
pub read_ipv6-IsAddress : (input : Bytes) → Holds IsAddress (read_ipv6 input)
unfolding read_ipv6
read_ipv6-IsAddress [] = tt
read_ipv6-IsAddress (a ∷ []) = tt
read_ipv6-IsAddress (a ∷ b ∷ s) =
    let compressed =
      parse_groups-IsAddress
        (record { pieces = zeros; piece_pointer = 1; compress_pointer = some 1 }) s
        (zeros-IsAddress, omega arith, (omega arith, omega arith)) in
    let plain =
      parse_groups-IsAddress (record { pieces = zeros; piece_pointer = 0; compress_pointer = none })
        (a ∷ b ∷ s) (zeros-IsAddress, omega arith, tt) in
    elim (Bool-cases (a == b':')) [
      | inr e ↦ rw e plain
      | inl e ↦ elim (Bool-cases (b == b':')) [
        | inl f ↦ rw (e, f) compressed
        | inr f ↦ rw (e, f, Holds, read_ipv6) tt
      ]
    ]
