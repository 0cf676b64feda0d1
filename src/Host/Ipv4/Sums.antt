-- ===== src/Host/Ipv4/Sums.antt =====
-- What the IPv4 parser of src/parser/host.rs makes of its numbers: their sum, which 32 bits hold.
use sorug.Host.Ipv4.{
  split_on, parse_ipv4_number, push_number, drop_empty_last, parse_numbers, pop_last, add_numbers,
  ipv4_of_numbers, parse_ipv4,
}
use sorug.Common.{
  ℕ, suc, ◌+◌, ◌-◌, ◌*◌, ◌^◌, ◌≤◌, ◌<◌, List, [], ◌∷◌, Option, none, some, Bytes, All, length, ltb,
  if◌then◌else◌, Bool-cases, Option-cases, inl, inr, ◌≡◌, refl, ap, ◌∙◌, arith,
}

-- The first numbers are the high octets, without any wrap-around.
abbrev pub high_octets : ℕ → List ℕ → ℕ
high_octets counter [] = 0
high_octets counter (n ∷ ns) = n * 2 ^ (8 * (3 - counter)) + high_octets (counter + 1) ns

-- What the parser makes of its numbers: all but the last are octets, and the last fills what is left.
abbrev pub IsSum : List ℕ → ℕ → ℕ → Type 0
IsSum before last ip =
    All (λ n. n < 256) before
    × (last * 2 ^ (8 * length before) < 2 ^ 32)
    × (ip ≡ high_octets 0 before + last)
    × (ip < 2 ^ 32)

ipv4_of_numbers-IsSum :
    (x : ℕ) (xs : List ℕ) (ip : ℕ)
    → length xs ≤ 3
    → ipv4_of_numbers (x ∷ xs) ≡ some ip
    → IsSum (pop_last x xs).0 (pop_last x xs).1 ip
unfolding ipv4_of_numbers pop_last add_numbers
ipv4_of_numbers-IsSum x [] ip le e = ground arith
ipv4_of_numbers-IsSum x (y ∷ []) ip le e = ground arith
ipv4_of_numbers-IsSum x (y ∷ z ∷ []) ip le e = ground arith
ipv4_of_numbers-IsSum x (y ∷ z ∷ w ∷ []) ip le e = ground arith
ipv4_of_numbers-IsSum x (y ∷ z ∷ w ∷ v ∷ xs) ip le e = absurd (omega arith)

push_number-some :
    (o : Option (Option ℕ)) (l : Option (List ℕ)) (ns : List ℕ)
    → push_number o l ≡ some ns
    → (ms : List ℕ) × (l ≡ some ms) × (length ns ≡ suc (length ms))
push_number-some (some (some n)) (some ms) ns e = (ms, refl, ground arith)
push_number-some (some (some n)) none ns e = ground arith
push_number-some (some none) l ns e = ground arith
push_number-some none l ns e = ground arith

length-parse_numbers :
    (ps : List Bytes) (ns : List ℕ) → parse_numbers ps ≡ some ns → length ns ≡ length ps
unfolding parse_numbers
length-parse_numbers [] ns e = ground arith
length-parse_numbers (p ∷ ps) ns e =
    let (ms, rest, size) = push_number-some (parse_ipv4_number p) (parse_numbers ps) ns e in
    size ∙ ap suc (length-parse_numbers ps ms rest)

abbrev of_parts : List Bytes → Option ℕ
of_parts parts =
    if ltb 4 (length parts)
    then none
    else (elim (parse_numbers parts) [ none ↦ none | some numbers ↦ ipv4_of_numbers numbers ])

-- What the address is made of, if there is one.
abbrev pub Made : List Bytes → ℕ → Type 0
Made parts ip =
    (x : ℕ) × (xs : List ℕ) × (parse_numbers parts ≡ some (x ∷ xs))
    × (length xs ≤ 3)
    × IsSum (pop_last x xs).0 (pop_last x xs).1 ip

of_numbers-Made :
    (parts : List Bytes) (ns : List ℕ) (ip : ℕ)
    → parse_numbers parts ≡ some ns
    → length parts ≤ 4
    → ipv4_of_numbers ns ≡ some ip
    → Made parts ip
of_numbers-Made parts [] ip read few e = unfold ipv4_of_numbers in ground arith
of_numbers-Made parts (x ∷ xs) ip read few e =
    let short : length xs ≤ 3 = omega (arith, length-parse_numbers parts (x ∷ xs) read) in
    (x, xs, read, short, ipv4_of_numbers-IsSum x xs ip short e)

of_parts-Made : (parts : List Bytes) (ip : ℕ) → of_parts parts ≡ some ip → Made parts ip
of_parts-Made parts ip e = elim (Bool-cases (ltb 4 (length parts))) [
  | inl many ↦ ground arith
  | inr few ↦ elim (Option-cases (parse_numbers parts)) [
    | inl failed ↦ ground arith
    | inr (ns, read) ↦ of_numbers-Made parts ns ip read (ground arith) (ground arith)
  ]
]

-- An address that the parser returns is the sum of at most four numbers, those between the dots: all
-- but the last are octets and stand at the top, and the last fills the bytes that are left. The sum
-- has 32 bits, so no addition wraps around.
pub parse_ipv4-Made :
    (input : Bytes) (ip : ℕ)
    → parse_ipv4 input ≡ some ip
    → Made (drop_empty_last (split_on b'.' input)) ip
unfolding parse_ipv4
parse_ipv4-Made input ip e = of_parts-Made (drop_empty_last (split_on b'.' input)) ip e
