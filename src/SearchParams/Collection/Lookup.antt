-- ===== src/SearchParams/Collection/Lookup.antt =====
-- What the edits of `SearchParams` (src/search_params.rs) change for a name, and for all others.
use mathlib.Core.List.{head?}
use sorug.SearchParams.UrlEncoded.{Pair}
use sorug.SearchParams.Collection.{
  SearchParams, has_name, retain, find_value, values_of, get, get_all, has, append, set_at, set,
  delete,
}
use sorug.Common.{
  ℕ, zero, suc, ◌≤◌, Bool, true, false, not, List, [], ◌∷◌, ◌++◌, append-nil, ◌⊎◌, none, some,
  Bytes, bytes_eq, bytes_eq_iff, length, position, any, ◌==◌, if◌then◌else◌, Bool-cases,
  Option-cases, inl, inr, ◌≡◌, refl, sym, ap, ◌∙◌, arith,
}

same_name : (k j n : Bytes) → bytes_eq k n ≡ true → bytes_eq k j ≡ bytes_eq n j
same_name k j n e = ap (λ t. bytes_eq t j) ((bytes_eq_iff k n).0 e)

same_both : (k j n : Bytes) → bytes_eq k j ≡ true → bytes_eq n j ≡ true → bytes_eq k n ≡ true
same_both k j n e f = (bytes_eq_iff k n).1 ((bytes_eq_iff k j).0 e ∙ sym ((bytes_eq_iff n j).0 f))

values_of-retain :
    (n j : Bytes) (ps : List Pair)
    → values_of j (retain (λ p. not (has_name n p)) ps)
      ≡ (if bytes_eq n j then [] else values_of j ps)
unfolding values_of retain
values_of-retain n j [] = ground arith
values_of-retain n j ((k, v) ∷ ps) =
    ground (arith, values_of-retain n j ps, same_name k j n, same_both k j n)

values_of-append :
    (j : Bytes) (ps qs : List Pair) → values_of j (ps ++ qs) ≡ values_of j ps ++ values_of j qs
unfolding values_of
values_of-append j [] qs = refl
values_of-append j ((k, v) ∷ ps) qs = ground (arith, values_of-append j ps qs)

values_of-no_name :
    (n : Bytes) (ps : List Pair) → position (has_name n) ps ≡ none → values_of n ps ≡ []
unfolding values_of
values_of-no_name n [] e = refl
values_of-no_name n ((k, v) ∷ ps) e = ground (arith, values_of-no_name n ps)

values_of-set_at :
    (n w j : Bytes) (i : ℕ) (ps : List Pair)
    → position (has_name n) ps ≡ some i
    → values_of j (set_at n w i ps) ≡ (if bytes_eq n j then w ∷ [] else values_of j ps)
unfolding values_of set_at
values_of-set_at n w j i [] e = cc
values_of-set_at n w j zero ((k, v) ∷ ps) e =
    ground (arith, values_of-retain n j ps, same_name k j n, same_both k j n)
values_of-set_at n w j (suc i) ((k, v) ∷ ps) e =
    let (other, later) = behind (Bool-cases (bytes_eq k n)) e in
    ground (arith, values_of-set_at n w j i ps later, same_both k j n)
  where
    behind :
        (bytes_eq k n ≡ true) ⊎ (bytes_eq k n ≡ false)
        → position (has_name n) ((k, v) ∷ ps) ≡ some (suc i)
        → (bytes_eq k n ≡ false) × (position (has_name n) ps ≡ some i)
    behind (inl x) e = ground arith
    behind (inr x) e = ground arith

appended :
    (n w j : Bytes) (ps : List Pair)
    → values_of n ps ≡ []
    → values_of j ps ++ values_of j ((n, w) ∷ [])
      ≡ (if bytes_eq n j then w ∷ [] else values_of j ps)
unfolding values_of
appended n w j ps e = elim (Bool-cases (bytes_eq n j)) [
  | inl x ↦ rw (x, sym (ap (λ t. values_of t ps) ((bytes_eq_iff n j).0 x)) ∙ e)
  | inr x ↦ rw x (append-nil (values_of j ps))
]

-- After `set` the name has exactly the new value, and any other name has the values it had, in order.
pub get_all-set :
    (p : SearchParams) (n w j : Bytes)
    → get_all (set p n w) j ≡ (if bytes_eq n j then w ∷ [] else get_all p j)
unfolding get_all set append
get_all-set p n w j = elim (Option-cases (position (has_name n) p.pairs)) [
  | inl e ↦
      rw (e, set)
        (values_of-append j p.pairs ((n, w) ∷ [])
          ∙ appended n w j p.pairs (values_of-no_name n p.pairs e))
  | inr (i, e) ↦ rw (e, set) (values_of-set_at n w j i p.pairs e)
]

-- `get` answers the first of the values that `get_all` lists.
find_value-values_of : (j : Bytes) (ps : List Pair) → find_value j ps ≡ head? (values_of j ps)
unfolding find_value values_of
find_value-values_of j [] = refl
find_value-values_of j ((k, v) ∷ ps) = ground (arith, find_value-values_of j ps)

-- After `set` a lookup of the name gives the new value, and of any other name what it gave before.
pub get-set :
    (p : SearchParams) (n w j : Bytes)
    → get (set p n w) j ≡ (if bytes_eq n j then some w else get p j)
unfolding get get_all
get-set p n w j =
    rw (find_value-values_of j (set p n w).pairs, find_value-values_of j p.pairs)
      (ap head? (get_all-set p n w j) ∙ either)
  where
    either :
        head? (if bytes_eq n j then w ∷ [] else values_of j p.pairs)
        ≡ (if bytes_eq n j then some w else head? (values_of j p.pairs))
    either = ground arith

any-retain :
    (n : Bytes) (ps : List Pair) → any (has_name n) (retain (λ p. not (has_name n p)) ps) ≡ false
unfolding retain
any-retain n [] = refl
any-retain n ((k, v) ∷ ps) = elim (Bool-cases (bytes_eq k n)) [
  | inl e ↦ rw e (any-retain n ps)
  | inr e ↦ rw e (rw e (any-retain n ps))
]

retain-length : (keep : Pair → Bool) (ps : List Pair) → length (retain keep ps) ≤ length ps
unfolding retain
retain-length keep [] = omega arith
retain-length keep (p ∷ ps) = ground (arith, retain-length keep ps)

-- Something is removed exactly if a pair passes.
retain_shorter :
    (drops : Pair → Bool) (ps : List Pair)
    → not (length (retain (λ p. not (drops p)) ps) == length ps) ≡ any drops ps
unfolding retain
retain_shorter drops [] = refl
retain_shorter drops (p ∷ ps) = elim (Bool-cases (drops p)) [
  | inl e ↦ rw e (ground (arith, retain-length (λ p. not (drops p)) ps))
  | inr e ↦ rw e (ground (arith, retain_shorter drops ps))
]

-- `delete` leaves no pair of the name and all others in their order, and answers whether there was
-- one.
pub delete_lem :
    (p : SearchParams) (n j : Bytes)
    → (has (delete p n).0 n ≡ false)
      × (get_all (delete p n).0 j ≡ (if bytes_eq n j then [] else get_all p j))
      × ((delete p n).1 ≡ has p n)
unfolding delete has get_all
delete_lem p n j =
    (any-retain n p.pairs, values_of-retain n j p.pairs, retain_shorter (has_name n) p.pairs)

-- `append` adds a value behind those of its name, and any other name has the values it had.
get_all-append :
    (p : SearchParams) (n w j : Bytes)
    → get_all (append p n w) j ≡ (if bytes_eq n j then get_all p j ++ w ∷ [] else get_all p j)
unfolding get_all append
get_all-append p n w j = values_of-append j p.pairs ((n, w) ∷ []) ∙ at_end
  where
    at_end :
        values_of j p.pairs ++ values_of j ((n, w) ∷ [])
        ≡ (if bytes_eq n j then values_of j p.pairs ++ w ∷ [] else values_of j p.pairs)
    at_end = elim (Bool-cases (bytes_eq n j)) [
      | inl e ↦ rw (values_of, e)
      | inr e ↦ rw (values_of, e) (append-nil (values_of j p.pairs))
    ]
