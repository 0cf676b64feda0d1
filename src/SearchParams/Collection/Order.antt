-- ===== src/SearchParams/Collection/Order.antt =====
-- `SearchParams::sort` (src/search_params.rs) changes no lookup, as the sort of the standard library
-- is stable.
use sorug.SearchParams.UrlEncoded.{Pair}
use sorug.SearchParams.Collection.{
  SearchParams, find_value, values_of, get, get_all, retain, bytes_leb, by_name, SortBy, sort,
}
use sorug.Common.{
  Bool, true, false, ◌&&◌, List, [], ◌∷◌, Bytes, bytes_eq, Bool-cases, inl, inr, ◌≡◌, refl, sym, ap,
  ◌∙◌, arith,
}

pub bytes_leb_total : (a b : Bytes) → bytes_leb a b ≡ false → bytes_leb b a ≡ true
unfolding bytes_leb
bytes_leb_total [] b e = cc
bytes_leb_total (x ∷ a) [] e = refl
bytes_leb_total (x ∷ a) (y ∷ b) e = ground (arith, bytes_leb_total a b)

bytes_leb_trans :
    (a b c : Bytes) → bytes_leb a b ≡ true → bytes_leb b c ≡ true → bytes_leb a c ≡ true
unfolding bytes_leb
bytes_leb_trans [] b c e f = refl
bytes_leb_trans (x ∷ a) [] c e f = cc
bytes_leb_trans (x ∷ a) (y ∷ b) [] e f = cc
bytes_leb_trans (x ∷ a) (y ∷ b) (z ∷ c) e f = ground (arith, bytes_leb_trans a b c)

-- Two names are alike in the order only if they are equal.
bytes_leb-bytes_eq : (a b : Bytes) → (bytes_leb a b && bytes_leb b a) ≡ bytes_eq a b
unfolding bytes_leb bytes_eq
bytes_leb-bytes_eq [] [] = refl
bytes_leb-bytes_eq [] (y ∷ b) = refl
bytes_leb-bytes_eq (x ∷ a) [] = refl
bytes_leb-bytes_eq (x ∷ a) (y ∷ b) = ground (arith, bytes_leb-bytes_eq a b)

-- A total preorder.
abbrev pub IsOrder : (Pair → Pair → Bool) → Type 0
IsOrder before =
    ((p q : Pair) → before p q ≡ false → before q p ≡ true)
    × ((p q r : Pair) → before p q ≡ true → before q r ≡ true → before p r ≡ true)

abbrev pub alike : (Pair → Pair → Bool) → Pair → Pair → Bool
alike before p q = before q p && before p q

-- What the standard library documents of `sort_by`: for a total order, pairs that are alike keep
-- their order, and none is lost or added.
abbrev pub IsStable : SortBy → Type 0
IsStable sort_by =
    (before : Pair → Pair → Bool) (p : Pair) (ps : List Pair)
    → IsOrder before
    → retain (alike before p) (sort_by before ps) ≡ retain (alike before p) ps

by_name-IsOrder : IsOrder by_name
by_name-IsOrder = (λ p q. bytes_leb_total p.0 q.0, λ p q r. bytes_leb_trans p.0 q.0 r.0)

-- A lookup reads the pairs that are alike to its name.
values_of-retain :
    (n : Bytes) (ps : List Pair) → values_of n (retain (alike by_name (n, [])) ps) ≡ values_of n ps
unfolding values_of retain
values_of-retain n [] = refl
values_of-retain n ((k, v) ∷ ps) = elim (Bool-cases (bytes_eq k n)) [
  | inl e ↦ rw (bytes_leb-bytes_eq k n, e, e) (ap (λ t. v ∷ t) (values_of-retain n ps))
  | inr e ↦ rw (bytes_leb-bytes_eq k n, e) (values_of-retain n ps)
]

find_value-retain :
    (n : Bytes) (ps : List Pair)
    → find_value n (retain (alike by_name (n, [])) ps) ≡ find_value n ps
unfolding find_value retain
find_value-retain n [] = refl
find_value-retain n ((k, v) ∷ ps) = elim (Bool-cases (bytes_eq k n)) [
  | inl e ↦ rw (bytes_leb-bytes_eq k n, e, e) refl
  | inr e ↦ rw (bytes_leb-bytes_eq k n, e) (find_value-retain n ps)
]

-- With a stable `sort_by`, sorting changes neither the first value of a name nor the list of its
-- values.
pub sort_lookups :
    (sort_by : SortBy) (p : SearchParams) (n : Bytes)
    → IsStable sort_by
    → (get (sort sort_by p) n ≡ get p n) × (get_all (sort sort_by p) n ≡ get_all p n)
unfolding sort get get_all
sort_lookups sort_by p n stable =
    let same = stable by_name (n, []) p.pairs by_name-IsOrder in
    (
      sym (find_value-retain n (sort_by by_name p.pairs))
          ∙ ap (find_value n) same
          ∙ find_value-retain n p.pairs,
      sym (values_of-retain n (sort_by by_name p.pairs))
          ∙ ap (values_of n) same
          ∙ values_of-retain n p.pairs,
    )
