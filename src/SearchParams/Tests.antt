-- ===== src/SearchParams/Tests.antt =====
-- Runs of src/search_params.rs, and its theorems at concrete inputs.
use sorug.SearchParams.UrlEncoded.{
  Utf8, Pair, parse_urlencoded, serialize_urlencoded, decode_pair, split_first,
}
use sorug.SearchParams.UrlEncoded.Parse.{parse_urlencoded_rounds}
use sorug.SearchParams.UrlEncoded.RoundTrip.{parse-serialize}
use sorug.SearchParams.Collection.{
  SearchParams, SortBy, retain, bytes_leb, get, get_all, set, has, delete, sort, find_value,
  values_of,
}
use sorug.SearchParams.Collection.Lookup.{get_all-set, get-set, delete_lem}
use sorug.SearchParams.Collection.Order.{IsOrder, IsStable, alike, sort_lookups}
use sorug.Scan.Tests.{linear}
use sorug.Common.{
  Bool, ◌&&◌, Bool-cases, inl, inr, false≢true, sym, ap, ◌∙◌, arith, true, false, List, [], ◌∷◌,
  map, some, are_bytes, bytes_eq, all, ltb, codes, if◌then◌else◌, ◌≡◌, refl,
}

-- The ASCII texts among those of UTF-8; in any other text a byte that is not ASCII is replaced.
abbrev ascii_utf8 : Utf8
ascii_utf8 = record {
  is_utf8 = λ s. all (λ b. ltb b 0x80) s;
  lossy = map (λ b. if ltb b 0x80 then b else b'?');
}

abbrev two_pairs : List Pair
two_pairs = (codes "a b", codes "1&2") ∷ (codes "c", []) ∷ []

abbrev three : SearchParams
three = record {
  pairs = (codes "k", codes "1") ∷ (codes "a", codes "2") ∷ (codes "k", codes "3") ∷ [];
}

serialize_two : serialize_urlencoded two_pairs ≡ codes "a+b=1%262&c="
unfolding serialize_urlencoded
serialize_two = refl

parse_two : parse_urlencoded linear ascii_utf8 (codes "a+b=1%262&&c") ≡ two_pairs
unfolding parse_urlencoded
parse_two = refl

parse-serialize_example :
    parse_urlencoded linear ascii_utf8 (serialize_urlencoded two_pairs) ≡ two_pairs
parse-serialize_example = parse-serialize linear ascii_utf8 two_pairs (
  ((are_bytes (codes "a b") refl, refl), (are_bytes (codes "1&2") refl, refl)),
  (((are_bytes (codes "c") refl, refl), (tt, refl)), tt),
)

parse_urlencoded_rounds_example :
    parse_urlencoded linear ascii_utf8 (codes "a=1&b")
    ≡ decode_pair linear ascii_utf8 (codes "a=1") ∷ parse_urlencoded linear ascii_utf8 (codes "b")
unfolding split_first
parse_urlencoded_rounds_example = parse_urlencoded_rounds linear ascii_utf8 b'a' (codes "=1&b")

get_all-set_example : get_all (set three (codes "k") (codes "9")) (codes "k") ≡ codes "9" ∷ []
unfolding bytes_eq
get_all-set_example = get_all-set three (codes "k") (codes "9") (codes "k")

get-set_example : get (set three (codes "k") (codes "9")) (codes "a") ≡ some (codes "2")
unfolding get find_value bytes_eq
get-set_example = get-set three (codes "k") (codes "9") (codes "a")

delete_lem_example :
    (has (delete three (codes "k")).0 (codes "k") ≡ false)
    × (get_all (delete three (codes "k")).0 (codes "a") ≡ codes "2" ∷ [])
    × ((delete three (codes "k")).1 ≡ true)
unfolding has get_all values_of bytes_eq
delete_lem_example = delete_lem three (codes "k") (codes "a")

-- A stable sort: a pair goes in front of those behind it that it does not follow.
insert_pair : (Pair → Pair → Bool) → Pair → List Pair → List Pair
insert_pair before p [] = p ∷ []
insert_pair before p (q ∷ qs) =
    let later = insert_pair before p qs in if before p q then p ∷ q ∷ qs else q ∷ later

insertion_sort : SortBy
insertion_sort before [] = []
insertion_sort before (p ∷ ps) = insert_pair before p (insertion_sort before ps)

-- Two pairs that are alike to a third come one before the other, either way.
alike_before :
    (before : Pair → Pair → Bool) (p q r : Pair)
    → IsOrder before
    → before p q ≡ false
    → alike before r p && alike before r q ≡ false
alike_before before p q r (total, trans) e =
    elim (Bool-cases (alike before r p && alike before r q)) [
      | inr x ↦ x
      | inl x ↦ absurd (false≢true (sym e ∙ trans p r q (ground arith) (ground arith)))
    ]

insert_pair-alike :
    (before : Pair → Pair → Bool) (r p : Pair) (qs : List Pair)
    → IsOrder before
    → retain (alike before r) (insert_pair before p qs) ≡ retain (alike before r) (p ∷ qs)
unfolding insert_pair retain
insert_pair-alike before r p [] h = refl
insert_pair-alike before r p (q ∷ qs) h = elim (Bool-cases (before p q)) [
  | inl e ↦ rw e refl
  | inr e ↦
      rw (e, insert_pair-alike before r p qs h)
        (swapped (alike before r p) (alike before r q) (alike_before before p q r h e))
]
  where
    swapped :
        (a b : Bool)
        → a && b ≡ false
        → (if b
            then q ∷ (if a then p ∷ retain (alike before r) qs else retain (alike before r) qs)
            else if a
            then p ∷ retain (alike before r) qs
            else retain (alike before r) qs)
          ≡ (if a
              then p ∷ (if b then q ∷ retain (alike before r) qs else retain (alike before r) qs)
              else if b
              then q ∷ retain (alike before r) qs
              else retain (alike before r) qs)
    swapped true true e = cc
    swapped true false e = refl
    swapped false true e = refl
    swapped false false e = refl

insertion_sort-IsStable : IsStable insertion_sort
unfolding insertion_sort retain
insertion_sort-IsStable before r [] h = refl
insertion_sort-IsStable before r (p ∷ ps) h =
    insert_pair-alike before r p (insertion_sort before ps) h
    ∙ kept (alike before r p) (insertion_sort-IsStable before r ps h)
  where
    kept :
        (a : Bool) {s t : List Pair} → s ≡ t → (if a then p ∷ s else s) ≡ (if a then p ∷ t else t)
    kept a e = ap (λ l. if a then p ∷ l else l) e

sort_lookups_example :
    (get (sort insertion_sort three) (codes "k") ≡ some (codes "1"))
    × (get_all (sort insertion_sort three) (codes "k") ≡ codes "1" ∷ codes "3" ∷ [])
unfolding get get_all find_value values_of bytes_eq
sort_lookups_example = sort_lookups insertion_sort three (codes "k") insertion_sort-IsStable

-- By bytes, U+FFFF comes before U+10000; by UTF-16 code units it would come behind.
order_of_bytes : bytes_leb (codes "𐀀") (codes "\u{ffff}") ≡ false
unfolding bytes_leb
order_of_bytes = refl
