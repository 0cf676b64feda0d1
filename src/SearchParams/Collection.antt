-- ===== src/SearchParams/Collection.antt =====
-- src/search_params.rs, `SearchParams`: a list of name/value pairs with the operations of the WHATWG
-- `URLSearchParams`.
pub mod Lookup
pub mod Order
use sorug.Scan.Memchr.{Memchr}
use sorug.SearchParams.UrlEncoded.{Utf8, Pair, parse_urlencoded, serialize_urlencoded}
use sorug.Common.{
  ℕ, zero, suc, ◌+◌, Bool, true, false, not, ◌&&◌, ◌||◌, List, [], ◌∷◌, ◌++◌, Option, none, some,
  Bytes, bytes_eq, length, take, drop, position, any, ltb, ◌==◌, if◌then◌else◌,
}

pub record SearchParams : Type 0 where
  pub pairs : List Pair

abbrev pub has_name : Bytes → Pair → Bool
has_name name (k, v) = bytes_eq k name

abbrev pub has_both : Bytes → Bytes → Pair → Bool
has_both name value (k, v) = bytes_eq k name && bytes_eq v value

-- `Vec::retain`
unfoldable pub retain : (Pair → Bool) → List Pair → List Pair
retain keep [] = []
retain keep (p ∷ ps) = if keep p then p ∷ retain keep ps else retain keep ps

unfoldable pub new : SearchParams
new = record { pairs = [] }

unfoldable pub parse : Memchr → Utf8 → Bytes → SearchParams
unfolding parse_urlencoded
parse m u input = record { pairs = parse_urlencoded m u input }

unfoldable pub len : SearchParams → ℕ
len p = length p.pairs

unfoldable pub size : SearchParams → ℕ
unfolding len
size p = len p

unfoldable pub is_empty : SearchParams → Bool
unfolding len
is_empty p = len p == 0

-- The first value of a name among some pairs, and all of them.
unfoldable pub find_value : Bytes → List Pair → Option Bytes
find_value name [] = none
find_value name ((k, v) ∷ ps) = if bytes_eq k name then some v else find_value name ps

unfoldable pub get : SearchParams → Bytes → Option Bytes
unfolding find_value
get p name = find_value name p.pairs

unfoldable pub values_of : Bytes → List Pair → List Bytes
values_of name [] = []
values_of name ((k, v) ∷ ps) = if bytes_eq k name then v ∷ values_of name ps else values_of name ps

unfoldable pub get_all : SearchParams → Bytes → List Bytes
unfolding values_of
get_all p name = values_of name p.pairs

unfoldable pub has : SearchParams → Bytes → Bool
has p name = any (has_name name) p.pairs

unfoldable pub has_value : SearchParams → Bytes → Bytes → Bool
has_value p name value = any (has_both name value) p.pairs

unfoldable pub append : SearchParams → Bytes → Bytes → SearchParams
append p name value = record { pairs = p.pairs ++ (name, value) ∷ [] }

-- The first pair of the name gets the value, and the loop behind it removes the later ones.
unfoldable pub set_at : Bytes → Bytes → ℕ → List Pair → List Pair
unfolding retain
set_at name value first [] = []
set_at name value zero ((k, v) ∷ ps) = (k, value) ∷ retain (λ p. not (has_name name p)) ps
set_at name value (suc first) (p ∷ ps) = p ∷ set_at name value first ps

unfoldable pub set : SearchParams → Bytes → Bytes → SearchParams
unfolding set_at append
set p name value = elim (position (has_name name) p.pairs) [
  | none ↦ append p name value
  | some first ↦ record { pairs = set_at name value first p.pairs }
]

unfoldable pub delete : SearchParams → Bytes → SearchParams × Bool
unfolding retain
delete p name =
    let kept = retain (λ q. not (has_name name q)) p.pairs in
    (record { pairs = kept }, not (length kept == length p.pairs))

unfoldable pub delete_value : SearchParams → Bytes → Bytes → SearchParams × Bool
unfolding retain
delete_value p name value =
    let kept = retain (λ q. not (has_both name value q)) p.pairs in
    (record { pairs = kept }, not (length kept == length p.pairs))

unfoldable pub clear : SearchParams → SearchParams
clear p = record { pairs = [] }

unfoldable pub extend : SearchParams → List Pair → SearchParams
extend p more = record { pairs = p.pairs ++ more }

-- `a.cmp(&b) != Greater` on strings: byte by byte.
unfoldable pub bytes_leb : Bytes → Bytes → Bool
bytes_leb [] b = true
bytes_leb (x ∷ a) [] = false
bytes_leb (x ∷ a) (y ∷ b) = ltb x y || (x == y && bytes_leb a b)

abbrev pub by_name : Pair → Pair → Bool
by_name p q = bytes_leb p.0 q.0

-- `slice::sort_by` of the standard library, which is given the order.
abbrev pub SortBy : Type 0
SortBy = (Pair → Pair → Bool) → List Pair → List Pair

unfoldable pub sort : SortBy → SearchParams → SearchParams
sort sort_by p = record { pairs = sort_by by_name p.pairs }

unfoldable pub serialize : SearchParams → Bytes
unfolding serialize_urlencoded
serialize p = serialize_urlencoded p.pairs
