-- ===== src/Parser/Finish/Ordered.antt =====
-- The offsets of a URL record (src/parser/mod.rs) are in order, and the guard of the path keeps
-- them so.
use sorug.Parser.Finish.{
  starts_with, is_byte, with_path, with_ends, guard_path, with_query_and_fragment,
}
use sorug.Parser.Path.Segment.{AtEnd}
use sorug.Parser.Query.{parse_query_and_fragment}
use sorug.Parser.Query.Growth.{Appended}
use sorug.Parser.Query.Layout.{Layout, parse_query_and_fragment-Layout}
use sorug.Parser.Record.{ParsedUrl}
use sorug.Parser.Result.{Holds, Holds-bind}
use sorug.Port.{SchemeType}
use sorug.Scan.Memchr.{Memchr}
use sorug.Common.{
  ℕ, zero, suc, ◌+◌, ◌-◌, ◌≤◌, ◌<◌, true, false, not, ◌&&◌, [], ◌∷◌, ◌++◌, Option, some,
  some-injective, Bytes, IsBytes, bytes_eq, bytes_eq_iff, codes, get_elem?, length, length-append,
  take, drop, ◌==◌, ==_iff, Bool-cases, ◌⊎◌, inl, inr, ◌≡◌, refl, sym, ap, ◌∙◌, arith,
}

-- `a` and `b` are the two bytes behind the colon.
abbrev pub Behind : Bytes → ℕ → ℕ → ℕ → Type 0
Behind s scheme_end a b =
    (get_elem? s (scheme_end + 1) ≡ some a) × (get_elem? s (scheme_end + 2) ≡ some b)

-- A path without an authority starts behind the colon, or behind a slash and a dot that follow it.
abbrev pub PathOnly : Bytes → ℕ → ℕ → Type 0
PathOnly s scheme_end path_start =
    (path_start ≡ scheme_end + 1) ⊎ (path_start ≡ scheme_end + 3) × Behind s scheme_end b'/' b'.'

-- A URL without authority has its host, which is absent, behind the colon, and its path there or
-- behind a slash and a dot; one with an authority has two slashes there.
abbrev pub Authority : Bytes → ℕ → ℕ → ℕ → ℕ → Type 0
Authority s scheme_end username_end host_end path_start =
    (host_end ≡ scheme_end + 1) × PathOnly s scheme_end path_start
    ⊎ (scheme_end + 3 ≤ username_end) × Behind s scheme_end b'/' b'/'

-- The scheme ends at a colon, and the offsets of its record are in order.
pub record Ordered (u : ParsedUrl) : Type 0 where
  pub colon : get_elem? u.serialization u.scheme_end ≡ some b':'
  pub scheme_ends : u.scheme_end < u.username_end
  pub username_ends : u.username_end ≤ u.host_start
  pub host_ends : u.host_start ≤ u.host_end
  pub path_starts : u.host_end ≤ u.path_start
  pub authority : Authority u.serialization u.scheme_end u.username_end u.host_end u.path_start

-- A record whose query and fragment stand behind the path, in order, each at its delimiter.
abbrev pub IsRecord : ParsedUrl → Type 0
IsRecord u =
    Ordered u
    × ((out : Bytes) × (u.path_start ≤ length out)
        × Layout out (u.serialization, u.query_start, u.fragment_start))

-- Before the query and the fragment.
abbrev pub Ready : ParsedUrl → Type 0
Ready u = Ordered u × (u.path_start ≤ length u.serialization)

pub get-append : (s t : Bytes) (i b : ℕ) → get_elem? s i ≡ some b → get_elem? (s ++ t) i ≡ some b
get-append [] t i b e = ground arith
get-append (x ∷ s) t zero b e = e
get-append (x ∷ s) t (suc i) b e = get-append s t i b e

pub get-middle : (s t : Bytes) (b i : ℕ) → i ≡ length s → get_elem? (s ++ b ∷ t) i ≡ some b
get-middle [] t b zero e = refl
get-middle [] t b (suc i) e = absurd (omega arith)
get-middle (x ∷ s) t b zero e = absurd (omega arith)
get-middle (x ∷ s) t b (suc i) e = get-middle s t b i (omega arith)

pub get-second :
    (s t : Bytes) (a b i : ℕ) → i ≡ length s + 1 → get_elem? (s ++ a ∷ b ∷ t) i ≡ some b
get-second [] t a b zero e = absurd (omega arith)
get-second [] t a b (suc zero) e = refl
get-second [] t a b (suc (suc i)) e = absurd (omega arith)
get-second (x ∷ s) t a b zero e = absurd (omega arith)
get-second (x ∷ s) t a b (suc i) e = get-second s t a b i (omega arith)

get-take :
    (n : ℕ) (s : Bytes) (i b : ℕ) → i < n → get_elem? s i ≡ some b → get_elem? (take n s) i ≡ some b
get-take zero s i b lt e = absurd (omega arith)
get-take (suc n) [] i b lt e = e
get-take (suc n) (x ∷ s) zero b lt e = e
get-take (suc n) (x ∷ s) (suc i) b lt e = get-take n s i b (omega arith) e

get-drop : (n : ℕ) (s : Bytes) (i j : ℕ) → j ≡ n + i → get_elem? (drop n s) i ≡ get_elem? s j
get-drop zero s i j e = ap (get_elem? s) (omega arith)
get-drop (suc n) [] i j e = refl
get-drop (suc n) (x ∷ s) i zero e = absurd (omega arith)
get-drop (suc n) (x ∷ s) i (suc j) e = get-drop n s i j (omega arith)

length-take : (n : ℕ) (s : Bytes) → n ≤ length s → length (take n s) ≡ n
length-take zero s le = refl
length-take (suc n) [] le = absurd (omega arith)
length-take (suc n) (x ∷ s) le = ap suc (length-take n s (omega arith))

-- The bytes behind the scheme's end, as they are compared.
third :
    (s : Bytes) (n : ℕ)
    → bytes_eq (take 3 (drop n s)) (codes ":/.") ≡ true
    → get_elem? s (n + 2) ≡ some b'.'
third s n e =
    sym (get-drop n s 2 (n + 2) refl)
    ∙ go (drop n s) ((bytes_eq_iff (take 3 (drop n s)) (codes ":/.")).0 e)
  where
    go : (t : Bytes) → take 3 t ≡ codes ":/." → get_elem? t 2 ≡ some b'.'
    go [] k = ap (λ l. get_elem? l 2) k
    go (a ∷ []) k = ap (λ l. get_elem? l 2) k
    go (a ∷ b ∷ []) k = ap (λ l. get_elem? l 2) k
    go (a ∷ b ∷ c ∷ t) k = ap (λ l. get_elem? l 2) k

slash_is_no_dot : (o : Option ℕ) → o ≡ some b'/' → o ≡ some b'.' → ⊥
slash_is_no_dot o e f = ground (arith, some-injective _ _ (sym e ∙ f))

-- Two bytes are put in front of the path.
inserted :
    (u : ParsedUrl)
    → Ready u
    → u.path_start ≡ u.scheme_end + 1
    → Ready (
        with_path u
          (take u.path_start u.serialization ++ (b'/' ∷ b'.' ∷ drop u.path_start u.serialization))
          (u.path_start + 2))
inserted u (o, le) e = (
  record {
    colon =
        get-append (take u.path_start u.serialization)
          (b'/' ∷ b'.' ∷ drop u.path_start u.serialization) u.scheme_end b':'
          (get-take u.path_start u.serialization u.scheme_end b':' (omega (arith, e)) o.colon);
    scheme_ends = o.scheme_ends;
    username_ends = o.username_ends;
    host_ends = o.host_ends;
    path_starts = omega (arith, o.path_starts);
    authority = inl (
      omega (arith, e, o.scheme_ends, o.username_ends, o.host_ends, o.path_starts),
      inr (
        omega (arith, e),
        (
          get-middle (take u.path_start u.serialization) (b'.' ∷ drop u.path_start u.serialization)
              b'/' (u.scheme_end + 1)
              (omega (arith, e, length-take u.path_start u.serialization le)),
          get-second (take u.path_start u.serialization) (drop u.path_start u.serialization) b'/'
              b'.' (u.scheme_end + 2)
              (omega (arith, e, length-take u.path_start u.serialization le)),
        ),
      ),
    );
  },
  omega (
    arith,
    length-take u.path_start u.serialization le,
    length-append (take u.path_start u.serialization)
        (b'/' ∷ b'.' ∷ drop u.path_start u.serialization),
  ),
)

removed :
    (u : ParsedUrl)
    → Ready u
    → u.path_start ≡ u.scheme_end + 3
    → bytes_eq (take 3 (drop u.scheme_end u.serialization)) (codes ":/.") ≡ true
    → Ready (
        with_path u
          (take u.scheme_end u.serialization ++ b':' ∷ drop u.path_start u.serialization)
          (u.path_start - 2))
removed u (o, le) e f = elim (o.authority) [
  | inr (_, (_, k)) ↦ absurd (
      slash_is_no_dot (get_elem? u.serialization (u.scheme_end + 2)) k
        (third u.serialization u.scheme_end f))
  | inl (k, _) ↦
      let short : length (take u.scheme_end u.serialization) ≡ u.scheme_end =
        length-take u.scheme_end u.serialization (omega (arith, e, le)) in
      (
        record {
          colon =
              get-middle (take u.scheme_end u.serialization) (drop u.path_start u.serialization)
                b':' u.scheme_end (sym short);
          scheme_ends = o.scheme_ends;
          username_ends = o.username_ends;
          host_ends = o.host_ends;
          path_starts = omega (arith, e, k);
          authority = inl (k, inl (omega (arith, e)));
        },
        omega (
          arith,
          e,
          short,
          length-append (take u.scheme_end u.serialization)
              (b':' ∷ drop u.path_start u.serialization),
        ),
      )
]

guard_path-Ready : (u : ParsedUrl) → Ready u → Ready (guard_path u)
unfolding guard_path
guard_path-Ready u h = elim (Bool-cases (u.path_start == u.scheme_end + 1)) [
  | inl e ↦ elim (Bool-cases (starts_with (drop u.path_start u.serialization) (codes "//"))) [
    | inl f ↦ rw (e, f, guard_path) (inserted u h ((==_iff u.path_start (u.scheme_end + 1)).0 e))
    | inr f ↦ rw (e, f, guard_path) h
  ]
  | inr e ↦
      elim (Bool-cases (
        u.path_start == u.scheme_end + 3
        && bytes_eq (take 3 (drop u.scheme_end u.serialization)) (codes ":/.")
        && not (is_byte (get_elem? u.serialization (u.path_start + 1)) b'/'))) [
          | inl f ↦
              rw (e, f, guard_path)
                (removed u h ((==_iff u.path_start (u.scheme_end + 3)).0 (ground arith))
                  (ground arith))
          | inr f ↦ rw (e, f, guard_path) h
        ]
]

pub Behind-append :
    (s v o : Bytes) (scheme_end a b : ℕ)
    → o ≡ s ++ v
    → Behind s scheme_end a b
    → Behind o scheme_end a b
Behind-append s v o scheme_end a b e (j, k) = (
  ap (λ t. get_elem? t (scheme_end + 1)) e ∙ get-append s v (scheme_end + 1) a j,
  ap (λ t. get_elem? t (scheme_end + 2)) e ∙ get-append s v (scheme_end + 2) b k,
)

-- What is appended keeps the order.
Ordered-append :
    (u : ParsedUrl) (o : Bytes) (q f : Option ℕ)
    → Ordered u
    → Appended u.serialization o
    → Ordered (with_ends u (o, q, f))
Ordered-append u o q f h (v, e) = record {
  colon =
      ap (λ s. get_elem? s u.scheme_end) e ∙ get-append u.serialization v u.scheme_end b':' h.colon;
  scheme_ends = h.scheme_ends;
  username_ends = h.username_ends;
  host_ends = h.host_ends;
  path_starts = h.path_starts;
  authority = elim (h.authority) [
    | inl (k, inl p) ↦ inl (k, inl p)
    | inl (k, inr (p, bytes)) ↦ inl (k, inr (p, Behind-append u.serialization v o _ _ _ e bytes))
    | inr (l, bytes) ↦ inr (l, Behind-append u.serialization v o _ _ _ e bytes)
  ];
}

pub with_ends-IsRecord :
    (u : ParsedUrl) (ends : Bytes × Option ℕ × Option ℕ)
    → Ready u
    → Layout u.serialization ends
    → IsRecord (with_ends u ends)
with_ends-IsRecord u (o, q, f) (h, le) (w, v, e, i, j, n) =
    (Ordered-append u o q f h (_, e), (u.serialization, le, (w, v, e, i, j, n)))

pub with_query_and_fragment-IsRecord :
    (m : Memchr) (scheme_type : SchemeType) (u : ParsedUrl) (remaining : Bytes)
    → Ready u
    → IsBytes remaining
    → AtEnd false remaining
    → Holds IsRecord (with_query_and_fragment m scheme_type u remaining)
unfolding with_query_and_fragment
with_query_and_fragment-IsRecord m scheme_type u remaining h hb end =
    Holds-bind (Layout (guard_path u).serialization) IsRecord
      (parse_query_and_fragment m false scheme_type (guard_path u).serialization remaining) _
      (parse_query_and_fragment-Layout m scheme_type (guard_path u).serialization remaining hb end)
      (λ ends k. with_ends-IsRecord (guard_path u) ends (guard_path-Ready u h) k)
