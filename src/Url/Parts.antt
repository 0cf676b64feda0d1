-- ===== src/Url/Parts.antt =====
-- The getters of the path, the query and the fragment of a `Url` (src/lib.rs) cut its serialization
-- into pieces.
use sorug.Parser.Finish.Ordered.{IsRecord}
use sorug.Parser.Query.Layout.{query_part, fragment_part, Is}
use sorug.Parser.Record.{ParsedUrl, slice_between}
use sorug.Parser.Result.{ok, Holds}
use sorug.Parser.Url.{parse_url}
use sorug.Parser.Url.InOrder.{parse_url-IsRecord}
use sorug.Host.Special.{Idna}
use sorug.Scan.Memchr.{Memchr}
use sorug.Url.{Url, absent, or_absent, from_parsed, slice_from, query_end, path, query, fragment}
use sorug.Common.{
  ℕ, zero, suc, ◌==◌, ◌+◌, ◌-◌, ◌%◌, ◌^◌, ◌≤◌, ◌<◌, true, false, [], ◌∷◌, ◌++◌, Option, none, some,
  Bytes, IsBytes, append_assoc, take-append-drop, take-length-append, drop-length-append, length,
  length-append, take, drop, ◌≡◌, refl, sym, ap, ◌∙◌, subst, arith,
}

drop_exactly : (a t : Bytes) (i : ℕ) → i ≡ length a → drop i (a ++ t) ≡ t
drop_exactly a t i e = rw e (drop-length-append a t)

take_exactly : (a t : Bytes) (i : ℕ) → i ≡ length a → take i (a ++ t) ≡ a
take_exactly a t i e = rw e (take-length-append a t)

-- A slice at the bounds of a piece is the piece.
slice_piece :
    (s a b c : Bytes) (i j : ℕ)
    → s ≡ a ++ (b ++ c)
    → i ≡ length a
    → j ≡ length a + length b
    → slice_between s i j ≡ ok b
unfolding slice_between
slice_piece s a b c i j e k l =
    let size : length s ≡ length a + (length b + length c) =
      ap length e ∙ length-append a (b ++ c) ∙ ap (λ n. length a + n) (length-append b c) in
    let cut : take (j - i) (drop i s) ≡ b =
      ap (λ x. take (j - i) (drop i x)) e
      ∙ ap (take (j - i)) (drop_exactly a (b ++ c) i k)
      ∙ take_exactly b c (j - i) (omega (arith, k, l)) in
    ground (arith, size, cut, k, l)

slice_rest : (s a b : Bytes) (i : ℕ) → s ≡ a ++ b → i ≡ length a → slice_from s i ≡ ok b
unfolding slice_from
slice_rest s a b i e k =
    let size : length s ≡ length a + length b = ap length e ∙ length-append a b in
    let cut : drop i s ≡ b = ap (drop i) e ∙ drop_exactly a b i k in ground (arith, size, cut, k)

-- The pieces of a serialization, behind the ones of the authority.
record Cuts (u : Url) (a p w v : Bytes) (q f : Option ℕ) : Type 0 where
  whole : u.serialization ≡ a ++ (p ++ (query_part q w ++ fragment_part f v))
  small : length u.serialization < absent
  at_path : u.path_start ≡ length a
  query_is : u.query_start ≡ or_absent q
  fragment_is : u.fragment_start ≡ or_absent f
  at_query : Is q (length a + length p)
  at_fragment : Is f (length a + length p + length (query_part q w))

sizes :
    (s a p x y : Bytes)
    → s ≡ a ++ (p ++ (x ++ y))
    → length s ≡ length a + length p + length x + length y
sizes s a p x y e =
    rw (e, length-append a (p ++ (x ++ y)), length-append p (x ++ y), length-append x y)
      (omega arith)

at_offset : (o : ℕ) (i n : ℕ) → o ≡ i → i ≡ n → n < absent → (o == absent) ≡ false
at_offset o i n e k lt = ground arith

query_ends :
    (u : Url) (a p w v : Bytes) (q f : Option ℕ)
    → Cuts u a p w v q f
    → query_end u ≡ length a + length p + length (query_part q w)
unfolding query_end or_absent
query_ends u a p w v q none c =
    let size : _ = sizes u.serialization a p (query_part q w) [] c.whole in
    let e : (u.fragment_start == absent) ≡ true = ground (arith, c.fragment_is) in
    let m : length u.serialization % 2 ^ 32 ≡ length u.serialization = omega (arith, c.small) in
    rw e (m ∙ size ∙ omega arith)
query_ends u a p w v q (some i) c =
    let size : _ = sizes u.serialization a p (query_part q w) (b'#' ∷ v) c.whole in
    let e : (u.fragment_start == absent) ≡ false =
      at_offset u.fragment_start i (length a + length p + length (query_part q w)) c.fragment_is
        c.at_fragment (omega (arith, size, c.small)) in
    rw e (c.fragment_is ∙ c.at_fragment)

path_piece : (u : Url) (a p w v : Bytes) (q f : Option ℕ) → Cuts u a p w v q f → path u ≡ ok p
unfolding path or_absent
path_piece u a p w v none f c =
    let e : (u.query_start == absent) ≡ true = ground (arith, c.query_is) in
    let ends : query_end u ≡ length a + length p = query_ends u a p w v none f c ∙ omega arith in
    rw e (
      slice_piece u.serialization a p (fragment_part f v) u.path_start (query_end u) c.whole
        c.at_path ends)
path_piece u a p w v (some i) f c =
    let size : _ = sizes u.serialization a p (b'?' ∷ w) (fragment_part f v) c.whole in
    let e : (u.query_start == absent) ≡ false =
      at_offset u.query_start i (length a + length p) c.query_is c.at_query
        (omega (arith, size, c.small)) in
    rw e (
      slice_piece u.serialization a p ((b'?' ∷ w) ++ fragment_part f v) u.path_start u.query_start
        c.whole c.at_path (c.query_is ∙ c.at_query))

-- A text, where there is an offset.
abbrev only : Option ℕ → Bytes → Option Bytes
only none w = none
only (some i) w = some w

query_piece :
    (u : Url) (a p w v : Bytes) (q f : Option ℕ) → Cuts u a p w v q f → query u ≡ ok (only q w)
unfolding query or_absent
query_piece u a p w v none f c =
    let e : (u.query_start == absent) ≡ true = ground (arith, c.query_is) in rw e refl
query_piece u a p w v (some i) f c =
    let size : _ = sizes u.serialization a p (b'?' ∷ w) (fragment_part f v) c.whole in
    let e : (u.query_start == absent) ≡ false =
      at_offset u.query_start i (length a + length p) c.query_is c.at_query
        (omega (arith, size, c.small)) in
    let long : length ((a ++ p) ++ b'?' ∷ []) ≡ length a + length p + 1 =
      length-append (a ++ p) (b'?' ∷ []) ∙ ap (λ n. n + 1) (length-append a p) in
    let cut : slice_between u.serialization ((u.query_start + 1) % 2 ^ 32) (query_end u) ≡ ok w =
      slice_piece u.serialization ((a ++ p) ++ b'?' ∷ []) w (fragment_part f v)
        ((u.query_start + 1) % 2 ^ 32) (query_end u)
        (c.whole
          ∙ sym (append_assoc (a ++ p) (b'?' ∷ []) (w ++ fragment_part f v) ∙ append_assoc a p _))
        (omega (arith, long, c.query_is, c.at_query, size, c.small))
        (query_ends u a p w v (some i) f c ∙ omega (arith, long)) in
    rw (e, cut) refl

fragment_piece :
    (u : Url) (a p w v : Bytes) (q f : Option ℕ) → Cuts u a p w v q f → fragment u ≡ ok (only f v)
unfolding fragment or_absent
fragment_piece u a p w v q none c =
    let e : (u.fragment_start == absent) ≡ true = ground (arith, c.fragment_is) in rw e refl
fragment_piece u a p w v q (some i) c =
    let size : _ = sizes u.serialization a p (query_part q w) (b'#' ∷ v) c.whole in
    let e : (u.fragment_start == absent) ≡ false =
      at_offset u.fragment_start i (length a + length p + length (query_part q w)) c.fragment_is
        c.at_fragment (omega (arith, size, c.small)) in
    let long : length ((a ++ (p ++ query_part q w)) ++ b'#' ∷ [])
        ≡ length a + length p + length (query_part q w) + 1 =
      length-append (a ++ (p ++ query_part q w)) (b'#' ∷ [])
      ∙ ap (λ n. n + 1)
          (length-append a (p ++ query_part q w)
            ∙ ap (λ n. length a + n) (length-append p (query_part q w)))
      ∙ omega arith in
    let cut : slice_from u.serialization (u.fragment_start + 1) ≡ ok v =
      slice_rest u.serialization ((a ++ (p ++ query_part q w)) ++ b'#' ∷ []) v
        (u.fragment_start + 1)
        (c.whole
          ∙ sym (
              append_assoc (a ++ (p ++ query_part q w)) (b'#' ∷ []) v
              ∙ append_assoc a (p ++ query_part q w) _
              ∙ ap (λ x. a ++ x) (append_assoc p (query_part q w) _)))
        (omega (arith, long, c.fragment_is, c.at_fragment)) in
    rw (e, cut) refl

take_more : (n : ℕ) (s t : Bytes) → n ≤ length s → take n (s ++ t) ≡ take n s
take_more zero s t le = refl
take_more (suc n) [] t le = absurd (omega arith)
take_more (suc n) (x ∷ s) t le = ap (λ l. x ∷ l) (take_more n s t (omega arith))

taken : (n : ℕ) (s : Bytes) → n ≤ length s → n ≡ length (take n s)
taken zero s le = refl
taken (suc n) [] le = absurd (omega arith)
taken (suc n) (x ∷ s) le = ap suc (taken n s (omega arith))

-- A text behind its delimiter, where there is one.
abbrev pub marked : ℕ → Option Bytes → Bytes
marked c none = []
marked c (some w) = c ∷ w

marked_query : (q : Option ℕ) (w : Bytes) → query_part q w ≡ marked b'?' (only q w)
marked_query none w = refl
marked_query (some i) w = refl

marked_fragment : (f : Option ℕ) (v : Bytes) → fragment_part f v ≡ marked b'#' (only f v)
marked_fragment none v = refl
marked_fragment (some i) v = refl

-- The getters return the pieces behind the authority, and these make up the serialization.
abbrev pub Parts : ParsedUrl → Type 0
Parts u =
    (p : Bytes) × (q : Option Bytes) × (f : Option Bytes) × (path (from_parsed u) ≡ ok p)
    × (query (from_parsed u) ≡ ok q)
    × (fragment (from_parsed u) ≡ ok f)
    × (u.serialization
        ≡ take u.path_start u.serialization ++ (p ++ (marked b'?' q ++ marked b'#' f)))

IsRecord-Parts : (u : ParsedUrl) → IsRecord u → length u.serialization < 2 ^ 32 - 1 → Parts u
IsRecord-Parts u (o, (out, le, (w, v, e, iq, jf, n))) lt =
    let split : out ≡ take u.path_start out ++ drop u.path_start out =
      sym (take-append-drop u.path_start out) in
    let whole : u.serialization
        ≡ take u.path_start out
          ++ (drop u.path_start out
              ++ (query_part u.query_start w ++ fragment_part u.fragment_start v)) =
      e
      ∙ ap (λ x. x ++ (query_part u.query_start w ++ fragment_part u.fragment_start v)) split
      ∙ append_assoc (take u.path_start out) (drop u.path_start out)
          (query_part u.query_start w ++ fragment_part u.fragment_start v) in
    let size : length out ≡ length (take u.path_start out) + length (drop u.path_start out) =
      ap length split ∙ length-append _ _ in
    let c : Cuts (from_parsed u) (take u.path_start out) (drop u.path_start out) w v u.query_start
        u.fragment_start =
      record {
        whole = whole;
        small = lt;
        at_path = taken u.path_start out le;
        query_is = refl;
        fragment_is = refl;
        at_query = subst (Is u.query_start) size iq;
        at_fragment =
            subst (λ k. Is u.fragment_start (k + length (query_part u.query_start w))) size jf;
      } in
    let head : take u.path_start u.serialization ≡ take u.path_start out =
      ap (take u.path_start) e ∙ take_more u.path_start out _ le in
    (
      drop u.path_start out,
      only u.query_start w,
      only u.fragment_start v,
      path_piece (from_parsed u) _ _ w v u.query_start u.fragment_start c,
      query_piece (from_parsed u) _ _ w v u.query_start u.fragment_start c,
      fragment_piece (from_parsed u) _ _ w v u.query_start u.fragment_start c,
      rw (head, sym (marked_query u.query_start w), sym (marked_fragment u.fragment_start v)) whole,
    )

-- The URL parser takes bytes without a base. Of a record that it makes, whose text fits, the path,
-- the query and the fragment are slices, and with their delimiters they make up the serialization
-- behind the authority.
pub parse_url-Parts :
    (m : Memchr) (idna : Idna) (input : Bytes) (u : ParsedUrl)
    → IsBytes input
    → parse_url m idna none input ≡ ok u
    → length u.serialization < 2 ^ 32 - 1
    → Parts u
parse_url-Parts m idna input u h e lt =
    IsRecord-Parts u (subst (Holds IsRecord) e (parse_url-IsRecord m idna input h)) lt
