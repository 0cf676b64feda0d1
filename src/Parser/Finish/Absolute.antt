-- ===== src/Parser/Finish/Absolute.antt =====
-- The records of absolute URLs (`parse_non_special` and `after_double_slash`, src/parser/mod.rs) are
-- in order.
use sorug.Host.Special.{Idna}
use sorug.Parser.Authority.{parse_host_and_port}
use sorug.Parser.Authority.Ends.{Hosted, parse_host_and_port-Hosted, split_prefix_char-IsBytes}
use sorug.Parser.Finish.{skip_slashes, parse_non_special, after_double_slash}
use sorug.Parser.Finish.Ordered.{
  Behind, Behind-append, get-second, Ready, IsRecord, get-append, get-middle,
  with_query_and_fragment-IsRecord,
}
use sorug.Parser.Input.{is_ascii_tab_or_newline, split_prefix_char}
use sorug.Parser.Path.{parse_path, parse_path_start}
use sorug.Parser.Path.Resolved.{Resolved}
use sorug.Parser.Path.Start.{parse_path_start-Resolved, from_slash}
use sorug.Parser.Query.{parse_opaque_path}
use sorug.Parser.Query.Growth.{Appended, Appended-trans}
use sorug.Parser.Query.Layout.{Returns-Holds}
use sorug.Parser.Query.Opaque.{Ended, parse_opaque_path-Ended}
use sorug.Parser.Record.{slice_between}
use sorug.Parser.Result.{ok, to_u32, Returns-map, Holds, Holds-bind, Holds-to_u32}
use sorug.Parser.Userinfo.{parse_userinfo}
use sorug.Parser.Userinfo.Bounds.{Credited, parse_userinfo-Credited, Appended-length}
use sorug.Port.{SchemeType, is_special}
use sorug.Scan.Memchr.{Memchr}
use sorug.Common.{
  ℕ, ◌+◌, ◌≤◌, Bool, true, false, not, ◌&&◌, ◌||◌, [], ◌∷◌, ◌++◌, Option, none, Bytes, IsBytes,
  get_elem?, length, length-append, ◌==◌, if◌then◌else◌, Bool-cases, Option-cases, inl, inr, ◌≡◌,
  refl, ap, ◌∙◌, subst, arith, OnSome,
}

pub Resolved-Ended :
    (m : Memchr) (scheme_type : SchemeType) (out : Bytes) (rooted : Bool) (r : Bytes × Bytes)
    → Resolved m false scheme_type out rooted r
    → Ended out r
Resolved-Ended m scheme_type out rooted (o, rest) (t, e, d, s, end, h) = ((t, e), end, h)

pub path-Ended :
    (m : Memchr) (scheme_type : SchemeType) (out input : Bytes)
    → IsBytes input
    → Holds (Ended out) (parse_path m false scheme_type (length out) (out ++ b'/' ∷ []) input)
path-Ended m scheme_type out input h = Returns-Holds (Ended out) _ (
    Returns-map (Resolved m false scheme_type out false) (Ended out) _
      (Resolved-Ended m scheme_type out false) (from_slash m false scheme_type out false input h))

pub path_start-Ended :
    (m : Memchr) (scheme_type : SchemeType) (out input : Bytes)
    → IsBytes input
    → Holds (Ended out) (parse_path_start m false scheme_type out input)
path_start-Ended m scheme_type out input h = Returns-Holds (Ended out) _ (
    Returns-map (Resolved m false scheme_type out (is_special scheme_type)) (Ended out) _
      (Resolved-Ended m scheme_type out (is_special scheme_type))
      (parse_path_start-Resolved m false scheme_type out input h))

skip_slashes-IsBytes : (s t : Bytes) → IsBytes s → IsBytes t → IsBytes (skip_slashes s t)
unfolding skip_slashes
skip_slashes-IsBytes [] t h k = k
skip_slashes-IsBytes (c ∷ s) t (lt, h) k = elim (Bool-cases (is_ascii_tab_or_newline c)) [
  | inl e ↦ rw e (skip_slashes-IsBytes s t h k)
  | inr e ↦ elim (Bool-cases (c == b'/' || c == b'\\')) [
    | inl f ↦ rw (e, f) (skip_slashes-IsBytes s s h h)
    | inr f ↦ rw (e, f) k
  ]
]

-- A URL without an authority: all offsets up to the path stand behind the colon.
module _ (name : Bytes) where
  abbrev head : Bytes
  head = name ++ b':' ∷ []

  bare-Ready :
      (o : Bytes) (n : ℕ) (flags : ℕ)
      → Appended head o
      → n ≡ length head
      → Ready (record {
        serialization = o;
        scheme_end = length name;
        username_end = n;
        host_start = n;
        host_end = n;
        port = none;
        path_start = n;
        query_start = none;
        fragment_start = none;
        flags = flags;
      })
  bare-Ready o n flags (v, e) k =
      let l = length-append name (b':' ∷ []) in
      (
        record {
          colon =
              ap (λ s. get_elem? s (length name)) e
              ∙ get-append head v (length name) b':' (get-middle name [] b':' (length name) refl);
          scheme_ends = omega (arith, k, l);
          username_ends = omega arith;
          host_ends = omega arith;
          path_starts = omega arith;
          authority = inl (omega (arith, k, l), inl (omega (arith, k, l)));
        },
        omega (arith, k, Appended-length head o (v, e)),
      )

  pub parse_non_special-IsRecord :
      (m : Memchr) (scheme_type : SchemeType) (input : Bytes)
      → IsBytes input
      → Holds IsRecord (parse_non_special m scheme_type (length name) head input)
  unfolding parse_non_special
  parse_non_special-IsRecord m scheme_type input h =
      Holds-bind (λ j. j ≡ length head) IsRecord (to_u32 (length head)) _
        (Holds-to_u32 (length head))
        (λ j k. elim (Option-cases (split_prefix_char input b'/')) [
          | inl e ↦
              rw (e, k)
                (Holds-bind (Ended head) IsRecord (parse_opaque_path m head input) _
                  (Returns-Holds (Ended head) _ (parse_opaque_path-Ended m head input h))
                  (λ r (a, end, hb).
                    with_query_and_fragment-IsRecord m scheme_type _ r.1
                      (bare-Ready r.0 (length head) _ a refl) hb end))
          | inr (rest, e) ↦
              rw (e, k)
                (Holds-bind (Ended head) IsRecord
                  (parse_path m false scheme_type (length head) (head ++ b'/' ∷ []) rest) _
                  (path-Ended m scheme_type head rest
                    (subst (OnSome IsBytes) e (split_prefix_char-IsBytes input b'/' h)))
                  (λ r (a, end, hb).
                    with_query_and_fragment-IsRecord m scheme_type _ r.1
                      (bare-Ready r.0 (length head) _ a refl) hb end))
        ])

  abbrev before : Bytes
  before = head ++ (b'/' ∷ b'/' ∷ [])

  slashes : Behind before (length name) b'/' b'/'
  slashes = (
    get-middle head (b'/' ∷ []) b'/' (length name + 1)
        (omega (arith, length-append name (b':' ∷ []))),
    get-second head [] b'/' b'/' (length name + 2) (omega (arith, length-append name (b':' ∷ []))),
  )

  full-Ready :
      (o : Bytes) (u h he p : ℕ) (port : Option ℕ) (flags : ℕ)
      → Appended before o
      → length before ≤ u
      → u ≤ h
      → h ≤ he
      → he ≤ p
      → p ≤ length o
      → Ready (record {
        serialization = o;
        scheme_end = length name;
        username_end = u;
        host_start = h;
        host_end = he;
        port = port;
        path_start = p;
        query_start = none;
        fragment_start = none;
        flags = flags;
      })
  full-Ready o u h he p port flags (v, e) l1 l2 l3 l4 l5 =
      let l = length-append name (b':' ∷ []) in
      let l' = length-append head (b'/' ∷ b'/' ∷ []) in
      (
        record {
          colon =
              ap (λ s. get_elem? s (length name)) e
              ∙ get-append before v (length name) b':' (
                  get-append head (b'/' ∷ b'/' ∷ []) (length name) b':'
                    (get-middle name [] b':' (length name) refl));
          scheme_ends = omega (arith, l, l', l1);
          username_ends = l2;
          host_ends = l3;
          path_starts = l4;
          authority = inr (
            omega (arith, l, l', l1),
            Behind-append before v o (length name) b'/' b'/' e slashes,
          );
        },
        l5,
      )

  slice_between-Holds :
      (empty : Bool) (s : Bytes) (a b : ℕ)
      → a ≤ b
      → b ≤ length s
      → Holds (λ t. Unit) (if empty then ok [] else slice_between s a b)
  unfolding slice_between
  slice_between-Holds true s a b l k = tt
  slice_between-Holds false s a b l k = ground arith

  pub after_double_slash-IsRecord :
      (m : Memchr) (idna : Idna) (scheme_type : SchemeType) (input : Bytes)
      → IsBytes input
      → Holds IsRecord (after_double_slash m idna scheme_type (length name) head input)
  unfolding after_double_slash
  after_double_slash-IsRecord m idna scheme_type input h =
      let text = if is_special scheme_type then skip_slashes input input else input in
      let size : length name ≤ length before =
        omega (arith, length-append name (b':' ∷ []), length-append head (b'/' ∷ b'/' ∷ [])) in
      Holds-bind (Credited before) IsRecord (parse_userinfo m before text scheme_type) _
        (parse_userinfo-Credited m before text scheme_type (text-IsBytes (is_special scheme_type)))
        (λ c (a, lo, hi, hb).
          Holds-bind (λ j. j ≡ length c.0) IsRecord (to_u32 (length c.0)) _
            (Holds-to_u32 (length c.0))
            (λ host_start e.
              Holds-bind (Hosted m idna c.0) IsRecord
                (parse_host_and_port m idna c.0 c.2 (length name) scheme_type) _
                (parse_host_and_port-Hosted m idna c.0 c.2 (length name) scheme_type
                  (omega (arith, size, Appended-length before c.0 a)) hb)
                (λ r (b, lo', hi', hb').
                  elim (Bool-cases (r.5 && not (length before == length c.0))) [
                    | inl f ↦ rw (f, Holds) tt
                    | inr f ↦ rw f (
                        Holds-bind (λ j. j ≡ length r.0) IsRecord (to_u32 (length r.0)) _
                          (Holds-to_u32 (length r.0))
                          (λ path_start k.
                            Holds-bind (Ended r.0) IsRecord
                              (parse_path_start m false scheme_type r.0 r.4) _
                              (path_start-Ended m scheme_type r.0 r.4 hb')
                              (λ p (g, end, hp).
                                Holds-bind (λ t. Unit) IsRecord
                                  (if r.5 then ok [] else slice_between p.0 host_start r.1) _
                                  (slice_between-Holds r.5 p.0 host_start r.1
                                    (omega (arith, e, lo'))
                                    (omega (arith, hi', Appended-length r.0 p.0 g)))
                                  (λ host _.
                                    with_query_and_fragment-IsRecord m scheme_type _ p.1
                                      (full-Ready p.0 c.1 host_start r.1 path_start r.3 _
                                        (Appended-trans before c.0 p.0 a
                                          (Appended-trans c.0 r.0 p.0 b g))
                                        lo (omega (arith, e, hi)) (omega (arith, e, lo'))
                                        (omega (arith, k, hi'))
                                        (omega (arith, k, Appended-length r.0 p.0 g)))
                                      hp end))))
                  ])))
    where
      text-IsBytes :
          (special : Bool) → IsBytes (if special then skip_slashes input input else input)
      text-IsBytes true = skip_slashes-IsBytes input input h h
      text-IsBytes false = h
