-- ===== src/Parser/Path/Resolved.antt =====
-- What `parse_path` of src/parser/mod.rs leaves: a path without dot segments behind the text that
-- was there.
use sorug.Parser.Drive.{is_windows_drive_letter, starts_with_windows_drive_letter}
use sorug.Parser.Path.{
  drive_of, Segment, SegAction, dot_dot, dot, other, win_drive, seg_action, act, is_dot, is_dot_dot,
  segment_of, finish_segment, write_segment, path_loop, parse_path,
}
use sorug.Parser.Path.Chars.{write_segment-Appends}
use sorug.Parser.Path.Segment.{Appends, AtEnd, Rest}
use sorug.Parser.Path.Segments.{
  NoDots, NoSlash, Closed, Closed-Slashed, is_dot_segment, no_dot_segment, NoDots-add, NoDots-slash,
}
use sorug.Parser.Path.Shorten.{Shaped, starts, drop_last, dot_dot-Shaped, with_slash-Shaped}
use sorug.Parser.Result.{ok, Returns, Returns-bind, Returns-map, ◌>>=◌}
use sorug.Port.{SchemeType, is_file}
use sorug.Scan.Memchr.{Memchr}
use sorug.Common.{
  ℕ, zero, suc, ◌<◌, Bool, true, false, ◌&&◌, [], ◌∷◌, ◌++◌, append_assoc, Bytes, IsBytes, bytes_eq,
  length, drop, ◌==◌, all, if◌then◌else◌, Bool-cases, inl, inr, ◌≡◌, refl, sym, ap, ◌∙◌, subst,
  arith, drop-length-append,
}

-- What an action says of its segment.
abbrev Fits : Bytes → SegAction → Type 0
Fits s dot_dot = Unit
Fits s dot = Unit
Fits s other = is_dot_segment s ≡ false
Fits s (win_drive c) = (c == b'/') ≡ false

drive-Fits : (s : Bytes) → is_windows_drive_letter s ≡ true → Fits s (drive_of s)
unfolding is_windows_drive_letter starts_with_windows_drive_letter
drive-Fits [] e = ground arith
drive-Fits (a ∷ []) e = ground arith
drive-Fits (a ∷ b ∷ []) e = ground arith
drive-Fits (a ∷ b ∷ c ∷ s) e = ground arith

seg_action-Fits :
    (file : Bool) (path_start : ℕ) (before s : Bytes) → Fits s (seg_action file path_start before s)
unfolding seg_action
seg_action-Fits file path_start before s = elim (Bool-cases (is_dot_dot s)) [
  | inl e ↦ rw e tt
  | inr e ↦ elim (Bool-cases (is_dot s)) [
    | inl f ↦ rw (e, f) tt
    | inr f ↦
        elim (Bool-cases
          (file && is_windows_drive_letter s && all (λ b. b == b'/') (drop path_start before))) [
            | inl g ↦ rw (e, f, g) (drive-Fits s (ground arith))
            | inr g ↦ rw (e, f, g) (no_dot_segment s f e)
          ]
  ]
]

drive_no_dots : (c : ℕ) → is_dot_segment (c ∷ b':' ∷ []) ≡ false
unfolding is_dot is_dot_dot bytes_eq
drive_no_dots c = ground arith

-- The path that a round leaves: with a slash behind it, another round follows.
abbrev Shape : Bool → Bytes → Type 0
Shape true t = Closed t
Shape false t = Unit

starts-append : (t s : Bytes) → starts t ≡ true → starts (t ++ s) ≡ true
starts-append [] s e = ground arith
starts-append (c ∷ t) s e = e

abbrev written : Bool → Bytes → Bytes
written slash s = if slash then s ++ b'/' ∷ [] else s

segment_of-written :
    (before s : Bytes) (slash : Bool)
    → segment_of (length before) slash (before ++ written slash s) ≡ s
segment_of-written before s true =
    rw (drop_last before (s ++ b'/' ∷ []) s refl) (drop-length-append before s)
segment_of-written before s false = drop-length-append before s

module _ (base : Bytes) (rooted : Bool) where
  added :
      (before s : Bytes) (slash : Bool)
      → Shaped Closed base rooted before
      → NoSlash s
      → is_dot_segment s ≡ false
      → Shaped (Shape slash) base rooted (before ++ written slash s)
  added before s true (t, e, d, c, r) n f = (
    t ++ (s ++ b'/' ∷ []),
    ap (λ x. x ++ (s ++ b'/' ∷ [])) e ∙ append_assoc base t (s ++ b'/' ∷ []),
    subst NoDots (append_assoc t s (b'/' ∷ [])) (NoDots-slash (t ++ s) (NoDots-add t s c d n f)),
    inr (t ++ s, sym (append_assoc t s (b'/' ∷ []))),
    λ x. starts-append t (s ++ b'/' ∷ []) (r x),
  )
  added before s false (t, e, d, c, r) n f = (
    t ++ s,
    ap (λ x. x ++ s) e ∙ append_assoc base t s,
    NoDots-add t s c d n f,
    tt,
    λ x. starts-append t s (r x),
  )

  closed :
      (slash : Bool) (out : Bytes)
      → Shaped Closed base rooted out
      → Shaped (Shape slash) base rooted out
  closed true out s = s
  closed false out (t, e, d, c, r) = (t, e, d, tt, r)

  act-Shaped :
      (file slash : Bool) (before s : Bytes) (a : SegAction)
      → Shaped Closed base rooted before
      → NoSlash s
      → Fits s a
      → Returns
          (Shaped (Shape slash) base rooted)
          (act file (length base) before slash (before ++ written slash s) a)
  unfolding act
  act-Shaped file slash before s other h n f = added before s slash h n f
  act-Shaped file slash before s dot (t, e, d, c, r) n f =
      closed slash _ (with_slash-Shaped base rooted file before (t, e, d, Closed-Slashed t c, r))
  act-Shaped file slash before s dot_dot h n f =
      Returns-map (Shaped Closed base rooted) (Shaped (Shape slash) base rooted) _ (closed slash)
        (dot_dot-Shaped base rooted file before h)
  act-Shaped file true before s (win_drive c) h n f =
      added before (c ∷ b':' ∷ []) true h (f, (refl, tt)) (drive_no_dots c)
  act-Shaped file false before s (win_drive c) h n f =
      added before (c ∷ b':' ∷ []) false h (f, (refl, tt)) (drive_no_dots c)

module _ (m : Memchr) (for_setter : Bool) (scheme_type : SchemeType) (base : Bytes)
    (rooted : Bool) where
  -- What a round leaves.
  abbrev Round : Bytes → Segment → Type 0
  Round input (o, slash, rest) =
      Shaped (Shape slash) base rooted o × IsBytes rest × Rest for_setter input slash rest

  finish_segment-Round :
      (before input : Bytes) (r : Segment)
      → Shaped Closed base rooted before
      → Appends for_setter before input r
      → Returns (Round input) (finish_segment m for_setter scheme_type (length base) before r)
  unfolding finish_segment
  finish_segment-Round before input (o, slash, rest) h (s, e, n, hb, hr) =
      rw (e, segment_of-written before s slash)
        (Returns-bind (Shaped (Shape slash) base rooted) (Round input)
          (act (is_file scheme_type) (length base) before slash (before ++ written slash s)
            (seg_action (is_file scheme_type) (length base) before s))
          (λ o. ok (o, slash, rest))
          (act-Shaped base rooted (is_file scheme_type) slash before s
            (seg_action (is_file scheme_type) (length base) before s) h n
            (seg_action-Fits (is_file scheme_type) (length base) before s))
          (λ o k. (k, hb, hr)))

  -- What the whole loop leaves.
  abbrev pub Resolved : Bytes × Bytes → Type 0
  Resolved (o, rest) =
      (t : Bytes) × (o ≡ base ++ t)
      × NoDots t
      × (rooted ≡ true → starts t ≡ true)
      × AtEnd for_setter rest
      × IsBytes rest

  path_loop-Resolved :
      (fuel : ℕ) (out input : Bytes)
      → IsBytes input
      → length input < fuel
      → Shaped Closed base rooted out
      → Returns Resolved (path_loop m for_setter scheme_type (length base) fuel out input)
  unfolding path_loop
  path_loop-Resolved zero out input hb lt h = absurd (omega arith)
  path_loop-Resolved (suc fuel) out input hb lt h =
      Returns-bind (Round input) Resolved
        (write_segment m for_setter scheme_type (length base) out input
          >>= finish_segment m for_setter scheme_type (length base) out)
        (λ r. elim r.1 [
          | true ↦ path_loop m for_setter scheme_type (length base) fuel r.0 r.2
          | false ↦ ok (r.0, r.2)
        ])
        (Returns-bind (Appends for_setter out input) (Round input)
          (write_segment m for_setter scheme_type (length base) out input)
          (finish_segment m for_setter scheme_type (length base) out)
          (write_segment-Appends m for_setter scheme_type (length base) out input hb)
          (λ r. finish_segment-Round out input r h))
        (next_round (path_loop-Resolved fuel))
    where
      next_round :
          ((o rest : Bytes)
            → IsBytes rest
            → length rest < fuel
            → Shaped Closed base rooted o
            → Returns Resolved (path_loop m for_setter scheme_type (length base) fuel o rest))
          → (r : Segment) → Round input r
          → Returns Resolved (elim r.1 [
            | true ↦ path_loop m for_setter scheme_type (length base) fuel r.0 r.2
            | false ↦ ok (r.0, r.2)
          ])
      next_round later (o, true, rest) (s, hr, less) = later o rest hr (omega (arith, less, lt)) s
      next_round later (o, false, rest) ((t, e, d, c, r), hr, end) = (t, e, d, r, end, hr)

  -- The path parser takes a serialization that ends in a path without dot segments, which is empty or
  -- ends in a slash, and text in bytes. It does not panic, its fuel is enough, and it keeps what stands
  -- before the path; the new path has no dot segment, percent-encoded or not, and starts with a slash
  -- if the old one does (`rooted`). It stops at the end of the text, or, outside a setter, at a
  -- question mark or hash sign.
  pub parse_path-Resolved :
      (t input : Bytes)
      → IsBytes input
      → NoDots t
      → Closed t
      → (rooted ≡ true → starts t ≡ true)
      → Returns Resolved (parse_path m for_setter scheme_type (length base) (base ++ t) input)
  unfolding parse_path
  parse_path-Resolved t input hb d c r =
      path_loop-Resolved (suc (length input)) (base ++ t) input hb (omega arith) (t, refl, d, c, r)
