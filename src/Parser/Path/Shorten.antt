-- ===== src/Parser/Path/Shorten.antt =====
-- What the dot segments do to a path (`pop_path`, `shorten_path` and the actions of `parse_path`,
-- src/parser/mod.rs): what stands before the path is kept, and no dot segment appears.
use sorug.Parser.Drive.{
  rfind, ends_with, is_normalized_windows_drive_letter, last_slash_can_be_removed,
  path_starts_with_windows_drive_letter,
}
use sorug.Parser.Path.{pop_path, shorten_path, remove_slash, with_slash}
use sorug.Parser.Path.Segments.{
  NoDots, Closed, Slashed, CutAt, rfind-CutAt, no_slash, NoDots-parts, NoDots-slash,
  ends_with-append, ends_with-last, Closed-Slashed,
}
use sorug.Parser.Result.{ok, panicked, ◌>>=◌, Returns, Returns-bind}
use sorug.Common.{
  ℕ, zero, suc, ◌+◌, ◌-◌, ◌≤◌, Bool, true, false, not, ◌&&◌, [], ◌∷◌, ◌++◌, append_assoc,
  append-nil, Option, none, some, Bytes, length, take, drop, ltb, leb, ◌==◌, if◌then◌else◌,
  Bool-cases, inl, inr, ◌≡◌, refl, sym, ap, ◌∙◌, subst, arith, length-append, drop-length-append,
  take-length-append,
}

-- The path starts with a slash.
abbrev pub starts : Bytes → Bool
starts [] = false
starts (c ∷ t) = c == b'/'

-- The serialization is `base` and a path without dot segments, of the shape `S`, which starts with a
-- slash if `rooted`.
abbrev pub Shaped : (Bytes → Type 0) → Bytes → Bool → Bytes → Type 0
Shaped S base rooted out =
    (t : Bytes) × (out ≡ base ++ t) × NoDots t × S t × (rooted ≡ true → starts t ≡ true)

take-append :
    (base t : Bytes) (n m : ℕ) → m ≡ length base + n → take m (base ++ t) ≡ base ++ take n t
take-append [] t n m e = ap (λ i. take i t) (omega arith)
take-append (b ∷ base) t n zero e = absurd (omega arith)
take-append (b ∷ base) t n (suc m) e = ap (λ l. b ∷ l) (take-append base t n m (omega arith))

starts-cut : (v w : Bytes) → starts (v ++ b'/' ∷ w) ≡ starts (v ++ b'/' ∷ [])
starts-cut [] w = refl
starts-cut (c ∷ v) w = refl

-- A path that is empty stays so below; one that is not has its first byte.
module _ (base : Bytes) (rooted file : Bool) where
  with_slash-path :
      (t : Bytes)
      → NoDots t
      → (rooted ≡ true → starts t ≡ true)
      → Shaped Closed base rooted (with_slash (base ++ t))
  with_slash-path [] d r = elim (Bool-cases (ends_with (base ++ []) b'/')) [
    | inl e ↦ rw e ([], refl, d, inl refl, r)
    | inr e ↦ rw (e, append-nil) (b'/' ∷ [], refl, NoDots-slash [] d, inr ([], refl), λ h. refl)
  ]
  with_slash-path (x ∷ t) d r = elim (Bool-cases (ends_with (base ++ x ∷ t) b'/')) [
    | inl e ↦
        let (u, k) = ends_with-last (x ∷ t) b'/' (sym (ends_with-append base x t b'/') ∙ e) in
        rw e (x ∷ t, refl, d, inr (u, k), r)
    | inr e ↦ rw e (
      (x ∷ t) ++ b'/' ∷ [],
      append_assoc base (x ∷ t) (b'/' ∷ []),
      NoDots-slash (x ∷ t) d,
      inr (x ∷ t, refl),
      r,
    )
  ]

  pub with_slash-Shaped :
      (out : Bytes) → Shaped Slashed base rooted out → Shaped Closed base rooted (with_slash out)
  with_slash-Shaped out (t, e, d, s, r) = rw e (with_slash-path t d r)

  nonempty : (t : Bytes) → ltb (length base) (length (base ++ t)) ≡ true → ltb 0 (length t) ≡ true
  nonempty t e = ground (arith, length-append base t)

  -- The path up to the slash that the search found.
  cut :
      (t : Bytes)
      → Slashed t
      → NoDots t
      → (rooted ≡ true → starts t ≡ true)
      → ltb 0 (length t) ≡ true
      → (o : Option ℕ) → CutAt b'/' t o
      → Returns (Shaped Slashed base rooted) (elim o [
        | none ↦ panicked
        | some position ↦
            let segment_start = length base + position + 1 in
            if file && is_normalized_windows_drive_letter (drop segment_start (base ++ t))
            then ok (base ++ t)
            else ok (take segment_start (base ++ t))
      ])
  cut t s d r lt none h = let e : length t ≡ 0 = ap length (no_slash t s h) in ground arith
  cut t s d r lt (some p) (v, w, e, n, k) =
      elim (Bool-cases
        (file && is_normalized_windows_drive_letter (drop (length base + p + 1) (base ++ t)))) [
          | inl x ↦ rw x (t, refl, d, s, r)
          | inr x ↦
              rw (x, take-append base t (suc p) (length base + p + 1) (omega arith), k)
                (
                  v ++ b'/' ∷ [],
                  refl,
                  NoDots-slash v (NoDots-parts v w (subst NoDots e d)).0,
                  inr (v, [], refl),
                  λ h. sym (starts-cut v w) ∙ sym (ap starts e) ∙ r h,
                )
        ]

  pop_path-path :
      (t : Bytes)
      → NoDots t
      → Slashed t
      → (rooted ≡ true → starts t ≡ true)
      → Returns (Shaped Slashed base rooted) (pop_path file (length base) (base ++ t))
  unfolding pop_path
  pop_path-path t d s r = elim (Bool-cases (ltb (length base) (length (base ++ t)))) [
    | inl e ↦
        rw (e, drop-length-append base t)
          (cut t s d r (nonempty t e) (rfind b'/' t) (rfind-CutAt b'/' t))
    | inr e ↦ rw e (t, refl, d, s, r)
  ]

  pub pop_path-Shaped :
      (out : Bytes)
      → Shaped Slashed base rooted out
      → Returns (Shaped Slashed base rooted) (pop_path file (length base) out)
  pop_path-Shaped out (t, e, d, s, r) = rw e (pop_path-path t d s r)

length-take_le : (n : ℕ) (s : Bytes) → length (take n s) ≤ length s
length-take_le zero s = omega arith
length-take_le (suc n) [] = omega arith
length-take_le (suc n) (b ∷ s) = omega (arith, length-take_le n s)

cut_prefix :
    (base u v w : Bytes) (c : ℕ)
    → base ++ u ≡ v ++ c ∷ w
    → length base ≤ length v
    → u ≡ drop (length base) v ++ c ∷ w
cut_prefix [] u v w c e le = e
cut_prefix (b ∷ base) u [] w c e le = absurd (omega arith)
cut_prefix (b ∷ base) u (x ∷ v) w c e le = cut_prefix base u v w c (ap (drop 1) e) (omega arith)

-- A slash may be removed if another one stands before it in the path.
abbrev Removable : Bytes → ℕ → Type 0
Removable s n = (v : Bytes) × (w : Bytes) × (s ≡ v ++ b'/' ∷ w) × (n ≤ length v)

removable :
    (out : Bytes) (path_start : ℕ) (file : Bool)
    → last_slash_can_be_removed out path_start file ≡ true
    → Removable (take (length out - 1) out) path_start
unfolding last_slash_can_be_removed
removable out path_start file e =
    step (rfind b'/' (take (length out - 1) out)) (rfind-CutAt b'/' (take (length out - 1) out)) e
  where
    step :
        (o : Option ℕ)
        → CutAt b'/' (take (length out - 1) out) o
        → (elim o [
          | none ↦ false
          | some before ↦
              leb path_start before
              && not (file && path_starts_with_windows_drive_letter (drop before out))
        ])
          ≡ true
        → Removable (take (length out - 1) out) path_start
    step none h e = absurd (ground arith)
    step (some p) (v, w, k, n, _) e = (v, w, k, ground arith)

pub drop_last :
    (base t u : Bytes) → t ≡ u ++ b'/' ∷ [] → take (length (base ++ t) - 1) (base ++ t) ≡ base ++ u
drop_last base t u e = rw e (
    take-append base (u ++ b'/' ∷ []) (length u) (length (base ++ (u ++ b'/' ∷ [])) - 1)
      (omega (arith, length-append base (u ++ b'/' ∷ []), length-append u (b'/' ∷ [])))
    ∙ ap (λ x. base ++ x) (take-length-append u (b'/' ∷ [])))

starts-nonempty : (v w z : Bytes) → starts ((v ++ b'/' ∷ w) ++ z) ≡ starts (v ++ b'/' ∷ w)
starts-nonempty [] w z = refl
starts-nonempty (c ∷ v) w z = refl

module _ (base : Bytes) (rooted file : Bool) where
  removed :
      (t : Bytes)
      → NoDots t
      → Closed t
      → (rooted ≡ true → starts t ≡ true)
      → last_slash_can_be_removed (base ++ t) (length base) file ≡ true
      → Shaped Slashed base rooted (take (length (base ++ t) - 1) (base ++ t))
  removed t d (inl e) r h =
      let (v, w, k, le) = removable (base ++ t) (length base) file h in
      absurd (
        omega (
          arith,
          le,
          ap length e,
          length-append base t,
          ap length k,
          length-append v (b'/' ∷ w),
          length-take_le (length (base ++ t) - 1) (base ++ t),
        ))
  removed t d (inr (u, e)) r h =
      let (v, w, k, le) = removable (base ++ t) (length base) file h in
      let cut : u ≡ drop (length base) v ++ b'/' ∷ w =
        cut_prefix base u v w b'/' (sym (drop_last base t u e) ∙ k) le in
      (
        u,
        drop_last base t u e,
        (NoDots-parts u [] (subst NoDots e d)).0,
        inr (drop (length base) v, w, cut),
        λ x.
            ap starts cut
            ∙ sym (starts-nonempty (drop (length base) v) w (b'/' ∷ []))
            ∙ sym (ap starts (e ∙ ap (λ y. y ++ b'/' ∷ []) cut))
            ∙ r x,
      )

  remove_slash-path :
      (t : Bytes)
      → NoDots t
      → Closed t
      → (rooted ≡ true → starts t ≡ true)
      → Shaped Slashed base rooted (remove_slash file (length base) (base ++ t))
  unfolding remove_slash
  remove_slash-path t d c r =
      elim (Bool-cases
        (ends_with (base ++ t) b'/' && last_slash_can_be_removed (base ++ t) (length base) file)) [
          | inl e ↦ rw e (removed t d c r (ground arith))
          | inr e ↦ rw e (t, refl, d, Closed-Slashed t c, r)
        ]

  pub shorten_path-Shaped :
      (out : Bytes)
      → Shaped Slashed base rooted out
      → Returns (Shaped Slashed base rooted) (shorten_path file (length base) out)
  unfolding shorten_path
  shorten_path-Shaped out s = elim (Bool-cases (length out == length base)) [
    | inl e ↦ rw e s
    | inr e ↦
        elim (Bool-cases (file && is_normalized_windows_drive_letter (drop (length base) out))) [
          | inl x ↦ rw (e, x) s
          | inr x ↦ rw (e, x) (pop_path-Shaped base rooted file out s)
        ]
  ]

  -- What a double-dot segment makes of the path.
  pub dot_dot-Shaped :
      (out : Bytes)
      → Shaped Closed base rooted out
      → Returns (Shaped Closed base rooted) (
          shorten_path file (length base) (remove_slash file (length base) out)
          >>= (λ o. ok (with_slash o)))
  dot_dot-Shaped out (t, e, d, c, r) =
      Returns-bind (Shaped Slashed base rooted) (Shaped Closed base rooted)
        (shorten_path file (length base) (remove_slash file (length base) out))
        (λ o. ok (with_slash o))
        (shorten_path-Shaped (remove_slash file (length base) out)
          (rw e (remove_slash-path t d c r)))
        (with_slash-Shaped base rooted file)
