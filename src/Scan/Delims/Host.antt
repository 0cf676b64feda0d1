-- ===== src/Scan/Delims/Host.antt =====
-- `find_host_end` (src/parser/scan.rs): where a host ends, and whether bytes before that are ignored.
use sorug.Common.{
  ℕ, zero, suc, ◌+◌, ◌≤◌, Bool, true, false, not, ◌&&◌, ◌||◌, [], ◌∷◌, Bytes, IsByte, IsBytes,
  length, take, drop, ltb, any, All-take, ◌==◌, position, if◌then◌else◌, ◌≡◌, refl, sym, ◌∙◌, ap,
  fun_ext, arith, Bool-cases, inl, inr,
}
use sorug.Scan.Delims.Laws.{
  find1-position, find3-position, find4-position, position-earliest, CutsAt, position-CutsAt,
}
use sorug.Scan.Delims.{
  earliest, unwrap_or, is_some, is_ascii_tab_or_newline, ends_host, bracketed,
  find_host_end_bracketed, leading_ignored, find1, find4, find_host_delim, plain_host_end,
  bracketed_host_end, find_host_end,
}
use sorug.Scan.Memchr.{Memchr}

abbrev tab : ℕ → Bool
tab = is_ascii_tab_or_newline

is_some-position : (p : ℕ → Bool) (h : Bytes) → is_some (position p h) ≡ any p h
is_some-position p [] = refl
is_some-position p (x ∷ h) = ground (arith, is_some-position p h)

-- The loop stops inside the text, and has seen what it has passed.
bracketed_lem :
    (special : Bool) (cs : Bytes) (inside ignored : Bool) (i : ℕ)
    → (e : ℕ) × (bracketed special cs inside ignored i ≡ (i + e, ignored || any tab (take e cs)))
      × (e ≤ length cs)
unfolding bracketed
bracketed_lem special [] inside ignored i = (0, ground arith, omega arith)
bracketed_lem special (c ∷ cs) inside ignored i =
    elim (Bool-cases (not inside && ends_host special c)) [
      | inl e ↦ (0, rw e (ground arith), omega arith)
      | inr e ↦
          let inside' = if c == b'[' then true else if c == b']' then false else inside in
          let (k, q, b) = bracketed_lem special cs inside' (ignored || tab c) (i + 1) in
          (suc k, rw e (q ∙ ground arith), omega arith)
    ]

-- The leading bytes that are skipped are all ignored ones.
any_leading :
    (h : Bytes) (e : ℕ)
    → any tab (take (leading_ignored h + e) h)
      ≡ ltb 0 (leading_ignored h) || any tab (take e (drop (leading_ignored h) h))
unfolding leading_ignored
any_leading [] e = ap (λ (k : ℕ). any tab (take {A = ℕ} k [])) (omega arith)
any_leading (c ∷ h) e = elim (Bool-cases (tab c)) [
  | inl t ↦ rw t (ap (λ (k : ℕ). any tab (take k (c ∷ h))) sum ∙ ground arith)
  | inr t ↦ rw t (ap (λ (k : ℕ). any tab (take k (c ∷ h))) (omega arith))
]
  where
    sum : suc (leading_ignored h) + e ≡ suc (leading_ignored h + e)
    sum = omega arith

drop-length : (n : ℕ) (h : Bytes) → n ≤ length h → length (drop n h) + n ≡ length h
drop-length zero h lt = omega arith
drop-length (suc n) [] lt = absurd (omega arith)
drop-length (suc n) (x ∷ h) lt = omega (arith, drop-length n h (omega arith))

leading-le : (h : Bytes) → leading_ignored h ≤ length h
unfolding leading_ignored
leading-le [] = omega arith
leading-le (c ∷ h) = ground (arith, leading-le h)

-- The end that is found and the flag, for a text: inside the text, and whether a byte before that
-- end is ignored.
abbrev Reports : Bytes → ℕ × Bool → Type 0
Reports h r = (r.0 ≤ length h) × (r.1 ≡ any tab (take r.0 h))

bracketed-Reports :
    (h : Bytes) (special : Bool) → Reports h (bracketed_host_end h special (leading_ignored h))
unfolding bracketed_host_end find_host_end_bracketed
bracketed-Reports h special =
    let start = leading_ignored h in
    let (e, q, b) = bracketed_lem special (drop start h) false false 0 in
    rw q (
      omega (arith, drop-length start h (leading-le h)),
      sym (ap (λ (k : ℕ). any tab (take (start + k) h)) (omega arith) ∙ any_leading h e),
    )

-- A skipped byte ends no host, so it stands before the end.
skipped-any :
    (special : Bool) (h : Bytes) (end : ℕ)
    → CutsAt (ends_host special) h end
    → ltb 0 (leading_ignored h) ≡ true
    → any tab (take end h) ≡ true
unfolding leading_ignored
skipped-any special [] end cut e = cc
skipped-any special (c ∷ h) zero cut e = ground (arith, cut.stops (omega arith))
skipped-any special (c ∷ h) (suc end) cut e = ground arith

module _ (m : Memchr) (h : Bytes) (hb : IsBytes h) (special : Bool) where
  find_host_delim-position : find_host_delim m h special ≡ position (ends_host special) h
  unfolding find_host_delim
  find_host_delim-position = pick special
    where
      colon :
          find4 m b':' b'/' b'?' b'#' h
          ≡ position (λ b. b == b':' || b == b'/' || b == b'?' || b == b'#') h
      colon =
          find4-position m h hb b':' b'/' b'?' b'#' (omega arith) (omega arith) (omega arith)
            (omega arith)

      pick :
          (s : Bool)
          → (if s
              then earliest (find4 m b':' b'/' b'?' b'#' h) (find1 m b'\\' h)
              else find4 m b':' b'/' b'?' b'#' h)
            ≡ position (ends_host s) h
      pick true =
          rw (colon, find1-position m h hb b'\\' (omega arith))
            (position-earliest _ _ h ∙ ap (λ p. position p h) (fun_ext (λ b. ground arith)))
      pick false = colon ∙ ap (λ p. position p h) (fun_ext (λ b. ground arith))

  plain-Reports : Reports h (plain_host_end m h special (ltb 0 (leading_ignored h)))
  unfolding plain_host_end
  plain-Reports = rw find_host_delim-position (
    cut.bounded,
    rw
        (
          find3-position m (take end h) (All-take IsByte end h hb) b'\t' b'\n' b'\r' (omega arith)
              (omega arith) (omega arith),
          is_some-position tab (take end h),
        )
        (ground (arith, skipped-any special h end cut)),
  )
    where
      end : ℕ
      end = unwrap_or (position (ends_host special) h) (length h)

      cut : CutsAt (ends_host special) h end
      cut = position-CutsAt (ends_host special) h

  -- In bytes, the end of the host lies in the text, and the flag is whether a tab, a line feed or a
  -- carriage return stands before it; bracketed hosts and others, and special schemes and others.
  pub find_host_end-Reports : Reports h (find_host_end m h special)
  unfolding find_host_end
  find_host_end-Reports = ground (arith, bracketed-Reports h special, plain-Reports)
