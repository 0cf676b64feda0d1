-- ===== src/Scan/Delims/Laws.antt =====
-- The searches of src/parser/scan.rs find what they are to find, on short and on long inputs.
use sorug.Common.{
  ℕ, suc, ◌<◌, ◌≤◌, Bool, true, false, ◌&&◌, ◌||◌, [], ◌∷◌, Option, none, some, Bytes, IsBytes,
  length, take, get_or, All, ◌==◌, position, if◌then◌else◌, ◌≡◌, refl, fun_ext, ap, arith,
  Bool-cases, ◌⊎◌, inl, inr,
}
use sorug.Scan.Delims.{earliest, unwrap_or, find1, find2, find3, find4, find_authority_end}
use sorug.Scan.Find.{
  swar_find-position, swar_find2-position, swar_find3-position, swar_find4-position,
}
use sorug.Scan.Memchr.{Memchr, IsFirst-position}

-- The first of two sets is the earlier one's first.
pub position-earliest :
    (p q : ℕ → Bool) (h : Bytes)
    → earliest (position p h) (position q h) ≡ position (λ b. p b || q b) h
position-earliest p q [] = refl
position-earliest p q (x ∷ h) = ground (arith, position-earliest p q h)

module _ (m : Memchr) (h : Bytes) (hb : IsBytes h) where
  pub find1-position : (n : ℕ) → n < 256 → find1 m n h ≡ position (λ b. b == n) h
  unfolding find1
  find1-position n lt = ground (
    arith,
    swar_find-position h n hb lt,
    IsFirst-position (λ b. b == n) h (m.memchr n h) (m.memchr_first n h),
  )

  pub find2-position :
      (n1 n2 : ℕ) → n1 < 256 → n2 < 256 → find2 m n1 n2 h ≡ position (λ b. b == n1 || b == n2) h
  unfolding find2
  find2-position n1 n2 h1 h2 = ground (
    arith,
    swar_find2-position h n1 n2 hb h1 h2,
    IsFirst-position (λ b. b == n1 || b == n2) h (m.memchr2 n1 n2 h) (m.memchr2_first n1 n2 h),
  )

  pub find3-position :
      (n1 n2 n3 : ℕ)
      → n1 < 256
      → n2 < 256
      → n3 < 256
      → find3 m n1 n2 n3 h ≡ position (λ b. b == n1 || b == n2 || b == n3) h
  unfolding find3
  find3-position n1 n2 n3 h1 h2 h3 = ground (
    arith,
    swar_find3-position h n1 n2 n3 hb h1 h2 h3,
    IsFirst-position (λ b. b == n1 || b == n2 || b == n3) h (m.memchr3 n1 n2 n3 h)
        (m.memchr3_first n1 n2 n3 h),
  )

  -- On a long input two searches run, and the earlier result counts.
  long_four :
      (n1 n2 n3 n4 : ℕ)
      → earliest (m.memchr3 n1 n2 n3 h) (m.memchr n4 h)
        ≡ position (λ b. b == n1 || b == n2 || b == n3 || b == n4) h
  long_four n1 n2 n3 n4 =
      rw
        (
          IsFirst-position (λ b. b == n1 || b == n2 || b == n3) h (m.memchr3 n1 n2 n3 h)
              (m.memchr3_first n1 n2 n3 h),
          IsFirst-position (λ b. b == n4) h (m.memchr n4 h) (m.memchr_first n4 h),
        )
        (position-earliest (λ b. b == n1 || b == n2 || b == n3) (λ b. b == n4) h)

  -- In bytes, a search for four bytes gives the first index of any of them, whether it is word-wise
  -- (below the threshold) or is put together from two searches of the memchr crate (above it).
  pub find4-position :
      (n1 n2 n3 n4 : ℕ)
      → n1 < 256
      → n2 < 256
      → n3 < 256
      → n4 < 256
      → find4 m n1 n2 n3 n4 h ≡ position (λ b. b == n1 || b == n2 || b == n3 || b == n4) h
  unfolding find4
  find4-position n1 n2 n3 n4 h1 h2 h3 h4 =
      ground (arith, swar_find4-position h n1 n2 n3 n4 hb h1 h2 h3 h4, long_four n1 n2 n3 n4)

-- `e` cuts the text at its first byte that passes, or at its end.
pub record CutsAt (p : ℕ → Bool) (h : Bytes) (e : ℕ) : Type 0 where
  pub bounded : e ≤ length h
  pub before : All (λ b. p b ≡ false) (take e h)
  pub stops : e < length h → p (get_or h e 0) ≡ true

pub position-CutsAt : (p : ℕ → Bool) (h : Bytes) → CutsAt p h (unwrap_or (position p h) (length h))
position-CutsAt p [] = record {
  bounded = omega arith;
  before = tt;
  stops = λ lt. absurd (omega arith);
}
position-CutsAt p (x ∷ h) = step (Bool-cases (p x)) (position p h) (position-CutsAt p h)
  where
    step :
        (p x ≡ true) ⊎ (p x ≡ false)
        → (o : Option ℕ) → CutsAt p h (unwrap_or o (length h))
        → CutsAt p (x ∷ h) (
            unwrap_or
              (if p x then some 0 else (elim o [ none ↦ none | some i ↦ some (suc i) ]))
              (suc (length h)))
    step (inl e) o f = rw e (record { bounded = omega arith; before = tt; stops = λ lt. e })
    step (inr e) none f = rw e (record {
      bounded = omega arith;
      before = (e, f.before);
      stops = λ lt. absurd (omega arith);
    })
    step (inr e) (some i) f = rw e (record {
      bounded = omega (arith, f.bounded);
      before = (e, f.before);
      stops = λ lt. f.stops (omega arith);
    })

abbrev pub ends_authority : Bool → ℕ → Bool
ends_authority special b = b == b'/' || b == b'?' || b == b'#' || special && b == b'\\'

module _ (m : Memchr) (h : Bytes) (hb : IsBytes h) where
  same :
      (special : Bool) {p : ℕ → Bool}
      → ((b : ℕ) → p b ≡ ends_authority special b)
      → unwrap_or (position p h) (length h)
        ≡ unwrap_or (position (ends_authority special) h) (length h)
  same special e = ap (λ q. unwrap_or (position q h) (length h)) (fun_ext e)

  find_authority_end-position :
      (special : Bool)
      → find_authority_end m h special ≡ unwrap_or (position (ends_authority special) h) (length h)
  unfolding find_authority_end
  find_authority_end-position true =
      rw
        (find4-position m h hb b'/' b'?' b'#' b'\\' (omega arith) (omega arith) (omega arith)
          (omega arith))
        (same true (λ b. ground arith))
  find_authority_end-position false =
      rw (find3-position m h hb b'/' b'?' b'#' (omega arith) (omega arith) (omega arith))
        (same false (λ b. ground arith))

  -- In bytes, the authority ends at the first slash, question mark or hash sign (or backslash, for a
  -- special scheme), and at the end of the text if there is none.
  pub find_authority_end-CutsAt :
      (special : Bool) → CutsAt (ends_authority special) h (find_authority_end m h special)
  find_authority_end-CutsAt special =
      rw (find_authority_end-position special) (position-CutsAt (ends_authority special) h)
