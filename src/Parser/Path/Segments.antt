-- ===== src/Parser/Path/Segments.antt =====
-- Paths as lists of segments (src/parser/mod.rs): what a dot segment is, and how segments are put
-- together and taken apart.
use sorug.Host.Ipv4.{split_on, cons_first}
use sorug.Host.Ipv4.RoundTrip.{split_on-last}
use sorug.Parser.Drive.{rfind, ends_with}
use sorug.Parser.Path.{is_dot, is_dot_dot}
use sorug.Common.{
  bytes_eq, ℕ, suc, Bool, true, false, ◌&&◌, ◌||◌, List, [], ◌∷◌, ◌++◌, append_assoc, Option, none,
  some, Bytes, All, All-append, All-split, length, take, ◌==◌, if◌then◌else◌, Bool-cases, ◌⊎◌, inl,
  inr, ◌≡◌, refl, ap, subst, arith,
}

-- A dot, percent-encoded or not, taken off the front.
abbrev pub take_dot : Bytes → Option Bytes
take_dot [] = none
take_dot (c ∷ []) = if c == b'.' then some [] else none
take_dot (c ∷ d ∷ []) = if c == b'.' then some (d ∷ []) else none
take_dot (c ∷ d ∷ e ∷ s) =
    if c == b'.'
    then some (d ∷ e ∷ s)
    else if c == b'%' && d == b'2' && (e == b'e' || e == b'E')
    then some s
    else none

abbrev pub is_one_dot : Bytes → Bool
is_one_dot s = elim (take_dot s) [ none ↦ false | some rest ↦ length rest == 0 ]

-- A segment that is a dot or two dots.
abbrev pub is_dot_segment : Bytes → Bool
is_dot_segment s = elim (take_dot s) [
  | none ↦ false
  | some rest ↦ length rest == 0 || is_one_dot rest
]

one_bytes :
    (a : ℕ)
    → is_dot (a ∷ []) ≡ false
    → is_dot_dot (a ∷ []) ≡ false
    → is_dot_segment (a ∷ []) ≡ false
unfolding is_dot is_dot_dot bytes_eq
one_bytes a e f = ground arith

two_bytes :
    (a b : ℕ)
    → is_dot (a ∷ b ∷ []) ≡ false
    → is_dot_dot (a ∷ b ∷ []) ≡ false
    → is_dot_segment (a ∷ b ∷ []) ≡ false
unfolding is_dot is_dot_dot bytes_eq
two_bytes a b e f = ground arith

three_bytes :
    (a b c : ℕ)
    → is_dot (a ∷ b ∷ c ∷ []) ≡ false
    → is_dot_dot (a ∷ b ∷ c ∷ []) ≡ false
    → is_dot_segment (a ∷ b ∷ c ∷ []) ≡ false
unfolding is_dot is_dot_dot bytes_eq
three_bytes a b c e f = ground arith

four_bytes :
    (a b c d : ℕ)
    → is_dot (a ∷ b ∷ c ∷ d ∷ []) ≡ false
    → is_dot_dot (a ∷ b ∷ c ∷ d ∷ []) ≡ false
    → is_dot_segment (a ∷ b ∷ c ∷ d ∷ []) ≡ false
unfolding is_dot is_dot_dot bytes_eq
four_bytes a b c d e f = ground arith

five_bytes :
    (a b c d x : ℕ)
    → is_dot (a ∷ b ∷ c ∷ d ∷ x ∷ []) ≡ false
    → is_dot_dot (a ∷ b ∷ c ∷ d ∷ x ∷ []) ≡ false
    → is_dot_segment (a ∷ b ∷ c ∷ d ∷ x ∷ []) ≡ false
unfolding is_dot is_dot_dot bytes_eq
five_bytes a b c d x e f = ground arith

six_bytes :
    (a b c d x y : ℕ)
    → is_dot (a ∷ b ∷ c ∷ d ∷ x ∷ y ∷ []) ≡ false
    → is_dot_dot (a ∷ b ∷ c ∷ d ∷ x ∷ y ∷ []) ≡ false
    → is_dot_segment (a ∷ b ∷ c ∷ d ∷ x ∷ y ∷ []) ≡ false
unfolding is_dot is_dot_dot bytes_eq
six_bytes a b c d x y e f = ground arith

more_bytes :
    (a b c d x y z : ℕ) (s : Bytes) → is_dot_segment (a ∷ b ∷ c ∷ d ∷ x ∷ y ∷ z ∷ s) ≡ false
more_bytes a b c d x y z s = ground arith

-- The parser's tests find them all.
pub no_dot_segment :
    (s : Bytes) → is_dot s ≡ false → is_dot_dot s ≡ false → is_dot_segment s ≡ false
no_dot_segment [] e f = refl
no_dot_segment (a ∷ []) e f = one_bytes a e f
no_dot_segment (a ∷ b ∷ []) e f = two_bytes a b e f
no_dot_segment (a ∷ b ∷ c ∷ []) e f = three_bytes a b c e f
no_dot_segment (a ∷ b ∷ c ∷ d ∷ []) e f = four_bytes a b c d e f
no_dot_segment (a ∷ b ∷ c ∷ d ∷ x ∷ []) e f = five_bytes a b c d x e f
no_dot_segment (a ∷ b ∷ c ∷ d ∷ x ∷ y ∷ []) e f = six_bytes a b c d x y e f
no_dot_segment (a ∷ b ∷ c ∷ d ∷ x ∷ y ∷ z ∷ s) e f = more_bytes a b c d x y z s

abbrev pub NoDots : Bytes → Type 0
NoDots t = All (λ s. is_dot_segment s ≡ false) (split_on b'/' t)

abbrev pub NoSlash : Bytes → Type 0
NoSlash s = All (λ c. (c == b'/') ≡ false) s

cons_first-append :
    (sep c : ℕ) (u : Bytes) (ys : List Bytes)
    → cons_first c (split_on sep u ++ ys) ≡ cons_first c (split_on sep u) ++ ys
unfolding split_on
cons_first-append sep c [] ys = refl
cons_first-append sep c (b ∷ u) ys = elim (Bool-cases (b == sep)) [
  | inl e ↦ rw e refl
  | inr e ↦ rw e (by_parts (split_on sep u))
]
  where
    by_parts :
        (ps : List Bytes)
        → cons_first c (cons_first b ps ++ ys) ≡ cons_first c (cons_first b ps) ++ ys
    by_parts [] = refl
    by_parts (p ∷ ps) = refl

split_on-append :
    (sep : ℕ) (u s : Bytes) → split_on sep (u ++ sep ∷ s) ≡ split_on sep u ++ split_on sep s
unfolding split_on
split_on-append sep [] s = ground arith
split_on-append sep (c ∷ u) s = elim (Bool-cases (c == sep)) [
  | inl e ↦ rw (e, split_on-append sep u s) refl
  | inr e ↦ rw (e, split_on-append sep u s) (cons_first-append sep c u (split_on sep s))
]

pub NoDots-join : (u s : Bytes) → NoDots u → NoDots s → NoDots (u ++ b'/' ∷ s)
NoDots-join u s hu hs =
    rw (split_on-append b'/' u s) (All-append _ (split_on b'/' u) (split_on b'/' s) hu hs)

pub NoDots-parts : (u s : Bytes) → NoDots (u ++ b'/' ∷ s) → NoDots u × NoDots s
NoDots-parts u s h =
    All-split _ (split_on b'/' u) (split_on b'/' s)
      (subst (λ l. All (λ s. is_dot_segment s ≡ false) l) (split_on-append b'/' u s) h)

pub NoDots-empty : NoDots []
unfolding split_on is_dot is_dot_dot bytes_eq
NoDots-empty = (refl, tt)

pub NoDots-one : (s : Bytes) → NoSlash s → is_dot_segment s ≡ false → NoDots s
NoDots-one s h e = rw (split_on-last b'/' s h) (e, tt)

-- A path that the next segment may follow: empty, or with a slash at its end.
abbrev pub Closed : Bytes → Type 0
Closed t = (t ≡ []) ⊎ (u : Bytes) × (t ≡ u ++ b'/' ∷ [])

-- A path that is empty or has a slash.
abbrev pub Slashed : Bytes → Type 0
Slashed t = (t ≡ []) ⊎ (v : Bytes) × (w : Bytes) × (t ≡ v ++ b'/' ∷ w)

pub Closed-Slashed : (t : Bytes) → Closed t → Slashed t
Closed-Slashed t (inl e) = inl e
Closed-Slashed t (inr (u, e)) = inr (u, [], e)

pub NoDots-add :
    (t s : Bytes) → Closed t → NoDots t → NoSlash s → is_dot_segment s ≡ false → NoDots (t ++ s)
NoDots-add t s (inl e) h n d = rw e (NoDots-one s n d)
NoDots-add t s (inr (u, e)) h n d =
    rw (e, append_assoc)
      (NoDots-join u s (NoDots-parts u [] (subst NoDots e h)).0 (NoDots-one s n d))

pub NoDots-slash : (t : Bytes) → NoDots t → NoDots (t ++ b'/' ∷ [])
NoDots-slash t h = NoDots-join t [] h NoDots-empty

-- The last index of a byte cuts the text there.
abbrev pub CutAt : ℕ → Bytes → Option ℕ → Type 0
CutAt c s none = All (λ b. (b == c) ≡ false) s
CutAt c s (some p) =
    (v : Bytes) × (w : Bytes) × (s ≡ v ++ c ∷ w) × (length v ≡ p) × (take (suc p) s ≡ v ++ c ∷ [])

pub rfind-CutAt : (c : ℕ) (s : Bytes) → CutAt c s (rfind c s)
unfolding rfind
rfind-CutAt c [] = tt
rfind-CutAt c (b ∷ s) = step (rfind c s) (rfind-CutAt c s) (Bool-cases (b == c))
  where
    step :
        (o : Option ℕ)
        → CutAt c s o
        → ((b == c) ≡ true) ⊎ ((b == c) ≡ false)
        → CutAt c
            (b ∷ s)
            (elim o [ none ↦ if b == c then some 0 else none | some i ↦ some (suc i) ])
    step none h (inl e) =
        rw e ([], s, ap (λ x. x ∷ s) (ground arith), refl, ap (λ x. x ∷ []) (ground arith))
    step none h (inr e) = rw e (e, h)
    step (some i) (v, w, e, n, k) _ = (b ∷ v, w, ap (λ x. b ∷ x) e, ap suc n, ap (λ x. b ∷ x) k)

-- Where the text is empty or has a slash, the search for one finds it.
pub no_slash : (t : Bytes) → Slashed t → NoSlash t → t ≡ []
no_slash t (inl e) h = e
no_slash t (inr (v, w, e)) h = ground (arith, (All-split _ v (b'/' ∷ w) (subst NoSlash e h)).1)

pub ends_with-append :
    (base : Bytes) (x : ℕ) (t : Bytes) (c : ℕ) → ends_with (base ++ x ∷ t) c ≡ ends_with (x ∷ t) c
unfolding ends_with
ends_with-append [] x t c = refl
ends_with-append (b ∷ []) x t c = refl
ends_with-append (b ∷ d ∷ base) x t c = ends_with-append (d ∷ base) x t c

pub ends_with-last : (s : Bytes) (c : ℕ) → ends_with s c ≡ true → (u : Bytes) × (s ≡ u ++ c ∷ [])
unfolding ends_with
ends_with-last [] c e = absurd (ground arith)
ends_with-last (b ∷ []) c e = ([], ap (λ x. x ∷ []) (ground arith))
ends_with-last (b ∷ x ∷ s) c e =
    let (u, k) = ends_with-last (x ∷ s) c e in (b ∷ u, ap (λ l. b ∷ l) k)
