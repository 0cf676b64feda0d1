-- ===== src/Parser/Query/Text.antt =====
-- Text as the parser's `Input` reads it (src/parser/mod.rs): its code points without tabs and
-- newlines, up to a delimiter.
use sorug.Parser.Input.{without_tabs, next, is_ascii_tab_or_newline, more_bytes}
use sorug.Parser.Path.Segment.{length-drop_le}
use sorug.Scan.Delims.{has_ascii_tab_or_newline, is_some}
use sorug.Scan.Delims.Laws.{find3-position}
use sorug.Scan.Memchr.{Memchr}
use sorug.Common.{
  ℕ, zero, suc, ◌≤◌, ◌<◌, Bool, true, false, ◌||◌, [], ◌∷◌, ◌++◌, Option, none, some, Bytes, IsByte,
  IsBytes, All, length, take, drop, position, ◌==◌, if◌then◌else◌, Bool-cases, inl, inr, ◌≡◌, refl,
  sym, ap, ◌∙◌, false≢true, subst, arith,
}

-- `n` bytes of a code point are still to come.
abbrev pub Chars : ℕ → Bytes → Type 0
Chars zero [] = Unit
Chars (suc n) [] = ⊥
Chars zero (b ∷ s) = IsByte b × Chars (more_bytes b) s
Chars (suc n) (b ∷ s) = IsByte b × (0x80 ≤ b) × Chars n s

-- Text: each first byte is followed by as many bytes from 0x80 on as it announces.
abbrev pub IsText : Bytes → Type 0
IsText = Chars 0

pub IsText-IsBytes : (n : ℕ) (s : Bytes) → Chars n s → IsBytes s
IsText-IsBytes n [] h = tt
IsText-IsBytes zero (b ∷ s) (lt, h) = (lt, IsText-IsBytes (more_bytes b) s h)
IsText-IsBytes (suc n) (b ∷ s) (lt, _, h) = (lt, IsText-IsBytes n s h)

pub without_tabs-clean :
    (s : Bytes) → All (λ b. is_ascii_tab_or_newline b ≡ false) s → without_tabs s ≡ s
unfolding without_tabs
without_tabs-clean [] h = refl
without_tabs-clean (b ∷ s) (e, h) = rw e (ap (λ t. b ∷ t) (without_tabs-clean s h))

-- The text before the first byte that passes, and behind it.
unfoldable pub upto : (ℕ → Bool) → Bytes → Bytes
upto p [] = []
upto p (b ∷ s) = let rest = upto p s in if p b then [] else b ∷ rest

unfoldable pub behind : (ℕ → Bool) → Bytes → Option Bytes
behind p [] = none
behind p (b ∷ s) = let rest = behind p s in if p b then some s else rest

pub upto-none : (s : Bytes) → upto (λ b. false) s ≡ s
unfolding upto
upto-none [] = refl
upto-none (b ∷ s) = ap (λ t. b ∷ t) (upto-none s)

-- Where no byte that passes is part of a longer code point, or a tab or newline.
abbrev pub IsStop : (ℕ → Bool) → Type 0
IsStop p = (b : ℕ) → p b ≡ true → (b < 0x80) × (is_ascii_tab_or_newline b ≡ false)

abbrev Tail : (ℕ → Bool) → ℕ → Bytes → Type 0
Tail p n s =
    (without_tabs (upto p s) ≡ take n s ++ without_tabs (upto p (drop n s)))
    × (behind p s ≡ behind p (drop n s))
    × IsText (drop n s)

no_stop : (p : ℕ → Bool) (b : ℕ) → IsStop p → 0x80 ≤ b → p b ≡ false
no_stop p b h le = elim (Bool-cases (p b)) [ inl e ↦ absurd (omega (arith, (h b e).0)) | inr e ↦ e ]

Chars-Tail : (p : ℕ → Bool) → IsStop p → (n : ℕ) (s : Bytes) → Chars n s → Tail p n s
unfolding without_tabs upto behind
Chars-Tail p h zero s c = (refl, refl, c)
Chars-Tail p h (suc n) [] c = absurd c
Chars-Tail p h (suc n) (b ∷ s) (lt, le, c) =
    let (e, f, k) = Chars-Tail p h n s c in
    let tab : is_ascii_tab_or_newline b ≡ false = ground arith in
    rw (no_stop p b h le, tab) (ap (λ t. b ∷ t) e, f, k)

-- What the next code point leaves.
abbrev pub NextOf : (ℕ → Bool) → Bytes → Option (ℕ × Bytes × Bytes) → Type 0
NextOf p s none = (without_tabs (upto p s) ≡ []) × (behind p s ≡ none)
NextOf p s (some (c, utf8, rest)) =
    IsText rest
    × (length rest < length s)
    × (p c ≡ true → (without_tabs (upto p s) ≡ []) × (behind p s ≡ some rest))
    × (p c ≡ false
        → (without_tabs (upto p s) ≡ utf8 ++ without_tabs (upto p rest))
          × (behind p s ≡ behind p rest))

-- A tab or newline before it changes nothing.
skip-NextOf :
    (p : ℕ → Bool) (b : ℕ) (s : Bytes) (o : Option (ℕ × Bytes × Bytes))
    → p b ≡ false
    → is_ascii_tab_or_newline b ≡ true
    → NextOf p s o
    → NextOf p (b ∷ s) o
unfolding without_tabs upto behind
skip-NextOf p b s none e f (x, y) = rw (e, f) (x, y)
skip-NextOf p b s (some (c, utf8, rest)) e f (t, lt, x, y) = rw (e, f) (t, omega (arith, lt), x, y)

pub one_byte : (b : ℕ) → b < 0x80 → more_bytes b ≡ 0
one_byte b lt = ground arith

pub next-NextOf : (p : ℕ → Bool) → IsStop p → (s : Bytes) → IsText s → NextOf p s (next s)
unfolding next without_tabs upto behind
next-NextOf p h [] c = (refl, refl)
next-NextOf p h (b ∷ s) (lt, c) = elim (Bool-cases (is_ascii_tab_or_newline b)) [
  | inl e ↦
      let stop : p b ≡ false = elim (Bool-cases (p b)) [
        | inl x ↦ absurd (false≢true (sym (h b x).1 ∙ e))
        | inr x ↦ x
      ] in
      rw (e, NextOf, next)
        (skip-NextOf p b s (next s) stop e
          (next-NextOf p h s (subst (λ n. Chars n s) (one_byte b (ground arith)) c)))
  | inr e ↦
      let (f, g, k) = Chars-Tail p h (more_bytes b) s c in
      rw (e, NextOf, next)
        (
          k,
          omega (arith, length-drop_le (more_bytes b) s),
          (λ x. (rw x refl, rw (x, one_byte b (h b x).0) refl)),
          (λ x. (rw (x, e) (ap (λ t. b ∷ t) f), rw x g)),
        )
]

-- Without tabs, the search for them finds none.
pub no_tabs :
    (m : Memchr) (s : Bytes)
    → IsBytes s
    → has_ascii_tab_or_newline m s ≡ false
    → All (λ b. is_ascii_tab_or_newline b ≡ false) s
unfolding has_ascii_tab_or_newline
no_tabs m s hb e = none_pass s (
    sym (
      ap is_some
        (find3-position m s hb b'\t' b'\n' b'\r' (omega arith) (omega arith) (omega arith)))
    ∙ e)
  where
    none_pass :
        (s : Bytes)
        → is_some (position (λ b. b == b'\t' || b == b'\n' || b == b'\r') s) ≡ false
        → All (λ b. is_ascii_tab_or_newline b ≡ false) s
    none_pass [] e = tt
    none_pass (b ∷ s) e = (ground arith, none_pass s (ground arith))
