-- ===== src/Parser/Path/Segment.antt =====
-- Writing one segment of a path (`parse_path`, src/parser/mod.rs), in bulk or char by char: text
-- without a slash is appended, then a slash where the input has one.
use sorug.Parser.Input.{next, peek_char}
use sorug.Parser.Path.{Segment, path_delim, seg_end, after_segment, fast_segment}
use sorug.Parser.Path.Segments.{NoSlash}
use sorug.Parser.Result.{Returns}
use sorug.Percent.Codec.{
  percent_encode_char, append_path_segment, escape, append_all_percent, append_percent,
}
use sorug.Percent.Clean.{escape_bytes, is_escape_byte, All-map}
use sorug.Percent.Encode.{encoded, utf8_percent_encode-encoded}
use sorug.Percent.Sets.{in_path_encode_set}
use sorug.Port.{SchemeType, is_special}
use sorug.Scan.Memchr.{Memchr}
use sorug.Scan.Delims.{with_byte, find_path_delim, find_path_delim_setter}
use sorug.Scan.Delims.Laws.{find1-position, find2-position, find3-position, find4-position}
use sorug.Common.{
  ℕ, zero, suc, ◌≤◌, ◌<◌, Bool, true, false, not, ◌&&◌, ◌||◌, [], ◌∷◌, ◌++◌, append_assoc,
  append-nil, Option, none, some, Bytes, IsBytes, All, All-append, All-take, length, take, drop,
  ltb, ◌==◌, any, if◌then◌else◌, Bool-cases, ◌⊎◌, inl, inr, ◌≡◌, refl, sym, ap, ◌∙◌, subst, arith,
  fun_ext, position,
}

-- The text ends, or goes on with the query or the fragment, which a setter does not read.
abbrev pub Stops : Bool → Option ℕ → Type 0
Stops for_setter none = Unit
Stops for_setter (some c) = (for_setter ≡ false) × ((c == b'?' || c == b'#') ≡ true)

abbrev pub AtEnd : Bool → Bytes → Type 0
AtEnd for_setter s = Stops for_setter (peek_char s)

-- What a round leaves behind a segment.
abbrev pub Rest : Bool → Bytes → Bool → Bytes → Type 0
Rest for_setter input true rest = length rest < length input
Rest for_setter input false rest = AtEnd for_setter rest

abbrev pub Appends : Bool → Bytes → Bytes → Segment → Type 0
Appends for_setter out input (o, slash, rest) =
    (s : Bytes) × (o ≡ out ++ (if slash then s ++ b'/' ∷ [] else s))
    × NoSlash s
    × IsBytes rest
    × Rest for_setter input slash rest

escape-NoSlash : (b : ℕ) → b < 256 → NoSlash (escape b)
escape-NoSlash b lt =
    All-map (λ c. is_escape_byte c ≡ true) (λ c. (c == b'/') ≡ false) (escape b)
      (λ c e. ground arith) (escape_bytes b lt)

-- What is encoded holds no slash that was not there.
encoded-NoSlash :
    (encode : ℕ → Bool) (s : Bytes) → IsBytes s → NoSlash s → NoSlash (encoded encode s)
encoded-NoSlash encode [] h n = tt
encoded-NoSlash encode (b ∷ s) (lt, h) (e, n) = elim (Bool-cases (encode b)) [
  | inl x ↦ rw x (
      All-append (λ c. (c == b'/') ≡ false) (escape b) (encoded encode s) (escape-NoSlash b lt)
        (encoded-NoSlash encode s h n))
  | inr x ↦ rw x (e, encoded-NoSlash encode s h n)
]

-- The output grows by text without a slash.
abbrev pub Grows : Bytes → Bytes → Type 0
Grows out o = (s : Bytes) × (o ≡ out ++ s) × NoSlash s

pub Grows-trans : (a b c : Bytes) → Grows a b → Grows b c → Grows a c
Grows-trans a b c (s, e, n) (t, f, k) =
    (s ++ t, f ∙ ap (λ x. x ++ t) e ∙ append_assoc a s t, All-append _ s t n k)

append_all_percent-Grows : (c out : Bytes) → IsBytes c → Grows out (append_all_percent c out)
unfolding append_all_percent append_percent
append_all_percent-Grows [] out h = ([], sym (append-nil out), tt)
append_all_percent-Grows (b ∷ c) out (lt, h) =
    Grows-trans out (out ++ escape b) (append_all_percent c (out ++ escape b))
      (escape b, refl, escape-NoSlash b lt) (append_all_percent-Grows c (out ++ escape b) h)

append_path_segment-Grows :
    (s out : Bytes) → IsBytes s → NoSlash s → Grows out (append_path_segment s out)
unfolding append_path_segment
append_path_segment-Grows s out h n = (
  encoded in_path_encode_set s,
  utf8_percent_encode-encoded s in_path_encode_set out,
  encoded-NoSlash in_path_encode_set s h n,
)

ascii : (b : ℕ) → in_path_encode_set b ≡ false → ltb b 0x80 ≡ true
unfolding in_path_encode_set
ascii b e = ground arith

-- A code point: one ASCII byte, or more bytes, of which the first is encoded.
pub percent_encode_char-Grows :
    (b : ℕ) (c out : Bytes)
    → IsBytes (b ∷ c)
    → (b == b'/') ≡ false
    → (ltb b 0x80 ≡ true → c ≡ [])
    → Grows out (percent_encode_char (b ∷ c) in_path_encode_set out)
unfolding percent_encode_char
percent_encode_char-Grows b c out h e one = elim (Bool-cases (any in_path_encode_set (b ∷ c))) [
  | inl x ↦ rw x (append_all_percent-Grows (b ∷ c) out h)
  | inr x ↦ rw x (b ∷ c, refl, (e, subst NoSlash (sym (one (ascii b (ground arith)))) tt))
]

-- The first byte that passes cuts the text.
abbrev pub CutBy : (ℕ → Bool) → Bytes → Option (ℕ × ℕ) → Type 0
CutBy p h none = All (λ b. p b ≡ false) h
CutBy p h (some (i, d)) =
    (t : Bytes) × (drop i h ≡ d ∷ t) × (p d ≡ true) × All (λ b. p b ≡ false) (take i h)

pub position-CutBy : (p : ℕ → Bool) (h : Bytes) → CutBy p h (with_byte h (position p h))
position-CutBy p [] = tt
position-CutBy p (x ∷ h) = step (Bool-cases (p x)) (position p h) (position-CutBy p h)
  where
    step :
        (p x ≡ true) ⊎ (p x ≡ false)
        → (o : Option ℕ) → CutBy p h (with_byte h o)
        → CutBy p (x ∷ h) (
            with_byte
              (x ∷ h)
              (if p x then some 0 else (elim o [ none ↦ none | some i ↦ some (suc i) ])))
    step (inl e) o f = rw e (h, refl, e, tt)
    step (inr e) none f = rw e (e, f)
    step (inr e) (some i) (t, at, pass, before) = rw e (t, at, pass, (e, before))

-- What ends a segment.
abbrev pub is_delim : Bool → Bool → ℕ → Bool
is_delim special for_setter b =
    b == b'/' || special && b == b'\\' || not for_setter && (b == b'?' || b == b'#')

module _ (m : Memchr) (scheme_type : SchemeType) (path_start : ℕ) where
  path_delim-position :
      (for_setter special : Bool) (s : Bytes)
      → is_special scheme_type ≡ special
      → IsBytes s
      → path_delim m for_setter scheme_type path_start s
        ≡ with_byte s (position (is_delim special for_setter) s)
  unfolding path_delim find_path_delim find_path_delim_setter
  path_delim-position true true s e h =
      rw (e, find2-position m s h b'/' b'\\' (omega arith) (omega arith))
        (ap (λ p. with_byte s (position p s)) (fun_ext (λ b. ground arith)))
  path_delim-position true false s e h =
      rw (e, find1-position m s h b'/' (omega arith))
        (ap (λ p. with_byte s (position p s)) (fun_ext (λ b. ground arith)))
  path_delim-position false true s e h =
      rw
        (
          e,
          find4-position m s h b'/' b'\\' b'?' b'#' (omega arith) (omega arith) (omega arith)
              (omega arith),
        )
        (ap (λ p. with_byte s (position p s)) (fun_ext (λ b. ground arith)))
  path_delim-position false false s e h =
      rw (e, find3-position m s h b'/' b'?' b'#' (omega arith) (omega arith) (omega arith))
        (ap (λ p. with_byte s (position p s)) (fun_ext (λ b. ground arith)))

  path_delim-CutBy :
      (for_setter : Bool) (s : Bytes)
      → IsBytes s
      → CutBy
          (is_delim (is_special scheme_type) for_setter)
          s
          (path_delim m for_setter scheme_type path_start s)
  path_delim-CutBy for_setter s h =
      rw (path_delim-position for_setter (is_special scheme_type) s refl h)
        (position-CutBy (is_delim (is_special scheme_type) for_setter) s)

pub peek_char-delim :
    (d : ℕ) (t : Bytes) → (d == b'?' || d == b'#') ≡ true → peek_char (d ∷ t) ≡ some d
unfolding peek_char next
peek_char-delim d t e = ground arith

pub peek_char-empty : peek_char [] ≡ none
unfolding peek_char next
peek_char-empty = refl

no_slash :
    (special for_setter : Bool) (s : Bytes)
    → All (λ b. is_delim special for_setter b ≡ false) s
    → NoSlash s
no_slash special for_setter s h =
    All-map (λ b. is_delim special for_setter b ≡ false) (λ c. (c == b'/') ≡ false) s
      (λ c e. ground arith) h

pub All-drop : (n : ℕ) (s : Bytes) → IsBytes s → IsBytes (drop n s)
All-drop zero s h = h
All-drop (suc n) [] h = tt
All-drop (suc n) (b ∷ s) h = All-drop n s h.1

pub length-drop_le : (n : ℕ) (s : Bytes) → length (drop n s) ≤ length s
length-drop_le zero s = omega arith
length-drop_le (suc n) [] = omega arith
length-drop_le (suc n) (b ∷ s) = omega (arith, length-drop_le n s)

drop_all : (s : Bytes) → drop (length s) s ≡ []
drop_all [] = refl
drop_all (b ∷ s) = drop_all s

take_all : (s : Bytes) → take (length s) s ≡ s
take_all [] = refl
take_all (b ∷ s) = ap (λ l. b ∷ l) (take_all s)

pub slash_assoc : (out o s : Bytes) → o ≡ out ++ s → o ++ b'/' ∷ [] ≡ out ++ (s ++ b'/' ∷ [])
slash_assoc out o s e = ap (λ x. x ++ b'/' ∷ []) e ∙ append_assoc out s (b'/' ∷ [])

module _ (m : Memchr) (for_setter : Bool) (scheme_type : SchemeType) (path_start : ℕ)
    (out input : Bytes) (h : IsBytes input) where
  after_segment-Appends :
      (o : Option (ℕ × ℕ))
      → CutBy (is_delim (is_special scheme_type) for_setter) input o
      → Returns (Appends for_setter out input) (
          after_segment m for_setter scheme_type path_start
            (append_path_segment
              (take (seg_end m for_setter scheme_type path_start input o) input)
              out)
            (drop (seg_end m for_setter scheme_type path_start input o) input)
            o)
  unfolding after_segment
  after_segment-Appends none c =
      rw (take_all input, drop_all input)
        (let (s, e, n) =
            append_path_segment-Grows input out h
              (no_slash (is_special scheme_type) for_setter input c) in
          (s, e, n, tt, rw peek_char-empty tt))
  after_segment-Appends (some (i, d)) (t, at, pass, before) =
      let (s, e, n) =
        append_path_segment-Grows (take i input) out (All-take _ i input h)
          (no_slash (is_special scheme_type) for_setter (take i input) before) in
      let ht : IsBytes (d ∷ t) = subst IsBytes at (All-drop i input h) in
      elim (Bool-cases (d == b'/' || d == b'\\' && is_special scheme_type)) [
        | inl x ↦
            rw (x, at)
              (
                s,
                slash_assoc out (append_path_segment (take i input) out) s e,
                n,
                ht.1,
                omega (arith, length-drop_le i input, ap length at),
              )
        | inr x ↦
            let q : (d == b'?' || d == b'#') ≡ true = ground arith in
            rw (x, q, at) (s, e, n, ht, rw (peek_char-delim d t q) (ground arith, q))
      ]

  pub fast_segment-Appends :
      Returns
        (Appends for_setter out input)
        (fast_segment m for_setter scheme_type path_start out input)
  unfolding fast_segment
  fast_segment-Appends =
      after_segment-Appends (path_delim m for_setter scheme_type path_start input)
        (path_delim-CutBy m scheme_type path_start for_setter input h)
