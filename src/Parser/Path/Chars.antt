-- ===== src/Parser/Path/Chars.antt =====
-- Writing a segment char by char (`parse_path`, src/parser/mod.rs), and either way of writing it.
use sorug.Parser.Path.Segment.{
  Appends, Grows, percent_encode_char-Grows, fast_segment-Appends, All-drop, length-drop_le,
  peek_char-empty,
}
use sorug.Parser.Input.{next, peek_char, is_ascii_tab_or_newline, more_bytes}
use sorug.Parser.Path.{Segment, slow_segment, is_slow, write_segment}
use sorug.Parser.Result.{Result, ok, Returns, Returns-map}
use sorug.Percent.Codec.{percent_encode_char}
use sorug.Percent.Sets.{in_path_encode_set}
use sorug.Port.{SchemeType, is_special}
use sorug.Scan.Memchr.{Memchr}
use sorug.Common.{
  ℕ, zero, suc, ◌<◌, Bool, true, false, not, ◌&&◌, ◌||◌, [], ◌∷◌, ◌++◌, append_assoc, append-nil,
  Option, none, some, Bytes, IsByte, IsBytes, All-append, All-take, length, take, ltb, ◌==◌,
  if◌then◌else◌, Bool-cases, inl, inr, ◌≡◌, refl, sym, ap, ◌∙◌, subst, arith, OnSome, Option-cases,
}

-- What `next` takes: the bytes of a code point, of which the first is no tab or newline.
abbrev pub Taken : Bytes → ℕ × Bytes × Bytes → Type 0
Taken s (c, utf8, rest) =
    (cs : Bytes) × (utf8 ≡ c ∷ cs)
    × IsBytes (c ∷ cs)
    × (ltb c 0x80 ≡ true → cs ≡ [])
    × IsBytes rest
    × (length rest < length s)

pub next-Taken : (s : Bytes) → IsBytes s → OnSome (Taken s) (next s)
unfolding next
next-Taken [] h = tt
next-Taken (b ∷ s) (lt, h) = elim (Bool-cases (is_ascii_tab_or_newline b)) [
  | inl e ↦ rw e (later (next s) (next-Taken s h))
  | inr e ↦ rw e (
    take (more_bytes b) s,
    refl,
    (lt, All-take IsByte (more_bytes b) s h),
    λ x. rw x refl,
    All-drop (more_bytes b) s h,
    omega (arith, length-drop_le (more_bytes b) s),
  )
]
  where
    later : (o : Option (ℕ × Bytes × Bytes)) → OnSome (Taken s) o → OnSome (Taken (b ∷ s)) o
    later none t = tt
    later (some (c, utf8, rest)) (cs, u, hb, one, hr, lt) = (cs, u, hb, one, hr, omega arith)

Appends-grow :
    (for_setter : Bool) (a b s t : Bytes) (r : Segment)
    → Grows a b
    → length t < length s
    → Appends for_setter b t r
    → Appends for_setter a s r
Appends-grow for_setter a b s t (o, true, rest) (x, e, n) lt (y, f, k, h, l) = (
  x ++ y,
  f
      ∙ ap (λ q. q ++ (y ++ b'/' ∷ [])) e
      ∙ append_assoc a x (y ++ b'/' ∷ [])
      ∙ ap (λ q. a ++ q) (sym (append_assoc x y (b'/' ∷ []))),
  All-append _ x y n k,
  h,
  omega (arith, lt, l),
)
Appends-grow for_setter a b s t (o, false, rest) (x, e, n) lt (y, f, k, h, l) =
    (x ++ y, f ∙ ap (λ q. q ++ y) e ∙ append_assoc a x y, All-append _ x y n k, h, l)

pub peek_char-next :
    (s : Bytes) (c : ℕ) (utf8 rest : Bytes) → next s ≡ some (c, utf8, rest) → peek_char s ≡ some c
unfolding peek_char
peek_char-next s c utf8 rest e = rw (e, peek_char) refl

module _ (m : Memchr) (for_setter : Bool) (scheme_type : SchemeType) (path_start : ℕ) where
  -- One char, before the later ones.
  taken :
      (out input : Bytes) (c : ℕ) (utf8 rest : Bytes) (more : Result Segment)
      → IsBytes input
      → next input ≡ some (c, utf8, rest)
      → Taken input (c, utf8, rest)
      → Returns (Appends for_setter (percent_encode_char utf8 in_path_encode_set out) rest) more
      → Returns (Appends for_setter out input) (
          if c == b'/' || c == b'\\' && is_special scheme_type
          then ok (out ++ b'/' ∷ [], true, rest)
          else if (c == b'?' || c == b'#') && not for_setter
          then ok (out, false, input)
          else more)
  taken out input c utf8 rest more h e (cs, u, hb, one, hr, less) k =
      elim (Bool-cases (c == b'/' || c == b'\\' && is_special scheme_type)) [
        | inl x ↦ rw x ([], refl, tt, hr, less)
        | inr x ↦ elim (Bool-cases ((c == b'?' || c == b'#') && not for_setter)) [
          | inl y ↦
              rw (x, y)
                (
                  [],
                  sym (append-nil out),
                  tt,
                  h,
                  rw (peek_char-next input c utf8 rest e) (ground arith, ground arith),
                )
          | inr y ↦
              rw (x, y)
                (Returns-map _ (Appends for_setter out input) more
                  (λ r a.
                    Appends-grow for_setter out (percent_encode_char utf8 in_path_encode_set out)
                      input rest r
                      (subst (λ q. Grows out (percent_encode_char q in_path_encode_set out)) (sym u)
                        (percent_encode_char-Grows c cs out hb (ground arith) one))
                      less a)
                  k)
        ]
      ]

  pub slow_segment-Appends :
      (fuel : ℕ) (out input : Bytes)
      → IsBytes input
      → length input < fuel
      → Returns
          (Appends for_setter out input)
          (slow_segment m for_setter scheme_type path_start fuel out input)
  unfolding slow_segment
  slow_segment-Appends zero out input h lt = absurd (omega arith)
  slow_segment-Appends (suc fuel) out input h lt = elim (Option-cases (next input)) [
    | inl e ↦
        rw (e, Returns, slow_segment) ([], sym (append-nil out), tt, tt, rw peek_char-empty tt)
    | inr ((c, utf8, rest), e) ↦
        let took = subst (OnSome (Taken input)) e (next-Taken input h) in
        rw (e, Returns, slow_segment)
          (taken out input c utf8 rest
            (slow_segment m for_setter scheme_type path_start fuel
              (percent_encode_char utf8 in_path_encode_set out) rest)
            h e took
            (slow_segment-Appends fuel (percent_encode_char utf8 in_path_encode_set out) rest took.4
              (omega (arith, took.5, lt))))
  ]

  pub write_segment-Appends :
      (out input : Bytes)
      → IsBytes input
      → Returns
          (Appends for_setter out input)
          (write_segment m for_setter scheme_type path_start out input)
  unfolding write_segment
  write_segment-Appends out input h =
      elim (Bool-cases (is_slow m for_setter scheme_type path_start out input)) [
        | inl e ↦ rw e (slow_segment-Appends (suc (length input)) out input h (omega arith))
        | inr e ↦ rw e (fast_segment-Appends m for_setter scheme_type path_start out input h)
      ]
