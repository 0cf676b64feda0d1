-- ===== src/Parser/Path/Start.antt =====
-- The start of a path (`parse_path_start`, src/parser/mod.rs).
use sorug.Parser.Input.{next, peek_char, is_char}
use sorug.Parser.Path.{parse_path, parse_path_start}
use sorug.Parser.Path.Chars.{Taken, next-Taken}
use sorug.Parser.Path.Resolved.{Resolved, parse_path-Resolved}
use sorug.Parser.Path.Segment.{Stops}
use sorug.Parser.Path.Segments.{NoDots-empty, NoDots-slash}
use sorug.Parser.Result.{Returns}
use sorug.Port.{SchemeType, is_special}
use sorug.Scan.Memchr.{Memchr}
use sorug.Common.{
  ℕ, Bool, true, false, not, ◌&&◌, ◌||◌, [], ◌∷◌, ◌++◌, append-nil, Option, none, some, Bytes,
  IsBytes, length, ◌==◌, if◌then◌else◌, Bool-cases, inl, inr, ◌≡◌, refl, sym, subst, arith,
  false≢true, OnSome,
}

module _ (m : Memchr) (for_setter : Bool) (scheme_type : SchemeType) (out : Bytes) where
  pub from_slash :
      (rooted : Bool) (input : Bytes)
      → IsBytes input
      → Returns
          (Resolved m for_setter scheme_type out rooted)
          (parse_path m for_setter scheme_type (length out) (out ++ b'/' ∷ []) input)
  from_slash rooted input h =
      parse_path-Resolved m for_setter scheme_type out rooted (b'/' ∷ []) input h
        (NoDots-slash [] NoDots-empty) (inr ([], refl)) (λ e. refl)

  pub from_nothing :
      (input : Bytes)
      → IsBytes input
      → Returns
          (Resolved m for_setter scheme_type out false)
          (parse_path m for_setter scheme_type (length out) out input)
  from_nothing input h =
      subst
        (λ o.
          Returns (Resolved m for_setter scheme_type out false)
            (parse_path m for_setter scheme_type (length out) o input))
        (append-nil out)
        (parse_path-Resolved m for_setter scheme_type out false [] input h NoDots-empty (inl refl)
          (λ e. absurd (false≢true e)))

  unslashed :
      (input : Bytes) (o : Option (ℕ × Bytes × Bytes))
      → IsBytes input
      → OnSome (Taken input) o
      → IsBytes (elim o [
        | none ↦ input
        | some (c, utf8, remaining) ↦ if c == b'/' || c == b'\\' then remaining else input
      ])
  unslashed input none h t = h
  unslashed input (some (c, utf8, rest)) h (cs, u, hb, one, hr, lt) =
      elim (Bool-cases (c == b'/' || c == b'\\')) [ inl e ↦ rw e hr | inr e ↦ rw e h ]

  stop :
      (o : Option ℕ)
      → (not for_setter && is_char (λ c. c == b'?' || c == b'#') o) ≡ true
      → Stops for_setter o
  stop none e = tt
  stop (some c) e = (ground arith, ground arith)

  -- On any text in bytes the path parser does not panic, has fuel enough, and appends to the
  -- serialization a path without dot segments, percent-encoded or not. The path of a special scheme
  -- starts with a slash. The parser stops at the end of the text, or, outside a setter, at a question
  -- mark or hash sign.
  pub parse_path_start-Resolved :
      (input : Bytes)
      → IsBytes input
      → Returns
          (Resolved m for_setter scheme_type out (is_special scheme_type))
          (parse_path_start m for_setter scheme_type out input)
  unfolding parse_path_start
  parse_path_start-Resolved input h = elim (Bool-cases (is_special scheme_type)) [
    | inl e ↦ rw e (from_slash true _ (unslashed input (next input) h (next-Taken input h)))
    | inr e ↦
        elim (Bool-cases
          (not for_setter && is_char (λ c. c == b'?' || c == b'#') (peek_char input))) [
            | inl f ↦
                rw (e, f)
                  (
                    [],
                    sym (append-nil out),
                    NoDots-empty,
                    (λ x. absurd (false≢true x)),
                    stop (peek_char input) f,
                    h,
                  )
            | inr f ↦ elim (Bool-cases (is_char (λ c. not (c == b'/')) (peek_char input))) [
              | inl g ↦ rw (e, f, g) (from_slash false input h)
              | inr g ↦ rw (e, f, g) (from_nothing input h)
            ]
          ]
  ]
