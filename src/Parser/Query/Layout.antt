-- ===== src/Parser/Query/Layout.antt =====
-- Where the query and the fragment stand in the serialization (`parse_query_and_fragment`,
-- src/parser/mod.rs).
use sorug.Parser.Input.{next}
use sorug.Parser.Path.Chars.{peek_char-next, next-Taken, Taken}
use sorug.Parser.Path.Segment.{AtEnd, Stops}
use sorug.Parser.Query.{
  after_query, write_fragment, parse_fragment, parse_query, parse_query_and_fragment,
}
use sorug.Parser.Query.Growth.{
  Appended, NoHash, Queried, parse_fragment-Appended, parse_query-Queried,
}
use sorug.Parser.Result.{
  Result, ok, err, panicked, ◌>>=◌, to_u32, Returns, Holds, Holds-bind, Holds-to_u32,
}
use sorug.Port.{SchemeType}
use sorug.Scan.Memchr.{Memchr}
use sorug.Common.{
  ℕ, ◌+◌, true, false, [], ◌∷◌, ◌++◌, append_assoc, append-nil, Option, none, some, Bytes, IsBytes,
  length, length-append, ◌==◌, Bool-cases, Option-cases, inl, inr, ◌≡◌, sym, ap, ◌∙◌, subst, arith,
  OnSome,
}

abbrev pub query_part : Option ℕ → Bytes → Bytes
query_part none w = []
query_part (some i) w = b'?' ∷ w

abbrev pub fragment_part : Option ℕ → Bytes → Bytes
fragment_part none v = []
fragment_part (some i) v = b'#' ∷ v

-- An offset, where there is one.
abbrev pub Is : Option ℕ → ℕ → Type 0
Is none n = Unit
Is (some i) n = i ≡ n

-- Behind `out` stand the query, in which there is no hash sign, and the fragment, each behind its
-- delimiter, and the offsets are those of the delimiters.
abbrev pub Layout : Bytes → Bytes × Option ℕ × Option ℕ → Type 0
Layout out (o, q, f) =
    (w : Bytes) × (v : Bytes) × (o ≡ out ++ (query_part q w ++ fragment_part f v))
    × Is q (length out)
    × Is f (length out + length (query_part q w))
    × NoHash w

pub Returns-Holds : {A : Type 0} (P : A → Type 0) (r : Result A) → Returns P r → Holds P r
Returns-Holds P (ok a) h = h
Returns-Holds P (err e) h = tt
Returns-Holds P panicked h = h

module _ (m : Memchr) where
  write_fragment-Layout :
      (out input : Bytes) (q : Option ℕ) (w before : Bytes)
      → IsBytes input
      → before ≡ out ++ query_part q w
      → Is q (length out)
      → NoHash w
      → Holds (Layout out) (write_fragment m before q input)
  unfolding write_fragment
  write_fragment-Layout out input q w before h e i n =
      Holds-bind (λ j. j ≡ length before) (Layout out) (to_u32 (length before)) _
        (Holds-to_u32 (length before))
        (λ j k.
          Holds-bind (Appended (before ++ b'#' ∷ [])) (Layout out)
            (parse_fragment m (before ++ b'#' ∷ []) input) _
            (Returns-Holds (Appended (before ++ b'#' ∷ [])) _
              (parse_fragment-Appended m (before ++ b'#' ∷ []) input h))
            (λ o (v, f). (
              w,
              v,
              f
                  ∙ append_assoc before (b'#' ∷ []) v
                  ∙ ap (λ x. x ++ b'#' ∷ v) e
                  ∙ append_assoc out (query_part q w) (b'#' ∷ v),
              i,
              k ∙ ap length e ∙ length-append out (query_part q w),
              n,
            )))

  after_query-Layout :
      (out w before : Bytes) (i : ℕ) (r : Option Bytes)
      → OnSome IsBytes r
      → before ≡ out ++ b'?' ∷ w
      → i ≡ length out
      → NoHash w
      → Holds (Layout out) (after_query m (some i) (before, r))
  after_query-Layout out w before i none h e k n =
      (w, [], e ∙ ap (λ x. out ++ b'?' ∷ x) (sym (append-nil w)), k, tt, n)
  after_query-Layout out w before i (some rest) h e k n =
      write_fragment-Layout out rest (some i) w before h e k n

  query-Layout :
      (scheme_type : SchemeType) (out rest : Bytes)
      → IsBytes rest
      → Holds (Layout out) (
          to_u32 (length out) >>= (λ query_start.
            parse_query m false scheme_type (out ++ b'?' ∷ []) rest
            >>= after_query m (some query_start)))
  query-Layout scheme_type out rest h =
      Holds-bind (λ j. j ≡ length out) (Layout out) (to_u32 (length out)) _
        (Holds-to_u32 (length out))
        (λ j k.
          Holds-bind (Queried (out ++ b'?' ∷ [])) (Layout out)
            (parse_query m false scheme_type (out ++ b'?' ∷ []) rest) (after_query m (some j))
            (Returns-Holds (Queried (out ++ b'?' ∷ [])) _
              (parse_query-Queried m scheme_type (out ++ b'?' ∷ []) rest h))
            (λ (o, r) (w, f, n, hr).
              after_query-Layout out w o j r hr (f ∙ append_assoc out (b'?' ∷ []) w) k n))

  -- On bytes that are at their end or go on with a question mark or hash sign, the parser of the
  -- query and the fragment neither panics nor runs out of fuel. If the offsets fit in 32 bits, the
  -- query and the fragment stand behind the serialization, each behind its delimiter, of which the
  -- offset is returned; the query holds no hash sign.
  pub parse_query_and_fragment-Layout :
      (scheme_type : SchemeType) (out input : Bytes)
      → IsBytes input
      → AtEnd false input
      → Holds (Layout out) (parse_query_and_fragment m false scheme_type out input)
  unfolding parse_query_and_fragment
  parse_query_and_fragment-Layout scheme_type out input h end = elim (Option-cases (next input)) [
    | inl e ↦ rw (e, Holds, parse_query_and_fragment) ([], [], sym (append-nil out), tt, tt, tt)
    | inr ((c, utf8, rest), e) ↦
        let k = (subst (OnSome (Taken input)) e (next-Taken input h)).4 in
        let (_, stop) = subst (Stops false) (peek_char-next input c utf8 rest e) end in
        elim (Bool-cases (c == b'#')) [
          | inl f ↦
              rw (e, f, Holds, parse_query_and_fragment)
                (write_fragment-Layout out rest none [] out k (sym (append-nil out)) tt tt)
          | inr f ↦
              let q : (c == b'?') ≡ true = ground arith in
              rw (e, f, q, Holds, parse_query_and_fragment) (query-Layout scheme_type out rest k)
        ]
  ]
