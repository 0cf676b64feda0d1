-- ===== src/Parser/Query/Growth.antt =====
-- The query and fragment loops of src/parser/mod.rs on any bytes: they return, and append.
use sorug.Parser.Input.{next}
use sorug.Parser.Path.Chars.{next-Taken, Taken}
use sorug.Parser.Path.Segment.{All-drop}
use sorug.Parser.Query.{
  fragment_loop, parse_fragment, query_loop, parse_query, before_hash, behind_hash,
}
use sorug.Parser.Query.Written.{append_fragment-encoded, append_query-encoded, query_set, is_hash}
use sorug.Parser.Result.{Result, Returns, Returns-map}
use sorug.Percent.Clean.{encoded-All}
use sorug.Percent.Codec.{append_fragment, append_query}
use sorug.Percent.Encode.{encoded}
use sorug.Percent.Sets.{in_fragment_encode_set, in_query_encode_set, in_special_query_encode_set}
use sorug.Port.{SchemeType, is_special}
use sorug.Scan.Delims.{find_hash, has_ascii_tab_or_newline}
use sorug.Scan.Memchr.{Memchr}
use sorug.Common.{
  ℕ, zero, suc, ◌<◌, Bool, true, false, [], ◌++◌, append_assoc, append-nil, Option, none, some,
  Bytes, IsByte, IsBytes, All, All-append, All-take, length, ◌==◌, Bool-cases, Option-cases, inl,
  inr, ◌≡◌, sym, ap, ◌∙◌, subst, arith, OnSome,
}

-- The output grows.
abbrev pub Appended : Bytes → Bytes → Type 0
Appended out o = (v : Bytes) × (o ≡ out ++ v)

abbrev pub NoHash : Bytes → Type 0
NoHash s = All (λ b. is_hash b ≡ false) s

pub Appended-trans : (a b c : Bytes) → Appended a b → Appended b c → Appended a c
Appended-trans a b c (v, e) (w, f) = (v ++ w, f ∙ ap (λ x. x ++ w) e ∙ append_assoc a v w)

query-NoHash : (special : Bool) (s : Bytes) → IsBytes s → NoHash (encoded (query_set special) s)
unfolding in_query_encode_set in_special_query_encode_set
query-NoHash true s h =
    encoded-All in_special_query_encode_set (λ b. is_hash b ≡ false) s (λ c e. ground arith)
      (λ c e. ground arith) h
query-NoHash false s h =
    encoded-All in_query_encode_set (λ b. is_hash b ≡ false) s (λ c e. ground arith)
      (λ c e. ground arith) h

-- A query is appended, and what is left is in bytes.
abbrev pub Queried : Bytes → Bytes × Option Bytes → Type 0
Queried out (o, r) = (w : Bytes) × (o ≡ out ++ w) × NoHash w × OnSome IsBytes r

Queried-trans :
    (a b v : Bytes) (r : Bytes × Option Bytes) → b ≡ a ++ v → NoHash v → Queried b r → Queried a r
Queried-trans a b v (o, r) e n (w, f, k, h) =
    (v ++ w, f ∙ ap (λ x. x ++ w) e ∙ append_assoc a v w, All-append _ v w n k, h)

before_hash-IsBytes : (s : Bytes) (o : Option ℕ) → IsBytes s → IsBytes (before_hash s o)
before_hash-IsBytes s none h = h
before_hash-IsBytes s (some i) h = All-take IsByte i s h

behind_hash-IsBytes : (s : Bytes) (o : Option ℕ) → IsBytes s → OnSome IsBytes (behind_hash s o)
behind_hash-IsBytes s none h = tt
behind_hash-IsBytes s (some i) h = All-drop (suc i) s h

module _ (m : Memchr) where
  fragment_loop-Appended :
      (fuel : ℕ) (out input : Bytes)
      → IsBytes input
      → length input < fuel
      → Returns (Appended out) (fragment_loop m fuel out input)
  unfolding fragment_loop
  fragment_loop-Appended zero out input h lt = absurd (omega arith)
  fragment_loop-Appended (suc fuel) out input h lt =
      elim (Bool-cases (has_ascii_tab_or_newline m input)) [
        | inr e ↦
            rw (e, Returns, fragment_loop)
              (encoded in_fragment_encode_set input, append_fragment-encoded input out)
        | inl e ↦ elim (Option-cases (next input)) [
          | inl f ↦ rw (e, f, Returns, fragment_loop) ([], sym (append-nil out))
          | inr ((c, utf8, rest), f) ↦
              let took = subst (OnSome (Taken input)) f (next-Taken input h) in
              rw (e, f, Returns, fragment_loop)
                (Returns-map (Appended (append_fragment utf8 out)) (Appended out)
                  (fragment_loop m fuel (append_fragment utf8 out) rest)
                  (λ o.
                    Appended-trans out (append_fragment utf8 out) o
                      (encoded in_fragment_encode_set utf8, append_fragment-encoded utf8 out))
                  (fragment_loop-Appended fuel (append_fragment utf8 out) rest took.4
                    (omega (arith, took.5, lt))))
        ]
      ]

  pub parse_fragment-Appended :
      (out input : Bytes) → IsBytes input → Returns (Appended out) (parse_fragment m out input)
  unfolding parse_fragment
  parse_fragment-Appended out input h =
      fragment_loop-Appended (suc (length input)) out input h (omega arith)

module _ (m : Memchr) (scheme_type : SchemeType) where
  written :
      (out s : Bytes) (r : Option Bytes)
      → IsBytes s
      → OnSome IsBytes r
      → Queried out (append_query s (is_special scheme_type) out, r)
  written out s r h k = (
    encoded (query_set (is_special scheme_type)) s,
    append_query-encoded s (is_special scheme_type) out,
    query-NoHash (is_special scheme_type) s h,
    k,
  )

  later :
      (out utf8 input : Bytes) (c : ℕ) (rest : Bytes) (more : Result (Bytes × Option Bytes))
      → Taken input (c, utf8, rest)
      → Returns (Queried (append_query utf8 (is_special scheme_type) out)) more
      → Returns (Queried out) more
  later out utf8 input c rest more (cs, u, hb, _, _, _) k =
      let (w, e, n, _) = written out utf8 none (subst IsBytes (sym u) hb) tt in
      Returns-map (Queried (append_query utf8 (is_special scheme_type) out)) (Queried out) more
        (λ r. Queried-trans out (append_query utf8 (is_special scheme_type) out) w r e n) k

  query_loop-Queried :
      (fuel : ℕ) (out input : Bytes)
      → IsBytes input
      → length input < fuel
      → Returns (Queried out) (query_loop m scheme_type fuel out input)
  unfolding query_loop
  query_loop-Queried zero out input h lt = absurd (omega arith)
  query_loop-Queried (suc fuel) out input h lt =
      elim (Bool-cases (has_ascii_tab_or_newline m (before_hash input (find_hash m input)))) [
        | inr e ↦
            rw (e, Returns, query_loop)
              (written out (before_hash input (find_hash m input))
                (behind_hash input (find_hash m input))
                (before_hash-IsBytes input (find_hash m input) h)
                (behind_hash-IsBytes input (find_hash m input) h))
        | inl e ↦ elim (Option-cases (next input)) [
          | inl f ↦ rw (e, f, Returns, query_loop) ([], sym (append-nil out), tt, tt)
          | inr ((c, utf8, rest), f) ↦
              let took = subst (OnSome (Taken input)) f (next-Taken input h) in
              elim (Bool-cases (c == b'#')) [
                | inl g ↦ rw (e, f, g, Returns, query_loop) ([], sym (append-nil out), tt, took.4)
                | inr g ↦
                    rw (e, f, g, Returns, query_loop)
                      (later out utf8 input c rest
                        (query_loop m scheme_type fuel
                          (append_query utf8 (is_special scheme_type) out) rest)
                        took
                        (query_loop-Queried fuel (append_query utf8 (is_special scheme_type) out)
                          rest took.4 (omega (arith, took.5, lt))))
              ]
        ]
      ]

  pub parse_query-Queried :
      (out input : Bytes)
      → IsBytes input
      → Returns (Queried out) (parse_query m false scheme_type out input)
  unfolding parse_query
  parse_query-Queried out input h =
      query_loop-Queried (suc (length input)) out input h (omega arith)
