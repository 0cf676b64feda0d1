-- ===== src/Parser/Query/Opaque.antt =====
-- The opaque path of src/parser/mod.rs: it is appended, and the parser stops where the query or the
-- fragment starts.
use sorug.Parser.Input.{next, trim_end}
use sorug.Parser.Path.Chars.{next-Taken, peek_char-next, Taken}
use sorug.Parser.Path.Segment.{
  AtEnd, CutBy, position-CutBy, peek_char-delim, peek_char-empty, All-drop,
}
use sorug.Parser.Query.{
  bulk_or, is_space, spaces, bulk_opaque, last_opaque, encode_opaque, opaque_loop,
  parse_opaque_path,
}
use sorug.Parser.Query.Growth.{Appended, Appended-trans}
use sorug.Parser.Result.{Result, Returns}
use sorug.Percent.Codec.{utf8_percent_encode}
use sorug.Percent.Encode.{encoded, utf8_percent_encode-encoded}
use sorug.Percent.Sets.{in_c0_encode_set}
use sorug.Scan.Delims.{find_query_or_hash, has_ascii_tab_or_newline}
use sorug.Scan.Delims.Laws.{find2-position}
use sorug.Scan.Memchr.{Memchr}
use sorug.Common.{
  ℕ, zero, suc, ◌-◌, ◌<◌, Bool, true, false, ◌||◌, [], ◌++◌, append_assoc, append-nil, Option, none,
  some, Bytes, IsBytes, codes, length, take, drop, ltb, take-length-append, drop-length-append,
  ◌==◌, if◌then◌else◌, Bool-cases, Option-cases, inl, inr, refl, sym, ap, ◌∙◌, subst, arith, OnSome,
}

abbrev pub is_end : ℕ → Bool
is_end b = b == b'?' || b == b'#'

-- What the parser leaves: more text, and a rest that is at its end.
abbrev pub Ended : Bytes → Bytes × Bytes → Type 0
Ended out (o, rest) = Appended out o × AtEnd false rest × IsBytes rest

encode_if-Appended :
    (cond : Bool) (s out : Bytes)
    → Appended out (if cond then utf8_percent_encode s in_c0_encode_set out else out)
encode_if-Appended true s out =
    (encoded in_c0_encode_set s, utf8_percent_encode-encoded s in_c0_encode_set out)
encode_if-Appended false s out = ([], sym (append-nil out))

text_if-Appended :
    (cond : Bool) (s a out : Bytes) → Appended a out → Appended a (if cond then out ++ s else out)
text_if-Appended true s a out (v, e) = (v ++ s, ap (λ x. x ++ s) e ∙ append_assoc a v s)
text_if-Appended false s a out h = h

last_opaque-Appended : (out s : Bytes) → Appended out (last_opaque out s)
unfolding last_opaque
last_opaque-Appended out s =
    encode_if-Appended (ltb 0 (length (trim_end is_space s))) (trim_end is_space s) out

bulk_opaque-Appended : (out s : Bytes) → Appended out (bulk_opaque out s)
unfolding bulk_opaque
bulk_opaque-Appended out s =
    let kept = trim_end is_space s in
    text_if-Appended (ltb (length kept) (length s))
      (spaces (length s - length kept - 1) ++ codes "%20") out
      (if ltb 0 (length kept) then utf8_percent_encode kept in_c0_encode_set out else out)
      (encode_if-Appended (ltb 0 (length kept)) kept out)

encode_opaque-Appended :
    (out : Bytes) (c : ℕ) (utf8_c rest : Bytes) → Appended out (encode_opaque out c utf8_c rest)
encode_opaque-Appended out c utf8_c rest = elim (Bool-cases (is_space c)) [
  | inl e ↦ rw (e, encode_opaque) (_, refl)
  | inr e ↦
      rw (e, encode_opaque)
        (encoded in_c0_encode_set utf8_c, utf8_percent_encode-encoded utf8_c in_c0_encode_set out)
]

module _ (m : Memchr) where
  find_query_or_hash-CutBy : (s : Bytes) → IsBytes s → CutBy is_end s (find_query_or_hash m s)
  unfolding find_query_or_hash
  find_query_or_hash-CutBy s h =
      rw (find2-position m s h b'?' b'#' (omega arith) (omega arith)) (position-CutBy is_end s)

  end_of_text : AtEnd false []
  end_of_text = rw peek_char-empty tt

  bulk_or-Ended :
      (base out input : Bytes) (o : Option (ℕ × ℕ)) (slow : Result (Bytes × Bytes))
      → Appended base out
      → IsBytes input
      → CutBy is_end input o
      → Returns (Ended base) slow
      → Returns (Ended base) (bulk_or m out input o slow)
  bulk_or-Ended base out input none slow a h c k =
      elim (Bool-cases (has_ascii_tab_or_newline m input)) [
        | inl e ↦ rw (e, Returns, bulk_or) k
        | inr e ↦
            rw (e, Returns, bulk_or)
              (
                Appended-trans base out (last_opaque out input) a (last_opaque-Appended out input),
                end_of_text,
                tt,
              )
      ]
  bulk_or-Ended base out input (some (i, d)) slow a h (t, at, pass, before) k =
      elim (Bool-cases (has_ascii_tab_or_newline m (take i input))) [
        | inl e ↦ rw (e, Returns, bulk_or) k
        | inr e ↦
            rw (e, Returns, bulk_or)
              (
                Appended-trans base out (bulk_opaque out (take i input)) a
                    (bulk_opaque-Appended out (take i input)),
                subst (AtEnd false) (sym at) (rw (peek_char-delim d t pass) (refl, pass)),
                All-drop i input h,
              )
      ]

  -- At the end of the text, the last spaces are taken off the path again.
  trimmed :
      (base out : Bytes)
      → Appended base out
      → Appended base (take (length base) out ++ trim_end is_space (drop (length base) out))
  trimmed base out (v, e) =
      rw (e, take-length-append base v, drop-length-append base v) (trim_end is_space v, refl)

  opaque_loop-Ended :
      (base : Bytes) (fuel : ℕ) (out input : Bytes)
      → Appended base out
      → IsBytes input
      → length input < fuel
      → Returns (Ended base) (opaque_loop m (length base) fuel out input)
  unfolding opaque_loop
  opaque_loop-Ended base zero out input a h lt = absurd (omega arith)
  opaque_loop-Ended base (suc fuel) out input a h lt =
      bulk_or-Ended base out input (find_query_or_hash m input) _ a h
        (find_query_or_hash-CutBy input h)
        (elim (Option-cases (next input)) [
          | inl e ↦ rw (e, Returns) (trimmed base out a, end_of_text, tt)
          | inr ((c, utf8_c, rest), e) ↦
              let took = subst (OnSome (Taken input)) e (next-Taken input h) in
              elim (Bool-cases (c == b'?' || c == b'#')) [
                | inl f ↦
                    rw (e, f, Returns) (a, rw (peek_char-next input c utf8_c rest e) (refl, f), h)
                | inr f ↦
                    rw (e, f, Returns)
                      (opaque_loop-Ended base fuel (encode_opaque out c utf8_c rest) rest
                        (Appended-trans base out (encode_opaque out c utf8_c rest) a
                          (encode_opaque-Appended out c utf8_c rest))
                        took.4 (omega (arith, took.5, lt)))
              ]
        ])

  pub parse_opaque_path-Ended :
      (out input : Bytes) → IsBytes input → Returns (Ended out) (parse_opaque_path m out input)
  unfolding parse_opaque_path
  parse_opaque_path-Ended out input h =
      opaque_loop-Ended out (suc (length input)) out input ([], sym (append-nil out)) h
        (omega arith)
