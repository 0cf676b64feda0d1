-- ===== src/SearchParams/UrlEncoded/Serialize.antt =====
-- The serializer of src/search_params.rs byte by byte, and what its output holds.
use sorug.Percent.Codec.{escape, append_percent}
use sorug.SearchParams.UrlEncoded.{
  Pair, byte_serialized_unchanged, plain_loop, run_loop, append_urlencoded, serialize_loop,
  serialize_urlencoded,
}
use sorug.Common.{all_sound}
use sorug.Common.{
  ℕ, ◌<◌, all, Bool, true, false, ◌||◌, List, [], ◌∷◌, ◌++◌, append_assoc, append-nil, Bytes,
  IsBytes, All, All-append, all_below, all_below_sound, ◌==◌, if◌then◌else◌, Bool-cases, inl, inr,
  ◌≡◌, refl, sym, ap, ◌∙◌, arith,
}

-- What one byte becomes, and a text.
abbrev pub urlencoded_byte : ℕ → Bytes
urlencoded_byte b =
    if byte_serialized_unchanged b then b ∷ [] else if b == b' ' then b'+' ∷ [] else escape b

abbrev pub urlencoded : Bytes → Bytes
urlencoded [] = []
urlencoded (b ∷ bs) = urlencoded_byte b ++ urlencoded bs

changed :
    (b : ℕ) (out : Bytes)
    → byte_serialized_unchanged b ≡ false
    → (if b == b' ' then out ++ b'+' ∷ [] else append_percent out b) ≡ out ++ urlencoded_byte b
unfolding append_percent
changed b out e = elim (Bool-cases (b == b' ')) [ inl x ↦ rw (e, x) | inr x ↦ rw (e, x) ]

plain_step :
    (b : ℕ) (bs out : Bytes)
    → byte_serialized_unchanged b ≡ false
    → plain_loop (b ∷ bs) out ≡ plain_loop bs (out ++ urlencoded_byte b)
unfolding plain_loop
plain_step b bs out e = rw e (ap (plain_loop bs) (changed b out e) ∙ rw e)

run_step :
    (b : ℕ) (bs run out : Bytes)
    → byte_serialized_unchanged b ≡ false
    → run_loop (b ∷ bs) run out ≡ plain_loop bs ((out ++ run) ++ urlencoded_byte b)
unfolding run_loop
run_step b bs run out e = rw e (ap (plain_loop bs) (changed b (out ++ run) e) ∙ rw e)

mutual
  unfolding plain_loop run_loop

  plain_loop-urlencoded : (bs out : Bytes) → plain_loop bs out ≡ out ++ urlencoded bs
  plain_loop-urlencoded [] out = sym (append-nil out)
  plain_loop-urlencoded (b ∷ bs) out = elim (Bool-cases (byte_serialized_unchanged b)) [
    | inl e ↦ rw e (run_loop-urlencoded bs (b ∷ []) out)
    | inr e ↦
        plain_step b bs out e
        ∙ plain_loop-urlencoded bs (out ++ urlencoded_byte b)
        ∙ append_assoc out (urlencoded_byte b) (urlencoded bs)
  ]

  run_loop-urlencoded : (bs run out : Bytes) → run_loop bs run out ≡ out ++ (run ++ urlencoded bs)
  run_loop-urlencoded [] run out = rw append-nil
  run_loop-urlencoded (b ∷ bs) run out = elim (Bool-cases (byte_serialized_unchanged b)) [
    | inl e ↦ rw e (run_loop-urlencoded bs (run ++ b ∷ []) out ∙ simp append_assoc)
    | inr e ↦
        run_step b bs run out e
        ∙ plain_loop-urlencoded bs ((out ++ run) ++ urlencoded_byte b)
        ∙ simp append_assoc
  ]

pub append_urlencoded-urlencoded :
    (bs out : Bytes) → append_urlencoded bs out ≡ out ++ urlencoded bs
unfolding append_urlencoded
append_urlencoded-urlencoded bs out = plain_loop-urlencoded bs out

-- The text of one pair, and of pairs behind others.
abbrev pub sequence_of : Pair → Bytes
sequence_of (name, value) = urlencoded name ++ b'=' ∷ urlencoded value

abbrev pub later_sequences : List Pair → Bytes
later_sequences [] = []
later_sequences (p ∷ ps) = b'&' ∷ (sequence_of p ++ later_sequences ps)

serialize_loop-later :
    (ps : List Pair) (out : Bytes) → serialize_loop ps true out ≡ out ++ later_sequences ps
unfolding serialize_loop
serialize_loop-later [] out = sym (append-nil out)
serialize_loop-later ((name, value) ∷ ps) out =
    rw (append_urlencoded-urlencoded, append_urlencoded-urlencoded)
      (serialize_loop-later ps _ ∙ simp append_assoc)

pub serialize_urlencoded-cons :
    (p : Pair) (ps : List Pair)
    → serialize_urlencoded (p ∷ ps) ≡ sequence_of p ++ later_sequences ps
unfolding serialize_urlencoded serialize_loop
serialize_urlencoded-cons (name, value) ps =
    rw (append_urlencoded-urlencoded, append_urlencoded-urlencoded)
      (serialize_loop-later ps _ ∙ simp append_assoc)

-- The bytes of the output: those that stand for themselves, a plus sign and a percent sign.
abbrev pub output_byte : ℕ → Bool
output_byte c = byte_serialized_unchanged c || c == b'+' || c == b'%'

escape_table : all_below 256 (λ b. all output_byte (escape b)) ≡ true
unfolding all_below escape byte_serialized_unchanged
escape_table = refl

urlencoded_byte-output : (b : ℕ) → b < 256 → All (λ c. output_byte c ≡ true) (urlencoded_byte b)
urlencoded_byte-output b lt = elim (Bool-cases (byte_serialized_unchanged b)) [
  | inl e ↦ rw e (ground arith, tt)
  | inr e ↦ elim (Bool-cases (b == b' ')) [
    | inl x ↦ rw (e, x) (ground arith, tt)
    | inr x ↦
        rw (e, x)
          (all_sound output_byte (escape b)
            (all_below_sound 256 (λ c. all output_byte (escape c)) b escape_table lt))
  ]
]

pub urlencoded-output : (bs : Bytes) → IsBytes bs → All (λ c. output_byte c ≡ true) (urlencoded bs)
urlencoded-output [] h = tt
urlencoded-output (b ∷ bs) h =
    All-append (λ c. output_byte c ≡ true) (urlencoded_byte b) (urlencoded bs)
      (urlencoded_byte-output b h.0) (urlencoded-output bs h.1)
