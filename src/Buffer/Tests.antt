-- ===== src/Buffer/Tests.antt =====
-- Runs of the serialization buffer of src/parser/serialization.rs, and its theorems at concrete
-- inputs.
use sorug.Buffer.Backing.{is_borrowed}
use sorug.Buffer.Defs.{
  SerializationBuf, owned, new, as_str, len, finish, starts_with, encode_utf8, before_last_char,
  length_of, push, push_str, truncate, push_state, push_str_state, truncate_state, pop, insert_str,
  replace_range, string_truncate, string_replace, text_of, is_char_boundary,
}
use sorug.Buffer.Edits.{
  Edit, AllAllowed, apply, run, run_string, on_string, text, Coherent, run-refines,
}
use sorug.Buffer.ZeroCopy.{push_all, AllNext, push_all-is_borrowed}
use sorug.Common.{
  Bool, none, some, OnSome, true, false, List, [], ◌∷◌, Bytes, codes, ◌≡◌, refl, arith, false≢true,
}

abbrev source_text : Bytes
source_text = codes "http://a/../b"

-- The href is borrowed up to the dot segment, and then leaves the source.
abbrev dot_segment_edits : List Edit
dot_segment_edits =
    Edit.push_text true (codes "http://a/")
    ∷ Edit.push_char b'.'
    ∷ Edit.truncate_to 9
    ∷ Edit.push_text false (codes "b")
    ∷ Edit.push_char b'?'
    ∷ Edit.pop_char
    ∷ Edit.replace 7 9 []
    ∷ []

dot_segment_edits-AllAllowed : AllAllowed dot_segment_edits (new source_text)
unfolding new len length_of apply push push_str truncate push_state push_str_state truncate_state
    starts_with encode_utf8 as_str text_of is_char_boundary replace_range pop
dot_segment_edits-AllAllowed =
    (λ e. refl, (tt, ((omega arith, refl), (λ e. absurd (false≢true e), (tt, (tt, (tt, tt)))))))

abbrev dot_segment_buffer : SerializationBuf
dot_segment_buffer = record { source = source_text; state = owned (codes "http://b") }

dot_segment_run : run dot_segment_edits (new source_text) ≡ some dot_segment_buffer
unfolding run apply new push push_str truncate pop replace_range
dot_segment_run = refl

run-refines_example :
    (text (run dot_segment_edits (new source_text)) ≡ some (codes "http://b"))
    × OnSome Coherent (run dot_segment_edits (new source_text))
unfolding run_string on_string encode_utf8 before_last_char string_truncate string_replace
run-refines_example = run-refines source_text dot_segment_edits dot_segment_edits-AllAllowed

-- Behind the text, there is no place to insert.
insert_panics : run (Edit.insert_at 1 (codes "a") ∷ []) (new source_text) ≡ none
unfolding run apply insert_str new
insert_panics = refl

-- The second piece is the slice that comes next.
abbrev pieces : List (Bool × Bytes)
pieces = (false, codes "http") ∷ (true, codes "://a") ∷ []

pieces-AllNext : AllNext pieces (new source_text)
unfolding new push_str push_str_state starts_with
pieces-AllNext = (λ e. absurd (false≢true e), (λ e. refl, tt))

push_all-is_borrowed_example : is_borrowed (finish (push_all pieces (new source_text))) ≡ true
unfolding starts_with
push_all-is_borrowed_example = push_all-is_borrowed source_text pieces pieces-AllNext
