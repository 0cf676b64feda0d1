-- ===== src/Buffer/Edits.antt =====
-- Every run of edits on the buffer (src/parser/serialization.rs) has the result that it has on a
-- plain string.
use sorug.Buffer.Backing
use sorug.Buffer.Defs.{
  encode_utf8, before_last_char, State, borrowed, owned, SerializationBuf, new, text_of, as_str,
  length_of, len, clear_state, clear, upgrade_to_owned, push, push_str, truncate_state, truncate,
  pop_state, pop_text, pop, insert_str, replace_range, finish_state, finish, is_char_boundary,
  string_truncate, string_insert, string_replace, as_owned, with_some, edit_owned,
}
use sorug.Buffer.Refines.{
  Within, IsValid, NextSlice, push_state-Writes, push_str_state-Writes, before_last_char-le,
  length-take,
}
use sorug.Buffer.Refines.{len-as_str}
use sorug.Common.{
  ℕ, zero, suc, ◌≤◌, Bool, true, List, [], ◌∷◌, ◌++◌, Bytes, length, take, ◌≡◌, refl, sym, ap, ◌∙◌,
  arith, Option, none, some, OnSome,
}

-- The calls that change a buffer.
pub data Edit : Type 0 where
  push_char : ℕ → Edit
  push_text : Bool → Bytes → Edit
  truncate_to : ℕ → Edit
  pop_char : Edit
  insert_at : ℕ → Bytes → Edit
  replace : ℕ → ℕ → Bytes → Edit
  clear_all : Edit
  upgrade : Edit

unfoldable pub apply : Edit → SerializationBuf → Option SerializationBuf
apply (push_char c) b = some (push b c)
apply (push_text same_slice s) b = some (push_str b same_slice s)
apply (truncate_to n) b = truncate b n
apply pop_char b = some (pop b).1
apply (insert_at i s) b = insert_str b i s
apply (replace i j s) b = replace_range b i j s
apply clear_all b = some (clear b)
apply upgrade b = some (upgrade_to_owned b)

-- The same calls on a `String`.
unfoldable pub on_string : Edit → Bytes → Option Bytes
on_string (push_char c) t = some (t ++ encode_utf8 c)
on_string (push_text same_slice s) t = some (t ++ s)
on_string (truncate_to n) t = string_truncate t n
on_string pop_char t = some (take (before_last_char t) t)
on_string (insert_at i s) t = string_insert t i s
on_string (replace i j s) t = string_replace t i j s
on_string clear_all t = some []
on_string upgrade t = some t

-- What the callers keep to: the pointers are equal only at the slice that comes next, and nothing is
-- truncated to a greater length or inside a code point (`debug_assert!`).
abbrev pub Allowed : Edit → SerializationBuf → Type 0
Allowed (push_text same_slice s) b = same_slice ≡ true → NextSlice b.source b.state s
Allowed (truncate_to n) b = (n ≤ len b) × (is_char_boundary (as_str b) n ≡ true)
Allowed _ b = Unit

-- The text of a buffer, unless it panicked.
abbrev pub text : Option SerializationBuf → Option Bytes
text none = none
text (some b) = some (as_str b)

take-take_le : (n k : ℕ) (s : Bytes) → n ≤ k → take n (take k s) ≡ take n s
take-take_le zero k s h = refl
take-take_le (suc n) zero s h = absurd (omega arith)
take-take_le (suc n) (suc k) [] h = refl
take-take_le (suc n) (suc k) (c ∷ s) h = ap (λ t. c ∷ t) (take-take_le n k s (omega arith))

abbrev Agrees : Edit → SerializationBuf → Type 0
Agrees e b = (text (apply e b) ≡ on_string e (as_str b)) × OnSome IsValid (apply e b)

within_string :
    (t : Bytes) (n : ℕ)
    → n ≤ length t
    → is_char_boundary t n ≡ true
    → string_truncate t n ≡ some (take n t)
unfolding string_truncate
within_string t n le e = rw e (ground arith)

-- The text of a state, unless it panicked.
abbrev state_text : Bytes → Option State → Option Bytes
state_text source none = none
state_text source (some st) = some (text_of source st)

-- A state that panics where the string does, and else has its text, inside the source.
abbrev Follows : Bytes → Option State → Option Bytes → Type 0
Follows source o r = (state_text source o ≡ r) × OnSome (Within source) o

with_some-Agrees :
    (b : SerializationBuf) (o : Option State) (r : Option Bytes)
    → Follows b.source o r
    → (text (with_some b o) ≡ r) × OnSome IsValid (with_some b o)
unfolding as_str
with_some-Agrees b none r h = h
with_some-Agrees b (some st) r h = h

as_owned-Follows : (source : Bytes) (o : Option Bytes) → Follows source (as_owned o) o
unfolding text_of
as_owned-Follows source none = (refl, tt)
as_owned-Follows source (some t) = (refl, tt)

truncate_state-Follows :
    (source : Bytes) (st : State) (n : ℕ)
    → n ≤ length_of st
    → is_char_boundary (text_of source st) n ≡ true
    → Within source st
    → Follows source (truncate_state st n) (string_truncate (text_of source st) n)
unfolding truncate_state length_of text_of
truncate_state-Follows source (borrowed k) n lt e h =
    let cut = length-take k source h in
    (
      ap some (sym (take-take_le n k source lt))
          ∙ sym (within_string (take k source) n (omega arith) e),
      omega arith,
    )
truncate_state-Follows source (owned t) n lt e h = as_owned-Follows source (string_truncate t n)

truncate-Agrees :
    (b : SerializationBuf) (n : ℕ)
    → (n ≤ len b) × (is_char_boundary (as_str b) n ≡ true)
    → IsValid b
    → Agrees (truncate_to n) b
unfolding apply on_string truncate as_str len
truncate-Agrees b n (lt, e) h =
    with_some-Agrees b (truncate_state b.state n) (string_truncate (as_str b) n)
      (truncate_state-Follows b.source b.state n lt e h)

-- A method of the owned text, to which the buffer is upgraded first.
edit_owned-Agrees :
    (f : Bytes → Option Bytes) (b : SerializationBuf)
    → (text (edit_owned f (upgrade_to_owned b)) ≡ f (as_str b))
      × OnSome IsValid (edit_owned f (upgrade_to_owned b))
unfolding upgrade_to_owned as_str
edit_owned-Agrees f b =
    with_some-Agrees (upgrade_to_owned b) (as_owned (f (as_str b))) (f (as_str b))
      (as_owned-Follows b.source (f (as_str b)))

pop-Agrees : (b : SerializationBuf) → IsValid b → Agrees pop_char b
unfolding apply on_string pop
pop-Agrees b h = split (as_str b) refl
  where
    go :
        (source : Bytes) (st : State)
        → Within source st
        → Follows source
            (some (pop_state source st))
            (some (take (before_last_char (text_of source st)) (text_of source st)))
    go source (borrowed k) h =
        unfold text_of pop_state in
        let le = before_last_char-le (take k source) in
        let cut = length-take k source h in
        (ap some (sym (take-take_le _ k source (omega arith))), omega arith)
    go source (owned t) h = unfold text_of pop_state in (refl, tt)

    split :
        (t : Bytes)
        → as_str b ≡ t
        → (some (as_str (pop_text t b).1) ≡ some (take (before_last_char (as_str b)) (as_str b)))
          × IsValid (pop_text t b).1
    split [] e = unfold pop_text in (ap some (e ∙ sym (rw e (unfold before_last_char in refl))), h)
    split (c ∷ t) e = unfold pop_text as_str in go b.source b.state h

clear-Agrees : (b : SerializationBuf) → Agrees clear_all b
unfolding apply on_string clear as_str
clear-Agrees b = go b.source b.state
  where
    go : (source : Bytes) (st : State) → Follows source (some (clear_state st)) (some [])
    go source (borrowed k) = unfold text_of clear_state in (refl, omega arith)
    go source (owned t) = unfold text_of clear_state in (refl, tt)

-- What was written is the text of the buffer.
written : {a b : Bytes} {P : Type 0} → (a ≡ b) × P → (some a ≡ some b) × P
written (e, h) = (ap some e, h)

-- One edit: it panics where the string's does, or else the text is what the string's makes, and the
-- borrow stays inside the source.
apply-Agrees : (e : Edit) (b : SerializationBuf) → Allowed e b → IsValid b → Agrees e b
apply-Agrees (push_char c) b a h =
    unfold apply on_string push as_str in written (push_state-Writes b.source b.state c h)
apply-Agrees (push_text same_slice s) b a h =
    unfold apply on_string push_str as_str in
    written (push_str_state-Writes b.source b.state same_slice s a h)
apply-Agrees (truncate_to n) b a h = truncate-Agrees b n a h
apply-Agrees pop_char b a h = pop-Agrees b h
apply-Agrees (insert_at i s) b a h =
    unfold apply on_string insert_str in edit_owned-Agrees (λ t. string_insert t i s) b
apply-Agrees (replace i j s) b a h =
    unfold apply on_string replace_range in edit_owned-Agrees (λ t. string_replace t i j s) b
apply-Agrees clear_all b a h = clear-Agrees b
apply-Agrees upgrade b a h = unfold apply on_string upgrade_to_owned as_str text_of in (refl, tt)

-- One edit after the other, up to the first that panics.
unfoldable pub run : List Edit → SerializationBuf → Option SerializationBuf
run [] b = some b
run (e ∷ es) b = elim (apply e b) [ none ↦ none | some b' ↦ run es b' ]

unfoldable pub run_string : List Edit → Bytes → Option Bytes
run_string [] t = some t
run_string (e ∷ es) t = elim (on_string e t) [ none ↦ none | some t' ↦ run_string es t' ]

-- Every edit is allowed where it is made.
abbrev pub AllAllowed : List Edit → SerializationBuf → Type 0
AllAllowed [] b = Unit
AllAllowed (e ∷ es) b = Allowed e b × OnSome (λ b'. AllAllowed es b') (apply e b)

run-Agrees :
    (es : List Edit) (b : SerializationBuf)
    → AllAllowed es b
    → IsValid b
    → (text (run es b) ≡ run_string es (as_str b)) × OnSome IsValid (run es b)
unfolding run run_string
run-Agrees [] b a h = (refl, h)
run-Agrees (e ∷ es) b (a, more) h =
    let (same, ok) = apply-Agrees e b a h in
    let (later, ok') = go (apply e b) more ok (run-Agrees es) in
    (
      later
          ∙ ap (λ o. elim o as (λ x. Option Bytes) [ none ↦ none | some t' ↦ run_string es t' ])
              same,
      ok',
    )
  where
    go :
        (o : Option SerializationBuf)
        → OnSome (λ b'. AllAllowed es b') o
        → OnSome IsValid o
        → ((b' : SerializationBuf)
            → AllAllowed es b'
            → IsValid b'
            → (text (run es b') ≡ run_string es (as_str b')) × OnSome IsValid (run es b'))
        → (text (elim o as (λ x. Option SerializationBuf) [ none ↦ none | some b' ↦ run es b' ])
            ≡ (elim (text o) as (λ x. Option Bytes) [ none ↦ none | some t' ↦ run_string es t' ]))
          × OnSome IsValid
              (elim o as (λ x. Option SerializationBuf) [ none ↦ none | some b' ↦ run es b' ])
    go none more ok rec = (refl, tt)
    go (some b') more ok rec = rec b' more ok

new_empty : (source : Bytes) → (as_str (new source) ≡ []) × IsValid (new source)
unfolding new as_str text_of
new_empty source = (refl, omega arith)

finish-as_str : (b : SerializationBuf) → Backing.as_str (finish b) ≡ as_str b
unfolding finish as_str text_of Backing.as_str
finish-as_str b = go b.source b.state
  where
    go : (source : Bytes) (st : State) → Backing.as_str (finish_state source st) ≡ text_of source st
    go source (borrowed k) = refl
    go source (owned t) = refl

-- The buffer slices its source inside its length, its length is that of its text, and its text is
-- what it finishes with.
abbrev pub Coherent : SerializationBuf → Type 0
Coherent b = IsValid b × (len b ≡ length (as_str b)) × (Backing.as_str (finish b) ≡ as_str b)

IsValid-Coherent : (o : Option SerializationBuf) → OnSome IsValid o → OnSome Coherent o
IsValid-Coherent none h = tt
IsValid-Coherent (some b) h = (h, len-as_str b h, finish-as_str b)

-- A run of allowed edits on a new buffer panics exactly where the same run on an empty string does.
-- Else its text is that of the string, its borrow stays inside the source, its length is that of its
-- text, and the finished backing has its text.
pub run-refines :
    (source : Bytes) (es : List Edit)
    → AllAllowed es (new source)
    → (text (run es (new source)) ≡ run_string es []) × OnSome Coherent (run es (new source))
run-refines source es a =
    let (empty, ok) = new_empty source in
    let (same, ok') = run-Agrees es (new source) a ok in
    (same ∙ ap (run_string es) empty, IsValid-Coherent (run es (new source)) ok')
