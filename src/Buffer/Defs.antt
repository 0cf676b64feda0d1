-- ===== src/Buffer/Defs.antt =====
-- src/parser/serialization.rs: the copy-on-write buffer into which the parser writes a URL. A `char`
-- is a code point, and is written by its UTF-8 form. `as_ptr` equality is an argument of `push_str`:
-- whether the text to be written is the very slice of the source that comes next. What panics is
-- `none`.
use sorug.Buffer.Backing.{Backing}
use sorug.Common.{
  ℕ, suc, ◌+◌, ◌/◌, ◌%◌, Bool, true, false, not, ◌&&◌, ◌||◌, [], ◌∷◌, ◌++◌, Option, none, some,
  Bytes, reverse, get_elem?, length, take, drop, ltb, leb, within, ◌==◌, if◌then◌else◌,
}

-- `char::encode_utf8`
unfoldable pub encode_utf8 : ℕ → Bytes
encode_utf8 c =
    if ltb c 0x80
    then c ∷ []
    else if ltb c 0x800
    then (0xc0 + c / 64) ∷ (0x80 + c % 64) ∷ []
    else if ltb c 0x1_0000
    then (0xe0 + c / 4096) ∷ (0x80 + c / 64 % 64) ∷ (0x80 + c % 64) ∷ []
    else (0xf0 + c / 262144) ∷ (0x80 + c / 4096 % 64) ∷ (0x80 + c / 64 % 64) ∷ (0x80 + c % 64) ∷ []

-- `str::starts_with`
unfoldable pub starts_with : Bytes → Bytes → Bool
starts_with s [] = true
starts_with [] (p ∷ ps) = false
starts_with (c ∷ s) (p ∷ ps) = c == p && starts_with s ps

-- Whether a code point starts in these bytes: one of them is no continuation byte.
unfoldable pub char_starts : Bytes → Bool
char_starts [] = false
char_starts (c ∷ cs) = not (within 0x80 0xbf c) || char_starts cs

-- The number of bytes before the last code point: `str::chars().next_back()` takes the rest.
unfoldable pub before_last_char : Bytes → ℕ
unfolding char_starts
before_last_char [] = 0
before_last_char (b ∷ bs) =
    let more = suc (before_last_char bs) in if char_starts bs then more else 0

pub data State : Type 0 where
  borrowed : ℕ → State
  owned : Bytes → State

pub record SerializationBuf : Type 0 where
  pub source : Bytes
  pub state : State

abbrev pub with_state : SerializationBuf → State → SerializationBuf
with_state b st = record b { state = st }

unfoldable pub new : Bytes → SerializationBuf
new source = record { source = source; state = borrowed 0 }

unfoldable pub from_owned : Bytes → SerializationBuf
from_owned s = record { source = []; state = owned s }

unfoldable pub text_of : Bytes → State → Bytes
text_of source (borrowed n) = take n source
text_of source (owned s) = s

unfoldable pub as_str : SerializationBuf → Bytes
unfolding text_of
as_str b = text_of b.source b.state

unfoldable pub length_of : State → ℕ
length_of (borrowed n) = n
length_of (owned s) = length s

unfoldable pub len : SerializationBuf → ℕ
unfolding length_of
len b = length_of b.state

unfoldable pub is_empty : SerializationBuf → Bool
unfolding len
is_empty b = len b == 0

unfoldable pub clear_state : State → State
clear_state (borrowed n) = borrowed 0
clear_state (owned s) = owned []

unfoldable pub clear : SerializationBuf → SerializationBuf
unfolding clear_state
clear b = with_state b (clear_state b.state)

unfoldable pub upgrade_to_owned : SerializationBuf → SerializationBuf
unfolding text_of
upgrade_to_owned b = with_state b (owned (text_of b.source b.state))

-- `push`, by the state: an ASCII byte is compared with the next one of the source, any other code
-- point with what the rest of the source starts with.
unfoldable pub push_state : Bytes → State → ℕ → State
unfolding encode_utf8 starts_with
push_state source (borrowed n) c =
    let rest = drop n source in
    if (if ltb c 0x80 then starts_with rest (c ∷ []) else starts_with rest (encode_utf8 c))
    then borrowed (n + length (encode_utf8 c))
    else owned (take n source ++ encode_utf8 c)
push_state source (owned s) c = owned (s ++ encode_utf8 c)

unfoldable pub push : SerializationBuf → ℕ → SerializationBuf
unfolding push_state
push b c = with_state b (push_state b.source b.state c)

unfoldable pub push_str_state : Bytes → State → Bool → Bytes → State
unfolding starts_with
push_str_state source (borrowed n) same_slice s =
    let rest = drop n source in
    if ltb 0 (length s) && leb (length s) (length rest) && same_slice
    then borrowed (n + length s)
    else if starts_with rest s
    then borrowed (n + length s)
    else owned (take n source ++ s)
push_str_state source (owned t) same_slice s = owned (t ++ s)

unfoldable pub push_str : SerializationBuf → Bool → Bytes → SerializationBuf
unfolding push_str_state
push_str b same_slice s = with_state b (push_str_state b.source b.state same_slice s)

-- `str::is_char_boundary`: the start or the end of the text, or a byte that starts a code point.
unfoldable pub is_char_boundary : Bytes → ℕ → Bool
is_char_boundary s i =
    i == 0
    || i == length s
    || (elim (get_elem? s i) [ none ↦ false | some b ↦ not (within 0x80 0xbf b) ])

-- `String::truncate`, `String::insert_str` and `String::replace_range`; a panic is `none`.
unfoldable pub string_truncate : Bytes → ℕ → Option Bytes
unfolding is_char_boundary
string_truncate t n =
    if leb n (length t) then if is_char_boundary t n then some (take n t) else none else some t

unfoldable pub string_insert : Bytes → ℕ → Bytes → Option Bytes
unfolding is_char_boundary
string_insert t i s = if is_char_boundary t i then some (take i t ++ s ++ drop i t) else none

unfoldable pub string_replace : Bytes → ℕ → ℕ → Bytes → Option Bytes
unfolding is_char_boundary
string_replace t start end s =
    if leb start end && is_char_boundary t start && is_char_boundary t end
    then some (take start t ++ s ++ drop end t)
    else none

-- An owned text, unless the string's method panics.
abbrev pub as_owned : Option Bytes → Option State
as_owned none = none
as_owned (some t) = some (owned t)

abbrev pub with_some : SerializationBuf → Option State → Option SerializationBuf
with_some b none = none
with_some b (some st) = some (with_state b st)

unfoldable pub truncate_state : State → ℕ → Option State
unfolding string_truncate
truncate_state (borrowed n) new_len = some (borrowed new_len)
truncate_state (owned s) new_len = as_owned (string_truncate s new_len)

unfoldable pub truncate : SerializationBuf → ℕ → Option SerializationBuf
unfolding truncate_state
truncate b new_len = with_some b (truncate_state b.state new_len)

-- The last code point, if there is one, and the buffer without it.
unfoldable pub pop_state : Bytes → State → State
unfolding before_last_char
pop_state source (borrowed n) = borrowed (before_last_char (take n source))
pop_state source (owned s) = owned (take (before_last_char s) s)

-- The case distinction of `next_back`, on the text.
unfoldable pub pop_text : Bytes → SerializationBuf → Option Bytes × SerializationBuf
unfolding before_last_char pop_state
pop_text [] b = (none, b)
pop_text (c ∷ s) b =
    (some (drop (before_last_char (c ∷ s)) (c ∷ s)), with_state b (pop_state b.source b.state))

unfoldable pub pop : SerializationBuf → Option Bytes × SerializationBuf
unfolding as_str pop_text
pop b = pop_text (as_str b) b

unfoldable pub ends_with_byte : SerializationBuf → ℕ → Bool
unfolding as_str starts_with
ends_with_byte b c = starts_with (reverse (as_str b)) (c ∷ [])

-- A method of the string that an owned state holds.
abbrev pub on_owned : (Bytes → Option Bytes) → State → Option State
on_owned f (borrowed n) = some (borrowed n)
on_owned f (owned t) = as_owned (f t)

abbrev pub edit_owned : (Bytes → Option Bytes) → SerializationBuf → Option SerializationBuf
edit_owned f b = with_some b (on_owned f b.state)

unfoldable pub insert_str : SerializationBuf → ℕ → Bytes → Option SerializationBuf
unfolding upgrade_to_owned string_insert
insert_str b idx s = edit_owned (λ t. string_insert t idx s) (upgrade_to_owned b)

unfoldable pub replace_range : SerializationBuf → ℕ → ℕ → Bytes → Option SerializationBuf
unfolding upgrade_to_owned string_replace
replace_range b start end s = edit_owned (λ t. string_replace t start end s) (upgrade_to_owned b)

unfoldable pub finish_state : Bytes → State → Backing
finish_state source (borrowed n) = Backing.borrowed (take n source)
finish_state source (owned s) = Backing.owned s

unfoldable pub finish : SerializationBuf → Backing
unfolding finish_state
finish b = finish_state b.source b.state

unfoldable pub into_string : SerializationBuf → Bytes
unfolding text_of
into_string b = text_of b.source b.state
