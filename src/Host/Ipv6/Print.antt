-- ===== src/Host/Ipv6/Print.antt =====
-- src/parser/host.rs, how an IPv6 address is written: its longest run of zeros, and the text.
use sorug.Common.{
  ℕ, zero, suc, ◌+◌, ◌-◌, ◌/◌, ◌%◌, List, [], ◌∷◌, ◌++◌, Option, none, some, Bytes, get_or, ltb,
  ◌==◌, if◌then◌else◌,
}

-- `finish_sequence`: the run from `start` to `end`, if there is one, counts if it is longer than the
-- longest so far. A start or a run of `none` is the source's -1.
abbrev pub longer : ℕ → ℕ → Option (ℕ × ℕ) → Option (ℕ × ℕ)
longer start size none = some (start, size)
longer start size (some (s, n)) = if ltb n size then some (start, size) else some (s, n)

abbrev pub finish_sequence : ℕ → Option ℕ → Option (ℕ × ℕ) → Option (ℕ × ℕ)
finish_sequence end none longest = longest
finish_sequence end (some start) longest = longer start (end - start) longest

abbrev pub or_start : Option ℕ → ℕ → Option ℕ
or_start none i = some i
or_start (some start) i = some start

-- The loop, from piece `i` on.
unfoldable pub zero_loop : List ℕ → ℕ → Option ℕ → Option (ℕ × ℕ) → Option (ℕ × ℕ)
zero_loop [] i start longest = finish_sequence i start longest
zero_loop (p ∷ ps) i start longest =
    let zero_piece = zero_loop ps (i + 1) (or_start start i) longest in
    let other_piece = zero_loop ps (i + 1) none (finish_sequence i start longest) in
    if p == 0 then zero_piece else other_piece

-- The bounds of a run of two zeros or more.
abbrev pub at_least_two : Option (ℕ × ℕ) → Option (ℕ × ℕ)
at_least_two none = none
at_least_two (some (start, size)) = if ltb size 2 then none else some (start, start + size)

unfoldable pub longest_zero_sequence : List ℕ → Option (ℕ × ℕ)
unfolding zero_loop
longest_zero_sequence pieces = at_least_two (zero_loop pieces 0 none none)

-- `{:x}` on 16 bits
abbrev hex_digit : ℕ → ℕ
hex_digit d = if ltb d 10 then b'0' + d else b'a' + (d - 10)

unfoldable pub lower_hex : ℕ → Bytes
lower_hex n =
    if ltb n 0x10
    then hex_digit n ∷ []
    else if ltb n 0x100
    then hex_digit (n / 0x10) ∷ hex_digit (n % 0x10) ∷ []
    else if ltb n 0x1000
    then hex_digit (n / 0x100) ∷ hex_digit (n / 0x10 % 0x10) ∷ hex_digit (n % 0x10) ∷ []
    else hex_digit (n / 0x1000)
      ∷ hex_digit (n / 0x100 % 0x10)
      ∷ hex_digit (n / 0x10 % 0x10)
      ∷ hex_digit (n % 0x10)
      ∷ []

abbrev pub starts_run : ℕ → Option (ℕ × ℕ) → Option ℕ
starts_run i none = none
starts_run i (some (start, end)) = if i == start then some end else none

unfoldable pub write_piece : List ℕ → ℕ → Bytes → Bytes
unfolding lower_hex
write_piece segments i out =
    let written = out ++ lower_hex (get_or segments i 0) in
    if ltb i 7 then written ++ b':' ∷ [] else written

-- The loop, from piece `i` on; eight rounds are enough.
unfoldable pub write_loop : ℕ → List ℕ → Option (ℕ × ℕ) → ℕ → Bytes → Bytes
unfolding write_piece
write_loop zero segments run i out = out
write_loop (suc fuel) segments run i out =
    if ltb i 8
    then (elim (starts_run i run) [
      | none ↦ write_loop fuel segments run (i + 1) (write_piece segments i out)
      | some end ↦
          let out' = if i == 0 then (out ++ b':' ∷ []) ++ b':' ∷ [] else out ++ b':' ∷ [] in
          if ltb end 8
          then write_loop fuel segments run (end + 1) (write_piece segments end out')
          else out'
    ])
    else out

unfoldable pub write_ipv6_to : Bytes → List ℕ → Bytes
unfolding longest_zero_sequence write_loop
write_ipv6_to out segments = write_loop 8 segments (longest_zero_sequence segments) 0 out

-- `write_ipv6`: what goes to a formatter, piece by piece.
unfoldable pub display_piece : List ℕ → ℕ → Bytes
unfolding lower_hex
display_piece segments i = lower_hex (get_or segments i 0) ++ (if ltb i 7 then b':' ∷ [] else [])

unfoldable pub display_loop : ℕ → List ℕ → Option (ℕ × ℕ) → ℕ → Bytes
unfolding display_piece
display_loop zero segments run i = []
display_loop (suc fuel) segments run i =
    if ltb i 8
    then (elim (starts_run i run) [
      | none ↦ display_piece segments i ++ display_loop fuel segments run (i + 1)
      | some end ↦
          let rest = display_piece segments end ++ display_loop fuel segments run (end + 1) in
          (b':' ∷ []) ++ (if i == 0 then b':' ∷ [] else []) ++ (if ltb end 8 then rest else [])
    ])
    else []

unfoldable pub write_ipv6 : List ℕ → Bytes
unfolding longest_zero_sequence display_loop
write_ipv6 segments = display_loop 8 segments (longest_zero_sequence segments) 0
