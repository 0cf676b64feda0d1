-- ===== src/Record/Flags.antt =====
-- src/lib.rs, `UrlFlags`: eight Boolean attributes in one byte.
use sorug.Common.{
  ℕ, zero, suc, ◌-◌, ◌^◌, ◌<◌, bit_and, bit_or, Bool, true, false, not, ◌&&◌, ◌||◌, all_below,
  all_below_sound, ◌==◌, ◌≡◌, refl, arith,
}

-- The bit of each flag, and the flag alone.
abbrev pub special : ℕ
special = 2 ^ 0

abbrev pub has_credentials : ℕ
has_credentials = 2 ^ 1

abbrev pub has_empty_host : ℕ
has_empty_host = 2 ^ 2

abbrev pub opaque_path : ℕ
opaque_path = 2 ^ 3

abbrev pub has_password : ℕ
has_password = 2 ^ 4

abbrev pub host_ipv4 : ℕ
host_ipv4 = 2 ^ 5

abbrev pub host_ipv6 : ℕ
host_ipv6 = 2 ^ 6

abbrev pub host_idna : ℕ
host_idna = 2 ^ 7

unfoldable pub contains : ℕ → ℕ → Bool
contains flags other = bit_and flags other == other

unfoldable pub insert : ℕ → ℕ → ℕ
insert flags other = bit_or flags other

-- `!other` on eight bits
unfoldable pub remove : ℕ → ℕ → ℕ
remove flags other = bit_and flags (255 - other)

unfoldable pub is_special : ℕ → Bool
unfolding contains
is_special flags = contains flags special

unfoldable pub has_opaque_path : ℕ → Bool
unfolding contains
has_opaque_path flags = contains flags opaque_path

abbrev same : Bool → Bool → Bool
same true b = b
same false b = not b

same_sound : (a b : Bool) → same a b ≡ true → a ≡ b
same_sound true b e = ground arith
same_sound false b e = ground arith

-- One flag is put in or taken out, and another one is asked for.
abbrev checked : ℕ → ℕ → ℕ → Bool
checked i flags j =
    same (contains (insert flags (2 ^ i)) (2 ^ j)) (i == j || contains flags (2 ^ j))
    && same (contains (remove flags (2 ^ i)) (2 ^ j)) (not (i == j) && contains flags (2 ^ j))

all_checked : (i : ℕ) → i < 8 → all_below 256 (λ flags. all_below 8 (checked i flags)) ≡ true
unfolding all_below contains insert remove
all_checked zero lt = refl
all_checked (suc zero) lt = refl
all_checked (suc (suc zero)) lt = refl
all_checked (suc (suc (suc zero))) lt = refl
all_checked (suc (suc (suc (suc zero)))) lt = refl
all_checked (suc (suc (suc (suc (suc zero))))) lt = refl
all_checked (suc (suc (suc (suc (suc (suc zero)))))) lt = refl
all_checked (suc (suc (suc (suc (suc (suc (suc zero))))))) lt = refl
all_checked (suc (suc (suc (suc (suc (suc (suc (suc i)))))))) lt = absurd (omega arith)

-- In a byte of flags, putting in a flag sets it, taking it out clears it, and neither touches
-- another.
pub insert-remove-contains :
    (flags i j : ℕ)
    → flags < 256
    → i < 8
    → j < 8
    → (contains (insert flags (2 ^ i)) (2 ^ j) ≡ i == j || contains flags (2 ^ j))
      × (contains (remove flags (2 ^ i)) (2 ^ j) ≡ not (i == j) && contains flags (2 ^ j))
insert-remove-contains flags i j hf hi hj =
    let table : all_below 8 (checked i flags) ≡ true =
      all_below_sound 256 (λ f. all_below 8 (checked i f)) flags (all_checked i hi) hf in
    let ok : checked i flags j ≡ true = all_below_sound 8 (checked i flags) j table hj in
    (same_sound _ _ (ground arith), same_sound _ _ (ground arith))
