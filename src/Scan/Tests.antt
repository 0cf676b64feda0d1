-- ===== src/Scan/Tests.antt =====
-- Runs of the scans of src/parser/scan.rs, and their theorems at concrete inputs.
use sorug.Scan.Backward.{swar_rfind, find_last_at}
use sorug.Scan.Delims.{find_authority_end, find_host_end}
use sorug.Scan.Delims.Host.{find_host_end-Reports}
use sorug.Scan.Delims.Laws.{CutsAt, ends_authority, find4-position, find_authority_end-CutsAt}
use sorug.Scan.Delims.{find4}
use sorug.Scan.Find.{swar_find-position, swar_find4-position}
use sorug.Scan.Memchr.{Memchr, IsLast, position-IsFirst}
use sorug.Scan.Swar.{swar_find, swar_find4}
use sorug.Common.{
  ℕ, suc, ◌≤◌, Bool, true, false, ◌||◌, [], ◌∷◌, Option, none, some, Bytes, are_bytes, codes,
  length, position, any, take, ◌==◌, if◌then◌else◌, Bool-cases, ◌⊎◌, inl, inr, ◌≡◌, refl, arith,
}

abbrev pub last_position : (ℕ → Bool) → Bytes → Option ℕ
last_position p [] = none
last_position p (x ∷ h) = elim (last_position p h) [
  | none ↦ if p x then some 0 else none
  | some i ↦ some (suc i)
]

pub last_position-IsLast : (p : ℕ → Bool) (h : Bytes) → IsLast p h (last_position p h)
last_position-IsLast p [] = tt
last_position-IsLast p (x ∷ h) =
    step (Bool-cases (p x)) (last_position p h) (last_position-IsLast p h)
  where
    step :
        (p x ≡ true) ⊎ (p x ≡ false)
        → (o : Option ℕ) → IsLast p h o
        → IsLast p
            (x ∷ h)
            (elim o [ none ↦ (if p x then some 0 else none) | some i ↦ some (suc i) ])
    step (inl e) none f = rw e (x, refl, e, f)
    step (inr e) none f = rw e (e, f)
    step _ (some i) f = f

-- Searches byte by byte, which do what the crate's documentation says.
abbrev pub linear : Memchr
linear = record {
  memchr = λ n h. position (λ b. b == n) h;
  memchr2 = λ n1 n2 h. position (λ b. b == n1 || b == n2) h;
  memchr3 = λ n1 n2 n3 h. position (λ b. b == n1 || b == n2 || b == n3) h;
  memrchr = λ n h. last_position (λ b. b == n) h;
  memchr_first = λ n h. position-IsFirst (λ b. b == n) h;
  memchr2_first = λ n1 n2 h. position-IsFirst (λ b. b == n1 || b == n2) h;
  memchr3_first = λ n1 n2 n3 h. position-IsFirst (λ b. b == n1 || b == n2 || b == n3) h;
  memrchr_last = λ n h. last_position-IsLast (λ b. b == n) h;
}

find_colon : swar_find (codes "r:pass@Api.example.com/") b'/' ≡ some 22
unfolding swar_find
find_colon = refl

find_none : swar_find (codes "AAAAAAAAAAAA") b'@' ≡ none
unfolding swar_find
find_none = refl

find_first_of_four : swar_find4 (codes "example.com:80/a?b#c") b'#' b'?' b'/' b':' ≡ some 11
unfolding swar_find4
find_first_of_four = refl

abbrev host_text : Bytes
host_text = codes "user:pass@Api.example.com:80/a?b#c"

swar_find-position_example : swar_find host_text b'@' ≡ some 9
swar_find-position_example =
    swar_find-position host_text b'@' (are_bytes host_text refl) (omega arith)

swar_find4-position_example : swar_find4 host_text b'#' b'?' b'/' b'@' ≡ some 9
swar_find4-position_example =
    swar_find4-position host_text b'#' b'?' b'/' b'@' (are_bytes host_text refl) (omega arith)
      (omega arith) (omega arith) (omega arith)

find4-position_example : find4 linear b'#' b'?' b'/' b'@' host_text ≡ some 9
find4-position_example =
    find4-position linear host_text (are_bytes host_text refl) b'#' b'?' b'/' b'@' (omega arith)
      (omega arith) (omega arith) (omega arith)

find_authority_end-CutsAt_example :
    CutsAt (ends_authority true) host_text (find_authority_end linear host_text true)
find_authority_end-CutsAt_example =
    find_authority_end-CutsAt linear host_text (are_bytes host_text refl) true

abbrev tabbed_text : Bytes
tabbed_text = codes "Api.exa\tmple.com:80/a"

find_host_end-Reports_example :
    ((find_host_end linear tabbed_text true).0 ≤ length tabbed_text)
    × ((find_host_end linear tabbed_text true).1
        ≡ any
            (λ b. b == b'\t' || b == b'\n' || b == b'\r')
            (take (find_host_end linear tabbed_text true).0 tabbed_text))
find_host_end-Reports_example =
    find_host_end-Reports linear tabbed_text (are_bytes tabbed_text refl) true

-- `A` next to `@` is marked too, and is passed over.
last_at_before_capital_a : swar_rfind (codes "r:pass@Api.example.com") 22 b'@' ≡ some 6
unfolding swar_rfind
last_at_before_capital_a = refl

last_at_none : find_last_at linear (codes "AAAAAAAAAAAA@") 12 ≡ none
unfolding find_last_at
last_at_none = refl
