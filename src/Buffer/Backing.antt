-- ===== src/Buffer/Backing.antt =====
-- `Backing` of src/lib.rs: the serialization of a URL, a borrow of the input or an own string.
use sorug.Common.{Bool, true, false, ℕ, Bytes, length, bytes_eq, ◌==◌}

pub data Backing : Type 0 where
  borrowed : Bytes → Backing
  owned : Bytes → Backing

unfoldable pub as_str : Backing → Bytes
as_str (borrowed s) = s
as_str (owned s) = s

unfoldable pub len : Backing → ℕ
unfolding as_str
len b = length (as_str b)

unfoldable pub is_empty : Backing → Bool
unfolding len
is_empty b = len b == 0

unfoldable pub is_borrowed : Backing → Bool
is_borrowed (borrowed s) = true
is_borrowed (owned s) = false

unfoldable pub into_owned : Backing → Backing
into_owned (borrowed s) = owned s
into_owned (owned s) = owned s

unfoldable pub ensure_owned : Backing → Backing
ensure_owned (borrowed s) = owned s
ensure_owned (owned s) = owned s

-- `PartialEq`: by the text, whoever owns it.
unfoldable pub backing_eq : Backing → Backing → Bool
unfolding as_str bytes_eq
backing_eq a b = bytes_eq (as_str a) (as_str b)
