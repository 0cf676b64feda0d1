-- ===== src/Record/Tests.antt =====
-- Runs of the flags and the origin of src/lib.rs, and their theorems at concrete inputs.
use sorug.Record.Flags.{contains, insert, remove, insert-remove-contains}
use sorug.Record.Origin.{tuple, serialized}
use sorug.Record.Origin.Ports.{serialized-ports}
use sorug.Common.{ℕ, ◌^◌, true, false, codes, ◌≡◌, refl, arith}

default_is_left_out : serialized (tuple (codes "https") (codes "a.b") 443) ≡ codes "https://a.b"
unfolding serialized
default_is_left_out = refl

port_is_written : serialized (tuple (codes "https") (codes "a.b") 80) ≡ codes "https://a.b:80"
unfolding serialized
port_is_written = refl

insert-remove-contains_example :
    (contains (insert 5 (2 ^ 3)) (2 ^ 3) ≡ true) × (contains (remove 5 (2 ^ 3)) (2 ^ 3) ≡ false)
insert-remove-contains_example =
    insert-remove-contains 5 3 3 (omega arith) (omega arith) (omega arith)

abbrev https_port : ℕ
https_port = 443

serialized-ports_example : https_port ≡ https_port
serialized-ports_example =
    serialized-ports (codes "https") (codes "a.b") https_port https_port (omega arith) (omega arith)
      refl
