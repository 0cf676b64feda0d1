-- ===== src/Port/RoundTrip.antt =====
-- The ports that src/parser/mod.rs writes are read back.
use sorug.Port.{
  finish_port, finish_port_setter, ends_port, port_loop, is_default, opt_port, parse_port,
  parse_port_setter, itoa_loop, itoa_buf,
}
use sorug.Common.{
  ==_iff, ℕ, zero, suc, ◌+◌, ◌-◌, ◌*◌, ◌/◌, ◌%◌, ◌^◌, ◌<◌, Bool, true, false, List, [], ◌∷◌, Option,
  none, some, Bytes, ◌==◌, if◌then◌else◌, Bool-cases, inl, inr, ◌≡◌, refl, sym, ap, ◌∙◌, arith,
}

-- One digit is read.
port_loop-digit :
    (stops : ℕ → Bool) (d port : ℕ) (s input : List ℕ) (any : Bool)
    → d < 10
    → port * 10 + d < 2 ^ 16
    → port_loop stops ((b'0' + d) ∷ s) input port any ≡ port_loop stops s s (port * 10 + d) true
unfolding port_loop
port_loop-digit stops d port s input any hd h = ground (arith, same)
  where
    same : port * 10 + (b'0' + d - b'0') ≡ port * 10 + d
    same = omega arith

-- The number has no more digits than there are rounds.
abbrev Fits : ℕ → ℕ → Type 0
Fits zero value = value < 1
Fits (suc fuel) value = Fits fuel (value / 10)

itoa_loop-zero : (fuel : ℕ) (buf : Bytes) → itoa_loop fuel 0 buf ≡ buf
unfolding itoa_loop
itoa_loop-zero zero buf = refl
itoa_loop-zero (suc fuel) buf = refl

last_digit :
    (stops : ℕ → Bool) (port value : ℕ) (buf input : List ℕ) (any : Bool)
    → port ≡ value / 10
    → value < 2 ^ 16
    → port_loop stops ((b'0' + value % 10) ∷ buf) input port any
      ≡ port_loop stops buf buf value true
last_digit stops port value buf input any e h =
    port_loop-digit stops (value % 10) port buf input any (omega arith) (omega arith)
    ∙ ap (λ (k : ℕ). port_loop stops buf buf k true) (omega arith)

-- The digits that the loop writes are read as the number.
port_loop-itoa_loop :
    (stops : ℕ → Bool) (fuel value : ℕ) (buf input : List ℕ)
    → 0 < value
    → Fits fuel value
    → value < 2 ^ 16
    → port_loop stops (itoa_loop fuel value buf) input 0 false ≡ port_loop stops buf buf value true
unfolding itoa_loop
port_loop-itoa_loop stops zero value buf input pos few h = absurd (omega arith)
port_loop-itoa_loop stops (suc fuel) value buf input pos few h =
    rw positive (elim (Bool-cases (value / 10 == 0)) [
      | inl e ↦
          rw ((==_iff (value / 10) 0).0 e, itoa_loop-zero fuel ((b'0' + value % 10) ∷ buf))
            (last_digit stops 0 value buf input false (sym ((==_iff (value / 10) 0).0 e)) h)
      | inr e ↦
          port_loop-itoa_loop stops fuel (value / 10) ((b'0' + value % 10) ∷ buf) input
            (ground arith) few (omega arith)
          ∙ last_digit stops (value / 10) value buf _ true refl h
    ])
  where
    positive : (value == 0) ≡ false
    positive = ground arith

written_port :
    (stops : ℕ → Bool) (fuel p : ℕ) (input : List ℕ)
    → Fits fuel p
    → p < 2 ^ 16
    → port_loop stops (if p == 0 then b'0' ∷ [] else itoa_loop fuel p []) input 0 false
      ≡ some (p, true, [])
unfolding port_loop
written_port stops fuel p input few h = elim (Bool-cases (p == 0)) [
  | inl e ↦ rw e (ap (λ (k : ℕ). some (k, true, [])) (sym ((==_iff p 0).0 e)))
  | inr e ↦ rw e (port_loop-itoa_loop stops fuel p [] input (ground arith) few h)
]

port_loop-itoa_buf :
    (stops : ℕ → Bool) (p : ℕ) (input : List ℕ)
    → p < 2 ^ 16
    → port_loop stops (itoa_buf p) input 0 false ≡ some (p, true, [])
unfolding itoa_buf
port_loop-itoa_buf stops p input h = written_port stops 5 p input (omega arith) h

opt_port-small :
    (p : ℕ) (default : Option ℕ)
    → p < 2 ^ 16
    → opt_port p true default ≡ (if is_default p default then none else some p)
opt_port-small p default h = rw same refl
  where
    same : p % 2 ^ 16 ≡ p
    same = omega arith

-- A port of 16 bits, written and parsed again in a URL or by the setter, is the port, unless it is
-- the default, which is left out; nothing is left unread.
pub parse_port-itoa_buf :
    (p : ℕ) (default : Option ℕ)
    → p < 2 ^ 16
    → (parse_port (itoa_buf p) default ≡ some ((if is_default p default then none else some p), []))
      × (parse_port_setter (itoa_buf p) default
          ≡ some ((if is_default p default then none else some p), []))
unfolding parse_port parse_port_setter
parse_port-itoa_buf p default h =
    let left_out : opt_port p true default ≡ (if is_default p default then none else some p) =
      opt_port-small p default h in
    (
      ap (finish_port default) (port_loop-itoa_buf ends_port p (itoa_buf p) h)
          ∙ ap (λ (o : Option ℕ). some (o, [])) left_out,
      ap (finish_port_setter default) (port_loop-itoa_buf (λ c. true) p (itoa_buf p) h)
          ∙ ap (λ (o : Option ℕ). some (o, [])) left_out,
    )
