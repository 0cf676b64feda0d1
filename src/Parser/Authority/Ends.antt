-- ===== src/Parser/Authority/Ends.antt =====
-- Where the host and the port end (`parse_host_and_port`, src/parser/mod.rs).
use sorug.Host.Special.{Idna}
use sorug.Parser.Authority.{
  append_host_text, is_special_not_file, parse_host_input_append, host_text, write_port,
  parse_port_part, parse_host_and_port, Endpoint, is_empty_domain,
}
use sorug.Parser.Input.{next, split_prefix_char, starts_with_char}
use sorug.Parser.Path.Chars.{next-Taken, Taken}
use sorug.Parser.Path.Segment.{All-drop}
use sorug.Parser.Authority.Bounds.{more, append_host-Appended, append_opaque_host-Appended}
use sorug.Parser.Query.Growth.{Appended, Appended-trans}
use sorug.Parser.Record.{slice_to}
use sorug.Parser.Result.{or_failure, to_u32, Holds, Holds-bind, Holds-to_u32}
use sorug.Parser.Userinfo.Bounds.{Appended-length}
use sorug.Port.{
  SchemeType, is_special, default_port_for_scheme, ends_port, is_ignored, port_loop, parse_port,
  finish_port, itoa_buf,
}
use sorug.Scan.Delims.{find_host_end}
use sorug.Scan.Memchr.{Memchr}
use sorug.Common.{
  ℕ, ◌+◌, ◌-◌, ◌*◌, ◌≤◌, Bool, true, false, ◌&&◌, ◌||◌, [], ◌∷◌, ◌++◌, append-nil, Option, none,
  some, Bytes, IsBytes, length, ltb, within, ◌==◌, if◌then◌else◌, Bool-cases, Option-cases, inl,
  inr, ◌≡◌, refl, sym, subst, arith, OnSome,
}

port_loop-IsBytes :
    (stops : ℕ → Bool) (s input : Bytes) (port : ℕ) (has : Bool)
    → IsBytes s
    → IsBytes input
    → OnSome (λ r. IsBytes r.2) (port_loop stops s input port has)
unfolding port_loop
port_loop-IsBytes stops [] input port has h k = k
port_loop-IsBytes stops (c ∷ s) input port has (lt, h) k = elim (Bool-cases (is_ignored c)) [
  | inl e ↦ rw (e, OnSome, port_loop) (port_loop-IsBytes stops s input port has h k)
  | inr e ↦ elim (Bool-cases (within b'0' b'9' c)) [
    | inl f ↦ elim (Bool-cases (ltb 65535 (port * 10 + (c - b'0')))) [
      | inl g ↦ rw (e, f, g, OnSome, port_loop) tt
      | inr g ↦
          rw (e, f, g, OnSome, port_loop)
            (port_loop-IsBytes stops s s (port * 10 + (c - b'0')) true h h)
    ]
    | inr f ↦ elim (Bool-cases (stops c)) [
      | inl g ↦ rw (e, f, g, OnSome, port_loop) k
      | inr g ↦ rw (e, f, g, OnSome, port_loop) tt
    ]
  ]
]

parse_port-IsBytes :
    (input : Bytes) (default : Option ℕ)
    → IsBytes input
    → Holds (λ r. IsBytes r.1) (or_failure (parse_port input default))
unfolding parse_port
parse_port-IsBytes input default h =
    go (port_loop ends_port input input 0 false)
      (port_loop-IsBytes ends_port input input 0 false h h)
  where
    go :
        (o : Option (ℕ × Bool × Bytes))
        → OnSome (λ r. IsBytes r.2) o
        → Holds (λ r. IsBytes r.1) (or_failure (finish_port default o))
    go none k = tt
    go (some (port, has, rest)) k = k

pub split_prefix_char-IsBytes :
    (s : Bytes) (c : ℕ) → IsBytes s → OnSome IsBytes (split_prefix_char s c)
unfolding split_prefix_char
split_prefix_char-IsBytes s c h = go (next s) (next-Taken s h)
  where
    go :
        (o : Option (ℕ × Bytes × Bytes))
        → OnSome (Taken s) o
        → OnSome IsBytes (elim o as (λ x. Option Bytes) [
          | none ↦ none
          | some (d, utf8, rest) ↦ if d == c then some rest else none
        ])
    go none k = tt
    go (some (d, utf8, rest)) k = elim (Bool-cases (d == c)) [
      | inl e ↦ rw (e, OnSome) (k.4)
      | inr e ↦ rw (e, OnSome) tt
    ]

slice_to-Holds : (s : Bytes) (end : ℕ) → end ≤ length s → Holds (λ t. Unit) (slice_to s end)
unfolding slice_to
slice_to-Holds s end le = ground arith

module _ (m : Memchr) (idna : Idna) where
  append_host_text-Appended :
      (out : Bytes) (scheme_type : SchemeType) (text : Bytes)
      → Holds (λ r. Appended out r.1) (append_host_text m idna out scheme_type text)
  append_host_text-Appended out scheme_type text =
      elim (Bool-cases (is_special_not_file scheme_type && length text == 0)) [
        | inl e ↦ rw (e, Holds, append_host_text) tt
        | inr e ↦ elim (Bool-cases (is_special scheme_type)) [
          | inr f ↦ rw (e, f, append_host_text) (append_opaque_host-Appended out text)
          | inl f ↦ elim (Bool-cases (length text == 0)) [
            | inl g ↦ rw (e, f, g, Holds, append_host_text) ([], sym (append-nil out))
            | inr g ↦ rw (e, f, g, append_host_text) (append_host-Appended m idna text out)
          ]
        ]
      ]

  pub parse_host_input_append-Appended :
      (out input : Bytes) (scheme_type : SchemeType)
      → IsBytes input
      → Holds
          (λ r. Appended out r.1 × IsBytes r.2)
          (parse_host_input_append m idna out input scheme_type)
  unfolding parse_host_input_append
  parse_host_input_append-Appended out input scheme_type h =
      Holds-bind (λ r. Appended out r.1) (λ r. Appended out r.1 × IsBytes r.2)
        (append_host_text m idna out scheme_type
          (host_text input (find_host_end m input (is_special scheme_type))))
        _
        (append_host_text-Appended out scheme_type
          (host_text input (find_host_end m input (is_special scheme_type))))
        (λ r a. (a, All-drop (find_host_end m input (is_special scheme_type)).0 input h))

  write_port-Appended : (out : Bytes) (port : Option ℕ) → Appended out (write_port m idna out port)
  write_port-Appended out none = ([], sym (append-nil out))
  write_port-Appended out (some port) =
      more out (out ++ b':' ∷ []) (itoa_buf port) (b':' ∷ [], refl)

  pub parse_port_part-Appended :
      (out : Bytes) (scheme_end : ℕ) (remaining : Bytes)
      → scheme_end ≤ length out
      → IsBytes remaining
      → Holds
          (λ r. Appended out r.0 × IsBytes r.2)
          (parse_port_part m idna out scheme_end remaining)
  unfolding parse_port_part
  parse_port_part-Appended out scheme_end remaining le h =
      elim (Option-cases (split_prefix_char remaining b':')) [
        | inl e ↦ rw (e, Holds, parse_port_part) (([], sym (append-nil out)), h)
        | inr (rest, e) ↦
            rw (e, Holds, parse_port_part)
              (Holds-bind (λ scheme. Unit) (λ r. Appended out r.0 × IsBytes r.2)
                (slice_to out scheme_end) _ (slice_to-Holds out scheme_end le)
                (λ scheme _.
                  Holds-bind (λ r. IsBytes r.1) (λ r. Appended out r.0 × IsBytes r.2)
                    (or_failure (parse_port rest (default_port_for_scheme scheme))) _
                    (parse_port-IsBytes rest (default_port_for_scheme scheme)
                      (subst (OnSome IsBytes) e (split_prefix_char-IsBytes remaining b':' h)))
                    (λ r k. (write_port-Appended out r.0, k))))
      ]

  -- What `parse_host_and_port` leaves: the host ends in what was appended.
  abbrev pub Hosted : Bytes → Endpoint m idna → Type 0
  Hosted out (o, host_end, kind, port, rest, empty) =
      Appended out o × (length out ≤ host_end) × (host_end ≤ length o) × IsBytes rest

  pub parse_host_and_port-Hosted :
      (out input : Bytes) (scheme_end : ℕ) (scheme_type : SchemeType)
      → scheme_end ≤ length out
      → IsBytes input
      → Holds (Hosted out) (parse_host_and_port m idna out input scheme_end scheme_type)
  unfolding parse_host_and_port
  parse_host_and_port-Hosted out input scheme_end scheme_type le h =
      Holds-bind (λ r. Appended out r.1 × IsBytes r.2) (Hosted out)
        (parse_host_input_append m idna out input scheme_type) _
        (parse_host_input_append-Appended out input scheme_type h)
        (λ r (a, k).
          elim (Bool-cases
            (is_empty_domain r.0 && (starts_with_char r.2 b':' || is_special scheme_type))) [
              | inl e ↦ rw (e, Holds) tt
              | inr e ↦ rw e (
                  Holds-bind (λ j. j ≡ length r.1) (Hosted out) (to_u32 (length r.1)) _
                    (Holds-to_u32 (length r.1))
                    (λ j f.
                      Holds-bind (λ p. Appended r.1 p.0 × IsBytes p.2) (Hosted out)
                        (parse_port_part m idna r.1 scheme_end r.2) _
                        (parse_port_part-Appended r.1 scheme_end r.2
                          (omega (arith, le, Appended-length out r.1 a)) k)
                        (λ p (b, l). (
                          Appended-trans out r.1 p.0 a b,
                          omega (arith, f, Appended-length out r.1 a),
                          omega (arith, f, Appended-length r.1 p.0 b),
                          l,
                        ))))
            ])
