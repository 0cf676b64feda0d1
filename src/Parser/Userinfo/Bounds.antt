-- ===== src/Parser/Userinfo/Bounds.antt =====
-- The credentials of src/parser/mod.rs are appended, and the end of the username lies among them.
use sorug.Parser.Input.{is_ascii_tab_or_newline, more_bytes, peek_char}
use sorug.Parser.Path.Segment.{All-drop, length-drop_le}
use sorug.Parser.Query.Growth.{Appended, Appended-trans}
use sorug.Parser.Result.{ok, to_u32, ◌>>=◌, Holds, Holds-bind, Holds-map, Holds-to_u32}
use sorug.Parser.Userinfo.{
  Userinfo, is_some, split_password, encode_userinfo, userinfo_loop, or_len, Credentials,
  finish_userinfo, lacks_host, parse_userinfo,
}
use sorug.Percent.Codec.{percent_encode_char, append_all_percent, append_percent, escape}
use sorug.Percent.Sets.{in_userinfo_encode_set}
use sorug.Port.{SchemeType, is_special}
use sorug.Scan.Backward.{find_last_at}
use sorug.Scan.Delims.{find_authority_end}
use sorug.Scan.Memchr.{Memchr}
use sorug.Common.{
  ℕ, zero, suc, ◌+◌, ◌≤◌, Bool, false, not, ◌&&◌, ◌||◌, [], ◌∷◌, ◌++◌, append-nil, Option, none,
  some, Bytes, IsBytes, length, length-append, take, drop, any, all, ◌==◌, Bool-cases, Option-cases,
  inl, inr, ◌≡◌, refl, sym, ap, arith,
}

-- An offset that was noted lies behind the first `n` bytes of the text.
abbrev pub Noted : ℕ → Bytes → Option ℕ → Type 0
Noted n o none = Unit
Noted n o (some i) = (n ≤ i) × (i ≤ length o)

abbrev Written : Bytes → Userinfo → Type 0
Written out u = Appended out u.out × Noted (length out) u.out u.username_end

append_all_percent-Appended : (c out : Bytes) → Appended out (append_all_percent c out)
unfolding append_all_percent append_percent
append_all_percent-Appended [] out = ([], sym (append-nil out))
append_all_percent-Appended (b ∷ c) out =
    Appended-trans out (out ++ escape b) _ (escape b, refl)
      (append_all_percent-Appended c (out ++ escape b))

percent_encode_char-Appended :
    (c : Bytes) (encode : ℕ → Bool) (out : Bytes) → Appended out (percent_encode_char c encode out)
unfolding percent_encode_char
percent_encode_char-Appended c encode out = elim (Bool-cases (any encode c)) [
  | inl e ↦ rw e (append_all_percent-Appended c out)
  | inr e ↦ rw e (c, refl)
]

pub Appended-length : (a b : Bytes) → Appended a b → length a ≤ length b
Appended-length a b (v, e) = omega (arith, ap length e, length-append a v)

Noted-grow : (n : ℕ) (a b : Bytes) (i : Option ℕ) → Noted n a i → Appended a b → Noted n b i
Noted-grow n a b none h k = tt
Noted-grow n a b (some i) (h, l) k = (h, omega (arith, Appended-length a b k, l))

encode-Written :
    (out ch : Bytes) (u : Userinfo) → Written out u → Written out (encode_userinfo u ch)
encode-Written out ch u (a, n) =
    let k = percent_encode_char-Appended ch in_userinfo_encode_set u.out in
    (Appended-trans out u.out _ a k, Noted-grow (length out) u.out _ u.username_end n k)

split-Written :
    (out rest : Bytes) (u : Userinfo) (i : ℕ)
    → i ≡ length u.out
    → Written out u
    → Written out (split_password u rest i)
split-Written out rest u i e (a, n) =
    elim (Bool-cases (any (λ c. not (is_ascii_tab_or_newline c)) rest)) [
      | inl f ↦
          rw (f, split_password)
            (
              Appended-trans out u.out (u.out ++ b':' ∷ []) a (b':' ∷ [], refl),
              (
                omega (arith, Appended-length out u.out a, e),
                omega (arith, e, length-append u.out (b':' ∷ [])),
              ),
            )
      | inr f ↦
          rw (f, split_password)
            (a, (omega (arith, Appended-length out u.out a, e), omega (arith, e)))
    ]

userinfo_loop-Written :
    (out : Bytes) (fuel : ℕ) (s : Bytes) (u : Userinfo)
    → length s ≤ fuel
    → Written out u
    → Holds (Written out) (userinfo_loop fuel s u)
unfolding userinfo_loop
userinfo_loop-Written out fuel [] u lt w = w
userinfo_loop-Written out zero (b ∷ s) u lt w = absurd (omega arith)
userinfo_loop-Written out (suc fuel) (b ∷ s) u lt w =
    elim (Bool-cases (is_ascii_tab_or_newline b)) [
      | inl e ↦
          rw (e, Holds, userinfo_loop) (userinfo_loop-Written out fuel s u (omega (arith, lt)) w)
      | inr e ↦ elim (Bool-cases (b == b':' && not (is_some u.username_end))) [
        | inl f ↦
            rw (e, f, Holds, userinfo_loop)
              (Holds-bind (λ i. i ≡ length u.out) (Written out) (to_u32 (length u.out))
                (λ i. userinfo_loop fuel s (split_password u s i)) (Holds-to_u32 (length u.out))
                (λ i k.
                  userinfo_loop-Written out fuel s (split_password u s i) (omega (arith, lt))
                    (split-Written out s u i k w)))
        | inr f ↦
            rw (e, f, Holds, userinfo_loop)
              (userinfo_loop-Written out fuel (drop (more_bytes b) s)
                (encode_userinfo u (b ∷ take (more_bytes b) s))
                (omega (arith, lt, length-drop_le (more_bytes b) s))
                (encode-Written out (b ∷ take (more_bytes b) s) u w))
      ]
    ]

-- What `parse_userinfo` leaves: the end of the username lies in what was appended.
abbrev pub Credited : Bytes → Credentials → Type 0
Credited out (o, username_end, rest, flags) =
    Appended out o × (length out ≤ username_end) × (username_end ≤ length o) × IsBytes rest

or_len-Noted :
    (out : Bytes) (u : Userinfo)
    → Written out u
    → Holds (λ i. (length out ≤ i) × (i ≤ length u.out)) (or_len u.username_end u.out)
or_len-Noted out u (a, n) = go u.username_end n
  where
    go :
        (i : Option ℕ)
        → Noted (length out) u.out i
        → Holds (λ i. (length out ≤ i) × (i ≤ length u.out)) (or_len i u.out)
    go none h =
        Holds-map (λ j. j ≡ length u.out) (λ i. (length out ≤ i) × (i ≤ length u.out))
          (to_u32 (length u.out))
          (λ j e. (omega (arith, e, Appended-length out u.out a), omega (arith, e)))
          (Holds-to_u32 (length u.out))
    go (some i) h = h

finish_userinfo-Credited :
    (out rest : Bytes) (u : Userinfo)
    → IsBytes rest
    → Written out u
    → Holds (Credited out) (finish_userinfo rest u)
unfolding finish_userinfo
finish_userinfo-Credited out rest u h (a, n) =
    Holds-bind (λ i. (length out ≤ i) × (i ≤ length u.out)) (Credited out)
      (or_len u.username_end u.out) _ (or_len-Noted out u (a, n))
      (λ i (lo, hi). elim (Bool-cases (u.has_username || u.has_password)) [
        | inl e ↦
            rw (e, Holds)
              (
                Appended-trans out u.out (u.out ++ b'@' ∷ []) a (b'@' ∷ [], refl),
                lo,
                omega (arith, hi, length-append u.out (b'@' ∷ [])),
                h,
              )
        | inr e ↦ rw (e, Holds) (a, lo, hi, h)
      ])

-- The credentials are appended.
pub parse_userinfo-Credited :
    (m : Memchr) (out input : Bytes) (scheme_type : SchemeType)
    → IsBytes input
    → Holds (Credited out) (parse_userinfo m out input scheme_type)
unfolding parse_userinfo
parse_userinfo-Credited m out input scheme_type h =
    elim (Option-cases
      (find_last_at m input (find_authority_end m input (is_special scheme_type)))) [
        | inl e ↦ rw (e, Holds, parse_userinfo) (start input 0 h)
        | inr (at, e) ↦ elim (Bool-cases (at == 0 || all is_ascii_tab_or_newline (take at input))) [
          | inl f ↦
              elim (Bool-cases
                (lacks_host (is_special scheme_type) (peek_char (drop (at + 1) input)))) [
                  | inl g ↦ rw (e, f, g, Holds, parse_userinfo) tt
                  | inr g ↦
                      rw (e, f, g, Holds, parse_userinfo)
                        (start (drop (at + 1) input) 0 (All-drop (at + 1) input h))
                ]
          | inr f ↦
              rw (e, f, Holds, parse_userinfo)
                (Holds-bind (Written out) (Credited out)
                  (userinfo_loop (length (take at input)) (take at input) first)
                  (finish_userinfo (drop (at + 1) input))
                  (userinfo_loop-Written out (length (take at input)) (take at input) first
                    (omega arith) (([], sym (append-nil out)), tt))
                  (λ u w.
                    finish_userinfo-Credited out (drop (at + 1) input) u (All-drop (at + 1) input h)
                      w))
        ]
      ]
  where
    first : Userinfo
    first = record { out = out; username_end = none; has_password = false; has_username = false }

    start :
        (rest : Bytes) (flags : ℕ)
        → IsBytes rest
        → Holds (Credited out) (to_u32 (length out) >>= (λ n. ok (out, n, rest, flags)))
    start rest flags h =
        Holds-bind (λ j. j ≡ length out) (Credited out) (to_u32 (length out)) _
          (Holds-to_u32 (length out))
          (λ j e. (([], sym (append-nil out)), omega (arith, e), omega (arith, e), h))
