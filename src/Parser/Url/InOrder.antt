-- ===== src/Parser/Url/InOrder.antt =====
-- The records that `parse_url` of src/parser/mod.rs makes without a base are in order.
use sorug.Host.Special.{Idna}
use sorug.Parser.Finish.Absolute.{parse_non_special-IsRecord, after_double_slash-IsRecord}
use sorug.Parser.Finish.Ordered.{IsRecord}
use sorug.Parser.Input.{
  is_ascii_tab_or_newline, count_loop, count_matching, split_prefix_char, split_prefix_str,
  starts_with_ascii_alpha,
}
use sorug.Parser.Authority.Ends.{split_prefix_char-IsBytes}
use sorug.Parser.Result.{to_u32, Holds, Holds-bind, Holds-to_u32}
use sorug.Parser.Scheme.{is_scheme_char, is_upper, scheme_loop, parse_scheme}
use sorug.Parser.Url.{
  base_file, same_scheme, by_scheme_type, parse_with_scheme, parse_without_scheme, parse_url,
}
use sorug.Port.{SchemeType, file, special_not_file, not_special, scheme_type}
use sorug.Scan.Memchr.{Memchr}
use sorug.Common.{
  ℕ, ◌+◌, Bool, false, ◌||◌, [], ◌∷◌, ◌++◌, none, Bytes, IsBytes, codes, length, ◌==◌, Bool-cases,
  Option-cases, inl, inr, ◌≡◌, subst, OnSome, OnSome-bind,
}
use sorug.Parser.File.InOrder.{parse_file-IsRecord}

-- What is taken off the front leaves bytes.
count_loop-IsBytes :
    (f : ℕ → Bool) (s t : Bytes) → IsBytes s → IsBytes t → IsBytes (count_loop f s t).1
unfolding count_loop
count_loop-IsBytes f [] t h k = k
count_loop-IsBytes f (c ∷ s) t (lt, h) k = elim (Bool-cases (is_ascii_tab_or_newline c)) [
  | inl e ↦ rw e (count_loop-IsBytes f s t h k)
  | inr e ↦ elim (Bool-cases (f c)) [
    | inl g ↦ rw (e, g) (count_loop-IsBytes f s s h h)
    | inr g ↦ rw (e, g) k
  ]
]

count_matching-IsBytes : (f : ℕ → Bool) (s : Bytes) → IsBytes s → IsBytes (count_matching f s).1
unfolding count_matching
count_matching-IsBytes f s h = count_loop-IsBytes f s s h h

split_prefix_str-IsBytes :
    (prefix s : Bytes) → IsBytes s → OnSome IsBytes (split_prefix_str s prefix)
unfolding split_prefix_str
split_prefix_str-IsBytes [] s h = h
split_prefix_str-IsBytes (c ∷ prefix) s h =
    OnSome-bind IsBytes IsBytes (λ rest. split_prefix_str rest prefix) (split_prefix_char s c)
      (split_prefix_char-IsBytes s c h) (split_prefix_str-IsBytes prefix)

scheme_loop-IsBytes :
    (out s : Bytes) → IsBytes s → OnSome (λ r. IsBytes r.1) (scheme_loop false out s)
unfolding scheme_loop
scheme_loop-IsBytes out [] h = tt
scheme_loop-IsBytes out (c ∷ s) (lt, h) = elim (Bool-cases (is_ascii_tab_or_newline c)) [
  | inl e ↦ rw (e, OnSome, scheme_loop) (scheme_loop-IsBytes out s h)
  | inr e ↦ elim (Bool-cases (is_scheme_char c)) [
    | inl f ↦ rw (e, f, OnSome, scheme_loop) (scheme_loop-IsBytes (out ++ c ∷ []) s h)
    | inr f ↦ elim (Bool-cases (is_upper c)) [
      | inl g ↦ rw (e, f, g, OnSome, scheme_loop) (scheme_loop-IsBytes (out ++ (c + 32) ∷ []) s h)
      | inr g ↦ elim (Bool-cases (c == b':')) [
        | inl k ↦ rw (e, f, g, k, OnSome, scheme_loop) h
        | inr k ↦ rw (e, f, g, k, OnSome, scheme_loop) tt
      ]
    ]
  ]
]

parse_scheme-IsBytes : (s : Bytes) → IsBytes s → OnSome (λ r. IsBytes r.1) (parse_scheme s)
unfolding parse_scheme
parse_scheme-IsBytes s h = elim (Bool-cases (starts_with_ascii_alpha s)) [
  | inl e ↦ rw (e, OnSome, parse_scheme) (scheme_loop-IsBytes [] s h)
  | inr e ↦ rw (e, OnSome, parse_scheme) tt
]

module _ (m : Memchr) (idna : Idna) where
  by_scheme_type-IsRecord :
      (t : SchemeType) (name input : Bytes) (n : ℕ)
      → n ≡ length name
      → IsBytes input
      → Holds IsRecord (by_scheme_type m idna none t name n input)
  unfolding base_file same_scheme
  by_scheme_type-IsRecord file name input n e h = parse_file-IsRecord m idna input file h
  by_scheme_type-IsRecord special_not_file name input n e h = rw e (
      after_double_slash-IsRecord name m idna special_not_file
        (count_matching (λ c. c == b'/' || c == b'\\') input).1
        (count_matching-IsBytes (λ c. c == b'/' || c == b'\\') input h))
  by_scheme_type-IsRecord not_special name input n e h =
      elim (Option-cases (split_prefix_str input (codes "//"))) [
        | inl f ↦
            rw (f, e, Holds, by_scheme_type) (parse_non_special-IsRecord name m not_special input h)
        | inr (rest, f) ↦
            rw (f, e, Holds, by_scheme_type)
              (after_double_slash-IsRecord name m idna not_special rest
                (subst (OnSome IsBytes) f (split_prefix_str-IsBytes (codes "//") input h)))
      ]

  parse_with_scheme-IsRecord :
      (name input : Bytes)
      → IsBytes input
      → Holds IsRecord (parse_with_scheme m idna none name input)
  unfolding parse_with_scheme
  parse_with_scheme-IsRecord name input h =
      Holds-bind (λ j. j ≡ length name) IsRecord (to_u32 (length name)) _
        (Holds-to_u32 (length name))
        (λ n e. by_scheme_type-IsRecord (scheme_type name) name input n e h)

  -- Any bytes are parsed without a base: the parser neither panics nor runs out of fuel, and the
  -- record that it makes, if it makes one, is in order. The scheme ends at a colon. With an
  -- authority, two slashes follow the colon, and the username ends behind them; without one, the empty
  -- host stands behind the colon, and the path starts there too or behind a slash and a dot. Username,
  -- host and path follow each other; and the query and the fragment stand behind the path, each at its
  -- delimiter.
  pub parse_url-IsRecord :
      (input : Bytes) → IsBytes input → Holds IsRecord (parse_url m idna none input)
  unfolding parse_url parse_without_scheme
  parse_url-IsRecord input h = elim (Option-cases (parse_scheme input)) [
    | inl e ↦ rw (e, Holds, parse_url) tt
    | inr ((name, rest), e) ↦
        rw (e, Holds, parse_url)
          (parse_with_scheme-IsRecord name rest
            (subst (OnSome (λ r. IsBytes r.1)) e (parse_scheme-IsBytes input h)))
  ]
