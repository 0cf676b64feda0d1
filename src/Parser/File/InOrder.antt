-- ===== src/Parser/File/InOrder.antt =====
-- The records of file URLs that have no base (`parse_file`, src/parser/mod.rs) are in order.
use sorug.Host.Opaque.{Host}
use sorug.Host.Special.{Idna, parse_host}
use sorug.Parser.Authority.{append_file_host, host_text, is_local, file_host, parse_file_host}
use sorug.Parser.Authority.Bounds.{display-Appended}
use sorug.Parser.Drive.{is_windows_drive_letter}
use sorug.Parser.File.{
  file_url, file_with_host, file_slash, file_slash_start, without_base, is_slash, parse_file,
}
use sorug.Parser.Finish.Absolute.{path-Ended, path_start-Ended, Resolved-Ended}
use sorug.Parser.Finish.Ordered.{IsRecord}
use sorug.Parser.Input.{next, peek_char, is_char}
use sorug.Parser.Path.{parse_path, parse_path_start}
use sorug.Parser.Path.Chars.{Taken, next-Taken}
use sorug.Parser.Path.Resolved.{Resolved}
use sorug.Parser.Path.Segment.{All-drop, AtEnd}
use sorug.Parser.Path.Start.{from_nothing}
use sorug.Parser.Query.{parse_query_and_fragment}
use sorug.Parser.Query.Growth.{Appended, Appended-trans}
use sorug.Parser.Query.Layout.{
  query_part, fragment_part, Layout, Returns-Holds, parse_query_and_fragment-Layout,
}
use sorug.Parser.Query.Opaque.{Ended}
use sorug.Parser.Relative.{after_first}
use sorug.Parser.Result.{
  ok, or_failure, to_u32, ◌>>=◌, Returns-map, Holds, Holds-bind, Holds-to_u32,
}
use sorug.Parser.Userinfo.Bounds.{Appended-length}
use sorug.Port.{SchemeType, file}
use sorug.Scan.Delims.{find_file_host_end}
use sorug.Scan.Memchr.{Memchr}
use sorug.Common.{
  ℕ, ◌≤◌, Bool, true, false, not, [], ◌∷◌, ◌++◌, Option, none, some, Bytes, IsBytes, codes,
  get_elem?, length, ◌==◌, if◌then◌else◌, Bool-cases, inl, inr, ◌≡◌, refl, ap, ◌∙◌, arith, OnSome,
}

pub after_first-IsBytes : (s : Bytes) → IsBytes s → IsBytes (after_first s)
after_first-IsBytes s h = go (next s) (next-Taken s h)
  where
    go :
        (o : Option (ℕ × Bytes × Bytes))
        → OnSome (Taken s) o
        → IsBytes (elim o [ none ↦ [] | some (c, utf8, rest) ↦ rest ])
    go none k = tt
    go (some (c, utf8, rest)) k = k.4

-- A file URL without a base: its path starts where the host ends.
file_url-IsRecord :
    (o : Bytes) (host_end flags : ℕ) (ends : Bytes × Option ℕ × Option ℕ)
    → Appended (codes "file://") o
    → 7 ≤ host_end
    → host_end ≤ length o
    → Layout o ends
    → IsRecord (file_url host_end flags ends)
file_url-IsRecord o host_end flags (s, q, f) (v, e) lo hi (w, x, k, i, j, n) =
    let grown = k ∙ ap (λ t. t ++ (query_part q w ++ fragment_part f x)) e in
    (
      record {
        colon = ap (λ t. get_elem? t 4) grown;
        scheme_ends = omega arith;
        username_ends = omega arith;
        host_ends = lo;
        path_starts = omega arith;
        authority =
            inr (omega arith, (ap (λ t. get_elem? t 5) grown, ap (λ t. get_elem? t 6) grown));
      },
      (o, hi, (w, x, k, i, j, n)),
    )

module _ (m : Memchr) (idna : Idna) where
  abbrev FileHost : Bytes × Bool × Bool × Bytes → Type 0
  FileHost (o, start, empty, rest) = Appended (codes "file://") o × IsBytes rest

  append_file_host-FileHost :
      (rest : Bytes) (h : Host)
      → IsBytes rest
      → FileHost (append_file_host m idna (codes "file://") rest h)
  append_file_host-FileHost rest h k = elim (Bool-cases (is_local m idna h)) [
    | inl e ↦ rw (e, FileHost, append_file_host) (([], refl), k)
    | inr e ↦ rw (e, FileHost, append_file_host) (display-Appended (codes "file://") h, k)
  ]

  rest-IsBytes : (s : Bytes) → IsBytes s → IsBytes (file_host m idna s).2
  unfolding file_host
  rest-IsBytes s k =
      elim (Bool-cases (is_windows_drive_letter (host_text s (find_file_host_end m s)))) [
        | inl e ↦ rw (e, file_host) k
        | inr e ↦ rw (e, file_host) (All-drop (find_file_host_end m s).0 s k)
      ]

  parse_file_host-FileHost :
      (input : Bytes)
      → IsBytes input
      → Holds FileHost (parse_file_host m idna (codes "file://") input)
  unfolding parse_file_host
  parse_file_host-FileHost input h = go (file_host m idna input) (rest-IsBytes input h)
    where
      host :
          (rest : Bytes)
          → IsBytes rest
          → (o : Option Host)
          → Holds FileHost
              (or_failure o >>= (λ h. ok (append_file_host m idna (codes "file://") rest h)))
      host rest k none = tt
      host rest k (some h) = append_file_host-FileHost rest h k

      go :
          (f : Bool × Bytes × Bytes)
          → IsBytes f.2
          → Holds FileHost (
              if not f.0
              then ok (codes "file://", false, true, f.2)
              else if length f.1 == 0
              then ok (codes "file://", true, true, f.2)
              else or_failure (parse_host m idna f.1)
                >>= (λ host. ok (append_file_host m idna (codes "file://") f.2 host)))
      go (false, text, rest) k = (([], refl), k)
      go (true, text, rest) k = elim (Bool-cases (length text == 0)) [
        | inl e ↦ rw (e, Holds) (([], refl), k)
        | inr e ↦ rw e (host rest k (parse_host m idna text))
      ]

  -- The query and the fragment end a file URL.
  finish_file :
      (o : Bytes) (host_end flags : ℕ) (rest : Bytes)
      → Appended (codes "file://") o
      → 7 ≤ host_end
      → host_end ≤ length o
      → IsBytes rest
      → AtEnd false rest
      → Holds IsRecord (
          parse_query_and_fragment m false file o rest
          >>= (λ ends. ok (file_url host_end flags ends)))
  finish_file o host_end flags rest a lo hi h end =
      Holds-bind (Layout o) IsRecord (parse_query_and_fragment m false file o rest) _
        (parse_query_and_fragment-Layout m file o rest h end)
        (λ ends l. file_url-IsRecord o host_end flags ends a lo hi l)

  file_with_host-IsRecord :
      (input : Bytes) → IsBytes input → Holds IsRecord (file_with_host m idna input)
  unfolding file_with_host
  file_with_host-IsRecord input h =
      Holds-bind FileHost IsRecord (parse_file_host m idna (codes "file://") input) _
        (parse_file_host-FileHost input h)
        (λ f (a, hb).
          Holds-bind (λ j. j ≡ length f.0) IsRecord (to_u32 (length f.0)) _
            (Holds-to_u32 (length f.0))
            (λ host_end k.
              Holds-bind (Ended f.0) IsRecord
                (if f.1
                  then parse_path_start m false file f.0 f.3
                  else parse_path m false file (length f.0) (f.0 ++ b'/' ∷ []) f.3)
                _ (path f.0 f.1 f.3 hb)
                (λ r (b, end, hr).
                  finish_file r.0 host_end _ r.1 (Appended-trans (codes "file://") f.0 r.0 a b)
                    (omega (arith, k, Appended-length (codes "file://") f.0 a))
                    (omega (arith, k, Appended-length f.0 r.0 b)) hr end)))
    where
      path :
          (o : Bytes) (start : Bool) (rest : Bytes)
          → IsBytes rest
          → Holds (Ended o) (
              if start
              then parse_path_start m false file o rest
              else parse_path m false file (length o) (o ++ b'/' ∷ []) rest)
      path o true rest k = path_start-Ended m file o rest k
      path o false rest k = path-Ended m file o rest k

  file_slash-IsRecord :
      (input : Bytes) → IsBytes input → Holds IsRecord (file_slash m idna none input)
  unfolding file_slash file_slash_start
  file_slash-IsRecord input h =
      Holds-bind (Ended (codes "file://")) IsRecord
        (parse_path m false file 7 (codes "file://") input) _
        (Returns-Holds (Ended (codes "file://")) _ (
          Returns-map (Resolved m false file (codes "file://") false) (Ended (codes "file://")) _
            (Resolved-Ended m file (codes "file://") false)
            (from_nothing m false file (codes "file://") input h)))
        (λ r (b, end, hr).
          finish_file r.0 7 _ r.1 b (omega arith)
            (omega (arith, Appended-length (codes "file://") r.0 b)) hr end)

  without_base-IsRecord :
      (input : Bytes) → IsBytes input → Holds IsRecord (without_base m idna input)
  without_base-IsRecord input h =
      Holds-bind (Ended (codes "file://")) IsRecord
        (parse_path m false file 7 (codes "file:///") input) _
        (path-Ended m file (codes "file://") input h)
        (λ r (b, end, hr).
          finish_file r.0 7 _ r.1 b (omega arith)
            (omega (arith, Appended-length (codes "file://") r.0 b)) hr end)

  pub parse_file-IsRecord :
      (input : Bytes) (t : SchemeType)
      → IsBytes input
      → Holds IsRecord (parse_file m idna input t none)
  unfolding parse_file
  parse_file-IsRecord input t h = elim (Bool-cases (is_char is_slash (peek_char input))) [
    | inr e ↦ rw (e, parse_file) (without_base-IsRecord input h)
    | inl e ↦ elim (Bool-cases (is_char is_slash (peek_char (after_first input)))) [
      | inl f ↦
          rw (e, f, parse_file)
            (file_with_host-IsRecord (after_first (after_first input))
              (after_first-IsBytes (after_first input) (after_first-IsBytes input h)))
      | inr f ↦ rw (e, f, parse_file) (file_slash-IsRecord input h)
    ]
  ]
