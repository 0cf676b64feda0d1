-- ===== src/Parser/Authority/Bounds.antt =====
-- The host and the port of src/parser/mod.rs are appended to the serialization.
use sorug.Host.Opaque.{Host, domain, ipv4, ipv6, parse_opaque_host}
use sorug.Host.Special.{Idna, AppendedHost, display, append_host, parse_host}
use sorug.Host.Special.Append.{append_host-parse_host, printed}
use sorug.Parser.Authority.{append_opaque_host, appended}
use sorug.Parser.Query.Growth.{Appended, Appended-trans}
use sorug.Parser.Result.{ok, or_failure, ◌>>=◌, Holds}
use sorug.Scan.Memchr.{Memchr}
use sorug.Common.{[], ◌∷◌, ◌++◌, append-nil, Option, none, some, Bytes, refl, sym, subst, OnSome}

pub more : (a b s : Bytes) → Appended a b → Appended a (b ++ s)
more a b s h = Appended-trans a b (b ++ s) h (s, refl)

pub display-Appended : (out : Bytes) (h : Host) → Appended out (display out h)
unfolding display
display-Appended out (domain d) = (d, refl)
display-Appended out (ipv4 ip) = (_, refl)
display-Appended out (ipv6 pieces) = (_, refl)

printed-Appended : (out : Bytes) (o : Option Host) → OnSome (λ r. Appended out r.1) (printed out o)
printed-Appended out none = tt
printed-Appended out (some h) = display-Appended out h

pub append_host-Appended :
    (m : Memchr) (idna : Idna) (s out : Bytes)
    → Holds (λ r. Appended out r.1) (or_failure (append_host m idna s out))
append_host-Appended m idna s out = go (append_host m idna s out) (
    subst (OnSome (λ r. Appended out r.1)) (sym (append_host-parse_host m idna s out))
      (printed-Appended out (parse_host m idna s)))
  where
    go :
        (o : Option (AppendedHost × Bytes))
        → OnSome (λ r. Appended out r.1) o
        → Holds (λ r. Appended out r.1) (or_failure o)
    go none h = tt
    go (some r) h = h

appended-Appended : (out : Bytes) (h : Host) → Appended out (appended out h).1
appended-Appended out (domain []) = ([], sym (append-nil out))
appended-Appended out (domain (c ∷ d)) = (c ∷ d, refl)
appended-Appended out (ipv4 ip) = display-Appended out (ipv4 ip)
appended-Appended out (ipv6 pieces) = display-Appended out (ipv6 pieces)

pub append_opaque_host-Appended :
    (out s : Bytes) → Holds (λ r. Appended out r.1) (append_opaque_host out s)
unfolding append_opaque_host
append_opaque_host-Appended out s = go (parse_opaque_host s)
  where
    go :
        (o : Option Host)
        → Holds (λ r. Appended out r.1) (or_failure o >>= (λ host. ok (appended out host)))
    go none = tt
    go (some h) = appended-Appended out h
