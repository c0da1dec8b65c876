-- ===== src/Net/Addresses.antt =====
-- The port of an address is read back from what `authority` prints.
use muxly.Base.{
  ℕ, ◌≤◌, ◌<◌, ◌≡◌, refl, ap, ◌∙◌, arith, true, false, some, inl, inr, [], ◌∷◌, ◌++◌, append_assoc,
  Text, codes, All-map, Lacks, Bool-cases,
}
use muxly.Std.Decimal.{to_text, parse-to_text, to_text-IsDigit}
use muxly.Std.Str.{starts_with, contains, split_once-append, rsplit_once-append}
use muxly.Args.{u16_max}
use muxly.Net.{authority, bracketed_port, plain_port, extract_lookup_port}

-- A name or an IPv4 address, which has no colon; an IPv6 address; and one in brackets.
pub data IsHost : Text → Type 0 where
  name : {host : Text} → Lacks b':' host → starts_with host (codes "[") ≡ false → IsHost host
  v6 :
      {host : Text}
      → contains host b':' ≡ true
      → starts_with host (codes "[") ≡ false
      → Lacks b']' host
      → IsHost host
  bracketed : (inside : Text) → Lacks b']' inside → IsHost (codes "[" ++ (inside ++ codes "]"))

contains-Lacks : (c : ℕ) (s : Text) → Lacks c s → contains s c ≡ false
unfolding contains
contains-Lacks c [] h = refl
contains-Lacks c (x ∷ s) (ne, h) = ground (arith, contains-Lacks c s h)

digits-Lacks : (c n : ℕ) → b'9' < c → Lacks c (to_text n)
digits-Lacks c n h = All-map _ _ (λ d p. λ e. omega arith) (to_text n) (to_text-IsDigit n)

plain :
    (host : Text) (port : ℕ)
    → port ≤ u16_max
    → plain_port (host ++ (codes ":" ++ to_text port)) ≡ some port
unfolding plain_port
plain host port h =
    rw
      (
        rsplit_once-append b':' host (to_text port) (digits-Lacks b':' port (omega arith)),
        plain_port,
      )
      (parse-to_text port u16_max h)

in_brackets :
    (inside : Text) (port : ℕ)
    → Lacks b']' inside
    → port ≤ u16_max
    → bracketed_port (inside ++ (codes "]:" ++ to_text port)) ≡ some port
unfolding bracketed_port
in_brackets inside port lacks h =
    rw (split_once-append b']' inside (codes ":" ++ to_text port) lacks, bracketed_port)
      (parse-to_text port u16_max h)

not_bracketed :
    (host : Text) (rest : Text)
    → starts_with host (codes "[") ≡ false
    → extract_lookup_port (host ++ (codes ":" ++ rest)) ≡ plain_port (host ++ (codes ":" ++ rest))
unfolding extract_lookup_port starts_with
not_bracketed [] rest h = refl
not_bracketed (c ∷ host) rest h = ground arith

authority-bracketed :
    (inside : Text) (port : ℕ)
    → authority (codes "[" ++ (inside ++ codes "]")) port
      ≡ (codes "[" ++ (inside ++ codes "]")) ++ (codes ":" ++ to_text port)
unfolding authority starts_with
authority-bracketed inside port =
    elim (Bool-cases (contains (codes "[" ++ (inside ++ codes "]")) b':')) [
      | inl colon ↦ rw colon refl
      | inr without ↦ rw without refl
    ]

-- Whatever the host is, a name, an IPv4 or IPv6 address, or an address in brackets, the port of the
-- printed authority is read back, for every 16 bit port.
pub extract_lookup_port-authority :
    (host : Text) (port : ℕ)
    → IsHost host
    → port ≤ u16_max
    → extract_lookup_port (authority host port) ≡ some port
unfolding authority extract_lookup_port
extract_lookup_port-authority host port (name lacks start) h =
    rw (contains-Lacks b':' host lacks)
      (not_bracketed host (to_text port) start ∙ plain host port h)
extract_lookup_port-authority host port (v6 colon start lacks) h =
    rw (colon, start) (in_brackets host port lacks h)
extract_lookup_port-authority _ port (bracketed inside lacks) h =
    ap extract_lookup_port (authority-bracketed inside port)
    ∙ ap bracketed_port (append_assoc inside (codes "]") (codes ":" ++ to_text port))
    ∙ in_brackets inside port lacks h
