-- ===== src/Http/Settled.antt =====
-- What a step of the HTTP readers does to the stream that it reads from, errors included.
use mathlib.Core.Path.{subst}
use native.Mathlib.Decide.{dec_lt}
use muxly.Base.{
  ℕ, zero, suc, ◌+◌, ◌%◌, ◌^◌, ◌≤◌, ◌≡◌, ◌≢◌, refl, sym, ap, ◌∙◌, inl, inr, arith, Bool, true,
  false, Option, none, some, [], ◌∷◌, Bytes, Text, ltb, ◌==◌, length, take, drop, take-drop,
  length-take, length-drop, Bool-cases, Option-cases,
}
use muxly.Std.Utf8.{from_utf8}
use muxly.Outcome.{Error, Result, ok, err, external, out_of_fuel}
use muxly.Host.{Host, Readable, Io, follow, lift, upto, beyond}
use muxly.Line.{read_line_message_with_cap}
use muxly.Http.{http_line, read_http_line}

upto-beyond : (n d : ℕ) (s : Bytes) → length (upto n d s) + length (beyond n d s) ≡ length s
upto-beyond zero d s = omega arith
upto-beyond (suc n) d [] = omega arith
upto-beyond (suc n) d (c ∷ s) = ground (arith, upto-beyond n d s)

abbrev pub free : {A : Type 0} → A → ℕ
free a = 0

-- A line costs a byte, the end of the stream none.
abbrev pub line_cost : Option Text → ℕ
line_cost none = 0
line_cost (some line) = 1

module _ {host : Host} (io : Readable host) (k : host.Handle) where
  open host use {World}
  open io use {Delivers, read_until_law, read_exact_law, read_exact_short}

  -- A step ends with an error that the code has, or leaves the stream with at most `n` bytes to come,
  -- less the cost of its result.
  abbrev pub Settled : {A : Type 0} → (A → ℕ) → ℕ → Result A × World → Type 0
  Settled cost n (ok a, w) = (s : Bytes) × Delivers w k s × (length s + cost a ≤ n)
  Settled cost n (err e, w) = e ≢ out_of_fuel

  pub follow-Settled :
      {A B : Type 0} (cost : A → ℕ) (cost' : B → ℕ) (m n : ℕ) (p : Result A × World)
      (f : A → Io World B)
      → Settled cost m p
      → ((a : A) (w : World) (s : Bytes)
          → Delivers w k s
          → length s + cost a ≤ m
          → Settled cost' n (f a w))
      → Settled cost' n (follow p f)
  follow-Settled cost cost' m n (err e, w) f h g = h
  follow-Settled cost cost' m n (ok a, w) f (s, d, le) g = g a w s d le

  -- A pure result in the middle.
  pub lift-Settled :
      {A : Type 0} (n : ℕ) (r : Result A) (w : World) (s : Bytes)
      → r ≢ err out_of_fuel
      → Delivers w k s
      → length s ≤ n
      → Settled free n (lift r w)
  lift-Settled n (ok a) w s ne d le = (s, d, omega arith)
  lift-Settled n (err e) w s ne d le = λ q. ne (ap err q)

  http_line-Settled :
      (max : ℕ) (s read behind : Bytes) (w : World)
      → length read + length behind ≡ length s
      → Delivers w k behind
      → Settled line_cost (length s) (lift (http_line (length read) read) w)
  unfolding http_line
  http_line-Settled max s [] behind w e d = (behind, d, omega arith)
  http_line-Settled max s (c ∷ read) behind w e d =
      let some_read : (suc (length read) == 0) ≡ false = ground arith in
      elim (Option-cases (from_utf8 (c ∷ read))) [
        | inl bad ↦ rw (some_read, http_line) (rw bad (λ q. cc))
        | inr (text, good) ↦ rw (some_read, http_line) (rw good (behind, d, omega arith))
      ]

  pub read_http_line-Settled :
      (max : ℕ) (w : World) (s : Bytes)
      → Delivers w k s
      → Settled line_cost (length s) (read_http_line host k max w)
  unfolding read_http_line read_line_message_with_cap
  read_http_line-Settled max w s d =
      let n = (max + 1) % 2 ^ 64 in
      let (w', e, d') = read_until_law w k s n b'\n' d in
      let after =
        http_line-Settled max s (upto n b'\n' s) (beyond n b'\n' s) w' (upto-beyond n b'\n' s) d' in
      rw e (elim (Bool-cases (ltb max (length (upto n b'\n' s)))) [
        | inl over ↦ rw over (λ q. cc)
        | inr fits ↦ rw fits after
      ])

  -- The three ways in which such a step ends.
  pub data Went {A : Type 0} (cost : Option A → ℕ) (n : ℕ) (p : Result (Option A) × World)
      : Type 0 where
    wrong : (e : Error) (w : World) → p ≡ (err e, w) → e ≢ out_of_fuel → Went cost n p
    ended :
        (w : World) (s : Bytes)
        → p ≡ (ok none, w)
        → Delivers w k s
        → length s + cost none ≤ n
        → Went cost n p
    got :
        (a : A) (w : World) (s : Bytes)
        → p ≡ (ok (some a), w)
        → Delivers w k s
        → length s + cost (some a) ≤ n
        → Went cost n p

  pub went :
      {A : Type 0} (cost : Option A → ℕ) (n : ℕ) (p : Result (Option A) × World)
      → Settled cost n p
      → Went cost n p
  went cost n (err e, w) h = wrong e w refl h
  went cost n (ok none, w) (s, d, le) = ended w s refl d le
  went cost n (ok (some a), w) (s, d, le) = got a w s refl d le

  pub branch-Settled :
      {A : Type 0} (cost : A → ℕ) (n : ℕ) (b : Bool) (then_do else_do : Io World A) (w : World)
      → Settled cost n (then_do w)
      → Settled cost n (else_do w)
      → Settled cost n ((elim b as (λ _. Io World A) [ true ↦ then_do | false ↦ else_do ]) w)
  branch-Settled cost n true then_do else_do w h g = h
  branch-Settled cost n false then_do else_do w h g = g

  -- The body: it is there, or the stream is too short for it.
  pub read_exact-Settled :
      (m n : ℕ) (w : World) (s : Bytes)
      → Delivers w k s
      → length s ≤ n
      → Settled free n (host.read_exact k m w)
  read_exact-Settled m n w s d le = elim (dec_lt (length s) m) [
    | yes short ↦
        let (code, q) = read_exact_short w k s m d short in fails (host.read_exact k m w) code q
    | no enough ↦
        let (w', q, d') =
          read_exact_law w k (take m s) (drop m s)
            (subst (λ t. Delivers w k t) (sym (take-drop m s)) d) in
        let size : length (take m s) ≡ m = length-take m s (omega arith) in
        let q' = ap (λ i. host.read_exact k i w) (sym size) ∙ q in
        rw q' (drop m s, d', omega (arith, length-drop m s))
  ]
    where
      fails : (p : Result Bytes × World) (code : ℕ) → p.0 ≡ err (external code) → Settled free n p
      fails (ok b, w') code q = absurd (ground arith)
      fails (err e, w') code q = λ r. ground arith

  pub Settled-ne :
      {A : Type 0} (cost : A → ℕ) (n : ℕ) (p : Result A × World)
      → Settled cost n p
      → p.0 ≢ err out_of_fuel
  Settled-ne cost n (ok a, w) h q = cc
  Settled-ne cost n (err e, w) h q = h (ground arith)
