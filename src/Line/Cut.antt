-- ===== src/Line/Cut.antt =====
-- How the bytes that `read_line_message_with_cap` reads in one call end.
use muxly.Base.{
  ℕ, zero, suc, ◌<◌, ◌≡◌, ◌≢◌, refl, ap, some, inl, inr, [], ◌∷◌, ◌++◌, arith, Bytes, ◌==◌, ==_iff,
  length, last, last-snoc, drop_last-snoc, Lacks, Bool-cases,
}
use muxly.Host.{upto, beyond}
use muxly.Line.{pop_if}

-- How the first `n` bytes of `s` end: by a delimiter, by the end of the stream, or by the limit.
pub data Cut (n d : ℕ) (s : Bytes) : Type 0 where
  found :
      (line rest : Bytes)
      → s ≡ line ++ d ∷ rest
      → Lacks d line
      → length line < n
      → upto n d s ≡ line ++ d ∷ []
      → beyond n d s ≡ rest
      → Cut n d s
  ended : Lacks d s → length s < n → upto n d s ≡ s → beyond n d s ≡ [] → Cut n d s
  limited :
      (line rest : Bytes)
      → s ≡ line ++ rest
      → Lacks d line
      → length line ≡ n
      → upto n d s ≡ line
      → beyond n d s ≡ rest
      → Cut n d s

Cut-cons : (n d c : ℕ) (s : Bytes) → c ≢ d → Cut n d s → Cut (suc n) d (c ∷ s)
Cut-cons n d c s ne (found line rest e l h u b) =
    found (c ∷ line) rest (ap (◌∷◌ c) e) (ne, l) (omega arith) (ground (arith, u))
      (ground (arith, b))
Cut-cons n d c s ne (ended l h u b) =
    ended (ne, l) (omega arith) (ground (arith, u)) (ground (arith, b))
Cut-cons n d c s ne (limited line rest e l h u b) =
    limited (c ∷ line) rest (ap (◌∷◌ c) e) (ne, l) (omega arith) (ground (arith, u))
      (ground (arith, b))

pub cut : (n d : ℕ) (s : Bytes) → Cut n d s
cut zero d s = limited [] s refl tt refl refl refl
cut (suc n) d [] = ended tt (omega arith) refl refl
cut (suc n) d (c ∷ s) = elim (Bool-cases (c == d)) [
  | inl e ↦
      let e' = (==_iff c d).0 e in
      found [] s (ap (λ x. x ∷ s) e') tt (omega arith) (rw e (ap (λ x. x ∷ []) e')) (rw e)
  | inr ne ↦ Cut-cons n d c s (ground (arith, ne)) (cut n d s)
]

pub upto-append :
    (n d : ℕ) (line rest : Bytes)
    → Lacks d line
    → length line < n
    → (upto n d (line ++ d ∷ rest) ≡ line ++ d ∷ []) × (beyond n d (line ++ d ∷ rest) ≡ rest)
upto-append zero d line rest l h = absurd (omega arith)
upto-append (suc n) d [] rest l h = ground arith
upto-append (suc n) d (c ∷ line) rest (ne, l) h =
    ground (arith, upto-append n d line rest l (omega arith))

upto-Lacks :
    (n d : ℕ) (s : Bytes) → Lacks d s → length s < n → (upto n d s ≡ s) × (beyond n d s ≡ [])
upto-Lacks zero d s l h = absurd (omega arith)
upto-Lacks (suc n) d [] l h = (refl, refl)
upto-Lacks (suc n) d (c ∷ s) (ne, l) h = ground (arith, upto-Lacks n d s l (omega arith))

last-ne-Lacks : (b : ℕ) (line : Bytes) → Lacks b line → last line ≢ some b
last-ne-Lacks b [] l = λ e. cc
last-ne-Lacks b (c ∷ []) (ne, l) = λ e. ne (ground arith)
last-ne-Lacks b (c ∷ d ∷ line) (ne, l) = last-ne-Lacks b (d ∷ line) l

pub pop_if-snoc : (line : Bytes) (b : ℕ) → pop_if b (line ++ b ∷ []) ≡ line
pop_if-snoc line b = ground (arith, last-snoc line b, drop_last-snoc line b)

pub pop_if-Lacks : (b : ℕ) (line : Bytes) → Lacks b line → pop_if b line ≡ line
pop_if-Lacks b line l = ground (arith, last-ne-Lacks b line l)

-- The last item apart from those before it.
pub split_last :
    (n d : ℕ) (xs : Bytes)
    → length xs ≡ suc n
    → Lacks d xs
    → (m : Bytes) × (c : ℕ) × (xs ≡ m ++ c ∷ []) × (length m ≡ n) × Lacks d m
split_last n d [] h l = absurd (omega arith)
split_last n d (x ∷ []) h l = ([], x, refl, omega arith, tt)
split_last zero d (x ∷ y ∷ xs) h l = absurd (omega arith)
split_last (suc n) d (x ∷ y ∷ xs) h (ne, l) =
    let (m, c, e, k, l') = split_last n d (y ∷ xs) (omega arith) l in
    (x ∷ m, c, ap (◌∷◌ x) e, ap suc k, (ne, l'))
