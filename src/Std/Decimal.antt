-- ===== src/Std/Decimal.antt =====
-- `to_string` and `parse` of the unsigned integer types, in base ten.
use native.Mathlib.Nat.{pow-suc}
use muxly.Base.{
  ℕ, zero, suc, ◌+◌, ◌-◌, ◌*◌, ◌/◌, ◌%◌, ◌≤◌, ◌<◌, ◌≡◌, refl, ◌&&◌, Option, none, some, inl, inr,
  [], ◌∷◌, arith, Text, leb, ltb, ◌==◌, if◌then◌else◌, Bool-cases, All, length, ◌^◌, usize_max,
}

abbrev pub IsDigit : ℕ → Type 0
IsDigit c = (b'0' ≤ c) × (c ≤ b'9')

-- The digits of `n` in front of `out`; the fuel is used up only if it is less than their number.
digits : ℕ → ℕ → Text → Text
digits zero n out = out
digits (suc f) n out =
    let more = digits f (n / 10) ((b'0' + n % 10) ∷ out) in
    if ltb n 10 then (b'0' + n) ∷ out else more

-- `n.to_string()`, `{n}` in a format string.
unfoldable pub to_text : ℕ → Text
unfolding digits
to_text n = digits (suc n) n []

-- The loop of `from_str_radix`: every product and sum is checked against the type's maximum.
scan : ℕ → Text → ℕ → Option ℕ
scan largest [] n = some n
scan largest (c ∷ s) n =
    let m = n * 10 + (c - b'0') in
    let rest = scan largest s m in
    if leb b'0' c && leb c b'9' then (if leb m largest then rest else none) else none

parse_unsigned : ℕ → Text → Option ℕ
parse_unsigned largest [] = none
parse_unsigned largest (c ∷ s) = scan largest (c ∷ s) 0

-- `s.parse()` at an unsigned type: one leading plus is allowed in front of a digit.
unfoldable pub parse : ℕ → Text → Option ℕ
unfolding parse_unsigned scan
parse largest [] = none
parse largest (c ∷ s) =
    if c == b'+' then parse_unsigned largest s else parse_unsigned largest (c ∷ s)

scan-digits :
    (f n largest : ℕ) (out : Text)
    → n < f
    → n ≤ largest
    → scan largest (digits f n out) 0 ≡ scan largest out n
unfolding scan digits
scan-digits zero n largest out h fits = absurd (omega arith)
scan-digits (suc f) n largest out h fits =
    ground (arith, scan-digits f (n / 10) largest ((b'0' + n % 10) ∷ out))

digits-IsDigit : (f n : ℕ) (out : Text) → All IsDigit out → All IsDigit (digits f n out)
unfolding digits
digits-IsDigit zero n out h = h
digits-IsDigit (suc f) n out h = elim (Bool-cases (ltb n 10)) [
  | inl small ↦ rw small (ground arith, h)
  | inr large ↦ rw large (digits-IsDigit f (n / 10) _ (omega arith, h))
]

-- A printed number is digits alone.
pub to_text-IsDigit : (n : ℕ) → All IsDigit (to_text n)
unfolding to_text
to_text-IsDigit n = digits-IsDigit (suc n) n [] tt

digits-cons :
    (f n : ℕ) (c : ℕ) (out : Text)
    → IsDigit c
    → (d : ℕ) × (t : Text) × (digits f n (c ∷ out) ≡ d ∷ t) × IsDigit d
unfolding digits
digits-cons zero n c out h = (c, out, refl, h)
digits-cons (suc f) n c out h = elim (Bool-cases (ltb n 10)) [
  | inl small ↦ (b'0' + n, c ∷ out, rw small, ground arith)
  | inr large ↦ rw large (digits-cons f (n / 10) (b'0' + n % 10) (c ∷ out) (omega arith))
]

pub to_text-cons : (n : ℕ) → (d : ℕ) × (t : Text) × (to_text n ≡ d ∷ t) × IsDigit d
unfolding to_text digits
to_text-cons n = elim (Bool-cases (ltb n 10)) [
  | inl small ↦ (b'0' + n, [], rw small, ground arith)
  | inr large ↦ rw large (digits-cons n (n / 10) (b'0' + n % 10) [] (omega arith))
]

-- A number that the type can hold is read back from its print.
pub parse-to_text : (n largest : ℕ) → n ≤ largest → parse largest (to_text n) ≡ some n
unfolding parse
parse-to_text n largest h =
    let (d, t, e, digit) = to_text-cons n in
    let round : scan largest (to_text n) 0 ≡ some n =
      unfold to_text in unfold scan in scan-digits (suc n) n largest [] (omega arith) h in
    rw e (ground (arith, e, rw e at round))

scan-le : (s : Text) (largest n r : ℕ) → n ≤ largest → scan largest s n ≡ some r → r ≤ largest
unfolding scan
scan-le [] largest n r h e = ground arith
scan-le (c ∷ s) largest n r h e = ground (arith, scan-le s largest (n * 10 + (c - b'0')) r)

-- What is parsed fits the type.
pub parse-le : (s : Text) (largest : ℕ) {r : ℕ} → parse largest s ≡ some r → r ≤ largest
unfolding parse
parse-le [] largest e = cc
parse-le (c ∷ []) largest {r} e = ground (arith, scan-le (c ∷ []) largest 0 r)
parse-le (c ∷ d ∷ s) largest {r} e =
    ground (arith, scan-le (c ∷ d ∷ s) largest 0 r, scan-le (d ∷ s) largest 0 r)

length-digits :
    (f k n : ℕ) (out : Text) → n < 10 ^ suc k → length (digits f n out) ≤ suc k + length out
unfolding digits
length-digits zero k n out h = omega arith
length-digits (suc f) zero n out h = ground arith
length-digits (suc f) (suc k) n out h =
    let h' : n / 10 < 10 ^ suc k = omega (arith, pow-suc 10 (suc k)) in
    ground (arith, length-digits f k (n / 10) ((b'0' + n % 10) ∷ out) h')

-- At most twenty digits for a `usize`.
pub length-to_text : (n : ℕ) → n ≤ usize_max → length (to_text n) ≤ 20
unfolding to_text
length-to_text n h = omega (arith, length-digits (suc n) 19 n [] (omega arith))
