-- ===== src/Base.antt =====
-- Names that the other modules share: those of the libraries, passed on, and those of the children.
mod Tests
mod Lists
pub use Tests.*
pub use Lists.*
use Prim.Native.Char.{code}
use Prim.Native.String.{String}
pub use Prim.Native.Nat.{ℕ, zero, suc, ◌+◌, ◌-◌, ◌*◌, ◌/◌, ◌%◌, ◌^◌, ◌≤◌, ◌<◌}
pub use mathlib.Core.Path.{◌≡◌, refl, sym, ap, ◌∙◌}
pub use mathlib.Core.Logic.{◌≢◌, ◌↔◌, ◌⊎◌, inl, inr}
pub use mathlib.Core.Bool.{Bool, true, false, not, ◌&&◌, ◌||◌}
pub use mathlib.Core.Option.{Option, none, some}
pub use mathlib.Core.List.{List, [], ◌∷◌, ◌++◌, append-nil, append_assoc}
pub use native.Mathlib.Omega.{arith}

-- `Vec<u8>`, `&[u8]`: the bytes are numbers below 256.
abbrev pub Bytes : Type 0
Bytes = List ℕ

-- `String`, `&str`: the Unicode scalar values of the text.
abbrev pub Text : Type 0
Text = List ℕ

-- The scalar values of a literal; its bytes too, where it is ASCII.
abbrev pub codes : String → List ℕ
codes String.[] = []
codes (String.◌∷◌ c s) = code c ∷ codes s

abbrev pub Lacks : ℕ → List ℕ → Type 0
Lacks b = All (λ c. c ≢ b)

-- `==` on slices and strings.
abbrev pub same : List ℕ → List ℕ → Bool
same [] [] = true
same (x ∷ xs) (y ∷ ys) = x == y && same xs ys
same _ _ = false

pub same_iff : (xs ys : List ℕ) → (same xs ys ≡ true) ↔ (xs ≡ ys)
same_iff (x ∷ xs) (y ∷ ys) = ground (arith, same_iff xs ys)
same_iff _ _ = ground arith

pub same_refl : (xs : List ℕ) → same xs xs ≡ true
same_refl xs = (same_iff xs xs).1 refl

-- `usize` on the 64-bit targets that the bridge is built for.
abbrev pub usize_bits : ℕ
usize_bits = 64

abbrev pub usize_max : ℕ
usize_max = 2 ^ 64 - 1
