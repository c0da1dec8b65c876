-- ===== src/LaneQueue/Waiting.antt =====
-- The set of waiting sequence numbers: ascending, and with the members that it should have.
use muxly.Base.{
  ℕ, ◌≤◌, ◌<◌, ◌≡◌, refl, Bool, true, false, ◌||◌, List, [], ◌∷◌, arith, ltb, ◌==◌, if◌then◌else◌,
  All, All-map, Bool-cases, inl, inr,
}
use muxly.LaneQueue.{insert, remove, is_first}

abbrev pub Ascending : List ℕ → Type 0
Ascending [] = Unit
Ascending (x ∷ xs) = All (λ y. x < y) xs × Ascending xs

unfoldable pub contains : ℕ → List ℕ → Bool
contains x [] = false
contains x (y ∷ ys) = x == y || contains x ys

pub contains-insert : (x y : ℕ) (ys : List ℕ) → contains x (insert y ys) ≡ (x == y || contains x ys)
unfolding contains insert
contains-insert x y [] = ground arith
contains-insert x y (z ∷ zs) = ground (arith, contains-insert x y zs)

above-insert :
    (b x : ℕ) (ys : List ℕ) → b < x → All (λ y. b < y) ys → All (λ y. b < y) (insert x ys)
unfolding insert
above-insert b x [] lt h = (lt, tt)
above-insert b x (y ∷ ys) lt (h, hs) = ground (arith, above-insert b x ys lt hs)

pub insert-Ascending : (x : ℕ) (ys : List ℕ) → Ascending ys → Ascending (insert x ys)
unfolding insert
insert-Ascending x [] h = (tt, tt)
insert-Ascending x (y ∷ ys) (h, hs) = elim (Bool-cases (ltb x y)) [
  | inl lt ↦
      let lt' : x < y = ground (arith, lt) in
      rw lt ((lt', All-map _ _ (λ z p. omega arith) ys h), (h, hs))
  | inr ge ↦ rw ge (elim (Bool-cases (x == y)) [
    | inl e ↦ rw e (h, hs)
    | inr ne ↦ rw ne (above-insert y x ys (ground (arith, ge, ne)) h, insert-Ascending x ys hs)
  ])
]

not-contains_below : (b x : ℕ) (ys : List ℕ) → All (λ y. b < y) ys → x ≤ b → contains x ys ≡ false
unfolding contains
not-contains_below b x [] h le = refl
not-contains_below b x (y ∷ ys) (h, hs) le = ground (arith, not-contains_below b x ys hs)

-- The removal of the first number.
pub contains-remove_first :
    (x y : ℕ) (ys : List ℕ)
    → Ascending ys
    → is_first y ys ≡ true
    → (contains x (remove y ys) ≡ (if x == y then false else contains x ys))
      × Ascending (remove y ys)
unfolding contains remove
contains-remove_first x y [] h e = absurd (ground arith)
contains-remove_first x y (z ∷ zs) (h, hs) e =
    let same_number : (y == z) ≡ true = ground arith in
    rw same_number (ground (arith, not-contains_below z x zs h), hs)

-- The first number is the least.
pub first-le :
    (x y : ℕ) (ys : List ℕ) → Ascending ys → is_first y ys ≡ true → contains x ys ≡ true → y ≤ x
unfolding contains
first-le x y [] h e m = absurd (ground arith)
first-le x y (z ∷ zs) (h, hs) e m = ground (arith, not-contains_below z x zs h)
