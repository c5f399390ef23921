-- ===== src/Prelude/Pigeonhole.antt =====
-- Lists of distinct numbers below a bound.
use monga.Prelude.Bools.{◌==◌, if◌then◌else◌, Bool-cases}
use monga.Prelude.Lists.{length}
use Prim.Native.Nat.{ℕ, zero, suc, ◌≤◌, ◌<◌}
use mathlib.Core.Path.{◌≡◌, refl}
use mathlib.Core.Logic.{◌≢◌, inl, inr}
use mathlib.Core.List.{List, [], ◌∷◌}
use native.Mathlib.Omega.{arith}

abbrev pub NotIn : ℕ → List ℕ → Type 0
NotIn x [] = Unit
NotIn x (y ∷ ys) = (x ≢ y) × NotIn x ys

abbrev pub Distinct : List ℕ → Type 0
Distinct [] = Unit
Distinct (x ∷ xs) = NotIn x xs × Distinct xs

abbrev pub Below : ℕ → List ℕ → Type 0
Below n [] = Unit
Below n (x ∷ xs) = (x < n) × Below n xs

remove : ℕ → List ℕ → List ℕ
remove x [] = []
remove x (y ∷ ys) = let rest = remove x ys in if x == y then rest else y ∷ rest

remove-NotIn : (x : ℕ) (ys : List ℕ) → NotIn x ys → remove x ys ≡ ys
unfolding remove
remove-NotIn x [] h = refl
remove-NotIn x (y ∷ ys) h = ground (arith, remove-NotIn x ys h.1)

length-remove-le : (x : ℕ) (ys : List ℕ) → Distinct ys → length ys ≤ suc (length (remove x ys))
unfolding remove
length-remove-le x [] d = omega arith
length-remove-le x (y ∷ ys) d = ground (arith, length-remove-le x ys d.1, remove-NotIn y ys d.0)

NotIn-remove : (x y : ℕ) (ys : List ℕ) → NotIn y ys → NotIn y (remove x ys)
unfolding remove
NotIn-remove x y [] h = tt
NotIn-remove x y (z ∷ ys) h = elim (Bool-cases (x == z)) [
  | inl hit ↦ rw hit (NotIn-remove x y ys h.1)
  | inr miss ↦ rw miss (h.0, NotIn-remove x y ys h.1)
]

Distinct-remove : (x : ℕ) (ys : List ℕ) → Distinct ys → Distinct (remove x ys)
unfolding remove
Distinct-remove x [] d = tt
Distinct-remove x (z ∷ ys) d = elim (Bool-cases (x == z)) [
  | inl hit ↦ rw hit (Distinct-remove x ys d.1)
  | inr miss ↦ rw miss (NotIn-remove x z ys d.0, Distinct-remove x ys d.1)
]

Below-remove : (n : ℕ) (ys : List ℕ) → Below (suc n) ys → Below n (remove n ys)
unfolding remove
Below-remove n [] b = tt
Below-remove n (z ∷ ys) b = elim (Bool-cases (n == z)) [
  | inl hit ↦ rw hit (Below-remove n ys b.1)
  | inr miss ↦ rw miss (ground arith, Below-remove n ys b.1)
]

-- Distinct numbers below `n` are at most `n`.
pub pigeonhole : (n : ℕ) (xs : List ℕ) → Distinct xs → Below n xs → length xs ≤ n
pigeonhole zero [] d b = omega arith
pigeonhole zero (x ∷ xs) d b = absurd (omega arith)
pigeonhole (suc n) xs d b = omega (
  arith,
  length-remove-le n xs d,
  pigeonhole n (remove n xs) (Distinct-remove n xs d) (Below-remove n xs b),
)
