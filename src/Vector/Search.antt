-- ===== src/Vector/Search.antt =====
-- `Mon_VectorGetIndex` and `Mon_VectorContains` of src/libmonga/vector.c.
use monga.Prelude.{
  ℕ, zero, suc, ◌+◌, ◌≡◌, refl, ◌↔◌, ◌⊎◌, inl, inr, Bool, true, false, none, some, List, [], ◌∷◌,
  map, Bool-cases, Option-cases, arith,
}
use monga.Vector.{Vector, index_from, get_index, contains}
use monga.Vector.Refine.{Represents}

module _ {ℓ} {A : Type ℓ} (same : A → A → Bool) where
  -- Some element is the pointer that is looked for.
  abbrev pub Occurs : List A → A → Type 0
  Occurs [] x = ⊥
  Occurs (y ∷ ys) x = (same y x ≡ true) ⊎ Occurs ys x

  -- The element at an index is the first one that is the pointer `x`.
  abbrev pub IsFirst : List A → A → ℕ → Type 0
  IsFirst [] x i = ⊥
  IsFirst (y ∷ ys) x zero = same y x ≡ true
  IsFirst (y ∷ ys) x (suc i) = (same y x ≡ false) × IsFirst ys x i

  -- The search reports where the first one stands, counting on from `k`.
  index_from-some :
      (xs : List A) (x : A) (k i : ℕ)
      → index_from same (map some xs) x k ≡ some i
      → (j : ℕ) × (i ≡ k + j) × IsFirst xs x j
  unfolding index_from
  index_from-some [] x k i e = absurd (ground arith)
  index_from-some (y ∷ ys) x k i e = elim (Bool-cases (same y x)) [
    | inl hit ↦ (0, ground arith, hit)
    | inr miss ↦
        let (j, at, first) = index_from-some ys x (k + 1) i (rw miss at e) in
        (suc j, omega arith, (miss, first))
  ]

  index_from-none :
      (xs : List A) (x : A) (k : ℕ) → index_from same (map some xs) x k ≡ none → Occurs xs x → ⊥
  unfolding index_from
  index_from-none [] x k e o = o
  index_from-none (y ∷ ys) x k e (inl hit) = ground arith
  index_from-none (y ∷ ys) x k e (inr later) = elim (Bool-cases (same y x)) [
    | inl hit ↦ ground arith
    | inr miss ↦ index_from-none ys x (k + 1) (rw miss at e) later
  ]

  IsFirst-Occurs : (xs : List A) (x : A) (i : ℕ) → IsFirst xs x i → Occurs xs x
  IsFirst-Occurs [] x i f = f
  IsFirst-Occurs (y ∷ ys) x zero f = inl f
  IsFirst-Occurs (y ∷ ys) x (suc i) f = inr (IsFirst-Occurs ys x i f.1)

  pub get_index-IsFirst :
      {v : Vector A} {xs : List A} (x : A) (i : ℕ)
      → Represents v xs
      → get_index same v x ≡ some i
      → IsFirst xs x i
  unfolding get_index
  get_index-IsFirst {v} {xs} x i r e =
      let (j, at, first) = index_from-some xs x 0 i (rw r.holds at e) in
      let same_place : j ≡ i = omega arith in rw same_place at first

  pub get_index-none :
      {v : Vector A} {xs : List A} (x : A)
      → Represents v xs
      → get_index same v x ≡ none
      → Occurs xs x
      → ⊥
  unfolding get_index
  get_index-none {v} {xs} x r e = index_from-none xs x 0 (rw r.holds at e)

  -- On a vector of the list `xs` the search for an element answers true exactly if the test of equality
  -- holds at some element of `xs`.
  pub contains_iff :
      {v : Vector A} {xs : List A} (x : A)
      → Represents v xs
      → (contains same v x ≡ true) ↔ Occurs xs x
  unfolding contains
  contains_iff {v} {xs} x r = elim (Option-cases (get_index same v x)) [
    | inl e ↦ rw (e, contains) (λ h. absurd (ground arith), λ o. absurd (get_index-none x r e o))
    | inr (i, e) ↦
        rw (e, contains) (λ _. IsFirst-Occurs xs x i (get_index-IsFirst x i r e), λ _. refl)
  ]
