-- ===== src/Vector/Capacity.antt =====
-- How much memory the vector of src/libmonga/vector.c holds on to.
use monga.Prelude.{ℕ, ◌+◌, ◌-◌, ◌/◌, ◌^◌, ◌≤◌, ◌<◌, ◌≡◌, ◌⊎◌, Option, none, some, arith}
use monga.Alloc.{Allocator}
use monga.Error.{success}
use monga.Vector.{
  Vector, Cells, min_size, grown_cap, resize_cells, store_last, push, shrunk_cap, shrink, remove,
  shift_down,
}

-- The allocator never runs out of memory.
pub record Unfailing {ℓ} {A : Type ℓ} (a : Allocator A) : Type ℓ where
  pub allocates : (n : ℕ) → (m : Cells A) × (a.alloc n ≡ some m)
  pub reallocates : (old : Cells A) (n : ℕ) → (m : Cells A) × (a.realloc old n ≡ some m)

-- The capacity is the smallest one, or at least a third of it is in use.
abbrev pub IsThirdFull {ℓ} : {A : Type ℓ} → Vector A → Type 0
IsThirdFull v = (v.cap ≤ min_size) ⊎ (v.cap / 3 ≤ v.count)

module _ {ℓ} {A : Type ℓ} {a : Allocator A} (u : Unfailing a) where
  resize_cells-some :
      (arr : Option (Cells A)) (n : ℕ) → (m : Cells A) × (resize_cells a arr n ≡ some m)
  unfolding resize_cells
  resize_cells-some none n = u.allocates n
  resize_cells-some (some old) n = u.reallocates old n

  -- With an allocator that never fails, a push on a vector that is third full, of count at most its
  -- capacity and capacity below 2 ^ 30, succeeds and leaves it third full.
  pub push-IsThirdFull :
      (v : Vector A) (x : A)
      → v.count ≤ v.cap
      → v.cap < 2 ^ 30
      → IsThirdFull v
      → ((push a v x).0 ≡ success) × IsThirdFull (push a v x).1
  unfolding push store_last grown_cap
  push-IsThirdFull v x le h t =
      let (m, e) = resize_cells-some v.arr (grown_cap v.cap) in ground (arith, e)

  shrink-IsThirdFull :
      (v : Vector A) → (v.cap ≤ min_size) ⊎ (v.cap / 3 ≤ v.count + 1) → IsThirdFull (shrink a v)
  unfolding shrink shrunk_cap
  shrink-IsThirdFull v t =
      let (m, e) = resize_cells-some v.arr (shrunk_cap v.cap) in ground (arith, e)

  -- With an allocator that never fails, a removal below the count from a vector that is third full, of
  -- count at most its capacity, leaves it third full.
  pub remove-IsThirdFull :
      (v : Vector A) (i : ℕ)
      → v.count ≤ v.cap
      → i < v.count
      → IsThirdFull v
      → IsThirdFull (remove a v i)
  unfolding remove
  remove-IsThirdFull v i le h t =
      let count = v.count - 1 in
      shrink-IsThirdFull
        (record v {
          arr = elim v.arr [ none ↦ none | some m ↦ some (shift_down m i (count - i)) ];
          count = count;
        })
        (omega arith)
