-- ===== src/Vector.antt =====
-- src/libmonga/vector.c: the growable array of pointers that the AST, the scopes and the code
-- generator keep their lists in. A cell that was never written is `none`.
pub mod Refine
pub mod Search
pub mod Capacity
use monga.Prelude.{
  ℕ, zero, suc, ◌+◌, ◌-◌, ◌*◌, ◌/◌, ◌^◌, ◌≡◌, Bool, ◌&&◌, Option, none, some, List, [], ◌∷◌, ltb,
  leb, ◌==◌, if◌then◌else◌, length, get_elem?, set, take, min,
}
use monga.Alloc.{Allocator}
use monga.Error.{RetCode, success, err_nomem}

abbrev pub min_size : ℕ
min_size = 16

-- `void**` cells; each holds nothing or a pointer.
abbrev pub Cells {ℓ} : Type ℓ → Type ℓ
Cells A = List (Option A)

-- `struct Mon_Vector_`; the array pointer may be NULL.
pub record Vector {ℓ} (A : Type ℓ) : Type ℓ where
  pub arr : Option (Cells A)
  pub count : ℕ
  pub cap : ℕ

unfoldable pub init {ℓ} : {A : Type ℓ} → Vector A
init = record { arr = none; count = 0; cap = 0 }

-- The cells that the array pointer reaches.
abbrev pub cells {ℓ} : {A : Type ℓ} → Vector A → Cells A
cells v = elim v.arr [ none ↦ [] | some m ↦ m ]

-- A read of a cell: `none` also for one that is out of range.
abbrev pub cell_at {ℓ} : {A : Type ℓ} → Cells A → ℕ → Option A
cell_at [] i = none
cell_at (c ∷ cs) zero = c
cell_at (c ∷ cs) (suc i) = cell_at cs i

-- `Mon_VectorGet` without the debug assertion.
unfoldable pub get {ℓ} : {A : Type ℓ} → Vector A → ℕ → Option A
get v index = cell_at (cells v) index

-- `_cap * 2`, raised to the minimum. An `int` product past 2^31 - 1 comes out negative, which is
-- below the minimum too.
unfoldable pub grown_cap : ℕ → ℕ
grown_cap cap = if ltb (cap * 2) (2 ^ 31) && leb min_size (cap * 2) then cap * 2 else min_size

-- The new capacity when the array is less than a third full.
unfoldable pub shrunk_cap : ℕ → ℕ
shrunk_cap cap = if ltb min_size (cap / 2) then cap / 2 else min_size

module _ {ℓ} {A : Type ℓ} where
  -- The write `_arr[_count++] = obj`.
  unfoldable pub store_last : Vector A → A → Vector A
  store_last v obj = record v { arr = some (set (cells v) v.count (some obj)); count = v.count + 1 }

  -- The loop that moves each later element one place down, `rounds` elements from `i` on.
  unfoldable pub shift_down : Cells A → ℕ → ℕ → Cells A
  shift_down m i zero = m
  shift_down m i (suc rounds) = shift_down (set m i (cell_at m (i + 1))) (i + 1) rounds

module _ {ℓ} {A : Type ℓ} (a : Allocator A) where
  -- Mon_Realloc of an array, or Mon_Alloc for the NULL array.
  unfoldable pub resize_cells : Option (Cells A) → ℕ → Option (Cells A)
  resize_cells none n = a.alloc n
  resize_cells (some m) n = a.realloc m n

  unfoldable pub push : Vector A → A → RetCode × Vector A
  unfolding resize_cells store_last grown_cap
  push v obj =
      if v.count == v.cap
      then elim (resize_cells v.arr (grown_cap v.cap)) [
        | none ↦ (err_nomem, v)
        | some m ↦ (success, store_last (record v { arr = some m; cap = grown_cap v.cap }) obj)
      ]
      else (success, store_last v obj)

  unfoldable pub shrink : Vector A → Vector A
  unfolding resize_cells shrunk_cap
  shrink v =
      if ltb min_size v.cap && ltb v.count (v.cap / 3)
      then elim (resize_cells v.arr (shrunk_cap v.cap)) [
        | none ↦ v
        | some m ↦ record v { arr = some m; cap = shrunk_cap v.cap }
      ]
      else v

  -- `Mon_VectorRemove`; the caller passes an index below the count.
  unfoldable pub remove : Vector A → ℕ → Vector A
  unfolding shift_down shrink
  remove v index =
      let count = v.count - 1 in
      shrink (record v {
        arr = elim v.arr [ none ↦ none | some m ↦ some (shift_down m index (count - index)) ];
        count = count;
      })

  unfoldable pub remove_last : Vector A → Vector A
  unfolding remove
  remove_last v = remove v (v.count - 1)

unfoldable pub is_empty {ℓ} : {A : Type ℓ} → Option (Vector A) → Bool
is_empty none = Bool.true
is_empty (some v) = v.count == 0

unfoldable pub clear {ℓ} : {A : Type ℓ} → Vector A → Vector A
clear v = record v { count = 0 }

-- What the caller gets, and the vector left empty.
unfoldable pub claim {ℓ} : {A : Type ℓ} → Vector A → (Option (Cells A) × ℕ × ℕ) × Vector A
unfolding init
claim v = ((v.arr, v.count, v.cap), init)

-- `MON_VECTOR_FOREACH` and the loops below visit the first `count` cells in order.
unfoldable pub visited {ℓ} : {A : Type ℓ} → Vector A → Cells A
visited v = take v.count (cells v)

module _ {ℓ} {A : Type ℓ} (same : A → A → Bool) where
  -- The first cell that holds the pointer, counted from `i`; `none` is the result -1.
  unfoldable pub index_from : Cells A → A → ℕ → Option ℕ
  index_from [] x i = none
  index_from (none ∷ m) x i = index_from m x (i + 1)
  index_from (some y ∷ m) x i = if same y x then some i else index_from m x (i + 1)

  unfoldable pub get_index : Vector A → A → Option ℕ
  unfolding index_from visited
  get_index v x = index_from (visited v) x 0

  unfoldable pub contains : Vector A → A → Bool
  unfolding get_index
  contains v x = elim (get_index v x) [ none ↦ Bool.false | some _ ↦ Bool.true ]
