-- ===== src/Alloc.antt =====
-- The allocator behind src/libmonga/alloc.c. It is the C library's, or the client's own, so it is
-- an interface: what it may return, with what malloc and realloc document. A request is counted
-- in cells of a pointer's size.
use monga.Prelude.{ℕ, ◌≤◌, ◌≡◌, Option, some, List, length, take}

pub record Allocator {ℓ} (A : Type ℓ) : Type ℓ where
  pub alloc : ℕ → Option (List (Option A))
  pub realloc : List (Option A) → ℕ → Option (List (Option A))
  -- A block has the size that was asked for.
  pub alloc-length : (n : ℕ) (m : List (Option A)) → alloc n ≡ some m → length m ≡ n
  pub realloc-length :
      (old : List (Option A)) (n : ℕ) (m : List (Option A)) → realloc old n ≡ some m → length m ≡ n
  -- A block that was moved keeps its old contents, as far as they fit.
  pub realloc-keeps :
      (old : List (Option A)) (n k : ℕ) (m : List (Option A))
      → realloc old n ≡ some m
      → k ≤ n
      → k ≤ length old
      → take k m ≡ take k old
