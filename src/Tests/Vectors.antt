-- ===== src/Tests/Vectors.antt =====
-- The vector of src/libmonga/vector.c over an allocator that never fails.
use monga.Prelude.{
  ℕ, zero, suc, ◌≤◌, ◌≡◌, ◌↔◌, refl, ap, true, none, some, [], ◌∷◌, length, take, replicate, ◌==◌,
  arith,
}
use monga.Alloc.{Allocator}
use monga.Error.{success}
use monga.Vector.{Vector, Cells, init, push, remove, get, contains}
use monga.Vector.Refine.{Represents, Pushed, push-Pushed, remove-Represents, get-Represents}
use monga.Vector.Search.{Occurs, contains_iff}
use monga.Vector.Capacity.{Unfailing, IsThirdFull, push-IsThirdFull, remove-IsThirdFull}

-- As many cells as asked for, the old contents in front.
unfoldable pub grow_to : {A : Type 0} → Cells A → ℕ → Cells A
grow_to m zero = []
grow_to [] (suc n) = none ∷ grow_to [] n
grow_to (c ∷ m) (suc n) = c ∷ grow_to m n

length-grow_to : {A : Type 0} (m : Cells A) (n : ℕ) → length (grow_to m n) ≡ n
unfolding grow_to
length-grow_to m zero = refl
length-grow_to [] (suc n) = ap suc (length-grow_to [] n)
length-grow_to (c ∷ m) (suc n) = ap suc (length-grow_to m n)

take-grow_to :
    {A : Type 0} (m : Cells A) (n k : ℕ) → k ≤ n → k ≤ length m → take k (grow_to m n) ≡ take k m
unfolding grow_to
take-grow_to m n zero h h' = refl
take-grow_to m zero (suc k) h h' = absurd (omega arith)
take-grow_to [] (suc n) (suc k) h h' = absurd (omega arith)
take-grow_to (c ∷ m) (suc n) (suc k) h h' =
    ap (λ l. c ∷ l) (take-grow_to m n k (omega arith) (omega arith))

pub grown-length :
    {A : Type 0} (m out : Cells A) (n : ℕ) → some (grow_to m n) ≡ some out → length out ≡ n
grown-length m out n e =
    let same : grow_to m n ≡ out = cc in omega (arith, ap length same, length-grow_to m n)

pub grown-keeps :
    {A : Type 0} (m : Cells A) (n k : ℕ) (out : Cells A)
    → some (grow_to m n) ≡ some out
    → k ≤ n
    → k ≤ length m
    → take k out ≡ take k m
grown-keeps m n k out e h h' =
    let same : grow_to m n ≡ out = cc in rw (← same) (take-grow_to m n k h h')

abbrev pub heap : {A : Type 0} → Allocator A
heap = record {
  alloc = λ n. some (grow_to [] n);
  realloc = λ m n. some (grow_to m n);
  alloc-length = λ n m e. grown-length [] m n e;
  realloc-length = λ old n m e. grown-length old m n e;
  realloc-keeps = grown-keeps;
}

heap-Unfailing : Unfailing {A = ℕ} heap
heap-Unfailing = record {
  allocates = λ n. (grow_to [] n, refl);
  reallocates = λ old n. (grow_to old n, refl);
}

abbrev two_items : Vector ℕ
two_items = record { arr = some (some 7 ∷ some 9 ∷ replicate 14 none); count = 2; cap = 16 }

two_items-Represents : Represents two_items (7 ∷ 9 ∷ [])
two_items-Represents = record { width = refl; counted = refl; fits = omega arith; holds = refl }

push-two : (push heap (push heap init 7).1 9).1 ≡ two_items
unfolding push init grow_to
push-two = refl

push-Pushed_example : Pushed two_items (7 ∷ 9 ∷ []) 5 (push heap two_items 5)
push-Pushed_example = push-Pushed heap 5 two_items-Represents (omega arith)

remove-Represents_example : Represents (remove heap two_items 0) (9 ∷ [])
remove-Represents_example = remove-Represents heap 0 two_items-Represents (omega arith)

get-Represents_example : get two_items 1 ≡ some 9
get-Represents_example = get-Represents 1 two_items-Represents (omega arith)

contains_iff_example : (contains ◌==◌ two_items 9 ≡ true) ↔ Occurs ◌==◌ (7 ∷ 9 ∷ []) 9
contains_iff_example = contains_iff ◌==◌ 9 two_items-Represents

push-IsThirdFull_example :
    ((push heap two_items 5).0 ≡ success) × IsThirdFull (push heap two_items 5).1
push-IsThirdFull_example =
    push-IsThirdFull heap-Unfailing two_items 5 (omega arith) (omega arith) (omega arith)

remove-IsThirdFull_example : IsThirdFull (remove heap two_items 1)
remove-IsThirdFull_example =
    remove-IsThirdFull heap-Unfailing two_items 1 (omega arith) (omega arith) (omega arith)
