-- ===== src/Codegen/Numbering.antt =====
-- How often the lines of src/libmonga/codegen assign a temporary, mark a label and jump to one.
pub mod Linked
pub mod Emits
pub mod Values
pub mod Conversions
pub mod Expressions
pub mod Statements
pub mod Locals
pub mod Functions
pub mod Unmarked
use monga.Prelude.{
  ℕ, zero, suc, ◌+◌, ◌≤◌, ◌<◌, ◌≡◌, refl, sym, ap, ◌∙◌, Bool, true, false, List, [], ◌∷◌, ◌++◌,
  ◌==◌, if◌then◌else◌, leb, ltb, append_assoc, arith, Bool-cases, inl, inr, ◌⊎◌, ==_iff,
}
use monga.Codegen.Context.{Rhs, Instr}

-- 1 where the numbers are the same, else 0.
unfoldable pub hit : ℕ → ℕ → ℕ
hit k x = if x == k then 1 else 0

-- How often a number occurs.
unfoldable pub count : ℕ → List ℕ → ℕ
unfolding hit
count k [] = 0
count k (x ∷ xs) = hit k x + count k xs

-- 1 from `n` on and below `m`, else 0.
unfoldable pub between : ℕ → ℕ → ℕ → ℕ
between n m k = if leb n k then (if ltb k m then 1 else 0) else 0

unfoldable pub assigned : Instr → List ℕ
assigned (Instr.assign n rhs) = n ∷ []
assigned _ = []

unfoldable pub marked : Instr → List ℕ
marked (Instr.label l) = l ∷ []
marked _ = []

unfoldable pub rhs_targets : Rhs → List ℕ
rhs_targets (Rhs.phi t x l y m) = l ∷ m ∷ []
rhs_targets _ = []

-- The labels that a line mentions as blocks to go to, or to come from.
unfoldable pub targets : Instr → List ℕ
unfolding rhs_targets
targets (Instr.branch l) = l ∷ []
targets (Instr.cond_branch v l m) = l ∷ m ∷ []
targets (Instr.assign n rhs) = rhs_targets rhs
targets _ = []

-- The numbers of all lines.
unfoldable pub collect : (Instr → List ℕ) → List Instr → List ℕ
collect f [] = []
collect f (i ∷ code) = f i ++ collect f code

pub count-append : (k : ℕ) (xs ys : List ℕ) → count k (xs ++ ys) ≡ count k xs + count k ys
unfolding count
count-append k [] ys = omega arith
count-append k (x ∷ xs) ys = omega (arith, count-append k xs ys)

pub collect-append :
    (f : Instr → List ℕ) (xs ys : List Instr) → collect f (xs ++ ys) ≡ collect f xs ++ collect f ys
unfolding collect
collect-append f [] ys = refl
collect-append f (i ∷ xs) ys =
    ap (λ l. f i ++ l) (collect-append f xs ys)
    ∙ sym (append_assoc (f i) (collect f xs) (collect f ys))

pub count-collect :
    (k : ℕ) (f : Instr → List ℕ) (xs ys : List Instr)
    → count k (collect f (xs ++ ys)) ≡ count k (collect f xs) + count k (collect f ys)
count-collect k f xs ys = ap (count k) (collect-append f xs ys) ∙ count-append k _ _

pub between_append : (n m p k : ℕ) → n ≤ m → m ≤ p → between n p k ≡ between n m k + between m p k
unfolding between
between_append n m p k h i = ground arith

pub between_empty : (n k : ℕ) → between n n k ≡ 0
unfolding between
between_empty n k = ground arith

pub between_single : (n k : ℕ) → between n (n + 1) k ≡ hit k n
unfolding between hit
between_single n k = ground arith

pub count_single : (k x : ℕ) → count k (x ∷ []) ≡ hit k x
unfolding count
count_single k x = omega arith

-- A number that occurs among two is one of them.
pub hit_same : (k x : ℕ) → 1 ≤ hit k x → k ≡ x
unfolding hit
hit_same k x h = ground arith

pub hit_self : (n : ℕ) → hit n n ≡ 1
unfolding hit
hit_self n = ground arith

pub between_small : (n m k : ℕ) → between n m k ≤ 1
unfolding between
between_small n m k = ground arith

pub same_or_not : (k x : ℕ) → (k ≡ x) ⊎ (hit k x ≡ 0)
unfolding hit
same_or_not k x = elim (Bool-cases (x == k)) [
  | inl t ↦ inl (sym ((==_iff x k).0 t))
  | inr f ↦ inr (rw f refl)
]
