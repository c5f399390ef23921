-- ===== src/Codegen/Numbering/Linked.antt =====
-- The functions that a module declares (src/libmonga/codegen/llvmctx.c, AddFunctionDependency).
use monga.Prelude.{
  ℕ, ◌≤◌, ◌≡◌, refl, inl, inr, subst, false, ||-false, List, [], ◌∷◌, ◌++◌, ◌==◌, arith,
}
use monga.Ast.{FuncId}
use monga.Codegen.Context.{Gen, mem_func}
use monga.Codegen.Numbering.{hit, hit_self, count, count-append, count_single, same_or_not}

-- Each function that is to be declared stands once among the dependencies, and none of them is a
-- function of the module.
pub record Linked (g : Gen) : Type 0 where
  pub declared_once : (f : ℕ) → count f g.function_dependencies ≤ 1
  pub not_defined : (f : ℕ) → 1 ≤ count f g.internal_functions → count f g.function_dependencies ≡ 0

pub Linked-same :
    {g g' : Gen}
    → g'.internal_functions ≡ g.internal_functions
    → g'.function_dependencies ≡ g.function_dependencies
    → Linked g
    → Linked g'
Linked-same i d h = record {
  declared_once = λ f. rw d (h.declared_once f);
  not_defined = λ f. rw (i, d) (h.not_defined f);
}

pub mem_func-count : (f : FuncId) (fs : List FuncId) → mem_func f fs ≡ false → count f fs ≡ 0
unfolding count hit
mem_func-count f [] e = refl
mem_func-count f (x ∷ fs) e =
    let (other, rest) = ||-false (x == f) (mem_func f fs) e in
    rw other (omega (arith, mem_func-count f fs rest))

pub Linked-push :
    (f : FuncId) (g : Gen)
    → count f g.internal_functions ≡ 0
    → count f g.function_dependencies ≡ 0
    → Linked g
    → Linked (record g { function_dependencies = g.function_dependencies ++ f ∷ [] })
Linked-push f g i d h = record {
  declared_once = λ k. elim (same_or_not k f) [
    | inl e ↦ rw e (
        omega
          (arith, count-append f g.function_dependencies (f ∷ []), count_single f f, hit_self f, d))
    | inr e ↦ omega (
      arith,
      count-append k g.function_dependencies (f ∷ []),
      count_single k f,
      e,
      h.declared_once k,
    )
  ];
  not_defined = λ k at. elim (same_or_not k f) [
    | inl e ↦ absurd (nothing (subst (λ k. 1 ≤ count k g.internal_functions) e at) i)
    | inr e ↦ omega (
      arith,
      count-append k g.function_dependencies (f ∷ []),
      count_single k f,
      e,
      h.not_defined k at,
    )
  ];
}
  where
    nothing : {n : ℕ} → 1 ≤ n → n ≡ 0 → ⊥
    nothing h e = omega (arith, h, e)
