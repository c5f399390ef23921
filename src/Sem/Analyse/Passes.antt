-- ===== src/Sem/Analyse/Passes.antt =====
-- What a pass over the modules (`Analyse` of src/libmonga/sem.c) keeps, and what its answer says.
use monga.Prelude.{
  ℕ, zero, suc, ◌≡◌, refl, sym, ap, ◌∙◌, Bool, true, none, some, List, [], ◌∷◌, ◌++◌, get_elem?,
  &&-true, subst,
}
use monga.DefGroup.{Defined}
use monga.Sem.State.{Ctx, ◌>>=◌, return}
use monga.Sem.Frame.{Ensures, Ensures-then}
use monga.Sem.Analyse.{Module, Pass, enter_module, leave_module, visit, run_pass}
use monga.Sem.Analyse.Levels.{Level, Level-bind, Level-return}
use monga.Syntax.{FuncDef}

-- The definitions of the modules, in the order of a pass.
abbrev pub all_definitions : List Module → List Defined
all_definitions [] = []
all_definitions (a ∷ modules) = a.definitions ++ all_definitions modules

-- Every definition of the list has it.
abbrev pub Each : (Defined → Type 0) → List Defined → Type 0
Each P [] = Unit
Each P (d ∷ ds) = P d × Each P ds

Each-append :
    (P : Defined → Type 0) (xs ys : List Defined) → Each P xs → Each P ys → Each P (xs ++ ys)
Each-append P [] ys u v = v
Each-append P (x ∷ xs) ys (p, u) v = (p, Each-append P xs ys u v)

pub Each-get_elem :
    (P : Defined → Type 0) (ds : List Defined) (i : ℕ) (d : Defined)
    → Each P ds
    → get_elem? ds i ≡ some d
    → P d
Each-get_elem P [] i d u e = cc
Each-get_elem P (x ∷ ds) zero d (p, u) e = subst P (ap (λ o. elim o [ none ↦ x | some y ↦ y ]) e) p
Each-get_elem P (x ∷ ds) (suc i) d (p, u) e = Each-get_elem P ds i d u e

-- The step begins and ends outside loops, leaves the functions alone, and where it answers true `P`
-- holds of them.
abbrev pub Outside : (List FuncDef → Type 0) → Ctx → Bool → Ctx → Type 0
Outside P c ok c' = (c'.loop_level ≡ 0) × (c'.funcs ≡ c.funcs) × (ok ≡ true → P c'.funcs)

visit-Outside :
    (p : Pass) (P : List FuncDef → Defined → Type 0)
    → ((d : Defined) (c : Ctx) → c.loop_level ≡ 0 → Ensures (Outside (λ fs. P fs d) c) (p d c))
    → (ds : List Defined) (c : Ctx) → c.loop_level ≡ 0
    → Ensures (Outside (λ fs. Each (P fs) ds) c) (visit p ds c)
unfolding visit return
visit-Outside p P h [] c e = (e, refl, λ t. tt)
visit-Outside p P h (d ∷ ds) c e =
    Ensures-then (Outside (λ fs. P fs d) c) (Outside (λ fs. Each (P fs) (d ∷ ds)) c) (p d) _ c
      (h d c e)
      (λ ok c1 (e1, s1, g1).
        Ensures-then (Outside (λ fs. Each (P fs) ds) c1) (Outside (λ fs. Each (P fs) (d ∷ ds)) c)
          (visit p ds) _ c1 (visit-Outside p P h ds c1 e1)
          (λ rest c2 (e2, s2, g2). (
            e2,
            s2 ∙ s1,
            λ t. let (u, v) = &&-true ok rest t in (subst (λ fs. P fs d) (sym s2) (g1 u), g2 v),
          )))

-- What a pass over the modules leaves of them, and what it says of their definitions.
abbrev pub Passed :
    (List FuncDef → Defined → Type 0) → List Module → Ctx → Bool × List Module → Ctx → Type 0
Passed P modules c (ok, modules') c' =
    Outside (λ fs. Each (P fs) (all_definitions modules)) c ok c'
    × (all_definitions modules' ≡ all_definitions modules)

pub run_pass-Passed :
    (p : Pass) (P : List FuncDef → Defined → Type 0)
    → ((d : Defined) (c : Ctx) → c.loop_level ≡ 0 → Ensures (Outside (λ fs. P fs d) c) (p d c))
    → (modules : List Module) (c : Ctx) → c.loop_level ≡ 0
    → Ensures (Passed P modules c) (run_pass p modules c)
unfolding run_pass return ◌>>=◌ enter_module leave_module
run_pass-Passed p P h [] c e = ((e, refl, λ t. tt), refl)
run_pass-Passed p P h (a ∷ modules) c e =
    Ensures-then (Outside (λ fs. Each (P fs) a.definitions) c) (Passed P (a ∷ modules) c)
      (visit p a.definitions) _
      (record c {
        used_types = a.module_types;
        anonymous = a.made;
        has_entry_point = a.entry_point;
      })
      (visit-Outside p P h a.definitions _ e)
      (λ ok c1 (e1, s1, g1).
        Ensures-then (Passed P modules c1) (Passed P (a ∷ modules) c) (run_pass p modules) _ c1
          (run_pass-Passed p P h modules c1 e1)
          (λ (rest, modules') c2 ((e2, s2, g2), same). (
            (
              e2,
              s2 ∙ s1,
              λ t.
                  let (u, v) = &&-true ok rest t in
                  Each-append (P c2.funcs) a.definitions (all_definitions modules)
                    (subst (λ fs. Each (P fs) a.definitions) (sym s2) (g1 u)) (g2 v),
            ),
            ap (λ ds. a.definitions ++ ds) same,
          )))

Level-visit : (p : Pass) → ((d : Defined) → Level (p d)) → (ds : List Defined) → Level (visit p ds)
unfolding visit
Level-visit p h [] = Level-return _
Level-visit p h (d ∷ ds) =
    Level-bind (h d) (λ ok. Level-bind (Level-visit p h ds) (λ rest. Level-return _))

-- What a pass that only keeps the loop level leaves.
abbrev pub Kept : List Module → Bool × List Module → Ctx → Type 0
Kept modules (ok, modules') c' =
    (c'.loop_level ≡ 0) × (all_definitions modules' ≡ all_definitions modules)

pub run_pass-Kept :
    (p : Pass)
    → ((d : Defined) → Level (p d))
    → (modules : List Module) (c : Ctx) → c.loop_level ≡ 0
    → Ensures (Kept modules) (run_pass p modules c)
unfolding run_pass return ◌>>=◌ enter_module leave_module
run_pass-Kept p h [] c e = (e, refl)
run_pass-Kept p h (a ∷ modules) c e =
    let c0 = record c {
      used_types = a.module_types;
      anonymous = a.made;
      has_entry_point = a.entry_point;
    } in
    Ensures-then (λ ok c1. c1.loop_level ≡ c.loop_level) (Kept (a ∷ modules))
      (visit p a.definitions) _ c0 ((Level-visit p h a.definitions).level c0)
      (λ ok c1 e1.
        Ensures-then (Kept modules) (Kept (a ∷ modules)) (run_pass p modules) _ c1
          (run_pass-Kept p h modules c1 (e1 ∙ e))
          (λ (rest, modules') c2 (e2, same). (e2, ap (λ ds. a.definitions ++ ds) same)))
