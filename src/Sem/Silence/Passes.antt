-- ===== src/Sem/Silence/Passes.antt =====
-- `Analyse` of src/libmonga/sem.c: an analysis that succeeds logs no message.
use monga.Prelude.{◌≡◌, refl, Bool, true, false, ◌&&◌, some, List, [], ◌∷◌}
use monga.Ast.{TypeDef}
use monga.Syntax.{FuncDef}
use monga.DefGroup.{Defined}
use monga.Error.{RetCode, success}
use monga.Sem.State.{Ctx, ◌>>=◌, return}
use monga.Sem.Silence.{
  Silent, Fails, Fails-return, Fails-bind, Silent-bind, Silent-then, Silent-return,
}
use monga.Sem.Silence.Definitions.{
  described, Silent-function_declaration, Silent-function_impl, Silent-type_declaration,
  Silent-type_definition,
}
use monga.Sem.Silence.Statements.{rejected_last, rejected_first}
use monga.Sem.Silence.Steps.{fine, Silent-push_scope, Silent-var_definition}
use monga.Sem.Statements.Sound.{ensured}
use monga.Sem.Analyse.{
  Module, Pass, enter_module, leave_module, visit, run_pass, declare_types, declare_functions,
  define_variables, define_types, define_functions, run_passes, cleanup, analyse, initial,
  sem_analyse_multiple,
}

Silent-visit :
    (p : Pass)
    → ((d : Defined) → Silent fine (p d))
    → (ds : List Defined) → Silent fine (visit p ds)
unfolding visit
Silent-visit p h [] = Silent-return _
Silent-visit p h (d ∷ ds) =
    Silent-bind (h d)
      (λ ok e.
        Silent-bind (Silent-visit p h ds) (λ rest e'. Silent-return _)
          (λ rest f. Fails-return _ (rejected_last ok rest f)))
      (λ ok f. Fails-bind _ (λ rest. Fails-return _ (rejected_first ok rest f)))

Silent-enter_module : {good : Unit {0} → Bool} (a : Module) → Silent good (enter_module a)
unfolding enter_module
Silent-enter_module a = record { silent = λ c e. refl }

Silent-leave_module :
    {good : Module → Bool} (a : Module) (ok : Bool) → Silent good (leave_module a ok)
unfolding leave_module
Silent-leave_module a ok = record { silent = λ c e. refl }

Silent-run_pass :
    (p : Pass)
    → ((d : Defined) → Silent fine (p d))
    → (modules : List Module) → Silent described (run_pass p modules)
unfolding run_pass
Silent-run_pass p h [] = Silent-return _
Silent-run_pass p h (a ∷ modules) = Silent-then (Silent-enter_module a) (λ u.
    Silent-bind (Silent-visit p h a.definitions)
      (λ ok e. Silent-then (Silent-leave_module a ok) (λ a'.
        Silent-bind (Silent-run_pass p h modules) (λ (rest, modules') e'. Silent-return _)
          (λ (rest, modules') f. Fails-return _ (rejected_last ok rest f))))
      (λ ok f.
        Fails-bind _
          (λ a'. Fails-bind _ (λ (rest, modules'). Fails-return _ (rejected_first ok rest f)))))

Silent-declare_types : (d : Defined) → Silent fine (declare_types d)
unfolding declare_types
Silent-declare_types (Defined.type_def t) = Silent-type_declaration t
Silent-declare_types (Defined.function f) = Silent-return _
Silent-declare_types (Defined.variable d) = Silent-return _

Silent-declare_functions : (d : Defined) → Silent fine (declare_functions d)
unfolding declare_functions
Silent-declare_functions (Defined.type_def t) = Silent-return _
Silent-declare_functions (Defined.function f) = Silent-function_declaration f
Silent-declare_functions (Defined.variable d) = Silent-return _

Silent-define_variables : (d : Defined) → Silent fine (define_variables d)
unfolding define_variables
Silent-define_variables (Defined.type_def t) = Silent-return _
Silent-define_variables (Defined.function f) = Silent-return _
Silent-define_variables (Defined.variable d) = Silent-var_definition d

Silent-define_types : (d : Defined) → Silent fine (define_types d)
unfolding define_types
Silent-define_types (Defined.type_def t) = Silent-type_definition t
Silent-define_types (Defined.function f) = Silent-return _
Silent-define_types (Defined.variable d) = Silent-return _

Silent-define_functions : (d : Defined) → Silent fine (define_functions d)
unfolding define_functions
Silent-define_functions (Defined.type_def t) = Silent-return _
Silent-define_functions (Defined.function f) = Silent-function_impl f
Silent-define_functions (Defined.variable d) = Silent-return _

Silent-run_passes : (modules : List Module) → Silent described (run_passes modules)
unfolding run_passes
Silent-run_passes modules =
    Silent-bind (Silent-run_pass _ Silent-declare_types _)
      (λ (a, m1) e.
        Silent-bind (Silent-run_pass _ Silent-declare_functions m1)
          (λ (b, m2) e.
            Silent-bind (Silent-run_pass _ Silent-define_variables m2)
              (λ (d, m3) e.
                Silent-bind (Silent-run_pass _ Silent-define_types m3)
                  (λ (g, m4) e.
                    Silent-bind (Silent-run_pass _ Silent-define_functions m4)
                      (λ (l, m5) e. Silent-return _)
                      (λ (l, m5) f. Fails-return _ (rejected_last (a && b && d && g) l f)))
                  (λ (g, m4) f. Fails-bind _ (λ (l, m5).
                    Fails-return _
                      (rejected_first (a && b && d && g) l (rejected_last (a && b && d) g f)))))
              (λ (d, m3) f. fails_two (a && b && d) m3 (rejected_last (a && b) d f)))
          (λ (b, m2) f. fails_three (a && b) m2 (rejected_last a b f)))
      (λ (a, m1) f. Fails-bind _ (λ (b, m2). fails_three (a && b) m2 (rejected_first a b f)))
  where
    fails_two :
        (ok : Bool) (m : List Module)
        → ok ≡ false
        → Fails described (do
          (g, m4) ← run_pass define_types m
          (l, m5) ← run_pass define_functions m4
          return (ok && g && l, m5))
    fails_two ok m f = Fails-bind _ (λ (g, m4).
        Fails-bind _
          (λ (l, m5). Fails-return _ (rejected_first (ok && g) l (rejected_first ok g f))))

    fails_three :
        (ok : Bool) (m : List Module)
        → ok ≡ false
        → Fails described (do
          (d, m3) ← run_pass define_variables m
          (g, m4) ← run_pass define_types m3
          (l, m5) ← run_pass define_functions m4
          return (ok && d && g && l, m5))
    fails_three ok m f = Fails-bind _ (λ (d, m3). fails_two (ok && d) m3 (rejected_first ok d f))

Silent-cleanup : {good : Unit {0} → Bool} → Silent good cleanup
unfolding cleanup
Silent-cleanup = record { silent = λ c e. refl }

-- The answer is MON_SUCCESS.
abbrev succeeded : RetCode × List Module → Bool
succeeded (RetCode.success, modules) = true
succeeded (_, modules) = false

Silent-analyse : (modules : List Module) → Silent succeeded (analyse modules)
unfolding analyse
Silent-analyse modules = Silent-then Silent-push_scope (λ u.
    Silent-bind (Silent-run_passes modules)
      (λ (ok, m') e. Silent-then Silent-cleanup (λ v. Silent-return _))
      (λ (ok, m') f. Fails-bind _ (λ v. Fails-return _ (rw f refl))))

-- When `Mon_SemAnalyseMultiple` answers MON_SUCCESS, no message was logged: each message of the five
-- passes comes with the answer MON_ERR_SEMANTIC.
pub sem_analyse_multiple-silent :
    (types : List TypeDef) (funcs : List FuncDef) (modules m' : List Module) (c' : Ctx)
    → sem_analyse_multiple types funcs modules ≡ some ((success, m'), c')
    → c'.errors ≡ []
unfolding sem_analyse_multiple
sem_analyse_multiple-silent types funcs modules m' c' e =
    ensured (λ r c'. succeeded r ≡ true → c'.errors ≡ []) (analyse modules (initial types funcs))
      (success, m') c' ((Silent-analyse modules).silent (initial types funcs)) e refl
