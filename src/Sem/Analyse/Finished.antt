-- ===== src/Sem/Analyse/Finished.antt =====
-- What it means that `Analyse` of src/libmonga/sem.c answers MON_SUCCESS: every function body of the
-- modules leaves its function as the function's return type asks for.
use monga.Prelude.{
  ℕ, ◌≡◌, refl, sym, ap, ◌∙◌, ◌⊎◌, Bool, true, false, ◌&&◌, some, List, [], ◌∷◌, ◌++◌, get_elem?,
  if◌then◌else◌, subst,
}
use monga.Ast.{FuncId, TypeDef}
use monga.DefGroup.{Defined}
use monga.Error.{success, err_semantic}
use monga.Sem.Builtins.{t_void}
use monga.Sem.State.{Ctx, ◌>>=◌, return, push_scope}
use monga.Sem.Frame.{Frame, Ensures, Ensures-then, Ensures-of}
use monga.Sem.Functions.{resolve_function_impl}
use monga.Sem.Functions.Bodies.{Checks-resolve_function_impl, resolve_function_impl-Finished}
use monga.Sem.Statements.Checked.{Keeps-var_definition}
use monga.Sem.Statements.Exits.{Outcome, RunsBlock, fresh_block}
use monga.Sem.Statements.Sound.{ensured}
use monga.Sem.Analyse.{
  Module, run_pass, declare_types, declare_functions, define_variables, define_types,
  define_functions, fresh_states, run_passes, cleanup, analyse, initial, sem_analyse_multiple,
}
use monga.Sem.Analyse.Levels.{
  Level, Level-return, Keeps-Level, Level-type_declaration, Level-function_declaration,
  Level-type_definition,
}
use monga.Syntax.{Block, FuncDef}
use monga.Sem.Analyse.Passes.{
  all_definitions, Outside, Passed, run_pass-Passed, Each, Each-get_elem, Kept, run_pass-Kept,
}

-- How a finished run of the function's body leaves it.
abbrev Guarded : List FuncDef → FuncId → Type 0
Guarded funcs f =
    (def : FuncDef) (x : Block) (o : Outcome)
    → get_elem? funcs f ≡ some def
    → def.body ≡ some x
    → fresh_block x ≡ true
    → RunsBlock x o
    → (o ≡ Outcome.returns) ⊎ ((o ≡ Outcome.falls) × (def.return_type ≡ some t_void))

unfoldable GuardedDef : List FuncDef → Defined → Type 0
GuardedDef funcs (Defined.type_def t) = Unit
GuardedDef funcs (Defined.variable d) = Unit
GuardedDef funcs (Defined.function f) = Guarded funcs f

impl-Outside :
    (f : FuncId) (c : Ctx)
    → c.loop_level ≡ 0
    → Ensures (Outside (λ fs. Guarded fs f) c) (resolve_function_impl f c)
impl-Outside f c e =
    Ensures-of (Outside (λ fs. Guarded fs f) c) (resolve_function_impl f c) (λ ok c' run.
      let (g, u) =
        ensured (λ ok c'. Frame c c' × Unit {0}) (resolve_function_impl f c) ok c'
          ((Checks-resolve_function_impl f).checked c refl) run in
      (
        g.level ∙ e,
        g.functions,
        λ t def x o at b fresh r.
            resolve_function_impl-Finished f def x c c' o
              (ap (λ fs. get_elem? fs f) (sym g.functions) ∙ at) b fresh e
              (run ∙ ap (λ b. some (b, c')) t) r,
      ))

define_functions-Outside :
    (d : Defined) (c : Ctx)
    → c.loop_level ≡ 0
    → Ensures (Outside (λ fs. GuardedDef fs d) c) (define_functions d c)
unfolding define_functions GuardedDef return
define_functions-Outside (Defined.type_def t) c e = (e, refl, λ t. tt)
define_functions-Outside (Defined.variable d) c e = (e, refl, λ t. tt)
define_functions-Outside (Defined.function f) c e = impl-Outside f c e

Level-declare_types : (d : Defined) → Level (declare_types d)
unfolding declare_types
Level-declare_types (Defined.type_def t) = Level-type_declaration t
Level-declare_types (Defined.function f) = Level-return _
Level-declare_types (Defined.variable d) = Level-return _

Level-declare_functions : (d : Defined) → Level (declare_functions d)
unfolding declare_functions
Level-declare_functions (Defined.type_def t) = Level-return _
Level-declare_functions (Defined.function f) = Level-function_declaration f
Level-declare_functions (Defined.variable d) = Level-return _

Level-define_variables : (d : Defined) → Level (define_variables d)
unfolding define_variables
Level-define_variables (Defined.type_def t) = Level-return _
Level-define_variables (Defined.function f) = Level-return _
Level-define_variables (Defined.variable d) = Keeps-Level (Keeps-var_definition d)

Level-define_types : (d : Defined) → Level (define_types d)
unfolding define_types
Level-define_types (Defined.type_def t) = Level-type_definition t
Level-define_types (Defined.function f) = Level-return _
Level-define_types (Defined.variable d) = Level-return _

fresh_states-all_definitions :
    (modules : List Module) → all_definitions (fresh_states modules) ≡ all_definitions modules
fresh_states-all_definitions [] = refl
fresh_states-all_definitions (a ∷ modules) =
    ap (λ ds. a.definitions ++ ds) (fresh_states-all_definitions modules)

-- Where the answer is true, the functions among the definitions are guarded.
abbrev Answers : List Module → Bool × List Module → Ctx → Type 0
Answers modules (ok, modules') c' = ok ≡ true → Each (GuardedDef c'.funcs) (all_definitions modules)

run_passes-Answers :
    (modules : List Module) (c : Ctx)
    → c.loop_level ≡ 0
    → Ensures (Answers modules) (run_passes modules c)
unfolding run_passes return
run_passes-Answers modules c e =
    Ensures-then (Kept (fresh_states modules)) (Answers modules) _ _ c
      (run_pass-Kept declare_types Level-declare_types _ c e)
      (λ (ok1, m1) c1 (e1, d1).
        Ensures-then (Kept m1) (Answers modules) _ _ c1
          (run_pass-Kept declare_functions Level-declare_functions m1 c1 e1)
          (λ (ok2, m2) c2 (e2, d2).
            Ensures-then (Kept m2) (Answers modules) _ _ c2
              (run_pass-Kept define_variables Level-define_variables m2 c2 e2)
              (λ (ok3, m3) c3 (e3, d3).
                Ensures-then (Kept m3) (Answers modules) _ _ c3
                  (run_pass-Kept define_types Level-define_types m3 c3 e3)
                  (λ (ok4, m4) c4 (e4, d4).
                    Ensures-then (Passed GuardedDef m4 c4) (Answers modules)
                      (run_pass define_functions m4) _ c4
                      (run_pass-Passed define_functions GuardedDef define_functions-Outside m4 c4
                        e4)
                      (λ (ok5, m5) c5 ((e5, s5, g5), d5) t.
                        subst (Each (GuardedDef c5.funcs))
                          (d4 ∙ d3 ∙ d2 ∙ d1 ∙ fresh_states-all_definitions modules)
                          (g5 (last_true ok1 ok2 ok3 ok4 ok5 t)))))))
  where
    last_true : (a b c d e : Bool) → (a && b && c && d && e) ≡ true → e ≡ true
    last_true true true true true e h = h
    last_true false b c d e h = cc
    last_true true false c d e h = cc
    last_true true true false d e h = cc
    last_true true true true false e h = cc

accepted_ok : (ok : Bool) → (if ok then success else err_semantic) ≡ success → ok ≡ true
accepted_ok true e = refl
accepted_ok false e = cc

analyse-Answers :
    (modules : List Module) (c : Ctx)
    → c.loop_level ≡ 0
    → Ensures
        (λ (code, m') c'. code ≡ success → Each (GuardedDef c'.funcs) (all_definitions modules))
        (analyse modules c)
unfolding analyse return ◌>>=◌ push_scope cleanup
analyse-Answers modules c e =
    Ensures-then (Answers modules)
      (λ (code, m') c'. code ≡ success → Each (GuardedDef c'.funcs) (all_definitions modules))
      (run_passes modules) _ (record c { scopes = [] ∷ c.scopes }) (run_passes-Answers modules _ e)
      (λ (ok, m') c' h t. h (accepted_ok ok t))

-- When `Mon_SemAnalyseMultiple` answers MON_SUCCESS, take any function among the definitions of the
-- modules that has a body whose blocks were allocated with their flags false: every run of the body
-- that ends leaves it by a `return`, or it reaches its end and the type that the analysis has given
-- the function is void. No run ends by a `break` or `continue`.
pub sem_analyse_multiple-Finished :
    (types : List TypeDef) (funcs : List FuncDef) (modules m' : List Module) (c' : Ctx) (i : ℕ)
    (f : FuncId) (def : FuncDef) (x : Block) (o : Outcome)
    → sem_analyse_multiple types funcs modules ≡ some ((success, m'), c')
    → get_elem? (all_definitions modules) i ≡ some (Defined.function f)
    → get_elem? c'.funcs f ≡ some def
    → def.body ≡ some x
    → fresh_block x ≡ true
    → RunsBlock x o
    → (o ≡ Outcome.returns) ⊎ ((o ≡ Outcome.falls) × (def.return_type ≡ some t_void))
unfolding GuardedDef sem_analyse_multiple
sem_analyse_multiple-Finished types funcs modules m' c' i f def x o run at found b fresh r =
    Each-get_elem (GuardedDef c'.funcs) (all_definitions modules) i (Defined.function f)
      (ensured
        (λ (code, m') c'. code ≡ success → Each (GuardedDef c'.funcs) (all_definitions modules))
        (analyse modules (initial types funcs)) (success, m') c'
        (analyse-Answers modules (initial types funcs) refl) run refl)
      at def x o found b fresh r
