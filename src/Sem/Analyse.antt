-- ===== src/Sem/Analyse.antt =====
-- `Analyse` and `Cleanup` of src/libmonga/sem.c, over one module or several. A pass visits the
-- definitions that the module has when the pass begins: its loop keeps the end that it started with.
pub mod Levels
pub mod Passes
pub mod Finished
use monga.Prelude.{
  ℕ, ◌≡◌, Bool, true, false, ◌&&◌, Option, none, some, List, [], ◌∷◌, if◌then◌else◌,
}
use monga.Ast.{TypeId, FuncId, TypeDef}
use monga.DefGroup.{Defined}
use monga.Syntax.{FuncDef}
use monga.Error.{RetCode, success, err_semantic}
use monga.Sem.State.{Ctx, M, ◌>>=◌, ◌>>◌, return, lift, push_scope}
use monga.Sem.Descriptions.{resolve_type_declaration, resolve_type_definition}
use monga.Sem.Functions.{resolve_function_declaration, resolve_function_impl}
use monga.Sem.Statements.{resolve_var_definition}

-- A `Mon_Ast`, by its definitions and what the analysis leaves in it; `sem_ok` stands for the state
-- MON_ASTSTATE_SEM_OK, else the state is MON_ASTSTATE_SEM_ERR.
pub record Module : Type 0 where
  pub definitions : List Defined
  pub module_types : List TypeId
  pub made : List TypeId
  pub entry_point : Bool
  pub sem_ok : Bool

-- `ctx->currentAst = ...`: the fields of the context that are the current module's.
unfoldable pub enter_module : Module → M (Unit {0})
enter_module a c = some (
  tt,
  record c { used_types = a.module_types; anonymous = a.made; has_entry_point = a.entry_point },
)

-- The module after a pass over it.
unfoldable pub leave_module : Module → Bool → M Module
leave_module a ok c = some (
  record a {
    module_types = c.used_types;
    made = c.anonymous;
    entry_point = c.has_entry_point;
    sem_ok = ok && a.sem_ok;
  },
  c,
)

-- What one pass does with a definition; the others it skips.
abbrev pub Pass : Type 0
Pass = Defined → M Bool

unfoldable pub declare_types : Pass
declare_types (Defined.type_def t) = resolve_type_declaration t
declare_types (Defined.function f) = return true
declare_types (Defined.variable d) = return true

unfoldable pub declare_functions : Pass
declare_functions (Defined.type_def t) = return true
declare_functions (Defined.function f) = resolve_function_declaration f
declare_functions (Defined.variable d) = return true

unfoldable pub define_variables : Pass
define_variables (Defined.type_def t) = return true
define_variables (Defined.function f) = return true
define_variables (Defined.variable d) = resolve_var_definition d

unfoldable pub define_types : Pass
define_types (Defined.type_def t) = resolve_type_definition t
define_types (Defined.function f) = return true
define_types (Defined.variable d) = return true

unfoldable pub define_functions : Pass
define_functions (Defined.type_def t) = return true
define_functions (Defined.function f) = resolve_function_impl f
define_functions (Defined.variable d) = return true

-- The loop over the definitions of a module: whether each was resolved.
unfoldable pub visit : Pass → List Defined → M Bool
visit p [] = return true
visit p (d ∷ ds) = do ok ← p d; rest ← visit p ds; return (ok && rest)

-- The loop over the modules.
unfoldable pub run_pass : Pass → List Module → M (Bool × List Module)
unfolding enter_module leave_module visit
run_pass p [] = return (true, [])
run_pass p (a ∷ modules) = do
  enter_module a
  ok ← visit p a.definitions
  a' ← leave_module a ok
  (rest, modules') ← run_pass p modules
  return (ok && rest, a' ∷ modules')

-- `astState = MON_ASTSTATE_SEM_OK`, which the first pass begins with.
abbrev pub fresh_states : List Module → List Module
fresh_states [] = []
fresh_states (a ∷ modules) = record a { sem_ok = true } ∷ fresh_states modules

-- `Cleanup`
unfoldable pub cleanup : M (Unit {0})
cleanup c = some (tt, record c { scopes = [] })

-- The five passes of `Analyse`.
unfoldable pub run_passes : List Module → M (Bool × List Module)
unfolding run_pass declare_types declare_functions define_variables define_types define_functions
run_passes modules = do
  (types_declared, m1) ← run_pass declare_types (fresh_states modules)
  (functions_declared, m2) ← run_pass declare_functions m1
  (variables_defined, m3) ← run_pass define_variables m2
  (types_defined, m4) ← run_pass define_types m3
  (functions_defined, m5) ← run_pass define_functions m4
  return (
    types_declared && functions_declared && variables_defined && types_defined && functions_defined,
    m5,
  )

-- `Analyse`, from a context without scopes; what remains are the code and the modules.
unfoldable pub analyse : List Module → M (RetCode × List Module)
unfolding run_passes cleanup
analyse modules = do
  push_scope
  (ok, modules') ← run_passes modules
  cleanup
  return (if ok then success else err_semantic, modules')

-- The context that `Mon_SemAnalyseMultiple` sets up. The fields of the current module are read only
-- after a module was entered.
abbrev pub initial : List TypeDef → List FuncDef → Ctx
initial types funcs = record {
  types = types;
  funcs = funcs;
  scopes = [];
  used_types = [];
  anonymous = [];
  anon_rec_count = 0;
  loop_level = 0;
  has_entry_point = false;
  errors = [];
}

-- `Mon_SemAnalyseMultiple`, for the type definitions and functions that nodes point to.
unfoldable pub sem_analyse_multiple :
    List TypeDef → List FuncDef → List Module → Option ((RetCode × List Module) × Ctx)
unfolding analyse
sem_analyse_multiple types funcs modules = analyse modules (initial types funcs)
