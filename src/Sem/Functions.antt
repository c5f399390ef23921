-- ===== src/Sem/Functions.antt =====
-- `ResolveFunctionDeclaration` and `ResolveFunctionImpl` of src/libmonga/sem.c. A function is an index
-- in the list of functions; the analysis writes the types into its entry.
pub mod Bodies
pub mod Steps
pub mod Params
pub mod Declared
use monga.Prelude.{
  ℕ, zero, suc, ◌+◌, ◌-◌, ◌≡◌, Bool, true, false, ◌&&◌, ◌||◌, Option, none, some, List, [], ◌∷◌,
  ◌==◌, if◌then◌else◌, length, get_elem?, set, erase_idx, CString, codes, strcmp_eq,
}
use monga.Ast.{TypeId, FuncId}
use monga.Sem.Builtins.{t_void, t_error}
use monga.Sem.Scope.{Symbol, Scope, sym_param, sym_func, add_symbol, find_type}
use monga.Sem.State.{
  Ctx, M, ◌>>=◌, ◌>>◌, return, lift, log_error, reject, Message, add_used_type, push_scope,
  pop_scope, try_register_symbol,
}
use monga.Sem.Statements.{in_scope, resolve_block}
use monga.Syntax.{Block, Param, FuncDef}

-- The function's entry.
abbrev pub func_def : FuncId → M FuncDef
func_def f = lift (λ c. get_elem? c.funcs f)

-- A write to the function's entry.
unfoldable pub update_func : FuncId → (FuncDef → FuncDef) → M (Unit {0})
update_func f change c = elim (get_elem? c.funcs f) [
  | none ↦ none
  | some def ↦ some (tt, record c { funcs = set c.funcs f (change def) })
]

-- `paramDef->semantic.type = t` for the parameter at an index.
unfoldable pub set_param_type : List Param → ℕ → TypeId → List Param
set_param_type [] i t = []
set_param_type (p ∷ ps) zero t = record p { param_type = some t } ∷ ps
set_param_type (p ∷ ps) (suc i) t = p ∷ set_param_type ps i t

-- The type of a name, or the error type and the message.
unfoldable pub type_or_error : Message → CString → M (TypeId × Bool)
type_or_error m name = do
  found ← lift (λ c. some (find_type c.scopes name))
  elim found [ none ↦ do log_error m; return (t_error, false) | some t ↦ return (t, true) ]

-- The loop over the parameters from an index on: `none` for a clash of names, else `ret`.
unfoldable pub declare_params : FuncId → ℕ → List Param → Bool → M (Option Bool)
unfolding type_or_error update_func set_param_type
declare_params f i [] ret = return (some ret)
declare_params f i (p ∷ ps) ret = do
  (t, known) ← type_or_error (Message.unknown_parameter_type p.type_name) p.type_name
  update_func f (λ def. record def { params = set_param_type def.params i t })
  ok ← try_register_symbol (record { definition = sym_param (some t); sym_name = p.name })
  elim ok [
    | false ↦ return none
    | true ↦ do add_used_type t; declare_params f (i + 1) ps (known && ret)
  ]

-- `Mon_VectorRemove` on the symbols of the current scope.
unfoldable pub remove_symbol : ℕ → M (Unit {0})
remove_symbol i c = elim c.scopes [
  | [] ↦ none
  | s ∷ parents ↦ some (tt, record c { scopes = erase_idx s i ∷ parents })
]

-- The index of the last symbol of the current scope.
abbrev pub last_symbol : List Scope → Option ℕ
last_symbol [] = none
last_symbol (s ∷ parents) = some (length s - 1)

-- What follows the loop over the parameters.
unfoldable pub finish_declaration : FuncId → TypeId → ℕ → Option Bool → M Bool
unfolding remove_symbol
finish_declaration f t index none = do pop_scope; remove_symbol index; return false
finish_declaration f t index (some ret) = do
  pop_scope
  def ← func_def f
  let entry = strcmp_eq def.func_name (codes "main")
  update_func f (λ def. record def { is_entry_point = entry })
  (λ c. some (tt, record c { has_entry_point = entry || c.has_entry_point }))
  elim ret [ false ↦ return false | true ↦ add_used_type t >> return true ]

-- The types of the function, once its symbol stands at an index of the current scope.
unfoldable pub declare_signature : FuncId → FuncDef → ℕ → M Bool
unfolding declare_params finish_declaration
declare_signature f def index = do
  (t, known) ← type_or_error (Message.unknown_return_type def.ret_type_name) def.ret_type_name
  update_func f (λ def. record def { return_type = some t })
  push_scope
  declared ← declare_params f 0 def.params known
  finish_declaration f t index declared

-- What follows the registration.
unfoldable pub declare_registered : FuncId → FuncDef → Bool → M Bool
unfolding declare_signature
declare_registered f def false = return false
declare_registered f def true = lift (λ c. last_symbol c.scopes) >>= declare_signature f def

-- `ResolveFunctionDeclaration`
unfoldable pub resolve_function_declaration : FuncId → M Bool
unfolding declare_registered
resolve_function_declaration f = do
  def ← func_def f
  ok ← try_register_symbol (record { definition = sym_func f; sym_name = def.func_name })
  declare_registered f def ok

-- `ForceAddSymbolToScope` of the current scope.
unfoldable pub force_symbol : Symbol → M (Unit {0})
force_symbol d c = elim (add_symbol c.scopes d) [
  | none ↦ none
  | some after ↦ some (tt, record c { scopes = after })
]

-- The parameters in the scope of the body.
unfoldable pub add_params : List Param → M (Unit {0})
unfolding force_symbol
add_params [] = return tt
add_params (p ∷ ps) = do
  force_symbol (record { definition = sym_param p.param_type; sym_name = p.name })
  add_params ps

abbrev pub is_void : Option TypeId → Bool
is_void none = false
is_void (some t) = t == t_void

-- What is made of the results of `ResolveBlock`.
unfoldable pub check_returns : Option TypeId → Bool × Bool → M Bool
check_returns ret (ok, exits) =
    if ok
    then (if is_void ret || exits then return true else reject Message.missing_return)
    else return false

-- `ResolveFunctionImpl` of a function with a body.
unfoldable pub resolve_body : FuncDef → Block → M Bool
unfolding add_params check_returns
resolve_body def x = do
  r ← in_scope (add_params def.params >> resolve_block def.return_type x)
  check_returns def.return_type r

-- `ResolveFunctionImpl`
unfoldable pub resolve_function_impl : FuncId → M Bool
unfolding resolve_body
resolve_function_impl f = do
  def ← func_def f
  elim def.body [ none ↦ return true | some x ↦ resolve_body def x ]
