-- ===== src/Sem/Scope.antt =====
-- src/libmonga/sem/scope.c and src/libmonga/sem/symbol.c: named symbols in nested scopes. A scope
-- is the list of its symbols in the order of their registration, the chain of parent scopes a list
-- with the current one first. Memory is assumed to suffice here.
pub mod Laws
use monga.Prelude.{
  ℕ, suc, ◌+◌, ◌≡◌, Bool, true, false, Option, none, some, List, [], ◌∷◌, ◌++◌, map, if◌then◌else◌,
  CString, strcmp_eq,
}
use monga.Ast.{TypeId, FuncId, TypeDef}
use monga.Error.{RetCode, success, err_duplicate, err_builtin}
use monga.Sem.Builtins.{builtin_types}

-- The node that a symbol points to, by what the analysis reads of it: the type of a parameter, which
-- is NULL if its function was not declared, or of a variable, the function, the type.
pub data SymbolDef : Type 0 where
  sym_param : Option TypeId → SymbolDef
  sym_func : FuncId → SymbolDef
  sym_var : TypeId → SymbolDef
  sym_type : TypeId → SymbolDef
  sym_field : SymbolDef

pub record Symbol : Type 0 where
  pub definition : SymbolDef
  pub sym_name : CString

abbrev pub Scope : Type 0
Scope = List Symbol

-- One type symbol for each builtin type, in order.
abbrev pub type_symbols : ℕ → List TypeDef → Scope
type_symbols i [] = []
type_symbols i (d ∷ ds) =
    record { definition = sym_type i; sym_name = d.type_name } ∷ type_symbols (i + 1) ds

abbrev pub builtin_scope : Scope
builtin_scope = type_symbols 0 builtin_types

-- The loop over one scope.
unfoldable pub find_in : Scope → CString → Option Symbol
find_in [] name = none
find_in (sym ∷ s) name = if strcmp_eq sym.sym_name name then some sym else find_in s name

abbrev pub or_else : Option Symbol → Option Symbol → Option Symbol
or_else none b = b
or_else (some a) b = some a

-- `FindSymbolInScope` with `rec`; the empty chain is the NULL scope, which stands for the builtins.
unfoldable pub find_symbol : List Scope → CString → Option Symbol
unfolding find_in
find_symbol [] name = find_in builtin_scope name
find_symbol (s ∷ parents) name = or_else (find_in s name) (find_symbol parents name)

-- `FindSymbolInScope` without `rec`.
unfoldable pub find_local : List Scope → CString → Option Symbol
unfolding find_in
find_local [] name = find_in builtin_scope name
find_local (s ∷ parents) name = find_in s name

-- `AddSymbolInternal`; `none` for a NULL scope.
unfoldable pub add_symbol : List Scope → Symbol → Option (List Scope)
add_symbol [] sym = none
add_symbol (s ∷ parents) sym = some ((s ++ sym ∷ []) ∷ parents)

-- The code of `TryAddSymbolToScope` and the chain of scopes after it, by what the two lookups find
-- and what the addition gives.
unfoldable pub add_outcome :
    Option Symbol → Option Symbol → List Scope → Option (List Scope) → Option (RetCode × List Scope)
add_outcome (some _) builtin scopes added = some (err_duplicate, scopes)
add_outcome none (some _) scopes added = some (err_builtin, scopes)
add_outcome none none scopes none = none
add_outcome none none scopes (some after) = some (success, after)

-- `TryAddSymbolToScope` of the current scope.
unfoldable pub try_add_symbol : List Scope → Symbol → Option (RetCode × List Scope)
unfolding add_outcome
try_add_symbol scopes sym =
    add_outcome (find_local scopes sym.sym_name) (find_in builtin_scope sym.sym_name) scopes
      (add_symbol scopes sym)

-- `FindType`
unfoldable pub type_of_symbol : Option Symbol → Option TypeId
type_of_symbol none = none
type_of_symbol (some sym) = elim sym.definition [ sym_type t ↦ some t | _ ↦ none ]

unfoldable pub find_type : List Scope → CString → Option TypeId
unfolding type_of_symbol
find_type scopes name = type_of_symbol (find_symbol scopes name)
