-- ===== src/Tests/Analyse.antt =====
-- A module with a type and a function, through `Analyse` of src/libmonga/sem.c.
use monga.Prelude.{
  ◌≡◌, ◌⊎◌, refl, true, false, Option, none, some, List, [], ◌∷◌, ◌++◌, Bool, map, drop, codes,
  CString, strcmp_eq,
}
use monga.Ast.{TypeDef, TypeDesc, alias_desc, array_desc, record_desc}
use monga.DefGroup.{Defined}
use monga.Error.{success}
use monga.Syntax.{FuncDef}
use monga.Sem.Builtins.{builtin_types, t_int, t_void}
use monga.Sem.Scope.{
  sym_type, find_in, find_symbol, find_local, find_type, type_of_symbol, add_symbol, add_outcome,
  try_add_symbol,
}
use monga.Sem.State.{
  Ctx, ◌>>=◌, return, lift, log_error, add_used_type, push_scope, pop_scope, pop_scopes,
  register_outcome, try_register_symbol, find_or_create_array_type, create_array_type,
}
use monga.Sem.Types.{get_underlying_type, follow_aliases, next, is_type_assignable_from}
use monga.Sem.Types.Ops.{type_can_compare}
use monga.Sem.Resolve.{resolve_exp, literal_type}
use monga.Sem.Functions.{
  update_func, set_param_type, type_or_error, remove_symbol, declare_params, finish_declaration,
  resolve_function_declaration, force_symbol, add_params, check_returns, resolve_function_impl,
}
use monga.Sem.Statements.{
  resolve_var_definition, resolve_empty_return, resolve_jump, enter_loop, leave_loop, resolve_block,
}
use monga.Sem.Statements.Exits.{Outcome}
use monga.Sem.Descriptions.{
  hex_digits, create_anonymous_record, field_or_error, resolve_fields, element_of,
  resolve_type_desc, resolve_type_declaration, write_desc, resolve_type_definition,
}
use monga.Sem.Descriptions.Resolved.{resolve_type_desc-pointers_set, pointers_set, SameShape}
use monga.Sem.Analyse.{
  Module, enter_module, leave_module, visit, run_pass, declare_types, declare_functions,
  define_variables, define_types, define_functions, run_passes, cleanup, analyse,
  sem_analyse_multiple,
}
use monga.Sem.Analyse.Finished.{sem_analyse_multiple-Finished}
use monga.Sem.Silence.Passes.{sem_analyse_multiple-silent}
use monga.Tests.Bodies.{start, body, body_fresh, body_run}

-- type whole = int;
abbrev whole : TypeDef
whole = record { type_name = codes "whole"; desc = alias_desc (codes "int") none }

-- function main(): void { ... }
abbrev parsed_main : FuncDef
parsed_main = record {
  func_name = codes "main";
  ret_type_name = codes "void";
  params = [];
  body = some body;
  return_type = none;
  is_entry_point = false;
}

abbrev parsed : Module
parsed = record {
  definitions = Defined.function 0 ∷ Defined.type_def 12 ∷ [];
  module_types = [];
  made = [];
  entry_point = false;
  sem_ok = false;
}

abbrev type_defs : List TypeDef
type_defs = builtin_types ++ whole ∷ []

abbrev analysed : Module
analysed = record parsed { module_types = t_void ∷ t_int ∷ []; entry_point = true; sem_ok = true }

abbrev main_after : FuncDef
main_after = record parsed_main { return_type = some t_void; is_entry_point = true }

abbrev after_analysis : Ctx
after_analysis = record start {
  types = builtin_types ++ record whole { desc = alias_desc (codes "int") (some t_int) } ∷ [];
  funcs = main_after ∷ [];
  scopes = [];
  used_types = t_void ∷ t_int ∷ [];
  has_entry_point = true;
}

module_accepted :
    sem_analyse_multiple type_defs (parsed_main ∷ []) (parsed ∷ [])
    ≡ some ((success, analysed ∷ []), after_analysis)
unfolding strcmp_eq find_in find_symbol find_local find_type type_of_symbol add_symbol add_outcome
    try_add_symbol ◌>>=◌ return lift log_error add_used_type push_scope pop_scope pop_scopes
    register_outcome try_register_symbol get_underlying_type follow_aliases next
    is_type_assignable_from type_can_compare resolve_block resolve_exp literal_type
    resolve_var_definition resolve_empty_return resolve_jump enter_loop leave_loop force_symbol
    add_params check_returns resolve_function_impl update_func set_param_type type_or_error
    remove_symbol declare_params finish_declaration resolve_function_declaration resolve_type_desc
    resolve_type_declaration write_desc resolve_type_definition enter_module leave_module visit
    run_pass declare_types declare_functions define_variables define_types define_functions
    run_passes cleanup analyse sem_analyse_multiple
module_accepted = refl

sem_analyse_multiple-Finished_example :
    (Outcome.returns ≡ Outcome.returns)
    ⊎ ((Outcome.returns ≡ Outcome.falls) × (main_after.return_type ≡ some t_void))
sem_analyse_multiple-Finished_example =
    sem_analyse_multiple-Finished type_defs (parsed_main ∷ []) (parsed ∷ []) (analysed ∷ [])
      after_analysis 0 0 main_after body Outcome.returns module_accepted refl refl refl body_fresh
      body_run

sem_analyse_multiple-silent_example : after_analysis.errors ≡ []
sem_analyse_multiple-silent_example =
    sem_analyse_multiple-silent type_defs (parsed_main ∷ []) (parsed ∷ []) (analysed ∷ [])
      after_analysis module_accepted

-- [[int]]
abbrev nested : TypeDesc
nested = array_desc (array_desc (alias_desc (codes "int") none) none) none

abbrev nested_after : TypeDesc
nested_after =
    array_desc (array_desc (alias_desc (codes "int") (some t_int)) (some t_int)) (some 12)

abbrev after_nested : Ctx
after_nested = record start {
  types =
      builtin_types
      ++ record {
        type_name = codes ".array_int";
        desc = array_desc (alias_desc (codes "int") (some t_int)) (some t_int);
      }
        ∷ [];
  scopes = (record { definition = sym_type 12; sym_name = codes ".array_int" } ∷ []) ∷ [];
  used_types = t_int ∷ 12 ∷ [];
  anonymous = 12 ∷ [];
}

nested_resolved : resolve_type_desc nested start ≡ some ((true, nested_after), after_nested)
unfolding strcmp_eq find_in find_symbol find_local find_type type_of_symbol add_symbol add_outcome
    try_add_symbol ◌>>=◌ return lift log_error add_used_type push_scope pop_scope pop_scopes
    register_outcome try_register_symbol type_or_error resolve_type_desc find_or_create_array_type
    create_array_type element_of
nested_resolved = refl

resolve_type_desc-pointers_set_example :
    SameShape nested nested_after × (true ≡ true → pointers_set nested_after ≡ true)
resolve_type_desc-pointers_set_example =
    resolve_type_desc-pointers_set nested nested_after start after_nested true nested_resolved

abbrev pair : TypeDesc
pair = record_desc (
    record { field_name = codes "a"; type_name = codes "int"; field_type = none }
    ∷ record { field_name = codes "b"; type_name = codes "int"; field_type = none }
    ∷ [])

-- The answer to a description, and the names of the definitions that it makes.
abbrev outcome_of : Option ((Bool × TypeDesc) × Ctx) → Option (Bool × List CString)
outcome_of none = none
outcome_of (some ((ok, d), c)) = some (ok, map (λ t. t.type_name) (drop 12 c.types))

-- An array of records makes a definition of the record: `.record_1f` when 31 were made before.
pairs_resolved :
    outcome_of (resolve_type_desc (array_desc pair none) (record start { anon_rec_count = 31 }))
    ≡ some (true, codes ".record_1f" ∷ [])
unfolding strcmp_eq find_in find_symbol find_local find_type type_of_symbol add_symbol add_outcome
    try_add_symbol ◌>>=◌ return lift log_error add_used_type push_scope pop_scope pop_scopes
    register_outcome try_register_symbol resolve_type_desc create_anonymous_record hex_digits
    element_of resolve_fields field_or_error
pairs_resolved = refl
