-- ===== src/Tests/Functions.antt =====
-- A function with a clash of parameter names, and one that is accepted, of src/libmonga/sem.c.
use monga.Prelude.{◌≡◌, ◌||◌, ◌⊎◌, refl, true, false, none, some, List, [], ◌∷◌, codes, strcmp_eq}
use monga.Syntax.{Param, FuncDef}
use monga.Sem.Builtins.{t_int, t_void}
use monga.Sem.Scope.{
  Scope, find_in, find_symbol, find_local, find_type, type_of_symbol, add_symbol, add_outcome,
  try_add_symbol,
}
use monga.Sem.State.{
  Ctx, Message, ◌>>=◌, return, lift, log_error, add_used_type, push_scope, pop_scope, pop_scopes,
  register_outcome, try_register_symbol,
}
use monga.Sem.Types.{get_underlying_type, follow_aliases, next, is_type_assignable_from}
use monga.Sem.Types.Ops.{type_can_compare}
use monga.Sem.Resolve.{resolve_exp, literal_type}
use monga.Sem.Functions.{
  update_func, set_param_type, type_or_error, remove_symbol, declare_params, finish_declaration,
  resolve_function_declaration, force_symbol, add_params, check_returns, resolve_function_impl,
}
use monga.Sem.Functions.Bodies.{resolve_function_impl-Finished}
use monga.Sem.Functions.Steps.{Appended, is_taken}
use monga.Sem.Functions.Params.{clashes}
use monga.Sem.Functions.Declared.{symbol_of, resolve_function_declaration-Appended}
use monga.Sem.Statements.{
  resolve_var_definition, resolve_empty_return, resolve_jump, enter_loop, leave_loop, resolve_block,
}
use monga.Sem.Statements.Exits.{Outcome}
use monga.Tests.Bodies.{start, body, body_fresh, body_run}

abbrev int_param : Param
int_param = record { name = codes "x"; type_name = codes "int"; param_type = none }

-- f(x: int, x: int): int;
abbrev clashing : FuncDef
clashing = record {
  func_name = codes "f";
  ret_type_name = codes "int";
  params = int_param ∷ int_param ∷ [];
  body = none;
  return_type = none;
  is_entry_point = false;
}

abbrev before_clash : Ctx
before_clash = record start { funcs = clashing ∷ [] }

abbrev after_clash : Ctx
after_clash = record start {
  funcs =
      record clashing {
        params =
            record int_param { param_type = some t_int }
            ∷ record int_param { param_type = some t_int }
            ∷ [];
        return_type = some t_int;
      }
      ∷ [];
  used_types = t_int ∷ [];
  errors = Message.redeclaration (codes "x") ∷ [];
}

clash_declared : resolve_function_declaration 0 before_clash ≡ some (false, after_clash)
unfolding strcmp_eq find_in find_symbol find_local find_type type_of_symbol add_symbol add_outcome
    try_add_symbol ◌>>=◌ return lift log_error add_used_type push_scope pop_scope pop_scopes
    register_outcome try_register_symbol update_func set_param_type type_or_error remove_symbol
    declare_params finish_declaration resolve_function_declaration
clash_declared = refl

resolve_function_declaration-Appended_example :
    (is_taken [] clashing.func_name ≡ false)
      × (clashes [] clashing.params ≡ false)
      × Appended (symbol_of 0 clashing) ([] ∷ []) ([] ∷ [])
    ⊎ ((is_taken [] clashing.func_name || clashes [] clashing.params) ≡ true)
      × (false ≡ false)
      × (◌≡◌ {A = List Scope} ([] ∷ []) ([] ∷ []))
resolve_function_declaration-Appended_example =
    resolve_function_declaration-Appended 0 clashing before_clash after_clash false refl
      clash_declared

-- main(): void, with the body of the other tests
abbrev main_def : FuncDef
main_def = record {
  func_name = codes "main";
  ret_type_name = codes "void";
  params = [];
  body = some body;
  return_type = some t_void;
  is_entry_point = true;
}

abbrev before_main : Ctx
before_main = record start { funcs = main_def ∷ [] }

main_resolved :
    resolve_function_impl 0 before_main
    ≡ some (true, record before_main { used_types = t_int ∷ [] })
unfolding strcmp_eq find_in find_symbol find_local find_type type_of_symbol add_symbol add_outcome
    try_add_symbol ◌>>=◌ return lift log_error add_used_type push_scope pop_scope pop_scopes
    register_outcome try_register_symbol get_underlying_type follow_aliases next
    is_type_assignable_from type_can_compare resolve_block resolve_exp literal_type
    resolve_var_definition resolve_empty_return resolve_jump enter_loop leave_loop force_symbol
    add_params check_returns resolve_function_impl
main_resolved = refl

resolve_function_impl-Finished_example :
    (Outcome.returns ≡ Outcome.returns)
    ⊎ ((Outcome.returns ≡ Outcome.falls) × (main_def.return_type ≡ some t_void))
resolve_function_impl-Finished_example =
    resolve_function_impl-Finished 0 main_def body before_main
      (record before_main { used_types = t_int ∷ [] }) Outcome.returns refl refl body_fresh refl
      main_resolved body_run
