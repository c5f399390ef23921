-- ===== src/Sem/Statements.antt =====
-- `ResolveStatement`, `ResolveBlock` and `ResolveVarDefinition` of src/libmonga/sem.c.
pub mod Exits
pub mod Checked
pub mod Returns
pub mod Sound
use monga.Prelude.{
  ℕ, suc, ◌+◌, ◌-◌, ◌≡◌, Bool, true, false, ◌&&◌, ◌||◌, Option, none, some, List, [], ◌∷◌, ltb,
  ◌==◌, if◌then◌else◌, CString,
}
use monga.Ast.{TypeId}
use monga.Sem.Builtins.{t_void, t_error, t_string}
use monga.Sem.Scope.{Symbol, sym_var, find_type}
use monga.Sem.State.{
  Ctx, M, ◌>>=◌, ◌>>◌, return, lift, log_error, reject, Message, add_used_type, push_scope,
  pop_scope, try_register_symbol,
}
use monga.Sem.Resolve.{
  VarType, with_type, test_types, test_type, indexed_type, resolve_exp, resolve_var, resolve_cond,
  resolve_args, call_with, count_exps,
}
use monga.Sem.Types.{get_underlying_type, is_type_assignable_from}
use monga.Syntax.{Exp, Var, Cond, Exps, VarDef, Stmt, Block, Stmts, FuncDef}

-- `ResolveVarDefinition`
unfoldable pub resolve_var_definition : VarDef → M Bool
resolve_var_definition d = do
  found ← lift (λ c. some (find_type c.scopes d.type_name))
  elim found [
    | none ↦ do
      log_error (Message.unknown_variable_type d.var_name)
      registered ←
          try_register_symbol (record { definition = sym_var t_error; sym_name = d.var_name })
      return false
    | some t ↦ do
      registered ← try_register_symbol (record { definition = sym_var t; sym_name = d.var_name })
      elim registered [ false ↦ return false | true ↦ add_used_type t >> return true ]
  ]

-- The type of a variable that `ResolveVar` accepted, which the assignment reads; NULL has no fields.
abbrev pub read_type : Option TypeId → VarType → M (Option (TypeId × Option TypeId))
read_type whole none = return none
read_type whole (some t) = do u ← lift (λ c. t); return (some (u, whole))

-- `ResolveVar` of an lvalue: its type, and for an element the type of what is indexed.
unfoldable pub resolve_lvalue : Var → M (Option (TypeId × Option TypeId))
resolve_lvalue (Var.direct name) = resolve_var (Var.direct name) >>= read_type none
resolve_lvalue (Var.field x name) = resolve_var (Var.field x name) >>= read_type none
resolve_lvalue (Var.indexed x i) =
    with_type (resolve_exp x)
      (λ t. with_type (resolve_exp i) (λ u. indexed_type t u >>= read_type (some t)))

-- The indexed expression is a string.
unfoldable pub is_string_element : Option TypeId → M Bool
is_string_element none = return false
is_string_element (some t) = test_type (λ r. r.id == t_string) t

-- An assignment, once both sides have types.
unfoldable pub check_assignment : TypeId → TypeId → Option TypeId → M Bool
unfolding is_string_element
check_assignment ltype rtype indexed = do
  ok ← lift (λ c. is_type_assignable_from c.types ltype rtype)
  elim ok [
    | false ↦ reject Message.bad_assignment
    | true ↦ do
      string ← is_string_element indexed
      if string then reject Message.immutable_string else return true
  ]

unfoldable pub resolve_assignment : Var → Exp → M Bool
unfolding resolve_lvalue check_assignment
resolve_assignment v x = test_types (resolve_exp x) (λ rtype.
    resolve_lvalue v
    >>= elim [ none ↦ return false | some (l, indexed) ↦ check_assignment l rtype indexed ])

-- The function's `returnType`, which is NULL if the function was not declared.
unfoldable pub resolve_return : Option TypeId → Exp → M Bool
resolve_return ret x = test_types (resolve_exp x) (λ t. do
  expected ← lift (λ c. ret)
  ok ← lift (λ c. is_type_assignable_from c.types expected t)
  if ok then return true else reject Message.bad_return)

unfoldable pub resolve_empty_return : Option TypeId → M Bool
resolve_empty_return ret = do
  expected ← lift (λ c. ret)
  if expected == t_void then return true else reject Message.empty_return

-- `break` and `continue`
unfoldable pub resolve_jump : M Bool
resolve_jump = do
  inside ← lift (λ c. some (ltb 0 c.loop_level))
  if inside then return true else reject Message.outside_loop

unfoldable pub resolve_call_statement : CString → Exps → M Bool
resolve_call_statement name args = do
  callee ← call_with name (count_exps args) (resolve_args args name)
  return (elim callee [ none ↦ false | some f ↦ true ])

unfoldable pub enter_loop : M (Unit {0})
enter_loop c = some (tt, record c { loop_level = c.loop_level + 1 })

unfoldable pub leave_loop : M (Unit {0})
leave_loop c = some (tt, record c { loop_level = c.loop_level - 1 })

-- A block in a scope of its own.
abbrev pub in_scope : M (Bool × Bool) → M (Bool × Bool)
in_scope m = do push_scope; r ← m; pop_scope; return r

-- The scope of a loop, one loop level up.
abbrev pub in_loop : M (Bool × Bool) → M (Bool × Bool)
in_loop m = do enter_loop; r ← in_scope m; leave_loop; return r

-- The right side of the source's `&&`.
abbrev pub if_resolved : Bool → M (Bool × Bool) → M (Bool × Bool)
if_resolved false m = return (false, false)
if_resolved true m = m

-- What is no block answers by a Boolean; `exits` says whether it leaves the block that it is in.
abbrev pub plain : Bool → M Bool → M (Bool × Bool)
plain exits m = do ok ← m; return (ok, exits)

-- The results are the source's Boolean and what the statement adds to `allPathsExit`, for a
-- function that returns the type `ret`.
unfoldable mutual
  pub resolve_stmt : Option TypeId → Stmt → M (Bool × Bool)
  resolve_stmt ret (Stmt.var_def d) = plain false (resolve_var_definition d)
  resolve_stmt ret (Stmt.if_then b x) = do
    cond ← resolve_cond b
    (then_ok, then_exits) ← in_scope (resolve_block ret x)
    return (cond && then_ok, false)
  resolve_stmt ret (Stmt.if_else b x y) = do
    cond ← resolve_cond b
    (then_ok, then_exits) ← in_scope (resolve_block ret x)
    (else_ok, else_exits) ← in_scope (resolve_block ret y)
    return (cond && then_ok && else_ok, then_exits && else_exits)
  resolve_stmt ret (Stmt.while b x) = do
    (ok, exits) ← in_loop (resolve_cond b >>= λ cond. if_resolved cond (resolve_block ret x))
    return (ok, false)
  resolve_stmt ret (Stmt.assignment v x) = plain false (resolve_assignment v x)
  resolve_stmt ret Stmt.return_empty = plain true (resolve_empty_return ret)
  resolve_stmt ret (Stmt.return_value x) = plain true (resolve_return ret x)
  resolve_stmt ret (Stmt.call name args) = plain false (resolve_call_statement name args)
  resolve_stmt ret (Stmt.inner x) = in_scope (resolve_block ret x)
  resolve_stmt ret (Stmt.echo x) = plain false (test_types (resolve_exp x) (λ t. return true))
  resolve_stmt ret Stmt.break = plain true resolve_jump
  resolve_stmt ret Stmt.continue = plain true resolve_jump

  -- The second result is the block's flag after the call.
  pub resolve_block : Option TypeId → Block → M (Bool × Bool)
  resolve_block ret (Block.block flag stmts) = resolve_stmts ret stmts true flag

  pub resolve_stmts : Option TypeId → Stmts → Bool → Bool → M (Bool × Bool)
  resolve_stmts ret Stmts.nil ok flag = return (ok, flag)
  resolve_stmts ret (Stmts.cons s ss) ok flag = do
    (ok', exits) ← resolve_stmt ret s
    resolve_stmts ret ss (ok' && ok) (flag || exits)
