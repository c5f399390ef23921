-- ===== src/Tests/Bodies.antt =====
-- A small body of src/libmonga/sem.c's `ResolveBlock`, and a registration in a scope.
use monga.Prelude.{◌≡◌, ◌≢◌, ◌↔◌, refl, true, false, some, [], ◌∷◌, if◌then◌else◌, codes, strcmp_eq}
use monga.Ast.{ComparKind}
use monga.Error.{success}
use monga.Syntax.{Exp, Cond, Literal, Stmt, Block, Stmts}
use monga.Sem.Builtins.{builtin_types, t_int, t_void}
use monga.Sem.Scope.{
  Symbol, sym_var, find_in, find_symbol, find_local, find_type, type_of_symbol, add_symbol,
  add_outcome, try_add_symbol,
}
use monga.Sem.Scope.Laws.{find_symbol-try_add_symbol}
use monga.Sem.State.{
  Ctx, ◌>>=◌, return, lift, log_error, add_used_type, push_scope, pop_scope, pop_scopes,
  register_outcome, try_register_symbol,
}
use monga.Sem.Types.{get_underlying_type, follow_aliases, next, is_type_assignable_from}
use monga.Sem.Types.Ops.{type_can_compare}
use monga.Sem.Resolve.{resolve_exp, literal_type}
use monga.Sem.Frame.{Frame}
use monga.Sem.Statements.{
  resolve_var_definition, resolve_empty_return, resolve_jump, enter_loop, leave_loop, resolve_block,
}
use monga.Sem.Statements.Exits.{Outcome, Runs, RunsBlock, RunsAll, fresh_block}
use monga.Sem.Silence.Statements.{resolve_block-silent}
use monga.Sem.Statements.Sound.{resolve_block-falls_iff, resolve_block-returns, resolve_block-Frame}

abbrev count_symbol : Symbol
count_symbol = record { definition = sym_var t_int; sym_name = codes "count" }

abbrev pub start : Ctx
start = record {
  types = builtin_types;
  funcs = [];
  scopes = [] ∷ [];
  used_types = [];
  anonymous = [];
  anon_rec_count = 0;
  loop_level = 0;
  has_entry_point = false;
  errors = [];
}

abbrev after_body : Ctx
after_body = record start { scopes = (count_symbol ∷ []) ∷ []; used_types = t_int ∷ [] }

abbrev less : Cond
less = Cond.compar ComparKind.lt false (Exp.literal (Literal.int 1)) (Exp.literal (Literal.int 2))

abbrev one : Stmt → Block
one s = Block.block false (Stmts.cons s Stmts.nil)

-- var count: int;  while (1 < 2) { break; }  if (1 < 2) { return; } else { return; }
abbrev pub body : Block
body = Block.block false (
    Stmts.cons (Stmt.var_def (record { var_name = codes "count"; type_name = codes "int" })) (
      Stmts.cons (Stmt.while less (one Stmt.break))
        (Stmts.cons (Stmt.if_else less (one Stmt.return_empty) (one Stmt.return_empty)) Stmts.nil)))

returns_not_falls : Outcome.returns ≢ Outcome.falls
returns_not_falls = λ e. cc

breaks_not_falls : Outcome.breaks ≢ Outcome.falls
breaks_not_falls = λ e. cc

one_run : {s : Stmt} {o : Outcome} → Runs s o → o ≢ Outcome.falls → RunsBlock (one s) o
one_run r h = RunsBlock.block (RunsAll.stop r h)

pub body_run : RunsBlock body Outcome.returns
body_run = RunsBlock.block (
    RunsAll.next Runs.var_def (
      RunsAll.next (Runs.broken (one_run Runs.break breaks_not_falls) refl) (
        RunsAll.stop (Runs.then_part (one_run Runs.return_empty returns_not_falls))
          returns_not_falls)))

pub body_fresh : fresh_block body ≡ true
unfolding fresh_block
body_fresh = refl

body_resolved : resolve_block (some t_void) body start ≡ some ((true, true), after_body)
unfolding strcmp_eq resolve_block resolve_exp literal_type resolve_var_definition
    resolve_empty_return resolve_jump enter_loop leave_loop ◌>>=◌ return lift log_error
    add_used_type push_scope pop_scope pop_scopes register_outcome try_register_symbol find_in
    find_symbol find_local find_type type_of_symbol add_symbol add_outcome try_add_symbol
    get_underlying_type follow_aliases next is_type_assignable_from type_can_compare
body_resolved = refl

resolve_block-returns_example : Outcome.returns ≡ Outcome.returns
resolve_block-returns_example =
    resolve_block-returns (some t_void) body start after_body Outcome.returns body_fresh refl
      body_resolved body_run

resolve_block-falls_iff_example : (true ≡ false) ↔ RunsBlock body Outcome.falls
resolve_block-falls_iff_example =
    resolve_block-falls_iff (some t_void) body start after_body true true body_fresh body_resolved

resolve_block-Frame_example : Frame start after_body
resolve_block-Frame_example =
    resolve_block-Frame (some t_void) body start after_body true true body_resolved

resolve_block-silent_example : after_body.errors ≡ start.errors
resolve_block-silent_example =
    resolve_block-silent (some t_void) body start after_body true body_resolved

registered_count : try_add_symbol ([] ∷ []) count_symbol ≡ some (success, (count_symbol ∷ []) ∷ [])
unfolding strcmp_eq try_add_symbol find_local find_in add_symbol add_outcome
registered_count = refl

find_symbol-try_add_symbol_example : find_symbol ((count_symbol ∷ []) ∷ []) (codes "count") ≡ (
    if strcmp_eq (codes "count") (codes "count")
    then some count_symbol
    else find_symbol ([] ∷ []) (codes "count"))
find_symbol-try_add_symbol_example =
    find_symbol-try_add_symbol ([] ∷ []) ((count_symbol ∷ []) ∷ []) count_symbol (codes "count")
      registered_count
