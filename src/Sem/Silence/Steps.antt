-- ===== src/Sem/Silence/Steps.antt =====
-- The steps of statements (src/libmonga/sem.c) that log no message when they answer true.
use monga.Prelude.{
  ◌≡◌, refl, Bool, true, false, Option, none, some, List, [], ◌∷◌, ◌++◌, ◌==◌, if◌then◌else◌,
  CString,
}
use monga.Ast.{TypeId}
use monga.Error.{RetCode}
use monga.Sem.Frame.{Ensures}
use monga.Sem.Scope.{Symbol, Scope, try_add_symbol}
use monga.Sem.State.{
  Ctx, M, ◌>>=◌, add_used_type, mem_type, push_scope, pop_scope, pop_scopes, register_outcome,
  try_register_symbol,
}
use monga.Sem.Resolve.{VarType, resolve_args, count_exps}
use monga.Sem.Silence.{
  is_some, Silent, Fails-return, Fails-bind, Fails-Silent, Silent-bind, Silent-then, Silent-return,
  Silent-lift, Silent-reject, Silent-if, Silent-with_type, Silent-test_types,
}
use monga.Sem.Silence.Expressions.{
  Silent-resolve_exp, Silent-resolve_var, Silent-resolve_args, Silent-indexed_type,
  Silent-call_with,
}
use monga.Sem.Statements.{
  resolve_var_definition, resolve_lvalue, read_type, is_string_element, check_assignment,
  resolve_assignment, resolve_return, resolve_empty_return, resolve_jump, resolve_call_statement,
  enter_loop, leave_loop, in_scope, in_loop,
}
use monga.Syntax.{Exp, Var, Exps, VarDef}

abbrev pub fine : Bool → Bool
fine b = b

-- The first of the two results of a statement or a block.
abbrev pub accepted : Bool × Bool → Bool
accepted (ok, exits) = ok

pub Silent-register_outcome :
    (name : CString) (code : RetCode) → Silent fine (register_outcome name code)
unfolding register_outcome
Silent-register_outcome name RetCode.success = Silent-return _
Silent-register_outcome name RetCode.err_duplicate = Silent-reject _
Silent-register_outcome name RetCode.err_builtin = Silent-reject _
Silent-register_outcome name _ = Silent-return _

pub Silent-try_register_symbol : (s : Symbol) → Silent fine (try_register_symbol s)
unfolding try_register_symbol
Silent-try_register_symbol s = record { silent = λ c. go c (try_add_symbol c.scopes s) }
  where
    go :
        (c : Ctx) (r : Option (RetCode × List Scope))
        → Ensures
            (λ a c'. fine a ≡ true → c'.errors ≡ c.errors)
            (elim r [
              | none ↦ none
              | some (code, after) ↦ register_outcome s.sym_name code (record c { scopes = after })
            ])
    go c none = tt
    go c (some (code, after)) =
        (Silent-register_outcome s.sym_name code).silent (record c { scopes = after })

pub Silent-add_used_type : {good : Unit {0} → Bool} (t : TypeId) → Silent good (add_used_type t)
unfolding add_used_type
Silent-add_used_type {good} t = record { silent = λ c e. go c (mem_type t c.used_types) }
  where
    go :
        (c : Ctx) (b : Bool)
        → (if b then c else record c { used_types = c.used_types ++ t ∷ [] }).errors ≡ c.errors
    go c true = refl
    go c false = refl

pub Silent-push_scope : {good : Unit {0} → Bool} → Silent good push_scope
unfolding push_scope
Silent-push_scope = record { silent = λ c e. refl }

pub Silent-pop_scope : {good : Unit {0} → Bool} → Silent good pop_scope
unfolding pop_scope
Silent-pop_scope {good} = record { silent = λ c. go c (pop_scopes c.scopes) }
  where
    go :
        (c : Ctx) (r : Option (List Scope))
        → Ensures {A = Unit}
            (λ u c'. good u ≡ true → c'.errors ≡ c.errors)
            (elim r [ none ↦ none | some parents ↦ some (tt, record c { scopes = parents }) ])
    go c none = tt
    go c (some parents) = λ e. refl

pub Silent-enter_loop : {good : Unit {0} → Bool} → Silent good enter_loop
unfolding enter_loop
Silent-enter_loop = record { silent = λ c e. refl }

pub Silent-leave_loop : {good : Unit {0} → Bool} → Silent good leave_loop
unfolding leave_loop
Silent-leave_loop = record { silent = λ c e. refl }

pub Silent-in_scope : {m : M (Bool × Bool)} → Silent accepted m → Silent accepted (in_scope m)
Silent-in_scope h = Silent-then Silent-push_scope (λ u.
    Silent-bind h (λ r t. Silent-then Silent-pop_scope (λ v. Silent-return r))
      (λ r f. Fails-bind _ (λ v. Fails-return r f)))

pub Silent-in_loop : {m : M (Bool × Bool)} → Silent accepted m → Silent accepted (in_loop m)
Silent-in_loop h = Silent-then Silent-enter_loop (λ u.
    Silent-bind (Silent-in_scope h) (λ r t. Silent-then Silent-leave_loop (λ v. Silent-return r))
      (λ r f. Fails-bind _ (λ v. Fails-return r f)))

pub Silent-read_type : (whole : Option TypeId) (t : VarType) → Silent is_some (read_type whole t)
Silent-read_type whole none = Silent-return _
Silent-read_type whole (some t) = Silent-then (Silent-lift _) (λ u. Silent-return _)

pub Silent-read :
    {m : M VarType} (whole : Option TypeId)
    → Silent is_some m
    → Silent is_some (m >>= read_type whole)
Silent-read whole h =
    Silent-bind h (λ r t. Silent-read_type whole r)
      (elim [ none ↦ λ e. Fails-return _ refl | some t ↦ λ e. cc ])

pub Silent-lvalue : (v : Var) → Silent is_some (resolve_lvalue v)
unfolding resolve_lvalue
Silent-lvalue (Var.direct name) = Silent-read none (Silent-resolve_var _)
Silent-lvalue (Var.field x name) = Silent-read none (Silent-resolve_var _)
Silent-lvalue (Var.indexed x i) = Silent-with_type (Silent-resolve_exp x) (λ t.
    Silent-with_type (Silent-resolve_exp i) (λ u. Silent-read (some t) (Silent-indexed_type t u)))

pub Silent-string_element :
    {good : Bool → Bool} (t : Option TypeId) → Silent good (is_string_element t)
unfolding is_string_element
Silent-string_element none = Silent-return _
Silent-string_element (some t) = Silent-lift _

pub Silent-check_assignment :
    (l r : TypeId) (x : Option TypeId) → Silent fine (check_assignment l r x)
unfolding check_assignment
Silent-check_assignment l r x = Silent-then (Silent-lift _) (elim [
  | false ↦ Silent-reject _
  | true ↦
      Silent-then (Silent-string_element x) (λ b. Silent-if b (Silent-reject _) (Silent-return _))
])

pub Silent-assignment : (v : Var) (x : Exp) → Silent fine (resolve_assignment v x)
unfolding resolve_assignment
Silent-assignment v x = Silent-test_types (Silent-resolve_exp x) (λ r.
    Silent-bind (Silent-lvalue v)
      (elim [ none ↦ λ e. cc | some (l, t) ↦ λ e. Silent-check_assignment l r t ])
      (elim [ none ↦ λ e. Fails-return _ refl | some (l, t) ↦ λ e. cc ]))

pub Silent-var_definition : (d : VarDef) → Silent fine (resolve_var_definition d)
unfolding resolve_var_definition
Silent-var_definition d = Silent-then (Silent-lift _) (elim [
  | none ↦ Fails-Silent (Fails-bind _ (λ u. Fails-bind _ (λ r. Fails-return _ refl)))
  | some t ↦
      Silent-bind (Silent-try_register_symbol _)
        (elim [
          | false ↦ λ e. cc
          | true ↦ λ e. Silent-then (Silent-add_used_type t) (λ u. Silent-return _)
        ])
        (elim [ false ↦ λ e. Fails-return _ refl | true ↦ λ e. cc ])
])

pub Silent-return_value : (ret : Option TypeId) (x : Exp) → Silent fine (resolve_return ret x)
unfolding resolve_return
Silent-return_value ret x = Silent-test_types (Silent-resolve_exp x) (λ t.
    Silent-then (Silent-lift _) (λ expected.
      Silent-then (Silent-lift _) (λ ok. Silent-if ok (Silent-return _) (Silent-reject _))))

pub Silent-return_empty : (ret : Option TypeId) → Silent fine (resolve_empty_return ret)
unfolding resolve_empty_return
Silent-return_empty ret =
    Silent-then (Silent-lift _)
      (λ expected. Silent-if (expected == _) (Silent-return _) (Silent-reject _))

pub Silent-jump : Silent fine resolve_jump
unfolding resolve_jump
Silent-jump = Silent-then (Silent-lift _) (λ ok. Silent-if ok (Silent-return _) (Silent-reject _))

pub Silent-call : (name : CString) (args : Exps) → Silent fine (resolve_call_statement name args)
unfolding resolve_call_statement
Silent-call name args =
    Silent-bind
      (Silent-call_with name (count_exps args) (resolve_args args name)
        (Silent-resolve_args args name))
      (λ f t. Silent-return _) (elim [ none ↦ λ e. Fails-return _ refl | some f ↦ λ e. cc ])
