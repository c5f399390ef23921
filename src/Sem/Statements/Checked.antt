-- ===== src/Sem/Statements/Checked.antt =====
-- What `ResolveStatement` and `ResolveBlock` of src/libmonga/sem.c answer, and what they leave alone.
use monga.Prelude.{
  ℕ, ◌+◌, ◌≡◌, ap, ◌∙◌, Bool, true, false, ◌&&◌, Option, none, some, List, [], ◌∷◌, ◌==◌, CString,
  arith,
}
use monga.Ast.{TypeId}
use monga.Syntax.{Exp, Var, Exps, VarDef, Stmt, Block, Stmts}
use monga.Sem.Scope.{Scope}
use monga.Sem.State.{Ctx, M, ◌>>=◌, ◌>>◌, return, push_scope, pop_scope, pop_scopes}
use monga.Sem.Frame.{
  ScopesGrow, ScopesGrow-refl, Frame, Frame-refl, Frame-trans, Ensures, Ensures-bind,
  Ensures-weaken, Keeps, Keeps-bind, Keeps-return, Keeps-lift, Keeps-log_error, Keeps-reject,
  Keeps-if, Keeps-add_used_type, Keeps-try_register_symbol,
}
use monga.Sem.Frame.Expressions.{
  Keeps-resolve_exp, Keeps-resolve_var, Keeps-resolve_args, Keeps-indexed_type, Keeps-with_type,
  Keeps-test_types, Keeps-call_with,
}
use monga.Sem.Resolve.{VarType, resolve_args, count_exps}
use monga.Sem.Statements.{
  resolve_var_definition, resolve_lvalue, read_type, is_string_element, check_assignment,
  resolve_assignment, resolve_return, resolve_empty_return, resolve_call_statement, enter_loop,
  leave_loop, in_scope, in_loop,
}

-- `break` and `continue` stand inside a loop; the Boolean says whether the statement itself does.
unfoldable mutual
  pub contained : Bool → Stmt → Bool
  contained loop (Stmt.if_then b x) = contained_block loop x
  contained loop (Stmt.if_else b x y) = contained_block loop x && contained_block loop y
  contained loop (Stmt.while b x) = contained_block true x
  contained loop (Stmt.inner x) = contained_block loop x
  contained loop Stmt.break = loop
  contained loop Stmt.continue = loop
  contained loop _ = true

  pub contained_block : Bool → Block → Bool
  contained_block loop (Block.block flag ss) = contained_all loop ss

  pub contained_all : Bool → Stmts → Bool
  contained_all loop Stmts.nil = true
  contained_all loop (Stmts.cons s ss) = contained loop s && contained_all loop ss

-- At the loop level `n` the step keeps the frame, and `P` holds of its result.
pub record Checks {A : Type 0} (n : ℕ) (m : M A) (P : A → Type 0) : Type 0 where
  pub checked : (c : Ctx) → c.loop_level ≡ n → Ensures (λ a c'. Frame c c' × P a) (m c)

pub Checks-bind :
    {A B : Type 0} {n : ℕ} {m : M A} {f : A → M B} {P : A → Type 0} {Q : B → Type 0}
    → Checks n m P
    → ((a : A) → P a → Checks n (f a) Q)
    → Checks n (m >>= f) Q
unfolding ◌>>=◌
Checks-bind {m} {f} {P} {Q} h k = record {
  checked = λ c e.
      Ensures-bind (λ a c'. Frame c c' × P a) (λ b c'. Frame c c' × Q b) f (m c) (h.checked c e)
        (λ a c' (g, p).
          Ensures-weaken (λ b c''. Frame c' c'' × Q b) (λ b c''. Frame c c'' × Q b) (f a c')
            ((k a p).checked c' (g.level ∙ e)) (λ b c'' (g', q). (Frame-trans g g', q)));
}

pub Checks-weaken :
    {A : Type 0} {n : ℕ} {m : M A} {P Q : A → Type 0}
    → Checks n m P
    → ((a : A) → P a → Q a)
    → Checks n m Q
Checks-weaken {m} {P} {Q} h k = record {
  checked = λ c e.
      Ensures-weaken (λ a c'. Frame c c' × P a) (λ a c'. Frame c c' × Q a) (m c) (h.checked c e)
        (λ a c' (g, p). (g, k a p));
}

pub Checks-return : {A : Type 0} {n : ℕ} (a : A) {P : A → Type 0} → P a → Checks n (return a) P
unfolding return
Checks-return a p = record { checked = λ c e. (Frame-refl c, p) }

pub Checks-keeps : {A : Type 0} {n : ℕ} {m : M A} → Keeps m → Checks n m (λ a. Unit {0})
Checks-keeps {m} h = record {
  checked = λ c e.
      Ensures-weaken (λ a c'. Frame c c') (λ a c'. Frame c c' × Unit {0}) (m c) (h.framed c)
        (λ a c' g. (g, tt));
}

-- A scope that was opened and grew is closed.
pop_scopes-opened :
    (scopes parents : List Scope)
    → ScopesGrow ([] ∷ parents) scopes
    → pop_scopes scopes ≡ some parents
unfolding pop_scopes
pop_scopes-opened scopes parents (more, e) = ap pop_scopes e

pub Checks-in_scope :
    {n : ℕ} {m : M (Bool × Bool)} {P : Bool × Bool → Type 0}
    → Checks n m P
    → Checks n (in_scope m) P
unfolding ◌>>=◌ push_scope pop_scope return
Checks-in_scope {n} {m} {P} h = record {
  checked = λ c e.
      Ensures-bind (λ a c'. Frame (record c { scopes = [] ∷ c.scopes }) c' × P a)
        (λ b c'. Frame c c' × P b) (λ r. pop_scope >> return r)
        (m (record c { scopes = [] ∷ c.scopes }))
        (h.checked (record c { scopes = [] ∷ c.scopes }) e) (λ r c' (g, p). popped c c' r g p);
}
  where
    popped :
        (c c' : Ctx) (r : Bool × Bool)
        → Frame (record c { scopes = [] ∷ c.scopes }) c'
        → P r
        → Ensures (λ b c''. Frame c c'' × P b) ((pop_scope >> return r) c')
    popped c c' r g p =
        rw (pop_scopes-opened c'.scopes c.scopes g.scopes, Ensures)
          (
            record {
              level = g.level;
              scopes = ScopesGrow-refl c.scopes;
              types = g.types;
              messages = g.messages;
              functions = g.functions;
            },
            p,
          )

pub Checks-in_loop :
    {n : ℕ} {m : M (Bool × Bool)} {P : Bool × Bool → Type 0}
    → Checks (n + 1) m P
    → Checks n (in_loop m) P
unfolding ◌>>=◌ enter_loop leave_loop return
Checks-in_loop {m} {P} h = record {
  checked = λ c e.
      Ensures-bind (λ a c'. Frame (record c { loop_level = c.loop_level + 1 }) c' × P a)
        (λ b c'. Frame c c' × P b) (λ r. leave_loop >> return r)
        (in_scope m (record c { loop_level = c.loop_level + 1 }))
        ((Checks-in_scope h).checked (record c { loop_level = c.loop_level + 1 })
          (ap (λ n. n + 1) e))
        (λ r c' (g, p). (
          record {
            level = omega (arith, g.level);
            scopes = g.scopes;
            types = g.types;
            messages = g.messages;
            functions = g.functions;
          },
          p,
        ));
}

Keeps-read_type : (whole : Option TypeId) (t : VarType) → Keeps (read_type whole t)
Keeps-read_type whole none = Keeps-return _
Keeps-read_type whole (some t) = Keeps-bind (Keeps-lift _) (λ u. Keeps-return _)

Keeps-lvalue : (v : Var) → Keeps (resolve_lvalue v)
unfolding resolve_lvalue
Keeps-lvalue (Var.direct name) = Keeps-bind (Keeps-resolve_var _) (Keeps-read_type _)
Keeps-lvalue (Var.field x name) = Keeps-bind (Keeps-resolve_var _) (Keeps-read_type _)
Keeps-lvalue (Var.indexed x i) = Keeps-with_type (Keeps-resolve_exp x) (λ t.
    Keeps-with_type (Keeps-resolve_exp i)
      (λ u. Keeps-bind (Keeps-indexed_type t u) (Keeps-read_type _)))

Keeps-string_element : (t : Option TypeId) → Keeps (is_string_element t)
unfolding is_string_element
Keeps-string_element none = Keeps-return _
Keeps-string_element (some t) = Keeps-lift _

Keeps-check_assignment : (l r : TypeId) (x : Option TypeId) → Keeps (check_assignment l r x)
unfolding check_assignment
Keeps-check_assignment l r x = Keeps-bind (Keeps-lift _) (elim [
  | false ↦ Keeps-reject _
  | true ↦ Keeps-bind (Keeps-string_element x) (λ b. Keeps-if b (Keeps-reject _) (Keeps-return _))
])

pub Keeps-assignment : (v : Var) (x : Exp) → Keeps (resolve_assignment v x)
unfolding resolve_assignment
Keeps-assignment v x = Keeps-test_types (Keeps-resolve_exp x) (λ r.
    Keeps-bind (Keeps-lvalue v)
      (elim [ none ↦ Keeps-return _ | some (l, t) ↦ Keeps-check_assignment l r t ]))

pub Keeps-var_definition : (d : VarDef) → Keeps (resolve_var_definition d)
unfolding resolve_var_definition
Keeps-var_definition d = Keeps-bind (Keeps-lift _) (elim [
  | none ↦
      Keeps-bind (Keeps-log_error _)
        (λ u. Keeps-bind (Keeps-try_register_symbol _) (λ r. Keeps-return _))
  | some t ↦ Keeps-bind (Keeps-try_register_symbol _) (elim [
    | false ↦ Keeps-return _
    | true ↦ Keeps-bind (Keeps-add_used_type t) (λ u. Keeps-return _)
  ])
])

pub Keeps-return_value : (ret : Option TypeId) (x : Exp) → Keeps (resolve_return ret x)
unfolding resolve_return
Keeps-return_value ret x = Keeps-test_types (Keeps-resolve_exp x) (λ t.
    Keeps-bind (Keeps-lift _)
      (λ expected. Keeps-bind (Keeps-lift _) (λ ok. Keeps-if ok (Keeps-return _) (Keeps-reject _))))

pub Keeps-return_empty : (ret : Option TypeId) → Keeps (resolve_empty_return ret)
unfolding resolve_empty_return
Keeps-return_empty ret =
    Keeps-bind (Keeps-lift _)
      (λ expected. Keeps-if (expected == _) (Keeps-return _) (Keeps-reject _))

pub Keeps-call : (name : CString) (args : Exps) → Keeps (resolve_call_statement name args)
unfolding resolve_call_statement
Keeps-call name args =
    Keeps-bind
      (Keeps-call_with name (count_exps args) (resolve_args args name)
        (Keeps-resolve_args args name))
      (λ f. Keeps-return _)
