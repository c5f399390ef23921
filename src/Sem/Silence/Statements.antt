-- ===== src/Sem/Silence/Statements.antt =====
-- A block that `ResolveBlock` of src/libmonga/sem.c accepts makes it log no message.
use monga.Prelude.{◌≡◌, refl, Bool, true, false, ◌&&◌, ◌||◌, Option, some}
use monga.Ast.{TypeId}
use monga.Sem.State.{Ctx, M}
use monga.Sem.Silence.{
  Silent, Fails, Fails-return, Fails-bind, Silent-bind, Silent-return, Silent-test_types,
}
use monga.Sem.Silence.Expressions.{Silent-resolve_exp, Silent-resolve_cond}
use monga.Sem.Statements.{if_resolved, plain, resolve_stmt, resolve_block, resolve_stmts}
use monga.Sem.Statements.Sound.{ensured}
use monga.Syntax.{Stmt, Block, Stmts}
use monga.Sem.Silence.Steps.{
  fine, accepted, Silent-in_scope, Silent-in_loop, Silent-assignment, Silent-var_definition,
  Silent-return_value, Silent-return_empty, Silent-jump, Silent-call,
}

Silent-plain : (exits : Bool) {m : M Bool} → Silent fine m → Silent accepted (plain exits m)
Silent-plain exits h = Silent-bind h (λ ok t. Silent-return _) (λ ok f. Fails-return _ f)

Silent-if_resolved :
    (b : Bool) {m : M (Bool × Bool)} → Silent accepted m → Silent accepted (if_resolved b m)
Silent-if_resolved false h = Silent-return _
Silent-if_resolved true h = h

Fails-if_resolved : (b : Bool) (m : M (Bool × Bool)) → b ≡ false → Fails accepted (if_resolved b m)
Fails-if_resolved false m f = Fails-return _ refl
Fails-if_resolved true m f = cc

pub rejected_last : (a b : Bool) → b ≡ false → (a && b) ≡ false
rejected_last true b f = f
rejected_last false b f = refl

pub rejected_first : (a b : Bool) → a ≡ false → (a && b) ≡ false
rejected_first a b f = rw f refl

Fails-stmts :
    (ret : Option TypeId) (ss : Stmts) (ok flag : Bool)
    → ok ≡ false
    → Fails accepted (resolve_stmts ret ss ok flag)
unfolding resolve_stmts
Fails-stmts ret Stmts.nil ok flag f = Fails-return _ f
Fails-stmts ret (Stmts.cons s ss) ok flag f =
    Fails-bind _
      (λ (ok', exits). Fails-stmts ret ss (ok' && ok) (flag || exits) (rejected_last ok' ok f))

mutual
  unfolding resolve_stmt

  Silent-stmt : (ret : Option TypeId) (s : Stmt) → Silent accepted (resolve_stmt ret s)
  Silent-stmt ret (Stmt.var_def d) = Silent-plain false (Silent-var_definition d)
  Silent-stmt ret (Stmt.if_then b x) =
      Silent-bind (Silent-resolve_cond b)
        (λ cond t.
          Silent-bind (Silent-in_scope (Silent-block ret x)) (λ (ok, exits) t. Silent-return _)
            (λ (ok, exits) f. Fails-return _ (rejected_last cond ok f)))
        (λ cond f. Fails-bind _ (λ (ok, exits). Fails-return _ (rejected_first cond ok f)))
  Silent-stmt ret (Stmt.if_else b x y) =
      Silent-bind (Silent-resolve_cond b)
        (λ cond t.
          Silent-bind (Silent-in_scope (Silent-block ret x))
            (λ (ok, exits) t.
              Silent-bind (Silent-in_scope (Silent-block ret y))
                (λ (ok', exits') t. Silent-return _)
                (λ (ok', exits') f. Fails-return _ (rejected_last (cond && ok) ok' f)))
            (λ (ok, exits) f. Fails-bind _ (λ (ok', exits').
              Fails-return _ (rejected_first (cond && ok) ok' (rejected_last cond ok f)))))
        (λ cond f. Fails-bind _ (λ (ok, exits). Fails-bind _ (λ (ok', exits').
          Fails-return _ (rejected_first (cond && ok) ok' (rejected_first cond ok f)))))
  Silent-stmt ret (Stmt.while b x) =
      Silent-bind
        (Silent-in_loop (
          Silent-bind (Silent-resolve_cond b)
            (λ cond t. Silent-if_resolved cond (Silent-block ret x))
            (λ cond f. Fails-if_resolved cond _ f)))
        (λ (ok, exits) t. Silent-return _) (λ (ok, exits) f. Fails-return _ f)
  Silent-stmt ret (Stmt.assignment v x) = Silent-plain false (Silent-assignment v x)
  Silent-stmt ret Stmt.return_empty = Silent-plain true (Silent-return_empty ret)
  Silent-stmt ret (Stmt.return_value x) = Silent-plain true (Silent-return_value ret x)
  Silent-stmt ret (Stmt.call name args) = Silent-plain false (Silent-call name args)
  Silent-stmt ret (Stmt.inner x) = Silent-in_scope (Silent-block ret x)
  Silent-stmt ret (Stmt.echo x) =
      Silent-plain false (Silent-test_types (Silent-resolve_exp x) (λ t. Silent-return _))
  Silent-stmt ret Stmt.break = Silent-plain true Silent-jump
  Silent-stmt ret Stmt.continue = Silent-plain true Silent-jump

  pub Silent-block : (ret : Option TypeId) (x : Block) → Silent accepted (resolve_block ret x)
  Silent-block ret (Block.block flag ss) = Silent-stmts ret ss true flag

  Silent-stmts :
      (ret : Option TypeId) (ss : Stmts) (ok flag : Bool)
      → Silent accepted (resolve_stmts ret ss ok flag)
  Silent-stmts ret Stmts.nil ok flag = Silent-return _
  Silent-stmts ret (Stmts.cons s ss) ok flag =
      Silent-bind (Silent-stmt ret s)
        (λ (ok', exits) t. Silent-stmts ret ss (ok' && ok) (flag || exits))
        (λ (ok', exits) f. Fails-stmts ret ss (ok' && ok) (flag || exits) (rejected_first ok' ok f))

-- When `ResolveBlock` accepts a block, no message was logged: each message comes with a rejection.
pub resolve_block-silent :
    (ret : Option TypeId) (x : Block) (c c' : Ctx) (exits : Bool)
    → resolve_block ret x c ≡ some ((true, exits), c')
    → c'.errors ≡ c.errors
resolve_block-silent ret x c c' exits e =
    ensured (λ r c'. accepted r ≡ true → c'.errors ≡ c.errors) (resolve_block ret x c) (true, exits)
      c' ((Silent-block ret x).silent c) e refl
