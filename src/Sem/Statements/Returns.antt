-- ===== src/Sem/Statements/Returns.antt =====
-- What it means that `ResolveBlock` of src/libmonga/sem.c answers true, and what the flag
-- `allPathsExit` that it leaves means.
use monga.Prelude.{
  Option, ℕ, ◌+◌, ◌≡◌, ◌≢◌, refl, sym, ap, ◌∙◌, Bool, true, false, ◌&&◌, ◌||◌, ltb, if◌then◌else◌,
  arith, &&-true, lt→ltb,
}
use monga.Ast.{TypeId}
use monga.Syntax.{Stmt, Block, Stmts}
use monga.Sem.State.{Ctx, M, ◌>>=◌, return, lift, log_error, reject, Message}
use monga.Sem.Frame.{Frame, Frame-refl, Ensures, Ensures-weaken, Keeps, Keeps-return, Keeps-reject}
use monga.Sem.Frame.Expressions.{Keeps-resolve_exp, Keeps-resolve_cond, Keeps-test_types}
use monga.Sem.Statements.{
  resolve_jump, if_resolved, plain, resolve_stmt, resolve_block, resolve_stmts,
}
use monga.Sem.Statements.Checked.{
  Checks, Checks-bind, Checks-weaken, Checks-return, Checks-keeps, Checks-in_scope, Checks-in_loop,
  contained, contained_block, contained_all, Keeps-var_definition, Keeps-assignment,
  Keeps-return_value, Keeps-return_empty, Keeps-call,
}
use monga.Sem.Statements.Exits.{exits_stmt, exits_block, exits_stmts}

-- The result of a statement, inside a loop or not: its flag, and what its Boolean promises.
abbrev Tells : Bool → Stmt → Bool × Bool → Type 0
Tells loop s (ok, exits) = (exits ≡ exits_stmt s) × (ok ≡ true → contained loop s ≡ true)

abbrev pub TellsBlock : Bool → Block → Bool × Bool → Type 0
TellsBlock loop x (ok, exits) =
    (exits ≡ exits_block x) × (ok ≡ true → contained_block loop x ≡ true)

abbrev TellsAll : Bool → Stmts → Bool → Bool → Bool × Bool → Type 0
TellsAll loop ss ok flag (ok', exits) =
    (exits ≡ exits_stmts flag ss) × (ok' ≡ true → (ok ≡ true) × (contained_all loop ss ≡ true))

Checks-plain :
    {n : ℕ} (loop exits : Bool) {m : M Bool} (s : Stmt)
    → Keeps m
    → exits ≡ exits_stmt s
    → contained loop s ≡ true
    → Checks n (plain exits m) (Tells loop s)
Checks-plain loop exits s h e k = Checks-bind (Checks-keeps h) (λ ok u. Checks-return _ (e, λ t. k))

ltb_suc : (n : ℕ) → ltb 0 (n + 1) ≡ true
ltb_suc n = lt→ltb 0 (n + 1) (omega arith)

-- Both sides of a test that holds are needed for a test of both.
&&-both : (a b : Bool) → a ≡ true → b ≡ true → (a && b) ≡ true
&&-both a b p q = rw (p, q) refl

true≢false : true ≢ false
true≢false = λ e. cc

rejects : (c : Ctx) → Ensures (λ ok c'. Frame c c' × (ok ≡ false)) (reject Message.outside_loop c)
unfolding ◌>>=◌ return log_error
rejects c = ((Keeps-reject Message.outside_loop).framed c, refl)

jump_allowed :
    (c : Ctx) (b loop : Bool)
    → b ≡ loop
    → Ensures
        (λ ok c'. Frame c c' × (ok ≡ true → loop ≡ true))
        ((if b then return true else reject Message.outside_loop) c)
unfolding return
jump_allowed c true loop e = (Frame-refl c, λ t. sym e)
jump_allowed c false loop e =
    Ensures-weaken (λ ok c'. Frame c c' × (ok ≡ false))
      (λ ok c'. Frame c c' × (ok ≡ true → loop ≡ true)) (reject Message.outside_loop c) (rejects c)
      (λ ok c' (g, f). (g, λ t. absurd (true≢false (sym t ∙ f))))

Checks-jump :
    {n : ℕ} (loop : Bool) → ltb 0 n ≡ loop → Checks n resolve_jump (λ ok. ok ≡ true → loop ≡ true)
unfolding resolve_jump ◌>>=◌ lift
Checks-jump loop l = record {
  checked = λ c e. jump_allowed c (ltb 0 c.loop_level) loop (ap (ltb 0) e ∙ l);
}

Checks-if_resolved :
    {n : ℕ} (b : Bool) {m : M (Bool × Bool)} {P : Bool × Bool → Type 0}
    → Checks n m P
    → Checks n (if_resolved b m) (λ (ok, exits). ok ≡ true → P (ok, exits))
Checks-if_resolved false h = Checks-return _ (λ t. cc)
Checks-if_resolved true {P} h = Checks-weaken {P = P} h (λ r p t. p)

mutual
  unfolding resolve_stmt exits_stmt contained

  Checks-stmt :
      {n : ℕ} (ret : Option TypeId) (s : Stmt) (loop : Bool)
      → ltb 0 n ≡ loop
      → Checks n (resolve_stmt ret s) (Tells loop s)
  Checks-stmt ret (Stmt.var_def d) loop l =
      Checks-plain loop false (Stmt.var_def d) (Keeps-var_definition d) refl refl
  Checks-stmt ret (Stmt.if_then b x) loop l =
      Checks-bind (Checks-keeps (Keeps-resolve_cond b)) (λ cond u.
        Checks-bind (Checks-in_scope (Checks-block ret x loop l))
          (λ (ok, exits) (e, k). Checks-return _ (refl, λ t. k (&&-true cond ok t).1)))
  Checks-stmt ret (Stmt.if_else b x y) loop l =
      Checks-bind (Checks-keeps (Keeps-resolve_cond b)) (λ cond u.
        Checks-bind (Checks-in_scope (Checks-block ret x loop l)) (λ (ok, exits) (e, k).
          Checks-bind (Checks-in_scope (Checks-block ret y loop l)) (λ (ok', exits') (e', k').
            Checks-return _ (
              rw (e, e') refl,
              λ t.
                  let (p, v) = &&-true (cond && ok) ok' t in
                  let (q, r) = &&-true cond ok p in &&-both _ _ (k r) (k' v),
            ))))
  Checks-stmt {n} ret (Stmt.while b x) loop l =
      Checks-bind
        (Checks-in_loop (
          Checks-bind (Checks-keeps (Keeps-resolve_cond b))
            (λ cond u. Checks-if_resolved cond (Checks-block ret x true (ltb_suc n)))))
        (λ (ok, exits) k. Checks-return _ (refl, λ t. (k t).1 t))
  Checks-stmt ret (Stmt.assignment v x) loop l =
      Checks-plain loop false (Stmt.assignment v x) (Keeps-assignment v x) refl refl
  Checks-stmt ret Stmt.return_empty loop l =
      Checks-plain loop true Stmt.return_empty (Keeps-return_empty ret) refl refl
  Checks-stmt ret (Stmt.return_value x) loop l =
      Checks-plain loop true (Stmt.return_value x) (Keeps-return_value ret x) refl refl
  Checks-stmt ret (Stmt.call name args) loop l =
      Checks-plain loop false (Stmt.call name args) (Keeps-call name args) refl refl
  Checks-stmt ret (Stmt.inner x) loop l = Checks-in_scope (Checks-block ret x loop l)
  Checks-stmt ret (Stmt.echo x) loop l =
      Checks-plain loop false (Stmt.echo x)
        (Keeps-test_types (Keeps-resolve_exp x) (λ t. Keeps-return _)) refl refl
  Checks-stmt ret Stmt.break loop l =
      Checks-bind (Checks-jump loop l) (λ ok k. Checks-return _ (refl, k))
  Checks-stmt ret Stmt.continue loop l =
      Checks-bind (Checks-jump loop l) (λ ok k. Checks-return _ (refl, k))

  pub Checks-block :
      {n : ℕ} (ret : Option TypeId) (x : Block) (loop : Bool)
      → ltb 0 n ≡ loop
      → Checks n (resolve_block ret x) (TellsBlock loop x)
  Checks-block ret (Block.block flag ss) loop l =
      Checks-weaken (Checks-all ret ss true flag loop l) (λ (ok, exits) (e, k). (e, λ t. (k t).1))

  Checks-all :
      {n : ℕ} (ret : Option TypeId) (ss : Stmts) (ok flag loop : Bool)
      → ltb 0 n ≡ loop
      → Checks n (resolve_stmts ret ss ok flag) (TellsAll loop ss ok flag)
  Checks-all ret Stmts.nil ok flag loop l = Checks-return _ (refl, λ t. (t, refl))
  Checks-all ret (Stmts.cons s ss) ok flag loop l =
      Checks-bind (Checks-stmt ret s loop l) (λ (ok', exits) (e, k).
        Checks-weaken (Checks-all ret ss (ok' && ok) (flag || exits) loop l)
          (λ (done, exits') (e', k'). (
            rw (sym e) e',
            λ t. let (p, q) = k' t in let (r, v) = &&-true ok' ok p in (v, &&-both _ _ (k r) q),
          )))
