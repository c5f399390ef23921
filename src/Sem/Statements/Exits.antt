-- ===== src/Sem/Statements/Exits.antt =====
-- What the flag `allPathsExit` of src/libmonga/sem.c says of the runs of a block.
use monga.Prelude.{
  ◌≡◌, ◌≢◌, ◌⊎◌, inl, inr, refl, Bool, true, false, ◌&&◌, ◌||◌, Bool-cases, &&-true, &&-right,
  ||-false, if-true, CString, if◌then◌else◌,
}
use monga.Syntax.{Exp, Var, Cond, Exps, VarDef, Stmt, Block, Stmts}

-- How control leaves a statement that ends.
pub data Outcome : Type 0 where
  falls returns breaks continues : Outcome

-- The runs of statements, with no say on which way a condition goes.
mutual
  pub data Runs : Stmt → Outcome → Type 0 where
    var_def : {d : VarDef} → Runs (Stmt.var_def d) falls
    assignment : {v : Var} {x : Exp} → Runs (Stmt.assignment v x) falls
    call : {name : CString} {args : Exps} → Runs (Stmt.call name args) falls
    echo : {x : Exp} → Runs (Stmt.echo x) falls
    skip : {b : Cond} {x : Block} → Runs (Stmt.if_then b x) falls
    then_only : {b : Cond} {x : Block} {o : Outcome} → RunsBlock x o → Runs (Stmt.if_then b x) o
    then_part : {b : Cond} {x y : Block} {o : Outcome} → RunsBlock x o → Runs (Stmt.if_else b x y) o
    else_part : {b : Cond} {x y : Block} {o : Outcome} → RunsBlock y o → Runs (Stmt.if_else b x y) o
    done : {b : Cond} {x : Block} → Runs (Stmt.while b x) falls
    again :
        {b : Cond} {x : Block} {o o' : Outcome}
        → RunsBlock x o
        → (o ≡ falls) ⊎ (o ≡ continues)
        → Runs (Stmt.while b x) o'
        → Runs (Stmt.while b x) o'
    broken :
        {b : Cond} {x : Block} {o : Outcome}
        → RunsBlock x o
        → o ≡ breaks
        → Runs (Stmt.while b x) falls
    left :
        {b : Cond} {x : Block} {o o' : Outcome}
        → RunsBlock x o
        → o ≡ returns
        → o' ≡ returns
        → Runs (Stmt.while b x) o'
    return_empty : Runs Stmt.return_empty returns
    return_value : {x : Exp} → Runs (Stmt.return_value x) returns
    inner : {x : Block} {o : Outcome} → RunsBlock x o → Runs (Stmt.inner x) o
    break : Runs Stmt.break breaks
    continue : Runs Stmt.continue continues

  pub data RunsBlock : Block → Outcome → Type 0 where
    block :
        {flag : Bool} {ss : Stmts} {o : Outcome} → RunsAll ss o → RunsBlock (Block.block flag ss) o

  pub data RunsAll : Stmts → Outcome → Type 0 where
    end : RunsAll Stmts.nil falls
    next :
        {s : Stmt} {ss : Stmts} {o : Outcome}
        → Runs s falls
        → RunsAll ss o
        → RunsAll (Stmts.cons s ss) o
    stop :
        {s : Stmt} {ss : Stmts} {o : Outcome} → Runs s o → o ≢ falls → RunsAll (Stmts.cons s ss) o

-- What a statement adds to the flag, and the flag of a block.
unfoldable mutual
  pub exits_stmt : Stmt → Bool
  exits_stmt (Stmt.if_else b x y) = exits_block x && exits_block y
  exits_stmt Stmt.return_empty = true
  exits_stmt (Stmt.return_value x) = true
  exits_stmt (Stmt.inner x) = exits_block x
  exits_stmt Stmt.break = true
  exits_stmt Stmt.continue = true
  exits_stmt (Stmt.var_def d) = false
  exits_stmt (Stmt.if_then b x) = false
  exits_stmt (Stmt.while b x) = false
  exits_stmt (Stmt.assignment v x) = false
  exits_stmt (Stmt.call name args) = false
  exits_stmt (Stmt.echo x) = false

  pub exits_block : Block → Bool
  exits_block (Block.block flag ss) = exits_stmts flag ss

  pub exits_stmts : Bool → Stmts → Bool
  exits_stmts flag Stmts.nil = flag
  exits_stmts flag (Stmts.cons s ss) = exits_stmts (flag || exits_stmt s) ss

-- Every block of the tree was allocated with its flag false.
unfoldable mutual
  pub fresh_stmt : Stmt → Bool
  fresh_stmt (Stmt.if_then b x) = fresh_block x
  fresh_stmt (Stmt.if_else b x y) = fresh_block x && fresh_block y
  fresh_stmt (Stmt.while b x) = fresh_block x
  fresh_stmt (Stmt.inner x) = fresh_block x
  fresh_stmt _ = true

  pub fresh_block : Block → Bool
  fresh_block (Block.block flag ss) = if flag then false else fresh_stmts ss

  pub fresh_stmts : Stmts → Bool
  fresh_stmts Stmts.nil = true
  fresh_stmts (Stmts.cons s ss) = fresh_stmt s && fresh_stmts ss

mutual
  unfolding exits_stmt fresh_stmt

  exits-not_falls :
      {s : Stmt} {o : Outcome} → Runs s o → fresh_stmt s ≡ true → exits_stmt s ≡ true → o ≢ falls
  exits-not_falls (then_part {x} {y} r) f e =
      exits_block-not_falls r (&&-true (fresh_block x) (fresh_block y) f).0
        (&&-true (exits_block x) (exits_block y) e).0
  exits-not_falls (else_part {x} {y} r) f e =
      exits_block-not_falls r (&&-true (fresh_block x) (fresh_block y) f).1
        (&&-true (exits_block x) (exits_block y) e).1
  exits-not_falls (inner r) f e = exits_block-not_falls r f e
  exits-not_falls return_empty f e = λ h. cc
  exits-not_falls return_value f e = λ h. cc
  exits-not_falls break f e = λ h. cc
  exits-not_falls continue f e = λ h. cc
  exits-not_falls var_def f e = cc
  exits-not_falls assignment f e = cc
  exits-not_falls call f e = cc
  exits-not_falls echo f e = cc
  exits-not_falls skip f e = cc
  exits-not_falls (then_only r) f e = cc
  exits-not_falls done f e = cc
  exits-not_falls (again r h w) f e = cc
  exits-not_falls (broken r h) f e = cc
  exits-not_falls (left r h h') f e = cc

  pub exits_block-not_falls :
      {x : Block} {o : Outcome}
      → RunsBlock x o
      → fresh_block x ≡ true
      → exits_block x ≡ true
      → o ≢ falls
  exits_block-not_falls (block {flag} {ss} r) f e =
      let (n, g) = if-true flag (fresh_stmts ss) f in exits_stmts-not_falls r flag n g e

  exits_stmts-not_falls :
      {ss : Stmts} {o : Outcome}
      → RunsAll ss o
      → (flag : Bool) → flag ≡ false
      → fresh_stmts ss ≡ true
      → exits_stmts flag ss ≡ true
      → o ≢ falls
  exits_stmts-not_falls end flag n f e = cc
  exits_stmts-not_falls (stop r h) flag n f e = h
  exits_stmts-not_falls (next {s} {ss} r rs) flag n f e =
      let (g, gs) = &&-true (fresh_stmt s) (fresh_stmts ss) f in
      elim (Bool-cases (exits_stmt s)) [
        | inl x ↦ absurd (exits-not_falls r g x refl)
        | inr x ↦ exits_stmts-not_falls rs (flag || exits_stmt s) (rw (n, x)) gs e
      ]

-- A block whose flag is false has a run that reaches its end.
mutual
  unfolding exits_stmt fresh_stmt

  falls-exits : (s : Stmt) → fresh_stmt s ≡ true → exits_stmt s ≡ false → Runs s falls
  falls-exits (Stmt.var_def d) f e = var_def
  falls-exits (Stmt.if_then b x) f e = skip
  falls-exits (Stmt.if_else b x y) f e =
      let (g, h) = &&-true (fresh_block x) (fresh_block y) f in
      elim (Bool-cases (exits_block x)) [
        | inl t ↦ else_part (falls-exits_block y h (&&-right (exits_block x) (exits_block y) t e))
        | inr n ↦ then_part (falls-exits_block x g n)
      ]
  falls-exits (Stmt.while b x) f e = done
  falls-exits (Stmt.assignment v x) f e = assignment
  falls-exits (Stmt.call name args) f e = call
  falls-exits (Stmt.echo x) f e = echo
  falls-exits (Stmt.inner x) f e = inner (falls-exits_block x f e)
  falls-exits Stmt.return_empty f e = cc
  falls-exits (Stmt.return_value x) f e = cc
  falls-exits Stmt.break f e = cc
  falls-exits Stmt.continue f e = cc

  pub falls-exits_block :
      (x : Block) → fresh_block x ≡ true → exits_block x ≡ false → RunsBlock x falls
  falls-exits_block (Block.block flag ss) f e =
      let (n, g) = if-true flag (fresh_stmts ss) f in block (falls-exits_all ss flag g e).1

  falls-exits_all :
      (ss : Stmts) (flag : Bool)
      → fresh_stmts ss ≡ true
      → exits_stmts flag ss ≡ false
      → (flag ≡ false) × RunsAll ss falls
  falls-exits_all Stmts.nil flag f e = (e, end)
  falls-exits_all (Stmts.cons s ss) flag f e =
      let (g, gs) = &&-true (fresh_stmt s) (fresh_stmts ss) f in
      let (n, r) = falls-exits_all ss (flag || exits_stmt s) gs e in
      let (a, b) = ||-false flag (exits_stmt s) n in (a, next (falls-exits s g b) r)
