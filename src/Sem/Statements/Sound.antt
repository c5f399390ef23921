-- ===== src/Sem/Statements/Sound.antt =====
-- The analysis of a body by `ResolveBlock` of src/libmonga/sem.c, against the runs of the body.
use monga.Prelude.{
  ◌≡◌, ◌≢◌, ◌↔◌, refl, sym, ◌∙◌, Bool, true, false, Option, some, &&-true, ltb, subst, Bool-cases,
  inl, inr,
}
use monga.Ast.{TypeId}
use monga.Syntax.{Stmt, Block, Stmts}
use monga.Sem.State.{Ctx}
use monga.Sem.Frame.{Frame, Ensures}
use monga.Sem.Statements.{resolve_block}
use monga.Sem.Statements.Checked.{contained, contained_block, contained_all}
use monga.Sem.Statements.Exits.{
  Outcome, Runs, RunsBlock, RunsAll, exits_block, fresh_block, exits_block-not_falls,
  falls-exits_block,
}
use monga.Sem.Statements.Returns.{Checks-block, TellsBlock}

-- An outcome that does not leave a loop which is not there.
abbrev pub Settled : Outcome → Type 0
Settled o = (o ≢ Outcome.breaks) × (o ≢ Outcome.continues)

mutual
  unfolding contained

  contained-Settled : {s : Stmt} {o : Outcome} → Runs s o → contained false s ≡ true → Settled o
  contained-Settled Runs.var_def k = (λ e. cc, λ e. cc)
  contained-Settled Runs.assignment k = (λ e. cc, λ e. cc)
  contained-Settled Runs.call k = (λ e. cc, λ e. cc)
  contained-Settled Runs.echo k = (λ e. cc, λ e. cc)
  contained-Settled Runs.skip k = (λ e. cc, λ e. cc)
  contained-Settled (Runs.then_only r) k = contained_block-Settled r k
  contained-Settled (Runs.then_part {x} {y} r) k =
      contained_block-Settled r (&&-true (contained_block false x) (contained_block false y) k).0
  contained-Settled (Runs.else_part {x} {y} r) k =
      contained_block-Settled r (&&-true (contained_block false x) (contained_block false y) k).1
  contained-Settled Runs.done k = (λ e. cc, λ e. cc)
  contained-Settled (Runs.again r h w) k = contained-Settled w k
  contained-Settled (Runs.broken r h) k = (λ e. cc, λ e. cc)
  contained-Settled (Runs.left r h h') k = (λ e. cc, λ e. cc)
  contained-Settled Runs.return_empty k = (λ e. cc, λ e. cc)
  contained-Settled Runs.return_value k = (λ e. cc, λ e. cc)
  contained-Settled (Runs.inner r) k = contained_block-Settled r k
  contained-Settled Runs.break k = cc
  contained-Settled Runs.continue k = cc

  pub contained_block-Settled :
      {x : Block} {o : Outcome} → RunsBlock x o → contained_block false x ≡ true → Settled o
  contained_block-Settled (RunsBlock.block r) k = contained_all-Settled r k

  contained_all-Settled :
      {ss : Stmts} {o : Outcome} → RunsAll ss o → contained_all false ss ≡ true → Settled o
  contained_all-Settled RunsAll.end k = (λ e. cc, λ e. cc)
  contained_all-Settled (RunsAll.next {s} {ss} r rs) k =
      contained_all-Settled rs (&&-true (contained false s) (contained_all false ss) k).1
  contained_all-Settled (RunsAll.stop {s} {ss} r h) k =
      contained-Settled r (&&-true (contained false s) (contained_all false ss) k).0

pub returns_left : (o : Outcome) → o ≢ Outcome.falls → Settled o → o ≡ Outcome.returns
returns_left Outcome.falls h s = absurd (h refl)
returns_left Outcome.returns h s = refl
returns_left Outcome.breaks h s = absurd (s.0 refl)
returns_left Outcome.continues h s = absurd (s.1 refl)

-- What is ensured of a step holds of what it is seen to return.
pub ensured :
    {A : Type 0} (P : A → Ctx → Type 0) (r : Option (A × Ctx)) (a : A) (c : Ctx)
    → Ensures P r
    → r ≡ some (a, c)
    → P a c
ensured P r a c h e = subst (Ensures P) e h

block_tells :
    (ret : Option TypeId) (x : Block) (c c' : Ctx) (r : Bool × Bool)
    → resolve_block ret x c ≡ some (r, c')
    → Frame c c' × TellsBlock (ltb 0 c.loop_level) x r
block_tells ret x c c' r e =
    ensured (λ r c'. Frame c c' × TellsBlock (ltb 0 c.loop_level) x r) (resolve_block ret x c) r c'
      ((Checks-block ret x (ltb 0 c.loop_level) refl).checked c refl) e

-- When `ResolveBlock` returns for a body whose blocks were allocated with their flags false, the flag
-- that it leaves is false exactly if some run of the body reaches the end of the body.
pub resolve_block-falls_iff :
    (ret : Option TypeId) (x : Block) (c c' : Ctx) (ok exits : Bool)
    → fresh_block x ≡ true
    → resolve_block ret x c ≡ some ((ok, exits), c')
    → (exits ≡ false) ↔ RunsBlock x Outcome.falls
resolve_block-falls_iff ret x c c' ok exits f e =
    let told = (block_tells ret x c c' (ok, exits) e).1.0 in
    (
      λ n. falls-exits_block x f (sym told ∙ n),
      λ r. elim (Bool-cases (exits_block x)) [
        | inl t ↦ absurd (exits_block-not_falls r f t refl)
        | inr n ↦ told ∙ n
      ],
    )

-- A body that `ResolveBlock` accepts outside any loop, its blocks allocated with their flags false,
-- and whose flag it leaves true: every run of it that ends, ends in a `return`.
pub resolve_block-returns :
    (ret : Option TypeId) (x : Block) (c c' : Ctx) (o : Outcome)
    → fresh_block x ≡ true
    → c.loop_level ≡ 0
    → resolve_block ret x c ≡ some ((true, true), c')
    → RunsBlock x o
    → o ≡ Outcome.returns
resolve_block-returns ret x c c' o f l e r =
    let (told, kept) = (block_tells ret x c c' (true, true) e).1 in
    returns_left o (exits_block-not_falls r f (sym told))
      (contained_block-Settled r (subst (λ n. contained_block (ltb 0 n) x ≡ true) l (kept refl)))

-- When `ResolveBlock` returns, whatever it answers: the loop level is what it was, the current scope
-- is what it was but for symbols added at its end, and its parents are what they were; no type
-- definition was changed or lost, no function was changed, and the messages that there were are kept,
-- new ones before them.
pub resolve_block-Frame :
    (ret : Option TypeId) (x : Block) (c c' : Ctx) (ok exits : Bool)
    → resolve_block ret x c ≡ some ((ok, exits), c')
    → Frame c c'
resolve_block-Frame ret x c c' ok exits e = (block_tells ret x c c' (ok, exits) e).0
