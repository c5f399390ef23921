-- ===== src/Codegen/Numbering/Locals.antt =====
-- The locals behind a block of src/libmonga/codegen/llvmgen.c, whichever of its branches exit.
use monga.Prelude.{
  ℕ, suc, ◌+◌, take, length, take-append, take-length, Grows, Grows-trans, ◌≤◌, ◌<◌, ◌≡◌, refl, sym,
  ap, ◌∙◌, subst, Bool, true, false, Option, none, some, List, [], ◌∷◌, append-nil, arith,
}
use monga.Codegen.Tree.{Stmt, Block, Stmts, all_paths_exit}
use monga.Codegen.Context.{
  Instr, Gen, G, ◌>>=◌, lift, fresh_label, emit, loops, set_loops, drop_locals,
}
use monga.Codegen.Statements.{
  compile_else, within_loop, compile_statement, compile_block, compile_statements,
}
use monga.Codegen.Numbering.{count, assigned, marked, targets}
use monga.Codegen.Numbering.Emits.{
  Step, Step-label, Ready, Ready-label, Ensures, Ensures-bind, Ensures-weaken, Emits, Emits-return,
  Emits-lift, Emits-label, Emits-branch,
}
use monga.Codegen.Numbering.Values.{Emits-type_ref, Emits-line, Emits-store, Emits-ret}
use monga.Codegen.Numbering.Conversions.{Emits-default_value}
use monga.Codegen.Numbering.Expressions.{Emits-exp, Emits-var, Emits-cond, Emits-call}
use monga.Codegen.Numbering.Statements.{
  in_block, Emits-local, Emits-branch_unless, Emits-jump, Emits-echo,
}

-- What a step leaves alone, whatever labels it takes and marks: of the locals only more.
record Grown (g g' : Gen) : Type 0 where
  labels_grow : g.next_label ≤ g'.next_label
  same_end : g'.loop_end ≡ g.loop_end
  same_check : g'.loop_check ≡ g.loop_check
  scope : Grows g.locals g'.locals

Step-Grown : {p q : List ℕ} {g g' : Gen} → Step p g q g' → Grown g g'
Step-Grown s = record {
  labels_grow = s.labels_grow;
  same_end = s.same_end;
  same_check = s.same_check;
  scope = s.scope;
}

Grown-trans : {a b c : Gen} → Grown a b → Grown b c → Grown a c
Grown-trans {a} {b} {c} f g = record {
  labels_grow = omega (arith, f.labels_grow, g.labels_grow);
  same_end = g.same_end ∙ f.same_end;
  same_check = g.same_check ∙ f.same_check;
  scope = Grows-trans a.locals b.locals c.locals f.scope g.scope;
}

Ready-Grown : {b : ℕ} {g g' : Gen} → Ready b g → Grown g g' → Ready b g'
Ready-Grown h s = record {
  reached = omega (arith, h.reached, s.labels_grow);
  end_taken = λ k e. omega (arith, h.end_taken k (sym s.same_end ∙ e), s.labels_grow);
  check_taken = λ k e. omega (arith, h.check_taken k (sym s.same_check ∙ e), s.labels_grow);
}

record Leaves {A : Type 0} (b : ℕ) (m : G A) : Type 0 where
  leaves : (g : Gen) → Ready b g → Ensures (λ a g'. Grown g g') (m g)

Emits-Leaves : {A : Type 0} {b : ℕ} {p q : List ℕ} {m : G A} → Emits b p m q → Leaves b m
Emits-Leaves {p} {q} {m} h = record {
  leaves = λ g e.
      Ensures-weaken (λ a g'. Step p g q g') (λ a g'. Grown g g') (m g) (h.emits g e)
        (λ a g' s. Step-Grown s);
}

Leaves-bind :
    {A B : Type 0} {b : ℕ} {m : G A} {f : A → G B}
    → Leaves b m
    → ((a : A) → Leaves b (f a))
    → Leaves b (m >>= f)
unfolding ◌>>=◌
Leaves-bind {m} {f} h k = record {
  leaves = λ g e.
      Ensures-bind (λ a g'. Grown g g') (λ c g'. Grown g g') f (m g) (h.leaves g e)
        (λ a g' s.
          Ensures-weaken (λ c g''. Grown g' g'') (λ c g''. Grown g g'') (f a g')
            ((k a).leaves g' (Ready-Grown e s)) (λ c g'' t. Grown-trans s t));
}

-- A step of the numbering and then another step.
Emits-then :
    {A B : Type 0} {b : ℕ} {m : G A} {f : A → G B}
    → Emits b [] m []
    → ((a : A) → Leaves b (f a))
    → Leaves b (m >>= f)
Emits-then h k = Leaves-bind (Emits-Leaves h) k

Leaves-label :
    {B : Type 0} {b : ℕ} {f : Unit {0} → G B} (l : ℕ)
    → ((u : Unit {0}) → Leaves b (f u))
    → Leaves b (emit (Instr.label l) >>= f)
unfolding count
Leaves-label l k = Leaves-bind (Emits-Leaves (Emits-label {p = l ∷ []} {q = []} l (λ n. refl))) k

Leaves-fresh_label :
    {B : Type 0} {b : ℕ} {f : ℕ → G B}
    → ((l : ℕ) → b ≤ l → Leaves (suc l) (f l))
    → Leaves b (fresh_label >>= f)
unfolding fresh_label ◌>>=◌
Leaves-fresh_label {f} h = record {
  leaves = λ g e.
      let g1 = record g { next_label = g.next_label + 1 } in
      Ensures-weaken (λ c g''. Grown g1 g'') (λ c g''. Grown g g'') (f g.next_label g1)
        ((h g.next_label e.reached).leaves g1 (Ready-label e))
        (λ c g'' t. Grown-trans (Step-Grown (Step-label [] g)) t);
}

Leaves-else :
    {b : ℕ} (tx ty : Bool) (l : ℕ) {m : G (Unit {0})}
    → ((b : ℕ) → Leaves b m)
    → Leaves b (compile_else tx ty l m)
unfolding compile_else
Leaves-else true true l h =
    Leaves-label l (λ u. Leaves-bind (h _) (λ u. Emits-Leaves (Emits-return {p = []} _)))
Leaves-else true false l h = Leaves-fresh_label (λ n i. Leaves-label l (λ u.
    Leaves-bind (h _) (λ u.
      Emits-then (Emits-branch n (omega arith)) (λ u. Emits-Leaves (Emits-return {p = []} _)))))
Leaves-else false true l h = Leaves-fresh_label (λ n i.
    Emits-then (Emits-branch n (omega arith))
      (λ u. Leaves-label l (λ u. Leaves-bind (h _) (λ u. Emits-Leaves (Emits-return {p = []} _)))))
Leaves-else false false l h = Leaves-fresh_label (λ n i.
    Emits-then (Emits-branch n (omega arith)) (λ u. Leaves-label l (λ u. Leaves-bind (h _) (λ u.
      Emits-then (Emits-branch n (omega arith))
        (λ u. Leaves-label n (λ u. Emits-Leaves (Emits-return {p = []} _)))))))

Leaves-within_loop :
    {b : ℕ} (end check : ℕ) {m : G (Unit {0})}
    → end < b
    → check < b
    → Leaves b m
    → Leaves b (within_loop end check m)
unfolding within_loop loops set_loops ◌>>=◌
Leaves-within_loop {b} end check {m} h i k = record {
  leaves = λ g e.
      let g1 = record g { loop_end = some end; loop_check = some check } in
      Ensures-bind (λ u g'. Grown g1 g') (λ u g'. Grown g g')
        (λ u. set_loops g.loop_end g.loop_check) (m g1)
        (k.leaves g1 (record {
          reached = e.reached;
          end_taken = λ n same. taken g e n end same h;
          check_taken = λ n same. taken g e n check same i;
        }))
        (λ u g' s. record {
          labels_grow = s.labels_grow;
          same_end = refl;
          same_check = refl;
          scope = s.scope;
        });
}
  where
    taken :
        (g : Gen) (e : Ready b g) (n l : ℕ)
        → ◌≡◌ {A = Option ℕ} (some l) (some n)
        → l < b
        → n < g.next_label
    taken g e n l same h =
        let at : l ≡ n = ap (λ o. elim o [ none ↦ l | some x ↦ x ]) same in
        omega (arith, at, h, e.reached)

in_block-locals :
    {b : ℕ} {m : G (Unit {0})}
    → Leaves b m
    → (g : Gen) → Ready b g
    → Ensures (λ u g'. Grown g g' × (g'.locals ≡ g.locals)) (in_block m g)
unfolding ◌>>=◌ lift drop_locals
in_block-locals {m} h g e =
    Ensures-bind (λ u g'. Grown g g') (λ u g'. Grown g g' × (g'.locals ≡ g.locals))
      (λ u. drop_locals (length g.locals)) (m g) (h.leaves g e) (λ u g' s. dropped g g' s)
  where
    dropped :
        (g g' : Gen)
        → Grown g g'
        → Grown g (record g' { locals = take (length g.locals) g'.locals })
          × (take (length g.locals) g'.locals ≡ g.locals)
    dropped g g' s =
        let (more, grown) = s.scope in
        let same =
          ap (take (length g.locals)) grown
          ∙ take-append (length g.locals) g.locals more (omega arith)
          ∙ take-length g.locals in
        (
          record {
            labels_grow = s.labels_grow;
            same_end = s.same_end;
            same_check = s.same_check;
            scope = ([], same ∙ sym (append-nil g.locals));
          },
          same,
        )

Leaves-scope : {b : ℕ} {m : G (Unit {0})} → Leaves b m → Leaves b (in_block m)
Leaves-scope {m} h = record {
  leaves = λ g e.
      Ensures-weaken (λ u g'. Grown g g' × (g'.locals ≡ g.locals)) (λ u g'. Grown g g')
        (in_block m g) (in_block-locals h g e) (λ u g' (s, same). s);
}

mutual
  unfolding compile_statement assigned marked targets

  Leaves-stmt : {b : ℕ} (s : Stmt) → Leaves b (compile_statement s)
  Leaves-stmt (Stmt.var_def name t) = Emits-then (Emits-local name t) (λ a.
      Emits-then (Emits-type_ref t 0) (λ ref.
        Emits-then (Emits-default_value t)
          (λ v. Emits-then (Emits-store ref a v) (λ u. Emits-Leaves (Emits-return {p = []} _)))))
  Leaves-stmt (Stmt.if_then c x) = Leaves-fresh_label (λ l h. Leaves-fresh_label (λ m i.
      Emits-then (Emits-cond c l m (omega arith) (omega arith)) (λ u. Leaves-label l (λ u.
        Leaves-bind (Leaves-block x) (λ u.
          Emits-then (Emits-branch_unless (all_paths_exit x) m (omega arith))
            (λ u. Leaves-label m (λ u. Emits-Leaves (Emits-return {p = []} _))))))))
  Leaves-stmt (Stmt.if_else c x y) = Leaves-fresh_label (λ l h. Leaves-fresh_label (λ m i.
      Emits-then (Emits-cond c l m (omega arith) (omega arith)) (λ u. Leaves-label l (λ u.
        Leaves-bind (Leaves-block x)
          (λ u. Leaves-else (all_paths_exit x) (all_paths_exit y) m (λ b. Leaves-block y))))))
  Leaves-stmt (Stmt.while c x) = Leaves-fresh_label (λ l h. Leaves-fresh_label (λ m i.
      Leaves-fresh_label (λ n j. Emits-then (Emits-cond c m l (omega arith) (omega arith)) (λ u.
        Leaves-label m (λ u.
          Leaves-bind (Leaves-within_loop l n (omega arith) (omega arith) (Leaves-block x)) (λ u.
            Emits-then (Emits-branch_unless (all_paths_exit x) n (omega arith)) (λ u.
              Leaves-label n (λ u.
                Emits-then (Emits-cond c m l (omega arith) (omega arith))
                  (λ u. Leaves-label l (λ u. Emits-Leaves (Emits-return {p = []} _)))))))))))
  Leaves-stmt (Stmt.assignment v x) = Emits-then (Emits-var v) (λ a.
      Emits-then (Emits-exp x _) (λ w.
        Emits-then (Emits-type_ref _ 0)
          (λ ref. Emits-then (Emits-store ref a w) (λ u. Emits-Leaves (Emits-return {p = []} _)))))
  Leaves-stmt Stmt.return_empty =
      Emits-then (Emits-line _ refl refl refl) (λ u. Emits-Leaves (Emits-return {p = []} _))
  Leaves-stmt (Stmt.return_value x) = Emits-then (Emits-lift _) (λ t.
      Emits-then (Emits-exp x t) (λ v.
        Emits-then (Emits-type_ref t 0)
          (λ ref. Emits-then (Emits-ret ref v) (λ u. Emits-Leaves (Emits-return {p = []} _)))))
  Leaves-stmt (Stmt.call f args) =
      Emits-then (Emits-call f args) (λ v. Emits-Leaves (Emits-return {p = []} _))
  Leaves-stmt (Stmt.inner x) =
      Leaves-bind (Leaves-block x) (λ u. Emits-Leaves (Emits-return {p = []} _))
  Leaves-stmt (Stmt.echo x) =
      Emits-then (Emits-echo x) (λ u. Emits-Leaves (Emits-return {p = []} _))
  Leaves-stmt Stmt.break = Emits-Leaves (Emits-jump {p = []} _ (λ g r. r.end_taken))
  Leaves-stmt Stmt.continue = Emits-Leaves (Emits-jump {p = []} _ (λ g r. r.check_taken))

  Leaves-block : {b : ℕ} (x : Block) → Leaves b (compile_block x)
  Leaves-block (Block.block flag ss) = Leaves-scope (Leaves-stmts ss)

  Leaves-stmts : {b : ℕ} (ss : Stmts) → Leaves b (compile_statements ss)
  Leaves-stmts Stmts.nil = Emits-Leaves (Emits-return {p = []} _)
  Leaves-stmts (Stmts.cons s ss) =
      Leaves-bind (Leaves-stmt s)
        (elim [ true ↦ Emits-Leaves (Emits-return {p = []} _) | false ↦ Leaves-stmts ss ])

-- After any block the locals are those of before it: what the block declares ends with it, on every
-- return, from any context whose labels of the enclosing loop, if there is one, were taken.
pub compile_block-locals :
    (x : Block) (g g' : Gen)
    → ((k : ℕ) → g.loop_end ≡ some k → k < g.next_label)
    → ((k : ℕ) → g.loop_check ≡ some k → k < g.next_label)
    → compile_block x g ≡ some (tt, g')
    → g'.locals ≡ g.locals
unfolding compile_block
compile_block-locals (Block.block flag ss) g g' h i run =
    (subst (Ensures (λ u g'. Grown g g' × (g'.locals ≡ g.locals))) run (
      in_block-locals (Leaves-stmts {b = 0} ss) g
        (record { reached = omega arith; end_taken = h; check_taken = i }))).1
