-- ===== src/Codegen/Numbering/Unmarked.antt =====
-- `CompileIf` of src/libmonga/codegen/llvmgen.c where exactly one branch exits on all paths: it jumps
-- to a label that it takes and never marks.
use monga.Prelude.{
  Grows-refl, ℕ, suc, ◌+◌, ◌≤◌, ◌<◌, ◌≡◌, refl, Bool, true, false, some, List, [], ◌∷◌, ◌++◌, subst,
  arith,
}
use monga.Codegen.Tree.{Stmt, Block, Cond, all_paths_exit}
use monga.Codegen.Context.{Instr, Gen, G, ◌>>=◌, fresh_label, emit}
use monga.Codegen.Statements.{compile_else, compile_statement}
use monga.Codegen.Numbering.{
  hit, count, between, assigned, marked, targets, collect, count-collect, between_empty,
  between_small, hit_self,
}
use monga.Codegen.Numbering.Linked.{Linked-same}
use monga.Codegen.Numbering.Emits.{
  Step, Step-append, Ready, Ready-Step, Ensures, Ensures-bind, Ensures-weaken, Emits, Emits-bind,
  Emits-return, Emits-label, Step-label, Ready-label,
}
use monga.Codegen.Numbering.Expressions.{Emits-cond}
use monga.Codegen.Numbering.Statements.{even_block, same_flags, Emits-block}

-- A step with a jump to the label `n`.
abbrev Jumps : List ℕ → List ℕ → ℕ → Gen → Gen → Type 0
Jumps p q n g g' = (s : Step p g q g') × (1 ≤ count n (collect targets s.more))

Jumps-before :
    {p q r : List ℕ} (n : ℕ) {a b c : Gen} → Step p a q b → Jumps q r n b c → Jumps p r n a c
Jumps-before n f (g, h) =
    let (s, lines) = Step-append f g in
    (s, rw lines (omega (arith, count-collect n targets f.more g.more, h)))

Jumps-after :
    {p q r : List ℕ} (n : ℕ) {a b c : Gen} → Jumps p q n a b → Step q b r c → Jumps p r n a c
Jumps-after n (f, h) g =
    let (s, lines) = Step-append f g in
    (s, rw lines (omega (arith, count-collect n targets f.more g.more, h)))

record Leads {A : Type 0} (b : ℕ) (p q : List ℕ) (n : ℕ) (m : G A) : Type 0 where
  leads : (g : Gen) → Ready b g → Ensures (λ a g'. Jumps p q n g g') (m g)

Leads-before :
    {A B : Type 0} {b n : ℕ} {p q r : List ℕ} {m : G A} {f : A → G B}
    → Emits b p m q
    → ((a : A) → Leads b q r n (f a))
    → Leads b p r n (m >>= f)
unfolding ◌>>=◌
Leads-before {n} {p} {q} {r} {m} {f} h k = record {
  leads = λ g e.
      Ensures-bind (λ a g'. Step p g q g') (λ c g'. Jumps p r n g g') f (m g) (h.emits g e)
        (λ a g' s.
          Ensures-weaken (λ c g''. Jumps q r n g' g'') (λ c g''. Jumps p r n g g'') (f a g')
            ((k a).leads g' (Ready-Step e s)) (λ c g'' t. Jumps-before n s t));
}

Leads-after :
    {A B : Type 0} {b n : ℕ} {p q r : List ℕ} {m : G A} {f : A → G B}
    → Leads b p q n m
    → ((a : A) → Emits b q (f a) r)
    → Leads b p r n (m >>= f)
unfolding ◌>>=◌
Leads-after {n} {p} {q} {r} {m} {f} h k = record {
  leads = λ g e.
      Ensures-bind (λ a g'. Jumps p q n g g') (λ c g'. Jumps p r n g g') f (m g) (h.leads g e)
        (λ a g' (s, j).
          Ensures-weaken (λ c g''. Step q g' r g'') (λ c g''. Jumps p r n g g'') (f a g')
            ((k a).emits g' (Ready-Step e s)) (λ c g'' t. Jumps-after n (s, j) t));
}

Leads-branch : {b : ℕ} {p : List ℕ} (n : ℕ) → n < b → Leads b p p n (emit (Instr.branch n))
unfolding emit collect count hit assigned marked targets
Leads-branch {p} n h = record {
  leads = λ g e. (
    record {
      more = Instr.branch n ∷ [];
      lines = refl;
      locals_grow = omega arith;
      labels_grow = omega arith;
      once = λ k. omega arith;
      marks = λ k. omega (arith, between_empty g.next_label k);
      bounded = λ k i. ground (arith, h, e.reached);
      same_end = refl;
      same_check = refl;
      scope = Grows-refl g.locals;
      same_internal = refl;
      linked = Linked-same refl refl;
    },
    ground arith,
  );
}

-- A step that takes a label, jumps to it and leaves it unmarked, and marks all else.
record Opens {A : Type 0} (b : ℕ) (p : List ℕ) (m : G A) : Type 0 where
  opens : (g : Gen) → Ready b g → Ensures (λ a g'. (n : ℕ) × Jumps p (n ∷ []) n g g') (m g)

Leads-Opens :
    {A : Type 0} {b : ℕ} {p : List ℕ} {m : G A} (n : ℕ) → Leads b p (n ∷ []) n m → Opens b p m
Leads-Opens {p} {m} n h = record {
  opens = λ g e.
      Ensures-weaken (λ a g'. Jumps p (n ∷ []) n g g') (λ a g'. (n : ℕ) × Jumps p (n ∷ []) n g g')
        (m g) (h.leads g e) (λ a g' j. (n, j));
}

Opens-bind :
    {A B : Type 0} {b : ℕ} {p q : List ℕ} {m : G A} {f : A → G B}
    → Emits b p m q
    → ((a : A) → Opens b q (f a))
    → Opens b p (m >>= f)
unfolding ◌>>=◌
Opens-bind {p} {q} {m} {f} h k = record {
  opens = λ g e.
      Ensures-bind (λ a g'. Step p g q g') (λ c g'. (n : ℕ) × Jumps p (n ∷ []) n g g') f (m g)
        (h.emits g e)
        (λ a g' s.
          Ensures-weaken (λ c g''. (n : ℕ) × Jumps q (n ∷ []) n g' g'')
            (λ c g''. (n : ℕ) × Jumps p (n ∷ []) n g g'') (f a g') ((k a).opens g' (Ready-Step e s))
            (λ c g'' (n, t). (n, Jumps-before n s t)));
}

Opens-fresh_label :
    {B : Type 0} {b : ℕ} {p : List ℕ} {f : ℕ → G B}
    → ((l : ℕ) → b ≤ l → Opens (suc l) (l ∷ p) (f l))
    → Opens b p (fresh_label >>= f)
unfolding fresh_label ◌>>=◌
Opens-fresh_label {b} {p} {f} h = record {
  opens = λ g e.
      let s = Step-label p g in
      let g' = record g { next_label = g.next_label + 1 } in
      Ensures-weaken (λ c g''. (n : ℕ) × Jumps (g.next_label ∷ p) (n ∷ []) n g' g'')
        (λ c g''. (n : ℕ) × Jumps p (n ∷ []) n g g'') (f g.next_label g')
        ((h g.next_label e.reached).opens g' (Ready-label e))
        (λ c g'' (n, t). (n, Jumps-before n s t));
}

Opens-else :
    {b : ℕ} (tx ty : Bool) (l : ℕ) {m : G (Unit {0})}
    → same_flags tx ty ≡ false
    → ((b : ℕ) (p : List ℕ) → Emits b p m p)
    → Opens b (l ∷ []) (compile_else tx ty l m)
unfolding compile_else count
Opens-else true true l e h = cc
Opens-else true false l e h = Opens-fresh_label (λ n above. Leads-Opens n (
    Leads-before (Emits-label {q = n ∷ []} l (λ k. omega arith)) (λ u.
      Leads-before (h _ _)
        (λ u. Leads-after (Leads-branch n (omega arith)) (λ u. Emits-return _)))))
Opens-else false true l e h = Opens-fresh_label (λ n above. Leads-Opens n (
    Leads-after (Leads-branch n (omega arith)) (λ u.
      Emits-bind (Emits-label {q = n ∷ []} l (λ k. omega arith))
        (λ u. Emits-bind (h _ _) (λ u. Emits-return _)))))
Opens-else false false l e h = cc

Opens-if :
    {b : ℕ} (c : Cond) (x y : Block)
    → same_flags (all_paths_exit x) (all_paths_exit y) ≡ false
    → even_block x ≡ true
    → even_block y ≡ true
    → Opens b [] (compile_statement (Stmt.if_else c x y))
unfolding compile_statement count
Opens-if c x y flags ex ey = Opens-fresh_label (λ l h. Opens-fresh_label (λ m i.
    Opens-bind (Emits-cond c l m (omega arith) (omega arith)) (λ u.
      Opens-bind (Emits-label {q = m ∷ []} l (λ k. omega arith)) (λ u.
        Opens-bind (Emits-block x ex) (λ u.
          Opens-else (all_paths_exit x) (all_paths_exit y) m flags (λ b p. Emits-block y ey))))))

-- A conditional of which exactly one branch exits on all paths, its branches having no such
-- conditional inside: whenever code for it is made, that code jumps to a label that it does not mark,
-- one of those that it has taken, so that no other code of the function marks it.
pub compile_statement-unmarked :
    (c : Cond) (x y : Block) (g g' : Gen) (returns : Bool)
    → same_flags (all_paths_exit x) (all_paths_exit y) ≡ false
    → even_block x ≡ true
    → even_block y ≡ true
    → ((k : ℕ) → g.loop_end ≡ some k → k < g.next_label)
    → ((k : ℕ) → g.loop_check ≡ some k → k < g.next_label)
    → compile_statement (Stmt.if_else c x y) g ≡ some (returns, g')
    → (n : ℕ) × (more : List Instr) × (g'.code ≡ g.code ++ more)
      × (1 ≤ count n (collect targets more))
      × (count n (collect marked more) ≡ 0)
      × (between g.next_label g'.next_label n ≡ 1)
unfolding count
compile_statement-unmarked c x y g g' returns flags ex ey h i run =
    let (n, (s, j)) = subst (Ensures (λ a g'. (n : ℕ) × Jumps [] (n ∷ []) n g g')) run (
      (Opens-if {b = 0} c x y flags ex ey).opens g
        (record { reached = omega arith; end_taken = h; check_taken = i })) in
    let (none_marked, taken) = unmarked n s in (n, s.more, s.lines, j, none_marked, taken)
  where
    unmarked :
        (n : ℕ) (s : Step [] g (n ∷ []) g')
        → (count n (collect marked s.more) ≡ 0) × (between g.next_label g'.next_label n ≡ 1)
    unmarked n s =
        let small = between_small g.next_label g'.next_label n in
        (omega (arith, s.marks n, small, hit_self n), omega (arith, s.marks n, small, hit_self n))
