-- ===== src/Codegen/Numbering/Statements.antt =====
-- The numbering of statements and functions (src/libmonga/codegen/llvmgen.c): the labels and the
-- temporaries of a function's code.
use monga.Prelude.{
  append-nil, take, length, take-append, take-length, ℕ, suc, ◌<◌, ◌≡◌, refl, sym, ap, ◌∙◌, Bool,
  true, false, not, ◌&&◌, Option, none, some, List, [], ◌∷◌, ◌==◌, &&-true, CString, arith,
}
use monga.Ast.{TypeId}
use monga.Sem.Builtins.{t_string}
use monga.Sem.Types.{Resolved, is_ref_type, is_floating_point_type, is_primitive, char_code}
use monga.Codegen.Tree.{Stmt, Block, Stmts, Exp, all_paths_exit}
use monga.Codegen.Context.{
  TypeRef, Value, Gen, G, ◌>>=◌, ◌>>◌, return, lift, loops, set_loops, drop_locals,
}
use monga.Codegen.Emit.{emit_branch}
use monga.Codegen.Statements.{
  compile_local, call_statement, echo_object, echo_as, echo_string, echo_char, echo_other,
  echo_value, compile_echo, compile_else, branch_unless, within_loop, compile_statement,
  compile_block, compile_statements, local_count,
}
use monga.Codegen.Numbering.{count, assigned, marked, targets, rhs_targets}
use monga.Codegen.Numbering.Linked.{Linked-same}
use monga.Codegen.Numbering.Emits.{
  Step, Ready, Ensures, Ensures-bind, Ensures-weaken, Emits, Emits-bind, Emits-return, Emits-none,
  Emits-lift, Emits-if, Emits-label, Emits-branch, Emits-fresh_label, Emits-assign, no_targets,
}
use monga.Codegen.Numbering.Values.{
  Emits-value, Emits-type_ref, Emits-line, Emits-store, Emits-ret, Emits-conversion,
  Emits-push_local,
}
use monga.Codegen.Numbering.Conversions.{
  Emits-char_array, Emits-make_string, Emits-compile_conversion, Emits-default_value,
}
use monga.Codegen.Numbering.Expressions.{Emits-exp, Emits-var, Emits-cond, Emits-call}

abbrev pub same_flags : Bool → Bool → Bool
same_flags true y = y
same_flags false y = not y

-- Both branches of each conditional exit on all paths, or neither does.
unfoldable mutual
  pub even_exits : Stmt → Bool
  even_exits (Stmt.if_then b x) = even_block x
  even_exits (Stmt.if_else b x y) =
      same_flags (all_paths_exit x) (all_paths_exit y) && even_block x && even_block y
  even_exits (Stmt.while b x) = even_block x
  even_exits (Stmt.inner x) = even_block x
  even_exits _ = true

  pub even_block : Block → Bool
  even_block (Block.block flag ss) = even_stmts ss

  pub even_stmts : Stmts → Bool
  even_stmts Stmts.nil = true
  even_stmts (Stmts.cons s ss) = even_exits s && even_stmts ss

pub Emits-local :
    {b : ℕ} {p : List ℕ} (name : CString) (t : TypeId) → Emits b p (compile_local name t) p
unfolding compile_local rhs_targets
Emits-local name t = Emits-bind (Emits-type_ref t 0) (λ ref.
    Emits-bind (Emits-assign _ no_targets)
      (λ v. Emits-bind (Emits-push_local name t v) (λ u. Emits-return v)))

Emits-call_statement :
    {b : ℕ} {p : List ℕ} (name : CString) (t : TypeRef) (v : Value)
    → Emits b p (call_statement name t v) p
unfolding call_statement assigned marked targets
Emits-call_statement name t v =
    Emits-bind (Emits-type_ref _ 0)
      (λ r. Emits-bind (Emits-value v) (λ a. Emits-line _ refl refl refl))

Emits-echo_other : {b : ℕ} {p : List ℕ} (r : Resolved) (v : Value) → Emits b p (echo_other r v) p
unfolding echo_other echo_object echo_as echo_char
Emits-echo_other r v =
    Emits-if (is_ref_type r)
      (Emits-bind (Emits-type_ref _ 0) (λ t.
        Emits-bind (Emits-type_ref _ 1)
          (λ u. Emits-bind (Emits-conversion _ t v u) (λ a. Emits-call_statement _ u a))))
      (Emits-if (not (is_primitive r.desc)) Emits-none (
        Emits-if (char_code r.desc)
          (Emits-bind (Emits-type_ref _ 0) (λ t. Emits-call_statement _ t v))
          (Emits-if (is_floating_point_type r) (converted _ _) (converted _ _))))
  where
    converted :
        {b : ℕ} {p : List ℕ} (name : CString) (u : TypeId) → Emits b p (echo_as name r.id u v) p
    converted name u =
        Emits-bind (Emits-compile_conversion _ v _)
          (λ w. Emits-bind (Emits-type_ref _ 0) (λ ref. Emits-call_statement _ ref w))

Emits-echo_value :
    {b : ℕ} {p : List ℕ} (r : Resolved) (chars : Bool) (v : Value)
    → Emits b p (echo_value r chars v) p
unfolding echo_value echo_string
Emits-echo_value r chars v =
    Emits-if (r.id == t_string) (Emits-bind (Emits-type_ref _ 0) (λ t. Emits-call_statement _ t v))
      (Emits-if chars
        (Emits-bind (Emits-make_string v)
          (λ a. Emits-bind (Emits-type_ref _ 0) (λ t. Emits-call_statement _ t a)))
        (Emits-echo_other r v))

pub Emits-echo : {b : ℕ} {p : List ℕ} (x : Exp) → Emits b p (compile_echo x) p
unfolding compile_echo
Emits-echo x = Emits-bind (Emits-exp x _) (λ v. Emits-bind (Emits-lift _) (λ r.
    Emits-bind (Emits-if (r.id == t_string) (Emits-return _) (Emits-char_array r.desc))
      (λ chars. Emits-echo_value r chars v)))

Emits-else :
    {b : ℕ} {p : List ℕ} (tx ty : Bool) (l : ℕ) {m : G (Unit {0})}
    → same_flags tx ty ≡ true
    → ((b : ℕ) (p : List ℕ) → Emits b p m p)
    → Emits b (l ∷ p) (compile_else tx ty l m) p
unfolding compile_else even_exits count
Emits-else true true l e h =
    Emits-bind (Emits-label l (λ k. refl)) (λ u. Emits-bind (h _ _) (λ u. Emits-return _))
Emits-else true false l e h = cc
Emits-else false true l e h = cc
Emits-else {p} false false l e h = Emits-fresh_label (λ n above.
    Emits-bind (Emits-branch n (omega arith)) (λ u.
      Emits-bind (Emits-label {q = n ∷ p} l (λ k. omega arith)) (λ u. Emits-bind (h _ _) (λ u.
        Emits-bind (Emits-branch n (omega arith))
          (λ u. Emits-bind (Emits-label n (λ k. refl)) (λ u. Emits-return _))))))

pub Emits-branch_unless :
    {b : ℕ} {p : List ℕ} (exits : Bool) (l : ℕ) → l < b → Emits b p (branch_unless exits l) p
unfolding branch_unless
Emits-branch_unless true l h = Emits-return _
Emits-branch_unless false l h = Emits-branch l h

-- A jump to a label of the enclosing loop.
pub Emits-jump :
    {b : ℕ} {p : List ℕ} (find : Gen → Option ℕ)
    → ((g : Gen) → Ready b g → (k : ℕ) → find g ≡ some k → k < g.next_label)
    → Emits b p (lift find >>= λ l. emit_branch l >> return false) p
unfolding ◌>>=◌ lift
Emits-jump {b} {p} find h = record { emits = λ g e. go g e (find g) (h g e) }
  where
    go :
        (g : Gen) (e : Ready b g) (o : Option ℕ)
        → ((k : ℕ) → o ≡ some k → k < g.next_label)
        → Ensures {A = Bool}
            (λ a g'. Step p g p g')
            (elim (elim o as (λ x. Option (ℕ × Gen)) [ none ↦ none | some l ↦ some (l, g) ]) [
              | none ↦ none
              | some (l, g') ↦ (emit_branch l >> return false) g'
            ])
    go g e none h = tt
    go g e (some l) h =
        (Emits-bind (Emits-branch {b = suc l} l (omega arith)) (λ u. Emits-return false)).emits g
          (record {
            reached = omega (arith, h l refl);
            end_taken = e.end_taken;
            check_taken = e.check_taken;
          })

Emits-within_loop :
    {b : ℕ} {p : List ℕ} (end check : ℕ) {m : G (Unit {0})}
    → end < b
    → check < b
    → Emits b p m p
    → Emits b p (within_loop end check m) p
unfolding within_loop loops set_loops ◌>>=◌
Emits-within_loop {b} {p} end check {m} h i k = record {
  emits = λ g e.
      let g1 = record g { loop_end = some end; loop_check = some check } in
      Ensures-bind (λ u g'. Step p g1 p g') (λ u g'. Step p g p g')
        (λ u. set_loops g.loop_end g.loop_check) (m g1)
        (k.emits g1 (record {
          reached = e.reached;
          end_taken = λ n same. taken g e n end same h;
          check_taken = λ n same. taken g e n check same i;
        }))
        (λ u g' s. record {
          more = s.more;
          lines = s.lines;
          locals_grow = s.locals_grow;
          labels_grow = s.labels_grow;
          once = s.once;
          marks = s.marks;
          bounded = s.bounded;
          same_end = refl;
          same_check = refl;
          scope = s.scope;
          same_internal = s.same_internal;
          linked = λ h. Linked-same refl refl (s.linked (Linked-same refl refl h));
        });
}
  where
    taken :
        (g : Gen) (e : Ready b g) (n l : ℕ)
        → ◌≡◌ {A = Option ℕ} (some l) (some n)
        → l < b
        → n < g.next_label
    taken g e n l same h =
        let at : l ≡ n = ap (λ o. elim o [ none ↦ l | some x ↦ x ]) same in
        omega (arith, at, h, e.reached)

-- A block: the locals that its statements add are gone behind it.
Step-scope :
    (p q : List ℕ) (g g' : Gen)
    → Step p g q g'
    → Step p g q (record g' { locals = take (length g.locals) g'.locals })
      × (take (length g.locals) g'.locals ≡ g.locals)
Step-scope p q g g' s =
    let (more, grown) = s.scope in
    let same =
      ap (take (length g.locals)) grown
      ∙ take-append (length g.locals) g.locals more (omega arith)
      ∙ take-length g.locals in
    (
      record {
        more = s.more;
        lines = s.lines;
        locals_grow = s.locals_grow;
        labels_grow = s.labels_grow;
        once = s.once;
        marks = s.marks;
        bounded = s.bounded;
        same_end = s.same_end;
        same_check = s.same_check;
        scope = ([], same ∙ sym (append-nil g.locals));
        same_internal = s.same_internal;
        linked = λ h. Linked-same refl refl (s.linked h);
      },
      same,
    )

-- The statements of a block, with what is done around them.
abbrev pub in_block : G (Unit {0}) → G (Unit {0})
in_block m = do top ← local_count; m; drop_locals top

in_block-Ensures :
    {b : ℕ} {p q : List ℕ} {m : G (Unit {0})}
    → Emits b p m q
    → (g : Gen) → Ready b g
    → Ensures (λ u g'. Step p g q g' × (g'.locals ≡ g.locals)) (in_block m g)
unfolding ◌>>=◌ lift drop_locals
in_block-Ensures {b} {p} {q} {m} h g e =
    Ensures-bind (λ u g'. Step p g q g') (λ u g'. Step p g q g' × (g'.locals ≡ g.locals))
      (λ u. drop_locals (length g.locals)) (m g) (h.emits g e) (λ u g' s. Step-scope p q g g' s)

Emits-scope : {b : ℕ} {p q : List ℕ} {m : G (Unit {0})} → Emits b p m q → Emits b p (in_block m) q
Emits-scope {p} {q} {m} h = record {
  emits = λ g e.
      Ensures-weaken (λ u g'. Step p g q g' × (g'.locals ≡ g.locals)) (λ u g'. Step p g q g')
        (in_block m g) (in_block-Ensures h g e) (λ u g' (s, same). s);
}

mutual
  unfolding compile_statement even_exits count assigned marked targets

  pub Emits-stmt :
      {b : ℕ} {p : List ℕ} (s : Stmt) → even_exits s ≡ true → Emits b p (compile_statement s) p
  Emits-stmt (Stmt.var_def name t) e = Emits-bind (Emits-local name t) (λ a.
      Emits-bind (Emits-type_ref t 0) (λ ref.
        Emits-bind (Emits-default_value t)
          (λ v. Emits-bind (Emits-store ref a v) (λ u. Emits-return _))))
  Emits-stmt {p} (Stmt.if_then c x) e = Emits-fresh_label (λ l h. Emits-fresh_label (λ m i.
      Emits-bind (Emits-cond c l m (omega arith) (omega arith)) (λ u.
        Emits-bind (Emits-label {q = m ∷ p} l (λ k. omega arith)) (λ u.
          Emits-bind (Emits-block x e) (λ u.
            Emits-bind (Emits-branch_unless (all_paths_exit x) m (omega arith))
              (λ u. Emits-bind (Emits-label m (λ k. refl)) (λ u. Emits-return _)))))))
  Emits-stmt {p} (Stmt.if_else c x y) e =
      let (both, ey) =
        &&-true (same_flags (all_paths_exit x) (all_paths_exit y) && even_block x) (even_block y)
          e in
      let (flags, ex) =
        &&-true (same_flags (all_paths_exit x) (all_paths_exit y)) (even_block x) both in
      Emits-fresh_label (λ l h. Emits-fresh_label (λ m i.
        Emits-bind (Emits-cond c l m (omega arith) (omega arith)) (λ u.
          Emits-bind (Emits-label {q = m ∷ p} l (λ k. omega arith)) (λ u.
            Emits-bind (Emits-block x ex) (λ u.
              Emits-else (all_paths_exit x) (all_paths_exit y) m flags
                (λ b p. Emits-block y ey))))))
  Emits-stmt {p} (Stmt.while c x) e = Emits-fresh_label (λ l h. Emits-fresh_label (λ m i.
      Emits-fresh_label (λ n j. Emits-bind (Emits-cond c m l (omega arith) (omega arith)) (λ u.
        Emits-bind (Emits-label {q = n ∷ l ∷ p} m (λ k. omega arith)) (λ u.
          Emits-bind (Emits-within_loop l n (omega arith) (omega arith) (Emits-block x e)) (λ u.
            Emits-bind (Emits-branch_unless (all_paths_exit x) n (omega arith)) (λ u.
              Emits-bind (Emits-label {q = l ∷ p} n (λ k. omega arith)) (λ u.
                Emits-bind (Emits-cond c m l (omega arith) (omega arith))
                  (λ u. Emits-bind (Emits-label l (λ k. refl)) (λ u. Emits-return _))))))))))
  Emits-stmt (Stmt.assignment v x) e = Emits-bind (Emits-var v) (λ a.
      Emits-bind (Emits-exp x _) (λ w.
        Emits-bind (Emits-type_ref _ 0)
          (λ ref. Emits-bind (Emits-store ref a w) (λ u. Emits-return _))))
  Emits-stmt Stmt.return_empty e = Emits-bind (Emits-line _ refl refl refl) (λ u. Emits-return _)
  Emits-stmt (Stmt.return_value x) e = Emits-bind (Emits-lift _) (λ t.
      Emits-bind (Emits-exp x t) (λ v.
        Emits-bind (Emits-type_ref t 0)
          (λ ref. Emits-bind (Emits-ret ref v) (λ u. Emits-return _))))
  Emits-stmt (Stmt.call f args) e = Emits-bind (Emits-call f args) (λ v. Emits-return _)
  Emits-stmt (Stmt.inner x) e = Emits-bind (Emits-block x e) (λ u. Emits-return _)
  Emits-stmt (Stmt.echo x) e = Emits-bind (Emits-echo x) (λ u. Emits-return _)
  Emits-stmt Stmt.break e = Emits-jump _ (λ g r. r.end_taken)
  Emits-stmt Stmt.continue e = Emits-jump _ (λ g r. r.check_taken)

  pub Emits-block :
      {b : ℕ} {p : List ℕ} (x : Block) → even_block x ≡ true → Emits b p (compile_block x) p
  Emits-block (Block.block flag ss) e = Emits-scope (Emits-stmts ss e)

  Emits-stmts :
      {b : ℕ} {p : List ℕ} (ss : Stmts) → even_stmts ss ≡ true → Emits b p (compile_statements ss) p
  Emits-stmts Stmts.nil e = Emits-return _
  Emits-stmts (Stmts.cons s ss) e =
      let (u, v) = &&-true (even_exits s) (even_stmts ss) e in
      Emits-bind (Emits-stmt s u) (elim [ true ↦ Emits-return _ | false ↦ Emits-stmts ss v ])
