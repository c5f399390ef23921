-- ===== src/Codegen/Numbering/Emits.antt =====
-- What a step of src/libmonga/codegen adds to the code: each number of a temporary at most once, and
-- each number of a label once, but for labels that are still to be marked.
use monga.Prelude.{
  Grows, Grows-trans, Grows-refl, ℕ, zero, suc, ◌+◌, ◌≤◌, ◌<◌, ◌≡◌, refl, sym, ap, ◌∙◌, ◌⊎◌, inl,
  inr, Bool, true, false, Option, none, some, List, [], ◌∷◌, ◌++◌, append-nil, append_assoc,
  if◌then◌else◌, arith,
}
use monga.Codegen.Context.{Rhs, Instr, Gen, G, ◌>>=◌, return, lift, fresh_local, fresh_label, emit}
use monga.Codegen.Emit.{emit_assign}
use monga.Codegen.Numbering.Linked.{Linked}
use monga.Codegen.Numbering.{
  hit, count, between, assigned, marked, rhs_targets, targets, collect, count-collect,
  between_append, between_empty, between_single, count_single, hit_same,
}

-- Where the step returns, `P` holds of the result and the context after it.
abbrev pub Ensures : {A : Type 0} → (A → Gen → Type 0) → Option (A × Gen) → Type 0
Ensures P none = Unit
Ensures P (some (a, g)) = P a g

pub Ensures-bind :
    {A B : Type 0} (P : A → Gen → Type 0) (Q : B → Gen → Type 0) (f : A → G B)
    (r : Option (A × Gen))
    → Ensures P r
    → ((a : A) (g : Gen) → P a g → Ensures Q (f a g))
    → Ensures Q (elim r [ none ↦ none | some (a, g) ↦ f a g ])
Ensures-bind P Q f none h k = tt
Ensures-bind P Q f (some (a, g)) h k = k a g h

pub Ensures-weaken :
    {A : Type 0} (P Q : A → Gen → Type 0) (r : Option (A × Gen))
    → Ensures P r
    → ((a : A) (g : Gen) → P a g → Q a g)
    → Ensures Q r
Ensures-weaken P Q none h k = tt
Ensures-weaken P Q (some (a, g)) h k = k a g h

-- From one context to a later one. The labels in `p` were still to be marked before, those in `q`
-- are after.
pub record Step (p : List ℕ) (g : Gen) (q : List ℕ) (g' : Gen) : Type 0 where
  pub more : List Instr
  pub lines : g'.code ≡ g.code ++ more
  pub locals_grow : g.next_local_id ≤ g'.next_local_id
  pub labels_grow : g.next_label ≤ g'.next_label
  pub once : (k : ℕ) → count k (collect assigned more) ≤ between g.next_local_id g'.next_local_id k
  pub marks :
      (k : ℕ)
      → count k (collect marked more) + count k q ≡ between g.next_label g'.next_label k + count k p
  pub bounded : (k : ℕ) → 1 ≤ count k (collect targets more) → k < g'.next_label
  pub same_end : g'.loop_end ≡ g.loop_end
  pub same_check : g'.loop_check ≡ g.loop_check
  pub scope : Grows g.locals g'.locals
  pub same_internal : g'.internal_functions ≡ g.internal_functions
  pub linked : Linked g → Linked g'

-- One step and then another: the lines of the two.
pub Step-append :
    {a b c : Gen} {p q r : List ℕ} (f : Step p a q b) (g : Step q b r c)
    → (s : Step p a r c) × (s.more ≡ f.more ++ g.more)
Step-append {a} {b} {c} {p} {q} {r} f g = (
  record {
    more = f.more ++ g.more;
    lines = g.lines ∙ ap (λ l. l ++ g.more) f.lines ∙ append_assoc a.code f.more g.more;
    locals_grow = omega (arith, f.locals_grow, g.locals_grow);
    labels_grow = omega (arith, f.labels_grow, g.labels_grow);
    once = λ k. omega (
      arith,
      f.once k,
      g.once k,
      count-collect k assigned f.more g.more,
      between_append a.next_local_id b.next_local_id c.next_local_id k f.locals_grow g.locals_grow,
    );
    marks = λ k. omega (
      arith,
      f.marks k,
      g.marks k,
      count-collect k marked f.more g.more,
      between_append a.next_label b.next_label c.next_label k f.labels_grow g.labels_grow,
    );
    bounded = λ k h.
        elim (split (count k (collect targets f.more)) (count k (collect targets g.more))
          (omega (arith, h, count-collect k targets f.more g.more))) [
            | inl i ↦ omega (arith, f.bounded k i, g.labels_grow)
            | inr i ↦ g.bounded k i
          ];
    same_end = g.same_end ∙ f.same_end;
    same_check = g.same_check ∙ f.same_check;
    scope = Grows-trans a.locals b.locals c.locals f.scope g.scope;
    same_internal = g.same_internal ∙ f.same_internal;
    linked = λ h. g.linked (f.linked h);
  },
  refl,
)
  where
    split : (m n : ℕ) → 1 ≤ m + n → (1 ≤ m) ⊎ (1 ≤ n)
    split zero n h = inr (omega arith)
    split (suc m) n h = inl (omega arith)

pub Step-trans : {a b c : Gen} {p q r : List ℕ} → Step p a q b → Step q b r c → Step p a r c
Step-trans f g = (Step-append f g).0

-- One line, with the counters as they stand.
Step-line :
    (g : Gen) (p q : List ℕ) (i : Instr)
    → assigned i ≡ []
    → ((k : ℕ) → count k p ≡ count k (marked i) + count k q)
    → ((k : ℕ) → 1 ≤ count k (targets i) → k < g.next_label)
    → Step p g q (record g { code = g.code ++ i ∷ [] })
unfolding collect count between
Step-line g p q i a m t = record {
  more = i ∷ [];
  lines = refl;
  locals_grow = omega arith;
  labels_grow = omega arith;
  once = λ k. rw (a, count) (omega arith);
  marks = λ k. rw (append-nil (marked i)) (omega (arith, m k, between_empty g.next_label k));
  bounded = λ k h. t k (rw (sym (append-nil (targets i))) h);
  same_end = refl;
  same_check = refl;
  scope = ([], sym (append-nil g.locals));
  same_internal = refl;
  linked = λ h. record { declared_once = h.declared_once; not_defined = h.not_defined };
}

-- A step that adds no line and takes no number.
pub Step-still :
    (p : List ℕ) (g g' : Gen)
    → g'.code ≡ g.code
    → g'.next_local_id ≡ g.next_local_id
    → g'.next_label ≡ g.next_label
    → g'.loop_end ≡ g.loop_end
    → g'.loop_check ≡ g.loop_check
    → Grows g.locals g'.locals
    → g'.internal_functions ≡ g.internal_functions
    → (Linked g → Linked g')
    → Step p g p g'
unfolding collect count
Step-still p g g' c n l e h v i d = record {
  more = [];
  lines = c ∙ sym (append-nil g.code);
  locals_grow = omega (arith, n);
  labels_grow = omega (arith, l);
  once = λ k. omega arith;
  marks = λ k. rw l (omega (arith, between_empty g.next_label k));
  bounded = λ k h. omega (arith, h);
  same_end = e;
  same_check = h;
  scope = v;
  same_internal = i;
  linked = d;
}

-- The bound is reached, and the labels of the enclosing loop were taken.
pub record Ready (b : ℕ) (g : Gen) : Type 0 where
  pub reached : b ≤ g.next_label
  pub end_taken : (k : ℕ) → g.loop_end ≡ some k → k < g.next_label
  pub check_taken : (k : ℕ) → g.loop_check ≡ some k → k < g.next_label

pub Ready-Step : {b : ℕ} {p q : List ℕ} {g g' : Gen} → Ready b g → Step p g q g' → Ready b g'
Ready-Step h s = record {
  reached = omega (arith, h.reached, s.labels_grow);
  end_taken = λ k e. omega (arith, h.end_taken k (sym s.same_end ∙ e), s.labels_grow);
  check_taken = λ k e. omega (arith, h.check_taken k (sym s.same_check ∙ e), s.labels_grow);
}

-- From a context where the labels below `b` were taken, the step marks the labels of `p` but for
-- those of `q`, and all that it takes.
pub record Emits {A : Type 0} (b : ℕ) (p : List ℕ) (m : G A) (q : List ℕ) : Type 0 where
  pub emits : (g : Gen) → Ready b g → Ensures (λ a g'. Step p g q g') (m g)

pub Emits-bind :
    {A B : Type 0} {b : ℕ} {p q r : List ℕ} {m : G A} {f : A → G B}
    → Emits b p m q
    → ((a : A) → Emits b q (f a) r)
    → Emits b p (m >>= f) r
unfolding ◌>>=◌
Emits-bind {b} {p} {q} {r} {m} {f} h k = record {
  emits = λ g e.
      Ensures-bind (λ a g'. Step p g q g') (λ c g'. Step p g r g') f (m g) (h.emits g e)
        (λ a g' s.
          Ensures-weaken (λ c g''. Step q g' r g'') (λ c g''. Step p g r g'') (f a g')
            ((k a).emits g' (Ready-Step e s)) (λ c g'' t. Step-trans s t));
}

pub Emits-return : {A : Type 0} {b : ℕ} {p : List ℕ} (a : A) → Emits b p (return a) p
unfolding return
Emits-return {p} a = record {
  emits = λ g e. Step-still p g g refl refl refl refl refl (Grows-refl g.locals) refl (λ h. h);
}

pub Emits-none : {A : Type 0} {b : ℕ} {p q : List ℕ} → Emits {A = A} b p (λ g. none) q
Emits-none = record { emits = λ g e. tt }

pub Emits-lift : {A : Type 0} {b : ℕ} {p : List ℕ} (f : Gen → Option A) → Emits b p (lift f) p
unfolding lift
Emits-lift {A} {p} f = record { emits = λ g e. go g (f g) }
  where
    go :
        (g : Gen) (o : Option A)
        → Ensures {A = A} (λ a g'. Step p g p g') (elim o [ none ↦ none | some a ↦ some (a, g) ])
    go g none = tt
    go g (some a) = Step-still p g g refl refl refl refl refl (Grows-refl g.locals) refl (λ h. h)

pub Emits-if :
    {A : Type 0} {b : ℕ} {p q : List ℕ} (c : Bool) {x y : G A}
    → Emits b p x q
    → Emits b p y q
    → Emits b p (if c then x else y) q
Emits-if true h k = h
Emits-if false h k = k

-- A line that assigns nothing and marks nothing.
pub Emits-emit :
    {b : ℕ} {p : List ℕ} (i : Instr)
    → assigned i ≡ []
    → marked i ≡ []
    → ((k : ℕ) → 1 ≤ count k (targets i) → k < b)
    → Emits b p (emit i) p
unfolding emit count
Emits-emit {p} i a m t = record {
  emits = λ g e.
      Step-line g p p i a (λ k. rw (m, count) (omega arith))
        (λ k h. omega (arith, t k h, e.reached));
}

-- A label that is still to be marked, wherever it stands among those.
pub Emits-label :
    {b : ℕ} {p q : List ℕ} (l : ℕ)
    → ((k : ℕ) → count k p ≡ hit k l + count k q)
    → Emits b p (emit (Instr.label l)) q
unfolding emit marked assigned targets count
Emits-label {p} {q} l m = record {
  emits = λ g e.
      Step-line g p q (Instr.label l) refl (λ k. omega (arith, m k)) (λ k h. omega (arith, h));
}

pub Emits-branch : {b : ℕ} {p : List ℕ} (l : ℕ) → l < b → Emits b p (emit (Instr.branch l)) p
unfolding assigned marked targets
Emits-branch l h =
    Emits-emit (Instr.branch l) refl refl (λ k e.
      let same = hit_same k l (omega (arith, e, count_single k l)) in omega (arith, h, same))

pub Step-label :
    (p : List ℕ) (g : Gen)
    → Step p g (g.next_label ∷ p) (record g { next_label = g.next_label + 1 })
unfolding collect count
Step-label p g = record {
  more = [];
  lines = sym (append-nil g.code);
  locals_grow = omega arith;
  labels_grow = omega arith;
  once = λ k. omega arith;
  marks = λ k. omega (arith, between_single g.next_label k);
  bounded = λ k h. omega (arith, h);
  same_end = refl;
  same_check = refl;
  scope = ([], sym (append-nil g.locals));
  same_internal = refl;
  linked = λ h. record { declared_once = h.declared_once; not_defined = h.not_defined };
}

pub Ready-label :
    {b : ℕ} {g : Gen}
    → Ready b g
    → Ready (suc g.next_label) (record g { next_label = g.next_label + 1 })
Ready-label e = record {
  reached = omega arith;
  end_taken = λ k i. omega (arith, e.end_taken k i);
  check_taken = λ k i. omega (arith, e.check_taken k i);
}

-- A label is taken, and is still to be marked.
pub Emits-fresh_label :
    {B : Type 0} {b : ℕ} {p r : List ℕ} {f : ℕ → G B}
    → ((l : ℕ) → b ≤ l → Emits (suc l) (l ∷ p) (f l) r)
    → Emits b p (fresh_label >>= f) r
unfolding fresh_label ◌>>=◌
Emits-fresh_label {b} {p} {r} {f} h = record {
  emits = λ g e.
      let s = Step-label p g in
      let g' = record g { next_label = g.next_label + 1 } in
      Ensures-weaken (λ c g''. Step (g.next_label ∷ p) g' r g'') (λ c g''. Step p g r g'')
        (f g.next_label g') ((h g.next_label e.reached).emits g' (Ready-label e))
        (λ c g'' t. Step-trans s t);
}

Step-local : (p : List ℕ) (g : Gen) → Step p g p (record g { next_local_id = g.next_local_id + 1 })
unfolding collect count
Step-local p g = record {
  more = [];
  lines = sym (append-nil g.code);
  locals_grow = omega arith;
  labels_grow = omega arith;
  once = λ k. omega arith;
  marks = λ k. omega (arith, between_empty g.next_label k);
  bounded = λ k h. omega (arith, h);
  same_end = refl;
  same_check = refl;
  scope = ([], sym (append-nil g.locals));
  same_internal = refl;
  linked = λ h. record { declared_once = h.declared_once; not_defined = h.not_defined };
}

-- A number that no line uses.
pub Emits-fresh_local : {b : ℕ} {p : List ℕ} → Emits b p fresh_local p
unfolding fresh_local
Emits-fresh_local {p} = record { emits = λ g e. Step-local p g }

Step-assign :
    (p : List ℕ) (g : Gen) (rhs : Rhs)
    → ((k : ℕ) → 1 ≤ count k (rhs_targets rhs) → k < g.next_label)
    → Step p g p (record g {
      next_local_id = g.next_local_id + 1;
      code = g.code ++ Instr.assign g.next_local_id rhs ∷ [];
    })
unfolding collect count assigned marked targets
Step-assign p g rhs t = record {
  more = Instr.assign g.next_local_id rhs ∷ [];
  lines = refl;
  locals_grow = omega arith;
  labels_grow = omega arith;
  once = λ k. omega (arith, between_single g.next_local_id k);
  marks = λ k. omega (arith, between_empty g.next_label k);
  bounded = λ k h. t k (rw (sym (append-nil (rhs_targets rhs))) h);
  same_end = refl;
  same_check = refl;
  scope = ([], sym (append-nil g.locals));
  same_internal = refl;
  linked = λ h. record { declared_once = h.declared_once; not_defined = h.not_defined };
}

pub Emits-assign :
    {b : ℕ} {p : List ℕ} (rhs : Rhs)
    → ((k : ℕ) → 1 ≤ count k (rhs_targets rhs) → k < b)
    → Emits b p (emit_assign rhs) p
unfolding emit_assign ◌>>=◌ fresh_local emit return
Emits-assign {p} rhs t = record {
  emits = λ g e. Step-assign p g rhs (λ k h. omega (arith, t k h, e.reached));
}

-- An operand is nothing to go to.
pub no_targets : {b : ℕ} (k : ℕ) → 1 ≤ count k [] → k < b
unfolding count
no_targets k h = omega (arith, h)
