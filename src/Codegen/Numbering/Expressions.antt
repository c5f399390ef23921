-- ===== src/Codegen/Numbering/Expressions.antt =====
-- The numbering of expressions and conditions (src/libmonga/codegen/llvmgen.c).
use monga.Prelude.{ℕ, suc, ◌+◌, ◌≤◌, ◌<◌, ◌≡◌, refl, Bool, true, false, List, [], ◌∷◌, ◌==◌, arith}
use monga.Ast.{TypeId, FuncId, BinCondKind}
use monga.Syntax.{Param, Literal}
use monga.Codegen.Tree.{Exp, Var, Cond, Exps}
use monga.Codegen.Context.{Value, Instr, G, ◌>>=◌, ◌>>◌, fresh_label, emit}
use monga.Codegen.Expressions.{
  swapped, compile_exp, compile_var, compile_condition, compile_args, compile_call,
}
use monga.Codegen.Numbering.{hit, count}
use monga.Codegen.Numbering.Emits.{
  Emits, Emits-bind, Emits-return, Emits-none, Emits-lift, Emits-if, Emits-label, Emits-branch,
  Emits-fresh_label,
}
use monga.Codegen.Numbering.Values.{
  Emits-dependency, Emits-find_local, Emits-type_ref, Emits-load, Emits-array_pointer, Emits-phi,
}
use monga.Codegen.Numbering.Conversions.{
  Emits-compile_conversion, Emits-apply_binop, Emits-apply_unop, Emits-array_size, Emits-allocate,
  Emits-finish_exp, Emits-emit_call, Emits-field_address, Emits-branch_on,
}

swapped_below : (b : ℕ) (negate : Bool) (l m : ℕ) → l < b → m < b → swapped negate l m < b
swapped_below b true l m h i = i
swapped_below b false l m h i = h

-- One of the arms of a conditional expression: its label, its value, and the two jumps behind it.
Emits-arm :
    {A : Type 0} {b : ℕ} {p q r : List ℕ} (l end : ℕ) {m : G Value} (k : Value → ℕ → G A)
    → ((n : ℕ) → count n p ≡ hit n l + count n q)
    → end < b
    → Emits b q m q
    → ((v : Value) (e : ℕ) → b ≤ e → Emits (suc e) q (k v e) r)
    → Emits b p
        (emit (Instr.label l)
          >> (m >>= λ v. fresh_label >>= λ e.
              emit (Instr.branch e)
              >> (emit (Instr.label e) >> (emit (Instr.branch end) >> k v e))))
        r
unfolding count
Emits-arm l end k c h i j = Emits-bind (Emits-label l c) (λ u. Emits-bind i (λ v.
    Emits-fresh_label (λ e above. Emits-bind (Emits-branch e (omega arith)) (λ u.
      Emits-bind (Emits-label e (λ n. refl))
        (λ u. Emits-bind (Emits-branch end (omega (arith, h, above))) (λ u. j v e above))))))

mutual
  unfolding compile_exp compile_var compile_condition compile_args count

  pub Emits-exp :
      {b : ℕ} {p : List ℕ} (x : Exp) (target : TypeId) → Emits b p (compile_exp x target) p
  Emits-exp {p} (Exp.conditional t c x y) target = Emits-fresh_label (λ l h.
      Emits-fresh_label (λ m i. Emits-fresh_label (λ n j.
        Emits-bind (Emits-cond c l m (omega arith) (omega arith)) (λ u.
          Emits-arm {q = n ∷ m ∷ p} l n _ (λ k. omega arith) (omega arith) (Emits-exp x t)
            (λ v e above.
              Emits-arm {q = n ∷ p} m n _ (λ k. omega arith) (omega arith) (Emits-exp y t)
                (λ w f beyond. Emits-bind (Emits-label n (λ k. refl)) (λ u.
                  Emits-bind (Emits-type_ref t 0) (λ ref.
                    Emits-bind (Emits-phi ref e v f w (omega arith) (omega arith))
                      (λ r. Emits-finish_exp t target r)))))))))
  Emits-exp (Exp.unop t k x) target =
      Emits-bind (Emits-exp x _)
        (λ a. Emits-bind (Emits-apply_unop k _ a) (λ v. Emits-finish_exp t target v))
  Emits-exp (Exp.binop t k x y) target = Emits-bind (Emits-type_ref t 0) (λ ref.
      Emits-bind (Emits-exp x t) (λ a.
        Emits-bind (Emits-exp y t)
          (λ c. Emits-bind (Emits-apply_binop ref t k a c) (λ v. Emits-finish_exp t target v))))
  Emits-exp (Exp.cast t x) target = Emits-bind (Emits-exp x t) (λ v. Emits-finish_exp t target v)
  Emits-exp (Exp.variable t x) target = Emits-bind (Emits-var x) (λ a.
      Emits-bind (Emits-type_ref t 0)
        (λ ref. Emits-bind (Emits-load ref a) (λ v. Emits-finish_exp t target v)))
  Emits-exp (Exp.literal t l) target = Emits-finish_exp t target _
  Emits-exp (Exp.call t f args) target = Emits-bind (Emits-dependency f) (λ u.
      Emits-bind (Emits-lift _) (λ def.
        Emits-bind (Emits-exps args def.params)
          (λ values. Emits-bind (Emits-emit_call def values) (λ v. Emits-finish_exp t target v))))
  Emits-exp (Exp.new_object t) target =
      Emits-bind (Emits-lift _) (λ size. Emits-allocate t (Value.literal (Literal.int size)))
  Emits-exp (Exp.new_array t x) target =
      Emits-bind (Emits-exp x _)
        (λ n. Emits-bind (Emits-array_size t n) (λ size. Emits-allocate t size))
  Emits-exp (Exp.null t) target = Emits-bind (Emits-lift _) (λ u.
      Emits-bind (Emits-lift _)
        (λ x. Emits-if (u.id == x.id) Emits-none (Emits-compile_conversion _ _ _)))

  pub Emits-var : {b : ℕ} {p : List ℕ} (x : Var) → Emits b p (compile_var x) p
  Emits-var (Var.direct t name) = Emits-bind (Emits-find_local name) (λ l. Emits-return _)
  Emits-var (Var.field t x i) =
      Emits-bind (Emits-lift _)
        (λ r. Emits-bind (Emits-exp x r.id) (λ v. Emits-field_address r i v))
  Emits-var (Var.indexed t x i) = Emits-bind (Emits-exp i _) (λ index.
      Emits-bind (Emits-exp x _)
        (λ array. Emits-bind (Emits-type_ref t 0) (λ ref. Emits-array_pointer ref array index)))

  pub Emits-cond :
      {b : ℕ} {p : List ℕ} (c : Cond) (l m : ℕ)
      → l < b
      → m < b
      → Emits b p (compile_condition c l m) p
  Emits-cond {b} (Cond.bin BinCondKind.and negate x y) l m h i =
      let s = swapped_below b negate l m h i in
      let t = swapped_below b negate m l i h in
      Emits-fresh_label (λ n j.
        Emits-bind (Emits-cond x n _ (omega arith) (omega (arith, t, j))) (λ u.
          Emits-bind (Emits-label n (λ k. refl))
            (λ u. Emits-cond y _ _ (omega (arith, s, j)) (omega (arith, t, j)))))
  Emits-cond {b} (Cond.bin BinCondKind.or negate x y) l m h i =
      let s = swapped_below b negate l m h i in
      let t = swapped_below b negate m l i h in
      Emits-fresh_label (λ n j.
        Emits-bind (Emits-cond x _ n (omega (arith, s, j)) (omega arith)) (λ u.
          Emits-bind (Emits-label n (λ k. refl))
            (λ u. Emits-cond y _ _ (omega (arith, s, j)) (omega (arith, t, j)))))
  Emits-cond {b} (Cond.compar k negate x y) l m h i = Emits-bind (Emits-exp x _) (λ a.
      Emits-bind (Emits-exp y _) (λ c.
        Emits-branch_on _ k a c _ _ (swapped_below b negate l m h i)
          (swapped_below b negate m l i h)))

  Emits-exps :
      {b : ℕ} {p : List ℕ} (args : Exps) (params : List Param)
      → Emits b p (compile_args args params) p
  Emits-exps Exps.nil params = Emits-return _
  Emits-exps (Exps.cons x xs) [] = Emits-none
  Emits-exps (Exps.cons x xs) (q ∷ params) = Emits-bind (Emits-lift _) (λ t.
      Emits-bind (Emits-exp x t) (λ v. Emits-bind (Emits-exps xs params) (λ rest. Emits-return _)))

pub Emits-call : {b : ℕ} {p : List ℕ} (f : FuncId) (args : Exps) → Emits b p (compile_call f args) p
unfolding compile_call
Emits-call f args = Emits-bind (Emits-dependency f) (λ u.
    Emits-bind (Emits-lift _)
      (λ def. Emits-bind (Emits-exps args def.params) (λ values. Emits-emit_call def values)))
