-- ===== src/Codegen/Numbering/Functions.antt =====
-- The labels and the temporaries of a function's code (src/libmonga/codegen/llvmgen.c).
use monga.Prelude.{
  ℕ, suc, ◌+◌, ◌≤◌, ◌<◌, ◌≡◌, refl, sym, ◌∙◌, Bool, true, false, not, ◌&&◌, Option, none, some,
  List, [], ◌∷◌, ◌++◌, ◌==◌, get_elem?, subst, arith,
}
use monga.Ast.{TypeId, FuncId}
use monga.Syntax.{Param, FuncDef}
use monga.Sem.Builtins.{t_void}
use monga.Codegen.Tree.{Block, all_paths_exit}
use monga.Codegen.Context.{Value, Instr, Gen, ◌>>=◌, ◌>>◌, lift, reset_block_context, set_enclosing}
use monga.Codegen.Statements.{
  compile_params, compile_init, compile_end, compile_block, compile_function_body,
}
use monga.Codegen.Numbering.{count, between, assigned, marked, targets, collect, between_small}
use monga.Codegen.Numbering.Emits.{
  Step, Ensures, Emits, Emits-bind, Emits-return, Emits-lift, Emits-if,
}
use monga.Codegen.Numbering.Values.{Emits-type_ref, Emits-line, Emits-store, Emits-set_enclosing}
use monga.Codegen.Numbering.Statements.{even_block, Emits-local, Emits-block}

-- Each temporary is assigned at most once, each label is marked at most once, and each label that is
-- jumped to is marked.
pub record WellNumbered (code : List Instr) : Type 0 where
  pub assigned_once : (k : ℕ) → count k (collect assigned code) ≤ 1
  pub marked_once : (k : ℕ) → count k (collect marked code) ≤ 1
  pub jumps_land : (k : ℕ) → 1 ≤ count k (collect targets code) → count k (collect marked code) ≡ 1

Emits-params :
    {b : ℕ} {p : List ℕ} (params : List Param) (i : ℕ) → Emits b p (compile_params params i) p
unfolding compile_params
Emits-params [] i = Emits-return _
Emits-params (q ∷ params) i = Emits-bind (Emits-lift _) (λ t.
    Emits-bind (Emits-local q.name t) (λ v.
      Emits-bind (Emits-type_ref t 0)
        (λ ref. Emits-bind (Emits-store ref v (Value.ssa i)) (λ u. Emits-params params (suc i)))))

Emits-init : {b : ℕ} {p : List ℕ} (entry : Bool) → Emits b p (compile_init entry) p
unfolding compile_init assigned marked targets
Emits-init false = Emits-return _
Emits-init true = Emits-line _ refl refl refl

Emits-end :
    {b : ℕ} {p : List ℕ} (t : Option TypeId) (exits : Bool) → Emits b p (compile_end t exits) p
unfolding compile_end assigned marked targets
Emits-end none exits = Emits-return _
Emits-end (some t) exits =
    Emits-if ((t == t_void) && not exits) (Emits-line _ refl refl refl) (Emits-return _)

-- What follows the reset of the counters.
Emits-body :
    {b : ℕ} {p : List ℕ} (def : FuncDef) (x : Block)
    → even_block x ≡ true
    → Emits b p
        (do
          compile_params def.params 0
          compile_init def.is_entry_point
          set_enclosing (some def)
          compile_block x
          set_enclosing none
          compile_end def.return_type (all_paths_exit x))
        p
Emits-body def x e = Emits-bind (Emits-params def.params 0) (λ u.
    Emits-bind (Emits-init def.is_entry_point) (λ u. Emits-bind (Emits-set_enclosing _) (λ u.
      Emits-bind (Emits-block x e)
        (λ u. Emits-bind (Emits-set_enclosing _) (λ u. Emits-end def.return_type _)))))

between_below : (n k : ℕ) → k < n → between 0 n k ≡ 1
unfolding between
between_below n k h = ground arith

pub Step-WellNumbered :
    (g g' : Gen)
    → g.next_local_id ≡ 0
    → g.next_label ≡ 0
    → (s : Step [] g [] g') → WellNumbered s.more
unfolding count
Step-WellNumbered g g' n l s = record {
  assigned_once = λ k. omega (
    arith,
    subst (λ m. count k (collect assigned s.more) ≤ between m g'.next_local_id k) n (s.once k),
    between_small 0 g'.next_local_id k,
  );
  marked_once = λ k. omega (arith, exactly k, between_small 0 g'.next_label k);
  jumps_land = λ k h. omega (arith, exactly k, between_below g'.next_label k (s.bounded k h));
}
  where
    exactly : (k : ℕ) → count k (collect marked s.more) ≡ between 0 g'.next_label k
    exactly k = omega (
      arith,
      subst (λ m. count k (collect marked s.more) + 0 ≡ between m g'.next_label k + 0) l
          (s.marks k),
    )

-- The counters as `ResetBlockContext` leaves them.
abbrev pub reset : Gen → Gen
reset g = record g { next_local_id = 0; next_label = 0; locals = [] }

pub function_body-Ensures :
    (f : FuncId) (x : Block) (g : Gen)
    → even_block x ≡ true
    → g.loop_end ≡ none
    → g.loop_check ≡ none
    → Ensures (λ u g'. Step [] (reset g) [] g') (compile_function_body f x g)
unfolding compile_function_body ◌>>=◌ lift reset_block_context
function_body-Ensures f x g e no_end no_check = go (get_elem? g.funcs f)
  where
    nothing : (k : ℕ) → ◌≡◌ {A = Option ℕ} none (some k) → k < 0
    nothing k i = cc

    go :
        (o : Option FuncDef)
        → Ensures
            (λ u g'. Step [] (reset g) [] g')
            (elim (elim o as (λ d. Option (FuncDef × Gen)) [ none ↦ none | some d ↦ some (d, g) ]) [
              | none ↦ none
              | some (def, g) ↦
                  (do
                    reset_block_context
                    compile_params def.params 0
                    compile_init def.is_entry_point
                    set_enclosing (some def)
                    compile_block x
                    set_enclosing none
                    compile_end def.return_type (all_paths_exit x))
                    g
            ])
    go none = tt
    go (some def) = (Emits-body {b = 0} def x e).emits (reset g) (record {
      reached = omega arith;
      end_taken = λ k i. nothing k (sym no_end ∙ i);
      check_taken = λ k i. nothing k (sym no_check ∙ i);
    })

-- Where no conditional of the function's body has exactly one branch that exits on all paths, the
-- lines that `CompileFunctionImpl` writes between the braces, from a context outside loops, assign
-- each temporary at most once and mark each label at most once, and every label that a line jumps
-- to, or that a phi names, is marked there.
pub compile_function_body-WellNumbered :
    (f : FuncId) (x : Block) (g g' : Gen)
    → even_block x ≡ true
    → g.loop_end ≡ none
    → g.loop_check ≡ none
    → compile_function_body f x g ≡ some (tt, g')
    → (more : List Instr) × (g'.code ≡ g.code ++ more) × WellNumbered more
compile_function_body-WellNumbered f x g g' e no_end no_check run =
    let s : Step [] (reset g) [] g' =
      subst (Ensures (λ u g'. Step [] (reset g) [] g')) run
        (function_body-Ensures f x g e no_end no_check) in
    (s.more, s.lines, Step-WellNumbered (reset g) g' refl refl s)
