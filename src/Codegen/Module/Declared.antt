-- ===== src/Codegen/Module/Declared.antt =====
-- What the functions of a module (src/libmonga/codegen/llvmgen.c, `Mon_GenerateLLVM`) look like, and
-- which ones it declares.
use monga.Prelude.{
  ℕ, ◌≤◌, ◌<◌, ◌≡◌, refl, sym, ap, ◌∙◌, Bool, true, ◌&&◌, &&-true, Option, none, some, List, [],
  ◌∷◌, ◌++◌, append_assoc, append-nil, subst, arith,
}
use monga.Ast.{TypeId, FuncId, TypeDef}
use monga.Syntax.{FuncDef}
use monga.Codegen.Tree.{Block}
use monga.Codegen.Context.{Instr, Gen, ◌>>=◌, ◌>>◌, return, register_internal_function}
use monga.Codegen.Module.{
  Definition, initial_context, register_functions, lines_of, compile_global_var,
  compile_definitions, generate_llvm,
}
use monga.Codegen.Statements.{compile_function_body}
use monga.Codegen.Numbering.{count}
use monga.Codegen.Numbering.Linked.{Linked, Linked-same}
use monga.Codegen.Numbering.Emits.{
  Step, Ready, Ensures, Ensures-bind, Ensures-weaken, Emits, Emits-bind,
}
use monga.Codegen.Numbering.Values.{Emits-type_ref, Emits-value}
use monga.Codegen.Numbering.Conversions.{Emits-default_value}
use monga.Codegen.Numbering.Statements.{even_block}
use monga.Codegen.Numbering.Functions.{
  WellNumbered, reset, function_body-Ensures, Step-WellNumbered,
}

-- The functions with a body, and whether no conditional in them has exactly one exiting branch.
abbrev pub defined : List Definition → List FuncId
defined [] = []
defined (Definition.variable name t ∷ defs) = defined defs
defined (Definition.type_def t ∷ defs) = defined defs
defined (Definition.function f none ∷ defs) = defined defs
defined (Definition.function f (some x) ∷ defs) = f ∷ defined defs

abbrev pub even_bodies : List Definition → Bool
even_bodies [] = true
even_bodies (Definition.variable name t ∷ defs) = even_bodies defs
even_bodies (Definition.type_def t ∷ defs) = even_bodies defs
even_bodies (Definition.function f none ∷ defs) = even_bodies defs
even_bodies (Definition.function f (some x) ∷ defs) = even_block x && even_bodies defs

-- Between the functions: no loop is open, and the dependencies are as they should be.
record Between (fs : List FuncId) (g : Gen) : Type 0 where
  no_end : g.loop_end ≡ none
  no_check : g.loop_check ≡ none
  internal : g.internal_functions ≡ fs
  links : Linked g

Between-code :
    {fs : List FuncId} {g : Gen} {lines : List Instr}
    → Between fs g
    → Between fs (record g { code = lines })
Between-code h = record {
  no_end = h.no_end;
  no_check = h.no_check;
  internal = h.internal;
  links = Linked-same refl refl h.links;
}

Between-Step :
    {fs : List FuncId} {p q : List ℕ} {g g' : Gen} → Between fs g → Step p g q g' → Between fs g'
Between-Step h s = record {
  no_end = s.same_end ∙ h.no_end;
  no_check = s.same_check ∙ h.no_check;
  internal = s.same_internal ∙ h.internal;
  links = s.linked h.links;
}

Between-reset : {fs : List FuncId} {g : Gen} → Between fs g → Between fs (reset g)
Between-reset h = record {
  no_end = h.no_end;
  no_check = h.no_check;
  internal = h.internal;
  links = Linked-same refl refl h.links;
}

-- Every function's lines have it.
abbrev pub AllNumbered : List (FuncId × List Instr) → Type 0
AllNumbered [] = Unit
AllNumbered ((f, lines) ∷ rest) = WellNumbered lines × AllNumbered rest

lines_of-WellNumbered :
    (fs : List FuncId) (f : FuncId) (x : Block) (g : Gen)
    → even_block x ≡ true
    → Between fs g
    → Ensures
        (λ lines g'. WellNumbered lines × Between fs g')
        (lines_of (compile_function_body f x) g)
unfolding lines_of
lines_of-WellNumbered fs f x g e h =
    go (compile_function_body f x (record g { code = [] }))
      (function_body-Ensures f x (record g { code = [] }) e h.no_end h.no_check)
  where
    g0 : Gen
    g0 = reset (record g { code = [] })

    go :
        (r : Option (Unit {0} × Gen))
        → Ensures (λ u g'. Step [] g0 [] g') r
        → Ensures {A = List Instr}
            (λ lines g'. WellNumbered lines × Between fs g')
            (elim r [ none ↦ none | some (u, g') ↦ some (g'.code, record g' { code = [] }) ])
    go none s = tt
    go (some (u, g')) s = (
      subst WellNumbered (sym s.lines) (Step-WellNumbered g0 g' refl refl s),
      Between-code (Between-Step (Between-reset (Between-code h)) s),
    )

Ready-Between : {fs : List FuncId} {g : Gen} → Between fs g → Ready 0 g
Ready-Between {g = g} h = record {
  reached = omega arith;
  end_taken = λ k i. nothing k (sym h.no_end ∙ i);
  check_taken = λ k i. nothing k (sym h.no_check ∙ i);
}
  where
    nothing : {n : ℕ} (k : ℕ) → ◌≡◌ {A = Option ℕ} none (some k) → k < n
    nothing k i = cc

Emits-global_var : {b : ℕ} {p : List ℕ} (t : TypeId) → Emits b p (compile_global_var t) p
unfolding compile_global_var
Emits-global_var t =
    Emits-bind (Emits-type_ref t 0) (λ ref. Emits-bind (Emits-default_value t) (λ v. Emits-value v))

-- The loop over the definitions.
Compiled : List FuncId → List (FuncId × List Instr) → Gen → Type 0
Compiled fs out g = AllNumbered out × Between fs g

compile_definitions-Compiled :
    (fs : List FuncId) (defs : List Definition) (g : Gen)
    → even_bodies defs ≡ true
    → Between fs g
    → Ensures (Compiled fs) (compile_definitions defs g)
unfolding compile_definitions return Compiled ◌>>=◌
compile_definitions-Compiled fs [] g e h = (tt, h)
compile_definitions-Compiled fs (Definition.variable name t ∷ defs) g e h =
    Ensures-bind (λ v g'. Step [] g [] g') (Compiled fs) (λ v. compile_definitions defs)
      (compile_global_var t g) ((Emits-global_var t).emits g (Ready-Between h))
      (λ v g' s. compile_definitions-Compiled fs defs g' e (Between-Step h s))
compile_definitions-Compiled fs (Definition.type_def t ∷ defs) g e h =
    compile_definitions-Compiled fs defs g e h
compile_definitions-Compiled fs (Definition.function f none ∷ defs) g e h =
    compile_definitions-Compiled fs defs g e h
compile_definitions-Compiled fs (Definition.function f (some x) ∷ defs) g e h =
    let (ex, rest) = &&-true (even_block x) (even_bodies defs) e in
    Ensures-bind (λ lines g'. WellNumbered lines × Between fs g') (Compiled fs)
      (λ lines. compile_definitions defs >>= λ rest. return ((f, lines) ∷ rest))
      (lines_of (compile_function_body f x) g) (lines_of-WellNumbered fs f x g ex h)
      (λ lines g' (w, h').
        Ensures-bind (Compiled fs) (Compiled fs) (λ rest. return ((f, lines) ∷ rest))
          (compile_definitions defs g') (compile_definitions-Compiled fs defs g' rest h')
          (λ out g'' (all, last). ((w, all), last)))

-- The functions that are registered, before any code is made.
record Registers (fs : List FuncId) (g : Gen) : Type 0 where
  listed : g.internal_functions ≡ fs
  end_unset : g.loop_end ≡ none
  check_unset : g.loop_check ≡ none
  undeclared : g.function_dependencies ≡ []

register_functions-Registers :
    (defs : List Definition) (fs : List FuncId) (g : Gen)
    → Registers fs g
    → Ensures (λ u g'. Registers (fs ++ defined defs) g') (register_functions defs g)
unfolding register_functions return ◌>>=◌ register_internal_function
register_functions-Registers [] fs g r = record {
  listed = r.listed ∙ sym (append-nil fs);
  end_unset = r.end_unset;
  check_unset = r.check_unset;
  undeclared = r.undeclared;
}
register_functions-Registers (Definition.variable name t ∷ defs) fs g r =
    register_functions-Registers defs fs g r
register_functions-Registers (Definition.type_def t ∷ defs) fs g r =
    register_functions-Registers defs fs g r
register_functions-Registers (Definition.function f none ∷ defs) fs g r =
    register_functions-Registers defs fs g r
register_functions-Registers (Definition.function f (some x) ∷ defs) fs g r =
    let g1 = record g { internal_functions = g.internal_functions ++ f ∷ [] } in
    Ensures-weaken (λ u g'. Registers ((fs ++ f ∷ []) ++ defined defs) g')
      (λ u g'. Registers (fs ++ f ∷ defined defs) g') (register_functions defs g1)
      (register_functions-Registers defs (fs ++ f ∷ []) g1 (record {
        listed = ap (λ l. l ++ f ∷ []) r.listed;
        end_unset = r.end_unset;
        check_unset = r.check_unset;
        undeclared = r.undeclared;
      }))
      (λ u g' s. subst (λ l. Registers l g') (append_assoc fs (f ∷ []) (defined defs)) s)

Registers-Between : {fs : List FuncId} {g : Gen} → Registers fs g → Between fs g
unfolding count
Registers-Between r = record {
  no_end = r.end_unset;
  no_check = r.check_unset;
  internal = r.listed;
  links = record {
    declared_once = λ f. rw r.undeclared (omega arith);
    not_defined = λ f h. rw r.undeclared refl;
  };
}

-- A module is generated, no conditional in its functions having exactly one branch that exits on all
-- paths. Then the lines of each of its functions assign each temporary at most once, mark each label
-- at most once and jump only to labels that they mark; each function stands at most once among those
-- that the module declares, and no function that the module defines does.
pub generate_llvm-AllNumbered :
    (types : List TypeDef) (funcs : List FuncDef) (defs : List Definition)
    (out : List (FuncId × List Instr)) (g : Gen)
    → even_bodies defs ≡ true
    → generate_llvm types funcs defs ≡ some (out, g)
    → AllNumbered out
      × ((f : FuncId) → count f g.function_dependencies ≤ 1)
      × ((f : FuncId) → 1 ≤ count f (defined defs) → count f g.function_dependencies ≡ 0)
unfolding generate_llvm ◌>>=◌ Compiled
generate_llvm-AllNumbered types funcs defs out g e run =
    let (all, h) = subst (Ensures (Compiled (defined defs))) run compiled in
    (
      all,
      h.links.declared_once,
      λ f at. h.links.not_defined f (subst (λ fs. 1 ≤ count f fs) (sym h.internal) at),
    )
  where
    compiled :
        Ensures
          (Compiled (defined defs))
          ((register_functions defs >> compile_definitions defs) (initial_context types funcs))
    compiled =
        Ensures-bind (λ u g'. Registers (defined defs) g') (Compiled (defined defs))
          (λ u. compile_definitions defs) (register_functions defs (initial_context types funcs))
          (register_functions-Registers defs [] (initial_context types funcs)
            (record { listed = refl; end_unset = refl; check_unset = refl; undeclared = refl }))
          (λ u g' r. compile_definitions-Compiled (defined defs) defs g' e (Registers-Between r))
