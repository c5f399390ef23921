-- ===== src/Codegen/Numbering/Values.antt =====
-- The numbering of the steps of src/libmonga/codegen below expressions: values, instructions and
-- conversions.
use monga.Prelude.{
  Grows-refl, ℕ, ◌≤◌, ◌<◌, ◌≡◌, refl, sym, Bool, true, false, Option, List, [], ◌∷◌, ◌++◌,
  if◌then◌else◌, CString, arith,
}
use monga.Ast.{TypeId, FuncId}
use monga.Syntax.{Literal, FuncDef}
use monga.Codegen.Context.{
  TypeRef, Value, Op, Cmp, Conversion, Instr, Gen, emit, literal_id, add_or_get_string_literal_id,
  add_function_dependency, mem_func, find_local, push_local, set_enclosing,
}
use monga.Codegen.Emit.{
  type_to_type_ref, emit_value, emit_store, emit_load, emit_conversion, emit_binop, emit_comparison,
  emit_cond_branch, emit_get_struct_element_ptr, emit_get_array_element_ptr, emit_phi, emit_args,
  emit_ret,
}
use monga.Codegen.Numbering.{hit, count, assigned, marked, targets, rhs_targets}
use monga.Codegen.Numbering.Linked.{Linked-same, Linked-push, mem_func-count}
use monga.Codegen.Numbering.Emits.{
  Step, Step-still, Emits, Emits-bind, Emits-return, Emits-lift, Emits-emit, Emits-assign,
  no_targets,
}

Emits-string_literal :
    {b : ℕ} {p : List ℕ} (s : CString) → Emits b p (add_or_get_string_literal_id s) p
unfolding add_or_get_string_literal_id
Emits-string_literal {p} s = record { emits = λ g e. go g (literal_id g.string_literals s 0).0 }
  where
    go :
        (g : Gen) (found : Bool)
        → Step p g p
            (if found then g else record g { string_literals = g.string_literals ++ s ∷ [] })
    go g true = Step-still p g g refl refl refl refl refl (Grows-refl g.locals) refl (λ h. h)
    go g false =
        Step-still p g _ refl refl refl refl refl (Grows-refl g.locals) refl (Linked-same refl refl)

pub Emits-dependency : {b : ℕ} {p : List ℕ} (f : FuncId) → Emits b p (add_function_dependency f) p
unfolding add_function_dependency
Emits-dependency {p} f = record {
  emits = λ g e.
      go g (mem_func f g.internal_functions) (mem_func f g.function_dependencies)
        (mem_func-count f g.internal_functions) (mem_func-count f g.function_dependencies);
}
  where
    go :
        (g : Gen) (x y : Bool)
        → (x ≡ false → count f g.internal_functions ≡ 0)
        → (y ≡ false → count f g.function_dependencies ≡ 0)
        → Step p g p (
            if x
            then g
            else if y
            then g
            else record g { function_dependencies = g.function_dependencies ++ f ∷ [] })
    go g true y i d = Step-still p g g refl refl refl refl refl (Grows-refl g.locals) refl (λ h. h)
    go g false true i d =
        Step-still p g g refl refl refl refl refl (Grows-refl g.locals) refl (λ h. h)
    go g false false i d =
        Step-still p g _ refl refl refl refl refl (Grows-refl g.locals) refl
          (Linked-push f g (i refl) (d refl))

pub Emits-find_local : {b : ℕ} {p : List ℕ} (name : CString) → Emits b p (find_local name) p
unfolding find_local
Emits-find_local {p} name = record {
  emits = λ g e. Step-still p g g refl refl refl refl refl (Grows-refl g.locals) refl (λ h. h);
}

pub Emits-push_local :
    {b : ℕ} {p : List ℕ} (name : CString) (t : TypeId) (v : Value)
    → Emits b p (push_local name t v) p
unfolding push_local
Emits-push_local {p} name t v = record {
  emits =
      λ g e. Step-still p g _ refl refl refl refl refl (_ ∷ [], refl) refl (Linked-same refl refl);
}

pub Emits-set_enclosing : {b : ℕ} {p : List ℕ} (f : Option FuncDef) → Emits b p (set_enclosing f) p
unfolding set_enclosing
Emits-set_enclosing {p} f = record {
  emits = λ g e.
      Step-still p g _ refl refl refl refl refl (Grows-refl g.locals) refl (Linked-same refl refl);
}

pub Emits-value : {b : ℕ} {p : List ℕ} (v : Value) → Emits b p (emit_value v) p
unfolding emit_value
Emits-value (Value.local n) = Emits-return _
Emits-value (Value.ssa n) = Emits-return _
Emits-value (Value.named_global name) = Emits-return _
Emits-value Value.null = Emits-return _
Emits-value Value.nowhere = Emits-return _
Emits-value (Value.literal (Literal.int n)) = Emits-return _
Emits-value (Value.literal Literal.float) = Emits-return _
Emits-value (Value.literal (Literal.char n)) = Emits-return _
Emits-value (Value.literal (Literal.str bytes)) =
    Emits-bind (Emits-string_literal _) (λ id. Emits-return _)

pub Emits-type_ref :
    {b : ℕ} {p : List ℕ} (t : TypeId) (indir : ℕ) → Emits b p (type_to_type_ref t indir) p
unfolding type_to_type_ref
Emits-type_ref t indir = Emits-lift _

-- A line about operands only.
pub Emits-line :
    {b : ℕ} {p : List ℕ} (i : Instr)
    → assigned i ≡ []
    → marked i ≡ []
    → targets i ≡ []
    → Emits b p (emit i) p
Emits-line i a m t = Emits-emit i a m (λ k h. no_targets k (rw (sym t) h))

pub Emits-store :
    {b : ℕ} {p : List ℕ} (t : TypeRef) (dest src : Value) → Emits b p (emit_store t dest src) p
unfolding emit_store assigned marked targets
Emits-store t dest src =
    Emits-bind (Emits-value src)
      (λ x. Emits-bind (Emits-value dest) (λ y. Emits-line _ refl refl refl))

pub Emits-ret : {b : ℕ} {p : List ℕ} (t : TypeRef) (v : Value) → Emits b p (emit_ret t v) p
unfolding emit_ret assigned marked targets
Emits-ret t v = Emits-bind (Emits-value v) (λ x. Emits-line _ refl refl refl)

pub Emits-load : {b : ℕ} {p : List ℕ} (t : TypeRef) (v : Value) → Emits b p (emit_load t v) p
unfolding emit_load rhs_targets
Emits-load t v = Emits-bind (Emits-value v) (λ x. Emits-assign _ no_targets)

pub Emits-conversion :
    {b : ℕ} {p : List ℕ} (k : Conversion) (t : TypeRef) (v : Value) (dest : TypeRef)
    → Emits b p (emit_conversion k t v dest) p
unfolding emit_conversion rhs_targets
Emits-conversion k t v dest = Emits-bind (Emits-value v) (λ x. Emits-assign _ no_targets)

pub Emits-binop :
    {b : ℕ} {p : List ℕ} (t : TypeRef) (x y : Value) (op : Op) → Emits b p (emit_binop t x y op) p
unfolding emit_binop rhs_targets
Emits-binop t x y op =
    Emits-bind (Emits-value x) (λ a. Emits-bind (Emits-value y) (λ c. Emits-assign _ no_targets))

pub Emits-comparison :
    {b : ℕ} {p : List ℕ} (t : TypeRef) (x y : Value) (cmp : Cmp)
    → Emits b p (emit_comparison t x y cmp) p
unfolding emit_comparison rhs_targets
Emits-comparison t x y cmp =
    Emits-bind (Emits-value x) (λ a. Emits-bind (Emits-value y) (λ c. Emits-assign _ no_targets))

pub Emits-struct_pointer :
    {b : ℕ} {p : List ℕ} (t : TypeRef) (v : Value) (i : ℕ)
    → Emits b p (emit_get_struct_element_ptr t v i) p
unfolding emit_get_struct_element_ptr rhs_targets
Emits-struct_pointer t v i = Emits-bind (Emits-value v) (λ a. Emits-assign _ no_targets)

pub Emits-array_pointer :
    {b : ℕ} {p : List ℕ} (t : TypeRef) (v i : Value)
    → Emits b p (emit_get_array_element_ptr t v i) p
unfolding emit_get_array_element_ptr rhs_targets
Emits-array_pointer t v i =
    Emits-bind (Emits-value v) (λ a. Emits-bind (Emits-value i) (λ c. Emits-assign _ no_targets))

-- A number that occurs among two is below what they are below.
two_below : (b l m k : ℕ) → l < b → m < b → 1 ≤ count k (l ∷ m ∷ []) → k < b
unfolding count hit
two_below b l m k h i e = ground arith

pub Emits-phi :
    {b : ℕ} {p : List ℕ} (t : TypeRef) (l : ℕ) (x : Value) (m : ℕ) (y : Value)
    → l < b
    → m < b
    → Emits b p (emit_phi t l x m y) p
unfolding emit_phi rhs_targets
Emits-phi {b} t l x m y h i =
    Emits-bind (Emits-value x)
      (λ a. Emits-bind (Emits-value y) (λ c. Emits-assign _ (λ k e. two_below b l m k h i e)))

pub Emits-cond_branch :
    {b : ℕ} {p : List ℕ} (v : Value) (l m : ℕ)
    → l < b
    → m < b
    → Emits b p (emit_cond_branch v l m) p
unfolding emit_cond_branch assigned marked targets
Emits-cond_branch {b} v l m h i =
    Emits-bind (Emits-value v) (λ a. Emits-emit _ refl refl (λ k e. two_below b l m k h i e))

pub Emits-args : {b : ℕ} {p : List ℕ} (args : List (TypeId × Value)) → Emits b p (emit_args args) p
unfolding emit_args
Emits-args [] = Emits-return _
Emits-args ((t, v) ∷ args) =
    Emits-bind (Emits-type_ref t 0)
      (λ r. Emits-bind (Emits-value v) (λ a. Emits-bind (Emits-args args) (λ rest. Emits-return _)))
