-- ===== src/Codegen/Numbering/Conversions.antt =====
-- The numbering of conversions and calls (src/libmonga/codegen/llvmgen.c).
use monga.Prelude.{ℕ, refl, Bool, true, false, none, some, List, ◌<◌, ◌==◌, ◌&&◌, ltb, CString}
use monga.Ast.{
  TypeId, TypeDesc, array_desc, alias_desc, record_desc, primitive_desc, special_desc, UnopKind,
  BinopKind, ComparKind,
}
use monga.Syntax.{FuncDef, Literal}
use monga.Sem.Builtins.{t_null, t_string, t_void}
use monga.Sem.Types.{
  Resolved, is_ref_type, is_integer_type, is_floating_point_type, char_code, is_primitive,
}
use monga.Codegen.Context.{TypeRef, Value, Conversion, Rhs, Instr, G, ◌>>◌, return, emit}
use monga.Codegen.Emit.{emit_assign}
use monga.Codegen.Conversions.{
  convert_with, compile_float_to_float, compile_int_to_int, is_char_array, call_runtime,
  make_string, compile_numeric, convert_or, compile_conversion, get_default_value,
}
use monga.Codegen.Expressions.{
  apply_binop, apply_unop, array_size, allocate, finish_exp, emit_call, field_address, branch_on,
}
use monga.Codegen.Numbering.{assigned, marked, targets, rhs_targets}
use monga.Codegen.Numbering.Emits.{
  Emits, Emits-bind, Emits-return, Emits-none, Emits-lift, Emits-if, Emits-fresh_local,
  Emits-assign, no_targets,
}
use monga.Codegen.Numbering.Values.{
  Emits-value, Emits-type_ref, Emits-line, Emits-conversion, Emits-binop, Emits-comparison,
  Emits-struct_pointer, Emits-cond_branch, Emits-args,
}

Emits-convert_with :
    {b : ℕ} {p : List ℕ} (k : Conversion) (t : TypeId) (v : Value) (u : TypeId)
    → Emits b p (convert_with k t v u) p
unfolding convert_with
Emits-convert_with k t v u =
    Emits-bind (Emits-type_ref t 0)
      (λ x. Emits-bind (Emits-type_ref u 0) (λ y. Emits-conversion k x v y))

Emits-float_to_float :
    {b : ℕ} {p : List ℕ} (x : Resolved) (v : Value) (dest : Resolved)
    → Emits b p (compile_float_to_float x v dest) p
unfolding compile_float_to_float
Emits-float_to_float x v dest =
    Emits-bind (Emits-lift _)
      (elim [ none ↦ Emits-return _ | some k ↦ Emits-convert_with k x.id v dest.id ])

Emits-int_to_int :
    {b : ℕ} {p : List ℕ} (x : Resolved) (v : Value) (dest : Resolved)
    → Emits b p (compile_int_to_int x v dest) p
unfolding compile_int_to_int
Emits-int_to_int x v dest = Emits-bind (Emits-lift _) (λ m. Emits-bind (Emits-lift _) (λ n.
    Emits-if (m == n) (Emits-return _) (
      Emits-if (ltb m n) (Emits-convert_with _ x.id v dest.id)
        (Emits-convert_with _ x.id v dest.id))))

pub Emits-char_array : {b : ℕ} {p : List ℕ} (d : TypeDesc) → Emits b p (is_char_array d) p
unfolding is_char_array
Emits-char_array (array_desc inner none) = Emits-none
Emits-char_array (array_desc inner (some u)) = Emits-bind (Emits-lift _) (λ r. Emits-return _)
Emits-char_array (alias_desc name t) = Emits-return _
Emits-char_array (record_desc fields) = Emits-return _
Emits-char_array (primitive_desc code) = Emits-return _
Emits-char_array special_desc = Emits-return _

Emits-call_runtime :
    {b : ℕ} {p : List ℕ} (name : CString) (result t : TypeRef) (v : Value)
    → Emits b p (call_runtime name result t v) p
unfolding call_runtime rhs_targets
Emits-call_runtime name result t v = Emits-bind (Emits-value v) (λ a. Emits-assign _ no_targets)

pub Emits-make_string : {b : ℕ} {p : List ℕ} (v : Value) → Emits b p (make_string v) p
unfolding make_string
Emits-make_string v =
    Emits-bind (Emits-type_ref _ 0)
      (λ x. Emits-bind (Emits-type_ref _ 1) (λ y. Emits-call_runtime _ x y v))

Emits-numeric :
    {b : ℕ} {p : List ℕ} (x : Resolved) (v : Value) (dest : Resolved) {other : G Value}
    → Emits b p other p
    → Emits b p (compile_numeric x v dest other) p
unfolding compile_numeric
Emits-numeric x v dest h =
    Emits-if (is_integer_type x)
      (Emits-if (is_integer_type dest) (Emits-int_to_int x v dest)
        (Emits-convert_with _ x.id v dest.id))
      (Emits-if (is_floating_point_type dest) (Emits-float_to_float x v dest) h)

Emits-convert_or :
    {b : ℕ} {p : List ℕ} (x : Resolved) (v : Value) (dest : Resolved) {other : G Value}
    → Emits b p other p
    → Emits b p (convert_or x v dest other) p
unfolding convert_or
Emits-convert_or x v dest h = Emits-if (x.id == dest.id) (Emits-return _) (
    Emits-if ((x.id == t_null) && is_ref_type dest) (Emits-return _) (
      Emits-bind (Emits-if (dest.id == t_string) (Emits-char_array x.desc) (Emits-return _))
        (elim [ true ↦ Emits-make_string v | false ↦ Emits-numeric x v dest h ])))

pub Emits-compile_conversion :
    {b : ℕ} {p : List ℕ} (t : TypeId) (v : Value) (u : TypeId)
    → Emits b p (compile_conversion t v u) p
unfolding compile_conversion
Emits-compile_conversion t v u = Emits-bind (Emits-lift _) (λ x. Emits-bind (Emits-lift _) (λ dest.
    Emits-convert_or x v dest (
      Emits-if (char_code x.desc)
        (Emits-bind (Emits-lift _) (λ byte. Emits-convert_or byte v dest Emits-none)) Emits-none)))

pub Emits-default_value : {b : ℕ} {p : List ℕ} (t : TypeId) → Emits b p (get_default_value t) p
unfolding get_default_value
Emits-default_value t = Emits-bind (Emits-lift _) (λ r.
    Emits-if (is_floating_point_type r) (Emits-return _) (
      Emits-if (is_primitive r.desc) (Emits-return _)
        (Emits-if (is_ref_type r) (Emits-return _) Emits-none)))

pub Emits-apply_binop :
    {b : ℕ} {p : List ℕ} (ref : TypeRef) (t : TypeId) (k : BinopKind) (x y : Value)
    → Emits b p (apply_binop ref t k x y) p
unfolding apply_binop
Emits-apply_binop ref t k x y = Emits-bind (Emits-lift _) (λ op. Emits-binop ref x y op)

pub Emits-apply_unop :
    {b : ℕ} {p : List ℕ} (k : UnopKind) (t : TypeId) (v : Value) → Emits b p (apply_unop k t v) p
unfolding apply_unop
Emits-apply_unop UnopKind.negative t v = Emits-bind Emits-fresh_local (λ unused.
    Emits-bind (Emits-type_ref t 0) (λ ref. Emits-binop ref (Value.literal (Literal.int 0)) v _))
Emits-apply_unop UnopKind.bitnot t v = Emits-none
Emits-apply_unop UnopKind.len t v = Emits-none

pub Emits-array_size : {b : ℕ} {p : List ℕ} (t : TypeId) (v : Value) → Emits b p (array_size t v) p
unfolding array_size
Emits-array_size t v = Emits-bind (Emits-lift _) (λ size.
    Emits-bind (Emits-type_ref _ 0) (λ ref. Emits-binop ref v (Value.literal (Literal.int size)) _))

pub Emits-allocate : {b : ℕ} {p : List ℕ} (t : TypeId) (v : Value) → Emits b p (allocate t v) p
unfolding allocate
Emits-allocate t v = Emits-bind (Emits-type_ref _ 0) (λ x. Emits-bind (Emits-type_ref _ 1) (λ y.
    Emits-bind (Emits-call_runtime _ y x v)
      (λ a. Emits-bind (Emits-type_ref t 0) (λ ref. Emits-conversion _ y a ref))))

pub Emits-finish_exp :
    {b : ℕ} {p : List ℕ} (t u : TypeId) (v : Value) → Emits b p (finish_exp t u v) p
unfolding finish_exp
Emits-finish_exp t u v = Emits-bind (Emits-lift _) (λ x.
    Emits-bind (Emits-lift _)
      (λ y. Emits-if (x.id == y.id) (Emits-return _) (Emits-compile_conversion _ v _)))

pub Emits-emit_call :
    {b : ℕ} {p : List ℕ} (def : FuncDef) (args : List (TypeId × Value))
    → Emits b p (emit_call def args) p
unfolding emit_call assigned marked targets rhs_targets
Emits-emit_call {b} {p} def args = Emits-bind (Emits-lift _) (λ t.
    Emits-bind (Emits-type_ref t 0)
      (λ ref. Emits-bind (Emits-args args) (λ printed. called ref printed (t == t_void))))
  where
    called :
        (ref : TypeRef) (printed : _) (nothing : Bool)
        → Emits b p
            (elim nothing as (λ x. G Value) [
              | true ↦ do emit (Instr.call ref def.func_name printed); return Value.nowhere
              | false ↦ emit_assign (Rhs.call ref def.func_name printed)
            ])
            p
    called ref printed true = Emits-bind (Emits-line _ refl refl refl) (λ u. Emits-return _)
    called ref printed false = Emits-assign _ no_targets

pub Emits-field_address :
    {b : ℕ} {p : List ℕ} (r : Resolved) (i : ℕ) (v : Value) → Emits b p (field_address r i v) p
unfolding field_address
Emits-field_address r i v = Emits-bind (Emits-type_ref _ 0) (λ ref.
    Emits-bind (Emits-lift _) (λ n. Emits-if (ltb i n) (Emits-struct_pointer ref v i) Emits-none))

pub Emits-branch_on :
    {b : ℕ} {p : List ℕ} (t : TypeId) (k : ComparKind) (x y : Value) (l m : ℕ)
    → l < b
    → m < b
    → Emits b p (branch_on t k x y l m) p
unfolding branch_on
Emits-branch_on t k x y l m h i = Emits-bind (Emits-lift _) (λ cmp.
    Emits-bind (Emits-type_ref t 0)
      (λ ref. Emits-bind (Emits-comparison ref x y cmp) (λ v. Emits-cond_branch v l m h i)))
