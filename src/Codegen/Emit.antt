-- ===== src/Codegen/Emit.antt =====
-- src/libmonga/codegen/llvmemit.c: the references to types, and the instructions with their operands.
-- An operation that makes a temporary takes its number before it prints its operands; neither step
-- sees the other, and the model prints the operands first.
use monga.Prelude.{
  ℕ, zero, suc, ◌+◌, true, false, Option, none, some, List, [], ◌∷◌, if◌then◌else◌, ◌==◌, length,
  get_elem?, CString, codes, until_zero,
}
use monga.Ast.{TypeId, TypeDef, array_desc}
use monga.Syntax.{Literal}
use monga.Sem.Types.{Resolved, get_underlying_type, is_ref_type, is_floating_point_type}
use monga.Sem.Types.Layout.{primitive_size_of}
use monga.Codegen.Context.{
  TypeRef, Value, Operand, Op, Cmp, Conversion, Rhs, Instr, G, ◌>>=◌, ◌>>◌, return, lift,
  fresh_local, emit, add_or_get_string_literal_id,
}

abbrev pub builtin_ref : CString → ℕ → TypeRef
builtin_ref name indir = record { ref_name = name; indirection = indir; is_builtin = true }

abbrev pub floating_name : ℕ → Option CString
floating_name size =
    if size == 2
    then some (codes "half")
    else if size == 4
    then some (codes "float")
    else if size == 8
    then some (codes "double")
    else if size == 10
    then some (codes "x86_fp80")
    else if size == 16
    then some (codes "fp128")
    else none

abbrev pub integer_name : ℕ → Option CString
integer_name size =
    if size == 0
    then some (codes "void")
    else if size == 1
    then some (codes "i8")
    else if size == 2
    then some (codes "i16")
    else if size == 4
    then some (codes "i32")
    else if size == 8
    then some (codes "i64")
    else none

abbrev pub name_of : List TypeDef → TypeId → Option CString
name_of s t = elim (get_elem? s t) [ none ↦ none | some d ↦ some d.type_name ]

-- The reference to a type that is no alias and no array.
unfoldable pub scalar_ref : List TypeDef → ℕ → Resolved → Option TypeRef
scalar_ref s indir r =
    if is_ref_type r
    then (elim (name_of s r.id) [
      | none ↦ none
      | some name ↦ some (record { ref_name = name; indirection = indir + 1; is_builtin = false })
    ])
    else (elim (primitive_size_of r.desc) [
      | none ↦ none
      | some size ↦
          elim (if is_floating_point_type r then floating_name size else integer_name size) [
            | none ↦ none
            | some name ↦ some (builtin_ref name indir)
          ]
    ])

-- `TypeToTypeRef`. An array of arrays is followed for as many turns as there are type definitions.
unfoldable pub type_to_type_ref_from : ℕ → List TypeDef → TypeId → ℕ → Option TypeRef
unfolding scalar_ref
type_to_type_ref_from zero s t indir = none
type_to_type_ref_from (suc fuel) s t indir = elim (get_underlying_type s t) [
  | none ↦ none
  | some r ↦ elim r.desc [
    | array_desc inner none ↦ none
    | array_desc inner (some u) ↦ type_to_type_ref_from fuel s u (indir + 1)
    | _ ↦ scalar_ref s indir r
  ]
]

unfoldable pub type_to_type_ref : TypeId → ℕ → G TypeRef
unfolding type_to_type_ref_from
type_to_type_ref t indir = lift (λ g. type_to_type_ref_from (length g.types) g.types t indir)

-- `LlvmEmitValue`. The literals are kept as what `strcmp` reads of them, up to the first zero byte.
unfoldable pub emit_value : Value → G Operand
emit_value (Value.local n) = return (Operand.temp n)
emit_value (Value.ssa n) = return (Operand.argument n)
emit_value (Value.named_global name) = return (Operand.global name)
emit_value Value.null = return Operand.null
emit_value Value.nowhere = return Operand.nowhere
emit_value (Value.literal (Literal.int n)) = return (Operand.integer n)
emit_value (Value.literal Literal.float) = return Operand.real
emit_value (Value.literal (Literal.char n)) = return (Operand.character n)
emit_value (Value.literal (Literal.str bytes)) = do
  id ← add_or_get_string_literal_id (until_zero bytes)
  return (Operand.string (length bytes + 1) id)

-- `%t.n = ...` for the next number.
unfoldable pub emit_assign : Rhs → G Value
emit_assign rhs = do n ← fresh_local; emit (Instr.assign n rhs); return (Value.local n)

-- `LlvmEmitStore`
unfoldable pub emit_store : TypeRef → Value → Value → G (Unit {0})
unfolding emit_value
emit_store t dest src = do a ← emit_value src; b ← emit_value dest; emit (Instr.store t b a)

-- `LlvmEmitLoad`, into a new temporary
unfoldable pub emit_load : TypeRef → Value → G Value
unfolding emit_value emit_assign
emit_load t src = do a ← emit_value src; emit_assign (Rhs.load t a)

-- `CompileNumConversion` and `LlvmEmitBitcast`
unfoldable pub emit_conversion : Conversion → TypeRef → Value → TypeRef → G Value
unfolding emit_value emit_assign
emit_conversion k t v dest = do a ← emit_value v; emit_assign (Rhs.convert k t a dest)

-- `LlvmEmitBinop`
unfoldable pub emit_binop : TypeRef → Value → Value → Op → G Value
unfolding emit_value emit_assign
emit_binop t x y op = do a ← emit_value x; b ← emit_value y; emit_assign (Rhs.binop op t a b)

-- `LlvmEmitComparison`
unfoldable pub emit_comparison : TypeRef → Value → Value → Cmp → G Value
unfolding emit_value emit_assign
emit_comparison t x y cmp = do
  a ← emit_value x
  b ← emit_value y
  emit_assign (Rhs.compare cmp t a b)

-- `LlvmEmitLabel`
abbrev pub emit_label : ℕ → G (Unit {0})
emit_label l = emit (Instr.label l)

-- `LlvmEmitBranch`
abbrev pub emit_branch : ℕ → G (Unit {0})
emit_branch l = emit (Instr.branch l)

-- `LlvmEmitCondBranch`
unfoldable pub emit_cond_branch : Value → ℕ → ℕ → G (Unit {0})
unfolding emit_value
emit_cond_branch v t f = do a ← emit_value v; emit (Instr.cond_branch a t f)

-- `LlvmEmitGetStructElementPtr`
unfoldable pub emit_get_struct_element_ptr : TypeRef → Value → ℕ → G Value
unfolding emit_value emit_assign
emit_get_struct_element_ptr t v i = do a ← emit_value v; emit_assign (Rhs.struct_pointer t a i)

-- `LlvmEmitGetArrayElementPtr`
unfoldable pub emit_get_array_element_ptr : TypeRef → Value → Value → G Value
unfolding emit_value emit_assign
emit_get_array_element_ptr t array i = do
  a ← emit_value array
  b ← emit_value i
  emit_assign (Rhs.array_pointer t a b)

-- `LlvmEmitPhi`
unfoldable pub emit_phi : TypeRef → ℕ → Value → ℕ → Value → G Value
unfolding emit_value emit_assign
emit_phi t l x m y = do a ← emit_value x; b ← emit_value y; emit_assign (Rhs.phi t a l b m)

-- The loop over the arguments: `LlvmCallEmitArg`.
unfoldable pub emit_args : List (TypeId × Value) → G (List (TypeRef × Operand))
unfolding emit_value type_to_type_ref
emit_args [] = return []
emit_args ((t, v) ∷ args) = do
  r ← type_to_type_ref t 0
  a ← emit_value v
  rest ← emit_args args
  return ((r, a) ∷ rest)

-- `LlvmEmitRet`
unfoldable pub emit_ret : TypeRef → Value → G (Unit {0})
unfolding emit_value
emit_ret t v = do a ← emit_value v; emit (Instr.ret t a)
