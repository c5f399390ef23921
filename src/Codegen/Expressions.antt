-- ===== src/Codegen/Expressions.antt =====
-- `CompileExp`, `CompileVar`, `CompileCondition` and `CompileCall` of src/libmonga/codegen/llvmgen.c.
use monga.Prelude.{
  ℕ, Bool, true, false, Option, none, some, List, [], ◌∷◌, ◌==◌, if◌then◌else◌, ltb, length,
  get_elem?, CString, codes,
}
use monga.Ast.{
  TypeId, FuncId, TypeDef, TypeDesc, array_desc, record_desc, UnopKind, BinopKind, ComparKind,
  BinCondKind,
}
use monga.Syntax.{Literal, FuncDef, Param}
use monga.Sem.Builtins.{t_void, t_byte, t_long, t_intptr}
use monga.Sem.Types.{Resolved, get_underlying_type}
use monga.Sem.Types.Layout.{get_type_size, get_record_desc_size}
use monga.Codegen.Tree.{Exp, Var, Cond, Exps, type_of}
use monga.Codegen.Context.{
  TypeRef, Value, Op, Conversion, Rhs, Instr, G, ◌>>=◌, ◌>>◌, return, lift, unreachable,
  fresh_local, fresh_label, emit, find_local, add_function_dependency, Local,
}
use monga.Codegen.Emit.{
  type_to_type_ref, emit_load, emit_conversion, emit_binop, emit_comparison, emit_label,
  emit_branch, emit_cond_branch, emit_get_struct_element_ptr, emit_get_array_element_ptr, emit_phi,
  emit_args, emit_assign,
}
use monga.Codegen.Conversions.{underlying, compile_conversion, op_of, cmp_of, call_runtime}

-- `CompileBinop`, with its operands compiled.
unfoldable pub apply_binop : TypeRef → TypeId → BinopKind → Value → Value → G Value
unfolding op_of emit_binop
apply_binop ref t k a b = do
  op ← lift (λ g. elim (get_underlying_type g.types t) [ none ↦ none | some r ↦ op_of r k ])
  emit_binop ref a b op

-- `CompileUnop`, with its operand compiled.
unfoldable pub apply_unop : UnopKind → TypeId → Value → G Value
unfolding fresh_local type_to_type_ref emit_binop
apply_unop UnopKind.negative t v = do
  unused ← fresh_local
  ref ← type_to_type_ref t 0
  emit_binop ref (Value.literal (Literal.int 0)) v Op.sub
apply_unop UnopKind.bitnot t v = unreachable
apply_unop UnopKind.len t v = unreachable

-- The size of the elements of an array type, and of a record type.
abbrev pub element_size : List TypeDef → TypeId → Option ℕ
element_size s t = elim (get_elem? s t) [
  | none ↦ none
  | some d ↦ elim d.desc [ array_desc inner (some u) ↦ get_type_size s u | _ ↦ none ]
]

abbrev pub object_size : List TypeDef → TypeId → Option ℕ
object_size s t = elim (get_elem? s t) [
  | none ↦ none
  | some d ↦ elim d.desc [ record_desc fields ↦ get_record_desc_size s fields | _ ↦ none ]
]

-- The size of the elements times the number of them.
unfoldable pub array_size : TypeId → Value → G Value
unfolding type_to_type_ref emit_binop
array_size t count = do
  size ← lift (λ g. element_size g.types t)
  ref ← type_to_type_ref t_intptr 0
  emit_binop ref count (Value.literal (Literal.int size)) Op.mul

-- `CompileNew` for a size.
unfoldable pub allocate : TypeId → Value → G Value
unfolding type_to_type_ref call_runtime emit_conversion
allocate t size = do
  intptr ← type_to_type_ref t_intptr 0
  bytes ← type_to_type_ref t_byte 1
  pointer ← call_runtime (codes "RtInternal_GcAlloc") bytes intptr size
  ref ← type_to_type_ref t 0
  emit_conversion Conversion.bitcast bytes pointer ref

-- The conversion at the end of `CompileExp`.
unfoldable pub finish_exp : TypeId → TypeId → Value → G Value
unfolding compile_conversion
finish_exp t target v = do
  u ← underlying target
  x ← underlying t
  if u.id == x.id then return v else compile_conversion x.id v u.id

-- The call in `CompileCall`, with its arguments compiled: a value unless the function returns void.
unfoldable pub emit_call : FuncDef → List (TypeId × Value) → G Value
unfolding emit_args emit emit_assign type_to_type_ref
emit_call def args = do
  t ← lift (λ g. def.return_type)
  ref ← type_to_type_ref t 0
  printed ← emit_args args
  elim (t == t_void) [
    | true ↦ do emit (Instr.call ref def.func_name printed); return Value.nowhere
    | false ↦ emit_assign (Rhs.call ref def.func_name printed)
  ]

-- The fields of a record type.
abbrev pub field_count : TypeDesc → Option ℕ
field_count (record_desc fields) = some (length fields)
field_count _ = none

-- The address of a variable that is a local or else a global.
abbrev pub location_of : CString → Option Local → Value
location_of name none = Value.named_global name
location_of name (some l) = l.location

-- `CompileVar` of a field, with its record compiled.
unfoldable pub field_address : Resolved → ℕ → Value → G Value
unfolding type_to_type_ref emit_get_struct_element_ptr
field_address r i v = do
  ref ← type_to_type_ref r.id 0
  count ← lift (λ g. field_count r.desc)
  if ltb i count then emit_get_struct_element_ptr ref v i else unreachable

-- The end of `CompileComparison`.
unfoldable pub branch_on : TypeId → ComparKind → Value → Value → ℕ → ℕ → G (Unit {0})
unfolding cmp_of type_to_type_ref emit_comparison emit_cond_branch
branch_on t k a b on_true on_false = do
  cmp ← lift (λ g. elim (get_underlying_type g.types t) [ none ↦ none | some r ↦ cmp_of r k ])
  ref ← type_to_type_ref t 0
  v ← emit_comparison ref a b cmp
  emit_cond_branch v on_true on_false

-- The label for an outcome, the labels exchanged where the condition is negated.
abbrev pub swapped : Bool → ℕ → ℕ → ℕ
swapped negate label other = if negate then other else label

unfoldable mutual
  unfolding apply_binop apply_unop array_size allocate finish_exp emit_call field_address branch_on
      fresh_label find_local add_function_dependency emit_load emit_phi emit type_to_type_ref
      emit_get_array_element_ptr

  -- `CompileExp`, with `CompileCall`
  pub compile_exp : Exp → TypeId → G Value
  compile_exp (Exp.conditional t b x y) target = do
    true_label ← fresh_label
    false_label ← fresh_label
    end_label ← fresh_label
    compile_condition b true_label false_label
    emit_label true_label
    true_value ← compile_exp x t
    true_label_end ← fresh_label
    emit_branch true_label_end
    emit_label true_label_end
    emit_branch end_label
    emit_label false_label
    false_value ← compile_exp y t
    false_label_end ← fresh_label
    emit_branch false_label_end
    emit_label false_label_end
    emit_branch end_label
    emit_label end_label
    ref ← type_to_type_ref t 0
    v ← emit_phi ref true_label_end true_value false_label_end false_value
    finish_exp t target v
  compile_exp (Exp.unop t k x) target = do
    a ← compile_exp x (type_of x)
    v ← apply_unop k (type_of x) a
    finish_exp t target v
  compile_exp (Exp.binop t k x y) target = do
    ref ← type_to_type_ref t 0
    a ← compile_exp x t
    b ← compile_exp y t
    v ← apply_binop ref t k a b
    finish_exp t target v
  compile_exp (Exp.cast t x) target = do v ← compile_exp x t; finish_exp t target v
  compile_exp (Exp.variable t x) target = do
    address ← compile_var x
    ref ← type_to_type_ref t 0
    v ← emit_load ref address
    finish_exp t target v
  compile_exp (Exp.literal t l) target = finish_exp t target (Value.literal l)
  compile_exp (Exp.call t f args) target = do
    add_function_dependency f
    def ← lift (λ g. get_elem? g.funcs f)
    values ← compile_args args def.params
    v ← emit_call def values
    finish_exp t target v
  compile_exp (Exp.new_object t) target = do
    size ← lift (λ g. object_size g.types t)
    allocate t (Value.literal (Literal.int size))
  compile_exp (Exp.new_array t x) target = do
    count ← compile_exp x t_intptr
    size ← array_size t count
    allocate t size
  -- The value has not been set where the types are equal.
  compile_exp (Exp.null t) target = do
    u ← underlying target
    x ← underlying t
    if u.id == x.id then unreachable else compile_conversion x.id Value.nowhere u.id

  -- `CompileVar`
  pub compile_var : Var → G Value
  compile_var (Var.direct t name) = do l ← find_local name; return (location_of name l)
  compile_var (Var.field t x i) = do
    r ← underlying (type_of x)
    v ← compile_exp x r.id
    field_address r i v
  compile_var (Var.indexed t x i) = do
    index ← compile_exp i t_long
    array ← compile_exp x (type_of x)
    ref ← type_to_type_ref t 0
    emit_get_array_element_ptr ref array index

  -- `CompileCondition`, with `CompileBinCond` and `CompileComparison`
  pub compile_condition : Cond → ℕ → ℕ → G (Unit {0})
  compile_condition (Cond.bin BinCondKind.and negate l r) on_true on_false = do
    next_label ← fresh_label
    compile_condition l next_label (swapped negate on_false on_true)
    emit_label next_label
    compile_condition r (swapped negate on_true on_false) (swapped negate on_false on_true)
  compile_condition (Cond.bin BinCondKind.or negate l r) on_true on_false = do
    next_label ← fresh_label
    compile_condition l (swapped negate on_true on_false) next_label
    emit_label next_label
    compile_condition r (swapped negate on_true on_false) (swapped negate on_false on_true)
  compile_condition (Cond.compar k negate x y) on_true on_false = do
    a ← compile_exp x (type_of x)
    b ← compile_exp y (type_of x)
    branch_on (type_of x) k a b (swapped negate on_true on_false) (swapped negate on_false on_true)

  -- The loop over the arguments, each converted to the type of its parameter.
  pub compile_args : Exps → List Param → G (List (TypeId × Value))
  compile_args Exps.nil params = return []
  compile_args (Exps.cons x xs) [] = unreachable
  compile_args (Exps.cons x xs) (p ∷ params) = do
    t ← lift (λ g. p.param_type)
    v ← compile_exp x t
    rest ← compile_args xs params
    return ((t, v) ∷ rest)

-- `CompileCall`
unfoldable pub compile_call : FuncId → Exps → G Value
unfolding compile_args emit_call add_function_dependency
compile_call f args = do
  add_function_dependency f
  def ← lift (λ g. get_elem? g.funcs f)
  values ← compile_args args def.params
  emit_call def values
