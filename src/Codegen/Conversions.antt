-- ===== src/Codegen/Conversions.antt =====
-- `CompileIntToInt`, `CompileFloatToFloat`, `CompileConversion` and `GetDefaultValue` of
-- src/libmonga/codegen/llvmgen.c, and the choice of operators there. The assertions are left out.
use monga.Prelude.{
  Bool, true, false, ◌&&◌, Option, none, some, [], ◌∷◌, ◌==◌, if◌then◌else◌, ltb, codes, CString,
}
use monga.Ast.{
  TypeId, TypeDesc, array_desc, primitive_desc, float32, float64, BinopKind, ComparKind,
}
use monga.Syntax.{Literal}
use monga.Sem.Builtins.{t_null, t_string, t_char, t_byte}
use monga.Sem.Types.{
  Resolved, get_underlying_type, is_ref_type, is_integer_type, is_floating_point_type, char_code,
  is_primitive,
}
use monga.Sem.Types.Layout.{primitive_size_of}
use monga.Codegen.Context.{
  TypeRef, Value, Op, Cmp, Conversion, Rhs, G, ◌>>=◌, return, lift, unreachable,
}
use monga.Codegen.Emit.{type_to_type_ref, emit_value, emit_conversion, emit_assign}

-- `GetUnderlyingType`
abbrev pub underlying : TypeId → G Resolved
underlying t = lift (λ g. get_underlying_type g.types t)

unfoldable pub convert_with : Conversion → TypeId → Value → TypeId → G Value
unfolding type_to_type_ref emit_conversion
convert_with k t v dest = do
  a ← type_to_type_ref t 0
  b ← type_to_type_ref dest 0
  emit_conversion k a v b

-- The two tests on the codes of floating point types: the conversion that is needed, or none if the
-- codes are the same.
unfoldable pub float_conversion : TypeDesc → TypeDesc → Option (Option Conversion)
float_conversion (primitive_desc float32) (primitive_desc float32) = some none
float_conversion (primitive_desc float64) (primitive_desc float64) = some none
float_conversion (primitive_desc float32) (primitive_desc float64) = some (some Conversion.fpext)
float_conversion (primitive_desc float64) (primitive_desc float32) = some (some Conversion.fptrunc)
float_conversion _ _ = none

-- `CompileFloatToFloat`
unfoldable pub compile_float_to_float : Resolved → Value → Resolved → G Value
unfolding convert_with float_conversion
compile_float_to_float x v dest = do
  k ← lift (λ g. float_conversion x.desc dest.desc)
  elim k [ none ↦ return v | some k ↦ convert_with k x.id v dest.id ]

-- `CompileIntToInt`
unfoldable pub compile_int_to_int : Resolved → Value → Resolved → G Value
unfolding convert_with
compile_int_to_int x v dest = do
  m ← lift (λ g. primitive_size_of x.desc)
  n ← lift (λ g. primitive_size_of dest.desc)
  (if m == n
      then return v
      else if ltb m n
      then convert_with Conversion.sext x.id v dest.id
      else convert_with Conversion.trunc x.id v dest.id)

-- The element type of an array is char, aliases followed.
unfoldable pub is_char_array : TypeDesc → G Bool
is_char_array (array_desc inner none) = unreachable
is_char_array (array_desc inner (some u)) = do r ← underlying u; return (r.id == t_char)
is_char_array _ = return false

-- A call of a function of the runtime with one argument.
unfoldable pub call_runtime : CString → TypeRef → TypeRef → Value → G Value
unfolding emit_value emit_assign
call_runtime name result t v = do a ← emit_value v; emit_assign (Rhs.call result name ((t, a) ∷ []))

-- A string of the runtime, from the address of its bytes.
unfoldable pub make_string : Value → G Value
unfolding call_runtime type_to_type_ref
make_string v = do
  result ← type_to_type_ref t_string 0
  t ← type_to_type_ref t_byte 1
  call_runtime (codes "RtInternal_StrFromSZ") result t v

-- What follows the tests on strings; `other` is the case of neither an integer nor a floating
-- destination.
unfoldable pub compile_numeric : Resolved → Value → Resolved → G Value → G Value
unfolding compile_int_to_int compile_float_to_float convert_with
compile_numeric x v dest other =
    if is_integer_type x
    then (if is_integer_type dest
        then compile_int_to_int x v dest
        else convert_with Conversion.sitofp x.id v dest.id)
    else if is_floating_point_type dest
    then compile_float_to_float x v dest
    else other

-- `CompileConversion`, up to the case of a char.
unfoldable pub convert_or : Resolved → Value → Resolved → G Value → G Value
unfolding is_char_array make_string compile_numeric
convert_or x v dest other =
    if x.id == dest.id
    then return v
    else if (x.id == t_null) && is_ref_type dest
    then return Value.null
    else do
      chars ← (if dest.id == t_string then is_char_array x.desc else return false)
      elim chars [ true ↦ make_string v | false ↦ compile_numeric x v dest other ]

-- `CompileConversion`; a char is converted as a byte is, which is an integer, so that the second call
-- makes no third.
unfoldable pub compile_conversion : TypeId → Value → TypeId → G Value
unfolding convert_or
compile_conversion t v u = do
  x ← underlying t
  dest ← underlying u
  convert_or x v dest (
      if char_code x.desc
      then (do byte ← underlying t_byte; convert_or byte v dest unreachable)
      else unreachable)

-- `GetDefaultValue`
unfoldable pub get_default_value : TypeId → G Value
get_default_value t = do
  r ← underlying t
  (if is_floating_point_type r
      then return (Value.literal Literal.float)
      else if is_primitive r.desc
      then return (Value.literal (Literal.int 0))
      else if is_ref_type r
      then return Value.null
      else unreachable)

-- The instruction for an operator of the source, by the type of the result.
unfoldable pub floating_op : BinopKind → Option Op
floating_op BinopKind.add = some Op.fadd
floating_op BinopKind.sub = some Op.fsub
floating_op BinopKind.mul = some Op.fmul
floating_op BinopKind.div = some Op.fdiv
floating_op BinopKind.modulo = some Op.frem
floating_op _ = none

unfoldable pub integer_op : BinopKind → Op
integer_op BinopKind.add = Op.add
integer_op BinopKind.sub = Op.sub
integer_op BinopKind.mul = Op.mul
integer_op BinopKind.div = Op.sdiv
integer_op BinopKind.modulo = Op.srem
integer_op BinopKind.shr = Op.lshr
integer_op BinopKind.shl = Op.shl
integer_op BinopKind.bitand = Op.and
integer_op BinopKind.bitor = Op.or
integer_op BinopKind.xor = Op.xor

unfoldable pub op_of : Resolved → BinopKind → Option Op
unfolding floating_op integer_op
op_of r k =
    if is_floating_point_type r
    then floating_op k
    else if is_integer_type r
    then some (integer_op k)
    else none

unfoldable pub integer_cmp : ComparKind → Cmp
integer_cmp ComparKind.gt = Cmp.sgt
integer_cmp ComparKind.ge = Cmp.sge
integer_cmp ComparKind.eq = Cmp.eq
integer_cmp ComparKind.ne = Cmp.neq
integer_cmp ComparKind.le = Cmp.sle
integer_cmp ComparKind.lt = Cmp.slt

unfoldable pub floating_cmp : ComparKind → Cmp
floating_cmp ComparKind.gt = Cmp.ogt
floating_cmp ComparKind.ge = Cmp.oge
floating_cmp ComparKind.eq = Cmp.oeq
floating_cmp ComparKind.ne = Cmp.uneq
floating_cmp ComparKind.le = Cmp.ole
floating_cmp ComparKind.lt = Cmp.olt

unfoldable pub other_cmp : ComparKind → Option Cmp
other_cmp ComparKind.eq = some Cmp.eq
other_cmp ComparKind.ne = some Cmp.neq
other_cmp _ = none

unfoldable pub cmp_of : Resolved → ComparKind → Option Cmp
unfolding integer_cmp floating_cmp other_cmp
cmp_of r k =
    if is_integer_type r
    then some (integer_cmp k)
    else if is_floating_point_type r
    then some (floating_cmp k)
    else other_cmp k
