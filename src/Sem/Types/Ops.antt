-- ===== src/Sem/Types/Ops.antt =====
-- The result types of operators, casts and comparisons, and fields and elements, of
-- src/libmonga/sem/types.c.
use monga.Prelude.{
  Bool, true, false, not, ◌&&◌, ◌||◌, Option, none, some, List, [], ◌∷◌, ◌==◌, if◌then◌else◌,
  CString, strcmp_eq,
}
use monga.Ast.{TypeId, TypeDesc, record_desc, array_desc, Field, UnopKind, BinopKind, ComparKind}
use monga.Sem.Builtins.{t_char, t_int, t_error, t_string}
use monga.Sem.Types.{
  Store, ◌>>=◌, Resolved, get_underlying_type, is_integer_type, is_floating_point_type,
  is_numeric_type, char_code, is_primitive, assignable, is_type_assignable_from,
}

-- A type, or the NULL that the source returns for an operation that has none.
abbrev pub Result : Type 0
Result = Option TypeId

unfoldable pub castable : Store → Resolved → Resolved → Option Bool
unfolding is_primitive char_code is_floating_point_type
castable s a b =
    if is_primitive a.desc && is_primitive b.desc
    then some (
        not (
          char_code a.desc && is_floating_point_type b
          || char_code b.desc && is_floating_point_type a))
    else assignable s a b

unfoldable pub is_type_castable_from : Store → TypeId → TypeId → Option Bool
unfolding castable
is_type_castable_from s x y = do
  a ← get_underlying_type s x
  b ← get_underlying_type s y
  castable s a b

unfoldable pub element_type : TypeDesc → Result
element_type (array_desc inner def) = def
element_type _ = none

unfoldable pub indexed_type : Resolved → Result
unfolding element_type
indexed_type r =
    if r.id == t_error
    then some t_error
    else if r.id == t_string
    then some t_char
    else element_type r.desc

unfoldable pub get_indexed_type : Store → TypeId → Option Result
unfolding indexed_type
get_indexed_type s t = do r ← get_underlying_type s t; some (indexed_type r)

unfoldable pub is_indexable : Resolved → Bool
unfolding indexed_type
is_indexable r = elim (indexed_type r) [ none ↦ false | some _ ↦ true ]

unfoldable pub unop_result : Resolved → UnopKind → Result
unfolding is_indexable is_numeric_type
unop_result r UnopKind.len =
    if r.id == t_error then some r.id else if is_indexable r then some t_int else none
unop_result r UnopKind.bitnot =
    if r.id == t_error
    then some r.id
    else if not (is_numeric_type r)
    then none
    else if is_integer_type r
    then some r.id
    else none
unop_result r UnopKind.negative =
    if r.id == t_error then some r.id else if not (is_numeric_type r) then none else some r.id

unfoldable pub get_unop_result_type : Store → TypeId → UnopKind → Option Result
unfolding unop_result
get_unop_result_type s t op = do r ← get_underlying_type s t; some (unop_result r op)

-- The cases of the switch in `GetBinopResultType`.
pub data BinopClass : Type 0 where
  arithmetic shift bitwise : BinopClass

abbrev pub binop_class : BinopKind → BinopClass
binop_class BinopKind.shr = BinopClass.shift
binop_class BinopKind.shl = BinopClass.shift
binop_class BinopKind.bitand = BinopClass.bitwise
binop_class BinopKind.bitor = BinopClass.bitwise
binop_class BinopKind.xor = BinopClass.bitwise
binop_class _ = BinopClass.arithmetic

abbrev pub is_add : BinopKind → Bool
is_add BinopKind.add = true
is_add _ = false

-- `some` of the left type if the test holds, else NULL.
abbrev pub left_if : Resolved → Bool → Result
left_if l ok = if ok then some l.id else none

unfoldable pub binop_in_class : Store → Resolved → Resolved → BinopKind → BinopClass → Option Result
unfolding is_numeric_type
binop_in_class s l r op BinopClass.arithmetic =
    if l.id == t_string && r.id == t_string && is_add op
    then some (some l.id)
    else (do ok ← assignable s l r; some (left_if l (ok && is_numeric_type l && is_numeric_type r)))
binop_in_class s l r op BinopClass.shift = do
  ok ← assignable s l r
  some (left_if l (ok && is_integer_type l && is_integer_type r))
binop_in_class s l r op BinopClass.bitwise = some (left_if l (l.id == r.id && is_integer_type l))

unfoldable pub binop_result : Store → Resolved → Resolved → BinopKind → Option Result
unfolding binop_in_class
binop_result s l r op =
    if l.id == t_error || r.id == t_error
    then some (some l.id)
    else binop_in_class s l r op (binop_class op)

unfoldable pub get_binop_result_type : Store → TypeId → TypeId → BinopKind → Option Result
unfolding binop_result
get_binop_result_type s x y op = do
  l ← get_underlying_type s x
  r ← get_underlying_type s y
  binop_result s l r op

unfoldable pub get_cond_exp_result_type : Store → TypeId → TypeId → Option Result
get_cond_exp_result_type s then_type else_type = do
  ok ← is_type_assignable_from s then_type else_type
  some (if ok then some then_type else none)

unfoldable pub is_equality : ComparKind → Bool
is_equality ComparKind.eq = true
is_equality ComparKind.ne = true
is_equality _ = false

unfoldable pub can_compare : Store → Resolved → Resolved → ComparKind → Option Bool
unfolding is_equality
can_compare s a b kind =
    if is_equality kind then assignable s a b else some (is_integer_type a && is_integer_type b)

unfoldable pub type_can_compare : Store → TypeId → TypeId → ComparKind → Option Bool
unfolding can_compare
type_can_compare s x y kind = do
  a ← get_underlying_type s x
  b ← get_underlying_type s y
  can_compare s a b kind

-- The first field of that name.
unfoldable pub find_field : List Field → CString → Option Field
find_field [] name = none
find_field (f ∷ fs) name = if strcmp_eq f.field_name name then some f else find_field fs name

unfoldable pub field_of : TypeDesc → CString → Option Field
unfolding find_field
field_of (record_desc fields) name = find_field fields name
field_of _ name = none

unfoldable pub get_type_field : Store → TypeId → CString → Option (Option Field)
unfolding field_of
get_type_field s t name = do r ← get_underlying_type s t; some (field_of r.desc name)
