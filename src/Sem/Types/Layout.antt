-- ===== src/Sem/Types/Layout.antt =====
-- The sizes of src/libmonga/sem/types.c and src/libmonga/ast/typedesc.c that the code generator
-- allocates by, for a target with pointers of eight bytes, in a build with MON_DEBUG. `none` is a
-- failed MON_ASSERT, a division by zero, or a NULL pointer. Without MON_DEBUG nothing is asserted, and
-- the code of a description that is not primitive is whatever its union holds there.
pub mod Bounds
use monga.Prelude.{
  ℕ, ◌+◌, ◌-◌, ◌%◌, ◌^◌, ◌≡◌, Option, none, some, List, [], ◌∷◌, ltb, ◌==◌, if◌then◌else◌,
  get_elem?, max,
}
use monga.Ast.{
  TypeId, TypeDef, TypeDesc, alias_desc, primitive_desc, PrimitiveCode, char, int8, int16, int32,
  int64, float32, float64, intptr, void, Field,
}
use monga.Sem.Types.{Store, ◌>>=◌, Resolved, get_underlying_type, is_ref_type}

abbrev pub pointer_size : ℕ
pointer_size = 8

-- `Mon_GetPrimitiveSize`
abbrev pub get_primitive_size : PrimitiveCode → ℕ
get_primitive_size char = 1
get_primitive_size int8 = 1
get_primitive_size int16 = 2
get_primitive_size int32 = 4
get_primitive_size int64 = 8
get_primitive_size float32 = 4
get_primitive_size float64 = 8
get_primitive_size void = 0
get_primitive_size intptr = pointer_size

-- The assertion that a description is primitive, and the size of its code.
unfoldable pub primitive_size_of : TypeDesc → Option ℕ
primitive_size_of (primitive_desc code) = some (get_primitive_size code)
primitive_size_of _ = none

unfoldable pub resolved_size : Resolved → Option ℕ
unfolding primitive_size_of
resolved_size r = if is_ref_type r then some pointer_size else primitive_size_of r.desc

unfoldable pub get_type_size : Store → TypeId → Option ℕ
unfolding resolved_size
get_type_size s t = do r ← get_underlying_type s t; resolved_size r

-- What one field asks of the alignment. The test is made on the underlying type, but the assertion
-- and the size are then of the field's own description.
unfoldable pub field_align : Store → Field → Option ℕ
unfolding primitive_size_of
field_align s f = do
  t ← f.field_type
  r ← get_underlying_type s t
  d ← get_elem? s t
  if is_ref_type r then some pointer_size else primitive_size_of d.desc

unfoldable pub align_from : Store → ℕ → List Field → Option ℕ
align_from s ret [] = some ret
align_from s ret (f ∷ fs) = do a ← field_align s f; align_from s (max a ret) fs

unfoldable pub get_record_desc_align : Store → List Field → Option ℕ
get_record_desc_align s fields = align_from s 1 fields

-- `total` raised to the next multiple of `align`, in `unsigned int`.
unfoldable pub pad_to : ℕ → ℕ → ℕ
pad_to align total =
    if ltb 0 (total % align) then (total + (align - total % align)) % 2 ^ 32 else total

-- One turn of the loop over the fields; `%` by a field of size zero is undefined.
unfoldable pub add_size : ℕ → ℕ → Option ℕ
add_size total size = if size == 0 then none else some ((pad_to size total + size) % 2 ^ 32)

unfoldable pub size_from : Store → ℕ → List Field → Option ℕ
size_from s total [] = some total
size_from s total (f ∷ fs) = do
  t ← f.field_type
  size ← get_type_size s t
  total' ← add_size total size
  size_from s total' fs

unfoldable pub get_record_desc_size : Store → List Field → Option ℕ
get_record_desc_size s fields = do
  align ← get_record_desc_align s fields
  total ← size_from s 0 fields
  some (pad_to align total)
