-- ===== src/Sem/Types.antt =====
-- src/libmonga/sem/types.c: what the analysis asks of types. A type is its index in the list of
-- type definitions `s`; `none` is a loop that never ends or a read through a NULL pointer.
pub mod Aliases
pub mod Assign
pub mod Ops
pub mod Layout
use monga.Prelude.{
  ℕ, zero, suc, ◌+◌, ◌≡◌, Bool, true, false, ◌&&◌, ◌||◌, Option, none, some, List, [], ◌∷◌, ◌==◌,
  if◌then◌else◌, length, get_elem?, CString, strcmp_eq,
}
use monga.Ast.{
  TypeId, TypeDef, TypeDesc, alias_desc, record_desc, array_desc, primitive_desc, special_desc,
  PrimitiveCode, char, int8, int16, int32, int64, float32, float64, intptr, void, Field, UnopKind,
  BinopKind, ComparKind,
}
use monga.Sem.Builtins.{t_char, t_int, t_null, t_error, t_string}

abbrev pub Store : Type 0
Store = List TypeDef

infixl 5 ◌>>=◌
abbrev pub ◌>>=◌ {ℓ κ} : {A : Type ℓ} {B : Type κ} → Option A → (A → Option B) → Option B
none >>= f = none
some a >>= f = f a

-- A type that is no alias: its place, and its `typeDesc`.
pub record Resolved : Type 0 where
  pub id : TypeId
  pub desc : TypeDesc

-- What the loop does at one type definition.
pub data Next : Type 0 where
  -- the loop ends here
  stop : Resolved → Next
  -- an alias: go on with the aliased type
  follow : TypeId → Next
  -- no such definition, or an alias with a NULL target
  broken : Next

unfoldable pub next_of : TypeId → TypeDesc → Next
next_of t (alias_desc name none) = broken
next_of t (alias_desc name (some aliased)) = follow aliased
next_of t (record_desc fields) = stop (record { id = t; desc = record_desc fields })
next_of t (array_desc inner def) = stop (record { id = t; desc = array_desc inner def })
next_of t (primitive_desc code) = stop (record { id = t; desc = primitive_desc code })
next_of t special_desc = stop (record { id = t; desc = special_desc })

unfoldable pub next : Store → TypeId → Next
unfolding next_of
next s t = elim (get_elem? s t) [ none ↦ broken | some d ↦ next_of t d.desc ]

-- The loop of `GetUnderlyingType`, at most `fuel` turns of it.
unfoldable pub follow_aliases : ℕ → Store → TypeId → Option Resolved
follow_aliases zero s t = none
follow_aliases (suc fuel) s t = elim (next s t) [
  | stop r ↦ some r
  | follow u ↦ follow_aliases fuel s u
  | broken ↦ none
]

-- A chain of aliases that ends visits no definition twice: see `Aliases`.
unfoldable pub get_underlying_type : Store → TypeId → Option Resolved
get_underlying_type s t = follow_aliases (length s) s t

-- The tests below are written over the resolved type, which is what each of them starts with.
unfoldable pub integer_code : TypeDesc → Bool
integer_code (primitive_desc intptr) = true
integer_code (primitive_desc int8) = true
integer_code (primitive_desc int16) = true
integer_code (primitive_desc int32) = true
integer_code (primitive_desc int64) = true
integer_code _ = false

unfoldable pub floating_code : TypeDesc → Bool
floating_code (primitive_desc float32) = true
floating_code (primitive_desc float64) = true
floating_code _ = false

unfoldable pub char_code : TypeDesc → Bool
char_code (primitive_desc char) = true
char_code _ = false

unfoldable pub is_primitive : TypeDesc → Bool
is_primitive (primitive_desc _) = true
is_primitive _ = false

unfoldable pub is_integer_type : Resolved → Bool
unfolding integer_code
is_integer_type r = r.id == t_error || integer_code r.desc

unfoldable pub is_floating_point_type : Resolved → Bool
unfolding floating_code
is_floating_point_type r = r.id == t_error || floating_code r.desc

unfoldable pub is_numeric_type : Resolved → Bool
unfolding is_integer_type is_floating_point_type
is_numeric_type r = is_integer_type r || is_floating_point_type r

unfoldable pub is_ref_type : Resolved → Bool
unfolding is_primitive
is_ref_type r = if r.id == t_error then true else if is_primitive r.desc then false else true

unfoldable pub record_code : TypeDesc → Bool
record_code (record_desc _) = true
record_code _ = false

-- An alias was followed already, so the source's branch for one does not run.
unfoldable pub is_structured_type : Resolved → Bool
unfolding record_code
is_structured_type r = r.id == t_error || record_code r.desc

-- `b` is an array whose element type is the builtin char.
unfoldable pub chars_desc : TypeDesc → Bool
chars_desc (array_desc inner (some t)) = t == t_char
chars_desc _ = false

-- The loop over two array descriptions, down to what is no array.
pub data Stripped : Type 0 where
  -- two kinds of description stood side by side
  differ : Stripped
  -- two aliases, with their targets
  aliases : Option TypeId → Option TypeId → Stripped
  -- two descriptions of one other kind
  others : Stripped

unfoldable pub strip_arrays : TypeDesc → TypeDesc → Stripped
strip_arrays (array_desc x _) (array_desc y _) = strip_arrays x y
strip_arrays (alias_desc _ x) (alias_desc _ y) = aliases x y
strip_arrays (record_desc _) (record_desc _) = others
strip_arrays (primitive_desc _) (primitive_desc _) = others
strip_arrays special_desc special_desc = others
strip_arrays _ _ = differ

unfoldable pub both_arrays : TypeDesc → TypeDesc → Bool
both_arrays (array_desc _ _) (array_desc _ _) = true
both_arrays _ _ = false

-- The underlying types of two alias targets are the same definition.
unfoldable pub same_target : Store → Option TypeId → Option TypeId → Option Bool
same_target s none y = none
same_target s (some x) none = none
same_target s (some x) (some y) = do
  a ← get_underlying_type s x
  b ← get_underlying_type s y
  some (a.id == b.id)

-- The last three returns of `IsTypeAssignableFrom`.
unfoldable pub assignable_scalar : Resolved → Resolved → Bool
unfolding is_floating_point_type is_integer_type
assignable_scalar a b =
    if is_floating_point_type a
    then is_floating_point_type b
    else if is_integer_type a && is_integer_type b
    then true
    else a.id == b.id

unfoldable pub assignable_array : Store → Resolved → Resolved → Option Bool
unfolding strip_arrays
assignable_array s a b = elim (strip_arrays a.desc b.desc) [
  | differ ↦ some false
  | aliases x y ↦ same_target s x y
  | others ↦ some (assignable_scalar a b)
]

unfoldable pub assignable : Store → Resolved → Resolved → Option Bool
unfolding chars_desc is_ref_type both_arrays assignable_array assignable_scalar same_target
assignable s a b =
    if a.id == t_error || b.id == t_error
    then some true
    else if a.id == t_string && chars_desc b.desc
    then some true
    else if b.id == t_null
    then some (is_ref_type a)
    else if both_arrays a.desc b.desc
    then assignable_array s a b
    else some (assignable_scalar a b)

unfoldable pub is_type_assignable_from : Store → TypeId → TypeId → Option Bool
unfolding assignable
is_type_assignable_from s x y = do
  a ← get_underlying_type s x
  b ← get_underlying_type s y
  assignable s a b
