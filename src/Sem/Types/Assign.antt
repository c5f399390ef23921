-- ===== src/Sem/Types/Assign.antt =====
-- `IsTypeAssignableFrom` of src/libmonga/sem/types.c against rules that say when a value of one
-- type may be stored as another.
pub mod Rules
pub mod Definitions
use monga.Prelude.{
  ℕ, ◌≡◌, ◌≢◌, ◌↔◌, ◌⊎◌, inl, inr, refl, sym, ap, ◌∙◌, Bool, true, false, ◌&&◌, ◌||◌, Option, none,
  some, List, [], ◌∷◌, ◌==◌, ==_iff, if◌then◌else◌, CString, Option-cases, Bool-cases, arith,
}
use monga.Ast.{
  TypeId, TypeDef, TypeDesc, alias_desc, record_desc, array_desc, primitive_desc, special_desc,
  PrimitiveCode, char, int8, int16, int32, int64, float32, float64, intptr, void, Field,
}
use monga.Sem.Builtins.{t_char, t_null, t_error, t_string}
use monga.Sem.Types.{
  Store, ◌>>=◌, Resolved, get_underlying_type, integer_code, floating_code, is_primitive,
  is_integer_type, is_floating_point_type, is_ref_type, chars_desc, Stripped, differ, aliases,
  others, strip_arrays, both_arrays, same_target, assignable_scalar, assignable_array, assignable,
}

abbrev pub IsInteger : TypeDesc → Type 0
IsInteger d =
    (d ≡ primitive_desc int8)
    ⊎ (d ≡ primitive_desc int16)
    ⊎ (d ≡ primitive_desc int32)
    ⊎ (d ≡ primitive_desc int64)
    ⊎ (d ≡ primitive_desc intptr)

abbrev pub IsFloating : TypeDesc → Type 0
IsFloating d = (d ≡ primitive_desc float32) ⊎ (d ≡ primitive_desc float64)

-- What is kept by reference: everything but a primitive value.
abbrev pub IsReference : TypeDesc → Type 0
IsReference d = (code : PrimitiveCode) → d ≢ primitive_desc code

-- Arrays, as deep as one another, of elements that are named as the same underlying type.
pub data SameElements (s : Store) : TypeDesc → TypeDesc → Type 0 where
  elements :
      {n m : CString} {x y : TypeId} {a b : Resolved}
      → get_underlying_type s x ≡ some a
      → get_underlying_type s y ≡ some b
      → a.id ≡ b.id
      → SameElements s (alias_desc n (some x)) (alias_desc m (some y))
  arrays :
      {c d : TypeDesc} {x y : Option TypeId}
      → SameElements s c d
      → SameElements s (array_desc c x) (array_desc d y)

-- When a place of type `a` may take a value of type `b`.
pub data Assignable (s : Store) (a b : Resolved) : Type 0 where
  from_error : b.id ≡ t_error → Assignable s a b
  to_error : a.id ≡ t_error → Assignable s a b
  string_from_chars : a.id ≡ t_string → chars_desc b.desc ≡ true → Assignable s a b
  null_to_reference : b.id ≡ t_null → IsReference a.desc → Assignable s a b
  same_elements : both_arrays a.desc b.desc ≡ true → SameElements s a.desc b.desc → Assignable s a b
  floats : IsFloating a.desc → IsFloating b.desc → Assignable s a b
  integers : IsInteger a.desc → IsInteger b.desc → Assignable s a b
  same_type : a.id ≡ b.id → Assignable s a b

-- What any two types of one list of definitions satisfy: the place fixes the description, and the
-- null type is a special one. No alias is underlying.
pub record Consistent (a b : Resolved) : Type 0 where
  pub one_desc : a.id ≡ b.id → a.desc ≡ b.desc
  pub null_special : b.id ≡ t_null → b.desc ≡ special_desc

pub integer_code_iff : (d : TypeDesc) → (integer_code d ≡ true) ↔ IsInteger d
unfolding integer_code
integer_code_iff (primitive_desc int8) = ground arith
integer_code_iff (primitive_desc _) = ground arith
integer_code_iff (alias_desc _ _) = ground arith
integer_code_iff _ = ground arith

pub floating_code_iff : (d : TypeDesc) → (floating_code d ≡ true) ↔ IsFloating d
unfolding floating_code
floating_code_iff (primitive_desc int8) = ground arith
floating_code_iff (primitive_desc _) = ground arith
floating_code_iff (alias_desc _ _) = ground arith
floating_code_iff _ = ground arith

pub is_primitive_iff : (d : TypeDesc) → (is_primitive d ≡ false) ↔ IsReference d
unfolding is_primitive
is_primitive_iff (primitive_desc c) = (λ h. cc, λ h. absurd (h c refl))
is_primitive_iff (alias_desc _ _) = (λ _ c e. cc, λ _. refl)
is_primitive_iff _ = (λ _ c e. cc, λ _. refl)

same_target-elements :
    (s : Store) (n m : CString) (x y : Option TypeId)
    → same_target s x y ≡ some true
    → SameElements s (alias_desc n x) (alias_desc m y)
unfolding same_target
same_target-elements s n m none y h = cc
same_target-elements s n m (some x) none h = cc
same_target-elements s n m (some x) (some y) h = elim (Option-cases (get_underlying_type s x)) [
  | inl e ↦ cc (rw (e, same_target) at h)
  | inr (a, e) ↦ elim (Option-cases (get_underlying_type s y)) [
    | inl e' ↦ cc (rw (e, e', same_target) at h)
    | inr (b, e') ↦ elements e e' (ground arith)
  ]
]

pub strip-aliases :
    (s : Store) (c d : TypeDesc) (x y : Option TypeId)
    → strip_arrays c d ≡ aliases x y
    → same_target s x y ≡ some true
    → SameElements s c d
unfolding strip_arrays
strip-aliases s (array_desc c _) (array_desc d _) x y e h = arrays (strip-aliases s c d x y e h)
strip-aliases s (alias_desc n x') (alias_desc m y') x y e h =
    let px : x ≡ x' = cc in
    let py : y ≡ y' = cc in same_target-elements s n m x' y' (rw (px, py) at h)
strip-aliases s (record_desc _) (record_desc _) x y e h = cc
strip-aliases s (primitive_desc _) (primitive_desc _) x y e h = cc
strip-aliases s special_desc special_desc x y e h = cc
strip-aliases s c d x y e h = cc

-- The loop over two such arrays reaches two aliases of the same target.
abbrev pub StripsToSame : Store → TypeDesc → TypeDesc → Type 0
StripsToSame s c d =
    (x : Option TypeId) × (y : Option TypeId) × (strip_arrays c d ≡ aliases x y)
    × (same_target s x y ≡ some true)

pub SameElements-strip : {s : Store} {c d : TypeDesc} → SameElements s c d → StripsToSame s c d
unfolding strip_arrays same_target
SameElements-strip (elements {x} {y} {a} {b} p q e) =
    (some x, some y, refl, rw (p, q, e) (ground arith))
SameElements-strip (arrays w) = SameElements-strip w
