-- ===== src/Sem/Types/Assign/Rules.antt =====
-- The test of src/libmonga/sem/types.c answers yes exactly where a rule allows the assignment.
use monga.Prelude.{
  ◌≡◌, ◌≢◌, ◌↔◌, ◌⊎◌, inl, inr, refl, Bool, true, false, ◌&&◌, Option, none, some, ◌==◌, Bool-cases,
  arith,
}
use monga.Ast.{
  PrimitiveCode, TypeId, TypeDesc, alias_desc, record_desc, array_desc, primitive_desc,
  special_desc,
}
use monga.Sem.Builtins.{t_null, t_error, t_string}
use monga.Sem.Types.{
  Store, Resolved, integer_code, floating_code, is_primitive, chars_desc, Stripped, differ, aliases,
  others, strip_arrays, both_arrays, same_target, assignable_scalar, assignable_array, assignable,
}
use monga.Sem.Types.Assign.{
  Assignable, from_error, to_error, string_from_chars, null_to_reference, same_elements, floats,
  integers, same_type, Consistent, integer_code_iff, floating_code_iff, is_primitive_iff,
  strip-aliases, SameElements-strip,
}

both_arrays_special : (d : TypeDesc) → both_arrays d special_desc ≡ false
unfolding both_arrays
both_arrays_special (array_desc _ _) = refl
both_arrays_special _ = refl

both_arrays_primitive :
    (c : PrimitiveCode) (d : TypeDesc) → both_arrays (primitive_desc c) d ≡ false
unfolding both_arrays
both_arrays_primitive c d = refl

is_primitive_special : is_primitive special_desc ≡ false
unfolding is_primitive
is_primitive_special = refl

-- The loop over two copies of one description.
strip_self :
    (d : TypeDesc)
    → (strip_arrays d d ≡ others) ⊎ ((x : Option TypeId) × (strip_arrays d d ≡ aliases x x))
unfolding strip_arrays
strip_self (array_desc d _) = strip_self d
strip_self (alias_desc _ x) = inr (x, refl)
strip_self (record_desc _) = inl refl
strip_self (primitive_desc _) = inl refl
strip_self special_desc = inl refl

same_target_self :
    (s : Store) (x : Option TypeId) (v : Bool) → same_target s x x ≡ some v → v ≡ true
unfolding same_target
same_target_self s none v h = cc
same_target_self s (some x) v h = ground arith

module _ (s : Store) (a b : Resolved) where
  scalar_rule : a.id ≢ t_error → b.id ≢ t_error → assignable_scalar a b ≡ true → Assignable s a b
  unfolding assignable_scalar
  scalar_rule na nb h = elim (Bool-cases (floating_code a.desc)) [
    | inl fa ↦
        floats ((floating_code_iff a.desc).0 fa) ((floating_code_iff b.desc).0 (ground arith))
    | inr fa ↦ elim (Bool-cases (integer_code a.desc && integer_code b.desc)) [
      | inl i ↦
          integers ((integer_code_iff a.desc).0 (ground arith))
            ((integer_code_iff b.desc).0 (ground arith))
      | inr i ↦ same_type (ground arith)
    ]
  ]

  array_rule :
      a.id ≢ t_error
      → b.id ≢ t_error
      → both_arrays a.desc b.desc ≡ true
      → (t : Stripped) → strip_arrays a.desc b.desc ≡ t
      → assignable_array s a b ≡ some true
      → Assignable s a b
  unfolding assignable_array
  array_rule na nb both differ e h = cc (rw (e, assignable_array) at h)
  array_rule na nb both (aliases x y) e h =
      same_elements both (strip-aliases s a.desc b.desc x y e (rw (e, assignable_array) at h))
  array_rule na nb both others e h = scalar_rule na nb (ground (arith, e))

  assignable_sound : assignable s a b ≡ some true → Assignable s a b
  unfolding assignable
  assignable_sound h = elim (Bool-cases (a.id == t_error)) [
    | inl e ↦ to_error (ground arith)
    | inr ne ↦ elim (Bool-cases (b.id == t_error)) [
      | inl e ↦ from_error (ground arith)
      | inr ne' ↦ elim (Bool-cases (a.id == t_string && chars_desc b.desc)) [
        | inl c ↦ string_from_chars (ground arith) (ground arith)
        | inr nc ↦ elim (Bool-cases (b.id == t_null)) [
          | inl n ↦ null_to_reference (ground arith) ((is_primitive_iff a.desc).0 (ground arith))
          | inr nn ↦ elim (Bool-cases (both_arrays a.desc b.desc)) [
            | inl both ↦
                array_rule (ground arith) (ground arith) both (strip_arrays a.desc b.desc) refl
                  (ground arith)
            | inr flat ↦ scalar_rule (ground arith) (ground arith) (ground arith)
          ]
        ]
      ]
    ]
  ]

module _ (s : Store) (a b : Resolved) (v : Bool) where
  assignable_complete : Consistent a b → assignable s a b ≡ some v → Assignable s a b → v ≡ true
  unfolding assignable
  assignable_complete c run (from_error e) = ground arith
  assignable_complete c run (to_error e) = ground arith
  assignable_complete c run (string_from_chars e h) = ground arith
  assignable_complete c run (null_to_reference e h) = ground (arith, (is_primitive_iff a.desc).1 h)
  assignable_complete c run (same_elements e w) =
      let (x, y, st, sm) = SameElements-strip w in
      ground (arith, both_arrays_special a.desc, c.null_special)
  assignable_complete c run (floats f g) =
      ground (arith, (floating_code_iff a.desc).1 f, (floating_code_iff b.desc).1 g, c.null_special)
  assignable_complete c run (integers f g) =
      ground (arith, (integer_code_iff a.desc).1 f, (integer_code_iff b.desc).1 g, c.null_special)
  assignable_complete c run (same_type e) = ground (
    arith,
    c.one_desc e,
    c.null_special,
    strip_self a.desc,
    is_primitive_special,
    both_arrays_special a.desc,
    λ (x : Option TypeId). same_target_self s x v,
  )

-- The test, where it answers, answers yes exactly if one of the rules holds.
pub assignable_iff :
    (s : Store) (a b : Resolved) (v : Bool)
    → Consistent a b
    → assignable s a b ≡ some v
    → (v ≡ true) ↔ Assignable s a b
assignable_iff s a b v c run =
    (λ h. assignable_sound s a b (rw h at run), assignable_complete s a b v c run)
