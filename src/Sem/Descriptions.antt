-- ===== src/Sem/Descriptions.antt =====
-- `ResolveTypeDescription`, `CreateAnonymousRecord`, `ResolveTypeDeclaration` and
-- `ResolveTypeDefinition` of src/libmonga/sem.c. The pointers that the source writes into a
-- description are in the description that is the second result.
pub mod Resolved
use monga.Prelude.{
  ℕ, zero, suc, ◌+◌, ◌/◌, ◌%◌, ◌^◌, ◌≡◌, Bool, true, false, ◌&&◌, Option, none, some, List, [], ◌∷◌,
  ◌++◌, ltb, if◌then◌else◌, length, get_elem?, set, CString, codes,
}
use monga.Ast.{
  TypeId, TypeDef, TypeDesc, Field, alias_desc, record_desc, array_desc, primitive_desc,
  special_desc,
}
use monga.Sem.Builtins.{t_error}
use monga.Sem.Scope.{sym_type, sym_field, add_symbol, find_type}
use monga.Sem.State.{
  Ctx, M, ◌>>=◌, ◌>>◌, return, lift, log_error, Message, add_used_type, push_scope, pop_scope,
  try_register_symbol, find_or_create_array_type,
}
use monga.Sem.Functions.{type_or_error}

-- A digit of `%x`.
abbrev pub hex_digit : ℕ → ℕ
hex_digit n = if ltb n 10 then 48 + n else 87 + n

-- `%x` of an `unsigned int`, which has at most eight digits.
unfoldable pub hex_digits : ℕ → ℕ → CString
hex_digits zero n = []
hex_digits (suc fuel) n =
    let rest = hex_digits fuel (n / 16) in
    if ltb n 16 then hex_digit n ∷ [] else rest ++ hex_digit (n % 16) ∷ []

abbrev pub record_name : ℕ → CString
record_name count = codes ".record_" ++ hex_digits 8 (count % 2 ^ 32)

-- `CreateAnonymousRecord`
unfoldable pub create_anonymous_record : TypeDesc → M TypeId
unfolding hex_digits
create_anonymous_record desc c =
    let t = length c.types in
    let def : TypeDef = record { type_name = record_name c.anon_rec_count; desc = desc } in
    elim (add_symbol c.scopes (record { definition = sym_type t; sym_name = def.type_name })) [
      | none ↦ none
      | some after ↦ some (
        t,
        record c {
          types = c.types ++ def ∷ [];
          scopes = after;
          anonymous = c.anonymous ++ t ∷ [];
          anon_rec_count = c.anon_rec_count + 1;
        },
      )
    ]

-- The type of a field. Where there is none the current scope is popped, as the source does.
unfoldable pub field_or_error : Field → M (TypeId × Bool)
field_or_error f = do
  found ← lift (λ c. some (find_type c.scopes f.type_name))
  elim found [
    | none ↦ do
      log_error (Message.unknown_field_type f.type_name)
      pop_scope
      return (t_error, false)
    | some t ↦ return (t, true)
  ]

-- The loop over the fields: `none` for a clash of names, else `ret`.
unfoldable pub resolve_fields : List Field → Bool → M (Option Bool × List Field)
unfolding field_or_error
resolve_fields [] ret = return (some ret, [])
resolve_fields (f ∷ fs) ret = do
  (t, known) ← field_or_error f
  ok ← try_register_symbol (record { definition = sym_field; sym_name = f.field_name })
  elim ok [
    | false ↦ return (none, record f { field_type = some t } ∷ fs)
    | true ↦ do
      add_used_type t
      (r, fs') ← resolve_fields fs (known && ret)
      return (r, record f { field_type = some t } ∷ fs')
  ]

-- The element type of an array, by the description of its elements once that is resolved.
unfoldable pub element_of : TypeDesc → M TypeId
unfolding create_anonymous_record
element_of (array_desc d e) = lift (λ c. e) >>= find_or_create_array_type
element_of (alias_desc name t) = lift (λ c. t)
element_of (record_desc fs) = create_anonymous_record (record_desc fs)
element_of (primitive_desc code) = λ c. none
element_of special_desc = λ c. none

-- What the loop over the fields answers.
abbrev pub fields_resolved : Option Bool → Bool
fields_resolved none = false
fields_resolved (some ret) = ret

-- `ResolveTypeDescription`
unfoldable pub resolve_type_desc : TypeDesc → M (Bool × TypeDesc)
unfolding resolve_fields element_of
resolve_type_desc (alias_desc name old) = do
  (t, known) ← type_or_error (Message.unresolved_alias name) name
  add_used_type t
  return (known, alias_desc name (some t))
resolve_type_desc (record_desc fs) = do
  push_scope
  (r, fs') ← resolve_fields fs true
  pop_scope
  return (fields_resolved r, record_desc fs')
resolve_type_desc (array_desc inner old) = do
  (ok, inner') ← resolve_type_desc inner
  elim ok [
    | false ↦ return (false, array_desc inner' old)
    | true ↦ do t ← element_of inner'; add_used_type t; return (true, array_desc inner' (some t))
  ]
resolve_type_desc (primitive_desc code) = return (true, primitive_desc code)
resolve_type_desc special_desc = return (false, special_desc)

-- The definition that a pointer points to.
abbrev pub type_def_of : TypeId → M TypeDef
type_def_of t = lift (λ c. get_elem? c.types t)

-- `ResolveTypeDeclaration`
unfoldable pub resolve_type_declaration : TypeId → M Bool
resolve_type_declaration t = do
  d ← type_def_of t
  try_register_symbol (record { definition = sym_type t; sym_name = d.type_name })

-- The writes into the definition's description.
unfoldable pub write_desc : TypeId → TypeDesc → M (Unit {0})
write_desc t desc c = elim (get_elem? c.types t) [
  | none ↦ none
  | some d ↦ some (tt, record c { types = set c.types t (record d { desc = desc }) })
]

-- `ResolveTypeDefinition`
unfoldable pub resolve_type_definition : TypeId → M Bool
unfolding resolve_type_desc write_desc
resolve_type_definition t = do
  d ← type_def_of t
  (ok, desc) ← resolve_type_desc d.desc
  write_desc t desc
  return ok
