-- ===== src/Tests/Types.antt =====
-- Types of src/libmonga/sem/types.c over the builtin ones and some of a program.
use monga.Prelude.{
  ℕ, ◌≡◌, ◌↔◌, ◌⊎◌, inl, inr, refl, ap, ◌≤◌, ◌%◌, true, none, some, List, [], ◌∷◌, ◌++◌, codes,
  arith,
}
use monga.Ast.{TypeId, alias_desc, array_desc, primitive_desc, special_desc, Field, int8, int32}
use monga.Sem.Builtins.{builtin_types, t_char, t_int, t_byte, t_string}
use monga.Sem.Types.{
  Store, Resolved, next, follow, follow_aliases, get_underlying_type, is_type_assignable_from,
  is_ref_type,
}
use monga.Sem.Types.Aliases.{own, alias_of, EndsAt, get_underlying_type_iff, cycle_never_ends}
use monga.Sem.Types.Assign.{Assignable}
use monga.Sem.Types.Assign.Definitions.{HasBuiltins, is_type_assignable_from_iff}
use monga.Sem.Types.Layout.{get_record_desc_size, get_record_desc_align}
use monga.Sem.Types.Layout.Bounds.{
  Laid, reference, primitive, get_record_desc_size-AllLaid, get_record_desc_size-undefined,
}

-- 12: type Age = int;  13: type Name = [char];  14 and 15: two aliases of each other
abbrev program : Store
program =
    builtin_types
    ++ (record { type_name = codes "Age"; desc = alias_desc (codes "int") (some t_int) }
        ∷ record {
          type_name = codes "Name";
          desc = array_desc (alias_desc (codes "char") (some t_char)) (some t_char);
        }
        ∷ record { type_name = codes "A"; desc = alias_desc (codes "B") (some 15) }
        ∷ record { type_name = codes "B"; desc = alias_desc (codes "A") (some 14) }
        ∷ [])

program-HasBuiltins : HasBuiltins program
program-HasBuiltins = (_, refl)

abbrev int_type : Resolved
int_type = record { id = t_int; desc = primitive_desc int32 }

abbrev string_type : Resolved
string_type = record { id = t_string; desc = special_desc }

abbrev name_type : Resolved
name_type = record {
  id = 13;
  desc = array_desc (alias_desc (codes "char") (some t_char)) (some t_char);
}

age-EndsAt : EndsAt program 12 int_type
age-EndsAt = (1, alias_of _ (codes "int") refl refl (own _ refl refl tt))

string-EndsAt : EndsAt program t_string string_type
string-EndsAt = (0, own _ refl refl tt)

name-EndsAt : EndsAt program 13 name_type
name-EndsAt = (0, own _ refl refl tt)

get_underlying_type_iff_example :
    (get_underlying_type program 12 ≡ some int_type) ↔ EndsAt program 12 int_type
get_underlying_type_iff_example = get_underlying_type_iff program 12 int_type

is_type_assignable_from_iff_example : (true ≡ true) ↔ Assignable program string_type name_type
is_type_assignable_from_iff_example =
    is_type_assignable_from_iff program t_string 13 string_type name_type true program-HasBuiltins
      string-EndsAt name-EndsAt
      (unfold is_type_assignable_from get_underlying_type follow_aliases next in refl)

abbrev InCycle : TypeId → Type 0
InCycle t = (t ≡ 14) ⊎ (t ≡ 15)

InCycle-closed : (t : TypeId) → InCycle t → (u : TypeId) × (next program t ≡ follow u) × InCycle u
unfolding next
InCycle-closed t (inl e) = (15, ap (next program) e, inr refl)
InCycle-closed t (inr e) = (14, ap (next program) e, inl refl)

cycle_never_ends_example : follow_aliases 1000 program 14 ≡ none
cycle_never_ends_example = cycle_never_ends program InCycle InCycle-closed 1000 14 (inl refl)

abbrev byte_field : Field
byte_field = record { field_name = codes "b"; type_name = codes "byte"; field_type = some t_byte }

abbrev name_field : Field
name_field = record { field_name = codes "n"; type_name = codes "Name"; field_type = some 13 }

abbrev age_field : Field
age_field = record { field_name = codes "a"; type_name = codes "Age"; field_type = some 12 }

abbrev person : List Field
person = byte_field ∷ name_field ∷ byte_field ∷ []

byte-Laid : Laid program byte_field 1
byte-Laid =
    primitive {r = record { id = t_byte; desc = primitive_desc int8 }} int8 refl
      (unfold get_underlying_type follow_aliases next in refl) (unfold is_ref_type in refl) refl _
      refl refl refl (omega arith)

name-Laid : Laid program name_field 8
name-Laid =
    reference {r = name_type} refl (unfold get_underlying_type follow_aliases next in refl)
      (unfold is_ref_type in refl) refl _ refl

get_record_desc_size-AllLaid_example :
    (size : ℕ) × (align : ℕ) × (get_record_desc_size program person ≡ some size)
    × (get_record_desc_align program person ≡ some align)
    × (10 ≤ size)
    × (size ≤ 24)
    × (size % align ≡ 0)
get_record_desc_size-AllLaid_example =
    get_record_desc_size-AllLaid program person (1 ∷ 8 ∷ 1 ∷ [])
      (byte-Laid, (name-Laid, (byte-Laid, tt))) (omega arith)

get_record_desc_size-undefined_example :
    get_record_desc_size program (byte_field ∷ age_field ∷ []) ≡ none
get_record_desc_size-undefined_example =
    get_record_desc_size-undefined program (byte_field ∷ age_field ∷ []) (
      inr (
        inr (
          inl (
            12,
            int_type,
            record { type_name = codes "Age"; desc = alias_desc (codes "int") (some t_int) },
            codes "int",
            some t_int,
            refl,
            (unfold get_underlying_type follow_aliases next in refl),
            (unfold is_ref_type in refl),
            refl,
            refl,
          ))))
