-- ===== src/Sem/Descriptions/Resolved.antt =====
-- What `ResolveTypeDescription` of src/libmonga/sem.c has written into a description that it accepts.
use monga.Prelude.{◌≡◌, refl, Bool, true, false, ◌&&◌, Option, some, List, [], ◌∷◌}
use monga.Ast.{TypeDesc, Field, alias_desc, record_desc, array_desc, primitive_desc, special_desc}
use monga.Sem.State.{Ctx, M, ◌>>=◌, ◌>>◌, return, add_used_type}
use monga.Sem.Frame.{Ensures, Ensures-then, Ensures-of}
use monga.Sem.Statements.Sound.{ensured}
use monga.Sem.Silence.{is_some}
use monga.Sem.Descriptions.{resolve_fields, fields_resolved, resolve_type_desc, element_of}

abbrev pub fields_set : List Field → Bool
fields_set [] = true
fields_set (f ∷ fs) = is_some f.field_type && fields_set fs

-- Every pointer in the description is set: of an alias, of each field of a record, and of an array
-- and whatever is in its elements.
abbrev pub pointers_set : TypeDesc → Bool
pointers_set (alias_desc name t) = is_some t
pointers_set (record_desc fs) = fields_set fs
pointers_set (array_desc inner t) = is_some t && pointers_set inner
pointers_set (primitive_desc code) = true
pointers_set special_desc = false

-- The same description but for its pointers.
abbrev pub SameFields : List Field → List Field → Type 0
SameFields [] [] = Unit
SameFields (f ∷ fs) (g ∷ gs) =
    (g.field_name ≡ f.field_name) × (g.type_name ≡ f.type_name) × SameFields fs gs
SameFields [] (g ∷ gs) = ⊥
SameFields (f ∷ fs) [] = ⊥

abbrev pub SameShape : TypeDesc → TypeDesc → Type 0
SameShape (alias_desc name t) (alias_desc name' t') = name' ≡ name
SameShape (record_desc fs) (record_desc fs') = SameFields fs fs'
SameShape (array_desc d t) (array_desc d' t') = SameShape d d'
SameShape (primitive_desc code) (primitive_desc code') = code' ≡ code
SameShape special_desc special_desc = Unit
SameShape _ _ = ⊥

SameFields-refl : (fs : List Field) → SameFields fs fs
SameFields-refl [] = tt
SameFields-refl (f ∷ fs) = (refl, refl, SameFields-refl fs)

-- What holds whatever the step before returns.
after :
    {A B : Type 0} (P : B → Ctx → Type 0) (m : M A) (f : A → M B) (c : Ctx)
    → ((a : A) (c' : Ctx) → Ensures P (f a c'))
    → Ensures P ((m >>= f) c)
after P m f c h =
    Ensures-then (λ a c'. Unit) P m f c (Ensures-of _ (m c) (λ a c' e. tt)) (λ a c' u. h a c')

FieldsWritten : List Field → Option Bool × List Field → Ctx → Type 0
FieldsWritten fs (r, fs') c = SameFields fs fs' × (fields_resolved r ≡ true → fields_set fs' ≡ true)

resolve_fields-FieldsWritten :
    (fs : List Field) (ret : Bool) (c : Ctx) → Ensures (FieldsWritten fs) (resolve_fields fs ret c)
unfolding resolve_fields FieldsWritten return
resolve_fields-FieldsWritten [] ret c = (tt, λ t. refl)
resolve_fields-FieldsWritten (f ∷ fs) ret c = after (FieldsWritten (f ∷ fs)) _ _ c (λ (t, known) c1.
    after (FieldsWritten (f ∷ fs)) _ _ c1 (elim [
      | false ↦ λ c2. ((refl, refl, SameFields-refl fs), λ e. cc)
      | true ↦ λ c2. after (FieldsWritten (f ∷ fs)) _ _ c2 (λ u c3.
          Ensures-then (FieldsWritten fs) (FieldsWritten (f ∷ fs)) _ _ c3
            (resolve_fields-FieldsWritten fs (known && ret) c3)
            (λ (r, fs') c4 (s, w). ((refl, refl, s), w)))
    ]))

Written : TypeDesc → Bool × TypeDesc → Ctx → Type 0
Written d (ok, d') c = SameShape d d' × (ok ≡ true → pointers_set d' ≡ true)

resolve_type_desc-Written : (d : TypeDesc) (c : Ctx) → Ensures (Written d) (resolve_type_desc d c)
unfolding resolve_type_desc Written FieldsWritten return
resolve_type_desc-Written (alias_desc name old) c =
    after (Written (alias_desc name old)) _ _ c
      (λ (t, known) c1. after (Written (alias_desc name old)) _ _ c1 (λ u c2. (refl, λ e. refl)))
resolve_type_desc-Written (record_desc fs) c = after (Written (record_desc fs)) _ _ c (λ u c1.
    Ensures-then (FieldsWritten fs) (Written (record_desc fs)) _ _ c1
      (resolve_fields-FieldsWritten fs true c1)
      (λ (r, fs') c2 (s, w). after (Written (record_desc fs)) _ _ c2 (λ v c3. (s, w))))
resolve_type_desc-Written (array_desc inner old) c =
    Ensures-then (Written inner) (Written (array_desc inner old)) _ _ c
      (resolve_type_desc-Written inner c) (λ (ok, inner'). answer ok inner')
  where
    answer :
        (ok : Bool) (inner' : TypeDesc) (c1 : Ctx)
        → Written inner (ok, inner') c1
        → Ensures (Written (array_desc inner old)) (
            (elim ok as (λ b. M (Bool × TypeDesc)) [
              | false ↦ return (false, array_desc inner' old)
              | true ↦ element_of inner' >>= λ t.
                  add_used_type t >> return (true, array_desc inner' (some t))
            ])
              c1)
    answer false inner' c1 (s, w) = (s, λ e. cc)
    answer true inner' c1 (s, w) =
        after (Written (array_desc inner old)) _ _ c1
          (λ t c2. after (Written (array_desc inner old)) _ _ c2 (λ u c3. (s, λ e. w refl)))
resolve_type_desc-Written (primitive_desc code) c = (refl, λ e. refl)
resolve_type_desc-Written special_desc c = (tt, λ e. cc)

-- When `ResolveTypeDescription` answers true, every pointer of the description that it leaves is set,
-- in the elements of arrays too, so that the analysis of the bodies finds no NULL in it. On any
-- answer the description is the one that it was given, up to those pointers.
pub resolve_type_desc-pointers_set :
    (d d' : TypeDesc) (c c' : Ctx) (ok : Bool)
    → resolve_type_desc d c ≡ some ((ok, d'), c')
    → SameShape d d' × (ok ≡ true → pointers_set d' ≡ true)
unfolding Written
resolve_type_desc-pointers_set d d' c c' ok e =
    ensured (Written d) (resolve_type_desc d c) (ok, d') c' (resolve_type_desc-Written d c) e
