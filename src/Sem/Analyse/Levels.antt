-- ===== src/Sem/Analyse/Levels.antt =====
-- Every step of the passes of src/libmonga/sem.c ends at the loop level it began at.
use monga.Prelude.{
  ℕ, ◌+◌, ◌≡◌, refl, ◌∙◌, Bool, true, false, ◌&&◌, Option, none, some, List, [], ◌∷◌, get_elem?,
  set, erase_idx, CString,
}
use monga.Ast.{
  TypeId, FuncId, TypeDesc, Field, alias_desc, record_desc, array_desc, primitive_desc,
  special_desc,
}
use monga.Sem.Scope.{Scope, Symbol}
use monga.Sem.State.{
  Ctx, M, ◌>>=◌, ◌>>◌, return, lift, Message, push_scope, pop_scope, pop_scopes, add_used_type,
  try_register_symbol,
}
use monga.Sem.Frame.{
  Ensures, Ensures-bind, Ensures-weaken, Frame, Keeps, Keeps-return, Keeps-lift, Keeps-log_error,
  Keeps-try_register_symbol, Keeps-add_used_type, Keeps-find_or_create_array_type,
}
use monga.Sem.Functions.{
  update_func, type_or_error, declare_params, remove_symbol, finish_declaration, declare_signature,
  declare_registered, resolve_function_declaration,
}
use monga.Sem.Descriptions.{
  create_anonymous_record, field_or_error, resolve_fields, element_of, resolve_type_desc,
  resolve_type_declaration, write_desc, resolve_type_definition,
}
use monga.Syntax.{Param, FuncDef}

pub record Level {A : Type 0} (m : M A) : Type 0 where
  pub level : (c : Ctx) → Ensures (λ a c'. c'.loop_level ≡ c.loop_level) (m c)

pub Keeps-Level : {A : Type 0} {m : M A} → Keeps m → Level m
Keeps-Level {m} h = record {
  level = λ c.
      Ensures-weaken (λ a c'. Frame c c') (λ a c'. c'.loop_level ≡ c.loop_level) (m c) (h.framed c)
        (λ a c' g. g.level);
}

pub Level-bind :
    {A B : Type 0} {m : M A} {f : A → M B} → Level m → ((a : A) → Level (f a)) → Level (m >>= f)
unfolding ◌>>=◌
Level-bind {m} {f} h k = record {
  level = λ c.
      Ensures-bind (λ a c'. c'.loop_level ≡ c.loop_level) (λ b c'. c'.loop_level ≡ c.loop_level) f
        (m c) (h.level c)
        (λ a c' e.
          Ensures-weaken (λ b c''. c''.loop_level ≡ c'.loop_level)
            (λ b c''. c''.loop_level ≡ c.loop_level) (f a c') ((k a).level c')
            (λ b c'' e'. e' ∙ e));
}

pub Level-return : {A : Type 0} (a : A) → Level (return a)
Level-return a = Keeps-Level (Keeps-return a)

pub Level-lift : {A : Type 0} (f : Ctx → Option A) → Level (lift f)
Level-lift f = Keeps-Level (Keeps-lift f)

-- A step that changes the context by a result that it may not find.
Level-try :
    {A B : Type 0} (find : Ctx → Option B) (k : Ctx → B → A × Ctx)
    → ((c : Ctx) (b : B) → (k c b).1.loop_level ≡ c.loop_level)
    → Level {A = A} (λ c. elim (find c) [ none ↦ none | some b ↦ some (k c b) ])
Level-try {A} {B} find k h = record { level = λ c. go c (find c) }
  where
    go :
        (c : Ctx) (r : Option B)
        → Ensures {A = A}
            (λ a c'. c'.loop_level ≡ c.loop_level)
            (elim r [ none ↦ none | some b ↦ some (k c b) ])
    go c none = tt
    go c (some b) = h c b

Level-push_scope : Level push_scope
unfolding push_scope
Level-push_scope = record { level = λ c. refl }

Level-pop_scope : Level pop_scope
unfolding pop_scope
Level-pop_scope =
    Level-try (λ c. pop_scopes c.scopes) (λ c parents. (tt, record c { scopes = parents }))
      (λ c parents. refl)

Level-update_func : (f : FuncId) (change : FuncDef → FuncDef) → Level (update_func f change)
unfolding update_func
Level-update_func f change =
    Level-try (λ c. get_elem? c.funcs f)
      (λ c def. (tt, record c { funcs = set c.funcs f (change def) })) (λ c def. refl)

Level-write_desc : (t : TypeId) (desc : TypeDesc) → Level (write_desc t desc)
unfolding write_desc
Level-write_desc t desc =
    Level-try (λ c. get_elem? c.types t)
      (λ c d. (tt, record c { types = set c.types t (record d { desc = desc }) })) (λ c d. refl)

Level-create_anonymous_record : (desc : TypeDesc) → Level (create_anonymous_record desc)
unfolding create_anonymous_record
Level-create_anonymous_record desc =
    Level-try _
      (λ c after. (_, record c { types = _; scopes = after; anonymous = _; anon_rec_count = _ }))
      (λ c after. refl)

Level-remove_symbol : (i : ℕ) → Level (remove_symbol i)
unfolding remove_symbol
Level-remove_symbol i = record { level = λ c. go c c.scopes }
  where
    go :
        (c : Ctx) (l : List Scope)
        → Ensures {A = Unit}
            (λ u c'. c'.loop_level ≡ c.loop_level)
            (elim l [
              | [] ↦ none
              | s ∷ parents ↦ some (tt, record c { scopes = erase_idx s i ∷ parents })
            ])
    go c [] = tt
    go c (s ∷ parents) = refl

Level-type_or_error : (m : Message) (name : CString) → Level (type_or_error m name)
unfolding type_or_error
Level-type_or_error m name = Level-bind (Level-lift _) (elim [
  | none ↦ Level-bind (Keeps-Level (Keeps-log_error m)) (λ u. Level-return _)
  | some t ↦ Level-return _
])

Level-register : (s : Symbol) → Level (try_register_symbol s)
Level-register s = Keeps-Level (Keeps-try_register_symbol s)

Level-used : (t : TypeId) → Level (add_used_type t)
Level-used t = Keeps-Level (Keeps-add_used_type t)

Level-declare_params :
    (f : FuncId) (i : ℕ) (ps : List Param) (ret : Bool) → Level (declare_params f i ps ret)
unfolding declare_params
Level-declare_params f i [] ret = Level-return _
Level-declare_params f i (p ∷ ps) ret = Level-bind (Level-type_or_error _ _) (λ (t, known).
    Level-bind (Level-update_func f _) (λ u. Level-bind (Level-register _) (elim [
      | false ↦ Level-return _
      | true ↦ Level-bind (Level-used t) (λ v. Level-declare_params f (i + 1) ps (known && ret))
    ])))

Level-entry :
    (entry : Ctx → Bool)
    → Level {A = Unit {0}} (λ c. some (tt, record c { has_entry_point = entry c }))
Level-entry entry = record { level = λ c. refl }

Level-answer :
    (t : TypeId) (ret : Bool)
    → Level (elim ret [ false ↦ return false | true ↦ add_used_type t >> return true ])
Level-answer t false = Level-return _
Level-answer t true = Level-bind (Level-used t) (λ u. Level-return _)

Level-finish :
    (f : FuncId) (t : TypeId) (index : ℕ) (r : Option Bool) → Level (finish_declaration f t index r)
unfolding finish_declaration
Level-finish f t index none =
    Level-bind Level-pop_scope (λ u. Level-bind (Level-remove_symbol index) (λ v. Level-return _))
Level-finish f t index (some ret) = Level-bind Level-pop_scope (λ u.
    Level-bind (Level-lift _) (λ def.
      Level-bind (Level-update_func f _)
        (λ v. Level-bind (Level-entry _) (λ w. Level-answer t ret))))

Level-registered : (f : FuncId) (def : FuncDef) (ok : Bool) → Level (declare_registered f def ok)
unfolding declare_registered declare_signature
Level-registered f def false = Level-return _
Level-registered f def true = Level-bind (Level-lift _) (λ index.
    Level-bind (Level-type_or_error _ _) (λ (t, known). Level-bind (Level-update_func f _) (λ u.
      Level-bind Level-push_scope
        (λ v. Level-bind (Level-declare_params f _ _ _) (λ r. Level-finish f t index r)))))

pub Level-function_declaration : (f : FuncId) → Level (resolve_function_declaration f)
unfolding resolve_function_declaration
Level-function_declaration f =
    Level-bind (Level-lift _)
      (λ def. Level-bind (Level-register _) (λ ok. Level-registered f def ok))

Level-field : (f : Field) → Level (field_or_error f)
unfolding field_or_error
Level-field f = Level-bind (Level-lift _) (elim [
  | none ↦
      Level-bind (Keeps-Level (Keeps-log_error _))
        (λ u. Level-bind Level-pop_scope (λ v. Level-return _))
  | some t ↦ Level-return _
])

Level-fields : (fs : List Field) (ret : Bool) → Level (resolve_fields fs ret)
unfolding resolve_fields
Level-fields [] ret = Level-return _
Level-fields (f ∷ fs) ret = Level-bind (Level-field f) (λ (t, known).
    Level-bind (Level-register _) (elim [
      | false ↦ Level-return _
      | true ↦
          Level-bind (Level-used t)
            (λ u. Level-bind (Level-fields fs (known && ret)) (λ (r, fs'). Level-return _))
    ]))

Level-element : (d : TypeDesc) → Level (element_of d)
unfolding element_of
Level-element (array_desc d e) =
    Level-bind (Level-lift _) (λ t. Keeps-Level (Keeps-find_or_create_array_type t))
Level-element (alias_desc name t) = Level-lift _
Level-element (record_desc fs) = Level-create_anonymous_record _
Level-element (primitive_desc code) = record { level = λ c. tt }
Level-element special_desc = record { level = λ c. tt }

Level-desc : (d : TypeDesc) → Level (resolve_type_desc d)
unfolding resolve_type_desc
Level-desc (alias_desc name old) =
    Level-bind (Level-type_or_error _ name)
      (λ (t, known). Level-bind (Level-used t) (λ u. Level-return _))
Level-desc (record_desc fs) = Level-bind Level-push_scope (λ u.
    Level-bind (Level-fields fs true)
      (λ (r, fs'). Level-bind Level-pop_scope (λ v. Level-return _)))
Level-desc (array_desc inner old) = Level-bind (Level-desc inner) (λ (ok, inner'). go ok inner')
  where
    go :
        (ok : Bool) (inner' : TypeDesc)
        → Level {A = Bool × TypeDesc} (elim ok [
          | false ↦ return (false, array_desc inner' old)
          | true ↦ element_of inner' >>= λ t.
              add_used_type t >> return (true, array_desc inner' (some t))
        ])
    go false inner' = Level-return _
    go true inner' =
        Level-bind (Level-element inner') (λ t. Level-bind (Level-used t) (λ u. Level-return _))
Level-desc (primitive_desc code) = Level-return _
Level-desc special_desc = Level-return _

pub Level-type_declaration : (t : TypeId) → Level (resolve_type_declaration t)
unfolding resolve_type_declaration
Level-type_declaration t = Level-bind (Level-lift _) (λ d. Level-register _)

pub Level-type_definition : (t : TypeId) → Level (resolve_type_definition t)
unfolding resolve_type_definition
Level-type_definition t = Level-bind (Level-lift _) (λ d.
    Level-bind (Level-desc d.desc)
      (λ (ok, desc). Level-bind (Level-write_desc t desc) (λ u. Level-return _)))
