-- ===== src/Sem/Silence/Definitions.antt =====
-- Definitions (src/libmonga/sem.c): the steps of the passes that log no message when they answer
-- true.
use monga.Prelude.{
  ℕ, ◌+◌, ◌≡◌, refl, Bool, true, false, ◌&&◌, ◌||◌, Option, none, some, List, [], ◌∷◌, get_elem?,
  set, erase_idx, CString,
}
use monga.Ast.{
  TypeId, FuncId, TypeDesc, Field, alias_desc, record_desc, array_desc, primitive_desc,
  special_desc,
}
use monga.Sem.Scope.{Scope, Symbol, add_symbol}
use monga.Sem.State.{Ctx, M, ◌>>=◌, ◌>>◌, return, add_used_type, Message, try_register_symbol}
use monga.Sem.Frame.{Ensures}
use monga.Sem.Silence.{
  Silent, Fails, Fails-return, Fails-bind, Fails-after, Fails-Silent, Silent-bind, Silent-then,
  Silent-return, Silent-lift, Silent-reject, Silent-if,
}
use monga.Sem.Silence.Expressions.{Silent-find_or_create_array_type}
use monga.Sem.Silence.Steps.{
  fine, Silent-try_register_symbol, Silent-add_used_type, Silent-push_scope, Silent-pop_scope,
  Silent-in_scope,
}
use monga.Sem.Silence.Statements.{rejected_last, rejected_first, Silent-block}
use monga.Sem.Functions.{
  update_func, type_or_error, declare_params, remove_symbol, finish_declaration, declare_signature,
  declare_registered, resolve_function_declaration, force_symbol, add_params, is_void,
  check_returns, resolve_body, resolve_function_impl,
}
use monga.Sem.Descriptions.{
  create_anonymous_record, field_or_error, resolve_fields, element_of, fields_resolved,
  resolve_type_desc, resolve_type_declaration, write_desc, resolve_type_definition,
}
use monga.Syntax.{Param, Block, FuncDef}

-- The type of a name was found.
abbrev known_type : TypeId × Bool → Bool
known_type (t, known) = known

-- A step that changes the context, though not its messages, by a result that it may not find.
Silent-try :
    {A B : Type 0} {good : A → Bool} (find : Ctx → Option B) (k : Ctx → B → A × Ctx)
    → ((c : Ctx) (b : B) → (k c b).1.errors ≡ c.errors)
    → Silent {A = A} good (λ c. elim (find c) [ none ↦ none | some b ↦ some (k c b) ])
Silent-try {A} {B} {good} find k h = record { silent = λ c. go c (find c) }
  where
    go :
        (c : Ctx) (r : Option B)
        → Ensures {A = A}
            (λ a c'. good a ≡ true → c'.errors ≡ c.errors)
            (elim r [ none ↦ none | some b ↦ some (k c b) ])
    go c none = tt
    go c (some b) = λ e. h c b

Silent-update_func :
    {good : Unit {0} → Bool} (f : FuncId) (change : FuncDef → FuncDef)
    → Silent good (update_func f change)
unfolding update_func
Silent-update_func f change =
    Silent-try (λ c. get_elem? c.funcs f)
      (λ c def. (tt, record c { funcs = set c.funcs f (change def) })) (λ c def. refl)

Silent-write_desc :
    {good : Unit {0} → Bool} (t : TypeId) (desc : TypeDesc) → Silent good (write_desc t desc)
unfolding write_desc
Silent-write_desc t desc =
    Silent-try (λ c. get_elem? c.types t)
      (λ c d. (tt, record c { types = set c.types t (record d { desc = desc }) })) (λ c d. refl)

Silent-force_symbol : {good : Unit {0} → Bool} (d : Symbol) → Silent good (force_symbol d)
unfolding force_symbol
Silent-force_symbol d =
    Silent-try (λ c. add_symbol c.scopes d) (λ c after. (tt, record c { scopes = after }))
      (λ c after. refl)

Silent-create_anonymous_record :
    {good : TypeId → Bool} (desc : TypeDesc) → Silent good (create_anonymous_record desc)
unfolding create_anonymous_record
Silent-create_anonymous_record desc =
    Silent-try _
      (λ c after. (_, record c { types = _; scopes = after; anonymous = _; anon_rec_count = _ }))
      (λ c after. refl)

Silent-remove_symbol : {good : Unit {0} → Bool} (i : ℕ) → Silent good (remove_symbol i)
unfolding remove_symbol
Silent-remove_symbol {good} i = record { silent = λ c. go c c.scopes }
  where
    go :
        (c : Ctx) (l : List Scope)
        → Ensures {A = Unit}
            (λ u c'. good u ≡ true → c'.errors ≡ c.errors)
            (elim l [
              | [] ↦ none
              | s ∷ parents ↦ some (tt, record c { scopes = erase_idx s i ∷ parents })
            ])
    go c [] = tt
    go c (s ∷ parents) = λ e. refl

Silent-type_or_error : (m : Message) (name : CString) → Silent known_type (type_or_error m name)
unfolding type_or_error
Silent-type_or_error m name = Silent-then (Silent-lift _) (elim [
  | none ↦ Fails-Silent (Fails-bind _ (λ u. Fails-return _ refl))
  | some t ↦ Silent-return _
])

Fails-declare_params :
    (f : FuncId) (i : ℕ) (ps : List Param) (ret : Bool)
    → ret ≡ false
    → Fails fields_resolved (declare_params f i ps ret)
unfolding declare_params
Fails-declare_params f i [] ret e = Fails-return _ e
Fails-declare_params f i (p ∷ ps) ret e = Fails-bind _ (λ (t, known). Fails-bind _ (λ u.
    Fails-bind _ (elim [
      | false ↦ Fails-return _ refl
      | true ↦
          Fails-bind _
            (λ v. Fails-declare_params f (i + 1) ps (known && ret) (rejected_last known ret e))
    ])))

-- A registration, and what follows it.
Silent-registered :
    {A : Type 0} {good : A → Bool} (s : Symbol) (k : Bool → M A)
    → Silent good (k true)
    → Fails good (k false)
    → Silent good (try_register_symbol s >>= k)
Silent-registered s k h l =
    Silent-bind (Silent-try_register_symbol s) (elim [ false ↦ λ e. cc | true ↦ λ e. h ])
      (elim [ false ↦ λ e. l | true ↦ λ e. cc ])

Silent-declare_params :
    (f : FuncId) (i : ℕ) (ps : List Param) (ret : Bool)
    → Silent fields_resolved (declare_params f i ps ret)
unfolding declare_params
Silent-declare_params f i [] ret = Silent-return _
Silent-declare_params f i (p ∷ ps) ret =
    Silent-bind (Silent-type_or_error _ _)
      (λ (t, known) e. Silent-then (Silent-update_func f _) (λ u.
        Silent-registered _ _
          (Silent-then (Silent-add_used_type t)
            (λ v. Silent-declare_params f (i + 1) ps (known && ret)))
          (Fails-return _ refl)))
      (λ (t, known) e. Fails-bind _ (λ u. Fails-bind _ (elim [
        | false ↦ Fails-return _ refl
        | true ↦
            Fails-bind _
              (λ v. Fails-declare_params f (i + 1) ps (known && ret) (rejected_first known ret e))
      ])))

Silent-entry :
    {good : Unit {0} → Bool} (entry : Ctx → Bool)
    → Silent good (λ c. some (tt, record c { has_entry_point = entry c }))
Silent-entry entry = record { silent = λ c e. refl }

Silent-answer :
    (t : TypeId) (ret : Bool)
    → Silent fine (elim ret [ false ↦ return false | true ↦ add_used_type t >> return true ])
Silent-answer t false = Silent-return _
Silent-answer t true = Silent-then (Silent-add_used_type t) (λ u. Silent-return _)

Silent-finish :
    (f : FuncId) (t : TypeId) (index : ℕ) (r : Option Bool)
    → Silent fine (finish_declaration f t index r)
unfolding finish_declaration
Silent-finish f t index none =
    Silent-then Silent-pop_scope
      (λ u. Silent-then (Silent-remove_symbol index) (λ v. Silent-return _))
Silent-finish f t index (some ret) = Silent-then Silent-pop_scope (λ u.
    Silent-then (Silent-lift _) (λ def.
      Silent-then (Silent-update_func f _)
        (λ v. Silent-then (Silent-entry _) (λ w. Silent-answer t ret))))

Fails-answer :
    (t : TypeId) (ret : Bool)
    → ret ≡ false
    → Fails fine (elim ret [ false ↦ return false | true ↦ add_used_type t >> return true ])
Fails-answer t false e = Fails-return _ refl
Fails-answer t true e = cc

Fails-finish :
    (f : FuncId) (t : TypeId) (index : ℕ) (r : Option Bool)
    → fields_resolved r ≡ false
    → Fails fine (finish_declaration f t index r)
unfolding finish_declaration
Fails-finish f t index none e = Fails-bind _ (λ u. Fails-bind _ (λ v. Fails-return _ refl))
Fails-finish f t index (some ret) e =
    Fails-bind _
      (λ u. Fails-bind _ (λ def. Fails-bind _ (λ v. Fails-bind _ (λ w. Fails-answer t ret e))))

pub Silent-function_declaration : (f : FuncId) → Silent fine (resolve_function_declaration f)
unfolding resolve_function_declaration declare_registered declare_signature
Silent-function_declaration f = Silent-then (Silent-lift _) (λ def.
    Silent-registered _ _
      (Silent-then (Silent-lift _) (λ index.
        Silent-bind (Silent-type_or_error _ _)
          (λ (t, known) e. Silent-then (Silent-update_func f _) (λ u.
            Silent-then Silent-push_scope (λ v.
              Silent-bind (Silent-declare_params f 0 def.params known)
                (λ r e. Silent-finish f t index r) (λ r e. Fails-finish f t index r e))))
          (λ (t, known) e.
            Fails-bind _ (λ u. Fails-bind _ (λ v. declared f t index def.params known e)))))
      (Fails-return _ refl))
  where
    declared :
        (f : FuncId) (t : TypeId) (index : ℕ) (ps : List Param) (ret : Bool)
        → ret ≡ false
        → Fails fine (declare_params f 0 ps ret >>= finish_declaration f t index)
    declared f t index ps ret e =
        Fails-after (Fails-declare_params f 0 ps ret e) (λ r e. Fails-finish f t index r e)

-- The first of the two results of a description, and of its fields.
abbrev pub described : {A : Type 0} → Bool × A → Bool
described (ok, a) = ok

abbrev fields_described : Option Bool × List Field → Bool
fields_described (r, fs) = fields_resolved r

Silent-field : (f : Field) → Silent known_type (field_or_error f)
unfolding field_or_error
Silent-field f = Silent-then (Silent-lift _) (elim [
  | none ↦ Fails-Silent (Fails-bind _ (λ u. Fails-bind _ (λ v. Fails-return _ refl)))
  | some t ↦ Silent-return _
])

Fails-fields :
    (fs : List Field) (ret : Bool) → ret ≡ false → Fails fields_described (resolve_fields fs ret)
unfolding resolve_fields
Fails-fields [] ret e = Fails-return _ e
Fails-fields (f ∷ fs) ret e = Fails-bind _ (λ (t, known). Fails-bind _ (elim [
  | false ↦ Fails-return _ refl
  | true ↦ Fails-bind _ (λ u.
      Fails-after (Fails-fields fs (known && ret) (rejected_last known ret e))
        (λ (r, fs') f. Fails-return _ f))
]))

Silent-fields : (fs : List Field) (ret : Bool) → Silent fields_described (resolve_fields fs ret)
unfolding resolve_fields
Silent-fields [] ret = Silent-return _
Silent-fields (f ∷ fs) ret =
    Silent-bind (Silent-field f)
      (λ (t, known) e.
        Silent-registered _ _
          (Silent-then (Silent-add_used_type t) (λ u.
            Silent-bind (Silent-fields fs (known && ret)) (λ (r, fs') e. Silent-return _)
              (λ (r, fs') f. Fails-return _ f)))
          (Fails-return _ refl))
      (λ (t, known) e. Fails-bind _ (elim [
        | false ↦ Fails-return _ refl
        | true ↦ Fails-bind _ (λ u.
            Fails-after (Fails-fields fs (known && ret) (rejected_first known ret e))
              (λ (r, fs') f. Fails-return _ f))
      ]))

Silent-element : {good : TypeId → Bool} (d : TypeDesc) → Silent good (element_of d)
unfolding element_of
Silent-element (array_desc d e) =
    Silent-then (Silent-lift _) (λ t. Silent-find_or_create_array_type t)
Silent-element (alias_desc name t) = Silent-lift _
Silent-element (record_desc fs) = Silent-create_anonymous_record _
Silent-element (primitive_desc code) = record { silent = λ c. tt }
Silent-element special_desc = record { silent = λ c. tt }

Silent-desc : (d : TypeDesc) → Silent described (resolve_type_desc d)
unfolding resolve_type_desc
Silent-desc (alias_desc name old) =
    Silent-bind (Silent-type_or_error _ name)
      (λ (t, known) e. Silent-then (Silent-add_used_type t) (λ u. Silent-return _))
      (λ (t, known) e. Fails-bind _ (λ u. Fails-return _ e))
Silent-desc (record_desc fs) = Silent-then Silent-push_scope (λ u.
    Silent-bind (Silent-fields fs true)
      (λ (r, fs') e. Silent-then Silent-pop_scope (λ v. Silent-return _))
      (λ (r, fs') e. Fails-bind _ (λ v. Fails-return _ e)))
Silent-desc (array_desc inner old) =
    Silent-bind (Silent-desc inner)
      (λ (ok, inner') e. rw e (
        Silent-then (Silent-element inner')
          (λ t. Silent-then (Silent-add_used_type t) (λ u. Silent-return _))))
      (λ (ok, inner') e. rw e (Fails-return _ refl))
Silent-desc (primitive_desc code) = Silent-return _
Silent-desc special_desc = Silent-return _

pub Silent-type_declaration : (t : TypeId) → Silent fine (resolve_type_declaration t)
unfolding resolve_type_declaration
Silent-type_declaration t = Silent-then (Silent-lift _) (λ d. Silent-try_register_symbol _)

pub Silent-type_definition : (t : TypeId) → Silent fine (resolve_type_definition t)
unfolding resolve_type_definition
Silent-type_definition t = Silent-then (Silent-lift _) (λ d.
    Silent-bind (Silent-desc d.desc)
      (λ (ok, desc) e. Silent-then (Silent-write_desc t desc) (λ u. Silent-return _))
      (λ (ok, desc) e. Fails-bind _ (λ u. Fails-return _ e)))

Silent-add_params : {good : Unit {0} → Bool} (ps : List Param) → Silent good (add_params ps)
unfolding add_params
Silent-add_params [] = Silent-return _
Silent-add_params (p ∷ ps) = Silent-then (Silent-force_symbol _) (λ u. Silent-add_params ps)

Silent-check_returns :
    (ret : Option TypeId) (ok exits : Bool) → Silent fine (check_returns ret (ok, exits))
unfolding check_returns
Silent-check_returns ret false exits = Silent-return _
Silent-check_returns ret true exits =
    Silent-if (is_void ret || exits) (Silent-return _) (Silent-reject _)

Fails-check_returns :
    (ret : Option TypeId) (ok exits : Bool)
    → ok ≡ false
    → Fails fine (check_returns ret (ok, exits))
unfolding check_returns
Fails-check_returns ret false exits e = Fails-return _ refl
Fails-check_returns ret true exits e = cc

Silent-impl_body :
    (def : FuncDef) (body : Option Block)
    → Silent fine (elim body [ none ↦ return true | some x ↦ resolve_body def x ])
unfolding resolve_body
Silent-impl_body def none = Silent-return _
Silent-impl_body def (some x) =
    Silent-bind
      (Silent-in_scope
        (Silent-then (Silent-add_params def.params) (λ u. Silent-block def.return_type x)))
      (λ (ok, exits) e. Silent-check_returns def.return_type ok exits)
      (λ (ok, exits) e. Fails-check_returns def.return_type ok exits e)

pub Silent-function_impl : (f : FuncId) → Silent fine (resolve_function_impl f)
unfolding resolve_function_impl
Silent-function_impl f = Silent-then (Silent-lift _) (λ def. Silent-impl_body def def.body)
