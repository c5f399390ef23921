-- ===== src/Sem/State.antt =====
-- The context of the analysis, `struct SemAnalysisCtx_` of src/libmonga/sem.c, as a state, and the
-- steps that read and write it. `none` is a step that does not return: an endless loop over
-- aliases, or an access through a NULL pointer. Memory is assumed to suffice.
use monga.Prelude.{
  ℕ, Bool, true, false, ◌||◌, Option, none, some, List, [], ◌∷◌, ◌++◌, ◌==◌, if◌then◌else◌, length,
  get_elem?, CString, codes,
}
use monga.Ast.{TypeId, TypeDef, alias_desc, array_desc}
use monga.Error.{RetCode}
use monga.Sem.Scope.{Symbol, sym_type, Scope, find_symbol, add_symbol, try_add_symbol}
use monga.Syntax.{FuncDef}

-- One constructor for each call of `LogError`.
pub data Message : Type 0 where
  redeclaration reserved_name : CString → Message
  undeclared_variable not_a_variable : CString → Message
  field_of_unstructured : Message
  no_such_field : CString → Message
  bad_index not_indexable : Message
  undefined_function not_callable : CString → Message
  too_few_arguments too_many_arguments argument_mismatch : CString → Message
  invalid_comparison ambiguous_conditional invalid_unop invalid_binop : Message
  cast_to_unknown_type bad_cast : CString → Message
  new_of_unknown_type : CString → Message
  bad_array_size new_of_value : Message
  unknown_variable_type : CString → Message
  bad_assignment immutable_string : Message
  empty_return bad_return outside_loop : Message
  unknown_return_type unknown_parameter_type : CString → Message
  missing_return : Message
  unresolved_alias unknown_field_type : CString → Message

pub record Ctx : Type 0 where
  -- the type definitions that nodes point to, and the functions
  pub types : List TypeDef
  pub funcs : List FuncDef
  -- `currentScope` and its parents
  pub scopes : List Scope
  -- `currentAst->semantic.usedTypes`
  pub used_types : List TypeId
  -- definitions that the analysis added to the tree
  pub anonymous : List TypeId
  pub anon_rec_count : ℕ
  pub loop_level : ℕ
  pub has_entry_point : Bool
  -- what went to `errStream`, the latest first
  pub errors : List Message

abbrev pub M : Type 0 → Type 0
M A = Ctx → Option (A × Ctx)

infixl 5 ◌>>=◌ ◌>>◌
unfoldable pub ◌>>=◌ : {A B : Type 0} → M A → (A → M B) → M B
◌>>=◌ m f c = elim (m c) [ none ↦ none | some (a, c') ↦ f a c' ]

abbrev pub ◌>>◌ : {B : Type 0} → M (Unit {0}) → M B → M B
m >> k = m >>= λ _. k

unfoldable pub return : {A : Type 0} → A → M A
return a c = some (a, c)

-- A step that does not change the context, and may not return.
unfoldable pub lift : {A : Type 0} → (Ctx → Option A) → M A
lift f c = elim (f c) [ none ↦ none | some a ↦ some (a, c) ]

unfoldable pub log_error : Message → M (Unit {0})
log_error m c = some (tt, record c { errors = m ∷ c.errors })

-- Log a message and answer false.
abbrev pub reject : Message → M Bool
reject m = do log_error m; return false

-- Log a message and leave the expression without a type.
abbrev pub no_type : {A : Type 0} → Message → M (Option A)
no_type m = do log_error m; return none

abbrev pub mem_type : TypeId → List TypeId → Bool
mem_type t [] = false
mem_type t (u ∷ us) = u == t || mem_type t us

-- `AddUsedType`
unfoldable pub add_used_type : TypeId → M (Unit {0})
add_used_type t c =
    some
      (tt, if mem_type t c.used_types then c else record c { used_types = c.used_types ++ t ∷ [] })

-- `PushScope`
unfoldable pub push_scope : M (Unit {0})
push_scope c = some (tt, record c { scopes = [] ∷ c.scopes })

-- `PopScope`, which reads the current scope's parent.
unfoldable pub pop_scopes : List Scope → Option (List Scope)
pop_scopes [] = none
pop_scopes (s ∷ parents) = some parents

unfoldable pub pop_scope : M (Unit {0})
unfolding pop_scopes
pop_scope c = elim (pop_scopes c.scopes) [
  | none ↦ none
  | some parents ↦ some (tt, record c { scopes = parents })
]

-- What `TryRegisterSymbol` makes of the code.
unfoldable pub register_outcome : CString → RetCode → M Bool
register_outcome name RetCode.success = return true
register_outcome name RetCode.err_duplicate = reject (Message.redeclaration name)
register_outcome name RetCode.err_builtin = reject (Message.reserved_name name)
register_outcome name _ = return false

-- `TryRegisterSymbol`
unfoldable pub try_register_symbol : Symbol → M Bool
unfolding register_outcome
try_register_symbol sym c = elim (try_add_symbol c.scopes sym) [
  | none ↦ none
  | some (code, after) ↦ register_outcome sym.sym_name code (record c { scopes = after })
]

abbrev pub type_name_of : Ctx → TypeId → Option CString
type_name_of c t = elim (get_elem? c.types t) [ none ↦ none | some d ↦ some d.type_name ]

-- The first part of `FindOrCreateArrayType`: the prefix and the element type's name.
abbrev pub array_name : CString → CString
array_name inner = codes ".array_" ++ inner

-- The second part: a new definition, its symbol in the current scope, and its place in the tree.
unfoldable pub create_array_type : CString → TypeId → M TypeId
create_array_type inner_name inner c =
    let t = length c.types in
    let def : TypeDef = record {
      type_name = array_name inner_name;
      desc = array_desc (alias_desc inner_name (some inner)) (some inner);
    } in
    elim (add_symbol c.scopes (record { definition = sym_type t; sym_name = def.type_name })) [
      | none ↦ none
      | some after ↦ some (
        t,
        record c { types = c.types ++ def ∷ []; scopes = after; anonymous = c.anonymous ++ t ∷ [] },
      )
    ]

-- `FindOrCreateArrayType`. A symbol of that name is a type: no name of a program begins with a dot.
unfoldable pub find_or_create_array_type : TypeId → M TypeId
unfolding create_array_type
find_or_create_array_type inner = do
  name ← lift (λ c. type_name_of c inner)
  found ← lift (λ c. some (find_symbol c.scopes (array_name name)))
  elim found [
    | none ↦ create_array_type name inner
    | some sym ↦ elim sym.definition [ sym_type t ↦ return t | _ ↦ λ c. none ]
  ]
