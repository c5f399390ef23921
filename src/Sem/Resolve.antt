-- ===== src/Sem/Resolve.antt =====
-- `ResolveExpression`, `ResolveVar`, `ResolveCondition` and `ResolveCall` of src/libmonga/sem.c.
-- The tree comes from the parser with no types in it, and each expression is visited once: the type
-- that the source stores in a node is the result here, and no result is the source's `false`.
use monga.Prelude.{
  ℕ, suc, ◌-◌, ◌^◌, Bool, true, false, Option, none, some, List, [], ◌∷◌, ltb, ◌==◌, if◌then◌else◌,
  length, get_elem?, CString,
}
use monga.Ast.{TypeId, FuncId}
use monga.Sem.Builtins.{t_char, t_int, t_long, t_double, t_null, t_error}
use monga.Sem.Scope.{Symbol, sym_param, sym_func, sym_var, find_symbol, find_type}
use monga.Sem.State.{
  M, ◌>>=◌, ◌>>◌, return, lift, log_error, reject, no_type, Message, find_or_create_array_type,
}
use monga.Sem.Types.{
  Resolved, get_underlying_type, is_integer_type, is_structured_type, is_ref_type,
  is_type_assignable_from,
}
use monga.Sem.Types.Ops.{
  get_unop_result_type, get_binop_result_type, get_cond_exp_result_type, get_indexed_type,
  get_type_field, type_can_compare, is_type_castable_from,
}
use monga.Syntax.{Exp, Var, Cond, Exps, Literal, FuncDef, Param}

-- A test of `sem/types.c` on a type of the context.
abbrev pub test_type : (Resolved → Bool) → TypeId → M Bool
test_type p t =
    lift (λ c. elim (get_underlying_type c.types t) [ none ↦ none | some r ↦ some (p r) ])

-- A type, if the operation has one, else the message.
abbrev pub typed_or : Message → Option TypeId → M (Option TypeId)
typed_or m none = no_type m
typed_or m (some t) = return (some t)

-- What `ResolveVar` leaves in a variable's `semantic.type`, which may be NULL; `none` is its `false`.
abbrev pub VarType : Type 0
VarType = Option (Option TypeId)

-- What the symbol behind a name is, used as a variable.
unfoldable pub direct_type : CString → Option Symbol → M VarType
direct_type name none = no_type (Message.undeclared_variable name)
direct_type name (some sym) = elim sym.definition [
  | sym_var t ↦ return (some (some t))
  | sym_param t ↦ return (some t)
  | _ ↦ no_type (Message.not_a_variable name)
]

-- The field access, once the expression has the type `t`.
unfoldable pub field_type : TypeId → CString → M VarType
field_type t name =
    if t == t_error
    then return none
    else test_type is_structured_type t >>= elim [
      | false ↦ no_type Message.field_of_unstructured
      | true ↦ lift (λ c. get_type_field c.types t name) >>= elim [
        | none ↦ no_type (Message.no_such_field name)
        | some f ↦ return (some f.field_type)
      ]
    ]

-- The indexing, once both expressions have types.
unfoldable pub indexed_type : TypeId → TypeId → M VarType
indexed_type t index = test_type is_integer_type index >>= elim [
  | false ↦ no_type Message.bad_index
  | true ↦
      lift (λ c. get_indexed_type c.types t)
      >>= elim [ none ↦ no_type Message.not_indexable | some e ↦ return (some (some e)) ]
]

unfoldable pub cast_type : TypeId → CString → M (Option TypeId)
cast_type castee name = do
  target ← lift (λ c. some (find_type c.scopes name))
  elim target [
    | none ↦ no_type (Message.cast_to_unknown_type name)
    | some t ↦ do
      ok ← lift (λ c. is_type_castable_from c.types t castee)
      if ok then return (some t) else no_type (Message.bad_cast name)
  ]

unfoldable pub literal_type : Literal → M (Option TypeId)
literal_type (Literal.int n) = return (some (if ltb (2 ^ 31 - 1) n then t_long else t_int))
literal_type Literal.float = return (some t_double)
literal_type (Literal.str s) = do t ← find_or_create_array_type t_char; return (some t)
literal_type (Literal.char c) = return (some t_char)

-- `new T`
unfoldable pub new_object_type : CString → M (Option TypeId)
new_object_type name = do
  found ← lift (λ c. some (find_type c.scopes name))
  elim found [
    | none ↦ no_type (Message.new_of_unknown_type name)
    | some t ↦ do
      ref ← test_type is_ref_type t
      if ref then return (some t) else no_type Message.new_of_value
  ]

-- `new T[e]`, once the size has a type; `T` was found before the size was looked at.
unfoldable pub new_array_type : TypeId → TypeId → M (Option TypeId)
new_array_type t size = do
  integer ← test_type is_integer_type size
  elim integer [
    | false ↦ no_type Message.bad_array_size
    | true ↦ do array ← find_or_create_array_type t; return (some array)
  ]

-- What the name of a call stands for.
pub data Callee : Type 0 where
  function : FuncId → Callee
  undefined : Callee
  no_function : Callee

unfoldable pub callee_of : Option Symbol → Callee
callee_of none = Callee.undefined
callee_of (some sym) = elim sym.definition [
  | sym_func f ↦ Callee.function f
  | _ ↦ Callee.no_function
]

unfoldable pub count_exps : Exps → ℕ
count_exps Exps.nil = 0
count_exps (Exps.cons e es) = suc (count_exps es)

-- The type of the next parameter, `paramDef->semantic.type`; `none` for a NULL pointer.
abbrev pub next_param : List Param → Option TypeId
next_param [] = none
next_param (p ∷ ps) = p.param_type

abbrev pub later_params : List Param → List Param
later_params [] = []
later_params (p ∷ ps) = ps

-- Run `k` on the type of an expression that has one.
abbrev pub with_type : {A : Type 0} → M (Option TypeId) → (TypeId → M (Option A)) → M (Option A)
with_type m k = m >>= elim [ none ↦ return none | some t ↦ k t ]

abbrev pub test_types : M (Option TypeId) → (TypeId → M Bool) → M Bool
test_types m k = m >>= elim [ none ↦ return false | some t ↦ k t ]

-- The two checks on the number of arguments, and then `pass`, which resolves them.
unfoldable pub check_call : CString → ℕ → (List Param → M Bool) → FuncDef → M (Option FuncDef)
check_call name passed pass f =
    if ltb passed (length f.params)
    then log_error (Message.too_few_arguments name) >> return none
    else if ltb (length f.params) passed
    then log_error (Message.too_many_arguments name) >> return none
    else (do ok ← pass f.params; return (if ok then some f else none))

-- `ResolveCall`: the callee, or `none` for the result false.
unfoldable pub call_with : CString → ℕ → (List Param → M Bool) → M (Option FuncDef)
unfolding callee_of check_call
call_with name passed pass = do
  found ← lift (λ c. some (find_symbol c.scopes name))
  elim (callee_of found) [
    | Callee.undefined ↦ log_error (Message.undefined_function name) >> return none
    | Callee.no_function ↦ log_error (Message.not_callable name) >> return none
    | Callee.function f ↦ do def ← lift (λ c. get_elem? c.funcs f); check_call name passed pass def
  ]

-- The type of a call. `ResolveFunctionDeclaration` has set the callee's `returnType` before a body
-- is resolved; a NULL pointer there is a step that does not return.
abbrev pub call_type : Option FuncDef → M (Option TypeId)
call_type none = return none
call_type (some f) = do t ← lift (λ c. f.return_type); return (some t)

unfoldable mutual
  pub resolve_exp : Exp → M (Option TypeId)
  resolve_exp (Exp.conditional b x y) = do
    ok ← resolve_cond b
    elim ok [
      | false ↦ return none
      | true ↦ with_type (resolve_exp x) (λ t. with_type (resolve_exp y) (λ u. do
        result ← lift (λ c. get_cond_exp_result_type c.types t u)
        typed_or Message.ambiguous_conditional result))
    ]
  resolve_exp (Exp.unop op x) = with_type (resolve_exp x) (λ t. do
    result ← lift (λ c. get_unop_result_type c.types t op)
    typed_or Message.invalid_unop result)
  resolve_exp (Exp.binop op x y) = with_type (resolve_exp x) (λ t. with_type (resolve_exp y) (λ u.
      do
        result ← lift (λ c. get_binop_result_type c.types t u op)
        typed_or Message.invalid_binop result))
  resolve_exp (Exp.cast x name) = with_type (resolve_exp x) (λ t. cast_type t name)
  resolve_exp (Exp.variable v) = do r ← resolve_var v; return (elim r [ none ↦ none | some t ↦ t ])
  resolve_exp (Exp.literal l) = literal_type l
  resolve_exp (Exp.call name args) = do
    callee ← call_with name (count_exps args) (resolve_args args name)
    call_type callee
  resolve_exp (Exp.new_object name) = new_object_type name
  resolve_exp (Exp.new_array name size) = do
    found ← lift (λ c. some (find_type c.scopes name))
    elim found [
      | none ↦ no_type (Message.new_of_unknown_type name)
      | some t ↦ with_type (resolve_exp size) (λ u. new_array_type t u)
    ]
  resolve_exp Exp.null = return (some t_null)

  pub resolve_var : Var → M VarType
  resolve_var (Var.direct name) = do
    found ← lift (λ c. some (find_symbol c.scopes name))
    direct_type name found
  resolve_var (Var.field x name) = with_type (resolve_exp x) (λ t. field_type t name)
  resolve_var (Var.indexed x i) =
      with_type (resolve_exp x) (λ t. with_type (resolve_exp i) (λ u. indexed_type t u))

  pub resolve_cond : Cond → M Bool
  resolve_cond (Cond.bin op negate l r) = do
    ok ← resolve_cond l
    elim ok [ true ↦ resolve_cond r | false ↦ return false ]
  resolve_cond (Cond.compar op negate l r) = test_types (resolve_exp l) (λ t.
      test_types (resolve_exp r) (λ u. do
        ok ← lift (λ c. type_can_compare c.types t u op)
        if ok then return true else reject Message.invalid_comparison))

  -- The loop over the arguments, with the parameters that are left.
  pub resolve_args : Exps → CString → List Param → M Bool
  resolve_args Exps.nil name params = return true
  resolve_args (Exps.cons e es) name params = test_types (resolve_exp e) (λ t. do
    expected ← lift (λ c. next_param params)
    ok ← lift (λ c. is_type_assignable_from c.types expected t)
    elim ok [
      | true ↦ resolve_args es name (later_params params)
      | false ↦ reject (Message.argument_mismatch name)
    ])
