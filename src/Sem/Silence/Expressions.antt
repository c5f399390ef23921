-- ===== src/Sem/Silence/Expressions.antt =====
-- Resolving an expression (src/libmonga/sem.c) that gets a type logs no message.
use monga.Prelude.{
  ◌≡◌, [], ◌∷◌, ◌++◌, refl, ℕ, Bool, true, false, Option, none, some, List, ltb, ◌==◌, length,
  get_elem?, CString,
}
use monga.Ast.{TypeDef, TypeId}
use monga.Sem.Builtins.{t_error}
use monga.Sem.Types.{Resolved}
use monga.Sem.Scope.{Scope, Symbol, SymbolDef, sym_param, sym_func, sym_var, sym_type, sym_field}
use monga.Sem.State.{
  Ctx, create_array_type, find_or_create_array_type, M, ◌>>=◌, ◌>>◌, return, lift, log_error,
  no_type, Message,
}
use monga.Syntax.{Exp, Var, Cond, Exps, Literal, FuncDef, Param}
use monga.Sem.Resolve.{
  VarType, test_type, typed_or, direct_type, field_type, indexed_type, cast_type, literal_type,
  new_object_type, new_array_type, Callee, callee_of, check_call, call_with, count_exps,
  later_params, call_type, resolve_exp, resolve_var, resolve_cond, resolve_args,
}
use monga.Sem.Frame.{Ensures}
use monga.Sem.Silence.{
  is_some, Silent, Fails-return, Fails-bind, Fails-Silent, Silent-bind, Silent-then, Silent-return,
  Silent-lift, Silent-reject, Silent-no_type, Silent-if, Silent-with_type, Silent-test_types,
}

Silent-typed_or : (m : Message) (t : Option TypeId) → Silent is_some (typed_or m t)
Silent-typed_or m none = Silent-no_type m
Silent-typed_or m (some t) = Silent-return _

Silent-variable :
    (name : CString) (d : SymbolDef)
    → Silent {A = VarType} is_some (elim d [
      | sym_var t ↦ return (some (some t))
      | sym_param t ↦ return (some t)
      | _ ↦ no_type (Message.not_a_variable name)
    ])
Silent-variable name (sym_var t) = Silent-return _
Silent-variable name (sym_param t) = Silent-return _
Silent-variable name (sym_func t) = Silent-no_type _
Silent-variable name (sym_type t) = Silent-no_type _
Silent-variable name sym_field = Silent-no_type _

Silent-direct_type : (name : CString) (s : Option Symbol) → Silent is_some (direct_type name s)
unfolding direct_type
Silent-direct_type name none = Silent-no_type _
Silent-direct_type name (some s) = Silent-variable name s.definition

pub Silent-test_type : (p : Resolved → Bool) (t : TypeId) → Silent (λ b. true) (test_type p t)
Silent-test_type p t = Silent-lift _

Silent-field_type : (t : TypeId) (name : CString) → Silent is_some (field_type t name)
unfolding field_type
Silent-field_type t name = Silent-if (t == t_error) (Silent-return _) (
    Silent-then (Silent-lift _) (elim [
      | false ↦ Silent-no_type _
      | true ↦
          Silent-then (Silent-lift _) (elim [ none ↦ Silent-no_type _ | some f ↦ Silent-return _ ])
    ]))

pub Silent-indexed_type : (t u : TypeId) → Silent is_some (indexed_type t u)
unfolding indexed_type
Silent-indexed_type t u = Silent-then (Silent-lift _) (elim [
  | false ↦ Silent-no_type _
  | true ↦ Silent-then (Silent-lift _) (elim [ none ↦ Silent-no_type _ | some e ↦ Silent-return _ ])
])

Silent-cast_type : (t : TypeId) (name : CString) → Silent is_some (cast_type t name)
unfolding cast_type
Silent-cast_type t name = Silent-then (Silent-lift _) (elim [
  | none ↦ Silent-no_type _
  | some u ↦ Silent-then (Silent-lift _) (λ ok. Silent-if ok (Silent-return _) (Silent-no_type _))
])

Silent-create_array_type :
    {good : TypeId → Bool} (name : CString) (t : TypeId) → Silent good (create_array_type name t)
unfolding create_array_type
Silent-create_array_type {good} name t = record { silent = λ c. go c _ _ _ }
  where
    go :
        (c : Ctx) (d : TypeDef) (made : List TypeId) (r : Option (List Scope))
        → Ensures
            (λ a c'. good a ≡ true → c'.errors ≡ c.errors)
            (elim r [
              | none ↦ none
              | some after ↦ some (
                length c.types,
                record c { types = c.types ++ d ∷ []; scopes = after; anonymous = made },
              )
            ])
    go c d made none = tt
    go c d made (some after) = λ e. refl

Silent-array_symbol :
    {good : TypeId → Bool} (d : SymbolDef)
    → Silent good (elim d [ sym_type t ↦ return t | _ ↦ λ c. none ])
Silent-array_symbol (sym_type t) = Silent-return t
Silent-array_symbol (sym_param t) = record { silent = λ c. tt }
Silent-array_symbol (sym_func t) = record { silent = λ c. tt }
Silent-array_symbol (sym_var t) = record { silent = λ c. tt }
Silent-array_symbol sym_field = record { silent = λ c. tt }

pub Silent-find_or_create_array_type :
    {good : TypeId → Bool} (t : TypeId) → Silent good (find_or_create_array_type t)
unfolding find_or_create_array_type
Silent-find_or_create_array_type t = Silent-then (Silent-lift _) (λ name.
    Silent-then (Silent-lift _)
      (elim [ none ↦ Silent-create_array_type name t | some s ↦ Silent-array_symbol s.definition ]))

Silent-literal_type : (l : Literal) → Silent is_some (literal_type l)
unfolding literal_type
Silent-literal_type (Literal.int n) = Silent-return _
Silent-literal_type Literal.float = Silent-return _
Silent-literal_type (Literal.str s) =
    Silent-then (Silent-find_or_create_array_type _) (λ t. Silent-return _)
Silent-literal_type (Literal.char c) = Silent-return _

Silent-new_object_type : (name : CString) → Silent is_some (new_object_type name)
unfolding new_object_type
Silent-new_object_type name = Silent-then (Silent-lift _) (elim [
  | none ↦ Silent-no_type _
  | some t ↦ Silent-then (Silent-lift _) (λ ok. Silent-if ok (Silent-return _) (Silent-no_type _))
])

Silent-new_array_type : (t u : TypeId) → Silent is_some (new_array_type t u)
unfolding new_array_type
Silent-new_array_type t u = Silent-then (Silent-lift _) (elim [
  | false ↦ Silent-no_type _
  | true ↦ Silent-then (Silent-find_or_create_array_type _) (λ a. Silent-return _)
])

pub Silent-call_with :
    (name : CString) (n : ℕ) (pass : List Param → M Bool)
    → ((ps : List Param) → Silent (λ b. b) (pass ps))
    → Silent is_some (call_with name n pass)
unfolding call_with check_call
Silent-call_with name n pass h = Silent-then (Silent-lift _) (λ found. go (callee_of found))
  where
    refused : (m : Message) → Silent {A = Option FuncDef} is_some (log_error m >> return none)
    refused m = Fails-Silent (Fails-bind _ (λ u. Fails-return _ refl))

    checked : (f : FuncDef) → Silent is_some (check_call name n pass f)
    checked f = Silent-if (ltb n (length f.params)) (refused _) (
        Silent-if (ltb (length f.params) n) (refused _)
          (Silent-bind (h f.params) (λ ok t. Silent-return _) (λ ok e. Fails-return _ (rw e refl))))

    go :
        (k : Callee)
        → Silent is_some (elim k [
          | Callee.undefined ↦ log_error (Message.undefined_function name) >> return none
          | Callee.no_function ↦ log_error (Message.not_callable name) >> return none
          | Callee.function f ↦ lift (λ c. get_elem? c.funcs f) >>= check_call name n pass
        ])
    go Callee.undefined = refused _
    go Callee.no_function = refused _
    go (Callee.function f) = Silent-then (Silent-lift _) checked

Silent-call_type : (f : Option FuncDef) → Silent is_some (call_type f)
Silent-call_type none = Silent-return _
Silent-call_type (some f) = Silent-then (Silent-lift _) (λ t. Silent-return _)

mutual
  unfolding resolve_exp

  pub Silent-resolve_exp : (e : Exp) → Silent is_some (resolve_exp e)
  Silent-resolve_exp (Exp.conditional b x y) =
      Silent-bind (Silent-resolve_cond b)
        (elim [
          | false ↦ λ e. Silent-return _
          | true ↦ λ e. Silent-with_type (Silent-resolve_exp x) (λ t.
              Silent-with_type (Silent-resolve_exp y)
                (λ u. Silent-then (Silent-lift _) (Silent-typed_or _)))
        ])
        (elim [ false ↦ λ e. Fails-return _ refl | true ↦ λ e. cc ])
  Silent-resolve_exp (Exp.unop op x) =
      Silent-with_type (Silent-resolve_exp x) (λ t. Silent-then (Silent-lift _) (Silent-typed_or _))
  Silent-resolve_exp (Exp.binop op x y) = Silent-with_type (Silent-resolve_exp x) (λ t.
      Silent-with_type (Silent-resolve_exp y)
        (λ u. Silent-then (Silent-lift _) (Silent-typed_or _)))
  Silent-resolve_exp (Exp.cast x name) =
      Silent-with_type (Silent-resolve_exp x) (λ t. Silent-cast_type t name)
  Silent-resolve_exp (Exp.variable v) =
      Silent-bind (Silent-resolve_var v) (λ r t. Silent-return _)
        (elim [ none ↦ λ e. Fails-return _ refl | some t ↦ λ e. cc ])
  Silent-resolve_exp (Exp.literal l) = Silent-literal_type l
  Silent-resolve_exp (Exp.call name args) =
      Silent-bind
        (Silent-call_with name (count_exps args) (resolve_args args name)
          (Silent-resolve_args args name))
        (λ f t. Silent-call_type f) (elim [ none ↦ λ e. Fails-return _ refl | some f ↦ λ e. cc ])
  Silent-resolve_exp (Exp.new_object name) = Silent-new_object_type name
  Silent-resolve_exp (Exp.new_array name size) = Silent-then (Silent-lift _) (elim [
    | none ↦ Silent-no_type _
    | some t ↦ Silent-with_type (Silent-resolve_exp size) (λ u. Silent-new_array_type t u)
  ])
  Silent-resolve_exp Exp.null = Silent-return _

  pub Silent-resolve_var : (v : Var) → Silent is_some (resolve_var v)
  Silent-resolve_var (Var.direct name) = Silent-then (Silent-lift _) (Silent-direct_type name)
  Silent-resolve_var (Var.field x name) =
      Silent-with_type (Silent-resolve_exp x) (λ t. Silent-field_type t name)
  Silent-resolve_var (Var.indexed x i) =
      Silent-with_type (Silent-resolve_exp x)
        (λ t. Silent-with_type (Silent-resolve_exp i) (λ u. Silent-indexed_type t u))

  pub Silent-resolve_cond : (b : Cond) → Silent (λ b. b) (resolve_cond b)
  Silent-resolve_cond (Cond.bin op negate l r) =
      Silent-bind (Silent-resolve_cond l)
        (elim [ true ↦ λ e. Silent-resolve_cond r | false ↦ λ e. Silent-return _ ])
        (elim [ true ↦ λ e. cc | false ↦ λ e. Fails-return _ refl ])
  Silent-resolve_cond (Cond.compar op negate l r) = Silent-test_types (Silent-resolve_exp l) (λ t.
      Silent-test_types (Silent-resolve_exp r)
        (λ u. Silent-then (Silent-lift _) (λ ok. Silent-if ok (Silent-return _) (Silent-reject _))))

  pub Silent-resolve_args :
      (es : Exps) (name : CString) (params : List Param)
      → Silent (λ b. b) (resolve_args es name params)
  Silent-resolve_args Exps.nil name params = Silent-return _
  Silent-resolve_args (Exps.cons e es) name params = Silent-test_types (Silent-resolve_exp e) (λ t.
      Silent-then (Silent-lift _) (λ expected. Silent-then (Silent-lift _) (elim [
        | true ↦ Silent-resolve_args es name (later_params params)
        | false ↦ Silent-reject _
      ])))
