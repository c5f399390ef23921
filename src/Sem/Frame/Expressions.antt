-- ===== src/Sem/Frame/Expressions.antt =====
-- Resolving an expression (src/libmonga/sem.c) keeps the frame.
use monga.Prelude.{
  ℕ, Bool, true, false, Option, none, some, List, ltb, ◌==◌, length, get_elem?, CString,
}
use monga.Ast.{TypeId}
use monga.Sem.Builtins.{t_error}
use monga.Sem.Types.{Resolved}
use monga.Sem.Scope.{Symbol, SymbolDef, sym_param, sym_func, sym_var, sym_type, sym_field}
use monga.Sem.State.{M, ◌>>=◌, ◌>>◌, return, lift, log_error, no_type, Message}
use monga.Syntax.{Exp, Var, Cond, Exps, Literal, FuncDef, Param}
use monga.Sem.Resolve.{
  VarType, test_type, typed_or, direct_type, field_type, indexed_type, cast_type, literal_type,
  new_object_type, new_array_type, Callee, callee_of, check_call, call_with, count_exps,
  later_params, call_type, with_type, test_types, resolve_exp, resolve_var, resolve_cond,
  resolve_args,
}
use monga.Sem.Frame.{
  Keeps, Keeps-bind, Keeps-return, Keeps-lift, Keeps-log_error, Keeps-reject, Keeps-no_type,
  Keeps-if, Keeps-find_or_create_array_type,
}

Keeps-typed_or : (m : Message) (t : Option TypeId) → Keeps (typed_or m t)
Keeps-typed_or m none = Keeps-no_type m
Keeps-typed_or m (some t) = Keeps-return _

Keeps-variable :
    (name : CString) (d : SymbolDef)
    → Keeps {A = VarType} (elim d [
      | sym_var t ↦ return (some (some t))
      | sym_param t ↦ return (some t)
      | _ ↦ no_type (Message.not_a_variable name)
    ])
Keeps-variable name (sym_var t) = Keeps-return _
Keeps-variable name (sym_param t) = Keeps-return _
Keeps-variable name (sym_func t) = Keeps-no_type _
Keeps-variable name (sym_type t) = Keeps-no_type _
Keeps-variable name sym_field = Keeps-no_type _

Keeps-direct_type : (name : CString) (s : Option Symbol) → Keeps (direct_type name s)
unfolding direct_type
Keeps-direct_type name none = Keeps-no_type _
Keeps-direct_type name (some s) = Keeps-variable name s.definition

pub Keeps-test_type : (p : Resolved → Bool) (t : TypeId) → Keeps (test_type p t)
Keeps-test_type p t = Keeps-lift _

Keeps-field_type : (t : TypeId) (name : CString) → Keeps (field_type t name)
unfolding field_type
Keeps-field_type t name = Keeps-if (t == t_error) (Keeps-return _) (
    Keeps-bind (Keeps-lift _) (elim [
      | false ↦ Keeps-no_type _
      | true ↦ Keeps-bind (Keeps-lift _) (elim [ none ↦ Keeps-no_type _ | some f ↦ Keeps-return _ ])
    ]))

pub Keeps-indexed_type : (t u : TypeId) → Keeps (indexed_type t u)
unfolding indexed_type
Keeps-indexed_type t u = Keeps-bind (Keeps-lift _) (elim [
  | false ↦ Keeps-no_type _
  | true ↦ Keeps-bind (Keeps-lift _) (elim [ none ↦ Keeps-no_type _ | some e ↦ Keeps-return _ ])
])

Keeps-cast_type : (t : TypeId) (name : CString) → Keeps (cast_type t name)
unfolding cast_type
Keeps-cast_type t name = Keeps-bind (Keeps-lift _) (elim [
  | none ↦ Keeps-no_type _
  | some u ↦ Keeps-bind (Keeps-lift _) (λ ok. Keeps-if ok (Keeps-return _) (Keeps-no_type _))
])

Keeps-literal_type : (l : Literal) → Keeps (literal_type l)
unfolding literal_type
Keeps-literal_type (Literal.int n) = Keeps-return _
Keeps-literal_type Literal.float = Keeps-return _
Keeps-literal_type (Literal.str s) =
    Keeps-bind (Keeps-find_or_create_array_type _) (λ t. Keeps-return _)
Keeps-literal_type (Literal.char c) = Keeps-return _

Keeps-new_object_type : (name : CString) → Keeps (new_object_type name)
unfolding new_object_type
Keeps-new_object_type name = Keeps-bind (Keeps-lift _) (elim [
  | none ↦ Keeps-no_type _
  | some t ↦ Keeps-bind (Keeps-lift _) (λ ok. Keeps-if ok (Keeps-return _) (Keeps-no_type _))
])

Keeps-new_array_type : (t u : TypeId) → Keeps (new_array_type t u)
unfolding new_array_type
Keeps-new_array_type t u = Keeps-bind (Keeps-lift _) (elim [
  | false ↦ Keeps-no_type _
  | true ↦ Keeps-bind (Keeps-find_or_create_array_type _) (λ a. Keeps-return _)
])

pub Keeps-call_with :
    (name : CString) (n : ℕ) (pass : List Param → M Bool)
    → ((ps : List Param) → Keeps (pass ps))
    → Keeps (call_with name n pass)
unfolding call_with check_call
Keeps-call_with name n pass h = Keeps-bind (Keeps-lift _) (λ found. go (callee_of found))
  where
    refused : (m : Message) → Keeps {A = Option FuncDef} (log_error m >> return none)
    refused m = Keeps-bind (Keeps-log_error m) (λ u. Keeps-return _)

    checked : (f : FuncDef) → Keeps (check_call name n pass f)
    checked f = Keeps-if (ltb n (length f.params)) (refused _) (
        Keeps-if (ltb (length f.params) n) (refused _)
          (Keeps-bind (h f.params) (λ ok. Keeps-return _)))

    go :
        (k : Callee)
        → Keeps (elim k [
          | Callee.undefined ↦ log_error (Message.undefined_function name) >> return none
          | Callee.no_function ↦ log_error (Message.not_callable name) >> return none
          | Callee.function f ↦ lift (λ c. get_elem? c.funcs f) >>= check_call name n pass
        ])
    go Callee.undefined = refused _
    go Callee.no_function = refused _
    go (Callee.function f) = Keeps-bind (Keeps-lift _) checked

Keeps-call_type : (f : Option FuncDef) → Keeps (call_type f)
Keeps-call_type none = Keeps-return _
Keeps-call_type (some f) = Keeps-bind (Keeps-lift _) (λ t. Keeps-return _)

pub Keeps-with_type :
    {A : Type 0} {m : M (Option TypeId)} {k : TypeId → M (Option A)}
    → Keeps m
    → ((t : TypeId) → Keeps (k t))
    → Keeps (with_type m k)
Keeps-with_type h g = Keeps-bind h (elim [ none ↦ Keeps-return _ | some t ↦ g t ])

pub Keeps-test_types :
    {m : M (Option TypeId)} {k : TypeId → M Bool}
    → Keeps m
    → ((t : TypeId) → Keeps (k t))
    → Keeps (test_types m k)
Keeps-test_types h g = Keeps-bind h (elim [ none ↦ Keeps-return _ | some t ↦ g t ])

mutual
  unfolding resolve_exp

  pub Keeps-resolve_exp : (e : Exp) → Keeps (resolve_exp e)
  Keeps-resolve_exp (Exp.conditional b x y) = Keeps-bind (Keeps-resolve_cond b) (elim [
    | false ↦ Keeps-return _
    | true ↦ Keeps-with_type (Keeps-resolve_exp x) (λ t.
        Keeps-with_type (Keeps-resolve_exp y) (λ u. Keeps-bind (Keeps-lift _) (Keeps-typed_or _)))
  ])
  Keeps-resolve_exp (Exp.unop op x) =
      Keeps-with_type (Keeps-resolve_exp x) (λ t. Keeps-bind (Keeps-lift _) (Keeps-typed_or _))
  Keeps-resolve_exp (Exp.binop op x y) = Keeps-with_type (Keeps-resolve_exp x) (λ t.
      Keeps-with_type (Keeps-resolve_exp y) (λ u. Keeps-bind (Keeps-lift _) (Keeps-typed_or _)))
  Keeps-resolve_exp (Exp.cast x name) =
      Keeps-with_type (Keeps-resolve_exp x) (λ t. Keeps-cast_type t name)
  Keeps-resolve_exp (Exp.variable v) = Keeps-bind (Keeps-resolve_var v) (λ r. Keeps-return _)
  Keeps-resolve_exp (Exp.literal l) = Keeps-literal_type l
  Keeps-resolve_exp (Exp.call name args) =
      Keeps-bind
        (Keeps-call_with name (count_exps args) (resolve_args args name)
          (Keeps-resolve_args args name))
        Keeps-call_type
  Keeps-resolve_exp (Exp.new_object name) = Keeps-new_object_type name
  Keeps-resolve_exp (Exp.new_array name size) = Keeps-bind (Keeps-lift _) (elim [
    | none ↦ Keeps-no_type _
    | some t ↦ Keeps-with_type (Keeps-resolve_exp size) (λ u. Keeps-new_array_type t u)
  ])
  Keeps-resolve_exp Exp.null = Keeps-return _

  pub Keeps-resolve_var : (v : Var) → Keeps (resolve_var v)
  Keeps-resolve_var (Var.direct name) = Keeps-bind (Keeps-lift _) (Keeps-direct_type name)
  Keeps-resolve_var (Var.field x name) =
      Keeps-with_type (Keeps-resolve_exp x) (λ t. Keeps-field_type t name)
  Keeps-resolve_var (Var.indexed x i) =
      Keeps-with_type (Keeps-resolve_exp x)
        (λ t. Keeps-with_type (Keeps-resolve_exp i) (λ u. Keeps-indexed_type t u))

  pub Keeps-resolve_cond : (b : Cond) → Keeps (resolve_cond b)
  Keeps-resolve_cond (Cond.bin op negate l r) =
      Keeps-bind (Keeps-resolve_cond l)
        (elim [ true ↦ Keeps-resolve_cond r | false ↦ Keeps-return _ ])
  Keeps-resolve_cond (Cond.compar op negate l r) = Keeps-test_types (Keeps-resolve_exp l) (λ t.
      Keeps-test_types (Keeps-resolve_exp r)
        (λ u. Keeps-bind (Keeps-lift _) (λ ok. Keeps-if ok (Keeps-return _) (Keeps-reject _))))

  pub Keeps-resolve_args :
      (es : Exps) (name : CString) (params : List Param) → Keeps (resolve_args es name params)
  Keeps-resolve_args Exps.nil name params = Keeps-return _
  Keeps-resolve_args (Exps.cons e es) name params = Keeps-test_types (Keeps-resolve_exp e) (λ t.
      Keeps-bind (Keeps-lift _) (λ expected. Keeps-bind (Keeps-lift _) (elim [
        | true ↦ Keeps-resolve_args es name (later_params params)
        | false ↦ Keeps-reject _
      ])))
