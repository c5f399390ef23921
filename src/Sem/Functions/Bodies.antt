-- ===== src/Sem/Functions/Bodies.antt =====
-- The bodies that `ResolveFunctionImpl` of src/libmonga/sem.c accepts.
use monga.Prelude.{
  ℕ, ◌≡◌, refl, sym, ap, ◌∙◌, ◌⊎◌, inl, inr, subst, Bool, true, false, ◌||◌, Option, none, some,
  List, [], ◌∷◌, ltb, ==_iff, get_elem?, Bool-cases,
}
use monga.Ast.{TypeId, FuncId}
use monga.Sem.Builtins.{t_void}
use monga.Sem.Scope.{Symbol, Scope, add_symbol}
use monga.Sem.State.{Ctx, ◌>>=◌, lift, return}
use monga.Sem.Frame.{
  Frame, Ensures, Keeps, Keeps-bind, Keeps-return, Keeps-lift, Keeps-log_error, Frame-scopes,
  add_symbol-ScopesGrow, ScopesGrow,
}
use monga.Sem.Functions.{
  force_symbol, add_params, is_void, check_returns, resolve_body, resolve_function_impl,
}
use monga.Sem.Statements.Checked.{
  Checks, Checks-bind, Checks-weaken, Checks-return, Checks-keeps, Checks-in_scope, contained_block,
}
use monga.Sem.Statements.Exits.{Outcome, RunsBlock, exits_block, fresh_block, exits_block-not_falls}
use monga.Sem.Statements.Returns.{Checks-block, TellsBlock}
use monga.Sem.Statements.Sound.{Settled, contained_block-Settled, returns_left, ensured}
use monga.Syntax.{Block, Param, FuncDef}

Keeps-force_symbol : (d : Symbol) → Keeps (force_symbol d)
unfolding force_symbol
Keeps-force_symbol d = record {
  framed = λ c. go c (add_symbol c.scopes d) (λ after. add_symbol-ScopesGrow c.scopes after d);
}
  where
    go :
        (c : Ctx) (r : Option (List Scope))
        → ((after : List Scope) → r ≡ some after → ScopesGrow c.scopes after)
        → Ensures {A = Unit}
            (λ u c'. Frame c c')
            (elim r [ none ↦ none | some after ↦ some (tt, record c { scopes = after }) ])
    go c none h = tt
    go c (some after) h = Frame-scopes c after (h after refl)

Keeps-add_params : (ps : List Param) → Keeps (add_params ps)
unfolding add_params
Keeps-add_params [] = Keeps-return _
Keeps-add_params (p ∷ ps) = Keeps-bind (Keeps-force_symbol _) (λ u. Keeps-add_params ps)

-- What an accepted body has, for a function that returns the type `ret`.
Accepted : Bool → Option TypeId → Block → Bool → Type 0
Accepted loop ret x ok =
    ok ≡ true → ((is_void ret || exits_block x) ≡ true) × (contained_block loop x ≡ true)

Checks-check_returns :
    {n : ℕ} (loop : Bool) (ret : Option TypeId) (x : Block) (ok exits : Bool)
    → TellsBlock loop x (ok, exits)
    → Checks n (check_returns ret (ok, exits)) (Accepted loop ret x)
unfolding check_returns Accepted
Checks-check_returns loop ret x false exits t = Checks-return _ (λ e. cc)
Checks-check_returns loop ret x true exits (e, k) = elim (Bool-cases (is_void ret || exits)) [
  | inl h ↦ rw h (Checks-return true (λ t. (subst (λ b. (is_void ret || b) ≡ true) e h, k refl)))
  | inr h ↦
      rw h (Checks-bind (Checks-keeps (Keeps-log_error _)) (λ u v. Checks-return false (λ t. cc)))
]

Checks-body :
    {n : ℕ} (def : FuncDef) (x : Block)
    → Checks n (resolve_body def x) (Accepted (ltb 0 n) def.return_type x)
unfolding resolve_body
Checks-body {n} def x =
    Checks-bind
      (Checks-in_scope (
        Checks-bind (Checks-keeps (Keeps-add_params def.params))
          (λ u. λ t. Checks-block def.return_type x (ltb 0 n) refl)))
      (λ (ok, exits) t. Checks-check_returns (ltb 0 n) def.return_type x ok exits t)

void-type : (ret : Option TypeId) → is_void ret ≡ true → ret ≡ some t_void
void-type none e = cc
void-type (some t) e = ap some ((==_iff t t_void).0 e)

settled : (o : Outcome) → Settled o → (o ≡ Outcome.returns) ⊎ (o ≡ Outcome.falls)
settled Outcome.falls s = inr refl
settled Outcome.returns s = inl refl
settled Outcome.breaks s = absurd (s.0 refl)
settled Outcome.continues s = absurd (s.1 refl)

-- How a finished run of a body leaves it.
Finished : Option TypeId → Outcome → Type 0
Finished ret o = (o ≡ Outcome.returns) ⊎ ((o ≡ Outcome.falls) × (ret ≡ some t_void))

finished :
    (ret : Option TypeId) (x : Block) (o : Outcome)
    → fresh_block x ≡ true
    → Accepted false ret x true
    → RunsBlock x o
    → Finished ret o
unfolding Accepted Finished
finished ret x o f accepted r =
    let (covered, kept) = accepted refl in
    let s = contained_block-Settled r kept in
    elim (Bool-cases (is_void ret)) [
      | inl v ↦ elim (settled o s) [ inl e ↦ inl e | inr e ↦ inr (e, void-type ret v) ]
      | inr v ↦ inl (
          returns_left o
            (exits_block-not_falls r f (subst (λ b. (b || exits_block x) ≡ true) v covered)) s)
    ]

impl_runs :
    (f : FuncId) (def : FuncDef) (x : Block) (c : Ctx)
    → get_elem? c.funcs f ≡ some def
    → def.body ≡ some x
    → resolve_function_impl f c ≡ resolve_body def x c
unfolding resolve_function_impl ◌>>=◌ lift
impl_runs f def x c e b = rw (e, ◌>>=◌, lift, b) refl

Checks-impl_body :
    {n : ℕ} (def : FuncDef) (body : Option Block)
    → Checks n (elim body [ none ↦ return true | some x ↦ resolve_body def x ]) (λ ok. Unit {0})
Checks-impl_body def none = Checks-return _ tt
Checks-impl_body def (some x) = Checks-weaken (Checks-body def x) (λ ok a. tt)

pub Checks-resolve_function_impl :
    {n : ℕ} (f : FuncId) → Checks n (resolve_function_impl f) (λ ok. Unit {0})
unfolding resolve_function_impl
Checks-resolve_function_impl f =
    Checks-bind (Checks-keeps (Keeps-lift _)) (λ def u. Checks-impl_body def def.body)

-- A function whose body `ResolveFunctionImpl` accepts outside any loop, the blocks of the body
-- allocated with their flags false: every run of the body that ends leaves it by a `return`, or
-- reaches its end, and then the function's return type is void.
pub resolve_function_impl-Finished :
    (f : FuncId) (def : FuncDef) (x : Block) (c c' : Ctx) (o : Outcome)
    → get_elem? c.funcs f ≡ some def
    → def.body ≡ some x
    → fresh_block x ≡ true
    → c.loop_level ≡ 0
    → resolve_function_impl f c ≡ some (true, c')
    → RunsBlock x o
    → (o ≡ Outcome.returns) ⊎ ((o ≡ Outcome.falls) × (def.return_type ≡ some t_void))
unfolding Finished
resolve_function_impl-Finished f def x c c' o e b fresh level run r =
    finished def.return_type x o fresh
      (ensured (λ ok c'. Frame c c' × Accepted false def.return_type x ok) (resolve_body def x c)
        true c' ((Checks-body def x).checked c level) (sym (impl_runs f def x c e b) ∙ run)).1
      r
