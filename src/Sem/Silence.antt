-- ===== src/Sem/Silence.antt =====
-- Steps of src/libmonga/sem.c that log no message when their answer is a good one.
pub mod Expressions
pub mod Steps
pub mod Statements
pub mod Definitions
pub mod Passes
use monga.Prelude.{
  ◌≡◌, if◌then◌else◌, refl, sym, ◌∙◌, inl, inr, Bool-cases, ℕ, Bool, true, false, Option, none,
  some, List, ltb, ◌==◌, length, get_elem?, CString,
}
use monga.Ast.{TypeId}
use monga.Sem.Builtins.{t_error}
use monga.Sem.Types.{Resolved}
use monga.Sem.Scope.{Symbol, SymbolDef, sym_param, sym_func, sym_var, sym_type, sym_field}
use monga.Sem.State.{
  Ctx, reject, push_scope, M, ◌>>=◌, ◌>>◌, return, lift, log_error, no_type, Message,
}
use monga.Syntax.{Exp, Var, Cond, Exps, Literal, FuncDef, Param}
use monga.Sem.Resolve.{
  VarType, test_type, typed_or, direct_type, field_type, indexed_type, cast_type, literal_type,
  new_object_type, new_array_type, Callee, callee_of, check_call, call_with, count_exps,
  later_params, call_type, with_type, test_types, resolve_exp, resolve_var, resolve_cond,
  resolve_args,
}
use monga.Sem.Frame.{Ensures, Ensures-bind, Ensures-weaken}

-- The answer is a type, or whatever else is not `none`.
abbrev pub is_some : {A : Type 0} → Option A → Bool
is_some none = false
is_some (some a) = true

-- Where the answer is a good one, no message was logged.
pub record Silent {A : Type 0} (good : A → Bool) (m : M A) : Type 0 where
  pub silent : (c : Ctx) → Ensures (λ a c'. good a ≡ true → c'.errors ≡ c.errors) (m c)

-- No answer of the step is a good one.
pub record Fails {A : Type 0} (good : A → Bool) (m : M A) : Type 0 where
  pub fails : (c : Ctx) → Ensures (λ a c'. good a ≡ false) (m c)

pub Fails-return : {A : Type 0} {good : A → Bool} (a : A) → good a ≡ false → Fails good (return a)
unfolding return
Fails-return a e = record { fails = λ c. e }

pub Fails-bind :
    {A B : Type 0} {good : B → Bool} (m : M A) {f : A → M B}
    → ((a : A) → Fails good (f a))
    → Fails good (m >>= f)
unfolding ◌>>=◌
Fails-bind {A} {B} {good} m {f} h = record { fails = λ c. go (m c) }
  where
    go :
        (r : Option (A × Ctx))
        → Ensures {A = B} (λ b c'. good b ≡ false) (elim r [ none ↦ none | some (a, c) ↦ f a c ])
    go none = tt
    go (some (a, c)) = (h a).fails c

-- What follows a step without a good answer.
pub Fails-after :
    {A B : Type 0} {good : A → Bool} {good' : B → Bool} {m : M A} {f : A → M B}
    → Fails good m
    → ((a : A) → good a ≡ false → Fails good' (f a))
    → Fails good' (m >>= f)
unfolding ◌>>=◌
Fails-after {A} {B} {good} {good'} {m} {f} h k = record {
  fails = λ c.
      Ensures-bind (λ a c'. good a ≡ false) (λ b c'. good' b ≡ false) f (m c) (h.fails c)
        (λ a c' e. (k a e).fails c');
}

not_both : true ≡ false → ⊥
not_both e = cc

pub Fails-Silent : {A : Type 0} {good : A → Bool} {m : M A} → Fails good m → Silent good m
Fails-Silent {good} {m} h = record {
  silent = λ c.
      Ensures-weaken (λ a c'. good a ≡ false) (λ a c'. good a ≡ true → c'.errors ≡ c.errors) (m c)
        (h.fails c) (λ a c' f t. absurd (not_both (sym t ∙ f)));
}

pub Silent-return : {A : Type 0} {good : A → Bool} (a : A) → Silent good (return a)
unfolding return
Silent-return a = record { silent = λ c t. refl }

-- A step, and what follows it: on a bad answer the sequence has a bad answer too.
pub Silent-bind :
    {A B : Type 0} {good : A → Bool} {good' : B → Bool} {m : M A} {f : A → M B}
    → Silent good m
    → ((a : A) → good a ≡ true → Silent good' (f a))
    → ((a : A) → good a ≡ false → Fails good' (f a))
    → Silent good' (m >>= f)
unfolding ◌>>=◌
Silent-bind {A} {B} {good} {good'} {m} {f} h k l = record {
  silent = λ c.
      Ensures-bind (λ a c'. good a ≡ true → c'.errors ≡ c.errors)
        (λ b c'. good' b ≡ true → c'.errors ≡ c.errors) f (m c) (h.silent c)
        (λ a c' s. elim (Bool-cases (good a)) [
          | inl t ↦
              Ensures-weaken (λ b c''. good' b ≡ true → c''.errors ≡ c'.errors)
                (λ b c''. good' b ≡ true → c''.errors ≡ c.errors) (f a c') ((k a t).silent c')
                (λ b c'' s' t'. s' t' ∙ s t)
          | inr n ↦
              Ensures-weaken (λ b c''. good' b ≡ false)
                (λ b c''. good' b ≡ true → c''.errors ≡ c.errors) (f a c') ((l a n).fails c')
                (λ b c'' f t'. absurd (not_both (sym t' ∙ f)))
        ]);
}

pub Silent-then :
    {A B : Type 0} {good : B → Bool} {m : M A} {f : A → M B}
    → Silent (λ a. true) m
    → ((a : A) → Silent good (f a))
    → Silent good (m >>= f)
Silent-then h k = Silent-bind h (λ a t. k a) (λ a f. absurd (not_both f))

Ensures-lift :
    {A : Type 0} (good : A → Bool) (c : Ctx) (o : Option A)
    → Ensures
        (λ a c'. good a ≡ true → c'.errors ≡ c.errors)
        (elim o [ none ↦ none | some a ↦ some (a, c) ])
Ensures-lift good c none = tt
Ensures-lift good c (some a) = λ t. refl

pub Silent-lift : {A : Type 0} {good : A → Bool} (f : Ctx → Option A) → Silent good (lift f)
unfolding lift
Silent-lift {good} f = record { silent = λ c. Ensures-lift good c (f c) }

pub Silent-no_type : {A : Type 0} (m : Message) → Silent is_some (no_type {A = A} m)
Silent-no_type m = Fails-Silent (Fails-bind _ (λ u. Fails-return _ refl))

pub Silent-reject : (m : Message) → Silent (λ b. b) (reject m)
Silent-reject m = Fails-Silent (Fails-bind _ (λ u. Fails-return _ refl))

pub Silent-if :
    {A : Type 0} {good : A → Bool} (b : Bool) {x y : M A}
    → Silent good x
    → Silent good y
    → Silent good (if b then x else y)
Silent-if true h k = h
Silent-if false h k = k

pub Silent-with_type :
    {A : Type 0} {m : M (Option TypeId)} {k : TypeId → M (Option A)}
    → Silent is_some m
    → ((t : TypeId) → Silent is_some (k t))
    → Silent is_some (with_type m k)
Silent-with_type h g =
    Silent-bind h (elim [ none ↦ λ e. cc | some t ↦ λ e. g t ])
      (elim [ none ↦ λ e. Fails-return _ refl | some t ↦ λ e. cc ])

pub Silent-test_types :
    {m : M (Option TypeId)} {k : TypeId → M Bool}
    → Silent is_some m
    → ((t : TypeId) → Silent (λ b. b) (k t))
    → Silent (λ b. b) (test_types m k)
Silent-test_types h g =
    Silent-bind h (elim [ none ↦ λ e. cc | some t ↦ λ e. g t ])
      (elim [ none ↦ λ e. Fails-return _ refl | some t ↦ λ e. cc ])
