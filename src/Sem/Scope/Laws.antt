-- ===== src/Sem/Scope/Laws.antt =====
-- What a registration in a scope (src/libmonga/sem/scope.c) does to later lookups.
use monga.Prelude.{
  ◌≡◌, refl, sym, ap, Option, none, some, List, [], ◌∷◌, ◌++◌, if◌then◌else◌, CString, strcmp_eq,
  strcmp_eq_iff, Bool-cases, inl, inr, subst, ◌≢◌,
}
use monga.Error.{RetCode, success}
use monga.Sem.Scope.{
  Symbol, Scope, find_in, find_symbol, find_local, add_symbol, try_add_symbol, or_else, add_outcome,
  builtin_scope,
}

or_else-none : (a b : Option Symbol) → or_else (or_else a none) b ≡ or_else a b
or_else-none none b = refl
or_else-none (some x) b = refl

find_in-append :
    (s : Scope) (d : Symbol) (name : CString)
    → find_in (s ++ d ∷ []) name
      ≡ or_else (find_in s name) (if strcmp_eq d.sym_name name then some d else none)
unfolding find_in
find_in-append [] d name = refl
find_in-append (x ∷ s) d name = elim (Bool-cases (strcmp_eq x.sym_name name)) [
  | inl e ↦ rw e refl
  | inr e ↦ rw e (find_in-append s d name)
]

failed :
    {code : RetCode} {scopes after : List Scope}
    → ◌≡◌ {A = Option (RetCode × List Scope)} (some (code, scopes)) (some (success, after))
    → code ≢ success
    → ⊥
failed e h = h (ap {B = RetCode} (λ o. elim o [ none ↦ success | some (k, l) ↦ k ]) e)

-- A registration that succeeds found the name neither in the current scope nor among the builtins.
registered :
    (a b : Option Symbol) (scopes added after : List Scope)
    → add_outcome a b scopes (some added) ≡ some (success, after)
    → (a ≡ none) × (after ≡ added)
unfolding add_outcome
registered none none scopes added after e =
    (refl, sym (ap {B = List Scope} (λ o. elim o [ none ↦ [] | some (code, l) ↦ l ]) e))
registered none (some y) scopes added after e = absurd (failed e (λ h. cc))
registered (some x) b scopes added after e = absurd (failed e (λ h. cc))

unregistered :
    (b : Option Symbol) (scopes after : List Scope)
    → add_outcome b b scopes none ≢ some (success, after)
unfolding add_outcome
unregistered none scopes after = λ e. cc
unregistered (some x) scopes after = λ e. cc

lookup :
    (s : Scope) (parents : List Scope) (d : Symbol) (name : CString)
    → find_in s d.sym_name ≡ none
    → find_symbol ((s ++ d ∷ []) ∷ parents) name
      ≡ (if strcmp_eq d.sym_name name then some d else find_symbol (s ∷ parents) name)
unfolding find_symbol
lookup s parents d name n = elim (Bool-cases (strcmp_eq d.sym_name name)) [
  | inl e ↦
      let same = (strcmp_eq_iff d.sym_name name).0 e in
      let gone : find_in s name ≡ none = subst (λ x. find_in s x ≡ none) same n in
      rw (find_in-append s d name, e, gone) refl
  | inr e ↦
      rw (find_in-append s d name, e) (or_else-none (find_in s name) (find_symbol parents name))
]

-- After a successful registration (`TryAddSymbolToScope`) a lookup through the scopes gives the new
-- symbol under its own name, and what it gave before under every other name.
pub find_symbol-try_add_symbol :
    (scopes after : List Scope) (d : Symbol) (name : CString)
    → try_add_symbol scopes d ≡ some (success, after)
    → find_symbol after name
      ≡ (if strcmp_eq d.sym_name name then some d else find_symbol scopes name)
unfolding try_add_symbol add_symbol find_local
find_symbol-try_add_symbol [] after d name e =
    absurd (unregistered (find_in builtin_scope d.sym_name) [] after e)
find_symbol-try_add_symbol (s ∷ parents) after d name e =
    let (n, h) =
      registered (find_in s d.sym_name) (find_in builtin_scope d.sym_name) (s ∷ parents) _ after
        e in
    rw h (lookup s parents d name n)
