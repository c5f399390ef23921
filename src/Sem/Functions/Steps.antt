-- ===== src/Sem/Functions/Steps.antt =====
-- Steps of src/libmonga/sem.c that leave the scopes alone, and registrations by the names there are.
use monga.Prelude.{
  ◌≡◌, refl, sym, ap, ◌∙◌, ◌⊎◌, inl, inr, Bool, true, false, ◌||◌, strcmp_eq, Bool-cases, Option,
  none, some, List, [], ◌∷◌, ◌++◌, if◌then◌else◌, get_elem?, set, CString,
}
use monga.Ast.{TypeId, FuncId}
use monga.Sem.Scope.{
  Symbol, Scope, add_symbol, add_outcome, try_add_symbol, find_local, find_in, builtin_scope,
}
use monga.Sem.State.{
  Ctx, M, ◌>>=◌, return, lift, log_error, Message, add_used_type, mem_type, register_outcome,
  try_register_symbol,
}
use monga.Sem.Frame.{Ensures, Ensures-bind, Ensures-weaken}
use monga.Sem.Functions.{update_func, type_or_error}
use monga.Syntax.{FuncDef}

-- A step that leaves all scopes as they are.
pub record Still {A : Type 0} (m : M A) : Type 0 where
  pub still : (c : Ctx) → Ensures (λ a c'. c'.scopes ≡ c.scopes) (m c)

pub Still-bind :
    {A B : Type 0} {m : M A} {f : A → M B} → Still m → ((a : A) → Still (f a)) → Still (m >>= f)
unfolding ◌>>=◌
Still-bind {m} {f} h k = record {
  still = λ c.
      Ensures-bind (λ a c'. c'.scopes ≡ c.scopes) (λ a c'. c'.scopes ≡ c.scopes) f (m c) (h.still c)
        (λ a c' e.
          Ensures-weaken (λ b c''. c''.scopes ≡ c'.scopes) (λ b c''. c''.scopes ≡ c.scopes) (f a c')
            ((k a).still c') (λ b c'' e'. e' ∙ e));
}

pub Still-return : {A : Type 0} (a : A) → Still (return a)
unfolding return
Still-return a = record { still = λ c. refl }

pub Still-lift : {A : Type 0} (f : Ctx → Option A) → Still (lift f)
unfolding lift
Still-lift {A} f = record { still = λ c. go c (f c) }
  where
    go :
        (c : Ctx) (o : Option A)
        → Ensures {A = A}
            (λ a c'. c'.scopes ≡ c.scopes)
            (elim o [ none ↦ none | some a ↦ some (a, c) ])
    go c none = tt
    go c (some a) = refl

pub Still-log_error : (m : Message) → Still (log_error m)
unfolding log_error
Still-log_error m = record { still = λ c. refl }

pub Still-update_func : (f : FuncId) (change : FuncDef → FuncDef) → Still (update_func f change)
unfolding update_func
Still-update_func f change = record { still = λ c. go c (get_elem? c.funcs f) }
  where
    go :
        (c : Ctx) (o : Option FuncDef)
        → Ensures {A = Unit}
            (λ u c'. c'.scopes ≡ c.scopes)
            (elim o [
              | none ↦ none
              | some def ↦ some (tt, record c { funcs = set c.funcs f (change def) })
            ])
    go c none = tt
    go c (some def) = refl

pub Still-add_used_type : (t : TypeId) → Still (add_used_type t)
unfolding add_used_type
Still-add_used_type t = record { still = λ c. go c (mem_type t c.used_types) }
  where
    go :
        (c : Ctx) (b : Bool)
        → (if b then c else record c { used_types = c.used_types ++ t ∷ [] }).scopes ≡ c.scopes
    go c true = refl
    go c false = refl

pub Still-type_or_error : (m : Message) (name : CString) → Still (type_or_error m name)
unfolding type_or_error
Still-type_or_error m name =
    Still-bind (Still-lift _) (elim [
      | none ↦ Still-bind (Still-log_error _) (λ u. Still-return _)
      | some t ↦ Still-return _
    ])

-- The symbol stands last in the current scope, and the scopes were the same without it.
abbrev pub Appended : Symbol → List Scope → List Scope → Type 0
Appended d scopes after =
    (s : Scope) × (parents : List Scope) × (scopes ≡ s ∷ parents)
    × (after ≡ (s ++ d ∷ []) ∷ parents)

add_symbol-Appended :
    (d : Symbol) (scopes after : List Scope)
    → add_symbol scopes d ≡ some after
    → Appended d scopes after
unfolding add_symbol
add_symbol-Appended d [] after e = cc
add_symbol-Appended d (s ∷ parents) after e =
    (s, parents, refl, sym (ap {B = List Scope} (λ o. elim o [ none ↦ [] | some l ↦ l ]) e))

abbrev pub has_name : List CString → CString → Bool
has_name [] name = false
has_name (n ∷ ns) name = strcmp_eq n name || has_name ns name

abbrev pub names : Scope → List CString
names [] = []
names (d ∷ s) = d.sym_name ∷ names s

-- The name is one of the current scope's, or a builtin type's.
abbrev pub is_taken : List CString → CString → Bool
is_taken current name = has_name current name || has_name (names builtin_scope) name

abbrev pub current_names : List Scope → List CString
current_names [] = []
current_names (s ∷ parents) = names s

is_found : Option Symbol → Bool
is_found none = false
is_found (some d) = true

find_in-has_name :
    (s : Scope) (name : CString) → is_found (find_in s name) ≡ has_name (names s) name
unfolding find_in is_found
find_in-has_name [] name = refl
find_in-has_name (d ∷ s) name = elim (Bool-cases (strcmp_eq d.sym_name name)) [
  | inl e ↦ rw e refl
  | inr e ↦ rw e (find_in-has_name s name)
]

or_self : (b : Bool) → (b || b) ≡ b
or_self true = refl
or_self false = refl

find_local-has_name :
    (scopes : List Scope) (name : CString)
    → (is_found (find_local scopes name) || is_found (find_in builtin_scope name))
      ≡ is_taken (current_names scopes) name
unfolding find_local
find_local-has_name [] name =
    rw (find_in-has_name builtin_scope name) (or_self (has_name (names builtin_scope) name))
find_local-has_name (s ∷ parents) name =
    rw (find_in-has_name builtin_scope name, find_in-has_name s name) refl

-- A registration appends the symbol if its name is not taken, or is refused and leaves the scopes
-- alone.
unfoldable pub Registers : Symbol → Ctx → Bool → Ctx → Type 0
Registers d c ok c' =
    (ok ≡ true)
      × (is_taken (current_names c.scopes) d.sym_name ≡ false)
      × Appended d c.scopes c'.scopes
    ⊎ (ok ≡ false) × (is_taken (current_names c.scopes) d.sym_name ≡ true) × (c'.scopes ≡ c.scopes)

pub try_register_symbol-Registers :
    (d : Symbol) (c : Ctx) → Ensures (Registers d c) (try_register_symbol d c)
unfolding try_register_symbol try_add_symbol add_outcome register_outcome Registers ◌>>=◌ log_error
    return is_found
try_register_symbol-Registers d c =
    go (find_local c.scopes d.sym_name) (find_in builtin_scope d.sym_name) (add_symbol c.scopes d)
      (find_local-has_name c.scopes d.sym_name) (add_symbol-Appended d c.scopes)
  where
    go :
        (a b : Option Symbol) (r : Option (List Scope))
        → (is_found a || is_found b) ≡ is_taken (current_names c.scopes) d.sym_name
        → ((after : List Scope) → r ≡ some after → Appended d c.scopes after)
        → Ensures (Registers d c) (elim (add_outcome a b c.scopes r) [
          | none ↦ none
          | some (code, after) ↦ register_outcome d.sym_name code (record c { scopes = after })
        ])
    go (some x) b r t h = inr (refl, sym t, refl)
    go none (some x) r t h = inr (refl, sym t, refl)
    go none none none t h = tt
    go none none (some after) t h = inl (refl, sym t, h after refl)
