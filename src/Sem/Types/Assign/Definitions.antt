-- ===== src/Sem/Types/Assign/Definitions.antt =====
-- `IsTypeAssignableFrom` of src/libmonga/sem/types.c on any two definitions of an analysis.
use monga.Prelude.{
  ℕ, ◌≡◌, ◌↔◌, inl, inr, ap, ◌∙◌, Bool, true, none, some, ◌++◌, Option-cases, get_elem?,
}
use monga.Ast.{TypeId, TypeDesc, alias_desc, record_desc, array_desc, primitive_desc, special_desc}
use monga.Sem.Builtins.{builtin_types, t_null}
use monga.Sem.Types.{Store, Resolved, stop, next, next_of, is_type_assignable_from}
use monga.Sem.Types.Aliases.{Unwinds, stops, goes, Chain-Unwinds, EndsAt, get_underlying_type_iff}
use monga.Sem.Types.Assign.{Assignable, Consistent}
use monga.Sem.Types.Assign.Rules.{assignable_iff}

-- The list of definitions begins with the builtin ones, as every analysis sets it up.
abbrev pub HasBuiltins : Store → Type 0
HasBuiltins s = (own : Store) × (s ≡ builtin_types ++ own)

next_of-id : (t : TypeId) (d : TypeDesc) {r : Resolved} → next_of t d ≡ stop r → r.id ≡ t
unfolding next_of
next_of-id t (alias_desc _ none) e = cc
next_of-id t (alias_desc _ (some u)) e = cc
next_of-id t (record_desc _) e = cc
next_of-id t (array_desc _ _) e = cc
next_of-id t (primitive_desc _) e = cc
next_of-id t special_desc e = cc

next-id : (s : Store) (t : TypeId) {r : Resolved} → next s t ≡ stop r → r.id ≡ t
unfolding next
next-id s t e = elim (Option-cases (get_elem? s t)) [
  | inl p ↦ cc (rw (p, next) at e)
  | inr (d, p) ↦ next_of-id t d.desc (rw (p, next) at e)
]

-- An underlying type is the definition at its own place.
pub Unwinds-own :
    {s : Store} {r : Resolved} {n : ℕ} {t : TypeId} → Unwinds s r n t → next s r.id ≡ stop r
Unwinds-own {s} {r} (stops {t} e) = ap (next s) (next-id s t e) ∙ e
Unwinds-own (goes e w) = Unwinds-own w

null-special :
    (s : Store) → HasBuiltins s → next s t_null ≡ stop (record { id = t_null; desc = special_desc })
unfolding next next_of
null-special s (own, e) = rw (e, next)

EndsAt-Consistent :
    {s : Store} {a b : Resolved} {x y : TypeId}
    → HasBuiltins s
    → EndsAt s x a
    → EndsAt s y b
    → Consistent a b
EndsAt-Consistent {s} {a} {b} h (n, v') (m, w') =
    let v = Chain-Unwinds v' in
    let w = Chain-Unwinds w' in
    record {
      one_desc = λ e. cc (Unwinds-own v, Unwinds-own w);
      null_special = λ e. cc (Unwinds-own w, null-special s h);
    }

-- Among type definitions that begin with the builtin ones, for two types whose aliases end: where
-- the test returns, it returns true exactly if a rule lets a value of the second one's underlying
-- type be stored as the first one's.
pub is_type_assignable_from_iff :
    (s : Store) (x y : TypeId) (a b : Resolved) (v : Bool)
    → HasBuiltins s
    → EndsAt s x a
    → EndsAt s y b
    → is_type_assignable_from s x y ≡ some v
    → (v ≡ true) ↔ Assignable s a b
unfolding is_type_assignable_from
is_type_assignable_from_iff s x y a b v h ex ey run =
    let px = (get_underlying_type_iff s x a).1 ex in
    let py = (get_underlying_type_iff s y b).1 ey in
    assignable_iff s a b v (EndsAt-Consistent h ex ey) (rw (px, py, is_type_assignable_from) at run)
