-- ===== src/Sem/Types/Aliases.antt =====
-- `GetUnderlyingType` of src/libmonga/sem/types.c: its loop ends exactly on the chains of aliases
-- that lead to a type that is none, and as many turns as there are definitions are enough.
use monga.Prelude.{
  ℕ, zero, suc, ◌<◌, ◌≡◌, ◌≢◌, ◌↔◌, refl, sym, ap, ◌∙◌, subst, CString, inl, inr, Option, none,
  some, List, [], ◌∷◌, length, get_elem?, lt-get_elem?, Option-cases, arith,
}
use monga.Prelude.Pigeonhole.{NotIn, Distinct, Below, pigeonhole}
use monga.Ast.{
  TypeId, TypeDef, TypeDesc, alias_desc, record_desc, array_desc, primitive_desc, special_desc,
}
use monga.Sem.Types.{
  Store, Resolved, Next, stop, follow, broken, next_of, next, follow_aliases, get_underlying_type,
}

-- The loop leaves with `r` after `n` aliases.
pub data Unwinds (s : Store) (r : Resolved) : ℕ → TypeId → Type 0 where
  stops : {t : TypeId} → next s t ≡ stop r → Unwinds s r zero t
  goes : {n : ℕ} {t u : TypeId} → next s t ≡ follow u → Unwinds s r n u → Unwinds s r (suc n) t

-- The loop leaves with `r` after some turns.
abbrev Leaves : Store → TypeId → Resolved → Type 0
Leaves s t r = (n : ℕ) × Unwinds s r n t

-- A description that is no alias.
abbrev pub NoAlias : TypeDesc → Type 0
NoAlias (alias_desc name u) = ⊥
NoAlias _ = Unit

-- A chain of `n` aliases, by the definitions in the store alone: each but the last is an alias of
-- the next, and the last is the type `r`, which is none.
pub data Chain (s : Store) (r : Resolved) : ℕ → TypeId → Type 0 where
  own :
      (d : TypeDef)
      → get_elem? s r.id ≡ some d
      → d.desc ≡ r.desc
      → NoAlias r.desc
      → Chain s r zero r.id
  alias_of :
      {n : ℕ} {t u : TypeId} (d : TypeDef) (name : CString)
      → get_elem? s t ≡ some d
      → d.desc ≡ alias_desc name (some u)
      → Chain s r n u
      → Chain s r (suc n) t

-- The chain of aliases from `t` ends at the type `r`.
abbrev pub EndsAt : Store → TypeId → Resolved → Type 0
EndsAt s t r = (n : ℕ) × Chain s r n t

stop_of : (t : TypeId) (d : TypeDesc) → NoAlias d → next_of t d ≡ stop (record { id = t; desc = d })
unfolding next_of
stop_of t (alias_desc name u) h = absurd h
stop_of t (record_desc fields) h = refl
stop_of t (array_desc inner def) h = refl
stop_of t (primitive_desc code) h = refl
stop_of t special_desc h = refl

pub Chain-Unwinds :
    {s : Store} {r : Resolved} {n : ℕ} {t : TypeId} → Chain s r n t → Unwinds s r n t
unfolding next next_of
Chain-Unwinds {s} {r} (own d e k c) = stops (rw (e, k, next) (stop_of r.id r.desc c))
Chain-Unwinds (alias_of d name e k w) = goes (rw (e, k, next)) (Chain-Unwinds w)

-- What a turn that stops or goes on has read.
Reads : Store → TypeId → TypeDef → Next → Type 0
Reads s t d (stop r) = (r.id ≡ t) × (d.desc ≡ r.desc) × NoAlias r.desc
Reads s t d (follow u) = (name : CString) × (d.desc ≡ alias_desc name (some u))
Reads s t d broken = Unit

next_of-Reads :
    (s : Store) (t : TypeId) (d : TypeDef) (x : TypeDesc) → d.desc ≡ x → Reads s t d (next_of t x)
unfolding next_of Reads
next_of-Reads s t d (alias_desc name none) e = tt
next_of-Reads s t d (alias_desc name (some u)) e = (name, e)
next_of-Reads s t d (record_desc fields) e = (refl, e, tt)
next_of-Reads s t d (array_desc inner def) e = (refl, e, tt)
next_of-Reads s t d (primitive_desc code) e = (refl, e, tt)
next_of-Reads s t d special_desc e = (refl, e, tt)

turn-Reads :
    (s : Store) (t : TypeId) (nx : Next)
    → next s t ≡ nx
    → nx ≢ broken
    → (d : TypeDef) × (get_elem? s t ≡ some d) × Reads s t d nx
unfolding next
turn-Reads s t nx e h = elim (Option-cases (get_elem? s t)) [
  | inl none_there ↦ absurd (h (sym e ∙ rw (none_there, next) refl))
  | inr (d, there) ↦
      (d, there, subst (Reads s t d) (rw (there, next) at e) (next_of-Reads s t d d.desc refl))
]

Unwinds-Chain : {s : Store} {r : Resolved} {n : ℕ} {t : TypeId} → Unwinds s r n t → Chain s r n t
unfolding Reads
Unwinds-Chain {s} {r} (stops {t} e) =
    let (d, there, (at, same, concrete)) = turn-Reads s t (stop r) e (λ b. cc) in
    subst (Chain s r zero) at (own d (ap (get_elem? s) at ∙ there) same concrete)
Unwinds-Chain {s} (goes {t} {u} e w) =
    let (d, there, (name, same)) = turn-Reads s t (follow u) e (λ b. cc) in
    alias_of d name there same (Unwinds-Chain w)

Next-step :
    {s : Store} {t : TypeId} {r : Resolved} (rest : TypeId → Option Resolved)
    → ((u : TypeId) → rest u ≡ some r → Leaves s u r)
    → (nx : Next) → next s t ≡ nx
    → elim nx [ stop r ↦ some r | follow u ↦ rest u | broken ↦ none ] ≡ some r
    → Leaves s t r
Next-step rest ih (stop r') e h = (zero, stops (cc))
Next-step rest ih (follow u) e h = let (n, w) = ih u h in (suc n, goes e w)
Next-step rest ih broken e h = cc

follow-Unwinds :
    (fuel : ℕ) (s : Store) (t : TypeId) {r : Resolved}
    → follow_aliases fuel s t ≡ some r
    → Leaves s t r
unfolding follow_aliases
follow-Unwinds zero s t e = cc
follow-Unwinds (suc fuel) s t e =
    Next-step (follow_aliases fuel s) (λ u. follow-Unwinds fuel s u) (next s t) refl e

Unwinds-follow :
    {s : Store} {r : Resolved} {n : ℕ} {t : TypeId} (fuel : ℕ)
    → Unwinds s r n t
    → n < fuel
    → follow_aliases fuel s t ≡ some r
unfolding follow_aliases
Unwinds-follow zero w h = absurd (omega arith)
Unwinds-follow (suc fuel) (stops e) h = rw (e, follow_aliases)
Unwinds-follow (suc fuel) (goes e w) h =
    rw (e, follow_aliases) (Unwinds-follow fuel w (omega arith))

-- The loop does one thing only, so the number of turns is fixed.
turns_unique :
    {s : Store} {r r' : Resolved} {n m : ℕ} {t : TypeId}
    → Unwinds s r n t
    → Unwinds s r' m t
    → n ≡ m
turns_unique (stops e) (stops e') = refl
turns_unique (stops e) (goes e' w') = cc
turns_unique (goes e w) (stops e') = cc
turns_unique {s} {r} {r'} (goes {n} {u = x} e w) (goes {u = y} e' w') =
    let same : x ≡ y = cc in ap suc (turns_unique (rw same at w) w')

-- The definitions that the loop visits.
visited : {s : Store} {r : Resolved} {n : ℕ} {t : TypeId} → Unwinds s r n t → List ℕ
visited (stops {t} e) = t ∷ []
visited (goes {t} e w) = t ∷ visited w

length-visited :
    {s : Store} {r : Resolved} {n : ℕ} {t : TypeId} (w : Unwinds s r n t)
    → length (visited w) ≡ suc n
unfolding visited
length-visited (stops e) = refl
length-visited (goes e w) = ap suc (length-visited w)

next-lt : (s : Store) (t : TypeId) → next s t ≢ broken → t < length s
unfolding next
next-lt s t h = elim (Option-cases (get_elem? s t)) [
  | inl e ↦ absurd (h (rw (e, next)))
  | inr (d, e) ↦ lt-get_elem? s t e
]

visited-Below :
    {s : Store} {r : Resolved} {n : ℕ} {t : TypeId} (w : Unwinds s r n t)
    → Below (length s) (visited w)
unfolding visited
visited-Below {s} (stops {t} e) = (next-lt s t (λ b. cc), tt)
visited-Below {s} (goes {t} e w) = (next-lt s t (λ b. cc), visited-Below w)

visited-NotIn :
    {s : Store} {r : Resolved} {n m : ℕ} {t x : TypeId} (w : Unwinds s r n t)
    → Unwinds s r m x
    → n < m
    → NotIn x (visited w)
unfolding visited
visited-NotIn (stops e) v h = (λ p. omega (arith, turns_unique (rw p at v) (stops e)), tt)
visited-NotIn (goes e w) v h =
    (λ p. omega (arith, turns_unique (rw p at v) (goes e w)), visited-NotIn w v (omega arith))

visited-Distinct :
    {s : Store} {r : Resolved} {n : ℕ} {t : TypeId} (w : Unwinds s r n t) → Distinct (visited w)
unfolding visited
visited-Distinct (stops e) = (tt, tt)
visited-Distinct (goes e w) = (visited-NotIn w (goes e w) (omega arith), visited-Distinct w)

-- `GetUnderlyingType` gives the type `r` exactly if the definitions in the store are a chain of
-- aliases from `t`, of any length, to `r`, which is no alias.
pub get_underlying_type_iff :
    (s : Store) (t : TypeId) (r : Resolved) → (get_underlying_type s t ≡ some r) ↔ EndsAt s t r
unfolding get_underlying_type
get_underlying_type_iff s t r = (
  λ e. let (n, w) = follow-Unwinds (length s) s t e in (n, Unwinds-Chain w),
  λ (n, c).
      let w = Chain-Unwinds c in
      Unwinds-follow (length s) w (
        omega (
          arith,
          length-visited w,
          pigeonhole (length s) (visited w) (visited-Distinct w) (visited-Below w),
        )),
)

-- If the types of a set are all aliases of types of the set, the loop started in it never ends,
-- however many turns it is given.
pub cycle_never_ends :
    (s : Store) (InCycle : TypeId → Type 0)
    → ((t : TypeId) → InCycle t → (u : TypeId) × (next s t ≡ follow u) × InCycle u)
    → (fuel : ℕ) (t : TypeId) → InCycle t
    → follow_aliases fuel s t ≡ none
unfolding follow_aliases
cycle_never_ends s InCycle closed zero t i = refl
cycle_never_ends s InCycle closed (suc fuel) t i =
    let (u, e, i') = closed t i in
    rw (e, follow_aliases) (cycle_never_ends s InCycle closed fuel u i')
