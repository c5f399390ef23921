-- ===== src/DefGroup/Laws.antt =====
-- What a lookup in a group of definitions of src/libmonga/defgroup.c finds.
use monga.Prelude.{
  ℕ, zero, suc, ◌^◌, ◌<◌, ◌≡◌, ◌≢◌, refl, subst, false, get_elem?, strcmp_eq_iff, arith, ap, ◌∙◌,
  ◌⊎◌, inl, inr, Option, none, some, List, [], ◌∷◌, ◌++◌, map, if◌then◌else◌, CString, strcmp_eq,
  Bool-cases,
}
use mathlib.Core.Option.{some-injective}
use monga.Alloc.{Allocator}
use monga.Error.{success, err_nomem}
use monga.Vector.{visited}
use monga.Vector.Refine.{Represents, push-Pushed}
use monga.DefGroup.{Def, DefGroup, reg, find_cell, find_def}

-- The first definition of a name in a list.
abbrev pub first_named : List Def → CString → Option Def
first_named [] name = none
first_named (d ∷ ds) name = if strcmp_eq d.def_name name then some d else first_named ds name

find_cell-first_named :
    (ds : List Def) (name : CString) → find_cell (map some ds) name ≡ some (first_named ds name)
unfolding find_cell
find_cell-first_named [] name = refl
find_cell-first_named (d ∷ ds) name = elim (Bool-cases (strcmp_eq d.def_name name)) [
  | inl e ↦ rw e refl
  | inr e ↦ rw e (find_cell-first_named ds name)
]

find_def-listed :
    (g : DefGroup) (ds : List Def) (name : CString)
    → Represents g.defs ds
    → find_def g name ≡ some (first_named ds name)
unfolding find_def visited
find_def-listed g ds name r = rw r.holds (find_cell-first_named ds name)

-- NULL, and no definition has the name, or one that has it and none before it does.
pub data FirstNamed (ds : List Def) (name : CString) (found : Option Def) : Type 0 where
  unnamed :
      found ≡ none
      → ((j : ℕ) (e : Def) → get_elem? ds j ≡ some e → e.def_name ≢ name)
      → FirstNamed ds name found
  named :
      (i : ℕ) (d : Def)
      → found ≡ some d
      → get_elem? ds i ≡ some d
      → d.def_name ≡ name
      → ((j : ℕ) (e : Def) → j < i → get_elem? ds j ≡ some e → e.def_name ≢ name)
      → FirstNamed ds name found

FirstNamed-skip :
    {ds : List Def} {name : CString} {found : Option Def} (x : Def)
    → x.def_name ≢ name
    → FirstNamed ds name found
    → FirstNamed (x ∷ ds) name found
FirstNamed-skip {ds} {name} x ne (FirstNamed.unnamed e h) =
    FirstNamed.unnamed e (λ j d at. go j d at)
  where
    go : (j : ℕ) (d : Def) → get_elem? (x ∷ ds) j ≡ some d → d.def_name ≢ name
    go zero d at = subst (λ y. y.def_name ≢ name) (some-injective x d at) ne
    go (suc j) d at = h j d at
FirstNamed-skip {ds} {name} x ne (FirstNamed.named i d e at same h) =
    FirstNamed.named (suc i) d e at same go
  where
    go : (j : ℕ) (d : Def) → j < suc i → get_elem? (x ∷ ds) j ≡ some d → d.def_name ≢ name
    go zero d lt at = subst (λ y. y.def_name ≢ name) (some-injective x d at) ne
    go (suc j) d lt at = h j d (omega arith) at

strcmp_neq : (a b : CString) → strcmp_eq a b ≡ false → a ≢ b
strcmp_neq a b e same = cc ((strcmp_eq_iff a b).1 same, e)

first_named-FirstNamed : (ds : List Def) (name : CString) → FirstNamed ds name (first_named ds name)
first_named-FirstNamed [] name = FirstNamed.unnamed refl (λ j e at. cc)
first_named-FirstNamed (x ∷ ds) name = elim (Bool-cases (strcmp_eq x.def_name name)) [
  | inl e ↦ rw e (
      FirstNamed.named 0 x refl refl ((strcmp_eq_iff x.def_name name).0 e)
        (λ j d lt. absurd (omega arith)))
  | inr e ↦ rw e (FirstNamed-skip x (strcmp_neq x.def_name name e) (first_named-FirstNamed ds name))
]

-- On a group of the definitions `ds`, in the order of their registration, a lookup reads no unwritten
-- cell; it gives the definition that stands at some place of `ds` and has the name when none at an
-- earlier place has it, or NULL, and then none at any place has the name.
pub find_def-FirstNamed :
    (g : DefGroup) (ds : List Def) (name : CString)
    → Represents g.defs ds
    → (found : Option Def) × (find_def g name ≡ some found) × FirstNamed ds name found
find_def-FirstNamed g ds name r =
    (first_named ds name, find_def-listed g ds name r, first_named-FirstNamed ds name)

first_named-append :
    (ds : List Def) (d : Def) (name : CString)
    → first_named (ds ++ d ∷ []) name ≡ elim (first_named ds name) [
      | some old ↦ some old
      | none ↦ if strcmp_eq d.def_name name then some d else none
    ]
first_named-append [] d name = refl
first_named-append (x ∷ ds) d name = elim (Bool-cases (strcmp_eq x.def_name name)) [
  | inl e ↦ rw e refl
  | inr e ↦ rw e (first_named-append ds d name)
]

-- Registering a definition in a group of the definitions `ds`, of capacity below 2 ^ 30: it reports
-- that there is no memory and leaves the group as it was, or a later lookup gives what it gave
-- before, and the new definition where it gave NULL and the name is the new one's.
pub find_def-reg :
    (a : Allocator Def) (g : DefGroup) (ds : List Def) (d : Def) (name : CString)
    → Represents g.defs ds
    → g.defs.cap < 2 ^ 30
    → ((reg a g d).0 ≡ err_nomem) × ((reg a g d).1 ≡ g)
      ⊎ ((reg a g d).0 ≡ success)
        × (find_def (reg a g d).1 name
            ≡ some (elim (first_named ds name) [
              | some old ↦ some old
              | none ↦ if strcmp_eq d.def_name name then some d else none
            ]))
unfolding reg
find_def-reg a g ds d name r h = elim (push-Pushed a d r h) [
  | inl (done, r') ↦ inr (
    done,
    find_def-listed (reg a g d).1 (ds ++ d ∷ []) name r' ∙ ap some (first_named-append ds d name),
  )
  | inr (failed, same) ↦ inl (failed, ap (λ v. record { defs = v }) same)
]
