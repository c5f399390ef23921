-- ===== src/Codegen/Lookup.antt =====
-- Lookups in the context of the generator (src/libmonga/codegen/llvmctx.c).
use monga.Prelude.{
  ℕ, suc, ◌+◌, ◌≡◌, refl, sym, ap, ◌∙◌, Bool, true, false, Option, none, some, List, [], ◌∷◌, ◌++◌,
  if◌then◌else◌, length, get_elem?, CString, strcmp_eq, strcmp_eq_refl, Bool-cases, inl, inr, arith,
}
use monga.Ast.{TypeId}
use monga.Codegen.Context.{
  Value, Local, Gen, literal_id, add_or_get_string_literal_id, last_named, find_local, push_local,
}

last_named-append :
    (ls : List Local) (l : Local) (name : CString)
    → last_named (ls ++ l ∷ []) name
      ≡ (if strcmp_eq l.var_name name then some l else last_named ls name)
last_named-append [] l name = refl
last_named-append (x ∷ ls) l name = elim (Bool-cases (strcmp_eq l.var_name name)) [
  | inl t ↦ let ih = last_named-append ls l name in rw (ih, t) refl
  | inr f ↦ let ih = last_named-append ls l name in rw (ih, f) refl
]

-- After `AddLocal` a lookup gives the new local under its name, whatever was declared under it before,
-- and under every other name what it gave before.
pub find_local-push_local :
    (name other : CString) (t : TypeId) (v : Value) (g g' : Gen) (found before : Option Local)
    → push_local name t v g ≡ some (tt, g')
    → find_local other g ≡ some (before, g)
    → find_local other g' ≡ some (found, g')
    → found ≡ (
        if strcmp_eq name other
        then some (record { var_name = name; var_type = t; location = v })
        else before)
unfolding push_local find_local
find_local-push_local name other t v g g' found before pushed first second =
    let ls : g'.locals ≡ g.locals ++ record { var_name = name; var_type = t; location = v } ∷ [] =
      sym (ap {B = List Local} (λ o. elim o [ none ↦ [] | some (u, h) ↦ h.locals ]) pushed) in
    let a : last_named g.locals other ≡ before =
      ap {B = Option Local} (λ o. elim o [ none ↦ none | some (l, h) ↦ l ]) first in
    let b : last_named g'.locals other ≡ found =
      ap {B = Option Local} (λ o. elim o [ none ↦ none | some (l, h) ↦ l ]) second in
    sym b
    ∙ ap (λ ls. last_named ls other) ls
    ∙ last_named-append g.locals (record { var_name = name; var_type = t; location = v }) other
    ∙ ap
        (λ o.
          if strcmp_eq name other
          then some (record { var_name = name; var_type = t; location = v })
          else o)
        a

missing_tail :
    (t : CString) (ls : List CString) (s : CString) (n : ℕ)
    → (literal_id (t ∷ ls) s n).0 ≡ false
    → (strcmp_eq t s ≡ false) × ((literal_id ls s (suc n)).0 ≡ false)
missing_tail t ls s n e = go (strcmp_eq t s) e
  where
    go :
        (same : Bool)
        → (if same then (true, suc n) else literal_id ls s (suc n)).0 ≡ false
        → (same ≡ false) × ((literal_id ls s (suc n)).0 ≡ false)
    go true e = cc
    go false e = (refl, e)

literal_id-missing :
    (ls : List CString) (s : CString) (n : ℕ)
    → (literal_id ls s n).0 ≡ false
    → (literal_id ls s n).1 ≡ length ls + n
literal_id-missing [] s n e = omega arith
literal_id-missing (t ∷ ls) s n e =
    let (other, rest) = missing_tail t ls s n e in
    rw other (omega (arith, literal_id-missing ls s (suc n) rest))

literal_id-append :
    (ls : List CString) (s : CString) (n : ℕ)
    → (literal_id ls s n).0 ≡ false
    → literal_id (ls ++ s ∷ []) s n ≡ (true, length ls + n + 1)
literal_id-append [] s n e = rw (strcmp_eq_refl s) (ap (λ k. (true, k)) (omega arith))
literal_id-append (t ∷ ls) s n e =
    let (other, rest) = missing_tail t ls s n e in
    rw other (literal_id-append ls s (suc n) rest ∙ ap (λ k. (true, k)) (omega arith))

at_end : (ls : List CString) (s : CString) → get_elem? (ls ++ s ∷ []) (length ls) ≡ some s
at_end [] s = refl
at_end (t ∷ ls) s = at_end ls s

-- The first printing of a string literal gives it the number of its place among the literals, which
-- is the number that its constant is defined under. The second printing gives the next number, under
-- which another literal is defined, or none.
pub add_or_get_string_literal_id-repeated :
    (s : CString) (g g1 g2 : Gen) (id next_id : ℕ)
    → (literal_id g.string_literals s 0).0 ≡ false
    → add_or_get_string_literal_id s g ≡ some (id, g1)
    → add_or_get_string_literal_id s g1 ≡ some (next_id, g2)
    → (get_elem? g1.string_literals id ≡ some s) × (next_id ≡ id + 1)
unfolding add_or_get_string_literal_id
add_or_get_string_literal_id-repeated s g g1 g2 id next_id missing first second =
    let ls = g.string_literals in
    let first' = sym first ∙ found_first (literal_id ls s 0) missing in
    let at : id ≡ (literal_id ls s 0).1 = id_of first' in
    let after : g1.string_literals ≡ ls ++ s ∷ [] =
      ap {B = List CString} (λ o. elim o [ none ↦ [] | some (u, h) ↦ h.string_literals ]) first' in
    let number : id ≡ length ls = omega (arith, at, literal_id-missing ls s 0 missing) in
    let again : next_id ≡ (literal_id g1.string_literals s 0).1 = id_of (sym second) in
    let place : (literal_id g1.string_literals s 0).1 ≡ length ls + 0 + 1 =
      rw after (ap {B = ℕ} (λ r. r.1) (literal_id-append ls s 0 missing)) in
    (rw (after, number) (at_end ls s), omega (arith, again, place, number))
  where
    id_of : {i j : ℕ} {x y : Gen} → ◌≡◌ {A = Option (ℕ × Gen)} (some (i, x)) (some (j, y)) → i ≡ j
    id_of {i} e = ap (λ o. elim o [ none ↦ i | some (k, h) ↦ k ]) e

    found_first :
        (r : Bool × ℕ)
        → r.0 ≡ false
        → ◌≡◌ {A = Option (ℕ × Gen)}
            (some
              (r.1, if r.0 then g else record g { string_literals = g.string_literals ++ s ∷ [] }))
            (some (r.1, record g { string_literals = g.string_literals ++ s ∷ [] }))
    found_first (found, id) e = rw e refl
