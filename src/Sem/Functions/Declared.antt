-- ===== src/Sem/Functions/Declared.antt =====
-- What `ResolveFunctionDeclaration` of src/libmonga/sem.c leaves in the current scope.
use monga.Prelude.{
  ℕ, ◌-◌, ◌≡◌, refl, sym, ap, ◌∙◌, ◌⊎◌, inl, inr, Bool, true, false, ◌||◌, Option, none, some, List,
  [], ◌∷◌, ◌++◌, get_elem?, length, length-append, erase_idx, arith,
}
use monga.Ast.{TypeId, FuncId}
use monga.Sem.Scope.{Symbol, Scope, sym_func}
use monga.Sem.State.{
  Ctx, ◌>>=◌, ◌>>◌, return, lift, add_used_type, push_scope, pop_scope, pop_scopes,
  try_register_symbol,
}
use monga.Sem.Frame.{Ensures, Ensures-then, Ensures-weaken}
use monga.Sem.Functions.{
  declare_params, remove_symbol, last_symbol, finish_declaration, declare_signature,
  declare_registered, resolve_function_declaration,
}
use monga.Syntax.{Param, FuncDef}
use monga.Sem.Statements.Sound.{ensured}
use monga.Sem.Functions.Params.{
  same_parents, then-Still, clashes, ParamsEnd, Ensures-declare_params,
}
use monga.Sem.Functions.Steps.{
  Appended, Registers, try_register_symbol-Registers, is_taken, current_names, Still, Still-bind,
  Still-return, Still-lift, Still-update_func, Still-add_used_type, Still-type_or_error,
}

erase_end : (s : Scope) (d : Symbol) → erase_idx (s ++ d ∷ []) (length s) ≡ s
erase_end [] d = refl
erase_end (x ∷ s) d = ap (λ l. x ∷ l) (erase_end s d)

erase_last : (s : Scope) (d : Symbol) → erase_idx (s ++ d ∷ []) (length (s ++ d ∷ []) - 1) ≡ s
erase_last s d =
    let at : length (s ++ d ∷ []) - 1 ≡ length s = omega (arith, length-append s (d ∷ [])) in
    ap (erase_idx (s ++ d ∷ [])) at ∙ erase_end s d

pop_scope-parents :
    (c : Ctx) (top : Scope) (rest : List Scope)
    → c.scopes ≡ top ∷ rest
    → Ensures (λ u c'. c'.scopes ≡ rest) (pop_scope c)
unfolding pop_scope pop_scopes
pop_scope-parents c top rest e = go c.scopes e
  where
    go :
        (l : List Scope)
        → l ≡ top ∷ rest
        → Ensures {A = Unit}
            (λ u c'. c'.scopes ≡ rest)
            (elim (pop_scopes l) [
              | none ↦ none
              | some parents ↦ some (tt, record c { scopes = parents })
            ])
    go [] e = tt
    go (s ∷ l) e = same_parents e

remove_symbol-erase_idx :
    (i : ℕ) (c : Ctx) (s : Scope) (parents : List Scope)
    → c.scopes ≡ s ∷ parents
    → Ensures (λ u c'. c'.scopes ≡ erase_idx s i ∷ parents) (remove_symbol i c)
unfolding remove_symbol
remove_symbol-erase_idx i c s parents e = go c.scopes e
  where
    go :
        (l : List Scope)
        → l ≡ s ∷ parents
        → Ensures {A = Unit}
            (λ u c'. c'.scopes ≡ erase_idx s i ∷ parents)
            (elim l [
              | [] ↦ none
              | s ∷ parents ↦ some (tt, record c { scopes = erase_idx s i ∷ parents })
            ])
    go [] e = tt
    go (x ∷ l) e = ap {B = List Scope} (λ o. elim o [ [] ↦ [] | y ∷ ys ↦ erase_idx y i ∷ ys ]) e

-- With the function's symbol last in the scope below: it stays, or after a clash it is taken out
-- and the answer is false.
Ends : Scope → List Scope → Symbol → Bool → Bool → Ctx → Type 0
Ends s parents d clash ok c' =
    (clash ≡ false) × (c'.scopes ≡ (s ++ d ∷ []) ∷ parents)
    ⊎ (clash ≡ true) × (ok ≡ false) × (c'.scopes ≡ s ∷ parents)

Still-entry :
    (entry : Bool)
    → Still {A = Unit} (λ c. some (tt, record c { has_entry_point = entry || c.has_entry_point }))
Still-entry entry = record { still = λ c. refl }

Still-answer :
    (t : TypeId) (ret : Bool)
    → Still (elim ret [ false ↦ return false | true ↦ add_used_type t >> return true ])
Still-answer t false = Still-return _
Still-answer t true = Still-bind (Still-add_used_type t) (λ u. Still-return _)

finish_declaration-Ends :
    (f : FuncId) (t : TypeId) (r : Option Bool) (c : Ctx) (top s : Scope) (parents : List Scope)
    (d : Symbol) (clash : Bool)
    → elim r [ none ↦ true | some b ↦ false ] ≡ clash
    → c.scopes ≡ top ∷ (s ++ d ∷ []) ∷ parents
    → Ensures (Ends s parents d clash) (finish_declaration f t (length (s ++ d ∷ []) - 1) r c)
unfolding finish_declaration return Ends
finish_declaration-Ends f t none c top s parents d clash n e =
    Ensures-then (λ u c'. c'.scopes ≡ (s ++ d ∷ []) ∷ parents) (Ends s parents d clash) pop_scope _
      c (pop_scope-parents c top _ e)
      (λ u c' e'.
        Ensures-then (λ v c''. c''.scopes ≡ erase_idx (s ++ d ∷ []) _ ∷ parents)
          (Ends s parents d clash) (remove_symbol (length (s ++ d ∷ []) - 1)) _ c'
          (remove_symbol-erase_idx _ c' _ parents e')
          (λ v c'' e''. inr (sym n, refl, e'' ∙ ap (λ l. l ∷ parents) (erase_last s d))))
finish_declaration-Ends f t (some ret) c top s parents d clash n e =
    Ensures-then (λ u c'. c'.scopes ≡ (s ++ d ∷ []) ∷ parents) (Ends s parents d clash) pop_scope _
      c (pop_scope-parents c top _ e)
      (λ u c' e'.
        Ensures-weaken (λ ok c''. c''.scopes ≡ c'.scopes) (Ends s parents d clash) _
          ((Still-bind (Still-lift _) (λ def.
              Still-bind (Still-update_func f _)
                (λ v. Still-bind (Still-entry _) (λ w. Still-answer t ret)))).still
            c')
          (λ ok c'' e''. inl (sym n, e'' ∙ e')))

declare_signature-Ends :
    (f : FuncId) (def : FuncDef) (c : Ctx) (s : Scope) (parents : List Scope) (d : Symbol)
    → c.scopes ≡ (s ++ d ∷ []) ∷ parents
    → Ensures
        (Ends s parents d (clashes [] def.params))
        (declare_signature f def (length (s ++ d ∷ []) - 1) c)
unfolding declare_signature push_scope ParamsEnd
declare_signature-Ends f def c s parents d e =
    let below = (s ++ d ∷ []) ∷ parents in
    let clash = clashes [] def.params in
    then-Still _ _ _ c e (Still-type_or_error _ _) (λ (t, known) c1 e1.
      then-Still _ _ _ c1 e1 (Still-update_func f _) (λ u c2 e2.
        Ensures-then (λ v c3. c3.scopes ≡ [] ∷ below) (Ends s parents d clash) push_scope _ c2
          (pushed c2 e2)
          (λ v c3 e3.
            Ensures-then (ParamsEnd below clash) (Ends s parents d clash)
              (declare_params f 0 def.params known) _ c3
              (Ensures-declare_params f 0 def.params known c3 [] below e3)
              (λ r c4 ((top, e4), n).
                finish_declaration-Ends f t r c4 top s parents d clash n e4))))
  where
    pushed :
        (c2 : Ctx)
        → c2.scopes ≡ (s ++ d ∷ []) ∷ parents
        → Ensures (λ v c3. c3.scopes ≡ [] ∷ (s ++ d ∷ []) ∷ parents) (push_scope c2)
    pushed c2 e2 = ap (λ l. [] ∷ l) e2

-- What a declaration leaves.
Declares : Symbol → List Param → Ctx → Bool → Ctx → Type 0
Declares d ps c ok c' =
    (is_taken (current_names c.scopes) d.sym_name ≡ false)
      × (clashes [] ps ≡ false)
      × Appended d c.scopes c'.scopes
    ⊎ ((is_taken (current_names c.scopes) d.sym_name || clashes [] ps) ≡ true)
      × (ok ≡ false)
      × (c'.scopes ≡ c.scopes)

last_read :
    (c : Ctx) (top : Scope) (rest : List Scope)
    → c.scopes ≡ top ∷ rest
    → Ensures
        (λ i c'. (i ≡ length top - 1) × (c'.scopes ≡ top ∷ rest))
        (lift (λ c. last_symbol c.scopes) c)
unfolding lift
last_read c top rest e = rw (e, Ensures) (refl, e)

declare_registered-Declares :
    (f : FuncId) (def : FuncDef) (d : Symbol) (c c1 : Ctx) (ok : Bool)
    → Registers d c ok c1
    → Ensures (Declares d def.params c) (declare_registered f def ok c1)
unfolding declare_registered Registers Declares Ends return
declare_registered-Declares f def d c c1 false (inl (t, free, a)) = cc
declare_registered-Declares f def d c c1 false (inr (t, taken, q)) =
    inr (ap (λ b. b || clashes [] def.params) taken, refl, q)
declare_registered-Declares f def d c c1 true (inr (t, taken, q)) = cc
declare_registered-Declares f def d c c1 true (inl (t, free, (s, parents, e, q))) =
    Ensures-then (λ i c2. (i ≡ length (s ++ d ∷ []) - 1) × (c2.scopes ≡ (s ++ d ∷ []) ∷ parents))
      (Declares d def.params c) (lift (λ c. last_symbol c.scopes)) _ c1 (last_read c1 _ _ q)
      (λ i c2 (at, q2). rw at (
        Ensures-weaken (Ends s parents d (clashes [] def.params)) (Declares d def.params c) _
          (declare_signature-Ends f def c2 s parents d q2)
          (λ ok c3. elim [
            | inl (fine, kept) ↦ inl (free, fine, (s, parents, e, kept))
            | inr (clash, rejected, gone) ↦
                inr (ap (λ b. b || clashes [] def.params) free ∙ clash, rejected, gone ∙ sym e)
          ])))

abbrev pub symbol_of : FuncId → FuncDef → Symbol
symbol_of f def = record { definition = sym_func f; sym_name = def.func_name }

declaration_runs :
    (f : FuncId) (def : FuncDef) (c : Ctx)
    → get_elem? c.funcs f ≡ some def
    → resolve_function_declaration f c
      ≡ (try_register_symbol (symbol_of f def) >>= declare_registered f def) c
unfolding resolve_function_declaration ◌>>=◌ lift
declaration_runs f def c e = rw (e, ◌>>=◌, lift) refl

-- `ResolveFunctionDeclaration`, when it returns: if the function's name is no name of the current
-- scope or of a builtin type, and no parameter has the name of an earlier one or of a builtin type,
-- it has appended the function's symbol to the current scope and left the other scopes alone;
-- otherwise it answers false and all scopes are as they were.
pub resolve_function_declaration-Appended :
    (f : FuncId) (def : FuncDef) (c c' : Ctx) (ok : Bool)
    → get_elem? c.funcs f ≡ some def
    → resolve_function_declaration f c ≡ some (ok, c')
    → (is_taken (current_names c.scopes) def.func_name ≡ false)
        × (clashes [] def.params ≡ false)
        × Appended (symbol_of f def) c.scopes c'.scopes
      ⊎ ((is_taken (current_names c.scopes) def.func_name || clashes [] def.params) ≡ true)
        × (ok ≡ false)
        × (c'.scopes ≡ c.scopes)
unfolding Declares
resolve_function_declaration-Appended f def c c' ok e run =
    let d = symbol_of f def in
    ensured (Declares d def.params c) _ ok c'
      (Ensures-then (Registers d c) (Declares d def.params c) (try_register_symbol d)
        (declare_registered f def) c (try_register_symbol-Registers d c)
        (λ ok c1. declare_registered-Declares f def d c c1 ok))
      (sym (declaration_runs f def c e) ∙ run)
