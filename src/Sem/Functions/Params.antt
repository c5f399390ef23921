-- ===== src/Sem/Functions/Params.antt =====
-- The loop of `ResolveFunctionDeclaration` of src/libmonga/sem.c over the parameters.
use monga.Prelude.{
  ℕ, ◌+◌, ◌≡◌, refl, sym, ap, ◌∙◌, subst, inl, inr, Bool, true, false, ◌&&◌, ◌||◌, Option, none,
  some, List, [], ◌∷◌, ◌++◌, CString,
}
use monga.Ast.{TypeId, FuncId}
use monga.Sem.Scope.{Symbol, Scope}
use monga.Sem.State.{Ctx, M, ◌>>=◌, ◌>>◌, return, add_used_type, try_register_symbol}
use monga.Sem.Frame.{Ensures, Ensures-then}
use monga.Sem.Functions.{declare_params}
use monga.Syntax.{Param}
use monga.Sem.Functions.Steps.{
  Registers, try_register_symbol-Registers, is_taken, names, current_names, Still,
  Still-update_func, Still-add_used_type, Still-type_or_error,
}

pub same_parents :
    {s top : Scope} {parents rest : List Scope}
    → ◌≡◌ {A = List Scope} (s ∷ parents) (top ∷ rest)
    → parents ≡ rest
same_parents e = ap {B = List Scope} (λ l. elim l [ [] ↦ [] | x ∷ xs ↦ xs ]) e

pub then-Still :
    {A B : Type 0} {m : M A} (f : A → M B) (scopes : List Scope) (Q : B → Ctx → Type 0) (c : Ctx)
    → c.scopes ≡ scopes
    → Still m
    → ((a : A) (c' : Ctx) → c'.scopes ≡ scopes → Ensures Q (f a c'))
    → Ensures Q ((m >>= f) c)
then-Still {m} f scopes Q c e h k =
    Ensures-then (λ a c'. c'.scopes ≡ c.scopes) Q m f c (h.still c) (λ a c' e'. k a c' (e' ∙ e))

-- A parameter has the name of an earlier one, or of a builtin type.
abbrev pub clashes : List CString → List Param → Bool
clashes seen [] = false
clashes seen (p ∷ ps) = is_taken seen p.name || clashes (seen ++ p.name ∷ []) ps

names-append : (s : Scope) (d : Symbol) → names (s ++ d ∷ []) ≡ names s ++ d.sym_name ∷ []
names-append [] d = refl
names-append (x ∷ s) d = ap (λ l. x.sym_name ∷ l) (names-append s d)

-- The loop over the parameters stops early exactly at a clash, and changes the current scope only.
unfoldable pub ParamsEnd : List Scope → Bool → Option Bool → Ctx → Type 0
ParamsEnd rest clash r c' =
    ((top' : Scope) × (c'.scopes ≡ top' ∷ rest)) × (elim r [ none ↦ true | some b ↦ false ] ≡ clash)

Ensures-param :
    (f : FuncId) (i : ℕ) (p : Param) (ps : List Param) (t : TypeId) (ret : Bool) (c : Ctx)
    (top : Scope) (rest : List Scope) (d : Symbol)
    → c.scopes ≡ top ∷ rest
    → d.sym_name ≡ p.name
    → ((c' : Ctx)
        → c'.scopes ≡ (top ++ d ∷ []) ∷ rest
        → Ensures
            (ParamsEnd rest (clashes (names (top ++ d ∷ [])) ps))
            (declare_params f (i + 1) ps ret c'))
    → Ensures (ParamsEnd rest (clashes (names top) (p ∷ ps))) (
        (try_register_symbol d >>= (elim [
          | false ↦ return none
          | true ↦ add_used_type t >> declare_params f (i + 1) ps ret
        ]))
          c)
unfolding ParamsEnd Registers return
Ensures-param f i p ps t ret c top rest d e same later =
    Ensures-then (Registers d c) (ParamsEnd rest (clashes (names top) (p ∷ ps)))
      (try_register_symbol d) _ c (try_register_symbol-Registers d c) go
  where
    is_same : is_taken (current_names c.scopes) d.sym_name ≡ is_taken (names top) p.name
    is_same = rw (e, same) refl

    go :
        (ok : Bool) (c1 : Ctx)
        → Registers d c ok c1
        → Ensures (ParamsEnd rest (clashes (names top) (p ∷ ps))) (
            elim ok as (λ x. M (Option Bool)) [
              | false ↦ return none
              | true ↦ add_used_type t >> declare_params f (i + 1) ps ret
            ]
              c1)
    go false c1 (inl (t, free, h)) = cc
    go true c1 (inr (t, taken, h)) = cc
    go false c1 (inr (t, taken, q)) =
        ((top, q ∙ e), ap (λ b. b || clashes (names top ++ p.name ∷ []) ps) (sym taken ∙ is_same))
    go true c1 (inl (u, free, (s, parents, e', q))) =
        let added : c1.scopes ≡ (top ++ d ∷ []) ∷ rest =
          q
          ∙ ap {B = List Scope} (λ l. elim l [ [] ↦ [] | y ∷ ys ↦ (y ++ d ∷ []) ∷ ys ])
              (sym e' ∙ e) in
        let onward : clashes (names (top ++ d ∷ [])) ps ≡ clashes (names top) (p ∷ ps) =
          ap (λ l. clashes l ps) (names-append top d ∙ ap (λ n. names top ++ n ∷ []) same)
          ∙ ap (λ b. b || clashes (names top ++ p.name ∷ []) ps) (sym free ∙ is_same) in
        subst
          (λ cl.
            Ensures (ParamsEnd rest cl) ((add_used_type t >> declare_params f (i + 1) ps ret) c1))
          onward (then-Still _ _ _ c1 added (Still-add_used_type t) (λ v c2 e2. later c2 e2))

pub Ensures-declare_params :
    (f : FuncId) (i : ℕ) (ps : List Param) (ret : Bool) (c : Ctx) (top : Scope) (rest : List Scope)
    → c.scopes ≡ top ∷ rest
    → Ensures (ParamsEnd rest (clashes (names top) ps)) (declare_params f i ps ret c)
unfolding declare_params ParamsEnd return
Ensures-declare_params f i [] ret c top rest e = ((top, e), refl)
Ensures-declare_params f i (p ∷ ps) ret c top rest e =
    then-Still _ _ _ c e (Still-type_or_error _ _) (λ (t, known) c1 e1.
      then-Still _ _ _ c1 e1 (Still-update_func f _) (λ u c2 e2.
        Ensures-param f i p ps t (known && ret) c2 top rest _ e2 refl
          (λ c3 e3. Ensures-declare_params f (i + 1) ps (known && ret) c3 _ rest e3)))
