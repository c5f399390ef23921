-- ===== src/Sem/Frame.antt =====
-- What the steps of src/libmonga/sem.c leave alone: the loop level, the scopes but for symbols added to
-- the current one, the type definitions that there are, and the functions. Messages are only added.
pub mod Expressions
use monga.Prelude.{
  Grows, Grows-trans, ℕ, suc, ◌+◌, ◌-◌, ◌≤◌, ◌≡◌, refl, sym, ap, ◌∙◌, subst, ◌⊎◌, inl, inr, Bool,
  true, false, Option, none, some, List, [], ◌∷◌, ◌++◌, append_assoc, append-nil, if◌then◌else◌,
  length, CString, Option-cases, Bool-cases, arith,
}
use monga.Ast.{TypeId, TypeDef}
use monga.Error.{RetCode, success, err_duplicate, err_builtin}
use monga.Sem.Scope.{
  Symbol, Scope, SymbolDef, sym_type, sym_param, sym_func, sym_var, sym_field, add_symbol,
  add_outcome, try_add_symbol, find_local, find_in, builtin_scope, find_symbol,
}
use monga.Sem.State.{
  Ctx, M, ◌>>=◌, ◌>>◌, return, lift, log_error, reject, no_type, Message, add_used_type, mem_type,
  push_scope, pop_scope, register_outcome, try_register_symbol, create_array_type,
  find_or_create_array_type, type_name_of, array_name,
}

-- The current scope has more symbols at its end, if any, and its parents are the same.
abbrev pub ScopesGrow : List Scope → List Scope → Type 0
ScopesGrow [] after = after ≡ []
ScopesGrow (s ∷ parents) after = (more : Scope) × (after ≡ (s ++ more) ∷ parents)

pub ScopesGrow-refl : (scopes : List Scope) → ScopesGrow scopes scopes
ScopesGrow-refl [] = refl
ScopesGrow-refl (s ∷ parents) = ([], ap (λ l. l ∷ parents) (sym (append-nil s)))

pub ScopesGrow-trans : (a b c : List Scope) → ScopesGrow a b → ScopesGrow b c → ScopesGrow a c
ScopesGrow-trans [] b c p q = subst (λ l. ScopesGrow l c) p q
ScopesGrow-trans (s ∷ parents) b c (more, p) q =
    let (more', q') = subst (λ l. ScopesGrow l c) p q in
    (more ++ more', q' ∙ ap (λ l. l ∷ parents) (append_assoc s more more'))

-- The messages of the first list are the last of the second.
abbrev pub MessagesAdded : List Message → List Message → Type 0
MessagesAdded before after = (new : List Message) × (after ≡ new ++ before)

MessagesAdded-trans :
    (a b c : List Message) → MessagesAdded a b → MessagesAdded b c → MessagesAdded a c
MessagesAdded-trans a b c (new, p) (new', q) =
    (new' ++ new, q ∙ ap (λ l. new' ++ l) p ∙ sym (append_assoc new' new a))

pub record Frame (c c' : Ctx) : Type 0 where
  pub level : c'.loop_level ≡ c.loop_level
  pub scopes : ScopesGrow c.scopes c'.scopes
  pub types : Grows c.types c'.types
  pub messages : MessagesAdded c.errors c'.errors
  pub functions : c'.funcs ≡ c.funcs

pub Frame-refl : (c : Ctx) → Frame c c
Frame-refl c = record {
  level = refl;
  scopes = ScopesGrow-refl c.scopes;
  types = ([], sym (append-nil c.types));
  messages = ([], refl);
  functions = refl;
}

pub Frame-trans : {a b c : Ctx} → Frame a b → Frame b c → Frame a c
Frame-trans {a} {b} {c} f g = record {
  level = g.level ∙ f.level;
  scopes = ScopesGrow-trans a.scopes b.scopes c.scopes f.scopes g.scopes;
  types = Grows-trans a.types b.types c.types f.types g.types;
  messages = MessagesAdded-trans a.errors b.errors c.errors f.messages g.messages;
  functions = g.functions ∙ f.functions;
}

-- Where the step returns, `P` holds of the result and the context after it.
abbrev pub Ensures : {A : Type 0} → (A → Ctx → Type 0) → Option (A × Ctx) → Type 0
Ensures P none = Unit
Ensures P (some (a, c)) = P a c

pub Ensures-bind :
    {A B : Type 0} (P : A → Ctx → Type 0) (Q : B → Ctx → Type 0) (f : A → M B)
    (r : Option (A × Ctx))
    → Ensures P r
    → ((a : A) (c : Ctx) → P a c → Ensures Q (f a c))
    → Ensures Q (elim r [ none ↦ none | some (a, c) ↦ f a c ])
Ensures-bind P Q f none h k = tt
Ensures-bind P Q f (some (a, c)) h k = k a c h

pub Ensures-weaken :
    {A : Type 0} (P Q : A → Ctx → Type 0) (r : Option (A × Ctx))
    → Ensures P r
    → ((a : A) (c : Ctx) → P a c → Q a c)
    → Ensures Q r
Ensures-weaken P Q none h k = tt
Ensures-weaken P Q (some (a, c)) h k = k a c h

-- A sequence of two steps.
pub Ensures-then :
    {A B : Type 0} (P : A → Ctx → Type 0) (Q : B → Ctx → Type 0) (m : M A) (f : A → M B) (c : Ctx)
    → Ensures P (m c)
    → ((a : A) (c' : Ctx) → P a c' → Ensures Q (f a c'))
    → Ensures Q ((m >>= f) c)
unfolding ◌>>=◌
Ensures-then P Q m f c h k = Ensures-bind P Q f (m c) h k

-- What holds of each result that the step can have is ensured of it.
pub Ensures-of :
    {A : Type 0} (P : A → Ctx → Type 0) (r : Option (A × Ctx))
    → ((a : A) (c : Ctx) → r ≡ some (a, c) → P a c)
    → Ensures P r
Ensures-of P none h = tt
Ensures-of P (some (a, c)) h = h a c refl

-- The step leaves alone what `Frame` says.
pub record Keeps {A : Type 0} (m : M A) : Type 0 where
  pub framed : (c : Ctx) → Ensures (λ a c'. Frame c c') (m c)

pub Keeps-bind :
    {A B : Type 0} {m : M A} {f : A → M B} → Keeps m → ((a : A) → Keeps (f a)) → Keeps (m >>= f)
unfolding ◌>>=◌
Keeps-bind {m} {f} h k = record {
  framed = λ c.
      Ensures-bind (λ a c'. Frame c c') (λ b c'. Frame c c') f (m c) (h.framed c)
        (λ a c' g.
          Ensures-weaken (λ b c''. Frame c' c'') (λ b c''. Frame c c'') (f a c') ((k a).framed c')
            (λ b c'' g'. Frame-trans g g'));
}

pub Keeps-return : {A : Type 0} (a : A) → Keeps (return a)
unfolding return
Keeps-return a = record { framed = λ c. Frame-refl c }

Ensures-lift :
    {A : Type 0} (c : Ctx) (o : Option A)
    → Ensures (λ a c'. Frame c c') (elim o [ none ↦ none | some a ↦ some (a, c) ])
Ensures-lift c none = tt
Ensures-lift c (some a) = Frame-refl c

pub Keeps-lift : {A : Type 0} (f : Ctx → Option A) → Keeps (lift f)
unfolding lift
Keeps-lift f = record { framed = λ c. Ensures-lift c (f c) }

Frame-log : (c : Ctx) (m : Message) → Frame c (record c { errors = m ∷ c.errors })
Frame-log c m = record {
  level = refl;
  scopes = ScopesGrow-refl c.scopes;
  types = ([], sym (append-nil c.types));
  messages = (m ∷ [], refl);
  functions = refl;
}

pub Keeps-log_error : (m : Message) → Keeps (log_error m)
unfolding log_error
Keeps-log_error m = record { framed = λ c. Frame-log c m }

pub Keeps-reject : (m : Message) → Keeps (reject m)
Keeps-reject m = Keeps-bind (Keeps-log_error _) (λ u. Keeps-return _)

pub Keeps-no_type : {A : Type 0} (m : Message) → Keeps (no_type {A = A} m)
Keeps-no_type m = Keeps-bind (Keeps-log_error _) (λ u. Keeps-return _)

pub Keeps-if : {A : Type 0} (b : Bool) {x y : M A} → Keeps x → Keeps y → Keeps (if b then x else y)
Keeps-if true h k = h
Keeps-if false h k = k

Frame-used :
    (c : Ctx) (t : TypeId) (b : Bool)
    → Frame c (if b then c else record c { used_types = c.used_types ++ t ∷ [] })
Frame-used c t true = Frame-refl c
Frame-used c t false = record {
  level = refl;
  scopes = ScopesGrow-refl c.scopes;
  types = ([], sym (append-nil c.types));
  messages = ([], refl);
  functions = refl;
}

pub Keeps-add_used_type : (t : TypeId) → Keeps (add_used_type t)
unfolding add_used_type
Keeps-add_used_type t = record { framed = λ c. Frame-used c t (mem_type t c.used_types) }

pub add_symbol-ScopesGrow :
    (scopes after : List Scope) (s : Symbol)
    → add_symbol scopes s ≡ some after
    → ScopesGrow scopes after
unfolding add_symbol
add_symbol-ScopesGrow [] after s e = cc
add_symbol-ScopesGrow (x ∷ xs) after s e =
    (s ∷ [], sym (ap {B = List Scope} (λ o. elim o [ none ↦ [] | some l ↦ l ]) e))

try_add_symbol-ScopesGrow :
    (scopes after : List Scope) (s : Symbol) (code : RetCode)
    → try_add_symbol scopes s ≡ some (code, after)
    → ScopesGrow scopes after
unfolding try_add_symbol add_outcome
try_add_symbol-ScopesGrow scopes after s code =
    go (find_local scopes s.sym_name) (find_in builtin_scope s.sym_name) (add_symbol scopes s)
      (λ l. add_symbol-ScopesGrow scopes l s)
  where
    same :
        (l : List Scope) (code' : RetCode)
        → ScopesGrow scopes l
        → ◌≡◌ {A = Option (RetCode × List Scope)} (some (code', l)) (some (code, after))
        → ScopesGrow scopes after
    same l code' h e =
        subst (ScopesGrow scopes)
          (ap {B = List Scope} (λ o. elim o [ none ↦ l | some (x, y) ↦ y ]) e) h

    go :
        (a b : Option Symbol) (r : Option (List Scope))
        → ((l : List Scope) → r ≡ some l → ScopesGrow scopes l)
        → add_outcome a b scopes r ≡ some (code, after)
        → ScopesGrow scopes after
    go (some x) b r h e = same scopes err_duplicate (ScopesGrow-refl scopes) e
    go none (some x) r h e = same scopes err_builtin (ScopesGrow-refl scopes) e
    go none none none h e = cc
    go none none (some l) h e = same l success (h l refl) e

pub Frame-scopes :
    (c : Ctx) (after : List Scope)
    → ScopesGrow c.scopes after
    → Frame c (record c { scopes = after })
Frame-scopes c after e = record {
  level = refl;
  scopes = e;
  types = ([], sym (append-nil c.types));
  messages = ([], refl);
  functions = refl;
}

Keeps-register_outcome : (name : CString) (code : RetCode) → Keeps (register_outcome name code)
unfolding register_outcome
Keeps-register_outcome name RetCode.success = Keeps-return _
Keeps-register_outcome name RetCode.err_duplicate = Keeps-reject _
Keeps-register_outcome name RetCode.err_builtin = Keeps-reject _
Keeps-register_outcome name _ = Keeps-return _

pub Keeps-try_register_symbol : (s : Symbol) → Keeps (try_register_symbol s)
unfolding try_register_symbol
Keeps-try_register_symbol s = record {
  framed = λ c.
      go c (try_add_symbol c.scopes s)
        (λ code after. try_add_symbol-ScopesGrow c.scopes after s code);
}
  where
    go :
        (c : Ctx) (r : Option (RetCode × List Scope))
        → ((code : RetCode) (after : List Scope)
            → r ≡ some (code, after)
            → ScopesGrow c.scopes after)
        → Ensures
            (λ a c'. Frame c c')
            (elim r [
              | none ↦ none
              | some (code, after) ↦ register_outcome s.sym_name code (record c { scopes = after })
            ])
    go c none h = tt
    go c (some (code, after)) h =
        Ensures-weaken (λ a c'. Frame (record c { scopes = after }) c') (λ a c'. Frame c c')
          (register_outcome s.sym_name code (record c { scopes = after }))
          ((Keeps-register_outcome s.sym_name code).framed (record c { scopes = after }))
          (λ a c' g. Frame-trans (Frame-scopes c after (h code after refl)) g)

Frame-array :
    (c : Ctx) (d : TypeDef) (after : List Scope) (made : List TypeId)
    → ScopesGrow c.scopes after
    → Frame c (record c { types = c.types ++ d ∷ []; scopes = after; anonymous = made })
Frame-array c d after made e = record {
  level = refl;
  scopes = e;
  types = (d ∷ [], refl);
  messages = ([], refl);
  functions = refl;
}

pub Keeps-create_array_type : (name : CString) (t : TypeId) → Keeps (create_array_type name t)
unfolding create_array_type
Keeps-create_array_type name t = record {
  framed = λ c. go c _ _ _ (λ after. add_symbol-ScopesGrow c.scopes after _);
}
  where
    go :
        (c : Ctx) (d : TypeDef) (made : List TypeId) (r : Option (List Scope))
        → ((after : List Scope) → r ≡ some after → ScopesGrow c.scopes after)
        → Ensures
            (λ a c'. Frame c c')
            (elim r [
              | none ↦ none
              | some after ↦ some (
                length c.types,
                record c { types = c.types ++ d ∷ []; scopes = after; anonymous = made },
              )
            ])
    go c d made none h = tt
    go c d made (some after) h = Frame-array c d after made (h after refl)

Keeps-array_symbol : (d : SymbolDef) → Keeps (elim d [ sym_type t ↦ return t | _ ↦ λ c. none ])
Keeps-array_symbol (sym_type t) = Keeps-return t
Keeps-array_symbol (sym_param t) = record { framed = λ c. tt }
Keeps-array_symbol (sym_func t) = record { framed = λ c. tt }
Keeps-array_symbol (sym_var t) = record { framed = λ c. tt }
Keeps-array_symbol sym_field = record { framed = λ c. tt }

pub Keeps-find_or_create_array_type : (t : TypeId) → Keeps (find_or_create_array_type t)
unfolding find_or_create_array_type
Keeps-find_or_create_array_type t = Keeps-bind (Keeps-lift _) (λ name.
    Keeps-bind (Keeps-lift _)
      (elim [ none ↦ Keeps-create_array_type name t | some s ↦ Keeps-array_symbol s.definition ]))
