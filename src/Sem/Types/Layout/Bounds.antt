-- ===== src/Sem/Types/Layout/Bounds.antt =====
-- What the size of a record of src/libmonga/sem/types.c is good for, and when it is not computed.
use monga.Prelude.{
  ℕ, ◌+◌, ◌*◌, ◌%◌, ◌^◌, ◌≤◌, ◌<◌, ◌≡◌, ◌≢◌, ◌⊎◌, inl, inr, refl, true, false, Option, none, some,
  List, [], ◌∷◌, get_elem?, max, length, CString, Option-cases, arith,
}
use monga.Ast.{TypeId, TypeDef, alias_desc, primitive_desc, PrimitiveCode, char, void, Field}
use monga.Sem.Types.{Store, ◌>>=◌, Resolved, get_underlying_type, is_ref_type}
use monga.Sem.Types.Layout.{
  pointer_size, get_primitive_size, get_type_size, field_align, align_from, get_record_desc_align,
  pad_to, add_size, size_from, get_record_desc_size,
}

-- The sizes that a value can have.
abbrev pub IsSize : ℕ → Type 0
IsSize n = (n ≡ 1) ⊎ (n ≡ 2) ⊎ (n ≡ 4) ⊎ (n ≡ 8)

-- Padding a total within the range of sizes.
pad_to_bounds :
    (a t k : ℕ)
    → IsSize a
    → t ≤ 8 * k
    → k < 2 ^ 28
    → (t ≤ pad_to a t) × (pad_to a t ≤ 8 * k) × (pad_to a t % a ≡ 0)
unfolding pad_to
pad_to_bounds a t k (inl e) le h = rw e (ground arith)
pad_to_bounds a t k (inr (inl e)) le h = rw e (ground arith)
pad_to_bounds a t k (inr (inr (inl e))) le h = rw e (ground arith)
pad_to_bounds a t k (inr (inr (inr e))) le h = rw e (ground arith)

abbrev pub sum : List ℕ → ℕ
sum [] = 0
sum (n ∷ ns) = n + sum ns

-- A field of size `n` whose type is kept by reference, or is itself a primitive type.
pub data Laid (s : Store) (f : Field) (n : ℕ) : Type 0 where
  reference :
      {t : TypeId} {r : Resolved}
      → f.field_type ≡ some t
      → get_underlying_type s t ≡ some r
      → is_ref_type r ≡ true
      → n ≡ pointer_size
      → (d : TypeDef) → get_elem? s t ≡ some d
      → Laid s f n
  primitive :
      {t : TypeId} {r : Resolved} (code : PrimitiveCode)
      → f.field_type ≡ some t
      → get_underlying_type s t ≡ some r
      → is_ref_type r ≡ false
      → r.desc ≡ primitive_desc code
      → (d : TypeDef) → get_elem? s t ≡ some d
      → d.desc ≡ primitive_desc code
      → n ≡ get_primitive_size code
      → n ≢ 0
      → Laid s f n

abbrev pub AllLaid : Store → List Field → List ℕ → Type 0
AllLaid s [] [] = Unit
AllLaid s [] (n ∷ ns) = ⊥
AllLaid s (f ∷ fs) [] = ⊥
AllLaid s (f ∷ fs) (n ∷ ns) = Laid s f n × AllLaid s fs ns

primitive-IsSize : (c : PrimitiveCode) → get_primitive_size c ≢ 0 → IsSize (get_primitive_size c)
primitive-IsSize void h = absurd (h refl)
primitive-IsSize char h = omega arith
primitive-IsSize _ h = omega arith

Laid-IsSize : {s : Store} {f : Field} {n : ℕ} → Laid s f n → IsSize n
Laid-IsSize (reference p q e m d g) = omega arith
Laid-IsSize (primitive c p q e k d g l m z) = rw m (primitive-IsSize c (rw m at z))

Laid-align : {s : Store} {f : Field} {n : ℕ} → Laid s f n → field_align s f ≡ some n
unfolding field_align
Laid-align (reference p q e m d g) = rw (p, q, g, e, m, field_align)
Laid-align (primitive c p q e k d g l m z) = rw (p, q, g, e, l, m, field_align)

Laid-size :
    {s : Store} {f : Field} {n : ℕ}
    → Laid s f n
    → (t : TypeId) × (f.field_type ≡ some t) × (get_type_size s t ≡ some n)
unfolding get_type_size
Laid-size (reference {t} p q e m d g) = (t, p, rw (q, e, m, get_type_size))
Laid-size (primitive {t} c p q e k d g l m z) = (t, p, rw (q, e, k, m, get_type_size))

max-IsSize : (a b : ℕ) → IsSize a → IsSize b → IsSize (max a b)
max-IsSize a b h k = omega arith

AllLaid-align :
    (s : Store) (fs : List Field) (ns : List ℕ) (ret : ℕ)
    → AllLaid s fs ns
    → IsSize ret
    → (a : ℕ) × (align_from s ret fs ≡ some a) × IsSize a
unfolding align_from
AllLaid-align s [] [] ret l z = (ret, refl, z)
AllLaid-align s [] (n ∷ ns) ret l z = absurd l
AllLaid-align s (f ∷ fs) [] ret l z = absurd l
AllLaid-align s (f ∷ fs) (n ∷ ns) ret l z =
    let (a, run, size) =
      AllLaid-align s fs ns (max n ret) l.1 (max-IsSize n ret (Laid-IsSize l.0) z) in
    (a, rw (Laid-align l.0, align_from) run, size)

add_size-IsSize :
    (t n k : ℕ)
    → IsSize n
    → t ≤ 8 * k
    → k < 2 ^ 28
    → (t' : ℕ) × (add_size t n ≡ some t') × (t + n ≤ t') × (t' ≤ 8 * (k + 1))
unfolding add_size
add_size-IsSize t n k z le h =
    let (up, top, whole) = pad_to_bounds n t k z le h in
    (pad_to n t + n, ground arith, omega arith, omega arith)

AllLaid-size :
    (s : Store) (fs : List Field) (ns : List ℕ) (total k : ℕ)
    → AllLaid s fs ns
    → total ≤ 8 * k
    → k + length fs < 2 ^ 28
    → (t : ℕ) × (size_from s total fs ≡ some t) × (total + sum ns ≤ t) × (t ≤ 8 * (k + length fs))
unfolding size_from
AllLaid-size s [] [] total k l le h = (total, refl, omega arith, omega arith)
AllLaid-size s [] (n ∷ ns) total k l le h = absurd l
AllLaid-size s (f ∷ fs) [] total k l le h = absurd l
AllLaid-size s (f ∷ fs) (n ∷ ns) total k l le h =
    let (t, p, q) = Laid-size l.0 in
    let (total', step, lo, hi) = add_size-IsSize total n k (Laid-IsSize l.0) le (omega arith) in
    let (out, run, lo', hi') = AllLaid-size s fs ns total' (k + 1) l.1 hi (omega arith) in
    (out, rw (p, q, step, size_from) run, omega arith, omega arith)

start_fits : 0 ≤ 8 * 0
start_fits = omega arith

-- The size of a record of fewer than 2 ^ 28 - 1 fields, each a reference or of a directly named
-- primitive type other than void, is computed. It holds all the fields, is a multiple of the
-- alignment, and takes at most eight bytes a field.
pub get_record_desc_size-AllLaid :
    (s : Store) (fs : List Field) (ns : List ℕ)
    → AllLaid s fs ns
    → length fs + 1 < 2 ^ 28
    → (size : ℕ) × (align : ℕ) × (get_record_desc_size s fs ≡ some size)
      × (get_record_desc_align s fs ≡ some align)
      × (sum ns ≤ size)
      × (size ≤ 8 * length fs)
      × (size % align ≡ 0)
unfolding get_record_desc_size get_record_desc_align
get_record_desc_size-AllLaid s fs ns l h =
    let (a, align, z) = AllLaid-align s fs ns 1 l (inl refl) in
    let (t, run, lo, hi) = AllLaid-size s fs ns 0 0 l start_fits (omega arith) in
    let (up, top, whole) = pad_to_bounds a t (length fs) z (omega arith) (omega arith) in
    (pad_to a t, a, rw (align, run), align, omega arith, omega arith, whole)

-- A field of a primitive type that has no size.
abbrev pub IsVoidField : Store → Field → Type 0
IsVoidField s f = (t : TypeId) × (f.field_type ≡ some t) × (get_type_size s t ≡ some 0)

-- A field whose type is an alias of a primitive type.
abbrev pub IsAliasField : Store → Field → Type 0
IsAliasField s f =
    (t : TypeId) × (r : Resolved) × (d : TypeDef) × (name : CString) × (u : Option TypeId)
    × (f.field_type ≡ some t)
    × (get_underlying_type s t ≡ some r)
    × (is_ref_type r ≡ false)
    × (get_elem? s t ≡ some d)
    × (d.desc ≡ alias_desc name u)

abbrev pub SomeField : (Field → Type 0) → List Field → Type 0
SomeField P [] = ⊥
SomeField P (f ∷ fs) = P f ⊎ SomeField P fs

field_align-alias : (s : Store) (f : Field) → IsAliasField s f → field_align s f ≡ none
unfolding field_align
field_align-alias s f (t, r, d, name, u, p, q, e, g, l) = rw (p, q, g, e, l, field_align)

bind-none : (m : Option ℕ) (k : ℕ → Option ℕ) → ((a : ℕ) → k a ≡ none) → (m >>= k) ≡ none
bind-none none k h = refl
bind-none (some a) k h = h a

align_from-alias :
    (s : Store) (fs : List Field) (ret : ℕ)
    → SomeField (IsAliasField s) fs
    → align_from s ret fs ≡ none
unfolding align_from
align_from-alias s [] ret b = absurd b
align_from-alias s (f ∷ fs) ret (inl b) = rw (field_align-alias s f b, align_from)
align_from-alias s (f ∷ fs) ret (inr b) = elim (Option-cases (field_align s f)) [
  | inl e ↦ rw (e, align_from)
  | inr (a, e) ↦ rw (e, align_from) (align_from-alias s fs (max a ret) b)
]

add_size-zero : (total : ℕ) → add_size total 0 ≡ none
unfolding add_size
add_size-zero total = refl

size_from-void :
    (s : Store) (fs : List Field) (total : ℕ)
    → SomeField (IsVoidField s) fs
    → size_from s total fs ≡ none
unfolding size_from
size_from-void s [] total b = absurd b
size_from-void s (f ∷ fs) total (inl (t, p, q)) = rw (p, q, add_size-zero total, size_from)
size_from-void s (f ∷ fs) total (inr b) = bind-none f.field_type _ (λ t.
    bind-none (get_type_size s t) _
      (λ size. bind-none (add_size total size) _ (λ total'. size_from-void s fs total' b)))

-- In a build with MON_DEBUG the size of a record with a field of type void, or of an alias of a
-- primitive type, is not computed: a division by zero is reached, or the assertion fails that the
-- description of the field's own type is primitive.
pub get_record_desc_size-undefined :
    (s : Store) (fs : List Field)
    → SomeField (IsVoidField s) fs ⊎ SomeField (IsAliasField s) fs
    → get_record_desc_size s fs ≡ none
unfolding get_record_desc_size get_record_desc_align
get_record_desc_size-undefined s fs (inl v) =
    bind-none (align_from s 1 fs) _ (λ align. rw (size_from-void s fs 0 v))
get_record_desc_size-undefined s fs (inr a) = rw (align_from-alias s fs 1 a)
