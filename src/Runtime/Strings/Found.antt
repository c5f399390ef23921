-- ===== src/Runtime/Strings/Found.antt =====
-- What Strfind of src/monrt/c/monstr.c tells of the two texts by the place that it gives.
use monga.Prelude.{
  ℕ, zero, suc, ◌+◌, ◌≤◌, ◌<◌, ◌≡◌, ◌≢◌, refl, sym, ap, ◌∙◌, subst, inl, inr, Bool, true, false,
  some, List, [], ◌∷◌, ◌++◌, ◌==◌, ==_iff, if◌then◌else◌, length, get_elem?, take, take-length,
  get_elem?-append, get_elem?-lt, Bool-cases, arith,
}
use mathlib.Core.Option.{some-injective}
use monga.Runtime.Memory.{Outcome, returned}
use monga.Runtime.Strings.{ℤ, pos, negsuc, Str, find_from, strfind}
use monga.Runtime.Strings.Laws.{Holds}
use monga.Runtime.Strings.Search.{turn, find_from-turn, find_from-stop, not_same}

-- A list in another in order, bytes left out of the other.
pub data Within : List ℕ → List ℕ → Type 0 where
  start : Within [] []
  matched : {xs ys : List ℕ} (b : ℕ) → Within xs ys → Within (xs ++ b ∷ []) (ys ++ b ∷ [])
  passed : {xs ys : List ℕ} (b : ℕ) → Within xs ys → Within xs (ys ++ b ∷ [])

-- Either no place is given, or all of the part stands in order in what was read of the text.
pub data Found (text part : List ℕ) (o : Outcome ℤ) : Type 0 where
  absent : o ≡ returned (negsuc 0) → Found text part o
  found :
      (place read : ℕ)
      → o ≡ returned (pos place)
      → place ≤ read
      → read < length text
      → Within part (take read text)
      → Found text part o

take-suc-get :
    (xs : List ℕ) (i b : ℕ) → get_elem? xs i ≡ some b → take (suc i) xs ≡ take i xs ++ b ∷ []
take-suc-get [] i b e = ground arith
take-suc-get (x ∷ xs) zero b e = ap (λ y. y ∷ []) (some-injective x b e)
take-suc-get (x ∷ xs) (suc i) b e = ap (λ l. x ∷ l) (take-suc-get xs i b e)

-- A byte read equal to the next one of the part, or another.
grown :
    (text part : List ℕ) (i k c d : ℕ)
    → get_elem? text i ≡ some c
    → get_elem? part k ≡ some d
    → (same : Bool) → (c == d) ≡ same
    → Within (take k part) (take i text)
    → Within (take (if same then suc k else k) part) (take (suc i) text)
grown text part i k c d p q true e w =
    let equal = (==_iff c d).0 e in
    subst (Within (take (suc k) part)) (sym (take-suc-get text i c p)) (
      subst (λ l. Within l (take i text ++ c ∷ []))
        (sym (take-suc-get part k c (q ∙ ap some (sym equal)))) (Within.matched c w))
grown text part i k c d p q false e w =
    subst (Within (take k part)) (sym (take-suc-get text i c p)) (Within.passed c w)

stored_byte :
    (s : Str) (text : List ℕ)
    → Holds s text
    → (i : ℕ) → i < length text
    → get_elem? s.buf i ≡ get_elem? text i
stored_byte s text v i h = ap (λ l. get_elem? l i) v.stored ∙ get_elem?-append text (0 ∷ []) i h

counted_on : (same : Bool) (k n : ℕ) → k < n → (if same then suc k else k) ≤ n
counted_on true k n h = omega arith
counted_on false k n h = omega arith

place_on : (same : Bool) (place i : ℕ) → place ≤ i → (if same then place else suc i) ≤ suc i
place_on true place i h = omega arith
place_on false place i h = omega arith

module _ (s content : Str) (text part : List ℕ) (v : Holds s text) (w : Holds content part) where
  find_from-Found :
      (n i place k : ℕ)
      → n + i ≡ length text
      → place ≤ i
      → k ≤ length part
      → Within (take k part) (take i text)
      → Found text part (find_from n s content i place k)
  unfolding find_from turn
  find_from-Found zero i place k e g h sub = Found.absent refl
  find_from-Found (suc n) i place k e g h sub = elim (Bool-cases (k == content.length)) [
    | inl all ↦
        let full : k ≡ length part = (==_iff k content.length).0 all ∙ w.counted in
        Found.found place i (find_from-stop s content n i place k (full ∙ sym w.counted)) g
          (omega arith)
          (subst (λ l. Within l (take i text)) (ap (λ j. take j part) full ∙ take-length part) sub)
    | inr some_left ↦
        let ne : k ≢ content.length = λ z. not_same k content.length some_left z in
        let left : k < length part = omega (arith, ne, w.counted) in
        let (c, p) = get_elem?-lt text i (omega arith) in
        let (d, q) = get_elem?-lt part k left in
        subst (Found text part)
          (sym (
            find_from-turn s content n i place k c d ne (stored_byte s text v i (omega arith) ∙ p)
              (stored_byte content part w k left ∙ q)))
          (find_from-Found n (suc i) (if c == d then place else suc i) (if c == d then suc k else k)
            (omega arith) (place_on (c == d) place i g) (counted_on (c == d) k (length part) left)
            (grown text part i k c d p q (c == d) refl sub))
  ]

-- Strfind always returns, and where it gives a place, the bytes of the text looked for stand in
-- order in the other before its last byte, if not side by side.
pub strfind-Found :
    (s content : Str) (text part : List ℕ)
    → Holds s text
    → Holds content part
    → Found text part (strfind (some s) (some content))
unfolding strfind
strfind-Found s content text part v w =
    find_from-Found s content text part v w s.length 0 0 0 (omega (arith, v.counted)) (omega arith)
      (omega arith) Within.start
