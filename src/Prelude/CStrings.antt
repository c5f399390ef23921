-- ===== src/Prelude/CStrings.antt =====
-- C strings as lists of byte codes, without the terminating zero, and `strcmp` on them.
use Prim.Native.Char.{code}
use Prim.Native.Nat.{ℕ, compare, Ordering}
use Prim.Native.String.{String}
use mathlib.Core.Path.{◌≡◌, refl}
use mathlib.Core.Logic.{◌↔◌, ◌≢◌}
use mathlib.Core.Bool.{Bool, true, false, ◌&&◌}
use mathlib.Core.List.{List, [], ◌∷◌}
use native.Mathlib.Omega.{arith}

abbrev pub CString : Type 0
CString = List ℕ

-- The code points of a literal: its bytes, if it is ASCII.
abbrev pub codes : String → CString
codes String.[] = []
codes (String.◌∷◌ c s) = code c ∷ codes s

-- What the functions of C read of a buffer as a string: the bytes before its first zero.
abbrev pub until_zero : List ℕ → CString
until_zero [] = []
until_zero (c ∷ s) = elim (compare c 0) [ Ordering.eq ↦ [] | _ ↦ c ∷ until_zero s ]

pub until_zero-cons : (c : ℕ) (s : List ℕ) → c ≢ 0 → until_zero (c ∷ s) ≡ c ∷ until_zero s
until_zero-cons c s ne = ground arith

same_byte : ℕ → ℕ → Bool
same_byte a b = elim (compare a b) [ Ordering.eq ↦ true | _ ↦ false ]

-- `strcmp(a, b) == 0`
unfoldable pub strcmp_eq : CString → CString → Bool
unfolding same_byte
strcmp_eq [] [] = true
strcmp_eq [] (b ∷ bs) = false
strcmp_eq (a ∷ as') [] = false
strcmp_eq (a ∷ as') (b ∷ bs) = same_byte a b && strcmp_eq as' bs

strcmp_eq_sound : (a b : CString) → strcmp_eq a b ≡ true → a ≡ b
unfolding strcmp_eq
strcmp_eq_sound [] [] h = refl
strcmp_eq_sound [] (b ∷ bs) h = ground arith
strcmp_eq_sound (a ∷ as') [] h = ground arith
strcmp_eq_sound (a ∷ as') (b ∷ bs) h = ground (arith, strcmp_eq_sound as' bs)

pub strcmp_eq_refl : (a : CString) → strcmp_eq a a ≡ true
unfolding strcmp_eq
strcmp_eq_refl [] = refl
strcmp_eq_refl (a ∷ as') = ground (arith, strcmp_eq_refl as')

strcmp_eq_complete : (a b : CString) → a ≡ b → strcmp_eq a b ≡ true
strcmp_eq_complete a b e = rw e (strcmp_eq_refl b)

-- Two names compare equal exactly when they are the same bytes.
pub strcmp_eq_iff : (a b : CString) → (strcmp_eq a b ≡ true) ↔ (a ≡ b)
strcmp_eq_iff a b = (strcmp_eq_sound a b, strcmp_eq_complete a b)

pub strcmp_ne : (a b : CString) → a ≢ b → strcmp_eq a b ≡ false
strcmp_ne a b ne = ground (arith, strcmp_eq_iff a b)
