-- ===== src/StrUtils/RoundTrip.antt =====
-- Every byte string can be written as a literal: a printer that is read back by
-- `ProcessStringLiteral` of src/libmonga/strutils.c.
use monga.Prelude.{
  false, ◌+◌, ◌*◌, ◌^◌, ◌≤◌, ◌<◌, ℕ, ◌≡◌, ◌≢◌, refl, inl, inr, Bool, true, ◌||◌, List, [], ◌∷◌,
  ◌++◌, ◌==◌, if◌then◌else◌, length, CString, arith, Bool-cases, subst,
}
use monga.StrUtils.{convert_control_character, quote, backslash, processed, process_string_literal}
use monga.StrUtils.Lexed.{Body, end, plain, escape, process-Body}

-- The letter behind the backslash that a byte is written with, if it is not written as it is.
letter_for : ℕ → ℕ
letter_for c =
    if c == 0
    then b'0'
    else if c == 7
    then b'a'
    else if c == 8
    then b'b'
    else if c == 9
    then b't'
    else if c == 10
    then b'n'
    else if c == 11
    then b'v'
    else if c == 12
    then b'f'
    else if c == 13
    then b'r'
    else c

needs_escape : ℕ → Bool
unfolding letter_for
needs_escape c = if letter_for c == c then c == backslash || c == quote else true

unfoldable pub print_body : List ℕ → CString
unfolding needs_escape letter_for
print_body [] = []
print_body (c ∷ s) =
    let rest = print_body s in if needs_escape c then backslash ∷ letter_for c ∷ rest else c ∷ rest

convert-letter_for : (c : ℕ) → needs_escape c ≡ true → convert_control_character (letter_for c) ≡ c
unfolding needs_escape convert_control_character
convert-letter_for c h = ground arith

letter_for_ne : (c : ℕ) → letter_for c ≢ 10
unfolding letter_for
letter_for_ne c = ground arith

letter_for_ne_zero : (c : ℕ) → letter_for c ≢ 0
unfolding letter_for
letter_for_ne_zero c = ground arith

needs_escape_zero : (c : ℕ) → needs_escape c ≡ false → c ≢ 0
unfolding needs_escape letter_for
needs_escape_zero c h = ground arith

print_body-Body : (s : List ℕ) → Body (print_body s) s
unfolding print_body
print_body-Body [] = end
print_body-Body (c ∷ s) = elim (Bool-cases (needs_escape c)) [
  | inr no_need ↦
      rw no_need
        (plain c (ground arith) (ground arith) (needs_escape_zero c no_need) (print_body-Body s))
  | inl need ↦ rw need (
      subst (λ d. Body (backslash ∷ letter_for c ∷ print_body s) (d ∷ s))
        (convert-letter_for c need)
        (escape backslash (letter_for c) refl (letter_for_ne c) (letter_for_ne_zero c)
          (print_body-Body s)))
]

-- A byte is written in two bytes at most.
length-print_body : (s : List ℕ) → length (print_body s) ≤ 2 * length s
unfolding print_body
length-print_body [] = omega arith
length-print_body (c ∷ s) = elim (Bool-cases (needs_escape c)) [
  | inl need ↦ rw need (omega (arith, length-print_body s))
  | inr no_need ↦ rw no_need (omega (arith, length-print_body s))
]

-- With memory, printing any bytes, zeros too, as a literal and processing it gives the bytes back,
-- and their number, if twice their number and the quotes are fewer than 2 ^ 31 - 1.
pub process-print :
    (s : List ℕ)
    → 2 * length s + 3 < 2 ^ 31
    → process_string_literal true (quote ∷ print_body s ++ quote ∷ []) ≡ processed s (length s)
process-print s small = process-Body (print_body-Body s) (omega (arith, length-print_body s))
