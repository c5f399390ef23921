-- ===== src/Tests/Literals.antt =====
-- String literals of src/libmonga/strutils.c.
use monga.Prelude.{◌≡◌, refl, true, [], ◌∷◌, ◌++◌, CString, arith}
use monga.StrUtils.{
  quote, backslash, processed, fault, process_string_literal, convert_control_character,
}
use monga.StrUtils.Lexed.{Body, plain, escape, end, process-Body}
use monga.StrUtils.RoundTrip.{print_body, process-print}

abbrev tab_body : CString
tab_body = b'h' ∷ backslash ∷ b't' ∷ []

tab_body-Body : Body tab_body (b'h' ∷ convert_control_character b't' ∷ [])
tab_body-Body =
    plain b'h' (omega arith) (omega arith) (omega arith)
      (escape backslash b't' refl (omega arith) (omega arith) end)

process-Body_example :
    process_string_literal true (quote ∷ tab_body ++ quote ∷ [])
    ≡ processed (b'h' ∷ convert_control_character b't' ∷ []) 2
process-Body_example = process-Body tab_body-Body (omega arith)

process-print_example :
    process_string_literal true (quote ∷ print_body (10 ∷ 34 ∷ []) ++ quote ∷ [])
    ≡ processed (10 ∷ 34 ∷ []) 2
process-print_example = process-print (10 ∷ 34 ∷ []) (omega arith)

print_body_run : print_body (10 ∷ 34 ∷ []) ≡ backslash ∷ b'n' ∷ backslash ∷ quote ∷ []
unfolding print_body
print_body_run = refl

lone_quote-fault : process_string_literal true (quote ∷ []) ≡ fault
unfolding process_string_literal
lone_quote-fault = refl

-- At a zero byte within a token `strlen` stops, and two are taken off for the quotes all the same.
zero_within :
    process_string_literal true (quote ∷ b'a' ∷ b'b' ∷ 0 ∷ b'c' ∷ quote ∷ [])
    ≡ processed (b'a' ∷ []) 1
unfolding process_string_literal
zero_within = refl
