-- ===== src/StrUtils.antt =====
-- src/libmonga/strutils.c: the text of a string literal, without its quotes and escapes.
pub mod RoundTrip
pub mod Lexed
use monga.Prelude.{
  until_zero, ◌^◌, ℕ, ◌+◌, ◌-◌, ◌≡◌, Bool, true, false, ◌||◌, Option, none, some, List, [], ◌∷◌,
  ◌++◌, leb, ◌==◌, if◌then◌else◌, length, take, CString,
}

-- `DuplicateString`: the first `len` bytes of a text of at least that many, or NULL without memory.
unfoldable pub duplicate_string : Bool → CString → ℕ → Option CString
duplicate_string has_memory s len = if has_memory then some (take len s) else none

unfoldable pub convert_control_character : ℕ → ℕ
convert_control_character c =
    if c == b'0'
    then 0
    else if c == b'A' || c == b'a'
    then 7
    else if c == b'B' || c == b'b'
    then 8
    else if c == b'T' || c == b't'
    then 9
    else if c == b'N' || c == b'n'
    then 10
    else if c == b'V' || c == b'v'
    then 11
    else if c == b'F' || c == b'f'
    then 12
    else if c == b'R' || c == b'r'
    then 13
    else c

abbrev pub quote : ℕ
quote = 34

abbrev pub backslash : ℕ
backslash = 92

-- What the copying loop wrote, and how often it took one off `len`.
pub record Copied : Type 0 where
  pub written : List ℕ
  pub dropped : ℕ

abbrev pub put : ℕ → ℕ → Option Copied → Option Copied
put c k none = none
put c k (some r) = some (record { written = c ∷ r.written; dropped = k + r.dropped })

-- The loop, from `s[i]` on. `none`: a backslash stood last, so `++i` twice went past the
-- terminating zero.
unfoldable pub copy_unescaped : CString → Option Copied
copy_unescaped [] = some (record { written = []; dropped = 0 })
copy_unescaped (c ∷ []) =
    if c == backslash then none else some (record { written = c ∷ []; dropped = 0 })
copy_unescaped (c ∷ d ∷ s) =
    let escaped = put (convert_control_character d) 1 (copy_unescaped s) in
    let plain = put c 0 (copy_unescaped (d ∷ s)) in if c == backslash then escaped else plain

pub data Literal : Type 0 where
  -- `*outBuf` is NULL and `*outLen` is -1
  no_memory : Literal
  -- `strlen(s)` or `len + 1` is no `int`: what follows is left open
  too_long : Literal
  -- a read or a write outside a buffer
  fault : Literal
  -- the bytes before the terminating zero, `*outLen` of them
  processed : List ℕ → ℕ → Literal

unfoldable pub is_quoted : CString → Bool
is_quoted [] = false
is_quoted (c ∷ s) = c == quote

unfoldable pub skip_quote : CString → CString
skip_quote [] = []
skip_quote (c ∷ s) = if c == quote then s else c ∷ s

-- The last two writes: the zero at `len`, which is below zero if more was taken off than there was.
unfoldable pub terminate : ℕ → ℕ → List ℕ → Literal
terminate total cut written =
    if leb cut total then processed (take (total - cut) written) (total - cut) else fault

-- The function on the text of a C string.
unfoldable pub process_text : Bool → CString → Literal
unfolding is_quoted skip_quote terminate copy_unescaped
process_text has_memory text =
    if leb (2 ^ 31 - 1) (length text)
    then too_long
    else if has_memory
    then elim (copy_unescaped (skip_quote text)) [
      | none ↦ fault
      | some r ↦ terminate (length text) ((if is_quoted text then 2 else 0) + r.dropped) r.written
    ]
    else no_memory

-- The bytes that `strlen` counts, and that the loop reads, end at the first zero byte.
unfoldable pub process_string_literal : Bool → List ℕ → Literal
unfolding process_text
process_string_literal has_memory s = process_text has_memory (until_zero s)
