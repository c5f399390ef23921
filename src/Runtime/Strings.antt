-- ===== src/Runtime/Strings.antt =====
-- Strings of compiled programs: src/monrt/c/monstr.c. A pointer is an option, NULL being `none`.
pub mod Laws
pub mod Search
pub mod Found
pub mod Slices
pub mod Concat
use monga.Prelude.{
  ℕ, zero, suc, ◌+◌, ◌-◌, ◌*◌, ◌%◌, ◌^◌, Bool, true, false, ◌||◌, Option, none, some, List, [], ◌∷◌,
  ltb, leb, ◌==◌, if◌then◌else◌, length, take, drop,
}
use monga.Runtime.Memory.{
  RtError, Outcome, returned, fatal, undefined, ◌>>=◌, Memory, gc_alloc, raw_alloc, load, store,
  copy_bytes,
}

-- An `int`.
pub data ℤ : Type 0 where
  pos negsuc : ℕ → ℤ

-- The hash is kept as the 32 bits of the field.
pub record Str : Type 0 where
  pub length : ℕ
  pub hash : ℕ
  pub buf : List ℕ

-- `sizeof(Mon_Str)`: two fields of 32 bits.
abbrev pub str_header : ℕ
str_header = 8

-- A `char` as the 32 bits of an `int`.
unfoldable pub sign_extended : ℕ → ℕ
sign_extended b = if ltb b 128 then b else b + (2 ^ 32 - 256)

-- The loop adds the byte of the turn before, and in its first turn what `c` holds.
unfoldable pub hash_from : ℕ → ℕ → List ℕ → ℕ
hash_from h c [] = h
hash_from h c (b ∷ bs) = hash_from ((h * 32 + h + c) % 2 ^ 32) (sign_extended b) bs

unfoldable pub hash : Memory → List ℕ → ℕ
hash m key = hash_from 5381 m.local_int key

-- The hash is taken of the block before the bytes are copied to it.
unfoldable pub new_string : Memory → Option (List ℕ) → ℕ → Outcome Str
new_string m none len = fatal RtError.badarg
new_string m (some cstr) len = do
  block ← gc_alloc m (len + 1 + str_header)
  let buf = drop str_header block
  filled ← copy_bytes len buf 0 cstr
  ended ← store filled len 0
  returned (record { length = len; hash = hash m (take len buf); buf = ended })

-- A negative `int` as a `size_t`.
unfoldable pub as_size : ℕ → ℕ
as_size n = if ltb n (2 ^ 31) then n else n + (2 ^ 64 - 2 ^ 32)

-- The bytes of a C string are those before its terminating zero.
unfoldable pub str_from_sz : Memory → Option (List ℕ) → Outcome Str
str_from_sz m none = fatal RtError.nullarg
str_from_sz m (some sz) =
    let len = length sz % 2 ^ 32 in
    if leb (2 ^ 31) len then undefined else (do
      block ← gc_alloc m (as_size (len + 1 + str_header))
      filled ← copy_bytes len (drop str_header block) 0 sz
      ended ← store filled len 0
      returned (record { length = len; hash = hash m (take len ended); buf = ended }))

unfoldable pub char_array_from_str : Memory → Option Str → Outcome (Option (List ℕ))
char_array_from_str m none = returned none
char_array_from_str m (some s) = do
  buffer ← gc_alloc m (s.length + 1)
  filled ← copy_bytes s.length buffer 0 s.buf
  ended ← store filled s.length 0
  returned (some ended)

-- An `int` sum that is too large is undefined.
unfoldable pub substr_at : Memory → Str → ℕ → ℤ → Outcome Str
substr_at m s start (negsuc n) = fatal RtError.badarg
substr_at m s start (pos len) =
    if leb (2 ^ 31) (len + start)
    then undefined
    else if leb s.length (len + start)
    then fatal RtError.badarg
    else new_string m (some (drop start s.buf)) len

unfoldable pub substr : Memory → Option Str → ℤ → ℤ → Outcome Str
substr m none start len = fatal RtError.nullarg
substr m (some s) (negsuc n) len = fatal RtError.badarg
substr m (some s) (pos start) len =
    if leb s.length start then fatal RtError.badarg else substr_at m s start len

-- The local buffer serves a short result, a block of as many bytes as there are to copy a long one.
unfoldable pub concat_buffer : Memory → ℕ → Outcome (List ℕ)
concat_buffer m combined =
    if ltb combined 128 then returned m.local_buffer else raw_alloc m combined

unfoldable pub strconcat : Memory → Option Str → Option Str → Outcome Str
strconcat m none strb = fatal RtError.nullarg
strconcat m (some a) none = fatal RtError.nullarg
strconcat m (some a) (some b) =
    let combined = a.length + b.length in
    if leb (2 ^ 31) combined then undefined else (do
      buf ← concat_buffer m combined
      first ← copy_bytes a.length buf 0 a.buf
      second ← copy_bytes b.length first a.length b.buf
      ended ← store second combined 0
      new_string m (some ended) combined)

-- The turns left of the loop, its counter, `eqBegin` and `eqCount`.
unfoldable pub find_from : ℕ → Str → Str → ℕ → ℕ → ℕ → Outcome ℤ
find_from zero s content i eq_begin eq_count = returned (negsuc 0)
find_from (suc n) s content i eq_begin eq_count =
    if eq_count == content.length then returned (pos eq_begin) else (do
      c ← load s.buf i
      d ← load content.buf eq_count
      let same = c == d
      find_from n s content (suc i) (if same then eq_begin else suc i)
          (if same then suc eq_count else eq_count))

unfoldable pub strfind : Option Str → Option Str → Outcome ℤ
strfind none content = fatal RtError.nullarg
strfind (some s) none = fatal RtError.nullarg
strfind (some s) (some content) = find_from s.length s content 0 0 0
