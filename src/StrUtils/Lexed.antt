-- ===== src/StrUtils/Lexed.antt =====
-- The literals that the rule of src/libmonga/lex.l for a string token matches,
-- \"([^\\\"]|\\.)*\", are copied within the buffers, if they have no zero byte.
use monga.Prelude.{
  leb, until_zero, until_zero-cons, ◌^◌, ◌<◌, false, ℕ, ◌+◌, ◌-◌, ◌≤◌, ◌≡◌, ◌≢◌, refl, ap, ◌∙◌,
  true, some, List, [], ◌∷◌, ◌++◌, length, take, length-append, CString, arith, take-append,
  take-length,
}
use monga.StrUtils.{
  convert_control_character, quote, backslash, put, copy_unescaped, processed, terminate,
  process_text, process_string_literal,
}

-- The repeated group of the rule on bytes that are not zero, and the bytes that it stands for.
pub data Body : CString → List ℕ → Type 0 where
  end : Body [] []
  plain :
      {s : CString} {out : List ℕ} (c : ℕ)
      → c ≢ backslash
      → c ≢ quote
      → c ≢ 0
      → Body s out
      → Body (c ∷ s) (c ∷ out)
  escape :
      {s : CString} {out : List ℕ} (b c : ℕ)
      → b ≡ backslash
      → c ≢ 10
      → c ≢ 0
      → Body s out
      → Body (b ∷ c ∷ s) (convert_control_character c ∷ out)

pub copy_plain :
    (c : ℕ) (t : CString) → c ≢ backslash → copy_unescaped (c ∷ t) ≡ put c 0 (copy_unescaped t)
unfolding copy_unescaped
copy_plain c [] ne = ground arith
copy_plain c (d ∷ t) ne = ground arith

pub copy_escaped :
    (b c : ℕ) (t : CString)
    → b ≡ backslash
    → copy_unescaped (b ∷ c ∷ t) ≡ put (convert_control_character c) 1 (copy_unescaped t)
unfolding copy_unescaped
copy_escaped b c t e = ground arith

-- The loop over a body and the closing quote behind it.
abbrev pub Copies : CString → List ℕ → Type 0
Copies s out =
    (d : ℕ) × (copy_unescaped (s ++ quote ∷ [])
      ≡ some (record { written = out ++ quote ∷ []; dropped = d }))
    × (length s ≡ length out + d)

copy-Body : {s : CString} {out : List ℕ} → Body s out → Copies s out
copy-Body end = (0, copy_plain quote [] (omega arith) ∙ copy_nil, omega arith)
  where
    copy_nil : put quote 0 (copy_unescaped []) ≡ some (record { written = quote ∷ []; dropped = 0 })
    copy_nil = unfold copy_unescaped in refl
copy-Body (plain {s} c ne nq nz b) =
    let (d, run, len) = copy-Body b in
    (0 + d, copy_plain c (s ++ quote ∷ []) ne ∙ ap (put c 0) run, omega arith)
copy-Body (escape {s} b c e nn nz rest) =
    let (d, run, len) = copy-Body rest in
    (
      1 + d,
      copy_escaped b c (s ++ quote ∷ []) e ∙ ap (put (convert_control_character c) 1) run,
      omega arith,
    )

terminate_within :
    (total cut : ℕ) (w out : List ℕ)
    → cut + length out ≡ total
    → take (length out) w ≡ out
    → terminate total cut w ≡ processed out (length out)
unfolding terminate
terminate_within total cut w out e t =
    let same : total - cut ≡ length out = omega arith in
    let below : cut ≤ total = omega arith in rw same (ground arith)

-- `strlen` reaches the end of a token.
Body-until_zero :
    {s : CString} {out : List ℕ} → Body s out → until_zero (s ++ quote ∷ []) ≡ s ++ quote ∷ []
Body-until_zero end = refl
Body-until_zero (plain {s} c ne nq nz b) =
    until_zero-cons c (s ++ quote ∷ []) nz ∙ ap (λ l. c ∷ l) (Body-until_zero b)
Body-until_zero (escape {s} b c e nn nz rest) =
    until_zero-cons b (c ∷ s ++ quote ∷ []) (omega arith)
    ∙ ap (λ l. b ∷ l)
        (until_zero-cons c (s ++ quote ∷ []) nz ∙ ap (λ l. c ∷ l) (Body-until_zero rest))

fits_int : (n : ℕ) → n + 1 < 2 ^ 31 → leb (2 ^ 31 - 1) n ≡ false
fits_int n h = ground arith

process_text-Body :
    {s : CString} {out : List ℕ}
    → Body s out
    → length s + 3 < 2 ^ 31
    → process_text true (quote ∷ s ++ quote ∷ []) ≡ processed out (length out)
unfolding process_text
process_text-Body {s} {out} b small =
    let (d, run, len) = copy-Body b in
    let total = length (quote ∷ s ++ quote ∷ []) in
    let short : leb (2 ^ 31 - 1) total ≡ false =
      fits_int total (omega (arith, length-append s (quote ∷ []))) in
    rw (short, run)
      (terminate_within total (2 + d) (out ++ quote ∷ []) out
        (omega (arith, length-append s (quote ∷ [])))
        (take-append (length out) out (quote ∷ []) (omega arith) ∙ take-length out))

-- With memory, a token of the rule without zero bytes, which has, its quotes included, fewer than
-- 2 ^ 31 - 1 bytes, is processed with no access outside the buffers, and gives exactly the bytes that
-- its body stands for.
pub process-Body :
    {s : CString} {out : List ℕ}
    → Body s out
    → length s + 3 < 2 ^ 31
    → process_string_literal true (quote ∷ s ++ quote ∷ []) ≡ processed out (length out)
unfolding process_string_literal
process-Body b small =
    ap (λ t. process_text true (quote ∷ t)) (Body-until_zero b) ∙ process_text-Body b small
