-- ===== src/Runtime/Strings/Laws.antt =====
-- What the operations of src/monrt/c/monstr.c make of the text of their strings.
use monga.Prelude.{
  ℕ, suc, ◌+◌, ◌-◌, ◌%◌, ◌^◌, ◌≤◌, ◌<◌, ◌≡◌, refl, sym, ap, ◌∙◌, none, some, List, [], ◌∷◌, ◌++◌,
  ltb, leb, if◌then◌else◌, length, set, take, drop, length-append, length-set, length-take,
  take-length, take-suc-set, take-append_length, length-drop, arith,
}
use monga.Runtime.Memory.{
  Outcome, returned, fatal, undefined, ◌>>=◌, Memory, Provides, gc_alloc, store, copy_bytes,
  copy_bytes-Copied, store-within,
}
use monga.Runtime.Strings.{
  Str, str_header, hash, new_string, as_size, str_from_sz, char_array_from_str,
}

-- A string whose buffer holds the text and the terminating zero, and nothing else.
pub record Holds (s : Str) (text : List ℕ) : Type 0 where
  pub counted : s.length ≡ length text
  pub stored : s.buf ≡ text ++ 0 ∷ []

-- The call returns a string of the text.
abbrev pub Makes : Outcome Str → List ℕ → Type 0
Makes o text = (s : Str) × (o ≡ returned s) × Holds s text

gc_alloc-gives :
    (m : Memory)
    → Provides m
    → (n : ℕ) → (block : List ℕ) × (gc_alloc m n ≡ returned block) × (length block ≡ n)
unfolding gc_alloc
gc_alloc-gives m p n =
    let (block, e, l) = p.gc_block n in
    (block, ap (λ o. elim o [ none ↦ undefined | some b ↦ returned b ]) e, l)

-- Copying a text to the start of a buffer with room for one byte more, and ending it there.
filled_buffer :
    (n : ℕ) (dst src : List ℕ)
    → n ≤ length src
    → suc n ≤ length dst
    → (out : List ℕ) × ((copy_bytes n dst 0 src >>= λ f. store f n 0) ≡ returned out)
      × (length out ≡ length dst)
      × (take (suc n) out ≡ take n src ++ 0 ∷ [])
filled_buffer n dst src h k =
    let (f, e, l, t) = copy_bytes-Copied n dst 0 src h (omega arith) in
    let inside : n < length f = omega (arith, l) in
    let same : 0 + n ≡ n = omega arith in
    (
      set f n 0,
      ap (λ o. o >>= λ f. store f n 0) e ∙ store-within f n 0 inside,
      length-set f n 0 ∙ l,
      take-suc-set n f 0 inside ∙ ap (λ l. l ++ 0 ∷ []) (ap (λ i. take i f) (sym same) ∙ t),
    )

-- The whole buffer, when there is no more room than that.
filled_exactly :
    (n : ℕ) (dst src : List ℕ)
    → n ≤ length src
    → length dst ≡ suc n
    → (out : List ℕ) × ((copy_bytes n dst 0 src >>= λ f. store f n 0) ≡ returned out)
      × (out ≡ take n src ++ 0 ∷ [])
filled_exactly n dst src h k =
    let (out, e, l, t) = filled_buffer n dst src h (omega arith) in
    (out, e, sym (take-length out) ∙ ap (λ i. take i out) (l ∙ k) ∙ t)

pub then_assoc :
    {A : Type 0} (o : Outcome (List ℕ)) (f : List ℕ → Outcome (List ℕ)) (g : List ℕ → Outcome A)
    → (o >>= λ x. f x >>= g) ≡ ((o >>= f) >>= g)
then_assoc (returned a) f g = refl
then_assoc (fatal e) f g = refl
then_assoc undefined f g = refl

length-prefix : (n : ℕ) (src : List ℕ) → n ≤ length src → length (take n src) ≡ n
length-prefix n src h = omega (arith, length-take n src)

pub new_string-Makes :
    (m : Memory)
    → Provides m
    → (src : List ℕ) (n : ℕ) → n ≤ length src
    → Makes (new_string m (some src) n) (take n src)
unfolding new_string
new_string-Makes m p src n h =
    let (block, a, l) = gc_alloc-gives m p (n + 1 + str_header) in
    let sized : length (drop str_header block) ≡ suc n =
      omega (arith, l, length-drop str_header block) in
    let (out, e, t) = filled_exactly n (drop str_header block) src h sized in
    let made : List ℕ → Str =
      λ o. record { length = n; hash = hash m (take n (drop str_header block)); buf = o } in
    (
      made out,
      ap
            (λ o. o >>= λ b. copy_bytes n (drop str_header b) 0 src >>= λ f. store f n 0 >>= λ o.
              returned (record { length = n; hash = hash m (take n (drop str_header b)); buf = o }))
            a
          ∙ then_assoc (copy_bytes n (drop str_header block) 0 src) (λ f. store f n 0)
              (λ o. returned (made o))
          ∙ ap (λ o. o >>= λ o. returned (made o)) e,
      record { counted = sym (length-prefix n src h); stored = t },
    )

at_short :
    (n : ℕ)
    → n + 9 < 2 ^ 31
    → (f : ℕ → Outcome Str)
    → (if leb (2 ^ 31) n
        then undefined
        else f (
            if ltb (n + 1 + str_header) (2 ^ 31)
            then n + 1 + str_header
            else n + 1 + str_header + (2 ^ 64 - 2 ^ 32)))
      ≡ f (n + 1 + str_header)
at_short n h f = ground arith

str_from_sz-Makes :
    (m : Memory)
    → Provides m
    → (text : List ℕ) → length text + 9 < 2 ^ 31
    → Makes (str_from_sz m (some text)) text
unfolding str_from_sz as_size
str_from_sz-Makes m p text h =
    let n = length text in
    let short : n % 2 ^ 32 ≡ n = omega arith in
    let (block, a, l) = gc_alloc-gives m p (n + 1 + str_header) in
    let sized : length (drop str_header block) ≡ suc n =
      omega (arith, l, length-drop str_header block) in
    let (out, e, t) = filled_exactly n (drop str_header block) text (omega arith) sized in
    let made : List ℕ → Str = λ o. record { length = n; hash = hash m (take n o); buf = o } in
    let body : ℕ → List ℕ → Outcome Str = λ k b. copy_bytes k (drop str_header b) 0 text >>= λ f.
    store f k 0 >>= λ o. returned (record { length = k; hash = hash m (take k o); buf = o }) in
    (
      made out,
      ap
            (λ k.
              if leb (2 ^ 31) k
              then undefined
              else (gc_alloc m (
                    if ltb (k + 1 + str_header) (2 ^ 31)
                    then k + 1 + str_header
                    else k + 1 + str_header + (2 ^ 64 - 2 ^ 32))
                  >>= body k))
            short
          ∙ at_short n h (λ k. gc_alloc m k >>= body n)
          ∙ ap (λ o. o >>= body n) a
          ∙ then_assoc (copy_bytes n (drop str_header block) 0 text) (λ f. store f n 0)
              (λ o. returned (made o))
          ∙ ap (λ o. o >>= λ o. returned (made o)) e,
      record { counted = refl; stored = t ∙ ap (λ l. l ++ 0 ∷ []) (take-length text) },
    )

char_array_from_str-Holds :
    (m : Memory)
    → Provides m
    → (s : Str) (text : List ℕ) → Holds s text
    → char_array_from_str m (some s) ≡ returned (some (text ++ 0 ∷ []))
unfolding char_array_from_str
char_array_from_str-Holds m p s text v =
    let n = s.length in
    let (block, a, l) = gc_alloc-gives m p (n + 1) in
    let room : n ≤ length s.buf =
      omega (arith, v.counted, ap length v.stored, length-append text (0 ∷ [])) in
    let (out, e, t) = filled_exactly n block s.buf room (omega (arith, l)) in
    let copied : take n s.buf ≡ text =
      ap (λ i. take i s.buf) v.counted
      ∙ ap (take (length text)) v.stored
      ∙ take-append_length text (0 ∷ []) in
    ap (λ o. o >>= λ b. copy_bytes n b 0 s.buf >>= λ f. store f n 0 >>= λ o. returned (some o)) a
    ∙ then_assoc (copy_bytes n block 0 s.buf) (λ f. store f n 0) (λ o. returned (some o))
    ∙ ap (λ o. o >>= λ o. returned (some o)) e
    ∙ ap (λ o. returned (some o)) (t ∙ ap (λ l. l ++ 0 ∷ []) copied)

-- With memory, a C string shorter than 2 ^ 31 - 9 bytes is made a string by StrFromSZ, and
-- CharArrayFromStr gives the same C string back, with its terminating zero.
pub char_array_from_str-str_from_sz :
    (m : Memory)
    → Provides m
    → (text : List ℕ) → length text + 9 < 2 ^ 31
    → (str_from_sz m (some text) >>= λ s. char_array_from_str m (some s))
      ≡ returned (some (text ++ 0 ∷ []))
char_array_from_str-str_from_sz m p text h =
    let (s, e, v) = str_from_sz-Makes m p text h in
    ap (λ o. o >>= λ s. char_array_from_str m (some s)) e ∙ char_array_from_str-Holds m p s text v
