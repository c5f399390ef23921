-- ===== src/Runtime/Strings/Concat.antt =====
-- Strings put together: Strconcat of src/monrt/c/monstr.c.
use monga.Prelude.{
  ℕ, ◌+◌, ◌^◌, ◌≤◌, ◌<◌, ◌≡◌, sym, ap, ◌∙◌, subst, ◌⊎◌, inl, inr, Option, none, some, List, [], ◌∷◌,
  ◌++◌, ltb, leb, if◌then◌else◌, length, set, take, length-append, length-set, take-set,
  take-append_length, Option-cases, arith,
}
use monga.Runtime.Memory.{
  RtError, Outcome, returned, fatal, undefined, ◌>>=◌, Memory, Provides, raw_alloc, store,
  copy_bytes, copy_bytes-Copied, store-within, store-outside,
}
use monga.Runtime.Strings.{Str, new_string, concat_buffer, strconcat}
use monga.Runtime.Strings.Laws.{Holds, Makes, new_string-Makes, then_assoc}

in_place : (n : ℕ) → n < 128 → (x y : Outcome (List ℕ)) → (if ltb n 128 then x else y) ≡ x
in_place n h x y = ground arith

on_heap : (n : ℕ) → 128 ≤ n → (x y : Outcome (List ℕ)) → (if ltb n 128 then x else y) ≡ y
on_heap n h x y = ground arith

-- What RawAlloc makes of the answer of `malloc`.
abbrev allocated : Option (List ℕ) → Outcome (List ℕ)
allocated o = elim o [ none ↦ fatal RtError.nomem | some block ↦ returned block ]

module _ (a b : Str) (ta tb : List ℕ) (va : Holds a ta) (vb : Holds b tb) where
  stored_text : (s : Str) (text : List ℕ) → Holds s text → take s.length s.buf ≡ text
  stored_text s text v =
      ap (λ i. take i s.buf) v.counted
      ∙ ap (take (length text)) v.stored
      ∙ take-append_length text (0 ∷ [])

  room : (s : Str) (text : List ℕ) → Holds s text → s.length ≤ length s.buf
  room s text v = omega (arith, v.counted, ap length v.stored, length-append text (0 ∷ []))

  -- Both copies, to a buffer with room for them.
  joined :
      (buf : List ℕ)
      → a.length + b.length ≤ length buf
      → (out : List ℕ) × ((copy_bytes a.length buf 0 a.buf >>= λ first.
            copy_bytes b.length first a.length b.buf)
          ≡ returned out)
        × (length out ≡ length buf)
        × (take (a.length + b.length) out ≡ ta ++ tb)
  joined buf h =
      let (first, e, l, t) = copy_bytes-Copied a.length buf 0 a.buf (room a ta va) (omega arith) in
      let (out, e', l', t') =
        copy_bytes-Copied b.length first a.length b.buf (room b tb vb) (omega (arith, l)) in
      let same : 0 + a.length ≡ a.length = omega arith in
      (
        out,
        ap (λ o. o >>= λ f. copy_bytes b.length f a.length b.buf) e ∙ e',
        l' ∙ l,
        t'
            ∙ ap (λ l. l ++ take b.length b.buf)
                (ap (λ i. take i first) (sym same) ∙ t ∙ stored_text a ta va)
            ∙ ap (λ l. ta ++ l) (stored_text b tb vb),
      )

  -- What follows the choice of the buffer.
  abbrev rest : Memory → List ℕ → Outcome Str
  rest m buf = copy_bytes a.length buf 0 a.buf >>= λ first.
      copy_bytes b.length first a.length b.buf >>= λ second.
      store second (a.length + b.length) 0 >>= λ ended.
      new_string m (some ended) (a.length + b.length)

  rest-joined :
      (m : Memory) (buf : List ℕ)
      → a.length + b.length ≤ length buf
      → (out : List ℕ) × (rest m buf ≡ (
          store out (a.length + b.length) 0 >>= λ ended.
          new_string m (some ended) (a.length + b.length)))
        × (length out ≡ length buf)
        × (take (a.length + b.length) out ≡ ta ++ tb)
  rest-joined m buf h =
      let (out, e, l, t) = joined buf h in
      let n = a.length + b.length in
      let finish : List ℕ → Outcome Str =
        λ out. store out n 0 >>= λ ended. new_string m (some ended) n in
      (
        out,
        then_assoc (copy_bytes a.length buf 0 a.buf) (λ f. copy_bytes b.length f a.length b.buf)
              finish
            ∙ ap (λ o. o >>= finish) e,
        l,
        t,
      )

  rest-Makes :
      (m : Memory)
      → Provides m
      → (buf : List ℕ) → a.length + b.length < length buf
      → Makes (rest m buf) (ta ++ tb)
  rest-Makes m p buf h =
      let n = a.length + b.length in
      let (out, e, l, t) = rest-joined m buf (omega arith) in
      let inside : n < length out = omega (arith, l) in
      let ended = set out n 0 in
      let (r, e', v) = new_string-Makes m p ended n (omega (arith, length-set out n 0)) in
      (
        r,
        e ∙ ap (λ o. o >>= λ w. new_string m (some w) n) (store-within out n 0 inside) ∙ e',
        subst (Holds r) (take-set n out 0 ∙ t) v,
      )

  rest-overrun :
      (m : Memory) (buf : List ℕ) → a.length + b.length ≡ length buf → rest m buf ≡ undefined
  rest-overrun m buf h =
      let n = a.length + b.length in
      let (out, e, l, t) = rest-joined m buf (omega arith) in
      e ∙ ap (λ o. o >>= λ w. new_string m (some w) n) (store-outside out n 0 (omega (arith, l)))

  fits_int :
      (n : ℕ) → n < 2 ^ 31 → (o : Outcome Str) → (if leb (2 ^ 31) n then undefined else o) ≡ o
  fits_int n h o = ground arith

  -- Strconcat gives the texts of its two strings one behind the other, if they are shorter than 128
  -- bytes together and the collector has memory.
  pub strconcat-short :
      (m : Memory)
      → Provides m
      → length ta + length tb < 128
      → Makes (strconcat m (some a) (some b)) (ta ++ tb)
  unfolding strconcat concat_buffer
  strconcat-short m p h =
      let n = a.length + b.length in
      let short : n < 128 = omega (arith, va.counted, vb.counted) in
      let (r, e, v) = rest-Makes m p m.local_buffer (omega (arith, p.buffer_sized)) in
      (
        r,
        fits_int n (omega arith)
              ((if ltb n 128 then returned m.local_buffer else raw_alloc m n) >>= rest m)
            ∙ ap (λ o. o >>= rest m) (in_place n short (returned m.local_buffer) (raw_alloc m n))
            ∙ e,
        v,
      )

  -- Of two texts that are 128 bytes or more together, and fewer than 2 ^ 31, Strconcat gives nothing:
  -- it exits for want of memory, or it writes behind the end of its buffer.
  pub strconcat-long :
      (m : Memory)
      → Provides m
      → 128 ≤ length ta + length tb
      → length ta + length tb < 2 ^ 31
      → (strconcat m (some a) (some b) ≡ fatal RtError.nomem)
        ⊎ (strconcat m (some a) (some b) ≡ undefined)
  unfolding strconcat concat_buffer raw_alloc
  strconcat-long m p h k =
      let n = a.length + b.length in
      let counted : n ≡ length ta + length tb = omega (arith, va.counted, vb.counted) in
      let opened =
        fits_int n (omega arith)
          ((if ltb n 128 then returned m.local_buffer else raw_alloc m n) >>= rest m)
        ∙ ap (λ o. o >>= rest m)
            (on_heap n (omega arith) (returned m.local_buffer) (raw_alloc m n)) in
      elim (Option-cases (m.malloc n)) [
        | inl e ↦ inl (opened ∙ ap (λ o. allocated o >>= rest m) e)
        | inr (block, e) ↦ inr (
            opened
            ∙ ap (λ o. allocated o >>= rest m) e
            ∙ rest-overrun m block (sym (p.malloc_sized n block e)))
      ]
