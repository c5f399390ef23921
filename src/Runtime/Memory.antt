-- ===== src/Runtime/Memory.antt =====
-- Memory as the runtime uses it: src/monrt/c/mem.c, err.c, and accesses to buffers.
use monga.Prelude.{
  ℕ, zero, suc, ◌+◌, ◌≤◌, ◌<◌, ◌≡◌, refl, sym, ap, ◌∙◌, append_assoc, append-nil, Option, none,
  some, List, [], ◌∷◌, ◌++◌, ltb, if◌then◌else◌, length, get_elem?, set, take, length-set,
  take-suc-set, arith,
}

pub data RtError : Type 0 where
  nomem badarg nullarg : RtError

-- How a call ends: it returns, exits the program, or does what C leaves undefined.
pub data Outcome {ℓ} (A : Type ℓ) : Type ℓ where
  returned : A → Outcome A
  fatal : RtError → Outcome A
  undefined : Outcome A

infixl 20 ◌>>=◌
abbrev pub ◌>>=◌ {ℓ ℓ'} : {A : Type ℓ} {B : Type ℓ'} → Outcome A → (A → Outcome B) → Outcome B
returned a >>= f = f a
fatal e >>= f = fatal e
undefined >>= f = undefined

-- What the C library and the machine give: blocks of the collector and of `malloc` for a size in
-- bytes, NULL being `none`, and what the locals that are never initialised hold.
pub record Memory : Type 0 where
  pub gc_malloc : ℕ → Option (List ℕ)
  pub malloc : ℕ → Option (List ℕ)
  pub local_int : ℕ
  pub local_buffer : List ℕ

-- The collector has memory and a block is as long as was asked for; the local buffer has 128 bytes.
pub record Provides (m : Memory) : Type 0 where
  pub gc_block : (n : ℕ) → (block : List ℕ) × (m.gc_malloc n ≡ some block) × (length block ≡ n)
  pub malloc_sized : (n : ℕ) (block : List ℕ) → m.malloc n ≡ some block → length block ≡ n
  pub buffer_sized : length m.local_buffer ≡ 128

-- The caller writes through the pointer without a test.
unfoldable pub gc_alloc : Memory → ℕ → Outcome (List ℕ)
gc_alloc m size = elim (m.gc_malloc size) [ none ↦ undefined | some block ↦ returned block ]

unfoldable pub raw_alloc : Memory → ℕ → Outcome (List ℕ)
raw_alloc m size = elim (m.malloc size) [ none ↦ fatal RtError.nomem | some block ↦ returned block ]

-- `p[i]`
unfoldable pub load : List ℕ → ℕ → Outcome ℕ
load cells i = elim (get_elem? cells i) [ none ↦ undefined | some b ↦ returned b ]

-- `p[i] = b`
unfoldable pub store : List ℕ → ℕ → ℕ → Outcome (List ℕ)
store cells i b = if ltb i (length cells) then returned (set cells i b) else undefined

-- `memcpy(&dst[start], src, n)`
unfoldable pub copy_bytes : ℕ → List ℕ → ℕ → List ℕ → Outcome (List ℕ)
copy_bytes zero dst start src = returned dst
copy_bytes (suc n) dst start [] = undefined
copy_bytes (suc n) dst start (b ∷ bs) = do
  written ← store dst start b
  copy_bytes n written (suc start) bs

pub load-within :
    (cells : List ℕ) (i : ℕ) (b : ℕ) → get_elem? cells i ≡ some b → load cells i ≡ returned b
unfolding load
load-within cells i b e = ap (λ o. elim o [ none ↦ undefined | some b' ↦ returned b' ]) e

pub store-within :
    (cells : List ℕ) (i b : ℕ) → i < length cells → store cells i b ≡ returned (set cells i b)
unfolding store
store-within cells i b h = ground arith

pub store-outside : (cells : List ℕ) (i b : ℕ) → length cells ≤ i → store cells i b ≡ undefined
unfolding store
store-outside cells i b h = ground arith

-- A copy within both buffers changes no length and writes the bytes behind what was there.
abbrev pub Copied : ℕ → List ℕ → ℕ → List ℕ → Type 0
Copied n dst start src =
    (out : List ℕ) × (copy_bytes n dst start src ≡ returned out)
    × (length out ≡ length dst)
    × (take (start + n) out ≡ take start dst ++ take n src)

pub copy_bytes-Copied :
    (n : ℕ) (dst : List ℕ) (start : ℕ) (src : List ℕ)
    → n ≤ length src
    → start + n ≤ length dst
    → Copied n dst start src
unfolding copy_bytes
copy_bytes-Copied zero dst start src h k =
    (dst, refl, refl, ap (λ i. take i dst) (omega arith) ∙ sym (append-nil (take start dst)))
copy_bytes-Copied (suc n) dst start [] h k = absurd (omega arith)
copy_bytes-Copied (suc n) dst start (b ∷ bs) h k =
    let inside : start < length dst = omega arith in
    let kept = length-set dst start b in
    let (out, e, l, t) =
      copy_bytes-Copied n (set dst start b) (suc start) bs (omega arith) (omega (arith, kept)) in
    (
      out,
      ap (λ o. o >>= (λ w. copy_bytes n w (suc start) bs)) (store-within dst start b inside) ∙ e,
      l ∙ kept,
      ap (λ i. take i out) (omega arith)
          ∙ t
          ∙ ap (λ l. l ++ take n bs) (take-suc-set start dst b inside)
          ∙ append_assoc (take start dst) (b ∷ []) (take n bs),
    )
