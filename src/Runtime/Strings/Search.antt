-- ===== src/Runtime/Strings/Search.antt =====
-- Where Strfind of src/monrt/c/monstr.c finds a text in another.
use monga.Prelude.{
  ℕ, zero, suc, ◌+◌, ◌≤◌, ◌<◌, ◌≡◌, ◌≢◌, refl, sym, ap, ◌∙◌, Bool, true, false, some, List, [], ◌∷◌,
  ◌++◌, ◌==◌, if◌then◌else◌, length, get_elem?, length-append, get_elem?-lt,
  get_elem?-append_length, append_assoc, arith,
}
use monga.Runtime.Memory.{Outcome, returned, ◌>>=◌, load, load-within}
use monga.Runtime.Strings.{ℤ, pos, negsuc, Str, find_from, strfind}
use monga.Runtime.Strings.Laws.{Holds}

-- A turn of the loop that reads a byte of each.
unfoldable pub turn : ℕ → Str → Str → ℕ → ℕ → ℕ → ℕ → ℕ → Outcome ℤ
turn n s content i eq_begin eq_count c d =
    find_from n s content (suc i) (if c == d then eq_begin else suc i)
      (if c == d then suc eq_count else eq_count)

same_self : (c : ℕ) → (c == c) ≡ true
same_self c = ground arith

next_count :
    (same : Bool) (eq_count i : ℕ)
    → eq_count ≤ i
    → (if same then suc eq_count else eq_count) ≤ suc i
next_count true eq_count i h = omega arith
next_count false eq_count i h = omega arith

undone : (n k : ℕ) → n ≢ k → (x y : Outcome ℤ) → (if n == k then x else y) ≡ y
undone n k h x y = ground arith

done : (n : ℕ) (x y : Outcome ℤ) → (if n == n then x else y) ≡ x
done n x y = ground arith

byte_behind :
    (first : List ℕ) (b : ℕ) (bs end buf : List ℕ)
    → buf ≡ first ++ (b ∷ (bs ++ end))
    → get_elem? buf (length first) ≡ some b
byte_behind first b bs end buf e =
    ap (λ l. get_elem? l (length first)) e ∙ get_elem?-append_length first b (bs ++ end)

length-snoc : (first : List ℕ) (b : ℕ) → length (first ++ b ∷ []) ≡ suc (length first)
length-snoc first b = omega (arith, length-append first (b ∷ []))

pub not_same : (a b : ℕ) → (a == b) ≡ false → a ≢ b
not_same a b h = ground arith

module _ (s content : Str) where
  pub find_from-turn :
      (n i eq_begin eq_count c d : ℕ)
      → eq_count ≢ content.length
      → get_elem? s.buf i ≡ some c
      → get_elem? content.buf eq_count ≡ some d
      → find_from (suc n) s content i eq_begin eq_count ≡ turn n s content i eq_begin eq_count c d
  unfolding find_from turn
  find_from-turn n i eq_begin eq_count c d h p q =
      let k : ℕ → ℕ → Outcome ℤ = turn n s content i eq_begin eq_count in
      undone eq_count content.length h (returned (pos eq_begin))
        (load s.buf i >>= λ c. load content.buf eq_count >>= k c)
      ∙ ap (λ o. o >>= λ c. load content.buf eq_count >>= k c) (load-within s.buf i c p)
      ∙ ap (λ o. o >>= k c) (load-within content.buf eq_count d q)

  pub find_from-stop :
      (n i place k : ℕ)
      → k ≡ content.length
      → find_from (suc n) s content i place k ≡ returned (pos place)
  unfolding find_from turn
  find_from-stop n i place k h =
      ap
        (λ m.
          if k == m
          then returned (pos place)
          else (load s.buf i >>= λ c. load content.buf k >>= λ d. turn n s content i place k c d))
        (sym h)
      ∙ done k (returned (pos place)) _

  -- While the counter of equal bytes cannot reach the length, the loop runs to its end.
  find_from-missing :
      (n i eq_begin eq_count : ℕ)
      → n + i ≡ s.length
      → s.length ≤ content.length
      → eq_count ≤ i
      → s.length < length s.buf
      → content.length < length content.buf
      → find_from n s content i eq_begin eq_count ≡ returned (negsuc 0)
  unfolding find_from turn
  find_from-missing zero i eq_begin eq_count e h k w w' = refl
  find_from-missing (suc n) i eq_begin eq_count e h k w w' =
      let (c, p) = get_elem?-lt s.buf i (omega arith) in
      let (d, q) = get_elem?-lt content.buf eq_count (omega arith) in
      find_from-turn n i eq_begin eq_count c d (λ f. omega arith) p q
      ∙ find_from-missing n (suc i) (if c == d then eq_begin else suc i)
          (if c == d then suc eq_count else eq_count) (omega arith) h
          (next_count (c == d) eq_count i k) w w'

  -- Past a part that both begin with, all bytes being equal from the start.
  find_from-matched :
      (first left right tail : List ℕ)
      → s.buf ≡ first ++ (left ++ right)
      → content.buf ≡ first ++ (left ++ tail)
      → content.length ≡ length (first ++ left)
      → (turns : ℕ) → length left < turns
      → find_from turns s content (length first) 0 (length first) ≡ returned (pos 0)
  unfolding find_from turn
  find_from-matched first left right tail e f l zero h = absurd (omega arith)
  find_from-matched first [] right tail e f l (suc n) h =
      find_from-stop n (length first) 0 (length first) (omega (arith, l, length-append first []))
  find_from-matched first (b ∷ bs) right tail e f l (suc n) h =
      let short : length first ≢ content.length =
        λ z. omega (arith, l, length-append first (b ∷ bs)) in
      find_from-turn n (length first) 0 (length first) b b short
        (byte_behind first b bs right s.buf e) (byte_behind first b bs tail content.buf f)
      ∙ ap
          (λ r.
            find_from n s content (suc (length first)) (if r then 0 else suc (length first))
              (if r then suc (length first) else length first))
          (same_self b)
      ∙ ap (λ k. find_from n s content k 0 k) (sym (length-snoc first b))
      ∙ find_from-matched (first ++ b ∷ []) bs right tail
          (e ∙ sym (append_assoc first (b ∷ []) (bs ++ right)))
          (f ∙ sym (append_assoc first (b ∷ []) (bs ++ tail)))
          (l ∙ ap length (sym (append_assoc first (b ∷ []) bs))) n (omega arith)

-- Strfind gives 0 for a text that begins with the one looked for and does not end with it.
pub strfind-prefix :
    (s content : Str) (part : List ℕ) (b : ℕ) (more : List ℕ)
    → Holds s (part ++ b ∷ more)
    → Holds content part
    → strfind (some s) (some content) ≡ returned (pos 0)
unfolding strfind
strfind-prefix s content part b more v w =
    find_from-matched s content [] part ((b ∷ more) ++ 0 ∷ []) (0 ∷ [])
      (v.stored ∙ append_assoc part (b ∷ more) (0 ∷ [])) w.stored w.counted s.length
      (omega (arith, v.counted, length-append part (b ∷ more)))

-- A text that is no longer than the one looked for gives -1, be they the same text or not.
pub strfind-not_found :
    (s content : Str) (text part : List ℕ)
    → Holds s text
    → Holds content part
    → length text ≤ length part
    → strfind (some s) (some content) ≡ returned (negsuc 0)
unfolding strfind
strfind-not_found s content text part v w h =
    find_from-missing s content s.length 0 0 0 (omega arith) (omega (arith, v.counted, w.counted))
      (omega arith) (omega (arith, v.counted, ap length v.stored, length-append text (0 ∷ [])))
      (omega (arith, w.counted, ap length w.stored, length-append part (0 ∷ [])))
