-- ===== src/Vector/Refine.antt =====
-- The vector of src/libmonga/vector.c refines a list: its first `count` cells are the elements.
use monga.Prelude.{
  ℕ, zero, suc, ◌+◌, ◌-◌, ◌/◌, ◌^◌, ◌≤◌, ◌<◌, ◌≡◌, refl, sym, ap, ◌∙◌, ◌⊎◌, inl, inr, ◌&&◌, Option,
  none, some, List, [], ◌∷◌, ◌++◌, map, ltb, ◌==◌, length, get_elem?, set, take, erase_idx,
  length-set, length-append, take-suc-set, Option-cases, Bool-cases, arith,
}
use native.Mathlib.Numerals.{add-one, towards_suc}
use monga.Alloc.{Allocator}
use monga.Error.{RetCode, success, err_nomem}
use monga.Vector.{
  Vector, Cells, min_size, init, cells, cell_at, get, grown_cap, resize_cells, store_last, push,
  shift_down, shrunk_cap, shrink, remove,
}

-- The vector's cells are as many as its capacity, and the first `count` hold the list's elements.
pub record Represents {ℓ} {A : Type ℓ} (v : Vector A) (xs : List A) : Type ℓ where
  pub width : length (cells v) ≡ v.cap
  pub counted : v.count ≡ length xs
  pub fits : v.count ≤ v.cap
  pub holds : take v.count (cells v) ≡ map some xs

grown_cap-lt : (c : ℕ) → c < 2 ^ 30 → c < grown_cap c
unfolding grown_cap
grown_cap-lt c h = ground arith

shrunk_cap-ge : (c n : ℕ) → n < c / 3 → n ≤ shrunk_cap c
unfolding shrunk_cap
shrunk_cap-ge c n h = ground arith

suc-pred : (n i : ℕ) → i < n → suc (n - 1) ≡ n
suc-pred n i h = omega arith

module _ {ℓ} {A : Type ℓ} where
  length-map-some : (xs : List A) → length (map some xs) ≡ length xs
  length-map-some [] = refl
  length-map-some (x ∷ xs) = ap suc (length-map-some xs)

  map-some-append : (xs ys : List A) → map some (xs ++ ys) ≡ map some xs ++ map some ys
  map-some-append [] ys = refl
  map-some-append (x ∷ xs) ys = ap (λ l. some x ∷ l) (map-some-append xs ys)

  pub init-Represents : Represents {A = A} init []
  unfolding init
  init-Represents = record { width = refl; counted = refl; fits = omega arith; holds = refl }

  store_last-Represents :
      (v : Vector A) (xs : List A) (x : A)
      → Represents v xs
      → v.count < v.cap
      → Represents (store_last v x) (xs ++ x ∷ [])
  unfolding store_last
  store_last-Represents v xs x r room = record {
    width = length-set (cells v) v.count (some x) ∙ r.width;
    counted = omega (arith, length-append xs (x ∷ []), r.counted);
    fits = omega arith;
    holds =
        ap (λ k. take k (set (cells v) v.count (some x))) (add-one v.count)
        ∙ take-suc-set v.count (cells v) (some x) (omega (arith, r.width))
        ∙ ap (λ l. l ++ some x ∷ []) r.holds
        ∙ sym (map-some-append xs (x ∷ []));
  }

  -- A new block, or the old one moved, keeps the elements.
  resize_cells-keeps :
      (a : Allocator A) (arr : Option (Cells A)) (m : Cells A) (n k : ℕ)
      → resize_cells a arr n ≡ some m
      → k ≤ n
      → k ≤ length (elim arr [ none ↦ [] | some old ↦ old ])
      → (length m ≡ n) × (take k m ≡ take k (elim arr [ none ↦ [] | some old ↦ old ]))
  unfolding resize_cells
  resize_cells-keeps a none m n zero e h h' = (a.alloc-length n m e, refl)
  resize_cells-keeps a none m n (suc k) e h h' = absurd (omega arith)
  resize_cells-keeps a (some old) m n k e h h' =
      (a.realloc-length old n m e, a.realloc-keeps old n k m e h h')

  pub resize-Represents :
      (a : Allocator A) (v : Vector A) (xs : List A) (m : Cells A) (n : ℕ)
      → Represents v xs
      → v.count ≤ n
      → resize_cells a v.arr n ≡ some m
      → Represents (record v { arr = some m; cap = n }) xs
  resize-Represents a v xs m n r le e =
      let (width, kept) = resize_cells-keeps a v.arr m n v.count e le (omega (arith, r.width)) in
      record { width = width; counted = r.counted; fits = le; holds = kept ∙ r.holds }

  -- What `push` did: it succeeded and appended the element, or it had no memory and did nothing.
  abbrev pub Pushed : Vector A → List A → A → RetCode × Vector A → Type ℓ
  Pushed v xs x out =
      ((out.0 ≡ success) × Represents out.1 (xs ++ x ∷ [])) ⊎ ((out.0 ≡ err_nomem) × (out.1 ≡ v))

  -- On a vector of the list `xs` whose capacity is below 2 ^ 30, a push either succeeds and the vector
  -- is then one of `xs` with the element at its end, or finds no memory and leaves the vector as it was.
  pub push-Pushed :
      (a : Allocator A) {v : Vector A} {xs : List A} (x : A)
      → Represents v xs
      → v.cap < 2 ^ 30
      → Pushed v xs x (push a v x)
  unfolding push
  push-Pushed a {v} {xs} x r h = elim (Bool-cases (v.count == v.cap)) [
    | inr room ↦ rw room (inl (refl, store_last-Represents v xs x r (ground arith)))
    | inl full ↦ elim (Option-cases (resize_cells a v.arr (grown_cap v.cap))) [
      | inl e ↦ rw (full, e) (inr (refl, refl))
      | inr (m, e) ↦
          rw (full, e)
            (inl (
              refl,
              store_last-Represents _ xs x
                  (resize-Represents a v xs m (grown_cap v.cap) r
                    (omega (arith, grown_cap-lt v.cap h)) e)
                  (omega (arith, grown_cap-lt v.cap h)),
            ))
    ]
  ]

  -- A move that starts behind the first cell leaves that cell alone.
  shift_down-cons :
      (c : Option A) (m : Cells A) (i n : ℕ) → shift_down (c ∷ m) (suc i) n ≡ c ∷ shift_down m i n
  unfolding shift_down
  shift_down-cons c m i zero = refl
  shift_down-cons c m i (suc n) =
      simp towards_suc (shift_down-cons c (set m i (cell_at m (suc i))) (suc i) n)

  length-shift_down : (m : Cells A) (i n : ℕ) → length (shift_down m i n) ≡ length m
  unfolding shift_down
  length-shift_down m i zero = refl
  length-shift_down m i (suc n) =
      length-shift_down (set m i (cell_at m (i + 1))) (i + 1) n ∙ length-set m i _

  shift_down_all :
      (m : Cells A) (c : Option A) (n : ℕ)
      → n ≤ length m
      → take n (shift_down (c ∷ m) 0 n) ≡ take n m
  unfolding shift_down
  shift_down_all m c zero h = refl
  shift_down_all [] c (suc n) h = absurd (omega arith)
  shift_down_all (d ∷ m) c (suc n) h =
      rw (shift_down-cons d (d ∷ m) 0 n) (ap (λ l. d ∷ l) (shift_down_all m d n (omega arith)))

  -- The loop of `Mon_VectorRemove` takes the element at the index out.
  take-shift_down :
      (m : Cells A) (i n k : ℕ)
      → k ≡ i + n
      → k < length m
      → take k (shift_down m i n) ≡ erase_idx (take (suc k) m) i
  take-shift_down [] i n k e h = absurd (omega arith)
  take-shift_down (c ∷ m) zero n k e h =
      let same : n ≡ k = omega arith in rw same (shift_down_all m c k (omega arith))
  take-shift_down (c ∷ m) (suc i) n zero e h = absurd (omega arith)
  take-shift_down (c ∷ m) (suc i) n (suc k) e h =
      rw (shift_down-cons c m i n)
        (ap (λ l. c ∷ l) (take-shift_down m i n k (omega arith) (omega arith)))

  map-some-erase_idx : (xs : List A) (i : ℕ) → erase_idx (map some xs) i ≡ map some (erase_idx xs i)
  map-some-erase_idx [] i = refl
  map-some-erase_idx (x ∷ xs) zero = refl
  map-some-erase_idx (x ∷ xs) (suc i) = ap (λ l. some x ∷ l) (map-some-erase_idx xs i)

  length-erase_idx : (xs : List A) (i : ℕ) → i < length xs → length (erase_idx xs i) ≡ length xs - 1
  length-erase_idx [] i h = absurd (omega arith)
  length-erase_idx (x ∷ xs) zero h = omega arith
  length-erase_idx (x ∷ xs) (suc i) h = omega (arith, length-erase_idx xs i)

  pub shrink-Represents :
      (a : Allocator A) {v : Vector A} {xs : List A} → Represents v xs → Represents (shrink a v) xs
  unfolding shrink
  shrink-Represents a {v} {xs} r =
      elim (Bool-cases (ltb min_size v.cap && ltb v.count (v.cap / 3))) [
        | inr no_need ↦ rw no_need r
        | inl sparse ↦ elim (Option-cases (resize_cells a v.arr (shrunk_cap v.cap))) [
          | inl e ↦ rw (sparse, e) r
          | inr (m, e) ↦
              rw (sparse, e)
                (resize-Represents a v xs m (shrunk_cap v.cap) r
                  (shrunk_cap-ge v.cap v.count (ground arith)) e)
        ]
      ]

  removed-Represents :
      (arr : Option (Cells A)) (count c i : ℕ) (xs : List A)
      → Represents (record { arr = arr; count = count; cap = c }) xs
      → i < count
      → Represents
          (record {
            arr = elim arr [ none ↦ none | some m ↦ some (shift_down m i (count - 1 - i)) ];
            count = count - 1;
            cap = c;
          })
          (erase_idx xs i)
  removed-Represents none count c i xs r h = absurd (omega (arith, r.width))
  removed-Represents (some m) count c i xs r h = record {
    width = length-shift_down m i (count - 1 - i) ∙ r.width;
    counted = omega (arith, length-erase_idx xs i, r.counted);
    fits = omega (arith, r.fits);
    holds =
        take-shift_down m i (count - 1 - i) (count - 1) (omega arith)
          (omega (arith, r.fits, r.width))
        ∙ ap (λ k. erase_idx (take k m) i) (suc-pred count i h)
        ∙ ap (λ l. erase_idx l i) r.holds
        ∙ map-some-erase_idx xs i;
  }

  -- Removing at an index of the list leaves a vector of the list without that element, whether or not
  -- the allocator lets the buffer shrink.
  pub remove-Represents :
      (a : Allocator A) {v : Vector A} {xs : List A} (i : ℕ)
      → Represents v xs
      → i < length xs
      → Represents (remove a v i) (erase_idx xs i)
  unfolding remove
  remove-Represents a {v} {xs} i r h =
      shrink-Represents a (removed-Represents v.arr v.count v.cap i xs r (omega (arith, r.counted)))

  cell_at-take :
      (m : Cells A) (xs : List A) (n i : ℕ)
      → take n m ≡ map some xs
      → i < length xs
      → cell_at m i ≡ get_elem? xs i
  cell_at-take m [] n i e h = absurd (omega arith)
  cell_at-take m (x ∷ xs) zero i e h = cc
  cell_at-take [] (x ∷ xs) (suc n) i e h = cc
  cell_at-take (c ∷ m) (x ∷ xs) (suc n) zero e h = cc
  cell_at-take (c ∷ m) (x ∷ xs) (suc n) (suc i) e h = cell_at-take m xs n i (cc) (omega arith)

  -- Reading below the count gives the list's element there.
  pub get-Represents :
      {v : Vector A} {xs : List A} (i : ℕ)
      → Represents v xs
      → i < length xs
      → get v i ≡ get_elem? xs i
  unfolding get
  get-Represents {v} {xs} i r h = cell_at-take (cells v) xs v.count i r.holds h
