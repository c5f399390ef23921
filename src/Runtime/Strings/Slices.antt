-- ===== src/Runtime/Strings/Slices.antt =====
-- Parts of strings: Substr of src/monrt/c/monstr.c.
use monga.Prelude.{
  ℕ, ◌+◌, ◌^◌, ◌≤◌, ◌<◌, ◌≡◌, refl, ap, ◌∙◌, subst, ◌⊎◌, inl, inr, some, List, [], ◌∷◌, ◌++◌, leb,
  if◌then◌else◌, length, take, drop, length-append, take-append, length-drop, drop-append, arith,
}
use monga.Runtime.Memory.{RtError, Outcome, fatal, undefined, Memory, Provides}
use monga.Runtime.Strings.{ℤ, pos, negsuc, Str, new_string, substr_at, substr}
use monga.Runtime.Strings.Laws.{Holds, Makes, new_string-Makes}

-- What Substr does with a text and two numbers of type `int`.
pub data Answer (text : List ℕ) (o : Outcome Str) : ℤ → ℤ → Type 0 where
  inside :
      (start len : ℕ)
      → start + len < length text
      → Makes o (take len (drop start text))
      → Answer text o (pos start) (pos len)
  negative_start : (n : ℕ) (len : ℤ) → o ≡ fatal RtError.badarg → Answer text o (negsuc n) len
  late_start :
      (start : ℕ) (len : ℤ)
      → length text ≤ start
      → o ≡ fatal RtError.badarg
      → Answer text o (pos start) len
  negative_len : (start n : ℕ) → o ≡ fatal RtError.badarg → Answer text o (pos start) (negsuc n)
  late_end :
      (start len : ℕ)
      → length text ≤ start + len
      → o ≡ fatal RtError.badarg
      → Answer text o (pos start) (pos len)
  overflow :
      (start len : ℕ) → 2 ^ 31 ≤ start + len → o ≡ undefined → Answer text o (pos start) (pos len)

take-drop-stored :
    (text : List ℕ) (start len : ℕ)
    → start + len < length text
    → take len (drop start (text ++ 0 ∷ [])) ≡ take len (drop start text)
take-drop-stored text start len h =
    ap (take len) (drop-append start text (0 ∷ []) (omega arith))
    ∙ take-append len (drop start text) (0 ∷ []) (omega (arith, length-drop start text))

opened :
    (n start len : ℕ)
    → start + len < n
    → start + len < 2 ^ 31
    → (o : Outcome Str)
    → (if leb n start
        then fatal RtError.badarg
        else if leb (2 ^ 31) (len + start)
        then undefined
        else if leb n (len + start)
        then fatal RtError.badarg
        else o)
      ≡ o
opened n start len h k o = ground arith

substr-inside :
    (m : Memory)
    → Provides m
    → (s : Str) (text : List ℕ) → Holds s text
    → length text < 2 ^ 31
    → (start len : ℕ) → start + len < length text
    → Makes (substr m (some s) (pos start) (pos len)) (take len (drop start text))
unfolding substr substr_at
substr-inside m p s text v k start len h =
    let (r, e, w) =
      new_string-Makes m p (drop start s.buf) len
        (omega (arith, length-drop start s.buf, ap length v.stored, length-append text (0 ∷ []))) in
    (
      r,
      opened s.length start len (omega (arith, v.counted)) (omega arith)
            (new_string m (some (drop start s.buf)) len)
          ∙ e,
      subst (Holds r)
          (ap (λ b. take len (drop start b)) v.stored ∙ take-drop-stored text start len h) w,
    )

le_or_lt : (a b : ℕ) → (a ≤ b) ⊎ (b < a)
le_or_lt a b = ground arith

-- With memory, and for a text of fewer than 2 ^ 31 bytes, Substr gives the bytes of a slice that
-- ends before the last byte. A negative number, a start behind the text, or an end at the last byte
-- or later exits with an error; but a start within the text and a sum that is no `int` are undefined.
pub substr-Answer :
    (m : Memory)
    → Provides m
    → (s : Str) (text : List ℕ) → Holds s text
    → length text < 2 ^ 31
    → (start len : ℤ) → Answer text (substr m (some s) start len) start len
unfolding substr substr_at
substr-Answer m p s text v k (negsuc n) len = Answer.negative_start n len refl
substr-Answer m p s text v k (pos start) (negsuc n) = Answer.negative_len start n (ground arith)
substr-Answer m p s text v k (pos start) (pos len) = elim (le_or_lt (length text) start) [
  | inl late ↦ Answer.late_start start (pos len) late (ground (arith, v.counted))
  | inr early ↦ elim (le_or_lt (2 ^ 31) (start + len)) [
    | inl large ↦ Answer.overflow start len large (ground (arith, v.counted))
    | inr small ↦ elim (le_or_lt (length text) (start + len)) [
      | inl late ↦ Answer.late_end start len late (ground (arith, v.counted))
      | inr h ↦ Answer.inside start len h (substr-inside m p s text v k start len h)
    ]
  ]
]
