-- ===== src/Tests/Strings.antt =====
-- Strings of the runtime (src/monrt/c/monstr.c) on small texts.
use monga.Prelude.{
  ℕ, ◌≡◌, refl, sym, ap, ◌∙◌, ◌⊎◌, some, List, [], ◌∷◌, ◌++◌, codes, length, replicate,
  length-replicate, arith,
}
use mathlib.Core.Option.{some-injective}
use monga.Runtime.Memory.{RtError, returned, fatal, undefined, ◌>>=◌, Memory, Provides, load}
use monga.Runtime.Strings.{
  pos, negsuc, Str, str_from_sz, char_array_from_str, substr_at, substr, strconcat, find_from,
  strfind,
}
use monga.Runtime.Strings.Laws.{Holds, Makes, char_array_from_str-str_from_sz}
use monga.Runtime.Strings.Slices.{Answer, substr-Answer}
use monga.Runtime.Strings.Concat.{strconcat-short, strconcat-long}
use monga.Runtime.Strings.Search.{strfind-prefix, strfind-not_found}
use monga.Runtime.Strings.Found.{Found, strfind-Found}

abbrev zeroed : Memory
zeroed = record {
  gc_malloc = λ n. some (replicate n 0);
  malloc = λ n. some (replicate n 0);
  local_int = 7;
  local_buffer = replicate 128 1;
}

zeroed-Provides : Provides zeroed
zeroed-Provides = record {
  gc_block = λ n. (replicate n 0, refl, length-replicate n 0);
  malloc_sized =
      λ n block e. ap length (sym (some-injective (replicate n 0) block e)) ∙ length-replicate n 0;
  buffer_sized = length-replicate {A = ℕ} 128 1;
}

abbrev str : List ℕ → Str
str text = record { length = length text; hash = 0; buf = text ++ 0 ∷ [] }

str-Holds : (text : List ℕ) → Holds (str text) text
str-Holds text = record { counted = refl; stored = refl }

abbrev hello : List ℕ
hello = codes "hello"

char_array_from_str-str_from_sz_example :
    (str_from_sz zeroed (some hello) >>= λ s. char_array_from_str zeroed (some s))
    ≡ returned (some (hello ++ 0 ∷ []))
char_array_from_str-str_from_sz_example =
    char_array_from_str-str_from_sz zeroed zeroed-Provides hello (omega arith)

substr-Answer_example :
    Answer hello (substr zeroed (some (str hello)) (pos 1) (pos 3)) (pos 1) (pos 3)
substr-Answer_example =
    substr-Answer zeroed zeroed-Provides (str hello) hello (str-Holds hello) (omega arith) (pos 1)
      (pos 3)

strconcat-short_example :
    Makes (strconcat zeroed (some (str hello)) (some (str hello))) (hello ++ hello)
strconcat-short_example =
    strconcat-short (str hello) (str hello) hello hello (str-Holds hello) (str-Holds hello) zeroed
      zeroed-Provides (omega arith)

abbrev long : List ℕ
long = replicate 64 97

strconcat-long_example :
    (strconcat zeroed (some (str long)) (some (str long)) ≡ fatal RtError.nomem)
    ⊎ (strconcat zeroed (some (str long)) (some (str long)) ≡ undefined)
strconcat-long_example =
    strconcat-long (str long) (str long) long long (str-Holds long) (str-Holds long) zeroed
      zeroed-Provides (omega (arith, length-replicate {A = ℕ} 64 97))
      (omega (arith, length-replicate {A = ℕ} 64 97))

strfind-prefix_example : strfind (some (str hello)) (some (str (codes "hel"))) ≡ returned (pos 0)
strfind-prefix_example =
    strfind-prefix (str hello) (str (codes "hel")) (codes "hel") 108 (codes "o") (str-Holds hello)
      (str-Holds (codes "hel"))

strfind-not_found_example : strfind (some (str hello)) (some (str hello)) ≡ returned (negsuc 0)
strfind-not_found_example =
    strfind-not_found (str hello) (str hello) hello hello (str-Holds hello) (str-Holds hello)
      (omega arith)

-- The counter of equal bytes is kept at a byte that differs: `ab` is found at 2 in `axbc`.
strfind_mismatch : strfind (some (str (codes "axbc"))) (some (str (codes "ab"))) ≡ returned (pos 2)
unfolding strfind find_from load
strfind_mismatch = refl

-- The whole of a text is no slice of it.
substr_whole : substr zeroed (some (str hello)) (pos 0) (pos 5) ≡ fatal RtError.badarg
unfolding substr substr_at
substr_whole = refl

strfind-Found_example :
    Found hello (codes "el") (strfind (some (str hello)) (some (str (codes "el"))))
strfind-Found_example =
    strfind-Found (str hello) (str (codes "el")) hello (codes "el") (str-Holds hello)
      (str-Holds (codes "el"))
