-- ===== src/Tests/Groups.antt =====
-- A group of definitions of src/libmonga/defgroup.c with two of one name.
use monga.Prelude.{
  ◌≡◌, refl, ◌⊎◌, Option, none, some, [], ◌∷◌, if◌then◌else◌, codes, strcmp_eq, arith,
}
use monga.Error.{success, err_nomem}
use monga.Vector.{init, visited}
use monga.Vector.Refine.{Represents, init-Represents}
use monga.DefGroup.{Def, Defined, DefGroup, init_group, reg, find_def}
use monga.DefGroup.Laws.{FirstNamed, find_def-FirstNamed, find_def-reg}
use monga.Tests.Vectors.{heap}

abbrev int_def : Def
int_def = record { def_name = codes "age"; definition = Defined.type_def 12 }

no_defs : Represents init_group.defs []
unfolding init_group
no_defs = init-Represents

find_def-reg_example :
    ((reg heap init_group int_def).0 ≡ err_nomem) × ((reg heap init_group int_def).1 ≡ init_group)
    ⊎ ((reg heap init_group int_def).0 ≡ success)
      × (find_def (reg heap init_group int_def).1 (codes "age")
          ≡ some (if strcmp_eq (codes "age") (codes "age") then some int_def else none))
unfolding init_group init
find_def-reg_example = find_def-reg heap init_group [] int_def (codes "age") no_defs (omega arith)

abbrev age_func : Def
age_func = record { def_name = codes "age"; definition = Defined.function 0 }

abbrev len_func : Def
len_func = record { def_name = codes "length"; definition = Defined.function 1 }

-- Two definitions of the name `age`, behind one of another name.
abbrev three_defs : DefGroup
three_defs = record {
  defs = record {
    arr = some (some len_func ∷ some int_def ∷ some age_func ∷ none ∷ []);
    count = 3;
    cap = 4;
  };
}

three_defs-Represents : Represents three_defs.defs (len_func ∷ int_def ∷ age_func ∷ [])
three_defs-Represents = record { width = refl; counted = refl; fits = omega arith; holds = refl }

find_def-FirstNamed_example :
    (found : Option Def) × (find_def three_defs (codes "age") ≡ some found)
    × FirstNamed (len_func ∷ int_def ∷ age_func ∷ []) (codes "age") found
find_def-FirstNamed_example =
    find_def-FirstNamed three_defs (len_func ∷ int_def ∷ age_func ∷ []) (codes "age")
      three_defs-Represents

second_kept : find_def three_defs (codes "age") ≡ some (some int_def)
unfolding find_def visited strcmp_eq
second_kept = refl
