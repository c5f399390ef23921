-- ===== src/Sem/Builtins.antt =====
-- src/libmonga/sem/builtins.c: the builtin types. They are the first type definitions of every
-- analysis, in the order of the table of `ConstructBuiltinTypes`.
use monga.Prelude.{List, [], ◌∷◌, codes}
use monga.Ast.{
  TypeId, TypeDef, primitive_desc, special_desc, char, int8, int16, int32, int64, float32, float64,
  intptr, void,
}

abbrev pub t_char : TypeId
t_char = 0

abbrev pub t_byte : TypeId
t_byte = 1

abbrev pub t_short : TypeId
t_short = 2

abbrev pub t_int : TypeId
t_int = 3

abbrev pub t_long : TypeId
t_long = 4

abbrev pub t_float : TypeId
t_float = 5

abbrev pub t_double : TypeId
t_double = 6

abbrev pub t_void : TypeId
t_void = 7

abbrev pub t_intptr : TypeId
t_intptr = 8

abbrev pub t_null : TypeId
t_null = 9

abbrev pub t_error : TypeId
t_error = 10

abbrev pub t_string : TypeId
t_string = 11

-- The table of `ConstructBuiltinTypes`.
abbrev pub builtin_types : List TypeDef
builtin_types =
    record { type_name = codes "char"; desc = primitive_desc char }
    ∷ record { type_name = codes "byte"; desc = primitive_desc int8 }
    ∷ record { type_name = codes "short"; desc = primitive_desc int16 }
    ∷ record { type_name = codes "int"; desc = primitive_desc int32 }
    ∷ record { type_name = codes "long"; desc = primitive_desc int64 }
    ∷ record { type_name = codes "float"; desc = primitive_desc float32 }
    ∷ record { type_name = codes "double"; desc = primitive_desc float64 }
    ∷ record { type_name = codes "void"; desc = primitive_desc void }
    ∷ record { type_name = codes "intptr"; desc = primitive_desc intptr }
    ∷ record { type_name = codes "<null-type>"; desc = special_desc }
    ∷ record { type_name = codes "<error-type>"; desc = special_desc }
    ∷ record { type_name = codes "string"; desc = special_desc }
    ∷ []
