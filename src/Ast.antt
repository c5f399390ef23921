-- ===== src/Ast.antt =====
-- The syntax tree of src/libmonga/include/ast: types, expressions, statements and definitions, with
-- the `semantic` fields that the analysis fills in. A node that other nodes point to (a type
-- definition, a function) is named by its index in a list of them.
use monga.Prelude.{ℕ, Option, List, CString}

-- A `Mon_AstTypeDef*`: a place in the list of type definitions.
abbrev pub TypeId : Type 0
TypeId = ℕ

-- A `Mon_AstFuncDef*`.
abbrev pub FuncId : Type 0
FuncId = ℕ

-- `Mon_PrimitiveTypeCode`
pub data PrimitiveCode : Type 0 where
  char int8 int16 int32 int64 float32 float64 intptr void : PrimitiveCode

-- `Mon_AstField`
pub record Field : Type 0 where
  pub field_name : CString
  pub type_name : CString
  pub field_type : Option TypeId

-- `Mon_AstTypeDesc`; a pointer of its semantics is NULL until it is resolved.
pub data TypeDesc : Type 0 where
  alias_desc : CString → Option TypeId → TypeDesc
  record_desc : List Field → TypeDesc
  array_desc : TypeDesc → Option TypeId → TypeDesc
  primitive_desc : PrimitiveCode → TypeDesc
  special_desc : TypeDesc

-- `Mon_AstTypeDef`
pub record TypeDef : Type 0 where
  pub type_name : CString
  pub desc : TypeDesc

-- `Mon_UnopKind`
pub data UnopKind : Type 0 where
  negative bitnot len : UnopKind

-- `Mon_BinopKind`
pub data BinopKind : Type 0 where
  add sub mul div modulo shr shl bitand bitor xor : BinopKind

-- `Mon_ComparKind`
pub data ComparKind : Type 0 where
  gt ge eq ne le lt : ComparKind

-- `Mon_BinCondKind`
pub data BinCondKind : Type 0 where
  and or : BinCondKind
