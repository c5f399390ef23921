-- ===== src/DefGroup.antt =====
-- src/libmonga/defgroup.c: the definitions of a module, in the order of their registration. Names may
-- repeat.
pub mod Laws
use monga.Prelude.{Option, none, some, List, [], ◌∷◌, if◌then◌else◌, CString, strcmp_eq}
use monga.Alloc.{Allocator}
use monga.Ast.{TypeId, FuncId}
use monga.Error.{RetCode}
use monga.Syntax.{VarDef}
use monga.Vector.{Vector, Cells, init, push, visited}

-- `Mon_AstDef`, by what it defines.
pub data Defined : Type 0 where
  variable : VarDef → Defined
  function : FuncId → Defined
  type_def : TypeId → Defined

pub record Def : Type 0 where
  pub def_name : CString
  pub definition : Defined

-- `Mon_DefGroup`
pub record DefGroup : Type 0 where
  pub defs : Vector Def

-- `Mon_DefGroupInit`
unfoldable pub init_group : DefGroup
init_group = record { defs = init }

-- `Mon_DefGroupReg`
unfoldable pub reg : Allocator Def → DefGroup → Def → RetCode × DefGroup
reg a g d = let (code, v) = push a g.defs d in (code, record { defs = v })

-- The loop over the cells of the vector: `none` is a read of a cell that was never written, and
-- `some none` the result NULL.
unfoldable pub find_cell : Cells Def → CString → Option (Option Def)
find_cell [] name = some none
find_cell (none ∷ cells) name = none
find_cell (some d ∷ cells) name =
    if strcmp_eq d.def_name name then some (some d) else find_cell cells name

-- `Mon_DefGroupFind`
unfoldable pub find_def : DefGroup → CString → Option (Option Def)
unfolding find_cell
find_def g name = find_cell (visited g.defs) name
