-- ===== src/Codegen/Context.antt =====
-- `LlvmGenContext` of src/libmonga/codegen/llvmctx.h as a state, the functions of llvmctx.c on it, and
-- the instructions that llvmemit.c prints, as data. `none` is a step that does not return, as
-- MON_UNREACHABLE or a read through NULL; memory and the output stream are assumed not to fail.
use monga.Prelude.{
  ℕ, suc, ◌+◌, Bool, true, false, ◌||◌, Option, none, some, List, [], ◌∷◌, ◌++◌, ◌==◌,
  if◌then◌else◌, take, CString, strcmp_eq,
}
use monga.Ast.{TypeId, FuncId, TypeDef}
use monga.Syntax.{Literal, FuncDef}

-- `LlvmTypeRef`
pub record TypeRef : Type 0 where
  pub ref_name : CString
  pub indirection : ℕ
  pub is_builtin : Bool

-- `LlvmValue` but for labels, which are numbers here. `nowhere` is `ValLocal(-1)`.
pub data Value : Type 0 where
  local ssa : ℕ → Value
  literal : Literal → Value
  named_global : CString → Value
  null nowhere : Value

-- A value as it is printed: a string literal by its length and its id.
pub data Operand : Type 0 where
  temp argument integer character : ℕ → Operand
  real null nowhere : Operand
  global : CString → Operand
  string : ℕ → ℕ → Operand

-- `LlvmBinopKind`
pub data Op : Type 0 where
  add sub mul sdiv srem ashr lshr shl bitnot and or xor : Op
  fadd fsub fmul fdiv frem : Op

-- `LlvmComparKind`
pub data Cmp : Type 0 where
  eq neq sgt slt sge sle : Cmp
  oeq uneq ogt olt oge ole : Cmp

pub data Conversion : Type 0 where
  bitcast fpext fptrunc sitofp sext trunc : Conversion

-- What stands to the right of `%t.n =`
pub data Rhs : Type 0 where
  load : TypeRef → Operand → Rhs
  alloca : TypeRef → Rhs
  convert : Conversion → TypeRef → Operand → TypeRef → Rhs
  binop : Op → TypeRef → Operand → Operand → Rhs
  compare : Cmp → TypeRef → Operand → Operand → Rhs
  struct_pointer : TypeRef → Operand → ℕ → Rhs
  array_pointer : TypeRef → Operand → Operand → Rhs
  phi : TypeRef → Operand → ℕ → Operand → ℕ → Rhs
  call : TypeRef → CString → List (TypeRef × Operand) → Rhs

-- A line of a function's body
pub data Instr : Type 0 where
  assign : ℕ → Rhs → Instr
  store : TypeRef → Operand → Operand → Instr
  call : TypeRef → CString → List (TypeRef × Operand) → Instr
  label : ℕ → Instr
  branch : ℕ → Instr
  cond_branch : Operand → ℕ → ℕ → Instr
  ret : TypeRef → Operand → Instr
  ret_void : Instr

-- `LocalVariableData`
pub record Local : Type 0 where
  pub var_name : CString
  pub var_type : TypeId
  pub location : Value

pub record Gen : Type 0 where
  -- the type definitions and functions that nodes point to
  pub types : List TypeDef
  pub funcs : List FuncDef
  pub internal_functions : List FuncId
  pub function_dependencies : List FuncId
  pub enclosing_function : Option FuncDef
  pub string_literals : List CString
  -- `enclosingLoopEndLabel`, `enclosingLoopCheckLabel`: without a value outside loops
  pub loop_end : Option ℕ
  pub loop_check : Option ℕ
  -- `blockCtx`
  pub locals : List Local
  pub next_local_id : ℕ
  pub next_label : ℕ
  -- the lines of the body so far
  pub code : List Instr

abbrev pub G : Type 0 → Type 0
G A = Gen → Option (A × Gen)

infixl 5 ◌>>=◌ ◌>>◌
unfoldable pub ◌>>=◌ : {A B : Type 0} → G A → (A → G B) → G B
◌>>=◌ m f g = elim (m g) [ none ↦ none | some (a, g') ↦ f a g' ]

abbrev pub ◌>>◌ : {B : Type 0} → G (Unit {0}) → G B → G B
m >> k = m >>= λ _. k

unfoldable pub return : {A : Type 0} → A → G A
return a g = some (a, g)

-- A step that does not change the context, and may not return.
unfoldable pub lift : {A : Type 0} → (Gen → Option A) → G A
lift f g = elim (f g) [ none ↦ none | some a ↦ some (a, g) ]

abbrev pub unreachable : {A : Type 0} → G A
unreachable g = none

-- A step that always returns.
unfoldable pub change : {A : Type 0} → (Gen → A × Gen) → G A
change f g = some (f g)

-- `nextLocalId++` and `nextLabel++`
unfoldable pub fresh_local : G ℕ
fresh_local g = some (g.next_local_id, record g { next_local_id = g.next_local_id + 1 })

unfoldable pub fresh_label : G ℕ
fresh_label g = some (g.next_label, record g { next_label = g.next_label + 1 })

-- A line of output.
unfoldable pub emit : Instr → G (Unit {0})
emit i g = some (tt, record g { code = g.code ++ i ∷ [] })

-- The loop over the literals, which counts one before it compares: the id, or how many there are.
abbrev pub literal_id : List CString → CString → ℕ → Bool × ℕ
literal_id [] s id = (false, id)
literal_id (t ∷ ts) s id = if strcmp_eq t s then (true, suc id) else literal_id ts s (suc id)

-- `AddOrGetStringLiteralId`
unfoldable pub add_or_get_string_literal_id : CString → G ℕ
add_or_get_string_literal_id s g =
    let (found, id) = literal_id g.string_literals s 0 in
    some (id, if found then g else record g { string_literals = g.string_literals ++ s ∷ [] })

-- The push of `AddLocal`, for a location that was made.
unfoldable pub push_local : CString → TypeId → Value → G (Unit {0})
push_local name t loc g = some (
  tt,
  record g { locals = g.locals ++ record { var_name = name; var_type = t; location = loc } ∷ [] },
)

-- The loop of `FindLocal`, from the last local back: the last one of the name.
abbrev pub last_named : List Local → CString → Option Local
last_named [] name = none
last_named (l ∷ ls) name =
    let later = last_named ls name in
    elim later [ some x ↦ some x | none ↦ if strcmp_eq l.var_name name then some l else none ]

-- `FindLocal`
unfoldable pub find_local : CString → G (Option Local)
find_local name g = some (last_named g.locals name, g)

-- The end of a block: the locals but the first ones.
unfoldable pub drop_locals : ℕ → G (Unit {0})
drop_locals top g = some (tt, record g { locals = take top g.locals })

-- `ResetBlockContext`
unfoldable pub reset_block_context : G (Unit {0})
reset_block_context g = some (tt, record g { next_local_id = 0; next_label = 0; locals = [] })

abbrev pub mem_func : FuncId → List FuncId → Bool
mem_func f [] = false
mem_func f (x ∷ xs) = x == f || mem_func f xs

-- `AddFunctionDependency`
unfoldable pub add_function_dependency : FuncId → G (Unit {0})
add_function_dependency f g = some (
  tt,
  if mem_func f g.internal_functions
      then g
      else if mem_func f g.function_dependencies
      then g
      else record g { function_dependencies = g.function_dependencies ++ f ∷ [] },
)

-- `RegisterInternalFunction`
unfoldable pub register_internal_function : FuncId → G (Unit {0})
register_internal_function f g =
    some (tt, record g { internal_functions = g.internal_functions ++ f ∷ [] })

-- `enclosingLoopEndLabel` and `enclosingLoopCheckLabel`, read and written.
unfoldable pub loops : G (Option ℕ × Option ℕ)
loops g = some ((g.loop_end, g.loop_check), g)

unfoldable pub set_loops : Option ℕ → Option ℕ → G (Unit {0})
set_loops end check g = some (tt, record g { loop_end = end; loop_check = check })

unfoldable pub set_enclosing : Option FuncDef → G (Unit {0})
set_enclosing f g = some (tt, record g { enclosing_function = f })
