-- ===== src/Codegen/Tree.antt =====
-- Trees as the analysis leaves them (src/libmonga/include/ast): each node has the pointers of its
-- `semantic` part. A pointer to a field is the place of the field in the record that it was found in.
use monga.Prelude.{ℕ, Bool, CString}
use monga.Ast.{TypeId, FuncId, UnopKind, BinopKind, ComparKind, BinCondKind}
use monga.Syntax.{Literal}

-- `Mon_AstExp`, `Mon_AstVar`, `Mon_AstCond` and the parameter list of `Mon_AstCall`; the first
-- argument of an expression or a variable is its type.
mutual
  pub data Exp : Type 0 where
    conditional : TypeId → Cond → Exp → Exp → Exp
    unop : TypeId → UnopKind → Exp → Exp
    binop : TypeId → BinopKind → Exp → Exp → Exp
    cast : TypeId → Exp → Exp
    variable : TypeId → Var → Exp
    literal : TypeId → Literal → Exp
    call : TypeId → FuncId → Exps → Exp
    -- `new T`, and `new T[e]`
    new_object : TypeId → Exp
    new_array : TypeId → Exp → Exp
    null : TypeId → Exp

  pub data Var : Type 0 where
    direct : TypeId → CString → Var
    field : TypeId → Exp → ℕ → Var
    indexed : TypeId → Exp → Exp → Var

  pub data Cond : Type 0 where
    bin : BinCondKind → Bool → Cond → Cond → Cond
    compar : ComparKind → Bool → Exp → Exp → Cond

  pub data Exps : Type 0 where
    nil : Exps
    cons : Exp → Exps → Exps

-- `semantic.type` of an expression and of a variable
abbrev pub type_of : Exp → TypeId
type_of (Exp.conditional t b x y) = t
type_of (Exp.unop t k x) = t
type_of (Exp.binop t k x y) = t
type_of (Exp.cast t x) = t
type_of (Exp.variable t v) = t
type_of (Exp.literal t l) = t
type_of (Exp.call t f args) = t
type_of (Exp.new_object t) = t
type_of (Exp.new_array t x) = t
type_of (Exp.null t) = t

abbrev pub type_of_var : Var → TypeId
type_of_var (Var.direct t name) = t
type_of_var (Var.field t x i) = t
type_of_var (Var.indexed t x i) = t

-- `Mon_AstStatement` and `Mon_AstBlock`. A block has the flag `allPathsExit` that the analysis left.
mutual
  pub data Stmt : Type 0 where
    var_def : CString → TypeId → Stmt
    if_then : Cond → Block → Stmt
    if_else : Cond → Block → Block → Stmt
    while : Cond → Block → Stmt
    assignment : Var → Exp → Stmt
    return_empty : Stmt
    return_value : Exp → Stmt
    call : FuncId → Exps → Stmt
    inner : Block → Stmt
    echo : Exp → Stmt
    break : Stmt
    continue : Stmt

  pub data Block : Type 0 where
    block : Bool → Stmts → Block

  pub data Stmts : Type 0 where
    nil : Stmts
    cons : Stmt → Stmts → Stmts

abbrev pub all_paths_exit : Block → Bool
all_paths_exit (Block.block flag ss) = flag
