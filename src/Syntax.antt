-- ===== src/Syntax.antt =====
-- Expressions, statements and functions of the syntax tree, src/libmonga/include/ast. The types
-- that the analysis writes into expression nodes are the results of the model's functions.
use monga.Prelude.{ℕ, Bool, Option, List, CString}
use monga.Ast.{TypeId, UnopKind, BinopKind, ComparKind, BinCondKind}

-- `Mon_Literal`. The lexer makes no negative integer.
pub data Literal : Type 0 where
  int : ℕ → Literal
  float : Literal
  str : List ℕ → Literal
  char : ℕ → Literal

-- `Mon_AstExp`, `Mon_AstVar`, `Mon_AstCond` and the parameter list of `Mon_AstCall`
mutual
  pub data Exp : Type 0 where
    conditional : Cond → Exp → Exp → Exp
    unop : UnopKind → Exp → Exp
    binop : BinopKind → Exp → Exp → Exp
    cast : Exp → CString → Exp
    variable : Var → Exp
    literal : Literal → Exp
    call : CString → Exps → Exp
    -- `new T`, and `new T[e]`
    new_object : CString → Exp
    new_array : CString → Exp → Exp
    null : Exp

  pub data Var : Type 0 where
    direct : CString → Var
    field : Exp → CString → Var
    indexed : Exp → Exp → Var

  pub data Cond : Type 0 where
    bin : BinCondKind → Bool → Cond → Cond → Cond
    compar : ComparKind → Bool → Exp → Exp → Cond

  pub data Exps : Type 0 where
    nil : Exps
    cons : Exp → Exps → Exps

-- `Mon_AstVarDef`
pub record VarDef : Type 0 where
  pub var_name : CString
  pub type_name : CString

-- `Mon_AstStatement` and `Mon_AstBlock`. A block has its flag `allPathsExit` as it was allocated.
mutual
  pub data Stmt : Type 0 where
    var_def : VarDef → Stmt
    if_then : Cond → Block → Stmt
    if_else : Cond → Block → Block → Stmt
    while : Cond → Block → Stmt
    assignment : Var → Exp → Stmt
    return_empty : Stmt
    return_value : Exp → Stmt
    call : CString → Exps → Stmt
    inner : Block → Stmt
    echo : Exp → Stmt
    break : Stmt
    continue : Stmt

  pub data Block : Type 0 where
    block : Bool → Stmts → Block

  pub data Stmts : Type 0 where
    nil : Stmts
    cons : Stmt → Stmts → Stmts

-- `Mon_AstParam`
pub record Param : Type 0 where
  pub name : CString
  pub type_name : CString
  pub param_type : Option TypeId

-- `Mon_AstFuncDef`; an extern function has no body.
pub record FuncDef : Type 0 where
  pub func_name : CString
  pub ret_type_name : CString
  pub params : List Param
  pub body : Option Block
  pub return_type : Option TypeId
  pub is_entry_point : Bool
