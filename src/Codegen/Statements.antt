-- ===== src/Codegen/Statements.antt =====
-- `CompileStatement`, `CompileIf`, `CompileWhile`, `CompileBlock`, `CompileEcho`, `CompileLocal` and
-- `CompileFunctionImpl` of src/libmonga/codegen/llvmgen.c.
use monga.Prelude.{
  ℕ, suc, Bool, true, false, not, ◌&&◌, Option, none, some, List, [], ◌∷◌, ◌==◌, if◌then◌else◌,
  length, get_elem?, CString, codes,
}
use monga.Ast.{TypeId, FuncId, TypeDesc, array_desc}
use monga.Syntax.{Param}
use monga.Sem.Builtins.{t_void, t_byte, t_char, t_long, t_double, t_string}
use monga.Sem.Types.{Resolved, is_ref_type, is_floating_point_type, is_primitive, char_code}
use monga.Codegen.Tree.{Stmt, Block, Stmts, Exp, type_of, type_of_var, all_paths_exit}
use monga.Codegen.Context.{
  TypeRef, Value, Conversion, Rhs, Instr, G, ◌>>=◌, ◌>>◌, return, lift, unreachable, fresh_label,
  emit, push_local, drop_locals, reset_block_context, loops, set_loops, set_enclosing,
}
use monga.Codegen.Emit.{
  type_to_type_ref, emit_value, emit_assign, emit_store, emit_conversion, emit_label, emit_branch,
  emit_ret,
}
use monga.Codegen.Conversions.{
  underlying, compile_conversion, is_char_array, make_string, get_default_value,
}
use monga.Codegen.Expressions.{compile_exp, compile_var, compile_condition, compile_call}

-- `CompileLocal`. The location is printed before the local is pushed; neither step sees the other.
unfoldable pub compile_local : CString → TypeId → G Value
unfolding type_to_type_ref emit_assign push_local
compile_local name t = do
  ref ← type_to_type_ref t 0
  v ← emit_assign (Rhs.alloca ref)
  push_local name t v
  return v

-- A call of a function of the runtime that returns void, with one argument.
unfoldable pub call_statement : CString → TypeRef → Value → G (Unit {0})
unfolding type_to_type_ref emit_value emit
call_statement name t v = do
  result ← type_to_type_ref t_void 0
  a ← emit_value v
  emit (Instr.call result name ((t, a) ∷ []))

abbrev pub is_array : TypeDesc → Bool
is_array (array_desc inner u) = true
is_array _ = false

-- `CompileEcho` of an object that is no string.
unfoldable pub echo_object : Resolved → Value → G (Unit {0})
unfolding type_to_type_ref emit_conversion call_statement
echo_object r v = do
  t ← type_to_type_ref r.id 0
  bytes ← type_to_type_ref t_byte 1
  pointer ← emit_conversion Conversion.bitcast t v bytes
  call_statement
      (if is_array r.desc then codes "RtInternal_EchoArray" else codes "RtInternal_EchoObject")
      bytes pointer

-- `CompileEcho` of a value that is converted to the type of the parameter.
unfoldable pub echo_as : CString → TypeId → TypeId → Value → G (Unit {0})
unfolding compile_conversion type_to_type_ref call_statement
echo_as name t u v = do
  w ← compile_conversion t v u
  ref ← type_to_type_ref u 0
  call_statement name ref w

unfoldable pub echo_string : Value → G (Unit {0})
unfolding type_to_type_ref call_statement
echo_string v = do
  t ← type_to_type_ref t_string 0
  call_statement (codes "RtInternal_EchoString") t v

unfoldable pub echo_char : Value → G (Unit {0})
unfolding type_to_type_ref call_statement
echo_char v = do t ← type_to_type_ref t_char 0; call_statement (codes "RtInternal_EchoChar") t v

unfoldable pub echo_other : Resolved → Value → G (Unit {0})
unfolding echo_object echo_as echo_char
echo_other r v =
    if is_ref_type r
    then echo_object r v
    else if not (is_primitive r.desc)
    then unreachable
    else if char_code r.desc
    then echo_char v
    else if is_floating_point_type r
    then echo_as (codes "RtInternal_EchoReal") r.id t_double v
    else echo_as (codes "RtInternal_EchoInteger") r.id t_long v

unfoldable pub echo_value : Resolved → Bool → Value → G (Unit {0})
unfolding make_string echo_string echo_other
echo_value r chars v =
    if r.id == t_string
    then echo_string v
    else if chars
    then make_string v >>= echo_string
    else echo_other r v

-- `CompileEcho`
unfoldable pub compile_echo : Exp → G (Unit {0})
unfolding compile_exp is_char_array echo_value
compile_echo x = do
  v ← compile_exp x (type_of x)
  r ← underlying (type_of x)
  chars ← (if r.id == t_string then return false else is_char_array r.desc)
  echo_value r chars v

-- The end of `CompileIf` with an else block, by the two flags `allPathsExit`.
unfoldable pub compile_else : Bool → Bool → ℕ → G (Unit {0}) → G Bool
unfolding fresh_label emit
compile_else true true else_label y = do emit_label else_label; y; return true
compile_else true false else_label y = do
  end_label ← fresh_label
  emit_label else_label
  y
  emit_branch end_label
  return false
compile_else false true else_label y = do
  end_label ← fresh_label
  emit_branch end_label
  emit_label else_label
  y
  return false
compile_else false false else_label y = do
  end_label ← fresh_label
  emit_branch end_label
  emit_label else_label
  y
  emit_branch end_label
  emit_label end_label
  return false

-- A branch unless the block before it exits on all paths.
unfoldable pub branch_unless : Bool → ℕ → G (Unit {0})
unfolding emit
branch_unless true l = return tt
branch_unless false l = emit_branch l

-- The body of a loop, with its labels as the enclosing ones.
unfoldable pub within_loop : ℕ → ℕ → G (Unit {0}) → G (Unit {0})
unfolding loops set_loops
within_loop end check m = do
  (prev_end, prev_check) ← loops
  set_loops (some end) (some check)
  m
  set_loops prev_end prev_check

-- The number of locals.
abbrev pub local_count : G ℕ
local_count = lift (λ g. some (length g.locals))

unfoldable mutual
  unfolding compile_local compile_echo compile_else branch_unless within_loop compile_exp
      compile_var compile_condition compile_call get_default_value emit_store emit_ret fresh_label
      emit drop_locals type_to_type_ref

  -- `CompileStatement`, with `CompileIf` and `CompileWhile`: whether the statement always returns.
  pub compile_statement : Stmt → G Bool
  compile_statement (Stmt.var_def name t) = do
    address ← compile_local name t
    ref ← type_to_type_ref t 0
    v ← get_default_value t
    emit_store ref address v
    return false
  compile_statement (Stmt.if_then b x) = do
    then_label ← fresh_label
    else_label ← fresh_label
    compile_condition b then_label else_label
    emit_label then_label
    compile_block x
    branch_unless (all_paths_exit x) else_label
    emit_label else_label
    return false
  compile_statement (Stmt.if_else b x y) = do
    then_label ← fresh_label
    else_label ← fresh_label
    compile_condition b then_label else_label
    emit_label then_label
    compile_block x
    compile_else (all_paths_exit x) (all_paths_exit y) else_label (compile_block y)
  compile_statement (Stmt.while b x) = do
    end_label ← fresh_label
    body_label ← fresh_label
    check_label ← fresh_label
    compile_condition b body_label end_label
    emit_label body_label
    within_loop end_label check_label (compile_block x)
    branch_unless (all_paths_exit x) check_label
    emit_label check_label
    compile_condition b body_label end_label
    emit_label end_label
    return false
  compile_statement (Stmt.assignment v x) = do
    address ← compile_var v
    value ← compile_exp x (type_of_var v)
    ref ← type_to_type_ref (type_of_var v) 0
    emit_store ref address value
    return false
  compile_statement Stmt.return_empty = do emit Instr.ret_void; return true
  compile_statement (Stmt.return_value x) = do
    t ← lift (λ g. elim g.enclosing_function [ none ↦ none | some def ↦ def.return_type ])
    v ← compile_exp x t
    ref ← type_to_type_ref t 0
    emit_ret ref v
    return true
  compile_statement (Stmt.call f args) = do v ← compile_call f args; return false
  compile_statement (Stmt.inner x) = do compile_block x; return false
  compile_statement (Stmt.echo x) = do compile_echo x; return false
  compile_statement Stmt.break = do l ← lift (λ g. g.loop_end); emit_branch l; return false
  compile_statement Stmt.continue = do l ← lift (λ g. g.loop_check); emit_branch l; return false

  -- `CompileBlock`
  pub compile_block : Block → G (Unit {0})
  compile_block (Block.block flag ss) = do top ← local_count; compile_statements ss; drop_locals top

  -- The loop over the statements, which ends after one that always returns.
  pub compile_statements : Stmts → G (Unit {0})
  compile_statements Stmts.nil = return tt
  compile_statements (Stmts.cons s ss) = do
    returns ← compile_statement s
    elim returns [ true ↦ return tt | false ↦ compile_statements ss ]

-- The loop over the parameters, which stores each in a local.
unfoldable pub compile_params : List Param → ℕ → G (Unit {0})
unfolding compile_local type_to_type_ref emit_store
compile_params [] i = return tt
compile_params (p ∷ params) i = do
  t ← lift (λ g. p.param_type)
  v ← compile_local p.name t
  ref ← type_to_type_ref t 0
  emit_store ref v (Value.ssa i)
  compile_params params (suc i)

-- The call of the runtime's initialization in the entry point.
unfoldable pub compile_init : Bool → G (Unit {0})
unfolding emit
compile_init false = return tt
compile_init true = emit (
    Instr.call (record { ref_name = codes "void"; indirection = 0; is_builtin = true })
      (codes "RtInternal_Init") [])

-- The return at the end of a function that returns void.
unfoldable pub compile_end : Option TypeId → Bool → G (Unit {0})
unfolding emit
compile_end none exits = return tt
compile_end (some t) exits = if (t == t_void) && not exits then emit Instr.ret_void else return tt

-- `CompileFunctionImpl` of a function with a body, from its braces on.
unfoldable pub compile_function_body : FuncId → Block → G (Unit {0})
unfolding compile_params compile_init compile_block compile_end reset_block_context set_enclosing
compile_function_body f x = do
  def ← lift (λ g. get_elem? g.funcs f)
  reset_block_context
  compile_params def.params 0
  compile_init def.is_entry_point
  set_enclosing (some def)
  compile_block x
  set_enclosing none
  compile_end def.return_type (all_paths_exit x)
