-- ===== src/Tests/Codegen.antt =====
-- The code of a small function (src/libmonga/codegen).
use monga.Prelude.{
  ℕ, ◌<◌, ◌≡◌, refl, true, false, Option, none, some, [], ◌∷◌, ◌++◌, codes, strcmp_eq,
}
use monga.Ast.{ComparKind, BinCondKind, BinopKind}
use monga.Syntax.{Literal, FuncDef, Param}
use monga.Sem.Builtins.{builtin_types, t_int, t_long, t_void, t_string}
use monga.Codegen.Tree.{Exp, Var, Cond, Stmt, Block, Stmts}
use monga.Codegen.Context.{
  Gen, ◌>>=◌, return, lift, fresh_local, fresh_label, emit, add_or_get_string_literal_id,
  push_local, find_local, drop_locals, reset_block_context, add_function_dependency, loops,
  set_loops, set_enclosing,
}
use monga.Codegen.Emit.{
  scalar_ref, type_to_type_ref_from, type_to_type_ref, emit_value, emit_assign, emit_store,
  emit_load, emit_conversion, emit_binop, emit_comparison, emit_cond_branch,
  emit_get_struct_element_ptr, emit_get_array_element_ptr, emit_phi, emit_args, emit_ret,
}
use monga.Codegen.Conversions.{
  convert_with, float_conversion, compile_float_to_float, compile_int_to_int, is_char_array,
  call_runtime, make_string, compile_numeric, convert_or, compile_conversion, get_default_value,
  floating_op, integer_op, op_of, integer_cmp, floating_cmp, other_cmp, cmp_of,
}
use monga.Codegen.Expressions.{
  apply_binop, apply_unop, array_size, allocate, finish_exp, emit_call, field_address, branch_on,
  compile_call, compile_exp, compile_var, compile_condition, compile_args,
}
use monga.Codegen.Statements.{
  compile_local, call_statement, echo_object, echo_as, echo_string, echo_char, echo_other,
  echo_value, compile_echo, compile_else, branch_unless, within_loop, compile_params, compile_init,
  compile_end, compile_function_body, compile_statement, compile_block, compile_statements,
}
use monga.Sem.Types.{
  next_of, next, follow_aliases, get_underlying_type, integer_code, floating_code, char_code,
  is_primitive, is_integer_type, is_floating_point_type, is_numeric_type, is_ref_type,
}
use monga.Sem.Types.Layout.{
  primitive_size_of, resolved_size, get_type_size, field_align, align_from, get_record_desc_align,
  pad_to, add_size, size_from, get_record_desc_size,
}
use monga.Codegen.Numbering.{collect, marked}
use monga.Codegen.Numbering.Statements.{even_block}
use monga.Codegen.Numbering.Locals.{compile_block-locals}
use monga.Codegen.Numbering.Functions.{WellNumbered, compile_function_body-WellNumbered}

abbrev param : Param
param = record { name = codes "n"; type_name = codes "int"; param_type = some t_int }

-- twice(n: int): void
abbrev pub twice : FuncDef
twice = record {
  func_name = codes "twice";
  ret_type_name = codes "void";
  params = param ∷ [];
  body = none;
  return_type = some t_void;
  is_entry_point = false;
}

abbrev pub idle : Gen
idle = record {
  types = builtin_types;
  funcs = twice ∷ [];
  internal_functions = 0 ∷ [];
  function_dependencies = [];
  enclosing_function = none;
  string_literals = [];
  loop_end = none;
  loop_check = none;
  locals = [];
  next_local_id = 7;
  next_label = 3;
  code = [];
}

abbrev pub n : Exp
n = Exp.variable t_int (Var.direct t_int (codes "n"))

abbrev pub small : Cond
small = Cond.compar ComparKind.lt false n (Exp.literal t_long (Literal.int 9))

-- n < 9 and not (n < 9)
abbrev both : Cond
both =
    Cond.bin BinCondKind.and false small
      (Cond.compar ComparKind.lt true n (Exp.literal t_int (Literal.int 9)))

-- var m: int;  while (n < 9 && !(n < 9)) { if (n < 9) { break; } n = n + n; }  echo "hi";
abbrev twice_body : Block
twice_body = Block.block false (
    Stmts.cons (Stmt.var_def (codes "m") t_int) (
      Stmts.cons
        (Stmt.while both (
          Block.block false (
            Stmts.cons (Stmt.if_then small (Block.block true (Stmts.cons Stmt.break Stmts.nil))) (
              Stmts.cons
                (Stmt.assignment (Var.direct t_int (codes "n")) (Exp.binop t_int BinopKind.add n n))
                Stmts.nil))))
        (Stmts.cons (Stmt.echo (Exp.literal t_string (Literal.str (codes "hi")))) Stmts.nil)))

-- The context behind a step that returned.
abbrev after : Option (Unit {0} × Gen) → Gen
after none = idle
after (some (u, g)) = g

unfoldable twice_after : Gen
twice_after = after (compile_function_body 0 twice_body idle)

twice_compiled : compile_function_body 0 twice_body idle ≡ some (tt, twice_after)
unfolding strcmp_eq twice_after ◌>>=◌ return lift fresh_local fresh_label emit
    add_or_get_string_literal_id push_local find_local drop_locals reset_block_context
    add_function_dependency loops set_loops set_enclosing scalar_ref type_to_type_ref_from
    type_to_type_ref emit_value emit_assign emit_store emit_load emit_conversion emit_binop
    emit_comparison emit_cond_branch emit_get_struct_element_ptr emit_get_array_element_ptr emit_phi
    emit_args emit_ret convert_with float_conversion compile_float_to_float compile_int_to_int
    is_char_array call_runtime make_string compile_numeric convert_or compile_conversion
    get_default_value floating_op integer_op op_of integer_cmp floating_cmp other_cmp cmp_of
    apply_binop apply_unop array_size allocate finish_exp emit_call field_address branch_on
    compile_call compile_exp compile_var compile_condition compile_args compile_local call_statement
    echo_object echo_as echo_string echo_char echo_other echo_value compile_echo compile_else
    branch_unless within_loop compile_params compile_init compile_end compile_function_body
    compile_statement compile_block compile_statements next_of next follow_aliases
    get_underlying_type integer_code floating_code char_code is_primitive is_integer_type
    is_floating_point_type is_numeric_type is_ref_type primitive_size_of resolved_size get_type_size
    field_align align_from get_record_desc_align pad_to add_size size_from get_record_desc_size
twice_compiled = refl

twice_even : even_block twice_body ≡ true
unfolding even_block
twice_even = refl

compile_function_body-WellNumbered_example :
    (more : _) × (twice_after.code ≡ [] ++ more) × WellNumbered more
compile_function_body-WellNumbered_example =
    compile_function_body-WellNumbered 0 twice_body idle twice_after twice_even refl refl
      twice_compiled

unfoldable block_after : Gen
block_after = after (compile_block twice_body idle)

block_compiled : compile_block twice_body idle ≡ some (tt, block_after)
unfolding strcmp_eq block_after ◌>>=◌ return lift fresh_local fresh_label emit
    add_or_get_string_literal_id push_local find_local drop_locals reset_block_context
    add_function_dependency loops set_loops set_enclosing scalar_ref type_to_type_ref_from
    type_to_type_ref emit_value emit_assign emit_store emit_load emit_conversion emit_binop
    emit_comparison emit_cond_branch emit_get_struct_element_ptr emit_get_array_element_ptr emit_phi
    emit_args emit_ret convert_with float_conversion compile_float_to_float compile_int_to_int
    is_char_array call_runtime make_string compile_numeric convert_or compile_conversion
    get_default_value floating_op integer_op op_of integer_cmp floating_cmp other_cmp cmp_of
    apply_binop apply_unop array_size allocate finish_exp emit_call field_address branch_on
    compile_call compile_exp compile_var compile_condition compile_args compile_local call_statement
    echo_object echo_as echo_string echo_char echo_other echo_value compile_echo compile_else
    branch_unless within_loop compile_params compile_init compile_end compile_function_body
    compile_statement compile_block compile_statements next_of next follow_aliases
    get_underlying_type integer_code floating_code char_code is_primitive is_integer_type
    is_floating_point_type is_numeric_type is_ref_type primitive_size_of resolved_size get_type_size
    field_align align_from get_record_desc_align pad_to add_size size_from get_record_desc_size
block_compiled = refl

pub no_label : (n k : ℕ) → ◌≡◌ {A = Option ℕ} none (some k) → k < n
no_label n k e = cc

compile_block-locals_example : block_after.locals ≡ idle.locals
compile_block-locals_example =
    compile_block-locals twice_body idle block_after (no_label 3) (no_label 3) block_compiled

-- The labels of the loop and of what is in it, in the order in which they are marked.
twice_labels : collect marked twice_after.code ≡ 3 ∷ 1 ∷ 4 ∷ 5 ∷ 2 ∷ 6 ∷ 0 ∷ []
unfolding collect marked strcmp_eq twice_after ◌>>=◌ return lift fresh_local fresh_label emit
    add_or_get_string_literal_id push_local find_local drop_locals reset_block_context
    add_function_dependency loops set_loops set_enclosing scalar_ref type_to_type_ref_from
    type_to_type_ref emit_value emit_assign emit_store emit_load emit_conversion emit_binop
    emit_comparison emit_cond_branch emit_get_struct_element_ptr emit_get_array_element_ptr emit_phi
    emit_args emit_ret convert_with float_conversion compile_float_to_float compile_int_to_int
    is_char_array call_runtime make_string compile_numeric convert_or compile_conversion
    get_default_value floating_op integer_op op_of integer_cmp floating_cmp other_cmp cmp_of
    apply_binop apply_unop array_size allocate finish_exp emit_call field_address branch_on
    compile_call compile_exp compile_var compile_condition compile_args compile_local call_statement
    echo_object echo_as echo_string echo_char echo_other echo_value compile_echo compile_else
    branch_unless within_loop compile_params compile_init compile_end compile_function_body
    compile_statement compile_block compile_statements next_of next follow_aliases
    get_underlying_type integer_code floating_code char_code is_primitive is_integer_type
    is_floating_point_type is_numeric_type is_ref_type primitive_size_of resolved_size get_type_size
    field_align align_from get_record_desc_align pad_to add_size size_from get_record_desc_size
twice_labels = refl
