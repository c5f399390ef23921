-- ===== src/Tests/Modules.antt =====
-- The code of a module with a function that calls another (src/libmonga/codegen).
use monga.Prelude.{◌≤◌, ◌≡◌, refl, true, false, Option, none, some, List, [], ◌∷◌, codes, strcmp_eq}
use monga.Ast.{FuncId}
use monga.Syntax.{FuncDef}
use monga.Sem.Builtins.{builtin_types, t_int}
use monga.Codegen.Tree.{Exps, Stmt, Block, Stmts}
use monga.Codegen.Context.{
  Gen, ◌>>=◌, return, lift, fresh_local, fresh_label, emit, add_or_get_string_literal_id,
  push_local, find_local, drop_locals, reset_block_context, add_function_dependency, loops,
  set_loops, set_enclosing,
}
use monga.Codegen.Emit.{
  scalar_ref, type_to_type_ref_from, type_to_type_ref, emit_value, emit_assign, emit_store,
  emit_load, emit_conversion, emit_binop, emit_comparison, emit_cond_branch,
  emit_get_struct_element_ptr, emit_get_array_element_ptr, emit_phi, emit_args, emit_ret,
}
use monga.Codegen.Conversions.{
  convert_with, float_conversion, compile_float_to_float, compile_int_to_int, is_char_array,
  call_runtime, make_string, compile_numeric, convert_or, compile_conversion, get_default_value,
  floating_op, integer_op, op_of, integer_cmp, floating_cmp, other_cmp, cmp_of,
}
use monga.Codegen.Expressions.{
  apply_binop, apply_unop, array_size, allocate, finish_exp, emit_call, field_address, branch_on,
  compile_call, compile_exp, compile_var, compile_condition, compile_args,
}
use monga.Codegen.Statements.{
  compile_local, call_statement, echo_object, echo_as, echo_string, echo_char, echo_other,
  echo_value, compile_echo, compile_else, branch_unless, within_loop, compile_params, compile_init,
  compile_end, compile_function_body, compile_statement, compile_block, compile_statements,
}
use monga.Sem.Types.{
  next_of, next, follow_aliases, get_underlying_type, integer_code, floating_code, char_code,
  is_primitive, is_integer_type, is_floating_point_type, is_numeric_type, is_ref_type,
}
use monga.Sem.Types.Layout.{
  primitive_size_of, resolved_size, get_type_size, field_align, align_from, get_record_desc_align,
  pad_to, add_size, size_from, get_record_desc_size,
}
use monga.Codegen.Context.{Instr, register_internal_function}
use monga.Codegen.Module.{
  Definition, initial_context, register_functions, lines_of, compile_global_var,
  compile_definitions, generate_llvm,
}
use monga.Codegen.Module.Declared.{AllNumbered, defined, even_bodies, generate_llvm-AllNumbered}
use monga.Codegen.Numbering.{count}
use monga.Codegen.Numbering.Statements.{even_block}
use monga.Tests.Codegen.{twice, n}

-- An extern function, show(n: int): int
abbrev show : FuncDef
show = record twice {
  func_name = codes "show";
  ret_type_name = codes "int";
  return_type = some t_int;
}

-- show(n); show(n); twice(n);
abbrev calls : Block
calls = Block.block false (
    Stmts.cons (Stmt.call 1 (Exps.cons n Exps.nil)) (
      Stmts.cons (Stmt.call 1 (Exps.cons n Exps.nil))
        (Stmts.cons (Stmt.call 0 (Exps.cons n Exps.nil)) Stmts.nil)))

abbrev module_defs : List Definition
module_defs =
    Definition.type_def 3
    ∷ Definition.variable (codes "total") t_int
    ∷ Definition.function 1 none
    ∷ Definition.function 0 (some calls)
    ∷ []

abbrev result_of : Option (List (FuncId × List Instr) × Gen) → List (FuncId × List Instr) × Gen
result_of none = ([], initial_context [] [])
result_of (some r) = r

unfoldable module_result : List (FuncId × List Instr) × Gen
module_result = result_of (generate_llvm builtin_types (twice ∷ show ∷ []) module_defs)

module_generated :
    generate_llvm builtin_types (twice ∷ show ∷ []) module_defs
    ≡ some (module_result.0, module_result.1)
unfolding strcmp_eq module_result ◌>>=◌ return lift fresh_local fresh_label emit
    add_or_get_string_literal_id push_local find_local drop_locals reset_block_context
    add_function_dependency loops set_loops set_enclosing scalar_ref type_to_type_ref_from
    type_to_type_ref emit_value emit_assign emit_store emit_load emit_conversion emit_binop
    emit_comparison emit_cond_branch emit_get_struct_element_ptr emit_get_array_element_ptr emit_phi
    emit_args emit_ret convert_with float_conversion compile_float_to_float compile_int_to_int
    is_char_array call_runtime make_string compile_numeric convert_or compile_conversion
    get_default_value floating_op integer_op op_of integer_cmp floating_cmp other_cmp cmp_of
    apply_binop apply_unop array_size allocate finish_exp emit_call field_address branch_on
    compile_call compile_exp compile_var compile_condition compile_args compile_local call_statement
    echo_object echo_as echo_string echo_char echo_other echo_value compile_echo compile_else
    branch_unless within_loop compile_params compile_init compile_end compile_function_body
    compile_statement compile_block compile_statements next_of next follow_aliases
    get_underlying_type integer_code floating_code char_code is_primitive is_integer_type
    is_floating_point_type is_numeric_type is_ref_type primitive_size_of resolved_size get_type_size
    field_align align_from get_record_desc_align pad_to add_size size_from get_record_desc_size
    register_internal_function register_functions lines_of compile_global_var compile_definitions
    generate_llvm
module_generated = refl

module_even : even_bodies module_defs ≡ true
unfolding even_block
module_even = refl

-- Only the extern function is declared, once.
module_declares : module_result.1.function_dependencies ≡ 1 ∷ []
unfolding strcmp_eq module_result ◌>>=◌ return lift fresh_local fresh_label emit
    add_or_get_string_literal_id push_local find_local drop_locals reset_block_context
    add_function_dependency loops set_loops set_enclosing scalar_ref type_to_type_ref_from
    type_to_type_ref emit_value emit_assign emit_store emit_load emit_conversion emit_binop
    emit_comparison emit_cond_branch emit_get_struct_element_ptr emit_get_array_element_ptr emit_phi
    emit_args emit_ret convert_with float_conversion compile_float_to_float compile_int_to_int
    is_char_array call_runtime make_string compile_numeric convert_or compile_conversion
    get_default_value floating_op integer_op op_of integer_cmp floating_cmp other_cmp cmp_of
    apply_binop apply_unop array_size allocate finish_exp emit_call field_address branch_on
    compile_call compile_exp compile_var compile_condition compile_args compile_local call_statement
    echo_object echo_as echo_string echo_char echo_other echo_value compile_echo compile_else
    branch_unless within_loop compile_params compile_init compile_end compile_function_body
    compile_statement compile_block compile_statements next_of next follow_aliases
    get_underlying_type integer_code floating_code char_code is_primitive is_integer_type
    is_floating_point_type is_numeric_type is_ref_type primitive_size_of resolved_size get_type_size
    field_align align_from get_record_desc_align pad_to add_size size_from get_record_desc_size
    register_internal_function register_functions lines_of compile_global_var compile_definitions
    generate_llvm
module_declares = refl

generate_llvm-AllNumbered_example :
    AllNumbered module_result.0
    × ((f : FuncId) → count f module_result.1.function_dependencies ≤ 1)
    × ((f : FuncId)
        → 1 ≤ count f (defined module_defs)
        → count f module_result.1.function_dependencies ≡ 0)
generate_llvm-AllNumbered_example =
    generate_llvm-AllNumbered builtin_types (twice ∷ show ∷ []) module_defs module_result.0
      module_result.1 module_even module_generated
