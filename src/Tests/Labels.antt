-- ===== src/Tests/Labels.antt =====
-- A conditional with one branch that exits, and lookups (src/libmonga/codegen).
use monga.Prelude.{
  ℕ, ◌+◌, ◌≤◌, ◌≡◌, refl, Bool, true, false, Option, none, some, List, [], ◌∷◌, ◌++◌, get_elem?,
  codes, if◌then◌else◌, strcmp_eq,
}
use monga.Sem.Builtins.{t_int}
use monga.Codegen.Tree.{Stmt, Block, Stmts}
use monga.Codegen.Context.{
  Gen, ◌>>=◌, return, lift, fresh_local, fresh_label, emit, add_or_get_string_literal_id,
  push_local, find_local, drop_locals, reset_block_context, add_function_dependency, loops,
  set_loops, set_enclosing,
}
use monga.Codegen.Emit.{
  scalar_ref, type_to_type_ref_from, type_to_type_ref, emit_value, emit_assign, emit_store,
  emit_load, emit_conversion, emit_binop, emit_comparison, emit_cond_branch,
  emit_get_struct_element_ptr, emit_get_array_element_ptr, emit_phi, emit_args, emit_ret,
}
use monga.Codegen.Conversions.{
  convert_with, float_conversion, compile_float_to_float, compile_int_to_int, is_char_array,
  call_runtime, make_string, compile_numeric, convert_or, compile_conversion, get_default_value,
  floating_op, integer_op, op_of, integer_cmp, floating_cmp, other_cmp, cmp_of,
}
use monga.Codegen.Expressions.{
  apply_binop, apply_unop, array_size, allocate, finish_exp, emit_call, field_address, branch_on,
  compile_call, compile_exp, compile_var, compile_condition, compile_args,
}
use monga.Codegen.Statements.{
  compile_local, call_statement, echo_object, echo_as, echo_string, echo_char, echo_other,
  echo_value, compile_echo, compile_else, branch_unless, within_loop, compile_init, compile_end,
  compile_statement, compile_block, compile_statements,
}
use monga.Sem.Types.{
  next_of, next, follow_aliases, get_underlying_type, integer_code, floating_code, char_code,
  is_primitive, is_integer_type, is_floating_point_type, is_numeric_type, is_ref_type,
}
use monga.Sem.Types.Layout.{
  primitive_size_of, resolved_size, get_type_size, field_align, align_from, get_record_desc_align,
  pad_to, add_size, size_from, get_record_desc_size,
}
use monga.Codegen.Context.{Local, Value, Instr, push_local}
use monga.Codegen.Lookup.{find_local-push_local, add_or_get_string_literal_id-repeated}
use monga.Codegen.Numbering.{between, count, collect, marked, targets}
use monga.Codegen.Numbering.Statements.{even_block}
use monga.Codegen.Numbering.Unmarked.{compile_statement-unmarked}
use monga.Tests.Codegen.{idle, small, no_label}

-- { return; }, and an empty block
abbrev leaves : Block
leaves = Block.block true (Stmts.cons Stmt.return_empty Stmts.nil)

abbrev stays : Block
stays = Block.block false Stmts.nil

abbrev after : Option (Bool × Gen) → Gen
after none = idle
after (some (returns, g)) = g

unfoldable half_after : Gen
half_after = after (compile_statement (Stmt.if_else small leaves stays) idle)

half_compiled : compile_statement (Stmt.if_else small leaves stays) idle ≡ some (false, half_after)
unfolding strcmp_eq half_after ◌>>=◌ return lift fresh_local fresh_label emit
    add_or_get_string_literal_id push_local find_local drop_locals reset_block_context
    add_function_dependency loops set_loops set_enclosing scalar_ref type_to_type_ref_from
    type_to_type_ref emit_value emit_assign emit_store emit_load emit_conversion emit_binop
    emit_comparison emit_cond_branch emit_get_struct_element_ptr emit_get_array_element_ptr emit_phi
    emit_args emit_ret convert_with float_conversion compile_float_to_float compile_int_to_int
    is_char_array call_runtime make_string compile_numeric convert_or compile_conversion
    get_default_value floating_op integer_op op_of integer_cmp floating_cmp other_cmp cmp_of
    apply_binop apply_unop array_size allocate finish_exp emit_call field_address branch_on
    compile_call compile_exp compile_var compile_condition compile_args compile_local call_statement
    echo_object echo_as echo_string echo_char echo_other echo_value compile_echo compile_else
    branch_unless within_loop compile_init compile_end compile_statement compile_block
    compile_statements next_of next follow_aliases get_underlying_type integer_code floating_code
    char_code is_primitive is_integer_type is_floating_point_type is_numeric_type is_ref_type
    primitive_size_of resolved_size get_type_size field_align align_from get_record_desc_align
    pad_to add_size size_from get_record_desc_size
half_compiled = refl

leaves_even : even_block leaves ≡ true
unfolding even_block
leaves_even = refl

stays_even : even_block stays ≡ true
unfolding even_block
stays_even = refl

compile_statement-unmarked_example :
    (n : ℕ) × (more : List Instr) × (half_after.code ≡ [] ++ more)
    × (1 ≤ count n (collect targets more))
    × (count n (collect marked more) ≡ 0)
    × (between 3 half_after.next_label n ≡ 1)
compile_statement-unmarked_example =
    compile_statement-unmarked small leaves stays idle half_after false refl leaves_even stays_even
      (no_label 3) (no_label 3) half_compiled

abbrev greeted : Gen
greeted = record idle { string_literals = codes "hi" ∷ [] }

first_hi : add_or_get_string_literal_id (codes "hi") idle ≡ some (0, greeted)
unfolding add_or_get_string_literal_id strcmp_eq
first_hi = refl

second_hi : add_or_get_string_literal_id (codes "hi") greeted ≡ some (1, greeted)
unfolding add_or_get_string_literal_id strcmp_eq
second_hi = refl

add_or_get_string_literal_id-repeated_example :
    (get_elem? greeted.string_literals 0 ≡ some (codes "hi")) × (1 ≡ 0 + 1)
add_or_get_string_literal_id-repeated_example =
    add_or_get_string_literal_id-repeated (codes "hi") idle greeted greeted 0 1 refl first_hi
      second_hi

abbrev x_local : Local
x_local = record { var_name = codes "x"; var_type = t_int; location = Value.local 4 }

abbrev with_x : Gen
with_x = record idle { locals = x_local ∷ [] }

x_pushed : push_local (codes "x") t_int (Value.local 4) idle ≡ some (tt, with_x)
unfolding push_local
x_pushed = refl

x_missing : find_local (codes "x") idle ≡ some (none, idle)
unfolding find_local
x_missing = refl

x_found : find_local (codes "x") with_x ≡ some (some x_local, with_x)
unfolding find_local strcmp_eq
x_found = refl

find_local-push_local_example :
    some x_local ≡ (if strcmp_eq (codes "x") (codes "x") then some x_local else none)
find_local-push_local_example =
    find_local-push_local (codes "x") (codes "x") t_int (Value.local 4) idle with_x (some x_local)
      none x_pushed x_missing x_found
