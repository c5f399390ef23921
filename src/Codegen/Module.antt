-- ===== src/Codegen/Module.antt =====
-- `Mon_GenerateLLVM` of src/libmonga/codegen/llvmgen.c: the code of the functions of a module, and the
-- functions that it declares. What is written before and between them is left out.
pub mod Declared
use monga.Prelude.{ℕ, ◌≡◌, Option, none, some, List, [], ◌∷◌, CString}
use monga.Ast.{TypeId, FuncId, TypeDef}
use monga.Syntax.{FuncDef}
use monga.Codegen.Tree.{Block}
use monga.Codegen.Context.{Operand, Instr, Gen, G, ◌>>=◌, ◌>>◌, return, register_internal_function}
use monga.Codegen.Emit.{type_to_type_ref, emit_value}
use monga.Codegen.Conversions.{get_default_value}
use monga.Codegen.Statements.{compile_function_body}

-- `Mon_AstDef_` with analysed trees
pub data Definition : Type 0 where
  variable : CString → TypeId → Definition
  function : FuncId → Option Block → Definition
  type_def : TypeId → Definition

-- The context that `InitializeLlvmContext` sets up.
abbrev pub initial_context : List TypeDef → List FuncDef → Gen
initial_context types funcs = record {
  types = types;
  funcs = funcs;
  internal_functions = [];
  function_dependencies = [];
  enclosing_function = none;
  string_literals = [];
  loop_end = none;
  loop_check = none;
  locals = [];
  next_local_id = 0;
  next_label = 0;
  code = [];
}

-- The loop that registers the functions with a body.
unfoldable pub register_functions : List Definition → G (Unit {0})
unfolding register_internal_function
register_functions [] = return tt
register_functions (Definition.variable name t ∷ defs) = register_functions defs
register_functions (Definition.type_def t ∷ defs) = register_functions defs
register_functions (Definition.function f none ∷ defs) = register_functions defs
register_functions (Definition.function f (some x) ∷ defs) = do
  register_internal_function f
  register_functions defs

-- The lines that a step adds, apart from all others.
unfoldable pub lines_of : G (Unit {0}) → G (List Instr)
lines_of m g = elim (m (record g { code = [] })) [
  | none ↦ none
  | some (u, g') ↦ some (g'.code, record g' { code = [] })
]

-- The operand of a global variable's definition: `CompileGlobalVar`.
unfoldable pub compile_global_var : TypeId → G Operand
unfolding type_to_type_ref get_default_value emit_value
compile_global_var t = do ref ← type_to_type_ref t 0; v ← get_default_value t; emit_value v

-- The loop over the definitions: `CompileDefinition`.
unfoldable pub compile_definitions : List Definition → G (List (FuncId × List Instr))
unfolding lines_of compile_function_body compile_global_var
compile_definitions [] = return []
compile_definitions (Definition.variable name t ∷ defs) = do
  value ← compile_global_var t
  compile_definitions defs
compile_definitions (Definition.type_def t ∷ defs) = compile_definitions defs
compile_definitions (Definition.function f none ∷ defs) = compile_definitions defs
compile_definitions (Definition.function f (some x) ∷ defs) = do
  lines ← lines_of (compile_function_body f x)
  rest ← compile_definitions defs
  return ((f, lines) ∷ rest)

-- `Mon_GenerateLLVM`
unfoldable pub generate_llvm :
    List TypeDef → List FuncDef → List Definition → Option (List (FuncId × List Instr) × Gen)
unfolding register_functions compile_definitions
generate_llvm types funcs defs =
    (register_functions defs >> compile_definitions defs) (initial_context types funcs)
