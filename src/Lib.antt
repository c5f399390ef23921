-- ===== src/Lib.antt =====
-- Monga, a compiler for a small imperative language, and parts of its library libmonga.
--
-- The compiler parses each module of a program into a tree (src/libmonga/grammar.y, lex.l, ast/),
-- resolves names and types in it (src/libmonga/sem.c with sem/), and generates LLVM code from it
-- (codegen/). The analysis keeps a stack of scopes, each a vector of symbols, and a pointer from each
-- node to the type definition that it found; sem/types.c decides on such pointers which values may be
-- assigned, converted, compared and computed with, and how large records are.
--
-- Which file models what, paths of C files from src/libmonga/:
--   Error, Alloc        Mon_RetCode of include/mon_error.h, Mon_Allocator of include/mon_alloc.h.
--   Vector              vector.c: init, get, push, remove, remove_last, is_empty, clear, claim,
--                       get_index and contains are Mon_VectorInit and so on. A buffer is a list of
--                       cells of which some were never written.
--   DefGroup            defgroup.c: reg and find_def are Mon_DefGroupReg and Mon_DefGroupFind.
--   StrUtils            strutils.c: duplicate_string, convert_control_character and
--                       process_string_literal are the functions of these names.
--   Ast, Syntax         include/ast/: type descriptions and definitions; expressions, variables,
--                       conditions, statements, blocks and functions.
--   Sem/Builtins        the table of sem/builtins.c.
--   Sem/Types           sem/types.c up to IsTypeAssignableFrom, and IsRefType, IsStructuredType.
--   Sem/Types/Ops       casts, operators, comparisons, fields and indexing of sem/types.c.
--   Sem/Types/Layout    GetRecordDescAlign, GetRecordDescSize and GetTypeSize of sem/types.c, and
--                       Mon_GetPrimitiveSize of ast/typedesc.c.
--   Sem/Scope           sem/scope.c and sem/symbol.c: lookup and registration.
--   Sem/State           the context of sem.c and the steps on it: LogError, AddUsedType, PushScope,
--                       PopScope, TryRegisterSymbol, FindOrCreateArrayType.
--   Sem/Resolve         ResolveVar, ResolveCall, ResolveCondition and ResolveExpression of sem.c.
--   Sem/Statements      ResolveVarDefinition, ResolveStatement and ResolveBlock of sem.c.
--   Sem/Functions       ResolveFunctionDeclaration and ResolveFunctionImpl of sem.c; a function is an
--                       index in the list of functions, whose entry the analysis writes the types in.
--   Sem/Descriptions    ResolveTypeDescription, CreateAnonymousRecord, ResolveTypeDeclaration and
--                       ResolveTypeDefinition of sem.c.
--   Sem/Analyse         Analyse, Cleanup and Mon_SemAnalyseMultiple of sem.c: five passes over the
--                       modules. A pass over a module visits the definitions it had at the start.
--   Sem/Frame, Sem/Silence   calculi for the steps of sem.c: what a step leaves alone, and which
--                       steps log no message.
--   Codegen/Tree        include/ast/: the trees that the analysis leaves, each node with its type.
--   Codegen/Context     LlvmGenContext and the functions of codegen/llvmctx.c; the lines of code are data.
--   Codegen/Emit        codegen/llvmemit.c: emit_binop is LlvmEmitBinop, and so on.
--   Codegen/Conversions, Codegen/Expressions, Codegen/Statements   codegen/llvmgen.c: compile_exp is
--                       CompileExp, and so on, up to the bodies of functions.
--   Codegen/Module      the loops of Mon_GenerateLLVM over the definitions of a module.
--   Codegen/Numbering   a calculus for the numbers of labels and temporaries in the code.
--   Runtime/Memory      RtInternal_GcAlloc and RawAlloc of src/monrt/c/mem.c, the end of a program by
--                       FatalError of src/monrt/c/err.c, and accesses to buffers.
--   Runtime/Strings     src/monrt/c/monstr.c: new_string is NewString, substr is Substr, and so on. An
--                       access out of a buffer and an int that overflows are the outcome `undefined`.
--   Tests               the functions and theorems on small inputs.
--
-- The modules below these hold their proofs.
--
-- A type definition is an index in a list that stands for the definitions that nodes point to, so
-- that pointers are equal exactly if the indices are. The analysis is explicit state passing; `none`
-- is a step that does not return, be it an endless loop or an access through NULL.
--
-- Bounds: GetUnderlyingType is given as many turns as there are type definitions, and a chain of
-- aliases that ends does so within them, by the pigeonhole principle; a chain that needs more
-- never ends; references to arrays of arrays are followed as often. Sizes are `unsigned int` with
-- their wrap-around, in a build with MON_DEBUG, in which a failed MON_ASSERT stops the computation.
-- The capacity of a vector is below 2 ^ 30 where a push doubles it, so that the doubled number of
-- cells is an `int`. A string literal has fewer than 2 ^ 31 - 1 bytes, so that its length is an `int`;
-- it ends at its first zero byte, as `strlen` and `strcmp` read it.
--
-- Not modelled: the lexer and the parser, which are generated; the constructors and destructors of
-- nodes, which allocate and free; the dumps of trees; what the generator writes around the bodies of
-- functions, and the text of its lines; the runtime's objects, and its input and output; the
-- dictionary. The allocator is a parameter of the vector with laws on what it returns; the analysis
-- assumes that memory suffices. The collector and malloc are parameters of the runtime, as is what it
-- reads before it is written.
pub mod Prelude
pub mod Error
pub mod Alloc
pub mod Vector
pub mod StrUtils
pub mod Ast
pub mod Syntax
pub mod DefGroup
pub mod Sem
pub mod Codegen
pub mod Runtime
mod Tests
