-- ===== src/Codegen.antt =====
-- src/libmonga/codegen: the generation of LLVM code from an analysed tree.
pub mod Tree
pub mod Context
pub mod Lookup
pub mod Emit
pub mod Conversions
pub mod Expressions
pub mod Statements
pub mod Module
pub mod Numbering
