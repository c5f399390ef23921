-- ===== src/Sem.antt =====
-- The semantic analysis of src/libmonga/sem.c and src/libmonga/sem.
pub mod Builtins
pub mod Types
pub mod Scope
pub mod State
pub mod Resolve
pub mod Statements
pub mod Frame
pub mod Functions
pub mod Silence
pub mod Descriptions
pub mod Analyse
