-- ===== src/Tests.antt =====
-- Runs of the model on small inputs, and the theorems at them.
mod Vectors
mod Literals
mod Types
mod Analyse
mod Codegen
mod Labels
mod Modules
mod Bodies
mod Functions
mod Groups
mod Strings
