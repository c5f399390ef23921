-- ===== src/Runtime.antt =====
-- The library that compiled programs are linked with (src/monrt/c).
pub mod Memory
pub mod Strings
