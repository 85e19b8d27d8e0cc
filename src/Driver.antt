-- ===== src/Driver.antt =====
-- The programs of tests/, clients of the library.
pub mod Minimal
pub mod Matmul
