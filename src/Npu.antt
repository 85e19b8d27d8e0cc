-- ===== src/Npu.antt =====
-- The register command generator of src/npu_matmul.c and its headers.
pub mod Layout
pub mod Hw
pub mod Desc
pub mod Values
pub mod Task
pub mod Cbuf
pub mod Fp16
pub mod Int8
