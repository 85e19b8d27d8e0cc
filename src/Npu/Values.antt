-- ===== src/Npu/Values.antt =====
-- The values of the packed registers and the commands that write them, a module for each block.
pub mod Cna
pub mod Core
pub mod Dpu
