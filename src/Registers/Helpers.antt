-- ===== src/Registers/Helpers.antt =====
-- The macros of include/mesa_helpers.h: a value shifted into its field and cut to it, with the mask
-- and the shift that include/mesa_registers.h defines. Eight of the macros name masks that it does
-- not define; they stand in Full.
pub mod Cna
pub mod Dpu
