-- ===== src/Registers/Core.antt =====
-- The CORE registers of include/mesa_registers.h.
use librocket.Prelude.{List, [], ◌∷◌}
use librocket.Registers.{Reg, reg, masked}

abbrev pub reg_core_s_status : Reg
reg_core_s_status =
    reg 0x3000 (masked 0xfffc0000 18 ∷ masked 0x30000 16 ∷ masked 0xfffc 2 ∷ masked 0x3 0 ∷ [])

abbrev pub reg_core_s_pointer : Reg
reg_core_s_pointer = reg 0x3004 (
    masked 0xfffe0000 17
    ∷ masked 0x10000 16
    ∷ masked 0xffc0 6
    ∷ masked 0x20 5
    ∷ masked 0x10 4
    ∷ masked 0x8 3
    ∷ masked 0x4 2
    ∷ masked 0x2 1
    ∷ masked 0x1 0
    ∷ [])

abbrev pub reg_core_operation_enable : Reg
reg_core_operation_enable = reg 0x3008 (masked 0xfffffffe 1 ∷ masked 0x1 0 ∷ [])

abbrev pub reg_core_mac_gating : Reg
reg_core_mac_gating = reg 0x300c (masked 0xf8000000 27 ∷ masked 0x7ffffff 0 ∷ [])

abbrev pub reg_core_misc_cfg : Reg
reg_core_misc_cfg = reg 0x3010 (
    masked 0xfff00000 20
    ∷ masked 0xfc000 14
    ∷ masked 0x3800 11
    ∷ masked 0x700 8
    ∷ masked 0xfc 2
    ∷ masked 0x2 1
    ∷ masked 0x1 0
    ∷ [])

abbrev pub reg_core_dataout_size_0 : Reg
reg_core_dataout_size_0 = reg 0x3014 (masked 0xffff0000 16 ∷ masked 0xffff 0 ∷ [])

abbrev pub reg_core_dataout_size_1 : Reg
reg_core_dataout_size_1 = reg 0x3018 (masked 0xffff0000 16 ∷ masked 0xffff 0 ∷ [])

abbrev pub reg_core_clip_truncate : Reg
reg_core_clip_truncate =
    reg 0x301c (masked 0xffffff80 7 ∷ masked 0x40 6 ∷ masked 0x20 5 ∷ masked 0x1f 0 ∷ [])

-- In the order of the header.
abbrev pub core_registers : List Reg
core_registers =
    reg_core_s_status ∷ reg_core_s_pointer ∷ reg_core_operation_enable ∷ reg_core_mac_gating
    ∷ reg_core_misc_cfg ∷ reg_core_dataout_size_0 ∷ reg_core_dataout_size_1 ∷ reg_core_clip_truncate
    ∷ []
