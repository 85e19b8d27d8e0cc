-- ===== src/Registers/CnaBack.antt =====
-- The CNA registers of include/mesa_registers.h, the second half.
use librocket.Prelude.{List, [], ◌∷◌}
use librocket.Registers.{Reg, reg, masked}

abbrev pub reg_cna_dma_con1 : Reg
reg_cna_dma_con1 = reg 0x107c (masked 0xf0000000 28 ∷ masked 0xfffffff 0 ∷ [])

abbrev pub reg_cna_dma_con2 : Reg
reg_cna_dma_con2 = reg 0x1080 (masked 0xf0000000 28 ∷ masked 0xfffffff 0 ∷ [])

abbrev pub reg_cna_fc_data_size0 : Reg
reg_cna_fc_data_size0 =
    reg 0x1084
      (masked 0xc0000000 30 ∷ masked 0x3fff0000 16 ∷ masked 0xf800 11 ∷ masked 0x7ff 0 ∷ [])

abbrev pub reg_cna_fc_data_size1 : Reg
reg_cna_fc_data_size1 = reg 0x1088 (masked 0xffff0000 16 ∷ masked 0xffff 0 ∷ [])

abbrev pub reg_cna_clk_gate : Reg
reg_cna_clk_gate = reg 0x1090 (
    masked 0xffffffe0 5
    ∷ masked 0x10 4
    ∷ masked 0x8 3
    ∷ masked 0x4 2
    ∷ masked 0x2 1
    ∷ masked 0x1 0
    ∷ [])

abbrev pub reg_cna_dcomp_ctrl : Reg
reg_cna_dcomp_ctrl = reg 0x1100 (masked 0xfffffff0 4 ∷ masked 0x8 3 ∷ masked 0x7 0 ∷ [])

abbrev pub reg_cna_dcomp_regnum : Reg
reg_cna_dcomp_regnum = reg 0x1104 (masked 0xffffffff 0 ∷ [])

abbrev pub reg_cna_dcomp_addr0 : Reg
reg_cna_dcomp_addr0 = reg 0x1110 (masked 0xffffffff 0 ∷ [])

abbrev pub reg_cna_dcomp_amount0 : Reg
reg_cna_dcomp_amount0 = reg 0x1140 (masked 0xffffffff 0 ∷ [])

abbrev pub reg_cna_dcomp_amount1 : Reg
reg_cna_dcomp_amount1 = reg 0x1144 (masked 0xffffffff 0 ∷ [])

abbrev pub reg_cna_dcomp_amount2 : Reg
reg_cna_dcomp_amount2 = reg 0x1148 (masked 0xffffffff 0 ∷ [])

abbrev pub reg_cna_dcomp_amount3 : Reg
reg_cna_dcomp_amount3 = reg 0x114c (masked 0xffffffff 0 ∷ [])

abbrev pub reg_cna_dcomp_amount4 : Reg
reg_cna_dcomp_amount4 = reg 0x1150 (masked 0xffffffff 0 ∷ [])

abbrev pub reg_cna_dcomp_amount5 : Reg
reg_cna_dcomp_amount5 = reg 0x1154 (masked 0xffffffff 0 ∷ [])

abbrev pub reg_cna_dcomp_amount6 : Reg
reg_cna_dcomp_amount6 = reg 0x1158 (masked 0xffffffff 0 ∷ [])

abbrev pub reg_cna_dcomp_amount7 : Reg
reg_cna_dcomp_amount7 = reg 0x115c (masked 0xffffffff 0 ∷ [])

abbrev pub reg_cna_dcomp_amount8 : Reg
reg_cna_dcomp_amount8 = reg 0x1160 (masked 0xffffffff 0 ∷ [])

abbrev pub reg_cna_dcomp_amount9 : Reg
reg_cna_dcomp_amount9 = reg 0x1164 (masked 0xffffffff 0 ∷ [])

abbrev pub reg_cna_dcomp_amount10 : Reg
reg_cna_dcomp_amount10 = reg 0x1168 (masked 0xffffffff 0 ∷ [])

abbrev pub reg_cna_dcomp_amount11 : Reg
reg_cna_dcomp_amount11 = reg 0x116c (masked 0xffffffff 0 ∷ [])

abbrev pub reg_cna_dcomp_amount12 : Reg
reg_cna_dcomp_amount12 = reg 0x1170 (masked 0xffffffff 0 ∷ [])

abbrev pub reg_cna_dcomp_amount13 : Reg
reg_cna_dcomp_amount13 = reg 0x1174 (masked 0xffffffff 0 ∷ [])

abbrev pub reg_cna_dcomp_amount14 : Reg
reg_cna_dcomp_amount14 = reg 0x1178 (masked 0xffffffff 0 ∷ [])

abbrev pub reg_cna_dcomp_amount15 : Reg
reg_cna_dcomp_amount15 = reg 0x117c (masked 0xffffffff 0 ∷ [])

abbrev pub reg_cna_cvt_con5 : Reg
reg_cna_cvt_con5 = reg 0x1180 (masked 0xffffffff 0 ∷ [])

abbrev pub reg_cna_pad_con1 : Reg
reg_cna_pad_con1 = reg 0x1184 (masked 0xffffffff 0 ∷ [])

-- In the order of the header.
abbrev pub cna_back_registers : List Reg
cna_back_registers =
    reg_cna_dma_con1 ∷ reg_cna_dma_con2 ∷ reg_cna_fc_data_size0 ∷ reg_cna_fc_data_size1
    ∷ reg_cna_clk_gate ∷ reg_cna_dcomp_ctrl ∷ reg_cna_dcomp_regnum ∷ reg_cna_dcomp_addr0
    ∷ reg_cna_dcomp_amount0 ∷ reg_cna_dcomp_amount1 ∷ reg_cna_dcomp_amount2 ∷ reg_cna_dcomp_amount3
    ∷ reg_cna_dcomp_amount4 ∷ reg_cna_dcomp_amount5 ∷ reg_cna_dcomp_amount6 ∷ reg_cna_dcomp_amount7
    ∷ reg_cna_dcomp_amount8 ∷ reg_cna_dcomp_amount9 ∷ reg_cna_dcomp_amount10
    ∷ reg_cna_dcomp_amount11 ∷ reg_cna_dcomp_amount12 ∷ reg_cna_dcomp_amount13
    ∷ reg_cna_dcomp_amount14 ∷ reg_cna_dcomp_amount15 ∷ reg_cna_cvt_con5 ∷ reg_cna_pad_con1 ∷ []
