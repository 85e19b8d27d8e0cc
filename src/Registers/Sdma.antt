-- ===== src/Registers/Sdma.antt =====
-- The SDMA and GLOBAL registers of include/mesa_registers.h.
use librocket.Prelude.{List, [], ◌∷◌}
use librocket.Registers.{Reg, reg, masked}

abbrev pub reg_sdma_cfg_outstanding : Reg
reg_sdma_cfg_outstanding = reg 0x9000 (masked 0xffff0000 16 ∷ masked 0xff00 8 ∷ masked 0xff 0 ∷ [])

abbrev pub reg_sdma_rd_weight_0 : Reg
reg_sdma_rd_weight_0 =
    reg 0x9004 (masked 0xff000000 24 ∷ masked 0xff0000 16 ∷ masked 0xff00 8 ∷ masked 0xff 0 ∷ [])

abbrev pub reg_sdma_wr_weight_0 : Reg
reg_sdma_wr_weight_0 = reg 0x9008 (masked 0xffff0000 16 ∷ masked 0xff00 8 ∷ masked 0xff 0 ∷ [])

abbrev pub reg_sdma_cfg_id_error : Reg
reg_sdma_cfg_id_error =
    reg 0x900c (masked 0xfffffc00 10 ∷ masked 0x3c0 6 ∷ masked 0x20 5 ∷ masked 0x1f 0 ∷ [])

abbrev pub reg_sdma_rd_weight_1 : Reg
reg_sdma_rd_weight_1 = reg 0x9010 (masked 0xffffff00 8 ∷ masked 0xff 0 ∷ [])

abbrev pub reg_sdma_cfg_dma_fifo_clr : Reg
reg_sdma_cfg_dma_fifo_clr = reg 0x9014 (masked 0xfffffffe 1 ∷ masked 0x1 0 ∷ [])

abbrev pub reg_sdma_cfg_dma_arb : Reg
reg_sdma_cfg_dma_arb = reg 0x9018 (
    masked 0xfffffc00 10
    ∷ masked 0x200 9
    ∷ masked 0x100 8
    ∷ masked 0x80 7
    ∷ masked 0x70 4
    ∷ masked 0x8 3
    ∷ masked 0x7 0
    ∷ [])

abbrev pub reg_sdma_cfg_dma_rd_qos : Reg
reg_sdma_cfg_dma_rd_qos = reg 0x9020 (
    masked 0xfffffc00 10
    ∷ masked 0x300 8
    ∷ masked 0xc0 6
    ∷ masked 0x30 4
    ∷ masked 0xc 2
    ∷ masked 0x3 0
    ∷ [])

abbrev pub reg_sdma_cfg_dma_rd_cfg : Reg
reg_sdma_cfg_dma_rd_cfg = reg 0x9024 (
    masked 0xffffe000 13
    ∷ masked 0x1000 12
    ∷ masked 0xf00 8
    ∷ masked 0xe0 5
    ∷ masked 0x18 3
    ∷ masked 0x7 0
    ∷ [])

abbrev pub reg_sdma_cfg_dma_wr_cfg : Reg
reg_sdma_cfg_dma_wr_cfg = reg 0x9028 (
    masked 0xffffe000 13
    ∷ masked 0x1000 12
    ∷ masked 0xf00 8
    ∷ masked 0xe0 5
    ∷ masked 0x18 3
    ∷ masked 0x7 0
    ∷ [])

abbrev pub reg_sdma_cfg_dma_wstrb : Reg
reg_sdma_cfg_dma_wstrb = reg 0x902c (masked 0xffffffff 0 ∷ [])

abbrev pub reg_sdma_cfg_status : Reg
reg_sdma_cfg_status = reg 0x9030 (masked 0xfffffe00 9 ∷ masked 0x100 8 ∷ masked 0xff 0 ∷ [])

abbrev pub reg_global_operation_enable : Reg
reg_global_operation_enable = reg 0xf008 (
    masked 0xffffff80 7
    ∷ masked 0x40 6
    ∷ masked 0x20 5
    ∷ masked 0x10 4
    ∷ masked 0x8 3
    ∷ masked 0x4 2
    ∷ masked 0x2 1
    ∷ masked 0x1 0
    ∷ [])

-- In the order of the header.
abbrev pub sdma_registers : List Reg
sdma_registers =
    reg_sdma_cfg_outstanding ∷ reg_sdma_rd_weight_0 ∷ reg_sdma_wr_weight_0 ∷ reg_sdma_cfg_id_error
    ∷ reg_sdma_rd_weight_1 ∷ reg_sdma_cfg_dma_fifo_clr ∷ reg_sdma_cfg_dma_arb
    ∷ reg_sdma_cfg_dma_rd_qos ∷ reg_sdma_cfg_dma_rd_cfg ∷ reg_sdma_cfg_dma_wr_cfg
    ∷ reg_sdma_cfg_dma_wstrb ∷ reg_sdma_cfg_status ∷ []

abbrev pub global_registers : List Reg
global_registers = reg_global_operation_enable ∷ []
