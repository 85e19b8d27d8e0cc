-- ===== src/Registers/Ddma.antt =====
-- The DDMA registers of include/mesa_registers.h.
use librocket.Prelude.{List, [], ◌∷◌}
use librocket.Registers.{Reg, reg, masked}

abbrev pub reg_ddma_cfg_outstanding : Reg
reg_ddma_cfg_outstanding = reg 0x8000 (masked 0xffff0000 16 ∷ masked 0xff00 8 ∷ masked 0xff 0 ∷ [])

abbrev pub reg_ddma_rd_weight_0 : Reg
reg_ddma_rd_weight_0 =
    reg 0x8004 (masked 0xff000000 24 ∷ masked 0xff0000 16 ∷ masked 0xff00 8 ∷ masked 0xff 0 ∷ [])

abbrev pub reg_ddma_wr_weight_0 : Reg
reg_ddma_wr_weight_0 = reg 0x8008 (masked 0xffff0000 16 ∷ masked 0xff00 8 ∷ masked 0xff 0 ∷ [])

abbrev pub reg_ddma_cfg_id_error : Reg
reg_ddma_cfg_id_error =
    reg 0x800c (masked 0xfffffc00 10 ∷ masked 0x3c0 6 ∷ masked 0x20 5 ∷ masked 0x1f 0 ∷ [])

abbrev pub reg_ddma_rd_weight_1 : Reg
reg_ddma_rd_weight_1 = reg 0x8010 (masked 0xffffff00 8 ∷ masked 0xff 0 ∷ [])

abbrev pub reg_ddma_cfg_dma_fifo_clr : Reg
reg_ddma_cfg_dma_fifo_clr = reg 0x8014 (masked 0xfffffffe 1 ∷ masked 0x1 0 ∷ [])

abbrev pub reg_ddma_cfg_dma_arb : Reg
reg_ddma_cfg_dma_arb = reg 0x8018 (
    masked 0xfffffc00 10
    ∷ masked 0x200 9
    ∷ masked 0x100 8
    ∷ masked 0x80 7
    ∷ masked 0x70 4
    ∷ masked 0x8 3
    ∷ masked 0x7 0
    ∷ [])

abbrev pub reg_ddma_cfg_dma_rd_qos : Reg
reg_ddma_cfg_dma_rd_qos = reg 0x8020 (
    masked 0xfffffc00 10
    ∷ masked 0x300 8
    ∷ masked 0xc0 6
    ∷ masked 0x30 4
    ∷ masked 0xc 2
    ∷ masked 0x3 0
    ∷ [])

abbrev pub reg_ddma_cfg_dma_rd_cfg : Reg
reg_ddma_cfg_dma_rd_cfg = reg 0x8024 (
    masked 0xffffe000 13
    ∷ masked 0x1000 12
    ∷ masked 0xf00 8
    ∷ masked 0xe0 5
    ∷ masked 0x18 3
    ∷ masked 0x7 0
    ∷ [])

abbrev pub reg_ddma_cfg_dma_wr_cfg : Reg
reg_ddma_cfg_dma_wr_cfg = reg 0x8028 (
    masked 0xffffe000 13
    ∷ masked 0x1000 12
    ∷ masked 0xf00 8
    ∷ masked 0xe0 5
    ∷ masked 0x18 3
    ∷ masked 0x7 0
    ∷ [])

abbrev pub reg_ddma_cfg_dma_wstrb : Reg
reg_ddma_cfg_dma_wstrb = reg 0x802c (masked 0xffffffff 0 ∷ [])

abbrev pub reg_ddma_cfg_status : Reg
reg_ddma_cfg_status = reg 0x8030 (masked 0xfffffe00 9 ∷ masked 0x100 8 ∷ masked 0xff 0 ∷ [])

-- In the order of the header.
abbrev pub ddma_registers : List Reg
ddma_registers =
    reg_ddma_cfg_outstanding ∷ reg_ddma_rd_weight_0 ∷ reg_ddma_wr_weight_0 ∷ reg_ddma_cfg_id_error
    ∷ reg_ddma_rd_weight_1 ∷ reg_ddma_cfg_dma_fifo_clr ∷ reg_ddma_cfg_dma_arb
    ∷ reg_ddma_cfg_dma_rd_qos ∷ reg_ddma_cfg_dma_rd_cfg ∷ reg_ddma_cfg_dma_wr_cfg
    ∷ reg_ddma_cfg_dma_wstrb ∷ reg_ddma_cfg_status ∷ []
