-- ===== src/Registers/DpuRdma.antt =====
-- The DPU_RDMA registers of include/mesa_registers.h.
use librocket.Prelude.{List, [], ◌∷◌}
use librocket.Registers.{Reg, reg, masked}

abbrev pub reg_dpu_rdma_rdma_s_status : Reg
reg_dpu_rdma_rdma_s_status =
    reg 0x5000 (masked 0xfffc0000 18 ∷ masked 0x30000 16 ∷ masked 0xfffc 2 ∷ masked 0x3 0 ∷ [])

abbrev pub reg_dpu_rdma_rdma_s_pointer : Reg
reg_dpu_rdma_rdma_s_pointer = reg 0x5004 (
    masked 0xfffe0000 17
    ∷ masked 0x10000 16
    ∷ masked 0xffc0 6
    ∷ masked 0x20 5
    ∷ masked 0x10 4
    ∷ masked 0x8 3
    ∷ masked 0x4 2
    ∷ masked 0x2 1
    ∷ masked 0x1 0
    ∷ [])

abbrev pub reg_dpu_rdma_rdma_operation_enable : Reg
reg_dpu_rdma_rdma_operation_enable = reg 0x5008 (masked 0xfffffffe 1 ∷ masked 0x1 0 ∷ [])

abbrev pub reg_dpu_rdma_rdma_data_cube_width : Reg
reg_dpu_rdma_rdma_data_cube_width = reg 0x500c (masked 0xffffe000 13 ∷ masked 0x1fff 0 ∷ [])

abbrev pub reg_dpu_rdma_rdma_data_cube_height : Reg
reg_dpu_rdma_rdma_data_cube_height =
    reg 0x5010
      (masked 0xe0000000 29 ∷ masked 0x1fff0000 16 ∷ masked 0xe000 13 ∷ masked 0x1fff 0 ∷ [])

abbrev pub reg_dpu_rdma_rdma_data_cube_channel : Reg
reg_dpu_rdma_rdma_data_cube_channel = reg 0x5014 (masked 0xffffe000 13 ∷ masked 0x1fff 0 ∷ [])

abbrev pub reg_dpu_rdma_rdma_src_base_addr : Reg
reg_dpu_rdma_rdma_src_base_addr = reg 0x5018 (masked 0xffffffff 0 ∷ [])

abbrev pub reg_dpu_rdma_rdma_brdma_cfg : Reg
reg_dpu_rdma_rdma_brdma_cfg = reg 0x501c (masked 0xffffffe0 5 ∷ masked 0x1e 1 ∷ masked 0x1 0 ∷ [])

abbrev pub reg_dpu_rdma_rdma_bs_base_addr : Reg
reg_dpu_rdma_rdma_bs_base_addr = reg 0x5020 (masked 0xffffffff 0 ∷ [])

abbrev pub reg_dpu_rdma_rdma_nrdma_cfg : Reg
reg_dpu_rdma_rdma_nrdma_cfg = reg 0x5028 (masked 0xffffffe0 5 ∷ masked 0x1e 1 ∷ masked 0x1 0 ∷ [])

abbrev pub reg_dpu_rdma_rdma_bn_base_addr : Reg
reg_dpu_rdma_rdma_bn_base_addr = reg 0x502c (masked 0xffffffff 0 ∷ [])

abbrev pub reg_dpu_rdma_rdma_erdma_cfg : Reg
reg_dpu_rdma_rdma_erdma_cfg = reg 0x5034 (
    masked 0xc0000000 30
    ∷ masked 0x20000000 29
    ∷ masked 0x10000000 28
    ∷ masked 0xffffff0 4
    ∷ masked 0xc 2
    ∷ masked 0x2 1
    ∷ masked 0x1 0
    ∷ [])

abbrev pub reg_dpu_rdma_rdma_ew_base_addr : Reg
reg_dpu_rdma_rdma_ew_base_addr = reg 0x5038 (masked 0xffffffff 0 ∷ [])

abbrev pub reg_dpu_rdma_rdma_ew_surf_stride : Reg
reg_dpu_rdma_rdma_ew_surf_stride = reg 0x5040 (masked 0xfffffff0 4 ∷ masked 0xf 0 ∷ [])

abbrev pub reg_dpu_rdma_rdma_feature_mode_cfg : Reg
reg_dpu_rdma_rdma_feature_mode_cfg = reg 0x5044 (
    masked 0xfffc0000 18
    ∷ masked 0x38000 15
    ∷ masked 0x7800 11
    ∷ masked 0x700 8
    ∷ masked 0xe0 5
    ∷ masked 0x10 4
    ∷ masked 0x8 3
    ∷ masked 0x6 1
    ∷ masked 0x1 0
    ∷ [])

abbrev pub reg_dpu_rdma_rdma_src_dma_cfg : Reg
reg_dpu_rdma_rdma_src_dma_cfg = reg 0x5048 (
    masked 0xfff80000 19
    ∷ masked 0x7c000 14
    ∷ masked 0x2000 13
    ∷ masked 0x1000 12
    ∷ masked 0xe00 9
    ∷ masked 0x1c0 6
    ∷ masked 0x38 3
    ∷ masked 0x7 0
    ∷ [])

abbrev pub reg_dpu_rdma_rdma_surf_notch : Reg
reg_dpu_rdma_rdma_surf_notch = reg 0x504c (masked 0xfffffff0 4 ∷ masked 0xf 0 ∷ [])

abbrev pub reg_dpu_rdma_rdma_pad_cfg : Reg
reg_dpu_rdma_rdma_pad_cfg =
    reg 0x5064
      (masked 0xffff0000 16 ∷ masked 0xff80 7 ∷ masked 0x70 4 ∷ masked 0x8 3 ∷ masked 0x7 0 ∷ [])

abbrev pub reg_dpu_rdma_rdma_weight : Reg
reg_dpu_rdma_rdma_weight =
    reg 0x5068 (masked 0xff000000 24 ∷ masked 0xff0000 16 ∷ masked 0xff00 8 ∷ masked 0xff 0 ∷ [])

abbrev pub reg_dpu_rdma_rdma_ew_surf_notch : Reg
reg_dpu_rdma_rdma_ew_surf_notch = reg 0x506c (masked 0xfffffff0 4 ∷ masked 0xf 0 ∷ [])

-- In the order of the header.
abbrev pub dpu_rdma_registers : List Reg
dpu_rdma_registers =
    reg_dpu_rdma_rdma_s_status ∷ reg_dpu_rdma_rdma_s_pointer ∷ reg_dpu_rdma_rdma_operation_enable
    ∷ reg_dpu_rdma_rdma_data_cube_width ∷ reg_dpu_rdma_rdma_data_cube_height
    ∷ reg_dpu_rdma_rdma_data_cube_channel ∷ reg_dpu_rdma_rdma_src_base_addr
    ∷ reg_dpu_rdma_rdma_brdma_cfg ∷ reg_dpu_rdma_rdma_bs_base_addr ∷ reg_dpu_rdma_rdma_nrdma_cfg
    ∷ reg_dpu_rdma_rdma_bn_base_addr ∷ reg_dpu_rdma_rdma_erdma_cfg ∷ reg_dpu_rdma_rdma_ew_base_addr
    ∷ reg_dpu_rdma_rdma_ew_surf_stride ∷ reg_dpu_rdma_rdma_feature_mode_cfg
    ∷ reg_dpu_rdma_rdma_src_dma_cfg ∷ reg_dpu_rdma_rdma_surf_notch ∷ reg_dpu_rdma_rdma_pad_cfg
    ∷ reg_dpu_rdma_rdma_weight ∷ reg_dpu_rdma_rdma_ew_surf_notch ∷ []
