-- ===== src/Registers/DpuFront.antt =====
-- The DPU registers of include/mesa_registers.h, the first half.
use librocket.Prelude.{List, [], ◌∷◌}
use librocket.Registers.{Reg, reg, masked}

abbrev pub reg_dpu_s_status : Reg
reg_dpu_s_status =
    reg 0x4000 (masked 0xfffc0000 18 ∷ masked 0x30000 16 ∷ masked 0xfffc 2 ∷ masked 0x3 0 ∷ [])

abbrev pub reg_dpu_s_pointer : Reg
reg_dpu_s_pointer = reg 0x4004 (
    masked 0xfffe0000 17
    ∷ masked 0x10000 16
    ∷ masked 0xffc0 6
    ∷ masked 0x20 5
    ∷ masked 0x10 4
    ∷ masked 0x8 3
    ∷ masked 0x4 2
    ∷ masked 0x2 1
    ∷ masked 0x1 0
    ∷ [])

abbrev pub reg_dpu_operation_enable : Reg
reg_dpu_operation_enable = reg 0x4008 (masked 0xfffffffe 1 ∷ masked 0x1 0 ∷ [])

abbrev pub reg_dpu_feature_mode_cfg : Reg
reg_dpu_feature_mode_cfg = reg 0x400c (
    masked 0x80000000 31
    ∷ masked 0x40000000 30
    ∷ masked 0x3c000000 26
    ∷ masked 0x2000000 25
    ∷ masked 0x1fffe00 9
    ∷ masked 0x1e0 5
    ∷ masked 0x18 3
    ∷ masked 0x6 1
    ∷ masked 0x1 0
    ∷ [])

abbrev pub reg_dpu_data_format : Reg
reg_dpu_data_format = reg 0x4010 (
    masked 0xe0000000 29
    ∷ masked 0x1c000000 26
    ∷ masked 0x3ff0000 16
    ∷ masked 0xfc00 10
    ∷ masked 0x3f0 4
    ∷ masked 0x8 3
    ∷ masked 0x7 0
    ∷ [])

abbrev pub reg_dpu_offset_pend : Reg
reg_dpu_offset_pend = reg 0x4014 (masked 0xffff0000 16 ∷ masked 0xffff 0 ∷ [])

abbrev pub reg_dpu_dst_base_addr : Reg
reg_dpu_dst_base_addr = reg 0x4020 (masked 0xffffffff 0 ∷ [])

abbrev pub reg_dpu_dst_surf_stride : Reg
reg_dpu_dst_surf_stride = reg 0x4024 (masked 0xfffffff0 4 ∷ masked 0xf 0 ∷ [])

abbrev pub reg_dpu_data_cube_width : Reg
reg_dpu_data_cube_width = reg 0x4030 (masked 0xffffe000 13 ∷ masked 0x1fff 0 ∷ [])

abbrev pub reg_dpu_data_cube_height : Reg
reg_dpu_data_cube_height =
    reg 0x4034
      (masked 0xfe000000 25 ∷ masked 0x1c00000 22 ∷ masked 0x3fe000 13 ∷ masked 0x1fff 0 ∷ [])

abbrev pub reg_dpu_data_cube_notch_addr : Reg
reg_dpu_data_cube_notch_addr =
    reg 0x4038
      (masked 0xe0000000 29 ∷ masked 0x1fff0000 16 ∷ masked 0xe000 13 ∷ masked 0x1fff 0 ∷ [])

abbrev pub reg_dpu_data_cube_channel : Reg
reg_dpu_data_cube_channel =
    reg 0x403c
      (masked 0xe0000000 29 ∷ masked 0x1fff0000 16 ∷ masked 0xe000 13 ∷ masked 0x1fff 0 ∷ [])

abbrev pub reg_dpu_bs_cfg : Reg
reg_dpu_bs_cfg = reg 0x4040 (
    masked 0xfff00000 20
    ∷ masked 0xf0000 16
    ∷ masked 0xfe00 9
    ∷ masked 0x100 8
    ∷ masked 0x80 7
    ∷ masked 0x40 6
    ∷ masked 0x20 5
    ∷ masked 0x10 4
    ∷ masked 0xc 2
    ∷ masked 0x2 1
    ∷ masked 0x1 0
    ∷ [])

abbrev pub reg_dpu_bs_alu_cfg : Reg
reg_dpu_bs_alu_cfg = reg 0x4044 (masked 0xffffffff 0 ∷ [])

abbrev pub reg_dpu_bs_mul_cfg : Reg
reg_dpu_bs_mul_cfg = reg 0x4048 (
    masked 0xffff0000 16
    ∷ masked 0xc000 14
    ∷ masked 0x3f00 8
    ∷ masked 0xfc 2
    ∷ masked 0x2 1
    ∷ masked 0x1 0
    ∷ [])

abbrev pub reg_dpu_bs_relux_cmp_value : Reg
reg_dpu_bs_relux_cmp_value = reg 0x404c (masked 0xffffffff 0 ∷ [])

abbrev pub reg_dpu_bs_ow_cfg : Reg
reg_dpu_bs_ow_cfg = reg 0x4050 (
    masked 0xf0000000 28
    ∷ masked 0x8000000 27
    ∷ masked 0x7fff800 11
    ∷ masked 0x700 8
    ∷ masked 0xe0 5
    ∷ masked 0x1c 2
    ∷ masked 0x2 1
    ∷ masked 0x1 0
    ∷ [])

abbrev pub reg_dpu_bs_ow_op : Reg
reg_dpu_bs_ow_op = reg 0x4054 (masked 0xffff0000 16 ∷ masked 0xffff 0 ∷ [])

abbrev pub reg_dpu_wdma_size_0 : Reg
reg_dpu_wdma_size_0 = reg 0x4058 (
    masked 0xf0000000 28
    ∷ masked 0x8000000 27
    ∷ masked 0x7ff0000 16
    ∷ masked 0xe000 13
    ∷ masked 0x1fff 0
    ∷ [])

abbrev pub reg_dpu_wdma_size_1 : Reg
reg_dpu_wdma_size_1 =
    reg 0x405c
      (masked 0xe0000000 29 ∷ masked 0x1fff0000 16 ∷ masked 0xe000 13 ∷ masked 0x1fff 0 ∷ [])

abbrev pub reg_dpu_bn_cfg : Reg
reg_dpu_bn_cfg = reg 0x4060 (
    masked 0xfff00000 20
    ∷ masked 0xf0000 16
    ∷ masked 0xfe00 9
    ∷ masked 0x100 8
    ∷ masked 0x80 7
    ∷ masked 0x40 6
    ∷ masked 0x20 5
    ∷ masked 0x10 4
    ∷ masked 0xc 2
    ∷ masked 0x2 1
    ∷ masked 0x1 0
    ∷ [])

abbrev pub reg_dpu_bn_alu_cfg : Reg
reg_dpu_bn_alu_cfg = reg 0x4064 (masked 0xffffffff 0 ∷ [])

abbrev pub reg_dpu_bn_mul_cfg : Reg
reg_dpu_bn_mul_cfg = reg 0x4068 (
    masked 0xffff0000 16
    ∷ masked 0xc000 14
    ∷ masked 0x3f00 8
    ∷ masked 0xfc 2
    ∷ masked 0x2 1
    ∷ masked 0x1 0
    ∷ [])

abbrev pub reg_dpu_bn_relux_cmp_value : Reg
reg_dpu_bn_relux_cmp_value = reg 0x406c (masked 0xffffffff 0 ∷ [])

abbrev pub reg_dpu_ew_cfg : Reg
reg_dpu_ew_cfg = reg 0x4070 (
    masked 0x80000000 31
    ∷ masked 0x40000000 30
    ∷ masked 0x30000000 28
    ∷ masked 0xf000000 24
    ∷ masked 0xc00000 22
    ∷ masked 0x200000 21
    ∷ masked 0x100000 20
    ∷ masked 0xf0000 16
    ∷ masked 0xf800 11
    ∷ masked 0x400 10
    ∷ masked 0x200 9
    ∷ masked 0x100 8
    ∷ masked 0x80 7
    ∷ masked 0x40 6
    ∷ masked 0x20 5
    ∷ masked 0x18 3
    ∷ masked 0x4 2
    ∷ masked 0x2 1
    ∷ masked 0x1 0
    ∷ [])

abbrev pub reg_dpu_ew_cvt_offset_value : Reg
reg_dpu_ew_cvt_offset_value = reg 0x4074 (masked 0xffffffff 0 ∷ [])

-- In the order of the header.
abbrev pub dpu_front_registers : List Reg
dpu_front_registers =
    reg_dpu_s_status ∷ reg_dpu_s_pointer ∷ reg_dpu_operation_enable ∷ reg_dpu_feature_mode_cfg
    ∷ reg_dpu_data_format ∷ reg_dpu_offset_pend ∷ reg_dpu_dst_base_addr ∷ reg_dpu_dst_surf_stride
    ∷ reg_dpu_data_cube_width ∷ reg_dpu_data_cube_height ∷ reg_dpu_data_cube_notch_addr
    ∷ reg_dpu_data_cube_channel ∷ reg_dpu_bs_cfg ∷ reg_dpu_bs_alu_cfg ∷ reg_dpu_bs_mul_cfg
    ∷ reg_dpu_bs_relux_cmp_value ∷ reg_dpu_bs_ow_cfg ∷ reg_dpu_bs_ow_op ∷ reg_dpu_wdma_size_0
    ∷ reg_dpu_wdma_size_1 ∷ reg_dpu_bn_cfg ∷ reg_dpu_bn_alu_cfg ∷ reg_dpu_bn_mul_cfg
    ∷ reg_dpu_bn_relux_cmp_value ∷ reg_dpu_ew_cfg ∷ reg_dpu_ew_cvt_offset_value ∷ []
