-- ===== src/Registers/Ppu.antt =====
-- The PPU registers of include/mesa_registers.h.
use librocket.Prelude.{List, [], ◌∷◌}
use librocket.Registers.{Reg, reg, masked}

abbrev pub reg_ppu_s_status : Reg
reg_ppu_s_status =
    reg 0x6000 (masked 0xfffc0000 18 ∷ masked 0x30000 16 ∷ masked 0xfffc 2 ∷ masked 0x3 0 ∷ [])

abbrev pub reg_ppu_s_pointer : Reg
reg_ppu_s_pointer = reg 0x6004 (
    masked 0xfffe0000 17
    ∷ masked 0x10000 16
    ∷ masked 0xffc0 6
    ∷ masked 0x20 5
    ∷ masked 0x10 4
    ∷ masked 0x8 3
    ∷ masked 0x4 2
    ∷ masked 0x2 1
    ∷ masked 0x1 0
    ∷ [])

abbrev pub reg_ppu_operation_enable : Reg
reg_ppu_operation_enable = reg 0x6008 (masked 0xfffffffe 1 ∷ masked 0x1 0 ∷ [])

abbrev pub reg_ppu_data_cube_in_width : Reg
reg_ppu_data_cube_in_width = reg 0x600c (masked 0xffffe000 13 ∷ masked 0x1fff 0 ∷ [])

abbrev pub reg_ppu_data_cube_in_height : Reg
reg_ppu_data_cube_in_height = reg 0x6010 (masked 0xffffe000 13 ∷ masked 0x1fff 0 ∷ [])

abbrev pub reg_ppu_data_cube_in_channel : Reg
reg_ppu_data_cube_in_channel = reg 0x6014 (masked 0xffffe000 13 ∷ masked 0x1fff 0 ∷ [])

abbrev pub reg_ppu_data_cube_out_width : Reg
reg_ppu_data_cube_out_width = reg 0x6018 (masked 0xffffe000 13 ∷ masked 0x1fff 0 ∷ [])

abbrev pub reg_ppu_data_cube_out_height : Reg
reg_ppu_data_cube_out_height = reg 0x601c (masked 0xffffe000 13 ∷ masked 0x1fff 0 ∷ [])

abbrev pub reg_ppu_data_cube_out_channel : Reg
reg_ppu_data_cube_out_channel = reg 0x6020 (masked 0xffffe000 13 ∷ masked 0x1fff 0 ∷ [])

abbrev pub reg_ppu_operation_mode_cfg : Reg
reg_ppu_operation_mode_cfg = reg 0x6024 (
    masked 0x80000000 31
    ∷ masked 0x40000000 30
    ∷ masked 0x20000000 29
    ∷ masked 0x1fff0000 16
    ∷ masked 0xff00 8
    ∷ masked 0xe0 5
    ∷ masked 0x10 4
    ∷ masked 0xc 2
    ∷ masked 0x3 0
    ∷ [])

abbrev pub reg_ppu_pooling_kernel_cfg : Reg
reg_ppu_pooling_kernel_cfg = reg 0x6034 (
    masked 0xff000000 24
    ∷ masked 0xf00000 20
    ∷ masked 0xf0000 16
    ∷ masked 0xf000 12
    ∷ masked 0xf00 8
    ∷ masked 0xf0 4
    ∷ masked 0xf 0
    ∷ [])

abbrev pub reg_ppu_recip_kernel_width : Reg
reg_ppu_recip_kernel_width = reg 0x6038 (masked 0xfffe0000 17 ∷ masked 0x1ffff 0 ∷ [])

abbrev pub reg_ppu_recip_kernel_height : Reg
reg_ppu_recip_kernel_height = reg 0x603c (masked 0xfffe0000 17 ∷ masked 0x1ffff 0 ∷ [])

abbrev pub reg_ppu_pooling_padding_cfg : Reg
reg_ppu_pooling_padding_cfg = reg 0x6040 (
    masked 0xffff8000 15
    ∷ masked 0x7000 12
    ∷ masked 0x800 11
    ∷ masked 0x700 8
    ∷ masked 0x80 7
    ∷ masked 0x70 4
    ∷ masked 0x8 3
    ∷ masked 0x7 0
    ∷ [])

abbrev pub reg_ppu_padding_value_1_cfg : Reg
reg_ppu_padding_value_1_cfg = reg 0x6044 (masked 0xffffffff 0 ∷ [])

abbrev pub reg_ppu_padding_value_2_cfg : Reg
reg_ppu_padding_value_2_cfg = reg 0x6048 (masked 0xfffffff8 3 ∷ masked 0x7 0 ∷ [])

abbrev pub reg_ppu_dst_base_addr : Reg
reg_ppu_dst_base_addr = reg 0x6070 (masked 0xfffffff0 4 ∷ masked 0xf 0 ∷ [])

abbrev pub reg_ppu_dst_surf_stride : Reg
reg_ppu_dst_surf_stride = reg 0x607c (masked 0xfffffff0 4 ∷ masked 0xf 0 ∷ [])

abbrev pub reg_ppu_data_format : Reg
reg_ppu_data_format = reg 0x6084 (masked 0xfffffff0 4 ∷ masked 0x8 3 ∷ masked 0x7 0 ∷ [])

abbrev pub reg_ppu_misc_ctrl : Reg
reg_ppu_misc_ctrl = reg 0x60dc (
    masked 0xffff0000 16
    ∷ masked 0xfe00 9
    ∷ masked 0x100 8
    ∷ masked 0x80 7
    ∷ masked 0x70 4
    ∷ masked 0xf 0
    ∷ [])

-- In the order of the header.
abbrev pub ppu_registers : List Reg
ppu_registers =
    reg_ppu_s_status ∷ reg_ppu_s_pointer ∷ reg_ppu_operation_enable ∷ reg_ppu_data_cube_in_width
    ∷ reg_ppu_data_cube_in_height ∷ reg_ppu_data_cube_in_channel ∷ reg_ppu_data_cube_out_width
    ∷ reg_ppu_data_cube_out_height ∷ reg_ppu_data_cube_out_channel ∷ reg_ppu_operation_mode_cfg
    ∷ reg_ppu_pooling_kernel_cfg ∷ reg_ppu_recip_kernel_width ∷ reg_ppu_recip_kernel_height
    ∷ reg_ppu_pooling_padding_cfg ∷ reg_ppu_padding_value_1_cfg ∷ reg_ppu_padding_value_2_cfg
    ∷ reg_ppu_dst_base_addr ∷ reg_ppu_dst_surf_stride ∷ reg_ppu_data_format ∷ reg_ppu_misc_ctrl ∷ []
