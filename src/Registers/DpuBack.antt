-- ===== src/Registers/DpuBack.antt =====
-- The DPU registers of include/mesa_registers.h, the second half.
use librocket.Prelude.{List, [], ◌∷◌}
use librocket.Registers.{Reg, reg, masked}

abbrev pub reg_dpu_ew_cvt_scale_value : Reg
reg_dpu_ew_cvt_scale_value =
    reg 0x4078 (masked 0xffc00000 22 ∷ masked 0x3f0000 16 ∷ masked 0xffff 0 ∷ [])

abbrev pub reg_dpu_ew_relux_cmp_value : Reg
reg_dpu_ew_relux_cmp_value = reg 0x407c (masked 0xffffffff 0 ∷ [])

abbrev pub reg_dpu_out_cvt_offset : Reg
reg_dpu_out_cvt_offset = reg 0x4080 (masked 0xffffffff 0 ∷ [])

abbrev pub reg_dpu_out_cvt_scale : Reg
reg_dpu_out_cvt_scale = reg 0x4084 (masked 0xfffe0000 17 ∷ masked 0x10000 16 ∷ masked 0xffff 0 ∷ [])

abbrev pub reg_dpu_out_cvt_shift : Reg
reg_dpu_out_cvt_shift = reg 0x4088 (
    masked 0x80000000 31
    ∷ masked 0x40000000 30
    ∷ masked 0x3ff00000 20
    ∷ masked 0xff000 12
    ∷ masked 0xfff 0
    ∷ [])

abbrev pub reg_dpu_ew_op_value_0 : Reg
reg_dpu_ew_op_value_0 = reg 0x4090 (masked 0xffffffff 0 ∷ [])

abbrev pub reg_dpu_ew_op_value_1 : Reg
reg_dpu_ew_op_value_1 = reg 0x4094 (masked 0xffffffff 0 ∷ [])

abbrev pub reg_dpu_ew_op_value_2 : Reg
reg_dpu_ew_op_value_2 = reg 0x4098 (masked 0xffffffff 0 ∷ [])

abbrev pub reg_dpu_ew_op_value_3 : Reg
reg_dpu_ew_op_value_3 = reg 0x409c (masked 0xffffffff 0 ∷ [])

abbrev pub reg_dpu_ew_op_value_4 : Reg
reg_dpu_ew_op_value_4 = reg 0x40a0 (masked 0xffffffff 0 ∷ [])

abbrev pub reg_dpu_ew_op_value_5 : Reg
reg_dpu_ew_op_value_5 = reg 0x40a4 (masked 0xffffffff 0 ∷ [])

abbrev pub reg_dpu_ew_op_value_6 : Reg
reg_dpu_ew_op_value_6 = reg 0x40a8 (masked 0xffffffff 0 ∷ [])

abbrev pub reg_dpu_ew_op_value_7 : Reg
reg_dpu_ew_op_value_7 = reg 0x40ac (masked 0xffffffff 0 ∷ [])

abbrev pub reg_dpu_surface_add : Reg
reg_dpu_surface_add = reg 0x40c0 (masked 0xfffffff0 4 ∷ masked 0xf 0 ∷ [])

abbrev pub reg_dpu_lut_access_cfg : Reg
reg_dpu_lut_access_cfg = reg 0x4100 (
    masked 0xfffc0000 18
    ∷ masked 0x20000 17
    ∷ masked 0x10000 16
    ∷ masked 0xfc00 10
    ∷ masked 0x3ff 0
    ∷ [])

abbrev pub reg_dpu_lut_access_data : Reg
reg_dpu_lut_access_data = reg 0x4104 (masked 0xffff0000 16 ∷ masked 0xffff 0 ∷ [])

abbrev pub reg_dpu_lut_cfg : Reg
reg_dpu_lut_cfg = reg 0x4108 (
    masked 0xffffff00 8
    ∷ masked 0x80 7
    ∷ masked 0x40 6
    ∷ masked 0x20 5
    ∷ masked 0x10 4
    ∷ masked 0xc 2
    ∷ masked 0x2 1
    ∷ masked 0x1 0
    ∷ [])

abbrev pub reg_dpu_lut_info : Reg
reg_dpu_lut_info =
    reg 0x410c (masked 0xff000000 24 ∷ masked 0xff0000 16 ∷ masked 0xff00 8 ∷ masked 0xff 0 ∷ [])

abbrev pub reg_dpu_lut_le_start : Reg
reg_dpu_lut_le_start = reg 0x4110 (masked 0xffffffff 0 ∷ [])

abbrev pub reg_dpu_lut_le_end : Reg
reg_dpu_lut_le_end = reg 0x4114 (masked 0xffffffff 0 ∷ [])

abbrev pub reg_dpu_lut_lo_start : Reg
reg_dpu_lut_lo_start = reg 0x4118 (masked 0xffffffff 0 ∷ [])

abbrev pub reg_dpu_lut_lo_end : Reg
reg_dpu_lut_lo_end = reg 0x411c (masked 0xffffffff 0 ∷ [])

abbrev pub reg_dpu_lut_le_slope_scale : Reg
reg_dpu_lut_le_slope_scale = reg 0x4120 (masked 0xffff0000 16 ∷ masked 0xffff 0 ∷ [])

abbrev pub reg_dpu_lut_le_slope_shift : Reg
reg_dpu_lut_le_slope_shift = reg 0x4124 (masked 0xfffffc00 10 ∷ masked 0x3e0 5 ∷ masked 0x1f 0 ∷ [])

abbrev pub reg_dpu_lut_lo_slope_scale : Reg
reg_dpu_lut_lo_slope_scale = reg 0x4128 (masked 0xffff0000 16 ∷ masked 0xffff 0 ∷ [])

abbrev pub reg_dpu_lut_lo_slope_shift : Reg
reg_dpu_lut_lo_slope_shift = reg 0x412c (masked 0xfffffc00 10 ∷ masked 0x3e0 5 ∷ masked 0x1f 0 ∷ [])

-- In the order of the header.
abbrev pub dpu_back_registers : List Reg
dpu_back_registers =
    reg_dpu_ew_cvt_scale_value ∷ reg_dpu_ew_relux_cmp_value ∷ reg_dpu_out_cvt_offset
    ∷ reg_dpu_out_cvt_scale ∷ reg_dpu_out_cvt_shift ∷ reg_dpu_ew_op_value_0 ∷ reg_dpu_ew_op_value_1
    ∷ reg_dpu_ew_op_value_2 ∷ reg_dpu_ew_op_value_3 ∷ reg_dpu_ew_op_value_4 ∷ reg_dpu_ew_op_value_5
    ∷ reg_dpu_ew_op_value_6 ∷ reg_dpu_ew_op_value_7 ∷ reg_dpu_surface_add ∷ reg_dpu_lut_access_cfg
    ∷ reg_dpu_lut_access_data ∷ reg_dpu_lut_cfg ∷ reg_dpu_lut_info ∷ reg_dpu_lut_le_start
    ∷ reg_dpu_lut_le_end ∷ reg_dpu_lut_lo_start ∷ reg_dpu_lut_lo_end ∷ reg_dpu_lut_le_slope_scale
    ∷ reg_dpu_lut_le_slope_shift ∷ reg_dpu_lut_lo_slope_scale ∷ reg_dpu_lut_lo_slope_shift ∷ []
