-- ===== src/Npu/Hw.antt =====
-- include/npu_hw.h: the registers, the blocks that own them, the operation codes, and the encoding
-- of a register command as a 64-bit word.
pub mod Decode
use librocket.Prelude.{ℕ, ◌*◌, ◌%◌, ◌^◌, u32, u64, ◌<<◌, ◌&◌, ◌bitor◌}

-- The register addresses that the header defines, in its order.
pub data Register : Type 0 where
  pc_operation_enable pc_base_address pc_register_amounts cna_s_pointer : Register
  cna_conv_con1 cna_conv_con2 cna_conv_con3 cna_data_size0 cna_data_size1 : Register
  cna_data_size2 cna_data_size3 cna_weight_size0 cna_weight_size1 cna_weight_size2 : Register
  cna_cbuf_con0 cna_cbuf_con1 cna_cvt_con0 cna_cvt_con1 cna_cvt_con2 cna_cvt_con3 : Register
  cna_cvt_con4 cna_fc_con0 cna_fc_con1 cna_pad_con0 cna_feature_data_addr : Register
  cna_fc_con2 cna_dma_con0 cna_dma_con1 cna_dma_con2 cna_fc_data_size0 : Register
  cna_fc_data_size1 cna_dcomp_ctrl cna_dcomp_regnum cna_dcomp_addr0 : Register
  cna_dcomp_amount cna_dcomp_amount1 cna_dcomp_amount2 cna_dcomp_amount3 : Register
  cna_dcomp_amount4 cna_dcomp_amount5 cna_dcomp_amount6 cna_dcomp_amount7 : Register
  cna_dcomp_amount8 cna_dcomp_amount9 cna_dcomp_amount10 cna_dcomp_amount11 : Register
  cna_dcomp_amount12 cna_dcomp_amount13 cna_dcomp_amount14 cna_dcomp_amount15 : Register
  cna_cvt_con5 cna_pad_con1 core_s_pointer core_misc_cfg core_dataout_size_0 : Register
  core_dataout_size_1 core_clip_truncate core_3030 dpu_s_pointer : Register
  dpu_feature_mode_cfg dpu_data_format dpu_offset_pend dpu_dst_base_add : Register
  dpu_dst_surf_stride dpu_data_cube_width dpu_data_cube_height : Register
  dpu_data_cube_notch_addr dpu_data_cube_channel dpu_bs_cfg dpu_bs_alu_cfg : Register
  dpu_bs_mul_cfg dpu_bs_relux_cmp_value dpu_bs_ow_cfg dpu_bs_ow_op dpu_wdma_size_0 : Register
  dpu_wdma_size_1 dpu_bn_cfg dpu_bn_alu_cfg dpu_bn_mul_cfg dpu_bn_relux_cmp_value : Register
  dpu_ew_cfg dpu_ew_cvt_offset_value dpu_ew_cvt_scale_value dpu_ew_relux_cmp_value : Register
  dpu_out_cvt_offset dpu_out_cvt_scale dpu_out_cvt_shift dpu_ew_op_value_0 : Register
  dpu_ew_op_value_1 dpu_ew_op_value_2 dpu_ew_op_value_3 dpu_ew_op_value_4 : Register
  dpu_ew_op_value_5 dpu_ew_op_value_6 dpu_ew_op_value_7 dpu_surface_add dpu_40c4 : Register
  dpu_lut_access_cfg dpu_lut_access_data dpu_lut_cfg dpu_lut_info dpu_lut_le_start : Register
  dpu_lut_le_end dpu_lut_lo_start dpu_lut_lo_end dpu_lut_le_slope_scale : Register
  dpu_lut_le_slope_shift dpu_lut_lo_slope_scale dpu_lut_lo_slope_shift : Register

unfoldable pub address : Register → ℕ
address pc_operation_enable = 0x0008
address pc_base_address = 0x0010
address pc_register_amounts = 0x0014
address cna_s_pointer = 0x1004
address cna_conv_con1 = 0x100c
address cna_conv_con2 = 0x1010
address cna_conv_con3 = 0x1014
address cna_data_size0 = 0x1020
address cna_data_size1 = 0x1024
address cna_data_size2 = 0x1028
address cna_data_size3 = 0x102c
address cna_weight_size0 = 0x1030
address cna_weight_size1 = 0x1034
address cna_weight_size2 = 0x1038
address cna_cbuf_con0 = 0x1040
address cna_cbuf_con1 = 0x1044
address cna_cvt_con0 = 0x104c
address cna_cvt_con1 = 0x1050
address cna_cvt_con2 = 0x1054
address cna_cvt_con3 = 0x1058
address cna_cvt_con4 = 0x105c
address cna_fc_con0 = 0x1060
address cna_fc_con1 = 0x1064
address cna_pad_con0 = 0x1068
address cna_feature_data_addr = 0x1070
address cna_fc_con2 = 0x1074
address cna_dma_con0 = 0x1078
address cna_dma_con1 = 0x107c
address cna_dma_con2 = 0x1080
address cna_fc_data_size0 = 0x1084
address cna_fc_data_size1 = 0x1088
address cna_dcomp_ctrl = 0x1100
address cna_dcomp_regnum = 0x1104
address cna_dcomp_addr0 = 0x1110
address cna_dcomp_amount = 0x1140
address cna_dcomp_amount1 = 0x1144
address cna_dcomp_amount2 = 0x1148
address cna_dcomp_amount3 = 0x114c
address cna_dcomp_amount4 = 0x1150
address cna_dcomp_amount5 = 0x1154
address cna_dcomp_amount6 = 0x1158
address cna_dcomp_amount7 = 0x115c
address cna_dcomp_amount8 = 0x1160
address cna_dcomp_amount9 = 0x1164
address cna_dcomp_amount10 = 0x1168
address cna_dcomp_amount11 = 0x116c
address cna_dcomp_amount12 = 0x1170
address cna_dcomp_amount13 = 0x1174
address cna_dcomp_amount14 = 0x1178
address cna_dcomp_amount15 = 0x117c
address cna_cvt_con5 = 0x1180
address cna_pad_con1 = 0x1184
address core_s_pointer = 0x3004
address core_misc_cfg = 0x3010
address core_dataout_size_0 = 0x3014
address core_dataout_size_1 = 0x3018
address core_clip_truncate = 0x301c
address core_3030 = 0x3030
address dpu_s_pointer = 0x4004
address dpu_feature_mode_cfg = 0x400c
address dpu_data_format = 0x4010
address dpu_offset_pend = 0x4014
address dpu_dst_base_add = 0x4020
address dpu_dst_surf_stride = 0x4024
address dpu_data_cube_width = 0x4030
address dpu_data_cube_height = 0x4034
address dpu_data_cube_notch_addr = 0x4038
address dpu_data_cube_channel = 0x403c
address dpu_bs_cfg = 0x4040
address dpu_bs_alu_cfg = 0x4044
address dpu_bs_mul_cfg = 0x4048
address dpu_bs_relux_cmp_value = 0x404c
address dpu_bs_ow_cfg = 0x4050
address dpu_bs_ow_op = 0x4054
address dpu_wdma_size_0 = 0x4058
address dpu_wdma_size_1 = 0x405c
address dpu_bn_cfg = 0x4060
address dpu_bn_alu_cfg = 0x4064
address dpu_bn_mul_cfg = 0x4068
address dpu_bn_relux_cmp_value = 0x406c
address dpu_ew_cfg = 0x4070
address dpu_ew_cvt_offset_value = 0x4074
address dpu_ew_cvt_scale_value = 0x4078
address dpu_ew_relux_cmp_value = 0x407c
address dpu_out_cvt_offset = 0x4080
address dpu_out_cvt_scale = 0x4084
address dpu_out_cvt_shift = 0x4088
address dpu_ew_op_value_0 = 0x4090
address dpu_ew_op_value_1 = 0x4094
address dpu_ew_op_value_2 = 0x4098
address dpu_ew_op_value_3 = 0x409c
address dpu_ew_op_value_4 = 0x40a0
address dpu_ew_op_value_5 = 0x40a4
address dpu_ew_op_value_6 = 0x40a8
address dpu_ew_op_value_7 = 0x40ac
address dpu_surface_add = 0x40c0
address dpu_40c4 = 0x40c4
address dpu_lut_access_cfg = 0x4100
address dpu_lut_access_data = 0x4104
address dpu_lut_cfg = 0x4108
address dpu_lut_info = 0x410c
address dpu_lut_le_start = 0x4110
address dpu_lut_le_end = 0x4114
address dpu_lut_lo_start = 0x4118
address dpu_lut_lo_end = 0x411c
address dpu_lut_le_slope_scale = 0x4120
address dpu_lut_le_slope_shift = 0x4124
address dpu_lut_lo_slope_scale = 0x4128
address dpu_lut_lo_slope_shift = 0x412c

-- BLOCK_*
abbrev pub block_pc : ℕ
block_pc = 0x0100

abbrev pub block_cna : ℕ
block_cna = 0x0200

abbrev pub block_core : ℕ
block_core = 0x0800

abbrev pub block_dpu : ℕ
block_dpu = 0x1000

abbrev pub pc_op_01 : ℕ
pc_op_01 = 0x01

abbrev pub pc_op_40 : ℕ
pc_op_40 = 0x40

abbrev pub pc_op_enable : ℕ
pc_op_enable = 0x80

abbrev pub op_reg_pc : ℕ
op_reg_pc = block_pc bitor pc_op_01

abbrev pub op_reg_cna : ℕ
op_reg_cna = block_cna bitor pc_op_01

abbrev pub op_reg_core : ℕ
op_reg_core = block_core bitor pc_op_01

abbrev pub op_reg_dpu : ℕ
op_reg_dpu = block_dpu bitor pc_op_01

abbrev pub op_40 : ℕ
op_40 = pc_op_40 bitor pc_op_01

abbrev pub op_enable : ℕ
op_enable = pc_op_enable bitor pc_op_01

abbrev pub op_none : ℕ
op_none = 0x0

-- PC_ENABLE, PC_ENABLE_CNA and PC_ENABLE_DPU.
abbrev pub enable_pc : ℕ
enable_pc = 0x01

abbrev pub enable_cna : ℕ
enable_cna = 0x04

abbrev pub enable_dpu : ℕ
enable_dpu = 0x08

-- NPUOP
unfoldable pub npuop : ℕ → ℕ → ℕ → ℕ
npuop op value reg =
    u64 ((op & 0xffff) << 48) bitor u64 ((value & 0xffffffff) << 16) bitor (reg & 0xffff)

abbrev pub npu_cbuf_bank_size : ℕ
npu_cbuf_bank_size = 32768

abbrev pub npu_cbuf_banks : ℕ
npu_cbuf_banks = 12

abbrev pub direct_convolution : ℕ
direct_convolution = 0

pub data Precision : Type 0 where
  int8 float16 int32 float32 : Precision

-- The value of the enumeration constant.
abbrev pub precision : Precision → ℕ
precision int8 = 0
precision float16 = 2
precision int32 = 4
precision float32 = 5

-- The arguments of one NPUOP, and the word that it makes of them.
pub record Command : Type 0 where
  pub op : ℕ
  pub value : ℕ
  pub reg : ℕ

abbrev pub command : ℕ → ℕ → ℕ → Command
command o v r = record { op = o; value = v; reg = r }

unfoldable pub encode : Command → ℕ
encode c = npuop c.op c.value c.reg
