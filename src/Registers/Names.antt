-- ===== src/Registers/Names.antt =====
-- The register of include/mesa_registers.h for each register of include/npu_hw.h.
use librocket.Prelude.{Option, some, none}
use librocket.Npu.Hw.{
  Register, pc_operation_enable, pc_base_address, pc_register_amounts, cna_s_pointer, cna_conv_con1,
  cna_conv_con2, cna_conv_con3, cna_data_size0, cna_data_size1, cna_data_size2, cna_data_size3,
  cna_weight_size0, cna_weight_size1, cna_weight_size2, cna_cbuf_con0, cna_cbuf_con1, cna_cvt_con0,
  cna_cvt_con1, cna_cvt_con2, cna_cvt_con3, cna_cvt_con4, cna_fc_con0, cna_fc_con1, cna_pad_con0,
  cna_feature_data_addr, cna_fc_con2, cna_dma_con0, cna_dma_con1, cna_dma_con2, cna_fc_data_size0,
  cna_fc_data_size1, cna_dcomp_ctrl, cna_dcomp_regnum, cna_dcomp_addr0, cna_dcomp_amount,
  cna_dcomp_amount1, cna_dcomp_amount2, cna_dcomp_amount3, cna_dcomp_amount4, cna_dcomp_amount5,
  cna_dcomp_amount6, cna_dcomp_amount7, cna_dcomp_amount8, cna_dcomp_amount9, cna_dcomp_amount10,
  cna_dcomp_amount11, cna_dcomp_amount12, cna_dcomp_amount13, cna_dcomp_amount14,
  cna_dcomp_amount15, cna_cvt_con5, cna_pad_con1, core_s_pointer, core_misc_cfg,
  core_dataout_size_0, core_dataout_size_1, core_clip_truncate, core_3030, dpu_s_pointer,
  dpu_feature_mode_cfg, dpu_data_format, dpu_offset_pend, dpu_dst_base_add, dpu_dst_surf_stride,
  dpu_data_cube_width, dpu_data_cube_height, dpu_data_cube_notch_addr, dpu_data_cube_channel,
  dpu_bs_cfg, dpu_bs_alu_cfg, dpu_bs_mul_cfg, dpu_bs_relux_cmp_value, dpu_bs_ow_cfg, dpu_bs_ow_op,
  dpu_wdma_size_0, dpu_wdma_size_1, dpu_bn_cfg, dpu_bn_alu_cfg, dpu_bn_mul_cfg,
  dpu_bn_relux_cmp_value, dpu_ew_cfg, dpu_ew_cvt_offset_value, dpu_ew_cvt_scale_value,
  dpu_ew_relux_cmp_value, dpu_out_cvt_offset, dpu_out_cvt_scale, dpu_out_cvt_shift,
  dpu_ew_op_value_0, dpu_ew_op_value_1, dpu_ew_op_value_2, dpu_ew_op_value_3, dpu_ew_op_value_4,
  dpu_ew_op_value_5, dpu_ew_op_value_6, dpu_ew_op_value_7, dpu_surface_add, dpu_40c4,
  dpu_lut_access_cfg, dpu_lut_access_data, dpu_lut_cfg, dpu_lut_info, dpu_lut_le_start,
  dpu_lut_le_end, dpu_lut_lo_start, dpu_lut_lo_end, dpu_lut_le_slope_scale, dpu_lut_le_slope_shift,
  dpu_lut_lo_slope_scale, dpu_lut_lo_slope_shift,
}
use librocket.Registers.{Reg}
use librocket.Registers.Pc.{reg_pc_operation_enable, reg_pc_base_address, reg_pc_register_amounts}
use librocket.Registers.CnaFront.{
  reg_cna_s_pointer, reg_cna_conv_con1, reg_cna_conv_con2, reg_cna_conv_con3, reg_cna_data_size0,
  reg_cna_data_size1, reg_cna_data_size2, reg_cna_data_size3, reg_cna_weight_size0,
  reg_cna_weight_size1, reg_cna_weight_size2, reg_cna_cbuf_con0, reg_cna_cbuf_con1,
  reg_cna_cvt_con0, reg_cna_cvt_con1, reg_cna_cvt_con2, reg_cna_cvt_con3, reg_cna_cvt_con4,
  reg_cna_fc_con0, reg_cna_fc_con1, reg_cna_pad_con0, reg_cna_feature_data_addr, reg_cna_fc_con2,
  reg_cna_dma_con0,
}
use librocket.Registers.CnaBack.{
  reg_cna_dma_con1, reg_cna_dma_con2, reg_cna_fc_data_size0, reg_cna_fc_data_size1,
  reg_cna_dcomp_ctrl, reg_cna_dcomp_regnum, reg_cna_dcomp_addr0, reg_cna_dcomp_amount0,
  reg_cna_dcomp_amount1, reg_cna_dcomp_amount2, reg_cna_dcomp_amount3, reg_cna_dcomp_amount4,
  reg_cna_dcomp_amount5, reg_cna_dcomp_amount6, reg_cna_dcomp_amount7, reg_cna_dcomp_amount8,
  reg_cna_dcomp_amount9, reg_cna_dcomp_amount10, reg_cna_dcomp_amount11, reg_cna_dcomp_amount12,
  reg_cna_dcomp_amount13, reg_cna_dcomp_amount14, reg_cna_dcomp_amount15, reg_cna_cvt_con5,
  reg_cna_pad_con1,
}
use librocket.Registers.Core.{
  reg_core_s_pointer, reg_core_misc_cfg, reg_core_dataout_size_0, reg_core_dataout_size_1,
  reg_core_clip_truncate,
}
use librocket.Registers.DpuFront.{
  reg_dpu_s_pointer, reg_dpu_feature_mode_cfg, reg_dpu_data_format, reg_dpu_offset_pend,
  reg_dpu_dst_base_addr, reg_dpu_dst_surf_stride, reg_dpu_data_cube_width, reg_dpu_data_cube_height,
  reg_dpu_data_cube_notch_addr, reg_dpu_data_cube_channel, reg_dpu_bs_cfg, reg_dpu_bs_alu_cfg,
  reg_dpu_bs_mul_cfg, reg_dpu_bs_relux_cmp_value, reg_dpu_bs_ow_cfg, reg_dpu_bs_ow_op,
  reg_dpu_wdma_size_0, reg_dpu_wdma_size_1, reg_dpu_bn_cfg, reg_dpu_bn_alu_cfg, reg_dpu_bn_mul_cfg,
  reg_dpu_bn_relux_cmp_value, reg_dpu_ew_cfg, reg_dpu_ew_cvt_offset_value,
}
use librocket.Registers.DpuBack.{
  reg_dpu_ew_cvt_scale_value, reg_dpu_ew_relux_cmp_value, reg_dpu_out_cvt_offset,
  reg_dpu_out_cvt_scale, reg_dpu_out_cvt_shift, reg_dpu_ew_op_value_0, reg_dpu_ew_op_value_1,
  reg_dpu_ew_op_value_2, reg_dpu_ew_op_value_3, reg_dpu_ew_op_value_4, reg_dpu_ew_op_value_5,
  reg_dpu_ew_op_value_6, reg_dpu_ew_op_value_7, reg_dpu_surface_add, reg_dpu_lut_access_cfg,
  reg_dpu_lut_access_data, reg_dpu_lut_cfg, reg_dpu_lut_info, reg_dpu_lut_le_start,
  reg_dpu_lut_le_end, reg_dpu_lut_lo_start, reg_dpu_lut_lo_end, reg_dpu_lut_le_slope_scale,
  reg_dpu_lut_le_slope_shift, reg_dpu_lut_lo_slope_scale, reg_dpu_lut_lo_slope_shift,
}

-- By name. Two have no counterpart there, and two are spelled differently: CNA_DCOMP_AMOUNT is
-- CNA_DCOMP_AMOUNT0, and DPU_DST_BASE_ADD is DPU_DST_BASE_ADDR.
abbrev pub documented : Register → Option Reg
documented pc_operation_enable = some reg_pc_operation_enable
documented pc_base_address = some reg_pc_base_address
documented pc_register_amounts = some reg_pc_register_amounts
documented cna_s_pointer = some reg_cna_s_pointer
documented cna_conv_con1 = some reg_cna_conv_con1
documented cna_conv_con2 = some reg_cna_conv_con2
documented cna_conv_con3 = some reg_cna_conv_con3
documented cna_data_size0 = some reg_cna_data_size0
documented cna_data_size1 = some reg_cna_data_size1
documented cna_data_size2 = some reg_cna_data_size2
documented cna_data_size3 = some reg_cna_data_size3
documented cna_weight_size0 = some reg_cna_weight_size0
documented cna_weight_size1 = some reg_cna_weight_size1
documented cna_weight_size2 = some reg_cna_weight_size2
documented cna_cbuf_con0 = some reg_cna_cbuf_con0
documented cna_cbuf_con1 = some reg_cna_cbuf_con1
documented cna_cvt_con0 = some reg_cna_cvt_con0
documented cna_cvt_con1 = some reg_cna_cvt_con1
documented cna_cvt_con2 = some reg_cna_cvt_con2
documented cna_cvt_con3 = some reg_cna_cvt_con3
documented cna_cvt_con4 = some reg_cna_cvt_con4
documented cna_fc_con0 = some reg_cna_fc_con0
documented cna_fc_con1 = some reg_cna_fc_con1
documented cna_pad_con0 = some reg_cna_pad_con0
documented cna_feature_data_addr = some reg_cna_feature_data_addr
documented cna_fc_con2 = some reg_cna_fc_con2
documented cna_dma_con0 = some reg_cna_dma_con0
documented cna_dma_con1 = some reg_cna_dma_con1
documented cna_dma_con2 = some reg_cna_dma_con2
documented cna_fc_data_size0 = some reg_cna_fc_data_size0
documented cna_fc_data_size1 = some reg_cna_fc_data_size1
documented cna_dcomp_ctrl = some reg_cna_dcomp_ctrl
documented cna_dcomp_regnum = some reg_cna_dcomp_regnum
documented cna_dcomp_addr0 = some reg_cna_dcomp_addr0
documented cna_dcomp_amount = some reg_cna_dcomp_amount0
documented cna_dcomp_amount1 = some reg_cna_dcomp_amount1
documented cna_dcomp_amount2 = some reg_cna_dcomp_amount2
documented cna_dcomp_amount3 = some reg_cna_dcomp_amount3
documented cna_dcomp_amount4 = some reg_cna_dcomp_amount4
documented cna_dcomp_amount5 = some reg_cna_dcomp_amount5
documented cna_dcomp_amount6 = some reg_cna_dcomp_amount6
documented cna_dcomp_amount7 = some reg_cna_dcomp_amount7
documented cna_dcomp_amount8 = some reg_cna_dcomp_amount8
documented cna_dcomp_amount9 = some reg_cna_dcomp_amount9
documented cna_dcomp_amount10 = some reg_cna_dcomp_amount10
documented cna_dcomp_amount11 = some reg_cna_dcomp_amount11
documented cna_dcomp_amount12 = some reg_cna_dcomp_amount12
documented cna_dcomp_amount13 = some reg_cna_dcomp_amount13
documented cna_dcomp_amount14 = some reg_cna_dcomp_amount14
documented cna_dcomp_amount15 = some reg_cna_dcomp_amount15
documented cna_cvt_con5 = some reg_cna_cvt_con5
documented cna_pad_con1 = some reg_cna_pad_con1
documented core_s_pointer = some reg_core_s_pointer
documented core_misc_cfg = some reg_core_misc_cfg
documented core_dataout_size_0 = some reg_core_dataout_size_0
documented core_dataout_size_1 = some reg_core_dataout_size_1
documented core_clip_truncate = some reg_core_clip_truncate
documented core_3030 = none
documented dpu_s_pointer = some reg_dpu_s_pointer
documented dpu_feature_mode_cfg = some reg_dpu_feature_mode_cfg
documented dpu_data_format = some reg_dpu_data_format
documented dpu_offset_pend = some reg_dpu_offset_pend
documented dpu_dst_base_add = some reg_dpu_dst_base_addr
documented dpu_dst_surf_stride = some reg_dpu_dst_surf_stride
documented dpu_data_cube_width = some reg_dpu_data_cube_width
documented dpu_data_cube_height = some reg_dpu_data_cube_height
documented dpu_data_cube_notch_addr = some reg_dpu_data_cube_notch_addr
documented dpu_data_cube_channel = some reg_dpu_data_cube_channel
documented dpu_bs_cfg = some reg_dpu_bs_cfg
documented dpu_bs_alu_cfg = some reg_dpu_bs_alu_cfg
documented dpu_bs_mul_cfg = some reg_dpu_bs_mul_cfg
documented dpu_bs_relux_cmp_value = some reg_dpu_bs_relux_cmp_value
documented dpu_bs_ow_cfg = some reg_dpu_bs_ow_cfg
documented dpu_bs_ow_op = some reg_dpu_bs_ow_op
documented dpu_wdma_size_0 = some reg_dpu_wdma_size_0
documented dpu_wdma_size_1 = some reg_dpu_wdma_size_1
documented dpu_bn_cfg = some reg_dpu_bn_cfg
documented dpu_bn_alu_cfg = some reg_dpu_bn_alu_cfg
documented dpu_bn_mul_cfg = some reg_dpu_bn_mul_cfg
documented dpu_bn_relux_cmp_value = some reg_dpu_bn_relux_cmp_value
documented dpu_ew_cfg = some reg_dpu_ew_cfg
documented dpu_ew_cvt_offset_value = some reg_dpu_ew_cvt_offset_value
documented dpu_ew_cvt_scale_value = some reg_dpu_ew_cvt_scale_value
documented dpu_ew_relux_cmp_value = some reg_dpu_ew_relux_cmp_value
documented dpu_out_cvt_offset = some reg_dpu_out_cvt_offset
documented dpu_out_cvt_scale = some reg_dpu_out_cvt_scale
documented dpu_out_cvt_shift = some reg_dpu_out_cvt_shift
documented dpu_ew_op_value_0 = some reg_dpu_ew_op_value_0
documented dpu_ew_op_value_1 = some reg_dpu_ew_op_value_1
documented dpu_ew_op_value_2 = some reg_dpu_ew_op_value_2
documented dpu_ew_op_value_3 = some reg_dpu_ew_op_value_3
documented dpu_ew_op_value_4 = some reg_dpu_ew_op_value_4
documented dpu_ew_op_value_5 = some reg_dpu_ew_op_value_5
documented dpu_ew_op_value_6 = some reg_dpu_ew_op_value_6
documented dpu_ew_op_value_7 = some reg_dpu_ew_op_value_7
documented dpu_surface_add = some reg_dpu_surface_add
documented dpu_40c4 = none
documented dpu_lut_access_cfg = some reg_dpu_lut_access_cfg
documented dpu_lut_access_data = some reg_dpu_lut_access_data
documented dpu_lut_cfg = some reg_dpu_lut_cfg
documented dpu_lut_info = some reg_dpu_lut_info
documented dpu_lut_le_start = some reg_dpu_lut_le_start
documented dpu_lut_le_end = some reg_dpu_lut_le_end
documented dpu_lut_lo_start = some reg_dpu_lut_lo_start
documented dpu_lut_lo_end = some reg_dpu_lut_lo_end
documented dpu_lut_le_slope_scale = some reg_dpu_lut_le_slope_scale
documented dpu_lut_le_slope_shift = some reg_dpu_lut_le_slope_shift
documented dpu_lut_lo_slope_scale = some reg_dpu_lut_lo_slope_scale
documented dpu_lut_lo_slope_shift = some reg_dpu_lut_lo_slope_shift
