-- ===== src/Registers/Agree.antt =====
-- include/npu_hw.h and include/mesa_registers.h have the same register addresses.
use librocket.Prelude.{ℕ, ◌≡◌, refl, Option, some, none}
use librocket.Npu.Hw.{
  Register, address, pc_operation_enable, pc_base_address, pc_register_amounts, cna_s_pointer,
  cna_conv_con1, cna_conv_con2, cna_conv_con3, cna_data_size0, cna_data_size1, cna_data_size2,
  cna_data_size3, cna_weight_size0, cna_weight_size1, cna_weight_size2, cna_cbuf_con0,
  cna_cbuf_con1, cna_cvt_con0, cna_cvt_con1, cna_cvt_con2, cna_cvt_con3, cna_cvt_con4, cna_fc_con0,
  cna_fc_con1, cna_pad_con0, cna_feature_data_addr, cna_fc_con2, cna_dma_con0, cna_dma_con1,
  cna_dma_con2, cna_fc_data_size0, cna_fc_data_size1, cna_dcomp_ctrl, cna_dcomp_regnum,
  cna_dcomp_addr0, cna_dcomp_amount, cna_dcomp_amount1, cna_dcomp_amount2, cna_dcomp_amount3,
  cna_dcomp_amount4, cna_dcomp_amount5, cna_dcomp_amount6, cna_dcomp_amount7, cna_dcomp_amount8,
  cna_dcomp_amount9, cna_dcomp_amount10, cna_dcomp_amount11, cna_dcomp_amount12, cna_dcomp_amount13,
  cna_dcomp_amount14, cna_dcomp_amount15, cna_cvt_con5, cna_pad_con1, core_s_pointer, core_misc_cfg,
  core_dataout_size_0, core_dataout_size_1, core_clip_truncate, core_3030, dpu_s_pointer,
  dpu_feature_mode_cfg, dpu_data_format, dpu_offset_pend, dpu_dst_base_add, dpu_dst_surf_stride,
  dpu_data_cube_width, dpu_data_cube_height, dpu_data_cube_notch_addr, dpu_data_cube_channel,
  dpu_bs_cfg, dpu_bs_alu_cfg, dpu_bs_mul_cfg, dpu_bs_relux_cmp_value, dpu_bs_ow_cfg, dpu_bs_ow_op,
  dpu_wdma_size_0, dpu_wdma_size_1, dpu_bn_cfg, dpu_bn_alu_cfg, dpu_bn_mul_cfg,
  dpu_bn_relux_cmp_value, dpu_ew_cfg, dpu_ew_cvt_offset_value, dpu_ew_cvt_scale_value,
  dpu_ew_relux_cmp_value, dpu_out_cvt_offset, dpu_out_cvt_scale, dpu_out_cvt_shift,
  dpu_ew_op_value_0, dpu_ew_op_value_1, dpu_ew_op_value_2, dpu_ew_op_value_3, dpu_ew_op_value_4,
  dpu_ew_op_value_5, dpu_ew_op_value_6, dpu_ew_op_value_7, dpu_surface_add, dpu_40c4,
  dpu_lut_access_cfg, dpu_lut_access_data, dpu_lut_cfg, dpu_lut_info, dpu_lut_le_start,
  dpu_lut_le_end, dpu_lut_lo_start, dpu_lut_lo_end, dpu_lut_le_slope_scale, dpu_lut_le_slope_shift,
  dpu_lut_lo_slope_scale, dpu_lut_lo_slope_shift,
}
use librocket.Registers.{Reg}
use librocket.Registers.Names.{documented}

-- The address is the offset of the register, where there is one.
abbrev pub Agrees : Option Reg → ℕ → Type 0
Agrees none a = Unit
Agrees (some r) a = a ≡ r.offset

-- Each register of include/npu_hw.h, but the two without a counterpart, has the address that
-- the register of the same name has in the table of include/mesa_registers.h.
pub address-Agrees : (r : Register) → Agrees (documented r) (address r)
unfolding address
address-Agrees pc_operation_enable = refl
address-Agrees pc_base_address = refl
address-Agrees pc_register_amounts = refl
address-Agrees cna_s_pointer = refl
address-Agrees cna_conv_con1 = refl
address-Agrees cna_conv_con2 = refl
address-Agrees cna_conv_con3 = refl
address-Agrees cna_data_size0 = refl
address-Agrees cna_data_size1 = refl
address-Agrees cna_data_size2 = refl
address-Agrees cna_data_size3 = refl
address-Agrees cna_weight_size0 = refl
address-Agrees cna_weight_size1 = refl
address-Agrees cna_weight_size2 = refl
address-Agrees cna_cbuf_con0 = refl
address-Agrees cna_cbuf_con1 = refl
address-Agrees cna_cvt_con0 = refl
address-Agrees cna_cvt_con1 = refl
address-Agrees cna_cvt_con2 = refl
address-Agrees cna_cvt_con3 = refl
address-Agrees cna_cvt_con4 = refl
address-Agrees cna_fc_con0 = refl
address-Agrees cna_fc_con1 = refl
address-Agrees cna_pad_con0 = refl
address-Agrees cna_feature_data_addr = refl
address-Agrees cna_fc_con2 = refl
address-Agrees cna_dma_con0 = refl
address-Agrees cna_dma_con1 = refl
address-Agrees cna_dma_con2 = refl
address-Agrees cna_fc_data_size0 = refl
address-Agrees cna_fc_data_size1 = refl
address-Agrees cna_dcomp_ctrl = refl
address-Agrees cna_dcomp_regnum = refl
address-Agrees cna_dcomp_addr0 = refl
address-Agrees cna_dcomp_amount = refl
address-Agrees cna_dcomp_amount1 = refl
address-Agrees cna_dcomp_amount2 = refl
address-Agrees cna_dcomp_amount3 = refl
address-Agrees cna_dcomp_amount4 = refl
address-Agrees cna_dcomp_amount5 = refl
address-Agrees cna_dcomp_amount6 = refl
address-Agrees cna_dcomp_amount7 = refl
address-Agrees cna_dcomp_amount8 = refl
address-Agrees cna_dcomp_amount9 = refl
address-Agrees cna_dcomp_amount10 = refl
address-Agrees cna_dcomp_amount11 = refl
address-Agrees cna_dcomp_amount12 = refl
address-Agrees cna_dcomp_amount13 = refl
address-Agrees cna_dcomp_amount14 = refl
address-Agrees cna_dcomp_amount15 = refl
address-Agrees cna_cvt_con5 = refl
address-Agrees cna_pad_con1 = refl
address-Agrees core_s_pointer = refl
address-Agrees core_misc_cfg = refl
address-Agrees core_dataout_size_0 = refl
address-Agrees core_dataout_size_1 = refl
address-Agrees core_clip_truncate = refl
address-Agrees core_3030 = tt
address-Agrees dpu_s_pointer = refl
address-Agrees dpu_feature_mode_cfg = refl
address-Agrees dpu_data_format = refl
address-Agrees dpu_offset_pend = refl
address-Agrees dpu_dst_base_add = refl
address-Agrees dpu_dst_surf_stride = refl
address-Agrees dpu_data_cube_width = refl
address-Agrees dpu_data_cube_height = refl
address-Agrees dpu_data_cube_notch_addr = refl
address-Agrees dpu_data_cube_channel = refl
address-Agrees dpu_bs_cfg = refl
address-Agrees dpu_bs_alu_cfg = refl
address-Agrees dpu_bs_mul_cfg = refl
address-Agrees dpu_bs_relux_cmp_value = refl
address-Agrees dpu_bs_ow_cfg = refl
address-Agrees dpu_bs_ow_op = refl
address-Agrees dpu_wdma_size_0 = refl
address-Agrees dpu_wdma_size_1 = refl
address-Agrees dpu_bn_cfg = refl
address-Agrees dpu_bn_alu_cfg = refl
address-Agrees dpu_bn_mul_cfg = refl
address-Agrees dpu_bn_relux_cmp_value = refl
address-Agrees dpu_ew_cfg = refl
address-Agrees dpu_ew_cvt_offset_value = refl
address-Agrees dpu_ew_cvt_scale_value = refl
address-Agrees dpu_ew_relux_cmp_value = refl
address-Agrees dpu_out_cvt_offset = refl
address-Agrees dpu_out_cvt_scale = refl
address-Agrees dpu_out_cvt_shift = refl
address-Agrees dpu_ew_op_value_0 = refl
address-Agrees dpu_ew_op_value_1 = refl
address-Agrees dpu_ew_op_value_2 = refl
address-Agrees dpu_ew_op_value_3 = refl
address-Agrees dpu_ew_op_value_4 = refl
address-Agrees dpu_ew_op_value_5 = refl
address-Agrees dpu_ew_op_value_6 = refl
address-Agrees dpu_ew_op_value_7 = refl
address-Agrees dpu_surface_add = refl
address-Agrees dpu_40c4 = tt
address-Agrees dpu_lut_access_cfg = refl
address-Agrees dpu_lut_access_data = refl
address-Agrees dpu_lut_cfg = refl
address-Agrees dpu_lut_info = refl
address-Agrees dpu_lut_le_start = refl
address-Agrees dpu_lut_le_end = refl
address-Agrees dpu_lut_lo_start = refl
address-Agrees dpu_lut_lo_end = refl
address-Agrees dpu_lut_le_slope_scale = refl
address-Agrees dpu_lut_le_slope_shift = refl
address-Agrees dpu_lut_lo_slope_scale = refl
address-Agrees dpu_lut_lo_slope_shift = refl
