-- ===== src/Full/Dpu.antt =====
-- The CORE and DPU part of gen_matmul_fp16 of src/npu_matmul_full.c.
use librocket.Prelude.{◌*◌, List, [], ◌∷◌, u32, sub32, ◌&◌, ◌bitor◌}
use librocket.Npu.Desc.{Params}
use librocket.Regcmd.{Regcmd, regcmd_of, sign_extend}
use librocket.Registers.{place}
use librocket.Full.Undefined.{Missing}
use librocket.Registers.Core.{
  reg_core_clip_truncate, reg_core_dataout_size_0, reg_core_dataout_size_1, reg_core_misc_cfg,
}
use librocket.Registers.DpuBack.{
  reg_dpu_ew_relux_cmp_value, reg_dpu_lut_cfg, reg_dpu_lut_info, reg_dpu_lut_le_slope_scale,
  reg_dpu_lut_le_slope_shift, reg_dpu_lut_lo_slope_scale, reg_dpu_lut_lo_slope_shift,
  reg_dpu_out_cvt_offset, reg_dpu_out_cvt_scale, reg_dpu_out_cvt_shift, reg_dpu_surface_add,
}
use librocket.Registers.DpuFront.{
  reg_dpu_bn_alu_cfg, reg_dpu_bn_cfg, reg_dpu_bn_mul_cfg, reg_dpu_bn_relux_cmp_value,
  reg_dpu_bs_alu_cfg, reg_dpu_bs_cfg, reg_dpu_bs_mul_cfg, reg_dpu_bs_ow_cfg, reg_dpu_bs_ow_op,
  reg_dpu_bs_relux_cmp_value, reg_dpu_data_cube_channel, reg_dpu_data_cube_height,
  reg_dpu_data_cube_notch_addr, reg_dpu_data_cube_width, reg_dpu_data_format, reg_dpu_dst_base_addr,
  reg_dpu_dst_surf_stride, reg_dpu_ew_cfg, reg_dpu_feature_mode_cfg, reg_dpu_offset_pend,
  reg_dpu_wdma_size_0, reg_dpu_wdma_size_1,
}
use librocket.Registers.Helpers.Cna.{
  core_dataout_size_0_dataout_height, core_dataout_size_0_dataout_width,
  core_dataout_size_1_dataout_channel, core_misc_cfg_qd_en,
}
use librocket.Registers.Helpers.Dpu.{
  dpu_bn_cfg_bn_bypass, dpu_bs_cfg_bs_alu_algo, dpu_bs_cfg_bs_alu_src, dpu_bs_cfg_bs_mul_bypass,
  dpu_bs_cfg_bs_relu_bypass, dpu_bs_ow_cfg_size_e_0, dpu_bs_ow_cfg_size_e_1, dpu_bs_ow_cfg_size_e_2,
  dpu_data_cube_channel_channel, dpu_data_cube_channel_orig_channel, dpu_ew_cfg_ew_alu_algo,
  dpu_ew_cfg_ew_bypass, dpu_ew_cfg_ew_relu_bypass, dpu_feature_mode_cfg_burst_len,
  dpu_feature_mode_cfg_output_mode, dpu_lut_cfg_lut_uflow_priority, dpu_wdma_size_0_channel_wdma,
  dpu_wdma_size_1_height_wdma, dpu_wdma_size_1_width_wdma,
}
use librocket.Mesa.{target_core, target_dpu}

-- The CORE.
unfoldable pub core_regcmds : Params → List Regcmd
core_regcmds p =
    regcmd_of target_core (core_misc_cfg_qd_en 1) reg_core_misc_cfg.offset
    ∷ regcmd_of target_core
        (core_dataout_size_0_dataout_width 1 bitor core_dataout_size_0_dataout_height (sub32 p.m 1))
        reg_core_dataout_size_0.offset
    ∷ regcmd_of target_core (core_dataout_size_1_dataout_channel (sub32 p.n 1))
        reg_core_dataout_size_1.offset
    ∷ regcmd_of target_core 0 reg_core_clip_truncate.offset
    ∷ regcmd_of (target_core bitor 0x1) 0 0x3030
    ∷ []

-- The output of the DPU.
unfoldable pub dpu_regcmds : Params → List Regcmd
dpu_regcmds p =
    regcmd_of target_dpu
      (dpu_feature_mode_cfg_burst_len 15 bitor dpu_feature_mode_cfg_output_mode 2)
      reg_dpu_feature_mode_cfg.offset
    ∷ regcmd_of target_dpu 0 reg_dpu_data_format.offset
    ∷ regcmd_of target_dpu 0 reg_dpu_offset_pend.offset
    ∷ regcmd_of target_dpu (p.output_dma & 0xffffffff) reg_dpu_dst_base_addr.offset
    ∷ regcmd_of target_dpu (sign_extend (u32 (p.m * p.n * 2))) reg_dpu_dst_surf_stride.offset
    ∷ regcmd_of target_dpu 0 reg_dpu_data_cube_width.offset
    ∷ regcmd_of target_dpu (sign_extend (sub32 p.m 1)) reg_dpu_data_cube_height.offset
    ∷ regcmd_of target_dpu 0 reg_dpu_data_cube_notch_addr.offset
    ∷ regcmd_of target_dpu
        (dpu_data_cube_channel_orig_channel (sub32 p.n 1)
          bitor dpu_data_cube_channel_channel (sub32 p.n 1))
        reg_dpu_data_cube_channel.offset
    ∷ regcmd_of target_dpu
        (dpu_bs_cfg_bs_alu_algo 2
          bitor dpu_bs_cfg_bs_alu_src 1
          bitor dpu_bs_cfg_bs_relu_bypass 1
          bitor dpu_bs_cfg_bs_mul_bypass 1)
        reg_dpu_bs_cfg.offset
    ∷ regcmd_of target_dpu 0 reg_dpu_bs_alu_cfg.offset
    ∷ regcmd_of target_dpu 0 reg_dpu_bs_mul_cfg.offset
    ∷ regcmd_of target_dpu 0 reg_dpu_bs_relux_cmp_value.offset
    ∷ regcmd_of target_dpu
        (dpu_bs_ow_cfg_size_e_2 1 bitor dpu_bs_ow_cfg_size_e_1 1 bitor dpu_bs_ow_cfg_size_e_0 1)
        reg_dpu_bs_ow_cfg.offset
    ∷ regcmd_of target_dpu 0 reg_dpu_bs_ow_op.offset
    ∷ regcmd_of target_dpu (dpu_wdma_size_0_channel_wdma (sub32 p.n 1)) reg_dpu_wdma_size_0.offset
    ∷ regcmd_of target_dpu
        (dpu_wdma_size_1_height_wdma (sub32 p.m 1) bitor dpu_wdma_size_1_width_wdma 0)
        reg_dpu_wdma_size_1.offset
    ∷ []

-- The BN, EW and OUT_CVT stages of the DPU.
unfoldable pub elementwise_regcmds : Missing → List Regcmd
elementwise_regcmds missing =
    regcmd_of target_dpu (dpu_bn_cfg_bn_bypass 1) reg_dpu_bn_cfg.offset
    ∷ regcmd_of target_dpu 0 reg_dpu_bn_alu_cfg.offset
    ∷ regcmd_of target_dpu 0 reg_dpu_bn_mul_cfg.offset
    ∷ regcmd_of target_dpu 0 reg_dpu_bn_relux_cmp_value.offset
    ∷ regcmd_of target_dpu 0 missing.reg_dpu_bn_ow_cfg
    ∷ regcmd_of target_dpu
        (dpu_ew_cfg_ew_alu_algo 2
          bitor place (missing.dpu_ew_cfg_ew_alu_src) 1
          bitor dpu_ew_cfg_ew_relu_bypass 1
          bitor place (missing.dpu_ew_cfg_ew_mul_bypass) 1
          bitor dpu_ew_cfg_ew_bypass 1)
        reg_dpu_ew_cfg.offset
    ∷ regcmd_of target_dpu 0 missing.reg_dpu_ew_alu_cfg
    ∷ regcmd_of target_dpu 0 missing.reg_dpu_ew_alu_cvt_offset_value
    ∷ regcmd_of target_dpu 0 missing.reg_dpu_ew_alu_cvt_scale_value
    ∷ regcmd_of target_dpu 0 missing.reg_dpu_ew_alu_cvt_truncate_value
    ∷ regcmd_of target_dpu 0 missing.reg_dpu_ew_mul_cfg
    ∷ regcmd_of target_dpu 0 missing.reg_dpu_ew_mul_cvt_offset_value
    ∷ regcmd_of target_dpu 0 missing.reg_dpu_ew_mul_cvt_scale_value
    ∷ regcmd_of target_dpu 0 missing.reg_dpu_ew_mul_cvt_truncate_value
    ∷ regcmd_of target_dpu 0 reg_dpu_ew_relux_cmp_value.offset
    ∷ regcmd_of target_dpu 0 missing.reg_dpu_ew_ow_cfg
    ∷ regcmd_of target_dpu (place (missing.dpu_out_cvt_cfg_out_cvt_bypass) 1)
        missing.reg_dpu_out_cvt_cfg
    ∷ regcmd_of target_dpu 0 reg_dpu_out_cvt_offset.offset
    ∷ regcmd_of target_dpu 0 reg_dpu_out_cvt_scale.offset
    ∷ regcmd_of target_dpu 0 reg_dpu_out_cvt_shift.offset
    ∷ regcmd_of target_dpu 0 reg_dpu_surface_add.offset
    ∷ []

-- The tables of the DPU.
unfoldable pub lut_regcmds : Missing → List Regcmd
lut_regcmds missing =
    regcmd_of target_dpu
      (place (missing.dpu_lut_cfg_lut_le_function) 1 bitor dpu_lut_cfg_lut_uflow_priority 1)
      reg_dpu_lut_cfg.offset
    ∷ regcmd_of target_dpu 0 reg_dpu_lut_info.offset
    ∷ regcmd_of target_dpu 0 missing.reg_dpu_lut_le_start_low
    ∷ regcmd_of target_dpu 0 missing.reg_dpu_lut_le_start_high
    ∷ regcmd_of target_dpu 0 missing.reg_dpu_lut_le_end_low
    ∷ regcmd_of target_dpu 0 missing.reg_dpu_lut_le_end_high
    ∷ regcmd_of target_dpu 0 missing.reg_dpu_lut_lo_start_low
    ∷ regcmd_of target_dpu 0 missing.reg_dpu_lut_lo_start_high
    ∷ regcmd_of target_dpu 0 missing.reg_dpu_lut_lo_end_low
    ∷ regcmd_of target_dpu 0 missing.reg_dpu_lut_lo_end_high
    ∷ regcmd_of target_dpu 0 reg_dpu_lut_le_slope_scale.offset
    ∷ regcmd_of target_dpu 0 reg_dpu_lut_le_slope_shift.offset
    ∷ regcmd_of target_dpu 0 reg_dpu_lut_lo_slope_scale.offset
    ∷ regcmd_of target_dpu 0 reg_dpu_lut_lo_slope_shift.offset
    ∷ []
