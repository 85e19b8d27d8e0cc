-- ===== src/Npu/Values/Dpu/Found.antt =====
-- The fields of the DPU registers, found in the values that the code writes.
use librocket.Prelude.{◌%◌, ◌^◌, ◌≡◌, arith, bits}
use librocket.Npu.Desc.{DpuDesc}
use librocket.Npu.Values.Dpu.{
  feature_mode_cfg, data_format, dst_surf_stride, data_cube_width, data_cube_height,
  data_cube_channel, bs_cfg, bs_ow_cfg, wdma_size_0, wdma_size_1, bn_cfg, ew_cfg, out_cvt_scale,
  surface_add,
}
use librocket.Npu.Values.Dpu.Fields.{
  bn_cfg_sum, bs_cfg_sum, bs_ow_cfg_sum, data_cube_channel_sum, data_cube_height_sum,
  data_cube_width_sum, data_format_sum, dst_surf_stride_sum, ew_cfg_sum, feature_mode_cfg_sum,
  out_cvt_scale_sum, surface_add_sum, wdma_size_0_sum, wdma_size_1_sum,
}

-- Where each field of the descriptor stands in the registers of the DPU block, and what of it fits.
abbrev pub DpuFields : DpuDesc → Type 0
DpuFields d =
    (bits 5 4 (feature_mode_cfg d) ≡ d.burst_len % 2 ^ 4)
    × (bits 3 2 (feature_mode_cfg d) ≡ d.conv_mode % 2 ^ 2)
    × (bits 1 2 (feature_mode_cfg d) ≡ d.output_mode % 2 ^ 2)
    × (bits 0 1 (feature_mode_cfg d) ≡ d.flying_mode % 2 ^ 1)
    × (bits 29 3 (data_format d) ≡ d.out_precision % 2 ^ 3)
    × (bits 26 3 (data_format d) ≡ d.in_precision % 2 ^ 3)
    × (bits 0 3 (data_format d) ≡ d.proc_precision % 2 ^ 3)
    × (bits 4 28 (dst_surf_stride d) ≡ d.dst_surf_stride % 2 ^ 28)
    × (bits 0 13 (data_cube_width d) ≡ d.width % 2 ^ 13)
    × (bits 0 13 (data_cube_height d) ≡ d.height % 2 ^ 13)
    × (bits 16 13 (data_cube_channel d) ≡ d.channel % 2 ^ 13)
    × (bits 0 13 (data_cube_channel d) ≡ d.channel % 2 ^ 13)
    × (bits 6 1 (bs_cfg d) ≡ d.bs_relu_bypass % 2 ^ 1)
    × (bits 4 1 (bs_cfg d) ≡ d.bs_mul_bypass % 2 ^ 1)
    × (bits 1 1 (bs_cfg d) ≡ d.bs_alu_bypass % 2 ^ 1)
    × (bits 0 1 (bs_cfg d) ≡ d.bs_bypass % 2 ^ 1)
    × (bits 8 3 (bs_ow_cfg d) ≡ d.size_e_2 % 2 ^ 3)
    × (bits 5 3 (bs_ow_cfg d) ≡ d.size_e_1 % 2 ^ 3)
    × (bits 2 3 (bs_ow_cfg d) ≡ d.size_e_0 % 2 ^ 3)
    × (bits 1 1 (bs_ow_cfg d) ≡ d.od_bypass % 2 ^ 1)
    × (bits 0 13 (wdma_size_0 d) ≡ d.channel_wdma % 2 ^ 13)
    × (bits 16 13 (wdma_size_1 d) ≡ d.height_wdma % 2 ^ 13)
    × (bits 0 13 (wdma_size_1 d) ≡ d.width_wdma % 2 ^ 13)
    × (bits 6 1 (bn_cfg d) ≡ d.bn_relu_bypass % 2 ^ 1)
    × (bits 4 1 (bn_cfg d) ≡ d.bn_mul_bypass % 2 ^ 1)
    × (bits 1 1 (bn_cfg d) ≡ d.bn_alu_bypass % 2 ^ 1)
    × (bits 0 1 (bn_cfg d) ≡ d.bn_bypass % 2 ^ 1)
    × (bits 9 1 (ew_cfg d) ≡ d.ew_relu_bypass % 2 ^ 1)
    × (bits 8 1 (ew_cfg d) ≡ d.ew_op_cvt_bypass % 2 ^ 1)
    × (bits 7 1 (ew_cfg d) ≡ d.ew_lut_bypass % 2 ^ 1)
    × (bits 1 1 (ew_cfg d) ≡ d.ew_op_bypass % 2 ^ 1)
    × (bits 0 1 (ew_cfg d) ≡ d.ew_bypass % 2 ^ 1)
    × (bits 16 1 (out_cvt_scale d) ≡ d.fp32tofp16_en % 2 ^ 1)
    × (bits 0 16 (out_cvt_scale d) ≡ d.out_cvt_scale % 2 ^ 16)
    × (bits 4 28 (surface_add d) ≡ d.surf_add % 2 ^ 28)

-- Every field that is packed into a register of the DPU block is found in the register's bits where
-- the code puts it, cut to the width of its mask; no two fields disturb each other.
pub dpu_register_fields : (d : DpuDesc) → DpuFields d
dpu_register_fields d = (
  omega (arith, feature_mode_cfg_sum d),
  omega (arith, feature_mode_cfg_sum d),
  omega (arith, feature_mode_cfg_sum d),
  omega (arith, feature_mode_cfg_sum d),
  omega (arith, data_format_sum d),
  omega (arith, data_format_sum d),
  omega (arith, data_format_sum d),
  omega (arith, dst_surf_stride_sum d),
  omega (arith, data_cube_width_sum d),
  omega (arith, data_cube_height_sum d),
  omega (arith, data_cube_channel_sum d),
  omega (arith, data_cube_channel_sum d),
  omega (arith, bs_cfg_sum d),
  omega (arith, bs_cfg_sum d),
  omega (arith, bs_cfg_sum d),
  omega (arith, bs_cfg_sum d),
  omega (arith, bs_ow_cfg_sum d),
  omega (arith, bs_ow_cfg_sum d),
  omega (arith, bs_ow_cfg_sum d),
  omega (arith, bs_ow_cfg_sum d),
  omega (arith, wdma_size_0_sum d),
  omega (arith, wdma_size_1_sum d),
  omega (arith, wdma_size_1_sum d),
  omega (arith, bn_cfg_sum d),
  omega (arith, bn_cfg_sum d),
  omega (arith, bn_cfg_sum d),
  omega (arith, bn_cfg_sum d),
  omega (arith, ew_cfg_sum d),
  omega (arith, ew_cfg_sum d),
  omega (arith, ew_cfg_sum d),
  omega (arith, ew_cfg_sum d),
  omega (arith, ew_cfg_sum d),
  omega (arith, out_cvt_scale_sum d),
  omega (arith, out_cvt_scale_sum d),
  omega (arith, surface_add_sum d),
)
