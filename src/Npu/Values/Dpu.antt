-- ===== src/Npu/Values/Dpu.antt =====
-- The DPU part of `gen_matmul_task` in src/npu_matmul.c: what it assigns to `value` for each
-- register, and the commands ops[54] to ops[103].
pub mod Fields
pub mod Found
use librocket.Prelude.{ℕ, ◌+◌, ◌-◌, ◌*◌, ◌%◌, ◌^◌, List, [], ◌∷◌, u32, sub32, ◌<<◌, ◌&◌, ◌bitor◌}
use librocket.Npu.Hw.{Command, command, address, op_reg_dpu}
use librocket.Npu.Hw.{
  dpu_feature_mode_cfg, dpu_data_format, dpu_offset_pend, dpu_dst_base_add, dpu_dst_surf_stride,
  dpu_data_cube_width, dpu_data_cube_height, dpu_data_cube_notch_addr, dpu_data_cube_channel,
  dpu_bs_cfg, dpu_bs_alu_cfg, dpu_bs_mul_cfg, dpu_bs_relux_cmp_value, dpu_bs_ow_cfg, dpu_bs_ow_op,
  dpu_wdma_size_0, dpu_wdma_size_1, dpu_bn_cfg, dpu_bn_alu_cfg, dpu_bn_mul_cfg,
  dpu_bn_relux_cmp_value, dpu_ew_cfg, dpu_ew_cvt_offset_value, dpu_ew_cvt_scale_value,
  dpu_ew_relux_cmp_value, dpu_out_cvt_offset, dpu_out_cvt_scale, dpu_out_cvt_shift,
  dpu_ew_op_value_0, dpu_ew_op_value_1, dpu_ew_op_value_2, dpu_ew_op_value_3, dpu_ew_op_value_4,
  dpu_ew_op_value_5, dpu_ew_op_value_6, dpu_ew_op_value_7, dpu_surface_add, dpu_40c4,
  dpu_lut_access_cfg, dpu_lut_access_data, dpu_lut_cfg, dpu_lut_info, dpu_lut_le_start,
  dpu_lut_le_end, dpu_lut_lo_start, dpu_lut_lo_end, dpu_lut_le_slope_scale, dpu_lut_le_slope_shift,
  dpu_lut_lo_slope_scale, dpu_lut_lo_slope_shift,
}
use librocket.Npu.Desc.{DpuDesc}

unfoldable pub feature_mode_cfg : DpuDesc → ℕ
feature_mode_cfg d = u32 (
    ((d.burst_len & 0xf) << 5)
    bitor ((d.conv_mode & 0x3) << 3)
    bitor ((d.output_mode & 0x3) << 1)
    bitor (d.flying_mode & 0x1))

unfoldable pub data_format : DpuDesc → ℕ
data_format d = u32 (
    ((d.out_precision & 0x7) << 29)
    bitor ((d.in_precision & 0x7) << 26)
    bitor (d.proc_precision & 0x7))

unfoldable pub dst_surf_stride : DpuDesc → ℕ
dst_surf_stride d = u32 ((d.dst_surf_stride & 0xfffffff) << 4)

unfoldable pub data_cube_width : DpuDesc → ℕ
data_cube_width d = u32 (d.width & 0x1fff)

unfoldable pub data_cube_height : DpuDesc → ℕ
data_cube_height d = u32 (d.height & 0x1fff)

unfoldable pub data_cube_channel : DpuDesc → ℕ
data_cube_channel d = u32 (((d.channel & 0x1fff) << 16) bitor (d.channel & 0x1fff))

unfoldable pub bs_cfg : DpuDesc → ℕ
bs_cfg d = u32 (
    ((d.bs_relu_bypass & 0x1) << 6)
    bitor ((d.bs_mul_bypass & 0x1) << 4)
    bitor ((d.bs_alu_bypass & 0x1) << 1)
    bitor (d.bs_bypass & 0x1))

unfoldable pub bs_ow_cfg : DpuDesc → ℕ
bs_ow_cfg d = u32 (
    ((d.size_e_2 & 0x7) << 8)
    bitor ((d.size_e_1 & 0x7) << 5)
    bitor ((d.size_e_0 & 0x7) << 2)
    bitor ((d.od_bypass & 0x1) << 1))

unfoldable pub wdma_size_0 : DpuDesc → ℕ
wdma_size_0 d = u32 (d.channel_wdma & 0x1fff)

unfoldable pub wdma_size_1 : DpuDesc → ℕ
wdma_size_1 d = u32 (((d.height_wdma & 0x1fff) << 16) bitor (d.width_wdma & 0x1fff))

unfoldable pub bn_cfg : DpuDesc → ℕ
bn_cfg d = u32 (
    ((d.bn_relu_bypass & 0x1) << 6)
    bitor ((d.bn_mul_bypass & 0x1) << 4)
    bitor ((d.bn_alu_bypass & 0x1) << 1)
    bitor (d.bn_bypass & 0x1))

unfoldable pub ew_cfg : DpuDesc → ℕ
ew_cfg d = u32 (
    ((d.ew_relu_bypass & 0x1) << 9)
    bitor ((d.ew_op_cvt_bypass & 0x1) << 8)
    bitor ((d.ew_lut_bypass & 0x1) << 7)
    bitor ((d.ew_op_bypass & 0x1) << 1)
    bitor (d.ew_bypass & 0x1))

unfoldable pub out_cvt_scale : DpuDesc → ℕ
out_cvt_scale d = u32 (((d.fp32tofp16_en & 0x1) << 16) bitor (d.out_cvt_scale & 0xffff))

unfoldable pub surface_add : DpuDesc → ℕ
surface_add d = u32 (((d.surf_add & 0xfffffff) << 4))

unfoldable pub dpu_commands : DpuDesc → List Command
dpu_commands d =
    command op_reg_dpu (feature_mode_cfg d) (address dpu_feature_mode_cfg)
    ∷ command op_reg_dpu (data_format d) (address dpu_data_format)
    ∷ command op_reg_dpu 0x0 (address dpu_offset_pend)
    ∷ command op_reg_dpu d.dst_base_addr (address dpu_dst_base_add)
    ∷ command op_reg_dpu (dst_surf_stride d) (address dpu_dst_surf_stride)
    ∷ command op_reg_dpu (data_cube_width d) (address dpu_data_cube_width)
    ∷ command op_reg_dpu (data_cube_height d) (address dpu_data_cube_height)
    ∷ command op_reg_dpu 0x0 (address dpu_data_cube_notch_addr)
    ∷ command op_reg_dpu (data_cube_channel d) (address dpu_data_cube_channel)
    ∷ command op_reg_dpu (bs_cfg d) (address dpu_bs_cfg)
    ∷ command op_reg_dpu 0x0 (address dpu_bs_alu_cfg)
    ∷ command op_reg_dpu 0x0 (address dpu_bs_mul_cfg)
    ∷ command op_reg_dpu 0x0 (address dpu_bs_relux_cmp_value)
    ∷ command op_reg_dpu (bs_ow_cfg d) (address dpu_bs_ow_cfg)
    ∷ command op_reg_dpu 0x0 (address dpu_bs_ow_op)
    ∷ command op_reg_dpu (wdma_size_0 d) (address dpu_wdma_size_0)
    ∷ command op_reg_dpu (wdma_size_1 d) (address dpu_wdma_size_1)
    ∷ command op_reg_dpu (bn_cfg d) (address dpu_bn_cfg)
    ∷ command op_reg_dpu 0x0 (address dpu_bn_alu_cfg)
    ∷ command op_reg_dpu 0x0 (address dpu_bn_mul_cfg)
    ∷ command op_reg_dpu 0x0 (address dpu_bn_relux_cmp_value)
    ∷ command op_reg_dpu (ew_cfg d) (address dpu_ew_cfg)
    ∷ command op_reg_dpu 0x0 (address dpu_ew_cvt_offset_value)
    ∷ command op_reg_dpu 0x1 (address dpu_ew_cvt_scale_value)
    ∷ command op_reg_dpu 0x0 (address dpu_ew_relux_cmp_value)
    ∷ command op_reg_dpu 0x0 (address dpu_out_cvt_offset)
    ∷ command op_reg_dpu (out_cvt_scale d) (address dpu_out_cvt_scale)
    ∷ command op_reg_dpu 0x0 (address dpu_out_cvt_shift)
    ∷ command op_reg_dpu 0x0 (address dpu_ew_op_value_0)
    ∷ command op_reg_dpu 0x0 (address dpu_ew_op_value_1)
    ∷ command op_reg_dpu 0x0 (address dpu_ew_op_value_2)
    ∷ command op_reg_dpu 0x0 (address dpu_ew_op_value_3)
    ∷ command op_reg_dpu 0x0 (address dpu_ew_op_value_4)
    ∷ command op_reg_dpu 0x0 (address dpu_ew_op_value_5)
    ∷ command op_reg_dpu 0x0 (address dpu_ew_op_value_6)
    ∷ command op_reg_dpu 0x0 (address dpu_ew_op_value_7)
    ∷ command op_reg_dpu (surface_add d) (address dpu_surface_add)
    ∷ command op_reg_dpu 0x0 (address dpu_40c4)
    ∷ command op_reg_dpu 0x0 (address dpu_lut_access_cfg)
    ∷ command op_reg_dpu 0x0 (address dpu_lut_access_data)
    ∷ command op_reg_dpu 0x0 (address dpu_lut_cfg)
    ∷ command op_reg_dpu 0x0 (address dpu_lut_info)
    ∷ command op_reg_dpu 0x0 (address dpu_lut_le_start)
    ∷ command op_reg_dpu 0x0 (address dpu_lut_le_end)
    ∷ command op_reg_dpu 0x0 (address dpu_lut_lo_start)
    ∷ command op_reg_dpu 0x0 (address dpu_lut_lo_end)
    ∷ command op_reg_dpu 0x0 (address dpu_lut_le_slope_scale)
    ∷ command op_reg_dpu 0x0 (address dpu_lut_le_slope_shift)
    ∷ command op_reg_dpu 0x0 (address dpu_lut_lo_slope_scale)
    ∷ command op_reg_dpu 0x0 (address dpu_lut_lo_slope_shift)
    ∷ []
