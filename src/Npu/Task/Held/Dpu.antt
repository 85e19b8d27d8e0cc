-- ===== src/Npu/Task/Held/Dpu.antt =====
-- What a stored task leaves in the fields of the DPU registers: each field of the descriptor, cut
-- to the width of its mask.
use librocket.Prelude.{ℕ, ◌%◌, ◌^◌, ◌≡◌, List, some}
use librocket.Npu.Hw.{
  dpu_feature_mode_cfg, dpu_data_format, dpu_dst_surf_stride, dpu_data_cube_width,
  dpu_data_cube_height, dpu_data_cube_channel, dpu_bs_cfg, dpu_bs_ow_cfg, dpu_wdma_size_0,
  dpu_wdma_size_1, dpu_bn_cfg, dpu_ew_cfg, dpu_out_cvt_scale, dpu_surface_add,
}
use librocket.Npu.Desc.{CnaDesc, CoreDesc, DpuDesc}
use librocket.Npu.Values.Dpu.{
  feature_mode_cfg, data_format, dst_surf_stride, data_cube_width, data_cube_height,
  data_cube_channel, bs_cfg, bs_ow_cfg, wdma_size_0, wdma_size_1, bn_cfg, ew_cfg, out_cvt_scale,
  surface_add,
}
use librocket.Npu.Values.Dpu.Found.{dpu_register_fields}
use librocket.Npu.Task.RegisterFile.{field}
use librocket.Npu.Task.Written.{IsProgrammed, field_of}

pub record DpuHolds (d : DpuDesc) (out : List ℕ) : Type 0 where
  pub burst_len : field dpu_feature_mode_cfg 5 4 out ≡ some (d.burst_len % 2 ^ 4)
  pub conv_mode : field dpu_feature_mode_cfg 3 2 out ≡ some (d.conv_mode % 2 ^ 2)
  pub output_mode : field dpu_feature_mode_cfg 1 2 out ≡ some (d.output_mode % 2 ^ 2)
  pub flying_mode : field dpu_feature_mode_cfg 0 1 out ≡ some (d.flying_mode % 2 ^ 1)
  pub out_precision : field dpu_data_format 29 3 out ≡ some (d.out_precision % 2 ^ 3)
  pub in_precision : field dpu_data_format 26 3 out ≡ some (d.in_precision % 2 ^ 3)
  pub proc_precision : field dpu_data_format 0 3 out ≡ some (d.proc_precision % 2 ^ 3)
  pub dst_surf_stride : field dpu_dst_surf_stride 4 28 out ≡ some (d.dst_surf_stride % 2 ^ 28)
  pub width : field dpu_data_cube_width 0 13 out ≡ some (d.width % 2 ^ 13)
  pub height : field dpu_data_cube_height 0 13 out ≡ some (d.height % 2 ^ 13)
  pub channel_above : field dpu_data_cube_channel 16 13 out ≡ some (d.channel % 2 ^ 13)
  pub channel : field dpu_data_cube_channel 0 13 out ≡ some (d.channel % 2 ^ 13)
  pub bs_relu_bypass : field dpu_bs_cfg 6 1 out ≡ some (d.bs_relu_bypass % 2 ^ 1)
  pub bs_mul_bypass : field dpu_bs_cfg 4 1 out ≡ some (d.bs_mul_bypass % 2 ^ 1)
  pub bs_alu_bypass : field dpu_bs_cfg 1 1 out ≡ some (d.bs_alu_bypass % 2 ^ 1)
  pub bs_bypass : field dpu_bs_cfg 0 1 out ≡ some (d.bs_bypass % 2 ^ 1)
  pub size_e_2 : field dpu_bs_ow_cfg 8 3 out ≡ some (d.size_e_2 % 2 ^ 3)
  pub size_e_1 : field dpu_bs_ow_cfg 5 3 out ≡ some (d.size_e_1 % 2 ^ 3)
  pub size_e_0 : field dpu_bs_ow_cfg 2 3 out ≡ some (d.size_e_0 % 2 ^ 3)
  pub od_bypass : field dpu_bs_ow_cfg 1 1 out ≡ some (d.od_bypass % 2 ^ 1)
  pub channel_wdma : field dpu_wdma_size_0 0 13 out ≡ some (d.channel_wdma % 2 ^ 13)
  pub height_wdma : field dpu_wdma_size_1 16 13 out ≡ some (d.height_wdma % 2 ^ 13)
  pub width_wdma : field dpu_wdma_size_1 0 13 out ≡ some (d.width_wdma % 2 ^ 13)
  pub bn_relu_bypass : field dpu_bn_cfg 6 1 out ≡ some (d.bn_relu_bypass % 2 ^ 1)
  pub bn_mul_bypass : field dpu_bn_cfg 4 1 out ≡ some (d.bn_mul_bypass % 2 ^ 1)
  pub bn_alu_bypass : field dpu_bn_cfg 1 1 out ≡ some (d.bn_alu_bypass % 2 ^ 1)
  pub bn_bypass : field dpu_bn_cfg 0 1 out ≡ some (d.bn_bypass % 2 ^ 1)
  pub ew_relu_bypass : field dpu_ew_cfg 9 1 out ≡ some (d.ew_relu_bypass % 2 ^ 1)
  pub ew_op_cvt_bypass : field dpu_ew_cfg 8 1 out ≡ some (d.ew_op_cvt_bypass % 2 ^ 1)
  pub ew_lut_bypass : field dpu_ew_cfg 7 1 out ≡ some (d.ew_lut_bypass % 2 ^ 1)
  pub ew_op_bypass : field dpu_ew_cfg 1 1 out ≡ some (d.ew_op_bypass % 2 ^ 1)
  pub ew_bypass : field dpu_ew_cfg 0 1 out ≡ some (d.ew_bypass % 2 ^ 1)
  pub fp32tofp16_en : field dpu_out_cvt_scale 16 1 out ≡ some (d.fp32tofp16_en % 2 ^ 1)
  pub out_cvt_scale : field dpu_out_cvt_scale 0 16 out ≡ some (d.out_cvt_scale % 2 ^ 16)
  pub surf_add : field dpu_surface_add 4 28 out ≡ some (d.surf_add % 2 ^ 28)

pub task-DpuHolds :
    (cna : CnaDesc) (core : CoreDesc) (dpu : DpuDesc) (out : List ℕ)
    → IsProgrammed cna core dpu out
    → DpuHolds dpu out
task-DpuHolds cna core dpu out w =
    let (
      burst_len_at, conv_mode_at, output_mode_at, flying_mode_at, out_precision_at, in_precision_at,
      proc_precision_at, dst_surf_stride_at, width_at, height_at, channel_above_at, channel_at,
      bs_relu_bypass_at, bs_mul_bypass_at, bs_alu_bypass_at, bs_bypass_at, size_e_2_at, size_e_1_at,
      size_e_0_at, od_bypass_at, channel_wdma_at, height_wdma_at, width_wdma_at, bn_relu_bypass_at,
      bn_mul_bypass_at, bn_alu_bypass_at, bn_bypass_at, ew_relu_bypass_at, ew_op_cvt_bypass_at,
      ew_lut_bypass_at, ew_op_bypass_at, ew_bypass_at, fp32tofp16_en_at, out_cvt_scale_at,
      surf_add_at,
    ) =
      dpu_register_fields dpu in
    record {
      burst_len =
          field_of dpu_feature_mode_cfg 5 4 (feature_mode_cfg dpu) _ out w.dpu_feature_mode_cfg_is
            burst_len_at;
      conv_mode =
          field_of dpu_feature_mode_cfg 3 2 (feature_mode_cfg dpu) _ out w.dpu_feature_mode_cfg_is
            conv_mode_at;
      output_mode =
          field_of dpu_feature_mode_cfg 1 2 (feature_mode_cfg dpu) _ out w.dpu_feature_mode_cfg_is
            output_mode_at;
      flying_mode =
          field_of dpu_feature_mode_cfg 0 1 (feature_mode_cfg dpu) _ out w.dpu_feature_mode_cfg_is
            flying_mode_at;
      out_precision =
          field_of dpu_data_format 29 3 (data_format dpu) _ out w.dpu_data_format_is
            out_precision_at;
      in_precision =
          field_of dpu_data_format 26 3 (data_format dpu) _ out w.dpu_data_format_is
            in_precision_at;
      proc_precision =
          field_of dpu_data_format 0 3 (data_format dpu) _ out w.dpu_data_format_is
            proc_precision_at;
      dst_surf_stride =
          field_of dpu_dst_surf_stride 4 28 (dst_surf_stride dpu) _ out w.dpu_dst_surf_stride_is
            dst_surf_stride_at;
      width =
          field_of dpu_data_cube_width 0 13 (data_cube_width dpu) _ out w.dpu_data_cube_width_is
            width_at;
      height =
          field_of dpu_data_cube_height 0 13 (data_cube_height dpu) _ out w.dpu_data_cube_height_is
            height_at;
      channel_above =
          field_of dpu_data_cube_channel 16 13 (data_cube_channel dpu) _ out
            w.dpu_data_cube_channel_is channel_above_at;
      channel =
          field_of dpu_data_cube_channel 0 13 (data_cube_channel dpu) _ out
            w.dpu_data_cube_channel_is channel_at;
      bs_relu_bypass = field_of dpu_bs_cfg 6 1 (bs_cfg dpu) _ out w.dpu_bs_cfg_is bs_relu_bypass_at;
      bs_mul_bypass = field_of dpu_bs_cfg 4 1 (bs_cfg dpu) _ out w.dpu_bs_cfg_is bs_mul_bypass_at;
      bs_alu_bypass = field_of dpu_bs_cfg 1 1 (bs_cfg dpu) _ out w.dpu_bs_cfg_is bs_alu_bypass_at;
      bs_bypass = field_of dpu_bs_cfg 0 1 (bs_cfg dpu) _ out w.dpu_bs_cfg_is bs_bypass_at;
      size_e_2 = field_of dpu_bs_ow_cfg 8 3 (bs_ow_cfg dpu) _ out w.dpu_bs_ow_cfg_is size_e_2_at;
      size_e_1 = field_of dpu_bs_ow_cfg 5 3 (bs_ow_cfg dpu) _ out w.dpu_bs_ow_cfg_is size_e_1_at;
      size_e_0 = field_of dpu_bs_ow_cfg 2 3 (bs_ow_cfg dpu) _ out w.dpu_bs_ow_cfg_is size_e_0_at;
      od_bypass = field_of dpu_bs_ow_cfg 1 1 (bs_ow_cfg dpu) _ out w.dpu_bs_ow_cfg_is od_bypass_at;
      channel_wdma =
          field_of dpu_wdma_size_0 0 13 (wdma_size_0 dpu) _ out w.dpu_wdma_size_0_is
            channel_wdma_at;
      height_wdma =
          field_of dpu_wdma_size_1 16 13 (wdma_size_1 dpu) _ out w.dpu_wdma_size_1_is
            height_wdma_at;
      width_wdma =
          field_of dpu_wdma_size_1 0 13 (wdma_size_1 dpu) _ out w.dpu_wdma_size_1_is width_wdma_at;
      bn_relu_bypass = field_of dpu_bn_cfg 6 1 (bn_cfg dpu) _ out w.dpu_bn_cfg_is bn_relu_bypass_at;
      bn_mul_bypass = field_of dpu_bn_cfg 4 1 (bn_cfg dpu) _ out w.dpu_bn_cfg_is bn_mul_bypass_at;
      bn_alu_bypass = field_of dpu_bn_cfg 1 1 (bn_cfg dpu) _ out w.dpu_bn_cfg_is bn_alu_bypass_at;
      bn_bypass = field_of dpu_bn_cfg 0 1 (bn_cfg dpu) _ out w.dpu_bn_cfg_is bn_bypass_at;
      ew_relu_bypass = field_of dpu_ew_cfg 9 1 (ew_cfg dpu) _ out w.dpu_ew_cfg_is ew_relu_bypass_at;
      ew_op_cvt_bypass =
          field_of dpu_ew_cfg 8 1 (ew_cfg dpu) _ out w.dpu_ew_cfg_is ew_op_cvt_bypass_at;
      ew_lut_bypass = field_of dpu_ew_cfg 7 1 (ew_cfg dpu) _ out w.dpu_ew_cfg_is ew_lut_bypass_at;
      ew_op_bypass = field_of dpu_ew_cfg 1 1 (ew_cfg dpu) _ out w.dpu_ew_cfg_is ew_op_bypass_at;
      ew_bypass = field_of dpu_ew_cfg 0 1 (ew_cfg dpu) _ out w.dpu_ew_cfg_is ew_bypass_at;
      fp32tofp16_en =
          field_of dpu_out_cvt_scale 16 1 (out_cvt_scale dpu) _ out w.dpu_out_cvt_scale_is
            fp32tofp16_en_at;
      out_cvt_scale =
          field_of dpu_out_cvt_scale 0 16 (out_cvt_scale dpu) _ out w.dpu_out_cvt_scale_is
            out_cvt_scale_at;
      surf_add =
          field_of dpu_surface_add 4 28 (surface_add dpu) _ out w.dpu_surface_add_is surf_add_at;
    }
