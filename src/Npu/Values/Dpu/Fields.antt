-- ===== src/Npu/Values/Dpu/Fields.antt =====
-- The packed DPU registers, taken apart: every descriptor field lies in its own bits.
use librocket.Prelude.{◌+◌, ◌*◌, ◌%◌, ◌^◌, ◌≡◌, arith}
use librocket.Prelude.Bits.{and_mask, or_add}
use librocket.Npu.Desc.{DpuDesc}
use librocket.Npu.Values.Dpu.{
  feature_mode_cfg, data_format, dst_surf_stride, data_cube_width, data_cube_height,
  data_cube_channel, bs_cfg, bs_ow_cfg, wdma_size_0, wdma_size_1, bn_cfg, ew_cfg, out_cvt_scale,
  surface_add,
}

pub feature_mode_cfg_sum :
    (d : DpuDesc)
    → feature_mode_cfg d
      ≡ d.burst_len % 2 ^ 4 * 2 ^ 5
        + d.conv_mode % 2 ^ 2 * 2 ^ 3
        + d.output_mode % 2 ^ 2 * 2 ^ 1
        + d.flying_mode % 2 ^ 1
unfolding feature_mode_cfg
feature_mode_cfg_sum d =
    rw
      (
        and_mask 4 d.burst_len,
        and_mask 2 d.conv_mode,
        and_mask 2 d.output_mode,
        and_mask 1 d.flying_mode,
        or_add 5 (d.burst_len % 2 ^ 4 * 2 ^ 5) (d.conv_mode % 2 ^ 2 * 2 ^ 3) (omega arith)
            (omega arith),
        or_add 3 (d.burst_len % 2 ^ 4 * 2 ^ 5 + d.conv_mode % 2 ^ 2 * 2 ^ 3)
            (d.output_mode % 2 ^ 2 * 2 ^ 1) (omega arith) (omega arith),
        or_add 1
            (d.burst_len % 2 ^ 4 * 2 ^ 5
              + d.conv_mode % 2 ^ 2 * 2 ^ 3
              + d.output_mode % 2 ^ 2 * 2 ^ 1)
            (d.flying_mode % 2 ^ 1) (omega arith) (omega arith),
      )
      (omega arith)

pub data_format_sum :
    (d : DpuDesc)
    → data_format d
      ≡ d.out_precision % 2 ^ 3 * 2 ^ 29
        + d.in_precision % 2 ^ 3 * 2 ^ 26
        + d.proc_precision % 2 ^ 3
unfolding data_format
data_format_sum d =
    rw
      (
        and_mask 3 d.out_precision,
        and_mask 3 d.in_precision,
        and_mask 3 d.proc_precision,
        or_add 29 (d.out_precision % 2 ^ 3 * 2 ^ 29) (d.in_precision % 2 ^ 3 * 2 ^ 26) (omega arith)
            (omega arith),
        or_add 26 (d.out_precision % 2 ^ 3 * 2 ^ 29 + d.in_precision % 2 ^ 3 * 2 ^ 26)
            (d.proc_precision % 2 ^ 3) (omega arith) (omega arith),
      )
      (omega arith)

pub dst_surf_stride_sum : (d : DpuDesc) → dst_surf_stride d ≡ d.dst_surf_stride % 2 ^ 28 * 2 ^ 4
unfolding dst_surf_stride
dst_surf_stride_sum d = rw (and_mask 28 d.dst_surf_stride) (omega arith)

pub data_cube_width_sum : (d : DpuDesc) → data_cube_width d ≡ d.width % 2 ^ 13
unfolding data_cube_width
data_cube_width_sum d = rw (and_mask 13 d.width) (omega arith)

pub data_cube_height_sum : (d : DpuDesc) → data_cube_height d ≡ d.height % 2 ^ 13
unfolding data_cube_height
data_cube_height_sum d = rw (and_mask 13 d.height) (omega arith)

pub data_cube_channel_sum :
    (d : DpuDesc) → data_cube_channel d ≡ d.channel % 2 ^ 13 * 2 ^ 16 + d.channel % 2 ^ 13
unfolding data_cube_channel
data_cube_channel_sum d =
    rw
      (
        and_mask 13 d.channel,
        or_add 16 (d.channel % 2 ^ 13 * 2 ^ 16) (d.channel % 2 ^ 13) (omega arith) (omega arith),
      )
      (omega arith)

pub bs_cfg_sum :
    (d : DpuDesc)
    → bs_cfg d
      ≡ d.bs_relu_bypass % 2 ^ 1 * 2 ^ 6
        + d.bs_mul_bypass % 2 ^ 1 * 2 ^ 4
        + d.bs_alu_bypass % 2 ^ 1 * 2 ^ 1
        + d.bs_bypass % 2 ^ 1
unfolding bs_cfg
bs_cfg_sum d =
    rw
      (
        and_mask 1 d.bs_relu_bypass,
        and_mask 1 d.bs_mul_bypass,
        and_mask 1 d.bs_alu_bypass,
        and_mask 1 d.bs_bypass,
        or_add 6 (d.bs_relu_bypass % 2 ^ 1 * 2 ^ 6) (d.bs_mul_bypass % 2 ^ 1 * 2 ^ 4) (omega arith)
            (omega arith),
        or_add 4 (d.bs_relu_bypass % 2 ^ 1 * 2 ^ 6 + d.bs_mul_bypass % 2 ^ 1 * 2 ^ 4)
            (d.bs_alu_bypass % 2 ^ 1 * 2 ^ 1) (omega arith) (omega arith),
        or_add 1
            (d.bs_relu_bypass % 2 ^ 1 * 2 ^ 6
              + d.bs_mul_bypass % 2 ^ 1 * 2 ^ 4
              + d.bs_alu_bypass % 2 ^ 1 * 2 ^ 1)
            (d.bs_bypass % 2 ^ 1) (omega arith) (omega arith),
      )
      (omega arith)

pub bs_ow_cfg_sum :
    (d : DpuDesc)
    → bs_ow_cfg d
      ≡ d.size_e_2 % 2 ^ 3 * 2 ^ 8
        + d.size_e_1 % 2 ^ 3 * 2 ^ 5
        + d.size_e_0 % 2 ^ 3 * 2 ^ 2
        + d.od_bypass % 2 ^ 1 * 2 ^ 1
unfolding bs_ow_cfg
bs_ow_cfg_sum d =
    rw
      (
        and_mask 3 d.size_e_2,
        and_mask 3 d.size_e_1,
        and_mask 3 d.size_e_0,
        and_mask 1 d.od_bypass,
        or_add 8 (d.size_e_2 % 2 ^ 3 * 2 ^ 8) (d.size_e_1 % 2 ^ 3 * 2 ^ 5) (omega arith)
            (omega arith),
        or_add 5 (d.size_e_2 % 2 ^ 3 * 2 ^ 8 + d.size_e_1 % 2 ^ 3 * 2 ^ 5)
            (d.size_e_0 % 2 ^ 3 * 2 ^ 2) (omega arith) (omega arith),
        or_add 2
            (d.size_e_2 % 2 ^ 3 * 2 ^ 8 + d.size_e_1 % 2 ^ 3 * 2 ^ 5 + d.size_e_0 % 2 ^ 3 * 2 ^ 2)
            (d.od_bypass % 2 ^ 1 * 2 ^ 1) (omega arith) (omega arith),
      )
      (omega arith)

pub wdma_size_0_sum : (d : DpuDesc) → wdma_size_0 d ≡ d.channel_wdma % 2 ^ 13
unfolding wdma_size_0
wdma_size_0_sum d = rw (and_mask 13 d.channel_wdma) (omega arith)

pub wdma_size_1_sum :
    (d : DpuDesc) → wdma_size_1 d ≡ d.height_wdma % 2 ^ 13 * 2 ^ 16 + d.width_wdma % 2 ^ 13
unfolding wdma_size_1
wdma_size_1_sum d =
    rw
      (
        and_mask 13 d.height_wdma,
        and_mask 13 d.width_wdma,
        or_add 16 (d.height_wdma % 2 ^ 13 * 2 ^ 16) (d.width_wdma % 2 ^ 13) (omega arith)
            (omega arith),
      )
      (omega arith)

pub bn_cfg_sum :
    (d : DpuDesc)
    → bn_cfg d
      ≡ d.bn_relu_bypass % 2 ^ 1 * 2 ^ 6
        + d.bn_mul_bypass % 2 ^ 1 * 2 ^ 4
        + d.bn_alu_bypass % 2 ^ 1 * 2 ^ 1
        + d.bn_bypass % 2 ^ 1
unfolding bn_cfg
bn_cfg_sum d =
    rw
      (
        and_mask 1 d.bn_relu_bypass,
        and_mask 1 d.bn_mul_bypass,
        and_mask 1 d.bn_alu_bypass,
        and_mask 1 d.bn_bypass,
        or_add 6 (d.bn_relu_bypass % 2 ^ 1 * 2 ^ 6) (d.bn_mul_bypass % 2 ^ 1 * 2 ^ 4) (omega arith)
            (omega arith),
        or_add 4 (d.bn_relu_bypass % 2 ^ 1 * 2 ^ 6 + d.bn_mul_bypass % 2 ^ 1 * 2 ^ 4)
            (d.bn_alu_bypass % 2 ^ 1 * 2 ^ 1) (omega arith) (omega arith),
        or_add 1
            (d.bn_relu_bypass % 2 ^ 1 * 2 ^ 6
              + d.bn_mul_bypass % 2 ^ 1 * 2 ^ 4
              + d.bn_alu_bypass % 2 ^ 1 * 2 ^ 1)
            (d.bn_bypass % 2 ^ 1) (omega arith) (omega arith),
      )
      (omega arith)

pub ew_cfg_sum :
    (d : DpuDesc)
    → ew_cfg d
      ≡ d.ew_relu_bypass % 2 ^ 1 * 2 ^ 9
        + d.ew_op_cvt_bypass % 2 ^ 1 * 2 ^ 8
        + d.ew_lut_bypass % 2 ^ 1 * 2 ^ 7
        + d.ew_op_bypass % 2 ^ 1 * 2 ^ 1
        + d.ew_bypass % 2 ^ 1
unfolding ew_cfg
ew_cfg_sum d =
    rw
      (
        and_mask 1 d.ew_relu_bypass,
        and_mask 1 d.ew_op_cvt_bypass,
        and_mask 1 d.ew_lut_bypass,
        and_mask 1 d.ew_op_bypass,
        and_mask 1 d.ew_bypass,
        or_add 9 (d.ew_relu_bypass % 2 ^ 1 * 2 ^ 9) (d.ew_op_cvt_bypass % 2 ^ 1 * 2 ^ 8)
            (omega arith) (omega arith),
        or_add 8 (d.ew_relu_bypass % 2 ^ 1 * 2 ^ 9 + d.ew_op_cvt_bypass % 2 ^ 1 * 2 ^ 8)
            (d.ew_lut_bypass % 2 ^ 1 * 2 ^ 7) (omega arith) (omega arith),
        or_add 7
            (d.ew_relu_bypass % 2 ^ 1 * 2 ^ 9
              + d.ew_op_cvt_bypass % 2 ^ 1 * 2 ^ 8
              + d.ew_lut_bypass % 2 ^ 1 * 2 ^ 7)
            (d.ew_op_bypass % 2 ^ 1 * 2 ^ 1) (omega arith) (omega arith),
        or_add 1
            (d.ew_relu_bypass % 2 ^ 1 * 2 ^ 9
              + d.ew_op_cvt_bypass % 2 ^ 1 * 2 ^ 8
              + d.ew_lut_bypass % 2 ^ 1 * 2 ^ 7
              + d.ew_op_bypass % 2 ^ 1 * 2 ^ 1)
            (d.ew_bypass % 2 ^ 1) (omega arith) (omega arith),
      )
      (omega arith)

pub out_cvt_scale_sum :
    (d : DpuDesc) → out_cvt_scale d ≡ d.fp32tofp16_en % 2 ^ 1 * 2 ^ 16 + d.out_cvt_scale % 2 ^ 16
unfolding out_cvt_scale
out_cvt_scale_sum d =
    rw
      (
        and_mask 1 d.fp32tofp16_en,
        and_mask 16 d.out_cvt_scale,
        or_add 16 (d.fp32tofp16_en % 2 ^ 1 * 2 ^ 16) (d.out_cvt_scale % 2 ^ 16) (omega arith)
            (omega arith),
      )
      (omega arith)

pub surface_add_sum : (d : DpuDesc) → surface_add d ≡ d.surf_add % 2 ^ 28 * 2 ^ 4
unfolding surface_add
surface_add_sum d = rw (and_mask 28 d.surf_add) (omega arith)
