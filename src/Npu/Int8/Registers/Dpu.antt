-- ===== src/Npu/Int8/Registers/Dpu.antt =====
-- The DPU registers after an accepted call of `gen_matmul_int8`.
use librocket.Prelude.{ℕ, ◌-◌, ◌*◌, ◌≡◌, arith, List, some}
use librocket.Npu.Hw.{
  dpu_feature_mode_cfg, dpu_data_format, dpu_dst_surf_stride, dpu_data_cube_width,
  dpu_data_cube_height, dpu_data_cube_channel, dpu_bs_cfg, dpu_bs_ow_cfg, dpu_wdma_size_0,
  dpu_wdma_size_1, dpu_bn_cfg, dpu_ew_cfg, dpu_out_cvt_scale, dpu_surface_add, dpu_dst_base_add,
  dpu_ew_cvt_scale_value, dpu_s_pointer, direct_convolution, precision, int8, int32,
}
use librocket.Npu.Desc.{Params, IsParams, FitsRegisters, CnaDesc}
use librocket.Npu.Cbuf.{less_one16}
use librocket.Npu.Task.RegisterFile.{programmed, field}
use librocket.Npu.Task.Written.{IsProgrammed}
use librocket.Npu.Task.Held.{whole}
use librocket.Npu.Task.Held.Dpu.{DpuHolds, task-DpuHolds}
use librocket.Npu.Int8.{core_desc, dpu_desc}

-- The output of the multiplication that `p` asks for, as the registers describe it, with the stages
-- that are passed by.
pub record ProgramsDpu (p : Params) (out : List ℕ) : Type 0 where
  pub burst_len : field dpu_feature_mode_cfg 5 4 out ≡ some 0xf
  pub conv_mode : field dpu_feature_mode_cfg 3 2 out ≡ some direct_convolution
  pub output_mode : field dpu_feature_mode_cfg 1 2 out ≡ some 2
  pub flying_mode : field dpu_feature_mode_cfg 0 1 out ≡ some 0
  pub out_precision : field dpu_data_format 29 3 out ≡ some (precision int32)
  pub in_precision : field dpu_data_format 26 3 out ≡ some (precision int8)
  pub proc_precision : field dpu_data_format 0 3 out ≡ some (precision int8)
  pub dst_surf_stride : field dpu_dst_surf_stride 4 28 out ≡ some p.m
  pub width : field dpu_data_cube_width 0 13 out ≡ some 0
  pub height : field dpu_data_cube_height 0 13 out ≡ some (p.m - 1)
  pub channel_above : field dpu_data_cube_channel 16 13 out ≡ some (p.n - 1)
  pub channel : field dpu_data_cube_channel 0 13 out ≡ some (p.n - 1)
  pub bs_relu_bypass : field dpu_bs_cfg 6 1 out ≡ some 1
  pub bs_mul_bypass : field dpu_bs_cfg 4 1 out ≡ some 1
  pub bs_alu_bypass : field dpu_bs_cfg 1 1 out ≡ some 1
  pub bs_bypass : field dpu_bs_cfg 0 1 out ≡ some 1
  pub size_e_2 : field dpu_bs_ow_cfg 8 3 out ≡ some 7
  pub size_e_1 : field dpu_bs_ow_cfg 5 3 out ≡ some 7
  pub size_e_0 : field dpu_bs_ow_cfg 2 3 out ≡ some 7
  pub od_bypass : field dpu_bs_ow_cfg 1 1 out ≡ some 1
  pub channel_wdma : field dpu_wdma_size_0 0 13 out ≡ some (p.n - 1)
  pub height_wdma : field dpu_wdma_size_1 16 13 out ≡ some (p.m - 1)
  pub width_wdma : field dpu_wdma_size_1 0 13 out ≡ some 0
  pub bn_relu_bypass : field dpu_bn_cfg 6 1 out ≡ some 1
  pub bn_mul_bypass : field dpu_bn_cfg 4 1 out ≡ some 1
  pub bn_alu_bypass : field dpu_bn_cfg 1 1 out ≡ some 1
  pub bn_bypass : field dpu_bn_cfg 0 1 out ≡ some 1
  pub ew_relu_bypass : field dpu_ew_cfg 9 1 out ≡ some 1
  pub ew_op_cvt_bypass : field dpu_ew_cfg 8 1 out ≡ some 1
  pub ew_lut_bypass : field dpu_ew_cfg 7 1 out ≡ some 1
  pub ew_op_bypass : field dpu_ew_cfg 1 1 out ≡ some 1
  pub ew_bypass : field dpu_ew_cfg 0 1 out ≡ some 1
  pub fp32tofp16_en : field dpu_out_cvt_scale 16 1 out ≡ some 0
  pub out_cvt_scale : field dpu_out_cvt_scale 0 16 out ≡ some 1
  pub surf_add : field dpu_surface_add 4 28 out ≡ some (p.m * 8)
  pub dst_base_addr : programmed dpu_dst_base_add out ≡ some p.output_dma
  pub ew_cvt_scale_value : programmed dpu_ew_cvt_scale_value out ≡ some 1
  pub s_pointer : programmed dpu_s_pointer out ≡ some 0xe

pub task-ProgramsDpu :
    (p : Params) (cna : CnaDesc) (out : List ℕ)
    → IsParams p
    → FitsRegisters p
    → IsProgrammed cna (core_desc p) (dpu_desc p) out
    → ProgramsDpu p out
unfolding dpu_desc less_one16
task-ProgramsDpu p cna out v r w =
    let h : DpuHolds (dpu_desc p) out = task-DpuHolds _ _ _ out w in
    record {
      burst_len = whole h.burst_len (omega arith);
      conv_mode = whole h.conv_mode (omega arith);
      output_mode = whole h.output_mode (omega arith);
      flying_mode = whole h.flying_mode (omega arith);
      out_precision = whole h.out_precision (omega arith);
      in_precision = whole h.in_precision (omega arith);
      proc_precision = whole h.proc_precision (omega arith);
      dst_surf_stride = whole h.dst_surf_stride (omega arith);
      width = whole h.width (omega arith);
      height = whole h.height (omega arith);
      channel_above = whole h.channel_above (omega arith);
      channel = whole h.channel (omega arith);
      bs_relu_bypass = whole h.bs_relu_bypass (omega arith);
      bs_mul_bypass = whole h.bs_mul_bypass (omega arith);
      bs_alu_bypass = whole h.bs_alu_bypass (omega arith);
      bs_bypass = whole h.bs_bypass (omega arith);
      size_e_2 = whole h.size_e_2 (omega arith);
      size_e_1 = whole h.size_e_1 (omega arith);
      size_e_0 = whole h.size_e_0 (omega arith);
      od_bypass = whole h.od_bypass (omega arith);
      channel_wdma = whole h.channel_wdma (omega arith);
      height_wdma = whole h.height_wdma (omega arith);
      width_wdma = whole h.width_wdma (omega arith);
      bn_relu_bypass = whole h.bn_relu_bypass (omega arith);
      bn_mul_bypass = whole h.bn_mul_bypass (omega arith);
      bn_alu_bypass = whole h.bn_alu_bypass (omega arith);
      bn_bypass = whole h.bn_bypass (omega arith);
      ew_relu_bypass = whole h.ew_relu_bypass (omega arith);
      ew_op_cvt_bypass = whole h.ew_op_cvt_bypass (omega arith);
      ew_lut_bypass = whole h.ew_lut_bypass (omega arith);
      ew_op_bypass = whole h.ew_op_bypass (omega arith);
      ew_bypass = whole h.ew_bypass (omega arith);
      fp32tofp16_en = whole h.fp32tofp16_en (omega arith);
      out_cvt_scale = whole h.out_cvt_scale (omega arith);
      surf_add = whole h.surf_add (omega arith);
      dst_base_addr = w.dpu_dst_base_add_is;
      ew_cvt_scale_value = w.dpu_ew_cvt_scale_value_is;
      s_pointer = w.dpu_s_pointer_is;
    }
