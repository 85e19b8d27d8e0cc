-- ===== src/Npu/Fp16/Registers/Cna.antt =====
-- The CNA registers after an accepted call of `gen_matmul_fp16`.
use librocket.Prelude.{ℕ, ◌+◌, ◌-◌, ◌*◌, ◌/◌, ◌%◌, ◌^◌, ◌≤◌, ◌≡◌, arith, List, some}
use librocket.Prelude.{product_bound}
use librocket.Npu.Hw.{
  cna_conv_con1, cna_conv_con2, cna_conv_con3, cna_data_size0, cna_data_size1, cna_data_size2,
  cna_data_size3, cna_weight_size1, cna_weight_size2, cna_cbuf_con0, cna_cbuf_con1, cna_cvt_con0,
  cna_cvt_con1, cna_cvt_con2, cna_cvt_con3, cna_cvt_con4, cna_fc_con0, cna_fc_con1, cna_pad_con0,
  cna_fc_con2, cna_dma_con0, cna_dma_con1, cna_dma_con2, cna_fc_data_size0, cna_fc_data_size1,
  cna_weight_size0, cna_feature_data_addr, cna_dcomp_addr0, direct_convolution, precision, float16,
}
use librocket.Npu.Desc.{Params, IsParams, FitsRegisters}
use librocket.Npu.Cbuf.{round_up}
use librocket.Npu.Cbuf.Banks.{round_up_least}
use librocket.Npu.Cbuf.Strides.{surface_stride, surface_stride_lem}
use librocket.Npu.Values.Cna.{weight_size0}
use librocket.Npu.Task.RegisterFile.{programmed, field}
use librocket.Npu.Task.Written.{IsProgrammed}
use librocket.Npu.Task.Held.{whole}
use librocket.Npu.Task.Held.Cna.{CnaHolds, task-CnaHolds}
use librocket.Npu.Fp16.{weight_bytes_per_kernel, cna_desc, core_desc, dpu_desc}
use librocket.Npu.Fp16.Accept.{FitsCbuf, data_banks, kernel_bytes_lem}

-- The input, the weights and the CBUF banks of the multiplication that `p` asks for, as the
-- registers describe them.
pub record ProgramsCna (p : Params) (out : List ℕ) : Type 0 where
  pub proc_precision : field cna_conv_con1 7 3 out ≡ some (precision float16)
  pub in_precision : field cna_conv_con1 4 3 out ≡ some (precision float16)
  pub conv_mode : field cna_conv_con1 0 4 out ≡ some direct_convolution
  pub kernel_groups : field cna_conv_con2 16 8 out ≡ some 0
  pub feature_grains : field cna_conv_con2 4 10 out ≡ some (p.m + 1)
  pub conv_y_stride : field cna_conv_con3 3 3 out ≡ some 1
  pub conv_x_stride : field cna_conv_con3 0 3 out ≡ some 1
  pub datain_width : field cna_data_size0 16 11 out ≡ some 1
  pub datain_height : field cna_data_size0 0 11 out ≡ some p.m
  pub datain_channel_less_one : field cna_data_size1 16 16 out ≡ some (p.k - 1)
  pub datain_channel : field cna_data_size1 0 16 out ≡ some p.k
  pub dataout_width : field cna_data_size2 0 11 out ≡ some 1
  pub dataout_atomics : field cna_data_size3 0 18 out ≡ some p.m
  pub weight_bytes_per_kernel : field cna_weight_size1 0 19 out ≡ some (p.k * 2)
  pub weight_width : field cna_weight_size2 24 5 out ≡ some 1
  pub weight_height : field cna_weight_size2 16 5 out ≡ some 1
  pub weight_kernels : field cna_weight_size2 0 14 out ≡ some p.n
  pub weight_bank : field cna_cbuf_con0 4 4 out ≡ some (12 - data_banks p)
  pub data_bank : field cna_cbuf_con0 0 4 out ≡ some (data_banks p)
  pub data_entries : field cna_cbuf_con1 0 13 out ≡ some ((p.k + 31) / 32)
  pub data_sign : field cna_cvt_con0 3 1 out ≡ some 1
  pub cvt_type : field cna_cvt_con0 1 1 out ≡ some 1
  pub cvt_bypass : field cna_cvt_con0 0 1 out ≡ some 1
  pub cvt_scale0 : field cna_cvt_con1 16 16 out ≡ some 1
  pub cvt_scale1 : field cna_cvt_con2 16 16 out ≡ some 1
  pub cvt_scale2 : field cna_cvt_con3 16 16 out ≡ some 1
  pub cvt_scale3 : field cna_cvt_con4 16 16 out ≡ some 1
  pub fc_skip_en : field cna_fc_con0 0 1 out ≡ some 0
  pub data_offset : field cna_fc_con1 0 17 out ≡ some 0
  pub pad_left : field cna_pad_con0 4 4 out ≡ some 0
  pub pad_top : field cna_pad_con0 0 4 out ≡ some 0
  pub weight_offset : field cna_fc_con2 0 17 out ≡ some 0
  pub weight_burst_len : field cna_dma_con0 16 4 out ≡ some 0xf
  pub data_burst_len : field cna_dma_con0 0 4 out ≡ some 0xf
  pub line_stride : field cna_dma_con1 0 28 out ≡ some 4
  pub surf_stride : field cna_dma_con2 0 28 out ≡ some (surface_stride p.m)
  pub dma_width : field cna_fc_data_size0 16 11 out ≡ some 1
  pub dma_height : field cna_fc_data_size0 0 11 out ≡ some p.m
  pub dma_channel : field cna_fc_data_size1 0 16 out ≡ some p.k
  pub weight_bytes : programmed cna_weight_size0 out ≡ some (p.k * 2 * p.n)
  pub feature_base_addr : programmed cna_feature_data_addr out ≡ some p.input_dma
  pub decompress_addr0 : programmed cna_dcomp_addr0 out ≡ some p.weights_dma

data_banks_bound : (p : Params) → FitsCbuf p → data_banks p ≤ 11
data_banks_bound p (fits, _) = (round_up_least 32768 (p.m * p.k * 2) 11 (omega arith) fits).1

weights_whole_lem :
    (p : Params)
    → IsParams p
    → FitsCbuf p
    → weight_size0 (cna_desc (data_banks p) (12 - data_banks p) p) ≡ p.k * 2 * p.n
unfolding weight_size0 cna_desc
weights_whole_lem p v (fits, h) =
    let bound : p.k * 2 * p.n ≤ 32768 * 65535 =
      product_bound (p.k * 2) p.n 32768 65535 h (omega arith) in
    rw (kernel_bytes_lem p v) (omega (arith, bound))

entries_whole_lem : (p : Params) → IsParams p → round_up 32 (1 * p.k) % 2 ^ 13 ≡ (p.k + 31) / 32
unfolding round_up
entries_whole_lem p v = ground (arith, v.k_fits)

pub task-ProgramsCna :
    (p : Params) (out : List ℕ)
    → IsParams p
    → FitsCbuf p
    → FitsRegisters p
    → IsProgrammed (cna_desc (data_banks p) (12 - data_banks p) p) (core_desc p) (dpu_desc p) out
    → ProgramsCna p out
unfolding cna_desc weight_bytes_per_kernel
task-ProgramsCna p out v fits r w =
    let h : CnaHolds (cna_desc (data_banks p) (12 - data_banks p) p) out =
      task-CnaHolds _ _ _ out w in
    let small : data_banks p ≤ 11 = data_banks_bound p fits in
    record {
      proc_precision = whole h.proc_precision (omega arith);
      in_precision = whole h.in_precision (omega arith);
      conv_mode = whole h.conv_mode (omega arith);
      kernel_groups = whole h.kernel_groups (omega arith);
      feature_grains = whole h.feature_grains (omega arith);
      conv_y_stride = whole h.conv_y_stride (omega arith);
      conv_x_stride = whole h.conv_x_stride (omega arith);
      datain_width = whole h.datain_width (omega arith);
      datain_height = whole h.datain_height (omega arith);
      datain_channel_less_one = whole h.datain_channel_less_one (omega arith);
      datain_channel = whole h.datain_channel (omega arith);
      dataout_width = whole h.dataout_width (omega arith);
      dataout_atomics = whole h.dataout_atomics (omega arith);
      weight_bytes_per_kernel = whole h.weight_bytes_per_kernel (omega arith);
      weight_width = whole h.weight_width (omega arith);
      weight_height = whole h.weight_height (omega arith);
      weight_kernels = whole h.weight_kernels (omega arith);
      weight_bank = whole h.weight_bank (omega (arith, small));
      data_bank = whole h.data_bank (omega (arith, small));
      data_entries = whole h.data_entries (entries_whole_lem p v);
      data_sign = whole h.data_sign (omega arith);
      cvt_type = whole h.cvt_type (omega arith);
      cvt_bypass = whole h.cvt_bypass (omega arith);
      cvt_scale0 = whole h.cvt_scale0 (omega arith);
      cvt_scale1 = whole h.cvt_scale1 (omega arith);
      cvt_scale2 = whole h.cvt_scale2 (omega arith);
      cvt_scale3 = whole h.cvt_scale3 (omega arith);
      fc_skip_en = whole h.fc_skip_en (omega arith);
      data_offset = whole h.data_offset (omega arith);
      pad_left = whole h.pad_left (omega arith);
      pad_top = whole h.pad_top (omega arith);
      weight_offset = whole h.weight_offset (omega arith);
      weight_burst_len = whole h.weight_burst_len (omega arith);
      data_burst_len = whole h.data_burst_len (omega arith);
      line_stride = whole h.line_stride (omega arith);
      surf_stride = whole h.surf_stride (surface_stride_lem p.m r.some_rows r.rows);
      dma_width = whole h.dma_width (omega arith);
      dma_height = whole h.dma_height (omega arith);
      dma_channel = whole h.dma_channel (omega arith);
      weight_bytes = whole w.cna_weight_size0_is (weights_whole_lem p v fits);
      feature_base_addr = w.cna_feature_data_addr_is;
      decompress_addr0 = w.cna_dcomp_addr0_is;
    }
