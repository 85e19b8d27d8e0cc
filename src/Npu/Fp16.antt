-- ===== src/Npu/Fp16.antt =====
-- `gen_matmul_fp16` of src/npu_matmul.c: the descriptors that it fills in for accepted dimensions,
-- and what it returns. `cna_desc.enable` is neither assigned nor read; 0 stands for it.
pub mod Accept
pub mod Registers
pub mod Truncation
use librocket.Prelude.{
  ℕ, ◌+◌, ◌*◌, ◌%◌, ◌^◌, List, Option, some, ◌==◌, if◌then◌else◌, u16, u32, ◌&◌,
}
use librocket.Prelude.Int.{ℤ, pos}
use librocket.Npu.Hw.{direct_convolution, precision, float16, float32, int8, int32}
use librocket.Npu.Desc.{Params, CnaDesc, CoreDesc, DpuDesc}
use librocket.Npu.Cbuf.{
  Allocation, int_product, allocate, reject, banks, round_up, surf_stride_of, less_one16,
}
use librocket.Npu.Task.{gen_matmul_task}
use mathlib.Core.Option

-- The size of a kernel is computed in `size_t`, and the assignment cuts it to 32 bits.
unfoldable pub weight_bytes_per_kernel : Params → ℕ
weight_bytes_per_kernel p = u32 (1 * 1 * p.k * 2)

-- Width, height and channels are multiplied in `int`, the size of an element then in `size_t`.
unfoldable pub fd_bytes : Params → Option ℕ
unfolding int_product
fd_bytes p = Option.map (λ elements. u32 (elements * 2)) (int_product (1 * p.m) p.k)

unfoldable pub cna_desc : (fd_banks weight_banks : ℕ) → Params → CnaDesc
cna_desc fd_banks weight_banks p = record {
  enable = 0;
  conv_mode = direct_convolution;
  in_precision = precision float16;
  proc_precision = precision float16;
  kernel_groups = 0;
  feature_grains = u16 (p.m + 1);
  conv_y_stride = 1;
  conv_x_stride = 1;
  datain_width = 1;
  datain_height = p.m;
  datain_channel = p.k;
  dataout_width = 1;
  dataout_atomics = 1 * p.m;
  weight_bytes = u32 (weight_bytes_per_kernel p * p.n);
  weight_bytes_per_kernel = weight_bytes_per_kernel p;
  weight_width = 1;
  weight_height = 1;
  weight_kernels = p.n;
  weight_bank = weight_banks;
  data_bank = fd_banks;
  data_entries = round_up 32 (1 * p.k);
  data_sign = 0x1;
  cvt_type = 0x1;
  cvt_bypass = 0x1;
  cvt_scale0 = 0x1;
  cvt_scale1 = 0x1;
  cvt_scale2 = 0x1;
  cvt_scale3 = 0x1;
  fc_skip_en = 0;
  data_offset = 0x0;
  pad_left = 0;
  pad_top = 0;
  feature_base_addr = p.input_dma;
  weight_offset = 0;
  weight_burst_len = 0xf;
  data_burst_len = 0xf;
  line_stride = 1 * 4;
  surf_stride = surf_stride_of (1 * 4) p.m;
  dma_width = 1;
  dma_height = p.m;
  dma_channel = p.k;
  decompress_addr0 = p.weights_dma;
  dataout_height = p.m;
}

unfoldable pub core_desc : Params → CoreDesc
core_desc p = record {
  proc_precision = precision float16;
  qd_en = 1;
  dataout_height = less_one16 p.m;
  dataout_width = less_one16 1;
  dataout_channel = less_one16 p.n;
}

unfoldable pub dpu_desc : Params → DpuDesc
dpu_desc p = record {
  burst_len = 0xf;
  conv_mode = direct_convolution;
  output_mode = 0x2;
  flying_mode = 0x0;
  out_precision = if p.fp32tofp16 == 0 then precision float32 else precision float16;
  in_precision = precision float16;
  proc_precision = precision float16;
  dst_base_addr = p.output_dma;
  dst_surf_stride = p.m * 1;
  width = less_one16 1;
  height = less_one16 p.m;
  channel = less_one16 p.n;
  bs_bypass = 1;
  bs_alu_bypass = 1;
  bs_mul_bypass = 1;
  bs_relu_bypass = 1;
  od_bypass = 1;
  size_e_2 = if p.fp32tofp16 == 0 then 3 else 1;
  size_e_1 = if p.fp32tofp16 == 0 then 3 else 1;
  size_e_0 = if p.fp32tofp16 == 0 then 3 else 1;
  channel_wdma = less_one16 p.n;
  height_wdma = less_one16 p.m;
  width_wdma = less_one16 1;
  bn_relu_bypass = 1;
  bn_mul_bypass = 1;
  bn_alu_bypass = 1;
  bn_bypass = 1;
  ew_bypass = 1;
  ew_op_bypass = 1;
  ew_lut_bypass = 1;
  ew_op_cvt_bypass = 1;
  ew_relu_bypass = 1;
  fp32tofp16_en = p.fp32tofp16 & 0x1;
  out_cvt_scale = 1;
  surf_add = u32 (p.m * 1 * (if p.fp32tofp16 == 0 then 4 else 2));
}

-- The code behind the allocation: an early return, or the descriptors and the task.
unfoldable pub finish : Params → List ℕ → Allocation → Option (ℤ × List ℕ)
finish p tasks (reject code) = some (code, tasks)
finish p tasks (banks fd_banks weight_banks) =
    Option.map (λ written. (pos 0, written))
      (gen_matmul_task tasks (cna_desc fd_banks weight_banks p) (core_desc p) (dpu_desc p))

-- The result code, and the task buffer afterwards. `none` is undefined behaviour: a store beyond
-- the end of the buffer, or an overflow of `int`.
unfoldable pub gen_matmul_fp16 : Params → List ℕ → Option (ℤ × List ℕ)
unfolding fd_bytes finish
gen_matmul_fp16 p tasks =
    Option.bind (fd_bytes p) (λ fd. finish p tasks (allocate fd (weight_bytes_per_kernel p)))
