-- ===== src/Npu/Desc.antt =====
-- The task descriptors of include/npu_cna.h and include/npu_dpu.h and the parameters of
-- include/npu_matmul.h. A field of a w-bit type is a number below 2 ^ w; `surf_stride`, an
-- int32_t, is its bit pattern.
use Prim.Native.Nat.{ℕ, ◌+◌, ◌^◌, ◌≤◌, ◌<◌}

pub record CnaDesc : Type 0 where
  pub enable : ℕ
  pub conv_mode : ℕ
  pub in_precision : ℕ
  pub proc_precision : ℕ
  pub kernel_groups : ℕ
  pub feature_grains : ℕ
  pub conv_y_stride : ℕ
  pub conv_x_stride : ℕ
  pub datain_width : ℕ
  pub datain_height : ℕ
  pub datain_channel : ℕ
  pub dataout_width : ℕ
  pub dataout_atomics : ℕ
  pub weight_bytes : ℕ
  pub weight_bytes_per_kernel : ℕ
  pub weight_width : ℕ
  pub weight_height : ℕ
  pub weight_kernels : ℕ
  pub weight_bank : ℕ
  pub data_bank : ℕ
  pub data_entries : ℕ
  pub data_sign : ℕ
  pub cvt_type : ℕ
  pub cvt_bypass : ℕ
  pub cvt_scale0 : ℕ
  pub cvt_scale1 : ℕ
  pub cvt_scale2 : ℕ
  pub cvt_scale3 : ℕ
  pub fc_skip_en : ℕ
  pub data_offset : ℕ
  pub pad_left : ℕ
  pub pad_top : ℕ
  pub feature_base_addr : ℕ
  pub weight_offset : ℕ
  pub weight_burst_len : ℕ
  pub data_burst_len : ℕ
  pub line_stride : ℕ
  pub surf_stride : ℕ
  pub dma_width : ℕ
  pub dma_height : ℕ
  pub dma_channel : ℕ
  pub decompress_addr0 : ℕ
  pub dataout_height : ℕ

pub record CoreDesc : Type 0 where
  pub proc_precision : ℕ
  pub qd_en : ℕ
  pub dataout_height : ℕ
  pub dataout_width : ℕ
  pub dataout_channel : ℕ

pub record DpuDesc : Type 0 where
  pub burst_len : ℕ
  pub conv_mode : ℕ
  pub output_mode : ℕ
  pub flying_mode : ℕ
  pub out_precision : ℕ
  pub in_precision : ℕ
  pub proc_precision : ℕ
  pub dst_base_addr : ℕ
  pub dst_surf_stride : ℕ
  pub width : ℕ
  pub height : ℕ
  pub channel : ℕ
  pub bs_bypass : ℕ
  pub bs_alu_bypass : ℕ
  pub bs_mul_bypass : ℕ
  pub bs_relu_bypass : ℕ
  pub od_bypass : ℕ
  pub size_e_2 : ℕ
  pub size_e_1 : ℕ
  pub size_e_0 : ℕ
  pub channel_wdma : ℕ
  pub height_wdma : ℕ
  pub width_wdma : ℕ
  pub bn_relu_bypass : ℕ
  pub bn_mul_bypass : ℕ
  pub bn_alu_bypass : ℕ
  pub bn_bypass : ℕ
  pub ew_bypass : ℕ
  pub ew_op_bypass : ℕ
  pub ew_lut_bypass : ℕ
  pub ew_op_cvt_bypass : ℕ
  pub ew_relu_bypass : ℕ
  pub fp32tofp16_en : ℕ
  pub out_cvt_scale : ℕ
  pub surf_add : ℕ

-- `tasks` is the array that the pointer of that name leads to, and is passed beside the record.
pub record Params : Type 0 where
  pub m : ℕ
  pub k : ℕ
  pub n : ℕ
  pub input_dma : ℕ
  pub weights_dma : ℕ
  pub output_dma : ℕ
  pub fp32tofp16 : ℕ

-- The fields hold values of their C types.
pub record IsParams (p : Params) : Type 0 where
  pub m_fits : p.m < 2 ^ 16
  pub k_fits : p.k < 2 ^ 16
  pub n_fits : p.n < 2 ^ 16
  pub input_fits : p.input_dma < 2 ^ 32
  pub weights_fits : p.weights_dma < 2 ^ 32
  pub output_fits : p.output_dma < 2 ^ 32
  pub flag_fits : p.fp32tofp16 < 2 ^ 8

-- Dimensions that are not 0 and that the register fields can hold.
pub record FitsRegisters (p : Params) : Type 0 where
  pub some_rows : 1 ≤ p.m
  pub rows : p.m + 1 < 2 ^ 10
  pub some_channels : 1 ≤ p.k
  pub some_kernels : 1 ≤ p.n
  pub kernels : p.n ≤ 2 ^ 13
