-- ===== src/Npu/Values/Cna/Fields.antt =====
-- The packed CNA registers, taken apart: every descriptor field lies in its own bits.
use librocket.Prelude.{◌+◌, ◌*◌, ◌%◌, ◌^◌, ◌≡◌, arith, sub32}
use librocket.Prelude.Bits.{and_mask, or_add}
use librocket.Npu.Desc.{CnaDesc}
use librocket.Npu.Values.Cna.{
  conv_con1, conv_con2, conv_con3, data_size0, data_size1, data_size2, data_size3, weight_size1,
  weight_size2, cbuf_con0, cbuf_con1, cvt_con0, cvt_con1, cvt_con2, cvt_con3, cvt_con4, fc_con0,
  fc_con1, pad_con0, fc_con2, dma_con0, dma_con1, dma_con2, fc_data_size0, fc_data_size1,
}

pub conv_con1_sum :
    (d : CnaDesc)
    → conv_con1 d
      ≡ d.proc_precision % 2 ^ 3 * 2 ^ 7 + d.in_precision % 2 ^ 3 * 2 ^ 4 + d.conv_mode % 2 ^ 4
unfolding conv_con1
conv_con1_sum d =
    rw
      (
        and_mask 3 d.proc_precision,
        and_mask 3 d.in_precision,
        and_mask 4 d.conv_mode,
        or_add 7 (d.proc_precision % 2 ^ 3 * 2 ^ 7) (d.in_precision % 2 ^ 3 * 2 ^ 4) (omega arith)
            (omega arith),
        or_add 4 (d.proc_precision % 2 ^ 3 * 2 ^ 7 + d.in_precision % 2 ^ 3 * 2 ^ 4)
            (d.conv_mode % 2 ^ 4) (omega arith) (omega arith),
      )
      (omega arith)

pub conv_con2_sum :
    (d : CnaDesc)
    → conv_con2 d ≡ d.kernel_groups % 2 ^ 8 * 2 ^ 16 + d.feature_grains % 2 ^ 10 * 2 ^ 4
unfolding conv_con2
conv_con2_sum d =
    rw
      (
        and_mask 8 d.kernel_groups,
        and_mask 10 d.feature_grains,
        or_add 16 (d.kernel_groups % 2 ^ 8 * 2 ^ 16) (d.feature_grains % 2 ^ 10 * 2 ^ 4)
            (omega arith) (omega arith),
      )
      (omega arith)

pub conv_con3_sum :
    (d : CnaDesc) → conv_con3 d ≡ d.conv_y_stride % 2 ^ 3 * 2 ^ 3 + d.conv_x_stride % 2 ^ 3
unfolding conv_con3
conv_con3_sum d =
    rw
      (
        and_mask 3 d.conv_y_stride,
        and_mask 3 d.conv_x_stride,
        or_add 3 (d.conv_y_stride % 2 ^ 3 * 2 ^ 3) (d.conv_x_stride % 2 ^ 3) (omega arith)
            (omega arith),
      )
      (omega arith)

pub data_size0_sum :
    (d : CnaDesc) → data_size0 d ≡ d.datain_width % 2 ^ 11 * 2 ^ 16 + d.datain_height % 2 ^ 11
unfolding data_size0
data_size0_sum d =
    rw
      (
        and_mask 11 d.datain_width,
        and_mask 11 d.datain_height,
        or_add 16 (d.datain_width % 2 ^ 11 * 2 ^ 16) (d.datain_height % 2 ^ 11) (omega arith)
            (omega arith),
      )
      (omega arith)

pub data_size1_sum :
    (d : CnaDesc)
    → data_size1 d ≡ (sub32 d.datain_channel 1) % 2 ^ 16 * 2 ^ 16 + d.datain_channel % 2 ^ 16
unfolding data_size1
data_size1_sum d =
    rw
      (
        and_mask 16 (sub32 d.datain_channel 1),
        and_mask 16 d.datain_channel,
        or_add 16 ((sub32 d.datain_channel 1) % 2 ^ 16 * 2 ^ 16) (d.datain_channel % 2 ^ 16)
            (omega arith) (omega arith),
      )
      (omega arith)

pub data_size2_sum : (d : CnaDesc) → data_size2 d ≡ d.dataout_width % 2 ^ 11
unfolding data_size2
data_size2_sum d = rw (and_mask 11 d.dataout_width) (omega arith)

pub data_size3_sum : (d : CnaDesc) → data_size3 d ≡ d.dataout_atomics % 2 ^ 18
unfolding data_size3
data_size3_sum d = rw (and_mask 18 d.dataout_atomics) (omega arith)

pub weight_size1_sum : (d : CnaDesc) → weight_size1 d ≡ d.weight_bytes_per_kernel % 2 ^ 19
unfolding weight_size1
weight_size1_sum d = rw (and_mask 19 d.weight_bytes_per_kernel) (omega arith)

pub weight_size2_sum :
    (d : CnaDesc)
    → weight_size2 d
      ≡ d.weight_width % 2 ^ 5 * 2 ^ 24
        + d.weight_height % 2 ^ 5 * 2 ^ 16
        + d.weight_kernels % 2 ^ 14
unfolding weight_size2
weight_size2_sum d =
    rw
      (
        and_mask 5 d.weight_width,
        and_mask 5 d.weight_height,
        and_mask 14 d.weight_kernels,
        or_add 24 (d.weight_width % 2 ^ 5 * 2 ^ 24) (d.weight_height % 2 ^ 5 * 2 ^ 16) (omega arith)
            (omega arith),
        or_add 16 (d.weight_width % 2 ^ 5 * 2 ^ 24 + d.weight_height % 2 ^ 5 * 2 ^ 16)
            (d.weight_kernels % 2 ^ 14) (omega arith) (omega arith),
      )
      (omega arith)

pub cbuf_con0_sum :
    (d : CnaDesc) → cbuf_con0 d ≡ d.weight_bank % 2 ^ 4 * 2 ^ 4 + d.data_bank % 2 ^ 4
unfolding cbuf_con0
cbuf_con0_sum d =
    rw
      (
        and_mask 4 d.weight_bank,
        and_mask 4 d.data_bank,
        or_add 4 (d.weight_bank % 2 ^ 4 * 2 ^ 4) (d.data_bank % 2 ^ 4) (omega arith) (omega arith),
      )
      (omega arith)

pub cbuf_con1_sum : (d : CnaDesc) → cbuf_con1 d ≡ d.data_entries % 2 ^ 13
unfolding cbuf_con1
cbuf_con1_sum d = rw (and_mask 13 d.data_entries) (omega arith)

pub cvt_con0_sum :
    (d : CnaDesc)
    → cvt_con0 d ≡ d.data_sign % 2 ^ 1 * 2 ^ 3 + d.cvt_type % 2 ^ 1 * 2 ^ 1 + d.cvt_bypass % 2 ^ 1
unfolding cvt_con0
cvt_con0_sum d =
    rw
      (
        and_mask 1 d.data_sign,
        and_mask 1 d.cvt_type,
        and_mask 1 d.cvt_bypass,
        or_add 3 (d.data_sign % 2 ^ 1 * 2 ^ 3) (d.cvt_type % 2 ^ 1 * 2 ^ 1) (omega arith)
            (omega arith),
        or_add 1 (d.data_sign % 2 ^ 1 * 2 ^ 3 + d.cvt_type % 2 ^ 1 * 2 ^ 1) (d.cvt_bypass % 2 ^ 1)
            (omega arith) (omega arith),
      )
      (omega arith)

pub cvt_con1_sum : (d : CnaDesc) → cvt_con1 d ≡ d.cvt_scale0 % 2 ^ 16 * 2 ^ 16 + 0
unfolding cvt_con1
cvt_con1_sum d =
    rw
      (
        and_mask 16 d.cvt_scale0,
        or_add 16 (d.cvt_scale0 % 2 ^ 16 * 2 ^ 16) (0) (omega arith) (omega arith),
      )
      (omega arith)

pub cvt_con2_sum : (d : CnaDesc) → cvt_con2 d ≡ d.cvt_scale1 % 2 ^ 16 * 2 ^ 16 + 0
unfolding cvt_con2
cvt_con2_sum d =
    rw
      (
        and_mask 16 d.cvt_scale1,
        or_add 16 (d.cvt_scale1 % 2 ^ 16 * 2 ^ 16) (0) (omega arith) (omega arith),
      )
      (omega arith)

pub cvt_con3_sum : (d : CnaDesc) → cvt_con3 d ≡ d.cvt_scale2 % 2 ^ 16 * 2 ^ 16 + 0
unfolding cvt_con3
cvt_con3_sum d =
    rw
      (
        and_mask 16 d.cvt_scale2,
        or_add 16 (d.cvt_scale2 % 2 ^ 16 * 2 ^ 16) (0) (omega arith) (omega arith),
      )
      (omega arith)

pub cvt_con4_sum : (d : CnaDesc) → cvt_con4 d ≡ d.cvt_scale3 % 2 ^ 16 * 2 ^ 16 + 0
unfolding cvt_con4
cvt_con4_sum d =
    rw
      (
        and_mask 16 d.cvt_scale3,
        or_add 16 (d.cvt_scale3 % 2 ^ 16 * 2 ^ 16) (0) (omega arith) (omega arith),
      )
      (omega arith)

pub fc_con0_sum : (d : CnaDesc) → fc_con0 d ≡ d.fc_skip_en % 2 ^ 1
unfolding fc_con0
fc_con0_sum d = rw (and_mask 1 d.fc_skip_en) (omega arith)

pub fc_con1_sum : (d : CnaDesc) → fc_con1 d ≡ d.data_offset % 2 ^ 17
unfolding fc_con1
fc_con1_sum d = rw (and_mask 17 d.data_offset) (omega arith)

pub pad_con0_sum : (d : CnaDesc) → pad_con0 d ≡ d.pad_left % 2 ^ 4 * 2 ^ 4 + d.pad_top % 2 ^ 4
unfolding pad_con0
pad_con0_sum d =
    rw
      (
        and_mask 4 d.pad_left,
        and_mask 4 d.pad_top,
        or_add 4 (d.pad_left % 2 ^ 4 * 2 ^ 4) (d.pad_top % 2 ^ 4) (omega arith) (omega arith),
      )
      (omega arith)

pub fc_con2_sum : (d : CnaDesc) → fc_con2 d ≡ d.weight_offset % 2 ^ 17
unfolding fc_con2
fc_con2_sum d = rw (and_mask 17 d.weight_offset) (omega arith)

pub dma_con0_sum :
    (d : CnaDesc) → dma_con0 d ≡ d.weight_burst_len % 2 ^ 4 * 2 ^ 16 + d.data_burst_len % 2 ^ 4
unfolding dma_con0
dma_con0_sum d =
    rw
      (
        and_mask 4 d.weight_burst_len,
        and_mask 4 d.data_burst_len,
        or_add 16 (d.weight_burst_len % 2 ^ 4 * 2 ^ 16) (d.data_burst_len % 2 ^ 4) (omega arith)
            (omega arith),
      )
      (omega arith)

pub dma_con1_sum : (d : CnaDesc) → dma_con1 d ≡ d.line_stride % 2 ^ 28
unfolding dma_con1
dma_con1_sum d = rw (and_mask 28 d.line_stride) (omega arith)

pub dma_con2_sum : (d : CnaDesc) → dma_con2 d ≡ d.surf_stride % 2 ^ 28
unfolding dma_con2
dma_con2_sum d = rw (and_mask 28 d.surf_stride) (omega arith)

pub fc_data_size0_sum :
    (d : CnaDesc) → fc_data_size0 d ≡ d.dma_width % 2 ^ 11 * 2 ^ 16 + d.dma_height % 2 ^ 11
unfolding fc_data_size0
fc_data_size0_sum d =
    rw
      (
        and_mask 11 d.dma_width,
        and_mask 11 d.dma_height,
        or_add 16 (d.dma_width % 2 ^ 11 * 2 ^ 16) (d.dma_height % 2 ^ 11) (omega arith)
            (omega arith),
      )
      (omega arith)

pub fc_data_size1_sum : (d : CnaDesc) → fc_data_size1 d ≡ d.dma_channel % 2 ^ 16
unfolding fc_data_size1
fc_data_size1_sum d = rw (and_mask 16 d.dma_channel) (omega arith)
