-- ===== src/Npu/Values/Cna/Found.antt =====
-- The fields of the CNA registers, found in the values that the code writes.
use librocket.Prelude.{◌%◌, ◌^◌, ◌≡◌, arith, bits, sub32}
use librocket.Npu.Desc.{CnaDesc}
use librocket.Npu.Values.Cna.{
  conv_con1, conv_con2, conv_con3, data_size0, data_size1, data_size2, data_size3, weight_size1,
  weight_size2, cbuf_con0, cbuf_con1, cvt_con0, cvt_con1, cvt_con2, cvt_con3, cvt_con4, fc_con0,
  fc_con1, pad_con0, fc_con2, dma_con0, dma_con1, dma_con2, fc_data_size0, fc_data_size1,
}
use librocket.Npu.Values.Cna.Fields.{
  cbuf_con0_sum, cbuf_con1_sum, conv_con1_sum, conv_con2_sum, conv_con3_sum, cvt_con0_sum,
  cvt_con1_sum, cvt_con2_sum, cvt_con3_sum, cvt_con4_sum, data_size0_sum, data_size1_sum,
  data_size2_sum, data_size3_sum, dma_con0_sum, dma_con1_sum, dma_con2_sum, fc_con0_sum,
  fc_con1_sum, fc_con2_sum, fc_data_size0_sum, fc_data_size1_sum, pad_con0_sum, weight_size1_sum,
  weight_size2_sum,
}

-- Where each field of the descriptor stands in the registers of the CNA block, and what of it fits.
abbrev pub CnaFields : CnaDesc → Type 0
CnaFields d =
    (bits 7 3 (conv_con1 d) ≡ d.proc_precision % 2 ^ 3)
    × (bits 4 3 (conv_con1 d) ≡ d.in_precision % 2 ^ 3)
    × (bits 0 4 (conv_con1 d) ≡ d.conv_mode % 2 ^ 4)
    × (bits 16 8 (conv_con2 d) ≡ d.kernel_groups % 2 ^ 8)
    × (bits 4 10 (conv_con2 d) ≡ d.feature_grains % 2 ^ 10)
    × (bits 3 3 (conv_con3 d) ≡ d.conv_y_stride % 2 ^ 3)
    × (bits 0 3 (conv_con3 d) ≡ d.conv_x_stride % 2 ^ 3)
    × (bits 16 11 (data_size0 d) ≡ d.datain_width % 2 ^ 11)
    × (bits 0 11 (data_size0 d) ≡ d.datain_height % 2 ^ 11)
    × (bits 16 16 (data_size1 d) ≡ (sub32 d.datain_channel 1) % 2 ^ 16)
    × (bits 0 16 (data_size1 d) ≡ d.datain_channel % 2 ^ 16)
    × (bits 0 11 (data_size2 d) ≡ d.dataout_width % 2 ^ 11)
    × (bits 0 18 (data_size3 d) ≡ d.dataout_atomics % 2 ^ 18)
    × (bits 0 19 (weight_size1 d) ≡ d.weight_bytes_per_kernel % 2 ^ 19)
    × (bits 24 5 (weight_size2 d) ≡ d.weight_width % 2 ^ 5)
    × (bits 16 5 (weight_size2 d) ≡ d.weight_height % 2 ^ 5)
    × (bits 0 14 (weight_size2 d) ≡ d.weight_kernels % 2 ^ 14)
    × (bits 4 4 (cbuf_con0 d) ≡ d.weight_bank % 2 ^ 4)
    × (bits 0 4 (cbuf_con0 d) ≡ d.data_bank % 2 ^ 4)
    × (bits 0 13 (cbuf_con1 d) ≡ d.data_entries % 2 ^ 13)
    × (bits 3 1 (cvt_con0 d) ≡ d.data_sign % 2 ^ 1)
    × (bits 1 1 (cvt_con0 d) ≡ d.cvt_type % 2 ^ 1)
    × (bits 0 1 (cvt_con0 d) ≡ d.cvt_bypass % 2 ^ 1)
    × (bits 16 16 (cvt_con1 d) ≡ d.cvt_scale0 % 2 ^ 16)
    × (bits 16 16 (cvt_con2 d) ≡ d.cvt_scale1 % 2 ^ 16)
    × (bits 16 16 (cvt_con3 d) ≡ d.cvt_scale2 % 2 ^ 16)
    × (bits 16 16 (cvt_con4 d) ≡ d.cvt_scale3 % 2 ^ 16)
    × (bits 0 1 (fc_con0 d) ≡ d.fc_skip_en % 2 ^ 1)
    × (bits 0 17 (fc_con1 d) ≡ d.data_offset % 2 ^ 17)
    × (bits 4 4 (pad_con0 d) ≡ d.pad_left % 2 ^ 4)
    × (bits 0 4 (pad_con0 d) ≡ d.pad_top % 2 ^ 4)
    × (bits 0 17 (fc_con2 d) ≡ d.weight_offset % 2 ^ 17)
    × (bits 16 4 (dma_con0 d) ≡ d.weight_burst_len % 2 ^ 4)
    × (bits 0 4 (dma_con0 d) ≡ d.data_burst_len % 2 ^ 4)
    × (bits 0 28 (dma_con1 d) ≡ d.line_stride % 2 ^ 28)
    × (bits 0 28 (dma_con2 d) ≡ d.surf_stride % 2 ^ 28)
    × (bits 16 11 (fc_data_size0 d) ≡ d.dma_width % 2 ^ 11)
    × (bits 0 11 (fc_data_size0 d) ≡ d.dma_height % 2 ^ 11)
    × (bits 0 16 (fc_data_size1 d) ≡ d.dma_channel % 2 ^ 16)

-- Every field that is packed into a register of the CNA block is found in the register's bits where
-- the code puts it, cut to the width of its mask; no two fields disturb each other.
pub cna_register_fields : (d : CnaDesc) → CnaFields d
cna_register_fields d = (
  omega (arith, conv_con1_sum d),
  omega (arith, conv_con1_sum d),
  omega (arith, conv_con1_sum d),
  omega (arith, conv_con2_sum d),
  omega (arith, conv_con2_sum d),
  omega (arith, conv_con3_sum d),
  omega (arith, conv_con3_sum d),
  omega (arith, data_size0_sum d),
  omega (arith, data_size0_sum d),
  omega (arith, data_size1_sum d),
  omega (arith, data_size1_sum d),
  omega (arith, data_size2_sum d),
  omega (arith, data_size3_sum d),
  omega (arith, weight_size1_sum d),
  omega (arith, weight_size2_sum d),
  omega (arith, weight_size2_sum d),
  omega (arith, weight_size2_sum d),
  omega (arith, cbuf_con0_sum d),
  omega (arith, cbuf_con0_sum d),
  omega (arith, cbuf_con1_sum d),
  omega (arith, cvt_con0_sum d),
  omega (arith, cvt_con0_sum d),
  omega (arith, cvt_con0_sum d),
  omega (arith, cvt_con1_sum d),
  omega (arith, cvt_con2_sum d),
  omega (arith, cvt_con3_sum d),
  omega (arith, cvt_con4_sum d),
  omega (arith, fc_con0_sum d),
  omega (arith, fc_con1_sum d),
  omega (arith, pad_con0_sum d),
  omega (arith, pad_con0_sum d),
  omega (arith, fc_con2_sum d),
  omega (arith, dma_con0_sum d),
  omega (arith, dma_con0_sum d),
  omega (arith, dma_con1_sum d),
  omega (arith, dma_con2_sum d),
  omega (arith, fc_data_size0_sum d),
  omega (arith, fc_data_size0_sum d),
  omega (arith, fc_data_size1_sum d),
)
