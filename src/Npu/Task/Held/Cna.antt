-- ===== src/Npu/Task/Held/Cna.antt =====
-- What a stored task leaves in the fields of the CNA registers: each field of the descriptor, cut
-- to the width of its mask.
use librocket.Prelude.{ℕ, ◌%◌, ◌^◌, ◌≡◌, List, some, sub32}
use librocket.Npu.Hw.{
  cna_conv_con1, cna_conv_con2, cna_conv_con3, cna_data_size0, cna_data_size1, cna_data_size2,
  cna_data_size3, cna_weight_size1, cna_weight_size2, cna_cbuf_con0, cna_cbuf_con1, cna_cvt_con0,
  cna_cvt_con1, cna_cvt_con2, cna_cvt_con3, cna_cvt_con4, cna_fc_con0, cna_fc_con1, cna_pad_con0,
  cna_fc_con2, cna_dma_con0, cna_dma_con1, cna_dma_con2, cna_fc_data_size0, cna_fc_data_size1,
}
use librocket.Npu.Desc.{CnaDesc, CoreDesc, DpuDesc}
use librocket.Npu.Values.Cna.{
  conv_con1, conv_con2, conv_con3, data_size0, data_size1, data_size2, data_size3, weight_size1,
  weight_size2, cbuf_con0, cbuf_con1, cvt_con0, cvt_con1, cvt_con2, cvt_con3, cvt_con4, fc_con0,
  fc_con1, pad_con0, fc_con2, dma_con0, dma_con1, dma_con2, fc_data_size0, fc_data_size1,
}
use librocket.Npu.Values.Cna.Found.{cna_register_fields}
use librocket.Npu.Task.RegisterFile.{field}
use librocket.Npu.Task.Written.{IsProgrammed, field_of}

pub record CnaHolds (d : CnaDesc) (out : List ℕ) : Type 0 where
  pub proc_precision : field cna_conv_con1 7 3 out ≡ some (d.proc_precision % 2 ^ 3)
  pub in_precision : field cna_conv_con1 4 3 out ≡ some (d.in_precision % 2 ^ 3)
  pub conv_mode : field cna_conv_con1 0 4 out ≡ some (d.conv_mode % 2 ^ 4)
  pub kernel_groups : field cna_conv_con2 16 8 out ≡ some (d.kernel_groups % 2 ^ 8)
  pub feature_grains : field cna_conv_con2 4 10 out ≡ some (d.feature_grains % 2 ^ 10)
  pub conv_y_stride : field cna_conv_con3 3 3 out ≡ some (d.conv_y_stride % 2 ^ 3)
  pub conv_x_stride : field cna_conv_con3 0 3 out ≡ some (d.conv_x_stride % 2 ^ 3)
  pub datain_width : field cna_data_size0 16 11 out ≡ some (d.datain_width % 2 ^ 11)
  pub datain_height : field cna_data_size0 0 11 out ≡ some (d.datain_height % 2 ^ 11)
  pub datain_channel_less_one :
      field cna_data_size1 16 16 out ≡ some ((sub32 d.datain_channel 1) % 2 ^ 16)
  pub datain_channel : field cna_data_size1 0 16 out ≡ some (d.datain_channel % 2 ^ 16)
  pub dataout_width : field cna_data_size2 0 11 out ≡ some (d.dataout_width % 2 ^ 11)
  pub dataout_atomics : field cna_data_size3 0 18 out ≡ some (d.dataout_atomics % 2 ^ 18)
  pub weight_bytes_per_kernel :
      field cna_weight_size1 0 19 out ≡ some (d.weight_bytes_per_kernel % 2 ^ 19)
  pub weight_width : field cna_weight_size2 24 5 out ≡ some (d.weight_width % 2 ^ 5)
  pub weight_height : field cna_weight_size2 16 5 out ≡ some (d.weight_height % 2 ^ 5)
  pub weight_kernels : field cna_weight_size2 0 14 out ≡ some (d.weight_kernels % 2 ^ 14)
  pub weight_bank : field cna_cbuf_con0 4 4 out ≡ some (d.weight_bank % 2 ^ 4)
  pub data_bank : field cna_cbuf_con0 0 4 out ≡ some (d.data_bank % 2 ^ 4)
  pub data_entries : field cna_cbuf_con1 0 13 out ≡ some (d.data_entries % 2 ^ 13)
  pub data_sign : field cna_cvt_con0 3 1 out ≡ some (d.data_sign % 2 ^ 1)
  pub cvt_type : field cna_cvt_con0 1 1 out ≡ some (d.cvt_type % 2 ^ 1)
  pub cvt_bypass : field cna_cvt_con0 0 1 out ≡ some (d.cvt_bypass % 2 ^ 1)
  pub cvt_scale0 : field cna_cvt_con1 16 16 out ≡ some (d.cvt_scale0 % 2 ^ 16)
  pub cvt_scale1 : field cna_cvt_con2 16 16 out ≡ some (d.cvt_scale1 % 2 ^ 16)
  pub cvt_scale2 : field cna_cvt_con3 16 16 out ≡ some (d.cvt_scale2 % 2 ^ 16)
  pub cvt_scale3 : field cna_cvt_con4 16 16 out ≡ some (d.cvt_scale3 % 2 ^ 16)
  pub fc_skip_en : field cna_fc_con0 0 1 out ≡ some (d.fc_skip_en % 2 ^ 1)
  pub data_offset : field cna_fc_con1 0 17 out ≡ some (d.data_offset % 2 ^ 17)
  pub pad_left : field cna_pad_con0 4 4 out ≡ some (d.pad_left % 2 ^ 4)
  pub pad_top : field cna_pad_con0 0 4 out ≡ some (d.pad_top % 2 ^ 4)
  pub weight_offset : field cna_fc_con2 0 17 out ≡ some (d.weight_offset % 2 ^ 17)
  pub weight_burst_len : field cna_dma_con0 16 4 out ≡ some (d.weight_burst_len % 2 ^ 4)
  pub data_burst_len : field cna_dma_con0 0 4 out ≡ some (d.data_burst_len % 2 ^ 4)
  pub line_stride : field cna_dma_con1 0 28 out ≡ some (d.line_stride % 2 ^ 28)
  pub surf_stride : field cna_dma_con2 0 28 out ≡ some (d.surf_stride % 2 ^ 28)
  pub dma_width : field cna_fc_data_size0 16 11 out ≡ some (d.dma_width % 2 ^ 11)
  pub dma_height : field cna_fc_data_size0 0 11 out ≡ some (d.dma_height % 2 ^ 11)
  pub dma_channel : field cna_fc_data_size1 0 16 out ≡ some (d.dma_channel % 2 ^ 16)

pub task-CnaHolds :
    (cna : CnaDesc) (core : CoreDesc) (dpu : DpuDesc) (out : List ℕ)
    → IsProgrammed cna core dpu out
    → CnaHolds cna out
task-CnaHolds cna core dpu out w =
    let (
      proc_precision_at, in_precision_at, conv_mode_at, kernel_groups_at, feature_grains_at,
      conv_y_stride_at, conv_x_stride_at, datain_width_at, datain_height_at,
      datain_channel_less_one_at, datain_channel_at, dataout_width_at, dataout_atomics_at,
      weight_bytes_per_kernel_at, weight_width_at, weight_height_at, weight_kernels_at,
      weight_bank_at, data_bank_at, data_entries_at, data_sign_at, cvt_type_at, cvt_bypass_at,
      cvt_scale0_at, cvt_scale1_at, cvt_scale2_at, cvt_scale3_at, fc_skip_en_at, data_offset_at,
      pad_left_at, pad_top_at, weight_offset_at, weight_burst_len_at, data_burst_len_at,
      line_stride_at, surf_stride_at, dma_width_at, dma_height_at, dma_channel_at,
    ) =
      cna_register_fields cna in
    record {
      proc_precision =
          field_of cna_conv_con1 7 3 (conv_con1 cna) _ out w.cna_conv_con1_is proc_precision_at;
      in_precision =
          field_of cna_conv_con1 4 3 (conv_con1 cna) _ out w.cna_conv_con1_is in_precision_at;
      conv_mode = field_of cna_conv_con1 0 4 (conv_con1 cna) _ out w.cna_conv_con1_is conv_mode_at;
      kernel_groups =
          field_of cna_conv_con2 16 8 (conv_con2 cna) _ out w.cna_conv_con2_is kernel_groups_at;
      feature_grains =
          field_of cna_conv_con2 4 10 (conv_con2 cna) _ out w.cna_conv_con2_is feature_grains_at;
      conv_y_stride =
          field_of cna_conv_con3 3 3 (conv_con3 cna) _ out w.cna_conv_con3_is conv_y_stride_at;
      conv_x_stride =
          field_of cna_conv_con3 0 3 (conv_con3 cna) _ out w.cna_conv_con3_is conv_x_stride_at;
      datain_width =
          field_of cna_data_size0 16 11 (data_size0 cna) _ out w.cna_data_size0_is datain_width_at;
      datain_height =
          field_of cna_data_size0 0 11 (data_size0 cna) _ out w.cna_data_size0_is datain_height_at;
      datain_channel_less_one =
          field_of cna_data_size1 16 16 (data_size1 cna) _ out w.cna_data_size1_is
            datain_channel_less_one_at;
      datain_channel =
          field_of cna_data_size1 0 16 (data_size1 cna) _ out w.cna_data_size1_is datain_channel_at;
      dataout_width =
          field_of cna_data_size2 0 11 (data_size2 cna) _ out w.cna_data_size2_is dataout_width_at;
      dataout_atomics =
          field_of cna_data_size3 0 18 (data_size3 cna) _ out w.cna_data_size3_is
            dataout_atomics_at;
      weight_bytes_per_kernel =
          field_of cna_weight_size1 0 19 (weight_size1 cna) _ out w.cna_weight_size1_is
            weight_bytes_per_kernel_at;
      weight_width =
          field_of cna_weight_size2 24 5 (weight_size2 cna) _ out w.cna_weight_size2_is
            weight_width_at;
      weight_height =
          field_of cna_weight_size2 16 5 (weight_size2 cna) _ out w.cna_weight_size2_is
            weight_height_at;
      weight_kernels =
          field_of cna_weight_size2 0 14 (weight_size2 cna) _ out w.cna_weight_size2_is
            weight_kernels_at;
      weight_bank =
          field_of cna_cbuf_con0 4 4 (cbuf_con0 cna) _ out w.cna_cbuf_con0_is weight_bank_at;
      data_bank = field_of cna_cbuf_con0 0 4 (cbuf_con0 cna) _ out w.cna_cbuf_con0_is data_bank_at;
      data_entries =
          field_of cna_cbuf_con1 0 13 (cbuf_con1 cna) _ out w.cna_cbuf_con1_is data_entries_at;
      data_sign = field_of cna_cvt_con0 3 1 (cvt_con0 cna) _ out w.cna_cvt_con0_is data_sign_at;
      cvt_type = field_of cna_cvt_con0 1 1 (cvt_con0 cna) _ out w.cna_cvt_con0_is cvt_type_at;
      cvt_bypass = field_of cna_cvt_con0 0 1 (cvt_con0 cna) _ out w.cna_cvt_con0_is cvt_bypass_at;
      cvt_scale0 = field_of cna_cvt_con1 16 16 (cvt_con1 cna) _ out w.cna_cvt_con1_is cvt_scale0_at;
      cvt_scale1 = field_of cna_cvt_con2 16 16 (cvt_con2 cna) _ out w.cna_cvt_con2_is cvt_scale1_at;
      cvt_scale2 = field_of cna_cvt_con3 16 16 (cvt_con3 cna) _ out w.cna_cvt_con3_is cvt_scale2_at;
      cvt_scale3 = field_of cna_cvt_con4 16 16 (cvt_con4 cna) _ out w.cna_cvt_con4_is cvt_scale3_at;
      fc_skip_en = field_of cna_fc_con0 0 1 (fc_con0 cna) _ out w.cna_fc_con0_is fc_skip_en_at;
      data_offset = field_of cna_fc_con1 0 17 (fc_con1 cna) _ out w.cna_fc_con1_is data_offset_at;
      pad_left = field_of cna_pad_con0 4 4 (pad_con0 cna) _ out w.cna_pad_con0_is pad_left_at;
      pad_top = field_of cna_pad_con0 0 4 (pad_con0 cna) _ out w.cna_pad_con0_is pad_top_at;
      weight_offset =
          field_of cna_fc_con2 0 17 (fc_con2 cna) _ out w.cna_fc_con2_is weight_offset_at;
      weight_burst_len =
          field_of cna_dma_con0 16 4 (dma_con0 cna) _ out w.cna_dma_con0_is weight_burst_len_at;
      data_burst_len =
          field_of cna_dma_con0 0 4 (dma_con0 cna) _ out w.cna_dma_con0_is data_burst_len_at;
      line_stride =
          field_of cna_dma_con1 0 28 (dma_con1 cna) _ out w.cna_dma_con1_is line_stride_at;
      surf_stride =
          field_of cna_dma_con2 0 28 (dma_con2 cna) _ out w.cna_dma_con2_is surf_stride_at;
      dma_width =
          field_of cna_fc_data_size0 16 11 (fc_data_size0 cna) _ out w.cna_fc_data_size0_is
            dma_width_at;
      dma_height =
          field_of cna_fc_data_size0 0 11 (fc_data_size0 cna) _ out w.cna_fc_data_size0_is
            dma_height_at;
      dma_channel =
          field_of cna_fc_data_size1 0 16 (fc_data_size1 cna) _ out w.cna_fc_data_size1_is
            dma_channel_at;
    }
