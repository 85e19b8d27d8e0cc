-- ===== src/Npu/Task/Written.antt =====
-- The value that a stored task leaves in each register that depends on the descriptors, in the
-- enable register and in the one that scales the element-wise operand.
use mathlib.Core.Option
use librocket.Prelude.{ℕ, ◌≡◌, ap, ◌∙◌, List, ◌++◌, map, some, bits}
use librocket.Npu.Hw.{
  Register, address, encode, cna_conv_con1, cna_conv_con2, cna_conv_con3, cna_data_size0,
  cna_data_size1, cna_data_size2, cna_data_size3, cna_weight_size0, cna_weight_size1,
  cna_weight_size2, cna_cbuf_con0, cna_cbuf_con1, cna_cvt_con0, cna_cvt_con1, cna_cvt_con2,
  cna_cvt_con3, cna_cvt_con4, cna_fc_con0, cna_fc_con1, cna_pad_con0, cna_fc_con2, cna_dma_con0,
  cna_dma_con1, cna_dma_con2, cna_fc_data_size0, cna_fc_data_size1, cna_feature_data_addr,
  cna_dcomp_addr0, core_misc_cfg, core_dataout_size_0, core_dataout_size_1, dpu_feature_mode_cfg,
  dpu_data_format, dpu_dst_surf_stride, dpu_data_cube_width, dpu_data_cube_height,
  dpu_data_cube_channel, dpu_bs_cfg, dpu_bs_ow_cfg, dpu_wdma_size_0, dpu_wdma_size_1, dpu_bn_cfg,
  dpu_ew_cfg, dpu_out_cvt_scale, dpu_surface_add, dpu_dst_base_add, dpu_ew_cvt_scale_value,
  dpu_s_pointer, pc_operation_enable,
}
use librocket.Npu.Hw.Decode.{decode, map-decode-encode}
use librocket.Npu.Desc.{CnaDesc, CoreDesc, DpuDesc}
use librocket.Npu.Values.Cna.{
  cna_commands, weight_size0, conv_con1, conv_con2, conv_con3, data_size0, data_size1, data_size2,
  data_size3, weight_size1, weight_size2, cbuf_con0, cbuf_con1, cvt_con0, cvt_con1, cvt_con2,
  cvt_con3, cvt_con4, fc_con0, fc_con1, pad_con0, fc_con2, dma_con0, dma_con1, dma_con2,
  fc_data_size0, fc_data_size1,
}
use librocket.Npu.Values.Core.{core_commands, misc_cfg, dataout_size_0, dataout_size_1}
use librocket.Npu.Values.Dpu.{
  dpu_commands, feature_mode_cfg, data_format, dst_surf_stride, data_cube_width, data_cube_height,
  data_cube_channel, bs_cfg, bs_ow_cfg, wdma_size_0, wdma_size_1, bn_cfg, ew_cfg, out_cvt_scale,
  surface_add,
}
use librocket.Npu.Task.{task_commands, pc_commands}
use librocket.Npu.Task.Fits.{IsAddressed, task_commands_fit}
use librocket.Npu.Task.Store.{take_words}
use librocket.Npu.Task.RegisterFile.{last_write, programmed, field}

pub programmed_task :
    (r : Register) (cna : CnaDesc) (core : CoreDesc) (dpu : DpuDesc) (rest : List ℕ)
    → IsAddressed cna dpu
    → programmed r (map encode (task_commands cna core dpu) ++ rest)
      ≡ last_write (address r) (task_commands cna core dpu)
unfolding programmed
programmed_task r cna core dpu rest h =
    ap (λ ws. last_write (address r) (map decode ws)) (take_words cna core dpu rest)
    ∙ ap (last_write (address r)) (map-decode-encode _ (task_commands_fit cna core dpu h))

pub record IsProgrammed (cna : CnaDesc) (core : CoreDesc) (dpu : DpuDesc) (out : List ℕ)
    : Type 0 where
  pub cna_conv_con1_is : programmed cna_conv_con1 out ≡ some (conv_con1 cna)
  pub cna_conv_con2_is : programmed cna_conv_con2 out ≡ some (conv_con2 cna)
  pub cna_conv_con3_is : programmed cna_conv_con3 out ≡ some (conv_con3 cna)
  pub cna_data_size0_is : programmed cna_data_size0 out ≡ some (data_size0 cna)
  pub cna_data_size1_is : programmed cna_data_size1 out ≡ some (data_size1 cna)
  pub cna_data_size2_is : programmed cna_data_size2 out ≡ some (data_size2 cna)
  pub cna_data_size3_is : programmed cna_data_size3 out ≡ some (data_size3 cna)
  pub cna_weight_size0_is : programmed cna_weight_size0 out ≡ some (weight_size0 cna)
  pub cna_weight_size1_is : programmed cna_weight_size1 out ≡ some (weight_size1 cna)
  pub cna_weight_size2_is : programmed cna_weight_size2 out ≡ some (weight_size2 cna)
  pub cna_cbuf_con0_is : programmed cna_cbuf_con0 out ≡ some (cbuf_con0 cna)
  pub cna_cbuf_con1_is : programmed cna_cbuf_con1 out ≡ some (cbuf_con1 cna)
  pub cna_cvt_con0_is : programmed cna_cvt_con0 out ≡ some (cvt_con0 cna)
  pub cna_cvt_con1_is : programmed cna_cvt_con1 out ≡ some (cvt_con1 cna)
  pub cna_cvt_con2_is : programmed cna_cvt_con2 out ≡ some (cvt_con2 cna)
  pub cna_cvt_con3_is : programmed cna_cvt_con3 out ≡ some (cvt_con3 cna)
  pub cna_cvt_con4_is : programmed cna_cvt_con4 out ≡ some (cvt_con4 cna)
  pub cna_fc_con0_is : programmed cna_fc_con0 out ≡ some (fc_con0 cna)
  pub cna_fc_con1_is : programmed cna_fc_con1 out ≡ some (fc_con1 cna)
  pub cna_pad_con0_is : programmed cna_pad_con0 out ≡ some (pad_con0 cna)
  pub cna_fc_con2_is : programmed cna_fc_con2 out ≡ some (fc_con2 cna)
  pub cna_dma_con0_is : programmed cna_dma_con0 out ≡ some (dma_con0 cna)
  pub cna_dma_con1_is : programmed cna_dma_con1 out ≡ some (dma_con1 cna)
  pub cna_dma_con2_is : programmed cna_dma_con2 out ≡ some (dma_con2 cna)
  pub cna_fc_data_size0_is : programmed cna_fc_data_size0 out ≡ some (fc_data_size0 cna)
  pub cna_fc_data_size1_is : programmed cna_fc_data_size1 out ≡ some (fc_data_size1 cna)
  pub cna_feature_data_addr_is : programmed cna_feature_data_addr out ≡ some cna.feature_base_addr
  pub cna_dcomp_addr0_is : programmed cna_dcomp_addr0 out ≡ some cna.decompress_addr0
  pub core_misc_cfg_is : programmed core_misc_cfg out ≡ some (misc_cfg core)
  pub core_dataout_size_0_is : programmed core_dataout_size_0 out ≡ some (dataout_size_0 core)
  pub core_dataout_size_1_is : programmed core_dataout_size_1 out ≡ some (dataout_size_1 core)
  pub dpu_feature_mode_cfg_is : programmed dpu_feature_mode_cfg out ≡ some (feature_mode_cfg dpu)
  pub dpu_data_format_is : programmed dpu_data_format out ≡ some (data_format dpu)
  pub dpu_dst_surf_stride_is : programmed dpu_dst_surf_stride out ≡ some (dst_surf_stride dpu)
  pub dpu_data_cube_width_is : programmed dpu_data_cube_width out ≡ some (data_cube_width dpu)
  pub dpu_data_cube_height_is : programmed dpu_data_cube_height out ≡ some (data_cube_height dpu)
  pub dpu_data_cube_channel_is : programmed dpu_data_cube_channel out ≡ some (data_cube_channel dpu)
  pub dpu_bs_cfg_is : programmed dpu_bs_cfg out ≡ some (bs_cfg dpu)
  pub dpu_bs_ow_cfg_is : programmed dpu_bs_ow_cfg out ≡ some (bs_ow_cfg dpu)
  pub dpu_wdma_size_0_is : programmed dpu_wdma_size_0 out ≡ some (wdma_size_0 dpu)
  pub dpu_wdma_size_1_is : programmed dpu_wdma_size_1 out ≡ some (wdma_size_1 dpu)
  pub dpu_bn_cfg_is : programmed dpu_bn_cfg out ≡ some (bn_cfg dpu)
  pub dpu_ew_cfg_is : programmed dpu_ew_cfg out ≡ some (ew_cfg dpu)
  pub dpu_out_cvt_scale_is : programmed dpu_out_cvt_scale out ≡ some (out_cvt_scale dpu)
  pub dpu_surface_add_is : programmed dpu_surface_add out ≡ some (surface_add dpu)
  pub dpu_dst_base_add_is : programmed dpu_dst_base_add out ≡ some dpu.dst_base_addr
  pub dpu_ew_cvt_scale_value_is : programmed dpu_ew_cvt_scale_value out ≡ some 1
  pub dpu_s_pointer_is : programmed dpu_s_pointer out ≡ some 0xe
  pub pc_operation_enable_is : programmed pc_operation_enable out ≡ some 0xd

pub task-IsProgrammed :
    (cna : CnaDesc) (core : CoreDesc) (dpu : DpuDesc) (rest : List ℕ)
    → IsAddressed cna dpu
    → IsProgrammed cna core dpu (map encode (task_commands cna core dpu) ++ rest)
unfolding task_commands cna_commands core_commands dpu_commands pc_commands last_write address
task-IsProgrammed cna core dpu rest h = record {
  cna_conv_con1_is = last cna_conv_con1;
  cna_conv_con2_is = last cna_conv_con2;
  cna_conv_con3_is = last cna_conv_con3;
  cna_data_size0_is = last cna_data_size0;
  cna_data_size1_is = last cna_data_size1;
  cna_data_size2_is = last cna_data_size2;
  cna_data_size3_is = last cna_data_size3;
  cna_weight_size0_is = last cna_weight_size0;
  cna_weight_size1_is = last cna_weight_size1;
  cna_weight_size2_is = last cna_weight_size2;
  cna_cbuf_con0_is = last cna_cbuf_con0;
  cna_cbuf_con1_is = last cna_cbuf_con1;
  cna_cvt_con0_is = last cna_cvt_con0;
  cna_cvt_con1_is = last cna_cvt_con1;
  cna_cvt_con2_is = last cna_cvt_con2;
  cna_cvt_con3_is = last cna_cvt_con3;
  cna_cvt_con4_is = last cna_cvt_con4;
  cna_fc_con0_is = last cna_fc_con0;
  cna_fc_con1_is = last cna_fc_con1;
  cna_pad_con0_is = last cna_pad_con0;
  cna_fc_con2_is = last cna_fc_con2;
  cna_dma_con0_is = last cna_dma_con0;
  cna_dma_con1_is = last cna_dma_con1;
  cna_dma_con2_is = last cna_dma_con2;
  cna_fc_data_size0_is = last cna_fc_data_size0;
  cna_fc_data_size1_is = last cna_fc_data_size1;
  cna_feature_data_addr_is = last cna_feature_data_addr;
  cna_dcomp_addr0_is = last cna_dcomp_addr0;
  core_misc_cfg_is = last core_misc_cfg;
  core_dataout_size_0_is = last core_dataout_size_0;
  core_dataout_size_1_is = last core_dataout_size_1;
  dpu_feature_mode_cfg_is = last dpu_feature_mode_cfg;
  dpu_data_format_is = last dpu_data_format;
  dpu_dst_surf_stride_is = last dpu_dst_surf_stride;
  dpu_data_cube_width_is = last dpu_data_cube_width;
  dpu_data_cube_height_is = last dpu_data_cube_height;
  dpu_data_cube_channel_is = last dpu_data_cube_channel;
  dpu_bs_cfg_is = last dpu_bs_cfg;
  dpu_bs_ow_cfg_is = last dpu_bs_ow_cfg;
  dpu_wdma_size_0_is = last dpu_wdma_size_0;
  dpu_wdma_size_1_is = last dpu_wdma_size_1;
  dpu_bn_cfg_is = last dpu_bn_cfg;
  dpu_ew_cfg_is = last dpu_ew_cfg;
  dpu_out_cvt_scale_is = last dpu_out_cvt_scale;
  dpu_surface_add_is = last dpu_surface_add;
  dpu_dst_base_add_is = last dpu_dst_base_add;
  dpu_ew_cvt_scale_value_is = last dpu_ew_cvt_scale_value;
  dpu_s_pointer_is = last dpu_s_pointer;
  pc_operation_enable_is = last pc_operation_enable;
}
  where
    last :
        (r : Register)
        → programmed r (map encode (task_commands cna core dpu) ++ rest)
          ≡ last_write (address r) (task_commands cna core dpu)
    last r = programmed_task r cna core dpu rest h

-- A field of a programmed register.
pub field_of :
    (r : Register) (s w v x : ℕ) (out : List ℕ)
    → programmed r out ≡ some v
    → bits s w v ≡ x
    → field r s w out ≡ some x
unfolding field
field_of r s w v x out e e' = ap (Option.map (bits s w)) e ∙ ap some e'
