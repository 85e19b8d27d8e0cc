-- ===== src/Full/Cna.antt =====
-- The CNA part of gen_matmul_fp16 of src/npu_matmul_full.c.
use librocket.Prelude.{ℕ, ◌*◌, List, [], ◌∷◌, u32, sub32, ◌&◌, ◌bitor◌}
use librocket.Npu.Desc.{Params}
use librocket.Regcmd.{Regcmd, regcmd_of}
use librocket.Registers.CnaBack.{
  reg_cna_cvt_con5, reg_cna_dcomp_addr0, reg_cna_dcomp_amount0, reg_cna_dcomp_amount1,
  reg_cna_dcomp_amount10, reg_cna_dcomp_amount11, reg_cna_dcomp_amount12, reg_cna_dcomp_amount13,
  reg_cna_dcomp_amount14, reg_cna_dcomp_amount15, reg_cna_dcomp_amount2, reg_cna_dcomp_amount3,
  reg_cna_dcomp_amount4, reg_cna_dcomp_amount5, reg_cna_dcomp_amount6, reg_cna_dcomp_amount7,
  reg_cna_dcomp_amount8, reg_cna_dcomp_amount9, reg_cna_dcomp_ctrl, reg_cna_dcomp_regnum,
  reg_cna_fc_data_size0, reg_cna_fc_data_size1, reg_cna_pad_con1,
}
use librocket.Registers.CnaFront.{
  reg_cna_cbuf_con0, reg_cna_cbuf_con1, reg_cna_conv_con1, reg_cna_conv_con2, reg_cna_conv_con3,
  reg_cna_cvt_con0, reg_cna_cvt_con1, reg_cna_cvt_con2, reg_cna_cvt_con3, reg_cna_cvt_con4,
  reg_cna_data_size0, reg_cna_data_size1, reg_cna_data_size2, reg_cna_data_size3, reg_cna_fc_con0,
  reg_cna_fc_con1, reg_cna_fc_con2, reg_cna_feature_data_addr, reg_cna_pad_con0,
  reg_cna_weight_size0, reg_cna_weight_size1, reg_cna_weight_size2,
}
use librocket.Registers.DpuFront.{reg_dpu_s_pointer}
use librocket.Registers.DpuRdma.{reg_dpu_rdma_rdma_s_pointer}
use librocket.Registers.Helpers.Cna.{
  cna_cbuf_con0_data_bank, cna_cbuf_con0_weight_bank, cna_cbuf_con1_data_entries,
  cna_conv_con1_conv_mode, cna_conv_con1_in_precision, cna_conv_con1_proc_precision,
  cna_conv_con2_feature_grains, cna_conv_con3_conv_x_stride, cna_conv_con3_conv_y_stride,
  cna_cvt_con0_cvt_bypass, cna_cvt_con0_cvt_type, cna_cvt_con0_data_sign, cna_cvt_con1_cvt_scale0,
  cna_cvt_con2_cvt_scale1, cna_cvt_con3_cvt_scale2, cna_cvt_con4_cvt_scale3,
  cna_data_size0_datain_height, cna_data_size0_datain_width, cna_data_size1_datain_channel,
  cna_data_size1_datain_channel_real, cna_data_size2_dataout_width, cna_data_size3_dataout_atomics,
  cna_weight_size2_weight_height, cna_weight_size2_weight_kernels, cna_weight_size2_weight_width,
}
use librocket.Registers.Helpers.Dpu.{
  dpu_rdma_rdma_s_pointer_executer_pp_en, dpu_rdma_rdma_s_pointer_pointer_pp_en,
  dpu_rdma_rdma_s_pointer_pointer_pp_mode, dpu_s_pointer_executer_pp_en,
  dpu_s_pointer_pointer_pp_en, dpu_s_pointer_pointer_pp_mode,
}
use librocket.Mesa.{target_cna, target_dpu}

unfoldable pub conv_con1 : ℕ
conv_con1 =
    cna_conv_con1_conv_mode 0
    bitor cna_conv_con1_in_precision 2
    bitor cna_conv_con1_proc_precision 2

-- Computed in `int`; an overflow is taken to wrap around.
unfoldable pub weight_total : Params → ℕ
weight_total p = u32 (1 * 1 * p.k * p.n)

-- The buffers, the mode and the sizes of the CNA.
unfoldable pub sizes_regcmds : Params → List Regcmd
sizes_regcmds p =
    regcmd_of target_cna (cna_cbuf_con0_weight_bank 1 bitor cna_cbuf_con0_data_bank 1)
      reg_cna_cbuf_con0.offset
    ∷ regcmd_of target_cna 0 reg_cna_dcomp_regnum.offset
    ∷ regcmd_of target_cna 0 reg_cna_dcomp_ctrl.offset
    ∷ regcmd_of target_cna conv_con1 reg_cna_conv_con1.offset
    ∷ regcmd_of target_dpu
        (dpu_s_pointer_pointer_pp_mode 1
          bitor dpu_s_pointer_executer_pp_en 1
          bitor dpu_s_pointer_pointer_pp_en 1)
        reg_dpu_s_pointer.offset
    ∷ regcmd_of target_dpu
        (dpu_rdma_rdma_s_pointer_pointer_pp_mode 1
          bitor dpu_rdma_rdma_s_pointer_executer_pp_en 1
          bitor dpu_rdma_rdma_s_pointer_pointer_pp_en 1)
        reg_dpu_rdma_rdma_s_pointer.offset
    ∷ regcmd_of target_cna conv_con1 reg_cna_conv_con1.offset
    ∷ regcmd_of target_cna (cna_conv_con2_feature_grains 52) reg_cna_conv_con2.offset
    ∷ regcmd_of target_cna (cna_conv_con3_conv_x_stride 1 bitor cna_conv_con3_conv_y_stride 1)
        reg_cna_conv_con3.offset
    ∷ regcmd_of target_cna (cna_data_size0_datain_width 1 bitor cna_data_size0_datain_height p.m)
        reg_cna_data_size0.offset
    ∷ regcmd_of target_cna
        (cna_data_size1_datain_channel_real (sub32 p.k 1) bitor cna_data_size1_datain_channel p.k)
        reg_cna_data_size1.offset
    ∷ regcmd_of target_cna (cna_data_size2_dataout_width 1) reg_cna_data_size2.offset
    ∷ regcmd_of target_cna (cna_data_size3_dataout_atomics p.m) reg_cna_data_size3.offset
    ∷ regcmd_of target_cna (weight_total p) reg_cna_weight_size0.offset
    ∷ regcmd_of target_cna (1 * 1 * p.k) reg_cna_weight_size1.offset
    ∷ regcmd_of target_cna
        (cna_weight_size2_weight_width 1
          bitor cna_weight_size2_weight_height 1
          bitor cna_weight_size2_weight_kernels p.n)
        reg_cna_weight_size2.offset
    ∷ regcmd_of target_cna (cna_cbuf_con0_weight_bank 1 bitor cna_cbuf_con0_data_bank 1)
        reg_cna_cbuf_con0.offset
    ∷ regcmd_of target_cna (cna_cbuf_con1_data_entries (p.m * p.k)) reg_cna_cbuf_con1.offset
    ∷ []

-- Conversion, padding and the input of the CNA.
unfoldable pub feature_regcmds : Params → List Regcmd
feature_regcmds p =
    regcmd_of target_cna
      (cna_cvt_con0_data_sign 1 bitor cna_cvt_con0_cvt_type 1 bitor cna_cvt_con0_cvt_bypass 1)
      reg_cna_cvt_con0.offset
    ∷ regcmd_of target_cna (cna_cvt_con1_cvt_scale0 1) reg_cna_cvt_con1.offset
    ∷ regcmd_of target_cna (cna_cvt_con2_cvt_scale1 1) reg_cna_cvt_con2.offset
    ∷ regcmd_of target_cna (cna_cvt_con3_cvt_scale2 1) reg_cna_cvt_con3.offset
    ∷ regcmd_of target_cna (cna_cvt_con4_cvt_scale3 1) reg_cna_cvt_con4.offset
    ∷ regcmd_of target_cna 0 reg_cna_fc_con0.offset
    ∷ regcmd_of target_cna 0 reg_cna_fc_con1.offset
    ∷ regcmd_of target_cna 0 reg_cna_pad_con0.offset
    ∷ regcmd_of target_cna (p.input_dma & 0xffffffff) reg_cna_feature_data_addr.offset
    ∷ regcmd_of target_cna 0 reg_cna_fc_con2.offset
    ∷ regcmd_of target_cna 0 reg_cna_fc_data_size0.offset
    ∷ regcmd_of target_cna 0 reg_cna_fc_data_size1.offset
    ∷ []

-- The decompression of the CNA, which has the address of the weights.
unfoldable pub dcomp_regcmds : Params → List Regcmd
dcomp_regcmds p =
    regcmd_of target_cna 0 reg_cna_dcomp_ctrl.offset
    ∷ regcmd_of target_cna 0 reg_cna_dcomp_regnum.offset
    ∷ regcmd_of target_cna (p.weights_dma & 0xffffffff) reg_cna_dcomp_addr0.offset
    ∷ regcmd_of target_cna 0 reg_cna_dcomp_amount0.offset
    ∷ regcmd_of target_cna 0 reg_cna_dcomp_amount1.offset
    ∷ regcmd_of target_cna 0 reg_cna_dcomp_amount2.offset
    ∷ regcmd_of target_cna 0 reg_cna_dcomp_amount3.offset
    ∷ regcmd_of target_cna 0 reg_cna_dcomp_amount4.offset
    ∷ regcmd_of target_cna 0 reg_cna_dcomp_amount5.offset
    ∷ regcmd_of target_cna 0 reg_cna_dcomp_amount6.offset
    ∷ regcmd_of target_cna 0 reg_cna_dcomp_amount7.offset
    ∷ regcmd_of target_cna 0 reg_cna_dcomp_amount8.offset
    ∷ regcmd_of target_cna 0 reg_cna_dcomp_amount9.offset
    ∷ regcmd_of target_cna 0 reg_cna_dcomp_amount10.offset
    ∷ regcmd_of target_cna 0 reg_cna_dcomp_amount11.offset
    ∷ regcmd_of target_cna 0 reg_cna_dcomp_amount12.offset
    ∷ regcmd_of target_cna 0 reg_cna_dcomp_amount13.offset
    ∷ regcmd_of target_cna 0 reg_cna_dcomp_amount14.offset
    ∷ regcmd_of target_cna 0 reg_cna_dcomp_amount15.offset
    ∷ regcmd_of target_cna 0 reg_cna_cvt_con5.offset
    ∷ regcmd_of target_cna 0 reg_cna_pad_con1.offset
    ∷ []
