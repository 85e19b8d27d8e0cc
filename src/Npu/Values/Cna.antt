-- ===== src/Npu/Values/Cna.antt =====
-- The CNA part of `gen_matmul_task` in src/npu_matmul.c: what it assigns to `value` for each
-- register, and the commands ops[1] to ops[48].
pub mod Fields
pub mod Found
use librocket.Prelude.{ℕ, ◌+◌, ◌-◌, ◌*◌, ◌%◌, ◌^◌, List, [], ◌∷◌, u32, sub32, ◌<<◌, ◌&◌, ◌bitor◌}
use librocket.Npu.Hw.{Command, command, address, op_reg_cna}
use librocket.Npu.Hw.{
  cna_conv_con1, cna_conv_con2, cna_conv_con3, cna_data_size0, cna_data_size1, cna_data_size2,
  cna_data_size3, cna_weight_size0, cna_weight_size1, cna_weight_size2, cna_cbuf_con0,
  cna_cbuf_con1, cna_cvt_con0, cna_cvt_con1, cna_cvt_con2, cna_cvt_con3, cna_cvt_con4, cna_fc_con0,
  cna_fc_con1, cna_pad_con0, cna_feature_data_addr, cna_fc_con2, cna_dma_con0, cna_dma_con1,
  cna_dma_con2, cna_fc_data_size0, cna_fc_data_size1, cna_dcomp_ctrl, cna_dcomp_regnum,
  cna_dcomp_addr0, cna_dcomp_amount, cna_dcomp_amount1, cna_dcomp_amount2, cna_dcomp_amount3,
  cna_dcomp_amount4, cna_dcomp_amount5, cna_dcomp_amount6, cna_dcomp_amount7, cna_dcomp_amount8,
  cna_dcomp_amount9, cna_dcomp_amount10, cna_dcomp_amount11, cna_dcomp_amount12, cna_dcomp_amount13,
  cna_dcomp_amount14, cna_dcomp_amount15, cna_cvt_con5, cna_pad_con1,
}
use librocket.Npu.Desc.{CnaDesc}

unfoldable pub conv_con1 : CnaDesc → ℕ
conv_con1 d =
    u32 (
      ((d.proc_precision & 0x7) << 7) bitor ((d.in_precision & 0x7) << 4) bitor (d.conv_mode & 0xf))

unfoldable pub conv_con2 : CnaDesc → ℕ
conv_con2 d = u32 (((d.kernel_groups & 0xff) << 16) bitor ((d.feature_grains & 0x3ff) << 4))

unfoldable pub conv_con3 : CnaDesc → ℕ
conv_con3 d = u32 (((d.conv_y_stride & 0x7) << 3) bitor (d.conv_x_stride & 0x7))

unfoldable pub data_size0 : CnaDesc → ℕ
data_size0 d = u32 (((d.datain_width) & 0x7ff) << 16 bitor (d.datain_height & 0x7ff))

unfoldable pub data_size1 : CnaDesc → ℕ
data_size1 d = u32 (((sub32 d.datain_channel 1) & 0xffff) << 16 bitor (d.datain_channel & 0xffff))

unfoldable pub data_size2 : CnaDesc → ℕ
data_size2 d = u32 (d.dataout_width & 0x7ff)

unfoldable pub data_size3 : CnaDesc → ℕ
data_size3 d = u32 (d.dataout_atomics & 0x3ffff)

unfoldable pub weight_size0 : CnaDesc → ℕ
weight_size0 d = u32 (d.weight_bytes)

unfoldable pub weight_size1 : CnaDesc → ℕ
weight_size1 d = u32 (d.weight_bytes_per_kernel & 0x7ffff)

unfoldable pub weight_size2 : CnaDesc → ℕ
weight_size2 d = u32 (
    ((d.weight_width & 0x1f) << 24)
    bitor ((d.weight_height & 0x1f) << 16)
    bitor (d.weight_kernels & 0x3fff))

unfoldable pub cbuf_con0 : CnaDesc → ℕ
cbuf_con0 d = u32 (((d.weight_bank & 0xf) << 4) bitor (d.data_bank & 0xf))

unfoldable pub cbuf_con1 : CnaDesc → ℕ
cbuf_con1 d = u32 (d.data_entries & 0x1fff)

unfoldable pub cvt_con0 : CnaDesc → ℕ
cvt_con0 d =
    u32 (((d.data_sign & 0x1) << 3) bitor ((d.cvt_type & 0x1) << 1) bitor (d.cvt_bypass & 0x1))

unfoldable pub cvt_con1 : CnaDesc → ℕ
cvt_con1 d = u32 (((d.cvt_scale0 & 0xffff) << 16) bitor 0x0)

unfoldable pub cvt_con2 : CnaDesc → ℕ
cvt_con2 d = u32 (((d.cvt_scale1 & 0xffff) << 16) bitor 0x0)

unfoldable pub cvt_con3 : CnaDesc → ℕ
cvt_con3 d = u32 (((d.cvt_scale2 & 0xffff) << 16) bitor 0x0)

unfoldable pub cvt_con4 : CnaDesc → ℕ
cvt_con4 d = u32 (((d.cvt_scale3 & 0xffff) << 16) bitor 0x0)

unfoldable pub fc_con0 : CnaDesc → ℕ
fc_con0 d = u32 (d.fc_skip_en & 0x1)

unfoldable pub fc_con1 : CnaDesc → ℕ
fc_con1 d = u32 (d.data_offset & 0x1ffff)

unfoldable pub pad_con0 : CnaDesc → ℕ
pad_con0 d = u32 (((d.pad_left & 0xf) << 4) bitor (d.pad_top & 0xf))

unfoldable pub fc_con2 : CnaDesc → ℕ
fc_con2 d = u32 (d.weight_offset & 0x1ffff)

unfoldable pub dma_con0 : CnaDesc → ℕ
dma_con0 d = u32 (((d.weight_burst_len & 0xf) << 16) bitor (d.data_burst_len & 0xf))

unfoldable pub dma_con1 : CnaDesc → ℕ
dma_con1 d = u32 (d.line_stride & 0xfffffff)

unfoldable pub dma_con2 : CnaDesc → ℕ
dma_con2 d = u32 (d.surf_stride & 0xfffffff)

unfoldable pub fc_data_size0 : CnaDesc → ℕ
fc_data_size0 d = u32 (((d.dma_width & 0x7ff) << 16) bitor (d.dma_height & 0x7ff))

unfoldable pub fc_data_size1 : CnaDesc → ℕ
fc_data_size1 d = u32 (d.dma_channel & 0xffff)

unfoldable pub cna_commands : CnaDesc → List Command
cna_commands d =
    command op_reg_cna (conv_con1 d) (address cna_conv_con1)
    ∷ command op_reg_cna (conv_con2 d) (address cna_conv_con2)
    ∷ command op_reg_cna (conv_con3 d) (address cna_conv_con3)
    ∷ command op_reg_cna (data_size0 d) (address cna_data_size0)
    ∷ command op_reg_cna (data_size1 d) (address cna_data_size1)
    ∷ command op_reg_cna (data_size2 d) (address cna_data_size2)
    ∷ command op_reg_cna (data_size3 d) (address cna_data_size3)
    ∷ command op_reg_cna (weight_size0 d) (address cna_weight_size0)
    ∷ command op_reg_cna (weight_size1 d) (address cna_weight_size1)
    ∷ command op_reg_cna (weight_size2 d) (address cna_weight_size2)
    ∷ command op_reg_cna (cbuf_con0 d) (address cna_cbuf_con0)
    ∷ command op_reg_cna (cbuf_con1 d) (address cna_cbuf_con1)
    ∷ command op_reg_cna (cvt_con0 d) (address cna_cvt_con0)
    ∷ command op_reg_cna (cvt_con1 d) (address cna_cvt_con1)
    ∷ command op_reg_cna (cvt_con2 d) (address cna_cvt_con2)
    ∷ command op_reg_cna (cvt_con3 d) (address cna_cvt_con3)
    ∷ command op_reg_cna (cvt_con4 d) (address cna_cvt_con4)
    ∷ command op_reg_cna (fc_con0 d) (address cna_fc_con0)
    ∷ command op_reg_cna (fc_con1 d) (address cna_fc_con1)
    ∷ command op_reg_cna (pad_con0 d) (address cna_pad_con0)
    ∷ command op_reg_cna d.feature_base_addr (address cna_feature_data_addr)
    ∷ command op_reg_cna (fc_con2 d) (address cna_fc_con2)
    ∷ command op_reg_cna (dma_con0 d) (address cna_dma_con0)
    ∷ command op_reg_cna (dma_con1 d) (address cna_dma_con1)
    ∷ command op_reg_cna (dma_con2 d) (address cna_dma_con2)
    ∷ command op_reg_cna (fc_data_size0 d) (address cna_fc_data_size0)
    ∷ command op_reg_cna (fc_data_size1 d) (address cna_fc_data_size1)
    ∷ command op_reg_cna 0x0 (address cna_dcomp_ctrl)
    ∷ command op_reg_cna 0x0 (address cna_dcomp_regnum)
    ∷ command op_reg_cna d.decompress_addr0 (address cna_dcomp_addr0)
    ∷ command op_reg_cna 0x0 (address cna_dcomp_amount)
    ∷ command op_reg_cna 0x0 (address cna_dcomp_amount1)
    ∷ command op_reg_cna 0x0 (address cna_dcomp_amount2)
    ∷ command op_reg_cna 0x0 (address cna_dcomp_amount3)
    ∷ command op_reg_cna 0x0 (address cna_dcomp_amount4)
    ∷ command op_reg_cna 0x0 (address cna_dcomp_amount5)
    ∷ command op_reg_cna 0x0 (address cna_dcomp_amount6)
    ∷ command op_reg_cna 0x0 (address cna_dcomp_amount7)
    ∷ command op_reg_cna 0x0 (address cna_dcomp_amount8)
    ∷ command op_reg_cna 0x0 (address cna_dcomp_amount9)
    ∷ command op_reg_cna 0x0 (address cna_dcomp_amount10)
    ∷ command op_reg_cna 0x0 (address cna_dcomp_amount11)
    ∷ command op_reg_cna 0x0 (address cna_dcomp_amount12)
    ∷ command op_reg_cna 0x0 (address cna_dcomp_amount13)
    ∷ command op_reg_cna 0x0 (address cna_dcomp_amount14)
    ∷ command op_reg_cna 0x0 (address cna_dcomp_amount15)
    ∷ command op_reg_cna 0x0 (address cna_cvt_con5)
    ∷ command op_reg_cna 0x0 (address cna_pad_con1)
    ∷ []
