-- ===== src/Registers/Helpers/Cna.antt =====
-- The macros for the PC, CNA and CORE blocks.
use librocket.Prelude.{ℕ}
use librocket.Registers.{place, masked}

abbrev pub pc_operation_enable_reserved_0 : ℕ → ℕ
pc_operation_enable_reserved_0 = place (masked 0xfffffffe 1)

abbrev pub pc_operation_enable_op_en : ℕ → ℕ
pc_operation_enable_op_en = place (masked 0x1 0)

abbrev pub cna_cbuf_con0_weight_bank : ℕ → ℕ
cna_cbuf_con0_weight_bank = place (masked 0xf0 4)

abbrev pub cna_cbuf_con0_data_bank : ℕ → ℕ
cna_cbuf_con0_data_bank = place (masked 0xf 0)

abbrev pub cna_cbuf_con1_data_entries : ℕ → ℕ
cna_cbuf_con1_data_entries = place (masked 0x3fff 0)

abbrev pub cna_conv_con1_conv_mode : ℕ → ℕ
cna_conv_con1_conv_mode = place (masked 0xf 0)

abbrev pub cna_conv_con1_in_precision : ℕ → ℕ
cna_conv_con1_in_precision = place (masked 0x70 4)

abbrev pub cna_conv_con1_proc_precision : ℕ → ℕ
cna_conv_con1_proc_precision = place (masked 0x380 7)

abbrev pub cna_conv_con2_feature_grains : ℕ → ℕ
cna_conv_con2_feature_grains = place (masked 0x3ff0 4)

abbrev pub cna_conv_con3_conv_x_stride : ℕ → ℕ
cna_conv_con3_conv_x_stride = place (masked 0x7 0)

abbrev pub cna_conv_con3_conv_y_stride : ℕ → ℕ
cna_conv_con3_conv_y_stride = place (masked 0x38 3)

abbrev pub cna_data_size0_datain_width : ℕ → ℕ
cna_data_size0_datain_width = place (masked 0x7ff0000 16)

abbrev pub cna_data_size0_datain_height : ℕ → ℕ
cna_data_size0_datain_height = place (masked 0x7ff 0)

abbrev pub cna_data_size1_datain_channel : ℕ → ℕ
cna_data_size1_datain_channel = place (masked 0xffff 0)

abbrev pub cna_data_size1_datain_channel_real : ℕ → ℕ
cna_data_size1_datain_channel_real = place (masked 0x3fff0000 16)

abbrev pub cna_data_size2_dataout_width : ℕ → ℕ
cna_data_size2_dataout_width = place (masked 0x7ff 0)

abbrev pub cna_data_size3_dataout_atomics : ℕ → ℕ
cna_data_size3_dataout_atomics = place (masked 0x3fffff 0)

abbrev pub cna_weight_size2_weight_width : ℕ → ℕ
cna_weight_size2_weight_width = place (masked 0x1f000000 24)

abbrev pub cna_weight_size2_weight_height : ℕ → ℕ
cna_weight_size2_weight_height = place (masked 0x1f0000 16)

abbrev pub cna_weight_size2_weight_kernels : ℕ → ℕ
cna_weight_size2_weight_kernels = place (masked 0x3fff 0)

abbrev pub cna_cvt_con0_data_sign : ℕ → ℕ
cna_cvt_con0_data_sign = place (masked 0x8 3)

abbrev pub cna_cvt_con0_cvt_type : ℕ → ℕ
cna_cvt_con0_cvt_type = place (masked 0x2 1)

abbrev pub cna_cvt_con0_cvt_bypass : ℕ → ℕ
cna_cvt_con0_cvt_bypass = place (masked 0x1 0)

abbrev pub cna_cvt_con1_cvt_scale0 : ℕ → ℕ
cna_cvt_con1_cvt_scale0 = place (masked 0xffff0000 16)

abbrev pub cna_cvt_con2_cvt_scale1 : ℕ → ℕ
cna_cvt_con2_cvt_scale1 = place (masked 0xffff0000 16)

abbrev pub cna_cvt_con3_cvt_scale2 : ℕ → ℕ
cna_cvt_con3_cvt_scale2 = place (masked 0xffff0000 16)

abbrev pub cna_cvt_con4_cvt_scale3 : ℕ → ℕ
cna_cvt_con4_cvt_scale3 = place (masked 0xffff0000 16)

abbrev pub core_misc_cfg_qd_en : ℕ → ℕ
core_misc_cfg_qd_en = place (masked 0x1 0)

abbrev pub core_dataout_size_0_dataout_width : ℕ → ℕ
core_dataout_size_0_dataout_width = place (masked 0xffff 0)

abbrev pub core_dataout_size_0_dataout_height : ℕ → ℕ
core_dataout_size_0_dataout_height = place (masked 0xffff0000 16)

abbrev pub core_dataout_size_1_dataout_channel : ℕ → ℕ
core_dataout_size_1_dataout_channel = place (masked 0xffff 0)
