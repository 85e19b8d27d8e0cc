-- ===== src/Registers/Helpers/Dpu.antt =====
-- The macros for the DPU and DPU_RDMA blocks.
use librocket.Prelude.{ℕ}
use librocket.Registers.{place, masked}

abbrev pub dpu_s_pointer_pointer_pp_mode : ℕ → ℕ
dpu_s_pointer_pointer_pp_mode = place (masked 0x8 3)

abbrev pub dpu_s_pointer_executer_pp_en : ℕ → ℕ
dpu_s_pointer_executer_pp_en = place (masked 0x4 2)

abbrev pub dpu_s_pointer_pointer_pp_en : ℕ → ℕ
dpu_s_pointer_pointer_pp_en = place (masked 0x2 1)

abbrev pub dpu_rdma_rdma_s_pointer_pointer_pp_mode : ℕ → ℕ
dpu_rdma_rdma_s_pointer_pointer_pp_mode = place (masked 0x8 3)

abbrev pub dpu_rdma_rdma_s_pointer_executer_pp_en : ℕ → ℕ
dpu_rdma_rdma_s_pointer_executer_pp_en = place (masked 0x4 2)

abbrev pub dpu_rdma_rdma_s_pointer_pointer_pp_en : ℕ → ℕ
dpu_rdma_rdma_s_pointer_pointer_pp_en = place (masked 0x2 1)

abbrev pub dpu_feature_mode_cfg_burst_len : ℕ → ℕ
dpu_feature_mode_cfg_burst_len = place (masked 0x1e0 5)

abbrev pub dpu_feature_mode_cfg_output_mode : ℕ → ℕ
dpu_feature_mode_cfg_output_mode = place (masked 0x6 1)

abbrev pub dpu_data_cube_channel_orig_channel : ℕ → ℕ
dpu_data_cube_channel_orig_channel = place (masked 0x1fff0000 16)

abbrev pub dpu_data_cube_channel_channel : ℕ → ℕ
dpu_data_cube_channel_channel = place (masked 0x1fff 0)

abbrev pub dpu_bs_cfg_bs_alu_algo : ℕ → ℕ
dpu_bs_cfg_bs_alu_algo = place (masked 0xf0000 16)

abbrev pub dpu_bs_cfg_bs_alu_src : ℕ → ℕ
dpu_bs_cfg_bs_alu_src = place (masked 0x100 8)

abbrev pub dpu_bs_cfg_bs_relu_bypass : ℕ → ℕ
dpu_bs_cfg_bs_relu_bypass = place (masked 0x40 6)

abbrev pub dpu_bs_cfg_bs_mul_bypass : ℕ → ℕ
dpu_bs_cfg_bs_mul_bypass = place (masked 0x10 4)

abbrev pub dpu_bs_ow_cfg_size_e_2 : ℕ → ℕ
dpu_bs_ow_cfg_size_e_2 = place (masked 0x700 8)

abbrev pub dpu_bs_ow_cfg_size_e_1 : ℕ → ℕ
dpu_bs_ow_cfg_size_e_1 = place (masked 0xe0 5)

abbrev pub dpu_bs_ow_cfg_size_e_0 : ℕ → ℕ
dpu_bs_ow_cfg_size_e_0 = place (masked 0x1c 2)

abbrev pub dpu_wdma_size_0_channel_wdma : ℕ → ℕ
dpu_wdma_size_0_channel_wdma = place (masked 0x1fff 0)

abbrev pub dpu_wdma_size_1_height_wdma : ℕ → ℕ
dpu_wdma_size_1_height_wdma = place (masked 0x1fff0000 16)

abbrev pub dpu_wdma_size_1_width_wdma : ℕ → ℕ
dpu_wdma_size_1_width_wdma = place (masked 0x1fff 0)

abbrev pub dpu_bn_cfg_bn_bypass : ℕ → ℕ
dpu_bn_cfg_bn_bypass = place (masked 0x1 0)

abbrev pub dpu_ew_cfg_ew_alu_algo : ℕ → ℕ
dpu_ew_cfg_ew_alu_algo = place (masked 0xf0000 16)

abbrev pub dpu_ew_cfg_ew_relu_bypass : ℕ → ℕ
dpu_ew_cfg_ew_relu_bypass = place (masked 0x200 9)

abbrev pub dpu_ew_cfg_ew_bypass : ℕ → ℕ
dpu_ew_cfg_ew_bypass = place (masked 0x1 0)

abbrev pub dpu_lut_cfg_lut_uflow_priority : ℕ → ℕ
dpu_lut_cfg_lut_uflow_priority = place (masked 0x10 4)

abbrev pub dpu_rdma_rdma_weight_e_weight : ℕ → ℕ
dpu_rdma_rdma_weight_e_weight = place (masked 0xff000000 24)

abbrev pub dpu_rdma_rdma_weight_n_weight : ℕ → ℕ
dpu_rdma_rdma_weight_n_weight = place (masked 0xff0000 16)

abbrev pub dpu_rdma_rdma_weight_b_weight : ℕ → ℕ
dpu_rdma_rdma_weight_b_weight = place (masked 0xff00 8)

abbrev pub dpu_rdma_rdma_weight_m_weight : ℕ → ℕ
dpu_rdma_rdma_weight_m_weight = place (masked 0xff 0)
