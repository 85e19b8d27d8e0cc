-- ===== src/Full/Undefined.antt =====
-- Names that src/npu_matmul_full.c and include/mesa_helpers.h use and no file defines: the numbers
-- of 22 registers, and 8 fields. They are a parameter of the model.
use librocket.Prelude.{ℕ}
use librocket.Registers.{Field}

pub record Missing : Type 0 where
  pub reg_dpu_bn_ow_cfg : ℕ
  pub reg_dpu_ew_alu_cfg : ℕ
  pub reg_dpu_ew_alu_cvt_offset_value : ℕ
  pub reg_dpu_ew_alu_cvt_scale_value : ℕ
  pub reg_dpu_ew_alu_cvt_truncate_value : ℕ
  pub reg_dpu_ew_mul_cfg : ℕ
  pub reg_dpu_ew_mul_cvt_offset_value : ℕ
  pub reg_dpu_ew_mul_cvt_scale_value : ℕ
  pub reg_dpu_ew_mul_cvt_truncate_value : ℕ
  pub reg_dpu_ew_ow_cfg : ℕ
  pub reg_dpu_out_cvt_cfg : ℕ
  pub reg_dpu_lut_le_start_low : ℕ
  pub reg_dpu_lut_le_start_high : ℕ
  pub reg_dpu_lut_le_end_low : ℕ
  pub reg_dpu_lut_le_end_high : ℕ
  pub reg_dpu_lut_lo_start_low : ℕ
  pub reg_dpu_lut_lo_start_high : ℕ
  pub reg_dpu_lut_lo_end_low : ℕ
  pub reg_dpu_lut_lo_end_high : ℕ
  pub reg_dpu_rdma_rdma_cfg : ℕ
  pub reg_dpu_rdma_rdma_base_addr : ℕ
  pub reg_dpu_rdma_rdma_surf_stride : ℕ
  pub dpu_ew_cfg_ew_alu_src : Field
  pub dpu_ew_cfg_ew_mul_bypass : Field
  pub dpu_out_cvt_cfg_out_cvt_bypass : Field
  pub dpu_lut_cfg_lut_le_function : Field
  pub dpu_rdma_rdma_cfg_rdma_disable : Field
  pub dpu_rdma_rdma_cfg_rdma_data_mode : Field
  pub dpu_rdma_rdma_cfg_rdma_data_size : Field
  pub dpu_rdma_rdma_cfg_rdma_data_use : Field
