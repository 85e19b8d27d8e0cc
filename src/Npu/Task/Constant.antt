-- ===== src/Npu/Task/Constant.antt =====
-- The registers that a stored task sets to 0 whatever its descriptors are.
use librocket.Prelude.{ℕ, ◌≡◌, ap, List, [], ◌∷◌, ◌++◌, map, some}
use mathlib.Core.Path.{fun_ext}
use librocket.Npu.Hw.{
  Register, address, encode, pc_register_amounts, cna_dcomp_ctrl, cna_dcomp_regnum,
  cna_dcomp_amount, cna_dcomp_amount1, cna_dcomp_amount2, cna_dcomp_amount3, cna_dcomp_amount4,
  cna_dcomp_amount5, cna_dcomp_amount6, cna_dcomp_amount7, cna_dcomp_amount8, cna_dcomp_amount9,
  cna_dcomp_amount10, cna_dcomp_amount11, cna_dcomp_amount12, cna_dcomp_amount13,
  cna_dcomp_amount14, cna_dcomp_amount15, cna_cvt_con5, cna_pad_con1, core_clip_truncate, core_3030,
  dpu_offset_pend, dpu_data_cube_notch_addr, dpu_bs_alu_cfg, dpu_bs_mul_cfg, dpu_bs_relux_cmp_value,
  dpu_bs_ow_op, dpu_bn_alu_cfg, dpu_bn_mul_cfg, dpu_bn_relux_cmp_value, dpu_ew_cvt_offset_value,
  dpu_ew_relux_cmp_value, dpu_out_cvt_offset, dpu_out_cvt_shift, dpu_ew_op_value_0,
  dpu_ew_op_value_1, dpu_ew_op_value_2, dpu_ew_op_value_3, dpu_ew_op_value_4, dpu_ew_op_value_5,
  dpu_ew_op_value_6, dpu_ew_op_value_7, dpu_40c4, dpu_lut_access_cfg, dpu_lut_access_data,
  dpu_lut_cfg, dpu_lut_info, dpu_lut_le_start, dpu_lut_le_end, dpu_lut_lo_start, dpu_lut_lo_end,
  dpu_lut_le_slope_scale, dpu_lut_le_slope_shift, dpu_lut_lo_slope_scale, dpu_lut_lo_slope_shift,
}
use librocket.Npu.Desc.{CnaDesc, CoreDesc, DpuDesc}
use librocket.Npu.Values.Cna.{cna_commands}
use librocket.Npu.Values.Core.{core_commands}
use librocket.Npu.Values.Dpu.{dpu_commands}
use librocket.Npu.Task.{task_commands, pc_commands}
use librocket.Npu.Task.Fits.{IsAddressed}
use librocket.Npu.Task.RegisterFile.{last_write, programmed}
use librocket.Npu.Task.Written.{programmed_task}

abbrev pub zero_registers : List Register
zero_registers =
    pc_register_amounts ∷ cna_dcomp_ctrl ∷ cna_dcomp_regnum ∷ cna_dcomp_amount ∷ cna_dcomp_amount1
    ∷ cna_dcomp_amount2 ∷ cna_dcomp_amount3 ∷ cna_dcomp_amount4 ∷ cna_dcomp_amount5
    ∷ cna_dcomp_amount6 ∷ cna_dcomp_amount7 ∷ cna_dcomp_amount8 ∷ cna_dcomp_amount9
    ∷ cna_dcomp_amount10 ∷ cna_dcomp_amount11 ∷ cna_dcomp_amount12 ∷ cna_dcomp_amount13
    ∷ cna_dcomp_amount14 ∷ cna_dcomp_amount15 ∷ cna_cvt_con5 ∷ cna_pad_con1 ∷ core_clip_truncate
    ∷ core_3030 ∷ dpu_offset_pend ∷ dpu_data_cube_notch_addr ∷ dpu_bs_alu_cfg ∷ dpu_bs_mul_cfg
    ∷ dpu_bs_relux_cmp_value ∷ dpu_bs_ow_op ∷ dpu_bn_alu_cfg ∷ dpu_bn_mul_cfg
    ∷ dpu_bn_relux_cmp_value ∷ dpu_ew_cvt_offset_value ∷ dpu_ew_relux_cmp_value ∷ dpu_out_cvt_offset
    ∷ dpu_out_cvt_shift ∷ dpu_ew_op_value_0 ∷ dpu_ew_op_value_1 ∷ dpu_ew_op_value_2
    ∷ dpu_ew_op_value_3 ∷ dpu_ew_op_value_4 ∷ dpu_ew_op_value_5 ∷ dpu_ew_op_value_6
    ∷ dpu_ew_op_value_7 ∷ dpu_40c4 ∷ dpu_lut_access_cfg ∷ dpu_lut_access_data ∷ dpu_lut_cfg
    ∷ dpu_lut_info ∷ dpu_lut_le_start ∷ dpu_lut_le_end ∷ dpu_lut_lo_start ∷ dpu_lut_lo_end
    ∷ dpu_lut_le_slope_scale ∷ dpu_lut_le_slope_shift ∷ dpu_lut_lo_slope_scale
    ∷ dpu_lut_lo_slope_shift ∷ []

pub task_zeros :
    (cna : CnaDesc) (core : CoreDesc) (dpu : DpuDesc) (rest : List ℕ)
    → IsAddressed cna dpu
    → map (λ r. programmed r (map encode (task_commands cna core dpu) ++ rest)) zero_registers
      ≡ map (λ r. some 0) zero_registers
unfolding task_commands cna_commands core_commands dpu_commands pc_commands last_write address
task_zeros cna core dpu rest h =
    ap (λ f. map f zero_registers) (fun_ext (λ r. programmed_task r cna core dpu rest h))
