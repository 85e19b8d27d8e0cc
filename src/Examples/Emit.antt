-- ===== src/Examples/Emit.antt =====
-- Runs of the generators of src/npu_matmul_mesa.c.
use librocket.Prelude.{ℕ, ◌≡◌, arith, List, ◌++◌, map, some, take, drop, get_elem?}
use librocket.Prelude.Int.{pos}
use librocket.Npu.Hw.Decode.{decode}
use librocket.Mesa.{fp16_regcmds, int8_regcmds}
use librocket.Mesa
use librocket.Mesa.Output.{fp16_commands, gen_matmul_fp16_read, dpu_enable_is_disable}
use librocket.Prelude.{if◌then◌else◌, ltb, length, none, every, true, All, refl}
use librocket.Registers.{masked}
use librocket.Full
use librocket.Full.{full_words}
use librocket.Full.Undefined.{Missing}
use librocket.Full.Written.{full_writes}
use librocket.Full.Routes.{IsRdma, routed, Misrouted, full_routes}
use librocket.Full.Cna.{sizes_regcmds, feature_regcmds, dcomp_regcmds}
use librocket.Full.Dpu.{core_regcmds, dpu_regcmds}
use librocket.Full.Rdma.{rdma_regcmds, pc_regcmds}
use librocket.Registers.Target.{rkt_get_target}
use librocket.Npu.Desc.{IsParams}
use librocket.Mesa.Routes.{is_routed, fp16_routes, fp16_words_routed}
use librocket.Examples.Data.{small, zeros}

dpu_enable_is_disable_example :
    (out : List ℕ) × (Mesa.gen_matmul_fp16 small (zeros 20) ≡ some (pos 17, out))
    × (get_elem? out 13 ≡ get_elem? out 14)
dpu_enable_is_disable_example = dpu_enable_is_disable small (zeros 20) (omega arith)

-- src/npu_matmul_full.c, with one number for most of the missing names and the registers of the
-- DPU_RDMA in its unit.
abbrev missing : Missing
missing = record {
  reg_dpu_bn_ow_cfg = 0x4000;
  reg_dpu_ew_alu_cfg = 0x4000;
  reg_dpu_ew_alu_cvt_offset_value = 0x4000;
  reg_dpu_ew_alu_cvt_scale_value = 0x4000;
  reg_dpu_ew_alu_cvt_truncate_value = 0x4000;
  reg_dpu_ew_mul_cfg = 0x4000;
  reg_dpu_ew_mul_cvt_offset_value = 0x4000;
  reg_dpu_ew_mul_cvt_scale_value = 0x4000;
  reg_dpu_ew_mul_cvt_truncate_value = 0x4000;
  reg_dpu_ew_ow_cfg = 0x4000;
  reg_dpu_out_cvt_cfg = 0x4000;
  reg_dpu_lut_le_start_low = 0x4000;
  reg_dpu_lut_le_start_high = 0x4000;
  reg_dpu_lut_le_end_low = 0x4000;
  reg_dpu_lut_le_end_high = 0x4000;
  reg_dpu_lut_lo_start_low = 0x4000;
  reg_dpu_lut_lo_start_high = 0x4000;
  reg_dpu_lut_lo_end_low = 0x4000;
  reg_dpu_lut_lo_end_high = 0x4000;
  reg_dpu_rdma_rdma_cfg = 0x5018;
  reg_dpu_rdma_rdma_base_addr = 0x501c;
  reg_dpu_rdma_rdma_surf_stride = 0x5020;
  dpu_ew_cfg_ew_alu_src = masked 1 0;
  dpu_ew_cfg_ew_mul_bypass = masked 1 0;
  dpu_out_cvt_cfg_out_cvt_bypass = masked 1 0;
  dpu_lut_cfg_lut_le_function = masked 1 0;
  dpu_rdma_rdma_cfg_rdma_disable = masked 1 0;
  dpu_rdma_rdma_cfg_rdma_data_mode = masked 1 0;
  dpu_rdma_rdma_cfg_rdma_data_size = masked 1 0;
  dpu_rdma_rdma_cfg_rdma_data_use = masked 1 0;
}

missing-IsRdma : IsRdma missing
unfolding rkt_get_target
missing-IsRdma = record { cfg = refl; base_addr = refl; surf_stride = refl }

-- The buffer of the test program.
full_writes_example : Full.gen_matmul_fp16 missing small (zeros 112) ≡ (
    if ltb (length (zeros 112)) 122
    then none
    else some (pos 122, full_words missing small ++ drop 122 (zeros 112)))
full_writes_example = full_writes missing small (zeros 112)

full_routes_example :
    All Misrouted (rdma_regcmds missing small)
    × (every routed (
          sizes_regcmds small
          ++ feature_regcmds small
          ++ dcomp_regcmds small
          ++ core_regcmds small
          ++ dpu_regcmds small
          ++ pc_regcmds)
        ≡ true)
full_routes_example = full_routes missing small missing-IsRdma

small-IsParams : IsParams small
small-IsParams = record {
  m_fits = omega arith;
  k_fits = omega arith;
  n_fits = omega arith;
  input_fits = omega arith;
  weights_fits = omega arith;
  output_fits = omega arith;
  flag_fits = omega arith;
}

gen_matmul_fp16_read_example :
    (out : List ℕ) × (Mesa.gen_matmul_fp16 small (zeros 20) ≡ some (pos 17, out))
    × (map decode (take 17 out) ≡ fp16_commands small)
    × (drop 17 out ≡ drop 17 (zeros 20))
gen_matmul_fp16_read_example =
    gen_matmul_fp16_read small (zeros 20) small-IsParams (omega arith) (omega arith)

fp16_words_routed_example :
    (out : List ℕ) × (Mesa.gen_matmul_fp16 small (zeros 20) ≡ some (pos 17, out))
    × (map is_routed (map decode (take 17 out)) ≡ fp16_routes)
fp16_words_routed_example =
    fp16_words_routed small (zeros 20) small-IsParams (omega arith) (omega arith)
