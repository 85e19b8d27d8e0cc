-- ===== src/Npu/Int8/Registers.antt =====
-- What an accepted call of `gen_matmul_int8` programs into the registers, read back from the words
-- in the task buffer.
pub mod Cna
pub mod Dpu
use librocket.Prelude.{
  ℕ, ◌+◌, ◌-◌, ◌*◌, ◌^◌, ◌≤◌, ◌<◌, ◌≡◌, arith, List, ◌++◌, map, some, length, drop,
}
use librocket.Prelude.Int.{pos}
use librocket.Npu.Hw.{
  core_misc_cfg, core_dataout_size_0, core_dataout_size_1, pc_operation_enable, precision, int8,
}
use librocket.Npu.Desc.{Params, IsParams, FitsRegisters, CnaDesc}
use librocket.Npu.Cbuf.{less_one16}
use librocket.Npu.Task.RegisterFile.{programmed, field}
use librocket.Npu.Task.Fits.{IsAddressed}
use librocket.Npu.Task.Constant.{zero_registers, task_zeros}
use librocket.Npu.Task.Written.{IsProgrammed, task-IsProgrammed}
use librocket.Npu.Task.Held.{CoreHolds, task-CoreHolds, whole}
use librocket.Npu.Int8.{cna_desc, core_desc, dpu_desc, gen_matmul_int8}
use librocket.Npu.Int8.Accept.{FitsCbuf, data_banks, task_words, gen_matmul_int8_accepts}
use librocket.Npu.Int8.Registers.Cna.{ProgramsCna, task-ProgramsCna}
use librocket.Npu.Int8.Registers.Dpu.{ProgramsDpu, task-ProgramsDpu}

-- The output as the CORE registers describe it.
pub record ProgramsCore (p : Params) (out : List ℕ) : Type 0 where
  pub proc_precision : field core_misc_cfg 8 3 out ≡ some (precision int8)
  pub qd_en : field core_misc_cfg 0 1 out ≡ some 0
  pub dataout_height : field core_dataout_size_0 16 16 out ≡ some (p.m - 1)
  pub dataout_width : field core_dataout_size_0 0 16 out ≡ some 0
  pub dataout_channel : field core_dataout_size_1 0 16 out ≡ some (p.n - 1)

-- The multiplication that `p` asks for, as the registers of the three blocks describe it, the
-- enable register that starts it, and the registers that are cleared.
pub record Programs (p : Params) (out : List ℕ) : Type 0 where
  pub cna : ProgramsCna p out
  pub core : ProgramsCore p out
  pub dpu : ProgramsDpu p out
  pub operation_enable : programmed pc_operation_enable out ≡ some 0xd
  pub zeros : map (λ r. programmed r out) zero_registers ≡ map (λ r. some 0) zero_registers

task-ProgramsCore :
    (p : Params) (cna : CnaDesc) (out : List ℕ)
    → IsParams p
    → FitsRegisters p
    → IsProgrammed cna (core_desc p) (dpu_desc p) out
    → ProgramsCore p out
unfolding core_desc less_one16
task-ProgramsCore p cna out v r w =
    let h : CoreHolds (core_desc p) out = task-CoreHolds _ _ _ out w in
    record {
      proc_precision = whole h.proc_precision (omega arith);
      qd_en = whole h.qd_en (omega arith);
      dataout_height = whole h.dataout_height (omega arith);
      dataout_width = whole h.dataout_width (omega arith);
      dataout_channel = whole h.dataout_channel (omega arith);
    }

task-Programs :
    (p : Params) (rest : List ℕ)
    → IsParams p
    → FitsCbuf p
    → FitsRegisters p
    → Programs p (task_words p ++ rest)
unfolding cna_desc dpu_desc
task-Programs p rest v fits r =
    let cna = cna_desc (data_banks p) (12 - data_banks p) p in
    let out = task_words p ++ rest in
    let addressed : IsAddressed cna (dpu_desc p) = record {
      input = v.input_fits;
      weights = v.weights_fits;
      output = v.output_fits;
    } in
    let w : IsProgrammed cna (core_desc p) (dpu_desc p) out =
      task-IsProgrammed cna (core_desc p) (dpu_desc p) rest addressed in
    record {
      cna = task-ProgramsCna p out v fits r w;
      core = task-ProgramsCore p cna out v r w;
      dpu = task-ProgramsDpu p cna out v r w;
      operation_enable = w.pc_operation_enable_is;
      zeros = task_zeros cna (core_desc p) (dpu_desc p) rest addressed;
    }

-- Where the fields of `p` hold values of their types, the dimensions fit the CBUF and the register
-- fields and the buffer has 108 words at least, the call returns 0, and the words that it leaves
-- program the multiplication: every register field that is filled from a descriptor, in the CNA,
-- CORE and DPU blocks, is read back with the value that `Programs` gives for it in terms of `p`,
-- whole but for the surface stride of the input, of which the low 28 bits are left where it is
-- negative; the scale of the element-wise operand is 1, the DPU's S_POINTER is left with 0xe, the
-- enable register with 0xd, and each of the registers of `zero_registers` with 0.
pub gen_matmul_int8-Programs :
    (p : Params) (tasks : List ℕ)
    → IsParams p
    → FitsCbuf p
    → FitsRegisters p
    → 108 ≤ length tasks
    → (out : List ℕ) × (gen_matmul_int8 p tasks ≡ some (pos 0, out)) × Programs p out
gen_matmul_int8-Programs p tasks v h fits room = (
  task_words p ++ drop 108 tasks,
  gen_matmul_int8_accepts p tasks v h room,
  task-Programs p (drop 108 tasks) v h fits,
)
