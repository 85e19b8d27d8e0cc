-- ===== src/Npu/Task.antt =====
-- `gen_matmul_task` of src/npu_matmul.c: the 108 commands and their store into the task buffer.
pub mod Store
pub mod Fits
pub mod RegisterFile
pub mod Written
pub mod Held
pub mod Constant
pub mod Routes
use librocket.Prelude.{ℕ, suc, ◌+◌, List, [], ◌∷◌, ◌++◌, map, Option, none, some, ◌bitor◌}
use librocket.Npu.Hw.{
  Command, command, encode, address, op_reg_pc, op_reg_dpu, op_40, op_enable, op_none, enable_pc,
  enable_cna, enable_dpu, dpu_s_pointer, pc_register_amounts, pc_operation_enable,
}
use librocket.Npu.Desc.{CnaDesc, CoreDesc, DpuDesc}
use librocket.Npu.Values.Cna.{cna_commands}
use librocket.Npu.Values.Core.{core_commands}
use librocket.Npu.Values.Dpu.{dpu_commands}
use mathlib.Core.Option

-- ops[104] to ops[107]
unfoldable pub pc_commands : List Command
pc_commands =
    command op_none 0x0 0x0
    ∷ command op_reg_pc 0x0 (address pc_register_amounts)
    ∷ command op_40 0x0 0x0
    ∷ command op_enable (enable_dpu bitor enable_cna bitor enable_pc) (address pc_operation_enable)
    ∷ []

-- The arguments of the NPUOPs, in the order of the array.
unfoldable pub task_commands : CnaDesc → CoreDesc → DpuDesc → List Command
task_commands cna core dpu =
    command op_reg_dpu 0xe (address dpu_s_pointer)
    ∷ (cna_commands cna ++ (core_commands core ++ (dpu_commands dpu ++ pc_commands)))

-- `ops[0] = w0; ops[1] = w1; …`: `none` is a store beyond the end of the array.
unfoldable pub store_all : List ℕ → List ℕ → Option (List ℕ)
store_all [] ops = some ops
store_all (w ∷ ws) [] = none
store_all (w ∷ ws) (old ∷ ops) = Option.map (λ rest. w ∷ rest) (store_all ws ops)

unfoldable pub gen_matmul_task : List ℕ → CnaDesc → CoreDesc → DpuDesc → Option (List ℕ)
gen_matmul_task ops cna core dpu = store_all (map encode (task_commands cna core dpu)) ops
