-- ===== src/Npu/Task/Routes.antt =====
-- The unit that each command of a task addresses is the unit of its register.
use librocket.Prelude.{
  ℕ, ◌+◌, ◌≡◌, ◌⊎◌, refl, arith, Bool, true, ◌&&◌, ◌||◌, ◌==◌, every, every_get, get_elem?, some,
}
use librocket.Npu.Hw.{Command, address}
use librocket.Npu.Desc.{CnaDesc, CoreDesc, DpuDesc}
use librocket.Npu.Values.Cna.{cna_commands}
use librocket.Npu.Values.Core.{core_commands}
use librocket.Npu.Values.Dpu.{dpu_commands}
use librocket.Npu.Task.{pc_commands, task_commands}
use librocket.Registers.Target.{rkt_get_target}

-- The two registers that include/mesa_registers.h does not list, and the commands of the PC that
-- start the task.
abbrev special : Command → Bool
special c =
    (c.op == 0x801 && c.reg == 0x3030)
    || (c.op == 0x1001 && c.reg == 0x40c4)
    || (c.op == 0x81 && c.reg == 0x8)
    || (c.op == 0x41 && c.reg == 0)
    || (c.op == 0 && c.reg == 0)

abbrev pub IsSpecial : Command → Type 0
IsSpecial c =
    ((c.op ≡ 0x801) × (c.reg ≡ 0x3030))
    ⊎ ((c.op ≡ 0x1001) × (c.reg ≡ 0x40c4))
    ⊎ ((c.op ≡ 0x81) × (c.reg ≡ 0x8))
    ⊎ ((c.op ≡ 0x41) × (c.reg ≡ 0))
    ⊎ ((c.op ≡ 0) × (c.reg ≡ 0))

abbrev routed : Command → Bool
routed c = c.op == rkt_get_target c.reg + 1 || special c

all_routed :
    (cna : CnaDesc) (core : CoreDesc) (dpu : DpuDesc)
    → every routed (task_commands cna core dpu) ≡ true
unfolding task_commands cna_commands core_commands dpu_commands pc_commands address rkt_get_target
all_routed cna core dpu = refl

routed_cases : (c : Command) → routed c ≡ true → (c.op ≡ rkt_get_target c.reg + 1) ⊎ IsSpecial c
routed_cases c h = ground arith

-- Each command of a task addresses the unit that `rkt_get_target` of include/mesa_registers.h names
-- for its register, with bit 0 set; but for the registers CORE_3030 and DPU_40C4, which that header
-- does not list, and the last commands, which start the task.
pub task_commands_routed :
    (cna : CnaDesc) (core : CoreDesc) (dpu : DpuDesc) (i : ℕ) (c : Command)
    → get_elem? (task_commands cna core dpu) i ≡ some c
    → (c.op ≡ rkt_get_target c.reg + 1) ⊎ IsSpecial c
task_commands_routed cna core dpu i c e =
    routed_cases c (every_get routed (task_commands cna core dpu) i c (all_routed cna core dpu) e)
