-- ===== src/Npu/Values/Core.antt =====
-- The CORE part of `gen_matmul_task` in src/npu_matmul.c: what it assigns to `value` for each
-- register, and the commands ops[49] to ops[53].
pub mod Fields
pub mod Found
use librocket.Prelude.{ℕ, ◌+◌, ◌-◌, ◌*◌, ◌%◌, ◌^◌, List, [], ◌∷◌, u32, sub32, ◌<<◌, ◌&◌, ◌bitor◌}
use librocket.Npu.Hw.{Command, command, address, op_reg_core}
use librocket.Npu.Hw.{
  core_misc_cfg, core_dataout_size_0, core_dataout_size_1, core_clip_truncate, core_3030,
}
use librocket.Npu.Desc.{CoreDesc}

unfoldable pub misc_cfg : CoreDesc → ℕ
misc_cfg d = u32 (((d.proc_precision & 0x7) << 8) bitor (d.qd_en & 0x1))

unfoldable pub dataout_size_0 : CoreDesc → ℕ
dataout_size_0 d = u32 (((d.dataout_height & 0xffff) << 16) bitor (d.dataout_width & 0xffff))

unfoldable pub dataout_size_1 : CoreDesc → ℕ
dataout_size_1 d = u32 (d.dataout_channel & 0xffff)

unfoldable pub core_commands : CoreDesc → List Command
core_commands d =
    command op_reg_core (misc_cfg d) (address core_misc_cfg)
    ∷ command op_reg_core (dataout_size_0 d) (address core_dataout_size_0)
    ∷ command op_reg_core (dataout_size_1 d) (address core_dataout_size_1)
    ∷ command op_reg_core 0x0 (address core_clip_truncate)
    ∷ command op_reg_core 0x0 (address core_3030)
    ∷ []
