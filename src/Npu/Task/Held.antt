-- ===== src/Npu/Task/Held.antt =====
-- What a stored task leaves in the fields of the CORE registers: each field of the descriptor, cut
-- to the width of its mask. The child modules say so of the CNA and of the DPU.
pub mod Cna
pub mod Dpu
use librocket.Prelude.{ℕ, ◌%◌, ◌^◌, ◌≡◌, List, some, ◌∙◌, ap, Option}
use librocket.Npu.Hw.{core_misc_cfg, core_dataout_size_0, core_dataout_size_1}
use librocket.Npu.Desc.{CnaDesc, CoreDesc, DpuDesc}
use librocket.Npu.Values.Core.{misc_cfg, dataout_size_0, dataout_size_1}
use librocket.Npu.Values.Core.Found.{core_register_fields}
use librocket.Npu.Task.RegisterFile.{field}
use librocket.Npu.Task.Written.{IsProgrammed, field_of}

pub record CoreHolds (d : CoreDesc) (out : List ℕ) : Type 0 where
  pub proc_precision : field core_misc_cfg 8 3 out ≡ some (d.proc_precision % 2 ^ 3)
  pub qd_en : field core_misc_cfg 0 1 out ≡ some (d.qd_en % 2 ^ 1)
  pub dataout_height : field core_dataout_size_0 16 16 out ≡ some (d.dataout_height % 2 ^ 16)
  pub dataout_width : field core_dataout_size_0 0 16 out ≡ some (d.dataout_width % 2 ^ 16)
  pub dataout_channel : field core_dataout_size_1 0 16 out ≡ some (d.dataout_channel % 2 ^ 16)

pub task-CoreHolds :
    (cna : CnaDesc) (core : CoreDesc) (dpu : DpuDesc) (out : List ℕ)
    → IsProgrammed cna core dpu out
    → CoreHolds core out
task-CoreHolds cna core dpu out w =
    let (proc_precision_at, qd_en_at, dataout_height_at, dataout_width_at, dataout_channel_at) =
      core_register_fields core in
    record {
      proc_precision =
          field_of core_misc_cfg 8 3 (misc_cfg core) _ out w.core_misc_cfg_is proc_precision_at;
      qd_en = field_of core_misc_cfg 0 1 (misc_cfg core) _ out w.core_misc_cfg_is qd_en_at;
      dataout_height =
          field_of core_dataout_size_0 16 16 (dataout_size_0 core) _ out w.core_dataout_size_0_is
            dataout_height_at;
      dataout_width =
          field_of core_dataout_size_0 0 16 (dataout_size_0 core) _ out w.core_dataout_size_0_is
            dataout_width_at;
      dataout_channel =
          field_of core_dataout_size_1 0 16 (dataout_size_1 core) _ out w.core_dataout_size_1_is
            dataout_channel_at;
    }

-- A value that its field holds whole.
pub whole : {a b : ℕ} {x : Option ℕ} → x ≡ some a → a ≡ b → x ≡ some b
whole e e' = e ∙ ap some e'
