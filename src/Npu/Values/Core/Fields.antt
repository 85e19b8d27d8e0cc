-- ===== src/Npu/Values/Core/Fields.antt =====
-- The packed CORE registers, taken apart: every descriptor field lies in its own bits.
use librocket.Prelude.{◌+◌, ◌*◌, ◌%◌, ◌^◌, ◌≡◌, arith}
use librocket.Prelude.Bits.{and_mask, or_add}
use librocket.Npu.Desc.{CoreDesc}
use librocket.Npu.Values.Core.{misc_cfg, dataout_size_0, dataout_size_1}

pub misc_cfg_sum : (d : CoreDesc) → misc_cfg d ≡ d.proc_precision % 2 ^ 3 * 2 ^ 8 + d.qd_en % 2 ^ 1
unfolding misc_cfg
misc_cfg_sum d =
    rw
      (
        and_mask 3 d.proc_precision,
        and_mask 1 d.qd_en,
        or_add 8 (d.proc_precision % 2 ^ 3 * 2 ^ 8) (d.qd_en % 2 ^ 1) (omega arith) (omega arith),
      )
      (omega arith)

pub dataout_size_0_sum :
    (d : CoreDesc)
    → dataout_size_0 d ≡ d.dataout_height % 2 ^ 16 * 2 ^ 16 + d.dataout_width % 2 ^ 16
unfolding dataout_size_0
dataout_size_0_sum d =
    rw
      (
        and_mask 16 d.dataout_height,
        and_mask 16 d.dataout_width,
        or_add 16 (d.dataout_height % 2 ^ 16 * 2 ^ 16) (d.dataout_width % 2 ^ 16) (omega arith)
            (omega arith),
      )
      (omega arith)

pub dataout_size_1_sum : (d : CoreDesc) → dataout_size_1 d ≡ d.dataout_channel % 2 ^ 16
unfolding dataout_size_1
dataout_size_1_sum d = rw (and_mask 16 d.dataout_channel) (omega arith)
