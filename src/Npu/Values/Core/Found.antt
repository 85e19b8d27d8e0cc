-- ===== src/Npu/Values/Core/Found.antt =====
-- The fields of the CORE registers, found in the values that the code writes.
use librocket.Prelude.{◌%◌, ◌^◌, ◌≡◌, arith, bits}
use librocket.Npu.Desc.{CoreDesc}
use librocket.Npu.Values.Core.{misc_cfg, dataout_size_0, dataout_size_1}
use librocket.Npu.Values.Core.Fields.{dataout_size_0_sum, dataout_size_1_sum, misc_cfg_sum}

-- Where each field of the descriptor stands in the registers of the CORE block, and what of it
-- fits.
abbrev pub CoreFields : CoreDesc → Type 0
CoreFields d =
    (bits 8 3 (misc_cfg d) ≡ d.proc_precision % 2 ^ 3)
    × (bits 0 1 (misc_cfg d) ≡ d.qd_en % 2 ^ 1)
    × (bits 16 16 (dataout_size_0 d) ≡ d.dataout_height % 2 ^ 16)
    × (bits 0 16 (dataout_size_0 d) ≡ d.dataout_width % 2 ^ 16)
    × (bits 0 16 (dataout_size_1 d) ≡ d.dataout_channel % 2 ^ 16)

-- Every field that is packed into a register of the CORE block is found in the register's bits
-- where the code puts it, cut to the width of its mask; no two fields disturb each other.
pub core_register_fields : (d : CoreDesc) → CoreFields d
core_register_fields d = (
  omega (arith, misc_cfg_sum d),
  omega (arith, misc_cfg_sum d),
  omega (arith, dataout_size_0_sum d),
  omega (arith, dataout_size_0_sum d),
  omega (arith, dataout_size_1_sum d),
)
