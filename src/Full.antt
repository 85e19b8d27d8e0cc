-- ===== src/Full.antt =====
-- src/npu_matmul_full.c: the register sequence of Mesa's driver. The file uses names that nothing
-- defines, so it does not compile; their values are the parameter `missing`.
pub mod Undefined
pub mod Cna
pub mod Dpu
pub mod Rdma
pub mod Written
pub mod Routes
use librocket.Prelude.{ℕ, List, [], ◌∷◌, ◌++◌, map, Option, some, ◌bitor◌}
use librocket.Prelude.Int.{ℤ, pos, negsuc}
use librocket.Npu.Desc.{Params}
use librocket.Regcmd.{Regcmd, regcmd_of, word_of, start, emit_all}
use librocket.Registers.Pc.{reg_pc_operation_enable}
use librocket.Registers.Helpers.Cna.{pc_operation_enable_op_en, pc_operation_enable_reserved_0}
use librocket.Mesa.{result}
use librocket.Full.Undefined.{Missing}
use librocket.Full.Cna.{sizes_regcmds, feature_regcmds, dcomp_regcmds}
use librocket.Full.Dpu.{core_regcmds, dpu_regcmds, elementwise_regcmds, lut_regcmds}
use librocket.Full.Rdma.{rdma_regcmds, pc_regcmds}
use mathlib.Core.Option

-- The arguments of the EMITs, in order.
unfoldable pub regcmds : Missing → Params → List Regcmd
regcmds missing p =
    sizes_regcmds p
    ++ (feature_regcmds p
        ++ (dcomp_regcmds p
            ++ (core_regcmds p
                ++ (dpu_regcmds p
                    ++ (elementwise_regcmds missing
                        ++ (lut_regcmds missing ++ (rdma_regcmds missing p ++ pc_regcmds)))))))

-- The last two words.
unfoldable pub enable_words : List ℕ
enable_words =
    0x0041000000000000
    ∷ word_of (
        regcmd_of 0x81 (pc_operation_enable_reserved_0 14 bitor pc_operation_enable_op_en 1)
          reg_pc_operation_enable.offset)
    ∷ []

unfoldable pub full_words : Missing → Params → List ℕ
full_words missing p = map word_of (regcmds missing p) ++ enable_words

-- The number of words, and the task buffer afterwards; `none` is a store beyond its end.
unfoldable pub gen_matmul_fp16 : Missing → Params → List ℕ → Option (ℤ × List ℕ)
gen_matmul_fp16 missing p tasks = Option.map result (emit_all (full_words missing p) (start tasks))

unfoldable pub gen_matmul_int8 : Params → List ℕ → Option (ℤ × List ℕ)
gen_matmul_int8 p tasks = some (negsuc 0, tasks)

-- The stubs of the layout functions.
unfoldable pub feature_data : ℤ → ℤ → ℤ → ℤ → ℤ → ℤ → ℤ → ℤ
feature_data C H W C2 c h w = pos 0

unfoldable pub weight_fp16 : ℤ → ℤ → ℤ → ℤ
weight_fp16 C k c = pos 0

unfoldable pub weight_int8 : ℤ → ℤ → ℤ → ℤ
weight_int8 C k c = pos 0
