-- ===== src/Mesa/Generated.antt =====
-- The length of what the generators write, and what they leave alone.
use librocket.Prelude.{ℕ, ◌≤◌, ◌≡◌, ap, List, ◌++◌, map, some, length, drop}
use mathlib.Core.Option
use librocket.Prelude.Int.{pos}
use librocket.Npu.Desc.{Params}
use librocket.Regcmd.{word_of}
use librocket.Regcmd.Emitted.{emit_all-start}
use librocket.Mesa.{fp16_regcmds, int8_regcmds, gen_matmul_fp16, gen_matmul_int8, result}

-- The FP16 generator writes 17 words at the front of a buffer of at least 17, leaves the others as
-- they were, and returns 17.
pub gen_matmul_fp16_writes :
    (p : Params) (tasks : List ℕ)
    → 17 ≤ length tasks
    → gen_matmul_fp16 p tasks ≡ some (pos 17, map word_of (fp16_regcmds p) ++ drop 17 tasks)
unfolding gen_matmul_fp16 fp16_regcmds
gen_matmul_fp16_writes p tasks room =
    ap (Option.map result) (emit_all-start (map word_of (fp16_regcmds p)) tasks room)

-- The INT8 generator writes 4 words at the front of a buffer of at least 4, the same for all
-- parameters, leaves the others as they were, and returns 4.
pub gen_matmul_int8_writes :
    (p : Params) (tasks : List ℕ)
    → 4 ≤ length tasks
    → gen_matmul_int8 p tasks ≡ some (pos 4, map word_of int8_regcmds ++ drop 4 tasks)
unfolding gen_matmul_int8 int8_regcmds
gen_matmul_int8_writes p tasks room =
    ap (Option.map result) (emit_all-start (map word_of int8_regcmds) tasks room)
