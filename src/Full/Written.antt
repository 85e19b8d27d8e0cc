-- ===== src/Full/Written.antt =====
-- What `gen_matmul_fp16` of src/npu_matmul_full.c writes, and into how long a buffer.
use librocket.Prelude.{
  ℕ, ◌≡◌, refl, ap, ◌∙◌, List, ◌++◌, none, some, length, drop, ltb, if◌then◌else◌,
}
use librocket.Prelude.Int.{pos}
use librocket.Npu.Desc.{Params}
use librocket.Regcmd.Emitted.{emit_all_lem, map-if}
use librocket.Mesa.{result}
use librocket.Full.Undefined.{Missing}
use librocket.Full.Cna.{sizes_regcmds, feature_regcmds, dcomp_regcmds}
use librocket.Full.Dpu.{core_regcmds, dpu_regcmds, elementwise_regcmds, lut_regcmds}
use librocket.Full.Rdma.{rdma_regcmds, pc_regcmds}
use librocket.Full.{regcmds, enable_words, full_words, gen_matmul_fp16}
use mathlib.Core.Option

length-full_words : (missing : Missing) (p : Params) → length (full_words missing p) ≡ 122
unfolding full_words regcmds enable_words sizes_regcmds feature_regcmds dcomp_regcmds core_regcmds
    dpu_regcmds elementwise_regcmds lut_regcmds rdma_regcmds pc_regcmds
length-full_words missing p = refl

-- The generator writes 122 words at the front of the buffer, leaves the rest as it was and returns
-- 122, whatever the missing names stand for; it writes beyond the end of every shorter buffer, that
-- of 112 words of tests/matmul_fp16_rocket.c among them.
pub full_writes :
    (missing : Missing) (p : Params) (tasks : List ℕ)
    → gen_matmul_fp16 missing p tasks ≡ (
        if ltb (length tasks) 122
        then none
        else some (pos 122, full_words missing p ++ drop 122 tasks))
unfolding gen_matmul_fp16
full_writes missing p tasks =
    ap (Option.map result)
      (emit_all_lem (full_words missing p) tasks ∙ rw (length-full_words missing p) refl)
    ∙ map-if result (ltb (length tasks) 122) _
