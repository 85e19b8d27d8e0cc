-- ===== src/Examples/Commands.antt =====
-- A run of tests/matmul_fp16_rocket.c linked with src/npu_matmul.c, from the creation of its last
-- buffer on.
use librocket.Prelude.{ℕ, ◌≡◌, refl, true, arith, List, ◌++◌, some, length, drop}
use librocket.Prelude.Int.{pos}
use librocket.Prelude.Loops.{filled, length-filled}
use librocket.Npu.Fp16.{gen_matmul_fp16}
use librocket.Npu.Fp16.Accept.{task_words}
use librocket.Driver.Matmul.{valid_dims}
use librocket.Driver.Matmul.Main.{Buffers, created_output}
use librocket.Driver.Matmul.Commands.{params, submits_nothing, no_commands}
use librocket.Driver.Matmul.Linked.{npu}
use librocket.Examples.Data.{whole}
use librocket.Examples.Host.{host, ctx, empty, buffer, ones, idle}

small_dims : valid_dims 1 32 16 ≡ true
unfolding valid_dims
small_dims = refl

abbrev buffers : Buffers
buffers = record { regcmd = buffer; input = buffer; weights = buffer; output = empty }

-- One row, on the host where the submission succeeds.
no_commands_example :
    (gen_matmul_fp16 (params 1 32 16 0x1000 0x1000 0x1000) (filled 112 0)
      ≡ some (pos 0, task_words (params 1 32 16 0x1000 0x1000 0x1000) ++ drop 108 (filled 112 0)))
    × (length (task_words (params 1 32 16 0x1000 0x1000 0x1000)) ≡ 108)
    × (input : List ℕ) × (weights : List ℕ) × (expected : List ℕ) × (created_output
          (host true)
          whole
          npu
          idle
          ones
          ones
          ctx
          buffers
          1
          32
          16
          (pos 0, buffer)
        ≡ submits_nothing
            (host true)
            whole
            idle
            ones
            ones
            1
            16
            ctx
            (record buffers { output = buffer })
            input
            weights
            expected)
no_commands_example =
    no_commands whole 1 32 16 small_dims (host true) idle ones ones (length-filled {A = ℕ} 32 1)
      (length-filled {A = ℕ} 512 1) ctx buffers buffer (omega arith)
