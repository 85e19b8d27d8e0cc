-- ===== src/Npu/Fp16/Truncation.antt =====
-- What `gen_matmul_fp16` programs for dimensions that it accepts and the register fields do not
-- hold.
use librocket.Prelude.{ℕ, ◌-◌, ◌%◌, ◌^◌, ◌≤◌, ◌≡◌, arith, List, ◌++◌, some, length, drop}
use librocket.Prelude.Int.{pos}
use librocket.Npu.Hw.{cna_data_size0, cna_weight_size2, dpu_data_cube_channel}
use librocket.Npu.Desc.{Params, IsParams, CnaDesc}
use librocket.Npu.Cbuf.{less_one16}
use librocket.Npu.Values.Cna.{data_size0, weight_size2}
use librocket.Npu.Values.Dpu.{data_cube_channel}
use librocket.Npu.Values.Cna.Fields.{data_size0_sum, weight_size2_sum}
use librocket.Npu.Values.Dpu.Fields.{data_cube_channel_sum}
use librocket.Npu.Task.RegisterFile.{field}
use librocket.Npu.Task.Written.{IsProgrammed, task-IsProgrammed, field_of}
use librocket.Npu.Fp16.{cna_desc, core_desc, dpu_desc, gen_matmul_fp16}
use librocket.Npu.Fp16.Accept.{FitsCbuf, data_banks, task_words, gen_matmul_fp16_accepts}

-- The heights and the numbers of kernels, cut to their fields.
pub record Truncated (p : Params) (out : List ℕ) : Type 0 where
  pub input_height : field cna_data_size0 0 11 out ≡ some (p.m % 2 ^ 11)
  pub kernels : field cna_weight_size2 0 14 out ≡ some (p.n % 2 ^ 14)
  pub cube_channels : field dpu_data_cube_channel 0 13 out ≡ some ((p.n - 1) % 2 ^ 13)

task-Truncated :
    (p : Params) (rest : List ℕ) → IsParams p → 1 ≤ p.n → Truncated p (task_words p ++ rest)
unfolding cna_desc core_desc dpu_desc less_one16
task-Truncated p rest v some_kernels = record {
  input_height =
      field_of cna_data_size0 0 11 (data_size0 cna) (p.m % 2 ^ 11) out w.cna_data_size0_is
        (omega (arith, data_size0_sum cna));
  kernels =
      field_of cna_weight_size2 0 14 (weight_size2 cna) (p.n % 2 ^ 14) out w.cna_weight_size2_is
        (omega (arith, weight_size2_sum cna));
  cube_channels =
      field_of dpu_data_cube_channel 0 13 (data_cube_channel (dpu_desc p)) ((p.n - 1) % 2 ^ 13) out
        w.dpu_data_cube_channel_is (omega (arith, data_cube_channel_sum (dpu_desc p)));
}
  where
    cna : CnaDesc
    cna = cna_desc (data_banks p) (12 - data_banks p) p

    out : List ℕ
    out = task_words p ++ rest

    w : IsProgrammed (cna_desc (data_banks p) (12 - data_banks p) p) (core_desc p) (dpu_desc p) out
    w =
        task-IsProgrammed cna (core_desc p) (dpu_desc p) rest
          (record { input = v.input_fits; weights = v.weights_fits; output = v.output_fits })

-- Where the fields of `p` hold values of their types, the dimensions fit the CBUF, there is a
-- kernel and the buffer has 108 words at least, the call returns 0 also for dimensions that the
-- register fields do not hold: the height that the NPU is told is m mod 2048, and the kernels and
-- channels are n mod 16384 and (n - 1) mod 8192 + 1.
pub gen_matmul_fp16-Truncated :
    (p : Params) (tasks : List ℕ)
    → IsParams p
    → FitsCbuf p
    → 1 ≤ p.n
    → 108 ≤ length tasks
    → (out : List ℕ) × (gen_matmul_fp16 p tasks ≡ some (pos 0, out)) × Truncated p out
gen_matmul_fp16-Truncated p tasks v h some_kernels room = (
  task_words p ++ drop 108 tasks,
  gen_matmul_fp16_accepts p tasks v h room,
  task-Truncated p (drop 108 tasks) v some_kernels,
)
