-- ===== src/Examples/Generate.antt =====
-- Runs of the generators of src/npu_matmul.c.
use librocket.Prelude.{
  ℕ, ◌≤◌, ◌≡◌, ◌⊎◌, ◌*◌, arith, List, ◌++◌, map, none, some, length, drop, take,
}
use librocket.Prelude.Int.{pos}
use librocket.Npu.Hw.{encode}
use librocket.Npu.Hw.Decode.{decode}
use librocket.Npu.Desc.{IsParams}
use librocket.Npu.Task.{task_commands, gen_matmul_task}
use librocket.Npu.Task.Fits.{IsAddressed, gen_matmul_task_decodes}
use librocket.Npu.Task.Store.{gen_matmul_task_writes}
use librocket.Npu.Task.Routes.{IsSpecial, task_commands_routed}
use librocket.Npu.Fp16.Truncation.{Truncated, gen_matmul_fp16-Truncated}
use librocket.Npu.Cbuf.Outcome.{Outcome}
use librocket.Registers.Target.{rkt_get_target}
use librocket.Prelude.{◌+◌, if◌then◌else◌, ltb, refl}
use librocket.Npu.Hw.{address}
use librocket.Npu.Values.Cna.{cna_commands, conv_con1}
use librocket.Npu.Fp16.{gen_matmul_fp16, cna_desc, dpu_desc}
use librocket.Npu.Fp16
use librocket.Npu.Int8
use librocket.Npu.Fp16.Accept.{gen_matmul_fp16_refines}
use librocket.Npu.Fp16.Registers.{gen_matmul_fp16-Programs}
use librocket.Npu.Int8.{gen_matmul_int8}
use librocket.Npu.Int8.Accept.{gen_matmul_int8_refines}
use librocket.Npu.Int8.Registers.{gen_matmul_int8-Programs}
use librocket.Examples.Data.{small, tall, deep, broad, zeros, cna, core, dpu}

small-IsParams : IsParams small
small-IsParams = record {
  m_fits = omega arith;
  k_fits = omega arith;
  n_fits = omega arith;
  input_fits = omega arith;
  weights_fits = omega arith;
  output_fits = omega arith;
  flag_fits = omega arith;
}

room : 108 ≤ length (zeros 110)
room = omega arith

tall-IsParams : IsParams tall
tall-IsParams = record {
  m_fits = omega arith;
  k_fits = omega arith;
  n_fits = omega arith;
  input_fits = omega arith;
  weights_fits = omega arith;
  output_fits = omega arith;
  flag_fits = omega arith;
}

deep-IsParams : IsParams deep
deep-IsParams = record {
  m_fits = omega arith;
  k_fits = omega arith;
  n_fits = omega arith;
  input_fits = omega arith;
  weights_fits = omega arith;
  output_fits = omega arith;
  flag_fits = omega arith;
}

small-IsAddressed : IsAddressed cna dpu
unfolding cna_desc dpu_desc
small-IsAddressed = record { input = omega arith; weights = omega arith; output = omega arith }

-- FP16 runs.
gen_matmul_fp16-Programs_example :
    (out : List ℕ) × (gen_matmul_fp16 small (zeros 110) ≡ some (pos 0, out))
    × Fp16.Registers.Programs small out
gen_matmul_fp16-Programs_example =
    gen_matmul_fp16-Programs small (zeros 110) small-IsParams (omega arith)
      (record {
        some_rows = omega arith;
        rows = omega arith;
        some_channels = omega arith;
        some_kernels = omega arith;
        kernels = omega arith;
      })
      room

-- INT8 runs.
gen_matmul_int8-Programs_example :
    (out : List ℕ) × (gen_matmul_int8 small (zeros 110) ≡ some (pos 0, out))
    × Int8.Registers.Programs small out
gen_matmul_int8-Programs_example =
    gen_matmul_int8-Programs small (zeros 110) small-IsParams (omega arith)
      (record {
        some_rows = omega arith;
        rows = omega arith;
        some_channels = omega arith;
        some_kernels = omega arith;
        kernels = omega arith;
      })
      room

-- The task generator.
gen_matmul_task_decodes_example :
    (out : List ℕ) × (gen_matmul_task (zeros 110) cna core dpu ≡ some out)
    × (map decode (take 108 out) ≡ task_commands cna core dpu)
gen_matmul_task_decodes_example =
    gen_matmul_task_decodes (zeros 110) cna core dpu small-IsAddressed room

-- Dimensions that do not fit the CBUF, and short buffers.
gen_matmul_fp16_refines_example :
    Outcome
      (2048 * 256)
      (2048 * 256 * 2)
      (256 * 2)
      (Fp16.Accept.task_words tall)
      (zeros 2)
      (gen_matmul_fp16 tall (zeros 2))
gen_matmul_fp16_refines_example = gen_matmul_fp16_refines tall (zeros 2) tall-IsParams

gen_matmul_int8_refines_example :
    Outcome
      (1 * 40000)
      (1 * 40000 * 1)
      (40000 * 1)
      (Int8.Accept.task_words deep)
      (zeros 2)
      (gen_matmul_int8 deep (zeros 2))
gen_matmul_int8_refines_example = gen_matmul_int8_refines deep (zeros 2) deep-IsParams

gen_matmul_task_writes_example : gen_matmul_task (zeros 110) cna core dpu ≡ (
    if ltb (length (zeros 110)) 108
    then none
    else some (map encode (task_commands cna core dpu) ++ drop 108 (zeros 110)))
gen_matmul_task_writes_example = gen_matmul_task_writes (zeros 110) cna core dpu

task_commands_routed_example :
    (0x201 ≡ rkt_get_target 0x100c + 1)
    ⊎ IsSpecial (record { op = 0x201; value = 288; reg = 0x100c })
unfolding task_commands cna_commands conv_con1 address cna_desc
task_commands_routed_example =
    task_commands_routed cna core dpu 1 (record { op = 0x201; value = 288; reg = 0x100c }) refl

broad-IsParams : IsParams broad
broad-IsParams = record {
  m_fits = omega arith;
  k_fits = omega arith;
  n_fits = omega arith;
  input_fits = omega arith;
  weights_fits = omega arith;
  output_fits = omega arith;
  flag_fits = omega arith;
}

gen_matmul_fp16-Truncated_example :
    (out : List ℕ) × (gen_matmul_fp16 broad (zeros 110) ≡ some (pos 0, out)) × Truncated broad out
gen_matmul_fp16-Truncated_example =
    gen_matmul_fp16-Truncated broad (zeros 110) broad-IsParams (omega arith) (omega arith) room
