-- ===== src/Driver/Matmul/Commands.antt =====
-- How many commands tests/matmul_fp16_rocket.c submits where it is linked with src/npu_matmul.c.
use mathlib.Core.Option
use librocket.Prelude.{
  ℕ, ◌*◌, ◌≤◌, ◌≡◌, refl, ap, ◌∙◌, List, [], ◌∷◌, ◌++◌, Option, some, length, drop, arith, true,
  u16, u32,
}
use librocket.Prelude.Int.{ℤ, pos}
use librocket.Prelude.Loops.{filled}
use librocket.Npu.Desc.{Params, IsParams}
use librocket.Npu.Fp16.Accept.{FitsCbuf, task_words, gen_matmul_fp16_accepts}
use librocket.Npu.Fp16.{gen_matmul_fp16}
use librocket.Npu.Task.{task_commands, pc_commands}
use librocket.Npu.Values.Cna.{cna_commands}
use librocket.Npu.Values.Core.{core_commands}
use librocket.Npu.Values.Dpu.{dpu_commands}
use librocket.Device.Kernel.{Kernel}
use librocket.Device.Calls.{M, ◌>>=◌, Ctx, Bo, rocket_bo_fini, rocket_submit}
use librocket.Driver.Matmul.{Arithmetic, valid_dims, verify}
use librocket.Driver.Matmul.Linked.{npu, valid_dims_lem, elements_at_positions}
use librocket.Driver.Matmul.Product.{reference-Placed}
use librocket.Driver.Matmul.Main.{
  Buffers, ready, copy, laid_out, after_generate, generate, submitted, prepared, created_output,
}

-- The parameters of the call.
abbrev pub params : (m k n input_dma weights_dma output_dma : ℕ) → Params
params m k n input_dma weights_dma output_dma = record {
  m = u16 m;
  k = u16 k;
  n = u16 n;
  input_dma = u32 input_dma;
  weights_dma = u32 weights_dma;
  output_dma = u32 output_dma;
  fp32tofp16 = 0;
}

params-IsParams : (m k n d e f : ℕ) → IsParams (params m k n d e f)
params-IsParams m k n d e f = record {
  m_fits = omega arith;
  k_fits = omega arith;
  n_fits = omega arith;
  input_fits = omega arith;
  weights_fits = omega arith;
  output_fits = omega arith;
  flag_fits = omega arith;
}

params-FitsCbuf :
    (m k n d e f : ℕ) → m ≤ 384 → k ≤ 4096 → m * k * 2 ≤ 11 * 32768 → FitsCbuf (params m k n d e f)
params-FitsCbuf m k n d e f hm hk fits =
    let whole_m : u16 m ≡ m = omega arith in
    let whole_k : u16 k ≡ k = omega arith in (rw (whole_m, whole_k) fits, omega arith)

copy_nothing : (npu_regs : List ℕ) → copy 0 npu_regs ≡ some []
copy_nothing npu_regs = ground arith

module _ (Sys : Kernel) (F : Arithmetic)
    (hardware : ℕ → List ℕ → List F.Half → List F.Half → List F.Float)
    (matrix_a matrix_b : ℕ → List F.Half) where
  -- What `main` does from the synchronisation of the buffers on where it submits nothing.
  abbrev pub submits_nothing :
      (m n : ℕ)
      → Ctx
      → Buffers
      → (input weights : List F.Half) → List F.Float
      → M (Kernel.State Sys) (Option ℤ)
  submits_nothing m n ctx bos input weights expected = do
    synced_regcmd ← rocket_bo_fini Sys ctx bos.regcmd
    synced_input ← rocket_bo_fini Sys ctx bos.input
    synced_weights ← rocket_bo_fini Sys ctx bos.weights
    synced_output ← rocket_bo_fini Sys ctx bos.output
    ret ←
        rocket_submit Sys ctx bos.regcmd 0 (bos.input ∷ bos.weights ∷ bos.regcmd ∷ [])
          (bos.output ∷ [])
    submitted Sys F npu hardware matrix_a matrix_b ctx bos
        (verify F npu m n (hardware (m * n) [] input weights) expected) ret

module _ (F : Arithmetic) (m k n : ℕ) (dims : valid_dims m k n ≡ true) where
  laid_out_ready :
      (matrix_a matrix_b : List F.Half) (count : ℕ) (regcmd : List ℕ)
      → length matrix_a ≡ m * k
      → length matrix_b ≡ n * k
      → (input : List F.Half) × (weights : List F.Half) × (expected : List F.Float) × (laid_out F
            npu m k n matrix_a matrix_b count regcmd
          ≡ some (ready count regcmd input weights expected))
  unfolding laid_out Option.bind
  laid_out_ready matrix_a matrix_b count regcmd a_full b_full =
      let ((weights, laid_weights, _, _), (input, laid_input, _, _)) =
        elements_at_positions F m k n dims matrix_a matrix_b a_full b_full in
      let (expected, computed, _, _) =
        reference-Placed F npu m k n matrix_a matrix_b a_full b_full in
      (input, weights, expected, rw (laid_weights, laid_input, computed) refl)

  written :
      (input_dma weights_dma output_dma : ℕ)
      → m * k * 2 ≤ 11 * 32768
      → gen_matmul_fp16 (params m k n input_dma weights_dma output_dma) (filled 112 0)
        ≡ some (
          pos 0,
          task_words (params m k n input_dma weights_dma output_dma) ++ drop 108 (filled 112 0),
        )
  written input_dma weights_dma output_dma fits =
      let (_, _, m_max, _, _, k_max, _, _, _) = (valid_dims_lem m k n).0 dims in
      gen_matmul_fp16_accepts (params m k n input_dma weights_dma output_dma) (filled 112 0)
        (params-IsParams m k n input_dma weights_dma output_dma)
        (params-FitsCbuf m k n input_dma weights_dma output_dma m_max k_max fits) (omega arith)

  generate_ready :
      (matrix_a matrix_b : List F.Half) (input_dma weights_dma output_dma : ℕ)
      → length matrix_a ≡ m * k
      → length matrix_b ≡ n * k
      → m * k * 2 ≤ 11 * 32768
      → (input : List F.Half) × (weights : List F.Half) × (expected : List F.Float) × (generate F
            npu m k n matrix_a matrix_b input_dma weights_dma output_dma
          ≡ some (ready 0 [] input weights expected))
  unfolding generate after_generate Option.bind
  generate_ready matrix_a matrix_b input_dma weights_dma output_dma a_full b_full fits =
      let (input, weights, expected, e) = laid_out_ready matrix_a matrix_b 0 [] a_full b_full in
      (
        input,
        weights,
        expected,
        ap (λ x. Option.bind x (after_generate F npu m k n matrix_a matrix_b))
              (written input_dma weights_dma output_dma fits)
            ∙ ap (λ x. Option.bind x (laid_out F npu m k n matrix_a matrix_b 0)) (copy_nothing _)
            ∙ e,
      )

  module _ (Sys : Kernel) (hardware : ℕ → List ℕ → List F.Half → List F.Half → List F.Float)
      (matrix_a matrix_b : ℕ → List F.Half) (a_full : length (matrix_a (m * k)) ≡ m * k)
      (b_full : length (matrix_b (n * k)) ≡ n * k) where
    -- For dimensions that the program accepts and whose input fits eleven banks of the CBUF,
    -- matrices of that size, and any system and buffers, linked with npu_matmul.c: gen_matmul_fp16
    -- returns 0 with the 108 words of its task in npu_regs, and once the last buffer is created the
    -- program does what `submits_nothing` writes out: it gives the four buffers to the device,
    -- calls rocket_submit with the count 0, and goes on with what the NPU computes from no word at
    -- all.
    pub no_commands :
        (ctx : Ctx) (bos : Buffers) (bo : Bo)
        → m * k * 2 ≤ 11 * 32768
        → let p = params m k n bos.input.dma_addr bos.weights.dma_addr bo.dma_addr in
          (gen_matmul_fp16 p (filled 112 0) ≡ some (pos 0, task_words p ++ drop 108 (filled 112 0)))
          × (length (task_words p) ≡ 108)
          × (input : List F.Half) × (weights : List F.Half) × (expected : List F.Float)
          × (created_output Sys F npu hardware matrix_a matrix_b ctx bos m k n (pos 0, bo)
              ≡ submits_nothing Sys F hardware matrix_a matrix_b m n ctx
                  (record bos { output = bo })
                  input
                  weights
                  expected)
    unfolding created_output prepared task_commands cna_commands core_commands dpu_commands
        pc_commands
    no_commands ctx bos bo fits =
        let (input, weights, expected, e) =
          generate_ready (matrix_a (m * k)) (matrix_b (n * k)) bos.input.dma_addr
            bos.weights.dma_addr bo.dma_addr a_full b_full fits in
        (
          written bos.input.dma_addr bos.weights.dma_addr bo.dma_addr fits,
          refl,
          input,
          weights,
          expected,
          ap (prepared Sys F npu hardware matrix_a matrix_b ctx (record bos { output = bo }) m n) e,
        )
