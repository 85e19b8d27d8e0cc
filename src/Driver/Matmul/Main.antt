-- ===== src/Driver/Matmul/Main.antt =====
-- `main` of tests/matmul_fp16_rocket.c. Besides the library, the arithmetic and the system calls,
-- the random matrices, by their size, and what the NPU leaves in an output buffer, by its length,
-- are parameters. A result `none` is undefined behaviour.
use mathlib.Core.Option
use librocket.Prelude.{
  ℕ, suc, ◌-◌, ◌*◌, ◌^◌, List, [], ◌∷◌, Option, none, some, length, take, ltb, ◌==◌, if◌then◌else◌,
  u16, u32,
}
use librocket.Prelude.Int.{ℤ, pos, negsuc, is_negative}
use librocket.Prelude.Loops.{filled}
use librocket.Device.Kernel.{Kernel}
use librocket.Device.Calls.{
  M, pure, ◌>>=◌, Ctx, Bo, rocket_open, rocket_close, rocket_bo_create, rocket_bo_destroy,
  rocket_bo_prep, rocket_bo_fini, rocket_submit,
}
use librocket.Driver.Matmul.{
  valid_dims, Library, Arithmetic, matmul_fp32_cpu, layout_weights, layout_input, verify,
}

-- An `int` assigned to an `unsigned int`.
abbrev pub unsigned : ℤ → ℕ
unsigned (pos n) = u32 n
unsigned (negsuc n) = 2 ^ 32 - suc n

-- A buffer object that is declared and not yet created.
abbrev pub unset : Bo
unset = record { fd = pos 0; handle = 0; dma_addr = 0; size = 0; map_addr = 0 }

pub record Buffers : Type 0 where
  pub regcmd : Bo
  pub input : Bo
  pub weights : Bo
  pub output : Bo

-- What the host computes between the creation of the buffers and the submission.
pub data Generated (F : Arithmetic) : Type 0 where
  failed : (ret : ℤ) → Generated F
  ready :
      (num_commands : ℕ) (regcmd : List ℕ) (input weights : List F.Half) (expected : List F.Float)
      → Generated F

-- `memcpy` of the commands out of npu_regs.
abbrev pub copy : (num_commands : ℕ) (npu_regs : List ℕ) → Option (List ℕ)
copy num_commands npu_regs =
    if ltb (length npu_regs) num_commands then none else some (take num_commands npu_regs)

module _ (F : Arithmetic) (library : Library) (M K N : ℕ) (matrix_a matrix_b : List F.Half) where
  unfoldable pub laid_out : (num_commands : ℕ) (regcmd : List ℕ) → Option (Generated F)
  laid_out num_commands regcmd = Option.bind (layout_weights F library N K matrix_b) (λ weights.
      Option.bind (layout_input F library M K matrix_a) (λ input.
        Option.bind (matmul_fp32_cpu F M K N matrix_a matrix_b (filled (M * N) F.zero_float))
          (λ expected. some (ready num_commands regcmd input weights expected))))

  -- What follows the generator's return.
  unfoldable pub after_generate : ℤ × List ℕ → Option (Generated F)
  unfolding laid_out
  after_generate (pos num_commands, npu_regs) =
      Option.bind (copy num_commands npu_regs) (laid_out num_commands)
  after_generate (negsuc code, npu_regs) = some (failed (negsuc code))

  unfoldable pub generate : (input_dma weights_dma output_dma : ℕ) → Option (Generated F)
  unfolding after_generate
  generate input_dma weights_dma output_dma =
      Option.bind
        (library.gen_matmul_fp16
          (record {
            m = u16 M;
            k = u16 K;
            n = u16 N;
            input_dma = u32 input_dma;
            weights_dma = u32 weights_dma;
            output_dma = u32 output_dma;
            fp32tofp16 = 0;
          })
          (filled 112 0))
        after_generate

module _ (Sys : Kernel) where
  -- The labels at the end of `main`.
  unfoldable pub err_close : Ctx → ℤ → M (Kernel.State Sys) (Option ℤ)
  err_close ctx ret = do closed ← rocket_close Sys ctx; pure (some ret)

  unfoldable pub err_free_regcmd : Ctx → Buffers → ℤ → M (Kernel.State Sys) (Option ℤ)
  unfolding err_close
  err_free_regcmd ctx bos ret = do cleared ← rocket_bo_destroy Sys ctx bos.regcmd; err_close ctx ret

  unfoldable pub err_free_input : Ctx → Buffers → ℤ → M (Kernel.State Sys) (Option ℤ)
  unfolding err_free_regcmd
  err_free_input ctx bos ret = do
    cleared ← rocket_bo_destroy Sys ctx bos.input
    err_free_regcmd ctx bos ret

  unfoldable pub err_free_weights : Ctx → Buffers → ℤ → M (Kernel.State Sys) (Option ℤ)
  unfolding err_free_input
  err_free_weights ctx bos ret = do
    cleared ← rocket_bo_destroy Sys ctx bos.weights
    err_free_input ctx bos ret

  unfoldable pub err_free_output : Ctx → Buffers → ℤ → M (Kernel.State Sys) (Option ℤ)
  unfolding err_free_weights
  err_free_output ctx bos ret = do
    cleared ← rocket_bo_destroy Sys ctx bos.output
    err_free_weights ctx bos ret

  module _ (F : Arithmetic) (library : Library)
      (hardware : ℕ → List ℕ → List F.Half → List F.Half → List F.Float)
      (matrix_a matrix_b : ℕ → List F.Half) where
    -- The end of `main`, by the number of errors.
    unfoldable pub verdict : Ctx → Buffers → Option ℕ → M (Kernel.State Sys) (Option ℤ)
    unfolding err_free_output
    verdict ctx bos none = pure none
    verdict ctx bos (some errors) = err_free_output ctx bos (if errors == 0 then pos 0 else pos 1)

    -- What follows the wait.
    unfoldable pub waited : Ctx → Buffers → Option ℕ → ℤ → M (Kernel.State Sys) (Option ℤ)
    unfolding err_free_output verdict
    waited ctx bos errors ret =
        if is_negative ret then err_free_output ctx bos ret else verdict ctx bos errors

    -- What follows the submission.
    unfoldable pub submitted : Ctx → Buffers → Option ℕ → ℤ → M (Kernel.State Sys) (Option ℤ)
    unfolding err_free_output waited
    submitted ctx bos errors ret =
        if is_negative ret
        then err_free_output ctx bos ret
        else do ret ← rocket_bo_prep Sys ctx bos.output (pos 5000000000); waited ctx bos errors ret

    -- What follows the host's computations.
    unfoldable pub prepared :
        Ctx → Buffers → (m n : ℕ) → Option (Generated F) → M (Kernel.State Sys) (Option ℤ)
    unfolding err_free_output submitted
    prepared ctx bos m n none = pure none
    prepared ctx bos m n (some (failed ret)) = err_free_output ctx bos ret
    prepared ctx bos m n (some (ready num_commands regcmd input weights expected)) = do
      synced_regcmd ← rocket_bo_fini Sys ctx bos.regcmd
      synced_input ← rocket_bo_fini Sys ctx bos.input
      synced_weights ← rocket_bo_fini Sys ctx bos.weights
      synced_output ← rocket_bo_fini Sys ctx bos.output
      ret ←
          rocket_submit Sys ctx bos.regcmd num_commands (bos.input ∷ bos.weights ∷ bos.regcmd ∷ [])
            (bos.output ∷ [])
      submitted ctx bos (verify F library m n (hardware (m * n) regcmd input weights) expected) ret

    -- What follows the creation of the last buffer; the others likewise.
    unfoldable pub created_output :
        Ctx → Buffers → (m k n : ℕ) → ℤ × Bo → M (Kernel.State Sys) (Option ℤ)
    unfolding err_free_weights prepared
    created_output ctx bos m k n (ret, bo) =
        if is_negative ret
        then err_free_weights ctx bos ret
        else prepared ctx (record bos { output = bo }) m n
            (generate F library m k n (matrix_a (m * k)) (matrix_b (n * k)) bos.input.dma_addr
              bos.weights.dma_addr bo.dma_addr)

    unfoldable pub created_weights :
        Ctx → Buffers → (m k n : ℕ) → ℤ × Bo → M (Kernel.State Sys) (Option ℤ)
    unfolding err_free_input created_output
    created_weights ctx bos m k n (ret, bo) =
        if is_negative ret then err_free_input ctx bos ret else do
          made ← rocket_bo_create Sys ctx unset (u32 (m * n) * 4)
          created_output ctx (record bos { weights = bo }) m k n made

    unfoldable pub created_input :
        Ctx → Buffers → (m k n : ℕ) → ℤ × Bo → M (Kernel.State Sys) (Option ℤ)
    unfolding err_free_regcmd created_weights
    created_input ctx bos m k n (ret, bo) =
        if is_negative ret then err_free_regcmd ctx bos ret else do
          made ← rocket_bo_create Sys ctx unset (u32 (n * k) * 2)
          created_weights ctx (record bos { input = bo }) m k n made

    unfoldable pub created_regcmd : Ctx → (m k n : ℕ) → ℤ × Bo → M (Kernel.State Sys) (Option ℤ)
    unfolding err_close created_input
    created_regcmd ctx m k n (ret, bo) = if is_negative ret then err_close ctx ret else do
      made ← rocket_bo_create Sys ctx unset (u32 (m * k) * 2)
      created_input ctx (record { regcmd = bo; input = unset; weights = unset; output = unset }) m k
          n made

    -- What follows the opening of the device. `none` does not occur.
    unfoldable pub opened : (m k n : ℕ) → ℤ × Option Ctx → M (Kernel.State Sys) (Option ℤ)
    unfolding created_regcmd
    opened m k n (ret, none) = pure (some (pos 1))
    opened m k n (ret, some ctx) =
        if is_negative ret
        then pure (some (pos 1))
        else do made ← rocket_bo_create Sys ctx unset 896; created_regcmd ctx m k n made

    -- `main`, for what atoi gives for its three arguments; `none` for another number of arguments.
    unfoldable pub main : Option (ℤ × ℤ × ℤ) → M (Kernel.State Sys) (Option ℤ)
    unfolding opened
    main none = pure (some (pos 1))
    main (some (m, k, n)) =
        if valid_dims (unsigned m) (unsigned k) (unsigned n)
        then (do
          device ← rocket_open Sys (some (record { fd = pos 0 }))
          opened (unsigned m) (unsigned k) (unsigned n) device)
        else pure (some (pos 1))
