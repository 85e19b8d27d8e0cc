-- ===== src/Driver/Minimal.antt =====
-- tests/minimal_npu_test.c, tests/minimal_mesa_test.c and tests/test_cna_enable.c: each opens the
-- device, writes a few words into a buffer of 4096 bytes, submits it and waits for it. The three
-- differ in their words and in how long they wait.
pub mod Balance
use librocket.Prelude.{
  ℕ, zero, suc, List, [], ◌∷◌, map, length, Option, none, some, ◌==◌, if◌then◌else◌,
}
use librocket.Prelude.Int.{ℤ, pos, negsuc, is_negative}
use librocket.Npu.Hw
use librocket.Npu.Hw.{
  Command, command, encode, npuop, address, op_reg_pc, op_enable, op_none, enable_pc,
}
use librocket.Regcmd.{Regcmd, regcmd_of, word_of, Stream, start, emit_all}
use librocket.Mesa.{
  target_pc, target_cna, number, pc_base_address, pc_register_amounts, pc_operation_enable,
  cna_operation_enable,
}
use librocket.Device.Kernel.{Kernel}
use librocket.Device.Calls.{
  M, pure, ◌>>=◌, Ctx, Bo, rocket_open, rocket_close, rocket_bo_create, rocket_bo_destroy,
  rocket_bo_map, rocket_bo_prep, rocket_bo_fini, rocket_submit,
}

-- The words of tests/minimal_npu_test.c.
unfoldable pub minimal_npu_words : List ℕ
minimal_npu_words =
    npuop op_reg_pc 0 (address Hw.pc_base_address)
    ∷ npuop op_reg_pc 0 (address Hw.pc_register_amounts)
    ∷ npuop op_enable enable_pc (address Hw.pc_operation_enable)
    ∷ npuop op_none 0 (address Hw.pc_operation_enable)
    ∷ []

-- The words of tests/minimal_mesa_test.c.
unfoldable pub minimal_mesa_words : List ℕ
minimal_mesa_words = map word_of (
    regcmd_of target_pc 0 (number pc_base_address)
    ∷ regcmd_of target_pc 0 (number pc_register_amounts)
    ∷ regcmd_of target_pc 1 (number pc_operation_enable)
    ∷ [])

-- The words of tests/test_cna_enable.c.
unfoldable pub cna_enable_words : List ℕ
cna_enable_words = map word_of (
    regcmd_of target_pc 0 (number pc_base_address)
    ∷ regcmd_of target_pc 0 (number pc_register_amounts)
    ∷ regcmd_of target_pc 1 (number pc_operation_enable)
    ∷ regcmd_of target_cna 1 (number cna_operation_enable)
    ∷ regcmd_of target_cna 0 (number cna_operation_enable)
    ∷ regcmd_of target_pc 0 (number pc_operation_enable)
    ∷ [])

abbrev pub blank : ℕ → List ℕ
blank zero = []
blank (suc n) = 0 ∷ blank n

-- The buffer of 4096 bytes after the memset and the writes, and the number of words.
unfoldable pub fill : List ℕ → Option Stream
fill words = emit_all words (start (blank 512))

module _ (K : Kernel) where
  -- `rocket_bo_destroy(&ctx, &regcmd_bo); rocket_close(&ctx); return code;`
  unfoldable pub give_back : Ctx → Bo → ℤ → M (Kernel.State K) ℤ
  give_back ctx bo code = do
    cleared ← rocket_bo_destroy K ctx bo
    closed ← rocket_close K ctx
    pure code

  -- What follows the wait.
  unfoldable pub waited : Ctx → Bo → ℤ → M (Kernel.State K) ℤ
  unfolding give_back
  waited ctx bo ret = if is_negative ret then give_back ctx bo (pos 1) else give_back ctx bo (pos 0)

  -- What follows the submission.
  unfoldable pub submitted : Ctx → Bo → (timeout_ns : ℤ) → ℤ → M (Kernel.State K) ℤ
  unfolding give_back waited
  submitted ctx bo timeout_ns ret =
      if is_negative ret
      then give_back ctx bo (pos 1)
      else do ret ← rocket_bo_prep K ctx bo timeout_ns; waited ctx bo ret

  -- What follows the synchronization of the buffer.
  unfoldable pub synced : Ctx → Bo → (cmd_idx : ℕ) (timeout_ns : ℤ) → ℤ → M (Kernel.State K) ℤ
  unfolding give_back submitted
  synced ctx bo cmd_idx timeout_ns ret =
      if is_negative ret
      then give_back ctx bo (pos 1)
      else do ret ← rocket_submit K ctx bo cmd_idx [] []; submitted ctx bo timeout_ns ret

  -- What follows the request for the mapping.
  unfoldable pub mapped : Ctx → Bo → (cmd_idx : ℕ) (timeout_ns : ℤ) → ℕ → M (Kernel.State K) ℤ
  unfolding give_back synced
  mapped ctx bo cmd_idx timeout_ns regcmd =
      if regcmd == 0
      then give_back ctx bo (pos 1)
      else do ret ← rocket_bo_fini K ctx bo; synced ctx bo cmd_idx timeout_ns ret

  -- What follows the creation of the buffer.
  unfoldable pub created : Ctx → (cmd_idx : ℕ) (timeout_ns : ℤ) → ℤ × Bo → M (Kernel.State K) ℤ
  unfolding mapped
  created ctx cmd_idx timeout_ns (ret, bo) =
      if is_negative ret
      then (do closed ← rocket_close K ctx; pure (pos 1))
      else do regcmd ← rocket_bo_map K ctx bo; mapped ctx bo cmd_idx timeout_ns regcmd

  -- What follows the opening of the device. `none` does not occur.
  unfoldable pub opened : (cmd_idx : ℕ) (timeout_ns : ℤ) → ℤ × Option Ctx → M (Kernel.State K) ℤ
  unfolding created
  opened cmd_idx timeout_ns (ret, none) = pure (pos 1)
  opened cmd_idx timeout_ns (ret, some ctx) = if is_negative ret then pure (pos 1) else do
    made ←
        rocket_bo_create K ctx
          (record { fd = pos 0; handle = 0; dma_addr = 0; size = 0; map_addr = 0 }) 4096
    created ctx cmd_idx timeout_ns made

  -- `main`, for a number of words and a time to wait.
  unfoldable pub run : (cmd_idx : ℕ) (timeout_ns : ℤ) → M (Kernel.State K) ℤ
  unfolding opened
  run cmd_idx timeout_ns = do
    device ← rocket_open K (some (record { fd = pos 0 }))
    opened cmd_idx timeout_ns device

  unfoldable pub minimal_npu_test : M (Kernel.State K) ℤ
  unfolding run
  minimal_npu_test = run (length minimal_npu_words) (negsuc 0)

  unfoldable pub minimal_mesa_test : M (Kernel.State K) ℤ
  unfolding run
  minimal_mesa_test = run (length minimal_mesa_words) (pos 5000)

  unfoldable pub test_cna_enable : M (Kernel.State K) ℤ
  unfolding run
  test_cna_enable = run (length cna_enable_words) (pos 5000)
