-- ===== src/Driver/Matmul/Steps.antt =====
-- What a process holds after the steps of `main` of tests/matmul_fp16_rocket.c behind the creation
-- of its buffers.

use librocket.Prelude.{ℕ, ◌*◌, ◌≡◌, ◌∙◌, List, Option, some, none}
use librocket.Prelude.Int.{ℤ, pos, negsuc}
use librocket.Device.Kernel.{Resource, Kernel, Accounts}
use librocket.Device.Calls.{Bo, Process, rocket_bo_prep, rocket_bo_fini, rocket_submit}
use librocket.Device.Accounting.Jobs.{rocket_submit_balance}
use librocket.Device.Accounting.Ownership.{rocket_bo_prep_balance, rocket_bo_fini_balance}
use librocket.Driver.Matmul.Cleanup.{Returned, AllHeld, err_free_output_case}
use librocket.Driver.Matmul.{Library, Arithmetic, verify}
use librocket.Driver.Matmul.Main.{
  Buffers, Generated, failed, ready, generate, verdict, waited, submitted, prepared,
}

module _ (F : Arithmetic) (library : Library)
    (hardware : ℕ → List ℕ → List F.Half → List F.Half → List F.Float)
    (matrix_a matrix_b : ℕ → List F.Half) where
  -- The verification reads within its arrays.
  abbrev pub Verifies : (m n : ℕ) → Generated F → Type 0
  Verifies m n (failed ret) = Unit
  Verifies m n (ready count regcmd input weights expected) =
      (errors : ℕ) × (verify F library m n (hardware (m * n) regcmd input weights) expected
        ≡ some errors)

  -- The host's computations are defined, wherever the buffers are.
  abbrev pub Prepares : (m k cols : ℕ) → Type 0
  Prepares m k cols =
      (input_dma weights_dma output_dma : ℕ)
      → (g : Generated F) × (generate F library m k cols (matrix_a (m * k)) (matrix_b (cols * k))
            input_dma weights_dma output_dma
          ≡ some g)
        × Verifies m cols g

module _ (Sys : Kernel) (A : Accounts Sys) where
  module _ (fd : ℕ) (r : Resource) (n : ℕ) where
    module _ (F : Arithmetic) (library : Library)
        (hardware : ℕ → List ℕ → List F.Half → List F.Half → List F.Float)
        (matrix_a matrix_b : ℕ → List F.Half) where
      verdict_case :
          (bos : Buffers) (errors : Option ℕ) (count : ℕ) (p : Process (Kernel.State Sys))
          → errors ≡ some count
          → AllHeld Sys A fd r n bos p
          → Returned Sys A r n (
              verdict Sys F library hardware matrix_a matrix_b
                (record { fd = pos fd })
                bos
                errors
                p)
      unfolding verdict
      verdict_case bos none count p e h = absurd (cc e)
      verdict_case bos (some errors) count p e h = err_free_output_case Sys A fd r n bos _ p h

      waited_case :
          (bos : Buffers) (errors : Option ℕ) (count : ℕ) (ret : ℤ) (p : Process (Kernel.State Sys))
          → errors ≡ some count
          → AllHeld Sys A fd r n bos p
          → Returned Sys A r n (
              waited Sys F library hardware matrix_a matrix_b
                (record { fd = pos fd })
                bos
                errors
                ret
                p)
      unfolding waited
      waited_case bos errors count (pos k) p e h = verdict_case bos errors count p e h
      waited_case bos errors count (negsuc k) p e h =
          err_free_output_case Sys A fd r n bos (negsuc k) p h

      submitted_case :
          (bos : Buffers) (errors : Option ℕ) (count : ℕ) (ret : ℤ) (p : Process (Kernel.State Sys))
          → errors ≡ some count
          → AllHeld Sys A fd r n bos p
          → Returned Sys A r n (
              submitted Sys F library hardware matrix_a matrix_b
                (record { fd = pos fd })
                bos
                errors
                ret
                p)
      unfolding submitted
      submitted_case bos errors count (pos k) p e (addr, addr', addr'', addr''', live) =
          let out = rocket_bo_prep Sys (record { fd = pos fd }) bos.output (pos 5000000000) p in
          waited_case bos errors count out.0 out.1 e (
            addr,
            addr',
            addr'',
            addr''',
            (rocket_bo_prep_balance Sys A (record { fd = pos fd }) bos.output (pos 5000000000) p
                  r).1
                ∙ live,
          )
      submitted_case bos errors count (negsuc k) p e h =
          err_free_output_case Sys A fd r n bos (negsuc k) p h

      fini_case :
          (bos : Buffers) (bo : Bo) (p : Process (Kernel.State Sys))
          → AllHeld Sys A fd r n bos p
          → AllHeld Sys A fd r n bos (rocket_bo_fini Sys (record { fd = pos fd }) bo p).1
      fini_case bos bo p (addr, addr', addr'', addr''', live) = (
        addr,
        addr',
        addr'',
        addr''',
        (rocket_bo_fini_balance Sys A (record { fd = pos fd }) bo p r).1 ∙ live,
      )

      submit_case :
          (bos : Buffers) (count : ℕ) (ins outs : List Bo) (p : Process (Kernel.State Sys))
          → AllHeld Sys A fd r n bos p
          → AllHeld Sys A fd r n bos
              (rocket_submit Sys (record { fd = pos fd }) bos.regcmd count ins outs p).1
      submit_case bos count ins outs p (addr, addr', addr'', addr''', live) = (
        addr,
        addr',
        addr'',
        addr''',
        (rocket_submit_balance Sys A (record { fd = pos fd }) bos.regcmd count ins outs p r).1
            ∙ live,
      )

      pub prepared_case :
          (bos : Buffers) (m cols : ℕ) (found : Option (Generated F)) (g : Generated F)
          (p : Process (Kernel.State Sys))
          → found ≡ some g
          → Verifies F library hardware matrix_a matrix_b m cols g
          → AllHeld Sys A fd r n bos p
          → Returned Sys A r n (
              prepared Sys F library hardware matrix_a matrix_b
                (record { fd = pos fd })
                bos
                m
                cols
                found
                p)
      prepared_case bos m cols found (failed ret) p e v h =
          rw e (unfold prepared in err_free_output_case Sys A fd r n bos ret p h)
      prepared_case bos m cols found (ready count regcmd input weights expected) p e
            (errors, counted) h =
          rw e (
            unfold prepared in
            submitted_case bos _ errors _ _ counted (
              submit_case bos count _ _ _ (
                fini_case bos bos.output _ (
                  fini_case bos bos.weights _
                    (fini_case bos bos.input _ (fini_case bos bos.regcmd p h))))))
