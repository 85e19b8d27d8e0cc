-- ===== src/Driver/Matmul/Balance.antt =====
-- What a process holds after `main` of tests/matmul_fp16_rocket.c.

use librocket.Prelude.{
  ℕ, ◌+◌, ◌*◌, ◌≤◌, ◌≡◌, inl, inr, refl, List, Option, some, none, Bool-cases, u32, true,
}
use librocket.Prelude.Int.{ℤ, pos, negsuc}
use librocket.Device.Kernel.{Resource, descriptor, one, Kernel, Accounts}
use librocket.Device.Calls.{Ctx, Bo, Process, rocket_open, rocket_bo_create}
use librocket.Device.Accounting.{holds, Opened, rocket_open_balance}
use librocket.Device.Accounting.Buffers.{Created}
use librocket.Driver.Matmul.Cleanup.{
  Returned, held, made_case, err_close_case, err_free_regcmd_case, err_free_input_case,
  err_free_weights_case, create,
}
use librocket.Driver.Matmul.{valid_dims, Library, Arithmetic}
use librocket.Driver.Matmul.Main.{
  unsigned, unset, Buffers, created_output, created_weights, created_input, created_regcmd, opened,
  main,
}
use librocket.Driver.Matmul.Steps.{Prepares, prepared_case}

module _ (Sys : Kernel) (A : Accounts Sys) where
  module _ (fd : ℕ) (r : Resource) (n : ℕ) where
    module _ (F : Arithmetic) (library : Library)
        (hardware : ℕ → List ℕ → List F.Half → List F.Half → List F.Float)
        (matrix_a matrix_b : ℕ → List F.Half) where
      module _ (m k cols : ℕ)
          (defined : Prepares F library hardware matrix_a matrix_b m k cols) where
        created_output_case :
            (bos : Buffers) (size : ℕ) (ret : ℤ) (bo : Bo) (p : Process (Kernel.State Sys))
            → 1 ≤ bos.regcmd.map_addr
            → 1 ≤ bos.input.map_addr
            → 1 ≤ bos.weights.map_addr
            → Created Sys A
                (record { fd = pos fd })
                size
                r
                (n
                  + one (descriptor (pos fd)) r
                  + held Sys A fd bos.regcmd r
                  + held Sys A fd bos.input r
                  + held Sys A fd bos.weights r)
                ((ret, bo), p)
            → Returned Sys A r n (
                created_output Sys F library hardware matrix_a matrix_b
                  (record { fd = pos fd })
                  bos
                  m
                  k
                  cols
                  (ret, bo)
                  p)
        unfolding created_output
        created_output_case bos size ret bo p addr addr' addr'' h =
            made_case Sys A fd size r n _ ((ret, bo), p) _ _ h
              (λ live. err_free_weights_case Sys A fd r n bos ret p addr addr' addr'' live)
              (λ addr''' live.
                let (g, found, counted) =
                  defined bos.input.dma_addr bos.weights.dma_addr bo.dma_addr in
                prepared_case Sys A fd r n F library hardware matrix_a matrix_b
                  (record bos { output = bo }) m cols _ g p found counted
                  (addr, addr', addr'', addr''', live))

        created_weights_case :
            (bos : Buffers) (size : ℕ) (ret : ℤ) (bo : Bo) (p : Process (Kernel.State Sys))
            → 1 ≤ bos.regcmd.map_addr
            → 1 ≤ bos.input.map_addr
            → Created Sys A
                (record { fd = pos fd })
                size
                r
                (n
                  + one (descriptor (pos fd)) r
                  + held Sys A fd bos.regcmd r
                  + held Sys A fd bos.input r)
                ((ret, bo), p)
            → Returned Sys A r n (
                created_weights Sys F library hardware matrix_a matrix_b
                  (record { fd = pos fd })
                  bos
                  m
                  k
                  cols
                  (ret, bo)
                  p)
        unfolding created_weights
        created_weights_case bos size ret bo p addr addr' h =
            made_case Sys A fd size r n _ ((ret, bo), p) _ _ h
              (λ live. err_free_input_case Sys A fd r n bos ret p addr addr' live)
              (λ addr'' live.
                let made =
                  rocket_bo_create Sys (record { fd = pos fd }) unset (u32 (m * cols) * 4) p in
                created_output_case (record bos { weights = bo }) (u32 (m * cols) * 4) made.0.0
                  made.0.1 made.1 addr addr' addr'' (create Sys A fd r n _ p _ live))

        created_input_case :
            (bos : Buffers) (size : ℕ) (ret : ℤ) (bo : Bo) (p : Process (Kernel.State Sys))
            → 1 ≤ bos.regcmd.map_addr
            → Created Sys A
                (record { fd = pos fd })
                size
                r
                (n + one (descriptor (pos fd)) r + held Sys A fd bos.regcmd r)
                ((ret, bo), p)
            → Returned Sys A r n (
                created_input Sys F library hardware matrix_a matrix_b
                  (record { fd = pos fd })
                  bos
                  m
                  k
                  cols
                  (ret, bo)
                  p)
        unfolding created_input
        created_input_case bos size ret bo p addr h =
            made_case Sys A fd size r n _ ((ret, bo), p) _ _ h
              (λ live. err_free_regcmd_case Sys A fd r n bos ret p addr live)
              (λ addr' live.
                let made =
                  rocket_bo_create Sys (record { fd = pos fd }) unset (u32 (cols * k) * 2) p in
                created_weights_case (record bos { input = bo }) (u32 (cols * k) * 2) made.0.0
                  made.0.1 made.1 addr addr' (create Sys A fd r n _ p _ live))

        created_regcmd_case :
            (size : ℕ) (ret : ℤ) (bo : Bo) (p : Process (Kernel.State Sys))
            → Created Sys A
                (record { fd = pos fd })
                size
                r
                (n + one (descriptor (pos fd)) r)
                ((ret, bo), p)
            → Returned Sys A r n (
                created_regcmd Sys F library hardware matrix_a matrix_b
                  (record { fd = pos fd })
                  m
                  k
                  cols
                  (ret, bo)
                  p)
        unfolding created_regcmd
        created_regcmd_case size ret bo p h =
            made_case Sys A fd size r n _ ((ret, bo), p) _ _ h
              (λ live. err_close_case Sys A fd r n ret p live)
              (λ addr live.
                let made =
                  rocket_bo_create Sys (record { fd = pos fd }) unset (u32 (m * k) * 2) p in
                created_input_case
                  (record { regcmd = bo; input = unset; weights = unset; output = unset })
                  (u32 (m * k) * 2) made.0.0 made.0.1 made.1 addr (create Sys A fd r n _ p _ live))

  module _ (F : Arithmetic) (library : Library)
      (hardware : ℕ → List ℕ → List F.Half → List F.Half → List F.Float)
      (matrix_a matrix_b : ℕ → List F.Half) where
    opened_case :
        (m k cols : ℕ) (device : (ℤ × Option Ctx) × Process (Kernel.State Sys)) (r : Resource)
        (n : ℕ)
        → Prepares F library hardware matrix_a matrix_b m k cols
        → Opened Sys A r n device
        → Returned Sys A r n
            (opened Sys F library hardware matrix_a matrix_b m k cols device.0 device.1)
    unfolding opened
    opened_case m k cols (result, p) r n defined (inl (fd, ok, live)) =
        let made = rocket_bo_create Sys (record { fd = pos fd }) unset 896 p in
        rw ok (
          created_regcmd_case fd r n F library hardware matrix_a matrix_b m k cols defined 896
            made.0.0 made.0.1 made.1 (create Sys A fd r n 896 p _ live))
    opened_case m k cols ((pos k', ctx), p) r n defined (inr ((e, bad), live)) = absurd (cc bad)
    opened_case m k cols ((negsuc k', none), p) r n defined (inr (bad, live)) = (pos 1, refl, live)
    opened_case m k cols ((negsuc k', some ctx), p) r n defined (inr (bad, live)) =
        (pos 1, refl, live)

    pub main_case :
        (args : Option (ℤ × ℤ × ℤ)) (p : Process (Kernel.State Sys)) (r : Resource)
        → ((m k cols : ℕ)
            → valid_dims m k cols ≡ true
            → Prepares F library hardware matrix_a matrix_b m k cols)
        → Returned Sys A r (holds Sys A p r) (main Sys F library hardware matrix_a matrix_b args p)
    unfolding main
    main_case none p r defined = (pos 1, refl, refl)
    main_case (some (m, k, cols)) p r defined =
        elim (Bool-cases (valid_dims (unsigned m) (unsigned k) (unsigned cols))) [
          | inl good ↦ rw good (
              opened_case (unsigned m) (unsigned k) (unsigned cols)
                (rocket_open Sys (some (record { fd = pos 0 })) p) r (holds Sys A p r)
                (defined (unsigned m) (unsigned k) (unsigned cols) good)
                (rocket_open_balance Sys A (record { fd = pos 0 }) p r))
          | inr bad ↦ rw bad (pos 1, refl, refl)
        ]
