-- ===== src/Driver/Minimal/Balance.antt =====
-- What a process holds after the minimal test programs.
use librocket.Prelude.{
  ℕ, ◌+◌, ◌≤◌, ◌≡◌, ◌⊎◌, inl, inr, refl, ap, sym, ◌∙◌, [], Option, some, none, arith, ◌==◌,
  Bool-cases,
}
use librocket.Prelude.Int.{ℤ, pos, negsuc}
use librocket.Device.Kernel.{Resource, descriptor, gem_handle, mapping, one, Kernel, Accounts}
use librocket.Device.Calls.{
  Ctx, Bo, Process, rocket_open, rocket_bo_create, rocket_bo_destroy, rocket_bo_map, rocket_bo_prep,
  rocket_bo_fini, rocket_submit,
}
use librocket.Device.Accounting.{holds, Opened, rocket_open_balance, rocket_close_balance}
use librocket.Device.Accounting.Buffers.{
  Created, rocket_bo_create_balance, rocket_bo_destroy_balance,
}
use librocket.Device.Accounting.Jobs.{rocket_submit_balance}
use librocket.Device.Accounting.Ownership.{rocket_bo_prep_balance, rocket_bo_fini_balance}
use librocket.Driver.Minimal.{
  give_back, waited, submitted, synced, mapped, created, opened, run, minimal_npu_test,
  minimal_mesa_test, test_cna_enable,
}

module _ (K : Kernel) (A : Accounts K) where
  -- The program returns 0 or 1, and the process holds `n` of the resource.
  abbrev pub Finished : Resource → ℕ → ℤ × Process (Kernel.State K) → Type 0
  Finished r n out = ((out.0 ≡ pos 0) ⊎ (out.0 ≡ pos 1)) × (holds K A out.1 r ≡ n)

  -- Beyond `n`, the process holds the device and the mapped buffer.
  abbrev Holding : ℕ → Bo → Process (Kernel.State K) → Resource → ℕ → Type 0
  Holding fd bo p r n =
      (1 ≤ bo.map_addr)
      × (holds K A p r
          ≡ n
            + one (descriptor (pos fd)) r
            + one (gem_handle (pos fd) bo.handle) r
            + one (mapping bo.map_addr bo.size) r)

  give_back_case :
      (fd : ℕ) (bo : Bo) (code : ℤ) (p : Process (Kernel.State K)) (r : Resource) (n : ℕ)
      → Holding fd bo p r n
      → holds K A (give_back K (record { fd = pos fd }) bo code p).1 r ≡ n
  unfolding give_back
  give_back_case fd bo code p r n (addr, live) =
      let cleared = rocket_bo_destroy K (record { fd = pos fd }) bo p in
      (rocket_close_balance K A fd cleared.1 r).0
      ∙ ground (arith, (rocket_bo_destroy_balance K A (record { fd = pos fd }) bo p r).0)

  refused :
      (fd : ℕ) (bo : Bo) (p : Process (Kernel.State K)) (r : Resource) (n : ℕ)
      → Holding fd bo p r n
      → Finished r n (give_back K (record { fd = pos fd }) bo (pos 1) p)
  refused fd bo p r n h = (inr (unfold give_back in refl), give_back_case fd bo (pos 1) p r n h)

  waited_case :
      (fd : ℕ) (bo : Bo) (ret : ℤ) (p : Process (Kernel.State K)) (r : Resource) (n : ℕ)
      → Holding fd bo p r n
      → Finished r n (waited K (record { fd = pos fd }) bo ret p)
  unfolding waited
  waited_case fd bo (pos k) p r n h =
      (inl (unfold give_back in refl), give_back_case fd bo (pos 0) p r n h)
  waited_case fd bo (negsuc k) p r n h = refused fd bo p r n h

  submitted_case :
      (fd : ℕ) (bo : Bo) (t ret : ℤ) (p : Process (Kernel.State K)) (r : Resource) (n : ℕ)
      → Holding fd bo p r n
      → Finished r n (submitted K (record { fd = pos fd }) bo t ret p)
  unfolding submitted
  submitted_case fd bo t (pos k) p r n (addr, live) =
      let out = rocket_bo_prep K (record { fd = pos fd }) bo t p in
      waited_case fd bo out.0 out.1 r n
        (addr, (rocket_bo_prep_balance K A (record { fd = pos fd }) bo t p r).1 ∙ live)
  submitted_case fd bo t (negsuc k) p r n h = refused fd bo p r n h

  synced_case :
      (fd : ℕ) (bo : Bo) (count : ℕ) (t ret : ℤ) (p : Process (Kernel.State K)) (r : Resource)
      (n : ℕ)
      → Holding fd bo p r n
      → Finished r n (synced K (record { fd = pos fd }) bo count t ret p)
  unfolding synced
  synced_case fd bo count t (pos k) p r n (addr, live) =
      let out = rocket_submit K (record { fd = pos fd }) bo count [] [] p in
      submitted_case fd bo t out.0 out.1 r n
        (addr, (rocket_submit_balance K A (record { fd = pos fd }) bo count [] [] p r).1 ∙ live)
  synced_case fd bo count t (negsuc k) p r n h = refused fd bo p r n h

  mapped_case :
      (fd : ℕ) (bo : Bo) (count : ℕ) (t : ℤ) (addr : ℕ) (p : Process (Kernel.State K))
      (r : Resource) (n : ℕ)
      → Holding fd bo p r n
      → Finished r n (mapped K (record { fd = pos fd }) bo count t addr p)
  unfolding mapped
  mapped_case fd bo count t addr p r n h = elim (Bool-cases (addr == 0)) [
    | inl null ↦ rw null (refused fd bo p r n h)
    | inr some_addr ↦
        let out = rocket_bo_fini K (record { fd = pos fd }) bo p in
        rw some_addr (
          synced_case fd bo count t out.0 out.1 r n
            (h.0, (rocket_bo_fini_balance K A (record { fd = pos fd }) bo p r).1 ∙ h.1))
  ]

  created_case :
      (fd : ℕ) (count : ℕ) (t : ℤ) (made : (ℤ × Bo) × Process (Kernel.State K)) (r : Resource)
      (n : ℕ)
      → Created K A (record { fd = pos fd }) 4096 r (n + one (descriptor (pos fd)) r) made
      → Finished r n (created K (record { fd = pos fd }) count t made.0 made.1)
  unfolding created rocket_bo_map
  created_case fd count t ((pos k, bo), p) r n (inl (ok, size-eq, addr, live)) =
      mapped_case fd bo count t bo.map_addr p r n (
        addr,
        live
            ∙ ap
                (λ (m : ℕ).
                  n
                  + one (descriptor (pos fd)) r
                  + one (gem_handle (pos fd) bo.handle) r
                  + one (mapping bo.map_addr m) r)
                (sym size-eq),
      )
  created_case fd count t ((pos k, bo), p) r n (inr ((e, bad), live)) = absurd (cc bad)
  created_case fd count t ((negsuc k, bo), p) r n (inl (ok, size-eq, addr, live)) = absurd (cc ok)
  created_case fd count t ((negsuc k, bo), p) r n (inr (bad, live)) =
      (inr refl, (rocket_close_balance K A fd p r).0 ∙ omega (arith, live))

  opened_case :
      (count : ℕ) (t : ℤ) (device : (ℤ × Option Ctx) × Process (Kernel.State K)) (r : Resource)
      (n : ℕ)
      → Opened K A r n device
      → Finished r n (opened K count t device.0 device.1)
  unfolding opened
  opened_case count t (result, p) r n (inl (fd, ok, live)) =
      let made =
        rocket_bo_create K (record { fd = pos fd })
          (record { fd = pos 0; handle = 0; dma_addr = 0; size = 0; map_addr = 0 }) 4096 p in
      rw ok (
        created_case fd count t made r n (
          rw (sym live) (
            rocket_bo_create_balance K A (record { fd = pos fd })
              (record { fd = pos 0; handle = 0; dma_addr = 0; size = 0; map_addr = 0 }) 4096 p r)))
  opened_case count t ((pos k, ctx), p) r n (inr ((e, bad), live)) = absurd (cc bad)
  opened_case count t ((negsuc k, none), p) r n (inr (bad, live)) = (inr refl, live)
  opened_case count t ((negsuc k, some ctx), p) r n (inr (bad, live)) = (inr refl, live)

  run_balance :
      (count : ℕ) (t : ℤ) (p : Process (Kernel.State K)) (r : Resource)
      → Finished r (holds K A p r) (run K count t p)
  unfolding run
  run_balance count t p r =
      opened_case count t (rocket_open K (some (record { fd = pos 0 })) p) r (holds K A p r)
        (rocket_open_balance K A (record { fd = pos 0 }) p r)

  -- On a system that behaves as `Accounts` says, each of the three test programs returns 0 or 1,
  -- and the process holds afterwards what it held before, whichever call fails.
  pub minimal_tests_balance :
      (p : Process (Kernel.State K)) (r : Resource)
      → Finished r (holds K A p r) (minimal_npu_test K p)
        × Finished r (holds K A p r) (minimal_mesa_test K p)
        × Finished r (holds K A p r) (test_cna_enable K p)
  unfolding minimal_npu_test minimal_mesa_test test_cna_enable
  minimal_tests_balance p r = (run_balance _ _ p r, run_balance _ _ p r, run_balance _ _ p r)
