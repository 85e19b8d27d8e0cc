-- ===== src/Driver/Matmul/Cleanup.antt =====
-- What a process holds along the labels at the end of `main` of tests/matmul_fp16_rocket.c.
use mathlib.Core.Path.{subst}
use librocket.Prelude.{
  ℕ, ◌+◌, ◌≤◌, ◌≡◌, inl, inr, refl, ap, ◌∙◌, Option, some, arith, if◌then◌else◌,
}
use librocket.Prelude.Int.{ℤ, pos, negsuc, is_negative}
use librocket.Device.Kernel.{Resource, descriptor, gem_handle, mapping, one, Kernel, Accounts}
use librocket.Device.Calls.{M, Bo, Process, rocket_bo_create, rocket_bo_destroy}
use librocket.Device.Accounting.{holds, rocket_close_balance}
use librocket.Device.Accounting.Buffers.{
  Created, rocket_bo_create_balance, rocket_bo_destroy_balance,
}
use librocket.Driver.Matmul.Main.{
  unset, Buffers, err_close, err_free_regcmd, err_free_input, err_free_weights, err_free_output,
}

module _ (Sys : Kernel) (A : Accounts Sys) where
  -- The program returns, and the process holds `n` of the resource.
  abbrev pub Returned : Resource → ℕ → Option ℤ × Process (Kernel.State Sys) → Type 0
  Returned r n out = (code : ℤ) × (out.0 ≡ some code) × (holds Sys A out.1 r ≡ n)

  -- What a created and mapped buffer object is.
  abbrev pub held : ℕ → Bo → Resource → ℕ
  held fd bo r = one (gem_handle (pos fd) bo.handle) r + one (mapping bo.map_addr bo.size) r

  -- A step that may fail: on success there is one more buffer.
  pub made_case :
      (fd size : ℕ) (r : Resource) (n total : ℕ) (made : (ℤ × Bo) × Process (Kernel.State Sys))
      (fail succeed : M (Kernel.State Sys) (Option ℤ))
      → Created Sys A (record { fd = pos fd }) size r total made
      → (holds Sys A made.1 r ≡ total → Returned r n (fail made.1))
      → (1 ≤ made.0.1.map_addr
          → holds Sys A made.1 r ≡ total + held fd made.0.1 r
          → Returned r n (succeed made.1))
      → Returned r n ((if is_negative made.0.0 then fail else succeed) made.1)
  made_case fd size r n total ((pos k, bo), p) fail succeed (inl (ok, size-eq, addr, live)) bad
        good =
      good addr (live ∙ omega (arith, ap (λ (s : ℕ). one (mapping bo.map_addr s) r) size-eq))
  made_case fd size r n total ((pos k, bo), p) fail succeed (inr ((e, is_e), live)) bad good =
      absurd (cc is_e)
  made_case fd size r n total ((negsuc k, bo), p) fail succeed (inl (ok, _, _, _)) bad good =
      absurd (cc ok)
  made_case fd size r n total ((negsuc k, bo), p) fail succeed (inr (is_e, live)) bad good =
      bad live

  pub destroy_case :
      (fd : ℕ) (bo : Bo) (p : Process (Kernel.State Sys)) (r : Resource) (n : ℕ)
      → 1 ≤ bo.map_addr
      → holds Sys A p r ≡ n + held fd bo r
      → holds Sys A (rocket_bo_destroy Sys (record { fd = pos fd }) bo p).1 r ≡ n
  destroy_case fd bo p r n addr live =
      ground (arith, (rocket_bo_destroy_balance Sys A (record { fd = pos fd }) bo p r).0)

  module _ (fd : ℕ) (r : Resource) (n : ℕ) where
    pub err_close_case :
        (ret : ℤ) (p : Process (Kernel.State Sys))
        → holds Sys A p r ≡ n + one (descriptor (pos fd)) r
        → Returned r n (err_close Sys (record { fd = pos fd }) ret p)
    unfolding err_close
    err_close_case ret p live =
        (ret, refl, (rocket_close_balance Sys A fd p r).0 ∙ omega (arith, live))

    pub err_free_regcmd_case :
        (bos : Buffers) (ret : ℤ) (p : Process (Kernel.State Sys))
        → 1 ≤ bos.regcmd.map_addr
        → holds Sys A p r ≡ n + one (descriptor (pos fd)) r + held fd bos.regcmd r
        → Returned r n (err_free_regcmd Sys (record { fd = pos fd }) bos ret p)
    unfolding err_free_regcmd
    err_free_regcmd_case bos ret p addr live =
        err_close_case ret _ (destroy_case fd bos.regcmd p r _ addr live)

    pub err_free_input_case :
        (bos : Buffers) (ret : ℤ) (p : Process (Kernel.State Sys))
        → 1 ≤ bos.regcmd.map_addr
        → 1 ≤ bos.input.map_addr
        → holds Sys A p r
          ≡ n + one (descriptor (pos fd)) r + held fd bos.regcmd r + held fd bos.input r
        → Returned r n (err_free_input Sys (record { fd = pos fd }) bos ret p)
    unfolding err_free_input
    err_free_input_case bos ret p addr addr' live =
        err_free_regcmd_case bos ret _ addr (destroy_case fd bos.input p r _ addr' live)

    pub err_free_weights_case :
        (bos : Buffers) (ret : ℤ) (p : Process (Kernel.State Sys))
        → 1 ≤ bos.regcmd.map_addr
        → 1 ≤ bos.input.map_addr
        → 1 ≤ bos.weights.map_addr
        → holds Sys A p r
          ≡ n
            + one (descriptor (pos fd)) r
            + held fd bos.regcmd r
            + held fd bos.input r
            + held fd bos.weights r
        → Returned r n (err_free_weights Sys (record { fd = pos fd }) bos ret p)
    unfolding err_free_weights
    err_free_weights_case bos ret p addr addr' addr'' live =
        err_free_input_case bos ret _ addr addr' (destroy_case fd bos.weights p r _ addr'' live)

    -- All buffers are there.
    abbrev pub AllHeld : Buffers → Process (Kernel.State Sys) → Type 0
    AllHeld bos p =
        (1 ≤ bos.regcmd.map_addr)
        × (1 ≤ bos.input.map_addr)
        × (1 ≤ bos.weights.map_addr)
        × (1 ≤ bos.output.map_addr)
        × (holds Sys A p r
            ≡ n
              + one (descriptor (pos fd)) r
              + held fd bos.regcmd r
              + held fd bos.input r
              + held fd bos.weights r
              + held fd bos.output r)

    pub err_free_output_case :
        (bos : Buffers) (ret : ℤ) (p : Process (Kernel.State Sys))
        → AllHeld bos p
        → Returned r n (err_free_output Sys (record { fd = pos fd }) bos ret p)
    unfolding err_free_output
    err_free_output_case bos ret p (addr, addr', addr'', addr''', live) =
        err_free_weights_case bos ret _ addr addr' addr''
          (destroy_case fd bos.output p r _ addr''' live)

    pub create :
        (size : ℕ) (p : Process (Kernel.State Sys)) (total : ℕ)
        → holds Sys A p r ≡ total
        → Created Sys A
            (record { fd = pos fd })
            size
            r
            total
            (rocket_bo_create Sys (record { fd = pos fd }) unset size p)
    create size p total live =
        subst
          (λ t.
            Created Sys A (record { fd = pos fd }) size r t
              (rocket_bo_create Sys (record { fd = pos fd }) unset size p))
          live (rocket_bo_create_balance Sys A (record { fd = pos fd }) unset size p r)
