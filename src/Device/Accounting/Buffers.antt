-- ===== src/Device/Accounting/Buffers.antt =====
-- Buffer objects: what `rocket_bo_create` takes, `rocket_bo_destroy` gives back.
use librocket.Prelude.{
  ℕ, ◌+◌, ◌-◌, ◌≤◌, ◌≡◌, ◌⊎◌, inl, inr, refl, ap, ◌∙◌, arith, ◌==◌, if◌then◌else◌, u32, true,
  Bool-cases,
}
use librocket.Prelude.Int.{ℤ, pos}
use librocket.Device.Kernel.{
  Reply, done, failed, Resource, gem_handle, mapping, one, given, HasErrno, HasAddr, CreateBo,
  Kernel, Accounts,
}
use librocket.Device.Calls.{
  Ctx, Bo, Process, sys, errno_after, create_mapped, create_made, rocket_bo_create, rocket_bo_unmap,
  rocket_bo_destroy,
}
use librocket.Device.Accounting.{IsError, neg-IsError, errno_after_pos, holds, errno_sys}

is_zero : (n : ℕ) → (n == 0) ≡ true → n ≡ 0
is_zero n h = ground arith

module _ (K : Kernel) (A : Accounts K) where
  -- The two ways in which `rocket_bo_create` may end, for a process that held `n` of the resource
  -- `r`: with the handle and the mapping that stand in the buffer object, or with an error code and
  -- nothing more.
  abbrev pub Created : Ctx → ℕ → Resource → ℕ → (ℤ × Bo) × Process (Kernel.State K) → Type 0
  Created ctx size r n out =
      ((out.0.0 ≡ pos 0)
        × (out.0.1.size ≡ size)
        × (1 ≤ out.0.1.map_addr)
        × (holds K A out.1 r
            ≡ n + one (gem_handle ctx.fd out.0.1.handle) r + one (mapping out.0.1.map_addr size) r))
      ⊎ (IsError out.0.0 × (holds K A out.1 r ≡ n))

  mapped_case :
      (ctx : Ctx) (bo : Bo) (reply : Reply ℕ) (p : Process (Kernel.State K)) (r : Resource) (n : ℕ)
      → HasErrno reply
      → HasAddr reply
      → p.errno ≡ errno_after reply p.errno
      → holds K A p r
        ≡ n + one (gem_handle ctx.fd bo.handle) r + given (λ a. mapping a bo.size) reply r
      → Created ctx bo.size r n (create_mapped K ctx bo reply p)
  unfolding create_mapped given
  mapped_case ctx bo (done addr) p r n h a e live = inl (refl, refl, a, live)
  mapped_case ctx bo (failed e') p r n h a e live = inr (
    neg-IsError _ (
        errno_after_pos (Kernel.gem_close K ctx.fd bo.handle p.kernel).0 p.errno
          (Accounts.gem_close_errno A ctx.fd bo.handle p.kernel) (omega arith)),
    Accounts.gem_close_live A ctx.fd bo.handle p.kernel r ∙ omega arith,
  )

  made_case :
      (ctx : Ctx) (bo : Bo) (size : ℕ) (reply : Reply CreateBo) (p : Process (Kernel.State K))
      (r : Resource) (n : ℕ)
      → HasErrno reply
      → p.errno ≡ errno_after reply p.errno
      → holds K A p r ≡ n + given (λ c. gem_handle ctx.fd (CreateBo.handle c)) reply r
      → Created ctx size r n (create_made K ctx bo size reply p)
  unfolding create_made given
  made_case ctx bo size (failed e') p r n h e live =
      inr (neg-IsError p.errno (omega arith), omega arith)
  made_case ctx bo size (done c) p r n h e live =
      mapped_case ctx
        (record {
          fd = ctx.fd;
          handle = c.handle;
          dma_addr = c.dma_address;
          size = size;
          map_addr = 0;
        })
        (sys (Kernel.mmap K size ctx.fd c.offset) p).0
        (sys (Kernel.mmap K size ctx.fd c.offset) p).1 r n
        (unfold sys in Accounts.mmap_errno A size ctx.fd c.offset p.kernel)
        (unfold sys in Accounts.mmap_addr A size ctx.fd c.offset p.kernel)
        (errno_sys K A (Kernel.mmap K size ctx.fd c.offset) p)
        (unfold sys in (Accounts.mmap_live A size ctx.fd c.offset p.kernel r ∙ omega (arith, live)))

  -- On a system that behaves as `Accounts` says, `rocket_bo_create` returns 0 with one handle and
  -- one mapping of the size asked for, which stand in the buffer object, or a negative code with
  -- nothing more: where the mapping fails, the handle is given back.
  pub rocket_bo_create_balance :
      (ctx : Ctx) (bo : Bo) (size : ℕ) (p : Process (Kernel.State K)) (r : Resource)
      → Created ctx size r (holds K A p r) (rocket_bo_create K ctx bo size p)
  unfolding rocket_bo_create
  rocket_bo_create_balance ctx bo size p r =
      made_case ctx bo size (sys (Kernel.create_bo K ctx.fd (u32 size)) p).0
        (sys (Kernel.create_bo K ctx.fd (u32 size)) p).1 r (holds K A p r)
        (unfold sys in Accounts.create_errno A ctx.fd (u32 size) p.kernel)
        (errno_sys K A (Kernel.create_bo K ctx.fd (u32 size)) p)
        (unfold sys in Accounts.create_live A ctx.fd (u32 size) p.kernel r)

  -- On a system that behaves as `Accounts` says, destroying a buffer object gives its handle back,
  -- and its mapping where it has one, and clears the object.
  pub rocket_bo_destroy_balance :
      (ctx : Ctx) (bo : Bo) (p : Process (Kernel.State K)) (r : Resource)
      → (holds K A (rocket_bo_destroy K ctx bo p).1 r
          ≡ holds K A p r
            - (if bo.map_addr == 0 then 0 else one (mapping bo.map_addr bo.size) r)
            - one (gem_handle ctx.fd bo.handle) r)
        × ((rocket_bo_destroy K ctx bo p).0
            ≡ record { fd = bo.fd; handle = 0; dma_addr = 0; size = 0; map_addr = 0 })
  unfolding rocket_bo_destroy rocket_bo_unmap
  rocket_bo_destroy_balance ctx bo p r = elim (Bool-cases (bo.map_addr == 0)) [
    | inl null ↦ rw null (
      Accounts.gem_close_live A ctx.fd bo.handle p.kernel r ∙ omega arith,
      λ i. record {
        fd = bo.fd;
        handle = 0;
        dma_addr = 0;
        size = 0;
        map_addr = is_zero bo.map_addr null i;
      },
    )
    | inr some_addr ↦ rw some_addr (
      Accounts.gem_close_live A ctx.fd bo.handle (Kernel.munmap K bo.map_addr bo.size p.kernel) r
          ∙ omega (arith, Accounts.munmap_live A bo.map_addr bo.size p.kernel r),
      refl,
    )
  ]

  -- On a system that behaves as `Accounts` says, a buffer object that was created and is then
  -- destroyed through the same context leaves the process with what it held before.
  pub create_destroy :
      (ctx : Ctx) (bo : Bo) (size : ℕ) (p : Process (Kernel.State K)) (r : Resource)
      → (rocket_bo_create K ctx bo size p).0.0 ≡ pos 0
      → let out = rocket_bo_create K ctx bo size p in
        holds K A (rocket_bo_destroy K ctx out.0.1 out.1).1 r ≡ holds K A p r
  create_destroy ctx bo size p r ok =
      let out = rocket_bo_create K ctx bo size p in
      elim (rocket_bo_create_balance ctx bo size p r) [
        | inl (_, size-eq, addr, live) ↦ ground (
          arith,
          (rocket_bo_destroy_balance ctx out.0.1 out.1 r).0,
          ap (λ (n : ℕ). one (mapping out.0.1.map_addr n) r) size-eq,
        )
        | inr ((e, code), live) ↦ cc
      ]
