-- ===== src/Device/Accounting/Ownership.antt =====
-- `rocket_bo_prep` and `rocket_bo_fini`: handing a buffer between the CPU and the NPU.
use librocket.Prelude.{◌∙◌}
use librocket.Prelude.Int.{ℤ}
use librocket.Device.Kernel.{Resource, Kernel, Accounts}
use librocket.Device.Calls.{Ctx, Bo, Process, sys, rocket_bo_prep, rocket_bo_fini}
use librocket.Device.Accounting.{holds, errno_sys}
use librocket.Device.Accounting.Jobs.{Ended, status_case}

module _ (K : Kernel) (A : Accounts K) where
  -- On a system that behaves as `Accounts` says, `rocket_bo_prep` returns 0 or a negative code, and
  -- the process holds afterwards what it held before.
  pub rocket_bo_prep_balance :
      (ctx : Ctx) (bo : Bo) (timeout_ns : ℤ) (p : Process (Kernel.State K)) (r : Resource)
      → Ended K A r (holds K A p r) (rocket_bo_prep K ctx bo timeout_ns p)
  unfolding rocket_bo_prep
  rocket_bo_prep_balance ctx bo timeout_ns p r =
      let call = Kernel.prep_bo K ctx.fd bo.handle timeout_ns in
      let (code, same) =
        status_case K A (sys call p).0 (sys call p).1 r
          (unfold sys in Accounts.prep_errno A ctx.fd bo.handle timeout_ns p.kernel)
          (errno_sys K A call p) in
      (code, same ∙ (unfold sys in Accounts.prep_live A ctx.fd bo.handle timeout_ns p.kernel r))

  -- On a system that behaves as `Accounts` says, `rocket_bo_fini` returns 0 or a negative code, and
  -- the process holds afterwards what it held before.
  pub rocket_bo_fini_balance :
      (ctx : Ctx) (bo : Bo) (p : Process (Kernel.State K)) (r : Resource)
      → Ended K A r (holds K A p r) (rocket_bo_fini K ctx bo p)
  unfolding rocket_bo_fini
  rocket_bo_fini_balance ctx bo p r =
      let call = Kernel.fini_bo K ctx.fd bo.handle in
      let (code, same) =
        status_case K A (sys call p).0 (sys call p).1 r
          (unfold sys in Accounts.fini_errno A ctx.fd bo.handle p.kernel) (errno_sys K A call p) in
      (code, same ∙ (unfold sys in Accounts.fini_live A ctx.fd bo.handle p.kernel r))
