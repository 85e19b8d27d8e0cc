-- ===== src/Device/Accounting.antt =====
-- What the process holds before and after each call of src/rocket_interface.c: nothing is leaked,
-- and nothing is given back twice, on any path.
pub mod Buffers
pub mod Jobs
pub mod Ownership
use librocket.Prelude.{
  ℕ, suc, ◌+◌, ◌-◌, ◌≤◌, ◌<◌, ◌≡◌, ◌≢◌, ◌⊎◌, inl, inr, refl, ap, sym, ◌∙◌, arith, List, Option,
  none, some, ◌==◌, if◌then◌else◌,
}
use librocket.Prelude.Int.{ℤ, pos, negsuc, neg}
use librocket.Device.Kernel.{
  Reply, done, failed, Node, accel0, accel1, Resource, descriptor, one, given, HasErrno, Kernel,
  Accounts,
}
use librocket.Device.Calls.{
  Ctx, Process, sys, effect, minus_errno, errno_after, open_second, open_result, rocket_open,
  rocket_close,
}

-- A negative error code.
abbrev pub IsError : ℤ → Type 0
IsError code = (e : ℕ) × (code ≡ negsuc e)

pub neg-IsError : (n : ℕ) → 1 ≤ n → IsError (neg n)
neg-IsError n h = (n - 1, ground arith)

pub errno_after_pos :
    {A : Type 0} (reply : Reply A) (e : ℕ) → HasErrno reply → 1 ≤ e → 1 ≤ errno_after reply e
errno_after_pos (done a) e h p = p
errno_after_pos (failed e') e h p = h

pub errno_twice :
    {A : Type 0} (reply : Reply A) (e : ℕ)
    → errno_after reply e ≡ errno_after reply (errno_after reply e)
errno_twice (done a) e = refl
errno_twice (failed e') e = refl

module _ (K : Kernel) (A : Accounts K) where
  abbrev pub holds : Process (Kernel.State K) → Resource → ℕ
  holds p r = Accounts.live A p.kernel r

  -- The two ways in which `rocket_open` may end, for a process that held `n` of the resource `r`:
  -- with one more device descriptor, which is in the context, or with an error code and nothing
  -- more.
  abbrev pub Opened : Resource → ℕ → (ℤ × Option Ctx) × Process (Kernel.State K) → Type 0
  Opened r n out =
      ((fd : ℕ) × (out.0 ≡ (pos 0, some (record { fd = pos fd })))
        × (holds out.1 r ≡ n + one (descriptor (pos fd)) r))
      ⊎ (IsError out.0.0 × (holds out.1 r ≡ n))

  open_result_case :
      (reply : Reply ℕ) (p : Process (Kernel.State K)) (r : Resource) (n : ℕ)
      → HasErrno reply
      → p.errno ≡ errno_after reply p.errno
      → holds p r ≡ n + given (λ fd. descriptor (pos fd)) reply r
      → Opened r n (open_result K reply p)
  unfolding open_result given
  open_result_case (done fd) p r n h e live = inl (fd, refl, live)
  open_result_case (failed e') p r n h e live = inr (neg-IsError p.errno (omega arith), omega arith)

  pub errno_sys :
      {B : Type 0} (call : Kernel.State K → Reply B × Kernel.State K) (p : Process (Kernel.State K))
      → (sys call p).1.errno ≡ errno_after (sys call p).0 (sys call p).1.errno
  unfolding sys
  errno_sys call p = errno_twice (call p.kernel).0 p.errno

  open_second_case :
      (reply : Reply ℕ) (p : Process (Kernel.State K)) (r : Resource) (n : ℕ)
      → HasErrno reply
      → p.errno ≡ errno_after reply p.errno
      → holds p r ≡ n + given (λ fd. descriptor (pos fd)) reply r
      → Opened r n (open_result K (open_second K reply p).0 (open_second K reply p).1)
  unfolding open_second given
  open_second_case (done fd) p r n h e live = open_result_case (done fd) p r n h e live
  open_second_case (failed e') p r n h e live =
      open_result_case (sys (Kernel.open_node K accel1) p).0 (sys (Kernel.open_node K accel1) p).1 r
        n (unfold sys in Accounts.open_errno A accel1 p.kernel)
        (errno_sys (Kernel.open_node K accel1) p)
        (unfold sys in (Accounts.open_live A accel1 p.kernel r ∙ omega arith))

  -- On a system that behaves as `Accounts` says, `rocket_open` returns 0 with one device descriptor
  -- more, which is in the context, or a negative code with nothing more, whichever of the two
  -- device files opens.
  pub rocket_open_balance :
      (ctx : Ctx) (p : Process (Kernel.State K)) (r : Resource)
      → Opened r (holds p r) (rocket_open K (some ctx) p)
  unfolding rocket_open
  rocket_open_balance ctx p r =
      open_second_case (sys (Kernel.open_node K accel0) p).0 (sys (Kernel.open_node K accel0) p).1 r
        (holds p r) (unfold sys in Accounts.open_errno A accel0 p.kernel)
        (errno_sys (Kernel.open_node K accel0) p)
        (unfold sys in Accounts.open_live A accel0 p.kernel r)

  -- On a system that behaves as `Accounts` says, closing the device gives its descriptor back and
  -- leaves -1 in the context; closing it again does nothing at all.
  pub rocket_close_balance :
      (fd : ℕ) (p : Process (Kernel.State K)) (r : Resource)
      → let once = rocket_close K (record { fd = pos fd }) p in
        (holds once.1 r ≡ holds p r - one (descriptor (pos fd)) r)
        × (once.0.fd ≡ negsuc 0)
        × (rocket_close K once.0 once.1 ≡ once)
  unfolding rocket_close
  rocket_close_balance fd p r = (Accounts.close_live A (pos fd) p.kernel r, refl, refl)
