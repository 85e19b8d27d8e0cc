-- ===== src/Device/Calls.antt =====
-- The functions of src/rocket_interface.c. A function that writes through its `ctx` or `bo` returns
-- the new structure. `perror` only prints.
use librocket.Prelude.{ℕ, List, [], ◌∷◌, map, length, Option, none, some, ◌==◌, if◌then◌else◌, u32}
use librocket.Prelude.Int.{ℤ, pos, negsuc, neg, is_negative}
use librocket.Device.Kernel.{Reply, done, failed, accel0, accel1, CreateBo, RocketSubmit, Kernel}

-- `struct rocket_ctx`
pub record Ctx : Type 0 where
  pub fd : ℤ

-- `struct rocket_bo`; `map` 0 is NULL.
pub record Bo : Type 0 where
  pub fd : ℤ
  pub handle : ℕ
  pub dma_addr : ℕ
  pub size : ℕ
  pub map_addr : ℕ

-- The state of the system and the process's `errno`.
pub record Process (S : Type 0) : Type 0 where
  pub kernel : S
  pub errno : ℕ

abbrev pub M : Type 0 → Type 0 → Type 0
M S A = Process S → A × Process S

abbrev pub errno_after : {A : Type 0} → Reply A → ℕ → ℕ
errno_after (done a) e = e
errno_after (failed e') e = e'

module _ {S : Type 0} where
  abbrev pub pure : {A : Type 0} → A → M S A
  pure a p = (a, p)

  infixl 5 ◌>>=◌ ◌>>◌
  abbrev pub ◌>>=◌ : {A B : Type 0} → M S A → (A → M S B) → M S B
  ◌>>=◌ m f p = f (m p).0 (m p).1

  abbrev pub ◌>>◌ : {B : Type 0} → M S (Unit {0}) → M S B → M S B
  m >> k = m >>= λ _. k

  -- A system call, which sets `errno` where it fails.
  unfoldable pub sys : {A : Type 0} → (S → Reply A × S) → M S (Reply A)
  sys call p =
      let r = call p.kernel in (r.0, record { kernel = r.1; errno = errno_after r.0 p.errno })

  -- A call whose result is not read and that cannot fail, or whose failure nothing sees.
  unfoldable pub effect : (S → S) → M S (Unit {0})
  effect call p = (tt, record p { kernel = call p.kernel })

  -- `return -errno`
  unfoldable pub minus_errno : M S ℤ
  minus_errno p = (neg p.errno, p)

-- The `int` that `open` returns.
abbrev pub int_of : Reply ℕ → ℤ
int_of (done fd) = pos fd
int_of (failed e) = negsuc 0

module _ (K : Kernel) where
  open K use {
    State, einval, enomem, open_node, close_fd, create_bo, gem_close, prep_bo, fini_bo, submit_jobs,
    mmap, munmap, calloc, free,
  }

  -- The second attempt, and the test of the result.
  unfoldable pub open_second : Reply ℕ → M State (Reply ℕ)
  unfolding sys
  open_second (done fd) = pure (done fd)
  open_second (failed e) = sys (open_node accel1)

  unfoldable pub open_result : Reply ℕ → M State (ℤ × Option Ctx)
  unfolding minus_errno
  open_result (done fd) = pure (pos 0, some (record { fd = pos fd }))
  open_result (failed e) = do code ← minus_errno; pure (code, some (record { fd = negsuc 0 }))

  -- `none` is a NULL pointer.
  unfoldable pub rocket_open : Option Ctx → M State (ℤ × Option Ctx)
  unfolding sys open_second open_result
  rocket_open none = pure (neg einval, none)
  rocket_open (some ctx) = do
    first ← sys (open_node accel0)
    second ← open_second first
    open_result second

  unfoldable pub rocket_close : Ctx → M State Ctx
  unfolding effect
  rocket_close ctx =
      if is_negative ctx.fd
      then pure ctx
      else do effect (close_fd ctx.fd); pure (record { fd = negsuc 0 })

  -- What follows the mmap.
  unfoldable pub create_mapped : Ctx → Bo → Reply ℕ → M State (ℤ × Bo)
  unfolding sys minus_errno
  create_mapped ctx bo (done addr) = pure (pos 0, record bo { map_addr = addr })
  create_mapped ctx bo (failed e) = do
    closed ← sys (gem_close ctx.fd bo.handle)
    code ← minus_errno
    pure (code, record bo { map_addr = 0 })

  -- What follows the ioctl DRM_IOCTL_ROCKET_CREATE_BO.
  unfoldable pub create_made : Ctx → Bo → ℕ → Reply CreateBo → M State (ℤ × Bo)
  unfolding sys minus_errno create_mapped
  create_made ctx bo size (failed e) = do code ← minus_errno; pure (code, bo)
  create_made ctx bo size (done c) = do
    mapped ← sys (mmap size ctx.fd c.offset)
    create_mapped ctx
        (record {
          fd = ctx.fd;
          handle = c.handle;
          dma_addr = c.dma_address;
          size = size;
          map_addr = 0;
        })
        mapped

  -- The request's `size` is a __u32.
  unfoldable pub rocket_bo_create : Ctx → Bo → ℕ → M State (ℤ × Bo)
  unfolding sys create_made
  rocket_bo_create ctx bo size = do
    made ← sys (create_bo ctx.fd (u32 size))
    create_made ctx bo size made

  unfoldable pub rocket_bo_unmap : Bo → M State Bo
  unfolding effect
  rocket_bo_unmap bo =
      if bo.map_addr == 0
      then pure bo
      else do effect (munmap bo.map_addr bo.size); pure (record bo { map_addr = 0 })

  unfoldable pub rocket_bo_destroy : Ctx → Bo → M State Bo
  unfolding sys rocket_bo_unmap
  rocket_bo_destroy ctx bo = do
    unmapped ← (if bo.map_addr == 0 then pure bo else rocket_bo_unmap bo)
    closed ← sys (gem_close ctx.fd bo.handle)
    pure (record unmapped { handle = 0; dma_addr = 0; size = 0 })

  unfoldable pub rocket_bo_map : Ctx → Bo → M State ℕ
  rocket_bo_map ctx bo = pure bo.map_addr

  -- `if (ret < 0) return -errno; return 0;`
  unfoldable pub status : Reply (Unit {0}) → M State ℤ
  unfolding minus_errno
  status (done u) = pure (pos 0)
  status (failed e) = minus_errno

  unfoldable pub rocket_bo_prep : Ctx → Bo → ℤ → M State ℤ
  unfolding sys status
  rocket_bo_prep ctx bo timeout_ns = do ret ← sys (prep_bo ctx.fd bo.handle timeout_ns); status ret

  unfoldable pub rocket_bo_fini : Ctx → Bo → M State ℤ
  unfolding sys status
  rocket_bo_fini ctx bo = do ret ← sys (fini_bo ctx.fd bo.handle); status ret

  -- The array for the handles of `count` buffers: NULL for none of them; `none` where calloc fails.
  unfoldable pub handle_array : ℕ → M State (Option ℕ)
  handle_array count p =
      let r = calloc count 4 p.kernel in
      if count == 0
      then (some 0, p)
      else ((if r.0 == 0 then none else some r.0), record p { kernel = r.1 })

  -- The job: one task, whose DMA address is cut to a __u32.
  unfoldable pub job_of : Bo → ℕ → List Bo → List Bo → RocketSubmit
  job_of regcmd_bo regcmd_count in_bos out_bos = record {
    jobs =
        record {
          tasks = record { regcmd = u32 regcmd_bo.dma_addr; regcmd_count = regcmd_count } ∷ [];
          in_bo_handles = map Bo.handle in_bos;
          out_bo_handles = map Bo.handle out_bos;
          task_count = 1;
          in_bo_handle_count = length in_bos;
          out_bo_handle_count = length out_bos;
        }
        ∷ [];
    job_count = 1;
  }

  -- What follows the second allocation.
  unfoldable pub submit_allocated : Ctx → RocketSubmit → ℕ → Option ℕ → M State ℤ
  unfolding sys effect status
  submit_allocated ctx submit in_handles none = do effect (free in_handles); pure (neg enomem)
  submit_allocated ctx submit in_handles (some out_handles) = do
    ret ← sys (submit_jobs ctx.fd submit)
    effect (free in_handles)
    effect (free out_handles)
    status ret

  -- What follows the first allocation.
  unfoldable pub submit_second : Ctx → RocketSubmit → ℕ → Option ℕ → M State ℤ
  unfolding handle_array submit_allocated
  submit_second ctx submit out_count none = pure (neg enomem)
  submit_second ctx submit out_count (some in_handles) = do
    out_handles ← handle_array out_count
    submit_allocated ctx submit in_handles out_handles

  -- Each list is an array of buffer objects with its count.
  unfoldable pub rocket_submit : Ctx → Bo → ℕ → List Bo → List Bo → M State ℤ
  unfolding handle_array submit_second job_of
  rocket_submit ctx regcmd_bo regcmd_count in_bos out_bos = do
    in_handles ← handle_array (length in_bos)
    submit_second ctx (job_of regcmd_bo regcmd_count in_bos out_bos) (length out_bos) in_handles
