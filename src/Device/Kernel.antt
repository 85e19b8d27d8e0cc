-- ===== src/Device/Kernel.antt =====
-- What the library asks of the system: open, close, the ioctls of the Rocket driver, mmap, munmap,
-- calloc and free. They are the parameter of the model.
use librocket.Prelude.{ℕ, ◌+◌, ◌-◌, ◌≤◌, ◌≡◌, Bool, false, ◌&&◌, ◌==◌, if◌then◌else◌, List}
use librocket.Prelude.Int.{ℤ, pos, negsuc}

-- What a system call returns: a result, or -1 with the new `errno`.
pub data Reply (A : Type 0) : Type 0 where
  done : A → Reply A
  failed : (errno : ℕ) → Reply A

-- The device files that `rocket_open` tries.
pub data Node : Type 0 where
  accel0 accel1 : Node

-- The outputs of `struct drm_rocket_create_bo`; `size` is its input.
pub record CreateBo : Type 0 where
  pub handle : ℕ
  pub dma_address : ℕ
  pub offset : ℕ

-- `struct drm_rocket_task`
pub record RocketTask : Type 0 where
  pub regcmd : ℕ
  pub regcmd_count : ℕ

-- `struct drm_rocket_job`, with the arrays that its pointers lead to.
pub record RocketJob : Type 0 where
  pub tasks : List RocketTask
  pub in_bo_handles : List ℕ
  pub out_bo_handles : List ℕ
  pub task_count : ℕ
  pub in_bo_handle_count : ℕ
  pub out_bo_handle_count : ℕ

-- `struct drm_rocket_submit`, with the array that its pointer leads to.
pub record RocketSubmit : Type 0 where
  pub jobs : List RocketJob
  pub job_count : ℕ

-- Addresses are numbers, and 0 is NULL.
pub record Kernel : Type 1 where
  pub State : Type 0
  pub einval : ℕ
  pub enomem : ℕ
  pub open_node : Node → State → Reply ℕ × State
  pub close_fd : ℤ → State → State
  pub create_bo : (fd : ℤ) (size : ℕ) → State → Reply CreateBo × State
  pub gem_close : (fd : ℤ) (handle : ℕ) → State → Reply (Unit {0}) × State
  pub prep_bo : (fd : ℤ) (handle : ℕ) (timeout_ns : ℤ) → State → Reply (Unit {0}) × State
  pub fini_bo : (fd : ℤ) (handle : ℕ) → State → Reply (Unit {0}) × State
  pub submit_jobs : (fd : ℤ) → RocketSubmit → State → Reply (Unit {0}) × State
  pub mmap : (size : ℕ) (fd : ℤ) (offset : ℕ) → State → Reply ℕ × State
  pub munmap : (addr size : ℕ) → State → State
  pub calloc : (count size : ℕ) → State → ℕ × State
  pub free : (addr : ℕ) → State → State

-- What a process can hold.
pub data Resource : Type 0 where
  descriptor : (fd : ℤ) → Resource
  gem_handle : (fd : ℤ) (handle : ℕ) → Resource
  mapping : (addr size : ℕ) → Resource
  block : (addr : ℕ) → Resource

abbrev pub same_int : ℤ → ℤ → Bool
same_int (pos a) (pos b) = a == b
same_int (negsuc a) (negsuc b) = a == b
same_int _ _ = false

unfoldable pub same : Resource → Resource → Bool
same (descriptor a) (descriptor b) = same_int a b
same (gem_handle a h) (gem_handle b k) = same_int a b && h == k
same (mapping a m) (mapping b n) = a == b && m == n
same (block a) (block b) = a == b
same _ _ = false

-- One of `x`, as a count of each resource.
unfoldable pub one : Resource → Resource → ℕ
one x r = if same x r then 1 else 0

-- What a reply hands over.
unfoldable pub given : {A : Type 0} → (A → Resource) → Reply A → Resource → ℕ
given what (done a) r = one (what a) r
given what (failed e) r = 0

abbrev pub HasErrno : {A : Type 0} → Reply A → Type 0
HasErrno (done a) = Unit
HasErrno (failed e) = 1 ≤ e

-- A mapping is not at NULL.
abbrev pub HasAddr : Reply ℕ → Type 0
HasAddr (done a) = 1 ≤ a
HasAddr (failed e) = Unit

module _ (K : Kernel) where
  open K use {
    State, einval, enomem, open_node, close_fd, create_bo, gem_close, prep_bo, fini_bo, submit_jobs,
    mmap, munmap, calloc, free,
  }

  -- The documented behaviour that the accounting relies on: how many of each resource the process
  -- holds after a call, that a failure sets `errno`, and that a mapping is not at NULL. Closing or
  -- unmapping what is not held changes nothing, and `free(NULL)` does nothing.
  pub record Accounts : Type 0 where
    pub live : State → Resource → ℕ
    pub einval_pos : 1 ≤ einval
    pub enomem_pos : 1 ≤ enomem
    pub open_live :
        (n : Node) (s : State) (r : Resource)
        → live (open_node n s).1 r
          ≡ live s r + given (λ fd. descriptor (pos fd)) (open_node n s).0 r
    pub open_errno : (n : Node) (s : State) → HasErrno (open_node n s).0
    pub close_live :
        (fd : ℤ) (s : State) (r : Resource)
        → live (close_fd fd s) r ≡ live s r - one (descriptor fd) r
    pub create_live :
        (fd : ℤ) (size : ℕ) (s : State) (r : Resource)
        → live (create_bo fd size s).1 r
          ≡ live s r + given (λ c. gem_handle fd (CreateBo.handle c)) (create_bo fd size s).0 r
    pub create_errno : (fd : ℤ) (size : ℕ) (s : State) → HasErrno (create_bo fd size s).0
    pub gem_close_live :
        (fd : ℤ) (h : ℕ) (s : State) (r : Resource)
        → live (gem_close fd h s).1 r ≡ live s r - one (gem_handle fd h) r
    pub gem_close_errno : (fd : ℤ) (h : ℕ) (s : State) → HasErrno (gem_close fd h s).0
    pub prep_live :
        (fd : ℤ) (h : ℕ) (t : ℤ) (s : State) (r : Resource) → live (prep_bo fd h t s).1 r ≡ live s r
    pub prep_errno : (fd : ℤ) (h : ℕ) (t : ℤ) (s : State) → HasErrno (prep_bo fd h t s).0
    pub fini_live :
        (fd : ℤ) (h : ℕ) (s : State) (r : Resource) → live (fini_bo fd h s).1 r ≡ live s r
    pub fini_errno : (fd : ℤ) (h : ℕ) (s : State) → HasErrno (fini_bo fd h s).0
    pub submit_live :
        (fd : ℤ) (j : RocketSubmit) (s : State) (r : Resource)
        → live (submit_jobs fd j s).1 r ≡ live s r
    pub submit_errno : (fd : ℤ) (j : RocketSubmit) (s : State) → HasErrno (submit_jobs fd j s).0
    pub mmap_live :
        (size : ℕ) (fd : ℤ) (o : ℕ) (s : State) (r : Resource)
        → live (mmap size fd o s).1 r
          ≡ live s r + given (λ a. mapping a size) (mmap size fd o s).0 r
    pub mmap_errno : (size : ℕ) (fd : ℤ) (o : ℕ) (s : State) → HasErrno (mmap size fd o s).0
    pub mmap_addr : (size : ℕ) (fd : ℤ) (o : ℕ) (s : State) → HasAddr (mmap size fd o s).0
    pub munmap_live :
        (a size : ℕ) (s : State) (r : Resource)
        → live (munmap a size s) r ≡ live s r - one (mapping a size) r
    pub calloc_live :
        (n size : ℕ) (s : State) (r : Resource)
        → live (calloc n size s).1 r
          ≡ live s r + (if (calloc n size s).0 == 0 then 0 else one (block (calloc n size s).0) r)
    pub free_live :
        (a : ℕ) (s : State) (r : Resource)
        → live (free a s) r ≡ live s r - (if a == 0 then 0 else one (block a) r)
