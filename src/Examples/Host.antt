-- ===== src/Examples/Host.antt =====
-- A host for the calls of src/rocket_interface.c, and runs on it. Its first device file is missing,
-- and its other calls succeed, or those behind the creation of a buffer object fail.
use librocket.Prelude.{
  ℕ, ◌≡◌, ◌+◌, ◌-◌, Bool, true, false, refl, arith, [], ◌∷◌, some, ◌==◌, if◌then◌else◌,
}
use librocket.Prelude.Int.{ℤ, pos, negsuc}
use librocket.Prelude.{List}
use librocket.Prelude.Loops.{filled, length-filled}
use librocket.Driver.Matmul.Main.{main}
use librocket.Driver.Matmul.Linked.{npu, mesa}
use librocket.Driver.Matmul.Cleanup.{Returned}
use librocket.Driver.Matmul.Returns.{matmul_test_balance}
use librocket.Examples.Data.{whole}
use librocket.Driver.Minimal.{minimal_npu_test, minimal_mesa_test, test_cna_enable}
use librocket.Driver.Minimal.Balance.{Finished, minimal_tests_balance}
use librocket.Device.Kernel.{
  Reply, done, failed, Node, accel0, accel1, Resource, CreateBo, HasErrno, HasAddr, descriptor,
  gem_handle, mapping, block, one, given, Kernel, Accounts,
}
use librocket.Device.Calls.{
  Ctx, Bo, Process, rocket_open, rocket_close, rocket_bo_create, rocket_bo_destroy, rocket_submit,
  sys, create_made, create_mapped,
}
use librocket.Device.Accounting.{Opened, holds, rocket_open_balance, rocket_close_balance}
use librocket.Device.Accounting.Buffers.{
  Created, rocket_bo_create_balance, rocket_bo_destroy_balance, create_destroy,
}
use librocket.Device.Accounting.Jobs.{Ended, rocket_submit_balance}

abbrev opened : Node → (Resource → ℕ) → Reply ℕ × (Resource → ℕ)
opened accel0 s = (failed 2, s)
opened accel1 s = (done 3, λ r. s r + one (descriptor (pos 3)) r)

abbrev mapped : Bool → ℕ → (Resource → ℕ) → Reply ℕ × (Resource → ℕ)
mapped true size s = (done 0x7000, λ r. s r + one (mapping 0x7000 size) r)
mapped false size s = (failed 12, s)

abbrev made : Reply CreateBo
made = done (record { handle = 1; dma_address = 0x1000; offset = 0 })

abbrev submitted : Bool → Reply (Unit {0})
submitted true = done tt
submitted false = failed 5

-- The state counts what the process holds. The flag lets `mmap` and the job submission succeed.
abbrev pub host : Bool → Kernel
host ok = record {
  State = Resource → ℕ;
  einval = 22;
  enomem = 12;
  open_node = λ n s. opened n s;
  close_fd = λ fd s r. s r - one (descriptor fd) r;
  create_bo = λ fd size s. (made, λ r. s r + one (gem_handle fd 1) r);
  gem_close = λ fd h s. (done tt, λ r. s r - one (gem_handle fd h) r);
  prep_bo = λ fd h t s. (done tt, s);
  fini_bo = λ fd h s. (done tt, s);
  submit_jobs = λ fd j s. (submitted ok, s);
  mmap = λ size fd o s. mapped ok size s;
  munmap = λ a size s r. s r - one (mapping a size) r;
  calloc = λ n size s. (0x5000, λ r. s r + one (block 0x5000) r);
  free = λ a s r. s r - (if a == 0 then 0 else one (block a) r);
}

mapped_live :
    (ok : Bool) (size : ℕ) (s : Resource → ℕ) (r : Resource)
    → (mapped ok size s).1 r ≡ s r + given (λ a. mapping a size) (mapped ok size s).0 r
unfolding given
mapped_live true size s r = refl
mapped_live false size s r = omega arith

opened_live :
    (n : Node) (s : Resource → ℕ) (r : Resource)
    → (opened n s).1 r ≡ s r + given (λ fd. descriptor (pos fd)) (opened n s).0 r
unfolding given
opened_live accel0 s r = omega arith
opened_live accel1 s r = refl

made_live :
    (fd : ℤ) (s : Resource → ℕ) (r : Resource)
    → s r + one (gem_handle fd 1) r ≡ s r + given (λ c. gem_handle fd (CreateBo.handle c)) made r
unfolding given
made_live fd s r = refl

opened-HasErrno : (n : Node) (s : Resource → ℕ) → HasErrno (opened n s).0
opened-HasErrno accel0 s = omega arith
opened-HasErrno accel1 s = tt

submitted-HasErrno : (ok : Bool) → HasErrno (submitted ok)
submitted-HasErrno true = tt
submitted-HasErrno false = omega arith

mapped-HasErrno : (ok : Bool) (size : ℕ) (s : Resource → ℕ) → HasErrno (mapped ok size s).0
mapped-HasErrno true size s = tt
mapped-HasErrno false size s = omega arith

mapped-HasAddr : (ok : Bool) (size : ℕ) (s : Resource → ℕ) → HasAddr (mapped ok size s).0
mapped-HasAddr true size s = omega arith
mapped-HasAddr false size s = tt

abbrev host-Accounts : (ok : Bool) → Accounts (host ok)
host-Accounts ok = record {
  live = λ s r. s r;
  einval_pos = omega arith;
  enomem_pos = omega arith;
  open_live = opened_live;
  open_errno = opened-HasErrno;
  close_live = λ fd s r. refl;
  create_live = λ fd size s r. made_live fd s r;
  create_errno = λ fd size s. tt;
  gem_close_live = λ fd h s r. refl;
  gem_close_errno = λ fd h s. tt;
  prep_live = λ fd h t s r. refl;
  prep_errno = λ fd h t s. tt;
  fini_live = λ fd h s r. refl;
  fini_errno = λ fd h s. tt;
  submit_live = λ fd j s r. refl;
  submit_errno = λ fd j s. submitted-HasErrno ok;
  mmap_live = λ size fd o s r. mapped_live ok size s r;
  mmap_errno = λ size fd o s. mapped-HasErrno ok size s;
  mmap_addr = λ size fd o s. mapped-HasAddr ok size s;
  munmap_live = λ a size s r. refl;
  calloc_live = λ n size s r. refl;
  free_live = λ a s r. refl;
}

-- A process that holds nothing.
abbrev pub fresh : Process (Resource → ℕ)
fresh = record { kernel = λ r. 0; errno = 0 }

abbrev pub ctx : Ctx
ctx = record { fd = pos 3 }

abbrev pub empty : Bo
empty = record { fd = pos 0; handle = 0; dma_addr = 0; size = 0; map_addr = 0 }

abbrev pub buffer : Bo
buffer = record { fd = pos 3; handle = 1; dma_addr = 0x1000; size = 4096; map_addr = 0x7000 }

rocket_open_balance_example :
    Opened
      (host true)
      (host-Accounts true)
      (descriptor (pos 3))
      0
      (rocket_open (host true) (some ctx) fresh)
rocket_open_balance_example =
    rocket_open_balance (host true) (host-Accounts true) ctx fresh (descriptor (pos 3))

rocket_close_balance_example :
    let once = rocket_close (host true) ctx fresh in
    (holds (host true) (host-Accounts true) once.1 (descriptor (pos 3))
      ≡ 0 - one (descriptor (pos 3)) (descriptor (pos 3)))
    × (once.0.fd ≡ negsuc 0)
    × (rocket_close (host true) once.0 once.1 ≡ once)
rocket_close_balance_example =
    rocket_close_balance (host true) (host-Accounts true) 3 fresh (descriptor (pos 3))

rocket_bo_create_balance_example :
    Created
      (host false)
      (host-Accounts false)
      ctx
      4096
      (gem_handle (pos 3) 1)
      0
      (rocket_bo_create (host false) ctx empty 4096 fresh)
rocket_bo_create_balance_example =
    rocket_bo_create_balance (host false) (host-Accounts false) ctx empty 4096 fresh
      (gem_handle (pos 3) 1)

rocket_bo_destroy_balance_example :
    (holds
        (host true)
        (host-Accounts true)
        (rocket_bo_destroy (host true) ctx buffer fresh).1
        (block 0)
      ≡ 0 - one (mapping 0x7000 4096) (block 0) - one (gem_handle (pos 3) 1) (block 0))
    × ((rocket_bo_destroy (host true) ctx buffer fresh).0
        ≡ record { fd = pos 3; handle = 0; dma_addr = 0; size = 0; map_addr = 0 })
rocket_bo_destroy_balance_example =
    rocket_bo_destroy_balance (host true) (host-Accounts true) ctx buffer fresh (block 0)

create_destroy_example :
    let out = rocket_bo_create (host true) ctx empty 4096 fresh in
    holds
      (host true)
      (host-Accounts true)
      (rocket_bo_destroy (host true) ctx out.0.1 out.1).1
      (gem_handle (pos 3) 1)
    ≡ 0
unfolding rocket_bo_create create_made create_mapped sys
create_destroy_example =
    create_destroy (host true) (host-Accounts true) ctx empty 4096 fresh (gem_handle (pos 3) 1) refl

rocket_submit_balance_example :
    Ended
      (host false)
      (host-Accounts false)
      (block 0x5000)
      0
      (rocket_submit (host false) ctx buffer 108 (buffer ∷ []) (buffer ∷ []) fresh)
rocket_submit_balance_example =
    rocket_submit_balance (host false) (host-Accounts false) ctx buffer 108 (buffer ∷ [])
      (buffer ∷ []) fresh (block 0x5000)

minimal_tests_balance_example :
    Finished
      (host false)
      (host-Accounts false)
      (block 0x5000)
      0
      (minimal_npu_test (host false) fresh)
    × Finished
        (host false)
        (host-Accounts false)
        (block 0x5000)
        0
        (minimal_mesa_test (host false) fresh)
    × Finished
        (host false)
        (host-Accounts false)
        (block 0x5000)
        0
        (test_cna_enable (host false) fresh)
minimal_tests_balance_example =
    minimal_tests_balance (host false) (host-Accounts false) fresh (block 0x5000)

-- Matrices of ones, and an NPU that leaves zeros.
abbrev pub ones : ℕ → List ℕ
ones s = filled s 1

abbrev pub idle : ℕ → List ℕ → List ℕ → List ℕ → List ℕ
idle s regcmd input weights = filled s 0

-- One row, where the submission fails.
matmul_test_balance_example :
    Returned
      (host false)
      (host-Accounts false)
      (gem_handle (pos 3) 1)
      0
      (main (host false) whole npu idle ones ones (some (pos 1, pos 32, pos 16)) fresh)
    × Returned
        (host false)
        (host-Accounts false)
        (gem_handle (pos 3) 1)
        0
        (main (host false) whole mesa idle ones ones (some (pos 1, pos 32, pos 16)) fresh)
matmul_test_balance_example =
    matmul_test_balance whole idle ones ones (λ s. length-filled s 1) (λ s. length-filled s 1)
      (λ s regcmd input weights. length-filled s 0) (host false) (host-Accounts false)
      (some (pos 1, pos 32, pos 16)) fresh (gem_handle (pos 3) 1)
