-- ===== src/Device/Accounting/Jobs.antt =====
-- `rocket_submit`: its temporary arrays are freed on every path, and what the kernel is asked.
use librocket.Prelude.{
  ℕ, ◌+◌, ◌≡◌, ◌⊎◌, inl, inr, refl, ◌∙◌, arith, List, length, ◌==◌, if◌then◌else◌, Option, some,
  none,
}
use librocket.Prelude.Int.{ℤ, pos}
use librocket.Device.Kernel.{
  Reply, done, failed, Resource, block, one, HasErrno, RocketSubmit, Kernel, Accounts,
}
use librocket.Device.Calls.{
  Ctx, Bo, Process, status, minus_errno, errno_after, handle_array, submit_allocated, submit_second,
  job_of, rocket_submit,
}
use librocket.Device.Accounting.{IsError, neg-IsError, holds, errno_twice}

module _ (K : Kernel) (A : Accounts K) where
  -- What an array adds to what the process holds: a block, unless it is NULL.
  abbrev array_block : ℕ → Resource → ℕ
  array_block a r = if a == 0 then 0 else one (block a) r

  abbrev array_of : Option ℕ → Resource → ℕ
  array_of none r = 0
  array_of (some a) r = array_block a r

  array_case :
      (count : ℕ) (p : Process (Kernel.State K)) (r : Resource)
      → holds K A (handle_array K count p).1 r
        ≡ holds K A p r + array_of (handle_array K count p).0 r
  unfolding handle_array
  array_case count p r = ground (arith, Accounts.calloc_live A count 4 p.kernel r)

  -- The call ends with 0 or a negative code, and the process holds `n` of the resource.
  abbrev pub Ended : Resource → ℕ → ℤ × Process (Kernel.State K) → Type 0
  Ended r n out = ((out.0 ≡ pos 0) ⊎ IsError out.0) × (holds K A out.1 r ≡ n)

  pub status_case :
      (reply : Reply (Unit {0})) (p : Process (Kernel.State K)) (r : Resource)
      → HasErrno reply
      → p.errno ≡ errno_after reply p.errno
      → Ended r (holds K A p r) (status K reply p)
  unfolding status minus_errno
  status_case (done u) p r h e = (inl refl, refl)
  status_case (failed e') p r h e = (inr (neg-IsError p.errno (omega arith)), refl)

  allocated_case :
      (ctx : Ctx) (submit : RocketSubmit) (in_handles : ℕ) (out_handles : Option ℕ)
      (p : Process (Kernel.State K)) (r : Resource) (n : ℕ)
      → holds K A p r ≡ n + array_block in_handles r + array_of out_handles r
      → Ended r n (submit_allocated K ctx submit in_handles out_handles p)
  unfolding submit_allocated
  allocated_case ctx submit in_handles none p r n live = (
    inr (neg-IsError (Kernel.enomem K) (Accounts.enomem_pos A)),
    Accounts.free_live A in_handles p.kernel r ∙ omega arith,
  )
  allocated_case ctx submit in_handles (some out_handles) p r n live =
      let reply = (Kernel.submit_jobs K ctx.fd submit p.kernel).0 in
      let submitted = (Kernel.submit_jobs K ctx.fd submit p.kernel).1 in
      let freed = Kernel.free K in_handles submitted in
      let after : Process (Kernel.State K) = record {
        kernel = Kernel.free K out_handles freed;
        errno = errno_after reply p.errno;
      } in
      let (code, same) =
        status_case reply after r (Accounts.submit_errno A ctx.fd submit p.kernel)
          (errno_twice reply p.errno) in
      (
        code,
        same
            ∙ omega (
              arith,
              Accounts.free_live A out_handles freed r,
              Accounts.free_live A in_handles submitted r,
              Accounts.submit_live A ctx.fd submit p.kernel r,
              live,
            ),
      )

  second_case :
      (ctx : Ctx) (submit : RocketSubmit) (count : ℕ) (in_handles : Option ℕ)
      (p : Process (Kernel.State K)) (r : Resource) (n : ℕ)
      → holds K A p r ≡ n + array_of in_handles r
      → Ended r n (submit_second K ctx submit count in_handles p)
  unfolding submit_second
  second_case ctx submit count none p r n live =
      (inr (neg-IsError (Kernel.enomem K) (Accounts.enomem_pos A)), omega (arith, live))
  second_case ctx submit count (some in_handles) p r n live =
      allocated_case ctx submit in_handles (handle_array K count p).0 (handle_array K count p).1 r n
        (omega (arith, array_case count p r, live))

  -- On a system that behaves as `Accounts` says, `rocket_submit` returns 0 or a negative code, and
  -- on every path, both failures of calloc included, the process holds afterwards what it held
  -- before: the temporary arrays are freed.
  pub rocket_submit_balance :
      (ctx : Ctx) (regcmd_bo : Bo) (regcmd_count : ℕ) (in_bos out_bos : List Bo)
      (p : Process (Kernel.State K)) (r : Resource)
      → Ended r (holds K A p r) (rocket_submit K ctx regcmd_bo regcmd_count in_bos out_bos p)
  unfolding rocket_submit
  rocket_submit_balance ctx regcmd_bo regcmd_count in_bos out_bos p r =
      second_case ctx (job_of K regcmd_bo regcmd_count in_bos out_bos) (length out_bos)
        (handle_array K (length in_bos) p).0 (handle_array K (length in_bos) p).1 r (holds K A p r)
        (array_case (length in_bos) p r)
