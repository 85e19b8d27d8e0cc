-- ===== src/Npu/Fp16/Accept.antt =====
-- Which dimensions `gen_matmul_fp16` accepts, and what it returns for all others.
use mathlib.Core.Option
use librocket.Prelude.{
  ℕ, ◌-◌, ◌*◌, ◌≤◌, ◌<◌, ◌≡◌, sym, ap, ◌∙◌, arith, List, Option, none, some, length, drop, map,
  ◌++◌,
}
use mathlib.Core.Path.{subst}
use native.Mathlib.Decide.{dec_le, dec_lt}
use librocket.Prelude.{true, false, refl, ltb, lt→ltb, ◌^◌}
use librocket.Npu.Cbuf.{int_product}
use librocket.Prelude.Int.{ℤ, pos, negsuc}
use librocket.Npu.Hw.{encode}
use librocket.Npu.Desc.{Params, IsParams}
use librocket.Npu.Cbuf.{allocate, round_up}
use librocket.Npu.Cbuf.Outcome.{Outcome, accepted, overrun, no_data, no_weights, overflow}
use librocket.Npu.Cbuf.Banks.{allocate_accepts, allocate_no_data, allocate_no_weights}
use librocket.Npu.Task.{task_commands}
use librocket.Npu.Task.Store.{gen_matmul_task_stores, gen_matmul_task_overruns}
use librocket.Npu.Fp16.{
  weight_bytes_per_kernel, fd_bytes, cna_desc, core_desc, dpu_desc, finish, gen_matmul_fp16,
}

-- The feature data fits eleven banks of the CBUF, and the weights of one kernel fit one.
abbrev pub FitsCbuf : Params → Type 0
FitsCbuf p = (p.m * p.k * 2 ≤ 11 * 32768) × (p.k * 2 ≤ 32768)

-- The banks that the feature data takes.
abbrev pub data_banks : Params → ℕ
data_banks p = round_up 32768 (p.m * p.k * 2)

-- What the code computes is the true size, as long as `int` holds the number of elements.
fd_bytes_lem : (p : Params) → p.m * p.k < 2 ^ 31 → fd_bytes p ≡ some (p.m * p.k * 2)
unfolding fd_bytes int_product
fd_bytes_lem p fits =
    let whole : 1 * p.m * p.k ≡ p.m * p.k = omega arith in
    let held : ltb (p.m * p.k) (2 ^ 31) ≡ true = lt→ltb (p.m * p.k) (2 ^ 31) fits in
    rw (whole, held) (ap some (omega arith))

fd_bytes_overflow : (p : Params) → 2 ^ 31 ≤ p.m * p.k → fd_bytes p ≡ none
unfolding fd_bytes int_product
fd_bytes_overflow p over =
    let whole : 1 * p.m * p.k ≡ p.m * p.k = omega arith in
    let large : ltb (p.m * p.k) (2 ^ 31) ≡ false = ground arith in rw (whole, large) refl

pub kernel_bytes_lem : (p : Params) → IsParams p → weight_bytes_per_kernel p ≡ p.k * 2
unfolding weight_bytes_per_kernel
kernel_bytes_lem p v = omega arith

allocated :
    (p : Params) (tasks : List ℕ)
    → IsParams p
    → p.m * p.k < 2 ^ 31
    → gen_matmul_fp16 p tasks ≡ finish p tasks (allocate (p.m * p.k * 2) (p.k * 2))
unfolding gen_matmul_fp16 Option.bind
allocated p tasks v fits = rw (fd_bytes_lem p fits, kernel_bytes_lem p v) refl

-- The elements of data that fits are few.
few_elements : (p : Params) → p.m * p.k * 2 ≤ 11 * 32768 → p.m * p.k < 2 ^ 31
few_elements p fits = omega (arith, fits)

-- The words of the task for accepted dimensions.
abbrev pub task_words : Params → List ℕ
task_words p =
    map encode
      (task_commands (cna_desc (data_banks p) (12 - data_banks p) p) (core_desc p) (dpu_desc p))

pub gen_matmul_fp16_accepts :
    (p : Params) (tasks : List ℕ)
    → IsParams p
    → FitsCbuf p
    → 108 ≤ length tasks
    → gen_matmul_fp16 p tasks ≡ some (pos 0, task_words p ++ drop 108 tasks)
unfolding finish
gen_matmul_fp16_accepts p tasks v (fits, fits') room =
    allocated p tasks v (few_elements p fits)
    ∙ ap (finish p tasks) (allocate_accepts (p.m * p.k * 2) (p.k * 2) fits fits')
    ∙ ap (Option.map (λ written. (pos 0, written))) (
        gen_matmul_task_stores tasks (cna_desc (data_banks p) (12 - data_banks p) p) (core_desc p)
          (dpu_desc p) room)

gen_matmul_fp16_overruns :
    (p : Params) (tasks : List ℕ)
    → IsParams p
    → FitsCbuf p
    → length tasks < 108
    → gen_matmul_fp16 p tasks ≡ none
unfolding finish
gen_matmul_fp16_overruns p tasks v (fits, fits') short =
    allocated p tasks v (few_elements p fits)
    ∙ ap (finish p tasks) (allocate_accepts (p.m * p.k * 2) (p.k * 2) fits fits')
    ∙ ap (Option.map (λ written. (pos 0, written))) (
        gen_matmul_task_overruns tasks (cna_desc (data_banks p) (12 - data_banks p) p) (core_desc p)
          (dpu_desc p) short)

gen_matmul_fp16_no_data :
    (p : Params) (tasks : List ℕ)
    → IsParams p
    → p.m * p.k < 2 ^ 31
    → 360448 < p.m * p.k * 2
    → gen_matmul_fp16 p tasks ≡ some (negsuc 0, tasks)
unfolding finish
gen_matmul_fp16_no_data p tasks v held over =
    allocated p tasks v held ∙ ap (finish p tasks) (allocate_no_data (p.m * p.k * 2) (p.k * 2) over)

gen_matmul_fp16_no_weights :
    (p : Params) (tasks : List ℕ)
    → IsParams p
    → p.m * p.k < 2 ^ 31
    → p.m * p.k * 2 ≤ 360448
    → 32768 < p.k * 2
    → gen_matmul_fp16 p tasks ≡ some (negsuc 1, tasks)
unfolding finish
gen_matmul_fp16_no_weights p tasks v held fits over =
    allocated p tasks v held
    ∙ ap (finish p tasks) (allocate_no_weights (p.m * p.k * 2) (p.k * 2) fits over)

gen_matmul_fp16_overflows :
    (p : Params) (tasks : List ℕ) → 2 ^ 31 ≤ p.m * p.k → gen_matmul_fp16 p tasks ≡ none
unfolding gen_matmul_fp16 Option.bind
gen_matmul_fp16_overflows p tasks over = rw (fd_bytes_overflow p over) refl

-- Where the fields of `p` hold values of their types: the call returns 0 with the task over the
-- first 108 words only where the data fits eleven banks of the CBUF, a kernel fits one and the
-- buffer has 108 words at least; it writes beyond the end of a shorter buffer; it returns -1 only
-- where the data does not fit eleven banks, and -2 only where the data does and a kernel does not
-- fit one, and leaves the buffer as it was; and its behaviour is undefined where `int` does not
-- hold m * k.
pub gen_matmul_fp16_refines :
    (p : Params) (tasks : List ℕ)
    → IsParams p
    → Outcome (p.m * p.k) (p.m * p.k * 2) (p.k * 2) (task_words p) tasks (gen_matmul_fp16 p tasks)
gen_matmul_fp16_refines p tasks v = elim (dec_lt (p.m * p.k) (2 ^ 31)) [
  | no wide ↦ outcome (gen_matmul_fp16_overflows p tasks (omega arith)) (overflow (omega arith))
  | yes held ↦ elim (dec_le (p.m * p.k * 2) 360448) [
    | no over ↦
        outcome (gen_matmul_fp16_no_data p tasks v held (omega arith)) (no_data held (omega arith))
    | yes fits ↦ elim (dec_le (p.k * 2) 32768) [
      | no wide ↦
          outcome (gen_matmul_fp16_no_weights p tasks v held fits (omega arith))
            (no_weights fits (omega arith))
      | yes narrow ↦ elim (dec_le 108 (length tasks)) [
        | yes room ↦
            outcome (gen_matmul_fp16_accepts p tasks v (fits, narrow) room)
              (accepted fits narrow room)
        | no short ↦
            outcome (gen_matmul_fp16_overruns p tasks v (fits, narrow) (omega arith))
              (overrun fits narrow (omega arith))
      ]
    ]
  ]
]
  where
    outcome :
        {r r' : Option (ℤ × List ℕ)}
        → r ≡ r'
        → Outcome (p.m * p.k) (p.m * p.k * 2) (p.k * 2) (task_words p) tasks r'
        → Outcome (p.m * p.k) (p.m * p.k * 2) (p.k * 2) (task_words p) tasks r
    outcome e o =
        subst (Outcome (p.m * p.k) (p.m * p.k * 2) (p.k * 2) (task_words p) tasks) (sym e) o
