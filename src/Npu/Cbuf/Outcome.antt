-- ===== src/Npu/Cbuf/Outcome.antt =====
-- What a caller of `gen_matmul_fp16` or `gen_matmul_int8` of src/npu_matmul.c may expect, by the
-- true number of elements of the feature data and the true sizes of the data and of one kernel.
use librocket.Prelude.{ℕ, ◌*◌, ◌^◌, ◌≤◌, ◌<◌, List, ◌++◌, Option, none, some, length, drop}
use librocket.Prelude.Int.{ℤ, pos, negsuc}

-- A result, for a task of 108 words and the words in the buffer before.
pub data Outcome (elements data_bytes kernel_bytes : ℕ) (task tasks : List ℕ)
    : Option (ℤ × List ℕ) → Type 0 where
  accepted :
      data_bytes ≤ 11 * 32768
      → kernel_bytes ≤ 32768
      → 108 ≤ length tasks
      → Outcome elements data_bytes kernel_bytes task tasks (some (pos 0, task ++ drop 108 tasks))
  overrun :
      data_bytes ≤ 11 * 32768
      → kernel_bytes ≤ 32768
      → length tasks < 108
      → Outcome elements data_bytes kernel_bytes task tasks none
  no_data :
      elements < 2 ^ 31
      → 11 * 32768 < data_bytes
      → Outcome elements data_bytes kernel_bytes task tasks (some (negsuc 0, tasks))
  no_weights :
      data_bytes ≤ 11 * 32768
      → 32768 < kernel_bytes
      → Outcome elements data_bytes kernel_bytes task tasks (some (negsuc 1, tasks))
  overflow : 2 ^ 31 ≤ elements → Outcome elements data_bytes kernel_bytes task tasks none
