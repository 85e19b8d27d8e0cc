-- ===== src/Npu/Task/Store.antt =====
-- The store of a task into the buffer: it replaces the words in front and leaves the rest.
use mathlib.Core.Path.{subst}
use librocket.Prelude.{
  ◌∙◌, ℕ, ◌≤◌, ◌<◌, ◌≡◌, refl, ap, List, [], ◌∷◌, ◌++◌, map, none, some, arith, length, length-map,
  ltb, ltb→lt, if◌then◌else◌, Bool-cases, inl, inr, drop, take,
}
use librocket.Npu.Hw.{encode}
use librocket.Npu.Desc.{CnaDesc, CoreDesc, DpuDesc}
use librocket.Npu.Task.{task_commands, store_all, gen_matmul_task, pc_commands}
use librocket.Npu.Values.Cna.{cna_commands}
use librocket.Npu.Values.Core.{core_commands}
use librocket.Npu.Values.Dpu.{dpu_commands}

store_all-eq :
    (ws ops : List ℕ)
    → length ws ≤ length ops
    → store_all ws ops ≡ some (ws ++ drop (length ws) ops)
unfolding store_all
store_all-eq [] ops h = refl
store_all-eq (w ∷ ws) [] h = absurd (omega arith)
store_all-eq (w ∷ ws) (old ∷ ops) h = rw (store_all-eq ws ops (omega arith))

store_all_short : (ws ops : List ℕ) → length ops < length ws → store_all ws ops ≡ none
unfolding store_all
store_all_short [] ops h = absurd (omega arith)
store_all_short (w ∷ ws) [] h = refl
store_all_short (w ∷ ws) (old ∷ ops) h = rw (store_all_short ws ops (omega arith))

pub length-task_commands :
    (cna : CnaDesc) (core : CoreDesc) (dpu : DpuDesc) → length (task_commands cna core dpu) ≡ 108
unfolding task_commands cna_commands core_commands dpu_commands pc_commands
length-task_commands cna core dpu = refl

pub take_prefix {ℓ} : {A : Type ℓ} (xs ys : List A) → take (length xs) (xs ++ ys) ≡ xs
take_prefix [] ys = refl
take_prefix (x ∷ xs) ys = ap (λ t. x ∷ t) (take_prefix xs ys)

length-words :
    (cna : CnaDesc) (core : CoreDesc) (dpu : DpuDesc)
    → length (map encode (task_commands cna core dpu)) ≡ 108
length-words cna core dpu =
    length-map encode (task_commands cna core dpu) ∙ length-task_commands cna core dpu

pub gen_matmul_task_stores :
    (tasks : List ℕ) (cna : CnaDesc) (core : CoreDesc) (dpu : DpuDesc)
    → 108 ≤ length tasks
    → gen_matmul_task tasks cna core dpu
      ≡ some (map encode (task_commands cna core dpu) ++ drop 108 tasks)
unfolding gen_matmul_task
gen_matmul_task_stores tasks cna core dpu room =
    store_all-eq _ tasks (omega (arith, length-words cna core dpu))
    ∙ rw (length-words cna core dpu) refl

pub gen_matmul_task_overruns :
    (tasks : List ℕ) (cna : CnaDesc) (core : CoreDesc) (dpu : DpuDesc)
    → length tasks < 108
    → gen_matmul_task tasks cna core dpu ≡ none
unfolding gen_matmul_task
gen_matmul_task_overruns tasks cna core dpu short =
    store_all_short _ tasks (omega (arith, length-words cna core dpu))

-- In a buffer of at least 108 words the task takes the first 108, and the others stay as they were;
-- the task generator writes beyond the end of every shorter buffer.
pub gen_matmul_task_writes :
    (tasks : List ℕ) (cna : CnaDesc) (core : CoreDesc) (dpu : DpuDesc)
    → gen_matmul_task tasks cna core dpu ≡ (
        if ltb (length tasks) 108
        then none
        else some (map encode (task_commands cna core dpu) ++ drop 108 tasks))
gen_matmul_task_writes tasks cna core dpu = elim (Bool-cases (ltb (length tasks) 108)) [
  | inl short ↦
      rw short (gen_matmul_task_overruns tasks cna core dpu (ltb→lt (length tasks) 108 short))
  | inr fits ↦ rw fits (gen_matmul_task_stores tasks cna core dpu (ground arith))
]

pub take_words :
    (cna : CnaDesc) (core : CoreDesc) (dpu : DpuDesc) (rest : List ℕ)
    → take 108 (map encode (task_commands cna core dpu) ++ rest)
      ≡ map encode (task_commands cna core dpu)
take_words cna core dpu rest =
    subst
      (λ n.
        take n (map encode (task_commands cna core dpu) ++ rest)
        ≡ map encode (task_commands cna core dpu))
      (length-words cna core dpu) (take_prefix _ rest)

pub take_task :
    (tasks out : List ℕ) (cna : CnaDesc) (core : CoreDesc) (dpu : DpuDesc)
    → 108 ≤ length tasks
    → gen_matmul_task tasks cna core dpu ≡ some out
    → take 108 out ≡ map encode (task_commands cna core dpu)
take_task tasks out cna core dpu room e =
    let written : out ≡ map encode (task_commands cna core dpu) ++ drop 108 tasks =
      cc (gen_matmul_task_stores tasks cna core dpu room) in
    rw written (take_words cna core dpu (drop 108 tasks))
