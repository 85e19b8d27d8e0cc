-- ===== src/Driver/Matmul/Returns.antt =====
-- tests/matmul_fp16_rocket.c linked with either generator of the library comes to its end.
use librocket.Prelude.{
  ℕ, ◌*◌, ◌^◌, ◌≤◌, ◌<◌, ◌≡◌, ◌⊎◌, inl, inr, refl, List, Option, some, length, drop, ◌++◌, map,
  arith, true,
}
use librocket.Prelude.{product_bound}
use librocket.Prelude.Int.{ℤ, pos, negsuc}
use librocket.Prelude.Loops.{filled}
use librocket.Device.Kernel.{Resource, Kernel, Accounts}
use librocket.Device.Calls.{Process}
use librocket.Device.Accounting.{holds}
use librocket.Npu.Desc.{Params}
use librocket.Npu.Cbuf.Outcome.{Outcome, accepted, overrun, no_data, no_weights, overflow}
use librocket.Npu.Fp16.Accept.{task_words, gen_matmul_fp16_refines}
use librocket.Mesa.{fp16_regcmds, weight_fp16, feature_data}
use librocket.Mesa.Generated.{gen_matmul_fp16_writes}
use librocket.Regcmd.{word_of}
use librocket.Driver.Matmul
use librocket.Driver.Matmul.{Arithmetic, weight_position, input_position, output_position}
use librocket.Driver.Matmul.Main.{main}
use librocket.Driver.Matmul.Positions.{weights-Layout, features-Layout}
use librocket.Driver.Matmul.Linked.{npu, mesa, valid_dims_lem}
use librocket.Driver.Matmul.Cleanup.{Returned}
use librocket.Driver.Matmul.Steps.{Prepares}
use librocket.Driver.Matmul.Balance.{main_case}
use librocket.Driver.Matmul.Total.{InRange, Layout-InRange, Answers, prepares_lem}

-- What a result of npu_matmul.c is where `int` does not overflow.
Outcome-cases :
    (elements data_bytes kernel_bytes : ℕ) (task tasks : List ℕ) (res : Option (ℤ × List ℕ))
    → elements < 2 ^ 31
    → 108 ≤ length tasks
    → Outcome elements data_bytes kernel_bytes task tasks res
    → (ret : ℤ) × (out : List ℕ) × (res ≡ some (ret, out))
      × (((count : ℕ) × (ret ≡ pos count) × (count ≤ length out)) ⊎ ((e : ℕ) × (ret ≡ negsuc e)))
Outcome-cases s d k task tasks _ few room (accepted _ _ _) =
    (pos 0, task ++ drop 108 tasks, refl, inl (0, refl, omega arith))
Outcome-cases s d k task tasks _ few room (overrun _ _ short) = absurd (omega (arith, room, short))
Outcome-cases s d k task tasks _ few room (no_data _ _) = (negsuc 0, tasks, refl, inr (0, refl))
Outcome-cases s d k task tasks _ few room (no_weights _ _) = (negsuc 1, tasks, refl, inr (1, refl))
Outcome-cases s d k task tasks _ few room (overflow over) = absurd (omega (arith, few, over))

npu-Answers : Answers npu
npu-Answers p v few =
    Outcome-cases _ _ _ (task_words p) (filled 112 0) _ few (omega arith)
      (gen_matmul_fp16_refines p (filled 112 0) v)

-- Dimensions that the program accepts are few enough for `int`.
few_elements : (m k n : ℕ) → Matmul.valid_dims m k n ≡ true → m * k < 2 ^ 31
few_elements m k n good =
    let (_, _, m_max, _, _, k_max, _, _, _) = (valid_dims_lem m k n).0 good in
    omega (arith, product_bound m k 384 4096 m_max k_max)

mesa_room : (p : Params) → 17 ≤ length (map word_of (fp16_regcmds p) ++ drop 17 (filled 112 0))
unfolding fp16_regcmds
mesa_room p = omega arith

mesa-Answers : Answers mesa
mesa-Answers p v few = (
  pos 17,
  map word_of (fp16_regcmds p) ++ drop 17 (filled 112 0),
  gen_matmul_fp16_writes p (filled 112 0) (omega arith),
  inl (17, refl, mesa_room p),
)

some_element : (rows cols r c : ℕ) → 1 ≤ r → r ≤ rows → 1 ≤ c → c ≤ cols → 0 < rows * cols
some_element rows cols r c h h' g g' = grind arith

stub_weights-InRange : (F : Arithmetic) (n k : ℕ) → InRange n k (weight_position F mesa k)
unfolding weight_fp16
stub_weights-InRange F n k r c m =
    (0, refl, some_element n k r c (omega arith) (omega arith) (omega arith) (omega arith))

stub_input-InRange : (F : Arithmetic) (m k : ℕ) → InRange m k (input_position F mesa m k)
unfolding feature_data
stub_input-InRange F m k r c h =
    (0, refl, some_element m k r c (omega arith) (omega arith) (omega arith) (omega arith))

stub_output-InRange : (F : Arithmetic) (m n : ℕ) → InRange m n (output_position F mesa m n)
unfolding feature_data
stub_output-InRange F m n r c h =
    (0, refl, some_element m n r c (omega arith) (omega arith) (omega arith) (omega arith))

module _ (F : Arithmetic) (hardware : ℕ → List ℕ → List F.Half → List F.Half → List F.Float)
    (matrix_a matrix_b : ℕ → List F.Half) (a_size : (s : ℕ) → length (matrix_a s) ≡ s)
    (b_size : (s : ℕ) → length (matrix_b s) ≡ s)
    (output_size : (s : ℕ) (regcmd : List ℕ) (input weights : List F.Half)
      → length (hardware s regcmd input weights) ≡ s) where
  npu-Prepares :
      (m k n : ℕ) → Matmul.valid_dims m k n ≡ true → Prepares F npu hardware matrix_a matrix_b m k n
  npu-Prepares m k n good =
      let dims = (valid_dims_lem m k n).0 good in
      prepares_lem F npu hardware matrix_a matrix_b a_size b_size output_size npu-Answers m k n
        (few_elements m k n good)
        (Layout-InRange n k _ (weights-Layout n k (omega arith) (omega arith)))
        (Layout-InRange m k _ (features-Layout k m 8 (omega arith) (omega arith)))
        (Layout-InRange m n _ (features-Layout n m 4 (omega arith) (omega arith)))

  mesa-Prepares :
      (m k n : ℕ)
      → Matmul.valid_dims m k n ≡ true
      → Prepares F mesa hardware matrix_a matrix_b m k n
  mesa-Prepares m k n good =
      prepares_lem F mesa hardware matrix_a matrix_b a_size b_size output_size mesa-Answers m k n
        (few_elements m k n good) (stub_weights-InRange F n k) (stub_input-InRange F m k)
        (stub_output-InRange F m n)

  -- On a system that behaves as `Accounts` says, with matrices and an output of the sizes of their
  -- buffers: linked with npu_matmul.c or with npu_matmul_mesa.c, the matmul test program returns a
  -- code for all arguments, none of its accesses lies outside of its array, and the process holds
  -- afterwards what it held before, whichever of its calls fails.
  pub matmul_test_balance :
      (Sys : Kernel) (A : Accounts Sys) (args : Option (ℤ × ℤ × ℤ)) (p : Process (Kernel.State Sys))
      (r : Resource)
      → Returned Sys A r (holds Sys A p r) (main Sys F npu hardware matrix_a matrix_b args p)
        × Returned Sys A r (holds Sys A p r) (main Sys F mesa hardware matrix_a matrix_b args p)
  matmul_test_balance Sys A args p r = (
    main_case Sys A F npu hardware matrix_a matrix_b args p r npu-Prepares,
    main_case Sys A F mesa hardware matrix_a matrix_b args p r mesa-Prepares,
  )
