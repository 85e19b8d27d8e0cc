-- ===== src/Examples/Product.antt =====
-- Runs of the computations of tests/matmul_fp16_rocket.c, for one row, 32 channels and 16 kernels.
use mathlib.Core.Option
use librocket.Npu.Layout.{feature_data}
use librocket.Prelude.Int.{◌+ℤ◌, ◌-ℤ◌, ◌*ℤ◌, ◌/ℤ◌, ◌%ℤ◌}
use librocket.Prelude.{[], ◌∷◌, ℕ, ◌*◌, ◌-◌, ◌≡◌, ◌↔◌, refl, List, some, length, true, false, arith}
use librocket.Prelude.Loops.{filled, length-filled}
use librocket.Driver.Matmul.{
  valid_dims, weight_position, input_position, element, layout_weights, layout_input,
  matmul_fp32_cpu, dot, verify,
}
use librocket.Driver.Matmul.Layout.{Inside, Placed}
use librocket.Driver.Matmul.Linked.{
  npu, AreDims, valid_dims_lem, elements_at_positions, product_verified,
}
use librocket.Driver.Matmul.Product.{Computes}
use librocket.Driver.Matmul.Compared.{Matches, Present, verify_lem}
use librocket.Driver.Matmul.Linked.{mesa}
use librocket.Driver.Matmul.Stubs.{layouts_collapse}
use librocket.Examples.Data.{whole}

abbrev ones : ℕ → List ℕ
ones s = filled s 1

ones_full : (n : ℕ) → length (ones n) ≡ n
ones_full n = length-filled n _

small_dims : valid_dims 1 32 16 ≡ true
unfolding valid_dims
small_dims = refl

valid_dims_run : valid_dims 2 32 16 ≡ false
unfolding valid_dims
valid_dims_run = refl

dot_run : dot whole 32 (ones 32) (ones 512) 0 3 ≡ some 32
unfolding dot Option.bind
dot_run = refl

valid_dims_lem_example : (valid_dims 1 32 16 ≡ true) ↔ AreDims 1 32 16
valid_dims_lem_example = valid_dims_lem 1 32 16

elements_at_positions_example :
    ((weights : List ℕ) × (layout_weights whole npu 16 32 (ones 512) ≡ some weights)
      × (length weights ≡ 16 * 32)
      × ((n k : ℕ)
          → Inside 1 16 32 n k
          → Placed (weight_position whole npu 32) (element whole npu 32 (ones 512)) weights n k))
    × ((input : List ℕ) × (layout_input whole npu 1 32 (ones 32) ≡ some input)
        × (length input ≡ 1 * 32)
        × ((m k : ℕ)
            → Inside 1 1 32 m k
            → Placed (input_position whole npu 1 32) (element whole npu 32 (ones 32)) input m k))
elements_at_positions_example =
    elements_at_positions whole 1 32 16 small_dims (ones 32) (ones 512) (ones_full 32)
      (ones_full 512)

product_verified_example :
    (input : List ℕ) × (weights : List ℕ) × (expected : List ℕ) × (layout_input whole npu 1 32
        (ones 32)
      ≡ some input)
    × (layout_weights whole npu 16 32 (ones 512) ≡ some weights)
    × (matmul_fp32_cpu whole 1 32 16 (ones 32) (ones 512) (filled (1 * 16) 0) ≡ some expected)
    × ((output : List ℕ)
        → Computes whole npu 1 32 16 output input weights
        → verify whole npu 1 16 output expected ≡ some 0)
product_verified_example =
    product_verified whole 1 32 16 small_dims (ones 32) (ones 512) (ones_full 32) (ones_full 512)
      (λ x. ground arith)

first_column : (m n : ℕ) → Inside 1 1 1 m n → Present whole npu 1 2 (7 ∷ 8 ∷ []) (7 ∷ 9 ∷ []) m n
unfolding feature_data ◌+ℤ◌ ◌-ℤ◌ ◌*ℤ◌ ◌/ℤ◌ ◌%ℤ◌
first_column m n inside =
    let row : m ≡ 1 = omega arith in
    let col : n ≡ 1 = omega arith in rw (row, col) (7, 7, refl, refl)

-- Two columns, of which the first is compared.
verify_lem_example :
    (errors : ℕ) × (verify whole npu 1 2 (7 ∷ 8 ∷ []) (7 ∷ 9 ∷ []) ≡ some errors)
    × ((errors ≡ 0)
        ↔ ((m n : ℕ) → Inside 1 1 1 m n → Matches whole npu 1 2 (7 ∷ 8 ∷ []) (7 ∷ 9 ∷ []) m n))
verify_lem_example = verify_lem whole npu 1 2 (7 ∷ 8 ∷ []) (7 ∷ 9 ∷ []) first_column

layouts_collapse_example :
    ((v : ℕ) × (element whole mesa 32 (ones 512) 16 32 ≡ some v)
      × (layout_weights whole mesa 16 32 (ones 512) ≡ some (v ∷ filled (16 * 32 - 1) 0)))
    × ((v : ℕ) × (element whole mesa 32 (ones 32) 1 32 ≡ some v)
        × (layout_input whole mesa 1 32 (ones 32) ≡ some (v ∷ filled (1 * 32 - 1) 0)))
layouts_collapse_example =
    layouts_collapse whole 1 32 16 (ones 32) (ones 512) (omega arith) (omega arith) (omega arith)
      (ones_full 32) (ones_full 512)
