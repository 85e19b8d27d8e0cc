-- ===== src/Driver/Matmul/Linked.antt =====
-- tests/matmul_fp16_rocket.c linked with src/npu_matmul.c, whose layouts its loops rely on.
use librocket.Prelude.{ℕ, ◌*◌, ◌%◌, ◌≤◌, ◌≡◌, ◌⊎◌, ◌↔◌, List, some, length, arith, true, false}
use librocket.Prelude.Loops.{filled}
use librocket.Npu.Layout
use librocket.Npu.Fp16
use librocket.Mesa
use librocket.Driver.Matmul.Layout.{Inside, Layout, Placed}
use librocket.Driver.Matmul.Positions.{weights-Layout, features-Layout}
use librocket.Driver.Matmul.{
  valid_dims, Library, Arithmetic, weight_position, input_position, element, matmul_fp32_cpu,
  layout_weights, layout_input, verify,
}
use librocket.Driver.Matmul.Product.{Computes, weights-Placed, input-Placed, product_lem}

-- src/npu_matmul.c.
abbrev pub npu : Library
npu = record {
  gen_matmul_fp16 = Fp16.gen_matmul_fp16;
  weight_fp16 = Layout.weight_fp16;
  feature_data = Layout.feature_data;
}

-- src/npu_matmul_mesa.c.
abbrev pub mesa : Library
mesa = record {
  gen_matmul_fp16 = Mesa.gen_matmul_fp16;
  weight_fp16 = Mesa.weight_fp16;
  feature_data = Mesa.feature_data;
}

-- Dimensions that the NPU's formats and the program's arrays hold.
abbrev pub AreDims : (m k n : ℕ) → Type 0
AreDims m k n =
    ((m ≡ 1) ⊎ (m % 4 ≡ 0))
    × (1 ≤ m)
    × (m ≤ 384)
    × (k % 32 ≡ 0)
    × (1 ≤ k)
    × (k ≤ 4096)
    × (n % 16 ≡ 0)
    × (1 ≤ n)
    × (n ≤ 4096)

-- The tests at the start of `main` let exactly these dimensions pass: M is 1 or a multiple of 4
-- from 4 to 384, K a multiple of 32 and N one of 16, both at most 4096 and not 0.
pub valid_dims_lem : (m k n : ℕ) → (valid_dims m k n ≡ true) ↔ AreDims m k n
unfolding valid_dims
valid_dims_lem m k n = ((λ h. ground arith), (λ h. ground arith))

module _ (F : Arithmetic) (M K N : ℕ) (dims : valid_dims M K N ≡ true)
    (matrix_a matrix_b : List F.Half) (a_full : length matrix_a ≡ M * K)
    (b_full : length matrix_b ≡ N * K) where
  kernels_lay : Layout 1 N K (weight_position F npu K)
  kernels_lay =
      let d = (valid_dims_lem M K N).0 dims in weights-Layout N K (omega arith) (omega arith)

  rows_lay : Layout 1 M K (input_position F npu M K)
  rows_lay =
      let d = (valid_dims_lem M K N).0 dims in features-Layout K M 8 (omega arith) (omega arith)

  -- For dimensions that the program accepts and matrices of that size, linked with npu_matmul.c:
  -- both loops that lay out a matrix come to an end within their buffers, and afterwards each
  -- element of the matrix stands at the position that weight_fp16 or feature_data gives for it.
  pub elements_at_positions :
      ((weights : List F.Half) × (layout_weights F npu N K matrix_b ≡ some weights)
        × (length weights ≡ N * K)
        × ((n k : ℕ)
            → Inside 1 N K n k
            → Placed (weight_position F npu K) (element F npu K matrix_b) weights n k))
      × ((input : List F.Half) × (layout_input F npu M K matrix_a ≡ some input)
          × (length input ≡ M * K)
          × ((m k : ℕ)
              → Inside 1 M K m k
              → Placed (input_position F npu M K) (element F npu K matrix_a) input m k))
  elements_at_positions = (
    weights-Placed F npu M K N matrix_a matrix_b a_full b_full kernels_lay rows_lay,
    input-Placed F npu M K N matrix_a matrix_b a_full b_full kernels_lay rows_lay,
  )

  -- For dimensions that the program accepts and matrices of that size, linked with npu_matmul.c,
  -- and where no value differs from itself: the layouts and the reference product are computed, and
  -- for each output in which every element, at its position, is the sum over the elements that
  -- stand at the positions of its row and kernel, the verification counts no error.
  pub product_verified :
      ((x : F.Float) → F.differs x x ≡ false)
      → (input : List F.Half) × (weights : List F.Half) × (expected : List F.Float) × (layout_input
            F npu M K matrix_a
          ≡ some input)
        × (layout_weights F npu N K matrix_b ≡ some weights)
        × (matmul_fp32_cpu F M K N matrix_a matrix_b (filled (M * N) F.zero_float) ≡ some expected)
        × ((output : List F.Float)
            → Computes F npu M K N output input weights
            → verify F npu M N output expected ≡ some 0)
  product_verified = product_lem F npu M K N matrix_a matrix_b a_full b_full kernels_lay rows_lay
