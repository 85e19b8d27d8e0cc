-- ===== src/Driver/Matmul.antt =====
-- tests/matmul_fp16_rocket.c: what the program computes on the host. The library that it is linked
-- with, the arithmetic of floating point and what the NPU leaves in the output buffer are
-- parameters. The arrays are the parts in use of the source's, whose sizes are those of the largest
-- matrices.
pub mod Layout
pub mod Positions
pub mod Compared
pub mod Product
pub mod Linked
pub mod Main
pub mod Cleanup
pub mod Steps
pub mod Balance
pub mod Total
pub mod Returns
pub mod Stubs
pub mod Commands
use librocket.Prelude.{
  ℕ, ◌+◌, ◌-◌, ◌*◌, ◌%◌, Bool, true, false, ◌&&◌, ◌||◌, ◌==◌, leb, ltb, if◌then◌else◌, List, Option,
  none, some, get_elem?, take,
}
use librocket.Prelude.Int.{ℤ, pos, negsuc}
use librocket.Prelude.Loops.{for_from, filled}
use librocket.Npu.Desc.{Params}
use librocket.Driver.Matmul.Layout.{load, lay}
use mathlib.Core.Option
use mathlib.Core.Bool.{not}

abbrev pub max_m : ℕ
max_m = 384

abbrev pub max_k : ℕ
max_k = 4096

abbrev pub max_n : ℕ
max_n = 4096

-- The dimensions, `unsigned int`s, pass the tests at the start of `main`.
unfoldable pub valid_dims : (m k n : ℕ) → Bool
valid_dims m k n =
    if m == 0 || ltb max_m m || (not (m % 4 == 0) && not (m == 1))
    then false
    else if k == 0 || ltb max_k k || not (k % 32 == 0)
    then false
    else if n == 0 || ltb max_n n || not (n % 16 == 0)
    then false
    else true

-- What include/npu_matmul.h declares.
pub record Library : Type 0 where
  pub gen_matmul_fp16 : Params → List ℕ → Option (ℤ × List ℕ)
  pub weight_fp16 : ℤ → ℤ → ℤ → ℤ
  pub feature_data : ℤ → ℤ → ℤ → ℤ → ℤ → ℤ → ℤ → ℤ

-- `_Float16`, `float`, `sum += a * b` and `!=`.
pub record Arithmetic : Type 1 where
  pub Half : Type 0
  pub Float : Type 0
  pub zero_half : Half
  pub zero_float : Float
  pub accumulate : Float → Half → Half → Float
  pub differs : Float → Float → Bool

module _ (F : Arithmetic) where
  -- The loop over `l`.
  abbrev pub dot_step : (k : ℕ) (src0 src1 : List F.Half) (i j l : ℕ) → F.Float → Option F.Float
  dot_step k src0 src1 i j l sum =
      Option.bind (get_elem? src0 (i * k + l))
        (λ a. Option.bind (get_elem? src1 (j * k + l)) (λ b. some (F.accumulate sum a b)))

  unfoldable pub dot : (k : ℕ) (src0 src1 : List F.Half) (i j : ℕ) → Option F.Float
  dot k src0 src1 i j = for_from (dot_step k src0 src1 i j) 0 k F.zero_float

  unfoldable pub matmul_fp32_cpu :
      (m k n : ℕ) (src0 src1 : List F.Half) (dst : List F.Float) → Option (List F.Float)
  unfolding dot
  matmul_fp32_cpu m k n src0 src1 dst = lay (λ i j. pos (i * n + j)) (dot k src0 src1) 0 m n dst

  module _ (library : Library) where
    abbrev pub weight_position : (K n k : ℕ) → ℤ
    weight_position K n k = library.weight_fp16 (pos K) (pos n) (pos k)

    abbrev pub input_position : (M K m k : ℕ) → ℤ
    input_position M K m k =
        library.feature_data (pos K) (pos M) (pos 1) (pos 8) (pos k) (pos m) (pos 1)

    abbrev pub output_position : (M N m n : ℕ) → ℤ
    output_position M N m n =
        library.feature_data (pos N) (pos M) (pos 1) (pos 4) (pos n) (pos m) (pos 1)

    -- `matrix[((r-1)*cols) + (c-1)]`.
    abbrev pub element : (cols : ℕ) (matrix : List F.Half) (r c : ℕ) → Option F.Half
    element cols matrix r c = get_elem? matrix ((r - 1) * cols + (c - 1))

    -- "Layout weights for NPU".
    unfoldable pub layout_weights : (N K : ℕ) (matrix_b : List F.Half) → Option (List F.Half)
    layout_weights N K matrix_b =
        lay (weight_position K) (element K matrix_b) 1 N K (filled (N * K) F.zero_half)

    -- "Layout input for NPU".
    unfoldable pub layout_input : (M K : ℕ) (matrix_a : List F.Half) → Option (List F.Half)
    layout_input M K matrix_a =
        lay (input_position M K) (element K matrix_a) 1 M K (filled (M * K) F.zero_half)

    -- One comparison of the loops that verify the result.
    abbrev pub compare : (M N : ℕ) (output expected : List F.Float) (m n errors : ℕ) → Option ℕ
    compare M N output expected m n errors =
        Option.bind (load output (output_position M N m n)) (λ actual.
          Option.bind (get_elem? expected ((m - 1) * N + (n - 1)))
            (λ wanted. some (if F.differs actual wanted then errors + 1 else errors)))

    -- "Verify results": n runs while it is below N.
    unfoldable pub verify : (M N : ℕ) (output expected : List F.Float) → Option ℕ
    verify M N output expected =
        for_from (λ m errors. for_from (compare M N output expected m) 1 (N - 1) errors) 1 M 0
