-- ===== src/Driver/Matmul/Product.antt =====
-- The product that tests/matmul_fp16_rocket.c has the NPU compute, from the matrices to the
-- verdict.
use mathlib.Core.Option
use mathlib.Core.Path.{ap₂}
use librocket.Prelude.{
  ℕ, suc, ◌+◌, ◌-◌, ◌*◌, ◌<◌, ◌≡◌, refl, ap, sym, ◌∙◌, List, Option, some, length, get_elem?, arith,
  false, digit_bound,
}
use librocket.Prelude.Int.{pos}
use librocket.Prelude.Loops.{
  for_from, for_from-Keeps, for_from_cong, filled, length-filled, get_some,
}
use librocket.Driver.Matmul.Layout.{Inside, Layout, Placed, load, lay-Placed}
use librocket.Driver.Matmul.Positions.{rows-Layout}
use librocket.Driver.Matmul.{
  Library, Arithmetic, weight_position, input_position, output_position, element, dot_step, dot,
  matmul_fp32_cpu, layout_weights, layout_input, verify,
}
use librocket.Driver.Matmul.Compared.{Matches, verify_lem}

module _ (F : Arithmetic) (library : Library) (M K N : ℕ) where
  -- The sum over the elements of row m of the input and of kernel n, where the layouts have put
  -- them.
  abbrev pub laid_step : (input weights : List F.Half) (m n l : ℕ) → F.Float → Option F.Float
  laid_step input weights m n l sum =
      Option.bind (load input (input_position F library M K m (suc l))) (λ a.
        Option.bind (load weights (weight_position F library K n (suc l)))
          (λ b. some (F.accumulate sum a b)))

  abbrev pub laid_dot : (input weights : List F.Half) (m n : ℕ) → Option F.Float
  laid_dot input weights m n = for_from (laid_step input weights m n) 0 K F.zero_float

  -- Each element of the output is such a sum.
  abbrev pub Computes : (output : List F.Float) (input weights : List F.Half) → Type 0
  Computes output input weights =
      (m n : ℕ)
      → Inside 1 M N m n
      → load output (output_position F library M N m n) ≡ laid_dot input weights m n

  module _ (matrix_a matrix_b : List F.Half) (a_full : length matrix_a ≡ M * K)
      (b_full : length matrix_b ≡ N * K) where
    pub valued :
        (rows : ℕ) (matrix : List F.Half)
        → length matrix ≡ rows * K
        → (r c : ℕ) → Inside 1 rows K r c
        → (v : F.Half) × (element F library K matrix r c ≡ some v)
    valued rows matrix full r c m =
        get_some matrix ((r - 1) * K + (c - 1))
          (omega (arith, full, digit_bound K rows (r - 1) (c - 1) (omega arith) (omega arith)))

    dot_total :
        (i j : ℕ) → i < M → j < N → (sum : F.Float) × (dot F K matrix_a matrix_b i j ≡ some sum)
    unfolding dot Option.bind
    dot_total i j hi hj =
        let (sum, e, _) =
          for_from-Keeps (λ l sum. Unit {0}) (dot_step F K matrix_a matrix_b i j) 0 K K F.zero_float
            (omega arith)
            (λ l sum above below so_far.
              let (a, is_a) =
                get_some matrix_a (i * K + l)
                  (omega (arith, a_full, digit_bound K M i l hi below)) in
              let (b, is_b) =
                get_some matrix_b (j * K + l)
                  (omega (arith, b_full, digit_bound K N j l hj below)) in
              (F.accumulate sum a b, rw (is_a, is_b) refl, tt))
            tt in
        (sum, e)

    pub reference-Placed :
        (expected : List F.Float) × (matmul_fp32_cpu F M K N matrix_a matrix_b
            (filled (M * N) F.zero_float)
          ≡ some expected)
        × (length expected ≡ M * N)
        × ((i j : ℕ)
            → Inside 0 M N i j
            → Placed (λ i j. pos (i * N + j)) (dot F K matrix_a matrix_b) expected i j)
    unfolding matmul_fp32_cpu
    reference-Placed =
        lay-Placed (λ i j. pos (i * N + j)) (dot F K matrix_a matrix_b) 0 M N (rows-Layout M N)
          (λ i j m. dot_total i j (omega arith) (omega arith)) (filled (M * N) F.zero_float)
          (length-filled (M * N) F.zero_float)

    module _ (weights_lay : Layout 1 N K (weight_position F library K))
        (input_lay : Layout 1 M K (input_position F library M K)) where
      pub weights-Placed :
          (weights : List F.Half) × (layout_weights F library N K matrix_b ≡ some weights)
          × (length weights ≡ N * K)
          × ((n k : ℕ)
              → Inside 1 N K n k
              → Placed (weight_position F library K) (element F library K matrix_b) weights n k)
      unfolding layout_weights
      weights-Placed =
          lay-Placed (weight_position F library K) (element F library K matrix_b) 1 N K weights_lay
            (valued N matrix_b b_full) (filled (N * K) F.zero_half)
            (length-filled (N * K) F.zero_half)

      pub input-Placed :
          (input : List F.Half) × (layout_input F library M K matrix_a ≡ some input)
          × (length input ≡ M * K)
          × ((m k : ℕ)
              → Inside 1 M K m k
              → Placed (input_position F library M K) (element F library K matrix_a) input m k)
      unfolding layout_input
      input-Placed =
          lay-Placed (input_position F library M K) (element F library K matrix_a) 1 M K input_lay
            (valued M matrix_a a_full) (filled (M * K) F.zero_half)
            (length-filled (M * K) F.zero_half)

      -- What stands where the layouts say is what the reference reads.
      laid_dot-dot :
          (m n : ℕ)
          → Inside 1 M N m n
          → laid_dot input-Placed.0 weights-Placed.0 m n ≡ dot F K matrix_a matrix_b (m - 1) (n - 1)
      unfolding dot
      laid_dot-dot m n inside =
          for_from_cong (laid_step input-Placed.0 weights-Placed.0 m n)
            (dot_step F K matrix_a matrix_b (m - 1) (n - 1)) 0 K F.zero_float
            (λ l sum above below.
              let (a, is_a, there_a) = input-Placed.3 m (suc l) (omega arith) in
              let (b, is_b, there_b) = weights-Placed.3 n (suc l) (omega arith) in
              let read_a = there_a ∙ sym (ap (get_elem? matrix_a) (index m l) ∙ is_a) in
              let read_b = there_b ∙ sym (ap (get_elem? matrix_b) (index n l) ∙ is_b) in
              ap₂ (λ x y. Option.bind x (λ a. Option.bind y (λ b. some (F.accumulate sum a b))))
                read_a read_b)
        where
          index : (r l : ℕ) → (r - 1) * K + l ≡ (r - 1) * K + (suc l - 1)
          index r l = omega arith

      -- An output that the NPU computes so has what the reference has.
      output-Matches :
          (output : List F.Float)
          → Computes output input-Placed.0 weights-Placed.0
          → ((x : F.Float) → F.differs x x ≡ false)
          → (m n : ℕ) → Inside 1 M (N - 1) m n
          → Matches F library M N output reference-Placed.0 m n
      output-Matches output computes exact m n inside =
          let (sum, is_sum, there) = reference-Placed.3 (m - 1) (n - 1) (omega arith) in
          (
            sum,
            sum,
            computes m n (omega arith) ∙ laid_dot-dot m n (omega arith) ∙ is_sum,
            there,
            exact sum,
          )

      pub product_lem :
          ((x : F.Float) → F.differs x x ≡ false)
          → (input : List F.Half) × (weights : List F.Half) × (expected : List F.Float)
            × (layout_input F library M K matrix_a ≡ some input)
            × (layout_weights F library N K matrix_b ≡ some weights)
            × (matmul_fp32_cpu F M K N matrix_a matrix_b (filled (M * N) F.zero_float)
                ≡ some expected)
            × ((output : List F.Float)
                → Computes output input weights
                → verify F library M N output expected ≡ some 0)
      product_lem exact = (
        input-Placed.0,
        weights-Placed.0,
        reference-Placed.0,
        input-Placed.1,
        weights-Placed.1,
        reference-Placed.1,
        λ output computes.
            let matches = output-Matches output computes exact in
            let (errors, e, none) =
              verify_lem F library M N output reference-Placed.0 (λ m n inside.
                let (a, b, is_a, is_b, same) = matches m n inside in (a, b, is_a, is_b)) in
            e ∙ ap some (none.1 matches),
      )
