-- ===== src/Driver/Matmul/Total.antt =====
-- The computations of tests/matmul_fp16_rocket.c stay within their arrays, whatever the library's
-- layouts are as long as their positions do.
use mathlib.Core.Option
use librocket.Prelude.{
  ℕ, ◌+◌, ◌-◌, ◌*◌, ◌^◌, ◌≤◌, ◌<◌, ◌≡◌, ◌⊎◌, inl, inr, refl, ap, ◌∙◌, List, Option, some, length,
  arith, take, digit_bound, u16, u32,
}
use librocket.Prelude.{product_bound}
use librocket.Prelude.Int.{ℤ, pos, negsuc}
use librocket.Prelude.Loops.{for_from-Keeps, filled, length-filled, put-Stored, get_some}
use librocket.Npu.Desc.{Params, IsParams}
use librocket.Driver.Matmul.Layout.{Inside, Layout, store, load, assign, lay_row, lay}
use librocket.Driver.Matmul.{
  Library, Arithmetic, weight_position, input_position, output_position, element, layout_weights,
  layout_input, verify,
}
use librocket.Driver.Matmul.Compared.{verify_lem}
use librocket.Driver.Matmul.Product.{valued, reference-Placed}
use librocket.Driver.Matmul.Main.{
  Generated, failed, ready, copy, laid_out, after_generate, generate,
}
use librocket.Driver.Matmul.Steps.{Verifies, Prepares}

-- Each position lies in a buffer of rows * cols elements.
abbrev pub InRange : (rows cols : ℕ) → (ℕ → ℕ → ℤ) → Type 0
InRange rows cols position =
    (r c : ℕ) → Inside 1 rows cols r c → (s : ℕ) × (position r c ≡ pos s) × (s < rows * cols)

pub Layout-InRange :
    (rows cols : ℕ) (position : ℕ → ℕ → ℤ)
    → Layout 1 rows cols position
    → InRange rows cols position
Layout-InRange rows cols position L r c m = (L.slot r c, L.slot_of r c m, L.slot_in_range r c m)

module _ {ℓ} {A : Type ℓ} (position : ℕ → ℕ → ℤ) (value : ℕ → ℕ → Option A) (rows cols : ℕ)
    (in_range : InRange rows cols position)
    (valued' : (r c : ℕ) → Inside 1 rows cols r c → (v : A) × (value r c ≡ some v)) where
  assign_total :
      (r c : ℕ) (out : List A)
      → Inside 1 rows cols r c
      → length out ≡ rows * cols
      → (out' : List A) × (assign position value r c out ≡ some out') × (length out' ≡ rows * cols)
  unfolding Option.bind
  assign_total r c out m full =
      let (v, is_v) = valued' r c m in
      let (s, is_s, below) = in_range r c m in
      let (out', e, stored) = put-Stored out s v (omega (arith, below, full)) in
      (
        out',
        ap (λ x. Option.bind x (λ w. store out (position r c) w)) is_v
            ∙ ap (λ p. store out p v) is_s
            ∙ e,
        stored.length_kept ∙ full,
      )

  pub lay_total :
      (old : List A)
      → length old ≡ rows * cols
      → (out : List A) × (lay position value 1 rows cols old ≡ some out)
        × (length out ≡ rows * cols)
  lay_total old full =
      for_from-Keeps (λ r out. length out ≡ rows * cols) (lay_row position value 1 cols) 1 rows
        (1 + rows) old refl
        (λ r out above below so_far.
          for_from-Keeps (λ c o. length o ≡ rows * cols) (assign position value r) 1 cols (1 + cols)
            out refl
            (λ c o above' below' kept. assign_total r c o (above, below, above', below') kept)
            so_far)
        full

-- Into the buffer of 112 words the generator writes the words that it counts, or it reports an
-- error, as long as an `int` holds the number of elements of the input.
abbrev pub Answers : Library → Type 0
Answers library =
    (p : Params)
    → IsParams p
    → p.m * p.k < 2 ^ 31
    → (ret : ℤ) × (out : List ℕ) × (library.gen_matmul_fp16 p (filled 112 0) ≡ some (ret, out))
      × (((count : ℕ) × (ret ≡ pos count) × (count ≤ length out)) ⊎ ((e : ℕ) × (ret ≡ negsuc e)))

module _ (F : Arithmetic) (library : Library)
    (hardware : ℕ → List ℕ → List F.Half → List F.Half → List F.Float)
    (matrix_a matrix_b : ℕ → List F.Half) (a_size : (s : ℕ) → length (matrix_a s) ≡ s)
    (b_size : (s : ℕ) → length (matrix_b s) ≡ s)
    (output_size : (s : ℕ) (regcmd : List ℕ) (input weights : List F.Half)
      → length (hardware s regcmd input weights) ≡ s)
    (answers : Answers library) (m k n : ℕ) (few : m * k < 2 ^ 31)
    (weights_in : InRange n k (weight_position F library k))
    (input_in : InRange m k (input_position F library m k))
    (output_in : InRange m n (output_position F library m n)) where
  verify_total :
      (regcmd : List ℕ) (input weights : List F.Half) (expected : List F.Float)
      → length expected ≡ m * n
      → (errors : ℕ) × (verify F library m n (hardware (m * n) regcmd input weights) expected
          ≡ some errors)
  verify_total regcmd input weights expected full =
      let (errors, e, _) =
        verify_lem F library m n (hardware (m * n) regcmd input weights) expected (λ r c inside.
          let (s, is_s, below) = output_in r c (omega arith) in
          let (actual, is_actual) =
            get_some (hardware (m * n) regcmd input weights) s
              (omega (arith, below, output_size (m * n) regcmd input weights)) in
          let (wanted, is_wanted) =
            get_some expected ((r - 1) * n + (c - 1))
              (omega (arith, full, digit_bound n m (r - 1) (c - 1) (omega arith) (omega arith))) in
          (
            actual,
            wanted,
            ap (load (hardware (m * n) regcmd input weights)) is_s ∙ is_actual,
            is_wanted,
          )) in
      (errors, e)

  laid_out_total :
      (count : ℕ) (regcmd : List ℕ)
      → (g : Generated F) × (laid_out F library m k n
            (matrix_a (m * k))
            (matrix_b (n * k))
            count
            regcmd
          ≡ some g)
        × Verifies F library hardware matrix_a matrix_b m n g
  unfolding laid_out Option.bind layout_weights layout_input
  laid_out_total count regcmd =
      let (weights, laid_weights, _) =
        lay_total (weight_position F library k) (element F library k (matrix_b (n * k))) n k
          weights_in
          (valued F library m k n (matrix_a (m * k)) (matrix_b (n * k)) (a_size (m * k))
            (b_size (n * k)) n (matrix_b (n * k)) (b_size (n * k)))
          (filled (n * k) F.zero_half) (length-filled (n * k) F.zero_half) in
      let (input, laid_input, _) =
        lay_total (input_position F library m k) (element F library k (matrix_a (m * k))) m k
          input_in
          (valued F library m k n (matrix_a (m * k)) (matrix_b (n * k)) (a_size (m * k))
            (b_size (n * k)) m (matrix_a (m * k)) (a_size (m * k)))
          (filled (m * k) F.zero_half) (length-filled (m * k) F.zero_half) in
      let (expected, computed, full, _) =
        reference-Placed F library m k n (matrix_a (m * k)) (matrix_b (n * k)) (a_size (m * k))
          (b_size (n * k)) in
      (
        ready count regcmd input weights expected,
        rw (laid_weights, laid_input, computed) refl,
        verify_total regcmd input weights expected full,
      )

  after_generate_total :
      (ret : ℤ) (out : List ℕ)
      → ((count : ℕ) × (ret ≡ pos count) × (count ≤ length out)) ⊎ ((e : ℕ) × (ret ≡ negsuc e))
      → (g : Generated F) × (after_generate F library m k n
            (matrix_a (m * k))
            (matrix_b (n * k))
            (ret, out)
          ≡ some g)
        × Verifies F library hardware matrix_a matrix_b m n g
  unfolding after_generate Option.bind
  after_generate_total ret out (inl (count, is_count, fits)) =
      let copied : copy count out ≡ some (take count out) = ground arith in
      let (g, e, v) = laid_out_total count (take count out) in (g, rw (is_count, copied) e, v)
  after_generate_total ret out (inr (e, is_e)) = (failed (negsuc e), rw is_e refl, tt)

  pub prepares_lem : Prepares F library hardware matrix_a matrix_b m k n
  unfolding generate Option.bind
  prepares_lem input_dma weights_dma output_dma =
      let (ret, out, e, cases) =
        answers
          (record {
            m = u16 m;
            k = u16 k;
            n = u16 n;
            input_dma = u32 input_dma;
            weights_dma = u32 weights_dma;
            output_dma = u32 output_dma;
            fp32tofp16 = 0;
          })
          (record {
            m_fits = omega arith;
            k_fits = omega arith;
            n_fits = omega arith;
            input_fits = omega arith;
            weights_fits = omega arith;
            output_fits = omega arith;
            flag_fits = omega arith;
          })
          (omega (arith, few, product_bound (u16 m) (u16 k) m k (omega arith) (omega arith))) in
      let (g, e', v) = after_generate_total ret out cases in
      (
        g,
        ap
              (λ x.
                Option.bind x
                  (after_generate F library m k n (matrix_a (m * k)) (matrix_b (n * k))))
              e
            ∙ e',
        v,
      )
