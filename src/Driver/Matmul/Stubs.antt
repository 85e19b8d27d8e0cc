-- ===== src/Driver/Matmul/Stubs.antt =====
-- tests/matmul_fp16_rocket.c linked with src/npu_matmul_mesa.c, whose layouts give 0 for every
-- element.
use mathlib.Core.Option
use librocket.Prelude.{
  ℕ, suc, ◌+◌, ◌-◌, ◌*◌, ◌≤◌, ◌<◌, ◌≡◌, refl, ap, ◌∙◌, List, ◌∷◌, Option, some, length, arith,
}
use librocket.Prelude.Int.{ℤ, pos}
use librocket.Prelude.Loops.{for_from-Keeps, filled}
use librocket.Mesa.{weight_fp16, feature_data}
use librocket.Driver.Matmul.Layout.{Inside, assign, lay_row, lay}
use librocket.Driver.Matmul.{
  Arithmetic, weight_position, input_position, element, layout_weights, layout_input,
}
use librocket.Driver.Matmul.Linked.{mesa}
use librocket.Driver.Matmul.Product.{valued}

module _ {ℓ} {A : Type ℓ} (position : ℕ → ℕ → ℤ) (value : ℕ → ℕ → Option A) (rows cols : ℕ)
    (stub : (r c : ℕ) → position r c ≡ pos 0)
    (present : (r c : ℕ) → Inside 1 rows cols r c → (v : A) × (value r c ≡ some v))
    (rest : List A) where
  -- The element that the loops have stored last stands in front.
  abbrev Stands : (started : Type 0) (r c : ℕ) → List A → Type ℓ
  Stands started r c out = (v : A) × (out ≡ v ∷ rest) × (started → value r c ≡ some v)

  assign_front :
      (r c : ℕ) (out : List A) (w : A)
      → Inside 1 rows cols r c
      → out ≡ w ∷ rest
      → (v : A) × (assign position value r c out ≡ some (v ∷ rest)) × (value r c ≡ some v)
  unfolding Option.bind
  assign_front r c out w m e =
      let (v, is_v) = present r c m in (v, rw (is_v, stub r c, e) refl, is_v)

  row_front :
      (r : ℕ) (out : List A) (w : A)
      → 1 ≤ r
      → r < 1 + rows
      → 1 ≤ cols
      → out ≡ w ∷ rest
      → (out' : List A) × (lay_row position value 1 cols r out ≡ some out')
        × Stands (Unit {0}) r cols out'
  row_front r out w above below some_col e =
      let (out', laid, (v, is_out, is_v)) =
        for_from-Keeps (λ c o. Stands (1 < c) r (c - 1) o) (assign position value r) 1 cols
          (1 + cols) out refl
          (λ c o above' below' (u, is_o, _).
            let (v, stored, is_v) = assign_front r c o u (above, below, above', below') is_o in
            (v ∷ rest, stored, (v, refl, λ later. ap (value r) (omega arith) ∙ is_v)))
          (w, e, λ later. absurd (omega arith)) in
      (out', laid, (v, is_out, λ any. ap (value r) (omega arith) ∙ is_v (omega arith)))

  pub lay_front :
      (w : A)
      → 1 ≤ rows
      → 1 ≤ cols
      → (v : A) × (value rows cols ≡ some v)
        × (lay position value 1 rows cols (w ∷ rest) ≡ some (v ∷ rest))
  lay_front w some_row some_col =
      let (out, laid, (v, is_out, is_v)) =
        for_from-Keeps (λ r o. Stands (1 < r) (r - 1) cols o) (lay_row position value 1 cols) 1 rows
          (1 + rows) (w ∷ rest) refl
          (λ r o above below (u, is_o, _).
            let (o', laid, (v, is_o', is_v)) = row_front r o u above below some_col is_o in
            (o', laid, (v, is_o', λ later. ap (λ s. value s cols) (omega arith) ∙ is_v tt)))
          (w, refl, λ later. absurd (omega arith)) in
      (v, ap (λ s. value s cols) (omega arith) ∙ is_v (omega arith), laid ∙ ap some is_out)

filled_front {ℓ} : {A : Type ℓ} (n : ℕ) (v : A) → 1 ≤ n → filled n v ≡ v ∷ filled (n - 1) v
filled_front n v h = let whole : n ≡ suc (n - 1) = omega arith in ap (λ t. filled t v) whole

product_pos : (a b : ℕ) → 1 ≤ a → 1 ≤ b → 1 ≤ a * b
product_pos a b h h' = grind arith

module _ (F : Arithmetic) (M K N : ℕ) (matrix_a matrix_b : List F.Half) where
  -- Linked with npu_matmul_mesa.c, whose layouts give 0, and with matrices that are not empty: both
  -- loops that lay out a matrix leave its last element at position 0 and zeros at all others.
  pub layouts_collapse :
      1 ≤ M
      → 1 ≤ K
      → 1 ≤ N
      → length matrix_a ≡ M * K
      → length matrix_b ≡ N * K
      → ((v : F.Half) × (element F mesa K matrix_b N K ≡ some v)
          × (layout_weights F mesa N K matrix_b ≡ some (v ∷ filled (N * K - 1) F.zero_half)))
        × ((v : F.Half) × (element F mesa K matrix_a M K ≡ some v)
            × (layout_input F mesa M K matrix_a ≡ some (v ∷ filled (M * K - 1) F.zero_half)))
  unfolding layout_weights layout_input weight_fp16 feature_data
  layouts_collapse some_m some_k some_n a_full b_full =
      let (w, is_w, laid_w) =
        lay_front (weight_position F mesa K) (element F mesa K matrix_b) N K (λ n k. refl)
          (valued F mesa M K N matrix_a matrix_b a_full b_full N matrix_b b_full)
          (filled (N * K - 1) F.zero_half) F.zero_half some_n some_k in
      let (i, is_i, laid_i) =
        lay_front (input_position F mesa M K) (element F mesa K matrix_a) M K (λ m k. refl)
          (valued F mesa M K N matrix_a matrix_b a_full b_full M matrix_a a_full)
          (filled (M * K - 1) F.zero_half) F.zero_half some_m some_k in
      (
        (
          w,
          is_w,
          ap (lay (weight_position F mesa K) (element F mesa K matrix_b) 1 N K)
                (filled_front (N * K) F.zero_half (product_pos N K some_n some_k))
              ∙ laid_w,
        ),
        (
          i,
          is_i,
          ap (lay (input_position F mesa M K) (element F mesa K matrix_a) 1 M K)
                (filled_front (M * K) F.zero_half (product_pos M K some_m some_k))
              ∙ laid_i,
        ),
      )
