-- ===== src/Driver/Matmul/Positions.antt =====
-- The layouts of src/npu_matmul.c, and a plain array by rows, as layouts of a matrix.
use librocket.Prelude.{
  ℕ, ◌+◌, ◌*◌, ◌%◌, ◌<◌, ◌≡◌, refl, ap, sym, ◌∙◌, arith, digit_bound, digit_unique,
}
use librocket.Prelude.Int.{pos, pos_part}
use librocket.Npu.Layout.{feature_data, weight_fp16}
use librocket.Npu.Layout.Weights.{InMatrix}
use librocket.Npu.Layout.Weights.Fp16.{weight_fp16_in_range, weight_fp16_injective}
use librocket.Npu.Layout.Features.{InCube, feature_data_in_range, feature_data_injective}
use librocket.Driver.Matmul.Layout.{Inside, Layout}

in_matrix : (N C k c : ℕ) → Inside 1 N C k c → InMatrix N C k c
in_matrix N C k c m = omega arith

pub weights-Layout :
    (N K : ℕ) → N % 16 ≡ 0 → K % 32 ≡ 0 → Layout 1 N K (λ n k. weight_fp16 (pos K) (pos n) (pos k))
weights-Layout N K hN hK = record {
  slot = λ n k. pos_part (weight_fp16 (pos K) (pos n) (pos k));
  slot_of = λ n k m.
      let (s, is_s, below) = weight_fp16_in_range N K n k hN hK (in_matrix N K n k m) in
      rw is_s refl;
  slot_in_range = λ n k m.
      let (s, is_s, below) = weight_fp16_in_range N K n k hN hK (in_matrix N K n k m) in
      rw is_s below;
  slot_injective = λ n k n' k' m m' same.
      let (s, is_s, below) = weight_fp16_in_range N K n k hN hK (in_matrix N K n k m) in
      let (s', is_s', below') = weight_fp16_in_range N K n' k' hN hK (in_matrix N K n' k' m') in
      weight_fp16_injective N K n k n' k' hK (in_matrix N K n k m) (in_matrix N K n' k' m')
        (is_s ∙ ap pos (ap pos_part (sym is_s) ∙ same ∙ ap pos_part is_s') ∙ sym is_s');
}

in_cube : (C H c h : ℕ) → Inside 1 H C h c → InCube C H 1 c h 1
in_cube C H c h m = omega arith

pub features-Layout :
    (C H depth : ℕ)
    → C % depth ≡ 0
    → 0 < depth
    → Layout 1 H C (λ h c. feature_data (pos C) (pos H) (pos 1) (pos depth) (pos c) (pos h) (pos 1))
features-Layout C H depth hC some_depth = record {
  slot = λ h c. pos_part (feature_data (pos C) (pos H) (pos 1) (pos depth) (pos c) (pos h) (pos 1));
  slot_of = λ h c m.
      let (s, is_s, below) =
        feature_data_in_range C H 1 depth c h 1 hC some_depth (in_cube C H c h m) in
      rw is_s refl;
  slot_in_range = λ h c m.
      let (s, is_s, below) =
        feature_data_in_range C H 1 depth c h 1 hC some_depth (in_cube C H c h m) in
      rw is_s (omega (arith, below));
  slot_injective = λ h c h' c' m m' same.
      let (s, is_s, below) =
        feature_data_in_range C H 1 depth c h 1 hC some_depth (in_cube C H c h m) in
      let (s', is_s', below') =
        feature_data_in_range C H 1 depth c' h' 1 hC some_depth (in_cube C H c' h' m') in
      let (col, row, one) =
        feature_data_injective C H 1 depth c h 1 c' h' 1 some_depth (in_cube C H c h m)
          (in_cube C H c' h' m')
          (is_s ∙ ap pos (ap pos_part (sym is_s) ∙ same ∙ ap pos_part is_s') ∙ sym is_s') in
      (row, col);
}

-- `i * cols + j`, counted from 0.
pub rows-Layout : (rows cols : ℕ) → Layout 0 rows cols (λ i j. pos (i * cols + j))
rows-Layout rows cols = record {
  slot = λ i j. i * cols + j;
  slot_of = λ i j m. refl;
  slot_in_range = λ i j m. digit_bound cols rows i j (omega arith) (omega arith);
  slot_injective =
      λ i j i' j' m m' same. digit_unique cols i i' j j' (omega arith) (omega arith) same;
}
