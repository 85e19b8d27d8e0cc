-- ===== src/Npu/Layout/Formula.antt =====
-- The layout functions on coordinates that count from 1, as formulas over ℕ in the coordinates
-- less one, and as mixed-radix numbers.
use librocket.Prelude.{ℕ, suc, ◌+◌, ◌*◌, ◌/◌, ◌%◌, ◌≡◌, ap, arith}
use librocket.Prelude.Int.{pos, ◌-ℤ◌, int_pos}
use librocket.Npu.Layout.{feature_data, weight_fp16, weight_int8}

less_one : (n : ℕ) → pos (suc n) -ℤ pos 1 ≡ pos n
unfolding ◌-ℤ◌
less_one n = ground arith

pub weight_fp16_nat :
    (C k c : ℕ)
    → weight_fp16 (pos C) (pos (suc k)) (pos (suc c))
      ≡ pos (c / 32 * 32 * 16 + k / 16 * 16 * C + c % 32 + k % 16 * 32)
unfolding weight_fp16
weight_fp16_nat C k c = simp (less_one, int_pos)

pub weight_int8_nat :
    (C k c : ℕ)
    → weight_int8 (pos C) (pos (suc k)) (pos (suc c))
      ≡ pos (c / 32 * 32 * 32 + k / 32 * 32 * C + c % 32 + k % 32 * 32)
unfolding weight_int8
weight_int8_nat C k c = simp (less_one, int_pos)

pub feature_data_nat :
    (C H W C2 c h w : ℕ)
    → feature_data (pos C) (pos H) (pos W) (pos C2) (pos (suc c)) (pos (suc h)) (pos (suc w))
      ≡ pos (((c / C2 * H + h) * W + w) * C2 + c % C2)
unfolding feature_data
feature_data_nat C H W C2 c h w = simp (less_one, int_pos) (ap pos (omega arith))

-- The block of 16 (or 32) kernels and 32 channels that an element lies in, and its place there.
pub weight_fp16_radix :
    (P k c : ℕ)
    → c / 32 * 32 * 16 + k / 16 * 16 * (P * 32) + c % 32 + k % 16 * 32
      ≡ (k / 16 * P + c / 32) * 512 + (k % 16 * 32 + c % 32)
weight_fp16_radix P k c = omega arith

pub weight_int8_radix :
    (P k c : ℕ)
    → c / 32 * 32 * 32 + k / 32 * 32 * (P * 32) + c % 32 + k % 32 * 32
      ≡ (k / 32 * P + c / 32) * 1024 + (k % 32 * 32 + c % 32)
weight_int8_radix P k c = omega arith
