-- ===== src/Examples/Positions.antt =====
-- Runs of the layout functions.
use librocket.Prelude.{ℕ, ◌≡◌, ◌<◌, ◌*◌, ◌+◌, refl, arith}
use librocket.Prelude.Int.{pos, ◌+ℤ◌, ◌-ℤ◌, ◌*ℤ◌, ◌/ℤ◌, ◌%ℤ◌}
use librocket.Npu.Layout.{feature_data, weight_fp16, weight_int8}
use librocket.Npu.Layout.Weights.{InMatrix}
use librocket.Npu.Layout.Weights.Fp16.{weight_fp16_injective, weight_fp16_onto}
use librocket.Npu.Layout.Weights.Int8.{weight_int8_injective, weight_int8_onto}
use librocket.Npu.Layout.Features.{feature_data_in_range, feature_data_injective}

abbrev kernel : ℕ
kernel = 18

abbrev channel : ℕ
channel = 35

abbrev row : ℕ
row = 3

abbrev column : ℕ
column = 1

-- The layouts at a few positions.
weight_fp16_run : weight_fp16 (pos 64) (pos 18) (pos 35) ≡ pos (1024 + 512 + 32 + 2)
unfolding weight_fp16 ◌+ℤ◌ ◌-ℤ◌ ◌*ℤ◌ ◌/ℤ◌ ◌%ℤ◌
weight_fp16_run = refl

weight_int8_run : weight_int8 (pos 64) (pos 18) (pos 35) ≡ pos (1024 + 544 + 2)
unfolding weight_int8 ◌+ℤ◌ ◌-ℤ◌ ◌*ℤ◌ ◌/ℤ◌ ◌%ℤ◌
weight_int8_run = refl

feature_data_run : feature_data (pos 64) (pos 4) (pos 1) (pos 8) (pos 10) (pos 3) (pos 1) ≡ pos 49
unfolding feature_data ◌+ℤ◌ ◌-ℤ◌ ◌*ℤ◌ ◌/ℤ◌ ◌%ℤ◌
feature_data_run = refl

weight_fp16_injective_example : (kernel ≡ kernel) × (channel ≡ channel)
weight_fp16_injective_example =
    weight_fp16_injective 64 64 kernel channel kernel channel (omega arith) (omega arith)
      (omega arith) refl

weight_fp16_onto_example :
    (k : ℕ) × (c : ℕ) × InMatrix 64 64 k c × (weight_fp16 (pos 64) (pos k) (pos c) ≡ pos 2049)
weight_fp16_onto_example = weight_fp16_onto 64 64 2049 (omega arith) (omega arith) (omega arith)

weight_int8_injective_example : (kernel ≡ kernel) × (channel ≡ channel)
weight_int8_injective_example =
    weight_int8_injective 64 64 kernel channel kernel channel (omega arith) (omega arith)
      (omega arith) refl

weight_int8_onto_example :
    (k : ℕ) × (c : ℕ) × InMatrix 64 64 k c × (weight_int8 (pos 64) (pos k) (pos c) ≡ pos 2049)
weight_int8_onto_example = weight_int8_onto 64 64 2049 (omega arith) (omega arith) (omega arith)

feature_data_in_range_example :
    (s : ℕ) × (feature_data (pos 64) (pos 4) (pos 1) (pos 8) (pos 10) (pos 3) (pos 1) ≡ pos s)
    × (s < 64 * 4 * 1)
feature_data_in_range_example =
    feature_data_in_range 64 4 1 8 10 3 1 (omega arith) (omega arith) (omega arith)

feature_data_injective_example : (channel ≡ channel) × (row ≡ row) × (column ≡ column)
feature_data_injective_example =
    feature_data_injective 64 4 1 8 channel row column channel row column (omega arith)
      (omega arith) (omega arith) refl
