-- ===== src/Npu/Layout.antt =====
-- `feature_data`, `weight_fp16` and `weight_int8` of src/npu_matmul.c: the position, in the
-- NPU's blocked layouts, of the element with the given coordinates, which count from 1.
-- The arithmetic is that of `int` where it does not overflow, which C leaves undefined.
pub mod Formula
pub mod Weights
pub mod Features
use librocket.Prelude.Int.{ℤ, pos, ◌+ℤ◌, ◌-ℤ◌, ◌*ℤ◌, ◌/ℤ◌, ◌%ℤ◌}

unfoldable pub feature_data : ℤ → ℤ → ℤ → ℤ → ℤ → ℤ → ℤ → ℤ
feature_data C H W C2 c h w =
    let plane = (c -ℤ pos 1) /ℤ C2 in
    let src = plane *ℤ H *ℤ W *ℤ C2 in
    let offset = (c -ℤ pos 1) %ℤ C2 in src +ℤ C2 *ℤ ((h -ℤ pos 1) *ℤ W +ℤ (w -ℤ pos 1)) +ℤ offset

unfoldable pub weight_fp16 : ℤ → ℤ → ℤ → ℤ
weight_fp16 C k c =
    let kpg = (k -ℤ pos 1) /ℤ pos 16 in
    let cpg = (c -ℤ pos 1) /ℤ pos 32 in
    let dst = cpg *ℤ pos 32 *ℤ pos 16 +ℤ kpg *ℤ pos 16 *ℤ C in
    dst +ℤ (c -ℤ pos 1) %ℤ pos 32 +ℤ (k -ℤ pos 1) %ℤ pos 16 *ℤ pos 32

unfoldable pub weight_int8 : ℤ → ℤ → ℤ → ℤ
weight_int8 C k c =
    let kpg = (k -ℤ pos 1) /ℤ pos 32 in
    let cpg = (c -ℤ pos 1) /ℤ pos 32 in
    let dst = cpg *ℤ pos 32 *ℤ pos 32 +ℤ kpg *ℤ pos 32 *ℤ C in
    dst +ℤ (c -ℤ pos 1) %ℤ pos 32 +ℤ (k -ℤ pos 1) %ℤ pos 32 *ℤ pos 32
