-- ===== src/Npu/Layout/Features.antt =====
-- `feature_data` maps the coordinates of a C x H x W feature cube to different positions among
-- 0 .. C * H * W - 1, for C a multiple of the depth of a surface.
use librocket.Prelude.{
  ℕ, ◌+◌, ◌-◌, ◌*◌, ◌/◌, ◌%◌, ◌≤◌, ◌<◌, ◌≡◌, ap, arith, digit_unique, digit_bound, div_bound,
  right_factor_pos,
}
use native.Mathlib.Nat.{mod-lt, div-add-mod'}
use librocket.Prelude.Int.{pos}
use librocket.Npu.Layout.{feature_data}
use librocket.Npu.Layout.Formula.{feature_data_nat}
use librocket.Npu.Layout.Weights.{multiple, from_one}

-- Coordinates of a C x H x W cube, counted from 1.
abbrev pub InCube : (C H W c h w : ℕ) → Type 0
InCube C H W c h w = (1 ≤ c) × (c ≤ C) × (1 ≤ h) × (h ≤ H) × (1 ≤ w) × (w ≤ W)

slot : (H W C2 c h w : ℕ) → ℕ
slot H W C2 c h w = ((c / C2 * H + h) * W + w) * C2 + c % C2

feature_data-slot :
    (C H W C2 c h w : ℕ)
    → InCube C H W c h w
    → feature_data (pos C) (pos H) (pos W) (pos C2) (pos c) (pos h) (pos w)
      ≡ pos (slot H W C2 (c - 1) (h - 1) (w - 1))
unfolding slot
feature_data-slot C H W C2 c h w (c1, cC, h1, hH, w1, wW) =
    cc (
      from_one c c1,
      from_one h h1,
      from_one w w1,
      feature_data_nat C H W C2 (c - 1) (h - 1) (w - 1),
    )

slot-lt : (S H W C2 c h w : ℕ) → c < S * C2 → h < H → w < W → slot H W C2 c h w < S * H * W * C2
unfolding slot
slot-lt S H W C2 c h w hc hh hw =
    let depth : 0 < C2 = right_factor_pos C2 S c hc in
    digit_bound C2 (S * H * W) ((c / C2 * H + h) * W + w) (c % C2)
      (digit_bound W (S * H) (c / C2 * H + h) w
        (digit_bound H S (c / C2) h (div_bound C2 S c hc) hh) hw)
      (mod-lt c depth)

slot_unique :
    (H W C2 c h w d i v : ℕ)
    → 0 < C2
    → h < H
    → i < H
    → w < W
    → v < W
    → slot H W C2 c h w ≡ slot H W C2 d i v
    → (c ≡ d) × (h ≡ i) × (w ≡ v)
unfolding slot
slot_unique H W C2 c h w d i v depth hh hi hw hv e =
    let (rest, low) =
      digit_unique C2 ((c / C2 * H + h) * W + w) ((d / C2 * H + i) * W + v) (c % C2) (d % C2)
        (mod-lt c depth) (mod-lt d depth) e in
    let (plane_row, col) = digit_unique W (c / C2 * H + h) (d / C2 * H + i) w v hw hv rest in
    let (plane, row) = digit_unique H (c / C2) (d / C2) h i hh hi plane_row in
    (
      omega (arith, ap (λ (t : ℕ). t * C2) plane, low, div-add-mod' c C2, div-add-mod' d C2),
      row,
      col,
    )

-- Elements of a C x H x W cube, with C a multiple of a depth above 0, lie inside the C * H * W
-- positions of the buffer.
pub feature_data_in_range :
    (C H W C2 c h w : ℕ)
    → C % C2 ≡ 0
    → 0 < C2
    → InCube C H W c h w
    → (s : ℕ) × (feature_data (pos C) (pos H) (pos W) (pos C2) (pos c) (pos h) (pos w) ≡ pos s)
      × (s < C * H * W)
feature_data_in_range C H W C2 c h w hC depth m =
    let (c1, cC, h1, hH, w1, wW) = m in
    let C-eq = multiple C C2 hC in
    (
      slot H W C2 (c - 1) (h - 1) (w - 1),
      feature_data-slot C H W C2 c h w m,
      omega (
        arith,
        slot-lt (C / C2) H W C2 (c - 1) (h - 1) (w - 1) (omega arith) (omega arith) (omega arith),
        ap (λ (t : ℕ). t * H * W) C-eq,
      ),
    )

-- Two elements of a C x H x W cube have different positions, for a surface depth above 0.
pub feature_data_injective :
    (C H W C2 c h w d i v : ℕ)
    → 0 < C2
    → InCube C H W c h w
    → InCube C H W d i v
    → feature_data (pos C) (pos H) (pos W) (pos C2) (pos c) (pos h) (pos w)
      ≡ feature_data (pos C) (pos H) (pos W) (pos C2) (pos d) (pos i) (pos v)
    → (c ≡ d) × (h ≡ i) × (w ≡ v)
feature_data_injective C H W C2 c h w d i v depth m m' e =
    let same : slot H W C2 (c - 1) (h - 1) (w - 1) ≡ slot H W C2 (d - 1) (i - 1) (v - 1) =
      cc (feature_data-slot C H W C2 c h w m, feature_data-slot C H W C2 d i v m') in
    omega (
      arith,
      slot_unique H W C2 (c - 1) (h - 1) (w - 1) (d - 1) (i - 1) (v - 1) depth (omega arith)
          (omega arith) (omega arith) (omega arith) same,
    )
