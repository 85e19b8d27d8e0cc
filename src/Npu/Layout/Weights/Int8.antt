-- ===== src/Npu/Layout/Weights/Int8.antt =====
-- `weight_int8` is a bijection from the coordinates of an N x C matrix to 0 .. N * C - 1, for C a
-- multiple of 32 and N a multiple of 32.
use librocket.Prelude.{
  ℕ, suc, ◌+◌, ◌-◌, ◌*◌, ◌/◌, ◌%◌, ◌<◌, ◌≡◌, ◌∙◌, ap, arith, digit_unique, digit_bound, div_bound,
  right_factor_pos,
}
use native.Mathlib.Nat.{mod-lt, div-add-mod'}
use mathlib.Core.Path.{ap₂}
use librocket.Prelude.Int.{pos}
use librocket.Npu.Layout.{weight_int8}
use librocket.Npu.Layout.Formula.{weight_int8_nat, weight_int8_radix}
use librocket.Npu.Layout.Weights.{InMatrix, row_of, col_of, multiple, from_one}

slot : ℕ → ℕ → ℕ → ℕ
slot P k c = (k / 32 * P + c / 32) * 1024 + (k % 32 * 32 + c % 32)

slot_lem : (P k c : ℕ) → weight_int8 (pos (P * 32)) (pos (suc k)) (pos (suc c)) ≡ pos (slot P k c)
unfolding slot
slot_lem P k c = weight_int8_nat (P * 32) k c ∙ ap pos (weight_int8_radix P k c)

slot-lt : (Q P k c : ℕ) → k < Q * 32 → c < P * 32 → slot P k c < Q * 32 * (P * 32)
unfolding slot
slot-lt Q P k c hk hc = omega (arith, digit_bound P Q (k / 32) (c / 32) (omega arith) (omega arith))

slot_unique :
    (P k c j d : ℕ) → c < P * 32 → d < P * 32 → slot P k c ≡ slot P j d → (k ≡ j) × (c ≡ d)
unfolding slot
slot_unique P k c j d hc hd e =
    let (block, place) =
      digit_unique 1024 (k / 32 * P + c / 32) (j / 32 * P + d / 32) (k % 32 * 32 + c % 32)
        (j % 32 * 32 + d % 32) (omega arith) (omega arith) e in
    let (row, col) =
      digit_unique P (k / 32) (j / 32) (c / 32) (d / 32) (omega arith) (omega arith) block in
    (omega arith, omega arith)

slot_found :
    (Q P s : ℕ)
    → s < Q * 32 * (P * 32)
    → (row_of 32 P s < Q * 32)
      × (col_of 32 P s < P * 32)
      × (slot P (row_of 32 P s) (col_of 32 P s) ≡ s)
unfolding slot row_of col_of
slot_found Q P s h =
    let in_block : s / 1024 < Q * P = omega arith in
    let some_block : 0 < P = right_factor_pos P Q (s / 1024) in_block in
    let row_in : s / 1024 / P < Q = div_bound P Q (s / 1024) in_block in
    let col_in : s / 1024 % P < P = mod-lt (s / 1024) some_block in
    let row : (s / 1024 / P * 32 + s % 1024 / 32) / 32 ≡ s / 1024 / P = omega arith in
    let col : (s / 1024 % P * 32 + s % 32) / 32 ≡ s / 1024 % P = omega arith in
    (omega arith, omega arith, rw (row, col) (omega (arith, div-add-mod' (s / 1024) P)))

-- A position as the code computes it, for C and the coordinates as C's `int`s.
weight_int8-slot :
    (N C k c : ℕ)
    → C % 32 ≡ 0
    → InMatrix N C k c
    → weight_int8 (pos C) (pos k) (pos c) ≡ pos (slot (C / 32) (k - 1) (c - 1))
weight_int8-slot N C k c hC m =
    cc (multiple C 32 hC, from_one k m.0, from_one c m.2, slot_lem (C / 32) (k - 1) (c - 1))

-- Elements of an N x C matrix, with C a multiple of 32 and N of 32, lie inside the N * C positions
-- of the buffer.
pub weight_int8_in_range :
    (N C k c : ℕ)
    → N % 32 ≡ 0
    → C % 32 ≡ 0
    → InMatrix N C k c
    → (s : ℕ) × (weight_int8 (pos C) (pos k) (pos c) ≡ pos s) × (s < N * C)
weight_int8_in_range N C k c hN hC m = (
  slot (C / 32) (k - 1) (c - 1),
  weight_int8-slot N C k c hC m,
  omega (
    arith,
    slot-lt (N / 32) (C / 32) (k - 1) (c - 1) (omega arith) (omega arith),
    ap₂ ◌*◌ (multiple N 32 hN) (multiple C 32 hC),
  ),
)

-- Two elements of a matrix whose channel count C is a multiple of 32 have different positions.
pub weight_int8_injective :
    (N C k c j d : ℕ)
    → C % 32 ≡ 0
    → InMatrix N C k c
    → InMatrix N C j d
    → weight_int8 (pos C) (pos k) (pos c) ≡ weight_int8 (pos C) (pos j) (pos d)
    → (k ≡ j) × (c ≡ d)
weight_int8_injective N C k c j d hC m m' e =
    let same : slot (C / 32) (k - 1) (c - 1) ≡ slot (C / 32) (j - 1) (d - 1) =
      cc (weight_int8-slot N C k c hC m, weight_int8-slot N C j d hC m') in
    omega
      (arith, slot_unique (C / 32) (k - 1) (c - 1) (j - 1) (d - 1) (omega arith) (omega arith) same)

-- Each of the N * C positions of the buffer is the position of an element, with C a multiple of 32
-- and N of 32.
pub weight_int8_onto :
    (N C s : ℕ)
    → N % 32 ≡ 0
    → C % 32 ≡ 0
    → s < N * C
    → (k : ℕ) × (c : ℕ) × InMatrix N C k c × (weight_int8 (pos C) (pos k) (pos c) ≡ pos s)
weight_int8_onto N C s hN hC h =
    let whole : s < N / 32 * 32 * (C / 32 * 32) =
      omega (arith, ap₂ ◌*◌ (multiple N 32 hN) (multiple C 32 hC)) in
    let (row, col, here) = slot_found (N / 32) (C / 32) s whole in
    (
      suc (row_of 32 (C / 32) s),
      suc (col_of 32 (C / 32) s),
      omega arith,
      cc (multiple C 32 hC, slot_lem (C / 32) (row_of 32 (C / 32) s) (col_of 32 (C / 32) s)),
    )
