-- ===== src/Npu/Layout/Weights.antt =====
-- The weight layouts lay the N x C elements of a weight matrix out over the N * C positions of
-- its buffer, each position once. What the two layouts share stands here.
pub mod Fp16
pub mod Int8
use native.Mathlib.Nat.{div-add-mod'}
use librocket.Prelude.{ℕ, suc, ◌+◌, ◌-◌, ◌*◌, ◌/◌, ◌%◌, ◌≤◌, ◌≡◌, arith}

-- Coordinates of an N x C weight matrix, counted from 1.
abbrev pub InMatrix : (N C k c : ℕ) → Type 0
InMatrix N C k c = (1 ≤ k) × (k ≤ N) × (1 ≤ c) × (c ≤ C)

-- The coordinates less one of the element at a position.
unfoldable pub row_of : ℕ → ℕ → ℕ → ℕ
row_of G P s = s / (G * 32) / P * G + s % (G * 32) / 32

unfoldable pub col_of : ℕ → ℕ → ℕ → ℕ
col_of G P s = s / (G * 32) % P * 32 + s % 32

pub multiple : (n d : ℕ) → n % d ≡ 0 → n ≡ n / d * d
multiple n d h = omega (arith, div-add-mod' n d)

pub from_one : (n : ℕ) → 1 ≤ n → n ≡ suc (n - 1)
from_one n h = omega arith
