-- ===== src/Prelude/Bits/Step.antt =====
-- `bit_or` and `bit_and` in terms of the halves of their arguments. The library defines both by a
-- recursion on fuel, of which the left argument is enough.
use Prim.Native.Nat.{
  ℕ, zero, suc, ◌+◌, ◌*◌, ◌/◌, ◌%◌, ◌≤◌, bit_and, bit_or, min, max, digits, bitwise,
  bit_and-bitwise, bit_or-bitwise,
}
use mathlib.Core.Path.{◌≡◌, refl, ap, sym, ◌∙◌}
use native.Mathlib.Decide.{dec_le}
use native.Mathlib.Omega.{arith}

module _ (alone : ℕ → ℕ) (join : ℕ → ℕ → ℕ) where
  spare_fuel :
      (fuel left right : ℕ)
      → left ≤ fuel
      → digits alone join (suc fuel) left right ≡ digits alone join fuel left right
  spare_fuel zero zero right h = refl
  spare_fuel zero (suc left) right h = absurd (omega arith)
  spare_fuel (suc fuel) zero right h = refl
  spare_fuel (suc fuel) (suc left) right h =
      ap (λ (t : ℕ). t * 2 + join (suc left % 2) (right % 2))
        (spare_fuel fuel (suc left / 2) (right / 2) (omega arith))

  enough_fuel :
      (fuel left right : ℕ)
      → left ≤ fuel
      → digits alone join fuel left right ≡ bitwise alone join left right
  enough_fuel zero zero right h = refl
  enough_fuel zero (suc left) right h = absurd (omega arith)
  enough_fuel (suc fuel) left right h = elim (dec_le left fuel) [
    | yes less ↦ spare_fuel fuel left right less ∙ enough_fuel fuel left right less
    | no more ↦
        let all : suc fuel ≡ left = omega arith in
        ap (λ (n : ℕ). digits alone join n left right) all
  ]

  bitwise-suc :
      (left right : ℕ)
      → bitwise alone join (suc left) right
        ≡ bitwise alone join (suc left / 2) (right / 2) * 2 + join (suc left % 2) (right % 2)
  bitwise-suc left right =
      ap (λ (t : ℕ). t * 2 + join (suc left % 2) (right % 2))
        (enough_fuel left (suc left / 2) (right / 2) (omega arith))

pub or_halves : (x y : ℕ) → bit_or (x / 2) (y / 2) * 2 + max (x % 2) (y % 2) ≡ bit_or x y
or_halves zero y = simp bit_or-bitwise (omega arith)
or_halves (suc x) y = simp bit_or-bitwise (sym (bitwise-suc (λ t. t) max x y))

pub and_halves : (x y : ℕ) → bit_and (x / 2) (y / 2) * 2 + min (x % 2) (y % 2) ≡ bit_and x y
and_halves zero y = simp bit_and-bitwise (omega arith)
and_halves (suc x) y = simp bit_and-bitwise (sym (bitwise-suc (λ t. zero) min x y))
