-- ===== src/Prelude/Radix.antt =====
-- Numbers written in a mixed radix: a quotient and a remainder are found again from their sum.
use Prim.Native.Nat.{ℕ, zero, suc, ◌+◌, ◌*◌, ◌/◌, ◌%◌, ◌^◌, ◌<◌}
use mathlib.Core.Path.{◌≡◌, ap}
use native.Mathlib.Omega.{arith}
use native.Mathlib.Decide.{dec_lt}
use native.Mathlib.Nat.{div-add-mod', div-lt_iff_lt-mul, mod-lt, pow-suc}

-- A larger quotient gives a larger number, whatever the remainders.
pub digit_lt : (n q p r s : ℕ) → r < n → q < p → q * n + r < p * n + s
digit_lt n q p r s hr h = grind arith

pub digit_bound : (n m q r : ℕ) → q < m → r < n → q * n + r < m * n
digit_bound n m q r hq hr = grind arith

pub digit_unique : (n q p r s : ℕ) → r < n → s < n → q * n + r ≡ p * n + s → (q ≡ p) × (r ≡ s)
digit_unique n q p r s hr hs e = elim (dec_lt q p) [
  | yes h ↦ absurd (omega (arith, digit_lt n q p r s hr h))
  | no h ↦ elim (dec_lt p q) [
    | yes h' ↦ absurd (omega (arith, digit_lt n p q s r hs h'))
    | no h' ↦ let same : q ≡ p = omega arith in (same, omega (arith, ap (λ (t : ℕ). t * n) same))
  ]
]

pub right_factor_pos : (n m a : ℕ) → a < m * n → 0 < n
right_factor_pos zero m a h = absurd (omega arith)
right_factor_pos (suc n) m a h = omega arith

pub div_bound : (n m a : ℕ) → a < m * n → a / n < m
div_bound n m a h = (div-lt_iff_lt-mul (right_factor_pos n m a h)).1 h

-- The digits of a + q * n, for a digit a.
pub radix_div : (n q r : ℕ) → r < n → (q * n + r) / n ≡ q
radix_div n q r h =
    (digit_unique n ((q * n + r) / n) q ((q * n + r) % n) r
      (omega (arith, mod-lt (q * n + r) {m = n} (omega arith))) h (div-add-mod' (q * n + r) n)).0

pub radix_mod : (n q r : ℕ) → r < n → (q * n + r) % n ≡ r
radix_mod n q r h =
    (digit_unique n ((q * n + r) / n) q ((q * n + r) % n) r
      (omega (arith, mod-lt (q * n + r) {m = n} (omega arith))) h (div-add-mod' (q * n + r) n)).1

pub pow_add : (a b : ℕ) → 2 ^ (a + b) ≡ 2 ^ a * 2 ^ b
pow_add zero b = let e : 0 + b ≡ b = omega arith in rw e (omega arith)
pow_add (suc a) b =
    let e : suc a + b ≡ suc (a + b) = omega arith in
    rw e (
      omega (
        arith,
        pow-suc 2 (a + b),
        pow-suc 2 a,
        ap (λ (t : ℕ). t * 2) (pow_add a b),
        ap (λ (t : ℕ). t * 2 ^ b) (pow-suc 2 a),
      ))
