-- ===== src/Prelude/Bits.antt =====
-- A mask of low bits is a remainder, and `|` of disjoint fields is a sum, at every width.
mod Step
use Step.{or_halves, and_halves}
use Prim.Native.Nat.{ℕ, zero, suc, ◌+◌, ◌*◌, ◌/◌, ◌%◌, ◌^◌, ◌<◌, bit_and, bit_or}
use mathlib.Core.Path.{◌≡◌, refl, ap}
use mathlib.Core.WellFounded
use native.Mathlib.Nat.{pow-suc, one-le-pow, div-add-mod'}
use native.Mathlib.Omega.{arith}
use librocket.Prelude.Word.{◌<<◌, low_mask}
use librocket.Prelude.Order.{lt_wf}

bit_or-zero : (a : ℕ) → bit_or a 0 ≡ a
bit_or-zero a = WellFounded.induction lt_wf a halve
  where
    halve : (n : ℕ) → ((m : ℕ) → m < n → bit_or m 0 ≡ m) → bit_or n 0 ≡ n
    halve zero ih = refl
    halve (suc n) ih = omega (arith, or_halves (suc n) 0, ih (suc n / 2) (omega arith))

bit_and-zero : (a : ℕ) → bit_and a 0 ≡ 0
bit_and-zero a = WellFounded.induction lt_wf a halve
  where
    halve : (n : ℕ) → ((m : ℕ) → m < n → bit_and m 0 ≡ 0) → bit_and n 0 ≡ 0
    halve zero ih = refl
    halve (suc n) ih = omega (arith, and_halves (suc n) 0, ih (suc n / 2) (omega arith))

double_shift : (q k : ℕ) → q * 2 ^ suc k ≡ 2 * (q * 2 ^ k)
double_shift q k = omega (arith, ap (λ (t : ℕ). q * t) (pow-suc 2 k))

-- `(q << k) | r` is a sum when `r` fits k bits.
pub or_field : (k q r : ℕ) → r < 2 ^ k → bit_or (q << k) r ≡ q * 2 ^ k + r
or_field zero q r fits = ground (arith, bit_or-zero q)
or_field (suc k) q r fits =
    ground
      (arith, or_halves (q * 2 ^ suc k) r, double_shift q k, or_field k q (r / 2) (omega arith))

and_field : (k q r : ℕ) → r < 2 ^ k → bit_and (q * 2 ^ k + r) (low_mask k) ≡ r
and_field zero q r fits = rw bit_and-zero (omega arith)
and_field (suc k) q r fits = ground (
  arith,
  and_halves (q * 2 ^ suc k + r) (low_mask (suc k)),
  double_shift q k,
  pow-suc 2 k,
  and_field k q (r / 2) (omega arith),
)

-- A mask of k low bits is the remainder by 2 ^ k.
pub and_mask : (k a : ℕ) → bit_and a (low_mask k) ≡ a % 2 ^ k
and_mask k a = ground (arith, one-le-pow k 2, and_field k (a / 2 ^ k) (a % 2 ^ k))

-- `x | r` is a sum when the k low bits of x are clear and r fits them.
pub or_add : (k x r : ℕ) → x % 2 ^ k ≡ 0 → r < 2 ^ k → bit_or x r ≡ x + r
or_add k x r clear fits =
    let whole : x ≡ (x / 2 ^ k) << k = omega (arith, div-add-mod' x (2 ^ k)) in
    rw whole (or_field k (x / 2 ^ k) r fits)

-- `|` on the bits from k on, with k low bits that only the right side has.
pub or_high : (k q p r : ℕ) → r < 2 ^ k → bit_or (q << k) (p * 2 ^ k + r) ≡ bit_or q p * 2 ^ k + r
or_high zero q p r fits = ground (arith)
or_high (suc k) q p r fits = ground (
  arith,
  or_halves (q * 2 ^ suc k) (p * 2 ^ suc k + r),
  double_shift q k,
  double_shift p k,
  double_shift (bit_or q p) k,
  or_high k q p (r / 2) (omega arith),
)

-- `&` on multiples of 2 ^ k.
pub and_high : (k q p : ℕ) → bit_and (q * 2 ^ k) (p * 2 ^ k) ≡ bit_and q p * 2 ^ k
and_high zero q p = ground (arith)
and_high (suc k) q p = ground (
  arith,
  and_halves (q * 2 ^ suc k) (p * 2 ^ suc k),
  double_shift q k,
  double_shift p k,
  double_shift (bit_and q p) k,
  and_high k q p,
)

-- `x | 1` sets the lowest bit.
pub or_one : (x : ℕ) → bit_or x 1 ≡ x / 2 * 2 + 1
or_one x = omega (arith, or_halves x 1, bit_or-zero (x / 2))

zero-bit_or : (b : ℕ) → bit_or 0 b ≡ b
zero-bit_or b = WellFounded.induction lt_wf b halve
  where
    halve : (n : ℕ) → ((m : ℕ) → m < n → bit_or 0 m ≡ m) → bit_or 0 n ≡ n
    halve zero ih = refl
    halve (suc n) ih = omega (arith, or_halves 0 (suc n), ih (suc n / 2) (omega arith))

-- The field may also stand on the right: `r | (q << k)`.
pub or_low : (k r q : ℕ) → r < 2 ^ k → bit_or r (q << k) ≡ q * 2 ^ k + r
or_low zero r q fits = ground (arith, zero-bit_or q)
or_low (suc k) r q fits =
    ground (arith, or_halves r (q * 2 ^ suc k), double_shift q k, or_low k (r / 2) q (omega arith))
