-- ===== src/Prelude/Word.antt =====
-- C's unsigned conversions, shifts and masks. A value of a w-bit type is a number below 2 ^ w.
use Prim.Native.Nat.{ℕ, ◌+◌, ◌-◌, ◌*◌, ◌/◌, ◌%◌, ◌^◌, bit_and, bit_or}

abbrev pub u8 : ℕ → ℕ
u8 n = n % 2 ^ 8

abbrev pub u16 : ℕ → ℕ
u16 n = n % 2 ^ 16

abbrev pub u32 : ℕ → ℕ
u32 n = n % 2 ^ 32

abbrev pub u64 : ℕ → ℕ
u64 n = n % 2 ^ 64

-- x << k, before the result is cut to its type.
infixl 62 ◌<<◌
abbrev pub ◌<<◌ : ℕ → ℕ → ℕ
x << k = x * 2 ^ k

infixl 58 ◌&◌
abbrev pub ◌&◌ : ℕ → ℕ → ℕ
x & y = bit_and x y

infixl 55 ◌bitor◌
abbrev pub ◌bitor◌ : ℕ → ℕ → ℕ
x bitor y = bit_or x y

-- 2 ^ k - 1
abbrev pub low_mask : ℕ → ℕ
low_mask k = 2 ^ k - 1

-- The w bits of x from bit s on.
abbrev pub bits : ℕ → ℕ → ℕ → ℕ
bits s w x = x / 2 ^ s % 2 ^ w

-- a - b in 32-bit arithmetic, which wraps; a bit pattern where C computes in `int`.
abbrev pub sub32 : ℕ → ℕ → ℕ
sub32 a b = (a + 2 ^ 32 - b) % 2 ^ 32
