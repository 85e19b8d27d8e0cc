-- ===== src/Npu/Cbuf/Banks.antt =====
-- The allocation keeps within the CBUF, and it refuses exactly what does not fit.
use librocket.Prelude.{ℕ, ◌+◌, ◌-◌, ◌*◌, ◌/◌, ◌%◌, ◌≤◌, ◌<◌, ◌≡◌, ◌≢◌, arith}
use native.Mathlib.Nat.{div-add-mod', mod-lt, div-le_of_le-mul, mul_comm}
use native.Mathlib.Decide.{ℕ_discrete}
use librocket.Prelude.Int.{negsuc}
use librocket.Npu.Cbuf.{round_up, allocate, reject, banks}

quotient_lt : (size q n r : ℕ) → q * size + r ≤ n * size → r ≢ 0 → q < n
quotient_lt size q n r h odd = grind arith

round_up_even : (size x : ℕ) → x % size ≡ 0 → round_up size x ≡ x / size
unfolding round_up
round_up_even size x e = ground arith

round_up_odd : (size x : ℕ) → x % size ≢ 0 → round_up size x ≡ x / size + 1
unfolding round_up
round_up_odd size x e = ground arith

-- For a size above 0 and an x that fits n units of that size: the units that `round_up` counts hold
-- x, and they are at most n.
pub round_up_least :
    (size x n : ℕ) → 0 < size → x ≤ n * size → (x ≤ round_up size x * size) × (round_up size x ≤ n)
round_up_least size x n pos h = elim (ℕ_discrete (x % size) 0) [
  | yes even ↦
      let q-le : x / size ≤ n = div-le_of_le-mul size (rw mul_comm h) in
      rw (round_up_even size x even) (omega (arith, div-add-mod' x size, even), q-le)
  | no odd ↦
      let q-lt : x / size < n =
        quotient_lt size (x / size) n (x % size) (rw (div-add-mod' x size) h) odd in
      let below : x % size < size = mod-lt x pos in
      rw (round_up_odd size x odd) (omega (arith, div-add-mod' x size, below), omega (arith, q-lt))
]

pub allocate_accepts :
    (fd wb : ℕ)
    → fd ≤ 360448
    → wb ≤ 32768
    → allocate fd wb ≡ banks (round_up 32768 fd) (12 - round_up 32768 fd)
unfolding allocate
allocate_accepts fd wb hf hw = ground arith

pub allocate_no_data : (fd wb : ℕ) → 360448 < fd → allocate fd wb ≡ reject (negsuc 0)
unfolding allocate
allocate_no_data fd wb hf = ground arith

pub allocate_no_weights :
    (fd wb : ℕ) → fd ≤ 360448 → 32768 < wb → allocate fd wb ≡ reject (negsuc 1)
unfolding allocate
allocate_no_weights fd wb hf hw = ground arith
