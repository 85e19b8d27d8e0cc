-- ===== src/Npu/Cbuf.antt =====
-- The CBUF allocation that `gen_matmul_fp16` and `gen_matmul_int8` of src/npu_matmul.c have in
-- common, and the other sizes that both compute in the same way.
pub mod Banks
pub mod Outcome
pub mod Strides
use librocket.Prelude.{
  ℕ, ◌+◌, ◌-◌, ◌*◌, ◌/◌, ◌%◌, ◌^◌, Option, none, some, ltb, leb, ◌==◌, if◌then◌else◌, u16, u32,
  sub32,
}
use librocket.Prelude.Int.{ℤ, negsuc}
use librocket.Npu.Hw.{npu_cbuf_bank_size, npu_cbuf_banks}

-- x / size, and one more where that leaves a remainder.
unfoldable pub round_up : ℕ → ℕ → ℕ
round_up size x = if x % size == 0 then x / size else x / size + 1

-- `a * b` in `int`, of numbers that are not negative; where it overflows, C leaves the behaviour
-- undefined, and there is no result.
unfoldable pub int_product : ℕ → ℕ → Option ℕ
int_product a b = if ltb (a * b) (2 ^ 31) then some (a * b) else none

pub data Allocation : Type 0 where
  reject : ℤ → Allocation
  banks : (fd_banks weight_banks : ℕ) → Allocation

-- The banks of the feature data, and the rest of the CBUF for the weights.
unfoldable pub allocate : (fd_bytes weight_bytes_per_kernel : ℕ) → Allocation
unfolding round_up
allocate fd_bytes weight_bytes_per_kernel =
    let fd_banks = round_up npu_cbuf_bank_size fd_bytes in
    if ltb (npu_cbuf_banks - 1) fd_banks
    then reject (negsuc 0)
    else if leb weight_bytes_per_kernel npu_cbuf_bank_size
    then banks fd_banks (npu_cbuf_banks - fd_banks)
    else reject (negsuc 1)

-- The bit pattern of the `int surf_stride`: negative from 2 ^ 31 on.
unfoldable pub surf_stride_of : (line_stride datain_height : ℕ) → ℕ
surf_stride_of line_stride datain_height =
    let surf_stride = u32 (line_stride * sub32 (datain_height / 4) 1) in
    if leb (2 ^ 31) surf_stride then u32 (surf_stride + 1) else surf_stride

-- An `int` difference x - 1, cut to a uint16_t.
unfoldable pub less_one16 : ℕ → ℕ
less_one16 x = u16 (x + 2 ^ 16 - 1)
