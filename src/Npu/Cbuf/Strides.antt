-- ===== src/Npu/Cbuf/Strides.antt =====
-- The surface stride of the input, as its register holds it.
use librocket.Prelude.{ℕ, ◌+◌, ◌-◌, ◌*◌, ◌/◌, ◌%◌, ◌^◌, ◌≤◌, ◌<◌, ◌≡◌, arith, ltb, if◌then◌else◌}
use librocket.Npu.Cbuf.{surf_stride_of}

-- The low 28 bits of 4 * (m / 4 - 1), or of -4 + 1 where that is negative.
abbrev pub surface_stride : ℕ → ℕ
surface_stride m = if ltb m 4 then 2 ^ 28 - 3 else 4 * (m / 4 - 1)

pub surface_stride_lem :
    (m : ℕ) → 1 ≤ m → m + 1 < 2 ^ 10 → surf_stride_of (1 * 4) m % 2 ^ 28 ≡ surface_stride m
unfolding surf_stride_of
surface_stride_lem m some_rows rows = ground arith
