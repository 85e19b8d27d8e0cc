-- ===== src/Examples/Data.antt =====
-- The inputs of the runs.
use librocket.Prelude.{ℕ, zero, suc, List, [], ◌∷◌}
use librocket.Prelude.{◌+◌, ◌*◌, ◌==◌}
use mathlib.Core.Bool.{not}
use librocket.Driver.Matmul.{Arithmetic}
use librocket.Npu.Desc.{Params, CnaDesc, CoreDesc, DpuDesc}
use librocket.Npu.Fp16.{cna_desc, core_desc, dpu_desc}

-- A 4 x 32 by 32 x 16 product.
abbrev pub small : Params
small = record {
  m = 4;
  k = 32;
  n = 16;
  input_dma = 0x10000;
  weights_dma = 0x20000;
  output_dma = 0x30000;
  fp32tofp16 = 1;
}

-- 2048 rows of 256 channels: more feature data than the CBUF holds.
abbrev pub tall : Params
tall = record {
  m = 2048;
  k = 256;
  n = 16;
  input_dma = 0x10000;
  weights_dma = 0x20000;
  output_dma = 0x30000;
  fp32tofp16 = 1;
}

-- One row of 40000 channels: kernels that do not fit a bank.
abbrev pub deep : Params
deep = record {
  m = 1;
  k = 40000;
  n = 16;
  input_dma = 0x10000;
  weights_dma = 0x20000;
  output_dma = 0x30000;
  fp32tofp16 = 1;
}

-- 2052 rows and 8208 kernels: both too many for their fields.
abbrev pub broad : Params
broad = record {
  m = 2052;
  k = 32;
  n = 8208;
  input_dma = 0x10000;
  weights_dma = 0x20000;
  output_dma = 0x30000;
  fp32tofp16 = 1;
}

abbrev pub zeros : ℕ → List ℕ
zeros zero = []
zeros (suc n) = 0 ∷ zeros n

abbrev pub cna : CnaDesc
cna = cna_desc 1 11 small

abbrev pub core : CoreDesc
core = core_desc small

abbrev pub dpu : DpuDesc
dpu = dpu_desc small

-- Whole numbers in place of floating-point ones.
abbrev pub whole : Arithmetic
whole = record {
  Half = ℕ;
  Float = ℕ;
  zero_half = 0;
  zero_float = 0;
  accumulate = λ sum a b. sum + a * b;
  differs = λ x y. not (x == y);
}
