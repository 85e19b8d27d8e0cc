-- ===== src/Mesa/Output.antt =====
-- What the words of `gen_matmul_fp16` say to the device: the fields of each word, read back.
use librocket.Prelude.{
  ℕ, bit_and, ◌+◌, ◌*◌, ◌/◌, ◌^◌, ◌≤◌, ◌<◌, ◌≡◌, refl, ap, sym, ◌∙◌, List, [], ◌∷◌, ◌++◌, map, some,
  length, drop, take, arith, u32, get_elem?,
}
use librocket.Prelude.Bits.{and_mask, or_low}
use librocket.Prelude.Int.{pos}
use librocket.Npu.Desc.{Params, IsParams}
use librocket.Npu.Hw.{Command, command}
use librocket.Npu.Hw.Decode.{decode}
use librocket.Regcmd.{word_of, sign_extend, mesa_regcmd}
use librocket.Regcmd.Words.{decode-mesa_regcmd, decode-mesa_regcmd_wide, wide_value_lost}
use librocket.Mesa.{
  number, conv_con1, data_size0, data_size1, weight_size2, fp16_regcmds, gen_matmul_fp16,
}
use librocket.Mesa.Generated.{gen_matmul_fp16_writes}

-- The commands that the device reads.
abbrev pub fp16_commands : Params → List Command
fp16_commands p =
    command 0x100 0 0x10
    ∷ command 0x100 0 0x14
    ∷ command 0x200 (2 ^ 4 + 2 ^ 7) 0x100c
    ∷ command 0x200 (p.m + 2 ^ 16) 0x1020
    ∷ command 0x200 p.k 0x1024
    ∷ command 0x200 (p.n + 2 ^ 16 + 2 ^ 24) 0x1038
    ∷ command 0x200 p.input_dma 0x1070
    ∷ command 0x200 p.weights_dma 0x1074
    ∷ command 0x1000 (p.output_dma / 2 * 2 + 1) 0x10
    ∷ command 0x1000 (p.n * 2 + 1) 0x18
    ∷ command 0x1000 (p.m * p.n * 2 + 1) 0x1c
    ∷ command 0x100 1 0x8
    ∷ command 0x200 1 0x1008
    ∷ command 0x1000 1 0x8
    ∷ command 0x1000 1 0x8
    ∷ command 0x200 0 0x1008
    ∷ command 0x100 0 0x8
    ∷ []

narrow :
    (t v r x : ℕ)
    → v ≡ x
    → t < 2 ^ 16
    → x < 2 ^ 32
    → r < 2 ^ 16
    → decode (mesa_regcmd t v r) ≡ command t x r
narrow t v r x e ht hx hr =
    ap (λ (y : ℕ). decode (mesa_regcmd t y r)) e ∙ decode-mesa_regcmd t x r ht hx hr

wide :
    (t v r x : ℕ)
    → v / 2 * 2 + 1 ≡ x
    → t < 2 ^ 16
    → v < 2 ^ 32
    → r < 2 ^ 16
    → decode (mesa_regcmd t v (2 ^ 16 + r)) ≡ command t x r
wide t v r x e ht hv hr = decode-mesa_regcmd_wide t v r ht hv hr ∙ ap (λ (y : ℕ). command t y r) e

data_size0_sum : (p : Params) → p.m < 2 ^ 16 → data_size0 p ≡ p.m + 2 ^ 16
unfolding data_size0
data_size0_sum p h = rw (or_low 16 (p.m * 2 ^ 0) 1 (omega arith)) (omega arith)

weight_size2_sum : (p : Params) → p.n < 2 ^ 16 → weight_size2 p ≡ p.n + 2 ^ 16 + 2 ^ 24
unfolding weight_size2
weight_size2_sum p h =
    rw
      (
        or_low 16 (p.n * 2 ^ 0) 1 (omega arith),
        or_low 24 (1 * 2 ^ 16 + p.n * 2 ^ 0) 1 (omega arith),
      )
      (omega arith)

sign_extend_small : (x : ℕ) → x < 2 ^ 31 → sign_extend (u32 x) ≡ x
sign_extend_small x h = ground arith

mask32 : (x : ℕ) → x < 2 ^ 32 → bit_and x 0xffffffff ≡ x
mask32 x h = and_mask 32 x ∙ omega arith

words_read :
    (p : Params)
    → IsParams p
    → p.m * p.n * 2 < 2 ^ 31
    → map decode (map word_of (fp16_regcmds p)) ≡ fp16_commands p
unfolding fp16_regcmds word_of number conv_con1 data_size1
words_read p v h =
    let stride : sign_extend (u32 (p.n * 2)) ≡ p.n * 2 =
      sign_extend_small (p.n * 2) (omega arith) in
    let surface : sign_extend (u32 (p.m * p.n * 2)) ≡ p.m * p.n * 2 =
      sign_extend_small (p.m * p.n * 2) h in
    λ i.
      narrow 0x100 0 0x10 0 refl (omega arith) (omega arith) (omega arith) i
      ∷ narrow 0x100 0 0x14 0 refl (omega arith) (omega arith) (omega arith) i
      ∷ narrow 0x200 144 0x100c 144 refl (omega arith) (omega arith) (omega arith) i
      ∷ narrow 0x200 (data_size0 p) 0x1020 (p.m + 2 ^ 16) (data_size0_sum p v.m_fits) (omega arith)
          (omega arith) (omega arith) i
      ∷ narrow 0x200 (u32 (p.k * 2 ^ 0)) 0x1024 p.k (omega arith) (omega arith) (omega arith)
          (omega arith) i
      ∷ narrow 0x200 (weight_size2 p) 0x1038 (p.n + 2 ^ 16 + 2 ^ 24) (weight_size2_sum p v.n_fits)
          (omega arith) (omega arith) (omega arith) i
      ∷ narrow 0x200 (bit_and p.input_dma 0xffffffff) 0x1070 p.input_dma
          (mask32 p.input_dma v.input_fits) (omega arith) (omega arith) (omega arith) i
      ∷ narrow 0x200 (bit_and p.weights_dma 0xffffffff) 0x1074 p.weights_dma
          (mask32 p.weights_dma v.weights_fits) (omega arith) (omega arith) (omega arith) i
      ∷ wide 0x1000 (bit_and p.output_dma 0xffffffff) 0x10 (p.output_dma / 2 * 2 + 1)
          (omega (arith, mask32 p.output_dma v.output_fits)) (omega arith)
          (omega (arith, mask32 p.output_dma v.output_fits)) (omega arith) i
      ∷ wide 0x1000 (sign_extend (u32 (p.n * 2))) 0x18 (p.n * 2 + 1) (omega (arith, stride))
          (omega arith) (omega (arith, stride)) (omega arith) i
      ∷ wide 0x1000 (sign_extend (u32 (p.m * p.n * 2))) 0x1c (p.m * p.n * 2 + 1)
          (omega (arith, surface)) (omega arith) (omega (arith, surface)) (omega arith) i
      ∷ narrow 0x100 1 0x8 1 refl (omega arith) (omega arith) (omega arith) i
      ∷ narrow 0x200 1 0x1008 1 refl (omega arith) (omega arith) (omega arith) i
      ∷ wide 0x1000 1 0x8 1 refl (omega arith) (omega arith) (omega arith) i
      ∷ wide 0x1000 0 0x8 1 refl (omega arith) (omega arith) (omega arith) i
      ∷ narrow 0x200 0 0x1008 0 refl (omega arith) (omega arith) (omega arith) i
      ∷ narrow 0x100 0 0x8 0 refl (omega arith) (omega arith) (omega arith) i
      ∷ []

prefix :
    (p : Params) (rest : List ℕ)
    → map decode (take 17 (map word_of (fp16_regcmds p) ++ rest))
      ≡ map decode (map word_of (fp16_regcmds p))
unfolding fp16_regcmds
prefix p rest = refl

rest_kept : (p : Params) (rest : List ℕ) → drop 17 (map word_of (fp16_regcmds p) ++ rest) ≡ rest
unfolding fp16_regcmds
rest_kept p rest = refl

-- Where the fields of `p` hold values of their types, m * n * 2 fits an `int` and the buffer has 17
-- words at least: the call returns 17 and leaves the words after the first 17 as they were, and the
-- 17 words read back as the commands of `fp16_commands`: the sizes and addresses reach the CNA
-- registers whole, and every word for the DPU, whose register numbers do not fit 16 bits, names a
-- register below 0x20 with an odd value.
pub gen_matmul_fp16_read :
    (p : Params) (tasks : List ℕ)
    → IsParams p
    → p.m * p.n * 2 < 2 ^ 31
    → 17 ≤ length tasks
    → (out : List ℕ) × (gen_matmul_fp16 p tasks ≡ some (pos 17, out))
      × (map decode (take 17 out) ≡ fp16_commands p)
      × (drop 17 out ≡ drop 17 tasks)
gen_matmul_fp16_read p tasks v h room = (
  map word_of (fp16_regcmds p) ++ drop 17 tasks,
  gen_matmul_fp16_writes p tasks room,
  prefix p (drop 17 tasks) ∙ words_read p v h,
  rest_kept p (drop 17 tasks),
)

-- In a buffer of 17 words at least, the call returns 17, and the word that is to enable the DPU,
-- word 13, and the one that is to disable it, word 14, are the same.
pub dpu_enable_is_disable :
    (p : Params) (tasks : List ℕ)
    → 17 ≤ length tasks
    → (out : List ℕ) × (gen_matmul_fp16 p tasks ≡ some (pos 17, out))
      × (get_elem? out 13 ≡ get_elem? out 14)
unfolding fp16_regcmds word_of number
dpu_enable_is_disable p tasks room = (
  map word_of (fp16_regcmds p) ++ drop 17 tasks,
  gen_matmul_fp16_writes p tasks room,
  ap some (sym (wide_value_lost 0x1000 0 0x8 (omega arith) (omega arith) (omega arith))),
)
