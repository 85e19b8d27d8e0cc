-- ===== src/Mesa.antt =====
-- The generator of src/npu_matmul_mesa.c, the one that the Makefile builds into librocket.a.
pub mod Generated
pub mod Output
pub mod Routes
use librocket.Prelude.{ℕ, ◌+◌, ◌*◌, ◌%◌, ◌^◌, List, [], ◌∷◌, map, Option, u32, ◌<<◌, ◌&◌, ◌bitor◌}
use mathlib.Core.Option
use librocket.Prelude.Int.{ℤ, pos}
use librocket.Npu.Desc.{Params}
use librocket.Regcmd.{Regcmd, regcmd_of, word_of, Stream, start, emit_all, sign_extend}

-- The register numbers that the file defines.
pub data MesaRegister : Type 0 where
  pc_operation_enable pc_base_address pc_register_amounts cna_s_pointer : MesaRegister
  cna_operation_enable cna_conv_con1 cna_conv_con2 cna_data_size0 cna_data_size1 : MesaRegister
  cna_weight_size0 cna_weight_size2 cna_feature_data_addr cna_weight_data_addr : MesaRegister
  core_operation_enable dpu_operation_enable dpu_dst_base_addr_low : MesaRegister
  dpu_dst_line_stride dpu_dst_surface_stride : MesaRegister

unfoldable pub number : MesaRegister → ℕ
number pc_operation_enable = 0x00000008
number pc_base_address = 0x00000010
number pc_register_amounts = 0x00000014
number cna_s_pointer = 0x00001004
number cna_operation_enable = 0x00001008
number cna_conv_con1 = 0x0000100c
number cna_conv_con2 = 0x00001010
number cna_data_size0 = 0x00001020
number cna_data_size1 = 0x00001024
number cna_weight_size0 = 0x00001030
number cna_weight_size2 = 0x00001038
number cna_feature_data_addr = 0x00001070
number cna_weight_data_addr = 0x00001074
number core_operation_enable = 0x00008008
number dpu_operation_enable = 0x00010008
number dpu_dst_base_addr_low = 0x00010010
number dpu_dst_line_stride = 0x00010018
number dpu_dst_surface_stride = 0x0001001c

abbrev pub target_pc : ℕ
target_pc = 0x100

abbrev pub target_cna : ℕ
target_cna = 0x200

abbrev pub target_core : ℕ
target_core = 0x800

abbrev pub target_dpu : ℕ
target_dpu = 0x1000

unfoldable pub conv_con1 : ℕ
conv_con1 = u32 ((0 << 0) bitor (1 << 4) bitor (1 << 7))

unfoldable pub data_size0 : Params → ℕ
data_size0 p = u32 ((p.m << 0) bitor (1 << 16))

unfoldable pub data_size1 : Params → ℕ
data_size1 p = u32 (p.k << 0)

unfoldable pub weight_size2 : Params → ℕ
weight_size2 p = u32 ((p.n << 0) bitor (1 << 16) bitor (1 << 24))

-- The arguments of the MESA_REGCMDs, in order. The products are computed in `int`, whose overflow C
-- leaves undefined; it is taken to wrap around.
unfoldable pub fp16_regcmds : Params → List Regcmd
fp16_regcmds p =
    regcmd_of target_pc 0 (number pc_base_address)
    ∷ regcmd_of target_pc 0 (number pc_register_amounts)
    ∷ regcmd_of target_cna conv_con1 (number cna_conv_con1)
    ∷ regcmd_of target_cna (data_size0 p) (number cna_data_size0)
    ∷ regcmd_of target_cna (data_size1 p) (number cna_data_size1)
    ∷ regcmd_of target_cna (weight_size2 p) (number cna_weight_size2)
    ∷ regcmd_of target_cna (p.input_dma & 0xffffffff) (number cna_feature_data_addr)
    ∷ regcmd_of target_cna (p.weights_dma & 0xffffffff) (number cna_weight_data_addr)
    ∷ regcmd_of target_dpu (p.output_dma & 0xffffffff) (number dpu_dst_base_addr_low)
    ∷ regcmd_of target_dpu (sign_extend (u32 (p.n * 2))) (number dpu_dst_line_stride)
    ∷ regcmd_of target_dpu (sign_extend (u32 (p.m * p.n * 2))) (number dpu_dst_surface_stride)
    ∷ regcmd_of target_pc 1 (number pc_operation_enable)
    ∷ regcmd_of target_cna 1 (number cna_operation_enable)
    ∷ regcmd_of target_dpu 1 (number dpu_operation_enable)
    ∷ regcmd_of target_dpu 0 (number dpu_operation_enable)
    ∷ regcmd_of target_cna 0 (number cna_operation_enable)
    ∷ regcmd_of target_pc 0 (number pc_operation_enable)
    ∷ []

-- `return idx`
abbrev pub result : Stream → ℤ × List ℕ
result s = (pos s.idx, s.regcmd)

-- The number of commands, and the task buffer afterwards; `none` is a store beyond its end.
unfoldable pub gen_matmul_fp16 : Params → List ℕ → Option (ℤ × List ℕ)
gen_matmul_fp16 p tasks = Option.map result (emit_all (map word_of (fp16_regcmds p)) (start tasks))

unfoldable pub int8_regcmds : List Regcmd
int8_regcmds =
    regcmd_of target_pc 0 (number pc_base_address)
    ∷ regcmd_of target_pc 0 (number pc_register_amounts)
    ∷ regcmd_of target_pc 1 (number pc_operation_enable)
    ∷ regcmd_of target_pc 0 (number pc_operation_enable)
    ∷ []

-- The parameters are not read, but for the buffer.
unfoldable pub gen_matmul_int8 : Params → List ℕ → Option (ℤ × List ℕ)
gen_matmul_int8 p tasks = Option.map result (emit_all (map word_of int8_regcmds) (start tasks))

-- The stubs of the layout functions.
unfoldable pub feature_data : ℤ → ℤ → ℤ → ℤ → ℤ → ℤ → ℤ → ℤ
feature_data C H W C2 c h w = pos 0

unfoldable pub weight_fp16 : ℤ → ℤ → ℤ → ℤ
weight_fp16 C k c = pos 0

unfoldable pub weight_int8 : ℤ → ℤ → ℤ → ℤ
weight_int8 C k c = pos 0
