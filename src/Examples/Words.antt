-- ===== src/Examples/Words.antt =====
-- Runs of the command words and the register fields.
use librocket.Prelude.{◌≡◌, ◌<◌, ◌^◌, ◌+◌, ◌*◌, ◌/◌, refl, arith}
use librocket.Npu.Hw.{command, encode, npuop}
use librocket.Npu.Hw.Decode.{decode, decode-encode}
use librocket.Npu.Values.Cna.Found.{CnaFields, cna_register_fields}
use librocket.Npu.Values.Dpu.Found.{DpuFields, dpu_register_fields}
use librocket.Examples.Data.{cna, dpu}
use librocket.Prelude.{[], ◌∷◌, ◌++◌, map, some, drop}
use librocket.Npu.Hw.{address, cna_conv_con1}
use librocket.Registers.Names.{documented}
use librocket.Registers.Agree.{Agrees, address-Agrees}
use librocket.Mesa.{number}
use librocket.Registers.Pc.{reg_pc_operation_enable}
use librocket.Registers.Pack.{pack, unpack, cut, register_unpack-pack}
use librocket.Regcmd.{word_of}
use librocket.Regcmd.Emitted.{emit_all-start}
use librocket.Driver.Minimal.{fill, blank, minimal_npu_words, minimal_mesa_words, cna_enable_words}
use librocket.Regcmd.{mesa_regcmd}
use librocket.Regcmd.Words.{decode-mesa_regcmd_wide}

encode_run : encode (command 0x201 7 0x100c) ≡ 0x020100000007100c
unfolding encode npuop
encode_run = refl

decode-encode_example :
    (decode (encode (command 0x201 7 0x100c)) ≡ command 0x201 7 0x100c)
    × (encode (command 0x201 7 0x100c) < 2 ^ 64)
decode-encode_example =
    decode-encode (command 0x201 7 0x100c)
      (record { op_fits = omega arith; value_fits = omega arith; reg_fits = omega arith })

decode-mesa_regcmd_wide_example :
    decode (mesa_regcmd 0x1000 6 (2 ^ 16 + 0x18)) ≡ command 0x1000 (6 / 2 * 2 + 1) 0x18
decode-mesa_regcmd_wide_example =
    decode-mesa_regcmd_wide 0x1000 6 0x18 (omega arith) (omega arith) (omega arith)

cna_register_fields_example : CnaFields cna
cna_register_fields_example = cna_register_fields cna

dpu_register_fields_example : DpuFields dpu
dpu_register_fields_example = dpu_register_fields dpu

-- What the minimal test programs write.
fill_run :
    fill cna_enable_words
    ≡ some (record { regcmd = cna_enable_words ++ drop 6 (blank 512); idx = 6 })
unfolding fill cna_enable_words
fill_run = emit_all-start cna_enable_words (blank 512) (omega arith)

minimal_npu_words_run :
    map decode minimal_npu_words
    ≡ command 0x101 0 0x10 ∷ command 0x101 0 0x14 ∷ command 0x81 1 0x8 ∷ command 0 0 0x8 ∷ []
unfolding minimal_npu_words npuop decode address
minimal_npu_words_run = refl

minimal_mesa_words_run :
    map decode minimal_mesa_words
    ≡ command 0x100 0 0x10 ∷ command 0x100 0 0x14 ∷ command 0x100 1 0x8 ∷ []
unfolding minimal_mesa_words word_of mesa_regcmd number decode
minimal_mesa_words_run = refl

cna_enable_words_run :
    map decode cna_enable_words
    ≡ command 0x100 0 0x10
      ∷ command 0x100 0 0x14
      ∷ command 0x100 1 0x8
      ∷ command 0x200 1 0x1008
      ∷ command 0x200 0 0x1008
      ∷ command 0x100 0 0x8
      ∷ []
unfolding cna_enable_words word_of mesa_regcmd number decode
cna_enable_words_run = refl

address-Agrees_example : Agrees (documented cna_conv_con1) (address cna_conv_con1)
address-Agrees_example = address-Agrees cna_conv_con1

-- A word of PC_OPERATION_ENABLE: 5 in the reserved bits, and the enable bit.
register_unpack-pack_example :
    unpack 32 reg_pc_operation_enable.fields (pack reg_pc_operation_enable.fields (5 ∷ 1 ∷ []))
    ≡ cut 32 reg_pc_operation_enable.fields (5 ∷ 1 ∷ [])
register_unpack-pack_example = register_unpack-pack 2 reg_pc_operation_enable (5 ∷ 1 ∷ []) refl refl
