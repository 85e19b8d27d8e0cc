-- ===== src/Npu/Hw/Decode.antt =====
-- A command word is read back as the operation, the value and the register that it was made of.
use mathlib.Core.Path.{ap₂}
use librocket.Prelude.{List, [], ◌∷◌, map, All, refl, ℕ, ◌+◌, ◌*◌, ◌%◌, ◌^◌, ◌<◌, ◌≡◌, arith, bits}
use librocket.Prelude.Bits.{and_mask, or_add}
use librocket.Npu.Hw.{npuop, Command, command, encode}

npuop_sum :
    (op value reg : ℕ)
    → npuop op value reg ≡ op % 2 ^ 16 * 2 ^ 48 + value % 2 ^ 32 * 2 ^ 16 + reg % 2 ^ 16
unfolding npuop
npuop_sum op value reg =
    rw
      (
        and_mask 16 op,
        and_mask 32 value,
        and_mask 16 reg,
        or_add 48 (op % 2 ^ 16 * 2 ^ 48 % 2 ^ 64) (value % 2 ^ 32 * 2 ^ 16 % 2 ^ 64) (omega arith)
            (omega arith),
        or_add 16 (op % 2 ^ 16 * 2 ^ 48 % 2 ^ 64 + value % 2 ^ 32 * 2 ^ 16 % 2 ^ 64) (reg % 2 ^ 16)
            (omega arith) (omega arith),
      )
      (omega arith)

-- The fields of a command word: operation 16 bits, value 32 bits, register 16 bits.
unfoldable pub decode : ℕ → Command
decode word = command (bits 48 16 word) (bits 16 32 word) (bits 0 16 word)

-- The arguments of an NPUOP fit their fields.
pub record IsCommand (c : Command) : Type 0 where
  pub op_fits : c.op < 2 ^ 16
  pub value_fits : c.value < 2 ^ 32
  pub reg_fits : c.reg < 2 ^ 16

-- A command whose arguments fit their fields is read back from its word, which has 64 bits.
pub decode-encode : (c : Command) → IsCommand c → (decode (encode c) ≡ c) × (encode c < 2 ^ 64)
unfolding decode encode
decode-encode c h =
    rw (npuop_sum c.op c.value c.reg) (λ i. command (op_eq i) (value_eq i) (reg_eq i), omega arith)
  where
    word : ℕ
    word = c.op % 2 ^ 16 * 2 ^ 48 + c.value % 2 ^ 32 * 2 ^ 16 + c.reg % 2 ^ 16

    op_eq : bits 48 16 word ≡ c.op
    op_eq = omega arith

    value_eq : bits 16 32 word ≡ c.value
    value_eq = omega arith

    reg_eq : bits 0 16 word ≡ c.reg
    reg_eq = omega arith

-- So is a list of such commands.
pub map-decode-encode : (cs : List Command) → All IsCommand cs → map decode (map encode cs) ≡ cs
map-decode-encode [] h = refl
map-decode-encode (c ∷ cs) (h, hs) = ap₂ ◌∷◌ (decode-encode c h).0 (map-decode-encode cs hs)
