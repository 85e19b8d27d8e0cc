-- ===== src/Regcmd.antt =====
-- The register command stream that src/npu_matmul_mesa.c and src/npu_matmul_full.c write: the
-- MESA_REGCMD word, and `regcmd[idx++] = word`.
pub mod Words
pub mod Emitted
use librocket.Prelude.{
  ℕ, zero, suc, ◌+◌, ◌-◌, ◌*◌, ◌%◌, ◌^◌, List, [], ◌∷◌, Option, none, some, map, ltb, leb,
  if◌then◌else◌, length, u32, u64, ◌<<◌, ◌bitor◌,
}
use mathlib.Core.Option

-- The conversion of an `int`, given as its 32-bit pattern, to a uint64_t extends the sign.
abbrev pub sign_extend : ℕ → ℕ
sign_extend x = if leb (2 ^ 31) x then x + 2 ^ 64 - 2 ^ 32 else x

-- MESA_REGCMD, on arguments that are uint64_t already: none of the three is masked.
unfoldable pub mesa_regcmd : (target value reg : ℕ) → ℕ
mesa_regcmd target value reg = u64 (target << 48) bitor u64 (value << 16) bitor reg

-- The buffer behind `regcmd`, and `idx`.
pub record Stream : Type 0 where
  pub regcmd : List ℕ
  pub idx : ℕ

abbrev pub set : List ℕ → ℕ → ℕ → List ℕ
set [] i v = []
set (x ∷ xs) zero v = v ∷ xs
set (x ∷ xs) (suc i) v = x ∷ set xs i v

-- `regcmd[idx++] = word`; `none` is a store beyond the end of the buffer.
unfoldable pub emit : ℕ → Stream → Option Stream
emit word s =
    if ltb s.idx (length s.regcmd)
    then some (record { regcmd = set s.regcmd s.idx word; idx = s.idx + 1 })
    else none

unfoldable pub emit_all : List ℕ → Stream → Option Stream
emit_all [] s = some s
emit_all (word ∷ words) s = Option.bind (emit word s) (emit_all words)

-- The stream at the start of a generator.
abbrev pub start : List ℕ → Stream
start tasks = record { regcmd = tasks; idx = 0 }

-- One EMIT, as its arguments.
pub record Regcmd : Type 0 where
  pub target : ℕ
  pub value : ℕ
  pub reg : ℕ

abbrev pub regcmd_of : (target value reg : ℕ) → Regcmd
regcmd_of t v r = record { target = t; value = v; reg = r }

unfoldable pub word_of : Regcmd → ℕ
word_of c = mesa_regcmd c.target c.value c.reg
