-- ===== src/Registers.antt =====
-- The register tables of include/mesa_registers.h: the offset of each register, and its fields from
-- the top bit down.
pub mod Pc
pub mod CnaFront
pub mod CnaBack
pub mod Core
pub mod DpuFront
pub mod DpuBack
pub mod DpuRdma
pub mod Ppu
pub mod PpuRdma
pub mod Ddma
pub mod Sdma
pub mod Names
pub mod Agree
pub mod Table
pub mod Target
pub mod Helpers
pub mod Pack
use librocket.Prelude.{
  ℕ, ◌-◌, ◌^◌, List, [], ◌∷◌, Bool, true, false, ◌&&◌, ◌==◌, if◌then◌else◌, ltb, u32, ◌<<◌, ◌&◌,
  ◌bitor◌,
}

-- A field with its __MASK and __SHIFT, or a constant for one bit.
pub data Field : Type 0 where
  masked : (mask shift : ℕ) → Field
  flag : (bit : ℕ) → Field

pub record Reg : Type 0 where
  pub offset : ℕ
  pub fields : List Field

abbrev pub reg : ℕ → List Field → Reg
reg offset fields = record { offset = offset; fields = fields }

-- What the function of a field makes of a value; the constant of a bit stands for itself.
unfoldable pub place : Field → ℕ → ℕ
place (masked mask shift) val = u32 (val << shift) & mask
place (flag bit) val = bit
