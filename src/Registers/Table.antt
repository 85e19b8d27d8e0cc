-- ===== src/Registers/Table.antt =====
-- The whole table, and that each register is a partition of a 32-bit word.
use librocket.Prelude.{
  ℕ, ◌-◌, ◌^◌, ◌≡◌, refl, List, [], ◌∷◌, ◌++◌, Bool, true, ◌&&◌, ◌==◌, ltb, every,
}
use librocket.Registers.{Field, masked, flag, Reg}
use librocket.Registers.Pc.{pc_registers}
use librocket.Registers.CnaFront.{cna_front_registers}
use librocket.Registers.CnaBack.{cna_back_registers}
use librocket.Registers.Core.{core_registers}
use librocket.Registers.DpuFront.{dpu_front_registers}
use librocket.Registers.DpuBack.{dpu_back_registers}
use librocket.Registers.DpuRdma.{dpu_rdma_registers}
use librocket.Registers.Ppu.{ppu_registers}
use librocket.Registers.PpuRdma.{ppu_rdma_registers}
use librocket.Registers.Ddma.{ddma_registers}
use librocket.Registers.Sdma.{sdma_registers, global_registers}

abbrev pub registers : List Reg
registers =
    pc_registers ++ cna_front_registers ++ cna_back_registers ++ core_registers
    ++ dpu_front_registers ++ dpu_back_registers ++ dpu_rdma_registers ++ ppu_registers
    ++ ppu_rdma_registers ++ ddma_registers ++ sdma_registers ++ global_registers

-- The fields cover the bits below `top`, each bit once, from the top down: a mask has the bits from
-- its shift up to the field above, and a flag is the highest bit that is left.
abbrev pub tiles : (top : ℕ) → List Field → Bool
tiles top [] = top == 0
tiles top (masked mask shift ∷ fs) = ltb shift top && mask == 2 ^ top - 2 ^ shift && tiles shift fs
tiles top (flag bit ∷ fs) = ltb 0 top && bit == 2 ^ (top - 1) && tiles (top - 1) fs

abbrev pub tile : Reg → Bool
tile r = tiles 32 r.fields

-- The offsets are multiples of 4 and increase.
abbrev pub increase : List Reg → Bool
increase [] = true
increase (r ∷ []) = true
increase (r ∷ s ∷ rs) = ltb r.offset s.offset && increase (s ∷ rs)

-- In each of the 199 registers the masks and flags are a partition of the 32 bits, so that the
-- values of two fields never meet and no bit is without a name; and no two registers share an
-- offset.
pub registers-tile : (every tile registers ≡ true) × (increase registers ≡ true)
registers-tile = (refl, refl)
