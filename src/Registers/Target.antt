-- ===== src/Registers/Target.antt =====
-- `rkt_get_target` of include/mesa_registers.h: the unit that a register belongs to.
use librocket.Prelude.{
  ℕ, ◌/◌, ◌≡◌, ◌≢◌, ◌⊎◌, inl, inr, refl, ap, ◌∙◌, arith, Bool, true, false, ◌&&◌, ◌||◌, ◌==◌,
  if◌then◌else◌, Bool-cases, List, [], ◌∷◌, ◌++◌, All, every, every_get, ltb, some, get_elem?,
}
use librocket.Registers.{Reg}
use librocket.Registers.Table.{registers}
use librocket.Registers.Pc.{pc_registers}
use librocket.Registers.CnaFront.{cna_front_registers}
use librocket.Registers.CnaBack.{cna_back_registers}
use librocket.Registers.Core.{core_registers}
use librocket.Registers.DpuFront.{dpu_front_registers}
use librocket.Registers.DpuBack.{dpu_back_registers}
use librocket.Registers.DpuRdma.{dpu_rdma_registers}
use librocket.Registers.Ppu.{ppu_registers}
use librocket.Registers.PpuRdma.{ppu_rdma_registers}
use librocket.Registers.Ddma.{ddma_registers}
use librocket.Registers.Sdma.{sdma_registers, global_registers}

-- `enum target`
pub data Target : Type 0 where
  pc cna core dpu dpu_rdma ppu ppu_rdma ddma sdma global : Target

abbrev pub target_number : Target → ℕ
target_number pc = 0x00000100
target_number cna = 0x00000200
target_number core = 0x00000800
target_number dpu = 0x00001000
target_number dpu_rdma = 0x00002000
target_number ppu = 0x00004000
target_number ppu_rdma = 0x00008000
target_number ddma = 0x00010000
target_number sdma = 0x00020000
target_number global = 0x00040000

-- The offset is one of the `case` labels.
abbrev pub is_case : ℕ → List Reg → Bool
is_case offset [] = false
is_case offset (r ∷ rs) = offset == r.offset || is_case offset rs

-- The cases of a `switch`, those with one result together; 0 where none fits.
unfoldable pub switch : ℕ → List (Target × List Reg) → ℕ
switch offset [] = 0
switch offset ((t, rs) ∷ more) = if is_case offset rs then target_number t else switch offset more

abbrev pub cases : List (Target × List Reg)
cases =
    (pc, pc_registers)
    ∷ (cna, cna_front_registers ++ cna_back_registers)
    ∷ (core, core_registers)
    ∷ (dpu, dpu_front_registers ++ dpu_back_registers)
    ∷ (dpu_rdma, dpu_rdma_registers)
    ∷ (ppu, ppu_registers)
    ∷ (ppu_rdma, ppu_rdma_registers)
    ∷ (ddma, ddma_registers)
    ∷ (sdma, sdma_registers)
    ∷ (global, global_registers)
    ∷ []

unfoldable pub rkt_get_target : ℕ → ℕ
unfolding switch
rkt_get_target offset = switch offset cases

-- The numbers of the units by the 4096 bytes in which their registers lie; 0 for no unit.
abbrev pub units : List ℕ
units =
    0x100 ∷ 0x200 ∷ 0 ∷ 0x800 ∷ 0x1000 ∷ 0x2000 ∷ 0x4000 ∷ 0x8000 ∷ 0x10000 ∷ 0x20000 ∷ 0 ∷ 0 ∷ 0
    ∷ 0 ∷ 0 ∷ 0x40000 ∷ []

abbrev in_block : ℕ → List Reg → Bool
in_block b [] = true
in_block b (r ∷ rs) = r.offset / 4096 == b && in_block b rs

in_block_case :
    (b offset : ℕ) (rs : List Reg)
    → in_block b rs ≡ true
    → is_case offset rs ≡ true
    → offset / 4096 ≡ b
in_block_case b offset [] h c = cc
in_block_case b offset (r ∷ rs) h c = ground (arith, in_block_case b offset rs)

-- The registers of a case lie in one block, whose unit is the result.
abbrev Filed : Target × List Reg → Type 0
Filed (t, rs) = (b : ℕ) × (in_block b rs ≡ true) × (get_elem? units b ≡ some (target_number t))

switch_unit :
    (offset : ℕ) (cs : List (Target × List Reg))
    → All Filed cs
    → (switch offset cs ≡ 0) ⊎ (get_elem? units (offset / 4096) ≡ some (switch offset cs))
unfolding switch
switch_unit offset [] h = inl refl
switch_unit offset ((t, rs) ∷ more) ((b, inside, unit), rest) =
    elim (Bool-cases (is_case offset rs)) [
      | inl here ↦
          inr (rw here (ap (get_elem? units) (in_block_case b offset rs inside here) ∙ unit))
      | inr elsewhere ↦ rw elsewhere (switch_unit offset more rest)
    ]

cases-Filed : All Filed cases
cases-Filed = (
  (0, refl, refl),
  (
    (1, refl, refl),
    (
      (3, refl, refl),
      (
        (4, refl, refl),
        (
          (5, refl, refl),
          (
            (6, refl, refl),
            ((7, refl, refl), ((8, refl, refl), ((9, refl, refl), ((15, refl, refl), tt)))),
          ),
        ),
      ),
    ),
  ),
)

abbrev answers : Reg → Bool
unfolding rkt_get_target
answers r = ltb 0 (rkt_get_target r.offset)

all_answer : every answers registers ≡ true
unfolding answers
all_answer = refl

answers-ne : (r : Reg) → answers r ≡ true → rkt_get_target r.offset ≢ 0
unfolding answers
answers-ne r h e = ground arith

-- Every offset for which `rkt_get_target` has an answer lies in the 4096 bytes of the unit that it
-- names, and it has one for each register of the header.
pub rkt_get_target_unit :
    ((offset : ℕ)
      → (rkt_get_target offset ≡ 0)
        ⊎ (get_elem? units (offset / 4096) ≡ some (rkt_get_target offset)))
    × ((i : ℕ) (r : Reg) → get_elem? registers i ≡ some r → rkt_get_target r.offset ≢ 0)
rkt_get_target_unit = (
  λ offset. unfold rkt_get_target in switch_unit offset cases cases-Filed,
  λ i r e. answers-ne r (every_get answers registers i r all_answer e),
)
