-- ===== src/Npu/Task/RegisterFile.antt =====
-- What a task buffer programs: the value that its commands leave in a register. It describes the
-- words independently of how they were built.
use librocket.Prelude.{ℕ, List, [], ◌∷◌, map, Option, none, some, ◌==◌, if◌then◌else◌, take, bits}
use librocket.Npu.Hw.{Command, Register, address}
use librocket.Npu.Hw.Decode.{decode}
use mathlib.Core.Option

-- The value of the last of the commands that names the register.
unfoldable pub last_write : ℕ → List Command → Option ℕ
last_write reg [] = none
last_write reg (c ∷ cs) = elim (last_write reg cs) [
  | some value ↦ some value
  | none ↦ if c.reg == reg then some c.value else none
]

-- What the 108 words of a task leave in a register.
unfoldable pub programmed : Register → List ℕ → Option ℕ
programmed r tasks = last_write (address r) (map decode (take 108 tasks))

-- The w bits from bit s of that value on.
unfoldable pub field : Register → ℕ → ℕ → List ℕ → Option ℕ
field r s w tasks = Option.map (bits s w) (programmed r tasks)
