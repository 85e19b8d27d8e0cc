-- ===== src/Mesa/Routes.antt =====
-- The units that the words of src/npu_matmul_mesa.c reach, by the numbers of
-- include/mesa_registers.h.
use librocket.Prelude.{
  ℕ, ◌*◌, ◌^◌, ◌≤◌, ◌<◌, ◌≡◌, refl, ap, ◌∙◌, Bool, true, false, ◌==◌, List, [], ◌∷◌, map, some,
  length, take,
}
use librocket.Prelude.Int.{pos}
use librocket.Npu.Desc.{Params, IsParams}
use librocket.Npu.Hw.{Command}
use librocket.Npu.Hw.Decode.{decode}
use librocket.Registers.Target.{rkt_get_target}
use librocket.Mesa.{gen_matmul_fp16}
use librocket.Mesa.Output.{fp16_commands, gen_matmul_fp16_read}

-- The command addresses the unit of its register.
abbrev pub is_routed : Command → Bool
is_routed c = c.op == rkt_get_target c.reg

-- For the 17 words: those for the DPU do not.
abbrev pub fp16_routes : List Bool
fp16_routes =
    true ∷ true ∷ true ∷ true ∷ true ∷ true ∷ true ∷ true ∷ false ∷ false ∷ false ∷ true ∷ true
    ∷ false ∷ false ∷ true ∷ true ∷ []

commands_routed : (p : Params) → map is_routed (fp16_commands p) ≡ fp16_routes
unfolding rkt_get_target
commands_routed p = refl

-- Where the fields of `p` hold values of their types, m * n * 2 fits an `int` and the buffer has 17
-- words at least: the call returns 17, and of the words that the device reads, those for the PC and
-- the CNA address the unit to which rkt_get_target assigns their register, and the five for the DPU
-- do not.
pub fp16_words_routed :
    (p : Params) (tasks : List ℕ)
    → IsParams p
    → p.m * p.n * 2 < 2 ^ 31
    → 17 ≤ length tasks
    → (out : List ℕ) × (gen_matmul_fp16 p tasks ≡ some (pos 17, out))
      × (map is_routed (map decode (take 17 out)) ≡ fp16_routes)
fp16_words_routed p tasks v h room =
    let (out, e, commands, rest) = gen_matmul_fp16_read p tasks v h room in
    (out, e, ap (map is_routed) commands ∙ commands_routed p)
