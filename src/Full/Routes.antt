-- ===== src/Full/Routes.antt =====
-- The units that the words of src/npu_matmul_full.c address.
use librocket.Prelude.{◌≡◌, refl, Bool, true, ◌&&◌, ◌||◌, ◌==◌, ◌++◌, every, All}
use librocket.Npu.Desc.{Params}
use librocket.Regcmd.{Regcmd}
use librocket.Registers.Target.{rkt_get_target}
use librocket.Full.Undefined.{Missing}
use librocket.Full.Cna.{sizes_regcmds, feature_regcmds, dcomp_regcmds}
use librocket.Full.Dpu.{core_regcmds, dpu_regcmds}
use librocket.Full.Rdma.{rdma_regcmds, pc_regcmds}

-- The word addresses the unit of its register; or it is the one that configures the pointer of the
-- DPU_RDMA, or the one for the register 0x3030, which the header does not list.
abbrev pub routed : Regcmd → Bool
routed c =
    c.target == rkt_get_target c.reg
    || (c.target == 0x1000 && c.reg == 0x5004)
    || (c.target == 0x801 && c.reg == 0x3030)

-- The missing numbers of the DPU_RDMA registers lie in that unit.
pub record IsRdma (missing : Missing) : Type 0 where
  pub cfg : rkt_get_target missing.reg_dpu_rdma_rdma_cfg ≡ 0x2000
  pub base_addr : rkt_get_target missing.reg_dpu_rdma_rdma_base_addr ≡ 0x2000
  pub surf_stride : rkt_get_target missing.reg_dpu_rdma_rdma_surf_stride ≡ 0x2000

-- Addressed to the DPU, the register is one of the DPU_RDMA.
abbrev pub Misrouted : Regcmd → Type 0
Misrouted c = (c.target ≡ 0x1000) × (rkt_get_target c.reg ≡ 0x2000)

-- Where the missing numbers of the DPU_RDMA registers belong to that unit: all ten words for the
-- registers of the DPU_RDMA address the DPU instead, while those for the CNA, the CORE, the first
-- stages of the DPU and the PC address the unit of their register, but for the DPU_RDMA's pointer
-- and the register 0x3030.
pub full_routes :
    (missing : Missing) (p : Params)
    → IsRdma missing
    → All Misrouted (rdma_regcmds missing p)
      × (every routed (
            sizes_regcmds p
            ++ feature_regcmds p
            ++ dcomp_regcmds p
            ++ core_regcmds p
            ++ dpu_regcmds p
            ++ pc_regcmds)
          ≡ true)
unfolding rdma_regcmds sizes_regcmds feature_regcmds dcomp_regcmds core_regcmds dpu_regcmds
    pc_regcmds rkt_get_target
full_routes missing p h = (
  (
    (refl, h.cfg),
    (
      (refl, refl),
      (
        (refl, refl),
        (
          (refl, refl),
          (
            (refl, h.base_addr),
            (
              (refl, h.surf_stride),
              ((refl, refl), ((refl, refl), ((refl, refl), ((refl, refl), tt)))),
            ),
          ),
        ),
      ),
    ),
  ),
  refl,
)
