-- ===== src/Full/Rdma.antt =====
-- The DPU_RDMA and PC part of gen_matmul_fp16 of src/npu_matmul_full.c.
use librocket.Prelude.{◌*◌, List, [], ◌∷◌, u32, sub32, ◌&◌, ◌bitor◌}
use librocket.Npu.Desc.{Params}
use librocket.Regcmd.{Regcmd, regcmd_of, sign_extend}
use librocket.Registers.{place}
use librocket.Full.Undefined.{Missing}
use librocket.Registers.DpuRdma.{
  reg_dpu_rdma_rdma_data_cube_channel, reg_dpu_rdma_rdma_data_cube_height,
  reg_dpu_rdma_rdma_data_cube_width, reg_dpu_rdma_rdma_ew_surf_notch, reg_dpu_rdma_rdma_pad_cfg,
  reg_dpu_rdma_rdma_surf_notch, reg_dpu_rdma_rdma_weight,
}
use librocket.Registers.Pc.{reg_pc_base_address, reg_pc_register_amounts}
use librocket.Registers.Helpers.Dpu.{
  dpu_rdma_rdma_weight_b_weight, dpu_rdma_rdma_weight_e_weight, dpu_rdma_rdma_weight_m_weight,
  dpu_rdma_rdma_weight_n_weight,
}
use librocket.Mesa.{target_dpu, target_pc}

-- The registers of the DPU_RDMA.
unfoldable pub rdma_regcmds : Missing → Params → List Regcmd
rdma_regcmds missing p =
    regcmd_of target_dpu
      (place (missing.dpu_rdma_rdma_cfg_rdma_disable) 0
        bitor place (missing.dpu_rdma_rdma_cfg_rdma_data_mode) 1
        bitor place (missing.dpu_rdma_rdma_cfg_rdma_data_size) 2
        bitor place (missing.dpu_rdma_rdma_cfg_rdma_data_use) 1)
      missing.reg_dpu_rdma_rdma_cfg
    ∷ regcmd_of target_dpu 0 reg_dpu_rdma_rdma_data_cube_width.offset
    ∷ regcmd_of target_dpu (sign_extend (sub32 p.m 1)) reg_dpu_rdma_rdma_data_cube_height.offset
    ∷ regcmd_of target_dpu (sign_extend (sub32 p.n 1)) reg_dpu_rdma_rdma_data_cube_channel.offset
    ∷ regcmd_of target_dpu (p.output_dma & 0xffffffff) missing.reg_dpu_rdma_rdma_base_addr
    ∷ regcmd_of target_dpu (sign_extend (u32 (p.m * p.n * 2))) missing.reg_dpu_rdma_rdma_surf_stride
    ∷ regcmd_of target_dpu 0 reg_dpu_rdma_rdma_surf_notch.offset
    ∷ regcmd_of target_dpu 0 reg_dpu_rdma_rdma_pad_cfg.offset
    ∷ regcmd_of target_dpu
        (dpu_rdma_rdma_weight_e_weight 1
          bitor dpu_rdma_rdma_weight_n_weight 1
          bitor dpu_rdma_rdma_weight_b_weight 1
          bitor dpu_rdma_rdma_weight_m_weight 1)
        reg_dpu_rdma_rdma_weight.offset
    ∷ regcmd_of target_dpu 0 reg_dpu_rdma_rdma_ew_surf_notch.offset
    ∷ []

-- The PC.
unfoldable pub pc_regcmds : List Regcmd
pc_regcmds =
    regcmd_of target_pc 0 reg_pc_base_address.offset
    ∷ regcmd_of target_pc 0 reg_pc_register_amounts.offset
    ∷ []
