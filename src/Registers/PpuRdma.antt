-- ===== src/Registers/PpuRdma.antt =====
-- The PPU_RDMA registers of include/mesa_registers.h.
use librocket.Prelude.{List, [], ◌∷◌}
use librocket.Registers.{Reg, reg, masked}

abbrev pub reg_ppu_rdma_rdma_s_status : Reg
reg_ppu_rdma_rdma_s_status =
    reg 0x7000 (masked 0xfffc0000 18 ∷ masked 0x30000 16 ∷ masked 0xfffc 2 ∷ masked 0x3 0 ∷ [])

abbrev pub reg_ppu_rdma_rdma_s_pointer : Reg
reg_ppu_rdma_rdma_s_pointer = reg 0x7004 (
    masked 0xfffe0000 17
    ∷ masked 0x10000 16
    ∷ masked 0xffc0 6
    ∷ masked 0x20 5
    ∷ masked 0x10 4
    ∷ masked 0x8 3
    ∷ masked 0x4 2
    ∷ masked 0x2 1
    ∷ masked 0x1 0
    ∷ [])

abbrev pub reg_ppu_rdma_rdma_operation_enable : Reg
reg_ppu_rdma_rdma_operation_enable = reg 0x7008 (masked 0xfffffffe 1 ∷ masked 0x1 0 ∷ [])

abbrev pub reg_ppu_rdma_rdma_cube_in_width : Reg
reg_ppu_rdma_rdma_cube_in_width = reg 0x700c (masked 0xffffe000 13 ∷ masked 0x1fff 0 ∷ [])

abbrev pub reg_ppu_rdma_rdma_cube_in_height : Reg
reg_ppu_rdma_rdma_cube_in_height = reg 0x7010 (masked 0xffffe000 13 ∷ masked 0x1fff 0 ∷ [])

abbrev pub reg_ppu_rdma_rdma_cube_in_channel : Reg
reg_ppu_rdma_rdma_cube_in_channel = reg 0x7014 (masked 0xffffe000 13 ∷ masked 0x1fff 0 ∷ [])

abbrev pub reg_ppu_rdma_rdma_src_base_addr : Reg
reg_ppu_rdma_rdma_src_base_addr = reg 0x701c (masked 0xffffffff 0 ∷ [])

abbrev pub reg_ppu_rdma_rdma_src_line_stride : Reg
reg_ppu_rdma_rdma_src_line_stride = reg 0x7024 (masked 0xfffffff0 4 ∷ masked 0xf 0 ∷ [])

abbrev pub reg_ppu_rdma_rdma_src_surf_stride : Reg
reg_ppu_rdma_rdma_src_surf_stride = reg 0x7028 (masked 0xfffffff0 4 ∷ masked 0xf 0 ∷ [])

abbrev pub reg_ppu_rdma_rdma_data_format : Reg
reg_ppu_rdma_rdma_data_format = reg 0x7030 (masked 0xfffffffc 2 ∷ masked 0x3 0 ∷ [])

-- In the order of the header.
abbrev pub ppu_rdma_registers : List Reg
ppu_rdma_registers =
    reg_ppu_rdma_rdma_s_status ∷ reg_ppu_rdma_rdma_s_pointer ∷ reg_ppu_rdma_rdma_operation_enable
    ∷ reg_ppu_rdma_rdma_cube_in_width ∷ reg_ppu_rdma_rdma_cube_in_height
    ∷ reg_ppu_rdma_rdma_cube_in_channel ∷ reg_ppu_rdma_rdma_src_base_addr
    ∷ reg_ppu_rdma_rdma_src_line_stride ∷ reg_ppu_rdma_rdma_src_surf_stride
    ∷ reg_ppu_rdma_rdma_data_format ∷ []
