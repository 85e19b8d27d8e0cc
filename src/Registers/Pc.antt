-- ===== src/Registers/Pc.antt =====
-- The PC registers of include/mesa_registers.h.
use librocket.Prelude.{List, [], ◌∷◌}
use librocket.Registers.{Reg, reg, masked, flag}

abbrev pub reg_pc_version : Reg
reg_pc_version = reg 0x0 (masked 0xffffffff 0 ∷ [])

abbrev pub reg_pc_version_num : Reg
reg_pc_version_num = reg 0x4 (masked 0xffffffff 0 ∷ [])

abbrev pub reg_pc_operation_enable : Reg
reg_pc_operation_enable = reg 0x8 (masked 0xfffffffe 1 ∷ masked 0x1 0 ∷ [])

abbrev pub reg_pc_base_address : Reg
reg_pc_base_address = reg 0x10 (masked 0xfffffff0 4 ∷ masked 0xe 1 ∷ masked 0x1 0 ∷ [])

abbrev pub reg_pc_register_amounts : Reg
reg_pc_register_amounts = reg 0x14 (masked 0xffff0000 16 ∷ masked 0xffff 0 ∷ [])

abbrev pub reg_pc_interrupt_mask : Reg
reg_pc_interrupt_mask = reg 0x20 (
    masked 0xffffc000 14
    ∷ flag 0x2000
    ∷ flag 0x1000
    ∷ flag 0x800
    ∷ flag 0x400
    ∷ flag 0x200
    ∷ flag 0x100
    ∷ flag 0x80
    ∷ flag 0x40
    ∷ flag 0x20
    ∷ flag 0x10
    ∷ flag 0x8
    ∷ flag 0x4
    ∷ flag 0x2
    ∷ flag 0x1
    ∷ [])

abbrev pub reg_pc_interrupt_clear : Reg
reg_pc_interrupt_clear = reg 0x24 (
    masked 0xffffc000 14
    ∷ flag 0x2000
    ∷ flag 0x1000
    ∷ flag 0x800
    ∷ flag 0x400
    ∷ flag 0x200
    ∷ flag 0x100
    ∷ flag 0x80
    ∷ flag 0x40
    ∷ flag 0x20
    ∷ flag 0x10
    ∷ flag 0x8
    ∷ flag 0x4
    ∷ flag 0x2
    ∷ flag 0x1
    ∷ [])

abbrev pub reg_pc_interrupt_status : Reg
reg_pc_interrupt_status = reg 0x28 (
    masked 0xffffc000 14
    ∷ flag 0x2000
    ∷ flag 0x1000
    ∷ flag 0x800
    ∷ flag 0x400
    ∷ flag 0x200
    ∷ flag 0x100
    ∷ flag 0x80
    ∷ flag 0x40
    ∷ flag 0x20
    ∷ flag 0x10
    ∷ flag 0x8
    ∷ flag 0x4
    ∷ flag 0x2
    ∷ flag 0x1
    ∷ [])

abbrev pub reg_pc_interrupt_raw_status : Reg
reg_pc_interrupt_raw_status = reg 0x2c (
    masked 0xffffc000 14
    ∷ flag 0x2000
    ∷ flag 0x1000
    ∷ flag 0x800
    ∷ flag 0x400
    ∷ flag 0x200
    ∷ flag 0x100
    ∷ flag 0x80
    ∷ flag 0x40
    ∷ flag 0x20
    ∷ flag 0x10
    ∷ flag 0x8
    ∷ flag 0x4
    ∷ flag 0x2
    ∷ flag 0x1
    ∷ [])

abbrev pub reg_pc_task_con : Reg
reg_pc_task_con =
    reg 0x30 (masked 0xffffc000 14 ∷ masked 0x2000 13 ∷ masked 0x1000 12 ∷ masked 0xfff 0 ∷ [])

abbrev pub reg_pc_task_dma_base_addr : Reg
reg_pc_task_dma_base_addr = reg 0x34 (masked 0xfffffff0 4 ∷ masked 0xf 0 ∷ [])

abbrev pub reg_pc_task_status : Reg
reg_pc_task_status = reg 0x3c (masked 0xf0000000 28 ∷ masked 0xfffffff 0 ∷ [])

-- In the order of the header.
abbrev pub pc_registers : List Reg
pc_registers =
    reg_pc_version ∷ reg_pc_version_num ∷ reg_pc_operation_enable ∷ reg_pc_base_address
    ∷ reg_pc_register_amounts ∷ reg_pc_interrupt_mask ∷ reg_pc_interrupt_clear
    ∷ reg_pc_interrupt_status ∷ reg_pc_interrupt_raw_status ∷ reg_pc_task_con
    ∷ reg_pc_task_dma_base_addr ∷ reg_pc_task_status ∷ []
