-- ===== src/Registers/CnaFront.antt =====
-- The CNA registers of include/mesa_registers.h, the first half.
use librocket.Prelude.{List, [], ◌∷◌}
use librocket.Registers.{Reg, reg, masked}

abbrev pub reg_cna_s_status : Reg
reg_cna_s_status =
    reg 0x1000 (masked 0xfffc0000 18 ∷ masked 0x30000 16 ∷ masked 0xfffc 2 ∷ masked 0x3 0 ∷ [])

abbrev pub reg_cna_s_pointer : Reg
reg_cna_s_pointer = reg 0x1004 (
    masked 0xfffe0000 17
    ∷ masked 0x10000 16
    ∷ masked 0xffc0 6
    ∷ masked 0x20 5
    ∷ masked 0x10 4
    ∷ masked 0x8 3
    ∷ masked 0x4 2
    ∷ masked 0x2 1
    ∷ masked 0x1 0
    ∷ [])

abbrev pub reg_cna_operation_enable : Reg
reg_cna_operation_enable = reg 0x1008 (masked 0xfffffffe 1 ∷ masked 0x1 0 ∷ [])

abbrev pub reg_cna_conv_con1 : Reg
reg_cna_conv_con1 = reg 0x100c (
    masked 0x80000000 31
    ∷ masked 0x40000000 30
    ∷ masked 0x20000000 29
    ∷ masked 0x1ffe0000 17
    ∷ masked 0x10000 16
    ∷ masked 0xf000 12
    ∷ masked 0xc00 10
    ∷ masked 0x380 7
    ∷ masked 0x70 4
    ∷ masked 0xf 0
    ∷ [])

abbrev pub reg_cna_conv_con2 : Reg
reg_cna_conv_con2 = reg 0x1010 (
    masked 0xff000000 24
    ∷ masked 0xff0000 16
    ∷ masked 0xc000 14
    ∷ masked 0x3ff0 4
    ∷ masked 0x8 3
    ∷ masked 0x4 2
    ∷ masked 0x2 1
    ∷ masked 0x1 0
    ∷ [])

abbrev pub reg_cna_conv_con3 : Reg
reg_cna_conv_con3 = reg 0x1014 (
    masked 0x80000000 31
    ∷ masked 0x70000000 28
    ∷ masked 0xc000000 26
    ∷ masked 0x3e00000 21
    ∷ masked 0x1f0000 16
    ∷ masked 0xc000 14
    ∷ masked 0x3800 11
    ∷ masked 0x700 8
    ∷ masked 0xc0 6
    ∷ masked 0x38 3
    ∷ masked 0x7 0
    ∷ [])

abbrev pub reg_cna_data_size0 : Reg
reg_cna_data_size0 =
    reg 0x1020 (masked 0xf8000000 27 ∷ masked 0x7ff0000 16 ∷ masked 0xf800 11 ∷ masked 0x7ff 0 ∷ [])

abbrev pub reg_cna_data_size1 : Reg
reg_cna_data_size1 = reg 0x1024 (masked 0xc0000000 30 ∷ masked 0x3fff0000 16 ∷ masked 0xffff 0 ∷ [])

abbrev pub reg_cna_data_size2 : Reg
reg_cna_data_size2 = reg 0x1028 (masked 0xfffff800 11 ∷ masked 0x7ff 0 ∷ [])

abbrev pub reg_cna_data_size3 : Reg
reg_cna_data_size3 = reg 0x102c (masked 0xff000000 24 ∷ masked 0xc00000 22 ∷ masked 0x3fffff 0 ∷ [])

abbrev pub reg_cna_weight_size0 : Reg
reg_cna_weight_size0 = reg 0x1030 (masked 0xffffffff 0 ∷ [])

abbrev pub reg_cna_weight_size1 : Reg
reg_cna_weight_size1 = reg 0x1034 (masked 0xfff80000 19 ∷ masked 0x7ffff 0 ∷ [])

abbrev pub reg_cna_weight_size2 : Reg
reg_cna_weight_size2 = reg 0x1038 (
    masked 0xe0000000 29
    ∷ masked 0x1f000000 24
    ∷ masked 0xe00000 21
    ∷ masked 0x1f0000 16
    ∷ masked 0xc000 14
    ∷ masked 0x3fff 0
    ∷ [])

abbrev pub reg_cna_cbuf_con0 : Reg
reg_cna_cbuf_con0 = reg 0x1040 (
    masked 0xffffc000 14
    ∷ masked 0x2000 13
    ∷ masked 0x1000 12
    ∷ masked 0x800 11
    ∷ masked 0x700 8
    ∷ masked 0xf0 4
    ∷ masked 0xf 0
    ∷ [])

abbrev pub reg_cna_cbuf_con1 : Reg
reg_cna_cbuf_con1 = reg 0x1044 (masked 0xffffc000 14 ∷ masked 0x3fff 0 ∷ [])

abbrev pub reg_cna_cvt_con0 : Reg
reg_cna_cvt_con0 = reg 0x104c (
    masked 0xf0000000 28
    ∷ masked 0xfc00000 22
    ∷ masked 0x3f0000 16
    ∷ masked 0xfc00 10
    ∷ masked 0x3f0 4
    ∷ masked 0x8 3
    ∷ masked 0x4 2
    ∷ masked 0x2 1
    ∷ masked 0x1 0
    ∷ [])

abbrev pub reg_cna_cvt_con1 : Reg
reg_cna_cvt_con1 = reg 0x1050 (masked 0xffff0000 16 ∷ masked 0xffff 0 ∷ [])

abbrev pub reg_cna_cvt_con2 : Reg
reg_cna_cvt_con2 = reg 0x1054 (masked 0xffff0000 16 ∷ masked 0xffff 0 ∷ [])

abbrev pub reg_cna_cvt_con3 : Reg
reg_cna_cvt_con3 = reg 0x1058 (masked 0xffff0000 16 ∷ masked 0xffff 0 ∷ [])

abbrev pub reg_cna_cvt_con4 : Reg
reg_cna_cvt_con4 = reg 0x105c (masked 0xffff0000 16 ∷ masked 0xffff 0 ∷ [])

abbrev pub reg_cna_fc_con0 : Reg
reg_cna_fc_con0 = reg 0x1060 (masked 0xffff0000 16 ∷ masked 0xfffe 1 ∷ masked 0x1 0 ∷ [])

abbrev pub reg_cna_fc_con1 : Reg
reg_cna_fc_con1 = reg 0x1064 (masked 0xfffe0000 17 ∷ masked 0x1ffff 0 ∷ [])

abbrev pub reg_cna_pad_con0 : Reg
reg_cna_pad_con0 = reg 0x1068 (masked 0xffffff00 8 ∷ masked 0xf0 4 ∷ masked 0xf 0 ∷ [])

abbrev pub reg_cna_feature_data_addr : Reg
reg_cna_feature_data_addr = reg 0x1070 (masked 0xffffffff 0 ∷ [])

abbrev pub reg_cna_fc_con2 : Reg
reg_cna_fc_con2 = reg 0x1074 (masked 0xfffe0000 17 ∷ masked 0x1ffff 0 ∷ [])

abbrev pub reg_cna_dma_con0 : Reg
reg_cna_dma_con0 = reg 0x1078 (
    masked 0x80000000 31
    ∷ masked 0x7ff00000 20
    ∷ masked 0xf0000 16
    ∷ masked 0xfff0 4
    ∷ masked 0xf 0
    ∷ [])

-- In the order of the header.
abbrev pub cna_front_registers : List Reg
cna_front_registers =
    reg_cna_s_status ∷ reg_cna_s_pointer ∷ reg_cna_operation_enable ∷ reg_cna_conv_con1
    ∷ reg_cna_conv_con2 ∷ reg_cna_conv_con3 ∷ reg_cna_data_size0 ∷ reg_cna_data_size1
    ∷ reg_cna_data_size2 ∷ reg_cna_data_size3 ∷ reg_cna_weight_size0 ∷ reg_cna_weight_size1
    ∷ reg_cna_weight_size2 ∷ reg_cna_cbuf_con0 ∷ reg_cna_cbuf_con1 ∷ reg_cna_cvt_con0
    ∷ reg_cna_cvt_con1 ∷ reg_cna_cvt_con2 ∷ reg_cna_cvt_con3 ∷ reg_cna_cvt_con4 ∷ reg_cna_fc_con0
    ∷ reg_cna_fc_con1 ∷ reg_cna_pad_con0 ∷ reg_cna_feature_data_addr ∷ reg_cna_fc_con2
    ∷ reg_cna_dma_con0 ∷ []
