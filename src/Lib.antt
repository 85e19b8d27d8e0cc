-- ===== src/Lib.antt =====
-- librocket: a user-space library for the NPU of the RK3588 on the Rocket kernel driver.
--
-- A caller describes a matrix product A (m x k) times B (k x n) in a matmul_params_t. A generator turns
-- it into a buffer of 64-bit command words that program the NPU's registers, the product posing as a
-- 1x1 convolution; the device interface allocates buffers that the NPU can reach, submits the
-- words as a job and waits for it. Layout functions give the position of each matrix element in the
-- NPU's blocked formats.
--
-- The parts, each with the files that model it:
--   Npu/Hw.antt              include/npu_hw.h: registers, operation codes, NPUOP
--   Npu/Desc.antt            include/npu_cna.h, npu_dpu.h, npu_matmul.h: descriptors, parameters
--   Npu/Values, Npu/Task     src/npu_matmul.c, gen_matmul_task: register values, the 108 words, and
--                            what they leave in the registers
--   Npu/Cbuf.antt            src/npu_matmul.c: division of the CBUF into banks
--   Npu/Fp16, Npu/Int8       src/npu_matmul.c, gen_matmul_fp16 and gen_matmul_int8
--   Npu/Layout               src/npu_matmul.c: feature_data, weight_fp16, weight_int8
--   Registers                include/mesa_registers.h: offset and fields of each register
--   Registers/Target.antt    include/mesa_registers.h: enum target, rkt_get_target
--   Registers/Helpers        include/mesa_helpers.h: the macros for values of fields
--   Regcmd                   src/npu_matmul_mesa.c: MESA_REGCMD, regcmd[idx++]
--   Mesa                     src/npu_matmul_mesa.c: its generators and stubs
--   Full                     src/npu_matmul_full.c: its generator and stubs
--   Device/Kernel.antt       include/rocket_accel.h and the system calls, a parameter
--   Device/Calls.antt        src/rocket_interface.c, each function under its name
--   Device/Accounting        what a process holds before and after these calls
--   Driver/Minimal           tests/minimal_npu_test.c, minimal_mesa_test.c, test_cna_enable.c
--   Driver/Matmul            tests/matmul_fp16_rocket.c: its computations, loops and main
--   Examples                 runs on concrete inputs
-- A definition carries the name of the C function, macro or type that it models. A stretch of a
-- C function that is a definition of its own (a register value, the code behind an early
-- return) says so where it stands.
--
-- State and errors. The task buffer is a list of words; a generator takes it and returns its
-- result code with the buffer afterwards, and none where C would store beyond the buffer's end or
-- where gen_matmul_fp16 or gen_matmul_int8 overflows an int. The
-- calls of the device interface pass a process state along: the state of the system, which is a
-- parameter, and errno. A function that writes through a pointer returns the new structure.
--
-- Integers. Numbers are natural numbers, cut to the width of the C type where the source
-- assigns them. The layout functions take ints, modelled as integers with C's truncating division; an
-- overflow of int there is undefined in C and outside the model. Width, height and channels of the
-- input are multiplied in int by gen_matmul_fp16 and gen_matmul_int8 (src/npu_matmul.c, lines 250 and
-- 390): the product overflows from 2 ^ 31 on, which C leaves undefined, and the result is then none. In src/npu_matmul_mesa.c the product
-- M * N * 2 of ints is taken to wrap around.
--
-- Loops. No loop needs fuel: the generators' words are lists, and the counting loops of the test
-- programs recurse on the number of rounds left (Prelude/Loops.antt).
--
-- The system calls are the record Kernel. What the results on the device interface use of their
-- documented behaviour is the record Accounts: which resources a call adds or takes away, and that
-- a failure sets errno. Examples/Host.antt builds a host that satisfies it.
--
-- Undefined names. src/npu_matmul_full.c does not compile: no header defines 22 of its register
-- numbers and 8 of its macros. They are the parameter Missing, about which nothing is assumed but where
-- a result says so.
--
-- The matmul test program is linked with a Library, the record of the functions that npu_matmul.h
-- declares; src/npu_matmul.c and src/npu_matmul_mesa.c each fill it (Driver/Matmul/Linked.antt). The
-- arithmetic of floating point, what atoi and rand give and what the NPU leaves in the output buffer
-- are parameters. An access outside of an array is the result none.
--
-- Not modelled: the build files and the kernel patch; the messages on the console; the constant
-- struct sizes in the requests to the driver; what the hardware computes.
pub mod Prelude
pub mod Npu
pub mod Registers
pub mod Regcmd
pub mod Mesa
pub mod Full
pub mod Device
pub mod Driver
pub mod Examples
