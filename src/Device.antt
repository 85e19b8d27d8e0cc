-- ===== src/Device.antt =====
-- src/rocket_interface.c with include/rocket_interface.h and the structures of
-- include/rocket_accel.h: the device, its buffer objects, and the submission of a job.
pub mod Kernel
pub mod Calls
pub mod Accounting
