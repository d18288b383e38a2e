-- ===== src/Vm.antt =====
-- The `petmem` kernel module of VMproject.
pub mod MemMap
pub mod PageTable
pub mod Ioctl
pub mod Format
pub mod Pool
pub mod Release
pub mod Deinit
pub mod Device
pub mod Harness
pub mod FileIo
pub mod Module
