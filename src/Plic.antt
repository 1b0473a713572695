-- ===== src/Plic.antt =====
-- src/device/plic: the platform-level interrupt controller.
pub mod BitSet
pub mod BitReg
pub mod Layout
pub mod Registers
pub mod Device
