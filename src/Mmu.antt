-- ===== src/Mmu.antt =====
-- src/isa/riscv/mmu: virtual addresses, page tables, the TLB and the access policies.
pub mod Config
pub mod Canonical
pub mod PageTable
pub mod Policy
pub mod Manager
