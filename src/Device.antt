-- ===== src/Device.antt =====
-- src/device/mod.rs: the errors of memory and device accesses, and the device trait.

pub data MemError : Type 0 where
  load_page_fault load_misaligned load_fault store_page_fault store_misaligned store_fault :
      MemError
