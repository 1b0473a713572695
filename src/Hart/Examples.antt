-- ===== src/Hart/Examples.antt =====
-- A hart in machine mode on a bus without devices.
use here.Ram
use here.Base.{[], arith, err, if◌then◌else◌, none, refl, ◌+◌, ◌==◌, ◌≡◌}
use here.Device.{load_fault, store_fault}
use here.Cache.Direct.{direct_new}
use here.Csr.File.{csr_new}
use here.Hart.{RvCpu}
use here.Hart.Expand.{compress-expands, exec_expanded, exec_short, short_move, shortened}
use here.Mmio.{DeviceArena}
use here.Mmu.Manager.{from_ram_and_mmio}
use here.Ram.{Ram}

abbrev no_devices : DeviceArena
no_devices = record {
  State = Unit {0};
  device_read = λ s _ _ _. (err load_fault, s);
  device_write = λ s _ _ _ _. (err store_fault, s);
}

abbrev hart : RvCpu no_devices
hart = record {
  reg_file = λ i. if i == 0 then 0 else 0x8000_0000 + i;
  pc = 0x8000_0000;
  memory = from_ram_and_mmio no_devices (record { map = []; ram = Ram.new 0; devices = tt });
  csr = csr_new;
  icache = direct_new;
  icache_epoch = 0;
  time_addr = none;
  pending_tval = none;
}

-- `c.mv x5, x6`
compress-expands_example :
    exec_short (short_move 5 6) hart ≡ shortened (exec_expanded (short_move 5 6)) hart
compress-expands_example = compress-expands (short_move 5 6) hart refl (omega arith)
