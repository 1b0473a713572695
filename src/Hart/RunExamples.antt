-- ===== src/Hart/RunExamples.antt =====
-- Cycles of a hart whose empty memory reads as `c.addi4spn x8, 0` for the decoder of these examples.
use here.Ram
use here.Base.{
  Option, [], err, false, if◌then◌else◌, none, ok, refl, some, true, ◌+◌, ◌==◌, ◌∷◌, ◌≡◌,
}
use here.Word.{check_align, make_mask}
use here.Device.{load_fault, store_fault}
use here.Cache.Direct.{direct_new, get_id}
use here.Csr.{CsrReg_write, combine_validators}
use here.Csr.File.{csr_new, field_of, get_field, resolve_shadow_addr, set_field}
use here.Hart.{Op, RvCpu}
use here.Hart.Batch.{batch_result, noop_hook, step_batch, step_batch_with_hook, take_interrupt}
use here.Hart.Batches.{decode_at_checked-again, step_batch-no_interrupt}
use here.Hart.Cycles.{Ran, WithinBudget, step_batch_with_hook-runs}
use here.Hart.Step.{decode_at_checked, icache_put, step_batch_no_interrupt}
use here.Hart.Zero.{step_batch_no_interrupt-reg_zero}
use here.Isa.{DecodeInstr, RvInstrInfo, format_ciw, info_ciw}
use here.Isa.Funct.{Decoder, funct_new}
use here.Isa.Instr.{RiscvInstr}
use here.Mmio.{DeviceArena, read_by_type}
use here.Mmu.Manager.{from_ram_and_mmio, read_with_policy, translate_with_policy}
use here.Mmu.Policy.{resolve_ifetch_policy}
use here.Ram.{Ram, load_bytes, read}

abbrev no_devices : DeviceArena
no_devices = record {
  State = Unit {0};
  device_read = λ s _ _ _. (err load_fault, s);
  device_write = λ s _ _ _ _. (err store_fault, s);
}

abbrev hart : RvCpu no_devices
hart = record {
  reg_file = λ i. if i == 0 then 0 else 0x8000_0000 + i;
  pc = 0x8000_0000;
  memory = from_ram_and_mmio no_devices (record { map = []; ram = Ram.new 0; devices = tt });
  csr = csr_new;
  icache = direct_new;
  icache_epoch = 0;
  time_addr = none;
  pending_tval = none;
}

abbrev decoder : Decoder
decoder = record {
  compress_decoder = (record { mask = 0xE003; key = 0 }, RiscvInstr.c_addi4spn, format_ciw) ∷ [];
  funct_decoder = funct_new;
  mask_decoder = [];
}

abbrev no_units : RiscvInstr → RvInstrInfo → Op no_devices (Unit {0})
no_units instr info cpu = none

abbrev decoded : DecodeInstr
decoded = record { instr = RiscvInstr.c_addi4spn; info = info_ciw 8 0; len = 2 }

abbrev fetched : RvCpu no_devices
fetched = record hart { icache = icache_put hart.icache 0x8000_0000 decoded }

abbrev after : Option (RvCpu no_devices) → RvCpu no_devices
after none = hart
after (some c) = c

test_registers :
    (after (step_batch_no_interrupt true no_units decoder 2 hart)).reg_file 8 ≡ 0x8000_0002
unfolding step_batch_no_interrupt resolve_ifetch_policy read_with_policy Ram.new
    translate_with_policy read_by_type Ram.read check_align from_ram_and_mmio Ram.load_bytes
    get_field resolve_shadow_addr set_field field_of get_id CsrReg_write combine_validators
    make_mask
test_registers = refl

step_batch_no_interrupt-reg_zero_example :
    (after (step_batch_no_interrupt true no_units decoder 2 hart)).reg_file 0 ≡ 0
unfolding step_batch_no_interrupt resolve_ifetch_policy read_with_policy Ram.new
    translate_with_policy read_by_type Ram.read check_align from_ram_and_mmio Ram.load_bytes
    get_field resolve_shadow_addr set_field field_of get_id CsrReg_write combine_validators
    make_mask
step_batch_no_interrupt-reg_zero_example =
    step_batch_no_interrupt-reg_zero true no_units decoder 2 hart
      (after (step_batch_no_interrupt true no_units decoder 2 hart)) refl refl

step_batch_with_hook-runs_example :
    WithinBudget 3 (batch_result 3 false)
    × Ran true no_units decoder
        (noop_hook no_devices)
        3
        false
        tt
        hart
        tt
        (after (step_batch true no_units decoder 3 hart))
unfolding step_batch_with_hook step_batch resolve_ifetch_policy read_with_policy Ram.new
    translate_with_policy read_by_type Ram.read check_align from_ram_and_mmio Ram.load_bytes
    get_field resolve_shadow_addr set_field field_of get_id CsrReg_write combine_validators
    make_mask
step_batch_with_hook-runs_example =
    step_batch_with_hook-runs true no_units decoder (noop_hook no_devices) 3 tt tt hart
      (after (step_batch true no_units decoder 3 hart)) (batch_result 3 false) refl

step_batch-no_interrupt_example :
    step_batch true no_units decoder 3 hart ≡ step_batch_no_interrupt true no_units decoder 3 hart
unfolding take_interrupt
step_batch-no_interrupt_example = step_batch-no_interrupt true no_units decoder 3 hart refl

decode_at_checked-again_example :
    decode_at_checked decoder 0x8000_0000 fetched ≡ some (ok decoded, fetched)
unfolding decode_at_checked resolve_ifetch_policy read_with_policy Ram.new translate_with_policy
    read_by_type Ram.read check_align from_ram_and_mmio Ram.load_bytes get_field resolve_shadow_addr
    set_field field_of get_id CsrReg_write combine_validators make_mask
decode_at_checked-again_example =
    decode_at_checked-again true no_units decoder 0x8000_0000 hart fetched decoded refl
