-- ===== src/Plic/Device/Examples.antt =====
-- The PLIC device on small inputs, and the theorems there.
use here.Plic.BitReg
use here.Base.{Option, [], arith, false, none, refl, some, true, ◌∷◌, ◌≡◌}
use here.Plic.BitSet.{characteristic}
use here.Plic.Device.{
  Plic, is_some, plic_new, set_irq_line, sync_peripheral_irq_levels, update_context_irq_line,
}
use here.Plic.Device.Lines.{last_told, update_context_irq_line-tells}
use here.Plic.Device.Steps.{Reach, Reach-IsArbitrated, connects, next, start}
use here.Plic.Layout.{find_pending_interrupt, ids_from, layout_new, pending_interrupt_to_notify}
use here.Plic.Layout.Arbitration.{IsArbitrated}
use here.Plic.Layout.Invariant.{IsValid}
use here.Plic.Registers.{claim_complete, decode_register}

abbrev unwrap : Option (Plic characteristic) → Plic characteristic
unwrap none = plic_new characteristic
unwrap (some p) = p

abbrev connected : Plic characteristic
connected = unwrap (set_irq_line characteristic (plic_new characteristic) 0)

connects_zero : set_irq_line characteristic (plic_new characteristic) 0 ≡ some connected
unfolding set_irq_line
connects_zero = refl

connected-Reach : Reach characteristic connected
connected-Reach = next start (connects (plic_new characteristic) connected 0 connects_zero)

told_low : connected.riscv_irq_line 0 ≡ some (false ∷ [])
unfolding set_irq_line plic_new layout_new pending_interrupt_to_notify ids_from BitReg.new
told_low = refl

Reach-IsArbitrated_example :
    IsValid characteristic connected.layout
    × IsArbitrated characteristic connected.layout 0 true
        (find_pending_interrupt characteristic connected.layout 0 true)
Reach-IsArbitrated_example = Reach-IsArbitrated characteristic connected-Reach 0 true

update_context_irq_line-tells_example :
    last_told ((update_context_irq_line characteristic (λ _. true) connected 0).1.riscv_irq_line 0)
    ≡ some (
        is_some (
          pending_interrupt_to_notify characteristic
            (sync_peripheral_irq_levels characteristic (λ _. true) connected).layout
            0))
update_context_irq_line-tells_example =
    update_context_irq_line-tells characteristic connected-Reach (λ _. true) 0 (false ∷ [])
      (omega arith) told_low

claim_register : decode_register 0x201004 ≡ some (claim_complete 1)
unfolding decode_register
claim_register = refl
