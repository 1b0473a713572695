-- ===== src/Plic/Layout/Examples.antt =====
-- The registers of the PLIC on small inputs, and the theorems there.
use here.Plic.BitReg
use here.Base.{arith, false, if◌then◌else◌, refl, some, true, ◌&&◌, ◌==◌, ◌≡◌}
use here.Plic.BitReg.{get_bit, set_bit, write_word}
use here.Plic.BitSet.{characteristic}
use here.Plic.Layout.{
  PlicLayout, find_pending_interrupt, ids_from, insert_sorted, is_enabled, is_valid_interrupt_id,
  layout_new, read_claim, set_source_level, sort_by_priority, write_complete, write_enable_word,
  write_priority,
}
use here.Plic.Layout.Arbitration.{IsArbitrated, find_pending_interrupt-IsArbitrated}
use here.Plic.Layout.Gateway.{claim, complete, gateway, gateway-read_claim, gateway-write_complete}
use here.Plic.Layout.Invariant.{
  IsValid, layout_new-IsValid, set_source_level-IsValid, write_enable_word-IsValid,
  write_priority-IsValid,
}

abbrev fresh : PlicLayout characteristic
fresh = layout_new characteristic

-- Source 7 at priority 2 and source 3 at priority 1, both raised and enabled for context 0.
abbrev two_sources : PlicLayout characteristic
two_sources =
    write_enable_word characteristic
      (set_source_level characteristic
        (set_source_level characteristic
          (write_priority characteristic (write_priority characteristic fresh 3 1) 7 2) 3 true)
        7 true)
      0 0 0xff

two_sources-IsValid : IsValid characteristic two_sources
two_sources-IsValid =
    write_enable_word-IsValid characteristic
      (set_source_level characteristic
        (set_source_level characteristic
          (write_priority characteristic (write_priority characteristic fresh 3 1) 7 2) 3 true)
        7 true)
      0 0 0xff
      (set_source_level-IsValid characteristic
        (set_source_level characteristic
          (write_priority characteristic (write_priority characteristic fresh 3 1) 7 2) 3 true)
        7 true (omega arith)
        (set_source_level-IsValid characteristic
          (write_priority characteristic (write_priority characteristic fresh 3 1) 7 2) 3 true
          (omega arith)
          (write_priority-IsValid characteristic (write_priority characteristic fresh 3 1) 7 2
            (write_priority-IsValid characteristic fresh 3 1 (layout_new-IsValid characteristic)))))

seven_first : find_pending_interrupt characteristic two_sources 0 false ≡ some 7
unfolding find_pending_interrupt write_enable_word set_source_level write_priority layout_new
    sort_by_priority ids_from insert_sorted get_bit set_bit BitReg.new write_word
seven_first = refl

find_pending_interrupt-IsArbitrated_example :
    IsArbitrated characteristic two_sources 0 false
      (find_pending_interrupt characteristic two_sources 0 false)
find_pending_interrupt-IsArbitrated_example =
    find_pending_interrupt-IsArbitrated characteristic two_sources 0 false two_sources-IsValid

gateway-read_claim_example :
    ((read_claim characteristic two_sources 0).0 ≡ 7)
    × (gateway characteristic (read_claim characteristic two_sources 0).1 7
        ≡ claim (gateway characteristic two_sources 7))
gateway-read_claim_example = gateway-read_claim characteristic two_sources 0 7 7 seven_first

gateway-write_complete_example :
    gateway characteristic (write_complete characteristic two_sources 0 7) 7 ≡ (
      if is_valid_interrupt_id 7 && is_enabled characteristic two_sources 0 7 && 7 == 7
      then complete (gateway characteristic two_sources 7)
      else gateway characteristic two_sources 7)
gateway-write_complete_example = gateway-write_complete characteristic two_sources 0 7 7
