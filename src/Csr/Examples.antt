-- ===== src/Csr/Examples.antt =====
-- The register file on concrete values.
use here.Base.{arith, if◌then◌else◌, refl, suc, zero, ◌≡◌}
use here.Bits.{digit}
use here.Csr.Fields.{IsWritable}
use here.Csr.File.{csr_new, write_uncheck_privilege}
use here.Csr.Status.{is_sstatus_bit, write_uncheck_privilege-sstatus}
use here.Csr.Table.Lower.{sstatus}
use here.Csr.Table.Machine.{mstatus}

write_uncheck_privilege-sstatus_example :
    digit 1 ((write_uncheck_privilege csr_new sstatus 0xffff).value_at mstatus)
    ≡ (if is_sstatus_bit 1 then digit 1 0xffff else digit 1 (csr_new.value_at mstatus))
write_uncheck_privilege-sstatus_example =
    write_uncheck_privilege-sstatus csr_new 0xffff 1 (omega arith)

upper_half : IsWritable 0xff 4 2
unfolding digit
upper_half zero lt = refl
upper_half (suc zero) lt = refl
upper_half (suc (suc i)) lt = absurd (omega arith)
