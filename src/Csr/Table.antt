-- ===== src/Csr/Table.antt =====
-- src/isa/riscv/csr_reg/csr_macro.rs: the table of the registers, row by row as the macro is
-- called.
pub mod Lower
pub mod Machine
use Lower.*
use Machine.*
use here.Base.{List, [], none, some, ℕ, ◌*◌, ◌∷◌}
use here.Csr.{Field, Row}

abbrev row : ℕ → List Field → Row
row a fs = record { index = a; initial = 0; shadow_of = none; fields = fs }

abbrev shadow : ℕ → ℕ → List Field → Row
shadow a base fs = record { index = a; initial = 0; shadow_of = some base; fields = fs }

-- `CSR_REG_TABLE`
abbrev pub csr_reg_table : List Row
csr_reg_table =
    row fcsr fcsr_fields
    ∷ row vstart vstart_fields
    ∷ row vcsr vcsr_fields
    ∷ shadow cycle mcycle cycle_fields
    ∷ shadow instret minstret instret_fields
    ∷ row vl vl_fields
    ∷ row vtype vtype_fields
    ∷ row vlenb vlenb_fields
    ∷ shadow sstatus mstatus sstatus_fields
    ∷ shadow sie mie sie_fields
    ∷ row stvec stvec_fields
    ∷ row sscratch sscratch_fields
    ∷ row sepc sepc_fields
    ∷ row scause scause_fields
    ∷ row stval stval_fields
    ∷ shadow sip mip sip_fields
    ∷ row satp satp_fields
    ∷ row mstatus mstatus_fields
    ∷ row misa misa_fields
    ∷ row medeleg medeleg_fields
    ∷ row mideleg mideleg_fields
    ∷ row mie mie_fields
    ∷ row mtvec mtvec_fields
    ∷ row mcountinhibit mcountinhibit_fields
    ∷ row mscratch mscratch_fields
    ∷ row mepc mepc_fields
    ∷ row mcause mcause_fields
    ∷ row mtval mtval_fields
    ∷ row mip mip_fields
    ∷ row mcycle mcycle_fields
    ∷ row minstret minstret_fields
    ∷ row mvendorid mvendorid_fields
    ∷ row marchid marchid_fields
    ∷ row mimpid mimpid_fields
    ∷ row mhartid mhartid_fields
    ∷ []
