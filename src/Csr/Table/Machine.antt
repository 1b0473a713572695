-- ===== src/Csr/Table/Machine.antt =====
-- The machine-level rows of src/isa/riscv/csr_reg/csr_macro.rs.
use here.Base.{List, [], ℕ, ◌∷◌}
use here.Csr.{Field, field, fixed, in_range}

abbrev pub mstatus : ℕ
mstatus = 0x300

abbrev pub mstatus_fields : List Field
mstatus_fields =
    field 1 1
    ∷ field 3 1
    ∷ field 5 1
    ∷ field 6 1
    ∷ field 7 1
    ∷ field 8 1
    ∷ field 9 2
    ∷ field 11 2
    ∷ field 13 2
    ∷ fixed 15 2
    ∷ field 17 1
    ∷ field 18 1
    ∷ field 19 1
    ∷ field 20 1
    ∷ field 21 1
    ∷ field 22 1
    ∷ field 23 1
    ∷ field 24 1
    ∷ fixed 32 2
    ∷ fixed 34 2
    ∷ field 36 1
    ∷ field 37 1
    ∷ field 38 1
    ∷ field 39 1
    ∷ field 40 1
    ∷ field 41 1
    ∷ field 42 1
    ∷ field 63 1
    ∷ []

abbrev pub misa : ℕ
misa = 0x301

abbrev pub misa_fields : List Field
misa_fields = fixed 0 25 ∷ fixed 62 2 ∷ []

abbrev pub medeleg : ℕ
medeleg = 0x302

abbrev pub medeleg_fields : List Field
medeleg_fields =
    field 0 1
    ∷ field 1 1
    ∷ field 2 1
    ∷ field 3 1
    ∷ field 4 1
    ∷ field 5 1
    ∷ field 6 1
    ∷ field 7 1
    ∷ field 8 1
    ∷ field 9 1
    ∷ field 11 1
    ∷ field 12 1
    ∷ field 13 1
    ∷ field 15 1
    ∷ []

abbrev pub mideleg : ℕ
mideleg = 0x303

abbrev pub mideleg_fields : List Field
mideleg_fields = field 1 1 ∷ field 5 1 ∷ field 9 1 ∷ []

abbrev pub mie : ℕ
mie = 0x304

abbrev pub mie_fields : List Field
mie_fields =
    field 0 1
    ∷ field 1 1
    ∷ field 2 1
    ∷ field 3 1
    ∷ field 4 1
    ∷ field 5 1
    ∷ field 6 1
    ∷ field 7 1
    ∷ field 8 1
    ∷ field 9 1
    ∷ field 10 1
    ∷ field 11 1
    ∷ field 12 1
    ∷ field 13 1
    ∷ []

abbrev pub mtvec : ℕ
mtvec = 0x305

abbrev pub mtvec_fields : List Field
mtvec_fields = (record { low = 0; len = 2; rule = in_range 0 2 0 1 }) ∷ field 2 62 ∷ []

abbrev pub mcountinhibit : ℕ
mcountinhibit = 0x320

abbrev pub mcountinhibit_fields : List Field
mcountinhibit_fields = fixed 0 64 ∷ []

abbrev pub mscratch : ℕ
mscratch = 0x340

abbrev pub mscratch_fields : List Field
mscratch_fields = field 0 64 ∷ []

abbrev pub mepc : ℕ
mepc = 0x341

abbrev pub mepc_fields : List Field
mepc_fields = field 0 64 ∷ []

abbrev pub mcause : ℕ
mcause = 0x342

abbrev pub mcause_fields : List Field
mcause_fields = field 0 63 ∷ field 63 1 ∷ []

abbrev pub mtval : ℕ
mtval = 0x343

abbrev pub mtval_fields : List Field
mtval_fields = field 0 64 ∷ []

abbrev pub mip : ℕ
mip = 0x344

abbrev pub mip_fields : List Field
mip_fields =
    field 0 1
    ∷ field 1 1
    ∷ field 2 1
    ∷ field 3 1
    ∷ field 4 1
    ∷ field 5 1
    ∷ field 6 1
    ∷ field 7 1
    ∷ field 8 1
    ∷ field 9 1
    ∷ field 10 1
    ∷ field 11 1
    ∷ field 12 1
    ∷ field 13 1
    ∷ []

abbrev pub mcycle : ℕ
mcycle = 0xb00

abbrev pub mcycle_fields : List Field
mcycle_fields = field 0 64 ∷ []

abbrev pub minstret : ℕ
minstret = 0xb02

abbrev pub minstret_fields : List Field
minstret_fields = field 0 64 ∷ []

abbrev pub mvendorid : ℕ
mvendorid = 0xf11

abbrev pub mvendorid_fields : List Field
mvendorid_fields = fixed 0 64 ∷ []

abbrev pub marchid : ℕ
marchid = 0xf12

abbrev pub marchid_fields : List Field
marchid_fields = fixed 0 64 ∷ []

abbrev pub mimpid : ℕ
mimpid = 0xf13

abbrev pub mimpid_fields : List Field
mimpid_fields = fixed 0 64 ∷ []

abbrev pub mhartid : ℕ
mhartid = 0xf14

abbrev pub mhartid_fields : List Field
mhartid_fields = fixed 0 64 ∷ []
