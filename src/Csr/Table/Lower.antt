-- ===== src/Csr/Table/Lower.antt =====
-- The user-level and supervisor-level rows of src/isa/riscv/csr_reg/csr_macro.rs.
use here.Base.{List, [], ℕ, ◌∷◌}
use here.Csr.{Field, field, fixed}

abbrev pub fcsr : ℕ
fcsr = 0x003

abbrev pub fcsr_fields : List Field
fcsr_fields = field 0 5 ∷ field 0 1 ∷ field 1 1 ∷ field 2 1 ∷ field 3 1 ∷ field 4 1 ∷ field 5 3 ∷ []

abbrev pub vstart : ℕ
vstart = 0x008

abbrev pub vstart_fields : List Field
vstart_fields = field 0 64 ∷ []

abbrev pub vcsr : ℕ
vcsr = 0x00f

abbrev pub vcsr_fields : List Field
vcsr_fields = field 0 1 ∷ field 1 2 ∷ []

abbrev pub cycle : ℕ
cycle = 0xc00

abbrev pub cycle_fields : List Field
cycle_fields = fixed 0 64 ∷ []

abbrev pub instret : ℕ
instret = 0xc02

abbrev pub instret_fields : List Field
instret_fields = fixed 0 64 ∷ []

abbrev pub vl : ℕ
vl = 0xc20

abbrev pub vl_fields : List Field
vl_fields = field 0 64 ∷ []

abbrev pub vtype : ℕ
vtype = 0xc21

abbrev pub vtype_fields : List Field
vtype_fields = fixed 0 3 ∷ fixed 3 3 ∷ fixed 6 1 ∷ fixed 7 1 ∷ fixed 63 1 ∷ []

abbrev pub vlenb : ℕ
vlenb = 0xc22

abbrev pub vlenb_fields : List Field
vlenb_fields = field 0 64 ∷ []

abbrev pub sstatus : ℕ
sstatus = 0x100

abbrev pub sstatus_fields : List Field
sstatus_fields =
    field 1 1
    ∷ field 5 1
    ∷ field 6 1
    ∷ field 8 1
    ∷ field 9 2
    ∷ field 13 2
    ∷ field 15 2
    ∷ field 18 1
    ∷ field 19 1
    ∷ field 23 1
    ∷ field 24 1
    ∷ fixed 32 2
    ∷ field 63 1
    ∷ []

abbrev pub sie : ℕ
sie = 0x104

abbrev pub sie_fields : List Field
sie_fields = field 0 1 ∷ field 1 1 ∷ field 4 1 ∷ field 5 1 ∷ field 8 1 ∷ field 9 1 ∷ []

abbrev pub stvec : ℕ
stvec = 0x105

abbrev pub stvec_fields : List Field
stvec_fields = field 0 2 ∷ field 2 62 ∷ []

abbrev pub sscratch : ℕ
sscratch = 0x140

abbrev pub sscratch_fields : List Field
sscratch_fields = field 0 64 ∷ []

abbrev pub sepc : ℕ
sepc = 0x141

abbrev pub sepc_fields : List Field
sepc_fields = field 0 64 ∷ []

abbrev pub scause : ℕ
scause = 0x142

abbrev pub scause_fields : List Field
scause_fields = field 0 63 ∷ field 63 1 ∷ []

abbrev pub stval : ℕ
stval = 0x143

abbrev pub stval_fields : List Field
stval_fields = field 0 64 ∷ []

abbrev pub sip : ℕ
sip = 0x144

abbrev pub sip_fields : List Field
sip_fields = field 0 1 ∷ field 1 1 ∷ field 4 1 ∷ field 5 1 ∷ field 8 1 ∷ field 9 1 ∷ []

abbrev pub satp : ℕ
satp = 0x180

abbrev pub satp_fields : List Field
satp_fields = field 0 44 ∷ field 44 16 ∷ field 60 4 ∷ []
