-- ===== src/Lib.antt =====
-- A model of HERE, a RISC-V emulator for the riscv64 build: the guest's RAM, the interrupt
-- controller, the page tables, the bus, the control and status registers, the traps, the decoder,
-- the base, M, A, Zicsr and C instructions, the cycles of a hart, the ACLINT and the queues of virtio
-- devices.
--
-- The parts and how they interact. The decoder finds the instruction of a raw word and extracts
-- its operands; the instruction computes on a hart, which holds the registers, the program
-- counter, the CSRs, the instruction cache and the memory, and either retires or raises. The level
-- and mstatus choose the policy of a load, a store or a fetch; unless it is direct, its address is
-- translated by the page table walker, which reads its entries from the RAM and keeps leaves in a
-- direct-mapped cache, the TLB. The bus sends the access to the RAM or to a device. The RAM keeps
-- the reservation of load-reserved and store-conditional. Devices raise lines of the PLIC, which
-- chooses a source for each context and drives the external interrupt lines; those set bits of
-- mip. The trap controller reads mip and mie, chooses an interrupt, decides by mideleg and medeleg
-- on the level of the handler, and saves and restores the state in mstatus.
--
-- The files and what they model (paths from the root of the repository):
--   Word       src/utils.rs, src/config.rs: widths, masks, sign extension, alignment
--   Device     src/device/mod.rs: the errors of an access
--   Ram        src/ram.rs, one definition for each method; Bytes, Access, Reserve and Section hold
--              the proofs on bytes, on reads and writes, on LR/SC and on image sections
--   Plic       src/device/plic: BitReg the register arrays, Layout the gateways, priorities and
--              the arbitration, Registers the address map, Device the bus and the lines
--   Cache      src/isa/cache.rs: the policies Direct and Associative, and the counters in Stats
--   Mmu        src/isa/riscv/mmu: Config and Canonical the constants and the address fields,
--              PageTable the walker, whose proofs are in Entry, Walk, Tlb and Access, and
--              Policy the check that the level and mstatus ask of an access, Manager the
--              accesses through walker and bus
--   Mmio       src/device/mmio.rs: the bus; Search and Routes hold the proofs
--   Csr        src/isa/riscv/csr_reg: the validators, Table the rows of the macro, File the
--              register file, Privilege the check of an access, Fields and Status the proofs
--   Trap       src/isa/riscv/trap: the causes, Codes their numbers, Controller the entries, the
--              returns and the choice of an interrupt, with a child for each proof
--   Int        the i128 arithmetic of src/isa/riscv/instruction/exec_function.rs
--   Alu        the exec functions of src/isa/riscv/instruction/exec_function.rs; its children hold
--              the proofs, Division and Product against the integers, Words32 for the word forms
--   Isa        src/isa/riscv/mod.rs and src/isa/riscv/instruction/mod.rs: raw instructions and
--              formats; Instr the instructions, Decode and Compressed the operands, Tables,
--              Funct and Specific the tables of src/isa/riscv/decoder and their lookups, Submasks
--              the enumeration of patterns; Formats, ShiftAmounts, Immediates, Encode, Slices,
--              SliceBits and Layouts the proofs on the layout of operands
--   Hart       src/isa/riscv/executor.rs and src/cpu/reg_file.rs: the state; its accesses to memory
--              of src/isa/riscv/mmu/cpu.rs and to CSRs of src/isa/riscv/csr_reg/cpu.rs in CsrAccess;
--              Core, Exec, System, Compress and Atomic the instructions of exec_function.rs,
--              exec_compress_function.rs, exec_atomic_function.rs and exec_mapping.rs in
--              src/isa/riscv/instruction, Mapping their table; Step a cycle and Batch the
--              batches of src/isa/riscv/executor.rs; Keeps, Expand, Zero, Cycles and Batches the proofs
--   Aclint     src/device/aclint.rs, with the due times of src/clock.rs; Timer holds the proofs on
--              the line, Mtime those on the register
--   Virtio     src/device/virtio/virtio_queue.rs: descriptors, rings and chains; Queue the set-up of
--              a queue; Rings and Walk the proofs
-- Base and Bits are helpers: tests, lists, results, and the binary digits of numbers.
--
-- How state is modelled. A struct is a record, an enum a data type, and a method that changes its
-- object returns the new one. A word is a natural number below 2 ^ 64, and what wraps is reduced by
-- `%`. Memory and arrays of registers are functions of an index that is only used in range. An
-- error is a Result; `none` of an Option is a panic where the comment says so. A subtraction or an
-- addition that the debug profile would check wraps, as the release profile computes it. The host
-- is 64-bit and little-endian. What the host supplies is an argument: the address of its
-- allocation (host_base), the answers of sampled peripherals.
--
-- Bounds and fuel. Loops are structural: the walk over the levels of the mode, the search over the
-- sources in order of priority, the scan of sixteen interrupt bits, the copy of a section over its
-- bytes. Two loops are on fuel. The enumeration of the submasks of a field has 128, the number of
-- values of the widest field; every turn gives a smaller one (Isa/Submasks). The walk of a chain of
-- descriptors takes its fuel as an argument; how much is enough, and where none is, stands in
-- Virtio/Walk.
--
-- Parameters. The crate bit_set is a record of operations with its membership laws (Plic/BitSet).
-- The devices on the bus are a record of a read and a write, of which nothing is assumed.
-- The patterns of the instructions, which the build generates, are the argument of from_isa. What a
-- device does with a descriptor is an argument of the walk. The instructions of the floating point
-- and vector units and the hook of a batch are arguments of the executor, of which nothing is assumed.
--
-- Not modelled: the patterns that the build generates, the vector and floating-point units, of
-- which the type of instructions has only a number, the block device and the transport of virtio,
-- the UART, the SPI controller, the queue of timers, the boards, the debuggers, the loader and the front
-- ends. The structures of a queue are typed: bytes of the RAM that two of them share are not told
-- apart from bytes that they do not.
pub mod Aclint
pub mod Base
pub mod Bits
pub mod Word
pub mod Device
pub mod Ram
pub mod Cache
pub mod Plic
pub mod Mmu
pub mod Csr
pub mod Trap
pub mod Mmio
pub mod Int
pub mod Alu
pub mod Isa
pub mod Hart
pub mod Virtio
