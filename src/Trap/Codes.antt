-- ===== src/Trap/Codes.antt =====
-- The numbers of the causes (src/isa/riscv/trap/mod.rs): they are read back as they were given, and
-- the number by which an exception is delegated is its code.
use here.Base.{arith, inl, some, ℕ, ◌≡◌, ◌⊎◌}
use here.Trap.{
  Exception, Interrupt, exception_from, exception_into, exception_number, hypervision_env_call,
  instruction_misaligned, interrupt_from, interrupt_into, unknown_exception,
}

-- A number that an interrupt gives is read back as that interrupt.
pub interrupt_from-interrupt_into :
    (i : Interrupt) (n : ℕ) → interrupt_into i ≡ some n → interrupt_from n ≡ i
unfolding interrupt_into interrupt_from
interrupt_from-interrupt_into i n h = ground arith

-- A number that an exception gives is read back as that exception, except for the environment call
-- from the hypervisor, which is read back as unknown.
pub exception_from-exception_into :
    (e : Exception) (n : ℕ)
    → exception_into e ≡ some n
    → (exception_from n ≡ e) ⊎ ((e ≡ hypervision_env_call) × (exception_from n ≡ unknown_exception))
unfolding exception_into exception_from
exception_from-exception_into instruction_misaligned n h = inl (ground arith)
exception_from-exception_into e n h = ground arith

-- The bit of medeleg that decides on an exception is that of its code.
pub exception_number-eq :
    (e : Exception) (n : ℕ) → exception_into e ≡ some n → exception_number e ≡ n
unfolding exception_into exception_number
exception_number-eq e n h = ground arith
