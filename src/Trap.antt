-- ===== src/Trap.antt =====
-- src/isa/riscv/trap: the causes, the delegation to the supervisor, the entry into a handler and
-- the returns. The state is the register file and the pc; `none` is a panic: a missing register, a
-- value too wide for its field, a privilege level that does not exist, or `unreachable!`.
pub mod Controller
pub mod Codes
use here.Base.{Option, bit_or, if◌then◌else◌, none, some, ℕ, ◌==◌}
use here.Word.{shl}
use here.Device.{
  MemError, load_fault, load_misaligned, load_page_fault, store_fault, store_misaligned,
  store_page_fault,
}

pub data Interrupt : Type 0 where
  user_soft supervisor_soft machine_soft user_timer supervisor_timer machine_timer : Interrupt
  user_external supervisor_external machine_external unknown_interrupt : Interrupt

pub data Exception : Type 0 where
  instruction_misaligned instruction_fault illegal_instruction breakpoint : Exception
  except_load_misaligned except_load_fault except_store_misaligned except_store_fault : Exception
  user_env_call supervisor_env_call hypervision_env_call machine_env_call : Exception
  instruction_page_fault except_load_page_fault unknown_exception except_store_page_fault :
      Exception

pub data Trap : Type 0 where
  interrupt : Interrupt → Trap
  exception : Exception → Trap

-- `Interrupt::from`
unfoldable pub interrupt_from : ℕ → Interrupt
interrupt_from nr =
    if nr == 0
    then user_soft
    else if nr == 1
    then supervisor_soft
    else if nr == 3
    then machine_soft
    else if nr == 4
    then user_timer
    else if nr == 5
    then supervisor_timer
    else if nr == 7
    then machine_timer
    else if nr == 8
    then user_external
    else if nr == 9
    then supervisor_external
    else if nr == 11
    then machine_external
    else unknown_interrupt

unfoldable pub interrupt_into : Interrupt → Option ℕ
interrupt_into user_soft = some 0
interrupt_into supervisor_soft = some 1
interrupt_into machine_soft = some 3
interrupt_into user_timer = some 4
interrupt_into supervisor_timer = some 5
interrupt_into machine_timer = some 7
interrupt_into user_external = some 8
interrupt_into supervisor_external = some 9
interrupt_into machine_external = some 11
interrupt_into unknown_interrupt = none

-- `Exception::from`
unfoldable pub exception_from : ℕ → Exception
exception_from nr =
    if nr == 0
    then instruction_misaligned
    else if nr == 1
    then instruction_fault
    else if nr == 2
    then illegal_instruction
    else if nr == 3
    then breakpoint
    else if nr == 4
    then except_load_misaligned
    else if nr == 5
    then except_load_fault
    else if nr == 6
    then except_store_misaligned
    else if nr == 7
    then except_store_fault
    else if nr == 8
    then user_env_call
    else if nr == 9
    then supervisor_env_call
    else if nr == 11
    then machine_env_call
    else if nr == 12
    then instruction_page_fault
    else if nr == 13
    then except_load_page_fault
    else if nr == 15
    then except_store_page_fault
    else unknown_exception

unfoldable pub exception_into : Exception → Option ℕ
exception_into instruction_misaligned = some 0
exception_into instruction_fault = some 1
exception_into illegal_instruction = some 2
exception_into breakpoint = some 3
exception_into except_load_misaligned = some 4
exception_into except_load_fault = some 5
exception_into except_store_misaligned = some 6
exception_into except_store_fault = some 7
exception_into user_env_call = some 8
exception_into supervisor_env_call = some 9
exception_into hypervision_env_call = some 10
exception_into machine_env_call = some 11
exception_into instruction_page_fault = some 12
exception_into except_load_page_fault = some 13
exception_into except_store_page_fault = some 15
exception_into unknown_exception = none

-- The discriminant, which `exception as u8` reads: the order of the declaration, in which `Unknown`
-- takes number 14.
unfoldable pub exception_number : Exception → ℕ
exception_number instruction_misaligned = 0
exception_number instruction_fault = 1
exception_number illegal_instruction = 2
exception_number breakpoint = 3
exception_number except_load_misaligned = 4
exception_number except_load_fault = 5
exception_number except_store_misaligned = 6
exception_number except_store_fault = 7
exception_number user_env_call = 8
exception_number supervisor_env_call = 9
exception_number hypervision_env_call = 10
exception_number machine_env_call = 11
exception_number instruction_page_fault = 12
exception_number except_load_page_fault = 13
exception_number unknown_exception = 14
exception_number except_store_page_fault = 15

unfoldable pub from_memory_err : MemError → Exception
from_memory_err load_misaligned = except_load_misaligned
from_memory_err load_fault = except_load_fault
from_memory_err store_misaligned = except_store_misaligned
from_memory_err store_fault = except_store_fault
from_memory_err load_page_fault = except_load_page_fault
from_memory_err store_page_fault = except_store_page_fault

unfoldable pub from_instr_fetch_err : MemError → Option Exception
from_instr_fetch_err load_misaligned = some instruction_misaligned
from_instr_fetch_err load_fault = some instruction_fault
from_instr_fetch_err load_page_fault = some instruction_page_fault
from_instr_fetch_err _ = none

-- `Trap` into a word: the cause, with the highest bit for an interrupt.
unfoldable pub trap_into : Trap → Option ℕ
unfolding interrupt_into exception_into
trap_into (interrupt i) = elim (interrupt_into i) [
  | none ↦ none
  | some nr ↦ some (bit_or nr (shl 1 63))
]
trap_into (exception e) = exception_into e
