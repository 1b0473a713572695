-- ===== src/Hart/Step.antt =====
-- src/isa/riscv/executor.rs: fetch, decode and execution, a cycle, and batches of cycles. `debug` is
-- whether `debug_assert!` is checked, and `units` the floating point and vector instructions.
use here.Base.{
  Bool, Option, Result, bit_or, err, false, if◌then◌else◌, none, ok, some, suc, true, update, zero,
  ℕ, ◌%◌, ◌&&◌, ◌*◌, ◌==◌, ◌^◌,
}
use here.Word.{half, wrapping_add}
use here.Device.{MemError}
use here.Cache.Direct.{DirectCache, direct_get, direct_put}
use here.Csr.File.{store_at}
use here.Csr.Table.Machine.{mcycle}
use here.Hart.{Op, RvCpu, read_for_ifetch}
use here.Hart.Mapping.{get_exec_func}
use here.Isa.{DecodeInstr, RvInstrInfo, instr_len, raw_from}
use here.Isa.Funct.{Decoder, decode}
use here.Isa.Instr.{RiscvInstr}
use here.Mmio.{DeviceArena}
use here.Trap.{Exception, from_instr_fetch_err, illegal_instruction}
use here.Trap.Controller.{Cpu, take_exception}

-- `icache.get` and `put`: 8192 slots, by the address without its lowest bit
abbrev pub icache_get : DirectCache DecodeInstr → ℕ → Option DecodeInstr
icache_get c addr = direct_get 1 13 c addr

abbrev pub icache_put : DirectCache DecodeInstr → ℕ → DecodeInstr → DirectCache DecodeInstr
icache_put c addr d = direct_put 1 13 c addr d

pub record ExceptionInfo : Type 0 where
  pub cause : Exception
  pub tval : ℕ

-- A result that carries the address or the word that is reported, and the hart after it.
abbrev pub Checked : DeviceArena → Type 0 → Type 0
Checked A T = Option (Result ExceptionInfo T × RvCpu A)

-- `pending_tval.take().unwrap_or(0)`
abbrev pub pending_or_zero : Option ℕ → ℕ
pending_or_zero none = 0
pending_or_zero (some v) = v

abbrev pub left_over : Option ℕ → Bool
left_over none = false
left_over (some v) = true

module _ {A : DeviceArena} where
  abbrev pub fetch_failed : {T : Type 0} → MemError → ℕ → RvCpu A → Checked A T
  fetch_failed e addr cpu = elim (from_instr_fetch_err e) [
    | none ↦ none
    | some x ↦ some (err (record { cause = x; tval = addr }), cpu)
  ]

  -- The second half of a 32-bit instruction; `addr + 2` wraps as the release profile computes it.
  unfoldable pub fetch_upper : ℕ → ℕ → RvCpu A → Checked A ℕ
  unfolding read_for_ifetch from_instr_fetch_err
  fetch_upper low addr cpu = elim (read_for_ifetch half (wrapping_add addr 2) cpu) [
    | none ↦ none
    | some (err e, c) ↦ fetch_failed e (wrapping_add addr 2) c
    | some (ok upper, c) ↦ some (ok (bit_or low ((upper * 2 ^ 16) % 2 ^ 32)), c)
  ]

  unfoldable pub ifetch_at : ℕ → RvCpu A → Checked A ℕ
  unfolding read_for_ifetch from_instr_fetch_err raw_from instr_len fetch_upper
  ifetch_at addr cpu = elim (read_for_ifetch half addr cpu) [
    | none ↦ none
    | some (err e, c) ↦ fetch_failed e addr c
    | some (ok low, c) ↦
        if instr_len (raw_from low) == 4
        then fetch_upper (raw_from low) addr c
        else some (ok (raw_from low), c)
  ]

  unfoldable pub increment_mcycle_by : ℕ → RvCpu A → RvCpu A
  increment_mcycle_by n cpu = record cpu {
    csr = store_at cpu.csr mcycle (wrapping_add (cpu.csr.value_at mcycle) n);
  }

  -- The decoder is fixed: no method of the hart changes it.
  module _ (decoder : Decoder) where
    unfoldable pub decode_fetched : ℕ → ℕ → RvCpu A → Checked A DecodeInstr
    unfolding decode direct_put
    decode_fetched raw addr cpu = elim (decode decoder raw) [
      | none ↦ none
      | some none ↦ some (err (record { cause = illegal_instruction; tval = raw }), cpu)
      | some (some d) ↦ some (ok d, record cpu { icache = icache_put cpu.icache addr d })
    ]

    unfoldable pub decode_at_checked : ℕ → RvCpu A → Checked A DecodeInstr
    unfolding direct_get ifetch_at decode_fetched
    decode_at_checked addr cpu = elim (icache_get cpu.icache addr) [
      | some d ↦ some (ok d, cpu)
      | none ↦ elim (ifetch_at addr cpu) [
        | none ↦ none
        | some (err e, c) ↦ some (err e, c)
        | some (ok raw, c) ↦ decode_fetched raw addr c
      ]
    ]

  -- `TrapController` works on the CSRs and the program counter.
  unfoldable pub with_trap : Option Cpu → RvCpu A → Option (RvCpu A)
  with_trap none cpu = none
  with_trap (some t) cpu = some (record cpu { csr = t.csr; pc = t.pc })

  abbrev pub trap_view : RvCpu A → Cpu
  trap_view cpu = record { csr = cpu.csr; pc = cpu.pc }

  module _ (debug : Bool) (units : RiscvInstr → RvInstrInfo → Op A (Unit {0})) where
    unfoldable pub hart_exception : Exception → ℕ → RvCpu A → Option (RvCpu A)
    unfolding take_exception with_trap
    hart_exception cause tval cpu = with_trap (take_exception debug (trap_view cpu) cause tval) cpu

    unfoldable pub execute : RiscvInstr → RvInstrInfo → Op A (Unit {0})
    unfolding get_exec_func
    execute instr info cpu = elim (get_exec_func debug units instr info cpu) [
      | none ↦ none
      | some (rst, c) ↦ some (rst, record c { reg_file = update c.reg_file 0 0 })
    ]

    -- The handling of the result. An illegal instruction is fetched again for its bits.
    unfoldable pub finish_execution :
        Option (Result Exception (Unit {0}) × RvCpu A) → Option (RvCpu A)
    unfolding hart_exception ifetch_at
    finish_execution none = none
    finish_execution (some (ok v, c)) = some c
    finish_execution (some (err illegal_instruction, c)) = elim (ifetch_at c.pc c) [
      | none ↦ none
      | some (err e, c') ↦ none
      | some (ok raw, c') ↦ hart_exception illegal_instruction raw c'
    ]
    finish_execution (some (err e, c)) =
        hart_exception e (pending_or_zero c.pending_tval) (record c { pending_tval = none })

    module _ (decoder : Decoder) where
      unfoldable pub step_impl : RvCpu A → Option (RvCpu A)
      unfolding decode_at_checked hart_exception execute finish_execution
      step_impl cpu = elim (decode_at_checked decoder cpu.pc cpu) [
        | none ↦ none
        | some (err e, c) ↦ hart_exception e.cause e.tval c
        | some (ok d, c) ↦ finish_execution (execute d.instr d.info c)
      ]

      -- One turn of the loops: a step, its cycle counted, and the assertion that no value is left over.
      unfoldable pub counted_step : RvCpu A → Option (RvCpu A)
      unfolding step_impl increment_mcycle_by
      counted_step cpu = elim (step_impl cpu) [
        | none ↦ none
        | some c ↦
            if debug && left_over c.pending_tval then none else some (increment_mcycle_by 1 c)
      ]

      unfoldable pub step_batch_no_interrupt : ℕ → RvCpu A → Option (RvCpu A)
      unfolding counted_step
      step_batch_no_interrupt zero cpu = some cpu
      step_batch_no_interrupt (suc cycles) cpu = elim (counted_step cpu) [
        | none ↦ none
        | some c ↦ step_batch_no_interrupt cycles c
      ]
