-- ===== src/Hart/Core.antt =====
-- src/isa/riscv/instruction/mod.rs, exec_core.rs, and the scalar part of exec_function.rs beside
-- them: how an instruction is carried out on a hart. `none` is a panic, the unreachable arms
-- included.
use here.Base.{Bool, Result, bit_and, err, if◌then◌else◌, none, not, ok, some, ℕ, ◌&&◌, ◌*◌, ◌==◌}
use here.Word.{Width, sign_extend, size_of, truncate_to, wrapping_add}
use here.Hart.{
  Op, RvCpu, c_enabled, cpu_read, cpu_write, done, minstret_add, raise, reg_write, ◌>>=◌,
}
use here.Mmio.{DeviceArena}
use here.Trap.{Exception, instruction_misaligned}

module _ {A : DeviceArena} where
  abbrev pub get_cpu : Op A (RvCpu A)
  get_cpu cpu = some (ok cpu, cpu)

  abbrev pub set_pc : ℕ → Op A (Unit {0})
  set_pc target cpu = some (ok tt, record cpu { pc = target })

  abbrev pub unreachable : {T : Type 0} → Op A T
  unreachable cpu = none

  abbrev pub lift : {T : Type 0} → Result Exception T → Op A T
  lift (ok v) = done v
  lift (err e) = raise e

  unfoldable pub check_jump_alignment : ℕ → Op A (Unit {0})
  unfolding c_enabled
  check_jump_alignment target cpu =
      if not (c_enabled cpu.csr) && not (bit_and target 0x3 == 0)
      then some (err instruction_misaligned, record cpu { pending_tval = some target })
      else some (ok tt, cpu)

  -- `pc += n` and one more instruction retired, as every instruction that succeeds ends.
  unfoldable pub retire : ℕ → Op A (Unit {0})
  unfolding minstret_add
  retire n = do cpu ← get_cpu; _ ← set_pc (wrapping_add cpu.pc n); minstret_add 1

  unfoldable pub normal_exec : Op A (Unit {0}) → Op A (Unit {0})
  unfolding retire
  normal_exec f = do _ ← f; retire 4

  unfoldable pub normal_compress_exec : Op A (Unit {0}) → Op A (Unit {0})
  unfolding retire
  normal_compress_exec f = do _ ← f; retire 2

  -- `handle_load::<T, EXTEND>`
  unfoldable pub handle_load : Width → Bool → ℕ → ℕ → Op A (Unit {0})
  unfolding cpu_read reg_write sign_extend
  handle_load t extend rd addr = do
    v ← cpu_read t addr
    reg_write rd (if extend then sign_extend v (size_of t * 8) else v)

  unfoldable pub handle_store : Width → ℕ → ℕ → Op A (Unit {0})
  unfolding cpu_write
  handle_store t addr v = cpu_write t addr (truncate_to t v)
