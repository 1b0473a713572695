-- ===== src/Hart/Batches.antt =====
-- Batches of src/isa/riscv/executor.rs against each other, and a second fetch of an instruction.
use here.Base.{
  Bool, Option, Option-cases, ap, arith, err, false, inl, inr, none, ok, refl, some, suc, zero, ℕ,
  ◌+◌, ◌∙◌, ◌≡◌,
}
use here.Cache.Direct.{direct_get, direct_put}
use here.Hart.{Op, RvCpu}
use here.Hart.Batch.{
  BatchResult, batch_loop, noop_hook, step_batch, step_batch_with_hook, take_interrupt,
}
use here.Hart.Step.{
  counted_step, decode_at_checked, decode_fetched, icache_get, ifetch_at, step_batch_no_interrupt,
}
use here.Isa.{DecodeInstr, RvInstrInfo}
use here.Isa.Funct.{Decoder, decode}
use here.Isa.Instr.{RiscvInstr}
use here.Mmio.{DeviceArena}

zero_add : (n : ℕ) → 0 + n ≡ n
zero_add n = omega arith

suc_add : (m n : ℕ) → suc m + n ≡ suc (m + n)
suc_add m n = omega arith

module _ {A : DeviceArena} (debug : Bool) (units : RiscvInstr → RvInstrInfo → Op A (Unit {0}))
    (decoder : Decoder) where
  abbrev run : ℕ → RvCpu A → Option (RvCpu A)
  run = step_batch_no_interrupt debug units decoder

  -- The hart of a batch, without the result and the hook.
  abbrev hart_of : {H : Type 0} → Option (BatchResult × H × RvCpu A) → Option (RvCpu A)
  hart_of none = none
  hart_of (some (r, h, c)) = some c

  abbrev and_then : Option (RvCpu A) → (RvCpu A → Option (RvCpu A)) → Option (RvCpu A)
  and_then none f = none
  and_then (some c) f = f c

  loop-run :
      (left executed : ℕ) (cpu : RvCpu A)
      → hart_of (batch_loop debug units decoder (noop_hook A) left executed tt cpu) ≡ run left cpu
  unfolding batch_loop step_batch_no_interrupt
  loop-run zero executed cpu = refl
  loop-run (suc n) executed cpu = elim (Option-cases (counted_step debug units decoder cpu)) [
    | inl e ↦ ground (arith, e)
    | inr (c, e) ↦ ground (arith, e, loop-run n (suc executed) c)
  ]

  -- Where no interrupt is taken at its start, a batch without a hook is the loop that looks for none.
  pub step_batch-no_interrupt :
      (cycles : ℕ) (cpu : RvCpu A)
      → take_interrupt cpu ≡ some (false, cpu)
      → step_batch debug units decoder cycles cpu ≡ run cycles cpu
  unfolding step_batch step_batch_with_hook step_batch_no_interrupt
  step_batch-no_interrupt zero cpu h = refl
  step_batch-no_interrupt (suc n) cpu h = ground (arith, h, loop-run (suc n) 0 cpu)

  -- A batch of `m + n` cycles is one of `m` cycles and then one of `n`.
  pub step_batch_no_interrupt-add :
      (m n : ℕ) (cpu : RvCpu A) → run (m + n) cpu ≡ and_then (run m cpu) (run n)
  unfolding step_batch_no_interrupt
  step_batch_no_interrupt-add zero n cpu = ap (λ k. run k cpu) (zero_add n)
  step_batch_no_interrupt-add (suc m) n cpu =
      ap (λ k. run k cpu) (suc_add m n)
      ∙ elim (Option-cases (counted_step debug units decoder cpu)) [
        | inl e ↦ ground (arith, e)
        | inr (c, e) ↦ ground (arith, e, step_batch_no_interrupt-add m n c)
      ]

  -- What was decoded at an address is decoded there again, from the cache: the memory is not read
  -- and the hart does not change.
  pub decode_at_checked-again :
      (addr : ℕ) (cpu c : RvCpu A) (d : DecodeInstr)
      → decode_at_checked decoder addr cpu ≡ some (ok d, c)
      → decode_at_checked decoder addr c ≡ some (ok d, c)
  unfolding decode_at_checked decode_fetched direct_put direct_get
  decode_at_checked-again addr cpu c d h = elim (Option-cases (icache_get cpu.icache addr)) [
    | inr (d', e) ↦ ground (arith, e, h)
    | inl e ↦ elim (Option-cases (ifetch_at addr cpu)) [
      | inl e' ↦ absurd (ground (arith, e, e', h))
      | inr ((err x, c'), e') ↦ absurd (ground (arith, e, e', h))
      | inr ((ok raw, c'), e') ↦ elim (Option-cases (decode decoder raw)) [
        | inl e2 ↦ absurd (ground (arith, e, e', e2, h))
        | inr (none, e2) ↦ absurd (ground (arith, e, e', e2, h))
        | inr (some d', e2) ↦ ground (arith, e, e', e2, h)
      ]
    ]
  ]
