-- ===== src/Hart/Expand.antt =====
-- A 16-bit instruction of src/isa/riscv/instruction/exec_compress_function.rs against the 32-bit one
-- that it abbreviates.
use here.Base.{
  Bool, Bool-cases, Option, Option-cases, Result, ap, arith, err, inl, inr, none, ok, refl, some,
  sym, ℕ, ◌<◌, ◌==◌, ◌^◌, ◌∙◌, ◌≡◌,
}
use here.Word.{Width, double, wrapping_add}
use here.Alu.{exec_add}
use here.Hart.{Op, RvCpu, done, minstret_add, next_minstret, reg, reg_write, ◌>>=◌}
use here.Hart.Compress.{
  compress_arith_body, compress_load_body, compress_load_sp_body, compress_store_body,
  compress_store_sp_body, exec_addi4spn, exec_compress_arith, exec_compress_li, exec_compress_load,
  exec_compress_load_sp, exec_compress_mv, exec_compress_nop, exec_compress_store,
  exec_compress_store_sp,
}
use here.Hart.Core.{normal_compress_exec, normal_exec, retire}
use here.Hart.Exec.{arith_body, exec_arith, exec_load, exec_lui, exec_store, load_body, store_body}
use here.Hart.Keeps.{
  KeepsPc, arith_body-KeepsPc, load_body-KeepsPc, reg_write-KeepsPc, run_outcome,
  store_body-KeepsPc,
}
use here.Hart.System.{exec_ebreak}
use here.Isa.{
  info_ca, info_cb, info_ci, info_ciw, info_cl, info_cr, info_cs, info_css, info_i, info_none,
  info_r, info_s, info_u,
}
use here.Mmio.{DeviceArena}
use here.Trap.{Exception}

module _ {A : DeviceArena} where
  -- The same outcome with the program counter of a success at `target`.
  abbrev at_pc :
      ℕ
      → Option (Result Exception (Unit {0}) × RvCpu A)
      → Option (Result Exception (Unit {0}) × RvCpu A)
  at_pc target none = none
  at_pc target (some (err e, c)) = some (err e, c)
  at_pc target (some (ok u, c)) = some (ok u, record c { pc = target })

  -- A 32-bit instruction that abbreviation makes two bytes shorter: where it succeeds, the next
  -- instruction is at `pc + 2`.
  abbrev pub shortened : Op A (Unit {0}) → Op A (Unit {0})
  shortened f cpu = at_pc (wrapping_add cpu.pc 2) (f cpu)

  retire_shorter : (c : RvCpu A) → retire 2 c ≡ at_pc (wrapping_add c.pc 2) (retire 4 c)
  unfolding retire minstret_add
  retire_shorter c = elim (Option-cases (next_minstret c.csr 1)) [
    | inl e ↦ simp (retire, minstret_add, e) refl
    | inr (f, e) ↦ simp (retire, minstret_add, e) refl
  ]

  normal-shortened :
      (f g : Op A (Unit {0})) (cpu : RvCpu A)
      → KeepsPc f
      → g cpu ≡ f cpu
      → normal_compress_exec g cpu ≡ shortened (normal_exec f) cpu
  unfolding normal_compress_exec normal_exec
  normal-shortened f g cpu keeps same = elim (run_outcome (f cpu)) [
    | inl e ↦ simp (normal_compress_exec, normal_exec, ◌>>=◌, same, e) refl
    | inr (inl (x, c, e)) ↦ simp (normal_compress_exec, normal_exec, ◌>>=◌, same, e) refl
    | inr (inr (v, c, e)) ↦
        simp (normal_compress_exec, normal_exec, ◌>>=◌, same, e)
          (retire_shorter c
            ∙ ap (λ (p : ℕ). at_pc (wrapping_add p 2) (retire 4 c)) (keeps cpu c v e))
  ]

-- The 16-bit integer instructions that neither branch nor jump, with the operands that they hold.
pub data Short : Type 0 where
  short_registers : (f : ℕ → ℕ → Result Exception ℕ) (rd rs2 : ℕ) → Short
  short_pair : (f : ℕ → ℕ → Result Exception ℕ) (rd rs2 : ℕ) → Short
  short_immediate : (f : ℕ → ℕ → Result Exception ℕ) (rd imm : ℕ) → Short
  short_masked : (f : ℕ → ℕ → Result Exception ℕ) (rd imm : ℕ) → Short
  short_load : (t : Width) (extend : Bool) (rd rs1 imm : ℕ) → Short
  short_load_sp : (t : Width) (extend : Bool) (rd imm : ℕ) → Short
  short_store : (t : Width) (rs1 rs2 imm : ℕ) → Short
  short_store_sp : (t : Width) (rs2 imm : ℕ) → Short
  short_move : (rd rs2 : ℕ) → Short
  short_load_immediate : (rd imm : ℕ) → Short
  short_add_sp : (rd imm : ℕ) → Short
  short_upper : (rd imm : ℕ) → Short
  short_nop : Short
  short_break : Short

abbrev sum_of_words : ℕ → ℕ → Result Exception ℕ
sum_of_words a b = ok (exec_add double a b)

module _ {A : DeviceArena} where
  abbrev pub exec_short : Short → Op A (Unit {0})
  exec_short (short_registers f rd rs2) = exec_compress_arith f (info_cr rd rs2)
  exec_short (short_pair f rd rs2) = exec_compress_arith f (info_ca rd rs2)
  exec_short (short_immediate f rd imm) = exec_compress_arith f (info_ci rd imm)
  exec_short (short_masked f rd imm) = exec_compress_arith f (info_cb rd imm)
  exec_short (short_load t extend rd rs1 imm) = exec_compress_load t extend (info_cl rd rs1 imm)
  exec_short (short_load_sp t extend rd imm) = exec_compress_load_sp t extend (info_ci rd imm)
  exec_short (short_store t rs1 rs2 imm) = exec_compress_store t (info_cs rs1 rs2 imm)
  exec_short (short_store_sp t rs2 imm) = exec_compress_store_sp t (info_css rs2 imm)
  exec_short (short_move rd rs2) = exec_compress_mv (info_cr rd rs2)
  exec_short (short_load_immediate rd imm) = exec_compress_li (info_ci rd imm)
  exec_short (short_add_sp rd imm) = exec_addi4spn (info_ciw rd imm)
  exec_short (short_upper rd imm) = exec_compress_li (info_ci rd imm)
  exec_short short_nop = exec_compress_nop info_none
  exec_short short_break = exec_ebreak info_none

  -- The 32-bit instruction that the ISA manual gives for each.
  abbrev pub exec_expanded : Short → Op A (Unit {0})
  exec_expanded (short_registers f rd rs2) = exec_arith f (info_r rd rs2 rd)
  exec_expanded (short_pair f rd rs2) = exec_arith f (info_r rd rs2 rd)
  exec_expanded (short_immediate f rd imm) = exec_arith f (info_i rd rd imm)
  exec_expanded (short_masked f rd imm) = exec_arith f (info_i rd rd imm)
  exec_expanded (short_load t extend rd rs1 imm) = exec_load t extend (info_i rs1 rd imm)
  exec_expanded (short_load_sp t extend rd imm) = exec_load t extend (info_i 2 rd imm)
  exec_expanded (short_store t rs1 rs2 imm) = exec_store t (info_s rs1 rs2 imm)
  exec_expanded (short_store_sp t rs2 imm) = exec_store t (info_s 2 rs2 imm)
  exec_expanded (short_move rd rs2) = exec_arith sum_of_words (info_r 0 rs2 rd)
  exec_expanded (short_load_immediate rd imm) = exec_arith sum_of_words (info_i 0 rd imm)
  exec_expanded (short_add_sp rd imm) = exec_arith sum_of_words (info_i 2 rd imm)
  exec_expanded (short_upper rd imm) = exec_lui (info_u rd imm)
  exec_expanded short_nop = exec_arith sum_of_words (info_i 0 0 0)
  exec_expanded short_break = exec_ebreak info_none

  -- The word that a move or a constant goes through.
  abbrev pub HoldsWord : RvCpu A → Short → Type 0
  HoldsWord cpu (short_move rd rs2) = reg cpu rs2 < 2 ^ 64
  HoldsWord cpu (short_load_immediate rd imm) = imm < 2 ^ 64
  HoldsWord cpu s = Unit

  plus_zero :
      (cpu : RvCpu A) (v : ℕ) → reg cpu 0 ≡ 0 → v < 2 ^ 64 → exec_add double (reg cpu 0) v ≡ v
  unfolding exec_add
  plus_zero cpu v zero_reg h = omega (arith, zero_reg)

  lui-normal :
      (rd imm : ℕ) (cpu : RvCpu A)
      → normal_exec (reg_write rd imm) cpu ≡ exec_lui (info_u rd imm) cpu
  unfolding normal_exec exec_lui reg_write retire
  lui-normal rd imm cpu = elim (Bool-cases (rd == 0)) [
    | inl e ↦ simp (normal_exec, exec_lui, reg_write, ◌>>=◌, retire, e) refl
    | inr e ↦ simp (normal_exec, exec_lui, reg_write, ◌>>=◌, retire, e) refl
  ]

  -- On a hart whose register 0 holds zero, each 16-bit integer instruction that neither branches nor
  -- jumps has the outcome of the 32-bit instruction that it abbreviates, panics and exceptions
  -- included, except that the next instruction is two bytes on instead of four; a register that is
  -- moved and a constant that is loaded by `c.li` are below 2 ^ 64.
  pub compress-expands :
      (s : Short) (cpu : RvCpu A)
      → reg cpu 0 ≡ 0
      → HoldsWord cpu s
      → exec_short s cpu ≡ shortened (exec_expanded s) cpu
  unfolding exec_compress_arith exec_arith exec_compress_load exec_compress_load_sp exec_load
      exec_compress_store exec_compress_store_sp exec_store exec_compress_mv exec_compress_li
      exec_addi4spn exec_compress_nop exec_ebreak
  compress-expands (short_registers f rd rs2) cpu z h =
      normal-shortened (arith_body f (info_r rd rs2 rd)) (compress_arith_body f (info_cr rd rs2))
        cpu (arith_body-KeepsPc f (info_r rd rs2 rd)) refl
  compress-expands (short_pair f rd rs2) cpu z h =
      normal-shortened (arith_body f (info_r rd rs2 rd)) (compress_arith_body f (info_ca rd rs2))
        cpu (arith_body-KeepsPc f (info_r rd rs2 rd)) refl
  compress-expands (short_immediate f rd imm) cpu z h =
      normal-shortened (arith_body f (info_i rd rd imm)) (compress_arith_body f (info_ci rd imm))
        cpu (arith_body-KeepsPc f (info_i rd rd imm)) refl
  compress-expands (short_masked f rd imm) cpu z h =
      normal-shortened (arith_body f (info_i rd rd imm)) (compress_arith_body f (info_cb rd imm))
        cpu (arith_body-KeepsPc f (info_i rd rd imm)) refl
  compress-expands (short_load t extend rd rs1 imm) cpu z h =
      normal-shortened (load_body t extend (info_i rs1 rd imm))
        (compress_load_body t extend (info_cl rd rs1 imm)) cpu
        (load_body-KeepsPc t extend (info_i rs1 rd imm)) refl
  compress-expands (short_load_sp t extend rd imm) cpu z h =
      normal-shortened (load_body t extend (info_i 2 rd imm))
        (compress_load_sp_body t extend (info_ci rd imm)) cpu
        (load_body-KeepsPc t extend (info_i 2 rd imm)) refl
  compress-expands (short_store t rs1 rs2 imm) cpu z h =
      normal-shortened (store_body t (info_s rs1 rs2 imm))
        (compress_store_body t (info_cs rs1 rs2 imm)) cpu
        (store_body-KeepsPc t (info_s rs1 rs2 imm)) refl
  compress-expands (short_store_sp t rs2 imm) cpu z h =
      normal-shortened (store_body t (info_s 2 rs2 imm))
        (compress_store_sp_body t (info_css rs2 imm)) cpu (store_body-KeepsPc t (info_s 2 rs2 imm))
        refl
  compress-expands (short_move rd rs2) cpu z h =
      normal-shortened (arith_body sum_of_words (info_r 0 rs2 rd)) (λ c. reg_write rd (reg c rs2) c)
        cpu (arith_body-KeepsPc sum_of_words (info_r 0 rs2 rd))
        (ap (λ v. reg_write rd v cpu) (sym (plus_zero cpu (reg cpu rs2) z h)))
  compress-expands (short_load_immediate rd imm) cpu z h =
      normal-shortened (arith_body sum_of_words (info_i 0 rd imm)) (reg_write rd imm) cpu
        (arith_body-KeepsPc sum_of_words (info_i 0 rd imm))
        (ap (λ v. reg_write rd v cpu) (sym (plus_zero cpu imm z h)))
  compress-expands (short_add_sp rd imm) cpu z h =
      normal-shortened (arith_body sum_of_words (info_i 2 rd imm))
        (λ c. reg_write rd (exec_add double (reg c 2) imm) c) cpu
        (arith_body-KeepsPc sum_of_words (info_i 2 rd imm)) refl
  compress-expands (short_upper rd imm) cpu z h =
      normal-shortened (reg_write rd imm) (reg_write rd imm) cpu (reg_write-KeepsPc rd imm) refl
      ∙ ap (at_pc (wrapping_add cpu.pc 2)) (lui-normal rd imm cpu)
  compress-expands short_nop cpu z h =
      normal-shortened (arith_body sum_of_words (info_i 0 0 0)) (done tt) cpu
        (arith_body-KeepsPc sum_of_words (info_i 0 0 0)) refl
  compress-expands short_break cpu z h = refl
