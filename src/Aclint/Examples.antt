-- ===== src/Aclint/Examples.antt =====
-- One hart with the addresses of the board.
use here.Base.{Option, Result, [], arith, false, none, ok, refl, some, ◌∷◌, ◌≡◌}
use here.Word.{double}
use here.Device.{MemError}
use here.Aclint.{Clint, clint_read, clint_write, get_time}
use here.Aclint.Mtime.{clint_read-clint_write}
use here.Aclint.Timer.{IsTold, clint_write-IsTold}

abbrev told_low : Clint
told_low = record {
  hart_num = 1;
  msip_base = 0x0200_0000;
  time_base = 0x0200_bff8;
  timecmp_base = 0x0200_4000;
  time_offset = 0;
  timer = λ _. some 0;
  msip = λ _. 0;
  time_cmp = λ _. 500;
  timer_irq_line = some (false ∷ []);
  software_irq_line = none;
  timer_cb_id = 0;
}

abbrev after : Option (Result MemError (Unit {0}) × Clint) → Clint
after none = told_low
after (some (r, c)) = c

-- The compare value is set to what the clock has passed.
clint_write-IsTold_example : IsTold 100 0 (after (clint_write 100 double told_low 0x0200_4000 50))
unfolding clint_write get_time
clint_write-IsTold_example =
    clint_write-IsTold 100 double told_low (after (clint_write 100 double told_low 0x0200_4000 50))
      0x0200_4000 50 refl refl refl

clint_read-clint_write_example :
    clint_read 110 double (after (clint_write 100 double told_low 0x0200_bff8 7)) 0x0200_bff8
    ≡ ok 17
unfolding clint_write
clint_read-clint_write_example =
    clint_read-clint_write 100 10 7 told_low (after (clint_write 100 double told_low 0x0200_bff8 7))
      (omega arith) (omega arith) refl refl refl
