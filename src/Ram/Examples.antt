-- ===== src/Ram/Examples.antt =====
-- Runs of the RAM on the inputs of the tests in src/ram.rs, and the theorems at such inputs.
use here.Base.{List, [], arith, err, false, ok, refl, true, ◌-◌, ◌/◌, ◌∷◌, ◌≡◌}
use here.Word.{byte, check_align, double, ram_size, word}
use here.Device.{load_fault, load_misaligned, store_fault}
use here.Ram.{Ram, load_bytes, load_reserved, new, read, store_bytes, store_conditional, write}
use here.Ram.Access.{IsHosted, read-write}
use here.Ram.Reserve.{Store, run, store_conditional-atomic, store_conditional-succeeds}

abbrev ram : Ram
ram = new 0

little_endian :
    ((write word ram 0 0x12345678).1.data_at 0 ≡ 0x78)
    × ((write word ram 0 0x12345678).1.data_at 3 ≡ 0x12)
    × (read double (write double ram 8 0x1122_3344_5566_7788).1 8 ≡ ok 0x1122_3344_5566_7788)
unfolding write read new check_align load_bytes store_bytes
little_endian = (refl, refl, refl)

crossing_accesses :
    (read byte ram ram_size ≡ err load_fault)
    × (read double ram (ram_size - 4) ≡ err load_fault)
    × (read double ram 1 ≡ err load_misaligned)
    × ((write double ram (ram_size - 4) 0).0 ≡ err store_fault)
unfolding write read new check_align load_bytes store_bytes
crossing_accesses = (refl, refl, refl, refl)

abbrev locked : Ram
locked = (load_reserved word ram 4).1

ram-IsHosted : IsHosted ram
unfolding new
ram-IsHosted = refl

locked_four : (load_reserved word ram 4).0 ≡ ok 0
unfolding load_reserved read new check_align load_bytes
locked_four = refl

abbrev other_set : List Store
other_set = record { width = double; addr = 16; value = 7 } ∷ []

read-write_example :
    ((write word ram 4 77).0 ≡ ok tt) × (read word (write word ram 4 77).1 4 ≡ ok 77)
read-write_example = read-write word ram 4 77 ram-IsHosted refl (omega arith) (omega arith)

success :
    (store_conditional false word (run other_set (load_reserved word ram 4).1) 0 5).0 ≡ ok true
success =
    store_conditional-succeeds false word word other_set ram 4 0 5 0 ram-IsHosted locked_four
      (omega arith) refl refl (omega arith)

store_conditional-succeeds_example :
    (store_conditional false word (run other_set (load_reserved word ram 4).1) 0 5).0 ≡ ok true
store_conditional-succeeds_example =
    store_conditional-succeeds false word word other_set ram 4 0 5 0 ram-IsHosted locked_four
      (omega arith) refl refl (omega arith)

store_conditional-atomic_example :
    (0 / 8 ≡ 4 / 8) × (read word (run other_set (load_reserved word ram 4).1) 4 ≡ ok 0)
store_conditional-atomic_example =
    store_conditional-atomic false word word other_set ram 4 0 5 0 ram-IsHosted locked_four success

refused : (store_conditional true word ram 4 5).0 ≡ ok false
unfolding store_conditional new
refused = refl
