-- ===== src/Csr/Privilege/Needed.antt =====
-- The privilege table agrees with the convention of the addresses: bits 9 and 8 are the level.
use here.Base.{==_iff, Bool, all_below, below, refl, true, ℕ, ◌%◌, ◌/◌, ◌<◌, ◌==◌, ◌^◌, ◌≡◌}
use here.Csr.{level_of}
use here.Csr.Privilege.{needed_level}

agrees : ℕ → Bool
agrees a = level_of (needed_level a) == a / 2 ^ 8 % 2 ^ 2

agrees_everywhere : all_below 4096 agrees ≡ true
unfolding agrees needed_level
agrees_everywhere = refl

-- The level that a register needs is the two bits 9 and 8 of its address.
pub needed_level-eq : (a : ℕ) → a < 2 ^ 12 → level_of (needed_level a) ≡ a / 2 ^ 8 % 2 ^ 2
unfolding agrees
needed_level-eq a h =
    (==_iff (level_of (needed_level a)) (a / 2 ^ 8 % 2 ^ 2)).0
      (below 4096 agrees a agrees_everywhere h)
