-- ===== src/Plic/BitSet.antt =====
-- What the PLIC uses of the crate `bit_set`: a set of numbers with its membership laws.
use here.Base.{Bool, false, if◌then◌else◌, refl, true, update, update-eq, ℕ, ◌==◌, ◌≡◌}

pub record BitSet : Type 1 where
  pub Carrier : Type 0
  -- `BitSet::with_capacity(n)`
  pub with_capacity : ℕ → Carrier
  pub contains : Carrier → ℕ → Bool
  pub insert : Carrier → ℕ → Carrier
  -- The new set, and whether the element was there.
  pub remove : Carrier → ℕ → Carrier × Bool
  pub contains-with_capacity : (n i : ℕ) → contains (with_capacity n) i ≡ false
  pub contains-insert :
      (s : Carrier) (i j : ℕ) → contains (insert s i) j ≡ (if i == j then true else contains s j)
  pub contains-remove :
      (s : Carrier) (i j : ℕ) → contains (remove s i).0 j ≡ (if i == j then false else contains s j)
  pub removed : (s : Carrier) (i : ℕ) → (remove s i).1 ≡ contains s i

-- Sets as characteristic functions meet the laws.
abbrev pub characteristic : BitSet
characteristic = record {
  Carrier = ℕ → Bool;
  with_capacity = λ n i. false;
  contains = λ s i. s i;
  insert = λ s i. update s i true;
  remove = λ s i. (update s i false, s i);
  contains-with_capacity = λ n i. refl;
  contains-insert = λ s i j. update-eq s i true j;
  contains-remove = λ s i j. update-eq s i false j;
  removed = λ s i. refl;
}
