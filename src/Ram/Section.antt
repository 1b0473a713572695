-- ===== src/Ram/Section.antt =====
-- Loading of images into RAM: `try_insert_section` and `insert_section` of src/ram.rs.
use native.Mathlib.Nat.{add-zero}
use here.Base.{
  List, [], ap, arith, get_elem?, inl, length, none, ok, refl, some, suc, update, zero, ℕ, ◌+◌, ◌<◌,
  ◌↔◌, ◌∙◌, ◌∷◌, ◌≡◌, ◌≤◌, ◌⊎◌,
}
use here.Word.{ram_size}
use here.Ram.{Ram, copy_section, insert_section, try_insert_section}

copy_section-outside :
    (vs : List ℕ) (s i : ℕ) (d : ℕ → ℕ)
    → (i < s) ⊎ (s + length vs ≤ i)
    → copy_section vs s d i ≡ d i
unfolding copy_section
copy_section-outside [] s i d h = refl
copy_section-outside (v ∷ vs) s i d h =
    ground (arith, copy_section-outside vs (s + 1) i (update d s v))

copy_section-inside :
    (vs : List ℕ) (s i : ℕ) (d : ℕ → ℕ)
    → i < length vs
    → get_elem? vs i ≡ some (copy_section vs s d (s + i))
unfolding copy_section
copy_section-inside [] s i d h = absurd (omega arith)
copy_section-inside (v ∷ vs) s zero d h = ground (
  arith,
  ap (copy_section vs (s + 1) (update d s v)) (add-zero s),
  copy_section-outside vs (s + 1) s (update d s v) (inl (omega arith)),
)
copy_section-inside (v ∷ vs) s (suc i) d h =
    copy_section-inside vs (s + 1) i (update d s v) (omega arith)
    ∙ ap (λ (t : ℕ). some (copy_section vs (s + 1) (update d s v) t)) (next s i)
  where
    next : (s i : ℕ) → s + 1 + i ≡ s + suc i
    next s i = omega arith

-- A section that fits is copied byte for byte to its place, and nothing else of the RAM changes.
pub try_insert_section-ok :
    (ram : Ram) (vs : List ℕ) (start : ℕ)
    → start + length vs ≤ ram_size
    → (ram' : Ram) × (try_insert_section ram vs start ≡ ok ram')
      × ((i : ℕ) → i < length vs → get_elem? vs i ≡ some (ram'.data_at (start + i)))
      × ((i : ℕ) → (i < start) ⊎ (start + length vs ≤ i) → ram'.data_at i ≡ ram.data_at i)
      × (ram'.reserved ≡ ram.reserved)
unfolding try_insert_section
try_insert_section-ok ram vs start fits = (
  record ram { data_at = copy_section vs start ram.data_at },
  ground arith,
  λ i h. copy_section-inside vs start i ram.data_at h,
  λ i h. copy_section-outside vs start i ram.data_at h,
  refl,
)

-- `insert_section` panics exactly where the section does not fit.
pub insert_section-panics :
    (ram : Ram) (vs : List ℕ) (start : ℕ)
    → (insert_section ram vs start ≡ none) ↔ (ram_size < start + length vs)
unfolding insert_section
insert_section-panics ram vs start = ground arith
