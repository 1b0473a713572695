-- ===== src/Isa/Specific.antt =====
-- The search of src/isa/riscv/decoder/mask_decoder.rs and compress_decoder.rs, whose tables are sorted
-- by the zeros of the masks, finds the most specific pattern.
use mathlib.Core.List.{map}
use here.Base.{
  ==_iff, Bool-cases, List, Option, Option-cases, [], arith, bit_and, false, inl, inr, ltb, none,
  refl, some, subst, true, ℕ, ◌∷◌, ◌≡◌, ◌≤◌, ◌⊎◌,
}
use here.Isa.Tables.{
  DecodeMask, Entry, RvInstrDesc, count_zeros, entry_of, find_mask, insert_by, mask_matches,
  masks_from_isa, sort_from, zeros_of,
}

abbrev pub All : (Entry → Type 0) → List Entry → Type 0
All P [] = Unit
All P (e ∷ es) = P e × All P es

-- Every pattern of a list of descriptions.
abbrev pub EveryDesc : (RvInstrDesc → Type 0) → List RvInstrDesc → Type 0
EveryDesc P [] = Unit
EveryDesc P (d ∷ ds) = P d × EveryDesc P ds

abbrev IsSorted : List Entry → Type 0
IsSorted [] = Unit
IsSorted (e ∷ es) = All (λ x. zeros_of e ≤ zeros_of x) es × IsSorted es

module _ (P : Entry → Type 0) where
  insert_by-All : (e : Entry) (es : List Entry) → P e → All P es → All P (insert_by e es)
  unfolding insert_by
  insert_by-All e [] p h = (p, tt)
  insert_by-All e (x ∷ xs) p (px, h) = elim (Bool-cases (ltb (zeros_of e) (zeros_of x))) [
    | inl q ↦ simp q (p, (px, h))
    | inr q ↦ simp q (px, insert_by-All e xs p h)
  ]

  All-insert_by : (e : Entry) (es : List Entry) → All P (insert_by e es) → P e × All P es
  unfolding insert_by
  All-insert_by e [] h = h
  All-insert_by e (x ∷ xs) h = elim (Bool-cases (ltb (zeros_of e) (zeros_of x))) [
    | inl q ↦ simp q at h
    | inr q ↦
        (let h' : P x × All P (insert_by e xs) = simp q at h in
          let (pe, rest) = All-insert_by e xs h'.1 in (pe, (h'.0, rest)))
  ]

  All-sort_from : (sorted es : List Entry) → All P (sort_from sorted es) → All P sorted × All P es
  unfolding sort_from
  All-sort_from sorted [] h = (h, tt)
  All-sort_from sorted (e ∷ es) h =
      let (inserted, rest) = All-sort_from (insert_by e sorted) es h in
      let (pe, before) = All-insert_by e sorted inserted in (before, (pe, rest))

  All-map : (ds : List RvInstrDesc) → All P (map entry_of ds) → EveryDesc (λ d. P (entry_of d)) ds
  All-map [] h = tt
  All-map (d ∷ ds) (p, h) = (p, All-map ds h)

  EveryDesc-masks :
      (ds : List RvInstrDesc) → All P (masks_from_isa ds) → EveryDesc (λ d. P (entry_of d)) ds
  unfolding masks_from_isa
  EveryDesc-masks ds h = All-map ds (All-sort_from [] (map entry_of ds) h).1

  sort_from-All : (sorted es : List Entry) → All P sorted → All P es → All P (sort_from sorted es)
  unfolding sort_from
  sort_from-All sorted [] h g = h
  sort_from-All sorted (e ∷ es) h (p, g) =
      sort_from-All (insert_by e sorted) es (insert_by-All e sorted p h) g

  found-All : (es : List Entry) (raw : ℕ) (e : Entry) → All P es → find_mask es raw ≡ some e → P e
  unfolding find_mask
  found-All [] raw e g h = absurd (ground (arith, h))
  found-All ((m, i, f) ∷ es) raw e (p, g) h = elim (Bool-cases (mask_matches m raw)) [
    | inl q ↦ let same : (m, i, f) ≡ e = ground (arith, q, h) in subst P same p
    | inr q ↦ found-All es raw e g (ground (arith, q, h))
  ]

All-imp : (P Q : Entry → Type 0) (es : List Entry) → ((e : Entry) → P e → Q e) → All P es → All Q es
All-imp P Q [] f h = tt
All-imp P Q (e ∷ es) f (p, h) = (f e p, All-imp P Q es f h)

insert_by-IsSorted : (e : Entry) (es : List Entry) → IsSorted es → IsSorted (insert_by e es)
unfolding insert_by
insert_by-IsSorted e [] h = (tt, tt)
insert_by-IsSorted e (x ∷ xs) (le, h) = elim (Bool-cases (ltb (zeros_of e) (zeros_of x))) [
  | inl q ↦ simp q (
    (
      ground (arith, q),
      All-imp (λ y. zeros_of x ≤ zeros_of y) (λ y. zeros_of e ≤ zeros_of y) xs
          (λ y l. ground (arith, q, l)) le,
    ),
    (le, h),
  )
  | inr q ↦ simp q (
    insert_by-All (λ y. zeros_of x ≤ zeros_of y) e xs (ground (arith, q)) le,
    insert_by-IsSorted e xs h,
  )
]

sort_from-IsSorted : (sorted es : List Entry) → IsSorted sorted → IsSorted (sort_from sorted es)
unfolding sort_from
sort_from-IsSorted sorted [] h = h
sort_from-IsSorted sorted (e ∷ es) h =
    sort_from-IsSorted (insert_by e sorted) es (insert_by-IsSorted e sorted h)

-- A pattern that matches is no more specific than the one found.
abbrev pub IsBeaten : ℕ → Entry → Entry → Type 0
IsBeaten raw found e = mask_matches e.0 raw ≡ true → zeros_of found ≤ zeros_of e

abbrev pub Misses : ℕ → Entry → Type 0
Misses raw e = mask_matches e.0 raw ≡ false

-- The word has the bits that a pattern asks for.
abbrev pub Fits : ℕ → RvInstrDesc → Type 0
Fits raw d = bit_and raw d.mask ≡ d.key

-- An answer that repeats the mask, the key, the instruction and the format of one of the patterns.
abbrev pub IsOneOf : Entry → List RvInstrDesc → Type 0
IsOneOf e [] = ⊥
IsOneOf (m, i, f) (d ∷ ds) =
    ((m.mask ≡ d.mask) × (m.key ≡ d.key) × (i ≡ d.instr) × (f ≡ d.format)) ⊎ IsOneOf (m, i, f) ds

-- What a search answers: a pattern of the list that the word fits, such that no pattern that it fits
-- has fewer zeros in its mask, or nothing where the word fits none.
abbrev pub IsBestMatch : ℕ → List RvInstrDesc → Option Entry → Type 0
IsBestMatch raw ds none = EveryDesc (λ d. Fits raw d → ⊥) ds
IsBestMatch raw ds (some (m, i, f)) =
    IsOneOf (m, i, f) ds
    × (bit_and raw m.mask ≡ m.key)
    × EveryDesc (λ d. Fits raw d → count_zeros m.mask ≤ count_zeros d.mask) ds

find_none : (es : List Entry) (raw : ℕ) → find_mask es raw ≡ none → All (Misses raw) es
unfolding find_mask
find_none [] raw h = tt
find_none ((m, i, f) ∷ es) raw h = elim (Bool-cases (mask_matches m raw)) [
  | inl q ↦ absurd (ground (arith, q, h))
  | inr q ↦ (q, find_none es raw (ground (arith, q, h)))
]

find_some :
    (es : List Entry) (raw : ℕ) (e : Entry)
    → IsSorted es
    → find_mask es raw ≡ some e
    → (mask_matches e.0 raw ≡ true) × All (IsBeaten raw e) es
unfolding find_mask
find_some [] raw e s h = absurd (ground (arith, h))
find_some ((m, i, f) ∷ es) raw e (le, s) h = elim (Bool-cases (mask_matches m raw)) [
  | inl q ↦
      let same : (m, i, f) ≡ e = ground (arith, q, h) in
      subst (λ x. (mask_matches x.0 raw ≡ true) × All (IsBeaten raw x) ((m, i, f) ∷ es)) same
        (
          q,
          (
            λ p. omega arith,
            All-imp (λ x. count_zeros m.mask ≤ zeros_of x) (IsBeaten raw (m, i, f)) es (λ x l p. l)
                le,
          ),
        )
  | inr q ↦
      (let (hit, rest) = find_some es raw e s (ground (arith, q, h)) in
        (hit, (λ p. absurd (ground (arith, p, q)), rest)))
]

table-IsSorted : (ds : List RvInstrDesc) → IsSorted (masks_from_isa ds)
unfolding masks_from_isa
table-IsSorted ds = sort_from-IsSorted [] (map entry_of ds) tt

EveryDesc-imp :
    (P Q : RvInstrDesc → Type 0) (ds : List RvInstrDesc)
    → ((d : RvInstrDesc) → P d → Q d)
    → EveryDesc P ds
    → EveryDesc Q ds
EveryDesc-imp P Q [] f h = tt
EveryDesc-imp P Q (d ∷ ds) f (p, h) = (f d p, EveryDesc-imp P Q ds f h)

each_IsOneOf : (ds : List RvInstrDesc) → All (λ e. IsOneOf e ds) (map entry_of ds)
each_IsOneOf [] = tt
each_IsOneOf (d ∷ ds) = (
  inl (refl, refl, refl, refl),
  All-imp (λ e. IsOneOf e ds) (λ e. IsOneOf e (d ∷ ds)) (map entry_of ds) (λ (m, i, f) h. inr h)
      (each_IsOneOf ds),
)

table-IsOneOf : (ds : List RvInstrDesc) → All (λ e. IsOneOf e ds) (masks_from_isa ds)
unfolding masks_from_isa
table-IsOneOf ds = sort_from-All (λ e. IsOneOf e ds) [] (map entry_of ds) tt (each_IsOneOf ds)

Fits-matches : (m : DecodeMask) (raw : ℕ) → bit_and raw m.mask ≡ m.key → mask_matches m raw ≡ true
unfolding mask_matches
Fits-matches m raw h = ground (arith, h)

matches-Fits : (m : DecodeMask) (raw : ℕ) → mask_matches m raw ≡ true → bit_and raw m.mask ≡ m.key
unfolding mask_matches
matches-Fits m raw h = (==_iff (bit_and raw m.mask) m.key).0 h

-- Searching the sorted table of a list of patterns answers with the mask, key, instruction and
-- format of a pattern of the list that the word fits, such that no pattern of the list that it fits
-- has fewer zeros in its mask; it answers nothing only where the word fits no pattern of the list.
pub find_mask-IsBestMatch :
    (ds : List RvInstrDesc) (raw : ℕ) → IsBestMatch raw ds (find_mask (masks_from_isa ds) raw)
find_mask-IsBestMatch ds raw = elim (Option-cases (find_mask (masks_from_isa ds) raw)) [
  | inl q ↦ rw q (
      EveryDesc-imp (λ d. Misses raw (entry_of d)) (λ d. Fits raw d → ⊥) ds
        (λ d miss fits. absurd (ground (arith, miss, Fits-matches (entry_of d).0 raw fits)))
        (EveryDesc-masks (Misses raw) ds (find_none (masks_from_isa ds) raw q)))
  | inr ((m, i, f), q) ↦
      (let (hit, beaten) = find_some (masks_from_isa ds) raw (m, i, f) (table-IsSorted ds) q in
        rw q (
          found-All (λ e. IsOneOf e ds) (masks_from_isa ds) raw (m, i, f) (table-IsOneOf ds) q,
          matches-Fits m raw hit,
          EveryDesc-imp (λ d. IsBeaten raw (m, i, f) (entry_of d))
              (λ d. Fits raw d → count_zeros m.mask ≤ count_zeros d.mask) ds
              (λ d b fits. b (Fits-matches (entry_of d).0 raw fits))
              (EveryDesc-masks (IsBeaten raw (m, i, f)) ds beaten),
        ))
]
