-- ===== src/Isa/SliceBits.antt =====
-- The fields that src/isa/riscv/decoder/compress_decoder.rs gathers, bit by bit.
use native.Mathlib.Nat.{pow-suc}
use native.Mathlib.Nat.{mul-lt-mul_of_pos_right, mod-eq_of_lt, mod-lt, one-le-pow}
use here.Base.{
  List, [], ap, arith, bit_or, if◌then◌else◌, leb, ltb, max, suc, sym, zero, ℕ, ◌%◌, ◌&&◌, ◌*◌, ◌+◌,
  ◌-◌, ◌/◌, ◌<◌, ◌^◌, ◌∙◌, ◌∷◌, ◌≡◌, ◌≤◌,
}
use here.Bits.{
  bit_and_ones, bit_or-zero, bit_or_step, digit, digit-bit_and, digit-bit_or, digit-le-one,
  digit_ones, digit_shl, digit_shr, digit_zero, pow-le, pow-sum,
}
use here.Word.Laws.{extract_range-eq}
use here.Csr.{field}
use here.Isa.Slices.{Slice, extract_field, or_slices, slice_val}

abbrev pub IsSlice : Slice → Type 0
IsSlice s = (s.dst_low ≤ s.dst_high) × (s.dst_high < 32) × (s.src_low + s.dst_high - s.dst_low < 64)

abbrev pub AreSlices : List Slice → Type 0
AreSlices [] = Unit
AreSlices (s ∷ ss) = IsSlice s × AreSlices ss

-- The bit of the instruction that a slice moves to bit `i`.
abbrev moved : ℕ → ℕ → Slice → ℕ
moved raw i s =
    if leb s.dst_low i && leb i s.dst_high then digit (s.src_low + (i - s.dst_low)) raw else 0

abbrev pub moved_by : ℕ → ℕ → List Slice → ℕ
moved_by raw i [] = 0
moved_by raw i (s ∷ ss) = max (moved raw i s) (moved_by raw i ss)

low_ones : (w x : ℕ) → x % 2 ^ w < 2 ^ w
low_ones w x = mod-lt x (one-le-pow w 2 (omega arith))

below_word : (x w k : ℕ) → x < 2 ^ w → k + w ≤ 32 → x * 2 ^ k < 2 ^ 32
below_word x w k h le = omega (
  arith,
  mul-lt-mul_of_pos_right h (one-le-pow k 2 (omega arith)),
  pow-sum k w,
  pow-le (k + w) 32 le,
)

slice_val-eq :
    (raw : ℕ) (s : Slice)
    → IsSlice s
    → slice_val raw s ≡ raw / 2 ^ s.src_low % 2 ^ (s.dst_high - s.dst_low + 1) * 2 ^ s.dst_low
slice_val-eq raw s (h, lt, src) =
    let w = s.dst_high - s.dst_low + 1 in
    let x = raw / 2 ^ s.src_low % 2 ^ w in
    ap (λ (t : ℕ). t * 2 ^ s.dst_low % 2 ^ 32)
      (extract_range-eq raw s.src_low (s.src_low + s.dst_high - s.dst_low) (omega arith) src
        ∙ ap (λ (t : ℕ). raw / 2 ^ s.src_low % 2 ^ t) (omega arith))
    ∙ mod-eq_of_lt (below_word x w s.dst_low (low_ones w (raw / 2 ^ s.src_low)) (omega arith))

digit_low : (j w x : ℕ) → digit j (x % 2 ^ w) ≡ (if ltb j w then digit j x else 0)
digit_low j w x =
    ap (digit j) (sym (bit_and_ones w x))
    ∙ digit-bit_and j x (2 ^ w - 1)
    ∙ ground (arith, digit_ones j w, digit-le-one j x)

digit-slice_val : (raw i : ℕ) (s : Slice) → IsSlice s → digit i (slice_val raw s) ≡ moved raw i s
digit-slice_val raw i s h =
    let w = s.dst_high - s.dst_low + 1 in
    ap (digit i) (slice_val-eq raw s h)
    ∙ digit_shl s.dst_low i (raw / 2 ^ s.src_low % 2 ^ w)
    ∙ ground (
      arith,
      digit_low (i - s.dst_low) w (raw / 2 ^ s.src_low),
      digit_shr s.src_low (i - s.dst_low) raw,
    )

pub digit-or_slices :
    (raw i field : ℕ) (ss : List Slice)
    → AreSlices ss
    → digit i (or_slices raw field ss) ≡ max (digit i field) (moved_by raw i ss)
unfolding or_slices
digit-or_slices raw i field [] h = omega arith
digit-or_slices raw i field (s ∷ ss) (h, hs) =
    digit-or_slices raw i (bit_or field (slice_val raw s)) ss hs
    ∙ omega (arith, digit-bit_or i field (slice_val raw s), digit-slice_val raw i s h)

pub digit-extract_field :
    (raw i : ℕ) (ss : List Slice)
    → AreSlices ss
    → digit i (extract_field raw ss) ≡ moved_by raw i ss
unfolding extract_field
digit-extract_field raw i ss h = digit-or_slices raw i 0 ss h ∙ omega (arith, digit_zero i)

abbrev pub AreBelow : ℕ → List Slice → Type 0
AreBelow n [] = Unit
AreBelow n (s ∷ ss) = (s.dst_high < n) × AreBelow n ss

bit_or-lt : (n a b : ℕ) → a < 2 ^ n → b < 2 ^ n → bit_or a b < 2 ^ n
bit_or-lt zero zero zero ha hb = omega (arith, bit_or-zero 0)
bit_or-lt zero (suc a) b ha hb = absurd (omega arith)
bit_or-lt zero a (suc b) ha hb = absurd (omega arith)
bit_or-lt (suc n) a b ha hb =
    let halves =
      bit_or-lt n (a / 2) (b / 2) (omega (arith, pow-suc 2 n)) (omega (arith, pow-suc 2 n)) in
    omega (arith, bit_or_step a b, pow-suc 2 n, halves)

slice_val-lt : (n raw : ℕ) (s : Slice) → IsSlice s → s.dst_high < n → slice_val raw s < 2 ^ n
slice_val-lt n raw s h lt =
    let w = s.dst_high - s.dst_low + 1 in
    omega (
      arith,
      slice_val-eq raw s h,
      mul-lt-mul_of_pos_right (low_ones w (raw / 2 ^ s.src_low))
          (one-le-pow s.dst_low 2 (omega arith)),
      pow-sum s.dst_low w,
      pow-le (s.dst_low + w) n (omega arith),
    )

or_slices-lt :
    (n raw field : ℕ) (ss : List Slice)
    → AreSlices ss
    → AreBelow n ss
    → field < 2 ^ n
    → or_slices raw field ss < 2 ^ n
unfolding or_slices
or_slices-lt n raw field [] h b lt = lt
or_slices-lt n raw field (s ∷ ss) (h, hs) (b, bs) lt =
    or_slices-lt n raw (bit_or field (slice_val raw s)) ss hs bs
      (bit_or-lt n field (slice_val raw s) lt (slice_val-lt n raw s h b))

pub extract_field-lt :
    (n raw : ℕ) (ss : List Slice) → AreSlices ss → AreBelow n ss → extract_field raw ss < 2 ^ n
unfolding extract_field
extract_field-lt n raw ss h b = or_slices-lt n raw 0 ss h b (one-le-pow n 2 (omega arith))
