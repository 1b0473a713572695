-- ===== src/Isa/Layouts.antt =====
-- The layouts of the immediates of the 16-bit formats as the ISA manual draws them, and that the
-- slices of src/isa/riscv/decoder/compress_decoder.rs gather what they hold.
use here.Base.{Each, List, arith, each, ℕ, ◌%◌, ◌*◌, ◌+◌, ◌/◌, ◌<◌, ◌^◌, ◌∙◌, ◌≡◌}
use here.Bits.{digit, digit_ext}
use here.Isa.Compressed.{
  slices_6, slices_addi16sp, slices_cb, slices_ciw, slices_cj, slices_ld, slices_ldsp, slices_lw,
  slices_lwsp, slices_sdsp, slices_swsp,
}
use here.Isa.SliceBits.{AreBelow, AreSlices, digit-extract_field, extract_field-lt, moved_by}
use here.Isa.Slices.{Slice, extract_field}

pub data Layout : Type 0 where
  layout_cj layout_branch layout_imm6 layout_addi16sp layout_ldsp layout_lwsp : Layout
  layout_ciw layout_ld layout_lw layout_sdsp layout_swsp : Layout

abbrev pub slices_of : Layout → List Slice
slices_of layout_cj = slices_cj
slices_of layout_branch = slices_cb
slices_of layout_imm6 = slices_6
slices_of layout_addi16sp = slices_addi16sp
slices_of layout_ldsp = slices_ldsp
slices_of layout_lwsp = slices_lwsp
slices_of layout_ciw = slices_ciw
slices_of layout_ld = slices_ld
slices_of layout_lw = slices_lw
slices_of layout_sdsp = slices_sdsp
slices_of layout_swsp = slices_swsp

-- One more than the highest bit of the immediate.
abbrev pub width_of : Layout → ℕ
width_of layout_cj = 12
width_of layout_branch = 9
width_of layout_imm6 = 6
width_of layout_addi16sp = 10
width_of layout_ldsp = 9
width_of layout_lwsp = 8
width_of layout_ciw = 10
width_of layout_ld = 8
width_of layout_lw = 7
width_of layout_sdsp = 9
width_of layout_swsp = 8

-- What the immediate is a multiple of.
abbrev pub unit_of : Layout → ℕ
unit_of layout_cj = 2
unit_of layout_branch = 2
unit_of layout_imm6 = 1
unit_of layout_addi16sp = 16
unit_of layout_ldsp = 8
unit_of layout_lwsp = 4
unit_of layout_ciw = 4
unit_of layout_ld = 8
unit_of layout_lw = 4
unit_of layout_sdsp = 8
unit_of layout_swsp = 4

-- The bits of the immediate, where the format has them.
abbrev pub place : Layout → ℕ → ℕ
place layout_cj imm =
    imm / 2 ^ 11 % 2 * 2 ^ 12
    + imm / 2 ^ 4 % 2 * 2 ^ 11
    + imm / 2 ^ 8 % 2 ^ 2 * 2 ^ 9
    + imm / 2 ^ 10 % 2 * 2 ^ 8
    + imm / 2 ^ 6 % 2 * 2 ^ 7
    + imm / 2 ^ 7 % 2 * 2 ^ 6
    + imm / 2 % 2 ^ 3 * 2 ^ 3
    + imm / 2 ^ 5 % 2 * 2 ^ 2
place layout_branch imm =
    imm / 2 ^ 8 % 2 * 2 ^ 12
    + imm / 2 ^ 3 % 2 ^ 2 * 2 ^ 10
    + imm / 2 ^ 6 % 2 ^ 2 * 2 ^ 5
    + imm / 2 % 2 ^ 2 * 2 ^ 3
    + imm / 2 ^ 5 % 2 * 2 ^ 2
place layout_imm6 imm = imm / 2 ^ 5 % 2 * 2 ^ 12 + imm % 2 ^ 5 * 2 ^ 2
place layout_addi16sp imm =
    imm / 2 ^ 9 % 2 * 2 ^ 12
    + imm / 2 ^ 4 % 2 * 2 ^ 6
    + imm / 2 ^ 6 % 2 * 2 ^ 5
    + imm / 2 ^ 7 % 2 ^ 2 * 2 ^ 3
    + imm / 2 ^ 5 % 2 * 2 ^ 2
place layout_ldsp imm =
    imm / 2 ^ 5 % 2 * 2 ^ 12 + imm / 2 ^ 3 % 2 ^ 2 * 2 ^ 5 + imm / 2 ^ 6 % 2 ^ 3 * 2 ^ 2
place layout_lwsp imm =
    imm / 2 ^ 5 % 2 * 2 ^ 12 + imm / 2 ^ 2 % 2 ^ 3 * 2 ^ 4 + imm / 2 ^ 6 % 2 ^ 2 * 2 ^ 2
place layout_ciw imm =
    imm / 2 ^ 4 % 2 ^ 2 * 2 ^ 11
    + imm / 2 ^ 6 % 2 ^ 4 * 2 ^ 7
    + imm / 2 ^ 2 % 2 * 2 ^ 6
    + imm / 2 ^ 3 % 2 * 2 ^ 5
place layout_ld imm = imm / 2 ^ 3 % 2 ^ 3 * 2 ^ 10 + imm / 2 ^ 6 % 2 ^ 2 * 2 ^ 5
place layout_lw imm =
    imm / 2 ^ 3 % 2 ^ 3 * 2 ^ 10 + imm / 2 ^ 2 % 2 * 2 ^ 6 + imm / 2 ^ 6 % 2 * 2 ^ 5
place layout_sdsp imm = imm / 2 ^ 3 % 2 ^ 3 * 2 ^ 10 + imm / 2 ^ 6 % 2 ^ 3 * 2 ^ 7
place layout_swsp imm = imm / 2 ^ 2 % 2 ^ 4 * 2 ^ 9 + imm / 2 ^ 6 % 2 ^ 2 * 2 ^ 7

-- The registers `a` and `b` of the format, where it has them.
abbrev pub registers : Layout → (a b : ℕ) → ℕ
registers layout_cj a b = 0
registers layout_branch a b = a % 2 ^ 3 * 2 ^ 7
registers layout_imm6 a b = a % 2 ^ 5 * 2 ^ 7
registers layout_addi16sp a b = a % 2 ^ 5 * 2 ^ 7
registers layout_ldsp a b = a % 2 ^ 5 * 2 ^ 7
registers layout_lwsp a b = a % 2 ^ 5 * 2 ^ 7
registers layout_ciw a b = b % 2 ^ 3 * 2 ^ 2
registers layout_ld a b = a % 2 ^ 3 * 2 ^ 7 + b % 2 ^ 3 * 2 ^ 2
registers layout_lw a b = a % 2 ^ 3 * 2 ^ 7 + b % 2 ^ 3 * 2 ^ 2
registers layout_sdsp a b = b % 2 ^ 5 * 2 ^ 2
registers layout_swsp a b = b % 2 ^ 5 * 2 ^ 2

abbrev pub encode_c : Layout → (op f3 a b imm : ℕ) → ℕ
encode_c l op f3 a b imm = op + registers l a b + place l imm + f3 * 2 ^ 13

-- A field with the bits that its slices move is the number with those bits.
field_of_bits :
    (n raw v : ℕ) (ss : List Slice)
    → AreSlices ss
    → AreBelow n ss
    → v < 2 ^ n
    → Each n (λ i. moved_by raw i ss ≡ digit i v)
    → extract_field raw ss ≡ v
field_of_bits n raw v ss h b lt e =
    digit_ext n (extract_field raw ss) v (extract_field-lt n raw ss h b) lt
      (λ i le. digit-extract_field raw i ss h ∙ each n (λ j. moved_by raw j ss ≡ digit j v) e i le)

module _ (op f3 a b imm : ℕ) (ho : op < 4) (h3 : f3 < 8) where
  gather_cj :
      imm < 2 ^ 12 → imm % 2 ≡ 0 → extract_field (encode_c layout_cj op f3 a b imm) slices_cj ≡ imm
  unfolding digit
  gather_cj h e =
      field_of_bits 12 (encode_c layout_cj op f3 a b imm) imm slices_cj (ground arith)
        (ground arith) (omega arith) (ground arith)

  gather_branch :
      imm < 2 ^ 9
      → imm % 2 ≡ 0
      → extract_field (encode_c layout_branch op f3 a b imm) slices_cb ≡ imm
  unfolding digit
  gather_branch h e =
      field_of_bits 9 (encode_c layout_branch op f3 a b imm) imm slices_cb (ground arith)
        (ground arith) (omega arith) (ground arith)

  gather_imm6 : imm < 2 ^ 6 → extract_field (encode_c layout_imm6 op f3 a b imm) slices_6 ≡ imm
  unfolding digit
  gather_imm6 h =
      field_of_bits 6 (encode_c layout_imm6 op f3 a b imm) imm slices_6 (ground arith)
        (ground arith) (omega arith) (ground arith)

  gather_addi16sp :
      imm < 2 ^ 10
      → imm % 16 ≡ 0
      → extract_field (encode_c layout_addi16sp op f3 a b imm) slices_addi16sp ≡ imm
  unfolding digit
  gather_addi16sp h e =
      field_of_bits 10 (encode_c layout_addi16sp op f3 a b imm) imm slices_addi16sp (ground arith)
        (ground arith) (omega arith) (ground arith)

  gather_ldsp :
      imm < 2 ^ 9
      → imm % 8 ≡ 0
      → extract_field (encode_c layout_ldsp op f3 a b imm) slices_ldsp ≡ imm
  unfolding digit
  gather_ldsp h e =
      field_of_bits 9 (encode_c layout_ldsp op f3 a b imm) imm slices_ldsp (ground arith)
        (ground arith) (omega arith) (ground arith)

  gather_lwsp :
      imm < 2 ^ 8
      → imm % 4 ≡ 0
      → extract_field (encode_c layout_lwsp op f3 a b imm) slices_lwsp ≡ imm
  unfolding digit
  gather_lwsp h e =
      field_of_bits 8 (encode_c layout_lwsp op f3 a b imm) imm slices_lwsp (ground arith)
        (ground arith) (omega arith) (ground arith)

  gather_ciw :
      imm < 2 ^ 10
      → imm % 4 ≡ 0
      → extract_field (encode_c layout_ciw op f3 a b imm) slices_ciw ≡ imm
  unfolding digit
  gather_ciw h e =
      field_of_bits 10 (encode_c layout_ciw op f3 a b imm) imm slices_ciw (ground arith)
        (ground arith) (omega arith) (ground arith)

  gather_ld :
      imm < 2 ^ 8 → imm % 8 ≡ 0 → extract_field (encode_c layout_ld op f3 a b imm) slices_ld ≡ imm
  unfolding digit
  gather_ld h e =
      field_of_bits 8 (encode_c layout_ld op f3 a b imm) imm slices_ld (ground arith) (ground arith)
        (omega arith) (ground arith)

  gather_lw :
      imm < 2 ^ 7 → imm % 4 ≡ 0 → extract_field (encode_c layout_lw op f3 a b imm) slices_lw ≡ imm
  unfolding digit
  gather_lw h e =
      field_of_bits 7 (encode_c layout_lw op f3 a b imm) imm slices_lw (ground arith) (ground arith)
        (omega arith) (ground arith)

  gather_sdsp :
      imm < 2 ^ 9
      → imm % 8 ≡ 0
      → extract_field (encode_c layout_sdsp op f3 a b imm) slices_sdsp ≡ imm
  unfolding digit
  gather_sdsp h e =
      field_of_bits 9 (encode_c layout_sdsp op f3 a b imm) imm slices_sdsp (ground arith)
        (ground arith) (omega arith) (ground arith)

  gather_swsp :
      imm < 2 ^ 8
      → imm % 4 ≡ 0
      → extract_field (encode_c layout_swsp op f3 a b imm) slices_swsp ≡ imm
  unfolding digit
  gather_swsp h e =
      field_of_bits 8 (encode_c layout_swsp op f3 a b imm) imm slices_swsp (ground arith)
        (ground arith) (omega arith) (ground arith)

-- In each of the eleven layouts of the 16-bit formats, the slices gather the immediate that the
-- format holds, whatever its opcode, function code and registers: a number of the layout's width
-- that is a multiple of its unit.
pub extract_field-encode_c :
    (l : Layout) (op f3 a b imm : ℕ)
    → op < 4
    → f3 < 8
    → imm < 2 ^ width_of l
    → imm % unit_of l ≡ 0
    → extract_field (encode_c l op f3 a b imm) (slices_of l) ≡ imm
extract_field-encode_c layout_cj op f3 a b imm ho h3 h e = gather_cj op f3 a b imm ho h3 h e
extract_field-encode_c layout_branch op f3 a b imm ho h3 h e = gather_branch op f3 a b imm ho h3 h e
extract_field-encode_c layout_imm6 op f3 a b imm ho h3 h e = gather_imm6 op f3 a b imm ho h3 h
extract_field-encode_c layout_addi16sp op f3 a b imm ho h3 h e =
    gather_addi16sp op f3 a b imm ho h3 h e
extract_field-encode_c layout_ldsp op f3 a b imm ho h3 h e = gather_ldsp op f3 a b imm ho h3 h e
extract_field-encode_c layout_lwsp op f3 a b imm ho h3 h e = gather_lwsp op f3 a b imm ho h3 h e
extract_field-encode_c layout_ciw op f3 a b imm ho h3 h e = gather_ciw op f3 a b imm ho h3 h e
extract_field-encode_c layout_ld op f3 a b imm ho h3 h e = gather_ld op f3 a b imm ho h3 h e
extract_field-encode_c layout_lw op f3 a b imm ho h3 h e = gather_lw op f3 a b imm ho h3 h e
extract_field-encode_c layout_sdsp op f3 a b imm ho h3 h e = gather_sdsp op f3 a b imm ho h3 h e
extract_field-encode_c layout_swsp op f3 a b imm ho h3 h e = gather_swsp op f3 a b imm ho h3 h e
