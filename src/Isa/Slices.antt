-- ===== src/Isa/Slices.antt =====
-- src/isa/riscv/decoder/compress_decoder.rs: `extract_field!` and its two uses.
use here.Base.{List, [], bit_or, max, ℕ, ◌+◌, ◌-◌, ◌∷◌}
use here.Word.{extract_range, sign_extend}
use here.Csr.{field}
use here.Isa.Decode.{shl32}

pub record Slice : Type 0 where
  pub dst_high : ℕ
  pub dst_low : ℕ
  pub src_low : ℕ

-- `high : low <- src`
abbrev pub slice : ℕ → ℕ → ℕ → Slice
slice high low src = record { dst_high = high; dst_low = low; src_low = src }

abbrev pub slice_val : ℕ → Slice → ℕ
slice_val raw s = shl32 (extract_range raw s.src_low (s.src_low + s.dst_high - s.dst_low)) s.dst_low

unfoldable pub or_slices : ℕ → ℕ → List Slice → ℕ
or_slices raw field [] = field
or_slices raw field (s ∷ ss) = or_slices raw (bit_or field (slice_val raw s)) ss

unfoldable pub extract_field : ℕ → List Slice → ℕ
unfolding or_slices
extract_field raw slices = or_slices raw 0 slices

abbrev top_bit : List Slice → ℕ
top_bit [] = 0
top_bit (s ∷ ss) = max s.dst_high (top_bit ss)

unfoldable pub sign_ext_extract : ℕ → List Slice → ℕ
unfolding extract_field sign_extend
sign_ext_extract raw slices = sign_extend (extract_field raw slices) (top_bit slices + 1)

unfoldable pub zero_ext_extract : ℕ → List Slice → ℕ
unfolding extract_field
zero_ext_extract raw slices = extract_field raw slices
