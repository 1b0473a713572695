-- ===== src/Isa/Tables.antt =====
-- src/isa/utils.rs and src/isa/riscv/decoder: the tables that are searched by mask, which the
-- compressed decoder and the mask decoder share.
use mathlib.Core.List.{map}
use here.Base.{
  Bool, List, Option, [], bit_and, if◌then◌else◌, ltb, none, some, suc, zero, ℕ, ◌%◌, ◌+◌, ◌-◌, ◌/◌,
  ◌==◌, ◌∷◌,
}
use here.Isa.{DecodeInstr, InstrFormat, RvInstrInfo, instr_len}
use here.Isa.Compressed.{decode_compressed_info}
use here.Isa.Decode.{decode_info}
use here.Isa.Instr.{RiscvInstr}

pub record DecodeMask : Type 0 where
  pub key : ℕ
  pub mask : ℕ

unfoldable pub mask_matches : DecodeMask → ℕ → Bool
mask_matches m instr = bit_and instr m.mask == m.key

pub record RvInstrDesc : Type 0 where
  pub instr : RiscvInstr
  pub format : InstrFormat
  pub mask : ℕ
  pub key : ℕ

abbrev ones_below : ℕ → ℕ → ℕ
ones_below zero x = 0
ones_below (suc n) x = x % 2 + ones_below n (x / 2)

-- `count_ones` and `count_zeros` of a `u32`
unfoldable pub count_ones : ℕ → ℕ
count_ones x = ones_below 32 x

unfoldable pub count_zeros : ℕ → ℕ
unfolding count_ones
count_zeros x = 32 - count_ones x

-- An entry of the table: the mask, the instruction and its format.
abbrev pub Entry : Type 0
Entry = DecodeMask × RiscvInstr × InstrFormat

abbrev pub entry_of : RvInstrDesc → Entry
entry_of d = (record { key = d.key; mask = d.mask }, d.instr, d.format)

abbrev pub zeros_of : Entry → ℕ
zeros_of (m, _, _) = count_zeros m.mask

-- `sort_by_key`, which is stable.
unfoldable pub insert_by : Entry → List Entry → List Entry
insert_by e [] = e ∷ []
insert_by e (x ∷ xs) = if ltb (zeros_of e) (zeros_of x) then e ∷ x ∷ xs else x ∷ insert_by e xs

unfoldable pub sort_from : List Entry → List Entry → List Entry
unfolding insert_by
sort_from sorted [] = sorted
sort_from sorted (e ∷ es) = sort_from (insert_by e sorted) es

-- `from_isa` of both decoders
unfoldable pub masks_from_isa : List RvInstrDesc → List Entry
unfolding sort_from
masks_from_isa descs = sort_from [] (map entry_of descs)

-- The search of both `decode` functions
unfoldable pub find_mask : List Entry → ℕ → Option Entry
unfolding mask_matches
find_mask [] raw = none
find_mask ((m, i, f) ∷ rest) raw = if mask_matches m raw then some (m, i, f) else find_mask rest raw

abbrev decoded : RiscvInstr → ℕ → Option RvInstrInfo → Option DecodeInstr
decoded i len none = none
decoded i len (some info) = some (record { instr = i; info = info; len = len })

-- `CompressedDecoder::decode` and `MaskDecoder::decode`: the outer `none` is an unreachable arm.
unfoldable pub compressed_decode : List Entry → ℕ → Option (Option DecodeInstr)
unfolding find_mask decode_compressed_info
compressed_decode masks raw = elim (find_mask masks raw) [
  | none ↦ some none
  | some (m, i, f) ↦ elim (decoded i 2 (decode_compressed_info raw i f)) [
    | none ↦ none
    | some d ↦ some (some d)
  ]
]

unfoldable pub mask_decode : List Entry → ℕ → Option (Option DecodeInstr)
unfolding find_mask decode_info instr_len
mask_decode masks raw = elim (find_mask masks raw) [
  | none ↦ some none
  | some (m, i, f) ↦ elim (decoded i (instr_len raw) (decode_info raw i f)) [
    | none ↦ none
    | some d ↦ some (some d)
  ]
]
