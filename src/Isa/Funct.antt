-- ===== src/Isa/Funct.antt =====
-- src/isa/riscv/decoder/funct_decoder.rs and decoder/mod.rs: the table indexed by opcode and function
-- codes, and the decoder that puts the three together. `none` is a panic.
use mathlib.Core.List.{map}
use mathlib.Core.Option
use here.Base.{
  Bool, List, Option, [], bit_and, bit_or, false, if◌then◌else◌, leb, length, ltb, none, not, some,
  suc, true, update, zero, ℕ, ◌&&◌, ◌*◌, ◌++◌, ◌-◌, ◌==◌, ◌^◌, ◌∷◌,
}
use here.Word.{shr}
use here.Isa.{DecodeInstr, InstrFormat, instr_len}
use here.Isa.Decode.{decode_info}
use here.Isa.Instr.{RiscvInstr}
use here.Isa.Tables.{Entry, RvInstrDesc, compressed_decode, count_ones, mask_decode, masks_from_isa}

abbrev pub PartialResult : Type 0
PartialResult = RiscvInstr × InstrFormat

pub data PartialDecode : Type 0 where
  unknown_slot : PartialDecode
  complete_slot : PartialResult → PartialDecode
  sparse_f7 : List (ℕ × PartialResult) → PartialDecode
  dense_f7 : (ℕ → Option PartialResult) → PartialDecode

abbrev pub map_length : ℕ
map_length = 8

-- `SmallMap::insert` pushes, and `get` finds the first.
abbrev pub small_insert : List (ℕ × PartialResult) → ℕ → PartialResult → List (ℕ × PartialResult)
small_insert m k v = m ++ ((k, v) ∷ [])

abbrev pub small_get : List (ℕ × PartialResult) → ℕ → Option PartialResult
small_get [] key = none
small_get ((k, v) ∷ rest) key = if k == key then some v else small_get rest key

abbrev fill_dense : (ℕ → Option PartialResult) → List (ℕ × PartialResult) → ℕ → Option PartialResult
fill_dense dense [] = dense
fill_dense dense ((f7, result) ∷ rest) = fill_dense (update dense f7 (some result)) rest

unfoldable pub try_make_dense : PartialDecode → PartialDecode
try_make_dense (sparse_f7 sparse) =
    if ltb (length sparse) map_length
    then sparse_f7 sparse
    else dense_f7 (fill_dense (λ _. none) sparse)
try_make_dense slot = slot

abbrev pub DecodeTable : Type 0
DecodeTable = ℕ → ℕ → PartialDecode

abbrev pub opcode_bits : ℕ
opcode_bits = 0b1111111

abbrev pub f3_bits : ℕ
f3_bits = 0b111 * 2 ^ 12

abbrev pub f7_bits : ℕ
f7_bits = 0b1111111 * 2 ^ 25

unfoldable pub get_opcode_f3_f7 : ℕ → ℕ × ℕ × ℕ
get_opcode_f3_f7 instr = (bit_and instr 0b1111111, bit_and (shr instr 12) 0b111, shr instr 25)

abbrev pub funct_new : DecodeTable
funct_new opcode f3 = unknown_slot

abbrev set_slot : DecodeTable → ℕ → ℕ → PartialDecode → DecodeTable
set_slot table opcode f3 slot = update table opcode (update (table opcode) f3 slot)

unfoldable pub insert_f3_f7 : DecodeTable → ℕ → ℕ → ℕ → PartialResult → Option DecodeTable
unfolding try_make_dense
insert_f3_f7 table opcode f3 f7 result = elim (table opcode f3) [
  | unknown_slot ↦ some (set_slot table opcode f3 (sparse_f7 (small_insert [] f7 result)))
  | complete_slot prev ↦ none
  | sparse_f7 m ↦
      some (set_slot table opcode f3 (try_make_dense (sparse_f7 (small_insert m f7 result))))
  | dense_f7 dense ↦ some (set_slot table opcode f3 (dense_f7 (update dense f7 (some result))))
]

-- The insertions of a loop, which stop at a panic.
abbrev insert_all : DecodeTable → ℕ → List (ℕ × ℕ) → PartialResult → Option DecodeTable
insert_all table opcode [] result = some table
insert_all table opcode ((f3, f7) ∷ rest) result = elim (insert_f3_f7 table opcode f3 f7 result) [
  | none ↦ none
  | some table' ↦ insert_all table' opcode rest result
]

-- The loop over the bits of `funct7` that the mask leaves open: the values of `curr`, on fuel;
-- `none` where the fuel runs out.
unfoldable pub submasks_from : ℕ → ℕ → ℕ → Option (List ℕ)
submasks_from zero rev_mask curr = none
submasks_from (suc fuel) rev_mask curr =
    let rest = submasks_from fuel rev_mask (bit_and rev_mask (curr - 1)) in
    if curr == 0 then some (0 ∷ []) else Option.map (λ l. curr ∷ l) rest

unfoldable pub submasks : ℕ → Option (List ℕ)
unfolding submasks_from
submasks rev_mask = submasks_from 128 rev_mask rev_mask

abbrev pub all_f3 : List ℕ
all_f3 = 0 ∷ 1 ∷ 2 ∷ 3 ∷ 4 ∷ 5 ∷ 6 ∷ 7 ∷ []

abbrev complete_all : DecodeTable → ℕ → PartialResult → DecodeTable
complete_all table opcode result = update table opcode (λ _. complete_slot result)

abbrev not_u32 : ℕ → ℕ
not_u32 x = 2 ^ 32 - 1 - x

-- The last branch of `try_insert`
unfoldable pub insert_open_f7 :
    DecodeTable → ℕ → ℕ → RvInstrDesc → PartialResult → Option (Bool × DecodeTable)
unfolding submasks
insert_open_f7 table opcode f3 d result =
    let rev_mask = shr (bit_and (not_u32 (bit_and d.mask f7_bits)) f7_bits) 25 in
    let f7_match = shr (bit_and d.key f7_bits) 25 in
    elim (submasks rev_mask) [
      | none ↦ none
      | some values ↦
          Option.map (λ t. (true, t))
            (insert_all table opcode (map (λ curr. (f3, bit_or curr f7_match)) values) result)
    ]

-- `try_insert`, whose result says whether the table can hold the pattern.
unfoldable pub try_insert : DecodeTable → RvInstrDesc → Option (Bool × DecodeTable)
unfolding get_opcode_f3_f7 insert_f3_f7 count_ones insert_open_f7
try_insert table d =
    let (opcode, f3, f7) = get_opcode_f3_f7 d.key in
    let result : PartialResult = (d.instr, d.format) in
    if not (bit_and d.mask (not_u32 (bit_or (bit_or opcode_bits f3_bits) f7_bits)) == 0)
    then some (false, table)
    else if not (bit_and d.mask opcode_bits == opcode_bits)
    then none
    else if d.mask == opcode_bits
    then some (true, complete_all table opcode result)
    else if d.mask == bit_or opcode_bits f3_bits
    then some (true, set_slot table opcode f3 (complete_slot result))
    else if d.mask == bit_or (bit_or opcode_bits f3_bits) f7_bits
    then Option.map (λ t. (true, t)) (insert_f3_f7 table opcode f3 f7 result)
    else if d.mask == bit_or opcode_bits f7_bits
    then Option.map (λ t. (true, t)) (insert_all table opcode (map (λ k. (k, f7)) all_f3) result)
    else if bit_and d.mask f3_bits == f3_bits && leb 5 (count_ones (bit_and d.mask f7_bits))
    then insert_open_f7 table opcode f3 d result
    else some (false, table)

unfoldable pub recognize_instr : DecodeTable → ℕ → Option PartialResult
unfolding get_opcode_f3_f7
recognize_instr table raw =
    let (opcode, f3, f7) = get_opcode_f3_f7 raw in
    elim (table opcode f3) [
      | unknown_slot ↦ none
      | complete_slot result ↦ some result
      | sparse_f7 m ↦ small_get m f7
      | dense_f7 dense ↦ dense f7
    ]

unfoldable pub funct_decode : DecodeTable → ℕ → Option (Option DecodeInstr)
unfolding recognize_instr decode_info instr_len
funct_decode table raw = elim (recognize_instr table raw) [
  | none ↦ some none
  | some (i, f) ↦ elim (decode_info raw i f) [
    | none ↦ none
    | some info ↦ some (some (record { instr = i; info = info; len = instr_len raw }))
  ]
]

pub record Decoder : Type 0 where
  pub compress_decoder : List Entry
  pub funct_decoder : DecodeTable
  pub mask_decoder : List Entry

-- `is_compressed`
unfoldable pub is_compressed : RvInstrDesc → Bool
is_compressed d = not (bit_and d.key 0b11 == 0b11)

abbrev keep : (RvInstrDesc → Bool) → List RvInstrDesc → List RvInstrDesc
keep test [] = []
keep test (d ∷ ds) = if test d then d ∷ keep test ds else keep test ds

-- The loop of `from_isa`: the table and what it could not hold.
unfoldable pub insert_or_keep :
    DecodeTable → List RvInstrDesc → List RvInstrDesc → Option (DecodeTable × List RvInstrDesc)
unfolding try_insert
insert_or_keep table remain [] = some (table, remain)
insert_or_keep table remain (d ∷ ds) = elim (try_insert table d) [
  | none ↦ none
  | some (true, table') ↦ insert_or_keep table' remain ds
  | some (false, table') ↦ insert_or_keep table' (remain ++ (d ∷ [])) ds
]

unfoldable pub from_isa : List RvInstrDesc → Option Decoder
unfolding is_compressed insert_or_keep masks_from_isa
from_isa descs = elim (insert_or_keep funct_new [] (keep (λ d. not (is_compressed d)) descs)) [
  | none ↦ none
  | some (funct, remain) ↦ some (record {
    compress_decoder = masks_from_isa (keep is_compressed descs);
    funct_decoder = funct;
    mask_decoder = masks_from_isa remain;
  })
]

unfoldable pub decode : Decoder → ℕ → Option (Option DecodeInstr)
unfolding instr_len compressed_decode funct_decode mask_decode
decode d raw =
    if instr_len raw == 2
    then compressed_decode d.compress_decoder raw
    else elim (funct_decode d.funct_decoder raw) [
      | none ↦ none
      | some (some i) ↦ some (some i)
      | some none ↦ mask_decode d.mask_decoder raw
    ]
