-- ===== src/Examples/Tiles.antt =====
-- Decoding and the passes over a row at concrete inputs.
use a5px.Prelude.{
  ℕ, ◌<◌, ◌≡◌, refl, List, [], ◌∷◌, Bool, true, false, ◌||◌, Option, none, some, arith, map, ok,
  err, get_or,
}
use a5px.Prelude.Int.{pos}
use a5px.Examples.Numbers.{small}
use a5px.Stats.{any, invalid}
use a5px.Decode.{
  DequantLut, DataType, bool, BandDecode, validate_dequant_dtype, integer_code_range, apply_lut,
  apply,
}
use a5px.Decode.Domain.{validate_dequant_dtype-covers, plus}
use a5px.Pixels.{TypedArray, mark_valid, read_run_values, gather_bands}
use a5px.Rows.{mark_bands, runs_of, no_slot, row_hints, no_cell}
use a5px.Rows.Marks.{mark_bands_lem, shows_in}
use a5px.Rows.Runs.{runs_of-located, located, pixels}
use a5px.Strips.Cover.{joined}

program : Unit {0}
unfolding validate_dequant_dtype integer_code_range apply_lut mark_valid read_run_values
    gather_bands mark_bands runs_of row_hints apply
program = tt

-- A table of two codes, 0 and 1.
abbrev table : DequantLut ℕ
table = record { lut = 40 ∷ 50 ∷ []; min = pos 0; has_nan = false }

table_runs :
    (validate_dequant_dtype (some bool) table ≡ ok tt)
    × (validate_dequant_dtype (some DataType.uint8) table ≡ err invalid)
    × (apply_lut table 1 ≡ 50)
    × (apply_lut table 2 ≡ 999_999)
unfolding program
table_runs = (refl, refl, refl, refl)

table_valid : validate_dequant_dtype (some bool) table ≡ ok tt
unfolding program
table_valid = refl

bool_range : integer_code_range (some bool) ≡ some (pos 0, pos 1)
unfolding program
bool_range = refl

validate_dequant_dtype-covers_example :
    (k : ℕ) × (k < 2)
    × (plus (pos 0) k ≡ pos 1)
    × (apply_lut table 1 ≡ get_or (40 ∷ 50 ∷ []) k 999_999)
validate_dequant_dtype-covers_example =
    validate_dequant_dtype-covers (some bool) table (pos 0) (pos 1) table_valid bool_range
      (omega arith) (omega arith) (omega arith) 1 (omega arith) refl refl

-- Four pixels of two bands, one after the other; 9 is nodata.
abbrev tile : TypedArray ℕ
tile = TypedArray.uint8 (9 ∷ 3 ∷ 9 ∷ 9 ∷ 9 ∷ 5 ∷ 6 ∷ 7 ∷ [])

swept :
    mark_valid tile 0 1 4 (some 9) none (false ∷ false ∷ true ∷ false ∷ [])
    ≡ some (1, false ∷ true ∷ true ∷ false ∷ [])
unfolding program
swept = refl

abbrev bands : List (ℕ × Option (BandDecode ℕ))
bands = (0, none) ∷ (4, none) ∷ []

abbrev unmarked : List Bool
unmarked = false ∷ false ∷ false ∷ false ∷ []

marked : mark_bands tile 1 4 (some 9) 0 bands unmarked ≡ some (false ∷ true ∷ true ∷ true ∷ [])
unfolding program
marked = refl

mark_bands_lem_example :
    get_or (false ∷ true ∷ true ∷ true ∷ []) 2 false
    ≡ get_or unmarked 2 false || any (shows_in tile 1 4 (some 9) 2) bands
mark_bands_lem_example =
    mark_bands_lem tile 1 4 (some 9) 0 bands unmarked (false ∷ true ∷ true ∷ true ∷ []) refl refl
      marked 2 (omega arith)

read : read_run_values tile 4 1 3 (some 9) none [] ≡ some (5 ∷ 6 ∷ [])
unfolding program
read = refl

abbrev slots : List ℕ
slots = 4 ∷ 4 ∷ no_slot ∷ 4 ∷ 7 ∷ 7 ∷ []

runs_run : runs_of 6 slots ≡ (4, 0, 2) ∷ (4, 3, 4) ∷ (7, 4, 6) ∷ []
unfolding program
runs_run = refl

runs_of-located_example : joined (map pixels (runs_of 6 slots)) ≡ located slots 0 6
runs_of-located_example = runs_of-located 6 slots

hints_run : row_hints (1 ∷ 2 ∷ 3 ∷ []) 1 ≡ 2 ∷ 3 ∷ no_cell ∷ no_cell ∷ 1 ∷ []
unfolding program
hints_run = refl
