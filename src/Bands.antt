-- ===== src/Bands.antt =====
-- `resolve_selection` and `source_specs` of src/rust/src/sources.rs: the bands and sources that a
-- read asks for. Errors keep their kind and drop their message.
pub mod Selection
pub mod Plan
pub mod Scales
use Prim.Native.String.{String}
use text.Mathlib.Text.{◌==◌ as str_eq}
use a5px.Prelude.{
  ℕ, zero, suc, ◌-◌, ◌+◌, List, [], ◌∷◌, Bool, true, false, not, ◌&&◌, Option, none, some,
  if◌then◌else◌, ltb, ◌==◌, length, Result, ok, err, collect,
}
use a5px.Prelude.Int.{ℤ, pos, negsuc}
use a5px.Stats.{Error, invalid, is_empty}

pub record SourceSpec : Type 0 where
  pub src : String
  pub label : String

-- The specs from one source on: a source's label, or the source where no label is left.
abbrev pub specs_from : List String → List String → List SourceSpec
specs_from [] labels = []
specs_from (s ∷ src) [] = record { src = s; label = s } ∷ specs_from src []
specs_from (s ∷ src) (l ∷ labels) = record { src = s; label = l } ∷ specs_from src labels

unfoldable pub source_specs : List String → List String → Result Error (List SourceSpec)
source_specs src labels =
    if is_empty src
    then err invalid
    else if not (is_empty labels) && not (length labels == length src)
    then err invalid
    else ok (specs_from src labels)

-- One band by its index, which starts at 1.
pub band_of_index : ℕ → ℤ → Result Error ℕ
band_of_index n (negsuc i) = err invalid
band_of_index n (pos i) =
    if ltb i 1 then err invalid else if ltb n i then err invalid else ok (i - 1)

abbrev pub position_from : ℕ → List String → String → Option ℕ
position_from k [] name = none
position_from k (d ∷ all) name =
    let rest = position_from (k + 1) all name in if str_eq d name then some k else rest

-- One band by its name: the first that has it.
pub band_of_name : List String → String → Result Error ℕ
band_of_name all name = elim (position_from 0 all name) [ some k ↦ ok k | none ↦ err invalid ]

-- `(0..n).collect()`, from `k` on.
abbrev pub each_from : ℕ → ℕ → List ℕ
each_from k zero = []
each_from k (suc n) = k ∷ each_from (k + 1) n

unfoldable pub resolve_selection : List String → List ℤ → List String → Result Error (List ℕ)
unfolding band_of_index band_of_name
resolve_selection all (i ∷ bands_idx) bands_names =
    collect (band_of_index (length all)) (i ∷ bands_idx)
resolve_selection all [] (name ∷ bands_names) = collect (band_of_name all) (name ∷ bands_names)
resolve_selection all [] [] = ok (each_from 0 (length all))
