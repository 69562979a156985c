-- ===== src/Examples/Selections.antt =====
-- Band selection at concrete inputs.
use Prim.Native.String.{String}
use a5px.Prelude.{◌<◌, ◌≡◌, refl, List, [], ◌∷◌, some, map, All, get_elem?, length, ok, err}
use a5px.Prelude.Int.{ℤ, pos}
use a5px.Stats.{invalid}
use a5px.Bands.{source_specs, resolve_selection}
use a5px.Bands.Selection.{resolve_selection_lem}

program : Unit {0}
unfolding resolve_selection source_specs
program = tt

abbrev bands : List String
bands = "red" ∷ "green" ∷ "blue" ∷ []

abbrev no_index : List ℤ
no_index = []

abbrev names_asked : List String
names_asked = "blue" ∷ "red" ∷ []

by_name : resolve_selection bands [] ("blue" ∷ "red" ∷ []) ≡ ok (2 ∷ 0 ∷ [])
unfolding program
by_name = refl

by_index :
    (resolve_selection bands (pos 3 ∷ pos 1 ∷ []) [] ≡ ok (2 ∷ 0 ∷ []))
    × (resolve_selection bands (pos 0 ∷ []) [] ≡ err invalid)
    × (resolve_selection bands (pos 4 ∷ []) [] ≡ err invalid)
    × (resolve_selection bands [] [] ≡ ok (0 ∷ 1 ∷ 2 ∷ []))
unfolding program
by_index = (refl, refl, refl, refl)

specs_run :
    (source_specs ("a.tif" ∷ []) [] ≡ ok (record { src = "a.tif"; label = "a.tif" } ∷ []))
    × (source_specs ("a.tif" ∷ []) ("a" ∷ "b" ∷ []) ≡ err invalid)
unfolding program
specs_run = (refl, refl)

resolve_selection_lem_example :
    All (λ b. b < length bands) (2 ∷ 0 ∷ [])
    × ((name : String) (names : List String)
        → no_index ≡ []
        → names_asked ≡ name ∷ names
        → map (get_elem? bands) (2 ∷ 0 ∷ []) ≡ map some names_asked)
resolve_selection_lem_example =
    resolve_selection_lem bands no_index names_asked (2 ∷ 0 ∷ []) by_name
