-- ===== src/Examples/Plans.antt =====
-- Band plans at concrete inputs.
use a5px.Prelude.{
  ℕ, ◌≡◌, refl, List, [], ◌∷◌, true, false, some, ok, err, get_or, get_elem?, map, arith, All,
  length, zip,
}
use a5px.Prelude.Int.{pos}
use a5px.Stats.{invalid}
use a5px.Rows.{failed}
use a5px.Examples.Numbers.{small}
use a5px.Bands.{resolve_selection}
use a5px.Bands.Scales.{check_same_scale_offset, Agree, tags, check_same_scale_offset-agrees}
use a5px.Bands.Plan.Pooled.{plan_bands-pooled}
use a5px.Bands.Plan.{
  OpenedSource, BandPlan, Combined, combine, spread, plan_bands, plan_pooled, plan_separate,
}
use a5px.Bands.Plan.Columns.{bands_of, places_of, entry, plan_bands-columns}

-- A source of one band, and one of two.
abbrev red : OpenedSource
red = record {
  spec = record { src = "r.tif"; label = "red" };
  n_bands = 1;
  band_names = "band_01" ∷ [];
}

abbrev soil : OpenedSource
soil = record {
  spec = record { src = "s.tif"; label = "soil" };
  n_bands = 2;
  band_names = "clay" ∷ "sand" ∷ [];
}

abbrev sources : List OpenedSource
sources = red ∷ soil ∷ []

abbrev planned : BandPlan
planned = record {
  selected = (0 ∷ []) ∷ (1 ∷ []) ∷ [];
  slots = (1 ∷ []) ∷ (0 ∷ []) ∷ [];
  names = "soil_sand" ∷ "red" ∷ [];
}

-- The third band, then the first.
plan_runs : plan_bands sources true (pos 3 ∷ pos 1 ∷ []) [] ≡ ok planned
unfolding plan_bands plan_separate combine spread resolve_selection
plan_runs = refl

-- Without separate columns, the two sources differ in their bands.
pooled_fails : plan_bands sources false [] [] ≡ err (failed invalid)
unfolding plan_bands plan_pooled
pooled_fails = refl

plan_bands-columns_example :
    (combined : List Combined) × (sel : List ℕ) × (combine 0 sources ≡ ok combined)
    × (resolve_selection (map (λ band. band.2) combined) (pos 3 ∷ pos 1 ∷ []) [] ≡ ok sel)
    × (get_or planned.selected 1 [] ≡ bands_of combined 1 sel)
    × (get_or planned.slots 1 [] ≡ places_of combined 1 0 sel)
    × (planned.names ≡ map (λ k. (entry combined k).2) sel)
plan_bands-columns_example =
    plan_bands-columns sources (pos 3 ∷ pos 1 ∷ []) [] planned 1 plan_runs (omega arith)

abbrev more_soil : OpenedSource
more_soil = record {
  spec = record { src = "t.tif"; label = "more" };
  n_bands = 2;
  band_names = "clay" ∷ "sand" ∷ [];
}

abbrev pooled : BandPlan
pooled = record {
  selected = (1 ∷ []) ∷ (1 ∷ []) ∷ [];
  slots = (0 ∷ []) ∷ (0 ∷ []) ∷ [];
  names = "sand" ∷ [];
}

pooled_runs : plan_bands (soil ∷ more_soil ∷ []) false [] ("sand" ∷ []) ≡ ok pooled
unfolding plan_bands plan_pooled resolve_selection
pooled_runs = refl

-- The second source's `sand`, for the output's only band.
plan_bands-pooled_example :
    (sel : List ℕ) × (slots : List ℕ) × (b : ℕ) × (resolve_selection more_soil.band_names []
        ("sand" ∷ [])
      ≡ ok sel)
    × (get_elem? pooled.selected 1 ≡ some sel)
    × (get_elem? pooled.slots 1 ≡ some slots)
    × (length sel ≡ length pooled.names)
    × (length slots ≡ length pooled.names)
    × (get_elem? sel 0 ≡ some b)
    × (get_elem? more_soil.band_names b ≡ some "sand")
    × (get_elem? slots 0 ≡ some 0)
plan_bands-pooled_example =
    plan_bands-pooled soil (more_soil ∷ []) [] ("sand" ∷ []) pooled 1 more_soil 0 "sand" pooled_runs
      refl refl

-- The second source's band 1 has the scale of the first's; its missing offset is 0.
abbrev one : List (ℕ × ℕ)
one = (5, 0) ∷ (2, 0) ∷ []

abbrev other : List (ℕ × ℕ)
other = (7, 0) ∷ (2, 999_999) ∷ []

checked : check_same_scale_offset (one ∷ other ∷ []) ((1 ∷ []) ∷ (1 ∷ []) ∷ []) ≡ ok tt
unfolding check_same_scale_offset
checked = refl

check_same_scale_offset-agrees_example :
    All (λ s. All (Agree (tags one) (tags s.0)) s.1) (zip (other ∷ []) ((1 ∷ []) ∷ []))
check_same_scale_offset-agrees_example =
    check_same_scale_offset-agrees one (other ∷ []) (1 ∷ []) ((1 ∷ []) ∷ []) tt checked
