-- ===== src/Examples/Masks.antt =====
-- Masks, header chunks and stats at concrete inputs.
use Prim.Native.String.{String}
use text.Mathlib.Text.{◌==◌ as str_eq}
use a5px.Prelude.{
  ℕ, ◌≡◌, ◌≢◌, refl, List, [], ◌∷◌, true, false, none, some, arith, ◌/◌, map, Result, ok, err,
  ℕ_discrete, if◌then◌else◌, ltb, ◌<◌, ◌-◌, u64_mod,
}
use a5px.Prelude.Int.{pos}
use a5px.RangeCache.{Bytes}
use a5px.Coalesce.{Range}
use a5px.Reader.Slices.{slice}
use a5px.Stats.{mean, min, layout_for, parse, parse_stats, as_str, any, keep, is_stat}
use a5px.Stats.Laws.{parse_stats_lem}
use a5px.CellMask.{A5, CellMask, from_cells, contains, new_cache, allows}
use a5px.CellMask.Membership.{stands_for, contains-from_cells, ask, ask-contains}
use a5px.MetaCache.{panic, fetch}
use a5px.MetaCache.Loads.{AreParts}
use a5px.MetaCache.Exact.{fetch-Exact}

program : Unit {0}
unfolding from_cells contains new_cache allows fetch parse parse_stats layout_for ℕ_discrete
program = tt

-- Cells below 100 are coarse (resolution 1), the others fine (resolution 2), ten to a parent.
abbrev a5 : A5
a5 = record {
  get_resolution = λ c. if ltb c 100 then pos 1 else pos 2;
  cell_to_parent = λ c r. if ltb c 100 then none else some (c / 10);
}

abbrev mask : CellMask
mask = record { levels = (pos 1, 12 ∷ []) ∷ (pos 2, 345 ∷ []) ∷ [] }

mask_runs : from_cells a5 (345 ∷ 12 ∷ []) ≡ some mask
unfolding program
mask_runs = refl

mask_holds :
    (contains a5 mask 345 (pos 2) ≡ true)
    × (contains a5 mask 127 (pos 2) ≡ true)
    × (contains a5 mask 344 (pos 2) ≡ false)
unfolding program
mask_holds = (refl, refl, refl)

contains-from_cells_example :
    contains a5 mask 127 (pos 2) ≡ any (stands_for a5 127 (pos 2)) (345 ∷ 12 ∷ [])
contains-from_cells_example = contains-from_cells a5 (345 ∷ 12 ∷ []) mask 127 (pos 2) mask_runs

ask-contains_example :
    ask a5 new_cache (some mask) (pos 2) (345 ∷ 345 ∷ 344 ∷ [])
    ≡ map (λ cell. contains a5 mask cell (pos 2)) (345 ∷ 345 ∷ 344 ∷ [])
ask-contains_example =
    ask-contains a5 mask (pos 2) (345 ∷ 345 ∷ 344 ∷ [])
      (below 345 (omega arith), (below 345 (omega arith), (below 344 (omega arith), tt)))
  where
    below : (c : ℕ) → c < 1000 → c ≢ u64_mod - 1
    below c h e = omega arith

-- A file of twelve bytes, within one chunk.
abbrev file : Bytes
file = 10 ∷ 11 ∷ 12 ∷ 13 ∷ 14 ∷ 15 ∷ 16 ∷ 17 ∷ 18 ∷ 19 ∷ 20 ∷ 21 ∷ []

abbrev serve : Range → Result ℕ Bytes
serve r = ok (slice file r)

abbrev head : Range
head = record { start = 2; end = 5 }

fetch-Exact_example :
    let res = fetch serve [] head in
    AreParts file res.0 × (res.1 ≢ err panic) × ((b : Bytes) → res.1 ≡ ok b → b ≡ slice file head)
fetch-Exact_example =
    fetch-Exact serve file (λ r b h. ground arith) [] head
      (record { part = λ c b h. absurd (ground arith) }) (omega arith)

asked : parse_stats ("mean" ∷ "npix" ∷ "min" ∷ []) ≡ ok (mean ∷ min ∷ [], false, true)
unfolding program
asked = refl

parse_stats_lem_example :
    let ss : List String = "mean" ∷ "npix" ∷ "min" ∷ [] in
    (map as_str (mean ∷ min ∷ []) ≡ keep is_stat ss)
    × (ss ≢ [])
    × (true ≡ any (λ s. str_eq s "npix") ss)
    × (false ≡ any (λ s. str_eq s "fractions") ss)
    × (false ≡ true → (ss ≡ "fractions" ∷ []) × (mean ∷ min ∷ [] ≡ []))
parse_stats_lem_example =
    parse_stats_lem ("mean" ∷ "npix" ∷ "min" ∷ []) (mean ∷ min ∷ []) false true asked
