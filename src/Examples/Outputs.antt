-- ===== src/Examples/Outputs.antt =====
-- Outputs of finished reads at concrete inputs, over natural numbers in place of `f64`.
use Prim.Native.String.{String}
use a5px.Prelude.{
  ℕ, ◌+◌, ◌*◌, ◌≡◌, refl, arith, List, [], ◌∷◌, true, false, some, get_elem?, get_or, map, All,
  ℕ_discrete,
}
use a5px.Prelude.Int.{pos}
use a5px.Prelude.Sort.{In}
use a5px.Stats.{Stat, mean}
use a5px.Layouts.{AccMean, acc_mean, finalise_sum}
use a5px.Classes.{ClassWeights}
use a5px.Store.{CellStore, shared_weight}
use a5px.Store.Merge.{value, value_and_weight, weight}
use a5px.Composite.{sum, reduce}
use a5px.Aggregate.{
  Aggregate, Output, from_parts, part_at, columns_into, into_output, push_all_shares, no_shares,
  flat_into,
}
use a5px.Aggregate.Rows.{IsRows, from_parts-IsRows, Ascending}
use a5px.Aggregate.Writes.{into_output-columns_into}
use a5px.Aggregate.Shares.{slices}
use a5px.Aggregate.Shares.Listed.{AllListed, push_all_shares-Listed}
use a5px.Aggregate.Composed.{all_sources, source_at, composite_output}
use a5px.Aggregate.Composed.Reduced.{IsSource, Counted, source_values, composite_output-reduced}
use a5px.Examples.Numbers.{small}
use a5px.Examples.Composites.{total}

-- Two bands; the weight of a cell is that of both.
abbrev part : List ℕ → List (AccMean ℕ) → List ℕ → CellStore ℕ (AccMean ℕ)
part cells cont bw = record {
  n_out = 2;
  cfg = record { has_cont = true; has_cat = false; has_npix = false };
  index = [];
  cells = cells;
  cont = cont;
  cat = [];
  npix = [];
  bw = bw;
  split = [];
}

abbrev first : CellStore ℕ (AccMean ℕ)
first =
    part (80 ∷ 70 ∷ [])
      (record { total = 9 }
        ∷ record { total = 12 }
        ∷ record { total = 8 }
        ∷ record { total = 4 }
        ∷ [])
      (3 ∷ 2 ∷ [])

abbrev second : CellStore ℕ (AccMean ℕ)
second = part (75 ∷ []) (record { total = 5 } ∷ record { total = 6 } ∷ []) (1 ∷ [])

abbrev names : List String
names = "red" ∷ "nir" ∷ []

abbrev means : List Stat
means = mean ∷ []

from_parts-IsRows_example :
    IsRows (first ∷ second ∷ []) (from_parts (first ∷ second ∷ []) 2 names means false false)
from_parts-IsRows_example =
    from_parts-IsRows (first ∷ second ∷ []) 2 names means false false (omega arith)
      (omega arith, (omega arith, tt))
      (((omega arith, (omega arith, tt)), ((omega arith, tt), (tt, tt))))

abbrev whole : Aggregate ℕ (AccMean ℕ)
unfolding from_parts
whole = from_parts (first ∷ second ∷ []) 2 names means false false

abbrev ids : List ℕ
ids = 70 ∷ 75 ∷ 80 ∷ []

abbrev flat_means : List ℕ
flat_means = 4 ∷ 2 ∷ 5 ∷ 6 ∷ 3 ∷ 4 ∷ []

abbrev cells_and_means : Output ℕ → List ℕ × List (List ℕ)
cells_and_means out = (out.cells, out.flat_values)

means_written : cells_and_means (into_output whole) ≡ (ids, flat_means ∷ [])
unfolding into_output whole from_parts flat_into value shared_weight finalise_sum
means_written = refl

abbrev plus_one : ℕ → ℕ
plus_one x = x + 1

into_output-columns_into_example :
    ((flat : List ℕ) × ((get_elem? (into_output whole).flat_values 0 ≡ some flat)
        × (get_elem? flat (2 * 2 + 1) ≡ some (value (part_at whole.parts 0) mean 0 1))))
    × ((column : List ℕ) × ((get_elem? (columns_into whole mean plus_one) 1 ≡ some column)
          × (get_elem? column 2 ≡ some (plus_one (value (part_at whole.parts 0) mean 0 1)))))
unfolding whole from_parts
into_output-columns_into_example =
    into_output-columns_into whole plus_one 0 mean 2 1 0 0 refl (omega arith) refl refl

-- Classes 7 and 2 of one cell, and a cell without weight.
abbrev votes : ℕ × ℕ → ℕ → ClassWeights ℕ
votes (p, i) b = get_or (((pos 7, 3) ∷ (pos 2, 6) ∷ []) ∷ [] ∷ ((pos 4, 1) ∷ []) ∷ []) i []

abbrev places : List (ℕ × ℕ)
places = (0, 0) ∷ (0, 1) ∷ (0, 2) ∷ []

push_all_shares-Listed_example :
    let fr = push_all_shares votes 2 places (no_shares 2) in
    AllListed
      (map (λ o. votes o 1) places)
      (slices (get_or fr.offsets 1 []) (get_or fr.classes 1 []))
      (slices (get_or fr.offsets 1 []) (get_or fr.shares 1 []))
unfolding push_all_shares
push_all_shares-Listed_example = push_all_shares-Listed 2 votes places 1 (omega arith) (omega arith)

-- Two sources that both have cell 70.
abbrev sources : List (Aggregate ℕ (AccMean ℕ))
unfolding from_parts
sources =
    from_parts (first ∷ []) 2 names means false false
    ∷ from_parts (part (70 ∷ []) (record { total = 5 } ∷ record { total = 6 } ∷ []) (1 ∷ []) ∷ []) 2
        names means false false
    ∷ []

sources_made : All IsSource sources
unfolding sources from_parts
sources_made = (
  record {
    all_rows =
        from_parts-IsRows (first ∷ []) 2 names means false false (omega arith) (omega arith, tt)
          ((omega arith, tt), (tt, tt));
    few = omega arith;
    small = (omega arith, tt);
  },
  (
    record {
      all_rows =
          from_parts-IsRows
            (part (70 ∷ []) (record { total = 5 } ∷ record { total = 6 } ∷ []) (1 ∷ []) ∷ []) 2
            names means false false (omega arith) (omega arith, tt) (tt, tt);
      few = omega arith;
      small = (omega arith, tt);
    },
    tt,
  ),
)

composite_output-reduced_example :
    let out = composite_output total sources sum in
    (Ascending out.cells × All (λ d. In d (all_sources sources)) out.cells)
    × ((o : ℕ) × ((get_elem? out.cells o ≡ some 70)
          × ((kept : List (ℕ × ℕ)) × (Counted (source_values sources mean 1 70) kept
                × ((values : List ℕ) × ((get_elem? out.flat_values 0 ≡ some values)
                      × (get_elem? values (o * out.n_bands + 1)
                          ≡ some (reduce total sum kept))))))))
unfolding sources from_parts source_at
composite_output-reduced_example =
    composite_output-reduced total sum sources 0 mean 70 1 (omega arith) sources_made (omega arith)
      refl (omega arith) (0, refl)

abbrev shared_ids : List ℕ
shared_ids = 70 ∷ 80 ∷ []

abbrev summed_means : List ℕ
summed_means = 9 ∷ 8 ∷ 3 ∷ 4 ∷ []

sums_written :
    cells_and_means (composite_output total sources sum) ≡ (shared_ids, summed_means ∷ [])
unfolding composite_output sources from_parts source_at value_and_weight value weight shared_weight
    finalise_sum reduce ℕ_discrete
sums_written = refl
