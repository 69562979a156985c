-- ===== src/Parts.antt =====
-- `PartitionedStore` of src/rust/src/read.rs: the accumulators of a read, in disjoint stores by cell.
-- A lock that a panic has poisoned is not modelled, and after an error the read ends.
pub mod Groups
pub mod Starts
pub mod Absorb
pub mod Returns
use a5px.Prelude.{
  ℕ, zero, suc, ◌+◌, ◌-◌, ◌*◌, ◌/◌, ◌%◌, ◌^◌, List, [], ◌∷◌, Bool, true, false, Option, none, some,
  if◌then◌else◌, ◌==◌, length, get_or, get_elem?, set, modify, take, drop, replicate, map, Result,
  ok, err, ◌>>=◌, u64_mod,
}
use a5px.Float.{F64}
use a5px.Stats.{Error, AccCfg, is_empty}
use a5px.Layouts.{AccLayout}
use a5px.Store.{CellStore, empty_store}
use a5px.Store.Merge.{merge_cell_from, merge_cell_from_mapped, bands_from}
use a5px.Rows.{Fault, failed, panic, code}

unfoldable pub partition_of : ℕ → ℕ → ℕ
partition_of cell log2p =
    if log2p == 0 then 0 else cell * 0x9E3779B97F4A7C15 % u64_mod / 2 ^ (64 - log2p)

-- The counting sort: `start[p + 1] += 1` for each partition of a cell,
pub count_parts : List ℕ → List ℕ → List ℕ
count_parts [] start = start
count_parts (p ∷ part) start = count_parts part (modify start (p + 1) (λ x. x + 1))

-- `start[p + 1] += start[p]`, for the `n` partitions from `p` on,
pub add_up : ℕ → ℕ → List ℕ → List ℕ
add_up zero p start = start
add_up (suc n) p start = add_up n (p + 1) (modify start (p + 1) (λ x. x + get_or start p 0))

-- and each cell's place: `order[fill[p]] = i; fill[p] += 1`.
pub place_cells : ℕ → List ℕ → List ℕ → List ℕ → List ℕ
place_cells i [] order fill = order
place_cells i (p ∷ part) order fill =
    place_cells (i + 1) part (set order (get_or fill p 0) (i % 2 ^ 32)) (modify fill p (λ x. x + 1))

-- `start` and `order` of a stripe's cells, given their partitions.
unfoldable pub counting_sort : ℕ → List ℕ → List ℕ × List ℕ
unfolding count_parts add_up place_cells
counting_sort np part =
    let start = add_up np 0 (count_parts part (replicate (np + 1) 0)) in
    (start, place_cells 0 part (replicate (length part) 0) start)

pub record PartitionedStore (A L : Type 0) : Type 0 where
  pub parts : List (CellStore A L)
  pub log2p : ℕ

module _ {A L : Type 0} ⦃f : F64 A⦄ ⦃l : AccLayout A L⦄ where
  unfoldable pub new_parts : ℕ → ℕ → AccCfg → PartitionedStore A L
  unfolding empty_store
  new_parts log2p n_out cfg = record {
    parts = replicate (2 ^ log2p) (empty_store n_out cfg);
    log2p = log2p;
  }

  -- `merge` of a stripe's cell `i`.
  pub merge_cell :
      CellStore A L → Option (List ℕ) → CellStore A L → ℕ → Result Error (CellStore A L)
  unfolding merge_cell_from merge_cell_from_mapped
  merge_cell delta none guard i = merge_cell_from guard delta i
  merge_cell delta (some m) guard i = merge_cell_from_mapped guard delta i m

  -- The cells of one group, under one lock.
  pub merge_group :
      CellStore A L → Option (List ℕ) → CellStore A L → List ℕ → Result Error (CellStore A L)
  merge_group delta slots guard [] = ok guard
  merge_group delta slots guard (i ∷ idxs) =
      merge_cell delta slots guard i >>= λ guard'. merge_group delta slots guard' idxs

  -- The groups, from partition `p` on, and the stores from there on.
  pub merge_groups :
      CellStore A L
      → Option (List ℕ)
      → List ℕ
      → List ℕ
      → ℕ
      → List (CellStore A L)
      → Result Error (List (CellStore A L))
  unfolding merge_group
  merge_groups delta slots start order p [] = ok []
  merge_groups delta slots start order p (guard ∷ parts) =
      let idxs = take (get_or start (p + 1) 0 - get_or start p 0) (drop (get_or start p 0) order) in
      let merged = if is_empty idxs then ok guard else merge_group delta slots guard idxs in
      merged >>= λ guard'.
      merge_groups delta slots start order (p + 1) parts >>= λ parts'. ok (guard' ∷ parts')

  -- The first store takes every cell, where there is one partition.
  abbrev pub merge_all_in_first :
      CellStore A L → Option (List ℕ) → List (CellStore A L) → Result Error (List (CellStore A L))
  merge_all_in_first delta slots [] = ok []
  merge_all_in_first delta slots (guard ∷ parts) =
      merge_group delta slots guard (bands_from 0 (length delta.cells)) >>= λ guard'.
      ok (guard' ∷ parts)

  unfoldable pub absorb :
      PartitionedStore A L → CellStore A L → Option (List ℕ) → Result Error (PartitionedStore A L)
  unfolding merge_group merge_groups
  absorb self delta slots =
      let part = map (λ c. partition_of c self.log2p % 2 ^ 8) delta.cells in
      let sorted = counting_sort (2 ^ self.log2p) part in
      if is_empty delta.cells
      then ok self
      else if self.log2p == 0
      then (merge_all_in_first delta slots self.parts >>= λ ps. ok (record self { parts = ps }))
      else (merge_groups delta slots sorted.0 sorted.1 0 self.parts >>= λ ps.
          ok (record self { parts = ps }))

  -- The stores, once every stripe is in.
  unfoldable pub into_parts : PartitionedStore A L → List (CellStore A L)
  into_parts self = self.parts
