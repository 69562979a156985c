-- ===== src/Parts/Returns.antt =====
-- `absorb` of src/rust/src/read.rs returns where no class weights are kept.
use a5px.Prelude.{
  ℕ, ◌+◌, ◌-◌, ◌%◌, ◌^◌, ◌≡◌, refl, ◌∙◌, ap, List, [], ◌∷◌, false, Option, none, some, ◌==◌, length,
  map, take, drop, get_or, All, ok, Bool-cases, inl, inr,
}
use a5px.Float.{F64}
use a5px.Stats.{is_empty}
use a5px.Layouts.{AccLayout}
use a5px.Store.{CellStore}
use a5px.Store.Merge.{bands_from}
use a5px.Store.Merge.Returns.{merge_cell_from-in, merge_cell_from_mapped-in}
use a5px.Parts.{
  PartitionedStore, partition_of, counting_sort, merge_cell, merge_group, merge_groups, absorb,
  merge_all_in_first,
}

module _ {A L : Type 0} ⦃f : F64 A⦄ ⦃l : AccLayout A L⦄ where
  merge_cell-in :
      (delta : CellStore A L) (slots : Option (List ℕ)) (guard : CellStore A L) (i : ℕ)
      → guard.cfg.has_cat ≡ false
      → (guard' : CellStore A L) × (merge_cell delta slots guard i ≡ ok guard')
        × (guard'.cfg ≡ guard.cfg)
  unfolding merge_cell
  merge_cell-in delta none guard i off = merge_cell_from-in guard delta i off
  merge_cell-in delta (some m) guard i off = merge_cell_from_mapped-in guard delta i m off

  merge_group-in :
      (delta : CellStore A L) (slots : Option (List ℕ)) (guard : CellStore A L) (idxs : List ℕ)
      → guard.cfg.has_cat ≡ false
      → (guard' : CellStore A L) × (merge_group delta slots guard idxs ≡ ok guard')
  unfolding merge_group
  merge_group-in delta slots guard [] off = (guard, refl)
  merge_group-in delta slots guard (i ∷ idxs) off =
      let (next, merged, cfg) = merge_cell-in delta slots guard i off in
      let (last, rest) = merge_group-in delta slots next idxs (ap (λ c. c.has_cat) cfg ∙ off) in
      (last, rw merged rest)

  merge_groups-in :
      (delta : CellStore A L) (slots : Option (List ℕ)) (start order : List ℕ) (p : ℕ)
      (parts : List (CellStore A L))
      → All (λ s. s.cfg.has_cat ≡ false) parts
      → (parts' : List (CellStore A L)) × (merge_groups delta slots start order p parts ≡ ok parts')
  unfolding merge_groups
  merge_groups-in delta slots start order p [] off = ([], refl)
  merge_groups-in delta slots start order p (guard ∷ parts) (here, there) =
      let idxs = take (get_or start (p + 1) 0 - get_or start p 0) (drop (get_or start p 0) order) in
      let (rest, ran) = merge_groups-in delta slots start order (p + 1) parts there in
      elim (Bool-cases (is_empty idxs)) [
        | inl none_here ↦ (guard ∷ rest, rw (none_here, ran) refl)
        | inr some_here ↦
            let (next, merged) = merge_group-in delta slots guard idxs here in
            (next ∷ rest, rw (some_here, merged, ran) refl)
      ]

  first-in :
      (delta : CellStore A L) (slots : Option (List ℕ)) (parts : List (CellStore A L))
      → All (λ s. s.cfg.has_cat ≡ false) parts
      → (parts' : List (CellStore A L)) × (merge_all_in_first delta slots parts ≡ ok parts')
  first-in delta slots [] off = ([], refl)
  first-in delta slots (guard ∷ parts) (here, there) =
      let (next, merged) =
        merge_group-in delta slots guard (bands_from 0 (length delta.cells)) here in
      (next ∷ parts, rw merged refl)

  pub absorb-in :
      (self : PartitionedStore A L) (delta : CellStore A L) (slots : Option (List ℕ))
      → All (λ s. s.cfg.has_cat ≡ false) self.parts
      → (self' : PartitionedStore A L) × (absorb self delta slots ≡ ok self')
  unfolding absorb
  absorb-in self delta slots off = elim (Bool-cases (is_empty delta.cells)) [
    | inl none_new ↦ (self, rw none_new refl)
    | inr some_new ↦ elim (Bool-cases (self.log2p == 0)) [
      | inl one ↦
          let (ps, ran) = first-in delta slots self.parts off in
          (record self { parts = ps }, simp (some_new, one, ran) refl)
      | inr several ↦
          let part = map (λ c. partition_of c self.log2p % 2 ^ 8) delta.cells in
          let sorted = counting_sort (2 ^ self.log2p) part in
          let (ps, ran) = merge_groups-in delta slots sorted.0 sorted.1 0 self.parts off in
          (record self { parts = ps }, simp (some_new, several, ran) refl)
    ]
  ]
