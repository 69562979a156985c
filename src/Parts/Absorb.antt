-- ===== src/Parts/Absorb.antt =====
-- `absorb` gives each store the stripe's cells of its partition, in the order of the stripe.
use a5px.Prelude.{
  ℕ, zero, suc, ◌+◌, ◌%◌, ◌^◌, ◌≤◌, ◌<◌, ◌≡◌, refl, ap, arith, List, [], ◌∷◌, true, Option,
  if◌then◌else◌, ◌==◌, length, map, All, Result, ok, ◌>>=◌, Bool-cases, inl, inr,
}
use a5px.Float.{F64}
use a5px.Stats.{Error, is_empty}
use a5px.Layouts.{AccLayout}
use a5px.Store.{CellStore}
use a5px.Store.Merge.{bands_from}
use a5px.Parts.{
  PartitionedStore, partition_of, counting_sort, merge_group, merge_groups, absorb,
  merge_all_in_first,
}
use a5px.Parts.Groups.{cells_in}
use a5px.Parts.Starts.{counting_sort-cells_in}

partition_of-lt :
    (cell log2p : ℕ)
    → log2p ≤ 8
    → (partition_of cell log2p < 2 ^ log2p) × (partition_of cell log2p < 256)
unfolding partition_of
partition_of-lt cell zero h = ground arith
partition_of-lt cell (suc zero) h = ground arith
partition_of-lt cell (suc (suc zero)) h = ground arith
partition_of-lt cell (suc (suc (suc zero))) h = ground arith
partition_of-lt cell (suc (suc (suc (suc zero)))) h = ground arith
partition_of-lt cell (suc (suc (suc (suc (suc zero))))) h = ground arith
partition_of-lt cell (suc (suc (suc (suc (suc (suc zero)))))) h = ground arith
partition_of-lt cell (suc (suc (suc (suc (suc (suc (suc zero))))))) h = ground arith
partition_of-lt cell (suc (suc (suc (suc (suc (suc (suc (suc zero)))))))) h = ground arith
partition_of-lt cell (suc (suc (suc (suc (suc (suc (suc (suc (suc n))))))))) h =
    absurd (omega arith)

is_empty-nil : (xs : List ℕ) → is_empty xs ≡ true → xs ≡ []
is_empty-nil [] h = refl
is_empty-nil (x ∷ xs) h = cc

-- The partition of each cell.
abbrev pub partitions : ℕ → List ℕ → List ℕ
partitions log2p = map (λ c. partition_of c log2p)

byte-partitions :
    (log2p : ℕ) (cells : List ℕ)
    → log2p ≤ 8
    → map (λ c. partition_of c log2p % 2 ^ 8) cells ≡ partitions log2p cells
byte-partitions log2p [] h = refl
byte-partitions log2p (c ∷ cells) h =
    let small : partition_of c log2p % 2 ^ 8 ≡ partition_of c log2p =
      omega (arith, (partition_of-lt c log2p h).1) in
    rw (small, byte-partitions log2p cells h) refl

All-partitions :
    (log2p : ℕ) (cells : List ℕ) → log2p ≤ 8 → All (λ p. p < 2 ^ log2p) (partitions log2p cells)
All-partitions log2p [] h = tt
All-partitions log2p (c ∷ cells) h = ((partition_of-lt c log2p h).0, All-partitions log2p cells h)

length-partitions : (log2p : ℕ) (cells : List ℕ) → length (partitions log2p cells) ≡ length cells
length-partitions log2p [] = refl
length-partitions log2p (c ∷ cells) = ap suc (length-partitions log2p cells)

cells_in-one :
    (i : ℕ) (cells : List ℕ) → cells_in 0 i (partitions 0 cells) ≡ bands_from i (length cells)
unfolding partition_of
cells_in-one i [] = refl
cells_in-one i (c ∷ cells) = ap (◌∷◌ i) (cells_in-one (i + 1) cells)

module _ {A L : Type 0} ⦃f : F64 A⦄ ⦃l : AccLayout A L⦄ (delta : CellStore A L)
    (slots : Option (List ℕ)) where
  -- Each store from partition `p` on, with the stripe's cells of its partition merged in order.
  abbrev pub each_part : List ℕ → ℕ → List (CellStore A L) → Result Error (List (CellStore A L))
  each_part part p [] = ok []
  each_part part p (guard ∷ parts) = merge_group delta slots guard (cells_in p 0 part) >>= λ guard'.
      each_part part (p + 1) parts >>= λ parts'. ok (guard' ∷ parts')

  merge_group-skip :
      (guard : CellStore A L) (idxs : List ℕ)
      → (if is_empty idxs then ok guard else merge_group delta slots guard idxs)
        ≡ merge_group delta slots guard idxs
  unfolding merge_group
  merge_group-skip guard [] = refl
  merge_group-skip guard (i ∷ idxs) = refl

  merge_groups-each_part :
      (np p : ℕ) (part : List ℕ) (parts : List (CellStore A L))
      → length part ≤ 2 ^ 32
      → All (λ q. q < np) part
      → p + length parts ≡ np
      → let sorted = counting_sort np part in
        merge_groups delta slots sorted.0 sorted.1 p parts ≡ each_part part p parts
  unfolding merge_groups
  merge_groups-each_part np p part [] small below h = refl
  merge_groups-each_part np p part (guard ∷ parts) small below h =
      let group = counting_sort-cells_in np part small below p (omega arith) in
      let rest = merge_groups-each_part np (p + 1) part parts small below (omega arith) in
      rw group (rw (merge_group-skip guard (cells_in p 0 part), rest) refl)

  each_part-nil : (p : ℕ) (parts : List (CellStore A L)) → each_part [] p parts ≡ ok parts
  unfolding merge_group
  each_part-nil p [] = refl
  each_part-nil p (guard ∷ parts) = rw (each_part-nil (p + 1) parts) refl

  first_store :
      (parts : List (CellStore A L))
      → length parts ≡ 1
      → merge_all_in_first delta slots parts ≡ each_part (partitions 0 delta.cells) 0 parts
  first_store [] h = absurd (omega arith)
  first_store (guard ∷ []) h = rw (cells_in-one 0 delta.cells) refl
  first_store (guard ∷ next ∷ parts) h = absurd (omega arith)

  -- Where there are 2^log2p stores, log2p at most 8, and the stripe has at most 2^32 cells, `absorb`
  -- leaves each store as it is when the stripe's cells of its partition, and no others, are merged
  -- into it one by one in the order of the stripe; and it fails where one of these merges fails.
  pub absorb-each_part :
      (self : PartitionedStore A L)
      → self.log2p ≤ 8
      → length self.parts ≡ 2 ^ self.log2p
      → length delta.cells ≤ 2 ^ 32
      → absorb self delta slots ≡ (
          each_part (partitions self.log2p delta.cells) 0 self.parts >>= λ ps.
          ok (record self { parts = ps }))
  unfolding absorb
  absorb-each_part self fits sized small =
      let part = partitions self.log2p delta.cells in
      elim (Bool-cases (is_empty delta.cells)) [
        | inl none_new ↦
            let e = is_empty-nil delta.cells none_new in rw e (rw (each_part-nil 0 self.parts) refl)
        | inr some_new ↦ elim (Bool-cases (self.log2p == 0)) [
          | inl one ↦
              let e : self.log2p ≡ 0 = ground arith in
              let first : merge_all_in_first delta slots self.parts ≡ each_part part 0 self.parts =
                rw e (first_store self.parts (rw e at sized)) in
              rw (some_new, one, first) refl
          | inr several ↦
              let groups =
                merge_groups-each_part (2 ^ self.log2p) 0 part self.parts
                  (omega (arith, length-partitions self.log2p delta.cells))
                  (All-partitions self.log2p delta.cells fits) (omega arith) in
              rw (some_new, several, byte-partitions self.log2p delta.cells fits, groups) refl
        ]
      ]
