-- ===== src/Examples/Merges.antt =====
-- The partitioned store at concrete inputs.
use a5px.Prelude.{true, false, ℕ, ◌≡◌, refl, [], ◌∷◌, none, arith, ok, ◌>>=◌}
use a5px.Examples.Numbers.{small}
use a5px.Stats.{AccCfg}
use a5px.Layouts.{AccMean, acc_mean}
use a5px.Store.{CellStore}
use a5px.Parts.{PartitionedStore, new_parts, absorb, counting_sort}
use a5px.Parts.Absorb.{each_part, partitions, absorb-each_part}

-- Cells in partitions 1, 0, 1 and 3 of 4.
sorted : counting_sort 4 (1 ∷ 0 ∷ 1 ∷ 3 ∷ []) ≡ (0 ∷ 1 ∷ 3 ∷ 3 ∷ 4 ∷ [], 1 ∷ 0 ∷ 2 ∷ 3 ∷ [])
unfolding counting_sort
sorted = refl

abbrev cfg : AccCfg
cfg = record { has_cont = true; has_cat = false; has_npix = false }

abbrev delta : CellStore ℕ (AccMean ℕ)
delta = record {
  n_out = 1;
  cfg = cfg;
  index = (70, 0) ∷ (80, 1) ∷ [];
  cells = 70 ∷ 80 ∷ [];
  cont = record { total = 9 } ∷ record { total = 8 } ∷ [];
  cat = [];
  npix = [];
  bw = 5 ∷ 2 ∷ [];
  split = [];
}

parts : PartitionedStore ℕ (AccMean ℕ)
parts = new_parts 1 1 cfg

absorb-each_part_example : absorb parts delta none ≡ (
    each_part delta none (partitions 1 (70 ∷ 80 ∷ [])) 0 parts.parts >>= λ ps.
    ok (record parts { parts = ps }))
unfolding parts new_parts
absorb-each_part_example = absorb-each_part delta none parts (omega arith) refl (omega arith)
