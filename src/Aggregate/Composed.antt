-- ===== src/Aggregate/Composed.antt =====
-- `composite_output` of src/rust/src/read.rs: per-source values of each cell, reduced.
pub mod Groups
pub mod Cells
pub mod Reduced
use a5px.Prelude.{
  ℕ, zero, suc, ◌+◌, ◌*◌, ◌%◌, ◌^◌, List, [], ◌∷◌, ◌++◌, Bool, true, false, not, ◌&&◌, ◌||◌, Option,
  none, some, if◌then◌else◌, ltb, leb, ◌==◌, length, replicate, get_or, map, ℕ_discrete,
}
use a5px.Prelude.Map.{find}
use a5px.Prelude.Sort.{sort_by, filter}
use a5px.Float.{F64, is_finite}
use a5px.Stats.{Stat, as_str}
use a5px.Layouts.{AccLayout}
use a5px.Store.Merge.{value_and_weight}
use a5px.Composite.{Reducer, Total, reduce}
use a5px.Aggregate.{keyed, Aggregate, from_parts, part_at, Output, write_bands}

-- An id, or the row that it has, with a source, a partition of it and an index there.
abbrev pub Entry : Type 0
Entry = ℕ × (ℕ × (ℕ × ℕ))

-- `Vec::dedup`, on equal ids
abbrev pub dedup_from : ℕ → List ℕ → List ℕ
dedup_from c [] = c ∷ []
dedup_from c (d ∷ cells) = let rest = dedup_from d cells in if c == d then rest else c ∷ rest

abbrev pub dedup : List ℕ → List ℕ
dedup [] = []
dedup (c ∷ cells) = dedup_from c cells

-- `cells.iter().enumerate().map(|(o, &c)| (c, o as u32))`
abbrev pub numbered : ℕ → List ℕ → List (ℕ × ℕ)
numbered o [] = []
numbered o (c ∷ cells) = (c, o % 2 ^ 32) ∷ numbered (o + 1) cells

-- `index[&cell]`, which panics where there is none.
abbrev pub row_or : Option ℕ → ℕ
row_or none = 0
row_or (some o) = o

abbrev pub index_of : List ℕ → ℕ → ℕ
index_of cells c = row_or (find ℕ_discrete c (numbered 0 cells))

-- By row, then by source.
abbrev pub low_ref : Entry → Entry → Bool
low_ref a b = ltb a.0 b.0 || (a.0 == b.0 && leb a.1.0 b.1.0)

-- `refs[k..end]` past its first, and `refs[end..]`.
abbrev pub same_row : ℕ → List Entry → List Entry
same_row o [] = []
same_row o (r ∷ refs) = let rest = same_row o refs in if r.0 == o then r ∷ rest else []

abbrev pub past_row : ℕ → List Entry → List Entry
past_row o [] = []
past_row o (r ∷ refs) = let rest = past_row o refs in if r.0 == o then rest else r ∷ refs

module _ {A : Type 0} ⦃f : F64 A⦄ where
  abbrev pub counts : A × A → Bool
  counts (v, w) = f.lt f.naught w && is_finite v

module _ {A L : Type 0} ⦃f : F64 A⦄ ⦃l : AccLayout A L⦄ where
  abbrev pub all_sources : List (Aggregate A L) → List ℕ
  all_sources [] = []
  all_sources (agg ∷ aggs) = agg.cells ++ all_sources aggs

  -- The output's cells.
  abbrev pub output_cells : List (Aggregate A L) → List ℕ
  output_cells aggs = dedup (sort_by leb (all_sources aggs))

  -- Every source cell, from source `s` on, with its id.
  abbrev pub entries : ℕ → List (Aggregate A L) → List Entry
  entries s [] = []
  entries s (agg ∷ aggs) =
      map (λ k. (k.0, (s % 2 ^ 32, k.1))) (keyed 0 (map (λ p. p.cells) agg.parts))
      ++ entries (s + 1) aggs

  -- The same with its row.
  abbrev pub refs_of : List (Aggregate A L) → List Entry
  refs_of aggs =
      sort_by low_ref (map (λ e. (index_of (output_cells aggs) e.0, e.1)) (entries 0 aggs))

  unfoldable pub source_at : List (Aggregate A L) → ℕ → Aggregate A L
  unfolding from_parts
  source_at aggs s = get_or aggs s (from_parts [] 0 [] [] false false)

  unfoldable pub entry_value : List (Aggregate A L) → Stat → ℕ → ℕ × (ℕ × ℕ) → A × A
  unfolding source_at value_and_weight
  entry_value aggs stat b (s, (pi, i)) =
      value_and_weight (part_at (source_at aggs s).parts pi) stat i b

  unfoldable pub group_values : List (Aggregate A L) → Stat → ℕ → List Entry → List (A × A)
  unfolding entry_value
  group_values aggs stat b group = filter counts (map (λ r. entry_value aggs stat b r.1) group)

module _ {A L : Type 0} ⦃f : F64 A⦄ ⦃l : AccLayout A L⦄ (t : Total A) (red : Reducer)
    (aggs : List (Aggregate A L)) (n_out : ℕ) where
  -- One group: every stat's and band's values, reduced.
  pub write_stats : ℕ → List Entry → List Stat → List (List A) → List (List A)
  unfolding reduce group_values
  write_stats o group [] flat = flat
  write_stats o group (stat ∷ stats) [] = []
  write_stats o group (stat ∷ stats) (values ∷ flat) =
      write_bands (o * n_out) 0 n_out (λ b. reduce t red (group_values aggs stat b group)) values
      ∷ write_stats o group stats flat

  -- The loop over the groups; each round takes one reference at least.
  pub write_groups : ℕ → List Stat → List Entry → List (List A) → List (List A)
  unfolding write_stats
  write_groups zero stats refs flat = flat
  write_groups (suc n) stats [] flat = flat
  write_groups (suc n) stats (r ∷ refs) flat =
      write_groups n stats (past_row r.0 refs) (write_stats r.0 (r ∷ same_row r.0 refs) stats flat)

module _ {A L : Type 0} ⦃f : F64 A⦄ ⦃l : AccLayout A L⦄ (t : Total A) where
  unfoldable pub composite_output : List (Aggregate A L) → Reducer → Output A
  unfolding write_groups source_at
  composite_output aggs red =
      let n_out = (source_at aggs 0).n_out in
      let stats = (source_at aggs 0).stats in
      let cells = output_cells aggs in
      let refs = refs_of aggs in
      record {
        cells = cells;
        flat_values =
            write_groups t red aggs n_out (length refs) stats refs
              (map (λ _. replicate (length cells * n_out) f.nan) stats);
        n_bands = n_out;
        band_names = (source_at aggs 0).band_names;
        stats = map as_str stats;
        fractions = none;
        npix = none;
      }
