-- ===== src/Aggregate/Composed/Reduced.antt =====
-- `composite_output` of src/rust/src/read.rs: a cell's value is the reduction of its sources' values.
use a5px.Prelude.{
  ℕ, zero, suc, ◌+◌, ◌*◌, ◌%◌, ◌^◌, ◌≤◌, ◌<◌, ◌≡◌, refl, sym, ◌∙◌, ap, arith, List, [], ◌∷◌, ◌++◌,
  Bool, true, some, length, get_elem?, replicate, All, map, length-replicate, get_elem?-map,
  get_elem?-length, Bool-cases, inl, inr, ◌⊎◌, false, ◌-◌,
}
use a5px.Prelude.Sort.{
  In, All-In, Pairs, All-map, Pairs-map, Pairs-to_map, All-to_map, filter, sort_by-Pairs,
  filter-sort_by,
}
use a5px.Float.{F64}
use a5px.Stats.{Stat}
use a5px.Layouts.{AccLayout}
use a5px.Composite.{Reducer, Total, reduce}
use a5px.Aggregate.{Keyed, keyed, Aggregate}
use a5px.Aggregate.Rows.{
  cell_of, Small, Placed, keyed-Placed, keyed-In, All-append, In-append_left, In-append_right,
  Ascending, part_cells, IsRows,
}
use a5px.Aggregate.Composed.{
  Entry, low_ref, all_sources, output_cells, entries, refs_of, source_at, entry_value, counts,
  group_values, composite_output,
}
use a5px.Aggregate.Composed.Groups.{in_row, ByRow, write_groups_at}
use a5px.Aggregate.Composed.Cells.{
  distinct-Ascending, distinct-In, distinct-All, with_row, filter-with_row,
}

get_elem?-some :
    {A : Type 0} (xs : List A) (i : ℕ) → i < length xs → (x : A) × (get_elem? xs i ≡ some x)
get_elem?-some [] i h = absurd (omega (arith, h))
get_elem?-some (x ∷ xs) zero h = (x, refl)
get_elem?-some (x ∷ xs) (suc i) h = get_elem?-some xs i (omega (arith, h))

filter-In :
    {A : Type 0} (p : A → Bool) (xs : List A) (x : A)
    → In x xs
    → p x ≡ true
    → (g : A) × ((group : List A) × (filter p xs ≡ g ∷ group))
filter-In p [] x (i, h) e = absurd (ground (arith, h))
filter-In p (y ∷ xs) x (zero, h) e =
    let s : y ≡ x = ground (arith, h) in
    let hit : p y ≡ true = ap p s ∙ e in (y, (filter p xs, rw hit refl))
filter-In p (y ∷ xs) x (suc i, h) e =
    let (g, (group, q)) = filter-In p xs x (i, h) e in
    elim (Bool-cases (p y)) [
      | inl hit ↦ (y, (filter p xs, rw hit refl))
      | inr miss ↦ (g, (group, rw miss q))
    ]

In-append_cases : (x : ℕ) (xs ys : List ℕ) → In x (xs ++ ys) → In x xs ⊎ In x ys
In-append_cases x [] ys h = inr h
In-append_cases x (y ∷ xs) ys (zero, h) = inl (zero, h)
In-append_cases x (y ∷ xs) ys (suc i, h) = elim (In-append_cases x xs ys (i, h)) [
  | inl (j, k) ↦ inl (suc j, k)
  | inr there ↦ inr there
]

row_room : (o m n : ℕ) → o < m → o * n + n ≤ m * n
row_room o m n h =
    let c = m - suc o in
    let e : m ≡ suc o + c = omega (arith, h) in
    let d : (suc o + c) * n ≡ o * n + n + c * n = grind arith in
    let whole : m * n ≡ o * n + n + c * n = ap (λ x. x * n) e ∙ d in omega (arith, whole)

-- From values with weights, those that count: of positive weight, not NaN and not infinite.
pub data Counted {A : Type 0} ⦃f : F64 A⦄ : List (A × A) → List (A × A) → Type 0 where
  no_values : Counted [] []
  counted :
      {v w : A} {given kept : List (A × A)}
      → f.lt f.naught w ≡ true
      → f.is_nan v ≡ false
      → f.eq v f.infinity ≡ false
      → f.eq v f.neg_infinity ≡ false
      → Counted given kept
      → Counted ((v, w) ∷ given) ((v, w) ∷ kept)
  weightless :
      {v w : A} {given kept : List (A × A)}
      → f.lt f.naught w ≡ false
      → Counted given kept
      → Counted ((v, w) ∷ given) kept
  not_finite :
      {v w : A} {given kept : List (A × A)}
      → (f.is_nan v ≡ true) ⊎ (f.eq v f.infinity ≡ true) ⊎ (f.eq v f.neg_infinity ≡ true)
      → Counted given kept
      → Counted ((v, w) ∷ given) kept

filter-Counted : {A : Type 0} ⦃f : F64 A⦄ (vals : List (A × A)) → Counted vals (filter counts vals)
filter-Counted [] = no_values
filter-Counted ⦃f⦄ ((v, w) ∷ vals) =
    let rest = filter-Counted vals in
    elim (Bool-cases (f.lt f.naught w)) [
      | inr light ↦ rw light (weightless light rest)
      | inl heavy ↦ elim (Bool-cases (f.is_nan v)) [
        | inl nan ↦ rw (heavy, nan) (not_finite (inl nan) rest)
        | inr number ↦ elim (Bool-cases (f.eq v f.infinity)) [
          | inl high ↦ rw (heavy, number, high) (not_finite (inr (inl high)) rest)
          | inr below ↦ elim (Bool-cases (f.eq v f.neg_infinity)) [
            | inl low ↦ rw (heavy, number, below, low) (not_finite (inr (inr low)) rest)
            | inr above ↦ rw (heavy, number, below, above) (counted heavy number below above rest)
          ]
        ]
      ]
    ]

-- The cells of source `s`.
abbrev tagged : ℕ → List Keyed → List Entry
tagged s ks = map (λ k. (k.0, (s, k.1))) ks

-- Entries of source `s`, then of later ones.
tagged-Pairs :
    (s : ℕ) (ks : List Keyed) (es : List Entry)
    → All (λ e. s ≤ e.1.0) es
    → Pairs (λ a b. a.1.0 ≤ b.1.0) es
    → Pairs (λ a b. a.1.0 ≤ b.1.0) (tagged s ks ++ es) × All (λ e. s ≤ e.1.0) (tagged s ks ++ es)
tagged-Pairs s [] es later sorted = (sorted, later)
tagged-Pairs s (k ∷ ks) es later sorted =
    let (rest, low) = tagged-Pairs s ks es later sorted in ((low, rest), (omega arith, low))

module _ {A L : Type 0} ⦃f : F64 A⦄ ⦃l : AccLayout A L⦄ where
  -- An aggregate as it is made from its partitions.
  pub record IsSource (agg : Aggregate A L) : Type 0 where
    pub all_rows : IsRows agg.parts agg
    pub few : length (part_cells agg.parts) ≤ 2 ^ 32
    pub small : Small (part_cells agg.parts)

  entries-Pairs :
      (s : ℕ) (aggs : List (Aggregate A L))
      → s + length aggs ≤ 2 ^ 32
      → Pairs (λ a b. a.1.0 ≤ b.1.0) (entries s aggs) × All (λ e. s ≤ e.1.0) (entries s aggs)
  entries-Pairs s [] few = (tt, tt)
  entries-Pairs s (agg ∷ aggs) few =
      let (sorted, later) = entries-Pairs (s + 1) aggs (omega arith) in
      let e : s % 2 ^ 32 ≡ s = omega arith in
      rw e (
        tagged-Pairs s (keyed 0 (part_cells agg.parts)) (entries (s + 1) aggs)
          (All-map (entries (s + 1) aggs) (λ x h. omega (arith, h)) later) sorted)

  keyed-cells-In :
      (agg : Aggregate A L)
      → IsSource agg
      → All (λ k. In k.0 agg.cells) (keyed 0 (part_cells agg.parts))
  keyed-cells-In agg src =
      let cells = part_cells agg.parts in
      let at : (k : Keyed) → Placed cells 0 k → In k.0 agg.cells =
        λ k h. let (r, (c, o)) = src.all_rows.rows k.1.0 k.1.1 k.0 (plain k h) in (r, c) in
      All-map (keyed 0 cells) at (keyed-Placed 0 cells (omega (arith, src.few)) src.small)
    where
      plain :
          (k : Keyed)
          → Placed (part_cells agg.parts) 0 k
          → cell_of (part_cells agg.parts) k.1.0 k.1.1 ≡ some k.0
      plain k h = let z : k.1.0 - 0 ≡ k.1.0 = omega arith in rw z at h.1

  entries-In :
      (s : ℕ) (aggs : List (Aggregate A L))
      → All IsSource aggs
      → All (λ e. In e.0 (all_sources aggs)) (entries s aggs)
  entries-In s [] src = tt
  entries-In s (agg ∷ aggs) (here, there) =
      let own = keyed-cells-In agg here in
      All-append (λ e. In e.0 (all_sources (agg ∷ aggs)))
        (tagged (s % 2 ^ 32) (keyed 0 (part_cells agg.parts))) (entries (s + 1) aggs)
        (All-to_map (λ e. In e.0 (all_sources (agg ∷ aggs))) (λ k. (k.0, (s % 2 ^ 32, k.1)))
          (keyed 0 (part_cells agg.parts))
          (All-map (keyed 0 (part_cells agg.parts))
            (λ k h. In-append_left k.0 agg.cells (all_sources aggs) h) own))
        (All-map (entries (s + 1) aggs) (λ e h. In-append_right e.0 agg.cells (all_sources aggs) h)
          (entries-In (s + 1) aggs there))

  -- Each cell of a source has an entry.
  all_sources-entry :
      (s : ℕ) (aggs : List (Aggregate A L)) (c : ℕ)
      → All IsSource aggs
      → In c (all_sources aggs)
      → (e : Entry) × (In e (entries s aggs) × (e.0 ≡ c))
  all_sources-entry s [] c src (i, h) = absurd (ground (arith, h))
  all_sources-entry s (agg ∷ aggs) c (here, there) h =
      let own = tagged (s % 2 ^ 32) (keyed 0 (part_cells agg.parts)) in
      elim (In-append_cases c agg.cells (all_sources aggs) h) [
        | inr later ↦
            let (e, (at, same)) = all_sources-entry (s + 1) aggs c there later in
            (e, (In-append_right e own (entries (s + 1) aggs) at, same))
        | inl (r, at) ↦
            let inside : r < length agg.order =
              omega (arith, here.all_rows.as_many, get_elem?-length agg.cells r c at) in
            let ((p, i), place) = get_elem?-some agg.order r inside in
            let cell = here.all_rows.places r c p i at place in
            let (j, k) =
              keyed-In 0 p i c (part_cells agg.parts) (omega (arith, here.few)) here.small cell in
            let e : Entry = (c, (s % 2 ^ 32, (0 + p, i))) in
            (
              e,
              (
                In-append_left e own (entries (s + 1) aggs) (
                  j,
                  get_elem?-map (λ k. (k.0, (s % 2 ^ 32, k.1))) (keyed 0 (part_cells agg.parts)) j
                      (c, (0 + p, i)) k,
                ),
                refl,
              ),
            )
      ]

  -- What the sources have for a cell, in their order: its value and its weight in each.
  abbrev pub source_values : List (Aggregate A L) → Stat → ℕ → ℕ → List (A × A)
  source_values aggs stat b c =
      map (λ e. entry_value aggs stat b e.1) (filter (in_row c) (entries 0 aggs))

  map-with_row :
      (aggs : List (Aggregate A L)) (stat : Stat) (b : ℕ) (cells : List ℕ) (es : List Entry)
      → map (λ r. entry_value aggs stat b r.1) (map (with_row cells) es)
        ≡ map (λ r. entry_value aggs stat b r.1) es
  map-with_row aggs stat b cells [] = refl
  map-with_row aggs stat b cells (e ∷ es) =
      ap (◌∷◌ (entry_value aggs stat b e.1)) (map-with_row aggs stat b cells es)

  group_values-with_row :
      (aggs : List (Aggregate A L)) (stat : Stat) (b : ℕ) (cells : List ℕ) (es : List Entry)
      → group_values aggs stat b (map (with_row cells) es)
        ≡ filter counts (map (λ e. entry_value aggs stat b e.1) es)
  unfolding group_values
  group_values-with_row aggs stat b cells es =
      ap (filter counts) (map-with_row aggs stat b cells es)

  refs_of-ByRow : (aggs : List (Aggregate A L)) → ByRow (refs_of aggs)
  refs_of-ByRow aggs =
      sort_by-Pairs low_ref (λ a b. a.0 ≤ b.0) (λ a b h. ground (arith, h))
        (λ a b h. ground (arith, h)) (λ a b c h k. omega (arith, h, k))
        (map (with_row (output_cells aggs)) (entries 0 aggs))

  -- The references of a row are its cell's entries, in the order of the sources.
  refs_of-row :
      (aggs : List (Aggregate A L)) (o c : ℕ)
      → length aggs ≤ 2 ^ 32
      → All IsSource aggs
      → length (output_cells aggs) ≤ 2 ^ 32
      → get_elem? (output_cells aggs) o ≡ some c
      → filter (in_row o) (refs_of aggs)
        ≡ map (with_row (output_cells aggs)) (filter (in_row c) (entries 0 aggs))
  refs_of-row aggs o c many src few at =
      let cells = output_cells aggs in
      let es = entries 0 aggs in
      let inside =
        All-map es (λ e h. distinct-In e.0 (all_sources aggs) h) (entries-In 0 aggs src) in
      let order : Pairs (λ a b. in_row o a ≡ true → in_row o b ≡ true → low_ref a b ≡ true)
          (map (with_row cells) es) =
        Pairs-to_map (λ a b. in_row o a ≡ true → in_row o b ≡ true → low_ref a b ≡ true)
          (with_row cells) es
          (Pairs-map es (λ a b h p q. ground (arith, h, p, q))
            (entries-Pairs 0 aggs (omega (arith, many))).0) in
      filter-sort_by low_ref (in_row o) (map (with_row cells) es) order
      ∙ filter-with_row cells o c es (distinct-Ascending (all_sources aggs)) few at inside

  module _ (t : Total A) (red : Reducer) where
    -- The output's cells are those of the sources, ascending by id; and each cell of a source has a row,
    -- where the value of a statistic and a band is the reduction of the values that the sources have for the
    -- cell, in their order, those of no weight and those that are not finite left out. The sources are made
    -- from their partitions, and there are at most 2^32 of them, and of the output's cells.
    pub composite_output-reduced :
        (aggs : List (Aggregate A L)) (s : ℕ) (stat : Stat) (c b : ℕ)
        → length aggs ≤ 2 ^ 32
        → All IsSource aggs
        → length (output_cells aggs) ≤ 2 ^ 32
        → get_elem? (source_at aggs 0).stats s ≡ some stat
        → b < (source_at aggs 0).n_out
        → In c (all_sources aggs)
        → let out = composite_output t aggs red in
          (Ascending out.cells × All (λ d. In d (all_sources aggs)) out.cells)
          × ((o : ℕ) × ((get_elem? out.cells o ≡ some c)
                × ((kept : List (A × A)) × (Counted (source_values aggs stat b c) kept
                      × ((values : List A) × ((get_elem? out.flat_values s ≡ some values)
                            × (get_elem? values (o * out.n_bands + b)
                                ≡ some (reduce t red kept))))))))
    unfolding composite_output
    composite_output-reduced aggs s stat c b many src few at lo there =
        let n = (source_at aggs 0).n_out in
        let cells = output_cells aggs in
        let (o, row) = distinct-In c (all_sources aggs) there in
        let (e, (entry, same)) = all_sources-entry 0 aggs c src there in
        let (g, (group, own)) =
          filter-In (in_row c) (entries 0 aggs) e entry (ground (arith, same)) in
        let found : filter (in_row o) (refs_of aggs)
            ≡ with_row cells g ∷ map (with_row cells) group =
          refs_of-row aggs o c many src few row ∙ ap (map (with_row cells)) own in
        let blank = replicate (length cells * n) f.nan in
        let size = length-replicate (length cells * n) f.nan in
        let inside = get_elem?-length cells o c row in
        let (values, (column, value)) =
          write_groups_at t red aggs n (source_at aggs 0).stats (refs_of aggs)
            (map (λ _. blank) (source_at aggs 0).stats) s stat blank o b (with_row cells g)
            (map (with_row cells) group) at
            (get_elem?-map (λ _. blank) (source_at aggs 0).stats s stat at) lo (refs_of-ByRow aggs)
            (omega (arith, row_room o (length cells) n inside, size)) found in
        let regroup : group_values aggs stat b (map (with_row cells) (g ∷ group))
            ≡ filter counts (source_values aggs stat b c) =
          group_values-with_row aggs stat b cells (g ∷ group)
          ∙ ap (λ es. filter counts (map (λ e. entry_value aggs stat b e.1) es)) (sym own) in
        (
          (
            distinct-Ascending (all_sources aggs),
            distinct-All (λ d. In d (all_sources aggs)) (all_sources aggs)
                (All-In (all_sources aggs)),
          ),
          (
            o,
            (
              row,
              (
                filter counts (source_values aggs stat b c),
                (
                  filter-Counted (source_values aggs stat b c),
                  (values, (column, value ∙ ap (λ x. some (reduce t red x)) regroup)),
                ),
              ),
            ),
          ),
        )
