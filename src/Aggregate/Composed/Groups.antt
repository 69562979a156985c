-- ===== src/Aggregate/Composed/Groups.antt =====
-- The loop over groups in `composite_output` of src/rust/src/read.rs: each row's values are written from
-- all its references, and only there.
use a5px.Prelude.{
  ℕ, zero, suc, ◌+◌, ◌-◌, ◌*◌, ◌≤◌, ◌<◌, ◌≡◌, ◌≢◌, ◌⊎◌, refl, sym, ◌∙◌, ap, arith, List, [], ◌∷◌,
  Bool, false, some, ltb, ◌==◌, length, get_elem?, All, inl, inr, Bool-cases,
}
use a5px.Prelude.Sort.{Pairs, All-map, filter}
use a5px.Float.{F64}
use a5px.Stats.{Stat}
use a5px.Layouts.{AccLayout}
use a5px.Composite.{Reducer, Total, reduce}
use a5px.Aggregate.{Aggregate, write_bands}
use a5px.Aggregate.Writes.{length-write_bands, write_bands_other, write_bands_at}
use a5px.Aggregate.Composed.{Entry, same_row, past_row, group_values, write_stats, write_groups}

-- The references of a row.
abbrev pub in_row : ℕ → Entry → Bool
in_row o r = r.0 == o

abbrev pub ByRow : List Entry → Type 0
ByRow refs = Pairs (λ a b. a.0 ≤ b.0) refs

filter-later : (o : ℕ) (refs : List Entry) → All (λ r. o < r.0) refs → filter (in_row o) refs ≡ []
filter-later o [] h = refl
filter-later o (r ∷ refs) (here, there) =
    let other : (r.0 == o) ≡ false = ground (arith, here) in rw other (filter-later o refs there)

filter-same_row :
    (o : ℕ) (refs : List Entry)
    → All (λ r. o ≤ r.0) refs
    → ByRow refs
    → (filter (in_row o) refs ≡ same_row o refs) × (filter (in_row o) (past_row o refs) ≡ [])
filter-same_row o [] h sorted = (refl, refl)
filter-same_row o (r ∷ refs) (here, there) (all, sorted) = elim (Bool-cases (r.0 == o)) [
  | inl same ↦ let (a, b) = filter-same_row o refs there sorted in rw same (ap (◌∷◌ r) a, b)
  | inr other ↦
      let low : o < r.0 = ground (arith, other, here) in
      let nothing = filter-later o refs (All-map refs (λ x h. omega (arith, low, h)) all) in
      rw other (nothing, rw other nothing)
]

filter-past_row :
    (o row : ℕ) (refs : List Entry)
    → o ≢ row
    → filter (in_row o) (past_row row refs) ≡ filter (in_row o) refs
filter-past_row o row [] h = refl
filter-past_row o row (r ∷ refs) h = elim (Bool-cases (r.0 == row)) [
  | inr other ↦ rw other refl
  | inl same ↦
      let elsewhere : (r.0 == o) ≡ false = ground (arith, same, h) in
      rw (same, elsewhere) (filter-past_row o row refs h)
]

past_row-ByRow : (o : ℕ) (refs : List Entry) → ByRow refs → ByRow (past_row o refs)
past_row-ByRow o [] h = tt
past_row-ByRow o (r ∷ refs) (all, sorted) = elim (Bool-cases (r.0 == o)) [
  | inl same ↦ rw same (past_row-ByRow o refs sorted)
  | inr other ↦ rw other (all, sorted)
]

length-past_row : (o : ℕ) (refs : List Entry) → length (past_row o refs) ≤ length refs
length-past_row o [] = omega arith
length-past_row o (r ∷ refs) = ground (arith, length-past_row o refs)

-- Rows of `n` bands do not meet.
rows_apart :
    (o row n b : ℕ) → o ≢ row → b < n → (o * n + b < row * n + 0) ⊎ (row * n + 0 + n ≤ o * n + b)
rows_apart o row n b ne lo = elim (Bool-cases (ltb o row)) [
  | inl before ↦
      let h : o < row = ground (arith, before) in
      let c = row - suc o in
      let e : row ≡ suc o + c = omega (arith, h) in
      let d : (suc o + c) * n ≡ o * n + n + c * n = grind arith in
      let whole : row * n ≡ o * n + n + c * n = ap (λ x. x * n) e ∙ d in
      inl (omega (arith, whole, lo))
  | inr after ↦
      let h : row < o = ground (arith, after, ne) in
      let c = o - suc row in
      let e : o ≡ suc row + c = omega (arith, h) in
      let d : (suc row + c) * n ≡ row * n + n + c * n = grind arith in
      let whole : o * n ≡ row * n + n + c * n = ap (λ x. x * n) e ∙ d in inr (omega (arith, whole))
]

module _ {A L : Type 0} ⦃f : F64 A⦄ ⦃l : AccLayout A L⦄ (t : Total A) (red : Reducer)
    (aggs : List (Aggregate A L)) (n_out : ℕ) where
  abbrev row_value : Stat → List Entry → ℕ → A
  row_value stat group b = reduce t red (group_values aggs stat b group)

  -- The loop for one stat.
  write_one : ℕ → Stat → List Entry → List A → List A
  write_one zero stat refs values = values
  write_one (suc n) stat [] values = values
  write_one (suc n) stat (r ∷ refs) values = write_one n stat (past_row r.0 refs) (
      write_bands (r.0 * n_out) 0 n_out
        (λ b. reduce t red (group_values aggs stat b (r ∷ same_row r.0 refs))) values)

  write_stats-one :
      (o : ℕ) (group : List Entry) (stats : List Stat) (flat : List (List A)) (s : ℕ) (stat : Stat)
      (values : List A)
      → get_elem? stats s ≡ some stat
      → get_elem? flat s ≡ some values
      → get_elem? (write_stats t red aggs n_out o group stats flat) s
        ≡ some (
            write_bands
              (o * n_out)
              0
              n_out
              (λ b. reduce t red (group_values aggs stat b group))
              values)
  unfolding write_stats
  write_stats-one o group [] flat s stat values h k = absurd (ground (arith, h))
  write_stats-one o group (x ∷ stats) [] s stat values h k = absurd (ground (arith, k))
  write_stats-one o group (x ∷ stats) (y ∷ flat) zero stat values h k =
      let e : x ≡ stat = ground (arith, h) in
      let d : y ≡ values = ground (arith, k) in rw (e, d) refl
  write_stats-one o group (x ∷ stats) (y ∷ flat) (suc s) stat values h k =
      write_stats-one o group stats flat s stat values h k

  write_groups-one :
      (n : ℕ) (stats : List Stat) (refs : List Entry) (flat : List (List A)) (s : ℕ) (stat : Stat)
      (values : List A)
      → get_elem? stats s ≡ some stat
      → get_elem? flat s ≡ some values
      → get_elem? (write_groups t red aggs n_out n stats refs flat) s
        ≡ some (write_one n stat refs values)
  unfolding write_groups write_one
  write_groups-one zero stats refs flat s stat values h k = k
  write_groups-one (suc n) stats [] flat s stat values h k = k
  write_groups-one (suc n) stats (r ∷ refs) flat s stat values h k =
      write_groups-one n stats (past_row r.0 refs)
        (write_stats t red aggs n_out r.0 (r ∷ same_row r.0 refs) stats flat) s stat
        (write_bands (r.0 * n_out) 0 n_out
          (λ b. reduce t red (group_values aggs stat b (r ∷ same_row r.0 refs))) values)
        h (write_stats-one r.0 (r ∷ same_row r.0 refs) stats flat s stat values h k)

  -- A row without references is left as it was.
  write_one_other :
      (n : ℕ) (stat : Stat) (refs : List Entry) (values : List A) (o b : ℕ)
      → b < n_out
      → filter (in_row o) refs ≡ []
      → get_elem? (write_one n stat refs values) (o * n_out + b) ≡ get_elem? values (o * n_out + b)
  unfolding write_one
  write_one_other zero stat refs values o b lo h = refl
  write_one_other (suc n) stat [] values o b lo h = refl
  write_one_other (suc n) stat (r ∷ refs) values o b lo h = elim (Bool-cases (r.0 == o)) [
    | inl same ↦ absurd (ground (arith, rw same at h))
    | inr other ↦
        let ne : o ≢ r.0 = ground (arith, other) in
        let rest : filter (in_row o) refs ≡ [] = rw other at h in
        let v = row_value stat (r ∷ same_row r.0 refs) in
        write_one_other n stat (past_row r.0 refs) (write_bands (r.0 * n_out) 0 n_out v values) o b
          lo (filter-past_row o r.0 refs ne ∙ rest)
        ∙ write_bands_other (r.0 * n_out) 0 n_out v values (o * n_out + b)
            (rows_apart o r.0 n_out b ne lo)
  ]

  write_one_at :
      (n : ℕ) (stat : Stat) (refs : List Entry) (values : List A) (o b : ℕ) (g : Entry)
      (group : List Entry)
      → b < n_out
      → length refs ≤ n
      → ByRow refs
      → o * n_out + n_out ≤ length values
      → filter (in_row o) refs ≡ g ∷ group
      → get_elem? (write_one n stat refs values) (o * n_out + b)
        ≡ some (reduce t red (group_values aggs stat b (g ∷ group)))
  unfolding write_one
  write_one_at n stat [] values o b g group lo fuel sorted room h = absurd (ground (arith, h))
  write_one_at zero stat (r ∷ refs) values o b g group lo fuel sorted room h =
      absurd (omega (arith, fuel))
  write_one_at (suc n) stat (r ∷ refs) values o b g group lo fuel (all, sorted) room h =
      let v = row_value stat (r ∷ same_row r.0 refs) in
      let values' = write_bands (r.0 * n_out) 0 n_out v values in
      elim (Bool-cases (r.0 == o)) [
        | inl same ↦
            let e : r.0 ≡ o = ground (arith, same) in
            let (own, past) = filter-same_row r.0 refs all sorted in
            let refs_all : filter (in_row o) (r ∷ refs) ≡ r ∷ filter (in_row o) refs =
              rw same refl in
            let whole : r ∷ same_row r.0 refs ≡ g ∷ group =
              ap (◌∷◌ r) (sym own ∙ ap (λ row. filter (in_row row) refs) e) ∙ (sym refs_all ∙ h) in
            rw (← e) (
              write_one_other n stat (past_row r.0 refs) values' r.0 b lo past
              ∙ (write_bands_at (r.0 * n_out) 0 n_out v values b (omega arith) (omega (arith, lo))
                    (rw e (omega (arith, room)))
                  ∙ ap (λ x. some (row_value stat x b)) whole))
        | inr other ↦
            let ne : o ≢ r.0 = ground (arith, other) in
            let rest : filter (in_row o) refs ≡ g ∷ group = rw other at h in
            write_one_at n stat (past_row r.0 refs) values' o b g group lo
              (omega (arith, fuel, length-past_row r.0 refs)) (past_row-ByRow r.0 refs sorted)
              (rw (length-write_bands (r.0 * n_out) 0 n_out v values) room)
              (filter-past_row o r.0 refs ne ∙ rest)
      ]

  -- A row with references is written from all of them, in their order.
  pub write_groups_at :
      (stats : List Stat) (refs : List Entry) (flat : List (List A)) (s : ℕ) (stat : Stat)
      (values : List A) (o b : ℕ) (g : Entry) (group : List Entry)
      → get_elem? stats s ≡ some stat
      → get_elem? flat s ≡ some values
      → b < n_out
      → ByRow refs
      → o * n_out + n_out ≤ length values
      → filter (in_row o) refs ≡ g ∷ group
      → (out : List A) × ((get_elem? (write_groups t red aggs n_out (length refs) stats refs flat) s
            ≡ some out)
          × (get_elem? out (o * n_out + b) ≡ some (row_value stat (g ∷ group) b)))
  write_groups_at stats refs flat s stat values o b g group at there lo sorted room h = (
    write_one (length refs) stat refs values,
    (
      write_groups-one (length refs) stats refs flat s stat values at there,
      write_one_at (length refs) stat refs values o b g group lo (omega arith) sorted room h,
    ),
  )
