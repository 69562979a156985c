-- ===== src/Aggregate/Composed/Cells.antt =====
-- The cells of `composite_output` in src/rust/src/read.rs, ascending and each once, and the rows that its
-- index gives.
use a5px.Prelude.{
  ℕ, zero, suc, ◌+◌, ◌%◌, ◌^◌, ◌≤◌, ◌<◌, ◌≡◌, ◌≢◌, refl, sym, ◌∙◌, ap, arith, List, [], ◌∷◌, true,
  false, some, leb, ◌==◌, length, get_elem?, All, All-get_elem?, map, inl, inr, Bool-cases,
  ℕ_discrete,
}
use a5px.Prelude.Map.{find}
use a5px.Prelude.Sort.{In, Pairs, All-map, filter, sort_by, sort_by-All, sort_by-In, sort_by-Pairs}
use a5px.Aggregate.Rows.{Ascending}
use a5px.Aggregate.Composed.{Entry, dedup_from, dedup, numbered, row_or, index_of}
use a5px.Aggregate.Composed.Groups.{in_row}

dedup_from-Ascending :
    (c : ℕ) (cells : List ℕ)
    → All (λ d. c ≤ d) cells
    → Pairs (λ a b. a ≤ b) cells
    → Ascending (dedup_from c cells) × All (λ d. c ≤ d) (dedup_from c cells)
dedup_from-Ascending c [] h sorted = ((tt, tt), (omega arith, tt))
dedup_from-Ascending c (d ∷ cells) (here, there) (all, sorted) =
    let (up, low) = dedup_from-Ascending d cells all sorted in
    elim (Bool-cases (c == d)) [
      | inl same ↦ let e : c ≡ d = ground (arith, same) in rw (same, e) (up, low)
      | inr other ↦
          let less : c < d = ground (arith, other, here) in
          rw other (
            (All-map (dedup_from d cells) (λ x h. omega (arith, less, h)) low, up),
            (omega arith, All-map (dedup_from d cells) (λ x h. omega (arith, less, h)) low),
          )
    ]

dedup_from-In : (x c : ℕ) (cells : List ℕ) → In x (c ∷ cells) → In x (dedup_from c cells)
dedup_from-In x c [] h = h
dedup_from-In x c (d ∷ cells) (zero, h) = elim (Bool-cases (c == d)) [
  | inl same ↦
      let e : c ≡ d = ground (arith, same) in
      rw same (dedup_from-In x d cells (0, ap some (sym e) ∙ h))
  | inr other ↦ rw other (0, h)
]
dedup_from-In x c (d ∷ cells) (suc i, h) =
    let (j, k) = dedup_from-In x d cells (i, h) in
    elim (Bool-cases (c == d)) [ inl same ↦ rw same (j, k) | inr other ↦ rw other (suc j, k) ]

dedup_from-All :
    (P : ℕ → Type 0) (c : ℕ) (cells : List ℕ) → P c → All P cells → All P (dedup_from c cells)
dedup_from-All P c [] p h = (p, tt)
dedup_from-All P c (d ∷ cells) p (here, there) =
    let rest = dedup_from-All P d cells here there in
    elim (Bool-cases (c == d)) [ inl same ↦ rw same rest | inr other ↦ rw other (p, rest) ]

dedup-Ascending : (cells : List ℕ) → Pairs (λ a b. a ≤ b) cells → Ascending (dedup cells)
dedup-Ascending [] h = tt
dedup-Ascending (c ∷ cells) (all, sorted) = (dedup_from-Ascending c cells all sorted).0

dedup-In : (x : ℕ) (cells : List ℕ) → In x cells → In x (dedup cells)
dedup-In x [] h = h
dedup-In x (c ∷ cells) h = dedup_from-In x c cells h

dedup-All : (P : ℕ → Type 0) (cells : List ℕ) → All P cells → All P (dedup cells)
dedup-All P [] h = tt
dedup-All P (c ∷ cells) (here, there) = dedup_from-All P c cells here there

-- Sorted and deduplicated: ascending, with each of the cells and no other.
pub distinct-Ascending : (cells : List ℕ) → Ascending (dedup (sort_by leb cells))
distinct-Ascending cells = dedup-Ascending (sort_by leb cells) (
    sort_by-Pairs leb (λ a b. a ≤ b) (λ a b h. ground (arith, h)) (λ a b h. ground (arith, h))
      (λ a b c h k. omega (arith, h, k)) cells)

pub distinct-In : (x : ℕ) (cells : List ℕ) → In x cells → In x (dedup (sort_by leb cells))
distinct-In x cells h = dedup-In x (sort_by leb cells) (sort_by-In leb x cells h)

pub distinct-All :
    (P : ℕ → Type 0) (cells : List ℕ) → All P cells → All P (dedup (sort_by leb cells))
distinct-All P cells h = dedup-All P (sort_by leb cells) (sort_by-All leb P cells h)

find-numbered :
    (cells : List ℕ) (from o c : ℕ)
    → Ascending cells
    → from + length cells ≤ 2 ^ 32
    → get_elem? cells o ≡ some c
    → find ℕ_discrete c (numbered from cells) ≡ some (from + o)
find-numbered [] from o c up few h = absurd (ground (arith, h))
find-numbered (d ∷ cells) from zero c (all, up) few h =
    let e : d ≡ c = ground (arith, h) in
    let low : from % 2 ^ 32 ≡ from = omega arith in
    let z : from + 0 ≡ from = omega arith in ground (arith, e, low, z)
find-numbered (d ∷ cells) from (suc o) c (all, up) few h =
    let less : d < c = All-get_elem? (λ x. d < x) cells o c all h in
    let rest = find-numbered cells (from + 1) o c up (omega arith) h in
    let z : from + suc o ≡ from + 1 + o = omega arith in
    let ne : d ≢ c = omega (arith, less) in rw z (ground (arith, ne, rest))

-- The index gives each cell its row.
pub index_of-row :
    (cells : List ℕ) (o c : ℕ)
    → Ascending cells
    → length cells ≤ 2 ^ 32
    → get_elem? cells o ≡ some c
    → index_of cells c ≡ o
index_of-row cells o c up few h =
    let z : 0 + o ≡ o = omega arith in
    ap row_or (find-numbered cells 0 o c up (omega (arith, few)) h) ∙ z

-- An entry with the row of its cell.
abbrev pub with_row : List ℕ → Entry → Entry
with_row cells e = (index_of cells e.0, e.1)

-- The references of a row are the entries of its cell.
pub filter-with_row :
    (cells : List ℕ) (o c : ℕ) (es : List Entry)
    → Ascending cells
    → length cells ≤ 2 ^ 32
    → get_elem? cells o ≡ some c
    → All (λ e. In e.0 cells) es
    → filter (in_row o) (map (with_row cells) es) ≡ map (with_row cells) (filter (in_row c) es)
filter-with_row cells o c [] up few at all = refl
filter-with_row cells o c (e ∷ es) up few at ((i, h), all) =
    let rest = filter-with_row cells o c es up few at all in
    let own : index_of cells e.0 ≡ i = index_of-row cells i e.0 up few h in
    elim (Bool-cases (e.0 == c)) [
      | inl same ↦
          let s : e.0 ≡ c = ground (arith, same) in
          let there : index_of cells e.0 ≡ o =
            ap (index_of cells) s ∙ index_of-row cells o c up few at in
          let hit : (index_of cells e.0 == o) ≡ true = ground (arith, there) in
          rw (same, hit) (ap (◌∷◌ (with_row cells e)) rest)
      | inr other ↦
          let ne : index_of cells e.0 ≢ o = λ q. differs i h own other q in
          let miss : (index_of cells e.0 == o) ≡ false = ground (arith, ne) in rw (other, miss) rest
    ]
  where
    differs :
        (i : ℕ)
        → get_elem? cells i ≡ some e.0
        → index_of cells e.0 ≡ i
        → (e.0 == c) ≡ false
        → index_of cells e.0 ≡ o
        → ⊥
    differs i h own other q =
        let same : i ≡ o = sym own ∙ q in
        let both : get_elem? cells o ≡ some e.0 = rw same at h in ground (arith, both, at, other)
