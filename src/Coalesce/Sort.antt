-- ===== src/Coalesce/Sort.antt =====
-- The sort of `coalesce`: a rearrangement of the inputs in rising order of their starts.
use a5px.Prelude.{
  ℕ, ◌+◌, ◌≤◌, ◌≡◌, ◌≢◌, refl, sym, List, [], ◌∷◌, zero, suc, some, arith, All, leb, get_elem?,
  Bool-cases, inl, inr,
}
use a5px.Coalesce.{Range, indexed, insert_by_start, sort_by_start}

abbrev pub IsSorted : List (ℕ × Range) → Type 0
IsSorted [] = Unit
IsSorted (e ∷ m) = All (λ f. e.1.start ≤ f.1.start) m × IsSorted m

-- No index twice.
abbrev pub IsIndexed : List (ℕ × Range) → Type 0
IsIndexed [] = Unit
IsIndexed (e ∷ m) = All (λ f. f.0 ≢ e.0) m × IsIndexed m

module _ (P : ℕ × Range → Type 0) where
  pub All-insert :
      (e : ℕ × Range) (m : List (ℕ × Range)) → P e → All P m → All P (insert_by_start e m)
  All-insert e [] p h = (p, tt)
  All-insert e (f ∷ m) p h = elim (Bool-cases (leb e.1.start f.1.start)) [
    | inl le ↦ rw le (p, h)
    | inr gt ↦ rw gt (h.0, All-insert e m p h.1)
  ]

  All-of_insert :
      (e : ℕ × Range) (m : List (ℕ × Range)) → All P (insert_by_start e m) → P e × All P m
  All-of_insert e [] h = h
  All-of_insert e (f ∷ m) h = elim (Bool-cases (leb e.1.start f.1.start)) [
    | inl le ↦ rw le at h
    | inr gt ↦
        let h' : P f × All P (insert_by_start e m) = rw gt at h in
        let (p, q) = All-of_insert e m h'.1 in (p, (h'.0, q))
  ]

  pub All-sort : (m : List (ℕ × Range)) → All P m → All P (sort_by_start m)
  All-sort [] h = tt
  All-sort (e ∷ m) h = All-insert e (sort_by_start m) h.0 (All-sort m h.1)

  pub All-of_sort : (m : List (ℕ × Range)) → All P (sort_by_start m) → All P m
  All-of_sort [] h = tt
  All-of_sort (e ∷ m) h = let (p, q) = All-of_insert e (sort_by_start m) h in (p, All-of_sort m q)

  pub All-indexed :
      (i : ℕ) (rs : List Range)
      → ((j : ℕ) (r : Range) → get_elem? rs j ≡ some r → P (i + j, r))
      → All P (indexed i rs)
  All-indexed i [] h = tt
  All-indexed i (r ∷ rs) h =
      let here : i + 0 ≡ i = omega arith in
      (
        rw here at (h 0 r refl),
        All-indexed (i + 1) rs
            λ j s e. let there : i + suc j ≡ i + 1 + j = omega arith in rw there at (h (suc j) s e),
      )

  pub All-of_indexed :
      (i j : ℕ) (rs : List Range) (r : Range)
      → All P (indexed i rs)
      → get_elem? rs j ≡ some r
      → P (i + j, r)
  All-of_indexed i j [] r h e = absurd (ground arith)
  All-of_indexed i zero (s ∷ rs) r h e =
      let here : i + 0 ≡ i = omega arith in let same : s ≡ r = ground arith in rw (here, ← same) h.0
  All-of_indexed i (suc j) (s ∷ rs) r h e =
      let there : i + suc j ≡ i + 1 + j = omega arith in
      rw there (All-of_indexed (i + 1) j rs r h.1 e)

All-mono :
    {P Q : ℕ × Range → Type 0} (m : List (ℕ × Range))
    → ((e : ℕ × Range) → P e → Q e)
    → All P m
    → All Q m
All-mono [] f h = tt
All-mono (e ∷ m) f h = (f e h.0, All-mono m f h.1)

insert-IsSorted :
    (e : ℕ × Range) (m : List (ℕ × Range)) → IsSorted m → IsSorted (insert_by_start e m)
insert-IsSorted e [] h = (tt, tt)
insert-IsSorted e (f ∷ m) h = elim (Bool-cases (leb e.1.start f.1.start)) [
  | inl le ↦ rw le ((ground arith, All-mono m (λ g l. ground arith) h.0), h)
  | inr gt ↦
      rw gt
        (All-insert (λ g. f.1.start ≤ g.1.start) e m (ground arith) h.0, insert-IsSorted e m h.1)
]

pub sort-IsSorted : (m : List (ℕ × Range)) → IsSorted (sort_by_start m)
sort-IsSorted [] = tt
sort-IsSorted (e ∷ m) = insert-IsSorted e (sort_by_start m) (sort-IsSorted m)

insert-IsIndexed :
    (e : ℕ × Range) (m : List (ℕ × Range))
    → All (λ f. f.0 ≢ e.0) m
    → IsIndexed m
    → IsIndexed (insert_by_start e m)
insert-IsIndexed e [] a h = (tt, tt)
insert-IsIndexed e (f ∷ m) a h = elim (Bool-cases (leb e.1.start f.1.start)) [
  | inl le ↦ rw le (a, h)
  | inr gt ↦
      rw gt (All-insert (λ g. g.0 ≢ f.0) e m (λ q. a.0 (sym q)) h.0, insert-IsIndexed e m a.1 h.1)
]

sort-IsIndexed : (m : List (ℕ × Range)) → IsIndexed m → IsIndexed (sort_by_start m)
sort-IsIndexed [] h = tt
sort-IsIndexed (e ∷ m) h =
    insert-IsIndexed e (sort_by_start m) (All-sort (λ f. f.0 ≢ e.0) m h.0) (sort-IsIndexed m h.1)

indexed-IsIndexed : (i : ℕ) (rs : List Range) → IsIndexed (indexed i rs)
indexed-IsIndexed i [] = tt
indexed-IsIndexed i (r ∷ rs) =
    (All-indexed (λ f. f.0 ≢ i) (i + 1) rs (λ j s e. omega arith), indexed-IsIndexed (i + 1) rs)

pub sort-indexed-IsIndexed : (rs : List Range) → IsIndexed (sort_by_start (indexed 0 rs))
sort-indexed-IsIndexed rs = sort-IsIndexed (indexed 0 rs) (indexed-IsIndexed 0 rs)
