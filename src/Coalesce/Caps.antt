-- ===== src/Coalesce/Caps.antt =====
-- The requests of `coalesce`: in offset order, and no longer than the limit but for an input range
-- that is longer itself.
use a5px.Prelude.{
  ℕ, ◌-◌, ◌≤◌, ◌≡◌, ◌⊎◌, sym, ◌∙◌, List, [], ◌∷◌, some, arith, All, leb, ◌&&◌, ◌==◌, max, get_elem?,
  length, set, replicate, Bool-cases, inl, inr, sub_u64,
}
use a5px.Coalesce.{
  Range, indexed, sort_by_start, merge_one, place_of, merge_all, coalesce, saturating_add,
}
use a5px.Coalesce.Sort.{IsSorted, All-sort, All-indexed, sort-IsSorted}
use a5px.Coalesce.Cover.{
  IsProper, StartsBy, merge_one-StartsBy, at_old, at_old-lt, get_elem?-reverse,
}

abbrev Falling : List Range → Type 0
Falling [] = Unit
Falling (q ∷ reqs) = All (λ p. p.start ≤ q.start) reqs × Falling reqs

Falling-at_old :
    (reqs : List Range) (k l : ℕ) (p q : Range)
    → Falling reqs
    → k ≤ l
    → at_old reqs k ≡ some p
    → at_old reqs l ≡ some q
    → p.start ≤ q.start
Falling-at_old [] k l p q f h a b = absurd (ground arith)
Falling-at_old (r ∷ reqs) k l p q f h a b =
    ground
      (arith, Falling-at_old reqs k l p q f.1 h, at_old-lt (r ∷ reqs) l q b, below reqs k p f.0)
  where
    below :
        (reqs : List Range) (k : ℕ) (p : Range)
        → All (λ p. p.start ≤ r.start) reqs
        → at_old reqs k ≡ some p
        → p.start ≤ r.start
    below [] k p f a = absurd (ground arith)
    below (s ∷ reqs) k p f a = ground (arith, below reqs k p f.1)

module _ (gap limit : ℕ) (P : Range → Type 0) where
  -- A request is proper, and within the limit or one of the inputs.
  abbrev Fine : Range → Type 0
  Fine q = IsProper q × ((q.end - q.start ≤ limit) ⊎ P q)

  merge_one-Fine :
      (reqs : List Range) (r : Range)
      → IsProper r
      → P r
      → StartsBy reqs r
      → Falling reqs
      → All Fine reqs
      → All Fine (merge_one gap limit reqs r) × Falling (merge_one gap limit reqs r)
  unfolding merge_one
  merge_one-Fine [] r h p s f a = (((h, inr p), tt), (tt, tt))
  merge_one-Fine (last ∷ reqs) r h p s f a =
      elim (Bool-cases (
        leb r.start (saturating_add last.end gap)
        && leb (sub_u64 (max r.end last.end) last.start) limit)) [
          | inr new ↦ rw new (((h, inr p), a), ((s, falls reqs f.0), f))
          | inl merged ↦
              let short : max last.end r.end - last.start ≤ limit =
                ground (arith, a.0.0.forward, a.0.0.fits, h.forward, h.fits) in
              let proper : IsProper (record last { end = max last.end r.end }) =
                omega (arith, a.0.0.forward, a.0.0.fits, h.forward, h.fits) in
              rw merged (((proper, inl short), a.1), f)
        ]
    where
      falls :
          (reqs : List Range)
          → All (λ p. p.start ≤ last.start) reqs
          → All (λ p. p.start ≤ r.start) reqs
      falls [] f = tt
      falls (q ∷ reqs) f = (omega arith, falls reqs f.1)

  merge_all-Fine :
      (reqs : List Range) (place : List (ℕ × ℕ)) (m : List (ℕ × Range))
      → IsSorted m
      → All (λ e. IsProper e.1 × P e.1 × StartsBy reqs e.1) m
      → Falling reqs
      → All Fine reqs
      → let out = (merge_all gap limit reqs place m).0 in All Fine out × Falling out
  unfolding merge_all
  merge_all-Fine reqs place [] sorted h f a = (a, f)
  merge_all-Fine reqs place ((i, r) ∷ m) sorted h f a =
      let reqs' = merge_one gap limit reqs r in
      let (fine, falling) = merge_one-Fine reqs r h.0.0 h.0.1 h.0.2 f a in
      merge_all-Fine reqs' (set place i (place_of reqs' r)) m sorted.1 (later m sorted.0 h.1)
        falling fine
    where
      later :
          (m : List (ℕ × Range))
          → All (λ f. r.start ≤ f.1.start) m
          → All (λ e. IsProper e.1 × P e.1 × StartsBy reqs e.1) m
          → All (λ e. IsProper e.1 × P e.1 × StartsBy (merge_one gap limit reqs r) e.1) m
      later [] l a = tt
      later (e ∷ m) l a =
          ((a.0.0, a.0.1, merge_one-StartsBy gap limit reqs r e.1 h.0.2 l.0), later m l.1 a.1)

  Fine-at_old :
      (reqs : List Range) (k : ℕ) (q : Range) → All Fine reqs → at_old reqs k ≡ some q → Fine q
  Fine-at_old [] k q a h = absurd (ground arith)
  Fine-at_old (r ∷ reqs) k q a h = elim (Bool-cases (k == length reqs)) [
    | inl top ↦ let same : r ≡ q = ground arith in rw (← same) a.0
    | inr deep ↦ Fine-at_old reqs k q a.1 (ground arith)
  ]

module _ (gap limit : ℕ) (ranges : List Range) where
  abbrev Input : Range → Type 0
  Input q = (i : ℕ) × (get_elem? ranges i ≡ some q)

  -- Where all input ranges are unreversed and 64-bit, the requests come in offset order, and each is at
  -- most `limit` long or one of the inputs.
  pub coalesce-limit :
      ((i : ℕ) (r : Range) → get_elem? ranges i ≡ some r → IsProper r)
      → let reqs = (coalesce ranges gap limit).0 in
        ((k : ℕ) (q : Range)
          → get_elem? reqs k ≡ some q
          → (q.end - q.start ≤ limit) ⊎ ((i : ℕ) × (get_elem? ranges i ≡ some q)))
        × ((k l : ℕ) (p q : Range)
            → k ≤ l
            → get_elem? reqs k ≡ some p
            → get_elem? reqs l ≡ some q
            → p.start ≤ q.start)
  unfolding coalesce
  coalesce-limit proper =
      let zero_place : ℕ × ℕ = (0, 0) in
      let start = replicate (length ranges) zero_place in
      let items = sort_by_start (indexed 0 ranges) in
      let ready =
        All-sort (λ e. IsProper e.1 × Input e.1 × Unit {0}) (indexed 0 ranges)
          (All-indexed (λ e. IsProper e.1 × Input e.1 × Unit {0}) 0 ranges
            λ j s e. (proper j s e, (j, e), tt)) in
      let (fine, falling) =
        merge_all-Fine gap limit Input [] start items (sort-IsSorted (indexed 0 ranges)) ready tt
          tt in
      let reqs = (merge_all gap limit [] start items).0 in
      (
        λ k q h. (Fine-at_old gap limit Input reqs k q fine (sym (get_elem?-reverse reqs k) ∙ h)).1,
        λ k l p q h a b.
            Falling-at_old reqs k l p q falling h (sym (get_elem?-reverse reqs k) ∙ a)
              (sym (get_elem?-reverse reqs l) ∙ b),
      )
