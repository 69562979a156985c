-- ===== src/Parts/Starts.antt =====
-- The counting sort's places: where the cells of each partition start, and what stands there.
use a5px.Prelude.{
  ℕ, zero, suc, ◌+◌, ◌-◌, ◌^◌, ◌≤◌, ◌<◌, ◌≡◌, ◌≢◌, refl, ◌∙◌, ap, arith, List, [], ◌∷◌,
  if◌then◌else◌, ltb, ◌==◌, length, get_or, modify, take, drop, replicate, All, Bool-cases, inl,
  inr, length-modify, get_or-modify_self, get_or-modify_ne, get_or-replicate, length-replicate,
}
use a5px.Parts.{count_parts, add_up, counting_sort}
use a5px.Parts.Groups.{cells_in, many, before, Placing, place_cells_lem, before-le}

count_parts_lem :
    (np : ℕ) (part start : List ℕ)
    → All (λ p. p < np) part
    → length start ≡ np + 1
    → (length (count_parts part start) ≡ np + 1)
      × (get_or (count_parts part start) 0 0 ≡ get_or start 0 0)
      × ((q : ℕ) → get_or (count_parts part start) (q + 1) 0 ≡ get_or start (q + 1) 0 + many q part)
unfolding count_parts
count_parts_lem np [] start below size = (size, refl, λ q. omega arith)
count_parts_lem np (p ∷ part) start below size =
    let start' = modify start (p + 1) (λ x. x + 1) in
    let (size', first, rest) =
      count_parts_lem np part start' below.1 (length-modify start (p + 1) (λ x. x + 1) ∙ size) in
    (
      size',
      first ∙ get_or-modify_ne start (p + 1) 0 (λ x. x + 1) 0 (omega arith),
      λ q. rest q ∙ elim (Bool-cases (p == q)) [
        | inl same ↦
            let e : p ≡ q = ground arith in
            let one_more : get_or start' (p + 1) 0 ≡ get_or start (p + 1) 0 + 1 =
              get_or-modify_self start (p + 1) (λ x. x + 1) 0 (omega (arith, below.0)) in
            rw same (
              omega (
                arith,
                one_more,
                ap (λ (k : ℕ). get_or start' (k + 1) 0) e,
                ap (λ (k : ℕ). get_or start (k + 1) 0) e,
              ))
        | inr other ↦
            let ne : p ≢ q = ground arith in
            rw other
              (omega (arith, get_or-modify_ne start (p + 1) (q + 1) (λ x. x + 1) 0 (omega arith)))
      ],
    )

add_up_lem :
    (part : List ℕ) (np n p : ℕ) (start : List ℕ)
    → p + n ≡ np
    → length start ≡ np + 1
    → ((q : ℕ) → q ≤ p → get_or start q 0 ≡ before q part)
    → ((q : ℕ) → p ≤ q → q < np → get_or start (q + 1) 0 ≡ many q part)
    → (length (add_up n p start) ≡ np + 1)
      × ((q : ℕ) → q ≤ np → get_or (add_up n p start) q 0 ≡ before q part)
unfolding add_up
add_up_lem part np zero p start sum size low high = (size, λ q h. low q (omega arith))
add_up_lem part np (suc n) p start sum size low high =
    let add = λ (x : ℕ). x + get_or start p 0 in
    add_up_lem part np n (p + 1) (modify start (p + 1) add) (omega arith)
      (length-modify start (p + 1) add ∙ size)
      (λ q h. elim (Bool-cases (p + 1 == q)) [
        | inr other ↦ get_or-modify_ne start (p + 1) q add 0 (ground arith) ∙ low q (ground arith)
        | inl same ↦
            let e : p + 1 ≡ q = ground arith in
            let step : before q part ≡ before p part + many p part =
              let s : q ≡ suc p = omega arith in rw s refl in
            rw step (
              rw (← e) (
                get_or-modify_self start (p + 1) add 0 (omega arith)
                ∙ omega (arith, high p (omega arith) (omega arith), low p (omega arith))))
      ])
      (λ q h l. get_or-modify_ne start (p + 1) (q + 1) add 0 (omega arith) ∙ high q (omega arith) l)

before-cons :
    (q p : ℕ) (part : List ℕ) → before q (p ∷ part) ≡ before q part + (if ltb p q then 1 else 0)
before-cons zero p part = ground arith
before-cons (suc q) p part = ground (arith, before-cons q p part)

before-le_length : (q : ℕ) (part : List ℕ) → before q part ≤ length part
before-le_length zero part = omega arith
before-le_length (suc q) [] = omega (arith, before-le_length q [])
before-le_length (suc q) (p ∷ part) =
    ground (arith, before-cons (suc q) p part, before-le_length (suc q) part)

-- Of a stripe with less than 2^32 cells, each in one of `np` partitions, the cells that `start` and
-- `order` give to a partition are its cells, in the order of the stripe.
pub counting_sort-cells_in :
    (np : ℕ) (part : List ℕ)
    → length part ≤ 2 ^ 32
    → All (λ p. p < np) part
    → (q : ℕ) → q < np
    → let sorted = counting_sort np part in
      take (get_or sorted.0 (q + 1) 0 - get_or sorted.0 q 0) (drop (get_or sorted.0 q 0) sorted.1)
      ≡ cells_in q 0 part
unfolding counting_sort
counting_sort-cells_in np part small below q lt =
    let zeros : List ℕ = replicate (np + 1) 0 in
    let empty : (i : ℕ) → i < np + 1 → get_or zeros i 0 ≡ 0 =
      λ i h. get_or-replicate (np + 1) i 0 0 h in
    let order : List ℕ = replicate (length part) 0 in
    let counted = count_parts part zeros in
    let start = add_up np 0 counted in
    let (size, first, counts) = count_parts_lem np part zeros below (length-replicate (np + 1) 0) in
    let (size', starts) =
      add_up_lem part np np 0 counted (omega arith) size
        (λ q h. let e : q ≡ 0 = omega arith in rw e (first ∙ empty 0 (omega arith)))
        (λ q h l. omega (arith, counts q, empty (q + 1) (omega arith))) in
    let placing : Placing (λ q. before q part) (λ q. []) np part order start = record {
      size = size';
      at = λ q l. omega (arith, starts q (omega arith));
      within = λ q l.
          omega (arith, before-le_length (suc q) part, length-replicate {A = ℕ} (length part) 0);
      apart = λ q q' l l'. omega (arith, before-le q q' part l);
      placed = λ q l. refl;
    } in
    let group =
      place_cells_lem (λ q. before q part) (λ q. []) np 0 part order start (omega arith) below
        placing q lt in
    let from : get_or start q 0 ≡ before q part = starts q (omega arith) in
    let to : get_or start (q + 1) 0 - get_or start q 0 ≡ 0 + many q part =
      let next : q + 1 ≡ suc q = omega arith in
      omega (arith, from, starts (q + 1) (omega arith), ap (λ (k : ℕ). before k part) next) in
    rw (to, from) group
