-- ===== src/Parts/Groups.antt =====
-- The counting sort groups the cells of a stripe by partition, in their order.
use a5px.Prelude.{
  ℕ, zero, suc, ◌+◌, ◌%◌, ◌^◌, ◌≤◌, ◌<◌, ◌≡◌, refl, ◌∙◌, ap, arith, ◌⊎◌, List, [], ◌∷◌, ◌++◌, true,
  if◌then◌else◌, ltb, ◌==◌, length, get_or, set, modify, take, drop, All, Bool-cases, inl, inr,
  length-set, length-append, length-modify, get_or-modify_self, get_or-modify_ne,
}
use mathlib.Core.List.{append-nil, append_assoc}
use a5px.Parts.{place_cells}

-- The cells of partition `q`, in order, from index `i` on.
abbrev pub cells_in : ℕ → ℕ → List ℕ → List ℕ
cells_in q i [] = []
cells_in q i (p ∷ part) = let rest = cells_in q (i + 1) part in if p == q then i ∷ rest else rest

-- How many cells a partition has, and how many those before it have.
abbrev pub many : ℕ → List ℕ → ℕ
many q [] = 0
many q (p ∷ part) = (if p == q then 1 else 0) + many q part

abbrev pub before : ℕ → List ℕ → ℕ
before zero part = 0
before (suc q) part = before q part + many q part

pub length-cells_in : (q i : ℕ) (part : List ℕ) → length (cells_in q i part) ≡ many q part
length-cells_in q i [] = refl
length-cells_in q i (p ∷ part) = ground (arith, length-cells_in q (i + 1) part)

module _ {A : Type 0} where
  -- A write at the end of a part of a list, and one outside it.
  take-set_end :
      (k a j : ℕ) (xs : List A) (v : A)
      → j ≡ a + k
      → j < length xs
      → take (suc k) (drop a (set xs j v)) ≡ take k (drop a xs) ++ (v ∷ [])
  take-set_end k a j [] v e h = elim h [ ]
  take-set_end zero zero zero (x ∷ xs) v e h = refl
  take-set_end zero zero (suc j) (x ∷ xs) v e h = absurd (omega arith)
  take-set_end (suc k) zero zero (x ∷ xs) v e h = absurd (omega arith)
  take-set_end (suc k) zero (suc j) (x ∷ xs) v e h =
      ap (◌∷◌ x) (take-set_end k zero j xs v (omega arith) (omega arith))
  take-set_end k (suc a) zero (x ∷ xs) v e h = absurd (omega arith)
  take-set_end k (suc a) (suc j) (x ∷ xs) v e h =
      take-set_end k a j xs v (omega arith) (omega arith)

  take-set_outside :
      (k a j : ℕ) (xs : List A) (v : A)
      → (j < a) ⊎ (a + k ≤ j)
      → take k (drop a (set xs j v)) ≡ take k (drop a xs)
  take-set_outside k a j [] v h = refl
  take-set_outside zero zero j (x ∷ xs) v h = refl
  take-set_outside (suc k) zero zero (x ∷ xs) v h = absurd (ground arith)
  take-set_outside (suc k) zero (suc j) (x ∷ xs) v h =
      ap (◌∷◌ x) (take-set_outside k zero j xs v (ground arith))
  take-set_outside k (suc a) zero (x ∷ xs) v h = refl
  take-set_outside k (suc a) (suc j) (x ∷ xs) v h = take-set_outside k a j xs v (ground arith)

pub before-le : (q q' : ℕ) (part : List ℕ) → q < q' → before q part + many q part ≤ before q' part
before-le q zero part h = elim h [ ]
before-le q (suc q') part h = elim (Bool-cases (q == q')) [
  | inl last ↦ let e : q ≡ q' = ground arith in rw e (omega arith)
  | inr earlier ↦ omega (arith, before-le q q' part (ground arith))
]

-- The groups with one more cell.
abbrev grown : ℕ → ℕ → (ℕ → List ℕ) → ℕ → List ℕ
grown p i groups q = if p == q then groups q ++ (i ∷ []) else groups q

length-grown :
    (p i : ℕ) (groups : ℕ → List ℕ) (q : ℕ)
    → length (grown p i groups q) ≡ length (groups q) + (if p == q then 1 else 0)
length-grown p i groups q = ground (arith, length-append (groups q) (i ∷ []))

-- What `place_cells` keeps: `part` is still to place, and `groups` are placed.
pub record Placing (base : ℕ → ℕ) (groups : ℕ → List ℕ) (np : ℕ) (part order fill : List ℕ)
    : Type 0 where
  pub size : length fill ≡ np + 1
  pub at : (q : ℕ) → q < np → get_or fill q 0 ≡ base q + length (groups q)
  pub within : (q : ℕ) → q < np → base q + length (groups q) + many q part ≤ length order
  pub apart : (q q' : ℕ) → q < q' → q' < np → base q + length (groups q) + many q part ≤ base q'
  pub placed : (q : ℕ) → q < np → take (length (groups q)) (drop (base q) order) ≡ groups q

Placing-step :
    (base : ℕ → ℕ) (groups : ℕ → List ℕ) (np i p : ℕ) (part order fill : List ℕ)
    → p < np
    → Placing base groups np (p ∷ part) order fill
    → Placing base
        (grown p i groups)
        np
        part
        (set order (get_or fill p 0) i)
        (modify fill p (λ x. x + 1))
Placing-step base groups np i p part order fill lt v =
    let here : (p == p) ≡ true = ground arith in
    let top : base p + length (groups p) < length order = ground (arith, v.within p lt) in
    record {
      size = length-modify fill p (λ x. x + 1) ∙ v.size;
      at = λ q l. elim (Bool-cases (p == q)) [
        | inl same ↦
            let e : p ≡ q = ground arith in
            let next = get_or-modify_self fill p (λ x. x + 1) 0 (omega (arith, v.size)) in
            rw (← e) (next ∙ ground (arith, v.at p lt, length-grown p i groups p))
        | inr other ↦
            get_or-modify_ne fill p q (λ x. x + 1) 0 (ground arith)
            ∙ ground (arith, v.at q l, length-grown p i groups q)
      ];
      within = λ q l.
          omega
            (arith, v.within q l, length-grown p i groups q, length-set order (get_or fill p 0) i);
      apart = λ q q' l l'. omega (arith, v.apart q q' l l', length-grown p i groups q);
      placed = λ q l. elim (Bool-cases (p == q)) [
        | inl same ↦
            let e : p ≡ q = ground arith in
            let long : length (groups q ++ (i ∷ [])) ≡ suc (length (groups q)) =
              omega (arith, length-append (groups q) (i ∷ [])) in
            let j : get_or fill p 0 ≡ base q + length (groups q) = rw e (v.at q l) in
            rw (same, long)
              (take-set_end (length (groups q)) (base q) (get_or fill p 0) order i j
                  (omega (arith, v.at p lt))
                ∙ ap (λ xs. xs ++ (i ∷ [])) (v.placed q l))
        | inr other ↦ rw other (
            take-set_outside (length (groups q)) (base q) (get_or fill p 0) order i
              (elim (Bool-cases (ltb p q)) [
                | inl less ↦ inl (ground (arith, v.at p lt, v.apart p q (ground arith) l))
                | inr more ↦ inr (ground (arith, v.at p lt, v.apart q p (ground arith) lt))
              ])
            ∙ v.placed q l)
      ];
    }

pub place_cells_lem :
    (base : ℕ → ℕ) (groups : ℕ → List ℕ) (np i : ℕ) (part order fill : List ℕ)
    → i + length part ≤ 2 ^ 32
    → All (λ p. p < np) part
    → Placing base groups np part order fill
    → (q : ℕ) → q < np
    → take (length (groups q) + many q part) (drop (base q) (place_cells i part order fill))
      ≡ groups q ++ cells_in q i part
unfolding place_cells
place_cells_lem base groups np i [] order fill small below v q lt =
    let e : length (groups q) + 0 ≡ length (groups q) = omega arith in
    rw (e, append-nil (groups q)) (v.placed q lt)
place_cells_lem base groups np i (p ∷ part) order fill small below v q lt =
    let j = get_or fill p 0 in
    let index : i % 2 ^ 32 ≡ i = omega arith in
    let ih =
      place_cells_lem base (grown p i groups) np (i + 1) part (set order j i)
        (modify fill p (λ x. x + 1)) (omega arith) below.1
        (Placing-step base groups np i p part order fill below.0 v) q lt in
    rw index (elim (Bool-cases (p == q)) [
      | inr other ↦
          let none_more : 0 + many q part ≡ many q part = omega arith in
          rw (other, none_more) (rw other at ih)
      | inl same ↦
          let long : length (groups q ++ (i ∷ [])) + many q part
              ≡ length (groups q) + (1 + many q part) =
            omega (arith, length-append (groups q) (i ∷ [])) in
          rw same
            (rw (same, long, append_assoc (groups q) (i ∷ []) (cells_in q (i + 1) part)) at ih)
    ])
