-- ===== src/Composite/Majority.antt =====
-- The majority of src/rust/src/composite.rs is one of the values.
use a5px.Prelude.{◌≡◌, refl, arith, List, [], ◌∷◌, true, All, Bool-cases, inl, inr, ◌⊎◌}
use a5px.Float.{F64}
use a5px.Composite.{
  Total, majority, place_in, sort_by_value, close_group, majority_from, majority_of, reduce,
}

-- A value among the values of some pairs.
abbrev pub IsValue : {A : Type 0} → A → List (A × A) → Type 0
IsValue v [] = ⊥
IsValue v (x ∷ xs) = (v ≡ x.0) ⊎ IsValue v xs

module _ {A : Type 0} ⦃f : F64 A⦄ (t : Total A) (P : A × A → Type 0) where
  All-place_in : (e : A × A) (xs : List (A × A)) → P e → All P xs → All P (place_in t e xs)
  All-place_in e [] p ps = (p, tt)
  All-place_in e (x ∷ xs) p (here, there) = elim (Bool-cases (t.total_le e.0 x.0)) [
    | inl le ↦ rw le (p, (here, there))
    | inr gt ↦ rw gt (here, All-place_in e xs p there)
  ]

  All-sort_by_value : (xs : List (A × A)) → All P xs → All P (sort_by_value t xs)
  All-sort_by_value [] ps = tt
  All-sort_by_value (x ∷ xs) (here, there) =
      All-place_in x (sort_by_value t xs) here (All-sort_by_value xs there)

module _ {A : Type 0} (P : A × A → Type 0) where
  All-mono :
      (Q : A × A → Type 0) (xs : List (A × A)) → ((e : A × A) → P e → Q e) → All P xs → All Q xs
  All-mono Q [] g ps = tt
  All-mono Q (x ∷ xs) g (here, there) = (g x here, All-mono Q xs g there)

module _ {A : Type 0} (Positive : A → Type 0) where
  -- Each pair's value is among the values, and its weight is positive.
  All-values :
      (xs : List (A × A)) → All (λ e. Positive e.1) xs → All (λ e. IsValue e.0 xs × Positive e.1) xs
  All-values [] ps = tt
  All-values (x ∷ xs) (here, there) = (
    (inl refl, here),
    All-mono (λ e. IsValue e.0 xs × Positive e.1) (λ e. IsValue e.0 (x ∷ xs) × Positive e.1) xs
        (λ e p. (inr p.0, p.1)) (All-values xs there),
  )

module _ {A : Type 0} ⦃f : F64 A⦄ (t : Total A) (Positive V : A → Type 0)
    (grows : (x y : A) → Positive x → Positive y → Positive (f.add x y))
    (starts : (x : A) → Positive x → Positive (f.add f.naught x))
    (above : (x : A) → Positive x → f.lt f.neg_infinity x ≡ true) where
  close_group-value :
      (best group : A × A)
      → (best.1 ≡ f.neg_infinity) ⊎ V best.0
      → V group.0
      → Positive group.1
      → V (close_group t best group).0
  close_group-value best group (inl first) v p =
      let wins : f.lt best.1 group.1 ≡ true = rw first (above group.1 p) in simp wins v
  close_group-value best group (inr old) v p = elim (Bool-cases (f.lt best.1 group.1)) [
    | inl wins ↦ simp wins v
    | inr loses ↦ simp loses old
  ]

  majority_from-value :
      (vals : List (A × A)) (best group : A × A)
      → All (λ e. V e.0 × Positive e.1) vals
      → (best.1 ≡ f.neg_infinity) ⊎ V best.0
      → V group.0
      → Positive group.1
      → V (majority_from t best group vals).0
  unfolding majority_from
  majority_from-value [] best group ps old v p = close_group-value best group old v p
  majority_from-value ((x, w) ∷ vals) best group ((own, weight), there) old v p =
      elim (Bool-cases (f.eq x group.0)) [
        | inl same ↦
            rw (same, majority_from)
              (majority_from-value vals best (group.0, f.add group.1 w) there old v
                (grows group.1 w p weight))
        | inr other ↦
            rw (other, majority_from)
              (majority_from-value vals (close_group t best group) (x, f.add f.naught w) there
                (inr (close_group-value best group old v p)) own (starts w weight))
      ]

  majority_of-value :
      (vals : List (A × A)) (first : A × A)
      → All (λ e. V e.0 × Positive e.1) (first ∷ vals)
      → V (majority_of t (first ∷ vals))
  unfolding majority_of
  majority_of-value vals (x, w) ((own, weight), there) =
      majority_from-value vals (f.nan, f.neg_infinity) (x, f.add f.naught w) there (inl refl) own
        (starts w weight)

  value_or_none :
      (xs : List (A × A)) → All (λ e. V e.0 × Positive e.1) xs → (xs ≡ []) ⊎ V (majority_of t xs)
  value_or_none [] ps = inl refl
  value_or_none (x ∷ xs) ps = inr (majority_of-value xs x ps)

module _ {A : Type 0} ⦃f : F64 A⦄ (t : Total A) where
  place_in-nonempty : (e : A × A) (xs : List (A × A)) → place_in t e xs ≡ [] → ⊥
  place_in-nonempty e [] h = ground (arith, h)
  place_in-nonempty e (x ∷ xs) h = elim (Bool-cases (t.total_le e.0 x.0)) [
    | inl le ↦ ground (arith, rw le at h)
    | inr gt ↦ ground (arith, rw gt at h)
  ]

module _ {A : Type 0} ⦃f : F64 A⦄ (t : Total A) (Positive : A → Type 0) where
  -- The majority of some values of positive weights is one of the values, where sums of positive
  -- weights are positive, 0.0 plus one is, and each is above the negative infinity.
  pub reduce-majority :
      (grows : (x y : A) → Positive x → Positive y → Positive (f.add x y))
      (starts : (x : A) → Positive x → Positive (f.add f.naught x))
      (above : (x : A) → Positive x → f.lt f.neg_infinity x ≡ true) (first : A × A)
      (vals : List (A × A))
      → All (λ e. Positive e.1) (first ∷ vals)
      → IsValue (reduce t majority (first ∷ vals)) (first ∷ vals)
  unfolding reduce
  reduce-majority grows starts above first vals weights =
      let V = λ (v : A). IsValue v (first ∷ vals) in
      let sorted = sort_by_value t (first ∷ vals) in
      let all =
        All-sort_by_value t (λ e. V e.0 × Positive e.1) (first ∷ vals)
          (All-values Positive (first ∷ vals) weights) in
      elim (value_or_none t Positive V grows starts above sorted all) [
        | inl empty ↦ absurd (place_in-nonempty t first (sort_by_value t vals) empty)
        | inr value ↦ value
      ]
