-- ===== src/Aggregate/Shares/Listed.antt =====
-- What `into_output` of src/rust/src/read.rs lists of a cell's classes: all of them, ascending, with their
-- shares of the cell's weight.
use mathlib.Core.List.{Perm}
use a5px.Prelude.{
  ℕ, ◌^◌, ◌<◌, ◌≡◌, refl, arith, List, [], ◌∷◌, true, false, length, get_or, map, Bool-cases, inl,
  inr,
}
use a5px.Prelude.Int.{ℤ, pos, negsuc, ltb_ℤ}
use a5px.Prelude.Sort.{Pairs, sort_by-Pairs, sort_by-Perm}
use a5px.Float.{F64}
use a5px.Classes.{ClassWeights}
use a5px.Aggregate.{low_class, sorted_classes, total_weight, push_all_shares, no_shares}
use a5px.Aggregate.Shares.{slices, class_row, share_row, push_all_shares-slices}

ltb_ℤ-asym : (a b : ℤ) → ltb_ℤ a b ≡ true → ltb_ℤ b a ≡ false
ltb_ℤ-asym (pos a) (pos b) h = ground (arith, h)
ltb_ℤ-asym (pos a) (negsuc b) h = absurd (ground (arith, h))
ltb_ℤ-asym (negsuc a) (pos b) h = refl
ltb_ℤ-asym (negsuc a) (negsuc b) h = ground (arith, h)

ltb_ℤ-trans_not : (a b c : ℤ) → ltb_ℤ b a ≡ false → ltb_ℤ c b ≡ false → ltb_ℤ c a ≡ false
ltb_ℤ-trans_not (pos a) (pos b) (pos c) h k = ground (arith, h, k)
ltb_ℤ-trans_not (pos a) (pos b) (negsuc c) h k = absurd (ground (arith, k))
ltb_ℤ-trans_not (pos a) (negsuc b) c h k = absurd (ground (arith, h))
ltb_ℤ-trans_not (negsuc a) b (pos c) h k = refl
ltb_ℤ-trans_not (negsuc a) (pos b) (negsuc c) h k = absurd (ground (arith, k))
ltb_ℤ-trans_not (negsuc a) (negsuc b) (negsuc c) h k = ground (arith, h, k)

module _ {A : Type 0} ⦃f : F64 A⦄ where
  -- Sorted, no class is less than one before it.
  abbrev pub ByClass : ClassWeights A → Type 0
  ByClass k = Pairs (λ a b. ltb_ℤ b.0 a.0 ≡ false) k

  -- The weights' sum, in the order of the classes.
  abbrev pub sum_weights : ClassWeights A → A
  sum_weights k = f.sum_of (map (λ e. e.1) k)

  -- The classes listed of a cell, and their shares, for its classes in order: each class, and its weight
  -- over the sum, or nothing where the sum is not positive.
  pub data Lists (k : ClassWeights A) : List ℤ → List A → Type 0 where
    each :
        f.lt f.naught (sum_weights k) ≡ true
        → Lists k (map (λ e. e.0) k) (map (λ e. f.div e.1 (sum_weights k)) k)
    nothing : f.lt f.naught (sum_weights k) ≡ false → Lists k [] []

  -- The same for its classes in any order.
  abbrev pub Listed : ClassWeights A → List ℤ → List A → Type 0
  Listed m cs ws = (k : ClassWeights A) × ((Perm k m × ByClass k) × Lists k cs ws)

  -- Of each cell.
  abbrev pub AllListed : List (ClassWeights A) → List (List ℤ) → List (List A) → Type 0
  AllListed [] [] [] = Unit
  AllListed (m ∷ ms) (cs ∷ css) (ws ∷ wss) = Listed m cs ws × AllListed ms css wss
  AllListed _ _ _ = ⊥

  sorted_classes-ByClass : (m : ClassWeights A) → ByClass (sorted_classes m)
  sorted_classes-ByClass m =
      sort_by-Pairs low_class (λ a b. ltb_ℤ b.0 a.0 ≡ false) (λ a b h. ground (arith, h))
        (λ a b h. ltb_ℤ-asym b.0 a.0 (ground (arith, h)))
        (λ a b c h k. ltb_ℤ-trans_not a.0 b.0 c.0 h k) m

  rows-Lists : (m : ClassWeights A) → Lists (sorted_classes m) (class_row m) (share_row m)
  rows-Lists m = elim (Bool-cases (f.lt f.naught (total_weight (sorted_classes m)))) [
    | inl weighty ↦ rw weighty (each weighty)
    | inr light ↦ rw light (nothing light)
  ]

  rows-Listed : (m : ClassWeights A) → Listed m (class_row m) (share_row m)
  rows-Listed m =
      (sorted_classes m, ((sort_by-Perm low_class m, sorted_classes-ByClass m), rows-Lists m))

  all_rows-Listed :
      {T : Type 0} (m : T → ClassWeights A) (order : List T)
      → AllListed
          (map m order)
          (map (λ o. class_row (m o)) order)
          (map (λ o. share_row (m o)) order)
  all_rows-Listed m [] = tt
  all_rows-Listed m (o ∷ order) = (rows-Listed (m o), all_rows-Listed m order)

  -- The offsets of a band cut its classes and its shares into those of each cell: the cell's classes,
  -- ascending, and the share of each in the cell's weight, or none where the weight is not positive; where
  -- the band has fewer than 2^31 classes.
  pub push_all_shares-Listed :
      (n : ℕ) (m : ℕ × ℕ → ℕ → ClassWeights A) (order : List (ℕ × ℕ)) (b : ℕ)
      → b < n
      → length (get_or (push_all_shares m n order (no_shares n)).classes b []) < 2 ^ 31
      → let fr = push_all_shares m n order (no_shares n) in
        AllListed
          (map (λ o. m o b) order)
          (slices (get_or fr.offsets b []) (get_or fr.classes b []))
          (slices (get_or fr.offsets b []) (get_or fr.shares b []))
  push_all_shares-Listed n m order b h small =
      let (classes, shares) = push_all_shares-slices n m order b h small in
      rw (classes, shares) (all_rows-Listed (λ o. m o b) order)
