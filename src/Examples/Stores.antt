-- ===== src/Examples/Stores.antt =====
-- Cell stores and accumulators at concrete inputs, over natural numbers in place of `f64`.
use a5px.Prelude.{
  some, get_elem?, Result, ok, err, ℕ, zero, suc, ◌+◌, ◌<◌, ◌≡◌, refl, List, [], ◌∷◌, true, false,
  ◌&&◌, none, arith, ◌==◌, if◌then◌else◌, foldl, get_or, ℕ_discrete,
}
use a5px.Prelude.Int.{pos}
use a5px.Prelude.Map.{find}
use a5px.Stats.{Error, mean}
use a5px.Examples.Numbers.{small}
use a5px.Layouts.{finalise_sum, AccMean, AccRange, AccFull, acc_mean, acc_range, acc_full}
use a5px.Layouts.Extremes.{push_run-extremes}
use a5px.Classes.{ClassWeights, majority_and_weight, finalise_majority}
use a5px.Classes.Majority.{Holds, IsOrdered, majority-order}
use a5px.Store.{slot, CellStore, add_pixel_weight, add_band_weights, merge_weights, shared_weight}
use a5px.Store.Shape.{IsShaped, slot-IsShaped}
use a5px.Store.Merge.{merge_cell_from, weight, value}
use a5px.Store.Weights.{IsWeighted, add_pixel_weight_lem, add_band_weights_lem, merge_weights_lem}

-- Two bands; cell 70 shares the weight 5 and cell 80 has weights of its own.
abbrev store : CellStore ℕ (AccMean ℕ)
store = record {
  n_out = 2;
  cfg = record { has_cont = true; has_cat = false; has_npix = false };
  index = (70, 0) ∷ (80, 1) ∷ [];
  cells = 70 ∷ 80 ∷ [];
  cont =
      record { total = 9 }
      ∷ record { total = 8 }
      ∷ record { total = 7 }
      ∷ record { total = 6 }
      ∷ [];
  cat = [];
  npix = [];
  bw = 5 ∷ 0 ∷ [];
  split = (1, 3 ∷ 4 ∷ []) ∷ [];
}

store-IsWeighted : IsWeighted store
store-IsWeighted = record { per_band = λ i e h. ground arith }

add_pixel_weight_lem_example :
    shared_weight (add_pixel_weight store 0 2 (true ∷ false ∷ [])) 0 1 ≡ (
      if (0 == 0) && get_or (true ∷ false ∷ []) 1 false
      then shared_weight store 0 1 + 2
      else shared_weight store 0 1)
add_pixel_weight_lem_example =
    add_pixel_weight_lem store 0 2 (true ∷ false ∷ []) store-IsWeighted refl (omega arith) refl refl
      0 1 (omega arith)

-- The pixel was valid in one band: the cell is split.
splits :
    (add_pixel_weight store 0 2 (true ∷ false ∷ [])).split ≡ (1, 3 ∷ 4 ∷ []) ∷ (0, 7 ∷ 5 ∷ []) ∷ []
unfolding add_pixel_weight ℕ_discrete
splits = refl

add_band_weights_lem_example : shared_weight (add_band_weights store 0 (3 ∷ 3 ∷ [])) 0 1 ≡ (
    if 0 == 0 then shared_weight store 0 1 + get_or (3 ∷ 3 ∷ []) 1 0 else shared_weight store 0 1)
add_band_weights_lem_example =
    add_band_weights_lem (λ x. 0 < x) (λ x y p q e. ground arith) store 0 (3 ∷ 3 ∷ [])
      store-IsWeighted refl (omega arith) each refl 0 1 (omega arith)
  where
    each : (b : ℕ) → b < 2 → 0 < get_or (3 ∷ 3 ∷ []) b 0
    each zero h = omega arith
    each (suc zero) h = omega arith
    each (suc (suc b)) h = absurd (omega arith)

merge_weights_lem_example : shared_weight (merge_weights store store 1 0 none) 0 1 ≡ (
    if 0 == 0 then shared_weight store 0 1 + shared_weight store 1 1 else shared_weight store 0 1)
merge_weights_lem_example =
    merge_weights_lem store store 1 0 store-IsWeighted (omega arith) 0 1 (omega arith)

abbrev range : AccRange ℕ
range = record { total = 9; weight = 1; least = 9; greatest = 9 }

abbrev widest : AccFull ℕ
widest = record { total = 9; weight = 1; least = 9; greatest = 9; mean_w = 9; m2 = 0 }

push_run-extremes_example :
    let vals : List ℕ = 4 ∷ 12 ∷ 7 ∷ [] in
    let run = (acc_range {A = ℕ}).push_run range vals in
    let each = foldl (λ c v. (acc_range {A = ℕ}).push c v 1) range vals in
    let other = (acc_full {A = ℕ}).push_run widest vals in
    (run.least ≡ each.least)
    × (run.greatest ≡ each.greatest)
    × (run.least ≡ other.least)
    × (run.greatest ≡ other.greatest)
push_run-extremes_example = push_run-extremes range widest (4 ∷ 12 ∷ 7 ∷ []) refl refl refl

small-IsOrdered : IsOrdered ⦃f = small⦄ (λ w. Unit)
small-IsOrdered = record {
  trans_not = λ a b c _ _ _ h l. ground arith;
  flip = λ a b _ _ h. ground arith;
  linear = λ a b _ _ h l. ground arith;
  eq_iff = λ a b _ _. ground arith;
}

-- Classes 7 and 2 weigh the same, and the smaller code wins.
abbrev votes : ClassWeights ℕ
votes = (pos 7, 3) ∷ (pos 2, 3) ∷ []

abbrev votes' : ClassWeights ℕ
votes' = (pos 2, 3) ∷ (pos 7, 3) ∷ []

votes_run : majority_and_weight votes ≡ (2, 3)
unfolding majority_and_weight
votes_run = refl

swapped : {A : Type 0} (x y e : A) → Holds (x ∷ y ∷ []) e → Holds (y ∷ x ∷ []) e
swapped x y e (zero, h) = (1, h)
swapped x y e (suc zero, h) = (0, h)
swapped x y e (suc (suc i), h) = absurd (ground arith)

majority-order_example :
    (majority_and_weight votes ≡ majority_and_weight votes')
    × (finalise_majority votes ≡ finalise_majority votes')
majority-order_example =
    majority-order (λ w. Unit) small-IsOrdered votes votes' (λ e h. tt)
      (λ e. (swapped (pos 7, 3) (pos 2, 3) e, swapped (pos 2, 3) (pos 7, 3) e))

store-IsShaped : IsShaped store
store-IsShaped = record {
  cell_at = λ c i h. ground arith;
  slot_of = of_slot;
  conts = λ on. refl;
  cats = λ on. absurd (ground arith);
  npixs = λ on. absurd (ground arith);
  weights = λ on. refl;
}
  where
    of_slot : (c i : ℕ) → get_elem? store.cells i ≡ some c → find ℕ_discrete c store.index ≡ some i
    of_slot c zero h = ground arith
    of_slot c (suc zero) h = ground arith
    of_slot c (suc (suc i)) h = absurd (ground arith)

slot-IsShaped_example :
    let res = slot store 90 in
    IsShaped res.0
    × (find ℕ_discrete 90 res.0.index ≡ some res.1)
    × (get_elem? res.0.cells res.1 ≡ some 90)
    × ((c i : ℕ) → find ℕ_discrete c store.index ≡ some i → find ℕ_discrete c res.0.index ≡ some i)
slot-IsShaped_example = slot-IsShaped store 90 store-IsShaped (omega arith)

abbrev weight_of : Result Error (CellStore ℕ (AccMean ℕ)) → ℕ × ℕ
weight_of (ok s) = (weight s 0 0, value s mean 0 1)
weight_of (err e) = (0, 0)

-- Cell 70 of a store into itself: twice the weight, and the same mean.
merge_run : weight_of (merge_cell_from store store 0) ≡ (10, 1)
unfolding merge_cell_from weight value finalise_sum slot ℕ_discrete
merge_run = refl
