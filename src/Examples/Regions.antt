-- ===== src/Examples/Regions.antt =====
-- Regions and kernels at concrete inputs, over natural numbers in place of `f64`.
use a5px.Prelude.{ℕ, ◌%◌, ◌≡◌, refl, arith, [], ◌∷◌, true, some, none, ok, err}
use a5px.Stats.{invalid}
use a5px.Regions.{Box, from_flat, holds_point, classify_point, wrap_lon, intersect, covers}
use a5px.Regions.Decided.{IsFloatOrder, classify_point-holds_point}
use a5px.Examples.Numbers.{small}
use a5px.Examples.Composites.{total}

abbrev rem : ℕ → ℕ → ℕ
rem x n = x % n

abbrev field : Box ℕ
field = record { xmin = 10; ymin = 10; xmax = 50; ymax = 60 }

abbrev corner : Box ℕ
corner = record { xmin = 40; ymin = 50; xmax = 90; ymax = 70 }

order : IsFloatOrder ℕ ⦃f = small⦄
order = record {
  le_le = λ a b c h k. ground (arith, h, k);
  lt_le = λ a b c h k. ground (arith, h, k);
  le_lt = λ a b c h k. ground (arith, h, k);
  lt_not_le = λ a b h. ground (arith, h);
}

classify_point-holds_point_example : holds_point rem (field ∷ corner ∷ []) 21 29 ≡ true
unfolding wrap_lon classify_point
classify_point-holds_point_example =
    classify_point-holds_point order rem (field ∷ corner ∷ []) 20 30 2 21 29 true
      (record { low = refl; high = refl }) (record { low = refl; high = refl }) refl

-- Near an edge, the exact position is asked for.
edge_undecided : classify_point rem (field ∷ []) 49 30 2 ≡ none
unfolding classify_point wrap_lon
edge_undecided = refl

abbrev overlap : Box ℕ
overlap = record { xmin = 40; ymin = 50; xmax = 50; ymax = 60 }

pieces : intersect total (field ∷ []) (corner ∷ []) ≡ overlap ∷ []
unfolding intersect
pieces = refl

boxes_checked :
    (from_flat {A = ℕ} (10 ∷ 10 ∷ 50 ∷ 60 ∷ []) ≡ ok (some (field ∷ [])))
    × (from_flat {A = ℕ} (10 ∷ 10 ∷ 5 ∷ 60 ∷ []) ≡ err invalid)
    × (from_flat {A = ℕ} (10 ∷ 10 ∷ []) ≡ err invalid)
    × (covers (field ∷ []) (overlap ∷ []) ≡ true)
unfolding from_flat covers
boxes_checked = (refl, refl, refl, refl)
