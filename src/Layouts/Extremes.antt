-- ===== src/Layouts/Extremes.antt =====
-- The extremes of a run, and of merged workers.
use a5px.Prelude.{◌≡◌, refl, List, [], ◌∷◌, false, foldl}
use a5px.Float.{F64}
use a5px.Layouts.{AccRange, AccFull, acc_range, acc_full}

module _ {A : Type 0} ⦃f : F64 A⦄ where
  -- With 1.0 above 0.0, a run of unit-weight values gives `AccRange` the extremes that pushing each
  -- value would, and, from the same extremes, those of `AccFull`, whatever the sums round to.
  pub push_run-extremes :
      (a : AccRange A) (b : AccFull A) (vals : List A)
      → f.le f.unit f.naught ≡ false
      → a.least ≡ b.least
      → a.greatest ≡ b.greatest
      → let run = (acc_range {A = A}).push_run a vals in
        let each = foldl (λ c v. (acc_range {A = A}).push c v f.unit) a vals in
        let other = (acc_full {A = A}).push_run b vals in
        (run.least ≡ each.least)
        × (run.greatest ≡ each.greatest)
        × (run.least ≡ other.least)
        × (run.greatest ≡ other.greatest)
  push_run-extremes a b [] one p q = (refl, refl, p, q)
  push_run-extremes a b (v ∷ vals) one p q =
      let rest =
        push_run-extremes ((acc_range {A = A}).push a v f.unit) ((acc_full {A = A}).push b v f.unit)
          vals one (rw one (rw p refl)) (rw one (rw q refl)) in
      rw one (rw one at rest)
