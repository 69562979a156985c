-- ===== src/Overlay/Boundary/Shares.antt =====
-- The shares of a boundary pixel, of `process_tile_overlay` of src/rust/src/read.rs.
use a5px.Prelude.{
  ℕ, ◌+◌, ◌≤◌, ◌≡◌, refl, arith, List, [], ◌∷◌, Option, none, some, if◌then◌else◌, ◌==◌, length,
  Bool-cases, inl, inr,
}
use a5px.Rows.{no_cell}
use a5px.Overlay.{Lattice}
use a5px.Overlay.Boundary.{touch, touch_points}

-- The count of a cell, and the sum of the counts.
abbrev pub count_of : ℕ → List (ℕ × ℕ) → ℕ
count_of id [] = 0
count_of id ((cell, cnt) ∷ touched) = if cell == id then cnt else count_of id touched

abbrev pub total : List (ℕ × ℕ) → ℕ
total [] = 0
total ((cell, cnt) ∷ touched) = cnt + total touched

abbrev pub occurrences : ℕ → List ℕ → ℕ
occurrences id [] = 0
occurrences id (x ∷ xs) = (if x == id then 1 else 0) + occurrences id xs

count_of-touch :
    (id new : ℕ) (touched : List (ℕ × ℕ))
    → count_of id (touch touched new) ≡ count_of id touched + (if new == id then 1 else 0)
count_of-touch id new [] = ground arith
count_of-touch id new ((cell, cnt) ∷ touched) =
    let ih = count_of-touch id new touched in
    elim (Bool-cases (cell == new)) [
      | inl same ↦ let e : cell ≡ new = ground arith in rw (same, e) (ground arith)
      | inr other ↦ rw other (ground (arith, ih))
    ]

total-touch : (new : ℕ) (touched : List (ℕ × ℕ)) → total (touch touched new) ≡ total touched + 1
total-touch new [] = refl
total-touch new ((cell, cnt) ∷ touched) = ground (arith, total-touch new touched)

module _ {S P : Type 0} (lattice : Lattice S P) (hints : List ℕ) where
  -- The cells of the sub-points that have one, located in order.
  abbrev pub visited : S → List (Option P) → List ℕ
  visited locator [] = []
  visited locator (none ∷ pts) = visited locator pts
  visited locator (some p ∷ pts) =
      let found = lattice.locate_exact locator p hints in
      let rest = visited found.0 pts in if found.1 == no_cell then rest else found.1 ∷ rest

  length-visited : (locator : S) (pts : List (Option P)) → length (visited locator pts) ≤ length pts
  length-visited locator [] = omega arith
  length-visited locator (none ∷ pts) = omega (arith, length-visited locator pts)
  length-visited locator (some p ∷ pts) =
      ground (arith, length-visited (lattice.locate_exact locator p hints).0 pts)

  touch_points_lem :
      (pts : List (Option P)) (locator : S) (touched : List (ℕ × ℕ)) (id : ℕ)
      → let after = (touch_points lattice hints pts (locator, touched)).1 in
        (count_of id after ≡ count_of id touched + occurrences id (visited locator pts))
        × (total after ≡ total touched + length (visited locator pts))
  unfolding touch_points
  touch_points_lem [] locator touched id = (omega arith, omega arith)
  touch_points_lem (none ∷ pts) locator touched id = touch_points_lem pts locator touched id
  touch_points_lem (some p ∷ pts) locator touched id =
      let found = lattice.locate_exact locator p hints in
      elim (Bool-cases (found.1 == no_cell)) [
        | inl nowhere ↦ rw (nowhere, touch_points) (touch_points_lem pts found.0 touched id)
        | inr there ↦
            let (count, sum) = touch_points_lem pts found.0 (touch touched found.1) id in
            rw (there, touch_points)
              (
                omega (arith, count, count_of-touch id found.1 touched),
                omega (arith, sum, total-touch found.1 touched),
              )
      ]

  -- A cell's count of a pixel's sub-points is that of the sub-points located in the cell, and the
  -- counts add up to the sub-points that are in some cell, at most all of them.
  pub touch_points-counts :
      (pts : List (Option P)) (locator : S) (id : ℕ)
      → let touched = (touch_points lattice hints pts (locator, [])).1 in
        (count_of id touched ≡ occurrences id (visited locator pts))
        × (total touched ≡ length (visited locator pts))
        × (total touched ≤ length pts)
  touch_points-counts pts locator id =
      let (count, sum) = touch_points_lem pts locator [] id in
      (omega (arith, count), omega (arith, sum), omega (arith, sum, length-visited locator pts))
