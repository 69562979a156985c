-- ===== src/Examples/Fringes.antt =====
-- The boundary pixels of an overlay at concrete inputs.
use a5px.CellMask.{new_cache}
use a5px.Prelude.{
  true, false, ℕ, ◌+◌, ◌≤◌, ◌≡◌, refl, List, [], ◌∷◌, Option, none, some, arith, length, ok,
}
use a5px.Examples.Numbers.{small}
use a5px.Layouts.{AccMean, acc_mean}
use a5px.Overlay.{Lattice, Corners}
use a5px.Overlay.Boundary.{touch_points, Fringe, boundary_chunks}
use a5px.Overlay.Boundary.Chunks.{points_of, each_pixel, boundary_chunks-each_pixel}
use a5px.Overlay.Boundary.Shares.{count_of, total, occurrences, visited, touch_points-counts}
use a5px.Examples.Passes.{ctx, tile, store, a5}

-- A sub-point is its cell.
abbrev lattice : Lattice Unit ℕ
lattice = record {
  locator = tt;
  boxed = false;
  corner_in = λ jj i. ok true;
  locate = λ s jj i hints. (tt, 70);
  centres = ok none;
  sub_points = λ pixels. ok (some 70 ∷ none ∷ some 80 ∷ some 70 ∷ []);
  locate_exact = λ s p hints. (tt, p);
}

abbrev points : List (Option ℕ)
points = some 70 ∷ none ∷ some 80 ∷ some 70 ∷ []

touched : (touch_points lattice [] points (tt, [])).1 ≡ (70, 2) ∷ (80, 1) ∷ []
unfolding touch_points
touched = refl

abbrev shares : List (ℕ × ℕ)
shares = (touch_points lattice [] points (tt, [])).1

touch_points-counts_example :
    (count_of 70 shares ≡ occurrences 70 (visited lattice [] tt points))
    × (total shares ≡ length (visited lattice [] tt points))
    × (total shares ≤ length points)
touch_points-counts_example = touch_points-counts lattice [] points tt 70

abbrev corners : Corners
corners = record { cell = []; in_bbox = [] }

abbrev fringe : Fringe Unit ℕ (AccMean ℕ)
fringe = record { locator = tt; cache = new_cache; store = store }

-- The sub-points of a pixel: one in the cell of its row's number, one in that of its column's, and two
-- that are outside the boxes.
abbrev own : ℕ × ℕ → List (Option ℕ)
own pixel = some (70 + pixel.0) ∷ none ∷ some (80 + pixel.1) ∷ none ∷ []

abbrev projected : Lattice Unit ℕ
projected = record lattice { sub_points = λ pixels. ok (points_of own pixels) }

boundary_chunks-each_pixel_example :
    boundary_chunks a5 projected ctx tile corners (4, 1, 8) 5 0 4 1 2 ((0, 1) ∷ (1, 2) ∷ []) fringe
    ≡ each_pixel a5 projected ctx tile corners own (4, 1, 8) 5 0 4 1 ((0, 1) ∷ (1, 2) ∷ []) fringe
boundary_chunks-each_pixel_example =
    boundary_chunks-each_pixel a5 projected ctx tile corners own (4, 1, 8) 5 0 4 1 2
      ((0, 1) ∷ (1, 2) ∷ []) fringe (λ pixel. refl) (λ pixels. refl) (omega arith)
