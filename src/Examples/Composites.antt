-- ===== src/Examples/Composites.antt =====
-- The reducers of a composite at concrete inputs.
use a5px.Prelude.{ℕ, ◌/◌, ◌≡◌, refl, List, [], ◌∷◌, leb, ok, err, if◌then◌else◌, some, none}
use a5px.Stats.{invalid}
use a5px.Examples.Numbers.{small}
use a5px.Composite.{Total, majority, median, mean, parse_reducer, reduce}

abbrev pub total : Total ℕ
total = record {
  total_le = leb;
  least = λ x y. if leb x y then x else y;
  greatest = λ x y. if leb x y then y else x;
  abs = λ x. x;
  half = 0;
  tiny = 0;
}

abbrev votes : List (ℕ × ℕ)
votes = (2, 4) ∷ (7, 3) ∷ (2, 1) ∷ (3, 5) ∷ []

-- A tie goes to the smallest value.
votes_run : (reduce total majority votes ≡ 2) × (reduce total mean votes ≡ 46 / 13)
unfolding reduce
votes_run = (refl, refl)

parse_runs :
    (parse_reducer "median" ≡ ok (some median))
    × (parse_reducer "mode" ≡ err invalid)
    × (parse_reducer "" ≡ ok none)
unfolding parse_reducer
parse_runs = (refl, refl, refl)
