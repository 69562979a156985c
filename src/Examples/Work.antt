-- ===== src/Examples/Work.antt =====
-- Strips, stripes and class weights at concrete inputs.
use a5px.Prelude.{◌+◌, ◌≤◌, ◌<◌, ◌≡◌, refl, List, [], ◌∷◌, arith, map, All}
use a5px.Strips.{Tile, plan_strips, stripes, stripe_rows, strip_blocks}
use a5px.Strips.Cover.{joined, IsStrip, plan_strips-IsStrip}
use a5px.Strips.Stripes.{rows, upto, stripes_lem}

abbrev tiles : List Tile
tiles = (3, 0) ∷ (4, 0) ∷ (5, 0) ∷ (6, 0) ∷ (7, 0) ∷ (3, 1) ∷ (5, 1) ∷ []

strips_run :
    plan_strips tiles strip_blocks
    ≡ ((3, 0) ∷ (4, 0) ∷ (5, 0) ∷ (6, 0) ∷ []) ∷ ((7, 0) ∷ []) ∷ ((3, 1) ∷ []) ∷ ((5, 1) ∷ []) ∷ []
unfolding plan_strips
strips_run = refl

plan_strips-IsStrip_example :
    (joined (plan_strips tiles strip_blocks) ≡ tiles)
    × All (IsStrip strip_blocks) (plan_strips tiles strip_blocks)
plan_strips-IsStrip_example = plan_strips-IsStrip tiles strip_blocks (
  omega arith,
  (omega arith, (omega arith, (omega arith, (omega arith, (omega arith, (omega arith, tt)))))),
)

stripes_run : stripes 150 ≡ (0, 64) ∷ (64, 128) ∷ (128, 150) ∷ []
unfolding stripes
stripes_run = refl

stripes_lem_example :
    (joined (map rows (stripes 150)) ≡ upto 0 150)
    × All (λ r. (r.0 < r.1) × (r.1 ≤ r.0 + stripe_rows) × (r.1 ≤ 150)) (stripes 150)
stripes_lem_example = stripes_lem 150
