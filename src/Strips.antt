-- ===== src/Strips.antt =====
-- How src/rust/src/read.rs cuts a read into work: tiles into strips that one task fetches, and the
-- rows of a tile into stripes.
pub mod Cover
pub mod Stripes
use a5px.Prelude.{
  ℕ, zero, suc, ◌+◌, List, [], ◌∷◌, ◌++◌, Bool, true, false, ◌&&◌, Option, none, some,
  if◌then◌else◌, ltb, ◌==◌, length, min, add_u64,
}

abbrev pub strip_blocks : ℕ
strip_blocks = 4

abbrev pub stripe_rows : ℕ
stripe_rows = 64

abbrev pub Tile : Type 0
Tile = ℕ × ℕ

abbrev pub last {ℓ} : {A : Type ℓ} → List A → Option A
last [] = none
last (x ∷ []) = some x
last (x ∷ y ∷ xs) = last (y ∷ xs)

-- Whether `tile` is right of `p` in its row.
abbrev pub follows : Option Tile → Tile → Bool
follows none tile = false
follows (some p) tile = p.1 == tile.1 && add_u64 p.0 1 == tile.0

-- One round of the loop: the tile joins the last run, or starts one.
pub push_tile : ℕ → List (List Tile) → Tile → List (List Tile)
push_tile max_len [] tile = (tile ∷ []) ∷ []
push_tile max_len (run ∷ []) tile =
    if ltb (length run) max_len && follows (last run) tile
    then (run ++ (tile ∷ [])) ∷ []
    else run ∷ (tile ∷ []) ∷ []
push_tile max_len (run ∷ next ∷ out) tile = run ∷ push_tile max_len (next ∷ out) tile

pub strips_from : ℕ → List (List Tile) → List Tile → List (List Tile)
strips_from max_len out [] = out
strips_from max_len out (tile ∷ tiles) = strips_from max_len (push_tile max_len out tile) tiles

unfoldable pub plan_strips : List Tile → ℕ → List (List Tile)
unfolding strips_from push_tile
plan_strips tiles max_len = strips_from max_len [] tiles

-- `(r0..h).step_by(STRIPE_ROWS)`, each start with its end; the first number is fuel.
pub stripes_from : ℕ → ℕ → ℕ → List (ℕ × ℕ)
stripes_from zero r0 h = []
stripes_from (suc n) r0 h =
    let rest = stripes_from n (r0 + stripe_rows) h in
    if ltb r0 h then (r0, min (r0 + stripe_rows) h) ∷ rest else []

-- `stripes` of a tile `h` rows high.
unfoldable pub stripes : ℕ → List (ℕ × ℕ)
unfolding stripes_from
stripes h = stripes_from h 0 h
