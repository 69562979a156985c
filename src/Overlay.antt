-- ===== src/Overlay.antt =====
-- `process_tile_overlay` of src/rust/src/read.rs: a stripe of a tile where each pixel goes to every cell
-- that it overlaps. The lattice of corners comes first, then the pixels whose corners share a cell, then
-- the others, each by k * k sub-points. What the projector, the boxes, the polygons and the locator say
-- is `Lattice`, a parameter; counters and timers are left out.
pub mod Boundary
use a5px.Prelude.{
  ℕ, zero, suc, ◌+◌, ◌-◌, ◌*◌, List, [], ◌∷◌, ◌++◌, Bool, true, false, not, ◌&&◌, ◌||◌, Option,
  none, some, if◌then◌else◌, ◌==◌, get_elem?, get_or, set, Result, ok,
}
use a5px.Float.{F64}
use a5px.Stats.{Error}
use a5px.Pixels.{gather_bands}
use a5px.Layouts.{AccLayout}
use a5px.CellMask.{A5, MaskCache, allows}
use a5px.Store.{CellStore, slot}
use a5px.Rows.{Fault, ◌>>=◌, code, need, no_cell, row_hints}
use a5px.Tiles.{TileCtx, TileData}
use a5px.Tiles.Push.{push_pixel}

-- A stripe's geometry. `S` is the locator's state and `P` a position; corners are given by their row
-- and column in the lattice, pixels by their row and column in the tile.
pub record Lattice (S P : Type 0) : Type 0 where
  pub locator : S
  -- whether there are boxes, and whether a corner is inside them
  pub boxed : Bool
  pub corner_in : ℕ → ℕ → Result Error Bool
  pub locate : S → ℕ → ℕ → List ℕ → S × ℕ
  -- the stripe's pixels whose centres are inside the polygons, where there are polygons
  pub centres : Result Error (Option (List Bool))
  -- the sub-points of some pixels, one after the other: `none` where not finite or outside the boxes
  pub sub_points : List (ℕ × ℕ) → Result Error (List (Option P))
  pub locate_exact : S → P → List ℕ → S × ℕ

pub record Corners : Type 0 where
  pub cell : List ℕ
  pub in_bbox : List Bool

module _ {S P : Type 0} (lattice : Lattice S P) where
  -- The `n` corners of row `jj` from column `i` on.
  pub corner_row : ℕ → ℕ → ℕ → S × List ℕ → Result Fault ((S × List ℕ) × List ℕ × List Bool)
  unfolding row_hints
  corner_row jj zero i acc = ok (acc, [], [])
  corner_row jj (suc n) i (locator, prev_row) =
      code (if lattice.boxed then lattice.corner_in jj i else ok true) >>= λ inside.
      let found = lattice.locate locator jj i (row_hints prev_row i) in
      let prev_row' = if found.1 == no_cell then prev_row else set prev_row i found.1 in
      corner_row jj n (i + 1) (found.0, prev_row') >>= λ rest.
      ok (rest.0, found.1 ∷ rest.1, inside ∷ rest.2)

  -- The `n` rows of `cw` corners from row `jj` on.
  pub corner_rows : ℕ → ℕ → ℕ → S × List ℕ → Corners → Result Fault (S × Corners)
  unfolding corner_row
  corner_rows cw zero jj acc corners = ok (acc.0, corners)
  corner_rows cw (suc n) jj acc corners = corner_row jj cw 0 acc >>= λ row.
      corner_rows cw n (jj + 1) row.0
        (record { cell = corners.cell ++ row.1; in_bbox = corners.in_bbox ++ row.2 })

-- The four corners of the pixel whose first corner is `i00`.
abbrev pub corner_cells : Corners → ℕ → ℕ → List ℕ
corner_cells corners cw i00 =
    get_or corners.cell i00 no_cell
    ∷ get_or corners.cell (i00 + 1) no_cell
    ∷ get_or corners.cell (i00 + cw) no_cell
    ∷ get_or corners.cell (i00 + cw + 1) no_cell
    ∷ []

abbrev pub corners_in_bbox : Corners → ℕ → ℕ → Bool
corners_in_bbox corners cw i00 =
    get_or corners.in_bbox i00 false
    && get_or corners.in_bbox (i00 + 1) false
    && get_or corners.in_bbox (i00 + cw) false
    && get_or corners.in_bbox (i00 + cw + 1) false

abbrev pub every : (ℕ → Bool) → List ℕ → Bool
every p [] = true
every p (x ∷ xs) = p x && every p xs

abbrev pub one_cell : List ℕ → Bool
one_cell [] = false
one_cell (id ∷ ids) = not (id == no_cell) && every (λ x. x == id) ids

-- Whether a mask, if any, keeps a pixel.
abbrev pub keeps : Option (List Bool) → ℕ → Result Fault Bool
keeps none i = ok true
keeps (some m) i = need (get_elem? m i)

pub record Pass (A L : Type 0) : Type 0 where
  pub cache : MaskCache
  pub store : CellStore A L
  -- the pixels deferred
  pub boundary : List (ℕ × ℕ)

module _ {A L : Type 0} ⦃f : F64 A⦄ ⦃l : AccLayout A L⦄ (a5 : A5) where
  -- One cell's share of a pixel, where the cell mask allows the cell.
  pub push_cell :
      TileCtx A
      → ℕ
      → List A
      → List Bool
      → A
      → MaskCache × CellStore A L
      → Result Fault (MaskCache × CellStore A L)
  unfolding allows slot push_pixel
  push_cell ctx cell band_vals band_valid w (cache, store) =
      let allowed = allows a5 cache ctx.mask cell ctx.resolution in
      let at = slot store cell in
      if not allowed.1
      then ok (allowed.0, store)
      else (code (push_pixel at.0 at.1 band_vals band_valid w) >>= λ store'. ok (allowed.0, store'))

  -- The interior pass at one pixel of the tile; `i00` is its first corner.
  pub interior_pixel :
      TileCtx A
      → TileData A
      → Corners
      → Bool
      → Option (List Bool)
      → ℕ × ℕ × ℕ
      → ℕ
      → ℕ
      → ℕ
      → ℕ
      → Pass A L
      → Result Fault (Pass A L)
  unfolding gather_bands push_cell
  interior_pixel ctx tile corners boxed centre_in (h_stride, w_stride, b_stride) w r0 r c pass =
      keeps tile.mask (r * ctx.tile_w + c) >>= λ unmasked.
      if not unmasked
      then ok pass
      else (keeps centre_in ((r - r0) * w + c) >>= λ centred.
          if not centred
          then ok pass
          else (need (
                gather_bands tile.values (r * h_stride + c * w_stride) b_stride 0 tile.band_offsets
                  ctx.nodata ctx.dequant)
              >>= λ gathered.
                  let i00 = (r - r0) * (w + 1) + c in
                  let ids = corner_cells corners (w + 1) i00 in
                  let interior =
                    one_cell ids && (not boxed || corners_in_bbox corners (w + 1) i00) in
                  if not gathered.2
                  then ok pass
                  else if interior
                  then (push_cell ctx (get_or ids 0 no_cell) gathered.0 gathered.1 f.unit
                        (pass.cache, pass.store)
                      >>= λ next. ok (record pass { cache = next.0; store = next.1 }))
                  else ok (record pass { boundary = pass.boundary ++ ((r, c) ∷ []) })))

  -- The `n` pixels of row `r` from column `c` on.
  pub interior_row :
      TileCtx A
      → TileData A
      → Corners
      → Bool
      → Option (List Bool)
      → ℕ × ℕ × ℕ
      → ℕ
      → ℕ
      → ℕ
      → ℕ
      → ℕ
      → Pass A L
      → Result Fault (Pass A L)
  unfolding interior_pixel
  interior_row ctx tile corners boxed centre_in st w r0 r zero c pass = ok pass
  interior_row ctx tile corners boxed centre_in st w r0 r (suc n) c pass =
      interior_pixel ctx tile corners boxed centre_in st w r0 r c pass >>= λ pass'.
      interior_row ctx tile corners boxed centre_in st w r0 r n (c + 1) pass'

  -- The `n` rows from `r` on.
  pub interior_rows :
      TileCtx A
      → TileData A
      → Corners
      → Bool
      → Option (List Bool)
      → ℕ × ℕ × ℕ
      → ℕ
      → ℕ
      → ℕ
      → ℕ
      → Pass A L
      → Result Fault (Pass A L)
  unfolding interior_row
  interior_rows ctx tile corners boxed centre_in st w r0 zero r pass = ok pass
  interior_rows ctx tile corners boxed centre_in st w r0 (suc n) r pass =
      interior_row ctx tile corners boxed centre_in st w r0 r w 0 pass >>= λ pass'.
      interior_rows ctx tile corners boxed centre_in st w r0 n (r + 1) pass'
