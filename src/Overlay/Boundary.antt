-- ===== src/Overlay/Boundary.antt =====
-- The boundary pass of `process_tile_overlay` of src/rust/src/read.rs, and the whole stripe.
pub mod Shares
pub mod Chunks
use a5px.Prelude.{
  ℕ, zero, suc, ◌+◌, ◌-◌, ◌*◌, List, [], ◌∷◌, ◌++◌, Bool, true, false, not, ◌&&◌, ◌||◌, Option,
  none, some, if◌then◌else◌, ◌==◌, length, take, drop, replicate, min, Result, ok,
}
use a5px.Float.{F64}
use a5px.Stats.{Error}
use a5px.Pixels.{gather_bands}
use a5px.Layouts.{AccLayout}
use a5px.CellMask.{A5, MaskCache, new_cache}
use a5px.Store.{CellStore, empty_store}
use a5px.Parts.{PartitionedStore, absorb}
use a5px.Rows.{Fault, ◌>>=◌, code, need, no_cell}
use a5px.Tiles.{TileCtx, TileData, strides, actual_dims}
use a5px.Overlay.{Lattice, Corners, corner_rows, corner_cells, push_cell, Pass, interior_rows}

-- A sub-point in cell `id`, of the at most 64 × 64 of a pixel, so that no `u32` count wraps: the count of
-- the cell goes up, or the cell is touched for the first time.
abbrev pub touch : List (ℕ × ℕ) → ℕ → List (ℕ × ℕ)
touch [] id = (id, 1) ∷ []
touch ((cell, cnt) ∷ touched) id =
    if cell == id then (cell, cnt + 1) ∷ touched else (cell, cnt) ∷ touch touched id

module _ {S P : Type 0} (lattice : Lattice S P) where
  -- The sub-points of one pixel, given the cells of its corners.
  unfoldable pub touch_points : List ℕ → List (Option P) → S × List (ℕ × ℕ) → S × List (ℕ × ℕ)
  touch_points hints [] acc = acc
  touch_points hints (none ∷ pts) acc = touch_points hints pts acc
  touch_points hints (some p ∷ pts) (locator, touched) =
      let found = lattice.locate_exact locator p hints in
      touch_points hints pts
        (found.0, if found.1 == no_cell then touched else touch touched found.1)

module _ {A L : Type 0} ⦃f : F64 A⦄ ⦃l : AccLayout A L⦄ (a5 : A5) where
  -- Each touched cell gets its share: its count of sub-points times `w_sub`.
  pub push_touched :
      TileCtx A
      → List A
      → List Bool
      → A
      → List (ℕ × ℕ)
      → MaskCache × CellStore A L
      → Result Fault (MaskCache × CellStore A L)
  unfolding push_cell
  push_touched ctx band_vals band_valid w_sub [] acc = ok acc
  push_touched ctx band_vals band_valid w_sub ((cell, cnt) ∷ touched) acc =
      push_cell a5 ctx cell band_vals band_valid (f.mul (f.of_size cnt) w_sub) acc >>= λ acc'.
      push_touched ctx band_vals band_valid w_sub touched acc'

-- What the boundary pass keeps.
pub record Fringe (S A L : Type 0) : Type 0 where
  pub locator : S
  pub cache : MaskCache
  pub store : CellStore A L

module _ {S P A L : Type 0} ⦃f : F64 A⦄ ⦃l : AccLayout A L⦄ (a5 : A5) (lattice : Lattice S P)
    (ctx : TileCtx A) (tile : TileData A) (corners : Corners) where
  -- One deferred pixel with its sub-points.
  pub boundary_pixel :
      ℕ × ℕ × ℕ → ℕ → ℕ → A → ℕ × ℕ → List (Option P) → Fringe S A L → Result Fault (Fringe S A L)
  unfolding gather_bands touch_points push_touched
  boundary_pixel (h_stride, w_stride, b_stride) cw r0 w_sub (r, c) pts fringe =
      need (
        gather_bands tile.values (r * h_stride + c * w_stride) b_stride 0 tile.band_offsets
          ctx.nodata ctx.dequant)
      >>= λ gathered.
          let hints = corner_cells corners cw ((r - r0) * cw + c) in
          let found = touch_points lattice hints pts (fringe.locator, []) in
          if not gathered.2
          then ok fringe
          else (push_touched a5 ctx gathered.0 gathered.1 w_sub found.1 (fringe.cache, fringe.store)
              >>= λ next. ok (record { locator = found.0; cache = next.0; store = next.1 }))

  -- The pixels of a chunk, `kk` sub-points each.
  pub boundary_chunk :
      ℕ × ℕ × ℕ
      → ℕ
      → ℕ
      → ℕ
      → A
      → List (ℕ × ℕ)
      → List (Option P)
      → Fringe S A L
      → Result Fault (Fringe S A L)
  unfolding boundary_pixel
  boundary_chunk st cw r0 kk w_sub [] pts fringe = ok fringe
  boundary_chunk st cw r0 kk w_sub (pixel ∷ chunk) pts fringe =
      boundary_pixel st cw r0 w_sub pixel (take kk pts) fringe >>= λ fringe'.
      boundary_chunk st cw r0 kk w_sub chunk (drop kk pts) fringe'

  -- Chunks of 1024 pixels; `n` is fuel.
  pub boundary_chunks :
      ℕ × ℕ × ℕ → ℕ → ℕ → ℕ → A → ℕ → List (ℕ × ℕ) → Fringe S A L → Result Fault (Fringe S A L)
  unfolding boundary_chunk
  boundary_chunks st cw r0 kk w_sub zero boundary fringe = ok fringe
  boundary_chunks st cw r0 kk w_sub (suc n) [] fringe = ok fringe
  boundary_chunks st cw r0 kk w_sub (suc n) (pixel ∷ boundary) fringe =
      let chunk = take 1_024 (pixel ∷ boundary) in
      code (lattice.sub_points chunk) >>= λ pts.
      boundary_chunk st cw r0 kk w_sub chunk pts fringe >>= λ fringe'.
      boundary_chunks st cw r0 kk w_sub n (drop 1_024 (pixel ∷ boundary)) fringe'

module _ {S P A L : Type 0} ⦃f : F64 A⦄ ⦃l : AccLayout A L⦄ (a5 : A5) where
  -- `project` is the stripe's projector, from the tile's first column and the stripe's first row on.
  unfoldable pub process_tile_overlay :
      TileCtx A
      → TileData A
      → (ℕ → ℕ → ℕ → ℕ → Result Error (Lattice S P))
      → ℕ × ℕ
      → ℕ
      → PartitionedStore A L
      → Result Fault (PartitionedStore A L)
  unfolding actual_dims strides corner_rows interior_rows boundary_chunks absorb empty_store
      new_cache
  process_tile_overlay ctx tile project rows k parts =
      let dims = actual_dims ctx tile.tx tile.ty in
      let w = dims.0 in
      let start = min rows.0 dims.1 in
      let n = min rows.1 dims.1 - start in
      let cw = w + 1 in
      let inv_k = f.div f.unit (f.of_size k) in
      let w_sub = f.mul inv_k inv_k in
      if w == 0 || n == 0
      then ok parts
      else (code (project (tile.tx * ctx.tile_w) (tile.ty * ctx.tile_h + start) cw (n + 1))
          >>= λ lattice.
              corner_rows lattice cw (n + 1) 0 (lattice.locator, replicate cw no_cell)
                (record { cell = []; in_bbox = [] })
              >>= λ lit. code (strides ctx tile.data_n_bands) >>= λ st.
                  code lattice.centres >>= λ centre_in.
                  interior_rows a5 ctx tile lit.1 lattice.boxed centre_in st w start n start
                    (record {
                      cache = new_cache;
                      store = empty_store (length tile.band_offsets) ctx.cfg;
                      boundary = [];
                    })
                  >>= λ pass.
                      boundary_chunks a5 lattice ctx tile lit.1 st cw start (k * k) w_sub
                        (length pass.boundary) pass.boundary
                        (record { locator = lit.0; cache = pass.cache; store = pass.store })
                      >>= λ done. code (absorb parts done.store ctx.slots))
