-- ===== src/Tiles/Stripe.antt =====
-- Pass 2 of `process_tile` of src/rust/src/read.rs, the cells of a row; and the whole stripe.
pub mod Returns
pub mod Whole
use a5px.Prelude.{
  ℕ, zero, suc, ◌+◌, ◌-◌, ◌*◌, List, [], ◌∷◌, Bool, true, not, ◌&&◌, ◌||◌, if◌then◌else◌, ◌==◌, set,
  length, replicate, min, Result, ok,
}
use a5px.Float.{F64}
use a5px.Stats.{Error}
use a5px.Layouts.{AccLayout}
use a5px.CellMask.{A5, new_cache, allows}
use a5px.Store.{empty_store, slot}
use a5px.Parts.{PartitionedStore, absorb}
use a5px.Rows.{Fault, ◌>>=◌, code, no_cell, no_slot, row_hints, runs_of}
use a5px.Tiles.{TileCtx, TileData, Geometry, Scan, strides, actual_dims, check_valid, mark_row}
use a5px.Tiles.Push.{push_row}

module _ {S A L : Type 0} ⦃f : F64 A⦄ ⦃l : AccLayout A L⦄ (a5 : A5) where
  -- Pass 2 at one pixel: its slot, or `no_slot`.
  pub scan_pixel :
      TileCtx A → Geometry S → Bool → ℕ → ℕ → Bool → Scan S A L → Result Fault (Scan S A L × ℕ)
  unfolding row_hints allows slot
  scan_pixel ctx geo check r c valid scan =
      let found = geo.locate scan.locator r c (row_hints scan.prev_row c) in
      let cell = found.1 in
      let located : Scan S A L = record scan { locator = found.0 } in
      let allowed = allows a5 scan.cache ctx.mask cell ctx.resolution in
      let asked : Scan S A L = record located {
        prev_row = set scan.prev_row c cell;
        cache = allowed.0;
      } in
      let slotted = slot scan.store cell in
      if check && not valid
      then ok (scan, no_slot)
      else (code (geo.inside r c) >>= λ inside.
          if not inside
          then ok (scan, no_slot)
          else if cell == no_cell
          then ok (located, no_slot)
          else if not allowed.1
          then ok (asked, no_slot)
          else ok (record asked { store = slotted.0 }, slotted.1))

  -- Pass 2 from column `c` on: the slots of the row's pixels.
  pub scan_row :
      TileCtx A
      → Geometry S
      → Bool
      → ℕ
      → ℕ
      → List Bool
      → Scan S A L
      → Result Fault (Scan S A L × List ℕ)
  unfolding scan_pixel
  scan_row ctx geo check r c [] scan = ok (scan, [])
  scan_row ctx geo check r c (valid ∷ any_valid) scan =
      scan_pixel ctx geo check r c valid scan >>= λ one.
      scan_row ctx geo check r (c + 1) any_valid one.0 >>= λ rest. ok (rest.0, one.1 ∷ rest.1)

module _ {S A L : Type 0} ⦃f : F64 A⦄ ⦃l : AccLayout A L⦄ (a5 : A5) where
  -- One row: the three passes.
  pub process_row :
      TileCtx A
      → TileData A
      → Geometry S
      → ℕ
      → ℕ × ℕ × ℕ
      → ℕ
      → Scan S A L × List Bool
      → Result Fault (Scan S A L × List Bool)
  unfolding mark_row scan_row push_row runs_of
  process_row ctx tile geo w strides r (scan, any_valid) =
      mark_row ctx tile w strides r any_valid >>= λ marks.
      scan_row a5 ctx geo (check_valid ctx tile) r 0 marks scan >>= λ scanned.
      push_row ctx tile strides r (runs_of w scanned.1) scanned.0.store >>= λ store.
      ok (record scanned.0 { store = store }, marks)

  -- The `n` rows from `r` on.
  pub process_rows :
      TileCtx A
      → TileData A
      → Geometry S
      → ℕ
      → ℕ × ℕ × ℕ
      → ℕ
      → ℕ
      → Scan S A L × List Bool
      → Result Fault (Scan S A L × List Bool)
  unfolding process_row
  process_rows ctx tile geo w strides zero r acc = ok acc
  process_rows ctx tile geo w strides (suc n) r acc =
      process_row ctx tile geo w strides r acc >>= λ acc'.
      process_rows ctx tile geo w strides n (r + 1) acc'

  -- `project` is the stripe's projector, from the tile's first column and the stripe's first row on.
  unfoldable pub process_tile :
      TileCtx A
      → TileData A
      → (ℕ → ℕ → ℕ → ℕ → Result Error (Geometry S))
      → ℕ × ℕ
      → PartitionedStore A L
      → Result Fault (PartitionedStore A L)
  unfolding actual_dims strides process_rows absorb empty_store new_cache
  process_tile ctx tile project rows parts =
      let dims = actual_dims ctx tile.tx tile.ty in
      let w = dims.0 in
      let start = min rows.0 dims.1 in
      let n = min rows.1 dims.1 - start in
      if w == 0 || n == 0
      then ok parts
      else (code (strides ctx tile.data_n_bands) >>= λ st.
          code (project (tile.tx * ctx.tile_w) (tile.ty * ctx.tile_h + start) w n) >>= λ geo.
          process_rows ctx tile geo w st n start (
            record {
              locator = geo.locator;
              prev_row = replicate w no_cell;
              cache = new_cache;
              store = empty_store (length tile.band_offsets) ctx.cfg;
            },
            replicate w true,
          )
          >>= λ done. code (absorb parts done.0.store ctx.slots))
