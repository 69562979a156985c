-- ===== src/Tiles/Stripe/Whole.antt =====
-- `process_tile` of src/rust/src/read.rs, from its rows to the whole stripe, returns.
use a5px.Prelude.{
  ℕ, zero, suc, ◌+◌, ◌-◌, ◌*◌, ◌≤◌, ◌<◌, ◌≡◌, refl, ◌∙◌, ap, arith, List, [], ◌∷◌, Bool, true,
  false, not, ◌&&◌, ◌||◌, if◌then◌else◌, ◌==◌, set, length, replicate, min, All, Result, ok,
  Bool-cases, inl, inr, length-replicate,
}
use a5px.Float.{F64}
use a5px.Stats.{Error}
use a5px.Layouts.{AccLayout}
use a5px.CellMask.{A5, new_cache, allows}
use a5px.Store.{empty_store, slot}
use a5px.Store.Merge.Returns.{slot-cfg}
use a5px.Parts.{PartitionedStore}
use a5px.Parts.Returns.{absorb-in}
use a5px.Rows.{Fault, ◌>>=◌, code, no_cell, no_slot, row_hints, runs_of}
use a5px.Rows.Bounds.{runs_of-Within}
use a5px.Tiles.{TileCtx, TileData, Geometry, Scan, strides_of, strides, actual_dims, check_valid}
use a5px.Tiles.Push.Returns.{push_row-in}
use a5px.Tiles.Stripe.{scan_pixel, scan_row, process_row, process_rows, process_tile}
use a5px.Tiles.Stripe.Returns.{IsWhole, row-InBounds, mark_row-in}

-- The boxes and the polygons decide every pixel.
abbrev pub Decides : {S : Type 0} → Geometry S → Type 0
Decides geo = (r c : ℕ) → (b : Bool) × (geo.inside r c ≡ ok b)

module _ {S A L : Type 0} ⦃f : F64 A⦄ ⦃l : AccLayout A L⦄ (a5 : A5) (ctx : TileCtx A)
    (tile : TileData A) where
  chosen_scan :
      (on : Bool) (x : Result Fault (Scan S A L × ℕ)) (y : Scan S A L × ℕ) (scan : Scan S A L)
      → y.0.store.cfg ≡ scan.store.cfg
      → (out : Scan S A L × ℕ) × (x ≡ ok out) × (out.0.store.cfg ≡ scan.store.cfg)
      → (out : Scan S A L × ℕ) × ((if on then ok y else x) ≡ ok out)
        × (out.0.store.cfg ≡ scan.store.cfg)
  chosen_scan true x y scan kept found = (y, refl, kept)
  chosen_scan false x y scan kept found = found

  scan_pixel-in :
      (geo : Geometry S) (check : Bool) (r c : ℕ) (valid : Bool) (scan : Scan S A L)
      → Decides geo
      → (out : Scan S A L × ℕ) × (scan_pixel a5 ctx geo check r c valid scan ≡ ok out)
        × (out.0.store.cfg ≡ scan.store.cfg)
  unfolding scan_pixel
  scan_pixel-in geo check r c valid scan decides =
      let found = geo.locate scan.locator r c (row_hints scan.prev_row c) in
      let cell = found.1 in
      let located : Scan S A L = record scan { locator = found.0 } in
      let allowed = allows a5 scan.cache ctx.mask cell ctx.resolution in
      let asked : Scan S A L = record located {
        prev_row = set scan.prev_row c cell;
        cache = allowed.0;
      } in
      let slotted = slot scan.store cell in
      let last : Scan S A L = record asked { store = slotted.0 } in
      let (inside, decided) = decides r c in
      let (out, ran, cfg) =
        chosen_scan (not inside) _ (scan, no_slot) scan refl
          (chosen_scan (cell == no_cell) _ (located, no_slot) scan refl
            (chosen_scan (not allowed.1) _ (asked, no_slot) scan refl
              ((last, slotted.1), refl, slot-cfg scan.store cell))) in
      chosen_scan (check && not valid) _ (scan, no_slot) scan refl
        (
          out,
          ap
                (λ d. code d >>= (λ inside'.
                  if not inside'
                  then ok (scan, no_slot)
                  else if cell == no_cell
                  then ok (located, no_slot)
                  else if not allowed.1
                  then ok (asked, no_slot)
                  else ok (last, slotted.1)))
                decided
              ∙ ran,
          cfg,
        )

  scan_row-in :
      (geo : Geometry S) (check : Bool) (r c : ℕ) (any_valid : List Bool) (scan : Scan S A L)
      → Decides geo
      → (out : Scan S A L × List ℕ) × (scan_row a5 ctx geo check r c any_valid scan ≡ ok out)
        × (out.0.store.cfg ≡ scan.store.cfg)
  unfolding scan_row
  scan_row-in geo check r c [] scan decides = ((scan, []), refl, refl)
  scan_row-in geo check r c (valid ∷ any_valid) scan decides =
      let (one, ran, cfg) = scan_pixel-in geo check r c valid scan decides in
      let (rest, ran', cfg') = scan_row-in geo check r (c + 1) any_valid one.0 decides in
      ((rest.0, one.1 ∷ rest.1), rw (ran, ran') refl, cfg' ∙ cfg)

  process_row-in :
      (geo : Geometry S) (w r : ℕ) (st : ℕ × ℕ × ℕ) (acc : Scan S A L × List Bool)
      → IsWhole ctx tile
      → strides_of ctx.planar ctx.tile_w ctx.tile_h tile.data_n_bands ≡ ok st
      → Decides geo
      → r < ctx.tile_h
      → w ≤ ctx.tile_w
      → length acc.1 ≡ w
      → acc.0.store.cfg.has_cat ≡ false
      → (out : Scan S A L × List Bool) × (process_row a5 ctx tile geo w st r acc ≡ ok out)
        × (length out.1 ≡ w)
        × (out.0.store.cfg ≡ acc.0.store.cfg)
  unfolding process_row
  process_row-in geo w r st (scan, any_valid) whole laid decides row cols len off =
      let bounds =
        row-InBounds ctx tile st r w tile.band_offsets laid whole.sized whole.banded row cols in
      let (marks, marked, len') = mark_row-in ctx tile st r w any_valid whole row cols len bounds in
      let (scanned, ran, cfg) = scan_row-in geo (check_valid ctx tile) r 0 marks scan decides in
      let (store, pushed, cfg') =
        push_row-in ctx tile st.0 st.1 st.2 r w (runs_of w scanned.1) scanned.0.store
          (ap (λ c. c.has_cat) cfg ∙ off) bounds (runs_of-Within w scanned.1) in
      let done : Scan S A L = record scanned.0 { store = store } in
      ((done, marks), rw (marked, ran, pushed) refl, len', cfg' ∙ cfg)

  process_rows-in :
      (geo : Geometry S) (w : ℕ) (st : ℕ × ℕ × ℕ) (n r : ℕ) (acc : Scan S A L × List Bool)
      → IsWhole ctx tile
      → strides_of ctx.planar ctx.tile_w ctx.tile_h tile.data_n_bands ≡ ok st
      → Decides geo
      → r + n ≤ ctx.tile_h
      → w ≤ ctx.tile_w
      → length acc.1 ≡ w
      → acc.0.store.cfg.has_cat ≡ false
      → (out : Scan S A L × List Bool) × (process_rows a5 ctx tile geo w st n r acc ≡ ok out)
  unfolding process_rows
  process_rows-in geo w st zero r acc whole laid decides rows cols len off = (acc, refl)
  process_rows-in geo w st (suc n) r acc whole laid decides rows cols len off =
      let (next, ran, len', cfg) =
        process_row-in geo w r st acc whole laid decides (omega arith) cols len off in
      let (last, rest) =
        process_rows-in geo w st n (r + 1) next whole laid decides (omega arith) cols len'
          (ap (λ c. c.has_cat) cfg ∙ off) in
      (last, rw ran rest)

  -- A stripe is processed without an error and without a read out of bounds of the buffer or the mask
  -- where the block is whole, its layout is chunky or planar, the projector returns, the boxes and the
  -- polygons decide every pixel, and no class weights are kept.
  pub process_tile-returns :
      (project : ℕ → ℕ → ℕ → ℕ → Result Error (Geometry S)) (rows : ℕ × ℕ) (st : ℕ × ℕ × ℕ)
      (parts : PartitionedStore A L)
      → IsWhole ctx tile
      → strides ctx tile.data_n_bands ≡ ok st
      → ((x y w h : ℕ) → (geo : Geometry S) × (project x y w h ≡ ok geo) × Decides geo)
      → ctx.cfg.has_cat ≡ false
      → All (λ s. s.cfg.has_cat ≡ false) parts.parts
      → (parts' : PartitionedStore A L) × (process_tile a5 ctx tile project rows parts ≡ ok parts')
  unfolding process_tile strides actual_dims empty_store
  process_tile-returns project rows st parts whole laid projects off offs =
      let dims = actual_dims ctx tile.tx tile.ty in
      let w = dims.0 in
      let start = min rows.0 dims.1 in
      let n = min rows.1 dims.1 - start in
      let (geo, projected, decides) =
        projects (tile.tx * ctx.tile_w) (tile.ty * ctx.tile_h + start) w n in
      let begin : Scan S A L = record {
        locator = geo.locator;
        prev_row = replicate w no_cell;
        cache = new_cache;
        store = empty_store (length tile.band_offsets) ctx.cfg;
      } in
      elim (Bool-cases (w == 0 || n == 0)) [
        | inl nothing ↦ (parts, rw nothing refl)
        | inr some_pixels ↦
            let (done, ran) =
              process_rows-in geo w st n start (begin, replicate w true) whole laid decides
                (ground arith) (ground arith) (length-replicate w true) off in
            let (parts', absorbed) = absorb-in parts done.0.store ctx.slots offs in
            (parts', rw (some_pixels, laid, projected, ran, absorbed) refl)
      ]
