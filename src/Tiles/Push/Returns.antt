-- ===== src/Tiles/Push/Returns.antt =====
-- Pass 3 of `process_tile` of src/rust/src/read.rs returns where its reads are within the buffer.
use a5px.Prelude.{
  ℕ, ◌+◌, ◌-◌, ◌*◌, ◌≤◌, ◌≡◌, refl, ◌∙◌, ap, arith, List, [], ◌∷◌, Bool, true, false, if◌then◌else◌,
  set, modify, length, replicate, All, ok,
}
use a5px.Float.{F64}
use a5px.Pixels.{TypedArray}
use a5px.Pixels.Bounds.{InBounds, read_run_values-in}
use a5px.Layouts.{AccLayout}
use a5px.Store.{CellStore, shared}
use a5px.Rows.{Run}
use a5px.Rows.Bounds.{Within}
use a5px.Tiles.{TileCtx, TileData, band_of}
use a5px.Tiles.Push.{push_values, push_runs, push_bands, add_runs_npix, add_runs_weights, push_row}
use a5px.Tiles.Push.Adds.{add_runs_npix-Pushed_when, add_runs_weights-Pushed}

InBounds-part :
    {A : Type 0} (v : TypedArray A) (base stride w c0 c1 : ℕ)
    → InBounds v base stride w
    → c1 ≤ w
    → InBounds v (base + c0 * stride) stride (c1 - c0)
InBounds-part v base stride w c0 c1 h fit k lt =
    let e : base + c0 * stride + k * stride ≡ base + (c0 + k) * stride = grind arith in
    rw e (h (c0 + k) (omega arith))

module _ {A L : Type 0} ⦃f : F64 A⦄ ⦃l : AccLayout A L⦄ where
  push_values-in :
      (store : CellStore A L) (s b : ℕ) (vals : List A)
      → store.cfg.has_cat ≡ false
      → (store' : CellStore A L) × (push_values store s b vals ≡ ok store')
        × (store'.cfg ≡ store.cfg)
  unfolding push_values
  push_values-in store s b [] off = (store, refl, refl)
  push_values-in store s b (x ∷ vals) off =
      let cont =
        if store.cfg.has_cont
        then modify store.cont (s * store.n_out + b) (λ acc. l.push_run acc (x ∷ vals))
        else store.cont in
      let pushed : CellStore A L = record store { cont = cont; cat = store.cat } in
      (pushed, simp off refl, refl)

  push_runs-in :
      (ctx : TileCtx A) (v : TypedArray A) (w_stride base b ri w : ℕ) (runs : List Run)
      (store : CellStore A L) (run_w : List A)
      → store.cfg.has_cat ≡ false
      → InBounds v base w_stride w
      → All (Within w) runs
      → (out : CellStore A L × List A) × (push_runs ctx v w_stride base b ri runs (store, run_w)
          ≡ ok out)
        × (out.0.cfg ≡ store.cfg)
  unfolding push_runs
  push_runs-in ctx v w_stride base b ri w [] store run_w off bounds fits =
      ((store, run_w), refl, refl)
  push_runs-in ctx v w_stride base b ri w ((s, c0, c1) ∷ runs) store run_w off bounds (fit, fits) =
      let (vals, read) =
        read_run_values-in v ctx.nodata (band_of ctx.dequant b) (c1 - c0) (base + c0 * w_stride)
          w_stride [] (InBounds-part v base w_stride w c0 c1 bounds fit.1) in
      let (store', pushed, cfg) = push_values-in store s b vals off in
      let run_w' =
        if shared store
        then set run_w (ri * store.n_out + b) (f.of_size (length vals))
        else run_w in
      let (out, rest, cfg') =
        push_runs-in ctx v w_stride base b (ri + 1) w runs store' run_w'
          (ap (λ c. c.has_cat) cfg ∙ off) bounds fits in
      (out, rw (read, pushed) rest, cfg' ∙ cfg)

  push_bands-in :
      (ctx : TileCtx A) (v : TypedArray A) (row_base w_stride b_stride b w : ℕ) (offsets : List ℕ)
      (runs : List Run) (acc : CellStore A L × List A)
      → acc.0.cfg.has_cat ≡ false
      → All (λ src_b. InBounds v (row_base + src_b * b_stride) w_stride w) offsets
      → All (Within w) runs
      → (out : CellStore A L × List A) × (push_bands ctx v row_base w_stride b_stride b offsets runs
            acc
          ≡ ok out)
        × (out.0.cfg ≡ acc.0.cfg)
  unfolding push_bands
  push_bands-in ctx v row_base w_stride b_stride b w [] runs acc off bounds fits = (acc, refl, refl)
  push_bands-in ctx v row_base w_stride b_stride b w (src_b ∷ offsets) runs acc off (here, there)
        fits =
      let (acc', pushed, cfg) =
        push_runs-in ctx v w_stride (row_base + src_b * b_stride) b 0 w runs acc.0 acc.1 off here
          fits in
      let (out, rest, cfg') =
        push_bands-in ctx v row_base w_stride b_stride (b + 1) w offsets runs acc'
          (ap (λ c. c.has_cat) cfg ∙ off) there fits in
      (out, rw pushed rest, cfg' ∙ cfg)

  weighed :
      (on : Bool) (runs : List Run) (acc : CellStore A L × List A)
      → (if on then add_runs_weights 0 runs acc.1 acc.0 else acc.0).cfg ≡ acc.0.cfg
  weighed true runs acc = (add_runs_weights-Pushed runs 0 acc.1 acc.0).1
  weighed false runs acc = refl

  pub push_row-in :
      (ctx : TileCtx A) (tile : TileData A) (h_stride w_stride b_stride r w : ℕ) (runs : List Run)
      (store : CellStore A L)
      → store.cfg.has_cat ≡ false
      → All
          (λ src_b. InBounds tile.values (r * h_stride + src_b * b_stride) w_stride w)
          tile.band_offsets
      → All (Within w) runs
      → (store' : CellStore A L) × (push_row ctx tile (h_stride, w_stride, b_stride) r runs store
          ≡ ok store')
        × (store'.cfg ≡ store.cfg)
  unfolding push_row
  push_row-in ctx tile h_stride w_stride b_stride r w [] store off bounds fits = (store, refl, refl)
  push_row-in ctx tile h_stride w_stride b_stride r w (run ∷ runs) store off bounds fits =
      let counted = if store.cfg.has_npix then add_runs_npix (run ∷ runs) store else store in
      let run_w = replicate (length (run ∷ runs) * store.n_out) f.naught in
      let cfg : counted.cfg ≡ store.cfg =
        (add_runs_npix-Pushed_when store.cfg.has_npix (run ∷ runs) store).1 in
      let (acc, pushed, cfg') =
        push_bands-in ctx tile.values (r * h_stride) w_stride b_stride 0 w tile.band_offsets
          (run ∷ runs) (counted, run_w) (ap (λ c. c.has_cat) cfg ∙ off) bounds fits in
      let done = if shared store then add_runs_weights 0 (run ∷ runs) acc.1 acc.0 else acc.0 in
      (done, rw pushed refl, weighed (shared store) (run ∷ runs) acc ∙ cfg' ∙ cfg)
