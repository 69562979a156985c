-- ===== src/Tiles/Push.antt =====
-- Pass 3 of `process_tile` of src/rust/src/read.rs, the runs of a row into the store; and `push_pixel`.
pub mod Adds
pub mod Runs
pub mod Pass
pub mod Returns
use a5px.Prelude.{
  ℕ, ◌+◌, ◌-◌, ◌*◌, List, [], ◌∷◌, Bool, if◌then◌else◌, set, modify, length, take, drop, replicate,
  Result, ok, err,
}
use a5px.Float.{F64}
use a5px.Stats.{Error, is_empty}
use a5px.Pixels.{TypedArray, read_run_values}
use a5px.Layouts.{AccLayout}
use a5px.Classes.{ClassWeights}
use a5px.Store.{CellStore, shared, add_npix, add_pixel_weight, add_band_weights, cat_push_at}
use a5px.Rows.{Fault, ◌>>=◌, code, need, Run}
use a5px.Tiles.{TileCtx, TileData, band_of}

module _ {A : Type 0} ⦃f : F64 A⦄ where
  -- `cat_push(m, v as i32, 1.0)` of each value.
  pub push_classes : List (ClassWeights A) → ℕ → List A → Result Error (List (ClassWeights A))
  push_classes cat at [] = ok cat
  push_classes cat at (v ∷ vals) = elim (cat_push_at cat at (f.to_i32 v) f.unit) [
    | err e ↦ err e
    | ok cat' ↦ push_classes cat' at vals
  ]

module _ {A L : Type 0} ⦃f : F64 A⦄ ⦃l : AccLayout A L⦄ where
  pub add_runs_npix : List Run → CellStore A L → CellStore A L
  unfolding add_npix
  add_runs_npix [] store = store
  add_runs_npix ((s, c0, c1) ∷ runs) store =
      add_runs_npix runs (add_npix store s (f.of_size (c1 - c0)))

  -- A run's values of one band into its slot.
  pub push_values : CellStore A L → ℕ → ℕ → List A → Result Error (CellStore A L)
  unfolding push_classes
  push_values store s b vals =
      let at = s * store.n_out + b in
      let cont =
        if store.cfg.has_cont
        then modify store.cont at (λ acc. l.push_run acc vals)
        else store.cont in
      if is_empty vals
      then ok store
      else elim (if store.cfg.has_cat then push_classes store.cat at vals else ok store.cat) [
        | err e ↦ err e
        | ok cat ↦ ok (record store { cont = cont; cat = cat })
      ]

  -- Pass 3's inner loop: the runs of one band, from run `ri` on, and the weights of the runs' bands.
  pub push_runs :
      TileCtx A
      → TypedArray A
      → ℕ
      → ℕ
      → ℕ
      → ℕ
      → List Run
      → CellStore A L × List A
      → Result Fault (CellStore A L × List A)
  unfolding read_run_values push_values
  push_runs ctx v w_stride band_base b ri [] (store, run_w) = ok (store, run_w)
  push_runs ctx v w_stride band_base b ri ((s, c0, c1) ∷ runs) (store, run_w) =
      need (
        read_run_values v (band_base + c0 * w_stride) w_stride (c1 - c0) ctx.nodata
          (band_of ctx.dequant b) [])
      >>= λ vals.
          let run_w' =
            if shared store
            then set run_w (ri * store.n_out + b) (f.of_size (length vals))
            else run_w in
          code (push_values store s b vals) >>= λ store'.
          push_runs ctx v w_stride band_base b (ri + 1) runs (store', run_w')

  -- Pass 3's outer loop, from band `b` on.
  pub push_bands :
      TileCtx A
      → TypedArray A
      → ℕ
      → ℕ
      → ℕ
      → ℕ
      → List ℕ
      → List Run
      → CellStore A L × List A
      → Result Fault (CellStore A L × List A)
  unfolding push_runs
  push_bands ctx v row_base w_stride b_stride b [] runs acc = ok acc
  push_bands ctx v row_base w_stride b_stride b (src_b ∷ offsets) runs acc =
      push_runs ctx v w_stride (row_base + src_b * b_stride) b 0 runs acc >>= λ acc'.
      push_bands ctx v row_base w_stride b_stride (b + 1) offsets runs acc'

  -- `add_band_weights` of each run, from run `ri` on.
  pub add_runs_weights : ℕ → List Run → List A → CellStore A L → CellStore A L
  unfolding add_band_weights
  add_runs_weights ri [] run_w store = store
  add_runs_weights ri ((s, c0, c1) ∷ runs) run_w store =
      let w = take store.n_out (drop (ri * store.n_out) run_w) in
      add_runs_weights (ri + 1) runs run_w (add_band_weights store s w)

  -- Pass 3: the runs of a row into the store.
  unfoldable pub push_row :
      TileCtx A
      → TileData A
      → ℕ × ℕ × ℕ
      → ℕ
      → List Run
      → CellStore A L
      → Result Fault (CellStore A L)
  unfolding add_runs_npix push_bands add_runs_weights
  push_row ctx tile (h_stride, w_stride, b_stride) r [] store = ok store
  push_row ctx tile (h_stride, w_stride, b_stride) r (run ∷ runs) store =
      let counted = if store.cfg.has_npix then add_runs_npix (run ∷ runs) store else store in
      let run_w = replicate (length (run ∷ runs) * store.n_out) f.naught in
      push_bands ctx tile.values (r * h_stride) w_stride b_stride 0 tile.band_offsets (run ∷ runs)
        (counted, run_w)
      >>= λ acc. ok (if shared store then add_runs_weights 0 (run ∷ runs) acc.1 acc.0 else acc.0)

  -- `push_pixel`, from band `b` on, past the weights.
  pub push_pixel_bands :
      CellStore A L → ℕ → ℕ → List A → List Bool → A → Result Error (CellStore A L)
  push_pixel_bands store s b [] valid w = ok store
  push_pixel_bands store s b (x ∷ vals) [] w = ok store
  push_pixel_bands store s b (x ∷ vals) (v ∷ valid) w =
      let at = s * store.n_out + b in
      let cont =
        if store.cfg.has_cont then modify store.cont at (λ acc. l.push acc x w) else store.cont in
      let cat =
        if store.cfg.has_cat then cat_push_at store.cat at (f.to_i32 x) w else ok store.cat in
      let pushed : Result Error (CellStore A L) = elim cat [
        | err e ↦ err e
        | ok cat' ↦ ok (record store { cont = cont; cat = cat' })
      ] in
      elim (if v then pushed else ok store) [
        | err e ↦ err e
        | ok store' ↦ push_pixel_bands store' s (b + 1) vals valid w
      ]

  unfoldable pub push_pixel :
      CellStore A L → ℕ → List A → List Bool → A → Result Error (CellStore A L)
  unfolding add_npix add_pixel_weight push_pixel_bands
  push_pixel store s band_vals band_valid w =
      push_pixel_bands (add_pixel_weight (add_npix store s w) s w band_valid) s 0 band_vals
        band_valid w
