-- ===== src/Tiles.antt =====
-- `process_tile` of src/rust/src/read.rs: one stripe of a tile into the partitioned store. What the
-- projector, the boxes, the polygons and the locator say of a pixel is `Geometry`, a parameter;
-- timers are left out. Products of tile sizes are indices into arrays in memory, and do not wrap.
pub mod Push
pub mod Stripe
pub mod Values
pub mod Places
use a5px.Prelude.{
  ℕ, zero, suc, ◌+◌, ◌-◌, ◌*◌, List, [], ◌∷◌, Bool, true, false, not, ◌&&◌, ◌||◌, Option, none,
  some, if◌then◌else◌, ltb, ◌==◌, set, modify, length, take, drop, replicate, min, Result, ok, err,
}
use a5px.Prelude.Int.{ℤ}
use a5px.Float.{F64}
use a5px.Stats.{Error, unsupported, AccCfg, is_empty}
use a5px.Decode.{Decode, BandDecode, band, may_yield_nan}
use a5px.Pixels.{TypedArray, read_run_values}
use a5px.Layouts.{AccLayout}
use a5px.Classes.{ClassWeights}
use a5px.CellMask.{A5, CellMask, MaskCache, new_cache, allows}
use a5px.Store.{
  CellStore, empty_store, slot, shared, add_npix, add_pixel_weight, add_band_weights, cat_push_at,
}
use a5px.Parts.{PartitionedStore, absorb}
use a5px.Rows.{
  Fault, panic, ◌>>=◌, code, need, no_cell, no_slot, row_hints, Run, runs_of, mark_bands, and_each,
}

-- `async_tiff::tags::PlanarConfiguration`
pub data PlanarConfiguration : Type 0 where
  chunky planar other : PlanarConfiguration

pub record TileCtx (A : Type 0) : Type 0 where
  pub width : ℕ
  pub height : ℕ
  pub tile_w : ℕ
  pub tile_h : ℕ
  pub planar : PlanarConfiguration
  pub resolution : ℤ
  pub nodata : Option A
  pub dequant : Option (Decode A)
  pub mask : Option CellMask
  pub cfg : AccCfg
  pub slots : Option (List ℕ)

pub record TileData (A : Type 0) : Type 0 where
  pub tx : ℕ
  pub ty : ℕ
  pub values : TypedArray A
  pub data_n_bands : ℕ
  pub band_offsets : List ℕ
  pub mask : Option (List Bool)

-- A stripe's geometry. `S` is the locator's state; a pixel is given by its row and column in the tile.
pub record Geometry (S : Type 0) : Type 0 where
  pub locator : S
  -- inside the boxes and the polygons
  pub inside : ℕ → ℕ → Result Error Bool
  -- the cell, or `no_cell`, given the hints of the row above
  pub locate : S → ℕ → ℕ → List ℕ → S × ℕ

-- The strides of (row, column, band) in the decoded buffer.
abbrev pub strides_of : PlanarConfiguration → ℕ → ℕ → ℕ → Result Error (ℕ × ℕ × ℕ)
strides_of chunky w h n_bands = ok (w * n_bands, n_bands, 1)
strides_of planar w h n_bands = ok (w, 1, h * w)
strides_of other w h n_bands = err unsupported

unfoldable pub strides : {A : Type 0} → TileCtx A → ℕ → Result Error (ℕ × ℕ × ℕ)
strides ctx n_bands = strides_of ctx.planar ctx.tile_w ctx.tile_h n_bands

unfoldable pub actual_dims : {A : Type 0} → TileCtx A → ℕ → ℕ → ℕ × ℕ
actual_dims ctx tx ty =
    (min ctx.tile_w (ctx.width - tx * ctx.tile_w), min ctx.tile_h (ctx.height - ty * ctx.tile_h))

abbrev pub is_float : {A : Type 0} → TypedArray A → Bool
is_float (TypedArray.float32 v) = true
is_float (TypedArray.float64 v) = true
is_float _ = false

abbrev pub is_some {ℓ} : {A : Type ℓ} → Option A → Bool
is_some none = false
is_some (some a) = true

abbrev pub decode_nan : {A : Type 0} → Option (Decode A) → Bool
decode_nan none = false
decode_nan (some d) = may_yield_nan d

-- `dequant.map(|d| d.band(b))`
abbrev pub band_of : {A : Type 0} → ⦃f : F64 A⦄ → Option (Decode A) → ℕ → Option (BandDecode A)
band_of none b = none
band_of (some d) b = some (band d b)

-- The part of the mask for `w` columns of row `r`, or a panic.
abbrev pub mask_row : List Bool → ℕ → ℕ → ℕ → Result Fault (List Bool)
mask_row m r tile_w w =
    if ltb (length m) (r * tile_w + w) then err panic else ok (take w (drop (r * tile_w) m))

-- Pass 1's mask.
abbrev pub mask_marks : Option (List Bool) → ℕ → ℕ → ℕ → List Bool → Result Fault (List Bool)
mask_marks none r tile_w w marks = ok marks
mask_marks (some m) r tile_w w marks = mask_row m r tile_w w >>= λ row. ok (and_each marks row)

-- What a scan of rows keeps.
pub record Scan (S A L : Type 0) : Type 0 where
  pub locator : S
  pub prev_row : List ℕ
  pub cache : MaskCache
  pub store : CellStore A L

module _ {A : Type 0} ⦃f : F64 A⦄ where
  abbrev pub check_bands : TileCtx A → TileData A → Bool
  check_bands ctx tile = is_some ctx.nodata || is_float tile.values || decode_nan ctx.dequant

  abbrev pub check_valid : TileCtx A → TileData A → Bool
  check_valid ctx tile = check_bands ctx tile || is_some tile.mask

  -- Each band's start in the row, and the decode that the sweep has to try.
  abbrev pub sweep_bands : TileCtx A → ℕ → ℕ → ℕ → List ℕ → List (ℕ × Option (BandDecode A))
  sweep_bands ctx row_base b_stride b [] = []
  sweep_bands ctx row_base b_stride b (src_b ∷ offsets) =
      let d = if decode_nan ctx.dequant then band_of ctx.dequant b else none in
      (row_base + src_b * b_stride, d) ∷ sweep_bands ctx row_base b_stride (b + 1) offsets

  -- Pass 1: which of the `w` pixels of row `r` have a valid band.
  unfoldable pub mark_row :
      TileCtx A → TileData A → ℕ → ℕ × ℕ × ℕ → ℕ → List Bool → Result Fault (List Bool)
  unfolding mark_bands
  mark_row ctx tile w (h_stride, w_stride, b_stride) r any_valid =
      let bands = sweep_bands ctx (r * h_stride) b_stride 0 tile.band_offsets in
      let swept =
        if check_bands ctx tile
        then need (mark_bands tile.values w_stride w ctx.nodata 0 bands (replicate w false))
        else if check_valid ctx tile
        then ok (replicate w true)
        else ok any_valid in
      swept >>= mask_marks tile.mask r ctx.tile_w w
