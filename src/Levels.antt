-- ===== src/Levels.antt =====
-- Overviews of src/rust/src/read.rs: the levels that a read may take, and the one it takes.
pub mod Common
use a5px.Prelude.{
  ℕ, zero, suc, ◌+◌, ◌/◌, ◌%◌, List, [], ◌∷◌, Bool, true, false, not, ◌&&◌, ◌||◌, Option, none,
  some, if◌then◌else◌, ltb, leb, ◌==◌, length, replicate, map, Result, ok, err, ◌>>=◌, collect,
}
use a5px.Prelude.Sort.{sort_by}
use a5px.Float.{F64}
use a5px.Composite.{Total}
use a5px.Stats.{Error, unsupported}
use a5px.Georef.{Directory, GeoTransform, extract_geotransform}

-- The cosine of degrees, 1e-6 and 0.01.
pub record Ground (A : Type 0) : Type 0 where
  pub cos_degrees : A → A
  pub least_cos : A
  pub factor_tol : A

-- A level's directory, and its factors.
abbrev pub OverviewLevel : Type 0 → Type 0
OverviewLevel A = ℕ × (A × A)

-- A level's directory, its factors and the longer side of its pixels.
abbrev pub SizedLevel : Type 0 → Type 0
SizedLevel A = ℕ × (A × (A × A))

-- An opened source: its directories past the first, and what is known of the first.
pub record LevelSource (A : Type 0) : Type 0 where
  pub ifd0 : Directory A
  pub others : List (Directory A)
  pub n_bands : ℕ
  -- whether its projection is in degrees: `build_src_proj(geo)?.is_latlong()`, where it has geo keys
  pub is_latlong : Result Error Bool

abbrev pub is_some : {T : Type 0} → Option T → Bool
is_some none = false
is_some (some x) = true

-- Not a reduced image, or a mask.
abbrev pub is_other : Option ℕ → Bool
is_other none = false
is_other (some st) = st % 2 == 0 || not (st / 4 % 2 == 0)

abbrev pub suits : {A : Type 0} → ℕ → ℕ → ℕ → Directory A → Bool
suits full_w full_h n_bands ifd =
    not (is_other ifd.new_subfile_type)
    && not (
        ifd.image_width == 0
        || ifd.image_height == 0
        || leb full_w ifd.image_width
        || leb full_h ifd.image_height)
    && ifd.samples_per_pixel == n_bands
    && is_some ifd.tile_width
    && is_some ifd.tile_height

module _ {A : Type 0} ⦃f : F64 A⦄ (t : Total A) (earth : Ground A) where
  abbrev pub min_oversample : A
  min_oversample = f.of_size 4

  unfoldable pub pixel_size_m : GeoTransform A → Bool → A → A × A
  pixel_size_m gt is_latlong centre_lat =
      let dx = t.greatest (t.abs gt.x_col) (t.abs gt.x_row) in
      let dy = t.greatest (t.abs gt.y_col) (t.abs gt.y_row) in
      let m_per_deg = f.of_size 111_320 in
      let coslat = t.greatest (t.abs (earth.cos_degrees centre_lat)) earth.least_cos in
      if is_latlong then (f.mul (f.mul dx m_per_deg) coslat, f.mul dy m_per_deg) else (dx, dy)

  -- The directories from `i` on.
  abbrev pub levels_from : ℕ → ℕ → ℕ → ℕ → List (Directory A) → List (OverviewLevel A)
  levels_from i full_w full_h n_bands [] = []
  levels_from i full_w full_h n_bands (ifd ∷ ifds) =
      let rest = levels_from (i + 1) full_w full_h n_bands ifds in
      if suits full_w full_h n_bands ifd
      then (
        i,
        (
          f.div (f.of_size full_w) (f.of_size ifd.image_width),
          f.div (f.of_size full_h) (f.of_size ifd.image_height),
        ),
      )
        ∷ rest
      else rest

  unfoldable pub overview_levels : List (Directory A) → ℕ → ℕ → ℕ → List (OverviewLevel A)
  overview_levels others full_w full_h n_bands =
      if full_w == 0 || full_h == 0 then [] else levels_from 1 full_w full_h n_bands others

  abbrev pub longer_side : A × A → A × A → A
  longer_side px factors = t.greatest (f.mul px.0 factors.0) (f.mul px.1 factors.1)

  -- The loop: the coarsest level so far that fits, and its pixel size.
  abbrev pub pick_level : A → A × A → ℕ → A → List (OverviewLevel A) → ℕ
  pick_level budget px best best_px [] = best
  pick_level budget px best best_px ((i, factors) ∷ levels) =
      let pmax = longer_side px factors in
      let better = f.le pmax budget && f.lt best_px pmax in
      pick_level budget px (if better then i else best) (if better then pmax else best_px) levels

  abbrev pub centre_lat : GeoTransform A → ℕ → A
  centre_lat gt height = f.add gt.y0 (f.mul (f.mul (f.of_size height) t.half) gt.y_row)

  unfoldable pub select_overview_level :
      List (Directory A) → ℕ → ℕ → ℕ → GeoTransform A → Bool → A → ℕ
  unfolding overview_levels pixel_size_m
  select_overview_level others full_w full_h n_bands gt0 src_is_latlong target =
      let px = pixel_size_m gt0 src_is_latlong (centre_lat gt0 full_h) in
      if not (f.lt f.naught target) || full_w == 0 || full_h == 0
      then 0
      else pick_level (f.div target min_oversample) px 0 f.neg_infinity
          (overview_levels others full_w full_h n_bands)

  abbrev pub close : A → A → Bool
  close a b = f.le (t.abs (f.sub a b)) (f.mul earth.factor_tol (t.greatest a b))

  abbrev pub level_fits : A → SizedLevel A → SizedLevel A → Bool
  level_fits budget (i0, (fx, (fy, p0))) (i, (gx, (gy, p))) =
      close gx fx && close gy fy && f.le p budget

  -- `lv.iter().find(...)`
  abbrev pub find_level : A → SizedLevel A → List (SizedLevel A) → Option (SizedLevel A)
  find_level budget l [] = none
  find_level budget l (m ∷ levels) =
      let rest = find_level budget l levels in if level_fits budget l m then some m else rest

  abbrev pub add_level : Option (SizedLevel A) → Option (List ℕ) → Option (List ℕ)
  add_level none rest = none
  add_level (some m) none = none
  add_level (some m) (some rest) = some (m.0 ∷ rest)

  -- The levels of the other sources that go with a level of the first, where each has one.
  abbrev pub match_levels : A → SizedLevel A → List (List (SizedLevel A)) → Option (List ℕ)
  match_levels budget l [] = some []
  match_levels budget l (lv ∷ per) = add_level (find_level budget l lv) (match_levels budget l per)

  -- The loop over the levels of the first source.
  abbrev pub take_level : SizedLevel A → Option (List ℕ) → Option (List ℕ) → Option (List ℕ)
  take_level l (some levels) rest = some (l.0 ∷ levels)
  take_level l none rest = rest

  abbrev pub pick_common : A → List (SizedLevel A) → List (List (SizedLevel A)) → Option (List ℕ)
  pick_common budget [] per = none
  pick_common budget (l ∷ first) per =
      let rest = pick_common budget first per in
      if f.lt budget l.1.1.1 then rest else take_level l (match_levels budget l per) rest

  -- Coarser first.
  abbrev pub coarser : SizedLevel A → SizedLevel A → Bool
  coarser a b = t.total_le b.1.1.1 a.1.1.1

  -- One level per source, given the levels of each.
  unfoldable pub choose_levels : A → List (List (SizedLevel A)) → List ℕ
  choose_levels budget [] = []
  choose_levels budget (lv ∷ per) = elim (pick_common budget (sort_by coarser lv) per) [
    | some levels ↦ levels
    | none ↦ replicate (length (lv ∷ per)) 0
  ]

  -- The levels of one source, with their pixel sizes.
  unfoldable pub source_levels : LevelSource A → Result Error (List (SizedLevel A))
  unfolding extract_geotransform overview_levels pixel_size_m
  source_levels s = s.is_latlong >>= λ latlong. extract_geotransform t s.ifd0 >>= λ gt0.
      let w = s.ifd0.image_width in
      let h = s.ifd0.image_height in
      let px = pixel_size_m gt0 latlong (centre_lat gt0 h) in
      ok (
        map (λ l. (l.0, (l.1.0, (l.1.1, longer_side px l.1))))
          (overview_levels s.others w h s.n_bands))

  unfoldable pub common_overview_levels : List (LevelSource A) → A → Result Error (List ℕ)
  unfolding source_levels choose_levels
  common_overview_levels sources target =
      if not (f.lt f.naught target)
      then ok (replicate (length sources) 0)
      else (collect source_levels sources >>= λ per.
          ok (choose_levels (f.div target min_oversample) per))

-- The transform of a level that spans the same earth.
unfoldable pub derive_level_geotransform :
    {A : Type 0} ⦃f : F64 A⦄ → GeoTransform A → ℕ → ℕ → ℕ → ℕ → GeoTransform A
derive_level_geotransform ⦃f⦄ gt0 full_w full_h lw lh =
    let sx = f.div (f.of_size full_w) (f.of_size lw) in
    let sy = f.div (f.of_size full_h) (f.of_size lh) in
    record gt0 {
      x_col = f.mul gt0.x_col sx;
      x_row = f.mul gt0.x_row sy;
      y_col = f.mul gt0.y_col sx;
      y_row = f.mul gt0.y_row sy;
    }

abbrev pub has_width : Option ℕ → ℕ → Bool
has_width none n = false
has_width (some w) n = w == n

-- Bit 2 of the subfile type.
abbrev pub is_mask : Option ℕ → Bool
is_mask none = false
is_mask (some st) = not (st / 4 % 2 == 0)

-- The mask of a level, among all directories.
unfoldable pub find_mask_ifd :
    {A : Type 0} → List (Directory A) → ℕ → ℕ → ℕ → ℕ → Result Error (Option (Directory A))
find_mask_ifd [] width height tile_w tile_h = ok none
find_mask_ifd (ifd ∷ ifds) width height tile_w tile_h =
    let rest = find_mask_ifd ifds width height tile_w tile_h in
    if not (is_mask ifd.new_subfile_type)
      || not (ifd.image_width == width)
      || not (ifd.image_height == height)
    then rest
    else if not (has_width ifd.tile_width tile_w) || not (has_width ifd.tile_height tile_h)
    then err unsupported
    else ok (some ifd)
