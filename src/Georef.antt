-- ===== src/Georef.antt =====
-- The geotransform of src/rust/src/geo.rs, from the tags of an image directory.
pub mod Errors
use a5px.Prelude.{
  ℕ, List, [], ◌∷◌, Bool, true, false, ◌||◌, Option, none, some, if◌then◌else◌, ltb, ◌==◌, length,
  get_or, Result, ok, err, ◌>>=◌,
}
use a5px.Float.{F64}
use a5px.Composite.{Total}
use a5px.Stats.{Error, invalid, missing_geo_key}

-- The tags of an image directory that are read for its place and its levels.
pub record Directory (A : Type 0) : Type 0 where
  pub new_subfile_type : Option ℕ
  pub image_width : ℕ
  pub image_height : ℕ
  pub samples_per_pixel : ℕ
  pub tile_width : Option ℕ
  pub tile_height : Option ℕ
  pub model_transformation : Option (List A)
  pub model_pixel_scale : Option (List A)
  pub model_tiepoint : Option (List A)
  pub raster_type : Option ℕ

-- The six numbers, in GDAL's order.
pub record GeoTransform (A : Type 0) : Type 0 where
  pub x0 : A
  pub x_col : A
  pub x_row : A
  pub y0 : A
  pub y_col : A
  pub y_row : A

abbrev pub is_point : Option ℕ → Bool
is_point none = false
is_point (some k) = k == 2

module _ {A : Type 0} ⦃f : F64 A⦄ where
  -- `pixel_xy`
  abbrev pub pixel_xy : GeoTransform A → A → A → A × A
  pixel_xy gt col row = (
    f.add (f.add gt.x0 (f.mul col gt.x_col)) (f.mul row gt.x_row),
    f.add (f.add gt.y0 (f.mul col gt.y_col)) (f.mul row gt.y_row),
  )

  abbrev pub from_matrix : List A → Result Error (GeoTransform A)
  from_matrix m =
      if ltb (length m) 16
      then err invalid
      else ok (record {
        x0 = get_or m 3 f.naught;
        x_col = get_or m 0 f.naught;
        x_row = get_or m 1 f.naught;
        y0 = get_or m 7 f.naught;
        y_col = get_or m 4 f.naught;
        y_row = get_or m 5 f.naught;
      })

  abbrev pub from_scale : List A → List A → Result Error (GeoTransform A)
  from_scale scale tie =
      let sx = get_or scale 0 f.naught in
      let sy = get_or scale 1 f.naught in
      if ltb (length scale) 3 || ltb (length tie) 6
      then err invalid
      else ok (record {
        x0 = f.sub (get_or tie 3 f.naught) (f.mul (get_or tie 0 f.naught) sx);
        x_col = sx;
        x_row = f.naught;
        y0 = f.add (get_or tie 4 f.naught) (f.mul (get_or tie 1 f.naught) sy);
        y_col = f.naught;
        y_row = f.neg sy;
      })

  -- The scale and the tie point, both of which must be there.
  abbrev pub from_tags : Option (List A) → Option (List A) → Result Error (GeoTransform A)
  from_tags none tie = err missing_geo_key
  from_tags (some scale) none = err missing_geo_key
  from_tags (some scale) (some tie) = from_scale scale tie

  abbrev pub as_tagged :
      Option (List A) → Option (List A) → Option (List A) → Result Error (GeoTransform A)
  as_tagged (some m) scale tie = from_matrix m
  as_tagged none scale tie = from_tags scale tie

  abbrev pub geotransform_as_tagged : Directory A → Result Error (GeoTransform A)
  geotransform_as_tagged ifd =
      as_tagged ifd.model_transformation ifd.model_pixel_scale ifd.model_tiepoint

  -- `PixelIsPoint`: the origin moves back half a pixel.
  abbrev pub move_back : Total A → Bool → GeoTransform A → GeoTransform A
  move_back t point gt =
      if point
      then record gt {
        x0 = f.sub gt.x0 (f.mul t.half (f.add gt.x_col gt.x_row));
        y0 = f.sub gt.y0 (f.mul t.half (f.add gt.y_col gt.y_row));
      }
      else gt

  unfoldable pub extract_geotransform : Total A → Directory A → Result Error (GeoTransform A)
  extract_geotransform t ifd =
      geotransform_as_tagged ifd >>= λ gt. ok (move_back t (is_point ifd.raster_type) gt)
