-- ===== src/Examples/Levels.antt =====
-- Geotransforms and overview levels at concrete inputs, over natural numbers in place of `f64`.
use a5px.Prelude.{ℕ, ◌≡◌, ◌↔◌, refl, arith, List, [], ◌∷◌, true, false, none, some, ok, err}
use a5px.Stats.{invalid, missing_geo_key, unsupported}
use a5px.Georef.{Directory, GeoTransform, extract_geotransform}
use a5px.Georef.Errors.{IsOk, Places, Lacks, extract_geotransform_iff}
use a5px.Levels.{
  Ground, SizedLevel, choose_levels, select_overview_level, overview_levels,
  derive_level_geotransform, find_mask_ifd,
}
use a5px.Levels.Common.{Coarsest, choose_levels-Coarsest}
use a5px.Arguments.{meta_pairs, parse_src_nodata_arg, parse_overlay_args}
use a5px.Prelude.Int.{pos}
use a5px.Examples.Numbers.{small}
use a5px.Examples.Composites.{total}

abbrev sphere : Ground ℕ
sphere = record { cos_degrees = λ x. 1; least_cos = 1; factor_tol = 0 }

-- Pixels of ten metres, the corner at (500, 900).
abbrev full : Directory ℕ
full = record {
  new_subfile_type = none;
  image_width = 64;
  image_height = 64;
  samples_per_pixel = 3;
  tile_width = some 16;
  tile_height = some 16;
  model_transformation = none;
  model_pixel_scale = some (10 ∷ 10 ∷ 0 ∷ []);
  model_tiepoint = some (0 ∷ 0 ∷ 0 ∷ 500 ∷ 900 ∷ 0 ∷ []);
  raster_type = none;
}

abbrev half_size : Directory ℕ
half_size = record full { new_subfile_type = some 1; image_width = 32; image_height = 32 }

abbrev quarter_size : Directory ℕ
quarter_size = record full { new_subfile_type = some 1; image_width = 16; image_height = 16 }

-- The mask of the half-size level.
abbrev mask_of_half : Directory ℕ
mask_of_half = record half_size { new_subfile_type = some 5 }

extract_geotransform_iff_example :
    (IsOk (extract_geotransform total full)
      ↔ Places full.model_transformation full.model_pixel_scale full.model_tiepoint)
    × ((extract_geotransform total full ≡ err missing_geo_key)
        ↔ Lacks full.model_transformation full.model_pixel_scale full.model_tiepoint)
extract_geotransform_iff_example = extract_geotransform_iff total full

abbrev placed : GeoTransform ℕ
placed = record { x0 = 500; x_col = 10; x_row = 0; y0 = 900; y_col = 0; y_row = 0 }

tags_read : extract_geotransform total full ≡ ok placed
unfolding extract_geotransform
tags_read = refl

abbrev quarter_level : ℕ
quarter_level = 3

-- A cell of 200 metres takes pixels of 50 at most, and the mask is passed over.
quarter_chosen :
    select_overview_level total sphere
      (half_size ∷ mask_of_half ∷ quarter_size ∷ [])
      64
      64
      3
      placed
      false
      200
    ≡ quarter_level
unfolding select_overview_level overview_levels
quarter_chosen = refl

abbrev halved : SizedLevel ℕ
halved = (1, (2, (2, 20)))

abbrev quartered : SizedLevel ℕ
quartered = (3, (4, (4, 40)))

abbrev first_levels : List (SizedLevel ℕ)
first_levels = halved ∷ quartered ∷ []

-- The second source lacks the half-size level.
abbrev second_levels : List (List (SizedLevel ℕ))
second_levels = ((2, (4, (4, 40))) ∷ []) ∷ []

choose_levels-Coarsest_example :
    Coarsest total sphere 50 first_levels second_levels quartered
      (choose_levels total sphere 50 (first_levels ∷ second_levels))
choose_levels-Coarsest_example =
    choose_levels-Coarsest total sphere 50 (λ a. ground arith) first_levels second_levels quartered
      (2 ∷ []) (λ a b h. ground (arith, h)) (λ a b c h k. ground (arith, h, k)) (1, refl) refl
      (((2, (4, (4, 40))), (((0, refl), refl), refl)), tt)

abbrev common_level : List ℕ
common_level = 3 ∷ 2 ∷ []

common_chosen : choose_levels total sphere 50 (first_levels ∷ second_levels) ≡ common_level
unfolding choose_levels
common_chosen = refl

mask_found :
    find_mask_ifd (full ∷ half_size ∷ mask_of_half ∷ []) 32 32 16 16 ≡ ok (some mask_of_half)
unfolding find_mask_ifd
mask_found = refl

-- A mask in blocks of another size is refused.
mask_refused : find_mask_ifd (full ∷ mask_of_half ∷ []) 32 32 8 8 ≡ err unsupported
unfolding find_mask_ifd
mask_refused = refl

abbrev twice : GeoTransform ℕ
twice = record placed { x_col = 20 }

level_placed : derive_level_geotransform placed 64 64 32 32 ≡ twice
unfolding derive_level_geotransform
level_placed = refl

arguments_checked :
    (parse_src_nodata_arg common_level ≡ err invalid)
    × (parse_overlay_args true (pos 65) quarter_level ≡ err invalid)
    × (meta_pairs ("a" ∷ []) [] ≡ err invalid)
unfolding parse_src_nodata_arg parse_overlay_args meta_pairs
arguments_checked = (refl, refl, refl)
