-- ===== src/Georef/Errors.antt =====
-- When `extract_geotransform` of src/rust/src/geo.rs fails, and how.
use a5px.Prelude.{
  ◌≤◌, ◌≡◌, ◌↔◌, refl, arith, List, Bool, Option, none, some, ltb, length, Result, ok, err, ◌>>=◌,
  ◌||◌, Bool-cases, inl, inr,
}
use a5px.Float.{F64}
use a5px.Composite.{Total}
use a5px.Stats.{Error, missing_geo_key}
use a5px.Georef.{
  Directory, GeoTransform, is_point, from_matrix, from_scale, as_tagged, move_back,
  extract_geotransform,
}

module _ {A : Type 0} where
  -- The tags place the image: a whole matrix, or without one a scale and a tie point.
  abbrev pub Places : Option (List A) → Option (List A) → Option (List A) → Type 0
  Places (some m) scale tie = 16 ≤ length m
  Places none none tie = ⊥
  Places none (some scale) none = ⊥
  Places none (some scale) (some tie) = (3 ≤ length scale) × (6 ≤ length tie)

  -- No matrix, and no scale or no tie point.
  abbrev pub Lacks : Option (List A) → Option (List A) → Option (List A) → Type 0
  Lacks (some m) scale tie = ⊥
  Lacks none none tie = Unit
  Lacks none (some scale) none = Unit
  Lacks none (some scale) (some tie) = ⊥

abbrev pub IsOk : {T : Type 0} → Result Error T → Type 0
IsOk {T = T} r = (x : T) × (r ≡ ok x)

module _ {A : Type 0} ⦃f : F64 A⦄ where
  from_matrix-IsOk :
      (m : List A)
      → (IsOk (from_matrix m) ↔ (16 ≤ length m)) × ((from_matrix m ≡ err missing_geo_key) ↔ ⊥)
  from_matrix-IsOk m = elim (Bool-cases (ltb (length m) 16)) [
    | inl few ↦ rw few (
      ((λ h. absurd (ground (arith, h.1))), λ h. absurd (ground (arith, few, h))),
      ((λ h. absurd (ground (arith, h))), λ h. absurd h),
    )
    | inr all ↦ rw all (
      ((λ h. ground (arith, all)), λ h. (_, refl)),
      ((λ h. absurd (ground (arith, h))), λ h. absurd h),
    )
  ]

  from_scale-IsOk :
      (scale tie : List A)
      → (IsOk (from_scale scale tie) ↔ ((3 ≤ length scale) × (6 ≤ length tie)))
        × ((from_scale scale tie ≡ err missing_geo_key) ↔ ⊥)
  from_scale-IsOk scale tie = elim (Bool-cases (ltb (length scale) 3 || ltb (length tie) 6)) [
    | inl few ↦ rw few (
      ((λ h. absurd (ground (arith, h.1))), λ h. absurd (ground (arith, few, h))),
      ((λ h. absurd (ground (arith, h))), λ h. absurd h),
    )
    | inr all ↦ rw all (
      ((λ h. ground (arith, all)), λ h. (_, refl)),
      ((λ h. absurd (ground (arith, h))), λ h. absurd h),
    )
  ]

  as_tagged_iff :
      (m scale tie : Option (List A))
      → (IsOk (as_tagged m scale tie) ↔ Places m scale tie)
        × ((as_tagged m scale tie ≡ err missing_geo_key) ↔ Lacks m scale tie)
  as_tagged_iff (some m) scale tie = from_matrix-IsOk m
  as_tagged_iff none none tie =
      (((λ h. absurd (ground (arith, h.1))), λ h. absurd h), ((λ h. tt), λ h. refl))
  as_tagged_iff none (some scale) none =
      (((λ h. absurd (ground (arith, h.1))), λ h. absurd h), ((λ h. tt), λ h. refl))
  as_tagged_iff none (some scale) (some tie) = from_scale-IsOk scale tie

  moved_iff :
      (t : Total A) (point : Bool) (r : Result Error (GeoTransform A))
      → (IsOk (r >>= λ gt. ok (move_back t point gt)) ↔ IsOk r)
        × (((r >>= λ gt. ok (move_back t point gt)) ≡ err missing_geo_key)
            ↔ (r ≡ err missing_geo_key))
  moved_iff t point (ok gt) = (
    ((λ h. (gt, refl)), λ h. (_, refl)),
    ((λ h. absurd (ground (arith, h))), λ h. absurd (ground (arith, h))),
  )
  moved_iff t point (err e) = (
    ((λ h. absurd (ground (arith, h.1))), λ h. absurd (ground (arith, h.1))),
    ((λ h. ground (arith, h)), λ h. ground (arith, h)),
  )

  -- A geotransform is given where the tags have a matrix of sixteen numbers at least, or, without a matrix,
  -- a scale of three and a tie point of six at least; and the error is that of a missing key where there
  -- is no matrix and the scale or the tie point is missing, and only there.
  pub extract_geotransform_iff :
      (t : Total A) (ifd : Directory A)
      → (IsOk (extract_geotransform t ifd)
          ↔ Places ifd.model_transformation ifd.model_pixel_scale ifd.model_tiepoint)
        × ((extract_geotransform t ifd ≡ err missing_geo_key)
            ↔ Lacks ifd.model_transformation ifd.model_pixel_scale ifd.model_tiepoint)
  unfolding extract_geotransform
  extract_geotransform_iff t ifd =
      let tags = as_tagged ifd.model_transformation ifd.model_pixel_scale ifd.model_tiepoint in
      let (a, b) =
        as_tagged_iff ifd.model_transformation ifd.model_pixel_scale ifd.model_tiepoint in
      let (c, d) = moved_iff t (is_point ifd.raster_type) tags in
      (((λ h. a.0 (c.0 h)), λ h. c.1 (a.1 h)), ((λ h. b.0 (d.0 h)), λ h. d.1 (b.1 h)))
