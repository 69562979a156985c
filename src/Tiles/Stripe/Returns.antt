-- ===== src/Tiles/Stripe/Returns.antt =====
-- `process_tile` of src/rust/src/read.rs returns, on a tile whose buffer and mask are whole.
use a5px.Prelude.{
  ℕ, zero, suc, ◌+◌, ◌-◌, ◌*◌, ◌≤◌, ◌<◌, ◌≡◌, refl, sym, ◌∙◌, ap, arith, List, [], ◌∷◌, Bool, true,
  false, Option, none, some, if◌then◌else◌, ltb, take, drop, length, replicate, All, Result, ok,
  length-replicate,
}
use a5px.Float.{F64}
use a5px.Pixels.Bounds.{InBounds, size}
use a5px.Rows.{Fault, ◌>>=◌, mark_bands, and_each, need}
use a5px.Rows.Bounds.{mark_bands-in, length-and_each}
use a5px.Tiles.{
  TileCtx, TileData, strides_of, check_bands, check_valid, sweep_bands, mask_marks, mark_row,
}
use a5px.Tiles.Places.{strides_of-below}

length-take :
    {A : Type 0} (xs : List A) (i n : ℕ) → i + n ≤ length xs → length (take n (drop i xs)) ≡ n
length-take [] zero zero h = refl
length-take [] zero (suc n) h = absurd (omega arith)
length-take [] (suc i) n h = absurd (omega arith)
length-take (x ∷ xs) zero zero h = refl
length-take (x ∷ xs) zero (suc n) h = ap suc (length-take xs zero n (omega arith))
length-take (x ∷ xs) (suc i) n h = length-take xs i n (omega arith)

chosen :
    (a b : Bool) (x : Result Fault (List Bool)) (y z : List Bool) (w : ℕ)
    → (m : List Bool) × (x ≡ ok m) × (length m ≡ w)
    → length y ≡ w
    → length z ≡ w
    → (m : List Bool) × ((if a then x else if b then ok y else ok z) ≡ ok m) × (length m ≡ w)
chosen true b x y z w found len len' = found
chosen false true x y z w found len len' = (y, refl, len)
chosen false false x y z w found len len' = (z, refl, len')

mask_marks-in :
    (mask : Option (List Bool)) (r h tile_w w : ℕ) (marks : List Bool)
    → ((m : List Bool) → mask ≡ some m → h * tile_w ≤ length m)
    → r < h
    → w ≤ tile_w
    → length marks ≡ w
    → (marks' : List Bool) × (mask_marks mask r tile_w w marks ≡ ok marks') × (length marks' ≡ w)
mask_marks-in none r h tile_w w marks sized row cols len = (marks, refl, len)
mask_marks-in (some m) r h tile_w w marks sized row cols len =
    let k = h - r - 1 in
    let rows : h ≡ r + 1 + k = omega arith in
    let area : h * tile_w ≡ r * tile_w + tile_w + k * tile_w = rw rows (grind arith) in
    let room : r * tile_w + w ≤ length m = omega (arith, sized m refl) in
    let fits : ltb (length m) (r * tile_w + w) ≡ false = ground arith in
    let row_len = length-take m (r * tile_w) w room in
    let masks = take w (drop (r * tile_w) m) in
    (and_each marks masks, rw fits refl, length-and_each marks masks (row_len ∙ sym len) ∙ len)

module _ {A : Type 0} ⦃f : F64 A⦄ where
  -- The block is whole: the buffer has its bands, the mask its pixels, and the offsets are of bands.
  pub record IsWhole (ctx : TileCtx A) (tile : TileData A) : Type 0 where
    pub sized : tile.data_n_bands * (ctx.tile_h * ctx.tile_w) ≤ size tile.values
    pub banded : All (λ b. b < tile.data_n_bands) tile.band_offsets
    pub masked : (m : List Bool) → tile.mask ≡ some m → ctx.tile_h * ctx.tile_w ≤ length m

  -- Row `r` of every band is within the buffer.
  abbrev pub RowInBounds : TileCtx A → TileData A → ℕ × ℕ × ℕ → ℕ → ℕ → List ℕ → Type 0
  RowInBounds ctx tile (h_stride, w_stride, b_stride) r w offsets =
      All (λ b. InBounds tile.values (r * h_stride + b * b_stride) w_stride w) offsets

  pub row-InBounds :
      (ctx : TileCtx A) (tile : TileData A) (st : ℕ × ℕ × ℕ) (r w : ℕ) (offsets : List ℕ)
      → strides_of ctx.planar ctx.tile_w ctx.tile_h tile.data_n_bands ≡ ok st
      → tile.data_n_bands * (ctx.tile_h * ctx.tile_w) ≤ size tile.values
      → All (λ b. b < tile.data_n_bands) offsets
      → r < ctx.tile_h
      → w ≤ ctx.tile_w
      → RowInBounds ctx tile st r w offsets
  row-InBounds ctx tile st r w [] laid sized banded row cols = tt
  row-InBounds ctx tile st r w (b ∷ offsets) laid sized (here, there) row cols = (
    λ k lt.
        let inside =
          strides_of-below ctx.planar ctx.tile_w ctx.tile_h tile.data_n_bands st r k b laid row
            (omega arith) here in
        omega arith,
    row-InBounds ctx tile st r w offsets laid sized there row cols,
  )

  sweep_bands-InBounds :
      (ctx : TileCtx A) (tile : TileData A) (st : ℕ × ℕ × ℕ) (r w k : ℕ) (offsets : List ℕ)
      → RowInBounds ctx tile st r w offsets
      → All (λ b. InBounds tile.values b.0 st.1 w) (sweep_bands ctx (r * st.0) st.2 k offsets)
  sweep_bands-InBounds ctx tile st r w k [] h = tt
  sweep_bands-InBounds ctx tile st r w k (b ∷ offsets) (here, there) =
      (here, sweep_bands-InBounds ctx tile st r w (k + 1) offsets there)

  -- The marks before the mask.
  swept-in :
      (ctx : TileCtx A) (tile : TileData A) (st : ℕ × ℕ × ℕ) (r w : ℕ) (any_valid : List Bool)
      → length any_valid ≡ w
      → RowInBounds ctx tile st r w tile.band_offsets
      → (marks : List Bool) × ((if check_bands ctx tile
            then need (
                mark_bands tile.values st.1 w ctx.nodata 0
                  (sweep_bands ctx (r * st.0) st.2 0 tile.band_offsets)
                  (replicate w false))
            else if check_valid ctx tile
            then ok (replicate w true)
            else ok any_valid)
          ≡ ok marks)
        × (length marks ≡ w)
  swept-in ctx tile st r w any_valid len bounds =
      let (marks, ran, len') =
        mark_bands-in tile.values st.1 w ctx.nodata 0
          (sweep_bands ctx (r * st.0) st.2 0 tile.band_offsets) (replicate w false)
          (length-replicate w false)
          (sweep_bands-InBounds ctx tile st r w 0 tile.band_offsets bounds) in
      chosen (check_bands ctx tile) (check_valid ctx tile) _ (replicate w true) any_valid w
        (marks, ap need ran, len') (length-replicate w true) len

  pub mark_row-in :
      (ctx : TileCtx A) (tile : TileData A) (st : ℕ × ℕ × ℕ) (r w : ℕ) (any_valid : List Bool)
      → IsWhole ctx tile
      → r < ctx.tile_h
      → w ≤ ctx.tile_w
      → length any_valid ≡ w
      → RowInBounds ctx tile st r w tile.band_offsets
      → (marks : List Bool) × (mark_row ctx tile w st r any_valid ≡ ok marks) × (length marks ≡ w)
  unfolding mark_row
  mark_row-in ctx tile st r w any_valid whole row cols len bounds =
      let (marks, swept, len') = swept-in ctx tile st r w any_valid len bounds in
      let (marks', masked, len'') =
        mask_marks-in tile.mask r ctx.tile_h ctx.tile_w w marks whole.masked row cols len' in
      (marks', ap (λ m. m >>= mask_marks tile.mask r ctx.tile_w w) swept ∙ masked, len'')
