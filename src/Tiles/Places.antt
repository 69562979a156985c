-- ===== src/Tiles/Places.antt =====
-- Where `TileCtx::strides` of src/rust/src/read.rs puts the pixels of a tile.
use a5px.Prelude.{ℕ, ◌+◌, ◌-◌, ◌*◌, ◌<◌, ◌≡◌, sym, ◌∙◌, arith, ok}
use a5px.Tiles.{PlanarConfiguration, chunky, planar, TileCtx, strides_of, strides}
use a5px.Tiles.Values.{slab_index}

pub slab_below : (n h s b : ℕ) → s < h → b < n → s * n + b < h * n
slab_below n h s b below within =
    let k = h - s - 1 in
    let e : h ≡ s + 1 + k = omega arith in
    let e' : h * n ≡ s * n + n + k * n = rw e (grind arith) in omega arith

-- The place of band `b` of the pixel in column `c` of row `r`.
abbrev pub place : ℕ × ℕ × ℕ → ℕ → ℕ → ℕ → ℕ
place (h_stride, w_stride, b_stride) r c b = r * h_stride + c * w_stride + b * b_stride

chunky_place : (w n r c b : ℕ) → r * (w * n) + c * n + b * 1 ≡ (r * w + c) * n + b
chunky_place w n r c b = grind arith

planar_place : (w h r c b : ℕ) → r * w + c * 1 + b * (h * w) ≡ b * (h * w) + (r * w + c)
planar_place w h r c b = omega arith

pub strides_of-below :
    (p : PlanarConfiguration) (w h n : ℕ) (st : ℕ × ℕ × ℕ) (r c b : ℕ)
    → strides_of p w h n ≡ ok st
    → r < h
    → c < w
    → b < n
    → place st r c b < n * (h * w)
strides_of-below chunky w h n st r c b e rows cols bands =
    let own : (w * n, n, 1) ≡ st = ground (arith, e) in
    let inner = slab_below w h r c rows cols in
    let outer = slab_below n (h * w) (r * w + c) b inner bands in
    let turned : h * w * n ≡ n * (h * w) = grind arith in
    rw⁻¹ own (rw (chunky_place w n r c b, sym turned) outer)
strides_of-below planar w h n st r c b e rows cols bands =
    let own : (w, 1, h * w) ≡ st = ground (arith, e) in
    let inner = slab_below w h r c rows cols in
    let outer = slab_below (h * w) n b (r * w + c) bands inner in
    rw⁻¹ own (rw (planar_place w h r c b) outer)
strides_of-below PlanarConfiguration.other w h n st r c b e rows cols bands =
    absurd (ground (arith, e))

pub strides_of-apart :
    (p : PlanarConfiguration) (w h n : ℕ) (st : ℕ × ℕ × ℕ) (r c b r' c' b' : ℕ)
    → strides_of p w h n ≡ ok st
    → (r < h) × (c < w) × (b < n)
    → (r' < h) × (c' < w) × (b' < n)
    → place st r c b ≡ place st r' c' b'
    → (r ≡ r') × (c ≡ c') × (b ≡ b')
strides_of-apart chunky w h n st r c b r' c' b' e (rows, cols, bands) (rows', cols', bands') same =
    let own : st ≡ (w * n, n, 1) = sym (ground (arith, e)) in
    let flat : (r * w + c) * n + b ≡ (r' * w + c') * n + b' =
      sym (chunky_place w n r c b) ∙ (rw own at same) ∙ chunky_place w n r' c' b' in
    let (pixel, band) = slab_index n (r * w + c) (r' * w + c') b b' bands bands' flat in
    let (row, col) = slab_index w r r' c c' cols cols' pixel in (row, col, band)
strides_of-apart planar w h n st r c b r' c' b' e (rows, cols, bands) (rows', cols', bands') same =
    let own : st ≡ (w, 1, h * w) = sym (ground (arith, e)) in
    let flat : b * (h * w) + (r * w + c) ≡ b' * (h * w) + (r' * w + c') =
      sym (planar_place w h r c b) ∙ (rw own at same) ∙ planar_place w h r' c' b' in
    let (band, pixel) =
      slab_index (h * w) b b' (r * w + c) (r' * w + c') (slab_below w h r c rows cols)
        (slab_below w h r' c' rows' cols') flat in
    let (row, col) = slab_index w r r' c c' cols cols' pixel in (row, col, band)
strides_of-apart PlanarConfiguration.other w h n st r c b r' c' b' e here there same =
    absurd (ground (arith, e))

-- Two places of a chunky or planar block that are the same are of one band of one pixel: no value of
-- the block is read for two pixels, nor for two bands.
pub strides-apart :
    {A : Type 0} (ctx : TileCtx A) (n : ℕ) (st : ℕ × ℕ × ℕ) (r c b r' c' b' : ℕ)
    → strides ctx n ≡ ok st
    → (r < ctx.tile_h) × (c < ctx.tile_w) × (b < n)
    → (r' < ctx.tile_h) × (c' < ctx.tile_w) × (b' < n)
    → place st r c b ≡ place st r' c' b'
    → (r ≡ r') × (c ≡ c') × (b ≡ b')
unfolding strides
strides-apart ctx n st r c b r' c' b' =
    strides_of-apart ctx.planar ctx.tile_w ctx.tile_h n st r c b r' c' b'
