-- ===== src/Overlay/Boundary/Chunks.antt =====
-- The chunks of boundary pixels of `process_tile_overlay` of src/rust/src/read.rs.
use a5px.Prelude.{
  ℕ, zero, suc, ◌≤◌, ◌≡◌, refl, sym, ap, arith, List, [], ◌∷◌, ◌++◌, Option, length, take, drop,
  length-drop, Result, ok, Result-cases, inl, inr,
}
use a5px.Float.{F64}
use a5px.Layouts.{AccLayout}
use a5px.CellMask.{A5}
use a5px.Rows.{Fault, ◌>>=◌}
use a5px.Tiles.{TileCtx, TileData}
use a5px.Overlay.{Lattice, Corners}
use a5px.Overlay.Boundary.{Fringe, boundary_pixel, boundary_chunk, boundary_chunks}

-- A prefix and what follows it.
take-append : {A : Type 0} (n : ℕ) (xs ys : List A) → length xs ≡ n → take n (xs ++ ys) ≡ xs
take-append zero [] ys h = refl
take-append zero (x ∷ xs) ys h = absurd (omega (arith, h))
take-append (suc n) [] ys h = absurd (omega (arith, h))
take-append (suc n) (x ∷ xs) ys h = ap (◌∷◌ x) (take-append n xs ys (omega (arith, h)))

drop-append : {A : Type 0} (n : ℕ) (xs ys : List A) → length xs ≡ n → drop n (xs ++ ys) ≡ ys
drop-append zero [] ys h = refl
drop-append zero (x ∷ xs) ys h = absurd (omega (arith, h))
drop-append (suc n) [] ys h = absurd (omega (arith, h))
drop-append (suc n) (x ∷ xs) ys h = drop-append n xs ys (omega (arith, h))

take_then_drop : {A : Type 0} (n : ℕ) (xs : List A) → (take n xs ++ drop n xs) ≡ xs
take_then_drop zero xs = refl
take_then_drop (suc n) [] = refl
take_then_drop (suc n) (x ∷ xs) = ap (◌∷◌ x) (take_then_drop n xs)

-- The sub-points of some pixels, one after the other.
abbrev pub points_of : {P : Type 0} → (ℕ × ℕ → List (Option P)) → List (ℕ × ℕ) → List (Option P)
points_of own [] = []
points_of own (pixel ∷ pixels) = own pixel ++ points_of own pixels

module _ {S P A L : Type 0} ⦃f : F64 A⦄ ⦃l : AccLayout A L⦄ (a5 : A5) (lattice : Lattice S P)
    (ctx : TileCtx A) (tile : TileData A) (corners : Corners) (own : ℕ × ℕ → List (Option P))
    (st : ℕ × ℕ × ℕ) (cw r0 kk : ℕ) (w_sub : A) where
  -- Every pixel once, in order, with its own sub-points.
  unfoldable pub each_pixel : List (ℕ × ℕ) → Fringe S A L → Result Fault (Fringe S A L)
  unfolding boundary_pixel
  each_pixel [] fringe = ok fringe
  each_pixel (pixel ∷ pixels) fringe =
      boundary_pixel a5 lattice ctx tile corners st cw r0 w_sub pixel (own pixel) fringe >>= λ next.
      each_pixel pixels next

  each_pixel_nil : (fringe : Fringe S A L) → each_pixel [] fringe ≡ ok fringe
  unfolding each_pixel
  each_pixel_nil fringe = refl

  each_pixel-append :
      (xs ys : List (ℕ × ℕ)) (fringe : Fringe S A L)
      → each_pixel (xs ++ ys) fringe ≡ (each_pixel xs fringe >>= λ next. each_pixel ys next)
  unfolding each_pixel
  each_pixel-append [] ys fringe = refl
  each_pixel-append (pixel ∷ xs) ys fringe =
      elim (Result-cases
        (boundary_pixel a5 lattice ctx tile corners st cw r0 w_sub pixel (own pixel) fringe)) [
          | inr (e, failed) ↦ rw (failed, each_pixel) refl
          | inl (next, ran) ↦ rw (ran, each_pixel) (each_pixel-append xs ys next)
        ]

  boundary_chunk-each_pixel :
      (chunk : List (ℕ × ℕ)) (fringe : Fringe S A L)
      → ((pixel : ℕ × ℕ) → length (own pixel) ≡ kk)
      → boundary_chunk a5 lattice ctx tile corners st cw r0 kk w_sub chunk
          (points_of own chunk)
          fringe
        ≡ each_pixel chunk fringe
  unfolding boundary_chunk each_pixel
  boundary_chunk-each_pixel [] fringe long = refl
  boundary_chunk-each_pixel (pixel ∷ chunk) fringe long =
      let rest = points_of own chunk in
      let first = take-append kk (own pixel) rest (long pixel) in
      let later = drop-append kk (own pixel) rest (long pixel) in
      rw (first, later)
        (elim (Result-cases
          (boundary_pixel a5 lattice ctx tile corners st cw r0 w_sub pixel (own pixel) fringe)) [
            | inr (e, failed) ↦ rw failed refl
            | inl (next, ran) ↦ rw ran (boundary_chunk-each_pixel chunk next long)
          ])

  -- Where the sub-points of a run of pixels are projected to those of each of its pixels, `kk` of them,
  -- one after the other, the boundary pass in chunks of 1024 is the pass over every deferred pixel once, in
  -- order, each with its own sub-points, failures included.
  pub boundary_chunks-each_pixel :
      (n : ℕ) (boundary : List (ℕ × ℕ)) (fringe : Fringe S A L)
      → ((pixel : ℕ × ℕ) → length (own pixel) ≡ kk)
      → ((pixels : List (ℕ × ℕ)) → lattice.sub_points pixels ≡ ok (points_of own pixels))
      → length boundary ≤ n
      → boundary_chunks a5 lattice ctx tile corners st cw r0 kk w_sub n boundary fringe
        ≡ each_pixel boundary fringe
  unfolding boundary_chunks
  boundary_chunks-each_pixel zero [] fringe long points h = sym (each_pixel_nil fringe)
  boundary_chunks-each_pixel zero (pixel ∷ boundary) fringe long points h = absurd (omega arith)
  boundary_chunks-each_pixel (suc n) [] fringe long points h = sym (each_pixel_nil fringe)
  boundary_chunks-each_pixel (suc n) (pixel ∷ boundary) fringe long points h =
      let all = pixel ∷ boundary in
      let chunk = take 1_024 all in
      let rest = drop 1_024 all in
      let fewer = length-drop 1_023 boundary in
      let ran = boundary_chunk-each_pixel chunk fringe long in
      let whole = each_pixel-append chunk rest fringe in
      let parts = ap (λ xs. each_pixel xs fringe) (take_then_drop 1_024 all) in
      rw (points chunk, ran, ← parts, whole)
        (elim (Result-cases (each_pixel chunk fringe)) [
          | inr (e, failed) ↦ rw failed refl
          | inl (next, done) ↦
              rw done (boundary_chunks-each_pixel n rest next long points (omega (arith, h, fewer)))
        ])
