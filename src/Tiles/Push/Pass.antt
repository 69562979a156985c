-- ===== src/Tiles/Push/Pass.antt =====
-- Pass 3 of `process_tile` of src/rust/src/read.rs: all bands of a row.
use a5px.Prelude.{
  [], ℕ, zero, suc, ◌+◌, ◌*◌, ◌≤◌, ◌<◌, ◌≡◌, ◌∙◌, ap, arith, List, ◌∷◌, true, if◌then◌else◌, get_or,
  length, replicate, ok, Result-cases, inl, inr,
}
use a5px.Float.{F64}
use a5px.Pixels.{TypedArray}
use a5px.Layouts.{AccLayout}
use a5px.Store.{CellStore}
use a5px.Rows.{Run}
use a5px.Tiles.{TileCtx, TileData}
use a5px.Tiles.Push.{push_runs, push_bands, add_runs_npix, push_row}
use a5px.Tiles.Push.Adds.{run_values, Pushed, add_runs_npix-Pushed_when, add_runs_weights-Pushed}
use a5px.Tiles.Push.Runs.{pushes, push_runs-SameShape, push_runs-pushes, push_runs-other}

module _ {A L : Type 0} ⦃f : F64 A⦄ ⦃l : AccLayout A L⦄ where
  push_bands-first :
      (ctx : TileCtx A) (v : TypedArray A) (row_base w_stride b_stride b src_b : ℕ)
      (offsets : List ℕ) (runs : List Run) (acc out : CellStore A L × List A)
      → push_bands ctx v row_base w_stride b_stride b (src_b ∷ offsets) runs acc ≡ ok out
      → (acc' : CellStore A L × List A) × (push_runs ctx v w_stride
            (row_base + src_b * b_stride)
            b
            0
            runs
            acc
          ≡ ok acc')
        × (push_bands ctx v row_base w_stride b_stride (b + 1) offsets runs acc' ≡ ok out)
  unfolding push_bands
  push_bands-first ctx v row_base w_stride b_stride b src_b offsets runs acc out h =
      elim (Result-cases (push_runs ctx v w_stride (row_base + src_b * b_stride) b 0 runs acc)) [
        | inl (acc', done) ↦ (acc', done, rw done at h)
        | inr (x, failed) ↦ absurd (ground (arith, rw failed at h))
      ]

  push_bands-other :
      (ctx : TileCtx A) (v : TypedArray A) (row_base w_stride b_stride b : ℕ) (offsets : List ℕ)
      (runs : List Run) (acc out : CellStore A L × List A) (s b' : ℕ) (d : L)
      → push_bands ctx v row_base w_stride b_stride b offsets runs acc ≡ ok out
      → acc.0.cfg.has_cont ≡ true
      → b + length offsets ≤ acc.0.n_out
      → b' < b
      → get_or out.0.cont (s * acc.0.n_out + b') d ≡ get_or acc.0.cont (s * acc.0.n_out + b') d
  unfolding push_bands
  push_bands-other ctx v row_base w_stride b_stride b [] runs acc out s b' d h on fit before =
      ground (arith, h)
  push_bands-other ctx v row_base w_stride b_stride b (src_b ∷ offsets) runs acc out s b' d h on fit
        before =
      let (acc', pushed, rest) =
        push_bands-first ctx v row_base w_stride b_stride b src_b offsets runs acc out h in
      let base = row_base + src_b * b_stride in
      let shape = push_runs-SameShape ctx v w_stride base b 0 runs acc.0 acc.1 acc' pushed on in
      let on' : acc'.0.cfg.has_cont ≡ true = ap (λ c. c.has_cont) shape.1 ∙ on in
      let fit' : b + 1 + length offsets ≤ acc'.0.n_out = rw shape.0 (omega arith) in
      let later : get_or out.0.cont (s * acc.0.n_out + b') d
          ≡ get_or acc'.0.cont (s * acc.0.n_out + b') d =
        rw shape.0 at (
          push_bands-other ctx v row_base w_stride b_stride (b + 1) offsets runs acc' out s b' d
            rest on' fit' (omega arith)) in
      later
      ∙ push_runs-other ctx v w_stride base b 0 runs acc.0 acc.1 acc' s b' d pushed on (omega arith)
          (omega arith) (omega arith)

  push_bands-pushes :
      (ctx : TileCtx A) (v : TypedArray A) (row_base w_stride b_stride b : ℕ) (offsets : List ℕ)
      (runs : List Run) (acc out : CellStore A L × List A) (s k b' : ℕ) (d : L)
      → push_bands ctx v row_base w_stride b_stride b offsets runs acc ≡ ok out
      → acc.0.cfg.has_cont ≡ true
      → b + length offsets ≤ acc.0.n_out
      → k < length offsets
      → b' ≡ b + k
      → s * acc.0.n_out + b' < length acc.0.cont
      → get_or out.0.cont (s * acc.0.n_out + b') d
        ≡ pushes
            (run_values ctx v w_stride (row_base + get_or offsets k 0 * b_stride) b')
            s
            runs
            (get_or acc.0.cont (s * acc.0.n_out + b') d)
  unfolding push_bands
  push_bands-pushes ctx v row_base w_stride b_stride b [] runs acc out s k b' d h on fit in_range at
        room =
      elim in_range [ ]
  push_bands-pushes ctx v row_base w_stride b_stride b (src_b ∷ offsets) runs acc out s zero b' d h
        on fit in_range at room =
      let (acc', pushed, rest) =
        push_bands-first ctx v row_base w_stride b_stride b src_b offsets runs acc out h in
      let base = row_base + src_b * b_stride in
      let e : b' ≡ b = omega arith in
      let shape = push_runs-SameShape ctx v w_stride base b 0 runs acc.0 acc.1 acc' pushed on in
      let on' : acc'.0.cfg.has_cont ≡ true = ap (λ c. c.has_cont) shape.1 ∙ on in
      let fit' : b + 1 + length offsets ≤ acc'.0.n_out = rw shape.0 (omega arith) in
      let room' : s * acc.0.n_out + b < length acc.0.cont = rw e at room in
      let later : get_or out.0.cont (s * acc.0.n_out + b) d
          ≡ get_or acc'.0.cont (s * acc.0.n_out + b) d =
        rw shape.0 at (
          push_bands-other ctx v row_base w_stride b_stride (b + 1) offsets runs acc' out s b d rest
            on' fit' (omega arith)) in
      rw e (
        later
        ∙ push_runs-pushes ctx v w_stride base b 0 runs acc.0 acc.1 acc' s d pushed on (omega arith)
            room')
  push_bands-pushes ctx v row_base w_stride b_stride b (src_b ∷ offsets) runs acc out s (suc k) b' d
        h on fit in_range at room =
      let (acc', pushed, rest) =
        push_bands-first ctx v row_base w_stride b_stride b src_b offsets runs acc out h in
      let base = row_base + src_b * b_stride in
      let shape = push_runs-SameShape ctx v w_stride base b 0 runs acc.0 acc.1 acc' pushed on in
      let on' : acc'.0.cfg.has_cont ≡ true = ap (λ c. c.has_cont) shape.1 ∙ on in
      let fit' : b + 1 + length offsets ≤ acc'.0.n_out = rw shape.0 (omega arith) in
      let room' : s * acc'.0.n_out + b' < length acc'.0.cont = rw (shape.0, shape.2) room in
      let later = rw shape.0 at (
        push_bands-pushes ctx v row_base w_stride b_stride (b + 1) offsets runs acc' out s k b' d
          rest on' fit' (omega arith) (omega arith) room') in
      let same =
        push_runs-other ctx v w_stride base b 0 runs acc.0 acc.1 acc' s b' d pushed on (omega arith)
          (omega arith) (omega arith) in
      later
      ∙ ap
          (λ a.
            pushes (run_values ctx v w_stride (row_base + get_or offsets k 0 * b_stride) b') s runs
              a)
          same

  -- After pass 3 of a row, the accumulator of a slot and a band is what it was with the band's values
  -- of the slot's runs pushed, run by run, where the accumulators are kept, there is a band for every
  -- offset, and the slot has one.
  pub push_row-pushes :
      (ctx : TileCtx A) (tile : TileData A) (h_stride w_stride b_stride r : ℕ) (runs : List Run)
      (store store' : CellStore A L) (s b : ℕ) (d : L)
      → push_row ctx tile (h_stride, w_stride, b_stride) r runs store ≡ ok store'
      → store.cfg.has_cont ≡ true
      → length tile.band_offsets ≤ store.n_out
      → b < length tile.band_offsets
      → s * store.n_out + b < length store.cont
      → get_or store'.cont (s * store.n_out + b) d
        ≡ pushes
            (run_values ctx tile.values w_stride
              (r * h_stride + get_or tile.band_offsets b 0 * b_stride)
              b)
            s
            runs
            (get_or store.cont (s * store.n_out + b) d)
  unfolding push_row
  push_row-pushes ctx tile h_stride w_stride b_stride r [] store store' s b d h on fit in_range
        room =
      ground (arith, h)
  push_row-pushes ctx tile h_stride w_stride b_stride r (run ∷ runs) store store' s b d h on fit
        in_range room =
      let counted = if store.cfg.has_npix then add_runs_npix (run ∷ runs) store else store in
      let run_w = replicate (length (run ∷ runs) * store.n_out) f.naught in
      let start : Pushed store store.cont counted =
        add_runs_npix-Pushed_when store.cfg.has_npix (run ∷ runs) store in
      let on' : counted.cfg.has_cont ≡ true = ap (λ c. c.has_cont) start.1 ∙ on in
      let fit' : 0 + length tile.band_offsets ≤ counted.n_out = rw start.0 (omega arith) in
      let room' : s * counted.n_out + b < length counted.cont = rw (start.0, start.2) room in
      elim (Result-cases (
        push_bands ctx tile.values (r * h_stride) w_stride b_stride 0 tile.band_offsets (run ∷ runs)
          (counted, run_w))) [
            | inl (acc, done) ↦
                let pushed =
                  rw (start.0, start.2) at
                    (push_bands-pushes ctx tile.values (r * h_stride) w_stride b_stride 0
                      tile.band_offsets (run ∷ runs) (counted, run_w) acc s b b d done on' fit'
                      in_range (omega arith) room') in
                let same : store'.cont ≡ acc.0.cont =
                  ground
                    (arith, rw done at h, (add_runs_weights-Pushed (run ∷ runs) 0 acc.1 acc.0).2) in
                rw same pushed
            | inr (x, failed) ↦ absurd (ground (arith, rw failed at h))
          ]
