-- ===== src/Tiles/Push/Adds.antt =====
-- What the parts of pass 3 of `process_tile` of src/rust/src/read.rs do to a store's accumulators.
use a5px.Prelude.{
  [], ℕ, ◌+◌, ◌-◌, ◌*◌, ◌<◌, ◌≡◌, ◌≢◌, refl, sym, ◌∙◌, ap, arith, List, ◌∷◌, Bool, true, false,
  if◌then◌else◌, ◌==◌, take, drop, get_or, modify, length, ok, Option-cases, Bool-cases,
  Result-cases, inl, inr, get_or-modify_self, get_or-modify_ne, length-modify,
}
use a5px.Float.{F64}
use a5px.Stats.{is_empty}
use a5px.Pixels.{TypedArray, read_run_values}
use a5px.Layouts.{AccLayout}
use a5px.Store.{CellStore, add_npix, add_band_weights}
use a5px.Rows.{Run}
use a5px.Tiles.{TileCtx, band_of}
use a5px.Tiles.Push.{push_classes, push_values, push_runs, add_runs_npix, add_runs_weights}
use a5px.Tiles.Values.{values_from, read_run_values_lem, slab_index}

module _ {A : Type 0} ⦃f : F64 A⦄ where
  -- The values of band `b` in the columns from `c0` to `c1` of a row that begins at `base`.
  abbrev pub run_values : TileCtx A → TypedArray A → ℕ → ℕ → ℕ → ℕ → ℕ → List A
  run_values ctx v w_stride base b c0 c1 =
      values_from v ctx.nodata (band_of ctx.dequant b) (base + c0 * w_stride) w_stride (c1 - c0)

module _ {A L : Type 0} ⦃f : F64 A⦄ ⦃l : AccLayout A L⦄ where
  -- A run's values into an accumulator.
  abbrev pub push_onto : L → List A → L
  push_onto acc vals = if is_empty vals then acc else l.push_run acc vals

  abbrev pub pushed_at : List L → ℕ → List A → List L
  pushed_at cont at vals =
      if is_empty vals then cont else modify cont at (λ acc. l.push_run acc vals)

  pub length-pushed_at :
      (cont : List L) (at : ℕ) (vals : List A) → length (pushed_at cont at vals) ≡ length cont
  length-pushed_at cont at [] = refl
  length-pushed_at cont at (x ∷ vals) = length-modify cont at (λ acc. l.push_run acc (x ∷ vals))

  get_or-pushed_at_self :
      (cont : List L) (at : ℕ) (vals : List A) (d : L)
      → at < length cont
      → get_or (pushed_at cont at vals) at d ≡ push_onto (get_or cont at d) vals
  get_or-pushed_at_self cont at [] d h = refl
  get_or-pushed_at_self cont at (x ∷ vals) d h =
      get_or-modify_self cont at (λ acc. l.push_run acc (x ∷ vals)) d h

  pub get_or-pushed_at_ne :
      (cont : List L) (at j : ℕ) (vals : List A) (d : L)
      → at ≢ j
      → get_or (pushed_at cont at vals) j d ≡ get_or cont j d
  get_or-pushed_at_ne cont at j [] d h = refl
  get_or-pushed_at_ne cont at j (x ∷ vals) d h =
      get_or-modify_ne cont at j (λ acc. l.push_run acc (x ∷ vals)) d h

  pub get_or-pushed_at :
      (cont : List L) (n s' s b : ℕ) (vals : List A) (d : L)
      → b < n
      → s * n + b < length cont
      → get_or (pushed_at cont (s' * n + b) vals) (s * n + b) d ≡ (
          if s' == s then push_onto (get_or cont (s * n + b) d) vals else get_or cont (s * n + b) d)
  get_or-pushed_at cont n s' s b vals d below room = elim (Bool-cases (s' == s)) [
    | inl same ↦
        let e : s' ≡ s = ground arith in
        rw (same, e) (get_or-pushed_at_self cont (s * n + b) vals d room)
    | inr other ↦
        let apart : s' * n + b ≢ s * n + b = λ e.
          let same : s' ≡ s = (slab_index n s' s b b below below e).0 in
          absurd (ground (arith, other, same)) in
        rw other (get_or-pushed_at_ne cont (s' * n + b) (s * n + b) vals d apart)
  ]

  -- The store that differs from `s` in its weights and its accumulators alone, the latter `cont`.
  abbrev pub Pushed : CellStore A L → List L → CellStore A L → Type 0
  Pushed s cont s' = (s'.n_out ≡ s.n_out) × (s'.cfg ≡ s.cfg) × (s'.cont ≡ cont)

  pub push_values-Pushed :
      (store store' : CellStore A L) (s b : ℕ) (vals : List A)
      → store.cfg.has_cont ≡ true
      → push_values store s b vals ≡ ok store'
      → Pushed store (pushed_at store.cont (s * store.n_out + b) vals) store'
  unfolding push_values
  push_values-Pushed store store' s b [] on h = ground (arith, h)
  push_values-Pushed store store' s b (x ∷ vals) on h =
      elim (Result-cases (
        if store.cfg.has_cat
        then push_classes store.cat (s * store.n_out + b) (x ∷ vals)
        else ok store.cat)) [
          | inl (cat, done) ↦ ground (arith, rw (done, on) at h)
          | inr (e, failed) ↦ absurd (ground (arith, rw failed at h))
        ]

  add_npix-Pushed :
      (store : CellStore A L) (i : ℕ) (w : A) → Pushed store store.cont (add_npix store i w)
  unfolding add_npix
  add_npix-Pushed store i w = elim (Bool-cases store.cfg.has_npix) [
    | inl on ↦ ground (arith, on)
    | inr off ↦ ground (arith, off)
  ]

  add_band_weights-Pushed :
      (store : CellStore A L) (i : ℕ) (ws : List A)
      → Pushed store store.cont (add_band_weights store i ws)
  unfolding add_band_weights
  add_band_weights-Pushed store i [] = (refl, refl, refl)
  add_band_weights-Pushed store i (w ∷ ws) = ground arith

  add_runs_npix-Pushed :
      (runs : List Run) (store : CellStore A L) → Pushed store store.cont (add_runs_npix runs store)
  unfolding add_runs_npix
  add_runs_npix-Pushed [] store = (refl, refl, refl)
  add_runs_npix-Pushed ((s, c0, c1) ∷ runs) store =
      let next = add_npix store s (f.of_size (c1 - c0)) in
      let one : Pushed store store.cont next = add_npix-Pushed store s (f.of_size (c1 - c0)) in
      let rest : Pushed next next.cont (add_runs_npix runs next) = add_runs_npix-Pushed runs next in
      (rest.0 ∙ one.0, rest.1 ∙ one.1, rest.2 ∙ one.2)

  pub add_runs_npix-Pushed_when :
      (on : Bool) (runs : List Run) (store : CellStore A L)
      → Pushed store store.cont (if on then add_runs_npix runs store else store)
  add_runs_npix-Pushed_when true runs store = add_runs_npix-Pushed runs store
  add_runs_npix-Pushed_when false runs store = (refl, refl, refl)

  pub add_runs_weights-Pushed :
      (runs : List Run) (ri : ℕ) (run_w : List A) (store : CellStore A L)
      → Pushed store store.cont (add_runs_weights ri runs run_w store)
  unfolding add_runs_weights
  add_runs_weights-Pushed [] ri run_w store = (refl, refl, refl)
  add_runs_weights-Pushed ((s, c0, c1) ∷ runs) ri run_w store =
      let ws = take store.n_out (drop (ri * store.n_out) run_w) in
      let next = add_band_weights store s ws in
      let one : Pushed store store.cont next = add_band_weights-Pushed store s ws in
      let rest : Pushed next next.cont (add_runs_weights (ri + 1) runs run_w next) =
        add_runs_weights-Pushed runs (ri + 1) run_w next in
      (rest.0 ∙ one.0, rest.1 ∙ one.1, rest.2 ∙ one.2)

  pub push_runs-first :
      (ctx : TileCtx A) (v : TypedArray A) (w_stride base b ri s c0 c1 : ℕ) (runs : List Run)
      (store : CellStore A L) (run_w : List A) (out : CellStore A L × List A)
      → push_runs ctx v w_stride base b ri ((s, c0, c1) ∷ runs) (store, run_w) ≡ ok out
      → (store' : CellStore A L) × (run_w' : List A) × (push_values store s b (
            values_from v ctx.nodata
              (band_of ctx.dequant b)
              (base + c0 * w_stride)
              w_stride
              (c1 - c0))
          ≡ ok store')
        × (push_runs ctx v w_stride base b (ri + 1) runs (store', run_w') ≡ ok out)
  unfolding push_runs
  push_runs-first ctx v w_stride base b ri s c0 c1 runs store run_w out h =
      let read =
        read_run_values v (base + c0 * w_stride) w_stride (c1 - c0) ctx.nodata
          (band_of ctx.dequant b) [] in
      elim (Option-cases read) [
        | inl out_of_bounds ↦ absurd (ground (arith, rw out_of_bounds at h))
        | inr (vals, e) ↦
            let are =
              read_run_values_lem v ctx.nodata (band_of ctx.dequant b) (c1 - c0)
                (base + c0 * w_stride) w_stride [] vals e in
            elim (Result-cases (push_values store s b vals)) [
              | inl (store', done) ↦ (
                store',
                _,
                ap (λ xs. push_values store s b xs) (sym are) ∙ done,
                rw (e, done) at h,
              )
              | inr (x, failed) ↦ absurd (ground (arith, rw (e, failed) at h))
            ]
      ]
