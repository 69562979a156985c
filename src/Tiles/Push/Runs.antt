-- ===== src/Tiles/Push/Runs.antt =====
-- Pass 3 of `process_tile` of src/rust/src/read.rs: the runs of one band.
use a5px.Prelude.{
  [], ℕ, ◌+◌, ◌*◌, ◌<◌, ◌≡◌, ◌≢◌, ◌∙◌, ap, arith, List, ◌∷◌, true, if◌then◌else◌, ◌==◌, get_or,
  length, ok,
}
use a5px.Float.{F64}
use a5px.Pixels.{TypedArray}
use a5px.Layouts.{AccLayout}
use a5px.Store.{CellStore}
use a5px.Rows.{Run}
use a5px.Tiles.{TileCtx}
use a5px.Tiles.Push.{push_runs}
use a5px.Tiles.Values.{slab_index}
use a5px.Tiles.Push.Adds.{
  run_values, push_onto, pushed_at, length-pushed_at, get_or-pushed_at_ne, get_or-pushed_at,
  push_values-Pushed, push_runs-first,
}

module _ {A L : Type 0} ⦃f : F64 A⦄ ⦃l : AccLayout A L⦄ where
  -- The runs of slot `s` into an accumulator, one by one; `vals` gives the values of a run's columns.
  abbrev pub pushes : (ℕ → ℕ → List A) → ℕ → List Run → L → L
  pushes vals s [] acc = acc
  pushes vals s ((s', c0, c1) ∷ runs) acc =
      pushes vals s runs (if s' == s then push_onto acc (vals c0 c1) else acc)

  -- Accumulators of a store `s'` against those of `s`: as many, for as many bands and the same stats.
  abbrev SameShape : CellStore A L → CellStore A L → Type 0
  SameShape s s' = (s'.n_out ≡ s.n_out) × (s'.cfg ≡ s.cfg) × (length s'.cont ≡ length s.cont)

  pub push_runs-SameShape :
      (ctx : TileCtx A) (v : TypedArray A) (w_stride base b ri : ℕ) (runs : List Run)
      (store : CellStore A L) (run_w : List A) (out : CellStore A L × List A)
      → push_runs ctx v w_stride base b ri runs (store, run_w) ≡ ok out
      → store.cfg.has_cont ≡ true
      → SameShape store out.0
  unfolding push_runs
  push_runs-SameShape ctx v w_stride base b ri [] store run_w out h on = ground (arith, h)
  push_runs-SameShape ctx v w_stride base b ri ((s, c0, c1) ∷ runs) store run_w out h on =
      let (store', run_w', pushed, rest) =
        push_runs-first ctx v w_stride base b ri s c0 c1 runs store run_w out h in
      let vals = run_values ctx v w_stride base b c0 c1 in
      let one = push_values-Pushed store store' s b vals on pushed in
      let on' : store'.cfg.has_cont ≡ true = ap (λ c. c.has_cont) one.1 ∙ on in
      let later =
        push_runs-SameShape ctx v w_stride base b (ri + 1) runs store' run_w' out rest on' in
      (
        later.0 ∙ one.0,
        later.1 ∙ one.1,
        later.2 ∙ ap length one.2 ∙ length-pushed_at store.cont (s * store.n_out + b) vals,
      )

  pub push_runs-pushes :
      (ctx : TileCtx A) (v : TypedArray A) (w_stride base b ri : ℕ) (runs : List Run)
      (store : CellStore A L) (run_w : List A) (out : CellStore A L × List A) (s : ℕ) (d : L)
      → push_runs ctx v w_stride base b ri runs (store, run_w) ≡ ok out
      → store.cfg.has_cont ≡ true
      → b < store.n_out
      → s * store.n_out + b < length store.cont
      → get_or out.0.cont (s * store.n_out + b) d
        ≡ pushes
            (run_values ctx v w_stride base b)
            s
            runs
            (get_or store.cont (s * store.n_out + b) d)
  unfolding push_runs
  push_runs-pushes ctx v w_stride base b ri [] store run_w out s d h on below room =
      ground (arith, h)
  push_runs-pushes ctx v w_stride base b ri ((s', c0, c1) ∷ runs) store run_w out s d h on below
        room =
      let (store', run_w', pushed, rest) =
        push_runs-first ctx v w_stride base b ri s' c0 c1 runs store run_w out h in
      let vals = run_values ctx v w_stride base b c0 c1 in
      let one = push_values-Pushed store store' s' b vals on pushed in
      let on' : store'.cfg.has_cont ≡ true = ap (λ c. c.has_cont) one.1 ∙ on in
      let below' : b < store'.n_out = rw one.0 below in
      let room' : s * store'.n_out + b < length store'.cont =
        rw (one.0, one.2, length-pushed_at store.cont (s' * store.n_out + b) vals) room in
      let later : get_or out.0.cont (s * store.n_out + b) d
          ≡ pushes (run_values ctx v w_stride base b) s runs
              (get_or (pushed_at store.cont (s' * store.n_out + b) vals) (s * store.n_out + b) d) =
        rw (one.0, one.2) at
          (push_runs-pushes ctx v w_stride base b (ri + 1) runs store' run_w' out s d rest on'
            below' room') in
      later
      ∙ ap (λ acc. pushes (run_values ctx v w_stride base b) s runs acc)
          (get_or-pushed_at store.cont store.n_out s' s b vals d below room)

  pub push_runs-other :
      (ctx : TileCtx A) (v : TypedArray A) (w_stride base b ri : ℕ) (runs : List Run)
      (store : CellStore A L) (run_w : List A) (out : CellStore A L × List A) (s b' : ℕ) (d : L)
      → push_runs ctx v w_stride base b ri runs (store, run_w) ≡ ok out
      → store.cfg.has_cont ≡ true
      → b < store.n_out
      → b' < store.n_out
      → b ≢ b'
      → get_or out.0.cont (s * store.n_out + b') d ≡ get_or store.cont (s * store.n_out + b') d
  unfolding push_runs
  push_runs-other ctx v w_stride base b ri [] store run_w out s b' d h on below below' apart =
      ground (arith, h)
  push_runs-other ctx v w_stride base b ri ((s', c0, c1) ∷ runs) store run_w out s b' d h on below
        below' apart =
      let (store', run_w', pushed, rest) =
        push_runs-first ctx v w_stride base b ri s' c0 c1 runs store run_w out h in
      let vals = run_values ctx v w_stride base b c0 c1 in
      let one = push_values-Pushed store store' s' b vals on pushed in
      let on' : store'.cfg.has_cont ≡ true = ap (λ c. c.has_cont) one.1 ∙ on in
      let later : get_or out.0.cont (s * store.n_out + b') d
          ≡ get_or (pushed_at store.cont (s' * store.n_out + b) vals) (s * store.n_out + b') d =
        rw (one.0, one.2) at
          (push_runs-other ctx v w_stride base b (ri + 1) runs store' run_w' out s b' d rest on'
            (rw one.0 below) (rw one.0 below') apart) in
      later
      ∙ get_or-pushed_at_ne store.cont (s' * store.n_out + b) (s * store.n_out + b') vals d
          (λ e. apart (slab_index store.n_out s' s b b' below below' e).1)
