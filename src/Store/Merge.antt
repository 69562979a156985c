-- ===== src/Store/Merge.antt =====
-- Merging a cell of one `CellStore` of src/rust/src/read.rs into another, and what a store says of a
-- cell. After an error the read ends, and the store it left half merged is not read.
pub mod Returns
use a5px.Prelude.{
  ℕ, zero, suc, ◌+◌, ◌*◌, List, [], ◌∷◌, Option, none, some, if◌then◌else◌, get_or, modify, map,
  Result, ok, ◌>>=◌,
}
use a5px.Float.{F64}
use a5px.Stats.{Error, Stat, count, majority}
use a5px.Layouts.{AccLayout}
use a5px.Classes.{ClassWeights, majority_and_weight, finalise_majority}
use a5px.Store.{CellStore, shared, slot, cat_push_all, merge_weights, shared_weight}

-- `0..n`, from `b` on.
abbrev pub bands_from : ℕ → ℕ → List ℕ
bands_from b zero = []
bands_from b (suc n) = b ∷ bands_from (b + 1) n

-- `cont[at + col].merge(&theirs[from + b])` for each band `b` and its column.
pub merge_conts : {L : Type 0} → (L → L → L) → L → List L → List L → ℕ → ℕ → ℕ → List ℕ → List L
merge_conts merge fresh cont theirs at from b [] = cont
merge_conts merge fresh cont theirs at from b (col ∷ cols) =
    merge_conts merge fresh (modify cont (at + col) (λ x. merge x (get_or theirs (from + b) fresh)))
      theirs at from (b + 1) cols

module _ {A : Type 0} ⦃f : F64 A⦄ where
  -- `cat_push` of each class of `theirs[from + b]` into `cat[at + col]`.
  pub merge_cats :
      List (ClassWeights A)
      → List (ClassWeights A)
      → ℕ
      → ℕ
      → ℕ
      → List ℕ
      → Result Error (List (ClassWeights A))
  merge_cats cat theirs at from b [] = ok cat
  merge_cats cat theirs at from b (col ∷ cols) =
      cat_push_all cat (at + col) (get_or theirs (from + b) []) >>= λ cat'.
      merge_cats cat' theirs at from (b + 1) cols

module _ {A L : Type 0} ⦃f : F64 A⦄ ⦃l : AccLayout A L⦄ where
  -- Both functions past `slot`: `n_loc` is the width of `other`'s slabs, `cols` the columns, and `slots`
  -- the column map that `merge_weights` is given.
  pub merge_at :
      CellStore A L
      → CellStore A L
      → ℕ
      → ℕ
      → ℕ
      → List ℕ
      → Option (List ℕ)
      → Result Error (CellStore A L)
  unfolding merge_weights merge_conts merge_cats
  merge_at self other n_loc i s cols slots =
      let at = s * self.n_out in
      let from = i * n_loc in
      let cont =
        if self.cfg.has_cont
        then merge_conts l.merge l.fresh self.cont other.cont at from 0 cols
        else self.cont in
      let cats =
        if self.cfg.has_cat then merge_cats self.cat other.cat at from 0 cols else ok self.cat in
      cats >>= λ cat.
      let npix =
        if self.cfg.has_npix
        then modify self.npix s (λ x. f.add x (get_or other.npix i f.naught))
        else self.npix in
      let merged : CellStore A L = record self { cont = cont; cat = cat; npix = npix } in
      ok (if shared self then merge_weights merged other i s slots else merged)

  unfoldable pub merge_cell_from_mapped :
      CellStore A L → CellStore A L → ℕ → List ℕ → Result Error (CellStore A L)
  unfolding slot merge_at
  merge_cell_from_mapped self other i slots =
      let at = slot self (get_or other.cells i 0) in
      merge_at at.0 other other.n_out i at.1 slots (some slots)

  unfoldable pub merge_cell_from : CellStore A L → CellStore A L → ℕ → Result Error (CellStore A L)
  unfolding slot merge_at
  merge_cell_from self other i =
      let at = slot self (get_or other.cells i 0) in
      merge_at at.0 other self.n_out i at.1 (bands_from 0 self.n_out) none

  -- Valid pixel weight of local cell `i`, band `b`.
  unfoldable pub weight : CellStore A L → ℕ → ℕ → A
  unfolding shared_weight
  weight s i b =
      let idx = i * s.n_out + b in
      if shared s
      then shared_weight s i b
      else if s.cfg.has_cont
      then l.finalise (get_or s.cont idx l.fresh) count
      else f.sum_of (map (λ e. e.1) (get_or s.cat idx []))

  -- The value of any stat but `majority`.
  abbrev pub cont_value : CellStore A L → Stat → ℕ → ℕ → A
  cont_value s stat i b =
      let acc = get_or s.cont (i * s.n_out + b) l.fresh in
      if shared s then l.finalise_w acc stat (shared_weight s i b) else l.finalise acc stat

  -- Finalised value of `stat` for local cell `i`, band `b`.
  unfoldable pub value : CellStore A L → Stat → ℕ → ℕ → A
  unfolding finalise_majority shared_weight
  value s majority i b = finalise_majority (get_or s.cat (i * s.n_out + b) [])
  value s stat i b = cont_value s stat i b

  unfoldable pub value_and_weight : CellStore A L → Stat → ℕ → ℕ → A × A
  unfolding majority_and_weight value weight
  value_and_weight s majority i b = majority_and_weight (get_or s.cat (i * s.n_out + b) [])
  value_and_weight s stat i b = (value s stat i b, weight s i b)
