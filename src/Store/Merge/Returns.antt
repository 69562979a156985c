-- ===== src/Store/Merge/Returns.antt =====
-- Merging a cell of a `CellStore` of src/rust/src/read.rs returns where no class weights are kept.
use a5px.Prelude.{
  ℕ, ◌*◌, ◌≡◌, refl, ◌∙◌, ap, List, Bool, true, false, Option, none, some, if◌then◌else◌, get_or,
  modify, ok, ℕ_discrete, Option-cases, inl, inr, arith,
}
use a5px.Prelude.Map.{find}
use a5px.Float.{F64}
use a5px.Layouts.{AccLayout}
use a5px.Store.{CellStore, shared, add_cell, slot, merge_weights}
use a5px.Store.Merge.{bands_from, merge_at, merge_conts, merge_cell_from, merge_cell_from_mapped}

module _ {A L : Type 0} ⦃f : F64 A⦄ ⦃l : AccLayout A L⦄ where
  pub slot-cfg : (s : CellStore A L) (cell : ℕ) → (slot s cell).0.cfg ≡ s.cfg
  unfolding slot add_cell
  slot-cfg s cell = elim (Option-cases (find ℕ_discrete cell s.index)) [
    | inl new ↦ rw (new, slot) refl
    | inr (i, old) ↦ rw (old, slot) refl
  ]

  merge_weights-cfg :
      (self other : CellStore A L) (i s : ℕ) (slots : Option (List ℕ))
      → (merge_weights self other i s slots).cfg ≡ self.cfg
  unfolding merge_weights
  merge_weights-cfg self other i s none = ground arith
  merge_weights-cfg self other i s (some slots) = refl

  weights_when :
      (on : Bool) (self other : CellStore A L) (i s : ℕ) (slots : Option (List ℕ))
      → (if on then merge_weights self other i s slots else self).cfg ≡ self.cfg
  weights_when true self other i s slots = merge_weights-cfg self other i s slots
  weights_when false self other i s slots = refl

  merge_at-in :
      (self other : CellStore A L) (n_loc i s : ℕ) (cols : List ℕ) (slots : Option (List ℕ))
      → self.cfg.has_cat ≡ false
      → (self' : CellStore A L) × (merge_at self other n_loc i s cols slots ≡ ok self')
        × (self'.cfg ≡ self.cfg)
  unfolding merge_at
  merge_at-in self other n_loc i s cols slots off =
      let at = s * self.n_out in
      let from = i * n_loc in
      let cont =
        if self.cfg.has_cont
        then merge_conts l.merge l.fresh self.cont other.cont at from 0 cols
        else self.cont in
      let npix =
        if self.cfg.has_npix
        then modify self.npix s (λ x. f.add x (get_or other.npix i f.naught))
        else self.npix in
      let merged : CellStore A L = record self { cont = cont; npix = npix } in
      (
        if shared self then merge_weights merged other i s slots else merged,
        simp off refl,
        weights_when (shared self) merged other i s slots,
      )

  pub merge_cell_from-in :
      (self other : CellStore A L) (i : ℕ)
      → self.cfg.has_cat ≡ false
      → (self' : CellStore A L) × (merge_cell_from self other i ≡ ok self') × (self'.cfg ≡ self.cfg)
  unfolding merge_cell_from
  merge_cell_from-in self other i off =
      let at = slot self (get_or other.cells i 0) in
      let cfg = slot-cfg self (get_or other.cells i 0) in
      let (next, ran, cfg') =
        merge_at-in at.0 other self.n_out i at.1 (bands_from 0 self.n_out) none
          (ap (λ c. c.has_cat) cfg ∙ off) in
      (next, ran, cfg' ∙ cfg)

  pub merge_cell_from_mapped-in :
      (self other : CellStore A L) (i : ℕ) (slots : List ℕ)
      → self.cfg.has_cat ≡ false
      → (self' : CellStore A L) × (merge_cell_from_mapped self other i slots ≡ ok self')
        × (self'.cfg ≡ self.cfg)
  unfolding merge_cell_from_mapped
  merge_cell_from_mapped-in self other i slots off =
      let at = slot self (get_or other.cells i 0) in
      let cfg = slot-cfg self (get_or other.cells i 0) in
      let (next, ran, cfg') =
        merge_at-in at.0 other other.n_out i at.1 slots (some slots)
          (ap (λ c. c.has_cat) cfg ∙ off) in
      (next, ran, cfg' ∙ cfg)
