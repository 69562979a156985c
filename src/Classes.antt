-- ===== src/Classes.antt =====
-- Categorical accumulation of src/rust/src/read.rs: the class weights of one cell and band.
pub mod Majority
use a5px.Prelude.{
  ℕ, List, [], ◌∷◌, ◌++◌, Bool, false, ◌&&◌, ◌||◌, Option, none, some, if◌then◌else◌, leb, length,
  foldl, Result, ok, err,
}
use a5px.Prelude.Int.{ℤ, ltb_ℤ, eqb_ℤ}
use a5px.Float.{F64}
use a5px.Stats.{Error, invalid}

abbrev pub ClassWeights : Type 0 → Type 0
ClassWeights A = List (ℤ × A)

abbrev pub max_classes_per_cell : ℕ
max_classes_per_cell = 4096

module _ {A : Type 0} ⦃f : F64 A⦄ where
  abbrev pub has_class : ℤ → ClassWeights A → Bool
  has_class c [] = false
  has_class c ((d, w) ∷ m) = eqb_ℤ d c || has_class c m

  -- `*wt += w` at the first entry of the class.
  abbrev pub add_weight : ℤ → A → ClassWeights A → ClassWeights A
  add_weight c w [] = []
  add_weight c w ((d, x) ∷ m) =
      let rest = add_weight c w m in if eqb_ℤ d c then (d, f.add x w) ∷ m else (d, x) ∷ rest

  unfoldable pub cat_push : ClassWeights A → ℤ → A → Result Error (ClassWeights A)
  cat_push m c w =
      if f.le w f.naught
      then ok m
      else if has_class c m
      then ok (add_weight c w m)
      else if leb max_classes_per_cell (length m)
      then err invalid
      else ok (m ++ ((c, w) ∷ []))

  -- The heavier class, and the smaller code of two that weigh the same.
  abbrev pub better : Option (ℤ × A) → ℤ × A → Option (ℤ × A)
  better none (c, w) = some (c, w)
  better (some (bc, bw)) (c, w) =
      if f.lt bw w || (f.eq w bw && ltb_ℤ c bc) then some (c, w) else some (bc, bw)

  unfoldable pub majority_and_weight : ClassWeights A → A × A
  majority_and_weight m = elim (foldl better none m) [
    | some e ↦ (f.of_i32 e.0, e.1)
    | none ↦ (f.nan, f.naught)
  ]

  unfoldable pub finalise_majority : ClassWeights A → A
  unfolding majority_and_weight
  finalise_majority m = (majority_and_weight m).0
