-- ===== src/Composite.antt =====
-- src/rust/src/composite.rs: the reducers of per-source cell values. What it does with `f64` beyond
-- `F64` is a parameter. A value is not NaN here, as the code's comment asks.
pub mod Majority
use Prim.Native.String.{String}
use text.Mathlib.Text.{◌==◌ as str_eq}
use a5px.Prelude.{
  ℕ, List, [], ◌∷◌, Bool, true, false, ◌&&◌, Option, none, some, if◌then◌else◌, foldl, length, ltb,
  map, Result, ok, err,
}
use a5px.Float.{F64}
use a5px.Stats.{Error, invalid, is_empty}

pub data Reducer : Type 0 where
  mean median min max sum count var sd majority : Reducer

unfoldable pub parse_reducer : String → Result Error (Option Reducer)
parse_reducer s =
    if str_eq s ""
    then ok none
    else if str_eq s "mean"
    then ok (some mean)
    else if str_eq s "median"
    then ok (some median)
    else if str_eq s "min"
    then ok (some min)
    else if str_eq s "max"
    then ok (some max)
    else if str_eq s "sum"
    then ok (some sum)
    else if str_eq s "count"
    then ok (some count)
    else if str_eq s "var"
    then ok (some var)
    else if str_eq s "sd"
    then ok (some sd)
    else if str_eq s "majority"
    then ok (some majority)
    else err invalid

-- `f64::total_cmp` (whether not greater), `min`, `max`, `abs`, 0.5 and 1e-12.
pub record Total (A : Type 0) : Type 0 where
  pub total_le : A → A → Bool
  pub least : A → A → A
  pub greatest : A → A → A
  pub abs : A → A
  pub half : A
  pub tiny : A

module _ {A : Type 0} ⦃f : F64 A⦄ (t : Total A) where
  abbrev pub place_in : A × A → List (A × A) → List (A × A)
  place_in e [] = e ∷ []
  place_in e (x ∷ xs) =
      let rest = place_in e xs in if t.total_le e.0 x.0 then e ∷ x ∷ xs else x ∷ rest

  -- `sort_by(|a, b| a.0.total_cmp(&b.0))`, which is stable.
  abbrev pub sort_by_value : List (A × A) → List (A × A)
  sort_by_value [] = []
  sort_by_value (x ∷ xs) = place_in x (sort_by_value xs)

  -- The best group so far and the one just ended.
  abbrev pub close_group : A × A → A × A → A × A
  close_group best group = if f.lt best.1 group.1 then group else best

  -- The loop over the sorted values; `group` is the value and the weight of the group at hand.
  pub majority_from : A × A → A × A → List (A × A) → A × A
  majority_from best group [] = close_group best group
  majority_from best group ((v, w) ∷ vals) =
      let same = f.eq v group.0 in
      majority_from (if same then best else close_group best group)
        (if same then (group.0, f.add group.1 w) else (v, f.add f.naught w)) vals

  unfoldable pub majority_of : List (A × A) → A
  unfolding majority_from
  majority_of [] = f.nan
  majority_of ((v, w) ∷ vals) = (majority_from (f.nan, f.neg_infinity) (v, f.add f.naught w) vals).0

  -- The median's loop: `cum` is the weight so far.
  pub median_from : A → A → List (A × A) → A
  median_from half cum [] = f.nan
  median_from half cum ((v, w) ∷ []) = v
  median_from half cum ((v, w) ∷ (v', w') ∷ vals) =
      let cum' = f.add cum w in
      let exact = f.le (t.abs (f.sub cum' half)) (f.mul t.tiny (t.greatest half f.unit)) in
      let rest = median_from half cum' ((v', w') ∷ vals) in
      if f.le half cum' then (if exact then f.mul t.half (f.add v v') else v) else rest

  unfoldable pub weighted_median : List (A × A) → A
  unfolding median_from
  weighted_median vals =
      let sorted = sort_by_value vals in
      median_from (f.mul (f.sum_of (map (λ e. e.1) sorted)) t.half) f.naught sorted

  unfoldable pub weighted_var : List (A × A) → A
  weighted_var vals =
      let sw = f.sum_of (map (λ e. e.1) vals) in
      let sw2 = f.sum_of (map (λ e. f.mul e.1 e.1) vals) in
      let m = f.div (f.sum_of (map (λ e. f.mul e.1 e.0) vals)) sw in
      let ss = f.sum_of (map (λ e. f.mul (f.mul e.1 (f.sub e.0 m)) (f.sub e.0 m)) vals) in
      let denom = f.sub sw (f.div sw2 sw) in
      if ltb (length vals) 2 then f.nan else if f.lt f.naught denom then f.div ss denom else f.nan

  abbrev pub reduce_none : Reducer → A
  reduce_none count = f.naught
  reduce_none sum = f.naught
  reduce_none _ = f.nan

  abbrev pub reduce_some : Reducer → List (A × A) → A
  reduce_some count vals = f.of_size (length vals)
  reduce_some sum vals = f.sum_of (map (λ e. e.0) vals)
  reduce_some min vals = foldl t.least f.infinity (map (λ e. e.0) vals)
  reduce_some max vals = foldl t.greatest f.neg_infinity (map (λ e. e.0) vals)
  reduce_some mean vals =
      f.div (foldl (λ s e. f.add s (f.mul e.1 e.0)) f.naught vals)
        (foldl (λ s e. f.add s e.1) f.naught vals)
  reduce_some median vals = weighted_median vals
  reduce_some var vals = weighted_var vals
  reduce_some sd vals = f.sqrt (weighted_var vals)
  reduce_some majority vals = majority_of (sort_by_value vals)

  unfoldable pub reduce : Reducer → List (A × A) → A
  unfolding weighted_median weighted_var majority_of
  reduce r vals = if is_empty vals then reduce_none r else reduce_some r vals
