-- ===== src/Regions.antt =====
-- `Boxes` of src/rust/src/grid_proj.rs: a region as boxes of longitude and latitude.
pub mod Decided
use a5px.Prelude.{
  ℕ, ◌%◌, List, [], ◌∷◌, ◌++◌, Bool, true, false, not, ◌&&◌, ◌||◌, Option, none, some,
  if◌then◌else◌, ◌==◌, length, Result, ok, err,
}
use a5px.Float.{F64, is_finite}
use a5px.Composite.{Total}
use a5px.Stats.{Error, invalid, any, is_empty}

pub record Box (A : Type 0) : Type 0 where
  pub xmin : A
  pub ymin : A
  pub xmax : A
  pub ymax : A

abbrev pub is_none : Option Bool → Bool
is_none none = true
is_none (some b) = false

-- The loop of `classify`, given what a box says and what the rest does.
abbrev pub decide_box : Option Bool → Option Bool → Option Bool
decide_box (some true) rest = some true
decide_box (some false) rest = rest
decide_box none rest = rest

module _ {A : Type 0} ⦃f : F64 A⦄ where
  -- Four numbers each; those left over are dropped.
  abbrev pub boxes_of : List A → List (Box A)
  boxes_of (a ∷ b ∷ c ∷ d ∷ v) = record { xmin = a; ymin = b; xmax = c; ymax = d } ∷ boxes_of v
  boxes_of _ = []

  abbrev pub is_full : Box A → Bool
  is_full b = f.lt b.xmin b.xmax && f.lt b.ymin b.ymax

  unfoldable pub from_flat : List A → Result Error (Option (List (Box A)))
  from_flat v =
      if is_empty v
      then ok none
      else if not (length v % 4 == 0) || any (λ x. not (is_finite x)) v
      then err invalid
      else if any (λ b. not (is_full b)) (boxes_of v)
      then err invalid
      else ok (some (boxes_of v))

  -- Beyond a box's max edge: the edge is open, but at the globe's.
  abbrev pub past_max : A → A → A → Bool
  past_max v hi globe = if f.le globe hi then f.lt hi v else f.le hi v

  abbrev pub in_bbox : A → A → Box A → Bool
  in_bbox lon lat b =
      f.le b.xmin lon
      && f.le b.ymin lat
      && not (past_max lon b.xmax (f.of_size 180))
      && not (past_max lat b.ymax (f.of_size 90))

  abbrev pub surely_in : A → A → A → Box A → Bool
  surely_in lon lat margin b =
      f.le b.xmin (f.sub lon margin)
      && f.le b.ymin (f.sub lat margin)
      && not (past_max (f.add lon margin) b.xmax (f.of_size 180))
      && not (past_max (f.add lat margin) b.ymax (f.of_size 90))

  abbrev pub surely_out : A → A → A → Box A → Bool
  surely_out lon lat margin b =
      f.lt (f.add lon margin) b.xmin
      || f.lt (f.add lat margin) b.ymin
      || past_max (f.sub lon margin) b.xmax (f.of_size 180)
      || past_max (f.sub lat margin) b.ymax (f.of_size 90)

  unfoldable pub bbox_classify : A → A → A → Box A → Option Bool
  bbox_classify lon lat margin b =
      if surely_in lon lat margin b
      then some true
      else if surely_out lon lat margin b
      then some false
      else none

  pub classify_boxes : A → A → A → Bool → List (Box A) → Option Bool
  unfolding bbox_classify
  classify_boxes lon lat margin undecided [] = if undecided then none else some false
  classify_boxes lon lat margin undecided (b ∷ boxes) =
      let said = bbox_classify lon lat margin b in
      decide_box said (classify_boxes lon lat margin (undecided || is_none said) boxes)

  abbrev covers_box : List (Box A) → Box A → Bool
  covers_box self o =
      any
        (λ b. f.le b.xmin o.xmin && f.le b.ymin o.ymin && f.le o.xmax b.xmax && f.le o.ymax b.ymax)
        self

  unfoldable pub covers : List (Box A) → List (Box A) → Bool
  covers self other = not (any (λ o. not (covers_box self o)) other)

-- `rem_euclid` is a parameter.
module _ {A : Type 0} ⦃f : F64 A⦄ (rem_euclid : A → A → A) where
  unfoldable pub wrap_lon : A → A
  wrap_lon lon =
      let half = f.of_size 180 in
      if f.le (f.neg half) lon && f.lt lon half
      then lon
      else f.sub (rem_euclid (f.add lon half) (f.of_size 360)) half

  -- `Boxes::contains`
  unfoldable pub holds_point : List (Box A) → A → A → Bool
  unfolding wrap_lon
  holds_point self lon lat = any (λ b. in_bbox (wrap_lon lon) lat b) self

  -- `Boxes::classify`
  unfoldable pub classify_point : List (Box A) → A → A → A → Option Bool
  unfolding wrap_lon classify_boxes
  classify_point self lon lat margin =
      let half = f.of_size 180 in
      let at = wrap_lon lon in
      if f.le half (f.add at margin) || f.lt (f.sub at margin) (f.neg half)
      then none
      else classify_boxes at lat margin false self

  -- `of_range`, with the `max` and `min` of `f64`.
  unfoldable pub of_range : Total A → A → A → A → A → List (Box A)
  unfolding wrap_lon
  of_range t a ymin b ymax =
      let low = t.greatest ymin (f.neg (f.of_size 90)) in
      let high = t.least ymax (f.of_size 90) in
      let half = f.of_size 180 in
      let turn = f.of_size 360 in
      let a2 = wrap_lon a in
      let b2 = f.add a2 (f.sub b a) in
      if f.le turn (f.sub b a)
      then record { xmin = f.neg half; ymin = low; xmax = half; ymax = high } ∷ []
      else if f.le b2 half
      then record { xmin = a2; ymin = low; xmax = b2; ymax = high } ∷ []
      else record { xmin = a2; ymin = low; xmax = half; ymax = high }
        ∷ record { xmin = f.neg half; ymin = low; xmax = f.sub b2 turn; ymax = high }
        ∷ []

module _ {A : Type 0} ⦃f : F64 A⦄ (t : Total A) where
  abbrev pub cut_box : Box A → Box A → Box A
  cut_box a b = record {
    xmin = t.greatest a.xmin b.xmin;
    ymin = t.greatest a.ymin b.ymin;
    xmax = t.least a.xmax b.xmax;
    ymax = t.least a.ymax b.ymax;
  }

  abbrev pub cuts : Box A → List (Box A) → List (Box A)
  cuts a [] = []
  cuts a (b ∷ other) =
      let rest = cuts a other in if is_full (cut_box a b) then cut_box a b ∷ rest else rest

  -- The pieces of these boxes inside the others.
  unfoldable pub intersect : List (Box A) → List (Box A) → List (Box A)
  intersect [] other = []
  intersect (a ∷ self) other = cuts a other ++ intersect self other
