-- ===== src/Layouts.antt =====
-- The running accumulators of src/rust/src/read.rs: the trait `AccLayout` and its layouts `AccSum`,
-- `AccMean`, `AccRange` and `AccFull`.
pub mod Extremes
use a5px.Prelude.{ℕ, List, [], ◌∷◌, Bool, true, false, if◌then◌else◌, length, foldl}
use a5px.Float.{F64}
use a5px.Stats.{Stat, mean, sum, count, min, max, var, sd}

pub record AccLayout (A L : Type 0) : Type 0 where
  pub fresh : L
  pub push : L → A → A → L
  -- a run of unit-weight values
  pub push_run : L → List A → L
  pub merge : L → L → L
  pub finalise : L → Stat → A
  -- whether the store keeps the weight, once per cell
  pub shared_w : Bool
  -- `finalise` given the band's weight from the store
  pub finalise_w : L → Stat → A → A

pub record AccSum (A : Type 0) : Type 0 where
  pub total : A
  pub weight : A

pub record AccMean (A : Type 0) : Type 0 where
  pub total : A

pub record AccRange (A : Type 0) : Type 0 where
  pub total : A
  pub weight : A
  pub least : A
  pub greatest : A

pub record AccFull (A : Type 0) : Type 0 where
  pub total : A
  pub weight : A
  pub least : A
  pub greatest : A
  pub mean_w : A
  pub m2 : A

module _ {A : Type 0} ⦃f : F64 A⦄ where
  unfoldable pub finalise_sum : A → A → Stat → A
  finalise_sum s w mean = if f.eq w f.naught then f.nan else f.div s w
  finalise_sum s w sum = s
  finalise_sum s w count = w
  finalise_sum s w _ = f.nan

  -- `for &v in vals { s += v; }` from 0.0
  unfoldable pub run_sum : List A → A
  run_sum vals = foldl f.add f.naught vals

  instance abbrev pub acc_sum : AccLayout A (AccSum A)
  acc_sum = record {
    fresh = record { total = f.naught; weight = f.naught };
    push = λ a v w.
        if f.le w f.naught
        then a
        else record { total = f.add a.total (f.mul w v); weight = f.add a.weight w };
    push_run = λ a vals. record {
      total = f.add a.total (run_sum vals);
      weight = f.add a.weight (f.of_size (length vals));
    };
    merge = λ a b. record { total = f.add a.total b.total; weight = f.add a.weight b.weight };
    finalise = λ a t. finalise_sum a.total a.weight t;
    shared_w = false;
    finalise_w = λ a t _. finalise_sum a.total a.weight t;
  }

  instance abbrev pub acc_mean : AccLayout A (AccMean A)
  acc_mean = record {
    fresh = record { total = f.naught };
    push = λ a v w. if f.lt f.naught w then record { total = f.add a.total (f.mul w v) } else a;
    push_run = λ a vals. record { total = f.add a.total (run_sum vals) };
    merge = λ a b. record { total = f.add a.total b.total };
    finalise = λ _ _. f.nan;
    shared_w = true;
    finalise_w = λ a t w. finalise_sum a.total w t;
  }

  abbrev pub lower : A → A → A
  lower m v = if f.lt v m then v else m

  abbrev pub higher : A → A → A
  higher m v = if f.lt m v then v else m

  abbrev pub finalise_range : AccRange A → Stat → A
  finalise_range a min = if f.eq a.weight f.naught then f.nan else a.least
  finalise_range a max = if f.eq a.weight f.naught then f.nan else a.greatest
  finalise_range a t = finalise_sum a.total a.weight t

  instance abbrev pub acc_range : AccLayout A (AccRange A)
  acc_range = record {
    fresh = record {
      total = f.naught;
      weight = f.naught;
      least = f.infinity;
      greatest = f.neg_infinity;
    };
    push = λ a v w. if f.le w f.naught then a else record {
      total = f.add a.total (f.mul w v);
      weight = f.add a.weight w;
      least = lower a.least v;
      greatest = higher a.greatest v;
    };
    push_run = λ a vals. record {
      total = f.add a.total (run_sum vals);
      weight = f.add a.weight (f.of_size (length vals));
      least = foldl lower a.least vals;
      greatest = foldl higher a.greatest vals;
    };
    merge = λ a b. record {
      total = f.add a.total b.total;
      weight = f.add a.weight b.weight;
      least = lower a.least b.least;
      greatest = higher a.greatest b.greatest;
    };
    finalise = finalise_range;
    shared_w = false;
    finalise_w = λ a t _. finalise_range a t;
  }

  abbrev pub push_full : AccFull A → A → A → AccFull A
  push_full a v w =
      let weight = f.add a.weight w in
      let delta = f.sub v a.mean_w in
      let mean_w = f.add a.mean_w (f.mul (f.div w weight) delta) in
      if f.le w f.naught then a else record {
        total = f.add a.total (f.mul w v);
        weight = weight;
        least = lower a.least v;
        greatest = higher a.greatest v;
        mean_w = mean_w;
        m2 = f.add a.m2 (f.mul (f.mul w delta) (f.sub v mean_w));
      }

  -- `merge` of two accumulators that both saw a value.
  abbrev pub join_full : AccFull A → AccFull A → AccFull A
  join_full a b =
      let w = f.add a.weight b.weight in
      let delta = f.sub b.mean_w a.mean_w in
      record {
        total = f.add a.total b.total;
        weight = f.add a.weight b.weight;
        least = lower a.least b.least;
        greatest = higher a.greatest b.greatest;
        mean_w = f.add a.mean_w (f.div (f.mul delta b.weight) w);
        m2 =
            f.add a.m2 (f.add b.m2 (f.div (f.mul (f.mul (f.mul delta delta) a.weight) b.weight) w));
      }

  abbrev pub merge_full : AccFull A → AccFull A → AccFull A
  merge_full a b =
      if f.eq b.weight f.naught then a else if f.eq a.weight f.naught then b else join_full a b

  abbrev pub finalise_full : AccFull A → Stat → A
  finalise_full a min = if f.eq a.weight f.naught then f.nan else a.least
  finalise_full a max = if f.eq a.weight f.naught then f.nan else a.greatest
  finalise_full a var = if f.le a.weight f.unit then f.nan else f.div a.m2 (f.sub a.weight f.unit)
  finalise_full a sd =
      if f.le a.weight f.unit then f.nan else f.sqrt (f.div a.m2 (f.sub a.weight f.unit))
  finalise_full a t = finalise_sum a.total a.weight t

  instance abbrev pub acc_full : AccLayout A (AccFull A)
  acc_full = record {
    fresh = record {
      total = f.naught;
      weight = f.naught;
      least = f.infinity;
      greatest = f.neg_infinity;
      mean_w = f.naught;
      m2 = f.naught;
    };
    push = push_full;
    -- the trait's own `push_run`
    push_run = foldl λ a v. push_full a v f.unit;
    merge = merge_full;
    finalise = finalise_full;
    shared_w = false;
    finalise_w = λ a t _. finalise_full a t;
  }
