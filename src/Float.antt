-- ===== src/Float.antt =====
-- What the code does with `f64`. The type and its operations are a parameter of the model; what a
-- theorem uses of them it takes as a named law.
use a5px.Prelude.{List, ℕ, Bool, not, ◌||◌}
use a5px.Prelude.Int.{ℤ}

pub record F64 (A : Type 0) : Type 0 where
  -- 0.0, 1.0, the infinities and NaN
  pub naught : A
  pub unit : A
  pub infinity : A
  pub neg_infinity : A
  pub nan : A
  pub add : A → A → A
  pub sub : A → A → A
  pub mul : A → A → A
  pub div : A → A → A
  pub neg : A → A
  pub sqrt : A → A
  -- `<`, `<=` and `==`, false on NaN
  pub lt : A → A → Bool
  pub le : A → A → Bool
  pub eq : A → A → Bool
  pub is_nan : A → Bool
  -- `as f64` of an unsigned and of a signed integer, and `as i32` and `as i64`
  pub of_size : ℕ → A
  pub of_i32 : ℤ → A
  pub to_i32 : A → ℤ
  pub to_i64 : A → ℤ
  -- `iter().sum()`
  pub sum_of : List A → A

module _ {A : Type 0} ⦃f : F64 A⦄ where
  -- `f64::is_finite`
  abbrev pub is_finite : A → Bool
  is_finite v = not (f.is_nan v || f.eq v f.infinity || f.eq v f.neg_infinity)
