-- ===== src/Examples/Integers.antt =====
-- Integers in place of `f64`, with the laws that a locator's margin rests on.
use a5px.Prelude.{ℕ, zero, suc, ◌*◌, ◌≡◌, refl, arith, true, false, not, if◌then◌else◌, ◌==◌, foldl}
use a5px.Prelude.Int.{ℤ, pos, negsuc, ltb_ℤ, eqb_ℤ}
use a5px.Float.{F64}
use a5px.Kernels.{add_i64}
use a5px.Locator.Point.Margin.{IsMetric}

abbrev pub neg_ℤ : ℤ → ℤ
neg_ℤ (pos zero) = pos 0
neg_ℤ (pos (suc n)) = negsuc n
neg_ℤ (negsuc n) = pos (suc n)

abbrev pub mul_ℤ : ℤ → ℤ → ℤ
mul_ℤ (pos a) (pos b) = pos (a * b)
mul_ℤ (pos a) (negsuc b) = neg_ℤ (pos (a * suc b))
mul_ℤ (negsuc a) (pos b) = neg_ℤ (pos (suc a * b))
mul_ℤ (negsuc a) (negsuc b) = pos (suc a * suc b)

-- A length of 10, and its inverse, which is 1: a distance counts tenths.
instance abbrev pub whole : F64 ℤ
whole = record {
  naught = pos 0;
  unit = pos 1;
  infinity = pos 1_000_000;
  neg_infinity = negsuc 1_000_000;
  nan = negsuc 2_000_000;
  add = add_i64;
  sub = λ x y. add_i64 x (neg_ℤ y);
  mul = mul_ℤ;
  div = λ x y. if eqb_ℤ y (pos 10) then x else pos 0;
  neg = neg_ℤ;
  sqrt = λ x. if eqb_ℤ x (pos 100) then pos 10 else pos 0;
  lt = ltb_ℤ;
  le = λ x y. not (ltb_ℤ y x);
  eq = eqb_ℤ;
  is_nan = λ x. false;
  of_size = pos;
  of_i32 = λ i. i;
  to_i32 = λ x. x;
  to_i64 = λ x. x;
  sum_of = foldl add_i64 (pos 0);
}

lt_lt : (a b c : ℤ) → ltb_ℤ a b ≡ true → ltb_ℤ b c ≡ true → ltb_ℤ a c ≡ true
lt_lt (pos a) (pos b) (pos c) h k = ground (arith, h, k)
lt_lt (pos a) (pos b) (negsuc c) h k = absurd (ground (arith, k))
lt_lt (pos a) (negsuc b) c h k = absurd (ground (arith, h))
lt_lt (negsuc a) (pos b) (pos c) h k = refl
lt_lt (negsuc a) (pos b) (negsuc c) h k = absurd (ground (arith, k))
lt_lt (negsuc a) (negsuc b) (pos c) h k = refl
lt_lt (negsuc a) (negsuc b) (negsuc c) h k = ground (arith, h, k)

-- Below what is not below.
lt_not : (a b c : ℤ) → ltb_ℤ a b ≡ true → ltb_ℤ c b ≡ false → ltb_ℤ a c ≡ true
lt_not (pos a) (pos b) (pos c) h k = ground (arith, h, k)
lt_not (pos a) (pos b) (negsuc c) h k = absurd (ground (arith, k))
lt_not (pos a) (negsuc b) c h k = absurd (ground (arith, h))
lt_not (negsuc a) (pos b) (pos c) h k = refl
lt_not (negsuc a) (pos b) (negsuc c) h k = absurd (ground (arith, k))
lt_not (negsuc a) (negsuc b) (pos c) h k = refl
lt_not (negsuc a) (negsuc b) (negsuc c) h k = ground (arith, h, k)

not_lt_lt : (a b c : ℤ) → not (ltb_ℤ b a) ≡ true → ltb_ℤ b c ≡ true → ltb_ℤ a c ≡ true
not_lt_lt (pos a) (pos b) (pos c) h k = ground (arith, h, k)
not_lt_lt (pos a) (pos b) (negsuc c) h k = absurd (ground (arith, k))
not_lt_lt (pos a) (negsuc b) c h k = absurd (ground (arith, h))
not_lt_lt (negsuc a) (pos b) (pos c) h k = refl
not_lt_lt (negsuc a) (pos b) (negsuc c) h k = absurd (ground (arith, k))
not_lt_lt (negsuc a) (negsuc b) (pos c) h k = refl
not_lt_lt (negsuc a) (negsuc b) (negsuc c) h k = ground (arith, h, k)

lt_sub : (m d : ℤ) → ltb_ℤ m d ≡ true → ltb_ℤ (add_i64 d (neg_ℤ m)) (pos 0) ≡ false
lt_sub (pos zero) (pos d) h = ground (arith, h)
lt_sub (pos (suc m)) (pos d) h = ground (arith, h)
lt_sub (pos m) (negsuc d) h = absurd (ground (arith, h))
lt_sub (negsuc m) (pos d) h = ground (arith, h)
lt_sub (negsuc m) (negsuc d) h = ground (arith, h)

lt_add : (m d : ℤ) → ltb_ℤ d (neg_ℤ m) ≡ true → ltb_ℤ (add_i64 d m) (pos 0) ≡ true
lt_add (pos zero) (pos d) h = absurd (ground (arith, h))
lt_add (pos (suc m)) (pos d) h = absurd (ground (arith, h))
lt_add (pos zero) (negsuc d) h = ground (arith, h)
lt_add (pos (suc m)) (negsuc d) h = ground (arith, h)
lt_add (negsuc m) (pos d) h = ground (arith, h)
lt_add (negsuc m) (negsuc d) h = refl

lt_neg : (n : ℕ) → (n == 0) ≡ false → ltb_ℤ (neg_ℤ (pos n)) (pos 0) ≡ true
lt_neg zero h = absurd (ground (arith, h))
lt_neg (suc n) h = refl

lt_mul : (c i : ℤ) → not (ltb_ℤ i (pos 1)) ≡ true → ltb_ℤ (mul_ℤ c i) (pos 0) ≡ ltb_ℤ c (pos 0)
lt_mul c (negsuc b) h = absurd (ground (arith, h))
lt_mul (pos a) (pos b) h = ground arith
lt_mul (negsuc a) (pos zero) h = absurd (ground (arith, h))
lt_mul (negsuc a) (pos (suc b)) h = lt_neg (suc a * suc b) (grind arith)

pub whole-IsMetric : IsMetric ℤ
whole-IsMetric = record {
  lt_lt = lt_lt;
  le_lt = not_lt_lt;
  not_lt = λ a b c number h k. lt_not a b c h k;
  lt_sub = lt_sub;
  lt_add = lt_add;
  lt_mul = lt_mul;
}
