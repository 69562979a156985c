-- ===== src/Examples/Numbers.antt =====
-- Natural numbers in place of `f64`, for runs at concrete inputs.
use a5px.Prelude.{ℕ, ◌+◌, ◌-◌, ◌*◌, ◌/◌, ltb, leb, ◌==◌, foldl}
use a5px.Prelude.Int.{pos, negsuc}
use a5px.Float.{F64}

instance abbrev pub small : F64 ℕ
small = record {
  naught = 0;
  unit = 1;
  infinity = 1_000_000;
  neg_infinity = 0;
  nan = 999_999;
  add = λ x y. x + y;
  sub = λ x y. x - y;
  mul = λ x y. x * y;
  div = λ x y. x / y;
  neg = λ x. 0;
  sqrt = λ x. x;
  lt = ltb;
  le = leb;
  eq = λ x y. x == y;
  is_nan = λ x. x == 999_999;
  of_size = λ n. n;
  of_i32 = λ i. elim i [ pos n ↦ n | negsuc n ↦ 0 ];
  to_i32 = pos;
  to_i64 = pos;
  sum_of = foldl (λ x y. x + y) 0;
}
