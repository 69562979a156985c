-- ===== src/Decode/Domain.antt =====
-- A validated table decodes every code of its source.
use a5px.Prelude.{
  ℕ, ◌+◌, ◌-◌, ◌^◌, ◌≡◌, ◌<◌, refl, arith, Bool, false, ◌||◌, Option, none, some, if◌then◌else◌,
  ltb, leb, length, get_or, ok, err, add_u64, sub_u64, Bool-cases, inl, inr,
}
use a5px.Prelude.Int.{ℤ, pos, negsuc, ltb_ℤ}
use a5px.Float.{F64}
use a5px.Stats.{invalid}
use a5px.Decode.{
  DequantLut, DataType, bool, uint8, uint16, int8, int16, to_u64, i64_of, integer_code_range,
  apply_lut, covered_hi, validate_dequant_dtype,
}

-- The integer `k` above `a`.
abbrev pub plus : ℤ → ℕ → ℤ
plus (pos a) k = pos (a + k)
plus (negsuc a) k = if leb k a then negsuc (a - k) else pos (k - a - 1)

abbrev pub InI64 : ℤ → Type 0
InI64 (pos n) = n < 2 ^ 63
InI64 (negsuc n) = n < 2 ^ 63

-- How far `c` is above `a`.
abbrev above : ℤ → ℤ → ℕ
above a c = sub_u64 (to_u64 c) (to_u64 a)

above-covered :
    (min c : ℤ) (lo : ℤ) (hi len : ℕ)
    → InI64 min
    → InI64 c
    → 0 < len
    → len < 2 ^ 63
    → ltb_ℤ lo min ≡ false
    → ltb_ℤ (i64_of (sub_u64 (add_u64 (to_u64 min) len) 1)) (pos hi) ≡ false
    → ltb_ℤ c lo ≡ false
    → ltb_ℤ (pos hi) c ≡ false
    → (above min c < len) × (plus min (above min c) ≡ c)
above-covered (pos m) (pos c) (pos lo) hi len im ic some_len il a b d e =
    (ground arith, ground arith)
above-covered (pos m) (pos c) (negsuc lo) hi len im ic some_len il a b d e = cc
above-covered (pos m) (negsuc c) (pos lo) hi len im ic some_len il a b d e = cc
above-covered (pos m) (negsuc c) (negsuc lo) hi len im ic some_len il a b d e = cc
above-covered (negsuc m) (pos c) lo hi len im ic some_len il a b d e =
    let top = sub_u64 (add_u64 (to_u64 (negsuc m)) len) 1 in
    elim (Bool-cases (ltb top (2 ^ 63))) [
      | inr past ↦ absurd (ground (arith, rw past at b))
      | inl within ↦ let reach : ltb top hi ≡ false = rw within at b in (ground arith, ground arith)
    ]
above-covered (negsuc m) (negsuc c) (pos lo) hi len im ic some_len il a b d e = cc
above-covered (negsuc m) (negsuc c) (negsuc lo) hi len im ic some_len il a b d e =
    (ground arith, ground arith)

integer_code_range-pos :
    (dtype : Option DataType) (lo hi : ℤ)
    → integer_code_range dtype ≡ some (lo, hi)
    → (n : ℕ) × (hi ≡ pos n)
unfolding integer_code_range
integer_code_range-pos none lo hi h = absurd (ground arith)
integer_code_range-pos (some bool) lo hi h = (1, ground arith)
integer_code_range-pos (some uint8) lo hi h = (255, ground arith)
integer_code_range-pos (some uint16) lo hi h = (65535, ground arith)
integer_code_range-pos (some int8) lo hi h = (127, ground arith)
integer_code_range-pos (some int16) lo hi h = (32767, ground arith)
integer_code_range-pos (some _) lo hi h = absurd (ground arith)

passed :
    (a b : Bool) → (if a || b then err invalid else ok tt) ≡ ok (tt {0}) → (a ≡ false) × (b ≡ false)
passed a b h = ground arith

-- A table that `validate_dequant_dtype` accepts for a data type, with some but less than 2^63 entries and a
-- 64-bit least code, decodes every 64-bit code in the type's range by an entry of its own: that of
-- the code's distance from the least code. The NaN for a code outside the table is never read.
pub validate_dequant_dtype-covers :
    {A : Type 0} ⦃f : F64 A⦄ (dtype : Option DataType) (dq : DequantLut A) (lo hi : ℤ)
    → validate_dequant_dtype dtype dq ≡ ok tt
    → integer_code_range dtype ≡ some (lo, hi)
    → 0 < length dq.lut
    → length dq.lut < 2 ^ 63
    → InI64 dq.min
    → (v : A) → InI64 (f.to_i64 v)
    → ltb_ℤ (f.to_i64 v) lo ≡ false
    → ltb_ℤ hi (f.to_i64 v) ≡ false
    → (k : ℕ) × (k < length dq.lut)
      × (plus dq.min k ≡ f.to_i64 v)
      × (apply_lut dq v ≡ get_or dq.lut k f.nan)
unfolding validate_dequant_dtype apply_lut
validate_dequant_dtype-covers ⦃f⦄ dtype dq lo hi h r some_len small im v iv from to =
    let (pos_hi, same) = integer_code_range-pos dtype lo hi r in
    let covers : (ltb_ℤ lo dq.min ≡ false) × (ltb_ℤ (covered_hi dq) (pos pos_hi) ≡ false) =
      rw (← same) (
        passed (ltb_ℤ lo dq.min) (ltb_ℤ (covered_hi dq) hi)
          (rw (r, validate_dequant_dtype) at h)) in
    let (fits, exact) =
      above-covered dq.min (f.to_i64 v) lo pos_hi (length dq.lut) im iv some_len small covers.0
        covers.1 from (rw same at to) in
    (above dq.min (f.to_i64 v), fits, exact, refl)
