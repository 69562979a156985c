-- ===== src/Pixels.antt =====
-- Typed pixel access of src/rust/src/read.rs. A decoded tile is async-tiff's typed array; an index past
-- its end is a panic, `none` here. A 32-bit float stands as the 64-bit one that it converts to.
pub mod Marks
pub mod Bounds
use a5px.Prelude.{
  ℕ, zero, suc, ◌+◌, ◌*◌, List, [], ◌∷◌, ◌++◌, Bool, true, false, not, ◌&&◌, ◌||◌, Option, none,
  some, if◌then◌else◌, ◌==◌, get_elem?, get_or, length,
}
use a5px.Prelude.Int.{ℤ}
use a5px.Float.{F64}
use a5px.Decode.{Decode, BandDecode, apply, band}

pub data TypedArray (A : Type 0) : Type 0 where
  uint8 uint16 uint32 uint64 : List ℕ → TypedArray A
  int8 int16 int32 int64 : List ℤ → TypedArray A
  float32 float64 : List A → TypedArray A
  bool : List Bool → TypedArray A

infixl 5 ◌>>=◌
abbrev pub ◌>>=◌ : {A B : Type 0} → Option A → (A → Option B) → Option B
some a >>= g = g a
none >>= g = none

module _ {A : Type 0} ⦃f : F64 A⦄ where
  abbrev pub to_f64 : {B : Type 0} → (B → A) → List B → ℕ → Option A
  to_f64 conv v i = get_elem? v i >>= λ x. some (conv x)

  unfoldable pub read_pixel_chunky : TypedArray A → ℕ → Option A
  read_pixel_chunky (TypedArray.uint8 v) i = to_f64 f.of_size v i
  read_pixel_chunky (TypedArray.uint16 v) i = to_f64 f.of_size v i
  read_pixel_chunky (TypedArray.uint32 v) i = to_f64 f.of_size v i
  read_pixel_chunky (TypedArray.uint64 v) i = to_f64 f.of_size v i
  read_pixel_chunky (TypedArray.int8 v) i = to_f64 f.of_i32 v i
  read_pixel_chunky (TypedArray.int16 v) i = to_f64 f.of_i32 v i
  read_pixel_chunky (TypedArray.int32 v) i = to_f64 f.of_i32 v i
  read_pixel_chunky (TypedArray.int64 v) i = to_f64 f.of_i32 v i
  read_pixel_chunky (TypedArray.float32 v) i = get_elem? v i
  read_pixel_chunky (TypedArray.float64 v) i = get_elem? v i
  read_pixel_chunky (TypedArray.bool v) i = to_f64 (λ b. if b then f.unit else f.naught) v i

  unfoldable pub is_nodata : A → A → Bool
  is_nodata v nodata = if f.is_nan nodata then f.is_nan v else f.eq v nodata

  abbrev pub is_nodata_of : A → Option A → Bool
  is_nodata_of x none = false
  is_nodata_of x (some nd) = is_nodata x nd

  unfoldable pub is_missing : A → Option A → Bool
  unfolding is_nodata
  is_missing x nodata = f.is_nan x || is_nodata_of x nodata

  abbrev pub decodes_to_nan : Option (BandDecode A) → A → Bool
  decodes_to_nan none x = false
  decodes_to_nan (some d) x = f.is_nan (apply d x)

  -- The value that a band's decode gives.
  abbrev pub decoded : Option (BandDecode A) → A → A
  decoded none x = x
  decoded (some d) x = apply d x

  -- The run of `n` pixels from `base` on, after `out`. The macro's arms read as `read_pixel_chunky`.
  unfoldable pub read_run_values :
      TypedArray A → ℕ → ℕ → ℕ → Option A → Option (BandDecode A) → List A → Option (List A)
  unfolding read_pixel_chunky is_missing apply
  read_run_values v base stride zero nodata dequant out = some out
  read_run_values v base stride (suc n) nodata dequant out = read_pixel_chunky v base >>= λ x.
      let y = decoded dequant x in
      read_run_values v (base + stride) stride n nodata dequant
        (if is_missing x nodata || f.is_nan y then out else out ++ (y ∷ []))

  -- `mark_valid` from column `c` on: how many pixels became valid, and the marks.
  unfoldable pub mark_valid :
      TypedArray A
      → ℕ
      → ℕ
      → ℕ
      → Option A
      → Option (BandDecode A)
      → List Bool
      → Option (ℕ × List Bool)
  unfolding read_pixel_chunky is_missing apply
  mark_valid v base stride zero nodata decode valid = some (0, valid)
  mark_valid v base stride (suc n) nodata decode [] = none
  mark_valid v base stride (suc n) nodata decode (ok ∷ valid) =
      let rest = mark_valid v (base + stride) stride n nodata decode valid in
      if ok
      then (rest >>= λ r. some (r.0, true ∷ r.1))
      else (read_pixel_chunky v base >>= λ x.
          let missing = is_missing x nodata || decodes_to_nan decode x in
          rest >>= λ r. some (if missing then (r.0, false ∷ r.1) else (r.0 + 1, true ∷ r.1)))

  -- `gather_bands` from band `b` on: the values and which of them are valid.
  unfoldable pub gather_bands :
      TypedArray A
      → ℕ
      → ℕ
      → ℕ
      → List ℕ
      → Option A
      → Option (Decode A)
      → Option (List A × List Bool × Bool)
  unfolding read_pixel_chunky is_missing apply band
  gather_bands v pixel_base b_stride b [] nodata dequant = some ([], [], false)
  gather_bands v pixel_base b_stride b (src_b ∷ offsets) nodata dequant =
      read_pixel_chunky v (pixel_base + src_b * b_stride) >>= λ raw.
      let d : Option (BandDecode A) = elim dequant [ none ↦ none | some d ↦ some (band d b) ] in
      let y = decoded d raw in
      let valid = not (is_missing raw nodata) && not (f.is_nan y) in
      gather_bands v pixel_base b_stride (b + 1) offsets nodata dequant >>= λ r.
      some (y ∷ r.0, valid ∷ r.1, valid || r.2)
