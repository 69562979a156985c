-- ===== src/Pixels/Bounds.antt =====
-- The reads of src/rust/src/read.rs within the bounds of a typed array.
use a5px.Prelude.{
  ℕ, zero, suc, ◌+◌, ◌*◌, ◌<◌, ◌≡◌, refl, arith, List, [], ◌∷◌, ◌++◌, Bool, true, false, ◌||◌,
  Option, some, if◌then◌else◌, get_elem?, length,
}
use a5px.Float.{F64}
use a5px.Decode.{BandDecode}
use a5px.Pixels.{
  TypedArray, to_f64, read_pixel_chunky, is_missing, decoded, decodes_to_nan, read_run_values,
  mark_valid,
}

abbrev pub size : {A : Type 0} → TypedArray A → ℕ
size (TypedArray.uint8 v) = length v
size (TypedArray.uint16 v) = length v
size (TypedArray.uint32 v) = length v
size (TypedArray.uint64 v) = length v
size (TypedArray.int8 v) = length v
size (TypedArray.int16 v) = length v
size (TypedArray.int32 v) = length v
size (TypedArray.int64 v) = length v
size (TypedArray.float32 v) = length v
size (TypedArray.float64 v) = length v
size (TypedArray.bool v) = length v

get_elem?-in :
    {A : Type 0} (xs : List A) (i : ℕ) → i < length xs → (x : A) × (get_elem? xs i ≡ some x)
get_elem?-in [] i h = elim h [ ]
get_elem?-in (x ∷ xs) zero h = (x, refl)
get_elem?-in (x ∷ xs) (suc i) h = get_elem?-in xs i (omega arith)

-- The `n` indices from `base` on, `stride` apart, are within the array.
abbrev pub InBounds : {A : Type 0} → TypedArray A → ℕ → ℕ → ℕ → Type 0
InBounds v base stride n = (k : ℕ) → k < n → base + k * stride < size v

InBounds-first :
    {A : Type 0} (v : TypedArray A) (base stride n : ℕ)
    → InBounds v base stride (suc n)
    → base < size v
InBounds-first v base stride n h = omega (arith, h 0 (omega arith))

InBounds-rest :
    {A : Type 0} (v : TypedArray A) (base stride n : ℕ)
    → InBounds v base stride (suc n)
    → InBounds v (base + stride) stride n
InBounds-rest v base stride n h k lt =
    let e : base + stride + k * stride ≡ base + (k + 1) * stride = grind arith in
    rw e (h (k + 1) (omega arith))

module _ {A : Type 0} ⦃f : F64 A⦄ where
  converted :
      {B : Type 0} (conv : B → A) (xs : List B) (i : ℕ)
      → i < length xs
      → (x : A) × (to_f64 conv xs i ≡ some x)
  converted conv xs i h = let (x, e) = get_elem?-in xs i h in (conv x, rw e refl)

  read_pixel_chunky-in :
      (v : TypedArray A) (i : ℕ) → i < size v → (x : A) × (read_pixel_chunky v i ≡ some x)
  unfolding read_pixel_chunky
  read_pixel_chunky-in (TypedArray.uint8 v) i h = converted f.of_size v i h
  read_pixel_chunky-in (TypedArray.uint16 v) i h = converted f.of_size v i h
  read_pixel_chunky-in (TypedArray.uint32 v) i h = converted f.of_size v i h
  read_pixel_chunky-in (TypedArray.uint64 v) i h = converted f.of_size v i h
  read_pixel_chunky-in (TypedArray.int8 v) i h = converted f.of_i32 v i h
  read_pixel_chunky-in (TypedArray.int16 v) i h = converted f.of_i32 v i h
  read_pixel_chunky-in (TypedArray.int32 v) i h = converted f.of_i32 v i h
  read_pixel_chunky-in (TypedArray.int64 v) i h = converted f.of_i32 v i h
  read_pixel_chunky-in (TypedArray.float32 v) i h = get_elem?-in v i h
  read_pixel_chunky-in (TypedArray.float64 v) i h = get_elem?-in v i h
  read_pixel_chunky-in (TypedArray.bool v) i h =
      converted (λ b. if b then f.unit else f.naught) v i h

  pub read_run_values-in :
      (v : TypedArray A) (nodata : Option A) (d : Option (BandDecode A)) (n base stride : ℕ)
      (out : List A)
      → InBounds v base stride n
      → (vals : List A) × (read_run_values v base stride n nodata d out ≡ some vals)
  unfolding read_run_values
  read_run_values-in v nodata d zero base stride out h = (out, refl)
  read_run_values-in v nodata d (suc n) base stride out h =
      let (x, there) = read_pixel_chunky-in v base (InBounds-first v base stride n h) in
      let y = decoded d x in
      let next = if is_missing x nodata || f.is_nan y then out else out ++ (y ∷ []) in
      let (vals, e) =
        read_run_values-in v nodata d n (base + stride) stride next
          (InBounds-rest v base stride n h) in
      (vals, rw there e)

  pub mark_valid-in :
      (v : TypedArray A) (nodata : Option A) (d : Option (BandDecode A)) (n base stride : ℕ)
      (valid : List Bool)
      → length valid ≡ n
      → InBounds v base stride n
      → (r : ℕ × List Bool) × (mark_valid v base stride n nodata d valid ≡ some r)
  unfolding mark_valid
  mark_valid-in v nodata d zero base stride valid len h = ((0, valid), refl)
  mark_valid-in v nodata d (suc n) base stride [] len h = absurd (omega arith)
  mark_valid-in v nodata d (suc n) base stride (true ∷ valid) len h =
      let (r, e) =
        mark_valid-in v nodata d n (base + stride) stride valid (omega arith)
          (InBounds-rest v base stride n h) in
      ((r.0, true ∷ r.1), rw e refl)
  mark_valid-in v nodata d (suc n) base stride (false ∷ valid) len h =
      let (x, there) = read_pixel_chunky-in v base (InBounds-first v base stride n h) in
      let (r, e) =
        mark_valid-in v nodata d n (base + stride) stride valid (omega arith)
          (InBounds-rest v base stride n h) in
      let marked =
        if is_missing x nodata || decodes_to_nan d x
        then (r.0, false ∷ r.1)
        else (r.0 + 1, true ∷ r.1) in
      (marked, rw (there, e) refl)
