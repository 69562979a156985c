-- ===== src/Kernels.antt =====
-- The resampling kernels of src/rust/src/sample.rs. The sine, `floor` and pi are parameters.
use Prim.Native.String.{String}
use text.Mathlib.Text.{◌==◌ as str_eq}
use a5px.Prelude.{
  ℕ, zero, suc, ◌+◌, ◌-◌, ◌≡◌, refl, List, [], ◌∷◌, if◌then◌else◌, ltb, length, map, Result, ok,
  err,
}
use a5px.Prelude.Int.{ℤ, pos, negsuc}
use a5px.Float.{F64}
use a5px.Composite.{Total}
use a5px.Stats.{Error, invalid}

pub data Interp : Type 0 where
  nearest bilinear bicubic lanczos : Interp

unfoldable pub parse_interp : String → Result Error Interp
parse_interp s =
    if str_eq s "nearest"
    then ok nearest
    else if str_eq s "bilinear"
    then ok bilinear
    else if str_eq s "bicubic"
    then ok bicubic
    else if str_eq s "lanczos"
    then ok lanczos
    else err invalid

-- The first offset, and how many.
abbrev pub footprint : Interp → ℤ × ℕ
footprint nearest = (pos 0, 1)
footprint bilinear = (pos 0, 2)
footprint bicubic = (negsuc 0, 4)
footprint lanczos = (negsuc 1, 6)

abbrev pub add_i64 : ℤ → ℤ → ℤ
add_i64 (pos a) (pos b) = pos (a + b)
add_i64 (pos a) (negsuc b) = if ltb b a then pos (a - b - 1) else negsuc (b - a)
add_i64 (negsuc a) (pos b) = if ltb a b then pos (b - a - 1) else negsuc (a - b)
add_i64 (negsuc a) (negsuc b) = negsuc (suc (a + b))

pub record Waves (A : Type 0) : Type 0 where
  pub floor : A → A
  pub sin : A → A
  pub pi : A

module _ {A : Type 0} ⦃f : F64 A⦄ (t : Total A) (waves : Waves A) where
  abbrev times : A → A → A → A
  times a b c = f.mul (f.mul a b) c

  unfoldable pub keys_cubic : A → A
  keys_cubic v =
      let a = f.neg t.half in
      let x = t.abs v in
      if f.le x f.unit
      then f.add
          (f.sub (f.mul (times (f.add a (f.of_size 2)) x x) x) (times (f.add a (f.of_size 3)) x x))
          f.unit
      else if f.le x (f.of_size 2)
      then f.sub
          (f.add (f.sub (f.mul (times a x x) x) (f.mul (times (f.of_size 5) a x) x))
            (times (f.of_size 8) a x))
          (f.mul (f.of_size 4) a)
      else f.naught

  unfoldable pub lanczos3 : A → A
  lanczos3 v =
      let x = t.abs v in
      let pix = f.mul waves.pi x in
      let lobes = f.of_size 3 in
      if f.lt x t.tiny
      then f.unit
      else if f.le lobes x
      then f.naught
      else f.div (times lobes (waves.sin pix) (waves.sin (f.div pix lobes))) (f.mul pix pix)

  -- The kernel at the `n` offsets from `off` on.
  abbrev pub taps : (A → A) → A → ℤ → ℕ → List A
  taps kernel at off zero = []
  taps kernel at off (suc n) =
      kernel (f.sub at (f.of_i32 off)) ∷ taps kernel at (add_i64 off (pos 1)) n

  abbrev pub raw_weights : Interp → A → List A
  unfolding keys_cubic lanczos3
  raw_weights nearest at = f.unit ∷ []
  raw_weights bilinear at = f.sub f.unit at ∷ at ∷ []
  raw_weights bicubic at = taps keys_cubic at (footprint bicubic).0 (footprint bicubic).1
  raw_weights lanczos at = taps lanczos3 at (footprint lanczos).0 (footprint lanczos).1

  abbrev pub normalised : List A → List A
  normalised w = map (λ x. f.div x (f.sum_of w)) w

  -- All kernels but the nearest pixel's.
  unfoldable pub kernel_past : Interp → A → (ℤ × ℕ) × List A
  unfolding raw_weights
  kernel_past interp coord =
      let u = f.sub coord t.half in
      let b = waves.floor u in
      (
        (add_i64 (f.to_i64 b) (footprint interp).0, (footprint interp).1),
        normalised (raw_weights interp (f.sub u b)),
      )

  -- The first pixel, how many, and their weights.
  unfoldable pub kernel_1d : Interp → A → (ℤ × ℕ) × List A
  unfolding kernel_past
  kernel_1d nearest coord = ((f.to_i64 (waves.floor coord), 1), f.unit ∷ [])
  kernel_1d bilinear coord = kernel_past bilinear coord
  kernel_1d bicubic coord = kernel_past bicubic coord
  kernel_1d lanczos coord = kernel_past lanczos coord

  abbrev pub start_past : Interp → A → ℤ × ℕ
  start_past interp coord = (
    add_i64 (f.to_i64 (waves.floor (f.sub coord t.half))) (footprint interp).0,
    (footprint interp).1,
  )

  unfoldable pub stencil_start : Interp → A → ℤ × ℕ
  stencil_start nearest coord = (f.to_i64 (waves.floor coord), 1)
  stencil_start bilinear coord = start_past bilinear coord
  stencil_start bicubic coord = start_past bicubic coord
  stencil_start lanczos coord = start_past lanczos coord

  -- A stencil starts where its kernel does, and has as many weights as pixels.
  pub stencil_start-kernel_1d :
      (interp : Interp) (coord : A)
      → ((kernel_1d interp coord).0 ≡ stencil_start interp coord)
        × (length (kernel_1d interp coord).1 ≡ (stencil_start interp coord).1)
  unfolding kernel_1d kernel_past stencil_start raw_weights
  stencil_start-kernel_1d nearest coord = (refl, refl)
  stencil_start-kernel_1d bilinear coord = (refl, refl)
  stencil_start-kernel_1d bicubic coord = (refl, refl)
  stencil_start-kernel_1d lanczos coord = (refl, refl)
