-- ===== src/Tiles/Values.antt =====
-- What pass 3 adds: a run's values are those of its pixels, and they go to the run's slot alone.
use mathlib.Core.List.{append-nil, append_assoc}
use a5px.Prelude.{
  ℕ, zero, suc, ◌+◌, ◌-◌, ◌*◌, ◌<◌, ◌≡◌, sym, ◌∙◌, ap, arith, List, [], ◌∷◌, ◌++◌, ◌||◌, Option,
  none, some, if◌then◌else◌, ltb, Option-cases, Bool-cases, inl, inr,
}
use a5px.Float.{F64}
use a5px.Decode.{BandDecode}
use a5px.Pixels.{TypedArray, read_pixel_chunky, is_missing, decoded, read_run_values}

module _ {A : Type 0} ⦃f : F64 A⦄ (v : TypedArray A) (nodata : Option A)
    (d : Option (BandDecode A)) where
  -- The value of one pixel, decoded, or none where it is missing.
  abbrev pub value_at : ℕ → List A
  value_at i = elim (read_pixel_chunky v i) [
    | none ↦ []
    | some x ↦ if is_missing x nodata || f.is_nan (decoded d x) then [] else decoded d x ∷ []
  ]

  -- The values of the `n` pixels from `base` on.
  abbrev pub values_from : ℕ → ℕ → ℕ → List A
  values_from base stride zero = []
  values_from base stride (suc n) = value_at base ++ values_from (base + stride) stride n

  pub read_run_values_lem :
      (n base stride : ℕ) (out vals : List A)
      → read_run_values v base stride n nodata d out ≡ some vals
      → vals ≡ out ++ values_from base stride n
  unfolding read_run_values
  read_run_values_lem zero base stride out vals h =
      let e : out ≡ vals = ground (arith, h) in sym e ∙ sym (append-nil out)
  read_run_values_lem (suc n) base stride out vals h =
      elim (Option-cases (read_pixel_chunky v base)) [
        | inl root ↦ absurd (ground (arith, rw root at h))
        | inr (x, there) ↦ elim (Bool-cases (is_missing x nodata || f.is_nan (decoded d x))) [
          | inl missing ↦
              let none_here : value_at base ≡ [] = ground (arith, there, missing) in
              rw none_here
                (read_run_values_lem n (base + stride) stride out vals (rw (there, missing) at h))
          | inr shown ↦
              let here : value_at base ≡ decoded d x ∷ [] = ground (arith, there, shown) in
              rw here (
                read_run_values_lem n (base + stride) stride (out ++ (decoded d x ∷ [])) vals
                  (rw (there, shown) at h)
                ∙ append_assoc out (decoded d x ∷ []) (values_from (base + stride) stride n))
        ]
      ]

pub slab_index : (n s s' b b' : ℕ) → b < n → b' < n → s * n + b ≡ s' * n + b' → (s ≡ s') × (b ≡ b')
slab_index n s s' b b' h h' e = elim (Bool-cases (ltb s s')) [
  | inl less ↦
      let k = s' - s - 1 in
      let above : s' ≡ s + 1 + k = ground arith in
      let far : s' * n ≡ s * n + n + k * n = rw above (grind arith) in absurd (omega arith)
  | inr more ↦ elim (Bool-cases (ltb s' s)) [
    | inl less ↦
        let k = s - s' - 1 in
        let above : s ≡ s' + 1 + k = ground arith in
        let far : s * n ≡ s' * n + n + k * n = rw above (grind arith) in absurd (omega arith)
    | inr same ↦ let e' : s ≡ s' = ground arith in (e', omega (arith, ap (λ (x : ℕ). x * n) e'))
  ]
]
