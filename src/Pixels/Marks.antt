-- ===== src/Pixels/Marks.antt =====
-- What `mark_valid` and `read_run_values` find is what each pixel alone shows.
use a5px.Prelude.{
  ℕ, zero, suc, ◌+◌, ◌*◌, ◌<◌, ◌≡◌, refl, ap, arith, List, [], ◌∷◌, Bool, true, false, not, ◌||◌,
  Option, none, some, if◌then◌else◌, length, get_or, Option-cases, Bool-cases, inl, inr,
}
use a5px.Float.{F64}
use a5px.Decode.{BandDecode}
use a5px.Pixels.{TypedArray, read_pixel_chunky, is_missing, decodes_to_nan, mark_valid}

abbrev pub trues : List Bool → ℕ
trues [] = 0
trues (b ∷ bs) = (if b then 1 else 0) + trues bs

module _ {A : Type 0} ⦃f : F64 A⦄ (v : TypedArray A) (nodata : Option A)
    (d : Option (BandDecode A)) where
  -- Whether the pixel at an index is there and not missing, nor decoded to NaN.
  abbrev pub shows : ℕ → Bool
  shows i = elim (read_pixel_chunky v i) [
    | none ↦ false
    | some x ↦ not (is_missing x nodata || decodes_to_nan d x)
  ]

  mark_valid-cons :
      (base stride n : ℕ) (ok : Bool) (valid : List Bool) (r : ℕ × List Bool)
      → mark_valid v base stride (suc n) nodata d (ok ∷ valid) ≡ some r
      → (k : ℕ) × (valid' : List Bool) × (mark_valid v (base + stride) stride n nodata d valid
          ≡ some (k, valid'))
        × (r.1 ≡ (ok || shows base) ∷ valid')
        × (r.0 + (if ok then 1 else 0) ≡ k + (if ok || shows base then 1 else 0))
  unfolding mark_valid
  mark_valid-cons base stride n true valid r h =
      elim (Option-cases (mark_valid v (base + stride) stride n nodata d valid)) [
        | inl root ↦ absurd (ground (arith, rw root at h))
        | inr ((k, valid'), rest) ↦
            let e : ◌≡◌ {A = ℕ × List Bool} (k, true ∷ valid') r = ground (arith, rw rest at h) in
            (k, valid', rest, rw (← e) refl, rw (← e) refl)
      ]
  mark_valid-cons base stride n false valid r h = elim (Option-cases (read_pixel_chunky v base)) [
    | inl root ↦ absurd (ground (arith, rw root at h))
    | inr (x, there) ↦ elim (Option-cases (mark_valid v (base + stride) stride n nodata d valid)) [
      | inl root ↦ absurd (ground (arith, rw (there, root) at h))
      | inr ((k, valid'), rest) ↦ elim (Bool-cases (is_missing x nodata || decodes_to_nan d x)) [
        | inl missing ↦
            let e : ◌≡◌ {A = ℕ × List Bool} (k, false ∷ valid') r =
              ground (arith, rw (there, rest, missing) at h) in
            let hides : shows base ≡ false = ground (arith, there, missing) in
            (k, valid', rest, rw (← e) (ground arith), rw (← e) (ground arith))
        | inr shown ↦
            let e : ◌≡◌ {A = ℕ × List Bool} (k + 1, true ∷ valid') r =
              ground (arith, rw (there, rest, shown) at h) in
            let shown_here : shows base ≡ true = ground (arith, there, shown) in
            (k, valid', rest, rw (← e) (ground arith), rw (← e) (ground arith))
      ]
    ]
  ]

  -- The marks after a sweep: a column is marked if it was, or if its pixel shows; the count is that of
  -- the columns newly marked.
  pub mark_valid_lem :
      (n base stride : ℕ) (valid : List Bool) (k : ℕ) (valid' : List Bool)
      → length valid ≡ n
      → mark_valid v base stride n nodata d valid ≡ some (k, valid')
      → (length valid' ≡ n)
        × (trues valid' ≡ trues valid + k)
        × ((c : ℕ)
            → c < n
            → get_or valid' c false ≡ get_or valid c false || shows (base + c * stride))
  unfolding mark_valid
  mark_valid_lem zero base stride valid k valid' len h =
      let e : ◌≡◌ {A = ℕ × List Bool} (0, valid) (k, valid') = ground (arith, h) in
      let same : valid ≡ valid' = ap (λ r. r.1) e in
      let none_new : 0 ≡ k = ap (λ r. r.0) e in
      (rw (← same) len, rw (← same, ← none_new) (omega arith), (λ c lt. elim lt [ ]))
  mark_valid_lem (suc n) base stride [] k valid' len h = absurd (omega arith)
  mark_valid_lem (suc n) base stride (ok ∷ valid) k valid' len h =
      let (k', rest, ran, marks, count) = mark_valid-cons base stride n ok valid (k, valid') h in
      let (len', sum, each) =
        mark_valid_lem n (base + stride) stride valid k' rest (omega arith) ran in
      (
        rw marks (ap suc len'),
        rw marks (omega (arith, sum, count)),
        λ c lt. rw marks (column c ok base stride valid rest n each lt),
      )
    where
      column :
          (c : ℕ) (ok : Bool) (base stride : ℕ) (valid rest : List Bool) (n : ℕ)
          → ((c : ℕ)
              → c < n
              → get_or rest c false ≡ get_or valid c false || shows (base + stride + c * stride))
          → c < suc n
          → get_or ((ok || shows base) ∷ rest) c false
            ≡ get_or (ok ∷ valid) c false || shows (base + c * stride)
      column zero ok base stride valid rest n each lt =
          let e : base + 0 * stride ≡ base = omega arith in rw e refl
      column (suc c) ok base stride valid rest n each lt =
          let e : base + suc c * stride ≡ base + stride + c * stride = grind arith in
          rw e (each c (omega arith))
