-- ===== src/Bands/Scales.antt =====
-- `check_same_scale_offset` of src/rust/src/sources.rs. A source is the scale and the offset of each
-- band, as `parse_band_scale_offset` gives them: NaN for a missing tag.
use a5px.Prelude.{
  ℕ, ◌≡◌, arith, List, [], ◌∷◌, true, not, ◌&&◌, some, if◌then◌else◌, get_elem?, zip, All, Result,
  ok, err, Bool-cases, Option-cases, Result-cases, inl, inr,
}
use a5px.Float.{F64}
use a5px.Stats.{invalid}
use a5px.Rows.{Fault, failed, ◌>>=◌, need}

module _ {A : Type 0} ⦃f : F64 A⦄ where
  -- A missing scale is 1, a missing offset 0.
  abbrev pub or_default : A → A → A
  or_default v d = if f.is_nan v then d else v

  abbrev pub tags : List (A × A) → List (A × A)
  tags [] = []
  tags ((scale, offset) ∷ bands) =
      (or_default scale f.unit, or_default offset f.naught) ∷ tags bands

  -- The selected bands of one source against the first source's.
  abbrev pub same_tags : List (A × A) → List (A × A) → List ℕ → Result Fault Unit
  same_tags first t [] = ok tt
  same_tags first t (b ∷ sel) = need (get_elem? t b) >>= λ own.
      need (get_elem? first b) >>= λ theirs.
      if not (f.eq own.0 theirs.0 && f.eq own.1 theirs.1)
      then err (failed invalid)
      else same_tags first t sel

  -- The sources after the first, each with its selection.
  abbrev pub same_as_first : List (A × A) → List (List (A × A)) → List (List ℕ) → Result Fault Unit
  same_as_first first [] selected = ok tt
  same_as_first first (s ∷ sources) [] = ok tt
  same_as_first first (s ∷ sources) (sel ∷ selected) =
      same_tags first (tags s) sel >>= λ _. same_as_first first sources selected

  unfoldable pub check_same_scale_offset : List (List (A × A)) → List (List ℕ) → Result Fault Unit
  check_same_scale_offset [] selected = ok tt
  check_same_scale_offset (first ∷ []) selected = ok tt
  check_same_scale_offset (first ∷ s ∷ sources) [] = ok tt
  check_same_scale_offset (first ∷ s ∷ sources) (sel ∷ selected) =
      same_as_first (tags first) (s ∷ sources) selected

  -- Band `b` is in both, with one scale and one offset.
  abbrev pub Agree : List (A × A) → List (A × A) → ℕ → Type 0
  Agree first t b =
      (own : A × A) × (theirs : A × A) × (get_elem? t b ≡ some own)
      × (get_elem? first b ≡ some theirs)
      × (f.eq own.0 theirs.0 ≡ true)
      × (f.eq own.1 theirs.1 ≡ true)

  same_tags-Agree :
      (first t : List (A × A)) (sel : List ℕ) (u : Unit)
      → same_tags first t sel ≡ ok u
      → All (Agree first t) sel
  same_tags-Agree first t [] u h = tt
  same_tags-Agree first t (b ∷ sel) u h = elim (Option-cases (get_elem? t b)) [
    | inl root ↦ absurd (ground (arith, rw root at h))
    | inr (own, here) ↦ elim (Option-cases (get_elem? first b)) [
      | inl root ↦ absurd (ground (arith, rw (here, root) at h))
      | inr (theirs, there) ↦ elim (Bool-cases (f.eq own.0 theirs.0 && f.eq own.1 theirs.1)) [
        | inr differ ↦ absurd (ground (arith, rw (here, there, differ) at h))
        | inl same ↦ (
          (own, theirs, here, there, ground arith, ground arith),
          same_tags-Agree first t sel u (rw (here, there, same) at h),
        )
      ]
    ]
  ]

  same_as_first-Agree :
      (first : List (A × A)) (sources : List (List (A × A))) (selected : List (List ℕ)) (u : Unit)
      → same_as_first first sources selected ≡ ok u
      → All (λ s. All (Agree first (tags s.0)) s.1) (zip sources selected)
  same_as_first-Agree first [] selected u h = tt
  same_as_first-Agree first (s ∷ sources) [] u h = tt
  same_as_first-Agree first (s ∷ sources) (sel ∷ selected) u h =
      elim (Result-cases (same_tags first (tags s) sel)) [
        | inr (e, bad) ↦ absurd (ground (arith, rw bad at h))
        | inl (v, passed) ↦ (
          same_tags-Agree first (tags s) sel v passed,
          same_as_first-Agree first sources selected u (rw passed at h),
        )
      ]

  -- Where the check passes, each band that is selected of a source after the first is in the source
  -- and in the first with equal scales and equal offsets, missing ones being 1 and 0.
  pub check_same_scale_offset-agrees :
      (first : List (A × A)) (sources : List (List (A × A))) (sel : List ℕ)
      (selected : List (List ℕ)) (u : Unit)
      → check_same_scale_offset (first ∷ sources) (sel ∷ selected) ≡ ok u
      → All (λ s. All (Agree (tags first) (tags s.0)) s.1) (zip sources selected)
  unfolding check_same_scale_offset
  check_same_scale_offset-agrees first [] sel selected u h = tt
  check_same_scale_offset-agrees first (s ∷ sources) sel selected u h =
      same_as_first-Agree (tags first) (s ∷ sources) selected u h
