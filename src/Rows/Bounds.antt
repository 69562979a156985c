-- ===== src/Rows/Bounds.antt =====
-- The validity sweep of src/rust/src/read.rs within the bounds of a typed array.
use a5px.Prelude.{
  ℕ, ◌+◌, ◌≡◌, refl, arith, List, [], ◌∷◌, Bool, Option, some, length, All, ◌==◌, Bool-cases, inl,
  inr, zero, suc, ap, ◌≤◌, ltb, get_or, ◌-◌,
}
use a5px.Float.{F64}
use a5px.Decode.{BandDecode}
use a5px.Pixels.{TypedArray}
use a5px.Pixels.Marks.{mark_valid_lem}
use a5px.Pixels.Bounds.{InBounds, mark_valid-in}
use a5px.Rows.{mark_bands, and_each, Run, no_slot, run_end, runs_from, runs_of}

-- A run of a row of `w` columns.
abbrev pub Within : ℕ → Run → Type 0
Within w (s, c0, c1) = (c0 ≤ c1) × (c1 ≤ w)

run_end-within :
    (row_slot : List ℕ) (s n c : ℕ)
    → (c ≤ run_end n c row_slot s) × (run_end n c row_slot s ≤ c + n)
unfolding run_end
run_end-within row_slot s zero c = (omega arith, omega arith)
run_end-within row_slot s (suc n) c = ground (arith, run_end-within row_slot s n (c + 1))

runs_from-Within : (row_slot : List ℕ) (w n c : ℕ) → All (Within w) (runs_from n c w row_slot)
unfolding runs_from
runs_from-Within row_slot w zero c = tt
runs_from-Within row_slot w (suc n) c = elim (Bool-cases (ltb c w)) [
  | inr past ↦ rw past tt
  | inl before ↦
      let s = get_or row_slot c no_slot in
      let (low, high) = run_end-within row_slot s (w - c) c in
      elim (Bool-cases (s == no_slot)) [
        | inl unlocated ↦ rw (before, unlocated) (runs_from-Within row_slot w n (c + 1))
        | inr found ↦
            let inside : run_end (w - c) c row_slot s ≤ w = ground arith in
            rw (before, found)
              ((low, inside), runs_from-Within row_slot w n (run_end (w - c) c row_slot s))
      ]
]

pub runs_of-Within : (w : ℕ) (row_slot : List ℕ) → All (Within w) (runs_of w row_slot)
unfolding runs_of
runs_of-Within w row_slot = runs_from-Within row_slot w w 0

pub length-and_each :
    (marks row : List Bool) → length row ≡ length marks → length (and_each marks row) ≡ length marks
length-and_each [] row h = refl
length-and_each (v ∷ marks) [] h = refl
length-and_each (v ∷ marks) (ok ∷ row) h = ap suc (length-and_each marks row (omega arith))

module _ {A : Type 0} ⦃f : F64 A⦄ where
  pub mark_bands-in :
      (v : TypedArray A) (stride n : ℕ) (nodata : Option A) (n_valid : ℕ)
      (bands : List (ℕ × Option (BandDecode A))) (valid : List Bool)
      → length valid ≡ n
      → All (λ b. InBounds v b.0 stride n) bands
      → (valid' : List Bool) × (mark_bands v stride n nodata n_valid bands valid ≡ some valid')
        × (length valid' ≡ n)
  unfolding mark_bands
  mark_bands-in v stride n nodata n_valid [] valid len h = (valid, refl, len)
  mark_bands-in v stride n nodata n_valid ((base, d) ∷ bands) valid len (here, there) =
      let ((k, next), ran) = mark_valid-in v nodata d n base stride valid len here in
      let (len', sum, each) = mark_valid_lem v nodata d n base stride valid k next len ran in
      let (last, rest, len'') =
        mark_bands-in v stride n nodata (n_valid + k) bands next len' there in
      elim (Bool-cases (n_valid + k == n)) [
        | inl done ↦ (next, rw (ran, done, mark_bands) refl, len')
        | inr more ↦ (last, rw (ran, more, mark_bands) rest, len'')
      ]
