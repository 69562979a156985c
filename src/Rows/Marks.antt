-- ===== src/Rows/Marks.antt =====
-- Pass 1's sweep over the bands: stopping once every pixel is valid changes nothing.
use a5px.Prelude.{
  ℕ, zero, suc, ◌+◌, ◌*◌, ◌≤◌, ◌<◌, ◌≡◌, refl, ◌∙◌, arith, List, [], ◌∷◌, Bool, true, false, ◌||◌,
  Option, some, ◌==◌, length, get_or, Option-cases, Bool-cases, inl, inr,
}
use a5px.Float.{F64}
use a5px.Stats.{any}
use a5px.Decode.{BandDecode}
use a5px.Pixels.{TypedArray, mark_valid}
use a5px.Pixels.Marks.{trues, shows, mark_valid_lem}
use a5px.Rows.{mark_bands}

trues-le : (bs : List Bool) → trues bs ≤ length bs
trues-le [] = omega arith
trues-le (true ∷ bs) = omega (arith, trues-le bs)
trues-le (false ∷ bs) = omega (arith, trues-le bs)

-- As many marks as columns: every column is marked.
all_marked :
    (bs : List Bool) (c : ℕ) → trues bs ≡ length bs → c < length bs → get_or bs c false ≡ true
all_marked [] c h lt = elim lt [ ]
all_marked (true ∷ bs) zero h lt = refl
all_marked (true ∷ bs) (suc c) h lt = all_marked bs c (omega arith) (omega arith)
all_marked (false ∷ bs) c h lt = absurd (omega (arith, trues-le bs))

or_assoc : (a b c : Bool) → ((a || b) || c) ≡ (a || (b || c))
or_assoc a b c = ground arith

already : (g a b r : Bool) → g ≡ true → g ≡ (a || b) → g ≡ (a || (b || r))
already g a b r p q = ground arith

module _ {A : Type 0} ⦃f : F64 A⦄ (v : TypedArray A) (stride n : ℕ) (nodata : Option A) where
  -- Whether column `c` shows in a band.
  abbrev pub shows_in : ℕ → ℕ × Option (BandDecode A) → Bool
  shows_in c b = shows v nodata b.1 (b.0 + c * stride)

  -- From `n` marks, `n_valid` of them set, the sweep that does not panic leaves a column marked exactly
  -- when it was marked or its pixel shows in some band, whether or not the sweep stopped early.
  pub mark_bands_lem :
      (n_valid : ℕ) (bands : List (ℕ × Option (BandDecode A))) (valid valid' : List Bool)
      → length valid ≡ n
      → n_valid ≡ trues valid
      → mark_bands v stride n nodata n_valid bands valid ≡ some valid'
      → (c : ℕ) → c < n
      → get_or valid' c false ≡ get_or valid c false || any (shows_in c) bands
  unfolding mark_bands
  mark_bands_lem n_valid [] valid valid' len count h c lt =
      let e : valid ≡ valid' = ground (arith, h) in rw (← e) (ground arith)
  mark_bands_lem n_valid ((base, d) ∷ bands) valid valid' len count h c lt =
      elim (Option-cases (mark_valid v base stride n nodata d valid)) [
        | inl root ↦ absurd (ground (arith, rw (root, mark_bands) at h))
        | inr ((k, next), ran) ↦
            let (len', sum, each) = mark_valid_lem v nodata d n base stride valid k next len ran in
            elim (Bool-cases (n_valid + k == n)) [
              | inl done ↦
                  let e : next ≡ valid' = ground (arith, rw (ran, done, mark_bands) at h) in
                  let full = all_marked next c (ground (arith, done)) (omega arith) in
                  let here = each c lt in
                  rw (← e) (
                    already (get_or next c false) (get_or valid c false) (shows_in c (base, d))
                      (any (shows_in c) bands) full here)
              | inr more ↦
                  let ih =
                    mark_bands_lem (n_valid + k) bands next valid' len' (omega arith)
                      (rw (ran, more, mark_bands) at h) c lt in
                  ih
                  ∙ rw (each c lt) (
                      or_assoc (get_or valid c false) (shows_in c (base, d))
                        (any (shows_in c) bands))
            ]
      ]
