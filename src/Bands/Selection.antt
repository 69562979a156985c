-- ===== src/Bands/Selection.antt =====
-- What `resolve_selection` selects.
use Prim.Native.String.{String}
use text.Mathlib.Text.{◌==◌ as str_eq}
use text.Mathlib.TextEquality.{eq_iff}
use a5px.Prelude.{
  ℕ, zero, suc, ◌-◌, ◌+◌, ◌≤◌, ◌<◌, ◌≡◌, refl, ◌∙◌, ap, arith, List, [], ◌∷◌, some, length, map,
  get_elem?, Result, ok, collect, All, Result-cases, Option-cases, Bool-cases, inl, inr,
}
use a5px.Prelude.Int.{ℤ, pos, negsuc}
use a5px.Stats.{Error}
use a5px.Bands.{band_of_index, band_of_name, position_from, each_from, resolve_selection}

collect-All :
    {A : Type 0} (P : ℕ → Type 0) (g : A → Result Error ℕ) (xs : List A) (ys : List ℕ)
    → ((x : A) (y : ℕ) → g x ≡ ok y → P y)
    → collect g xs ≡ ok ys
    → All P ys
collect-All P g [] ys each h = let e : [] ≡ ys = ground arith in rw (← e) tt
collect-All P g (x ∷ xs) ys each h = elim (Result-cases (g x)) [
  | inr (e, bad) ↦ absurd (ground (arith, rw bad at h))
  | inl (y, good) ↦ elim (Result-cases (collect g xs)) [
    | inr (e, bad) ↦ absurd (ground (arith, rw (good, bad) at h))
    | inl (ys', rest) ↦
        let same : y ∷ ys' ≡ ys = ground (arith, rw (good, rest) at h) in
        rw (← same) (each x y good, collect-All P g xs ys' each rest)
  ]
]

collect-map :
    {A B : Type 0} (back : ℕ → B) (name : A → B) (g : A → Result Error ℕ) (xs : List A)
    (ys : List ℕ)
    → ((x : A) (y : ℕ) → g x ≡ ok y → back y ≡ name x)
    → collect g xs ≡ ok ys
    → map back ys ≡ map name xs
collect-map back name g [] ys each h = let e : [] ≡ ys = ground arith in rw (← e) refl
collect-map back name g (x ∷ xs) ys each h = elim (Result-cases (g x)) [
  | inr (e, bad) ↦ absurd (ground (arith, rw bad at h))
  | inl (y, good) ↦ elim (Result-cases (collect g xs)) [
    | inr (e, bad) ↦ absurd (ground (arith, rw (good, bad) at h))
    | inl (ys', rest) ↦
        let same : y ∷ ys' ≡ ys = ground (arith, rw (good, rest) at h) in
        rw (← same) (rw (each x y good, collect-map back name g xs ys' each rest) refl)
  ]
]

position_from_lem :
    (k : ℕ) (all : List String) (name : String) (p : ℕ)
    → position_from k all name ≡ some p
    → (k ≤ p) × (get_elem? all (p - k) ≡ some name)
position_from_lem k [] name p h = absurd (ground arith)
position_from_lem k (d ∷ all) name p h = elim (Bool-cases (str_eq d name)) [
  | inl same ↦
      let e : k ≡ p = ground (arith, rw same at h) in
      let here : p - k ≡ 0 = omega arith in
      (omega arith, rw here (ap some ((eq_iff d name).0 same)))
  | inr other ↦
      let (low, found) = position_from_lem (k + 1) all name p (rw other at h) in
      let next : p - k ≡ suc (p - (k + 1)) = omega arith in (omega arith, rw next found)
]

band_of_name-get :
    (all : List String) (x : String) (y : ℕ) → band_of_name all x ≡ ok y → get_elem? all y ≡ some x
unfolding band_of_name
band_of_name-get all x y h = elim (Option-cases (position_from 0 all x)) [
  | inl root ↦ absurd (ground (arith, root))
  | inr (p, found) ↦
      let e : p ≡ y = ground (arith, found) in
      let z : y - 0 ≡ y = omega arith in
      rw z at ((position_from_lem 0 all x y (found ∙ ap some e)).1)
]

get_elem?-lt : {A : Type 0} (xs : List A) (i : ℕ) (x : A) → get_elem? xs i ≡ some x → i < length xs
get_elem?-lt [] i x h = absurd (ground arith)
get_elem?-lt (y ∷ xs) zero x h = omega arith
get_elem?-lt (y ∷ xs) (suc i) x h = omega (arith, get_elem?-lt xs i x h)

band_of_index-lt : (n : ℕ) (i : ℤ) (y : ℕ) → band_of_index n i ≡ ok y → y < n
unfolding band_of_index
band_of_index-lt n (negsuc i) y h = absurd (ground arith)
band_of_index-lt n (pos i) y h = ground arith

each_from-lt : (k n m : ℕ) → k + n ≤ m → All (λ b. b < m) (each_from k n)
each_from-lt k zero m h = tt
each_from-lt k (suc n) m h = (omega arith, each_from-lt (k + 1) n m (omega arith))

-- Whatever is selected, by index, by name or by default, each selected band is one of the raster's;
-- and bands selected by name, when any name is given and no index, are bands with those names, in
-- the order of the names.
pub resolve_selection_lem :
    (all : List String) (bands_idx : List ℤ) (bands_names : List String) (sel : List ℕ)
    → resolve_selection all bands_idx bands_names ≡ ok sel
    → All (λ b. b < length all) sel
      × ((name : String) (names : List String)
          → bands_idx ≡ []
          → bands_names ≡ name ∷ names
          → map (get_elem? all) sel ≡ map some bands_names)
unfolding resolve_selection
resolve_selection_lem all (i ∷ bands_idx) bands_names sel h = (
  collect-All (λ b. b < length all) (band_of_index (length all)) (i ∷ bands_idx) sel
      (band_of_index-lt (length all)) h,
  λ name names e p. absurd (ground arith),
)
resolve_selection_lem all [] (n ∷ bands_names) sel h = (
  collect-All (λ b. b < length all) (band_of_name all) (n ∷ bands_names) sel
      (λ x y good. get_elem?-lt all y x (band_of_name-get all x y good)) h,
  λ name names e p.
      collect-map (get_elem? all) some (band_of_name all) (n ∷ bands_names) sel
        (band_of_name-get all) h,
)
resolve_selection_lem all [] [] sel h =
    let same : each_from 0 (length all) ≡ sel = ground arith in
    (
      rw (← same) (each_from-lt 0 (length all) (length all) (omega arith)),
      λ name names e p. absurd (ground arith),
    )
