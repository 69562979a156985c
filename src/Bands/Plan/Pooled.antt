-- ===== src/Bands/Plan/Pooled.antt =====
-- What `plan_bands` of src/rust/src/sources.rs promises for sources combined into one raster.
use Prim.Native.String.{String}
use text.Mathlib.Text.{◌==◌ as str_eq}
use text.Mathlib.TextEquality.{eq_iff}
use a5px.Prelude.{
  ℕ, zero, suc, ◌+◌, ◌<◌, ◌≡◌, refl, sym, ap, arith, List, [], ◌∷◌, true, false, some, get_elem?,
  length, replicate, All, All-get_elem?, ok, Bool-cases, Option-cases, Result-cases, inl, inr,
}
use a5px.Prelude.Int.{ℤ}
use a5px.Stats.{any}
use a5px.Bands.{each_from, resolve_selection}
use a5px.Bands.Plan.{
  OpenedSource, BandPlan, same_names, differs_from, selected_names, plan_pooled, plan_bands,
}

same_names-eq : (xs ys : List String) → same_names xs ys ≡ true → xs ≡ ys
same_names-eq [] [] h = refl
same_names-eq [] (y ∷ ys) h = absurd (ground (arith, h))
same_names-eq (x ∷ xs) [] h = absurd (ground (arith, h))
same_names-eq (x ∷ xs) (y ∷ ys) h =
    let here : str_eq x y ≡ true = ground (arith, h) in
    let there : same_names xs ys ≡ true = ground (arith, h) in
    rw ((eq_iff x y).0 here, same_names-eq xs ys there) refl

none_differs :
    (first : OpenedSource) (others : List OpenedSource)
    → any (differs_from first) others ≡ false
    → All (λ s. s.band_names ≡ first.band_names) others
none_differs first [] h = tt
none_differs first (s ∷ others) h =
    let here : same_names s.band_names first.band_names ≡ true = ground (arith, h) in
    let there : any (differs_from first) others ≡ false = ground (arith, h) in
    (same_names-eq s.band_names first.band_names here, none_differs first others there)

-- What a list gives at an index is what is repeated as often as it is long.
replicate_at :
    {A B : Type 0} (xs : List A) (s : ℕ) (x : A) (b : B)
    → get_elem? xs s ≡ some x
    → get_elem? (replicate (length xs) b) s ≡ some b
replicate_at [] s x b h = absurd (ground (arith, h))
replicate_at (y ∷ xs) zero x b h = refl
replicate_at (y ∷ xs) (suc s) x b h = replicate_at xs s x b h

length-each_from : (k n : ℕ) → length (each_from k n) ≡ n
length-each_from k zero = refl
length-each_from k (suc n) = ap suc (length-each_from (k + 1) n)

each_from_at : (k n j : ℕ) → j < n → get_elem? (each_from k n) j ≡ some (k + j)
each_from_at k zero j h = absurd (omega arith)
each_from_at k (suc n) zero h = ap some (omega arith)
each_from_at k (suc n) (suc j) h =
    let e : k + 1 + j ≡ k + suc j = omega arith in rw (← e) (each_from_at (k + 1) n j (omega arith))

get-bound : {A : Type 0} (xs : List A) (j : ℕ) (x : A) → get_elem? xs j ≡ some x → j < length xs
get-bound [] j x h = absurd (ground (arith, h))
get-bound (y ∷ xs) zero x h = omega arith
get-bound (y ∷ xs) (suc j) x h = omega (arith, get-bound xs j x h)

-- Each of the names is that of the selected band at its index.
IsNamed : List String → List ℕ → List String → Type 0
IsNamed all sel names =
    (length names ≡ length sel)
    × ((j : ℕ) (name : String)
        → get_elem? names j ≡ some name
        → (b : ℕ) × (get_elem? sel j ≡ some b) × (get_elem? all b ≡ some name))

IsNamed-cons :
    (all : List String) (b : ℕ) (sel : List ℕ) (own : String) (names : List String)
    → get_elem? all b ≡ some own
    → IsNamed all sel names
    → IsNamed all (b ∷ sel) (own ∷ names)
unfolding IsNamed
IsNamed-cons all b sel own names here (same, each) = (ap suc same, at_each)
  where
    at_each :
        (j : ℕ) (name : String)
        → get_elem? (own ∷ names) j ≡ some name
        → (k : ℕ) × (get_elem? (b ∷ sel) j ≡ some k) × (get_elem? all k ≡ some name)
    at_each zero name at = (b, refl, ground (arith, here, at))
    at_each (suc j) name at = each j name at

selected_names-IsNamed :
    (all : List String) (sel : List ℕ) (names : List String)
    → selected_names all sel ≡ ok names
    → IsNamed all sel names
unfolding IsNamed
selected_names-IsNamed all [] names h =
    let e : [] ≡ names = ground (arith, h) in
    rw (← e) (refl, λ j name at. absurd (ground (arith, at)))
selected_names-IsNamed all (b ∷ sel) names h = elim (Option-cases (get_elem? all b)) [
  | inl past ↦ absurd (ground (arith, rw past at h))
  | inr (own, here) ↦ elim (Result-cases (selected_names all sel)) [
    | inr (e, failed) ↦ absurd (ground (arith, rw (here, failed) at h))
    | inl (rest, named) ↦
        let e : (own ∷ rest) ≡ names = ground (arith, rw (here, named) at h) in
        rw (← e) (IsNamed-cons all b sel own rest here (selected_names-IsNamed all sel rest named))
  ]
]

plan_pooled_lem :
    (first : OpenedSource) (others : List OpenedSource) (bands_idx : List ℤ)
    (bands_names : List String) (plan : BandPlan)
    → plan_bands (first ∷ others) false bands_idx bands_names ≡ ok plan
    → All (λ s. s.band_names ≡ first.band_names) others
      × (sel : List ℕ) × (resolve_selection first.band_names bands_idx bands_names ≡ ok sel)
      × (plan.selected ≡ replicate (length (first ∷ others)) sel)
      × (plan.slots ≡ replicate (length (first ∷ others)) (each_from 0 (length sel)))
      × (selected_names first.band_names sel ≡ ok plan.names)
unfolding plan_bands plan_pooled
plan_pooled_lem first others bands_idx bands_names plan h =
    elim (Bool-cases (any (differs_from first) others)) [
      | inl differ ↦ absurd (ground (arith, rw differ at h))
      | inr alike ↦ elim (Result-cases (resolve_selection first.band_names bands_idx bands_names)) [
        | inr (e, failed) ↦ absurd (ground (arith, rw (alike, failed) at h))
        | inl (sel, resolved) ↦ elim (Result-cases (selected_names first.band_names sel)) [
          | inr (e, failed) ↦ absurd (ground (arith, rw (alike, resolved, failed) at h))
          | inl (names, named) ↦
              let done : BandPlan = record {
                selected = replicate (length (first ∷ others)) sel;
                slots = replicate (length (first ∷ others)) (each_from 0 (length sel));
                names = names;
              } in
              let e : done ≡ plan = ground (arith, rw (alike, resolved, named) at h) in
              (
                none_differs first others alike,
                sel,
                resolved,
                ap (λ p. p.selected) (sym e),
                ap (λ p. p.slots) (sym e),
                rw named (ap (λ p. ok p.names) e),
              )
        ]
      ]
    ]

-- Without separate columns, where a plan is given: a source's bands selected are those that the user's
-- selection is against its own band names, as many as there are output names, and the same number of
-- columns are for them; and the output's band of any name is read from the source's band of that name,
-- into the column that is the band's place in the output.
pub plan_bands-pooled :
    (first : OpenedSource) (others : List OpenedSource) (bands_idx : List ℤ)
    (bands_names : List String) (plan : BandPlan) (s : ℕ) (src : OpenedSource) (j : ℕ)
    (name : String)
    → plan_bands (first ∷ others) false bands_idx bands_names ≡ ok plan
    → get_elem? (first ∷ others) s ≡ some src
    → get_elem? plan.names j ≡ some name
    → (sel : List ℕ) × (slots : List ℕ) × (b : ℕ) × (resolve_selection src.band_names bands_idx
          bands_names
        ≡ ok sel)
      × (get_elem? plan.selected s ≡ some sel)
      × (get_elem? plan.slots s ≡ some slots)
      × (length sel ≡ length plan.names)
      × (length slots ≡ length plan.names)
      × (get_elem? sel j ≡ some b)
      × (get_elem? src.band_names b ≡ some name)
      × (get_elem? slots j ≡ some j)
unfolding IsNamed
plan_bands-pooled first others bands_idx bands_names plan s src j name h at_source at_name =
    let (alike, sel, resolved, chosen, columns, named) =
      plan_pooled_lem first others bands_idx bands_names plan h in
    let own : src.band_names ≡ first.band_names =
      All-get_elem? (λ x. x.band_names ≡ first.band_names) (first ∷ others) s src (refl, alike)
        at_source in
    let (same, each) = selected_names-IsNamed first.band_names sel plan.names named in
    let (b, selected, found) = each j name at_name in
    let bound = get-bound sel j b selected in
    let slot : get_elem? (each_from 0 (length sel)) j ≡ some (0 + j) =
      each_from_at 0 (length sel) j bound in
    let start : 0 + j ≡ j = omega arith in
    let long = length-each_from 0 (length sel) in
    (
      sel,
      each_from 0 (length sel),
      b,
      rw own resolved,
      rw chosen (replicate_at (first ∷ others) s src sel at_source),
      rw columns (replicate_at (first ∷ others) s src (each_from 0 (length sel)) at_source),
      sym same,
      omega (arith, same, long),
      selected,
      rw own found,
      rw start at slot,
    )
