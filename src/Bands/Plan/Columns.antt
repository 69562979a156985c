-- ===== src/Bands/Plan/Columns.antt =====
-- The columns that `plan_bands` of src/rust/src/sources.rs gives to each source.
use mathlib.Core.List.{append-nil, append_assoc}
use Prim.Native.String.{String}
use a5px.Prelude.{
  ℕ, zero, suc, ◌+◌, ◌<◌, ◌≡◌, ◌≢◌, refl, sym, ◌∙◌, arith, List, [], ◌∷◌, ◌++◌, true, some,
  if◌then◌else◌, ◌==◌, get_elem?, get_or, length, map, modify, replicate, ok, Bool-cases,
  Option-cases, Result-cases, inl, inr, get_or-modify_self, get_or-modify_ne, length-modify,
  length-replicate, get_or-replicate,
}
use a5px.Prelude.Int.{ℤ}
use a5px.Bands.{resolve_selection}
use a5px.Bands.Plan.{
  OpenedSource, BandPlan, Combined, combine, repeats, spread, plan_separate, plan_bands,
}

-- Band `k` of the combined list, where there is one.
abbrev pub entry : List Combined → ℕ → Combined
entry combined k = get_or combined k (0, 0, "")

-- The bands of source `s` that a selection has, in its order,
abbrev pub bands_of : List Combined → ℕ → List ℕ → List ℕ
bands_of combined s [] = []
bands_of combined s (k ∷ sel) =
    let band = entry combined k in
    let rest = bands_of combined s sel in if band.0 == s then band.1 ∷ rest else rest

-- and their places in it, from `out` on.
abbrev pub places_of : List Combined → ℕ → ℕ → List ℕ → List ℕ
places_of combined s out [] = []
places_of combined s out (k ∷ sel) =
    let rest = places_of combined s (out + 1) sel in
    if (entry combined k).0 == s then out ∷ rest else rest

get_or-of_elem :
    {A : Type 0} (xs : List A) (i : ℕ) (x d : A) → get_elem? xs i ≡ some x → get_or xs i d ≡ x
get_or-of_elem [] i x d h = absurd (ground arith)
get_or-of_elem (y ∷ xs) zero x d h = ground (arith, h)
get_or-of_elem (y ∷ xs) (suc i) x d h = get_or-of_elem xs i x d h

get_or-add :
    (lists : List (List ℕ)) (at s x : ℕ) (rest : List ℕ)
    → s < length lists
    → get_or (modify lists at (λ xs. xs ++ (x ∷ []))) s [] ++ rest
      ≡ get_or lists s [] ++ (if at == s then x ∷ rest else rest)
get_or-add lists at s x rest h = elim (Bool-cases (at == s)) [
  | inl same ↦
      let e : at ≡ s = ground arith in
      let here = get_or-modify_self lists s (λ xs. xs ++ (x ∷ [])) [] h in
      rw (same, e, here) (append_assoc (get_or lists s []) (x ∷ []) rest)
  | inr other ↦
      let ne : at ≢ s = ground arith in
      rw (other, get_or-modify_ne lists at s (λ xs. xs ++ (x ∷ [])) [] ne) refl
]

spread_lem :
    (combined : List Combined) (out : ℕ) (sel : List ℕ) (plan done : BandPlan) (s : ℕ)
    → spread combined out sel plan ≡ ok done
    → s < length plan.selected
    → s < length plan.slots
    → (get_or done.selected s [] ≡ get_or plan.selected s [] ++ bands_of combined s sel)
      × (get_or done.slots s [] ≡ get_or plan.slots s [] ++ places_of combined s out sel)
      × (done.names ≡ plan.names ++ map (λ k. (entry combined k).2) sel)
unfolding spread
spread_lem combined out [] plan done s h l l' =
    let e : plan ≡ done = ground (arith, h) in
    rw (← e) (
      sym (append-nil (get_or plan.selected s [])),
      sym (append-nil (get_or plan.slots s [])),
      sym (append-nil plan.names),
    )
spread_lem combined out (k ∷ sel) plan done s h l l' = elim (Option-cases (get_elem? combined k)) [
  | inl root ↦ absurd (ground (arith, rw root at h))
  | inr (band, there) ↦
      let next : BandPlan = record {
        selected = modify plan.selected band.0 (λ bands. bands ++ (band.1 ∷ []));
        slots = modify plan.slots band.0 (λ columns. columns ++ (out ∷ []));
        names = plan.names ++ (band.2 ∷ []);
      } in
      let e : entry combined k ≡ band = get_or-of_elem combined k band (0, 0, "") there in
      let ran : spread combined (out + 1) sel next ≡ ok done = rw there at h in
      let room : s < length next.selected =
        rw (length-modify plan.selected band.0 (λ bands. bands ++ (band.1 ∷ []))) l in
      let room' : s < length next.slots =
        rw (length-modify plan.slots band.0 (λ columns. columns ++ (out ∷ []))) l' in
      let (bands, places, names) = spread_lem combined (out + 1) sel next done s ran room room' in
      (
        rw e (bands ∙ get_or-add plan.selected band.0 s band.1 (bands_of combined s sel) l),
        rw e (places ∙ get_or-add plan.slots band.0 s out (places_of combined s (out + 1) sel) l'),
        rw e (names ∙ append_assoc plan.names (band.2 ∷ []) (map (λ j. (entry combined j).2) sel)),
      )
]

-- With separate columns, a plan is that of a selection of the combined bands: each source reads its
-- bands of the selection, in the order of the selection, into the columns that are their places in it,
-- and the columns have the names of the bands selected.
pub plan_bands-columns :
    (sources : List OpenedSource) (bands_idx : List ℤ) (bands_names : List String) (plan : BandPlan)
    (s : ℕ)
    → plan_bands sources true bands_idx bands_names ≡ ok plan
    → s < length sources
    → (combined : List Combined) × (sel : List ℕ) × (combine 0 sources ≡ ok combined)
      × (resolve_selection (map (λ band. band.2) combined) bands_idx bands_names ≡ ok sel)
      × (get_or plan.selected s [] ≡ bands_of combined s sel)
      × (get_or plan.slots s [] ≡ places_of combined s 0 sel)
      × (plan.names ≡ map (λ k. (entry combined k).2) sel)
unfolding plan_bands plan_separate
plan_bands-columns sources bands_idx bands_names plan s h below =
    elim (Result-cases (combine 0 sources)) [
      | inr (e, failed) ↦ absurd (ground (arith, rw failed at h))
      | inl (combined, ran) ↦
          let names = map (λ band. band.2) combined in
          elim (Bool-cases (repeats [] names)) [
            | inl twice ↦ absurd (ground (arith, rw (ran, twice) at h))
            | inr once ↦ elim (Result-cases (resolve_selection names bands_idx bands_names)) [
              | inr (e, failed) ↦ absurd (ground (arith, rw (ran, once, failed) at h))
              | inl (sel, resolved) ↦
                  let nil : List ℕ = [] in
                  let empty : List (List ℕ) = replicate (length sources) [] in
                  let begin : BandPlan = record { selected = empty; slots = empty; names = [] } in
                  let none_yet : get_or empty s [] ≡ [] =
                    get_or-replicate (length sources) s [] [] below in
                  let room : s < length empty = rw (length-replicate (length sources) nil) below in
                  let (bands, places, all) =
                    spread_lem combined 0 sel begin plan s (rw (ran, once, resolved) at h) room
                      room in
                  (combined, sel, ran, resolved, rw none_yet at bands, rw none_yet at places, all)
            ]
          ]
    ]
