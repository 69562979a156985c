-- ===== src/Levels/Common.antt =====
-- The level that `common_overview_levels` of src/rust/src/read.rs chooses for several sources: a common
-- one, and the coarsest.
use a5px.Prelude.{
  ℕ, zero, suc, ◌≡◌, refl, sym, ◌∙◌, ap, arith, List, [], ◌∷◌, true, false, some, All-get_elem?,
  Option-cases, Bool-cases, inl, inr,
}
use a5px.Prelude.Sort.{In, All-In, Pairs, sort_by, sort_by-All, sort_by-In, sort_by-Pairs}
use a5px.Float.{F64}
use a5px.Composite.{Total}
use a5px.Levels.{
  Ground, SizedLevel, level_fits, find_level, match_levels, pick_common, coarser, choose_levels,
}

-- The longer side of a level's pixels.
abbrev pub size : {A : Type 0} → SizedLevel A → A
size l = l.1.1.1

module _ {A : Type 0} ⦃f : F64 A⦄ (t : Total A) (earth : Ground A) (budget : A) where
  -- A directory of a level that goes with `l` and fits.
  abbrev pub Goes : SizedLevel A → List (SizedLevel A) → ℕ → Type 0
  Goes l lv i =
      (m : SizedLevel A) × ((In m lv × (level_fits t earth budget l m ≡ true)) × (m.0 ≡ i))

  -- One such directory of each source.
  abbrev pub Together : SizedLevel A → List (List (SizedLevel A)) → List ℕ → Type 0
  Together l [] [] = Unit
  Together l [] (i ∷ is) = ⊥
  Together l (lv ∷ per) [] = ⊥
  Together l (lv ∷ per) (i ∷ is) = Goes l lv i × Together l per is

  find_level-some :
      (l : SizedLevel A) (lv : List (SizedLevel A)) (m : SizedLevel A)
      → find_level t earth budget l lv ≡ some m
      → In m lv × (level_fits t earth budget l m ≡ true)
  find_level-some l [] m h = absurd (ground (arith, h))
  find_level-some l (x ∷ lv) m h = elim (Bool-cases (level_fits t earth budget l x)) [
    | inl fits ↦
        let taken : some x ≡ some m = rw fits at h in
        let e : x ≡ m = ground (arith, taken) in rw (← e) ((0, refl), fits)
    | inr other ↦
        let later : find_level t earth budget l lv ≡ some m = rw other at h in
        let ((i, at), fits) = find_level-some l lv m later in ((suc i, at), fits)
  ]

  find_level-In :
      (l : SizedLevel A) (lv : List (SizedLevel A)) (m : SizedLevel A)
      → In m lv
      → level_fits t earth budget l m ≡ true
      → (x : SizedLevel A) × (find_level t earth budget l lv ≡ some x)
  find_level-In l [] m (i, h) fits = absurd (ground (arith, h))
  find_level-In l (x ∷ lv) m (zero, h) fits =
      let e : x ≡ m = ground (arith, h) in
      let own : level_fits t earth budget l x ≡ true = ap (level_fits t earth budget l) e ∙ fits in
      (x, rw own refl)
  find_level-In l (x ∷ lv) m (suc i, h) fits =
      let (y, found) = find_level-In l lv m (i, h) fits in
      elim (Bool-cases (level_fits t earth budget l x)) [
        | inl own ↦ (x, rw own refl)
        | inr other ↦ (y, rw other found)
      ]

  match_levels-Together :
      (l : SizedLevel A) (per : List (List (SizedLevel A))) (is : List ℕ)
      → match_levels t earth budget l per ≡ some is
      → Together l per is
  match_levels-Together l [] [] h = tt
  match_levels-Together l [] (i ∷ is) h = absurd (ground (arith, h))
  match_levels-Together l (lv ∷ per) is h = elim (Option-cases (find_level t earth budget l lv)) [
    | inl missing ↦ absurd (ground (arith, rw missing at h))
    | inr (m, found) ↦ elim (Option-cases (match_levels t earth budget l per)) [
      | inl missing ↦ absurd (ground (arith, rw (found, missing) at h))
      | inr (js, rest) ↦
          let whole : some (m.0 ∷ js) ≡ some is = rw (found, rest) at h in
          let e : m.0 ∷ js ≡ is = ground (arith, whole) in
          rw (← e) ((m, (find_level-some l lv m found, refl)), match_levels-Together l per js rest)
    ]
  ]

  Together-match_levels :
      (l : SizedLevel A) (per : List (List (SizedLevel A))) (is : List ℕ)
      → Together l per is
      → (js : List ℕ) × (match_levels t earth budget l per ≡ some js)
  Together-match_levels l [] is h = ([], refl)
  Together-match_levels l (lv ∷ per) [] h = absurd h
  Together-match_levels l (lv ∷ per) (i ∷ is) ((m, ((at, fits), same)), there) =
      let (x, found) = find_level-In l lv m at fits in
      let (js, rest) = Together-match_levels l per is there in (x.0 ∷ js, rw (found, rest) refl)

  -- A level of the first source that fits, with those of the others, as coarse as `m` at least.
  abbrev pub Coarsest :
      List (SizedLevel A) → List (List (SizedLevel A)) → SizedLevel A → List ℕ → Type 0
  Coarsest lv per m is =
      (l : SizedLevel A) × ((rest : List ℕ) × ((is ≡ l.0 ∷ rest)
          × ((In l lv × (f.lt budget (size l) ≡ false))
              × (Together l per rest × (t.total_le (size m) (size l) ≡ true)))))

  module _ (refl_le : (a : A) → t.total_le a a ≡ true) where
    pick_common-Coarsest :
        (per : List (List (SizedLevel A))) (xs : List (SizedLevel A)) (m : SizedLevel A)
        (is : List ℕ)
        → Pairs (λ a b. t.total_le (size b) (size a) ≡ true) xs
        → In m xs
        → f.lt budget (size m) ≡ false
        → Together m per is
        → (js : List ℕ) × ((pick_common t earth budget xs per ≡ some js) × Coarsest xs per m js)
    pick_common-Coarsest per [] m is sorted (i, h) fits there = absurd (ground (arith, h))
    pick_common-Coarsest per (x ∷ xs) m is (all, sorted) (zero, h) fits there =
        let e : x ≡ m = ground (arith, h) in
        let own : f.lt budget (size x) ≡ false = ap (λ l. f.lt budget (size l)) e ∙ fits in
        let goes : Together x per is = rw e there in
        let (js, found) = Together-match_levels x per is goes in
        (
          x.0 ∷ js,
          (
            rw (own, found) refl,
            (
              x,
              (
                js,
                (
                  refl,
                  (
                    ((0, refl), own),
                    (
                      match_levels-Together x per js found,
                      ap (λ l. t.total_le (size l) (size x)) (sym e) ∙ refl_le (size x),
                    ),
                  ),
                ),
              ),
            ),
          ),
        )
    pick_common-Coarsest per (x ∷ xs) m is (all, sorted) (suc i, h) fits there =
        let (js, (picked, (l, (rest, (e, (((k, at), small), ok)))))) =
          pick_common-Coarsest per xs m is sorted (i, h) fits there in
        let later : Coarsest (x ∷ xs) per m js = (l, (rest, (e, (((suc k, at), small), ok)))) in
        elim (Bool-cases (f.lt budget (size x))) [
          | inl large ↦ (js, (rw large picked, later))
          | inr own ↦ elim (Option-cases (match_levels t earth budget x per)) [
            | inl missing ↦ (js, (rw (own, missing) picked, later))
            | inr (ks, found) ↦
                let coarse =
                  All-get_elem? (λ y. t.total_le (size y) (size x) ≡ true) xs i m all h in
                (
                  x.0 ∷ ks,
                  (
                    rw (own, found) refl,
                    (
                      x,
                      (
                        ks,
                        (refl, (((0, refl), own), (match_levels-Together x per ks found, coarse))),
                      ),
                    ),
                  ),
                )
          ]
        ]

    -- Where a level of the first source fits the budget and each other source has a level of its factors
    -- that fits, the sources take such levels, and those of a level of the first source that is as coarse
    -- at least; where `total_cmp` is a total order.
    pub choose_levels-Coarsest :
        (lv : List (SizedLevel A)) (per : List (List (SizedLevel A))) (m : SizedLevel A)
        (is : List ℕ)
        → ((a b : A) → t.total_le a b ≡ false → t.total_le b a ≡ true)
        → ((a b c : A) → t.total_le a b ≡ true → t.total_le b c ≡ true → t.total_le a c ≡ true)
        → In m lv
        → f.lt budget (size m) ≡ false
        → Together m per is
        → Coarsest lv per m (choose_levels t earth budget (lv ∷ per))
    unfolding choose_levels
    choose_levels-Coarsest lv per m is total trans at fits there =
        let sorted = sort_by (coarser t earth) lv in
        let order =
          sort_by-Pairs (coarser t earth) (λ a b. t.total_le (size b) (size a) ≡ true) (λ a b h. h)
            (λ a b h. total (size b) (size a) h) (λ a b c h k. trans (size c) (size b) (size a) k h)
            lv in
        let (js, (picked, (l, (rest, (e, ((own, small), ok)))))) =
          pick_common-Coarsest per sorted m is order (sort_by-In (coarser t earth) m lv at) fits
            there in
        let back : In l lv =
          All-get_elem? (λ x. In x lv) sorted own.0 l
            (sort_by-All (coarser t earth) (λ x. In x lv) lv (All-In lv)) own.1 in
        rw (picked, choose_levels) (l, (rest, (e, ((back, small), ok))))
