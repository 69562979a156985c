-- ===== src/Locator/Scan/Exact.antt =====
-- `locate` of src/rust/src/locator.rs finds the cell that the general search finds, whatever it has
-- cached, wherever the scan was before, and whatever cells of the resolution are hinted.
use a5px.Prelude.{
  ℕ, zero, suc, ◌+◌, ◌≡◌, ◌⊎◌, refl, sym, ◌∙◌, ap, arith, List, [], ◌∷◌, Bool, true, false, ◌||◌,
  Option, none, some, ◌==◌, set, All, Option-cases, Bool-cases, inl, inr,
}
use a5px.Prelude.Int.{ℤ}
use a5px.Float.{F64}
use a5px.Rows.{no_cell}
use a5px.Locator.{A5Library, ApproxFace, CellGeom, build}
use a5px.Locator.Point.{PointEval, new_point, spherical, inside}
use a5px.Locator.Point.Margin.{IsMetric}
use a5px.Locator.Point.Sound.{
  is_in, IsSound, IsPoint, inside-is_in, new_point-IsPoint, spherical-IsPoint,
}
use a5px.Locator.Scan.{
  CellLocator, geom, test_geom, test, children, first_inside, swap_first, move_first, test_kids,
  test_children, test_hints, push_parents, test_parents, test_window, search_cell, or_no_cell,
  search_last, test_last, keep_search, search_window, search_hints, locate,
}
use a5px.Locator.Scan.Valid.{
  IsKid, IsLocator, HasKids, geom-IsLocator, children-IsLocator, find-put_or, length-put_found,
}

All-set :
    {A : Type 0} (P : A → Type 0) (xs : List A) (i : ℕ) (v : A)
    → All P xs
    → P v
    → All P (set xs i v)
All-set P [] i v h p = tt
All-set P (x ∷ xs) zero v h p = (p, h.1)
All-set P (x ∷ xs) (suc i) v h p = (h.0, All-set P xs i v h.1 p)

All-swap_first :
    {A : Type 0} (P : CellGeom A → Type 0) (v : List (CellGeom A)) (i : ℕ) (g : CellGeom A)
    → All P v
    → P g
    → All P (swap_first v i g)
All-swap_first P [] i g h p = tt
All-swap_first P (x ∷ v) i g h p = elim (Bool-cases (i == 0)) [
  | inl first ↦ rw first h
  | inr later ↦ rw later (All-set P (g ∷ v) i x (p, h.1) h.0)
]

module _ {S A : Type 0} ⦃f : F64 A⦄ (a5 : A5Library S A) (AtRes : ℕ → Type 0) (resolution : ℤ)
    (approx : Option (ApproxFace A)) (exact : Option S) where
  -- The cell of the general search.
  abbrev pub searched : ℕ
  searched = or_no_cell (search_cell a5 resolution exact)

  -- The search and the children of a cell give cells of the resolution, and a cell of the resolution
  -- that has the exact position is the one that the search finds.
  pub record IsExact : Type 0 where
    pub laws : IsMetric A
    pub sound : IsSound a5 approx exact
    pub search_at : (id : ℕ) → search_cell a5 resolution exact ≡ some id → AtRes id
    pub kids_at :
        (p : ℕ) (ids : List ℕ) → a5.cell_to_children p resolution ≡ some ids → All AtRes ids
    pub only :
        (id : ℕ) (g : CellGeom A)
        → AtRes id
        → build a5 id ≡ some g
        → is_in a5 exact g ≡ true
        → searched ≡ id

  abbrev IsState : CellLocator A × PointEval S A → Type 0
  IsState s = IsLocator a5 AtRes resolution s.0 × IsPoint a5 approx exact s.1

  -- A cell found is the one of the search.
  abbrev Finds : Option ℕ → Type 0
  Finds none = Unit
  Finds (some id) = (searched ≡ id) × AtRes id

  module _ (x : IsExact) where
    test_geom-lem :
        (l : CellLocator A) (ev : PointEval S A) (id : ℕ) (made : Option (CellGeom A))
        → IsState (l, ev)
        → build a5 id ≡ made
        → IsState (test_geom a5 l ev made).0
          × ((test_geom a5 l ev made).1 ≡ true → AtRes id → searched ≡ id)
    test_geom-lem l ev id none s e = (s, λ hit at. absurd (ground (arith, hit)))
    test_geom-lem l ev id (some g) (valid, point) e =
        let (point', same) = inside-is_in a5 approx exact ev id g x.laws x.sound point e in
        ((valid, point'), λ hit at. x.only id g at e (sym same ∙ hit))

    test_lem :
        (l : CellLocator A) (id : ℕ) (ev : PointEval S A)
        → IsState (l, ev)
        → IsState (test a5 l id ev).0 × ((test a5 l id ev).1 ≡ true → AtRes id → searched ≡ id)
    unfolding test
    test_lem l id ev (valid, point) =
        let (valid', made) = geom-IsLocator a5 AtRes resolution l id valid in
        test_geom-lem (geom a5 l id).0 ev id (geom a5 l id).1 (valid', point) (sym made)

    -- The first kid that has the point.
    abbrev FindsKid : Option (ℕ × CellGeom A) → Type 0
    FindsKid none = Unit
    FindsKid (some (i, g)) = IsKid a5 AtRes g × (searched ≡ g.id)

    first_inside-lem :
        (v : List (CellGeom A)) (ev : PointEval S A) (i : ℕ)
        → All (IsKid a5 AtRes) v
        → IsPoint a5 approx exact ev
        → IsPoint a5 approx exact (first_inside a5 ev i v).0 × FindsKid (first_inside a5 ev i v).1
    unfolding first_inside
    first_inside-lem [] ev i kids point = (point, tt)
    first_inside-lem (g ∷ v) ev i (kid, kids) point =
        let (point', same) = inside-is_in a5 approx exact ev g.id g x.laws x.sound point kid.0 in
        elim (Bool-cases (inside a5 ev g).1) [
          | inl hit ↦
              rw (hit, first_inside) (point', (kid, x.only g.id g kid.1 kid.0 (sym same ∙ hit)))
          | inr miss ↦
              rw (miss, first_inside) (first_inside-lem v (inside a5 ev g).0 (i + 1) kids point')
        ]

    move_first-lem :
        (l : CellLocator A) (parent : ℕ) (v : List (CellGeom A)) (hit : Option (ℕ × CellGeom A))
        → IsLocator a5 AtRes resolution l
        → HasKids a5 AtRes resolution l parent (some v)
        → FindsKid hit
        → IsLocator a5 AtRes resolution (move_first l parent v hit).0
          × Finds (move_first l parent v hit).1
    move_first-lem l parent v none valid has kid = (valid, tt)
    move_first-lem l parent v (some (i, g)) valid (all, there) (kid, found) =
        let moved = swap_first v i g in
        (
          record {
            at = valid.at;
            built = valid.built;
            all_kids = λ p w h. elim (find-put_or parent p moved w l.kids h) [
              | inl (same, this) ↦ rw (← this) (All-swap_first (IsKid a5 AtRes) v i g all kid)
              | inr old ↦ valid.all_kids p w old
            ];
            last_at = valid.last_at;
            few_geoms = valid.few_geoms;
            few_kids = omega (arith, length-put_found parent moved v l.kids there, valid.few_kids);
          },
          (found, kid.1),
        )

    test_kids-lem :
        (l : CellLocator A) (parent : ℕ) (ev : PointEval S A) (kids : Option (List (CellGeom A)))
        → IsState (l, ev)
        → HasKids a5 AtRes resolution l parent kids
        → IsState (test_kids a5 l parent ev kids).0 × Finds (test_kids a5 l parent ev kids).1
    test_kids-lem l parent ev none s has = (s, tt)
    test_kids-lem l parent ev (some v) (valid, point) has =
        let (point', kid) = first_inside-lem v ev 0 has.0 point in
        let (valid', finds) = move_first-lem l parent v (first_inside a5 ev 0 v).1 valid has kid in
        ((valid', point'), finds)

    test_children-lem :
        (l : CellLocator A) (parent : ℕ) (ev : PointEval S A)
        → IsState (l, ev)
        → IsState (test_children a5 l parent ev).0 × Finds (test_children a5 l parent ev).1
    unfolding test_children
    test_children-lem l parent ev (valid, point) =
        let (valid', has) = children-IsLocator a5 AtRes resolution l parent valid x.kids_at in
        test_kids-lem (children a5 l parent).0 parent ev (children a5 l parent).1 (valid', point)
          has

    set_last :
        (l : CellLocator A) (id : ℕ)
        → IsLocator a5 AtRes resolution l
        → AtRes id
        → IsLocator a5 AtRes resolution (record l { last = id })
    set_last l id v at = record {
      at = v.at;
      built = v.built;
      all_kids = v.all_kids;
      last_at = inr at;
      few_geoms = v.few_geoms;
      few_kids = v.few_kids;
    }

    test_hints-lem :
        (hints : List ℕ) (l : CellLocator A) (last : ℕ) (ev : PointEval S A)
        → All (λ h. (h ≡ no_cell) ⊎ AtRes h) hints
        → IsState (l, ev)
        → IsState (test_hints a5 l last hints ev).0 × Finds (test_hints a5 l last hints ev).1
    unfolding test_hints
    test_hints-lem [] l last ev at s = (s, tt)
    test_hints-lem (h ∷ hints) l last ev (here, there) s =
        elim (Bool-cases (h == no_cell || h == last)) [
          | inl skipped ↦ rw (skipped, test_hints) (test_hints-lem hints l last ev there s)
          | inr tested ↦
              let (s', found) = test_lem l h ev s in
              elim (Bool-cases (test a5 l h ev).1) [
                | inr miss ↦
                    rw (tested, miss, test_hints)
                      (test_hints-lem hints (test a5 l h ev).0.0 last (test a5 l h ev).0.1 there s')
                | inl hit ↦ elim here [
                  | inl absent ↦ absurd (ground (arith, tested))
                  | inr at ↦
                      rw (tested, hit, test_hints)
                        ((set_last (test a5 l h ev).0.0 h s'.0 at, s'.1), (found hit at, at))
                ]
              ]
        ]

    found_last :
        (s : CellLocator A × PointEval S A) (id : ℕ)
        → IsState s
        → AtRes id
        → IsState (record s.0 { last = id }, s.1)
    found_last (l, ev) id (valid, point) at = (set_last l id valid at, point)

    test_parents-lem :
        (parents : List ℕ) (l : CellLocator A) (ev : PointEval S A)
        → IsState (l, ev)
        → IsState (test_parents a5 l parents ev).0 × Finds (test_parents a5 l parents ev).1
    unfolding test_parents
    test_parents-lem [] l ev s = (s, tt)
    test_parents-lem (p ∷ parents) l ev s =
        let (s', found) = test_children-lem l p ev s in
        elim (Option-cases (test_children a5 l p ev).1) [
          | inl none_here ↦
              rw (none_here, test_parents)
                (test_parents-lem parents (test_children a5 l p ev).0.0
                  (test_children a5 l p ev).0.1 s')
          | inr (id, hit) ↦
              let own : Finds (some id) = rw hit at found in
              rw (hit, test_parents) (found_last (test_children a5 l p ev).0 id s' own.1, own)
        ]

    -- A stage, done: what it leaves, and the cell that it found.
    abbrev IsDone : (CellLocator A × PointEval S A) × Option ℕ → Type 0
    IsDone (s, found) = IsState s × Finds found

    abbrev IsAnswer : CellLocator A × ℕ → Type 0
    IsAnswer (l, id) = (id ≡ searched) × IsLocator a5 AtRes resolution l

    test_window-lem :
        (l : CellLocator A) (cells : List ℕ) (ev : PointEval S A) (pres : Option ℤ)
        → IsState (l, ev)
        → IsDone (test_window a5 l cells ev pres)
    test_window-lem l cells ev none s = (s, tt)
    test_window-lem l cells ev (some pres) s =
        test_parents-lem (push_parents a5 pres [] cells) l ev s

    keep_search-lem :
        (l : CellLocator A) (found : Option ℕ)
        → IsLocator a5 AtRes resolution l
        → search_cell a5 resolution exact ≡ found
        → IsAnswer (keep_search l found)
    keep_search-lem l none valid e = (ap or_no_cell (sym e), valid)
    keep_search-lem l (some id) valid e =
        (ap or_no_cell (sym e), set_last l id valid (x.search_at id e))

    search_last-lem :
        (done : (CellLocator A × PointEval S A) × Option ℕ)
        → IsDone done
        → IsAnswer (search_last a5 done)
    search_last-lem ((l, ev), some id) (s, (same, at)) = (sym same, s.0)
    search_last-lem ((l, ev), none) ((valid, point), nothing) =
        let (point', same) = spherical-IsPoint a5 approx exact ev point in
        keep_search-lem l (search_cell a5 l.resolution (spherical ev).1) valid (
          ap (λ r. search_cell a5 r exact) (sym valid.at)
          ∙ ap (λ s. search_cell a5 l.resolution s) (sym same))

    search_window-lem :
        (last : ℕ) (hints : List ℕ) (done : (CellLocator A × PointEval S A) × Option ℕ)
        → IsDone done
        → IsAnswer (search_window a5 last hints done)
    unfolding search_window
    search_window-lem last hints ((l, ev), some id) (s, (same, at)) = (sym same, s.0)
    search_window-lem last hints ((l, ev), none) (s, nothing) =
        search_last-lem (test_window a5 l (last ∷ hints) ev l.parent_res)
          (test_window-lem l (last ∷ hints) ev l.parent_res s)

    search_hints-lem :
        (last : ℕ) (hints : List ℕ) (l : CellLocator A) (ev : PointEval S A) (again : Bool)
        → All (λ h. (h ≡ no_cell) ⊎ AtRes h) hints
        → IsState (l, ev)
        → (again ≡ true → searched ≡ last)
        → IsAnswer (search_hints a5 last hints ((l, ev), again))
    unfolding search_hints search_window
    search_hints-lem last hints l ev true at s same = (sym (same refl), s.0)
    search_hints-lem last hints l ev false at s same =
        search_window-lem last hints (test_hints a5 l last hints ev)
          (test_hints-lem hints l last ev at s)

    test_last-lem :
        (l : CellLocator A) (ev : PointEval S A) (absent : Bool)
        → IsState (l, ev)
        → (l.last == no_cell) ≡ absent
        → IsState (test_last a5 l ev absent).0
          × ((test_last a5 l ev absent).1 ≡ true → searched ≡ l.last)
    test_last-lem l ev true s e = (s, λ h. absurd (ground (arith, h)))
    test_last-lem l ev false s e =
        let (s', found) = test_lem l l.last ev s in
        elim s.0.last_at [
          | inl none_yet ↦ absurd (ground (arith, e, none_yet))
          | inr at ↦ (s', λ hit. found hit at)
        ]

  -- The locator finds the cell that the general search finds for the exact position, or no cell
  -- where the search finds none; and its caches stay what they were built from, within their limits.
  -- It does where the exact position is on the face of the approximate one and, seen from every edge
  -- of the cells of that face, not further than the margin from it, where these distances are
  -- numbers and no such edge is longer than 1, where the arithmetic has the laws of `IsMetric`,
  -- which `f64` has, where the search and the children of a cell give cells of the resolution and no
  -- other cell of the resolution has the exact position, and where the hints are cells of the
  -- resolution or no cell.
  pub locate-searched :
      (l : CellLocator A) (hints : List ℕ)
      → IsExact
      → IsLocator a5 AtRes resolution l
      → All (λ h. (h ≡ no_cell) ⊎ AtRes h) hints
      → ((locate a5 l approx exact hints).1 ≡ searched)
        × IsLocator a5 AtRes resolution (locate a5 l approx exact hints).0
  unfolding locate
  locate-searched l hints x valid at =
      let ev = new_point approx exact in
      let absent = l.last == no_cell in
      let s : IsState (l, ev) = (valid, new_point-IsPoint a5 approx exact) in
      let (tested, again) = test_last-lem x l ev absent s refl in
      let begun = (test_last a5 l ev absent).0 in
      elim (Bool-cases l.direct) [
        | inl direct ↦ simp direct (ap (λ r. or_no_cell (search_cell a5 r exact)) valid.at, valid)
        | inr scan ↦ simp scan (
            search_hints-lem x l.last hints begun.0 begun.1 (test_last a5 l ev absent).1 at tested
              again)
      ]
