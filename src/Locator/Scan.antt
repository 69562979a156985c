-- ===== src/Locator/Scan.antt =====
-- `CellLocator` of src/rust/src/locator.rs.

pub mod Valid
pub mod Exact
use a5px.Prelude.{
  ℕ, suc, ◌+◌, ◌-◌, ◌^◌, List, [], ◌∷◌, ◌++◌, Bool, true, false, not, ◌&&◌, ◌||◌, Option, none,
  some, if◌then◌else◌, ltb, leb, ◌==◌, length, get_or, set, get_elem?, ℕ_discrete,
}
use a5px.Prelude.Map.{find, put}
use a5px.Prelude.Int.{ℤ, pos, negsuc, ltb_ℤ}
use a5px.Float.{F64}
use a5px.CellMask.{member}
use a5px.Rows.{no_cell}
use a5px.Locator.{A5Library, ApproxFace, CellGeom, build}
use a5px.Locator.Point.{PointEval, new_point, spherical, inside}

abbrev pub geom_cache_max : ℕ
geom_cache_max = 65_536

abbrev pub kids_cache_max : ℕ
kids_cache_max = 8_192

pub record CellLocator (A : Type 0) : Type 0 where
  pub resolution : ℤ
  pub direct : Bool
  pub parent_res : Option ℤ
  pub geoms : List (ℕ × CellGeom A)
  -- children per parent, most recently hit first
  pub kids : List (ℕ × List (CellGeom A))
  pub last : ℕ

-- `resolution - k`
abbrev pub res_below : ℤ → ℕ → ℤ
res_below (pos n) k = if leb k n then pos (n - k) else negsuc (k - n - 1)
res_below (negsuc n) k = negsuc (n + k)

-- The cache, cleared where it is full.
abbrev pub with_room : {V : Type 0} → ℕ → List (ℕ × V) → List (ℕ × V)
with_room cap m = if leb cap (length m) then [] else m

module _ {A : Type 0} where
  abbrev pub keep_geom :
      CellLocator A → ℕ → Option (CellGeom A) → CellLocator A × Option (CellGeom A)
  keep_geom l id none = (record l { geoms = with_room geom_cache_max l.geoms }, none)
  keep_geom l id (some g) =
      (record l { geoms = put ℕ_discrete id g (with_room geom_cache_max l.geoms) }, some g)

  abbrev pub add_geom : Option (CellGeom A) → List (CellGeom A) → List (CellGeom A)
  add_geom none v = v
  add_geom (some g) v = g ∷ v

  -- `v.swap(0, hit)`, where `g` is at `hit`.
  abbrev pub swap_first : List (CellGeom A) → ℕ → CellGeom A → List (CellGeom A)
  swap_first [] hit g = []
  swap_first (h ∷ v) hit g = if hit == 0 then h ∷ v else set (g ∷ v) hit h

  abbrev pub move_first :
      CellLocator A → ℕ → List (CellGeom A) → Option (ℕ × CellGeom A) → CellLocator A × Option ℕ
  move_first l parent v none = (l, none)
  move_first l parent v (some (i, g)) =
      (record l { kids = put ℕ_discrete parent (swap_first v i g) l.kids }, some g.id)

abbrev pub or_no_cell : Option ℕ → ℕ
or_no_cell none = no_cell
or_no_cell (some id) = id

module _ {S A : Type 0} ⦃f : F64 A⦄ (a5 : A5Library S A) where
  unfoldable pub new_locator : ℤ → A → CellLocator A
  new_locator resolution px_per_cell =
      let k = if f.le (f.of_size 4) px_per_cell then 2 else 3 in
      let first = a5.first_curve_resolution in
      record {
        resolution = resolution;
        direct = ltb_ℤ resolution first || f.lt px_per_cell f.unit;
        parent_res =
            if ltb_ℤ (res_below resolution k) first then none else some (res_below resolution k);
        geoms = [];
        kids = [];
        last = no_cell;
      }

  -- `geom`, given what the cache has.
  abbrev pub recall_geom :
      CellLocator A → ℕ → Option (CellGeom A) → CellLocator A × Option (CellGeom A)
  recall_geom l id (some g) = (l, some g)
  recall_geom l id none = keep_geom l id (build a5 id)

  pub geom : CellLocator A → ℕ → CellLocator A × Option (CellGeom A)
  unfolding build
  geom l id = recall_geom l id (find ℕ_discrete id l.geoms)

  abbrev pub test_geom :
      CellLocator A → PointEval S A → Option (CellGeom A) → (CellLocator A × PointEval S A) × Bool
  test_geom l ev none = ((l, ev), false)
  test_geom l ev (some g) = let (ev', hit) = inside a5 ev g in ((l, ev'), hit)

  pub test : CellLocator A → ℕ → PointEval S A → (CellLocator A × PointEval S A) × Bool
  unfolding geom inside
  test l id ev = let (l', found) = geom l id in test_geom l' ev found

  -- `filter_map(CellGeom::build)`
  abbrev pub build_all : List ℕ → List (CellGeom A)
  build_all [] = []
  build_all (id ∷ ids) = add_geom (build a5 id) (build_all ids)

  abbrev pub keep_kids :
      CellLocator A → ℕ → Option (List ℕ) → CellLocator A × Option (List (CellGeom A))
  keep_kids l parent none = (record l { kids = with_room kids_cache_max l.kids }, none)
  keep_kids l parent (some ids) = (
    record l { kids = put ℕ_discrete parent (build_all ids) (with_room kids_cache_max l.kids) },
    some (build_all ids),
  )

  abbrev pub recall_kids :
      CellLocator A → ℕ → Option (List (CellGeom A)) → CellLocator A × Option (List (CellGeom A))
  recall_kids l parent (some v) = (l, some v)
  recall_kids l parent none = keep_kids l parent (a5.cell_to_children parent l.resolution)

  -- The children of `parent`, built where they are not cached.
  pub children : CellLocator A → ℕ → CellLocator A × Option (List (CellGeom A))
  unfolding build
  children l parent = recall_kids l parent (find ℕ_discrete parent l.kids)

  -- The first that has the point, from index `i` on.
  pub first_inside : PointEval S A → ℕ → List (CellGeom A) → PointEval S A × Option (ℕ × CellGeom A)
  unfolding inside
  first_inside ev i [] = (ev, none)
  first_inside ev i (g ∷ gs) =
      let (ev', hit) = inside a5 ev g in
      let rest = first_inside ev' (i + 1) gs in if hit then (ev', some (i, g)) else rest

  abbrev pub test_kids :
      CellLocator A
      → ℕ
      → PointEval S A
      → Option (List (CellGeom A))
      → (CellLocator A × PointEval S A) × Option ℕ
  test_kids l parent ev none = ((l, ev), none)
  test_kids l parent ev (some v) =
      let (ev', hit) = first_inside ev 0 v in
      let (l', found) = move_first l parent v hit in ((l', ev'), found)

  pub test_children : CellLocator A → ℕ → PointEval S A → (CellLocator A × PointEval S A) × Option ℕ
  unfolding children first_inside
  test_children l parent ev = let (l', kids) = children l parent in test_kids l' parent ev kids

  -- The hints in turn; `last` was tested before.
  pub test_hints :
      CellLocator A → ℕ → List ℕ → PointEval S A → (CellLocator A × PointEval S A) × Option ℕ
  unfolding test
  test_hints l last [] ev = ((l, ev), none)
  test_hints l last (h ∷ hints) ev =
      let skipped = h == no_cell || h == last in
      let (next, hit) = test l h ev in
      let l' = if skipped then l else next.0 in
      let ev' = if skipped then ev else next.1 in
      let rest = test_hints l' last hints ev' in
      if not skipped && hit then ((record next.0 { last = h }, next.1), some h) else rest

  -- The closure `push`: at most eight parents, each once.
  abbrev pub push_parent : ℤ → List ℕ → ℕ → List ℕ
  push_parent pres parents c =
      if c == no_cell || leb 8 (length parents) then parents else elim (a5.cell_to_parent c pres) [
        | none ↦ parents
        | some p ↦ if member p parents then parents else parents ++ (p ∷ [])
      ]

  abbrev pub push_parents : ℤ → List ℕ → List ℕ → List ℕ
  push_parents pres parents [] = parents
  push_parents pres parents (c ∷ cells) = push_parents pres (push_parent pres parents c) cells

  pub test_parents :
      CellLocator A → List ℕ → PointEval S A → (CellLocator A × PointEval S A) × Option ℕ
  unfolding test_children
  test_parents l [] ev = ((l, ev), none)
  test_parents l (p ∷ parents) ev =
      let (next, hit) = test_children l p ev in
      let rest = test_parents next.0 parents next.1 in
      elim hit [ some id ↦ ((record next.0 { last = id }, next.1), some id) | none ↦ rest ]

  -- The parents' children, where there is a parent resolution.
  abbrev pub test_window :
      CellLocator A → List ℕ → PointEval S A → Option ℤ → (CellLocator A × PointEval S A) × Option ℕ
  test_window l cells ev none = ((l, ev), none)
  test_window l cells ev (some pres) = test_parents l (push_parents pres [] cells) ev

  abbrev pub search_cell : ℤ → Option S → Option ℕ
  search_cell resolution none = none
  search_cell resolution (some s) = a5.spherical_to_cell s resolution

  -- The test of the previous hit; `absent` where there is none.
  abbrev pub test_last :
      CellLocator A → PointEval S A → Bool → (CellLocator A × PointEval S A) × Bool
  test_last l ev absent = if absent then ((l, ev), false) else test l l.last ev

abbrev pub keep_search : {A : Type 0} → CellLocator A → Option ℕ → CellLocator A × ℕ
keep_search l none = (l, no_cell)
keep_search l (some id) = (record l { last = id }, id)

-- The first stage that has a cell, else the general search.
module _ {S A : Type 0} ⦃f : F64 A⦄ (a5 : A5Library S A) where
  abbrev pub search_last : (CellLocator A × PointEval S A) × Option ℕ → CellLocator A × ℕ
  search_last ((l, ev), some id) = (l, id)
  search_last ((l, ev), none) = keep_search l (search_cell a5 l.resolution (spherical ev).1)

  unfoldable pub search_window :
      ℕ → List ℕ → (CellLocator A × PointEval S A) × Option ℕ → CellLocator A × ℕ
  unfolding test_parents
  search_window last hints ((l, ev), some id) = (l, id)
  search_window last hints ((l, ev), none) =
      search_last (test_window a5 l (last ∷ hints) ev l.parent_res)

  -- `again` where the previous hit has the point.
  unfoldable pub search_hints :
      ℕ → List ℕ → (CellLocator A × PointEval S A) × Bool → CellLocator A × ℕ
  unfolding test_hints search_window
  search_hints last hints ((l, ev), again) =
      if again then (l, last) else search_window last hints (test_hints a5 l last hints ev)

  unfoldable pub locate :
      CellLocator A → Option (ApproxFace A) → Option S → List ℕ → CellLocator A × ℕ
  unfolding test search_hints search_window
  locate l approx exact hints =
      let ev = new_point approx exact in
      if l.direct
      then (l, or_no_cell (search_cell a5 l.resolution (spherical ev).1))
      else search_hints l.last hints (test_last a5 l ev (l.last == no_cell))

  unfoldable pub locate_exact : CellLocator A → S → List ℕ → CellLocator A × ℕ
  unfolding locate
  locate_exact l sph hints = locate l none (some sph) hints
