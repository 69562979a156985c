-- ===== src/CellMask.antt =====
-- src/rust/src/cell_mask.rs: the area of interest as compacted cells, and the memo of its last
-- decision. The a5 library's `get_resolution` and `cell_to_parent` are parameters.
pub mod Membership
use a5px.Prelude.{
  ℕ, ◌-◌, ◌^◌, List, [], ◌∷◌, ◌++◌, Bool, true, false, ◌||◌, Option, none, some, if◌then◌else◌,
  ◌==◌, not, u64_mod,
}
use a5px.Prelude.Int.{ℤ, ltb_ℤ, eqb_ℤ}

-- What the code uses of the a5 library.
pub record A5 : Type 0 where
  pub get_resolution : ℕ → ℤ
  -- `none` is its error
  pub cell_to_parent : ℕ → ℤ → Option ℕ

abbrev pub Level : Type 0
Level = ℤ × List ℕ

pub record CellMask : Type 0 where
  -- (resolution, cells at that resolution), ascending by resolution
  pub levels : List Level

abbrev pub member : ℕ → List ℕ → Bool
member c [] = false
member c (x ∷ xs) = x == c || member c xs

-- `AHashSet::insert`
abbrev set_insert : ℕ → List ℕ → List ℕ
set_insert c set = if member c set then set else c ∷ set

-- The cell into the level of its resolution, which is added if there is none.
pub insert_level : ℤ → ℕ → List Level → List Level
insert_level r c [] = (r, c ∷ []) ∷ []
insert_level r c ((lr, set) ∷ levels) =
    let rest = insert_level r c levels in
    if eqb_ℤ lr r then (lr, set_insert c set) ∷ levels else (lr, set) ∷ rest

-- `levels.sort_by_key(|(r, _)| *r)`
pub insert_by_resolution : Level → List Level → List Level
insert_by_resolution e [] = e ∷ []
insert_by_resolution e (d ∷ levels) =
    let rest = insert_by_resolution e levels in if ltb_ℤ d.0 e.0 then d ∷ rest else e ∷ d ∷ levels

pub sort_levels : List Level → List Level
sort_levels [] = []
sort_levels (e ∷ levels) = insert_by_resolution e (sort_levels levels)

module _ (a5 : A5) where
  -- The loop of `from_cells`, over the cells left.
  pub add_cells : List Level → List ℕ → List Level
  add_cells levels [] = levels
  add_cells levels (c ∷ cells) = add_cells (insert_level (a5.get_resolution c) c levels) cells

  unfoldable pub from_cells : List ℕ → Option CellMask
  unfolding add_cells insert_level sort_levels insert_by_resolution
  from_cells [] = none
  from_cells (c ∷ cells) = some (record { levels = sort_levels (add_cells [] (c ∷ cells)) })

  abbrev pub holds_parent : Option ℕ → List ℕ → Bool
  holds_parent none set = false
  holds_parent (some p) set = member p set

  -- One round of the loop of `contains`.
  abbrev pub level_hit : ℕ → ℤ → Level → Bool
  level_hit cell resolution (r, set) =
      if eqb_ℤ r resolution
      then member cell set
      else if ltb_ℤ r resolution
      then holds_parent (a5.cell_to_parent cell r) set
      else false

  pub contains_loop : ℕ → ℤ → List Level → Bool
  contains_loop cell resolution [] = false
  contains_loop cell resolution (e ∷ levels) =
      level_hit cell resolution e || contains_loop cell resolution levels

  unfoldable pub contains : CellMask → ℕ → ℤ → Bool
  unfolding contains_loop
  contains m cell resolution = contains_loop cell resolution m.levels

pub record MaskCache : Type 0 where
  pub last_cell : ℕ
  pub last_in : Bool

unfoldable pub new_cache : MaskCache
new_cache = record { last_cell = u64_mod - 1; last_in = false }

unfoldable pub allows : A5 → MaskCache → Option CellMask → ℕ → ℤ → MaskCache × Bool
allows a5 c none cell resolution = (c, true)
allows a5 c (some m) cell resolution =
    let fresh : MaskCache = record { last_cell = cell; last_in = contains a5 m cell resolution } in
    if not (cell == c.last_cell) then (fresh, fresh.last_in) else (c, c.last_in)
