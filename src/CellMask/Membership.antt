-- ===== src/CellMask/Membership.antt =====
-- A mask covers exactly the cells that its compacted cells stand for, and the memo answers as the
-- mask does.
use a5px.Prelude.{
  ℕ, ◌-◌, ◌≡◌, ◌≢◌, refl, sym, ◌∙◌, ap, arith, List, [], ◌∷◌, Bool, true, false, ◌||◌, Option, none,
  some, if◌then◌else◌, ◌==◌, map, Bool-cases, inl, inr, All, u64_mod, Option-cases,
}
use a5px.Prelude.Int.{ℤ, ltb_ℤ, eqb_ℤ, pos, negsuc}
use a5px.Stats.{any}
use a5px.CellMask.{
  A5, Level, CellMask, member, insert_level, insert_by_resolution, sort_levels, add_cells,
  from_cells, level_hit, contains_loop, contains, MaskCache, new_cache, allows,
}

eqb_ℤ-eq : (a b : ℤ) → eqb_ℤ a b ≡ true → a ≡ b
eqb_ℤ-eq (pos a) (pos b) h = ground arith
eqb_ℤ-eq (pos a) (negsuc b) h = cc
eqb_ℤ-eq (negsuc a) (pos b) h = cc
eqb_ℤ-eq (negsuc a) (negsuc b) h = ground arith

-- What a compacted cell stands for: itself, and the finer cells of which it is the ancestor at its
-- resolution.
abbrev pub stands_for : A5 → ℕ → ℤ → ℕ → Bool
stands_for a5 cell resolution c =
    let r = a5.get_resolution c in
    if eqb_ℤ r resolution
    then c == cell
    else if ltb_ℤ r resolution
    then elim (a5.cell_to_parent cell r) [ none ↦ false | some p ↦ c == p ]
    else false

module _ (a5 : A5) (cell : ℕ) (resolution : ℤ) where
  abbrev hit : Level → Bool
  hit = level_hit a5 cell resolution

  abbrev loop : List Level → Bool
  loop = contains_loop a5 cell resolution

  -- A set with one more cell.
  hit-cons : (r : ℤ) (c : ℕ) (set : List ℕ) → hit (r, c ∷ set) ≡ hit (r, c ∷ []) || hit (r, set)
  hit-cons r c set = ground arith

  member-known :
      (c x : ℕ) (set : List ℕ) → member c set ≡ true → (c == x || member x set) ≡ member x set
  member-known c x [] h = cc
  member-known c x (y ∷ set) h = ground (arith, member-known c x set)

  hit-known :
      (r : ℤ) (c : ℕ) (set : List ℕ)
      → member c set ≡ true
      → hit (r, set) ≡ hit (r, c ∷ []) || hit (r, set)
  hit-known r c set h = elim (Option-cases (a5.cell_to_parent cell r)) [
    | inl root ↦ ground (arith, member-known c cell set h)
    | inr (p, has) ↦ ground (arith, member-known c cell set h, member-known c p set h)
  ]

  loop-insert_level :
      (r : ℤ) (c : ℕ) (levels : List Level)
      → loop (insert_level r c levels) ≡ hit (r, c ∷ []) || loop levels
  unfolding contains_loop insert_level
  loop-insert_level r c [] = refl
  loop-insert_level r c ((lr, set) ∷ levels) = elim (Bool-cases (eqb_ℤ lr r)) [
    | inr other ↦
        rw other
          (rw (loop-insert_level r c levels) (swap (hit (lr, set)) (hit (r, c ∷ [])) (loop levels)))
    | inl same ↦
        let e = eqb_ℤ-eq lr r same in
        rw same (elim (Bool-cases (member c set)) [
          | inl known ↦ rw known (
              assoc (hit (r, c ∷ [])) (hit (lr, set)) (loop levels)
                (rw e (hit-known r c set known)))
          | inr new ↦
              rw new
                (assoc (hit (r, c ∷ [])) (hit (lr, set)) (loop levels) (rw e (hit-cons r c set)))
        ])
  ]
    where
      swap : (a b d : Bool) → (a || (b || d)) ≡ (b || (a || d))
      swap a b d = ground arith

      assoc : (a b d : Bool) {x : Bool} → x ≡ (a || b) → (x || d) ≡ (a || (b || d))
      assoc a b d h = ground arith

  loop-insert_by_resolution :
      (e : Level) (levels : List Level)
      → loop (insert_by_resolution e levels) ≡ hit e || loop levels
  unfolding contains_loop insert_by_resolution
  loop-insert_by_resolution e [] = refl
  loop-insert_by_resolution e (d ∷ levels) = ground (arith, loop-insert_by_resolution e levels)

  loop-sort_levels : (levels : List Level) → loop (sort_levels levels) ≡ loop levels
  unfolding contains_loop sort_levels
  loop-sort_levels [] = refl
  loop-sort_levels (e ∷ levels) =
      loop-insert_by_resolution e (sort_levels levels) ∙ rw (loop-sort_levels levels) refl

  hit-stands_for : (c : ℕ) → hit (a5.get_resolution c, c ∷ []) ≡ stands_for a5 cell resolution c
  hit-stands_for c = ground arith

  loop-add_cells :
      (levels : List Level) (cells : List ℕ)
      → loop (add_cells a5 levels cells) ≡ any (stands_for a5 cell resolution) cells || loop levels
  unfolding add_cells
  loop-add_cells levels [] = refl
  loop-add_cells levels (c ∷ cells) =
      let r = a5.get_resolution c in
      ground (
        arith,
        loop-add_cells (insert_level r c levels) cells,
        loop-insert_level r c levels,
        hit-stands_for c,
      )

-- A cell is in the mask made of some compacted cells exactly when one of them stands for it: is the
-- cell itself at its resolution, or its ancestor at a coarser one.
pub contains-from_cells :
    (a5 : A5) (cells : List ℕ) (m : CellMask) (cell : ℕ) (resolution : ℤ)
    → from_cells a5 cells ≡ some m
    → contains a5 m cell resolution ≡ any (stands_for a5 cell resolution) cells
unfolding from_cells contains
contains-from_cells a5 [] m cell resolution h = absurd (ground arith)
contains-from_cells a5 (c ∷ cells) m cell resolution h =
    let all = add_cells a5 [] (c ∷ cells) in
    let sorted = loop-sort_levels a5 cell resolution all in
    let added = loop-add_cells a5 cell resolution [] (c ∷ cells) in
    let same : sort_levels all ≡ m.levels = ground arith in
    rw (← same) (sorted ∙ added ∙ ground arith)

-- The answers of a memo to a run of cells.
abbrev pub ask : A5 → MaskCache → Option CellMask → ℤ → List ℕ → List Bool
ask a5 c m resolution [] = []
ask a5 c m resolution (cell ∷ cells) =
    let r = allows a5 c m cell resolution in r.1 ∷ ask a5 r.0 m resolution cells

abbrev IsMemo : A5 → CellMask → ℤ → MaskCache → Type 0
IsMemo a5 m resolution c =
    c.last_cell ≢ u64_mod - 1 → c.last_in ≡ contains a5 m c.last_cell resolution

ask-IsMemo :
    (a5 : A5) (m : CellMask) (resolution : ℤ) (c : MaskCache) (cells : List ℕ)
    → IsMemo a5 m resolution c
    → All (λ cell. cell ≢ u64_mod - 1) cells
    → ask a5 c (some m) resolution cells ≡ map (λ cell. contains a5 m cell resolution) cells
unfolding allows
ask-IsMemo a5 m resolution c [] memo h = refl
ask-IsMemo a5 m resolution c (cell ∷ cells) memo h = elim (Bool-cases (cell == c.last_cell)) [
  | inl same ↦
      let e : c.last_cell ≡ cell = ground arith in
      let rest = ask-IsMemo a5 m resolution c cells memo h.1 in
      let answer : c.last_in ≡ contains a5 m cell resolution =
        rw e at (memo (λ bad. h.0 (sym e ∙ bad))) in
      rw same
        (rw rest (ap (λ (x : Bool). x ∷ map (λ cell. contains a5 m cell resolution) cells) answer))
  | inr new ↦ rw new (
      rw (
        ask-IsMemo a5 m resolution
          (record { last_cell = cell; last_in = contains a5 m cell resolution }) cells (λ _. refl)
          h.1))
]

-- Over any run of cells other than 2^64 - 1, the memo of a worker answers as the mask itself does.
pub ask-contains :
    (a5 : A5) (m : CellMask) (resolution : ℤ) (cells : List ℕ)
    → All (λ cell. cell ≢ u64_mod - 1) cells
    → ask a5 new_cache (some m) resolution cells ≡ map (λ cell. contains a5 m cell resolution) cells
unfolding new_cache
ask-contains a5 m resolution cells h =
    ask-IsMemo a5 m resolution (record { last_cell = u64_mod - 1; last_in = false }) cells
      (λ bad. absurd (bad refl)) h
