-- ===== src/Store/Shape.antt =====
-- The slots of a `CellStore` are the places of its cells, and its slabs have room for them.
use a5px.Prelude.{
  ℕ, zero, suc, ◌+◌, ◌*◌, ◌%◌, ◌^◌, ◌<◌, ◌≡◌, refl, ◌∙◌, ap, arith, List, [], ◌∷◌, ◌++◌, true, none,
  some, length, replicate, get_elem?, ℕ_discrete, Option-cases, inl, inr, ◌⊎◌, length-append,
  length-replicate,
}
use a5px.Prelude.Map.{find, find-put}
use a5px.Float.{F64}
use a5px.Layouts.{AccLayout}
use a5px.Store.{CellStore, shared, add_cell, slot}

get_elem?-append :
    {A : Type 0} (xs ys : List A) (i : ℕ) (x : A)
    → get_elem? xs i ≡ some x
    → get_elem? (xs ++ ys) i ≡ some x
get_elem?-append [] ys i x h = absurd (ground arith)
get_elem?-append (y ∷ xs) ys zero x h = h
get_elem?-append (y ∷ xs) ys (suc i) x h = get_elem?-append xs ys i x h

get_elem?-append_one :
    {A : Type 0} (xs : List A) (x : A) → get_elem? (xs ++ (x ∷ [])) (length xs) ≡ some x
get_elem?-append_one [] x = refl
get_elem?-append_one (y ∷ xs) x = get_elem?-append_one xs x

get_elem?-append_cases :
    {A : Type 0} (xs : List A) (y : A) (i : ℕ) (x : A)
    → get_elem? (xs ++ (y ∷ [])) i ≡ some x
    → (get_elem? xs i ≡ some x) ⊎ ((i ≡ length xs) × (y ≡ x))
get_elem?-append_cases [] y zero x h = inr (refl, ground arith)
get_elem?-append_cases [] y (suc i) x h = absurd (ground arith)
get_elem?-append_cases (z ∷ xs) y zero x h = inl h
get_elem?-append_cases (z ∷ xs) y (suc i) x h = elim (get_elem?-append_cases xs y i x h) [
  | inl old ↦ inl old
  | inr (e, p) ↦ inr (ap suc e, p)
]

length-grown :
    {A : Type 0} (xs : List A) (cells : List ℕ) (cell n : ℕ) (x : A)
    → length xs ≡ length cells * n
    → length (xs ++ replicate n x) ≡ length (cells ++ (cell ∷ [])) * n
length-grown xs cells cell n x h =
    let grown : length (cells ++ (cell ∷ [])) ≡ length cells + 1 =
      length-append cells (cell ∷ []) in
    let room : (length cells + 1) * n ≡ length cells * n + n = grind arith in
    length-append xs (replicate n x) ∙ rw (length-replicate n x, h, grown, room) refl

module _ {A L : Type 0} ⦃f : F64 A⦄ ⦃l : AccLayout A L⦄ where
  pub record IsShaped (s : CellStore A L) : Type 0 where
    pub cell_at :
        (cell i : ℕ) → find ℕ_discrete cell s.index ≡ some i → get_elem? s.cells i ≡ some cell
    pub slot_of :
        (cell i : ℕ) → get_elem? s.cells i ≡ some cell → find ℕ_discrete cell s.index ≡ some i
    pub conts : s.cfg.has_cont ≡ true → length s.cont ≡ length s.cells * s.n_out
    pub cats : s.cfg.has_cat ≡ true → length s.cat ≡ length s.cells * s.n_out
    pub npixs : s.cfg.has_npix ≡ true → length s.npix ≡ length s.cells
    pub weights : shared s ≡ true → length s.bw ≡ length s.cells

  add_cell-IsShaped :
      (s : CellStore A L) (cell : ℕ)
      → IsShaped s
      → length s.cells < 2 ^ 32
      → find ℕ_discrete cell s.index ≡ none
      → IsShaped (add_cell s cell).0
  unfolding add_cell
  add_cell-IsShaped s cell v small new =
      let at : length s.cells % 2 ^ 32 ≡ length s.cells = omega arith in
      record {
        cell_at = λ c i h. elim (ℕ_discrete cell c) [
          | yes p ↦
              let e : length s.cells ≡ i =
                ground (arith, rw (at, find-put ℕ_discrete cell c (length s.cells) s.index) at h) in
              rw (← e, ← p) (get_elem?-append_one s.cells cell)
          | no n ↦
              let old : find ℕ_discrete c s.index ≡ some i =
                ground (arith, rw (at, find-put ℕ_discrete cell c (length s.cells) s.index) at h) in
              get_elem?-append s.cells (cell ∷ []) i c (v.cell_at c i old)
        ];
        slot_of = λ c i h.
            rw (at, find-put ℕ_discrete cell c (length s.cells) s.index)
              (elim (get_elem?-append_cases s.cells cell i c h) [
                | inr (e, p) ↦ ground arith
                | inl old ↦ ground (arith, v.slot_of c i old, new)
              ]);
        conts = λ on. rw on (length-grown s.cont s.cells cell s.n_out l.fresh (v.conts on));
        cats = λ on. rw on (length-grown s.cat s.cells cell s.n_out [] (v.cats on));
        npixs = λ on. rw on (
            omega (
              arith,
              v.npixs on,
              length-append s.npix (f.naught ∷ []),
              length-append s.cells (cell ∷ []),
            ));
        weights = λ on. rw on (
            omega (
              arith,
              v.weights on,
              length-append s.bw (f.naught ∷ []),
              length-append s.cells (cell ∷ []),
            ));
      }

  -- In a store whose slots are the places of its cells and whose slabs have room for them, with less
  -- than 2^32 cells, `slot` keeps it so, gives the slot of the cell, and leaves every other cell its
  -- slot.
  pub slot-IsShaped :
      (s : CellStore A L) (cell : ℕ)
      → IsShaped s
      → length s.cells < 2 ^ 32
      → let res = slot s cell in
        IsShaped res.0
        × (find ℕ_discrete cell res.0.index ≡ some res.1)
        × (get_elem? res.0.cells res.1 ≡ some cell)
        × ((c i : ℕ) → find ℕ_discrete c s.index ≡ some i → find ℕ_discrete c res.0.index ≡ some i)
  unfolding slot add_cell
  slot-IsShaped s cell v small = elim (Option-cases (find ℕ_discrete cell s.index)) [
    | inr (i, has) ↦ rw (has, slot) (v, has, v.cell_at cell i has, (λ c j h. h))
    | inl new ↦
        let at : length s.cells % 2 ^ 32 ≡ length s.cells = omega arith in
        let grown = add_cell-IsShaped s cell v small new in
        let found : find ℕ_discrete cell (add_cell s cell).0.index ≡ some (add_cell s cell).1 =
          ground (arith, find-put ℕ_discrete cell cell (length s.cells % 2 ^ 32) s.index) in
        rw (new, slot)
          (
            grown,
            found,
            grown.cell_at cell (add_cell s cell).1 found,
            λ c j h.
                ground (arith, find-put ℕ_discrete cell c (length s.cells % 2 ^ 32) s.index, new),
          )
  ]
