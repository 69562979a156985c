-- ===== src/Aggregate/Rows.antt =====
-- The rows of an `Aggregate` of src/rust/src/read.rs: its partitions' cells, ascending by id.
use Prim.Native.String.{String}
use a5px.Prelude.{
  ℕ, zero, suc, ◌+◌, ◌-◌, ◌%◌, ◌^◌, ◌≤◌, ◌<◌, ◌≡◌, ◌≢◌, refl, sym, ◌∙◌, ap, arith, List, [], ◌∷◌,
  ◌++◌, Bool, Option, none, some, length, get_elem?, All, map, get_elem?-map, map-get_elem?,
  All-get_elem?, length-map,
}
use a5px.Prelude.Sort.{
  In, Pairs, All-map, sort_by, sort_by-All, sort_by-In, sort_by-Pairs, sort_by-Pairs_sym, Pairs-map,
  Pairs-both, Pairs-of_map, Pairs-to_map,
}
use a5px.Float.{F64}
use a5px.Stats.{Stat}
use a5px.Layouts.{AccLayout}
use a5px.Store.{CellStore}
use a5px.Aggregate.{Keyed, low_cell, keyed_part, keyed, Aggregate, from_parts}

-- The cell at an index of a partition.
abbrev pub cell_of : List (List ℕ) → ℕ → ℕ → Option ℕ
cell_of [] p i = none
cell_of (cells ∷ parts) zero i = get_elem? cells i
cell_of (cells ∷ parts) (suc p) i = cell_of parts p i

pub All-append :
    {A : Type 0} (P : A → Type 0) (xs ys : List A) → All P xs → All P ys → All P (xs ++ ys)
All-append P [] ys h k = k
All-append P (x ∷ xs) ys (here, there) k = (here, All-append P xs ys there k)

pub In-append_left : {A : Type 0} (x : A) (xs ys : List A) → In x xs → In x (xs ++ ys)
In-append_left x [] ys (i, h) = absurd (ground (arith, h))
In-append_left x (y ∷ xs) ys (zero, h) = (zero, h)
In-append_left x (y ∷ xs) ys (suc i, h) = let (j, k) = In-append_left x xs ys (i, h) in (suc j, k)

pub In-append_right : {A : Type 0} (x : A) (xs ys : List A) → In x ys → In x (xs ++ ys)
In-append_right x [] ys h = h
In-append_right x (y ∷ xs) ys h = let (j, k) = In-append_right x xs ys h in (suc j, k)

-- Every partition has fewer cells than an index can count.
abbrev pub Small : List (List ℕ) → Type 0
Small parts = All (λ cells. length cells ≤ 2 ^ 32) parts

-- A keyed cell's place holds it.
abbrev pub Placed : List (List ℕ) → ℕ → Keyed → Type 0
Placed parts from (c, (p, i)) = (from ≤ p) × (cell_of parts (p - from) i ≡ some c)

keyed_part-Placed :
    (parts : List (List ℕ)) (pi i : ℕ) (cells all : List ℕ)
    → pi < 2 ^ 32
    → i + length cells ≤ 2 ^ 32
    → ((j : ℕ) (c : ℕ) → get_elem? cells j ≡ some c → get_elem? all (i + j) ≡ some c)
    → All (Placed (all ∷ parts) pi) (keyed_part pi i cells)
keyed_part-Placed parts pi i [] all few room at = tt
keyed_part-Placed parts pi i (c ∷ cells) all few room at =
    let ep : pi % 2 ^ 32 ≡ pi = omega arith in
    let ei : i % 2 ^ 32 ≡ i = omega arith in
    let first : pi - pi ≡ 0 = omega arith in
    let start : i + 0 ≡ i = omega arith in
    let here : get_elem? all i ≡ some c = rw start at (at 0 c refl) in
    (
      rw (ep, ei, first) (omega arith, here),
      keyed_part-Placed parts pi (i + 1) cells all few (omega arith)
          (λ j d h. let e : i + 1 + j ≡ i + suc j = omega arith in rw e (at (suc j) d h)),
    )

pub keyed-Placed :
    (pi : ℕ) (parts : List (List ℕ))
    → pi + length parts ≤ 2 ^ 32
    → Small parts
    → All (Placed parts pi) (keyed pi parts)
keyed-Placed pi [] few small = tt
keyed-Placed pi (cells ∷ parts) few (here, there) =
    All-append (Placed (cells ∷ parts) pi) (keyed_part pi 0 cells) (keyed (pi + 1) parts)
      (keyed_part-Placed parts pi 0 cells cells (omega arith) (omega (arith, here))
        (λ j c h. let e : 0 + j ≡ j = omega arith in rw e h))
      (All-map (keyed (pi + 1) parts)
        (λ k h.
          let e : k.1.0 - pi ≡ suc (k.1.0 - (pi + 1)) = omega (arith, h.0) in
          (omega (arith, h.0), rw e h.1))
        (keyed-Placed (pi + 1) parts (omega arith) there))

keyed_part-In :
    (pi from i c : ℕ) (cells : List ℕ)
    → pi < 2 ^ 32
    → from + length cells ≤ 2 ^ 32
    → get_elem? cells i ≡ some c
    → In (c, (pi, from + i)) (keyed_part pi from cells)
keyed_part-In pi from i c [] few room h = absurd (ground (arith, h))
keyed_part-In pi from zero c (d ∷ cells) few room h =
    let e : d ≡ c = ground (arith, h) in
    let ep : pi % 2 ^ 32 ≡ pi = omega arith in
    let ei : from % 2 ^ 32 ≡ from = omega arith in
    let start : from + 0 ≡ from = omega arith in (0, rw (e, ep, ei, start) refl)
keyed_part-In pi from (suc i) c (d ∷ cells) few room h =
    let (j, k) = keyed_part-In pi (from + 1) i c cells few (omega arith) h in
    let e : from + suc i ≡ from + 1 + i = omega arith in (suc j, rw e k)

pub keyed-In :
    (from p i c : ℕ) (parts : List (List ℕ))
    → from + length parts ≤ 2 ^ 32
    → Small parts
    → cell_of parts p i ≡ some c
    → In (c, (from + p, i)) (keyed from parts)
keyed-In from p i c [] few small h = absurd (ground (arith, h))
keyed-In from zero i c (cells ∷ parts) few (here, there) h =
    let e : from + 0 ≡ from = omega arith in
    let z : 0 + i ≡ i = omega arith in
    let at = keyed_part-In from 0 i c cells (omega arith) (omega (arith, here)) h in
    rw e (
      In-append_left (c, (from, i)) (keyed_part from 0 cells) (keyed (from + 1) parts) (rw z at at))
keyed-In from (suc p) i c (cells ∷ parts) few (here, there) h =
    let e : from + suc p ≡ from + 1 + p = omega arith in
    rw e (
      In-append_right (c, (from + 1 + p, i)) (keyed_part from 0 cells) (keyed (from + 1) parts)
        (keyed-In (from + 1) p i c parts (omega arith) there h))

keyed_part-cells : (pi i : ℕ) (cells : List ℕ) → map (λ k. k.0) (keyed_part pi i cells) ≡ cells
keyed_part-cells pi i [] = refl
keyed_part-cells pi i (c ∷ cells) = ap (◌∷◌ c) (keyed_part-cells pi (i + 1) cells)

map-append : {A B : Type 0} (g : A → B) (xs ys : List A) → map g (xs ++ ys) ≡ map g xs ++ map g ys
map-append g [] ys = refl
map-append g (x ∷ xs) ys = ap (◌∷◌ (g x)) (map-append g xs ys)

abbrev pub all_cells : List (List ℕ) → List ℕ
all_cells [] = []
all_cells (cells ∷ parts) = cells ++ all_cells parts

keyed-cells : (pi : ℕ) (parts : List (List ℕ)) → map (λ k. k.0) (keyed pi parts) ≡ all_cells parts
keyed-cells pi [] = refl
keyed-cells pi (cells ∷ parts) =
    map-append (λ k. k.0) (keyed_part pi 0 cells) (keyed (pi + 1) parts)
    ∙ rw (keyed_part-cells pi 0 cells, keyed-cells (pi + 1) parts) refl

-- Each cell less than those after it.
abbrev pub Ascending : List ℕ → Type 0
Ascending cells = Pairs (λ a b. a < b) cells

sorted-Ascending :
    (ks : List Keyed)
    → Pairs (λ a b. a.0 ≢ b.0) ks
    → Ascending (map (λ k. k.0) (sort_by low_cell ks))
sorted-Ascending ks distinct =
    let ordered =
      sort_by-Pairs low_cell (λ a b. a.0 ≤ b.0) (λ a b h. ground (arith, h))
        (λ a b h. ground (arith, h)) (λ a b c h k. omega (arith, h, k)) ks in
    let apart = sort_by-Pairs_sym low_cell (λ a b. a.0 ≢ b.0) ks (λ a b h e. h (sym e)) distinct in
    Pairs-to_map (λ a b. a < b) (λ k. k.0) (sort_by low_cell ks)
      (Pairs-map (sort_by low_cell ks) (λ a b h. omega (arith, h.0, h.1))
        (Pairs-both (λ a b. a.0 ≤ b.0) (λ a b. a.0 ≢ b.0) (sort_by low_cell ks) ordered apart))

module _ {A L : Type 0} ⦃f : F64 A⦄ ⦃l : AccLayout A L⦄ where
  abbrev pub part_cells : List (CellStore A L) → List (List ℕ)
  part_cells parts = map (λ p. p.cells) parts

  -- The rows stand for the partitions' cells.
  pub record IsRows (parts : List (CellStore A L)) (agg : Aggregate A L) : Type 0 where
    pub ascending : Ascending agg.cells
    pub as_many : length agg.order ≡ length agg.cells
    -- each row's place holds its cell
    pub places :
        (r c p i : ℕ)
        → get_elem? agg.cells r ≡ some c
        → get_elem? agg.order r ≡ some (p, i)
        → cell_of (part_cells parts) p i ≡ some c
    -- each cell of a partition has a row, with its place
    pub rows :
        (p i c : ℕ)
        → cell_of (part_cells parts) p i ≡ some c
        → (r : ℕ) × ((get_elem? agg.cells r ≡ some c) × (get_elem? agg.order r ≡ some (p, i)))

  -- The rows of an aggregate are the cells of its partitions, ascending by id, each with the place where
  -- its partition has it, where no cell is in the partitions twice, and there are at most 2^32 partitions,
  -- of at most 2^32 cells each.
  pub from_parts-IsRows :
      (parts : List (CellStore A L)) (n_out : ℕ) (band_names : List String) (stats : List Stat)
      (fractions has_npix : Bool)
      → length (part_cells parts) ≤ 2 ^ 32
      → Small (part_cells parts)
      → Pairs (λ a b. a ≢ b) (all_cells (part_cells parts))
      → IsRows parts (from_parts parts n_out band_names stats fractions has_npix)
  unfolding from_parts
  from_parts-IsRows parts n_out band_names stats fractions has_npix few small distinct =
      let cells = part_cells parts in
      let ks = keyed 0 cells in
      let sorted = sort_by low_cell ks in
      record {
        ascending =
            sorted-Ascending ks
              (Pairs-of_map (λ a b. a ≢ b) (λ k. k.0) ks (rw (keyed-cells 0 cells) distinct));
        as_many = length-map (λ k. k.1) sorted ∙ sym (length-map (λ k. k.0) sorted);
        places = λ r c p i at place.
            let (k, (hk, ek)) = map-get_elem? (λ k. k.0) sorted r c at in
            let (j, (hj, ej)) = map-get_elem? (λ k. k.1) sorted r (p, i) place in
            let same : k ≡ j = ground (arith, hk, hj) in
            let whole : k ≡ (c, (p, i)) =
              ap (λ x. (x, k.1)) ek ∙ ap (λ y. (c, y)) (ap (λ x. x.1) same ∙ ej) in
            let placed =
              All-get_elem? (Placed cells 0) sorted r k
                (sort_by-All low_cell (Placed cells 0) ks
                  (keyed-Placed 0 cells (omega (arith, few)) small))
                hk in
            let own : Placed cells 0 (c, (p, i)) = rw whole at placed in
            let z : p - 0 ≡ p = omega arith in rw z at own.1;
        rows = λ p i c at.
            let (r, h) =
              sort_by-In low_cell (c, (p, i)) ks
                (let z : 0 + p ≡ p = omega arith in
                  rw z at (keyed-In 0 p i c cells (omega (arith, few)) small at)) in
            (
              r,
              (
                get_elem?-map (λ k. k.0) sorted r (c, (p, i)) h,
                get_elem?-map (λ k. k.1) sorted r (c, (p, i)) h,
              ),
            );
      }
