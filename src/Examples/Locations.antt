-- ===== src/Examples/Locations.antt =====
-- Runs of the locator of src/rust/src/locator.rs: two square cells beside each other on a face, and a
-- position that is known to within a margin.
use a5px.Prelude.{
  ℕ, ◌≡◌, ◌⊎◌, refl, arith, List, [], ◌∷◌, Option, none, some, if◌then◌else◌, ◌==◌, false, All,
  Bool-cases, ℕ_discrete, inl, inr,
}
use a5px.Prelude.Int.{ℤ, pos}
use a5px.Rows.{no_cell}
use a5px.Locator.{A5Library, ApproxFace, CellGeom, out_of_cell, build, classify, contains, edges}
use a5px.Locator.Point.Margin.{NearEdge}
use a5px.Locator.Point.Sound.{IsSound, is_in}
use a5px.Locator.Scan.{CellLocator, new_locator, locate}
use a5px.Locator.Scan.Valid.{IsLocator, new_locator-IsLocator}
use a5px.Locator.Scan.Exact.{searched, IsExact, locate-searched}
use a5px.Examples.Integers.{whole, whole-IsMetric}

abbrev left_square : List (ℤ × ℤ)
left_square = (pos 0, pos 0) ∷ (pos 0, pos 10) ∷ (pos 10, pos 10) ∷ (pos 10, pos 0) ∷ []

abbrev right_square : List (ℤ × ℤ)
right_square = (pos 10, pos 0) ∷ (pos 10, pos 10) ∷ (pos 20, pos 10) ∷ (pos 20, pos 0) ∷ []

-- The cells 6 and 7 of face 3, and a point that is its position on the face.
abbrev squares : A5Library (ℤ × ℤ) ℤ
squares = record {
  origin_of = λ id. some 3;
  pentagon =
      λ id. if id == 6 then some left_square else if id == 7 then some right_square else none;
  cell_to_children = λ p r. some (6 ∷ 7 ∷ []);
  cell_to_parent = λ c r. some 1;
  spherical_to_cell = λ s r. some 7;
  forward = λ s o. if o == 3 then some s else none;
  first_curve_resolution = pos 2;
}

abbrev IsSquare : ℕ → Type 0
IsSquare id = (id ≡ 6) ⊎ (id ≡ 7)

abbrev level : ℤ
level = pos 7

-- The approximate position, 1 off, where the margin is 1.5.
abbrev near : Option (ApproxFace ℤ)
near = some (record { origin = 3; face = (pos 13, pos 6); margin = pos 15 })

abbrev point : Option (ℤ × ℤ)
point = some (pos 13, pos 5)

abbrev Close : List (ℤ × ℤ) → Type 0
Close verts = All (NearEdge (pos 15) (pos 13, pos 6) (pos 13, pos 5)) (edges verts)

left-Close : Close left_square
left-Close = (
  record { number = refl; low = refl; high = refl; short = refl },
  (
    record { number = refl; low = refl; high = refl; short = refl },
    (
      record { number = refl; low = refl; high = refl; short = refl },
      (record { number = refl; low = refl; high = refl; short = refl }, tt),
    ),
  ),
)

right-Close : Close right_square
right-Close = (
  record { number = refl; low = refl; high = refl; short = refl },
  (
    record { number = refl; low = refl; high = refl; short = refl },
    (
      record { number = refl; low = refl; high = refl; short = refl },
      (record { number = refl; low = refl; high = refl; short = refl }, tt),
    ),
  ),
)

abbrev left : CellGeom ℤ
left = record {
  id = 6;
  origin = 3;
  verts = left_square;
  inv_len = pos 1 ∷ pos 1 ∷ pos 1 ∷ pos 1 ∷ [];
}

left_built : build squares 6 ≡ some left
unfolding build
left_built = refl

-- The margin decides that the point is not in the cell on the left.
left_out : classify left (pos 13, pos 6) (pos 15) ≡ out_of_cell
unfolding classify
left_out = refl

build-verts :
    (id : ℕ) (g : CellGeom ℤ)
    → build squares id ≡ some g
    → (g.verts ≡ left_square) ⊎ (g.verts ≡ right_square)
unfolding build
build-verts id g h = elim (Bool-cases (id == 6)) [
  | inl six ↦ inl (ground (arith, rw (six, build) at h))
  | inr other ↦ elim (Bool-cases (id == 7)) [
    | inl seven ↦ inr (ground (arith, rw (other, seven, build) at h))
    | inr neither ↦ absurd (ground (arith, rw (other, neither, build) at h))
  ]
]

near-IsSound : IsSound squares near point
near-IsSound = (
  (pos 13, pos 5),
  refl,
  λ id g built e. elim (build-verts id g built) [
    | inl at ↦ rw at left-Close
    | inr at ↦ rw at right-Close
  ],
)

-- The exact position is not in the cell on the left.
left_without : is_in squares point left ≡ false
unfolding contains
left_without = refl

squares-IsExact : IsExact squares IsSquare level near point
squares-IsExact = record {
  laws = whole-IsMetric;
  sound = near-IsSound;
  search_at = λ id h. inr (ground (arith, h));
  kids_at = λ p ids h.
      let e : (6 ∷ 7 ∷ []) ≡ ids = ground (arith, h) in rw (← e) (inl refl, (inr refl, tt));
  only = λ id g at b h. elim at [
    | inr seven ↦ ground (arith, seven)
    | inl six ↦
        let own : left ≡ g = ground (arith, left_built, rw six at b) in
        absurd (ground (arith, left_without, rw (← own) at h))
  ];
}

abbrev fresh : CellLocator ℤ
unfolding new_locator
fresh = new_locator squares level (pos 4)

abbrev hints : List ℕ
hints = 6 ∷ no_cell ∷ []

abbrev seven : ℕ
seven = 7

-- The hint misses, by the margin; a child of its parent has the point, by the margin too.
locate-searched_example :
    ((locate squares fresh near point hints).1 ≡ searched squares IsSquare level near point)
    × IsLocator squares IsSquare level (locate squares fresh near point hints).0
unfolding fresh new_locator
locate-searched_example =
    locate-searched squares IsSquare level near point fresh hints squares-IsExact
      (new_locator-IsLocator squares IsSquare level (pos 4)) (inr (inl refl), (inl refl, tt))

seven_located : (locate squares fresh near point hints).1 ≡ seven
unfolding locate fresh ℕ_discrete
seven_located = refl
