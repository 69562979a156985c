-- ===== src/Locator.antt =====
-- src/rust/src/locator.rs: from points to A5 cells in a scan of a raster. The a5 library is a parameter:
-- `S` is its spherical point, and a point of a face is its two coordinates.
pub mod Point
pub mod Scan
use a5px.Prelude.{
  ℕ, List, [], ◌∷◌, Bool, true, false, ◌||◌, ◌&&◌, not, Option, none, some, if◌then◌else◌, ltb,
  length, map,
}
use a5px.Prelude.Int.{ℤ}
use a5px.Float.{F64}

-- What the code uses of the a5 library; `none` is an error.
pub record A5Library (S A : Type 0) : Type 0 where
  -- `deserialize(id)?.origin_id`
  pub origin_of : ℕ → Option ℕ
  -- `get_pentagon` of a deserialized cell, as its vertices
  pub pentagon : ℕ → Option (List (A × A))
  pub cell_to_children : ℕ → ℤ → Option (List ℕ)
  pub cell_to_parent : ℕ → ℤ → Option ℕ
  pub spherical_to_cell : S → ℤ → Option ℕ
  -- `DodecahedronProjection::forward`
  pub forward : S → ℕ → Option (A × A)
  pub first_curve_resolution : ℤ

pub record ApproxFace (A : Type 0) : Type 0 where
  pub origin : ℕ
  pub face : A × A
  pub margin : A

-- `inv_len` is that of the edge from each vertex to the next.
pub record CellGeom (A : Type 0) : Type 0 where
  pub id : ℕ
  pub origin : ℕ
  pub verts : List (A × A)
  pub inv_len : List A

pub data Side : Type 0 where
  in_cell out_of_cell ambiguous : Side

-- Each vertex with the next; the last one's is `first`.
abbrev pub edges_to : {A : Type 0} → A × A → List (A × A) → List ((A × A) × (A × A))
edges_to first [] = []
edges_to first (v ∷ []) = (v, first) ∷ []
edges_to first (v ∷ w ∷ vs) = (v, w) ∷ edges_to first (w ∷ vs)

abbrev pub edges : {A : Type 0} → List (A × A) → List ((A × A) × (A × A))
edges [] = []
edges (v ∷ vs) = edges_to v (v ∷ vs)

module _ {A : Type 0} ⦃f : F64 A⦄ where
  abbrev pub squared : A → A
  squared x = f.mul x x

  abbrev pub inverse_length : (A × A) × (A × A) → A
  inverse_length (v, w) =
      let len = f.sqrt (f.add (squared (f.sub v.0 w.0)) (squared (f.sub v.1 w.1))) in
      if f.lt f.naught len then f.div f.unit len else f.naught

  -- The side of an edge that a point is on: not negative inside.
  abbrev pub cross : (A × A) × (A × A) → A × A → A
  cross (v, w) p =
      f.sub (f.mul (f.sub v.0 w.0) (f.sub p.1 v.1)) (f.mul (f.sub v.1 w.1) (f.sub p.0 v.0))

  abbrev pub inside_edges : List ((A × A) × (A × A)) → A × A → Bool
  inside_edges [] p = true
  inside_edges (e ∷ es) p = if f.lt (cross e p) f.naught then false else inside_edges es p

  unfoldable pub contains : CellGeom A → A × A → Bool
  contains g p = inside_edges (edges g.verts) p

  -- The loop of `classify`, over the edges left with their inverse lengths.
  pub classify_edges : List ((A × A) × (A × A)) → List A → A × A → A → A → Side
  classify_edges [] inv p margin min_d = if f.lt margin min_d then in_cell else ambiguous
  classify_edges (e ∷ es) [] p margin min_d = ambiguous
  classify_edges (e ∷ es) (i ∷ inv) p margin min_d =
      let d = f.mul (cross e p) i in
      let rest = classify_edges es inv p margin (if f.lt d min_d then d else min_d) in
      if f.lt d (f.neg margin) then out_of_cell else rest

  unfoldable pub classify : CellGeom A → A × A → A → Side
  unfolding classify_edges
  classify g p margin = classify_edges (edges g.verts) g.inv_len p margin f.infinity

  abbrev pub geom_of : ℕ → ℕ → List (A × A) → Option (CellGeom A)
  geom_of id origin vv =
      if ltb (length vv) 3 || ltb 5 (length vv)
      then none
      else some
          (record { id = id; origin = origin; verts = vv; inv_len = map inverse_length (edges vv) })

  -- `CellGeom::build`
  unfoldable pub build : {S : Type 0} → A5Library S A → ℕ → Option (CellGeom A)
  build a5 id = elim (a5.origin_of id) [
    | none ↦ none
    | some origin ↦ elim (a5.pentagon id) [ none ↦ none | some vv ↦ geom_of id origin vv ]
  ]
