-- ===== src/Locator/Point/Sound.antt =====
-- The test of a point against a cell in src/rust/src/locator.rs: with the margin, the memo of the exact
-- position and that of its projection, it says what the exact position says.
use a5px.Prelude.{
  ℕ, ◌≡◌, refl, sym, ap, arith, All, Bool, true, false, Option, none, some, ◌==◌, Bool-cases, inl,
  inr,
}
use a5px.Float.{F64}
use a5px.Locator.{
  A5Library, ApproxFace, CellGeom, Side, in_cell, out_of_cell, ambiguous, edges, classify, build,
}
use a5px.Locator.Point.Margin.{IsMetric, NearEdge, classify-contains}
use a5px.Locator.Point.{
  PointEval, recall, spherical, face_of, keep_face, project, recall_face, side, holds, decide,
  inside, new_point,
}

module _ {S A : Type 0} ⦃f : F64 A⦄ (a5 : A5Library S A) where
  -- Whether the exact position is in a cell.
  abbrev pub is_in : Option S → CellGeom A → Bool
  is_in exact g = holds g (face_of a5 exact g.origin)

  -- The margin of an approximate position bounds its error: it is on a face that the exact position is
  -- on too, and seen from the edges of the cells of that face, it is not further than the margin from it.
  abbrev pub IsSound : Option (ApproxFace A) → Option S → Type 0
  IsSound none exact = Unit
  IsSound (some a) exact =
      (p : A × A) × (face_of a5 exact a.origin ≡ some p)
      × ((id : ℕ) (g : CellGeom A)
          → build a5 id ≡ some g
          → a.origin ≡ g.origin
          → All (NearEdge a.margin a.face p) (edges g.verts))

  -- What the margin decides of a cell.
  record Decides (approx : Option (ApproxFace A)) (exact : Option S) (g : CellGeom A) : Type 0 where
    decided_in : side approx g ≡ in_cell → is_in exact g ≡ true
    decided_out : side approx g ≡ out_of_cell → is_in exact g ≡ false

  side-Decides :
      (approx : Option (ApproxFace A)) (exact : Option S) (id : ℕ) (g : CellGeom A)
      → IsMetric A
      → IsSound approx exact
      → build a5 id ≡ some g
      → Decides approx exact g
  unfolding classify
  side-Decides none exact id g laws sound built = record {
    decided_in = λ h. absurd (ground (arith, h));
    decided_out = λ h. absurd (ground (arith, h));
  }
  side-Decides (some a) exact id g laws (p, there, near) built =
      elim (Bool-cases (a.origin == g.origin)) [
        | inr other ↦ record {
          decided_in = λ h. absurd (ground (arith, rw other at h));
          decided_out = λ h. absurd (ground (arith, rw other at h));
        }
        | inl same ↦
            let e : a.origin ≡ g.origin = ground (arith, same) in
            let at_cell : face_of a5 exact g.origin ≡ some p = rw e at there in
            let (inner, outer) =
              classify-contains laws a5 id g a.margin a.face p built (near id g built e) in
            record {
              decided_in = λ h. rw at_cell (inner (rw same at h));
              decided_out = λ h. rw at_cell (outer (rw same at h));
            }
      ]

  pub record IsPoint (approx : Option (ApproxFace A)) (exact : Option S) (ev : PointEval S A)
      : Type 0 where
    pub same_approx : ev.approx ≡ approx
    pub same_exact : ev.exact ≡ exact
    pub asked : (s : Option S) → ev.sph ≡ some s → s ≡ exact
    pub projected : (o : ℕ) (p : A × A) → ev.proj ≡ some (o, p) → face_of a5 exact o ≡ some p

  module _ (approx : Option (ApproxFace A)) (exact : Option S) where
    pub new_point-IsPoint : IsPoint approx exact (new_point approx exact)
    new_point-IsPoint = record {
      same_approx = refl;
      same_exact = refl;
      asked = λ s h. absurd (ground (arith, h));
      projected = λ o p h. absurd (ground (arith, h));
    }

    recall-IsPoint :
        (ev : PointEval S A) (memo : Option (Option S))
        → ev.sph ≡ memo
        → IsPoint approx exact ev
        → IsPoint approx exact (recall ev memo).0 × ((recall ev memo).1 ≡ exact)
    recall-IsPoint ev (some s) there v = (v, v.asked s there)
    recall-IsPoint ev none fresh v = (
      record {
        same_approx = v.same_approx;
        same_exact = v.same_exact;
        asked = λ s h. ground (arith, h, v.same_exact);
        projected = v.projected;
      },
      v.same_exact,
    )

    pub spherical-IsPoint :
        (ev : PointEval S A)
        → IsPoint approx exact ev
        → IsPoint approx exact (spherical ev).0 × ((spherical ev).1 ≡ exact)
    spherical-IsPoint ev v = recall-IsPoint ev ev.sph refl v

    keep_face-IsPoint :
        (ev : PointEval S A) (origin : ℕ) (face : Option (A × A))
        → face_of a5 exact origin ≡ face
        → IsPoint approx exact ev
        → IsPoint approx exact (keep_face a5 ev origin face).0
          × ((keep_face a5 ev origin face).1 ≡ face_of a5 exact origin)
    keep_face-IsPoint ev origin none e v = (v, sym e)
    keep_face-IsPoint ev origin (some p) e v = (
      record {
        same_approx = v.same_approx;
        same_exact = v.same_exact;
        asked = v.asked;
        projected = λ o q h.
            let at : origin ≡ o = ground (arith, h) in
            let same : p ≡ q = ground (arith, h) in rw (← at, ← same) e;
      },
      sym e,
    )

    project-IsPoint :
        (ev : PointEval S A) (origin : ℕ)
        → IsPoint approx exact ev
        → IsPoint approx exact (project a5 ev origin).0
          × ((project a5 ev origin).1 ≡ face_of a5 exact origin)
    project-IsPoint ev origin v =
        let (w, same) = spherical-IsPoint ev v in
        keep_face-IsPoint (spherical ev).0 origin (face_of a5 (spherical ev).1 origin)
          (ap (λ s. face_of a5 s origin) (sym same)) w

    recall_face-IsPoint :
        (ev : PointEval S A) (origin : ℕ) (memo : Option (ℕ × (A × A)))
        → ev.proj ≡ memo
        → IsPoint approx exact ev
        → IsPoint approx exact (recall_face a5 ev origin memo).0
          × ((recall_face a5 ev origin memo).1 ≡ face_of a5 exact origin)
    recall_face-IsPoint ev origin none there v = project-IsPoint ev origin v
    recall_face-IsPoint ev origin (some (o, p)) there v = elim (Bool-cases (o == origin)) [
      | inr other ↦ rw other (project-IsPoint ev origin v)
      | inl same ↦
          let e : o ≡ origin = ground (arith, same) in
          rw same (v, sym (rw e at (v.projected o p there)))
    ]

    decide-IsPoint :
        (ev : PointEval S A) (g : CellGeom A) (which : Side)
        → Decides approx exact g
        → IsPoint approx exact ev
        → side approx g ≡ which
        → IsPoint approx exact (decide a5 ev g which).0 × ((decide a5 ev g which).1 ≡ is_in exact g)
    decide-IsPoint ev g in_cell decides v e = (v, sym (decides.decided_in e))
    decide-IsPoint ev g out_of_cell decides v e = (v, sym (decides.decided_out e))
    decide-IsPoint ev g ambiguous decides v e =
        let (w, same) = recall_face-IsPoint ev g.origin ev.proj refl v in
        (w, ap (λ face. holds g face) same)

    -- Past the margin and the memos, a cell has the point where it has the exact position.
    pub inside-is_in :
        (ev : PointEval S A) (id : ℕ) (g : CellGeom A)
        → IsMetric A
        → IsSound approx exact
        → IsPoint approx exact ev
        → build a5 id ≡ some g
        → IsPoint approx exact (inside a5 ev g).0 × ((inside a5 ev g).1 ≡ is_in exact g)
    unfolding inside
    inside-is_in ev id g laws sound v built =
        let decides = side-Decides approx exact id g laws sound built in
        decide-IsPoint ev g (side ev.approx g) decides v (ap (λ a. side a g) (sym v.same_approx))
