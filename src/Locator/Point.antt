-- ===== src/Locator/Point.antt =====
-- `PointEval` of src/rust/src/locator.rs: one point, whose exact position is asked for at most once.
pub mod Margin
pub mod Sound
use a5px.Prelude.{ℕ, Bool, true, false, not, Option, none, some, if◌then◌else◌, ◌==◌}
use a5px.Float.{F64}
use a5px.Locator.{
  A5Library, ApproxFace, CellGeom, Side, in_cell, out_of_cell, ambiguous, contains, classify,
}

pub record PointEval (S A : Type 0) : Type 0 where
  pub approx : Option (ApproxFace A)
  -- what the closure `exact` returns
  pub exact : Option S
  pub sph : Option (Option S)
  -- `proj_origin` and `proj_face`, where `proj_valid`
  pub proj : Option (ℕ × (A × A))

abbrev pub new_point : {S A : Type 0} → Option (ApproxFace A) → Option S → PointEval S A
new_point approx exact = record { approx = approx; exact = exact; sph = none; proj = none }

-- `spherical`, given the memo.
abbrev pub recall : {S A : Type 0} → PointEval S A → Option (Option S) → PointEval S A × Option S
recall ev (some s) = (ev, s)
recall ev none = (record ev { sph = some ev.exact }, ev.exact)

abbrev pub spherical : {S A : Type 0} → PointEval S A → PointEval S A × Option S
spherical ev = recall ev ev.sph

module _ {S A : Type 0} (a5 : A5Library S A) where
  abbrev pub keep_face : PointEval S A → ℕ → Option (A × A) → PointEval S A × Option (A × A)
  keep_face ev origin none = (ev, none)
  keep_face ev origin (some p) = (record ev { proj = some (origin, p) }, some p)

  -- The exact position on the face of an origin.
  abbrev pub face_of : Option S → ℕ → Option (A × A)
  face_of none origin = none
  face_of (some s) origin = a5.forward s origin

  -- `exact_face` past the memo.
  abbrev pub project : PointEval S A → ℕ → PointEval S A × Option (A × A)
  project ev origin = keep_face (spherical ev).0 origin (face_of (spherical ev).1 origin)

  -- `exact_face`, given the memo.
  abbrev pub recall_face : PointEval S A → ℕ → Option (ℕ × (A × A)) → PointEval S A × Option (A × A)
  recall_face ev origin none = project ev origin
  recall_face ev origin (some (o, p)) =
      if not (o == origin) then project ev origin else (ev, some p)

  abbrev pub exact_face : PointEval S A → ℕ → PointEval S A × Option (A × A)
  exact_face ev origin = recall_face ev origin ev.proj

module _ {A : Type 0} ⦃f : F64 A⦄ where
  abbrev pub side : Option (ApproxFace A) → CellGeom A → Side
  side none g = ambiguous
  side (some a) g = if a.origin == g.origin then classify g a.face a.margin else ambiguous

  abbrev pub holds : CellGeom A → Option (A × A) → Bool
  holds g none = false
  holds g (some p) = contains g p

module _ {S A : Type 0} ⦃f : F64 A⦄ (a5 : A5Library S A) where
  abbrev pub decide : PointEval S A → CellGeom A → Side → PointEval S A × Bool
  decide ev g in_cell = (ev, true)
  decide ev g out_of_cell = (ev, false)
  decide ev g ambiguous = let (ev', face) = exact_face a5 ev g.origin in (ev', holds g face)

  unfoldable pub inside : PointEval S A → CellGeom A → PointEval S A × Bool
  unfolding contains classify
  inside ev g = decide ev g (side ev.approx g)
