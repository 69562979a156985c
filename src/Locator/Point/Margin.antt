-- ===== src/Locator/Point/Margin.antt =====
-- `CellGeom::classify` of src/rust/src/locator.rs against `CellGeom::contains`: what it decides of a
-- position known to within a margin.
use a5px.Prelude.{
  ℕ, ◌≡◌, refl, sym, ◌∙◌, arith, List, [], ◌∷◌, true, false, some, if◌then◌else◌, map, All,
  Bool-cases, inl, inr,
}
use a5px.Float.{F64}
use a5px.Locator.{
  A5Library, CellGeom, in_cell, out_of_cell, inverse_length, cross, edges, inside_edges, contains,
  classify_edges, classify, build,
}

-- Laws of the arithmetic, all of which hold of `f64`.
pub record IsMetric (A : Type 0) ⦃f : F64 A⦄ : Type 0 where
  pub lt_lt : (a b c : A) → f.lt a b ≡ true → f.lt b c ≡ true → f.lt a c ≡ true
  pub le_lt : (a b c : A) → f.le a b ≡ true → f.lt b c ≡ true → f.lt a c ≡ true
  -- a number that is not below `b` is above what is
  pub not_lt :
      (a b c : A) → f.is_nan c ≡ false → f.lt a b ≡ true → f.lt c b ≡ false → f.lt a c ≡ true
  pub lt_sub : (m d : A) → f.lt m d ≡ true → f.lt (f.sub d m) f.naught ≡ false
  pub lt_add : (m d : A) → f.lt d (f.neg m) ≡ true → f.lt (f.add d m) f.naught ≡ true
  pub lt_mul : (c i : A) → f.le f.unit i ≡ true → f.lt (f.mul c i) f.naught ≡ f.lt c f.naught

module _ {A : Type 0} ⦃f : F64 A⦄ where
  -- The signed distance of a position from an edge's line, positive inside.
  abbrev pub distance : (A × A) × (A × A) → A × A → A
  distance e p = f.mul (cross e p) (inverse_length e)

  -- Seen from an edge no longer than 1, `q`, whose distance from it is a number, is not further than
  -- the margin from `p`.
  pub record NearEdge (margin : A) (q p : A × A) (e : (A × A) × (A × A)) : Type 0 where
    pub number : f.is_nan (distance e q) ≡ false
    pub low : f.le (f.sub (distance e q) margin) (distance e p) ≡ true
    pub high : f.le (distance e p) (f.add (distance e q) margin) ≡ true
    pub short : f.le f.unit (inverse_length e) ≡ true

  module _ (laws : IsMetric A) (margin : A) (q p : A × A) where
    -- More than the margin inside of an edge, and more than the margin outside.
    past_edge-in :
        (e : (A × A) × (A × A))
        → NearEdge margin q p e
        → f.lt margin (distance e q) ≡ true
        → f.lt (cross e p) f.naught ≡ false
    past_edge-in e near h = elim (Bool-cases (f.lt (distance e p) f.naught)) [
      | inr inner ↦ sym (laws.lt_mul (cross e p) (inverse_length e) near.short) ∙ inner
      | inl outer ↦
          let low = laws.lt_sub margin (distance e q) h in
          let below =
            laws.le_lt (f.sub (distance e q) margin) (distance e p) f.naught near.low outer in
          absurd (ground (arith, low, below))
    ]

    past_edge-out :
        (e : (A × A) × (A × A))
        → NearEdge margin q p e
        → f.lt (distance e q) (f.neg margin) ≡ true
        → f.lt (cross e p) f.naught ≡ true
    past_edge-out e near h =
        sym (laws.lt_mul (cross e p) (inverse_length e) near.short)
        ∙ laws.le_lt (distance e p) (f.add (distance e q) margin) f.naught near.high
            (laws.lt_add margin (distance e q) h)

    classify_edges-in :
        (es : List ((A × A) × (A × A))) (min_d : A)
        → All (NearEdge margin q p) es
        → classify_edges es (map inverse_length es) q margin min_d ≡ in_cell
        → (f.lt margin min_d ≡ true) × (inside_edges es p ≡ true)
    unfolding classify_edges
    classify_edges-in [] min_d near h = (ground (arith, h), refl)
    classify_edges-in (e ∷ es) min_d (here, there) h =
        elim (Bool-cases (f.lt (distance e q) (f.neg margin))) [
          | inl outer ↦ absurd (ground (arith, rw outer at h))
          | inr within ↦ elim (Bool-cases (f.lt (distance e q) min_d)) [
            | inl nearer ↦
                let (far, rest) =
                  classify_edges-in es (distance e q) there (rw (within, nearer) at h) in
                (
                  laws.lt_lt margin (distance e q) min_d far nearer,
                  rw (past_edge-in e here far) rest,
                )
            | inr further ↦
                let (far, rest) = classify_edges-in es min_d there (rw (within, further) at h) in
                let past = laws.not_lt margin min_d (distance e q) here.number far further in
                (far, rw (past_edge-in e here past) rest)
          ]
        ]

    classify_edges-out :
        (es : List ((A × A) × (A × A))) (min_d : A)
        → All (NearEdge margin q p) es
        → classify_edges es (map inverse_length es) q margin min_d ≡ out_of_cell
        → inside_edges es p ≡ false
    unfolding classify_edges
    classify_edges-out [] min_d near h = elim (Bool-cases (f.lt margin min_d)) [
      | inl far ↦ absurd (ground (arith, rw far at h))
      | inr close ↦ absurd (ground (arith, rw close at h))
    ]
    classify_edges-out (e ∷ es) min_d (here, there) h =
        elim (Bool-cases (f.lt (distance e q) (f.neg margin))) [
          | inl outer ↦ rw (past_edge-out e here outer) refl
          | inr within ↦
              let next = if f.lt (distance e q) min_d then distance e q else min_d in
              let rest = classify_edges-out es next there (rw within at h) in
              elim (Bool-cases (f.lt (cross e p) f.naught)) [
                | inl past ↦ rw past refl
                | inr inner ↦ rw inner rest
              ]
        ]

  build-inv_len :
      {S : Type 0} (a5 : A5Library S A) (id : ℕ) (g : CellGeom A)
      → build a5 id ≡ some g
      → g.inv_len ≡ map inverse_length (edges g.verts)
  unfolding build
  build-inv_len a5 id g h = ground (arith, h)

  -- A position that `classify` finds in a cell or out of it has every position in it or out of it that
  -- is within the margin of it.
  pub classify-contains :
      {S : Type 0} (laws : IsMetric A) (a5 : A5Library S A) (id : ℕ) (g : CellGeom A) (margin : A)
      (q p : A × A)
      → build a5 id ≡ some g
      → All (NearEdge margin q p) (edges g.verts)
      → (classify g q margin ≡ in_cell → contains g p ≡ true)
        × (classify g q margin ≡ out_of_cell → contains g p ≡ false)
  unfolding contains classify
  classify-contains laws a5 id g margin q p built near =
      let es = edges g.verts in
      let same = build-inv_len a5 id g built in
      let inner : classify_edges es g.inv_len q margin f.infinity ≡ in_cell
          → inside_edges es p ≡ true =
        λ h. (classify_edges-in laws margin q p es f.infinity near (rw same at h)).1 in
      let outer : classify_edges es g.inv_len q margin f.infinity ≡ out_of_cell
          → inside_edges es p ≡ false =
        λ h. classify_edges-out laws margin q p es f.infinity near (rw same at h) in
      (inner, outer)
