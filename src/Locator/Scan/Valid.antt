-- ===== src/Locator/Scan/Valid.antt =====
-- The caches of `CellLocator` of src/rust/src/locator.rs hold what they were built from, within their
-- limits, and the last cell is one of the resolution.
use a5px.Prelude.{
  ℕ, ◌+◌, ◌≤◌, ◌<◌, ◌≡◌, ◌⊎◌, refl, sym, ◌∙◌, ap, arith, List, [], ◌∷◌, Option, none, some, leb,
  length, All, ℕ_discrete, Option-cases, Bool-cases, inl, inr,
}
use a5px.Prelude.Map.{find, put, find-put}
use a5px.Prelude.Int.{ℤ}
use a5px.Float.{F64}
use a5px.Rows.{no_cell}
use a5px.Locator.{A5Library, CellGeom, build}
use a5px.Locator.Scan.{
  CellLocator, geom_cache_max, kids_cache_max, with_room, keep_geom, recall_geom, geom, new_locator,
  build_all, keep_kids, recall_kids, children,
}

length-put :
    {V : Type 0} (k : ℕ) (v : V) (m : List (ℕ × V)) → length (put ℕ_discrete k v m) ≤ length m + 1
length-put k v [] = omega arith
length-put k v ((j, w) ∷ m) = ground (arith, length-put k v m)

pub length-put_found :
    {V : Type 0} (k : ℕ) (v w : V) (m : List (ℕ × V))
    → find ℕ_discrete k m ≡ some w
    → length (put ℕ_discrete k v m) ≡ length m
length-put_found k v w [] h = absurd (ground (arith, h))
length-put_found k v w ((j, x) ∷ m) h = ground (arith, h, length-put_found k v w m)

-- After a write: the entry written, or an old one.
pub find-put_or :
    {V : Type 0} (k q : ℕ) (v w : V) (m : List (ℕ × V))
    → find ℕ_discrete q (put ℕ_discrete k v m) ≡ some w
    → ((k ≡ q) × (v ≡ w)) ⊎ (find ℕ_discrete q m ≡ some w)
find-put_or k q v w m h = ground (arith, h, find-put ℕ_discrete k q v m)

-- The room made in a cache.
with_room-length :
    {V : Type 0} (limit : ℕ) (m : List (ℕ × V)) → 0 < limit → length (with_room limit m) + 1 ≤ limit
with_room-length limit m pos = ground arith

with_room-find :
    {V : Type 0} (limit k : ℕ) (v : V) (m : List (ℕ × V))
    → find ℕ_discrete k (with_room limit m) ≡ some v
    → find ℕ_discrete k m ≡ some v
with_room-find limit k v m h = elim (Bool-cases (leb limit (length m))) [
  | inl full ↦ absurd (ground (arith, rw full at h))
  | inr room ↦ rw room at h
]

module _ {S A : Type 0} ⦃f : F64 A⦄ (a5 : A5Library S A) (AtRes : ℕ → Type 0) where
  -- A cell's geometry as built, of the resolution.
  abbrev pub IsKid : CellGeom A → Type 0
  IsKid g = (build a5 g.id ≡ some g) × AtRes g.id

  pub record IsLocator (resolution : ℤ) (l : CellLocator A) : Type 0 where
    pub at : l.resolution ≡ resolution
    pub built :
        (id : ℕ) (g : CellGeom A) → find ℕ_discrete id l.geoms ≡ some g → build a5 id ≡ some g
    pub all_kids : (p : ℕ) (v : List (CellGeom A)) → find ℕ_discrete p l.kids ≡ some v → All IsKid v
    pub last_at : (l.last ≡ no_cell) ⊎ AtRes l.last
    pub few_geoms : length l.geoms ≤ geom_cache_max
    pub few_kids : length l.kids ≤ kids_cache_max

  pub new_locator-IsLocator :
      (resolution : ℤ) (px : A) → IsLocator resolution (new_locator a5 resolution px)
  unfolding new_locator
  new_locator-IsLocator resolution px = record {
    at = refl;
    built = λ id g h. absurd (ground (arith, h));
    all_kids = λ p v h. absurd (ground (arith, h));
    last_at = inl refl;
    few_geoms = omega arith;
    few_kids = omega arith;
  }

  build-id : (id : ℕ) (g : CellGeom A) → build a5 id ≡ some g → g.id ≡ id
  unfolding build
  build-id id g h = ground (arith, h)

  build_all-IsKid : (ids : List ℕ) → All AtRes ids → All IsKid (build_all a5 ids)
  build_all-IsKid [] h = tt
  build_all-IsKid (id ∷ ids) (here, there) = elim (Option-cases (build a5 id)) [
    | inl bad ↦ rw bad (build_all-IsKid ids there)
    | inr (g, built) ↦
        let e : g.id ≡ id = build-id id g built in
        let kid : IsKid g = (ap (λ i. build a5 i) e ∙ built, rw e here) in
        rw built (kid, build_all-IsKid ids there)
  ]

  module _ (resolution : ℤ) where
    keep_geom-IsLocator :
        (l : CellLocator A) (id : ℕ) (made : Option (CellGeom A))
        → IsLocator resolution l
        → build a5 id ≡ made
        → IsLocator resolution (keep_geom l id made).0 × ((keep_geom l id made).1 ≡ made)
    keep_geom-IsLocator l id none v e = (
      record {
        at = v.at;
        built = λ k g h. v.built k g (with_room-find geom_cache_max k g l.geoms h);
        all_kids = v.all_kids;
        last_at = v.last_at;
        few_geoms = omega (arith, with_room-length geom_cache_max l.geoms (omega arith));
        few_kids = v.few_kids;
      },
      refl,
    )
    keep_geom-IsLocator l id (some g) v e =
        let room = with_room geom_cache_max l.geoms in
        (
          record {
            at = v.at;
            built = λ k h found. elim (find-put_or id k g h room found) [
              | inl (same, this) ↦ rw (← same, ← this) e
              | inr old ↦ v.built k h (with_room-find geom_cache_max k h l.geoms old)
            ];
            all_kids = v.all_kids;
            last_at = v.last_at;
            few_geoms = omega (
              arith,
              with_room-length geom_cache_max l.geoms (omega arith),
              length-put id g room,
            );
            few_kids = v.few_kids;
          },
          refl,
        )

    recall_geom-IsLocator :
        (l : CellLocator A) (id : ℕ) (memo : Option (CellGeom A))
        → IsLocator resolution l
        → find ℕ_discrete id l.geoms ≡ memo
        → IsLocator resolution (recall_geom a5 l id memo).0
          × ((recall_geom a5 l id memo).1 ≡ build a5 id)
    recall_geom-IsLocator l id (some g) v e = (v, sym (v.built id g e))
    recall_geom-IsLocator l id none v e = keep_geom-IsLocator l id (build a5 id) v refl

    pub geom-IsLocator :
        (l : CellLocator A) (id : ℕ)
        → IsLocator resolution l
        → IsLocator resolution (geom a5 l id).0 × ((geom a5 l id).1 ≡ build a5 id)
    unfolding geom
    geom-IsLocator l id v = recall_geom-IsLocator l id (find ℕ_discrete id l.geoms) v refl

    keep_kids-IsLocator :
        (l : CellLocator A) (parent : ℕ) (ids : Option (List ℕ))
        → IsLocator resolution l
        → ((cells : List ℕ) → ids ≡ some cells → All AtRes cells)
        → IsLocator resolution (keep_kids a5 l parent ids).0
    keep_kids-IsLocator l parent none v at = record {
      at = v.at;
      built = v.built;
      all_kids = λ p w h. v.all_kids p w (with_room-find kids_cache_max p w l.kids h);
      last_at = v.last_at;
      few_geoms = v.few_geoms;
      few_kids = omega (arith, with_room-length kids_cache_max l.kids (omega arith));
    }
    keep_kids-IsLocator l parent (some ids) v at =
        let room = with_room kids_cache_max l.kids in
        let kids = build_all a5 ids in
        record {
          at = v.at;
          built = v.built;
          all_kids = λ p w h. elim (find-put_or parent p kids w room h) [
            | inl (same, this) ↦ rw (← this) (build_all-IsKid ids (at ids refl))
            | inr old ↦ v.all_kids p w (with_room-find kids_cache_max p w l.kids old)
          ];
          last_at = v.last_at;
          few_geoms = v.few_geoms;
          few_kids = omega (
            arith,
            with_room-length kids_cache_max l.kids (omega arith),
            length-put parent kids room,
          );
        }

    -- What `children` returns is cached, and every one of it is a cell's geometry of the resolution.
    abbrev pub HasKids : CellLocator A → ℕ → Option (List (CellGeom A)) → Type 0
    HasKids l parent none = Unit
    HasKids l parent (some v) = All IsKid v × (find ℕ_discrete parent l.kids ≡ some v)

    keep_kids-HasKids :
        (l : CellLocator A) (parent : ℕ) (ids : Option (List ℕ))
        → ((cells : List ℕ) → ids ≡ some cells → All AtRes cells)
        → HasKids (keep_kids a5 l parent ids).0 parent (keep_kids a5 l parent ids).1
    keep_kids-HasKids l parent none at = tt
    keep_kids-HasKids l parent (some ids) at =
        let kids = build_all a5 ids in
        let room = with_room kids_cache_max l.kids in
        (
          build_all-IsKid ids (at ids refl),
          ground (arith, find-put ℕ_discrete parent parent kids room),
        )

    recall_kids-IsLocator :
        (l : CellLocator A) (parent : ℕ) (memo : Option (List (CellGeom A)))
        → IsLocator resolution l
        → ((p : ℕ) (ids : List ℕ) → a5.cell_to_children p resolution ≡ some ids → All AtRes ids)
        → find ℕ_discrete parent l.kids ≡ memo
        → IsLocator resolution (recall_kids a5 l parent memo).0
          × HasKids (recall_kids a5 l parent memo).0 parent (recall_kids a5 l parent memo).1
    recall_kids-IsLocator l parent (some v) valid kids e = (valid, (valid.all_kids parent v e, e))
    recall_kids-IsLocator l parent none valid kids e =
        let made = a5.cell_to_children parent l.resolution in
        let all : (cells : List ℕ) → made ≡ some cells → All AtRes cells =
          λ cells h. kids parent cells (rw valid.at at h) in
        (keep_kids-IsLocator l parent made valid all, keep_kids-HasKids l parent made all)

    pub children-IsLocator :
        (l : CellLocator A) (parent : ℕ)
        → IsLocator resolution l
        → ((p : ℕ) (ids : List ℕ) → a5.cell_to_children p resolution ≡ some ids → All AtRes ids)
        → IsLocator resolution (children a5 l parent).0
          × HasKids (children a5 l parent).0 parent (children a5 l parent).1
    unfolding children
    children-IsLocator l parent valid kids =
        recall_kids-IsLocator l parent (find ℕ_discrete parent l.kids) valid kids refl
