-- ===== src/Regions/Decided.antt =====
-- What `Boxes::classify` of src/rust/src/grid_proj.rs decides for a point known to within a margin holds of
-- the exact point.
use a5px.Prelude.{
  ◌≡◌, refl, sym, ◌∙◌, arith, List, [], ◌∷◌, Bool, true, false, not, ◌&&◌, ◌||◌, Option, none, some,
  Bool-cases, inl, inr,
}
use a5px.Float.{F64}
use a5px.Stats.{any}
use a5px.Regions.{
  Box, past_max, in_bbox, surely_in, surely_out, bbox_classify, is_none, decide_box, classify_boxes,
  wrap_lon, holds_point, classify_point,
}

-- Laws of the order, all of which hold of `f64`.
pub record IsFloatOrder (A : Type 0) ⦃f : F64 A⦄ : Type 0 where
  pub le_le : (a b c : A) → f.le a b ≡ true → f.le b c ≡ true → f.le a c ≡ true
  pub lt_le : (a b c : A) → f.lt a b ≡ true → f.le b c ≡ true → f.lt a c ≡ true
  pub le_lt : (a b c : A) → f.le a b ≡ true → f.lt b c ≡ true → f.lt a c ≡ true
  pub lt_not_le : (a b : A) → f.lt a b ≡ true → f.le b a ≡ false

decide_box-in :
    (said rest : Option Bool) (undecided v p q : Bool)
    → ((w : Bool) → said ≡ some w → p ≡ w)
    → ((w : Bool) → rest ≡ some w → (q ≡ w) × ((undecided || is_none said) ≡ true → w ≡ true))
    → decide_box said rest ≡ some v
    → ((p || q) ≡ v) × (undecided ≡ true → v ≡ true)
decide_box-in (some true) rest undecided v p q own later h =
    let e : true ≡ v = ground (arith, h) in
    let here = own true refl in (rw (here, ← e) refl, λ u. sym e)
decide_box-in (some false) rest undecided v p q own later h =
    let here = own false refl in
    let (same, sure) = later v h in (rw (here, same) refl, λ u. sure (rw u refl))
decide_box-in none rest undecided v p q own later h =
    let (same, sure) = later v h in
    let e : v ≡ true = sure (either undecided) in (ground (arith, same, e), λ u. e)
  where
    either : (u : Bool) → (u || true) ≡ true
    either true = refl
    either false = refl

module _ {A : Type 0} ⦃f : F64 A⦄ where
  -- A value within a margin of another.
  pub record Near (v margin e : A) : Type 0 where
    pub low : f.le (f.sub v margin) e ≡ true
    pub high : f.le e (f.add v margin) ≡ true

  module _ (o : IsFloatOrder A) where
    past_max-up :
        (v w hi globe : A)
        → f.le v w ≡ true
        → past_max v hi globe ≡ true
        → past_max w hi globe ≡ true
    past_max-up v w hi globe h p = elim (Bool-cases (f.le globe hi)) [
      | inl edge ↦ rw edge (o.lt_le hi v w (rw edge at p) h)
      | inr inner ↦ rw inner (o.le_le hi v w (rw inner at p) h)
    ]

    past_max-down :
        (v w hi globe : A)
        → f.le v w ≡ true
        → past_max w hi globe ≡ false
        → past_max v hi globe ≡ false
    past_max-down v w hi globe h p = elim (Bool-cases (past_max v hi globe)) [
      | inl past ↦ absurd (ground (arith, past_max-up v w hi globe h past, p))
      | inr within ↦ within
    ]

    some_out :
        (a b c d w s e n : Bool)
        → (a || b || c || d) ≡ true
        → (a ≡ true → w ≡ false)
        → (b ≡ true → s ≡ false)
        → (c ≡ true → e ≡ true)
        → (d ≡ true → n ≡ true)
        → (w && s && not e && not n) ≡ false
    some_out a b c d w s e n h p q r u = ground (arith, h, p, q, r, u)

    surely_in-in_bbox :
        (lon lat margin elon elat : A) (b : Box A)
        → Near lon margin elon
        → Near lat margin elat
        → surely_in lon lat margin b ≡ true
        → in_bbox elon elat b ≡ true
    surely_in-in_bbox lon lat margin elon elat b x y h =
        let west : f.le b.xmin elon ≡ true =
          o.le_le b.xmin (f.sub lon margin) elon (ground (arith, h)) x.low in
        let south : f.le b.ymin elat ≡ true =
          o.le_le b.ymin (f.sub lat margin) elat (ground (arith, h)) y.low in
        let east : past_max elon b.xmax (f.of_size 180) ≡ false =
          past_max-down elon (f.add lon margin) b.xmax (f.of_size 180) x.high (ground (arith, h)) in
        let north : past_max elat b.ymax (f.of_size 90) ≡ false =
          past_max-down elat (f.add lat margin) b.ymax (f.of_size 90) y.high (ground (arith, h)) in
        rw (west, south, east, north) refl

    surely_out-in_bbox :
        (lon lat margin elon elat : A) (b : Box A)
        → Near lon margin elon
        → Near lat margin elat
        → surely_out lon lat margin b ≡ true
        → in_bbox elon elat b ≡ false
    surely_out-in_bbox lon lat margin elon elat b x y h =
        let west : f.lt (f.add lon margin) b.xmin ≡ true → f.le b.xmin elon ≡ false =
          λ p. o.lt_not_le elon b.xmin (o.le_lt elon (f.add lon margin) b.xmin x.high p) in
        let south : f.lt (f.add lat margin) b.ymin ≡ true → f.le b.ymin elat ≡ false =
          λ p. o.lt_not_le elat b.ymin (o.le_lt elat (f.add lat margin) b.ymin y.high p) in
        let east = past_max-up (f.sub lon margin) elon b.xmax (f.of_size 180) x.low in
        let north = past_max-up (f.sub lat margin) elat b.ymax (f.of_size 90) y.low in
        some_out (f.lt (f.add lon margin) b.xmin) (f.lt (f.add lat margin) b.ymin)
          (past_max (f.sub lon margin) b.xmax (f.of_size 180))
          (past_max (f.sub lat margin) b.ymax (f.of_size 90)) (f.le b.xmin elon) (f.le b.ymin elat)
          (past_max elon b.xmax (f.of_size 180)) (past_max elat b.ymax (f.of_size 90)) h west south
          east north

    bbox_classify-in_bbox :
        (lon lat margin elon elat : A) (b : Box A) (v : Bool)
        → Near lon margin elon
        → Near lat margin elat
        → bbox_classify lon lat margin b ≡ some v
        → in_bbox elon elat b ≡ v
    unfolding bbox_classify
    bbox_classify-in_bbox lon lat margin elon elat b v x y h =
        elim (Bool-cases (surely_in lon lat margin b)) [
          | inl inside ↦
              let own : some true ≡ some v = rw inside at h in
              let e : true ≡ v = ground (arith, own) in
              surely_in-in_bbox lon lat margin elon elat b x y inside ∙ e
          | inr unsure ↦ elim (Bool-cases (surely_out lon lat margin b)) [
            | inl outside ↦
                let own : some false ≡ some v = rw (unsure, outside) at h in
                let e : false ≡ v = ground (arith, own) in
                surely_out-in_bbox lon lat margin elon elat b x y outside ∙ e
            | inr neither ↦
                let own : none ≡ some v = rw (unsure, neither) at h in absurd (ground (arith, own))
          ]
        ]

    -- Once a box left it undecided, only a box that has the point decides.
    classify_boxes-in :
        (lon lat margin elon elat : A) (undecided v : Bool) (boxes : List (Box A))
        → Near lon margin elon
        → Near lat margin elat
        → classify_boxes lon lat margin undecided boxes ≡ some v
        → (any (λ b. in_bbox elon elat b) boxes ≡ v) × (undecided ≡ true → v ≡ true)
    unfolding classify_boxes
    classify_boxes-in lon lat margin elon elat true v [] x y h = absurd (ground (arith, h))
    classify_boxes-in lon lat margin elon elat false v [] x y h =
        (ground (arith, h), λ p. absurd (ground (arith, p)))
    classify_boxes-in lon lat margin elon elat undecided v (b ∷ boxes) x y h =
        let said = bbox_classify lon lat margin b in
        let rest = classify_boxes lon lat margin (undecided || is_none said) boxes in
        decide_box-in said rest undecided v (in_bbox elon elat b)
          (any (λ b. in_bbox elon elat b) boxes)
          (λ w e. bbox_classify-in_bbox lon lat margin elon elat b w x y e)
          (λ w e.
            classify_boxes-in lon lat margin elon elat (undecided || is_none said) w boxes x y e)
          h

    module _ (rem_euclid : A → A → A) where
      -- What is decided for a point known to within a margin holds of every point within it, the longitudes
      -- wrapped.
      pub classify_point-holds_point :
          (boxes : List (Box A)) (lon lat margin elon elat : A) (v : Bool)
          → Near (wrap_lon rem_euclid lon) margin (wrap_lon rem_euclid elon)
          → Near lat margin elat
          → classify_point rem_euclid boxes lon lat margin ≡ some v
          → holds_point rem_euclid boxes elon elat ≡ v
      unfolding classify_point holds_point
      classify_point-holds_point boxes lon lat margin elon elat v x y h =
          let at = wrap_lon rem_euclid lon in
          let edge =
            f.le (f.of_size 180) (f.add at margin)
            || f.lt (f.sub at margin) (f.neg (f.of_size 180)) in
          elim (Bool-cases edge) [
            | inl near_edge ↦
                let none_said : none ≡ some v = rw near_edge at h in
                absurd (ground (arith, none_said))
            | inr away ↦
                (classify_boxes-in at lat margin (wrap_lon rem_euclid elon) elat false v boxes x y
                  (rw away at h)).0
          ]
