-- ===== src/Store/Weights.antt =====
-- The shared-weight layout: one weight per cell, or one per band where bands differ, is the same as
-- one weight per cell and band.
use a5px.Prelude.{
  ℕ, zero, suc, ◌+◌, ◌<◌, ◌≡◌, refl, sym, ◌∙◌, arith, List, [], ◌∷◌, Bool, true, false, not, ◌&&◌,
  none, some, if◌then◌else◌, length, get_or, modify, ◌==◌, ℕ_discrete, Option-cases, Bool-cases,
  inl, inr, get_or-modify_self, get_or-modify_ne, get_or-replicate, length-replicate,
}
use a5px.Prelude.Map.{find, put, find-put}
use a5px.Float.{F64}
use a5px.Layouts.{AccLayout}
use a5px.Store.{
  CellStore, shared, add_each, add_where, add_bands, all_eq, all_same, split_weights, is_split,
  add_band_weights, add_pixel_weight, shared_weight, merge_weights,
}

get_or-all_same :
    (v : Bool) (vs : List Bool) (b : ℕ)
    → all_same v vs ≡ true
    → b < length vs
    → get_or vs b false ≡ v
get_or-all_same v [] b h l = elim l [ ]
get_or-all_same v (x ∷ vs) zero h l = ground arith
get_or-all_same v (x ∷ vs) (suc b) h l = get_or-all_same v vs b (ground arith) (omega arith)

module _ {A : Type 0} ⦃f : F64 A⦄ where
  get_or-add_where :
      (w : A) (xs : List A) (vs : List Bool) (b : ℕ) (d : A)
      → length vs ≡ length xs
      → b < length xs
      → get_or (add_where w xs vs) b d
        ≡ (if get_or vs b false then f.add (get_or xs b d) w else get_or xs b d)
  get_or-add_where w [] vs b d h l = elim l [ ]
  get_or-add_where w (x ∷ xs) [] b d h l = absurd (omega arith)
  get_or-add_where w (x ∷ xs) (v ∷ vs) zero d h l = refl
  get_or-add_where w (x ∷ xs) (v ∷ vs) (suc b) d h l =
      get_or-add_where w xs vs b d (omega arith) (omega arith)

  get_or-add_each :
      (xs ds : List A) (b : ℕ) (d : A)
      → length ds ≡ length xs
      → b < length xs
      → get_or (add_each xs ds) b d ≡ f.add (get_or xs b d) (get_or ds b d)
  get_or-add_each [] ds b d h l = elim l [ ]
  get_or-add_each (x ∷ xs) [] b d h l = absurd (omega arith)
  get_or-add_each (x ∷ xs) (y ∷ ds) zero d h l = refl
  get_or-add_each (x ∷ xs) (y ∷ ds) (suc b) d h l =
      get_or-add_each xs ds b d (omega arith) (omega arith)

  get_or-add_bands :
      (g : ℕ → A) (k : ℕ) (xs : List A) (b : ℕ) (d : A)
      → b < length xs
      → get_or (add_bands g k xs) b d ≡ f.add (get_or xs b d) (g (k + b))
  get_or-add_bands g k [] b d h = elim h [ ]
  get_or-add_bands g k (x ∷ xs) zero d h = let e : k + 0 ≡ k = omega arith in rw e
  get_or-add_bands g k (x ∷ xs) (suc b) d h =
      let e : k + suc b ≡ k + 1 + b = omega arith in
      rw e (get_or-add_bands g (k + 1) xs b d (omega arith))

  -- Equal weights are one weight: `==` identifies values of one sign alone (not 0.0 and -0.0).
  abbrev pub EqSound : (A → Type 0) → Type 0
  EqSound Positive = (x y : A) → Positive x → Positive y → f.eq x y ≡ true → x ≡ y

  all_eq-get_or :
      (w : A) (ws : List A) (b : ℕ)
      → all_eq w ws ≡ true
      → b < length ws
      → f.eq (get_or ws b f.naught) w ≡ true
  all_eq-get_or w [] b h l = elim l [ ]
  all_eq-get_or w (x ∷ ws) zero h l = ground arith
  all_eq-get_or w (x ∷ ws) (suc b) h l = all_eq-get_or w ws b (ground arith) (omega arith)

module _ {A L : Type 0} ⦃f : F64 A⦄ ⦃l : AccLayout A L⦄ where
  -- The split cells have one weight per band.
  pub record IsWeighted (s : CellStore A L) : Type 0 where
    pub per_band : (i : ℕ) (e : List A) → find ℕ_discrete i s.split ≡ some e → length e ≡ s.n_out

  length-split_weights :
      (s : CellStore A L) (i : ℕ) → IsWeighted s → length (split_weights s i) ≡ s.n_out
  length-split_weights s i v = elim (Option-cases (find ℕ_discrete i s.split)) [
    | inl own ↦ ground (arith, own, length-replicate s.n_out (get_or s.bw i f.naught))
    | inr (e, has) ↦ ground (arith, has, v.per_band i e has)
  ]

  get_or-split_weights :
      (s : CellStore A L) (i b : ℕ)
      → b < s.n_out
      → get_or (split_weights s i) b f.naught ≡ shared_weight s i b
  unfolding shared_weight
  get_or-split_weights s i b h = elim (Option-cases (find ℕ_discrete i s.split)) [
    | inl own ↦ ground (arith, own, get_or-replicate s.n_out b (get_or s.bw i f.naught) f.naught h)
    | inr (e, has) ↦ ground (arith, has)
  ]

  -- A cell given weights of its own.
  shared_weight-put :
      (s : CellStore A L) (i j b : ℕ) (e : List A)
      → shared_weight (record s { split = put ℕ_discrete i e s.split }) j b
        ≡ (if i == j then get_or e b f.naught else shared_weight s j b)
  unfolding shared_weight
  shared_weight-put s i j b e = ground (arith, find-put ℕ_discrete i j e s.split)

  -- The shared weight of a cell that is not split.
  shared_weight-modify :
      (s : CellStore A L) (i j b : ℕ) (g : A → A)
      → i < length s.bw
      → find ℕ_discrete i s.split ≡ none
      → shared_weight (record s { bw = modify s.bw i g }) j b
        ≡ (if i == j then g (shared_weight s j b) else shared_weight s j b)
  unfolding shared_weight
  shared_weight-modify s i j b g h own = elim (ℕ_discrete i j) [
    | yes p ↦ ground (arith, get_or-modify_self s.bw i g f.naught h)
    | no p ↦ ground (arith, get_or-modify_ne s.bw i j g f.naught p)
  ]

  -- In a store with shared weights, where split cells have one weight per band, a pixel of positive
  -- weight adds it to its cell in the bands in which it is valid, and no other weight changes.
  pub add_pixel_weight_lem :
      (s : CellStore A L) (i : ℕ) (w : A) (valid : List Bool)
      → IsWeighted s
      → shared s ≡ true
      → i < length s.bw
      → f.le w f.naught ≡ false
      → length valid ≡ s.n_out
      → (j b : ℕ) → b < s.n_out
      → shared_weight (add_pixel_weight s i w valid) j b ≡ (
          if (i == j) && get_or valid b false
          then f.add (shared_weight s j b) w
          else shared_weight s j b)
  unfolding add_pixel_weight
  add_pixel_weight_lem s i w [] v sh h pos len j b lt = absurd (omega arith)
  add_pixel_weight_lem s i w (x ∷ vs) v sh h pos len j b lt =
      let size = length-split_weights s i v in
      let own =
        get_or-add_where w (split_weights s i) (x ∷ vs) b f.naught (len ∙ sym size) (omega arith) in
      let old = get_or-split_weights s i b lt in
      let new = shared_weight-put s i j b (add_where w (split_weights s i) (x ∷ vs)) in
      elim (Option-cases (find ℕ_discrete i s.split)) [
        | inr (e, has) ↦ ground (arith, own, old, new)
        | inl shares ↦ elim (Bool-cases (all_same x (x ∷ vs))) [
          | inr differ ↦ ground (arith, own, old, new)
          | inl same ↦ ground (
            arith,
            get_or-all_same x (x ∷ vs) b same (omega arith),
            shared_weight-modify s i j b (λ y. f.add y w) h shares,
          )
        ]
      ]

  -- In a store with shared weights, where split cells have one weight per band, a run's weights, one
  -- per band and of a kind on which `==` is sound, are added to their cell band by band, and no other
  -- weight changes.
  pub add_band_weights_lem :
      (Positive : A → Type 0) (sound : EqSound Positive) (s : CellStore A L) (i : ℕ) (ws : List A)
      → IsWeighted s
      → shared s ≡ true
      → i < length s.bw
      → ((b : ℕ) → b < length ws → Positive (get_or ws b f.naught))
      → length ws ≡ s.n_out
      → (j b : ℕ) → b < s.n_out
      → shared_weight (add_band_weights s i ws) j b ≡ (
          if i == j
          then f.add (shared_weight s j b) (get_or ws b f.naught)
          else shared_weight s j b)
  unfolding add_band_weights
  add_band_weights_lem Positive sound s i [] v sh h pos len j b lt = absurd (omega arith)
  add_band_weights_lem Positive sound s i (w ∷ ws) v sh h pos len j b lt =
      let size = length-split_weights s i v in
      let own =
        get_or-add_each (split_weights s i) (w ∷ ws) b f.naught (len ∙ sym size) (omega arith) in
      let old = get_or-split_weights s i b lt in
      let new = shared_weight-put s i j b (add_each (split_weights s i) (w ∷ ws)) in
      elim (Option-cases (find ℕ_discrete i s.split)) [
        | inr (e, has) ↦ ground (arith, own, old, new)
        | inl shares ↦ elim (Bool-cases (all_eq w (w ∷ ws))) [
          | inr differ ↦ ground (arith, own, old, new)
          | inl same ↦
              let each : get_or (w ∷ ws) b f.naught ≡ w =
                sound _ _ (pos b (omega arith)) (pos 0 (omega arith))
                  (all_eq-get_or w (w ∷ ws) b same (omega arith)) in
              ground (arith, each, shared_weight-modify s i j b (λ y. f.add y w) h shares)
        ]
      ]

  -- Where split cells have one weight per band, merging a cell of another store without a band map adds
  -- its weight in each band to this cell's, and no other weight changes.
  pub merge_weights_lem :
      (s other : CellStore A L) (k i : ℕ)
      → IsWeighted s
      → i < length s.bw
      → (j b : ℕ) → b < s.n_out
      → shared_weight (merge_weights s other k i none) j b ≡ (
          if i == j
          then f.add (shared_weight s j b) (shared_weight other k b)
          else shared_weight s j b)
  unfolding merge_weights
  merge_weights_lem s other k i v h j b lt =
      let size = length-split_weights s i v in
      let own =
        get_or-add_bands (shared_weight other k) 0 (split_weights s i) b f.naught (omega arith) in
      let old = get_or-split_weights s i b lt in
      let here : 0 + b ≡ b = omega arith in
      let own' : get_or (add_bands (shared_weight other k) 0 (split_weights s i)) b f.naught
          ≡ f.add (get_or (split_weights s i) b f.naught) (shared_weight other k b) =
        own ∙ rw here refl in
      let new =
        shared_weight-put s i j b (add_bands (shared_weight other k) 0 (split_weights s i)) in
      elim (Bool-cases (not (is_split other k) && not (is_split s i))) [
        | inr apart ↦ rw apart (new ∙ ground (arith, own', old))
        | inl both ↦ rw both (
            shared_weight-modify s i j b (λ x. f.add x (get_or other.bw k f.naught)) h
              (ground arith)
            ∙ ground arith)
      ]
