-- ===== src/Store.antt =====
-- `CellStore` of src/rust/src/read.rs: the accumulators of a set of cells. Slabs are lists indexed
-- `slot * n_out + band`; a read out of bounds, where the code would panic, gives a default here.
pub mod Weights
pub mod Merge
pub mod Shape
use a5px.Prelude.{
  ℕ, ◌+◌, ◌*◌, ◌%◌, ◌^◌, List, [], ◌∷◌, ◌++◌, Bool, true, false, not, ◌&&◌, ◌||◌, Option, none,
  some, if◌then◌else◌, length, replicate, get_or, modify, foldl, Result, ok, err, ◌>>=◌, ℕ_discrete,
}
use a5px.Prelude.Map.{find, put}
use a5px.Prelude.Int.{ℤ}
use a5px.Float.{F64}
use a5px.Stats.{Error, Stat, count, majority, AccCfg}
use a5px.Layouts.{AccLayout}
use a5px.Classes.{ClassWeights, cat_push, majority_and_weight, finalise_majority}

pub record CellStore (A L : Type 0) : Type 0 where
  pub n_out : ℕ
  pub cfg : AccCfg
  -- cell id to slot
  pub index : List (ℕ × ℕ)
  pub cells : List ℕ
  pub cont : List L
  pub cat : List (ClassWeights A)
  pub npix : List A
  -- the weight that a cell's bands share, and those of cells whose bands differ
  pub bw : List A
  pub split : List (ℕ × List A)

abbrev pub same_bool : Bool → Bool → Bool
same_bool true b = b
same_bool false b = not b

abbrev pub all_same : Bool → List Bool → Bool
all_same v [] = true
all_same v (x ∷ xs) = same_bool x v && all_same v xs

module _ {A : Type 0} ⦃f : F64 A⦄ where
  -- `iter_mut().zip(w).for_each(|(x, &d)| *x += d)`
  abbrev pub add_each : List A → List A → List A
  add_each [] ds = []
  add_each (x ∷ xs) [] = x ∷ xs
  add_each (x ∷ xs) (d ∷ ds) = f.add x d ∷ add_each xs ds

  -- the same with one weight, where `valid` is set
  abbrev pub add_where : A → List A → List Bool → List A
  add_where w [] vs = []
  add_where w (x ∷ xs) [] = x ∷ xs
  add_where w (x ∷ xs) (v ∷ vs) = (if v then f.add x w else x) ∷ add_where w xs vs

  abbrev pub all_eq : A → List A → Bool
  all_eq w [] = true
  all_eq w (x ∷ xs) = f.eq x w && all_eq w xs

  -- `e[slots[b]] += theirs[b]`, from band `b` on.
  abbrev pub add_mapped : (ℕ → A) → ℕ → List ℕ → List A → List A
  add_mapped theirs b [] e = e
  add_mapped theirs b (col ∷ slots) e =
      add_mapped theirs (b + 1) slots (modify e col (λ x. f.add x (theirs b)))

  -- `x += theirs(b)` for every band, from band `b` on.
  abbrev pub add_bands : (ℕ → A) → ℕ → List A → List A
  add_bands theirs b [] = []
  add_bands theirs b (x ∷ xs) = f.add x (theirs b) ∷ add_bands theirs (b + 1) xs

  -- A `cat_push` at one index of a slab.
  abbrev pub cat_push_at : List (ClassWeights A) → ℕ → ℤ → A → Result Error (List (ClassWeights A))
  cat_push_at cat i c w = cat_push (get_or cat i []) c w >>= λ m. ok (modify cat i (λ _. m))

  abbrev pub cat_push_all :
      List (ClassWeights A) → ℕ → ClassWeights A → Result Error (List (ClassWeights A))
  cat_push_all cat i [] = ok cat
  cat_push_all cat i ((c, w) ∷ m) = cat_push_at cat i c w >>= λ cat'. cat_push_all cat' i m

module _ {A L : Type 0} ⦃f : F64 A⦄ ⦃l : AccLayout A L⦄ where
  unfoldable pub empty_store : ℕ → AccCfg → CellStore A L
  empty_store n_out cfg = record {
    n_out = n_out;
    cfg = cfg;
    index = [];
    cells = [];
    cont = [];
    cat = [];
    npix = [];
    bw = [];
    split = [];
  }

  -- Whether this store keeps band weights per cell.
  abbrev pub shared : CellStore A L → Bool
  shared s = l.shared_w && s.cfg.has_cont

  -- `slot` of a cell that is not in the store.
  add_cell : CellStore A L → ℕ → CellStore A L × ℕ
  add_cell s cell =
      let i = length s.cells % 2 ^ 32 in
      (
        record s {
          index = put ℕ_discrete cell i s.index;
          cells = s.cells ++ (cell ∷ []);
          cont = if s.cfg.has_cont then s.cont ++ replicate s.n_out l.fresh else s.cont;
          cat = if s.cfg.has_cat then s.cat ++ replicate s.n_out [] else s.cat;
          npix = if s.cfg.has_npix then s.npix ++ (f.naught ∷ []) else s.npix;
          bw = if shared s then s.bw ++ (f.naught ∷ []) else s.bw;
        },
        i,
      )

  -- Slot of `cell`, adding it if new.
  unfoldable pub slot : CellStore A L → ℕ → CellStore A L × ℕ
  unfolding add_cell
  slot s cell = elim (find ℕ_discrete cell s.index) [ some i ↦ (s, i) | none ↦ add_cell s cell ]

  -- The per-band weights of `slot`: its own, or copies of the shared weight.
  abbrev pub split_weights : CellStore A L → ℕ → List A
  split_weights s i = elim (find ℕ_discrete i s.split) [
    | some e ↦ e
    | none ↦ replicate s.n_out (get_or s.bw i f.naught)
  ]

  abbrev pub is_split : CellStore A L → ℕ → Bool
  is_split s i = elim (find ℕ_discrete i s.split) [ some e ↦ true | none ↦ false ]

  -- Equal weights go to the cell's one weight, and a cell whose bands differ is split.
  unfoldable pub add_band_weights : CellStore A L → ℕ → List A → CellStore A L
  add_band_weights s i [] = s
  add_band_weights s i (w ∷ ws) =
      let own : CellStore A L = record s {
        split = put ℕ_discrete i (add_each (split_weights s i) (w ∷ ws)) s.split;
      } in
      if not (shared s)
      then s
      else if is_split s i
      then own
      else if all_eq w (w ∷ ws)
      then record s { bw = modify s.bw i (λ x. f.add x w) }
      else own

  -- One pixel of weight `w`, valid in the bands where `valid` is set.
  unfoldable pub add_pixel_weight : CellStore A L → ℕ → A → List Bool → CellStore A L
  add_pixel_weight s i w [] = s
  add_pixel_weight s i w (v ∷ vs) =
      let own : CellStore A L = record s {
        split = put ℕ_discrete i (add_where w (split_weights s i) (v ∷ vs)) s.split;
      } in
      if not (shared s) || f.le w f.naught
      then s
      else if is_split s i
      then own
      else if all_same v (v ∷ vs)
      then (if v then record s { bw = modify s.bw i (λ x. f.add x w) } else s)
      else own

  -- Band `b`'s weight in local cell `i`.
  unfoldable pub shared_weight : CellStore A L → ℕ → ℕ → A
  shared_weight s i b = elim (find ℕ_discrete i s.split) [
    | some e ↦ get_or e b f.naught
    | none ↦ get_or s.bw i f.naught
  ]

  -- The weights of cell `i` of `other` into slot `s`; `slots` maps its bands to columns.
  unfoldable pub merge_weights :
      CellStore A L → CellStore A L → ℕ → ℕ → Option (List ℕ) → CellStore A L
  unfolding shared_weight
  merge_weights self other i s none =
      if not (is_split other i) && not (is_split self s)
      then record self { bw = modify self.bw s (λ x. f.add x (get_or other.bw i f.naught)) }
      else record self {
        split =
            put ℕ_discrete s (add_bands (shared_weight other i) 0 (split_weights self s))
              self.split;
      }
  merge_weights self other i s (some slots) = record self {
    split =
        put ℕ_discrete s (add_mapped (shared_weight other i) 0 slots (split_weights self s))
          self.split;
  }

  unfoldable pub add_npix : CellStore A L → ℕ → A → CellStore A L
  add_npix s i w =
      if s.cfg.has_npix then record s { npix = modify s.npix i (λ x. f.add x w) } else s
