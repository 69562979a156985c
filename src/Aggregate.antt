-- ===== src/Aggregate.antt =====
-- `Aggregate` of src/rust/src/read.rs: a finished read, its rows, and its output. The thread pool is not
-- modelled: the chunks that it takes are written in turn.
pub mod Rows
pub mod Writes
pub mod Shares
pub mod Composed
use Prim.Native.String.{String}
use a5px.Prelude.{
  ℕ, zero, suc, ◌+◌, ◌-◌, ◌*◌, ◌%◌, ◌^◌, List, [], ◌∷◌, ◌++◌, Bool, true, false, not, Option, none,
  some, if◌then◌else◌, ltb, leb, ◌==◌, length, take, drop, replicate, get_or, set, modify, map,
}
use a5px.Prelude.Sort.{sort_by}
use a5px.Prelude.Int.{ℤ, pos, negsuc, ltb_ℤ}
use a5px.Float.{F64}
use a5px.Stats.{Stat, AccCfg, as_str}
use a5px.Layouts.{AccLayout}
use a5px.Classes.{ClassWeights}
use a5px.Store.{CellStore, empty_store}
use a5px.Store.Merge.{value}

-- A cell with its partition and its index there.
abbrev pub Keyed : Type 0
Keyed = ℕ × (ℕ × ℕ)

abbrev pub low_cell : Keyed → Keyed → Bool
low_cell a b = leb a.0 b.0

-- The cells of partition `pi`, from index `i` on.
abbrev pub keyed_part : ℕ → ℕ → List ℕ → List Keyed
keyed_part pi i [] = []
keyed_part pi i (c ∷ cells) = (c, (pi % 2 ^ 32, i % 2 ^ 32)) ∷ keyed_part pi (i + 1) cells

abbrev pub keyed : ℕ → List (List ℕ) → List Keyed
keyed pi [] = []
keyed pi (cells ∷ parts) = keyed_part pi 0 cells ++ keyed (pi + 1) parts

pub record Aggregate (A L : Type 0) : Type 0 where
  pub parts : List (CellStore A L)
  -- ascending by id
  pub cells : List ℕ
  -- the partition of each cell, and its index in it
  pub order : List (ℕ × ℕ)
  pub n_out : ℕ
  pub band_names : List String
  pub stats : List Stat
  pub fractions : Bool
  pub has_npix : Bool

-- Class shares, one entry per band; the offsets of a band delimit the cells' slices.
pub record FracOut (A : Type 0) : Type 0 where
  pub classes : List (List ℤ)
  pub shares : List (List A)
  pub offsets : List (List ℤ)

pub record Output (A : Type 0) : Type 0 where
  pub cells : List ℕ
  -- one list per stat; cell `i`, band `b` at `i * n_bands + b`
  pub flat_values : List (List A)
  pub n_bands : ℕ
  pub band_names : List String
  pub stats : List String
  pub fractions : Option (FracOut A)
  pub npix : Option (List A)

-- `out[base + b] = v(b)` for the `n` bands from `b` on.
abbrev pub write_bands : {T : Type 0} → ℕ → ℕ → ℕ → (ℕ → T) → List T → List T
write_bands base b zero v out = out
write_bands base b (suc n) v out = write_bands base (b + 1) n v (set out (base + b) (v b))

module _ {T : Type 0} (width : ℕ) (v : ℕ × ℕ → ℕ → T) where
  -- The closure `fill`: the rows of one chunk, from its row `k` on.
  abbrev pub fill_rows : ℕ → List (ℕ × ℕ) → List T → List T
  fill_rows k [] out = out
  fill_rows k (o ∷ order) out = fill_rows (k + 1) order (write_bands (k * width) 0 width (v o) out)

  -- `order.chunks(chunk).zip(out.chunks_mut(chunk * width)).for_each(fill)`
  pub fill_chunks : ℕ → ℕ → List (ℕ × ℕ) → List T → List T
  fill_chunks zero chunk order out = out
  fill_chunks (suc n) chunk [] out = out
  fill_chunks (suc n) chunk (o ∷ order) out =
      fill_rows 0 (take chunk (o ∷ order)) (take (chunk * width) out)
      ++ fill_chunks n chunk (drop chunk (o ∷ order)) (drop (chunk * width) out)

abbrev pub flat_chunk : ℕ
flat_chunk = 4096

abbrev pub column_chunk : ℕ
column_chunk = 2048

-- `as i32`
abbrev pub as_i32 : ℕ → ℤ
as_i32 n = if ltb (n % 2 ^ 32) (2 ^ 31) then pos (n % 2 ^ 32) else negsuc (2 ^ 32 - n % 2 ^ 32 - 1)

module _ {A : Type 0} ⦃f : F64 A⦄ where
  abbrev pub low_class : ℤ × A → ℤ × A → Bool
  low_class a b = not (ltb_ℤ b.0 a.0)

  abbrev pub sorted_classes : ClassWeights A → ClassWeights A
  sorted_classes m = sort_by low_class m

  abbrev pub total_weight : ClassWeights A → A
  total_weight m = f.sum_of (map (λ e. e.1) m)

  -- The classes of a cell with weight, and their shares of it.
  abbrev pub shown : ClassWeights A → ClassWeights A
  shown m = if f.lt f.naught (total_weight m) then m else []

  -- One cell's classes of band `b`.
  abbrev pub push_shares : FracOut A → ℕ → ClassWeights A → FracOut A
  push_shares fr b m =
      let tot = total_weight (sorted_classes m) in
      let new = shown (sorted_classes m) in
      let classes = modify fr.classes b (λ cs. cs ++ map (λ e. e.0) new) in
      record {
        classes = classes;
        shares = modify fr.shares b (λ ws. ws ++ map (λ e. f.div e.1 tot) new);
        offsets = modify fr.offsets b (λ os. os ++ (as_i32 (length (get_or classes b [])) ∷ []));
      }

  -- The `n` bands from `b` on.
  abbrev pub push_cell_shares : (ℕ → ClassWeights A) → ℕ → ℕ → FracOut A → FracOut A
  push_cell_shares m b zero fr = fr
  push_cell_shares m b (suc n) fr = push_cell_shares m (b + 1) n (push_shares fr b (m b))

  unfoldable pub push_all_shares :
      (ℕ × ℕ → ℕ → ClassWeights A) → ℕ → List (ℕ × ℕ) → FracOut A → FracOut A
  push_all_shares m n_out [] fr = fr
  push_all_shares m n_out (o ∷ order) fr =
      push_all_shares m n_out order (push_cell_shares (m o) 0 n_out fr)

  abbrev pub no_shares : ℕ → FracOut A
  no_shares n_out = record {
    classes = replicate n_out [];
    shares = replicate n_out [];
    offsets = replicate n_out (pos 0 ∷ []);
  }

module _ {A L : Type 0} ⦃f : F64 A⦄ ⦃l : AccLayout A L⦄ where
  unfoldable pub from_parts :
      List (CellStore A L) → ℕ → List String → List Stat → Bool → Bool → Aggregate A L
  from_parts parts n_out band_names stats fractions has_npix =
      let sorted = sort_by low_cell (keyed 0 (map (λ p. p.cells) parts)) in
      record {
        parts = parts;
        cells = map (λ k. k.0) sorted;
        order = map (λ k. k.1) sorted;
        n_out = n_out;
        band_names = band_names;
        stats = stats;
        fractions = fractions;
        has_npix = has_npix;
      }

  unfoldable pub empty_aggregate : List String → ℕ → List Stat → Bool → AccCfg → Aggregate A L
  unfolding from_parts
  empty_aggregate band_names n_out stats fractions cfg =
      from_parts [] n_out band_names stats fractions cfg.has_npix

  -- `self.parts[p]`
  abbrev pub part_at : List (CellStore A L) → ℕ → CellStore A L
  part_at parts p =
      get_or parts p
        (empty_store 0 (record { has_cont = false; has_cat = false; has_npix = false }))

  abbrev pub npix_at : Aggregate A L → ℕ × ℕ → A
  npix_at self (p, i) = get_or (part_at self.parts p).npix i f.naught

  -- Pixel weights in output order, when requested.
  unfoldable pub npix : Aggregate A L → Option (List A)
  npix self = if not self.has_npix then none else some (map (npix_at self) self.order)

  abbrev pub cell_value : Aggregate A L → Stat → ℕ × ℕ → ℕ → A
  cell_value self stat (p, i) b = value (part_at self.parts p) stat i b

  abbrev pub classes_at : Aggregate A L → ℕ × ℕ → ℕ → ClassWeights A
  classes_at self (p, i) b = get_or (part_at self.parts p).cat (i * self.n_out + b) []

  -- `stat` for every cell and band, cell by cell, in output order.
  unfoldable pub flat_into : Aggregate A L → Stat → List A → List A
  unfolding fill_chunks value
  flat_into self stat out =
      if self.n_out == 0
      then out
      else fill_chunks self.n_out (cell_value self stat) (length self.order) flat_chunk self.order
          out

  -- `stat` of every band, each in a column of its own, converted by `conv`.
  abbrev pub column_into : {T : Type 0} → Aggregate A L → Stat → (A → T) → ℕ → List T
  column_into self stat conv b =
      fill_chunks 1 (λ o z. conv (cell_value self stat o b)) (length self.order) column_chunk
        self.order (replicate (length self.cells) (conv f.naught))

  abbrev pub columns_from : {T : Type 0} → Aggregate A L → Stat → (A → T) → ℕ → ℕ → List (List T)
  columns_from self stat conv b zero = []
  columns_from self stat conv b (suc n) =
      column_into self stat conv b ∷ columns_from self stat conv (b + 1) n

  unfoldable pub columns_into : {T : Type 0} → Aggregate A L → Stat → (A → T) → List (List T)
  columns_into self stat conv = columns_from self stat conv 0 self.n_out

  -- The aggregate as the output that R reads.
  unfoldable pub into_output : Aggregate A L → Output A
  unfolding flat_into npix push_all_shares
  into_output self = record {
    cells = self.cells;
    flat_values =
        map (λ s. flat_into self s (replicate (length self.cells * self.n_out) f.naught))
          self.stats;
    n_bands = self.n_out;
    band_names = self.band_names;
    stats = map as_str self.stats;
    fractions =
        if self.fractions
        then some (push_all_shares (classes_at self) self.n_out self.order (no_shares self.n_out))
        else none;
    npix = npix self;
  }
