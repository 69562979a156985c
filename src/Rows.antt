-- ===== src/Rows.antt =====
-- A row of a tile in `process_tile` of src/rust/src/read.rs: the hints of its pixels, the sweep that
-- marks those with a valid band, and the runs of pixels in one slot.
pub mod Marks
pub mod Bounds
pub mod Runs
use a5px.Prelude.{
  ℕ, zero, suc, ◌+◌, ◌-◌, ◌*◌, ◌^◌, List, [], ◌∷◌, ◌++◌, Bool, true, false, not, ◌&&◌, ◌||◌, Option,
  none, some, if◌then◌else◌, ltb, leb, ◌==◌, get_elem?, get_or, set, modify, length, take, drop,
  replicate, min, Result, ok, err, u64_mod,
}
use a5px.Prelude.Int.{ℤ}
use a5px.Float.{F64}
use a5px.Stats.{Error, AccCfg, is_empty}
use a5px.Decode.{Decode, BandDecode, band, may_yield_nan}
use a5px.Pixels.{TypedArray, read_run_values, mark_valid}
use a5px.Layouts.{AccLayout}
use a5px.CellMask.{A5, CellMask, MaskCache, allows}
use a5px.Store.{CellStore, slot, shared, add_npix, add_band_weights, cat_push_at}

-- An error of the code, or a panic.
pub data Fault : Type 0 where
  failed : Error → Fault
  panic : Fault

infixl 5 ◌>>=◌
abbrev pub ◌>>=◌ : {A B : Type 0} → Result Fault A → (A → Result Fault B) → Result Fault B
ok a >>= g = g a
err e >>= g = err e

abbrev pub code : {A : Type 0} → Result Error A → Result Fault A
code (ok a) = ok a
code (err e) = err (failed e)

abbrev pub need : {A : Type 0} → Option A → Result Fault A
need (some a) = ok a
need none = err panic

abbrev pub no_cell : ℕ
no_cell = u64_mod - 1

abbrev pub no_slot : ℕ
no_slot = 2 ^ 32 - 1

-- The cells of the row above at `c` and, where there are such columns, `c + 1` to `c + 3` and `c - 1`.
abbrev pub hint : List ℕ → ℕ → ℕ
hint prev_row c = if ltb c (length prev_row) then get_or prev_row c no_cell else no_cell

unfoldable pub row_hints : List ℕ → ℕ → List ℕ
row_hints prev_row c =
    get_or prev_row c no_cell
    ∷ hint prev_row (c + 1)
    ∷ hint prev_row (c + 2)
    ∷ hint prev_row (c + 3)
    ∷ (if leb 1 c then get_or prev_row (c - 1) no_cell else no_cell)
    ∷ []

-- Pass 3's runs of columns in one slot, `(slot, start, end)`.
abbrev pub Run : Type 0
Run = ℕ × ℕ × ℕ

-- The inner loop, with `n` columns left: the first column from `c` on that is in another slot.
pub run_end : ℕ → ℕ → List ℕ → ℕ → ℕ
run_end zero c row_slot s = c
run_end (suc n) c row_slot s =
    let further = run_end n (c + 1) row_slot s in
    if get_or row_slot c no_slot == s then further else c

-- The outer loop from column `c` of `w` on; the first number is fuel.
pub runs_from : ℕ → ℕ → ℕ → List ℕ → List Run
runs_from zero c w row_slot = []
runs_from (suc n) c w row_slot =
    let s = get_or row_slot c no_slot in
    let end = run_end (w - c) c row_slot s in
    let skipped = runs_from n (c + 1) w row_slot in
    let found = runs_from n end w row_slot in
    if not (ltb c w) then [] else if s == no_slot then skipped else (s, c, end) ∷ found

unfoldable pub runs_of : ℕ → List ℕ → List Run
unfolding runs_from run_end
runs_of w row_slot = runs_from w 0 w row_slot

module _ {A : Type 0} ⦃f : F64 A⦄ where
  -- Pass 1's sweep over the bands, each with the start of its row and its decode, until every one of
  -- the `n` pixels is valid.
  unfoldable pub mark_bands :
      TypedArray A
      → ℕ
      → ℕ
      → Option A
      → ℕ
      → List (ℕ × Option (BandDecode A))
      → List Bool
      → Option (List Bool)
  unfolding mark_valid
  mark_bands v stride n nodata n_valid [] valid = some valid
  mark_bands v stride n nodata n_valid ((base, d) ∷ bands) valid =
      elim (mark_valid v base stride n nodata d valid) [
        | none ↦ none
        | some (k, valid') ↦
            let rest = mark_bands v stride n nodata (n_valid + k) bands valid' in
            if n_valid + k == n then some valid' else rest
      ]

-- `any_valid.iter_mut().zip(row)`: `*v &= ok`.
abbrev pub and_each : List Bool → List Bool → List Bool
and_each [] row = []
and_each (v ∷ vs) [] = v ∷ vs
and_each (v ∷ vs) (ok_here ∷ row) = (v && ok_here) ∷ and_each vs row
