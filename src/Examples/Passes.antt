-- ===== src/Examples/Passes.antt =====
-- The passes of a tile at concrete inputs.
use a5px.Prelude.{
  ℕ, ◌+◌, ◌*◌, ◌≡◌, refl, List, [], ◌∷◌, true, false, none, some, arith, ok, get_or, ℕ_discrete,
  ◌==◌, if◌then◌else◌, ℕ_discrete,
}
use a5px.Prelude.Int.{pos}
use a5px.Examples.Numbers.{small}
use a5px.Layouts.{AccMean, acc_mean, run_sum}
use a5px.Prelude.Map.{put}
use a5px.Store.{CellStore, add_band_weights}
use a5px.Rows.{Run}
use a5px.CellMask.{A5}
use a5px.Parts.{PartitionedStore, new_parts, absorb}
use a5px.Tiles.{planar, TileCtx, TileData, Geometry, strides}
use a5px.Tiles.Places.{strides-apart}
use a5px.Tiles.Stripe.{process_tile}
use a5px.Tiles.Stripe.Returns.{IsWhole}
use a5px.Tiles.Stripe.Whole.{process_tile-returns}
use a5px.Pixels.{TypedArray}
use a5px.Tiles.Push.{push_row}
use a5px.Tiles.Push.Pass.{push_row-pushes}
use a5px.Tiles.Push.Runs.{pushes}
use a5px.Tiles.Push.Adds.{run_values}

passes : Unit {0}
unfolding strides new_parts absorb push_row run_sum ℕ_discrete put add_band_weights
passes = tt

-- A tile of two rows of four pixels in two planes; 9 is nodata.
abbrev pub ctx : TileCtx ℕ
ctx = record {
  width = 4;
  height = 2;
  tile_w = 4;
  tile_h = 2;
  planar = planar;
  resolution = pos 8;
  nodata = some 9;
  dequant = none;
  mask = none;
  cfg = record { has_cont = true; has_cat = false; has_npix = false };
  slots = none;
}

abbrev pub tile : TileData ℕ
tile = record {
  tx = 0;
  ty = 0;
  values = TypedArray.uint8 (9 ∷ 3 ∷ 9 ∷ 1 ∷ 4 ∷ 5 ∷ 6 ∷ 7 ∷ 2 ∷ 2 ∷ 2 ∷ 2 ∷ 8 ∷ 9 ∷ 8 ∷ 1 ∷ []);
  data_n_bands = 2;
  band_offsets = 0 ∷ 1 ∷ [];
  mask = none;
}

-- Two cells, two bands.
abbrev pub store : CellStore ℕ (AccMean ℕ)
store = record {
  n_out = 2;
  cfg = record { has_cont = true; has_cat = false; has_npix = false };
  index = (70, 0) ∷ (80, 1) ∷ [];
  cells = 70 ∷ 80 ∷ [];
  cont =
      record { total = 100 }
      ∷ record { total = 200 }
      ∷ record { total = 300 }
      ∷ record { total = 400 }
      ∷ [];
  cat = [];
  npix = [];
  bw = 0 ∷ 0 ∷ [];
  split = [];
}

-- Row 1: column 0 in slot 0, column 1 in slot 1.
abbrev runs : List Run
runs = (0, 0, 1) ∷ (1, 1, 2) ∷ []

abbrev pushed : CellStore ℕ (AccMean ℕ)
pushed = record store {
  cont =
      record { total = 104 }
      ∷ record { total = 208 }
      ∷ record { total = 305 }
      ∷ record { total = 400 }
      ∷ [];
  bw = 1 ∷ 0 ∷ [];
  split = (1, 1 ∷ 0 ∷ []) ∷ [];
}

row_pushed : push_row ctx tile (4, 1, 8) 1 runs store ≡ ok pushed
unfolding passes
row_pushed = refl

abbrev untouched : AccMean ℕ
untouched = record { total = 0 }

push_row-pushes_example :
    get_or pushed.cont 1 untouched
    ≡ pushes (run_values ctx tile.values 1 (1 * 4 + 1 * 8) 1) 0 runs (get_or store.cont 1 untouched)
push_row-pushes_example =
    push_row-pushes ctx tile 4 1 8 1 runs store pushed 0 1 untouched row_pushed refl (omega arith)
      (omega arith) (omega arith)

abbrev geometry : Geometry Unit
geometry = record {
  locator = tt;
  inside = λ r c. ok true;
  locate = λ s r c hints. (tt, if c == 0 then 70 else 80);
}

abbrev pub a5 : A5
a5 = record { get_resolution = λ c. pos 8; cell_to_parent = λ c r. none }

abbrev parts : PartitionedStore ℕ (AccMean ℕ)
parts = record { parts = store ∷ []; log2p = 0 }

laid : strides ctx 2 ≡ ok (4, 1, 8)
unfolding passes
laid = refl

tile-IsWhole : IsWhole ctx tile
tile-IsWhole = record {
  sized = omega arith;
  banded = (omega arith, (omega arith, tt));
  masked = λ m e. absurd (ground (arith, e));
}

process_tile-returns_example :
    (parts' : PartitionedStore ℕ (AccMean ℕ)) × (process_tile a5 ctx tile
        (λ x y w h. ok geometry)
        (0, 2)
        parts
      ≡ ok parts')
process_tile-returns_example =
    process_tile-returns a5 ctx tile (λ x y w h. ok geometry) (0, 2) (4, 1, 8) parts tile-IsWhole
      laid (λ x y w h. (geometry, refl, λ r c. (true, refl))) refl (refl, tt)

abbrev row : ℕ
row = 1

abbrev column : ℕ
column = 3

abbrev first : ℕ
first = 0

strides-apart_example : (row ≡ row) × (column ≡ column) × (first ≡ first)
strides-apart_example =
    strides-apart ctx 2 (4, 1, 8) row column first row column first laid
      (omega arith, omega arith, omega arith) (omega arith, omega arith, omega arith) refl
