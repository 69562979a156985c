-- ===== src/Arguments.antt =====
-- Arguments from R, checked, in src/rust/src/read.rs.
use Prim.Native.String.{String}
use a5px.Prelude.{
  ℕ, List, [], ◌∷◌, Bool, not, Option, none, some, if◌then◌else◌, leb, ◌==◌, length, zip, Result,
  ok, err,
}
use a5px.Prelude.Int.{ℤ, pos, negsuc}
use a5px.Stats.{Error, invalid}

unfoldable pub meta_pairs : List String → List String → Result Error (List (String × String))
meta_pairs keys values =
    if not (length keys == length values) then err invalid else ok (zip keys values)

unfoldable pub parse_src_nodata_arg : {A : Type 0} → List A → Result Error (Option A)
parse_src_nodata_arg [] = ok none
parse_src_nodata_arg (x ∷ []) = ok (some x)
parse_src_nodata_arg (x ∷ y ∷ v) = err invalid

pub record OverlayParams (A : Type 0) : Type 0 where
  pub subsamples : ℕ
  pub cell_edge_m : A

abbrev pub overlay_of : {A : Type 0} → ℤ → A → Result Error (Option (OverlayParams A))
overlay_of (pos n) edge =
    if leb n 64 then ok (some (record { subsamples = n; cell_edge_m = edge })) else err invalid
overlay_of (negsuc n) edge = err invalid

unfoldable pub parse_overlay_args :
    {A : Type 0} → Bool → ℤ → A → Result Error (Option (OverlayParams A))
parse_overlay_args overlay subsamples cell_edge_m =
    if not overlay then ok none else overlay_of subsamples cell_edge_m
