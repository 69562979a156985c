-- ===== src/Bands/Plan.antt =====
-- `plan_bands` of src/rust/src/sources.rs: which bands each source reads, and into which columns. An
-- opened source is what the function reads of it. An index out of range is a panic.

pub mod Columns
pub mod Pooled
use Prim.Native.String.{String, ◌++◌ as str_append}
use text.Mathlib.Text.{◌==◌ as str_eq}
use a5px.Prelude.{
  ℕ, zero, suc, ◌+◌, ◌-◌, List, [], ◌∷◌, ◌++◌, Bool, true, false, not, ◌&&◌, ◌||◌, if◌then◌else◌,
  ◌==◌, get_elem?, length, map, modify, replicate, Result, ok, err,
}
use a5px.Prelude.Int.{ℤ}
use a5px.Stats.{Error, invalid, any}
use a5px.Rows.{Fault, failed, panic, ◌>>=◌, code, need}
use a5px.Bands.{SourceSpec, each_from, resolve_selection}

pub record OpenedSource : Type 0 where
  pub spec : SourceSpec
  pub n_bands : ℕ
  pub band_names : List String

pub record BandPlan : Type 0 where
  pub selected : List (List ℕ)
  pub slots : List (List ℕ)
  pub names : List String

abbrev pub same_names : List String → List String → Bool
same_names [] [] = true
same_names [] (y ∷ ys) = false
same_names (x ∷ xs) [] = false
same_names (x ∷ xs) (y ∷ ys) = str_eq x y && same_names xs ys

-- A band of the combined list: its source, its place in the source, and its output name.
abbrev pub Combined : Type 0
Combined = ℕ × ℕ × String

-- The output name of band `b` of a source.
abbrev pub output_name : OpenedSource → ℕ → Result Fault String
output_name src b =
    if src.n_bands == 1
    then ok src.spec.label
    else (need (get_elem? src.band_names b) >>= λ d.
        ok (str_append src.spec.label (str_append "_" d)))

-- The `n` bands of source `s` from `b` on.
pub combined_bands : ℕ → OpenedSource → ℕ → ℕ → Result Fault (List Combined)
combined_bands s src zero b = ok []
combined_bands s src (suc n) b = output_name src b >>= λ name.
    combined_bands s src n (b + 1) >>= λ rest. ok ((s, b, name) ∷ rest)

-- The bands of all sources from source `s` on.
unfoldable pub combine : ℕ → List OpenedSource → Result Fault (List Combined)
unfolding combined_bands
combine s [] = ok []
combine s (src ∷ sources) = combined_bands s src src.n_bands 0 >>= λ bands.
    combine (s + 1) sources >>= λ rest. ok (bands ++ rest)

-- Whether a name comes again after the names `seen`.
abbrev pub repeats : List String → List String → Bool
repeats seen [] = false
repeats seen (x ∷ names) = any (str_eq x) seen || repeats (x ∷ seen) names

-- The loop over the selection, from column `out` on.
unfoldable pub spread : List Combined → ℕ → List ℕ → BandPlan → Result Fault BandPlan
spread combined out [] plan = ok plan
spread combined out (k ∷ sel) plan = need (get_elem? combined k) >>= λ band.
    spread combined (out + 1) sel (record {
      selected = modify plan.selected band.0 (λ bands. bands ++ (band.1 ∷ []));
      slots = modify plan.slots band.0 (λ columns. columns ++ (out ∷ []));
      names = plan.names ++ (band.2 ∷ []);
    })

-- `first.band_names[b]` of each selected band.
abbrev pub selected_names : List String → List ℕ → Result Fault (List String)
selected_names all [] = ok []
selected_names all (b ∷ sel) =
    need (get_elem? all b) >>= λ name. selected_names all sel >>= λ names. ok (name ∷ names)

abbrev pub differs_from : OpenedSource → OpenedSource → Bool
differs_from first s = not (same_names s.band_names first.band_names)

unfoldable pub plan_pooled : List OpenedSource → List ℤ → List String → Result Fault BandPlan
plan_pooled [] bands_idx bands_names = err panic
plan_pooled (first ∷ others) bands_idx bands_names =
    if any (differs_from first) others
    then err (failed invalid)
    else (code (resolve_selection first.band_names bands_idx bands_names) >>= λ sel.
        selected_names first.band_names sel >>= λ names. ok (record {
          selected = replicate (length (first ∷ others)) sel;
          slots = replicate (length (first ∷ others)) (each_from 0 (length sel));
          names = names;
        }))

unfoldable pub plan_separate : List OpenedSource → List ℤ → List String → Result Fault BandPlan
unfolding combine spread
plan_separate sources bands_idx bands_names = combine 0 sources >>= λ combined.
    let names = map (λ band. band.2) combined in
    if repeats [] names
    then err (failed invalid)
    else (code (resolve_selection names bands_idx bands_names) >>= λ sel.
        spread combined 0 sel (record {
          selected = replicate (length sources) [];
          slots = replicate (length sources) [];
          names = [];
        }))

unfoldable pub plan_bands : List OpenedSource → Bool → List ℤ → List String → Result Fault BandPlan
unfolding plan_pooled plan_separate
plan_bands sources separate bands_idx bands_names =
    if separate
    then plan_separate sources bands_idx bands_names
    else plan_pooled sources bands_idx bands_names
