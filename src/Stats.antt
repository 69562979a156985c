-- ===== src/Stats.antt =====
-- The statistics of src/rust/src/read.rs: `Stat`, `parse_stats`, `AccCfg` and the choice of an
-- accumulator layout; the errors of src/rust/src/error.rs, without their messages.
pub mod Laws
use Prim.Native.String.{String}
use text.Mathlib.Text.{◌==◌ as str_eq}
use a5px.Prelude.{
  ℕ, List, [], ◌∷◌, Bool, true, false, not, ◌&&◌, ◌||◌, if◌then◌else◌, Result, ok, err, ◌>>=◌,
  collect,
}

pub data Error : Type 0 where
  io object_store tiff proj a5 missing_geo_key unsupported invalid internal : Error
  worker_join parquet interrupted url : Error

pub data Stat : Type 0 where
  mean sum count min max var sd majority : Stat

abbrev pub as_str : Stat → String
as_str mean = "mean"
as_str sum = "sum"
as_str count = "count"
as_str min = "min"
as_str max = "max"
as_str var = "var"
as_str sd = "sd"
as_str majority = "majority"

unfoldable pub parse : String → Result Error Stat
parse s =
    if str_eq s "mean"
    then ok mean
    else if str_eq s "sum"
    then ok sum
    else if str_eq s "count"
    then ok count
    else if str_eq s "min"
    then ok min
    else if str_eq s "max"
    then ok max
    else if str_eq s "var"
    then ok var
    else if str_eq s "sd"
    then ok sd
    else if str_eq s "majority"
    then ok majority
    else err invalid

-- Whether this stat reads the continuous accumulator.
abbrev pub needs_cont : Stat → Bool
needs_cont majority = false
needs_cont _ = true

abbrev pub any {ℓ} : {A : Type ℓ} → (A → Bool) → List A → Bool
any p [] = false
any p (x ∷ xs) = p x || any p xs

abbrev pub keep {ℓ} : {A : Type ℓ} → (A → Bool) → List A → List A
keep p [] = []
keep p (x ∷ xs) = let rest = keep p xs in if p x then x ∷ rest else rest

abbrev pub is_stat : String → Bool
is_stat s = not (str_eq s "fractions") && not (str_eq s "npix")

-- `stats.is_empty()`, and `stats.len() > 1`.
abbrev pub is_empty {ℓ} : {A : Type ℓ} → List A → Bool
is_empty [] = true
is_empty (x ∷ xs) = false

abbrev is_several : List String → Bool
is_several [] = false
is_several (s ∷ stats) = not (is_empty stats)

-- Per-band stats, whether "fractions" is asked, and whether "npix" is.
unfoldable pub parse_stats : List String → Result Error (List Stat × Bool × Bool)
unfolding parse
parse_stats stats =
    let fractions = any (λ s. str_eq s "fractions") stats in
    let npix = any (λ s. str_eq s "npix") stats in
    if is_empty stats
    then err invalid
    else if fractions && is_several stats
    then err invalid
    else (collect parse (keep is_stat stats) >>= λ parsed. ok (parsed, fractions, npix))

pub record AccCfg : Type 0 where
  pub has_cont : Bool
  pub has_cat : Bool
  pub has_npix : Bool

abbrev pub is_majority : Stat → Bool
is_majority majority = true
is_majority _ = false

unfoldable pub from_stats : List Stat → Bool → Bool → AccCfg
from_stats stats fractions npix = record {
  has_cont = any needs_cont stats;
  has_cat = fractions || any is_majority stats;
  has_npix = npix;
}

pub data Layout : Type 0 where
  sums range full : Layout

abbrev pub is_spread : Stat → Bool
is_spread var = true
is_spread sd = true
is_spread _ = false

abbrev pub is_extreme : Stat → Bool
is_extreme min = true
is_extreme max = true
is_extreme _ = false

unfoldable pub layout_for : List Stat → Layout
layout_for stats =
    if any is_spread stats then full else if any is_extreme stats then range else sums
