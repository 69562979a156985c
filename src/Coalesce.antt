-- ===== src/Coalesce.antt =====
-- `coalesce` of src/rust/src/range_cache.rs: near byte ranges merged into one request each.
pub mod Sort
pub mod Cover
pub mod Caps
use a5px.Prelude.{
  ℕ, ◌+◌, ◌-◌, ◌*◌, ◌^◌, List, [], ◌∷◌, ◌&&◌, min, max, leb, ltb, if◌then◌else◌, length, set,
  replicate, reverse, sub_u64, u64_mod,
}

-- `Range<u64>`, half-open.
pub record Range : Type 0 where
  pub start : ℕ
  pub end : ℕ

abbrev pub coalesce_gap : ℕ
coalesce_gap = 2 ^ 20

abbrev pub max_merged : ℕ
max_merged = 2 * 2 ^ 20

abbrev saturating_add : ℕ → ℕ → ℕ
saturating_add a b = min (a + b) (u64_mod - 1)

-- The inputs with their indices.
abbrev pub indexed {ℓ} : {A : Type ℓ} → ℕ → List A → List (ℕ × A)
indexed i [] = []
indexed i (r ∷ rs) = (i, r) ∷ indexed (i + 1) rs

-- `sort_by_key(|&i| ranges[i].start)`, which is stable.
abbrev pub insert_by_start : ℕ × Range → List (ℕ × Range) → List (ℕ × Range)
insert_by_start e [] = e ∷ []
insert_by_start e (f ∷ m) =
    let rest = insert_by_start e m in if leb e.1.start f.1.start then e ∷ f ∷ m else f ∷ rest

abbrev pub sort_by_start : List (ℕ × Range) → List (ℕ × Range)
sort_by_start [] = []
sort_by_start (e ∷ m) = insert_by_start e (sort_by_start m)

-- One round of the loop: the requests, newest first, with `r` merged into the last or added.
pub merge_one : ℕ → ℕ → List Range → Range → List Range
merge_one gap limit [] r = r ∷ []
merge_one gap limit (last ∷ reqs) r =
    if leb r.start (saturating_add last.end gap)
      && leb (sub_u64 (max r.end last.end) last.start) limit
    then record last { end = max last.end r.end } ∷ reqs
    else r ∷ last ∷ reqs

-- Where the range that the round took stands: its request, and its offset in it.
pub place_of : List Range → Range → ℕ × ℕ
place_of [] r = (0, r.start)
place_of (last ∷ reqs) r = (length reqs, sub_u64 r.start last.start)

pub merge_all : ℕ → ℕ → List Range → List (ℕ × ℕ) → List (ℕ × Range) → List Range × List (ℕ × ℕ)
merge_all gap limit reqs place [] = (reqs, place)
merge_all gap limit reqs place ((i, r) ∷ m) =
    let reqs' = merge_one gap limit reqs r in
    merge_all gap limit reqs' (set place i (place_of reqs' r)) m

-- The requests in offset order and, per input range, its request and offset within it.
unfoldable pub coalesce : List Range → ℕ → ℕ → List Range × List (ℕ × ℕ)
unfolding merge_all merge_one place_of
coalesce ranges gap limit =
    let r =
      merge_all gap limit [] (replicate (length ranges) (0, 0))
        (sort_by_start (indexed 0 ranges)) in
    (reverse r.0, r.1)
