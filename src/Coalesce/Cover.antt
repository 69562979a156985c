-- ===== src/Coalesce/Cover.antt =====
-- Every input range of `coalesce` lies in the request, and at the offset, that it is given.
use a5px.Prelude.{
  ℕ, zero, suc, ◌+◌, ◌≤◌, ◌<◌, ◌≡◌, ◌≢◌, refl, ◌∙◌, List, [], ◌∷◌, ◌++◌, some, none, arith, All,
  leb, ◌==◌, ◌&&◌, max, get_elem?, length, set, replicate, reverse, Option, if◌then◌else◌,
  Bool-cases, inl, inr, u64_mod, sub_u64, get_elem?-set_self, get_elem?-set_ne, length-set,
  length-replicate, length-append,
}
use mathlib.Core.List.{reverse-append}
use a5px.Coalesce.{
  Range, indexed, sort_by_start, merge_one, place_of, merge_all, coalesce, saturating_add,
}
use a5px.Coalesce.Sort.{
  IsSorted, IsIndexed, All-sort, All-of_sort, All-indexed, All-of_indexed, sort-IsSorted,
  sort-indexed-IsIndexed,
}

-- A range as the code makes them: not reversed, with `u64` ends.
pub record IsProper (r : Range) : Type 0 where
  pub forward : r.start ≤ r.end
  pub fits : r.end < u64_mod

-- The request numbered `k`, in a list with the newest first.
abbrev pub at_old : List Range → ℕ → Option Range
at_old [] k = none
at_old (q ∷ reqs) k = if k == length reqs then some q else at_old reqs k

pub at_old-lt : (reqs : List Range) (k : ℕ) (q : Range) → at_old reqs k ≡ some q → k < length reqs
at_old-lt [] k q h = absurd (ground arith)
at_old-lt (p ∷ reqs) k q h = ground (arith, at_old-lt reqs k q)

get_elem?-append_last :
    (xs : List Range) (q : Range) (k : ℕ)
    → get_elem? (xs ++ (q ∷ [])) k ≡ (if k == length xs then some q else get_elem? xs k)
get_elem?-append_last [] q zero = refl
get_elem?-append_last [] q (suc k) = ground arith
get_elem?-append_last (x ∷ xs) q zero = ground arith
get_elem?-append_last (x ∷ xs) q (suc k) = ground (arith, get_elem?-append_last xs q k)

length-reverse : (xs : List Range) → length (reverse xs) ≡ length xs
length-reverse [] = refl
length-reverse (x ∷ xs) =
    rw (reverse-append (x ∷ []) xs)
      (omega (arith, length-append (reverse xs) (x ∷ []), length-reverse xs))

pub get_elem?-reverse : (reqs : List Range) (k : ℕ) → get_elem? (reverse reqs) k ≡ at_old reqs k
get_elem?-reverse [] k = refl
get_elem?-reverse (q ∷ reqs) k = rw (reverse-append (q ∷ []) reqs) (
    ground (
      arith,
      get_elem?-append_last (reverse reqs) q k,
      length-reverse reqs,
      get_elem?-reverse reqs k,
    ))

-- The range `r` lies at offset `off` of request `k`.
abbrev Lies : List Range → ℕ × ℕ → Range → Type 0
Lies reqs p r =
    (q : Range) × (at_old reqs p.0 ≡ some q) × (q.start + p.1 ≡ r.start) × (r.end ≤ q.end)

Covers : List Range → List (ℕ × ℕ) → ℕ × Range → Type 0
Covers reqs place e = (p : ℕ × ℕ) × (get_elem? place e.0 ≡ some p) × Lies reqs p e.1

-- The newest request starts no later than `r`.
abbrev pub StartsBy : List Range → Range → Type 0
StartsBy [] r = Unit
StartsBy (q ∷ reqs) r = q.start ≤ r.start

pub get_elem?-lt : (rs : List Range) (i : ℕ) (r : Range) → get_elem? rs i ≡ some r → i < length rs
get_elem?-lt [] i r h = absurd (ground arith)
get_elem?-lt (x ∷ xs) zero r h = omega arith
get_elem?-lt (x ∷ xs) (suc i) r h = omega (arith, get_elem?-lt xs i r h)

module _ (gap limit : ℕ) where
  merge_one-Lies :
      (reqs : List Range) (p : ℕ × ℕ) (r s : Range)
      → Lies reqs p s
      → Lies (merge_one gap limit reqs r) p s
  unfolding merge_one
  merge_one-Lies [] p r s (q, h, a, b) = absurd (ground arith)
  merge_one-Lies (last ∷ reqs) p r s (q, h, a, b) =
      let lt = at_old-lt (last ∷ reqs) p.0 q h in
      elim (Bool-cases (
        leb r.start (saturating_add last.end gap)
        && leb (sub_u64 (max r.end last.end) last.start) limit)) [
          | inr new ↦ rw new (q, ground arith, a, b)
          | inl merged ↦ rw merged (elim (Bool-cases (p.0 == length reqs)) [
            | inl top ↦
                (record last { end = max last.end r.end }, ground arith, ground arith, ground arith)
            | inr deep ↦ (q, ground arith, a, b)
          ])
        ]

  merge_one-place :
      (reqs : List Range) (r : Range)
      → IsProper r
      → StartsBy reqs r
      → Lies (merge_one gap limit reqs r) (place_of (merge_one gap limit reqs r) r) r
  unfolding merge_one place_of
  merge_one-place [] r h s = (r, ground arith, omega (arith, h.forward), omega arith)
  merge_one-place (last ∷ reqs) r h s =
      elim (Bool-cases (
        leb r.start (saturating_add last.end gap)
        && leb (sub_u64 (max r.end last.end) last.start) limit)) [
          | inr new ↦ rw new (r, ground arith, omega (arith, h.forward), omega arith)
          | inl merged ↦ rw merged (
            record last { end = max last.end r.end },
            ground arith,
            omega (arith, h.forward, h.fits),
            omega arith,
          )
        ]

  pub merge_one-StartsBy :
      (reqs : List Range) (r s : Range)
      → StartsBy reqs r
      → r.start ≤ s.start
      → StartsBy (merge_one gap limit reqs r) s
  unfolding merge_one
  merge_one-StartsBy [] r s h l = l
  merge_one-StartsBy (last ∷ reqs) r s h l = ground arith

  -- The rest of the loop keeps what is placed, and places what is left.
  merge_all-Covers :
      (reqs : List Range) (place : List (ℕ × ℕ)) (m : List (ℕ × Range))
      → IsSorted m
      → IsIndexed m
      → All (λ e. IsProper e.1 × StartsBy reqs e.1 × (e.0 < length place)) m
      → let r = merge_all gap limit reqs place m in
        All (Covers r.0 r.1) m
        × ((e : ℕ × Range) → All (λ f. f.0 ≢ e.0) m → Covers reqs place e → Covers r.0 r.1 e)
  unfolding merge_all Covers
  merge_all-Covers reqs place [] sorted distinct h = (tt, λ e a c. c)
  merge_all-Covers reqs place ((i, r) ∷ m) sorted distinct h =
      let reqs' = merge_one gap limit reqs r in
      let p = place_of reqs' r in
      let (rest, keep) =
        merge_all-Covers reqs' (set place i p) m sorted.1 distinct.1 (later m sorted.0 h.1) in
      (
        (
          keep (i, r) distinct.0
              (p, get_elem?-set_self place i p h.0.2, merge_one-place reqs r h.0.0 h.0.1),
          rest,
        ),
        λ e a c.
            let ne : i ≢ e.0 = a.0 in
            keep e a.1 (c.0, get_elem?-set_ne place p ne ∙ c.1, merge_one-Lies reqs c.0 r e.1 c.2),
      )
    where
      later :
          (m : List (ℕ × Range))
          → All (λ f. r.start ≤ f.1.start) m
          → All (λ e. IsProper e.1 × StartsBy reqs e.1 × (e.0 < length place)) m
          → All
              (λ e.
                IsProper e.1
                × StartsBy (merge_one gap limit reqs r) e.1
                × (e.0 < length (set place i (place_of (merge_one gap limit reqs r) r))))
              m
      later [] l a = tt
      later (e ∷ m) l a = (
        (
          a.0.0,
          merge_one-StartsBy reqs r e.1 h.0.1 l.0,
          omega (arith, a.0.2, length-set place i (place_of (merge_one gap limit reqs r) r)),
        ),
        later m l.1 a.1,
      )

  -- Where all input ranges are unreversed and 64-bit, each lies, whole, in the request that `coalesce`
  -- gives it, at the offset that it gives.
  pub coalesce-place :
      (ranges : List Range)
      → ((i : ℕ) (r : Range) → get_elem? ranges i ≡ some r → IsProper r)
      → (i : ℕ) (r : Range) → get_elem? ranges i ≡ some r
      → let out = coalesce ranges gap limit in
        (p : ℕ × ℕ) × (q : Range) × (get_elem? out.1 i ≡ some p)
        × (get_elem? out.0 p.0 ≡ some q)
        × (q.start + p.1 ≡ r.start)
        × (r.end ≤ q.end)
  unfolding coalesce Covers
  coalesce-place ranges proper i r at =
      let items = sort_by_start (indexed 0 ranges) in
      let zero_place : ℕ × ℕ = (0, 0) in
      let start = replicate (length ranges) zero_place in
      let ready =
        All-sort (λ e. IsProper e.1 × Unit {0} × (e.0 < length start)) (indexed 0 ranges)
          (All-indexed (λ e. IsProper e.1 × Unit {0} × (e.0 < length start)) 0 ranges
            λ j s e. (
              proper j s e,
              tt,
              omega (arith, length-replicate (length ranges) zero_place, get_elem?-lt ranges j s e),
            )) in
      let (all, keep) =
        merge_all-Covers [] start items (sort-IsSorted (indexed 0 ranges))
          (sort-indexed-IsIndexed ranges) ready in
      let done = merge_all gap limit [] start items in
      let here : 0 + i ≡ i = omega arith in
      let (p, found, (q, req, a, b)) = rw here at (
        All-of_indexed (Covers done.0 done.1) 0 i ranges r
          (All-of_sort (Covers done.0 done.1) (indexed 0 ranges) all) at) in
      (p, q, found, get_elem?-reverse done.0 p.0 ∙ req, a, b)
