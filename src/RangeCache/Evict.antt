-- ===== src/RangeCache/Evict.antt =====
-- `RangeCache::evict`: the loop ends within the budget and keeps the invariant.
use a5px.Prelude.{
  ℕ, ◌+◌, ◌-◌, ◌%◌, ◌≤◌, ◌<◌, ◌≡◌, refl, ◌≢◌, List, [], ◌∷◌, if_pos, arith, some, length, ltb,
  ℕ_discrete, Bool-cases, inl, inr, u64_mod,
}
use a5px.Prelude.Map.{find, remove, find-remove, remove-IsDistinct}
use a5px.RangeCache.{Bytes, drop_entry, evict_loop}
use a5px.RangeCache.Order.{UpTo, find-Above}
use a5px.RangeCache.Valid.{total, IsLinked, total-remove, total-eq-zero_of_unordered}

module _ {K : Type 0} (dec : Discrete K) where
  -- Dropping the oldest entry from map and order.
  pub oldest-IsLinked :
      (m : List (K × (Bytes × ℕ))) (t : ℕ) (k : K) (order : List (ℕ × K)) (bytes : ℕ) (b : Bytes)
      → find dec k m ≡ some (b, t)
      → IsLinked dec m ((t, k) ∷ order) bytes
      → IsLinked dec (remove dec k m) order (total (remove dec k m))
  oldest-IsLinked m t k order bytes b h l = record {
    distinct = remove-IsDistinct dec k m l.distinct;
    rising = l.rising.1;
    in_order = λ j e f. in_order j e f;
    in_map = λ s j f. in_map s j f;
    counted = refl;
  }
    where
      in_order :
          (j : K) (e : Bytes × ℕ)
          → find dec j (remove dec k m) ≡ some e
          → find ℕ_discrete e.1 order ≡ some j
      in_order j e f = elim (dec k j) [
        | yes p ↦ absurd (ground (arith, find-remove dec k j m))
        | no p ↦ ground (arith, find-remove dec k j m, l.in_order j e)
      ]

      in_map :
          (s : ℕ) (j : K)
          → find ℕ_discrete s order ≡ some j
          → (b : Bytes) × (find dec j (remove dec k m) ≡ some (b, s))
      in_map s j f =
          let fresh : t ≢ s =
            λ (p : t ≡ s). absurd (ground (arith, find-Above t order l.rising.0)) in
          let (b', g) = l.in_map s j (ground arith) in (b', ground (arith, find-remove dec k j m))

  pub drop_entry-IsLinked :
      (m : List (K × (Bytes × ℕ))) (t : ℕ) (k : K) (order : List (ℕ × K)) (bytes : ℕ)
      → bytes < u64_mod
      → IsLinked dec m ((t, k) ∷ order) bytes
      → let next = drop_entry dec m bytes k in IsLinked dec next.0 order next.1 × (next.1 ≤ bytes)
  unfolding drop_entry
  drop_entry-IsLinked m t k order bytes small l =
      let (b, h) = l.in_map t k (if_pos (ℕ_discrete t t) refl _ _) in
      let sum = total-remove dec k (b, t) m l.distinct h in
      let left : (bytes + u64_mod - length b) % u64_mod ≡ total (remove dec k m) =
        omega (arith, l.counted) in
      rw (h, drop_entry)
        (rw left (oldest-IsLinked m t k order bytes b h l, omega (arith, l.counted)))

  pub evict_loop_lem :
      (budget : ℕ) (m : List (K × (Bytes × ℕ))) (order : List (ℕ × K)) (bytes top : ℕ)
      → bytes < u64_mod
      → IsLinked dec m order bytes
      → UpTo top order
      → let r = evict_loop dec budget m order bytes in
        IsLinked dec r.0 r.1 r.2 × UpTo top r.1 × (r.2 ≤ budget)
  unfolding evict_loop
  evict_loop_lem budget m [] bytes top small l u =
      (l, u, omega (arith, total-eq-zero_of_unordered dec m bytes l))
  evict_loop_lem budget m ((t, k) ∷ order) bytes top small l u =
      let next = drop_entry dec m bytes k in
      let (linked, fall) = drop_entry-IsLinked m t k order bytes small l in
      let ih = evict_loop_lem budget next.0 order next.1 top (omega arith) linked u.1 in
      elim (Bool-cases (ltb budget bytes)) [
        | inl over ↦ rw over ih
        | inr fits ↦ rw fits (l, u, ground arith)
      ]
