-- ===== src/RangeCache/Valid.antt =====
-- The range cache's invariant: map and recency order hold the same keys under the same ticks, and
-- the byte count is the size of what is held.
use a5px.Prelude.{
  ℕ, ◌+◌, ◌≤◌, ◌≡◌, refl, List, [], ◌∷◌, if_pos, if_neg, arith, none, some, length, ℕ_discrete,
}
use a5px.Prelude.Map.{find, remove, put, IsDistinct, remove_absent}
use a5px.RangeCache.{RangeCache, Bytes}
use a5px.RangeCache.Order.{IsRising, UpTo}

-- The bytes that a map holds.
abbrev pub total : {K : Type 0} → List (K × (Bytes × ℕ)) → ℕ
total [] = 0
total ((k, e) ∷ m) = length e.0 + total m

module _ {K : Type 0} (dec : Discrete K) where
  -- What holds of the map, the order and the byte count at every round of `evict`'s loop.
  pub record IsLinked (m : List (K × (Bytes × ℕ))) (order : List (ℕ × K)) (bytes : ℕ) : Type 0 where
    pub distinct : IsDistinct m
    pub rising : IsRising order
    pub in_order :
        (k : K) (e : Bytes × ℕ) → find dec k m ≡ some e → find ℕ_discrete e.1 order ≡ some k
    pub in_map :
        (t : ℕ) (k : K)
        → find ℕ_discrete t order ≡ some k
        → (b : Bytes) × (find dec k m ≡ some (b, t))
    pub counted : bytes ≡ total m

  pub record IsValid (c : RangeCache K) : Type 0 where
    pub linked : IsLinked c.map c.order c.bytes
    pub ticks : UpTo c.tick c.order
    pub within : c.bytes ≤ c.budget

  pub total-remove :
      (k : K) (e : Bytes × ℕ) (m : List (K × (Bytes × ℕ)))
      → IsDistinct m
      → find dec k m ≡ some e
      → total (remove dec k m) + length e.0 ≡ total m
  total-remove k e [] d h = absurd (ground arith)
  total-remove k e ((j, f) ∷ m) d h = elim (dec j k) [
    | yes p ↦
        let same : f ≡ e = ground arith in
        rw (if_pos _ p, remove_absent dec k m (rw (← p) d.0)) (rw same (omega arith))
    | no p ↦ rw (if_neg _ p) (omega (arith, total-remove k e m d.1 (ground arith)))
  ]

  pub total-put_same :
      (k : K) (e : Bytes × ℕ) (t : ℕ) (m : List (K × (Bytes × ℕ)))
      → find dec k m ≡ some e
      → total (put dec k (e.0, t) m) ≡ total m
  total-put_same k e t [] h = absurd (ground arith)
  total-put_same k e t ((j, f) ∷ m) h = elim (dec j k) [
    | yes p ↦ let same : f ≡ e = ground arith in rw (if_pos _ p) (rw same)
    | no p ↦ rw (if_neg _ p) (omega (arith, total-put_same k e t m (ground arith)))
  ]

  pub total-put_new :
      (k : K) (e : Bytes × ℕ) (m : List (K × (Bytes × ℕ)))
      → find dec k m ≡ none
      → total (put dec k e m) ≡ total m + length e.0
  total-put_new k e [] h = omega arith
  total-put_new k e ((j, f) ∷ m) h = elim (dec j k) [
    | yes p ↦ absurd (ground arith)
    | no p ↦ rw (if_neg _ p) (omega (arith, total-put_new k e m (ground arith)))
  ]

  -- An empty order means an empty map.
  pub total-eq-zero_of_unordered :
      (m : List (K × (Bytes × ℕ))) (bytes : ℕ) → IsLinked m [] bytes → bytes ≡ 0
  total-eq-zero_of_unordered [] bytes l = l.counted
  total-eq-zero_of_unordered ((k, e) ∷ m) bytes l =
      absurd (ground (arith, l.in_order k e (if_pos (dec k k) refl _ _)))
