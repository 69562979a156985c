-- ===== src/RangeCache/Newest.antt =====
-- What `evict` keeps: the longest run of most recently used ranges that fits the budget.
use a5px.Prelude.{
  ℕ, ◌+◌, ◌≤◌, ◌<◌, ◌≡◌, refl, ◌∙◌, ◌↔◌, ◌≢◌, List, [], ◌∷◌, ◌++◌, if_pos, arith, none, some, All,
  length, ltb, leb, ℕ_discrete, Bool-cases, inl, inr, u64_mod, if◌then◌else◌, true, false,
}
use a5px.Prelude.Map.{find, remove, find-remove}
use a5px.RangeCache.{RangeCache, Bytes, drop_entry, evict_loop, evict}
use a5px.RangeCache.Order.{IsRising, UpTo, find-Above, find-append}
use a5px.RangeCache.Valid.{IsLinked, total-remove, total-eq-zero_of_unordered}
use a5px.RangeCache.Evict.{oldest-IsLinked, drop_entry-IsLinked, evict_loop_lem}

module _ {K : Type 0} (dec : Discrete K) where
  -- The bytes held for a key.
  abbrev pub size : List (K × (Bytes × ℕ)) → K → ℕ
  size m k = elim (find dec k m) [ none ↦ 0 | some e ↦ length e.0 ]

  -- The bytes held for the keys of an order.
  abbrev pub held : List (K × (Bytes × ℕ)) → List (ℕ × K) → ℕ
  held m [] = 0
  held m ((t, k) ∷ order) = size m k + held m order

  -- The longest end of the order that fits the budget.
  abbrev pub newest : ℕ → List (K × (Bytes × ℕ)) → List (ℕ × K) → List (ℕ × K)
  newest budget m [] = []
  newest budget m ((t, k) ∷ order) =
      let rest = newest budget m order in
      if leb (held m ((t, k) ∷ order)) budget then (t, k) ∷ order else rest

  find_older :
      (t s : ℕ) (k j : K) (order : List (ℕ × K))
      → IsRising ((t, k) ∷ order)
      → find ℕ_discrete s order ≡ some j
      → find ℕ_discrete s ((t, k) ∷ order) ≡ some j
  find_older t s k j order r f = ground (arith, find-Above t order r.0)

  held-remove :
      (k : K) (m : List (K × (Bytes × ℕ))) (order : List (ℕ × K))
      → IsRising order
      → ((s : ℕ) (j : K) → find ℕ_discrete s order ≡ some j → k ≢ j)
      → held (remove dec k m) order ≡ held m order
  held-remove k m [] r h = refl
  held-remove k m ((t, j) ∷ order) r h =
      let other : k ≢ j = h t j (if_pos (ℕ_discrete t t) refl _ _) in
      let same : find dec j (remove dec k m) ≡ find dec j m =
        ground (arith, find-remove dec k j m) in
      let ih = held-remove k m order r.1 (λ s i f. h s i (find_older t s j i order r f)) in
      ground arith

  newest-remove :
      (budget : ℕ) (k : K) (m : List (K × (Bytes × ℕ))) (order : List (ℕ × K))
      → IsRising order
      → ((s : ℕ) (j : K) → find ℕ_discrete s order ≡ some j → k ≢ j)
      → newest budget (remove dec k m) order ≡ newest budget m order
  newest-remove budget k m [] r h = refl
  newest-remove budget k m ((t, j) ∷ order) r h = rw (
    held-remove k m ((t, j) ∷ order) r h,
    newest-remove budget k m order r.1 (λ s i f. h s i (find_older t s j i order r f)),
  )

  -- The oldest key stands in the order once.
  oldest_once :
      (m : List (K × (Bytes × ℕ))) (t : ℕ) (k : K) (order : List (ℕ × K)) (bytes : ℕ)
      → IsLinked dec m ((t, k) ∷ order) bytes
      → (s : ℕ) (j : K) → find ℕ_discrete s order ≡ some j
      → k ≢ j
  oldest_once m t k order bytes l s j f e =
      let (b, g) = l.in_map t k (if_pos (ℕ_discrete t t) refl _ _) in
      let (b', g') = l.in_map s j (find_older t s k j order l.rising f) in
      absurd (ground (arith, find-Above t order l.rising.0))

  total-eq-held :
      (m : List (K × (Bytes × ℕ))) (order : List (ℕ × K)) (bytes : ℕ)
      → IsLinked dec m order bytes
      → bytes ≡ held m order
  total-eq-held m [] bytes l = total-eq-zero_of_unordered dec m bytes l
  total-eq-held m ((t, k) ∷ order) bytes l =
      let (b, g) = l.in_map t k (if_pos (ℕ_discrete t t) refl _ _) in
      let l' = oldest-IsLinked dec m t k order bytes b g l in
      let ih = total-eq-held (remove dec k m) order _ l' in
      let same = held-remove k m order l'.rising (oldest_once m t k order bytes l) in
      ground (arith, g, total-remove dec k (b, t) m l.distinct g, l.counted, ih, same)

  evict_loop-newest :
      (budget : ℕ) (m : List (K × (Bytes × ℕ))) (order : List (ℕ × K)) (bytes : ℕ)
      → bytes < u64_mod
      → IsLinked dec m order bytes
      → (evict_loop dec budget m order bytes).1 ≡ newest budget m order
  unfolding evict_loop
  evict_loop-newest budget m [] bytes small l = refl
  evict_loop-newest budget m ((t, k) ∷ order) bytes small l =
      let (b, g) = l.in_map t k (if_pos (ℕ_discrete t t) refl _ _) in
      let (l', fall) = drop_entry-IsLinked dec m t k order bytes small l in
      let next = drop_entry dec m bytes k in
      let ih = evict_loop-newest budget next.0 order next.1 (omega arith) l' in
      let once = oldest_once m t k order bytes l in
      let sum = total-eq-held m ((t, k) ∷ order) bytes l in
      let same = newest-remove budget k m order l.rising.1 once in
      let dropped : next.0 ≡ remove dec k m = unfold drop_entry in rw (g, drop_entry) refl in
      elim (Bool-cases (ltb budget bytes)) [
        | inl over ↦
            let cut : leb (held m ((t, k) ∷ order)) budget ≡ false = ground arith in
            rw (over, cut) (ih ∙ rw dropped same)
        | inr fits ↦
            let all : leb (held m ((t, k) ∷ order)) budget ≡ true = ground arith in
            rw (fits, all) refl
      ]

  pub evict_loop-restricts :
      (budget : ℕ) (m : List (K × (Bytes × ℕ))) (order : List (ℕ × K)) (bytes : ℕ) (k : K)
      (e : Bytes × ℕ)
      → find dec k (evict_loop dec budget m order bytes).0 ≡ some e
      → find dec k m ≡ some e
  unfolding evict_loop drop_entry
  evict_loop-restricts budget m [] bytes k e f = f
  evict_loop-restricts budget m ((t, j) ∷ order) bytes k e f =
      let next = drop_entry dec m bytes j in
      let ih = evict_loop-restricts budget next.0 order next.1 k e in
      elim (Bool-cases (ltb budget bytes)) [
        | inr fits ↦ ground arith
        | inl over ↦ ground (arith, ih, find-remove dec j k m)
      ]

  pub newest-append :
      (budget : ℕ) (m : List (K × (Bytes × ℕ))) (order : List (ℕ × K)) (t : ℕ) (k : K)
      → All (λ e. e.0 < t) order
      → size m k ≤ budget
      → find ℕ_discrete t (newest budget m (order ++ ((t, k) ∷ []))) ≡ some k
  newest-append budget m [] t k low h =
      let fits : leb (size m k + 0) budget ≡ true = ground arith in
      rw fits (if_pos (ℕ_discrete t t) refl _ _)
  newest-append budget m ((s, j) ∷ order) t k low h =
      let ih = newest-append budget m order t k low.1 h in
      elim (Bool-cases (leb (held m ((s, j) ∷ order ++ ((t, k) ∷ []))) budget)) [
        | inl all ↦ rw all (ground (arith, find-append t t k order low.1))
        | inr cut ↦ rw cut ih
      ]

  -- On a cache whose map and order agree, with ticks risen up to `tick` and a 64-bit byte count, `evict`
  -- keeps in the order the longest run of most recently used ranges that fits the budget, and in the
  -- map just the entries of that run, unchanged.
  pub evict-newest :
      (c : RangeCache K)
      → c.bytes < u64_mod
      → IsLinked dec c.map c.order c.bytes
      → UpTo c.tick c.order
      → let kept = newest c.budget c.map c.order in
        ((evict dec c).order ≡ kept)
        × ((k : K) (e : Bytes × ℕ)
            → (find dec k (evict dec c).map ≡ some e)
              ↔ ((find dec k c.map ≡ some e) × (find ℕ_discrete e.1 kept ≡ some k)))
  unfolding evict
  evict-newest c small l u =
      let r = evict_loop_lem dec c.budget c.map c.order c.bytes c.tick small l u in
      let same = evict_loop-newest c.budget c.map c.order c.bytes small l in
      let back = evict_loop-restricts c.budget c.map c.order c.bytes in
      (
        same,
        λ k e. (
          λ f. (back k e f, rw (← same) (r.0.in_order k e f)),
          λ f. let (b, g) = r.0.in_map e.1 k (rw same f.1) in ground (arith, back k (b, e.1) g),
        ),
      )
