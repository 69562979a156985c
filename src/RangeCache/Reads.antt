-- ===== src/RangeCache/Reads.antt =====
-- What can be read from the range cache: what was put in, and never anything else.
use a5px.Prelude.{
  ℕ, ◌+◌, ◌%◌, ◌≤◌, ◌<◌, ◌≡◌, [], ◌∷◌, ◌++◌, arith, none, some, length, ltb, ◌==◌, ◌||◌, false,
  Option-cases, inl, inr, u64_mod, add_u64,
}
use a5px.Prelude.Map.{find, put, find-put, insert_sorted}
use a5px.RangeCache.{RangeCache, Bytes, get, touch, evict, insert, admit}
use a5px.RangeCache.Order.{insert_sorted_last, below_of_UpTo, UpTo-append}
use a5px.RangeCache.Valid.{IsValid, total-put_new}
use a5px.RangeCache.Renew.{append-IsLinked, absent-IsLinkedBut}
use a5px.RangeCache.Ops.{IsSmall}
use a5px.RangeCache.Newest.{newest-append, evict-newest, evict_loop-restricts}

module _ {K : Type 0} (dec : Discrete K) where
  find-admit :
      (c : RangeCache K) (key : K) (b : Bytes)
      → IsSmall c
      → IsValid dec c
      → length b ≤ c.budget
      → find dec key c.map ≡ none
      → find dec key (admit dec c key b).map ≡ some (b, c.tick + 1)
  unfolding admit
  find-admit c key b s v fits miss =
      let next : (c.tick + 1) % u64_mod ≡ c.tick + 1 = omega arith in
      let low = below_of_UpTo (c.tick + 1) c.tick c.order (omega arith) v.ticks in
      let sum : (c.bytes + length b) % u64_mod ≡ c.bytes + length b = omega (arith, v.within) in
      let l =
        append-IsLinked dec key c.map c.order b (c.tick + 1) low
          (absent-IsLinkedBut dec key c.map c.order c.bytes miss v.linked) in
      let m = put dec key (b, c.tick + 1) c.map in
      let found : find dec key m ≡ some (b, c.tick + 1) =
        ground (arith, find-put dec key key (b, c.tick + 1) c.map) in
      let grown : RangeCache K = record c {
        map = m;
        order = c.order ++ ((c.tick + 1, key) ∷ []);
        tick = c.tick + 1;
        bytes = c.bytes + length b;
      } in
      let kept =
        evict-newest dec grown (omega (arith, v.within))
          (record {
            distinct = l.distinct;
            rising = l.rising;
            in_order = l.in_order;
            in_map = l.in_map;
            counted =
                omega (arith, v.linked.counted, total-put_new dec key (b, c.tick + 1) c.map miss);
          })
          (UpTo-append (c.tick + 1) key c.order low) in
      let last = newest-append dec c.budget m c.order (c.tick + 1) key low (ground arith) in
      rw (next, sum, insert_sorted_last (c.tick + 1) key c.order low)
        ((kept.1 key (b, c.tick + 1)).1 (found, last))

  -- In a valid cache with ticks below 2^64 and a budget below 2^63, bytes put in under a new key, if
  -- any and no more than the budget, are read back by `get`, whatever had to be evicted for them.
  pub get-insert :
      (c : RangeCache K) (key : K) (b : Bytes)
      → IsSmall c
      → IsValid dec c
      → 0 < length b
      → length b ≤ c.budget
      → find dec key c.map ≡ none
      → (get dec (insert dec c key b) key).1 ≡ some b
  unfolding get insert
  get-insert c key b s v pos fits miss =
      let taken : (length b == 0 || ltb c.budget (length b) || false) ≡ false = ground arith in
      let back = find-admit c key b s v fits miss in rw (miss, insert) (rw taken (rw (back, get)))

  -- Every cached range holds what `content` says of its key.
  abbrev pub IsCoherent : (K → Bytes) → RangeCache K → Type 0
  IsCoherent content c = (k : K) (e : Bytes × ℕ) → find dec k c.map ≡ some e → e.0 ≡ content k

  module _ (content : K → Bytes) (c : RangeCache K) (key : K) (h : IsCoherent content c) where
    pub get-IsCoherent : IsCoherent content (get dec c key).0
    unfolding get touch
    get-IsCoherent k e f = elim (Option-cases (find dec key c.map)) [
      | inl miss ↦ ground (arith, h k e)
      | inr (old, hit) ↦
          ground (arith, h k e, h key old hit, find-put dec key k (old.0, add_u64 c.tick 1) c.map)
    ]

    -- A hit returns the content.
    pub get-eq-content : (b : Bytes) → (get dec c key).1 ≡ some b → b ≡ content key
    unfolding get
    get-eq-content b f = elim (Option-cases (find dec key c.map)) [
      | inl miss ↦ absurd (ground arith)
      | inr (old, hit) ↦ ground (arith, h key old hit)
    ]

    pub insert-IsCoherent : IsCoherent content (insert dec c key (content key))
    unfolding insert admit evict
    insert-IsCoherent k e f =
        let entry : Bytes × ℕ = (content key, add_u64 c.tick 1) in
        let back =
          evict_loop-restricts dec c.budget (put dec key entry c.map)
            (insert_sorted (add_u64 c.tick 1) key c.order) (add_u64 c.bytes (length (content key)))
            k e in
        ground (arith, h k e, find-put dec key k entry c.map, back)
