-- ===== src/RangeCache/Ops.antt =====
-- Every operation of the range cache keeps its invariant.
use a5px.Prelude.{
  ℕ, ◌+◌, ◌%◌, ◌^◌, ◌≤◌, ◌<◌, ◌≡◌, refl, sym, ◌∙◌, List, [], ◌∷◌, ◌||◌, false, arith, none, length,
  ltb, ◌==◌, ℕ_discrete, Option-cases, Bool-cases, inl, inr, u64_mod,
}
use a5px.Prelude.Map.{find, remove}
use a5px.RangeCache.{RangeCache, Bytes, get, touch, evict, insert, admit, clear, set_budget}
use a5px.RangeCache.Order.{UpTo, insert_sorted_last, below-remove, below_of_UpTo, UpTo-append}
use a5px.RangeCache.Valid.{IsLinked, IsValid, total-put_same, total-put_new}
use a5px.RangeCache.Evict.{evict_loop_lem}
use a5px.RangeCache.Renew.{append-IsLinked, absent-IsLinkedBut, remove-IsLinkedBut}

-- No `u64` of the cache is near its end: less than 2^64 uses, and a budget below half the range.
pub record IsSmall {K : Type 0} (c : RangeCache K) : Type 0 where
  pub tick_fits : c.tick + 1 < u64_mod
  pub budget_fits : c.budget < 2 ^ 63

module _ {K : Type 0} (dec : Discrete K) where
  UpTo-suc : (t : ℕ) (m : List (ℕ × K)) → UpTo t m → UpTo (t + 1) m
  UpTo-suc t [] u = tt
  UpTo-suc t (e ∷ m) u = (omega arith, UpTo-suc t m u.1)

  pub evict-IsValid :
      (c : RangeCache K)
      → c.bytes < u64_mod
      → IsLinked dec c.map c.order c.bytes
      → UpTo c.tick c.order
      → IsValid dec (evict dec c)
  unfolding evict
  evict-IsValid c small l u =
      let r = evict_loop_lem dec c.budget c.map c.order c.bytes c.tick small l u in
      record { linked = r.0; ticks = r.1; within = r.2 }

  -- `get` keeps a valid cache valid, with ticks below 2^64 and a budget below 2^63.
  pub get-IsValid :
      (c : RangeCache K) (key : K) → IsSmall c → IsValid dec c → IsValid dec (get dec c key).0
  unfolding get touch
  get-IsValid c key s v =
      let next : (c.tick + 1) % u64_mod ≡ c.tick + 1 = omega arith in
      elim (Option-cases (find dec key c.map)) [
        | inl miss ↦
            rw (miss, get)
              (rw next (record {
                linked = v.linked;
                ticks = UpTo-suc c.tick c.order v.ticks;
                within = v.within;
              }))
        | inr ((b, old), hit) ↦
            let held = v.linked.in_order key (b, old) hit in
            let low =
              below-remove old (c.tick + 1) c.order
                (below_of_UpTo (c.tick + 1) c.tick c.order (omega arith) v.ticks) in
            let moved = insert_sorted_last (c.tick + 1) key (remove ℕ_discrete old c.order) low in
            let l =
              append-IsLinked dec key c.map (remove ℕ_discrete old c.order) b (c.tick + 1) low
                (remove-IsLinkedBut dec key c.map c.order c.bytes b old hit v.linked) in
            let same = total-put_same dec key (b, old) (c.tick + 1) c.map hit in
            rw (hit, get)
              (rw next (
                rw (held, touch)
                  (rw moved (record {
                    linked = record {
                      distinct = l.distinct;
                      rising = l.rising;
                      in_order = l.in_order;
                      in_map = l.in_map;
                      counted = v.linked.counted ∙ sym same;
                    };
                    ticks = UpTo-append (c.tick + 1) key (remove ℕ_discrete old c.order) low;
                    within = v.within;
                  }))))
      ]

  admit-IsValid :
      (c : RangeCache K) (key : K) (b : Bytes)
      → IsSmall c
      → IsValid dec c
      → length b ≤ c.budget
      → find dec key c.map ≡ none
      → IsValid dec (admit dec c key b)
  unfolding admit
  admit-IsValid c key b s v fits miss =
      let next : (c.tick + 1) % u64_mod ≡ c.tick + 1 = omega arith in
      let low = below_of_UpTo (c.tick + 1) c.tick c.order (omega arith) v.ticks in
      let l =
        append-IsLinked dec key c.map c.order b (c.tick + 1) low
          (absent-IsLinkedBut dec key c.map c.order c.bytes miss v.linked) in
      let sum : (c.bytes + length b) % u64_mod ≡ c.bytes + length b = omega (arith, v.within) in
      let grown = total-put_new dec key (b, c.tick + 1) c.map miss in
      rw (next, sum, insert_sorted_last (c.tick + 1) key c.order low)
        (evict-IsValid _ (omega (arith, v.within))
          (record {
            distinct = l.distinct;
            rising = l.rising;
            in_order = l.in_order;
            in_map = l.in_map;
            counted = omega (arith, v.linked.counted, grown);
          })
          (UpTo-append (c.tick + 1) key c.order low))

  -- `insert` keeps a valid cache valid, with ticks below 2^64 and a budget below 2^63.
  pub insert-IsValid :
      (c : RangeCache K) (key : K) (b : Bytes)
      → IsSmall c
      → IsValid dec c
      → IsValid dec (insert dec c key b)
  unfolding insert
  insert-IsValid c key b s v = elim (Option-cases (find dec key c.map)) [
    | inr (e, hit) ↦ rw (hit, insert) (ground (arith, v))
    | inl miss ↦ elim (Bool-cases (length b == 0 || ltb c.budget (length b) || false)) [
      | inl skip ↦ rw (miss) (rw skip v)
      | inr go ↦ rw (miss) (rw go (admit-IsValid c key b s v (ground arith) miss))
    ]
  ]

  pub clear-IsValid : (c : RangeCache K) → IsValid dec (clear c)
  unfolding clear
  clear-IsValid c = record {
    linked = record {
      distinct = tt;
      rising = tt;
      in_order = λ k e f. absurd (ground arith);
      in_map = λ t k f. absurd (ground arith);
      counted = refl;
    };
    ticks = tt;
    within = omega arith;
  }

  -- `set_budget` keeps a valid cache with ticks below 2^64 and a budget below 2^63 valid, for any new
  -- budget: it evicts down to it.
  pub set_budget-IsValid :
      (c : RangeCache K) (budget : ℕ)
      → IsSmall c
      → IsValid dec c
      → IsValid dec (set_budget dec c budget).0
  unfolding set_budget
  set_budget-IsValid c budget s v =
      evict-IsValid (record c { budget = budget }) (omega (arith, v.within)) v.linked v.ticks
