-- ===== src/RangeCache.antt =====
-- `struct RangeCache` of src/rust/src/range_cache.rs: the session cache of remote byte ranges, which
-- evicts the least recently used range past its budget. `K` is the key (source and exact range).
pub mod Order
pub mod Valid
pub mod Evict
pub mod Renew
pub mod Ops
pub mod Newest
pub mod Reads
use a5px.Prelude.{
  ℕ, ◌+◌, ◌/◌, ◌*◌, ◌^◌, Bool, true, false, ◌||◌, Option, none, some, List, [], ◌∷◌, ite, ltb, ◌==◌,
  if◌then◌else◌, add_u64, sub_u64, length, ℕ_discrete, dec_lt,
}
use a5px.Prelude.Map.{find, remove, put, insert_sorted}

-- `bytes::Bytes`: the bytes of a range.
abbrev pub Bytes : Type 0
Bytes = List ℕ

pub record RangeCache (K : Type 0) : Type 0 where
  -- key to its bytes and last-use tick
  pub map : List (K × (Bytes × ℕ))
  -- recency order: last-use tick to key
  pub order : List (ℕ × K)
  pub tick : ℕ
  pub bytes : ℕ
  pub budget : ℕ

unfoldable pub clear : {K : Type 0} → RangeCache K → RangeCache K
clear c = record c { map = []; order = []; bytes = 0 }

module _ {K : Type 0} (dec : Discrete K) where
  -- `get` on a hit: the entry's tick is replaced, and its place in `order` moved if it has one.
  touch : RangeCache K → ℕ → K → Bytes → ℕ → RangeCache K
  touch c tick key b old = elim (find ℕ_discrete old c.order) [
    | none ↦ record c { map = put dec key (b, tick) c.map; tick = tick }
    | some k ↦ record c {
      map = put dec key (b, tick) c.map;
      order = insert_sorted tick k (remove ℕ_discrete old c.order);
      tick = tick;
    }
  ]

  unfoldable pub get : RangeCache K → K → RangeCache K × Option Bytes
  unfolding touch
  get c key =
      let tick = add_u64 c.tick 1 in
      elim (find dec key c.map) [
        | none ↦ (record c { tick = tick }, none)
        | some e ↦ (touch c tick key e.0 e.1, some e.0)
      ]

  -- One round of `evict`'s loop: `key` was popped off `order`.
  pub drop_entry : List (K × (Bytes × ℕ)) → ℕ → K → List (K × (Bytes × ℕ)) × ℕ
  drop_entry m bytes key = elim (find dec key m) [
    | none ↦ (m, bytes)
    | some e ↦ (remove dec key m, sub_u64 bytes (length e.0))
  ]

  -- `evict`'s loop over the map, the order and the byte count.
  pub evict_loop :
      ℕ → List (K × (Bytes × ℕ)) → List (ℕ × K) → ℕ → List (K × (Bytes × ℕ)) × List (ℕ × K) × ℕ
  evict_loop budget m [] bytes = (m, [], bytes)
  evict_loop budget m ((t, key) ∷ order) bytes =
      let next = drop_entry m bytes key in
      let rest = evict_loop budget next.0 order next.1 in
      if ltb budget bytes then rest else (m, (t, key) ∷ order, bytes)

  unfoldable pub evict : RangeCache K → RangeCache K
  unfolding evict_loop drop_entry
  evict c =
      let r = evict_loop c.budget c.map c.order c.bytes in
      record c { map = r.0; order = r.1; bytes = r.2 }

  abbrev is_some : Option (Bytes × ℕ) → Bool
  is_some none = false
  is_some (some e) = true

  -- `insert` past its guard.
  admit : RangeCache K → K → Bytes → RangeCache K
  unfolding evict
  admit c key b =
      let tick = add_u64 c.tick 1 in
      evict (record c {
        map = put dec key (b, tick) c.map;
        order = insert_sorted tick key c.order;
        tick = tick;
        bytes = add_u64 c.bytes (length b);
      })

  unfoldable pub insert : RangeCache K → K → Bytes → RangeCache K
  unfolding admit
  insert c key b =
      let n = length b in
      if n == 0 || ltb c.budget n || is_some (find dec key c.map) then c else admit c key b

  -- `set_budget`: the cache and the budget before.
  unfoldable pub set_budget : RangeCache K → ℕ → RangeCache K × ℕ
  unfolding evict
  set_budget c bytes = (evict (record c { budget = bytes }), c.budget)

abbrev pub default_budget_mb : ℕ
default_budget_mb = 512

-- `default_budget`: an eighth of the cgroup limit.
unfoldable pub default_budget : Option ℕ → ℕ
default_budget none = default_budget_mb * 2 ^ 20
default_budget (some lim) = lim / 8
