-- ===== src/MetaCache.antt =====
-- src/rust/src/meta_cache.rs: the header of a file fetched in aligned chunks, which are kept for the
-- life of the open. The store below is a parameter.
pub mod Loads
pub mod Exact
use a5px.Prelude.{
  ℕ, zero, suc, ◌+◌, ◌-◌, ◌*◌, ◌/◌, List, [], ◌∷◌, ◌++◌, Bool, true, false, Option, none, some, leb,
  ltb, if◌then◌else◌, length, take, drop, Result, ok, err, min, max, ℕ_discrete, ◌==◌, ◌%◌, add_u64,
  sub_u64, u64_mod,
}
use a5px.Prelude.Map.{find, put}
use a5px.RangeCache.{Bytes}
use a5px.Coalesce.{Range}

abbrev pub chunk : ℕ
chunk = 256 * 1024

pub data FetchError (E : Type 0) : Type 0 where
  inner : E → FetchError E
  beyond_end : Range → FetchError E
  -- a chunk that is not there: an index panic
  panic : FetchError E

abbrev pub Chunks : Type 0
Chunks = List (ℕ × Bytes)

-- The bytes of chunk `c` that the range needs.
abbrev pub need_of : Range → ℕ → ℕ
need_of r c = sub_u64 (min r.end (add_u64 (c * chunk) chunk)) (c * chunk)

module _ {E : Type 0} (get_bytes : Range → Result E Bytes) where
  abbrev pub from_store : Result E Bytes → Result (FetchError E) Bytes
  from_store (ok b) = ok b
  from_store (err e) = err (inner e)

  -- A chunk from the store: whole, or up to the requested end.
  pub read_chunk : ℕ → ℕ → Result (FetchError E) Bytes
  read_chunk base need =
      let part = from_store (get_bytes (record { start = base; end = add_u64 base need })) in
      elim (get_bytes (record { start = base; end = add_u64 base chunk })) [
        | err e ↦ part
        | ok b ↦ if leb need (length b) then ok b else part
      ]

  abbrev pub has_enough : Option Bytes → ℕ → Bool
  has_enough none need = false
  has_enough (some b) need = leb need (length b)

  -- One round of the first loop.
  pub load_chunk : Range → ℕ → Chunks → Chunks × Result (FetchError E) (Unit {0})
  unfolding read_chunk
  load_chunk r c chunks =
      let need = need_of r c in
      if has_enough (find ℕ_discrete c chunks) need
      then (chunks, ok tt)
      else elim (read_chunk (c * chunk) need) [
        | err e ↦ (chunks, err e)
        | ok b ↦ (put ℕ_discrete c b chunks, ok tt)
      ]

  -- `for c in first..=last`, with `n` chunks to go.
  pub load_chunks : ℕ → Range → ℕ → Chunks → Chunks × Result (FetchError E) (Unit {0})
  load_chunks zero r c chunks = (chunks, ok tt)
  load_chunks (suc n) r c chunks =
      let step = load_chunk r c chunks in
      let rest = load_chunks n r (c + 1) step.0 in
      elim step.1 [ err e ↦ (step.0, err e) | ok _ ↦ rest ]

  -- The range's part of one chunk.
  pub part_of : Range → ℕ → Chunks → Result (FetchError E) Bytes
  part_of r c chunks =
      let lo = sub_u64 (max r.start (c * chunk)) (c * chunk) in
      let hi = sub_u64 (min r.end ((c + 1) * chunk % u64_mod)) (c * chunk) in
      elim (find ℕ_discrete c chunks) [
        | none ↦ err panic
        | some b ↦ if ltb (length b) hi then err (beyond_end r) else ok (take (hi - lo) (drop lo b))
      ]

  -- The second loop: the parts joined.
  pub join_parts : ℕ → Range → ℕ → Chunks → Result (FetchError E) Bytes
  join_parts zero r c chunks = ok []
  join_parts (suc n) r c chunks =
      let rest = join_parts n r (c + 1) chunks in
      elim (part_of r c chunks) [
        | err e ↦ err e
        | ok b ↦ elim rest [ err e ↦ err e | ok bs ↦ ok (b ++ bs) ]
      ]

  -- The range within one chunk.
  pub one_part : Range → ℕ → Chunks → Result (FetchError E) Bytes
  one_part r c chunks =
      let s = sub_u64 r.start (c * chunk) in
      let e = sub_u64 r.end (c * chunk) in
      elim (find ℕ_discrete c chunks) [
        | none ↦ err panic
        | some b ↦ if ltb (length b) e then err (beyond_end r) else ok (take (e - s) (drop s b))
      ]

  unfoldable pub fetch : Chunks → Range → Chunks × Result (FetchError E) Bytes
  unfolding load_chunk load_chunks part_of join_parts one_part
  fetch chunks r =
      let first = r.start / chunk in
      let last = (r.end - 1) / chunk in
      let loaded = load_chunks (last + 1 - first) r first chunks in
      if leb r.end r.start then (chunks, ok []) else elim loaded.1 [
        | err e ↦ (loaded.0, err e)
        | ok _ ↦ (
          loaded.0,
          if first == last
              then one_part r first loaded.0
              else join_parts (last + 1 - first) r first loaded.0,
        )
      ]
