-- ===== src/Reader.antt =====
-- `struct CachedReader` of src/rust/src/range_cache.rs: byte ranges of a source through the session
-- cache. `S` is the source key (`Arc<str>`), `E` the errors of the object store below, whose reader
-- is a parameter. The limit on requests in flight delays a request and changes no result.
pub mod Slices
pub mod Fill
pub mod Missing
pub mod Ranges
use a5px.Prelude.{
  ℕ, ◌+◌, ◌-◌, ◌^◌, List, [], ◌∷◌, Bool, true, false, Option, none, some, ltb, ◌==◌, if◌then◌else◌,
  length, get_elem?, set, take, drop, zip, map, Result, ok, err, ◌>>=◌, add_u64, sub_u64,
  ℕ_discrete,
}
use a5px.RangeCache
use a5px.RangeCache.{RangeCache, Bytes}
use a5px.Coalesce.{Range, coalesce, coalesce_gap, max_merged}

abbrev pub Key : Type 0 → Type 0
Key S = S × ℕ × ℕ

pub data ReadError (E : Type 0) : Type 0 where
  remote : E → ReadError E
  -- "range .. beyond end of file"
  beyond_end : Range → ReadError E
  -- a panic: an index out of bounds, or "every range filled" not met
  panic : ReadError E

-- The object store's reader of one source.
pub record ObjectReader (E : Type 0) : Type 0 where
  pub get_bytes : Range → Result E Bytes
  pub get_byte_ranges : List Range → Result E (List Bytes)

pub record CachedReader (S E : Type 0) : Type 0 where
  pub inner : ObjectReader E
  pub key : Option S

-- What the process keeps: the cache and its counters.
pub record Session (S : Type 0) : Type 0 where
  pub cache : RangeCache (Key S)
  pub hits : ℕ
  pub misses : ℕ
  pub requests : ℕ
  pub fetched : ℕ

abbrev pub from_store : {E A : Type 0} → Result E A → Result (ReadError E) A
from_store (ok a) = ok a
from_store (err e) = err (remote e)

abbrev pub key_of : {S : Type 0} → S → Range → Key S
key_of k r = (k, r.start, r.end)

pub clear : {S : Type 0} → Session S → Session S
clear s = record {
  cache = RangeCache.clear s.cache;
  hits = 0;
  misses = 0;
  requests = 0;
  fetched = 0;
}

-- `stats`: entries, bytes, budget, hits, misses, requests, fetched bytes.
pub stats : {S : Type 0} → Session S → ℕ × ℕ × ℕ × ℕ × ℕ × ℕ × ℕ
stats s =
    (length s.cache.map, s.cache.bytes, s.cache.budget, s.hits, s.misses, s.requests, s.fetched)

-- The part of a request's bytes that belongs to one range.
pub cut : Bytes → ℕ → ℕ → Bytes
cut g lo hi = if (hi - lo) == length g then g else take (hi - lo) (drop lo g)

-- Every range filled, or a panic.
pub unwrap_all : {E : Type 0} → List (Option Bytes) → Result (ReadError E) (List Bytes)
unwrap_all [] = ok []
unwrap_all (none ∷ out) = err panic
unwrap_all (some b ∷ out) = unwrap_all out >>= λ bs. ok (b ∷ bs)

module _ {S E : Type 0} where
  -- One remote request.
  pub fetch : ObjectReader E → Session S → Range → Session S × Result (ReadError E) Bytes
  fetch inner s r = elim (inner.get_bytes r) [
    | err e ↦ (s, err (remote e))
    | ok b ↦
        (record s { requests = add_u64 s.requests 1; fetched = add_u64 s.fetched (length b) }, ok b)
  ]

  -- The requests of one read, taken in turn: the first error is the result.
  pub fetch_all :
      ObjectReader E → Session S → List Range → Session S × Result (ReadError E) (List Bytes)
  fetch_all inner s [] = (s, ok [])
  fetch_all inner s (r ∷ reqs) =
      let first = fetch inner s r in
      let rest = fetch_all inner first.0 reqs in
      (
        elim first.1 [ err e ↦ first.0 | ok b ↦ rest.0 ],
        elim first.1 [ err e ↦ err e | ok b ↦ rest.1 >>= λ bs. ok (b ∷ bs) ],
      )

-- The indices, with their ranges, that the cache did not serve.
pub missing : ℕ → List Range → List (Option Bytes) → List (ℕ × Range)
missing i [] out = []
missing i (r ∷ rs) [] = []
missing i (r ∷ rs) (none ∷ out) = (i, r) ∷ missing (i + 1) rs out
missing i (r ∷ rs) (some b ∷ out) = missing (i + 1) rs out

module _ {S : Type 0} (dec : Discrete (Key S)) where
  -- The first critical section: every range looked up.
  pub look_up : S → RangeCache (Key S) → List Range → RangeCache (Key S) × List (Option Bytes)
  look_up k c [] = (c, [])
  look_up k c (r ∷ rs) =
      let hit = RangeCache.get dec c (key_of k r) in
      let rest = look_up k hit.0 rs in (rest.0, hit.1 ∷ rest.1)

module _ {S E : Type 0} (dec : Discrete (Key S)) where
  -- The second one: each missing range cut out of its request, cached and returned.
  pub fill :
      S
      → RangeCache (Key S)
      → List (Option Bytes)
      → List Bytes
      → List ((ℕ × Range) × (ℕ × ℕ))
      → RangeCache (Key S) × Result (ReadError E) (List (Option Bytes))
  unfolding cut
  fill k c out got [] = (c, ok out)
  fill k c out got (((i, r), (n, off)) ∷ items) =
      let hi = sub_u64 (add_u64 off r.end) r.start in
      elim (get_elem? got n) [
        | none ↦ (c, err panic)
        | some g ↦
            let b = cut g off hi in
            let rest =
              fill k (RangeCache.insert dec c (key_of k r) b) (set out i (some b)) got items in
            if ltb (length g) hi then (c, err (beyond_end r)) else rest
      ]

  -- `meanwhile` is what other threads do to the session while a request is awaited.
  module _ (meanwhile : Session S → Session S) where
    -- `get_bytes` past its key.
    get_keyed : ObjectReader E → S → Session S → Range → Session S × Result (ReadError E) Bytes
    unfolding fetch
    get_keyed inner k s r =
        let hit = RangeCache.get dec s.cache (key_of k r) in
        elim hit.1 [
          | some b ↦ (record s { cache = hit.0; hits = add_u64 s.hits 1 }, ok b)
          | none ↦
              let got =
                fetch inner (meanwhile (record s { cache = hit.0; misses = add_u64 s.misses 1 }))
                  r in
              (
                elim got.1 [
                  | err e ↦ got.0
                  | ok b ↦ record got.0 { cache = RangeCache.insert dec got.0.cache (key_of k r) b }
                ],
                got.1,
              )
        ]

    unfoldable pub get_bytes :
        CachedReader S E → Session S → Range → Session S × Result (ReadError E) Bytes
    unfolding get_keyed
    get_bytes reader s r = elim reader.key [
      | none ↦ (s, from_store (reader.inner.get_bytes r))
      | some k ↦ get_keyed reader.inner k s r
    ]

    -- The requests for what is missing, and the second critical section.
    pub load :
        ObjectReader E
        → S
        → Session S
        → List (Option Bytes)
        → List (ℕ × Range)
        → Session S × Result (ReadError E) (List Bytes)
    unfolding fetch fetch_all fill unwrap_all
    load inner k s out lack =
        let plan = coalesce (map (λ e. e.1) lack) coalesce_gap max_merged in
        let got = fetch_all inner (meanwhile s) plan.0 in
        elim got.1 [
          | err e ↦ (got.0, err e)
          | ok bs ↦
              let r = fill k got.0.cache out bs (zip lack plan.1) in
              (record got.0 { cache = r.0 }, r.1 >>= unwrap_all)
        ]

    get_ranges_keyed :
        ObjectReader E → S → Session S → List Range → Session S × Result (ReadError E) (List Bytes)
    unfolding load look_up missing
    get_ranges_keyed inner k s ranges =
        let found = look_up dec k s.cache ranges in
        let lack = missing 0 ranges found.1 in
        let s' : Session S = record s {
          cache = found.0;
          hits = add_u64 s.hits (length found.1 - length lack);
          misses = add_u64 s.misses (length lack);
        } in
        elim lack [ [] ↦ (s', unwrap_all found.1) | e ∷ es ↦ load inner k s' found.1 (e ∷ es) ]

    unfoldable pub get_byte_ranges :
        CachedReader S E → Session S → List Range → Session S × Result (ReadError E) (List Bytes)
    unfolding get_ranges_keyed
    get_byte_ranges reader s ranges = elim reader.key [
      | none ↦ (s, from_store (reader.inner.get_byte_ranges ranges))
      | some k ↦ get_ranges_keyed reader.inner k s ranges
    ]
