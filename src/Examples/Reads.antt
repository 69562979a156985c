-- ===== src/Examples/Reads.antt =====
-- `CachedReader` at concrete inputs.
use a5px.Prelude.{
  ℕ, zero, suc, ◌≡◌, ◌≢◌, refl, List, [], ◌∷◌, some, arith, get_elem?, map, ok, err, ℕ_discrete,
}
use a5px.RangeCache.{Bytes, get, insert}
use a5px.RangeCache.Reads.{IsCoherent}
use a5px.Coalesce.{Range, coalesce}
use a5px.Coalesce.Cover.{IsProper}
use a5px.Reader.{Key, panic, ObjectReader, CachedReader, Session, get_byte_ranges}
use a5px.Reader.Slices.{slice}
use a5px.Reader.Fill.{content}
use a5px.Reader.Missing.{IsReader}
use a5px.Reader.Ranges.{get_byte_ranges-Exact}

Key-discrete : Discrete (Key ℕ)
Key-discrete = hlevel ℕ_discrete

abbrev file : Bytes
file = 10 ∷ 11 ∷ 12 ∷ 13 ∷ 14 ∷ 15 ∷ 16 ∷ 17 ∷ 18 ∷ 19 ∷ []

-- A store that holds the file and never fails.
abbrev store : ObjectReader ℕ
store = record {
  get_bytes = λ r. ok (slice file r);
  get_byte_ranges = λ rs. ok (map (slice file) rs);
}

store-IsReader : IsReader file store
store-IsReader = record { exact = λ r b h. ground arith; exact_ranges = λ rs bs h. ground arith }

abbrev reader : CachedReader ℕ ℕ
reader = record { inner = store; key = some 0 }

-- The range 2..4 of source 0 is cached.
abbrev session : Session ℕ
session = record {
  cache = record {
    map = ((0, 2, 4), (12 ∷ 13 ∷ [], 1)) ∷ [];
    order = (1, (0, 2, 4)) ∷ [];
    tick = 1;
    bytes = 2;
    budget = 100;
  };
  hits = 0;
  misses = 0;
  requests = 0;
  fetched = 0;
}

abbrev wanted : List Range
wanted =
    record { start = 6; end = 9 }
    ∷ record { start = 2; end = 4 }
    ∷ record { start = 4; end = 6 }
    ∷ []

wanted-IsProper : (i : ℕ) (r : Range) → get_elem? wanted i ≡ some r → IsProper r
wanted-IsProper zero r h = ground arith
wanted-IsProper (suc zero) r h = ground arith
wanted-IsProper (suc (suc zero)) r h = ground arith
wanted-IsProper (suc (suc (suc n))) r h = absurd (ground arith)

session-IsCoherent : IsCoherent Key-discrete (content (λ _. file)) session.cache
session-IsCoherent k e f = elim (Key-discrete (0, 2, 4) k) [
  | yes p ↦ ground arith
  | no p ↦ absurd (ground arith)
]

-- One hit, two misses, one request.
served :
    let res = get_byte_ranges Key-discrete (λ s. s) reader session wanted in
    (res.1 ≡ ok ((16 ∷ 17 ∷ 18 ∷ []) ∷ (12 ∷ 13 ∷ []) ∷ (14 ∷ 15 ∷ []) ∷ []))
    × (res.0.hits ≡ 1)
    × (res.0.misses ≡ 2)
    × (res.0.requests ≡ 1)
    × (res.0.fetched ≡ 5)
unfolding get_byte_ranges get insert coalesce Key-discrete ℕ_discrete
served = (refl, refl, refl, refl, refl)

get_byte_ranges-Exact_example :
    let res = get_byte_ranges Key-discrete (λ s. s) reader session wanted in
    IsCoherent Key-discrete (content (λ _. file)) res.0.cache
    × (res.1 ≢ err panic)
    × ((bs : List Bytes) → res.1 ≡ ok bs → bs ≡ map (slice file) wanted)
get_byte_ranges-Exact_example =
    get_byte_ranges-Exact Key-discrete (λ _. file) 0 (λ s. s) (λ s co. co) store store-IsReader
      reader session wanted refl refl wanted-IsProper session-IsCoherent
