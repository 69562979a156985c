-- ===== src/Examples/Cache.antt =====
-- The range cache and `coalesce` of src/rust/src/range_cache.rs at concrete inputs.
use a5px.Prelude.{
  ℕ, ◌≤◌, ◌≡◌, ◌↔◌, ◌⊎◌, ◌+◌, ◌-◌, refl, List, [], ◌∷◌, none, some, arith, get_elem?, replicate,
  ℕ_discrete, dec_lt, zero, suc,
}
use a5px.Prelude.Map.{find}
use a5px.RangeCache.{RangeCache, Bytes, get, insert, evict, set_budget, clear, default_budget}
use a5px.RangeCache.Valid.{IsValid, IsLinked}
use a5px.RangeCache.Ops
use a5px.RangeCache.Ops.{IsSmall}
use a5px.RangeCache.Newest.{evict-newest}
use a5px.RangeCache.Reads.{get-insert}
use a5px.Coalesce.{Range, coalesce}
use a5px.Coalesce.Cover.{IsProper, coalesce-place}
use a5px.Coalesce.Caps.{coalesce-limit}

program : Unit {0}
unfolding get insert evict set_budget clear coalesce ℕ_discrete dec_lt default_budget
program = tt

abbrev ten : Bytes
ten = replicate 10 7

abbrev cache_of : ℕ → RangeCache ℕ
cache_of budget = record { map = []; order = []; tick = 0; bytes = 0; budget = budget }

-- `evicts_least_recently_used_past_budget`: keys 1 and 2 are put in and 1 is touched.
abbrev two : RangeCache ℕ
two = record {
  map = (1, (ten, 3)) ∷ (2, (ten, 2)) ∷ [];
  order = (2, 2) ∷ (3, 1) ∷ [];
  tick = 3;
  bytes = 20;
  budget = 25;
}

two_runs :
    (get ℕ_discrete (insert ℕ_discrete (insert ℕ_discrete (cache_of 25) 1 ten) 2 ten) 1).0 ≡ two
unfolding program
two_runs = refl

evicts_oldest :
    let c = insert ℕ_discrete two 3 ten in
    (c.bytes ≡ 20)
    × (find ℕ_discrete 2 c.map ≡ none)
    × (find ℕ_discrete 1 c.map ≡ some (ten, 3))
    × (find ℕ_discrete 3 c.map ≡ some (ten, 4))
unfolding program
evicts_oldest = (refl, refl, refl, refl)

skips_large : (insert ℕ_discrete (cache_of 5) 1 ten).map ≡ []
unfolding program
skips_large = refl

budget_of_limit :
    (default_budget none ≡ 536_870_912) × (default_budget (some 2_147_483_648) ≡ 268_435_456)
unfolding program
budget_of_limit = (refl, refl)

two-IsLinked : IsLinked ℕ_discrete two.map two.order two.bytes
unfolding program
two-IsLinked = record {
  distinct = omega arith;
  rising = omega arith;
  in_order = λ k e f. ground arith;
  in_map = λ t k f. (ten, ground arith);
  counted = refl;
}

two-IsValid : IsValid ℕ_discrete two
two-IsValid = record { linked = two-IsLinked; ticks = omega arith; within = omega arith }

two-IsSmall : IsSmall two
two-IsSmall = omega arith

get-IsValid_example : IsValid ℕ_discrete (get ℕ_discrete two 2).0
get-IsValid_example = Ops.get-IsValid ℕ_discrete two 2 two-IsSmall two-IsValid

insert-IsValid_example : IsValid ℕ_discrete (insert ℕ_discrete two 3 ten)
insert-IsValid_example = Ops.insert-IsValid ℕ_discrete two 3 ten two-IsSmall two-IsValid

abbrev tight : RangeCache ℕ
tight = record two { budget = 15 }

evict-newest_example :
    let kept : List (ℕ × ℕ) = (3, 1) ∷ [] in
    ((evict ℕ_discrete tight).order ≡ kept)
    × ((k : ℕ) (e : Bytes × ℕ)
        → (find ℕ_discrete k (evict ℕ_discrete tight).map ≡ some e)
          ↔ ((find ℕ_discrete k tight.map ≡ some e) × (find ℕ_discrete e.1 kept ≡ some k)))
unfolding ℕ_discrete
evict-newest_example = evict-newest ℕ_discrete tight (omega arith) two-IsLinked (omega arith)

get-insert_example : (get ℕ_discrete (insert ℕ_discrete two 3 ten) 3).1 ≡ some ten
unfolding ℕ_discrete
get-insert_example =
    get-insert ℕ_discrete two 3 ten two-IsSmall two-IsValid (omega arith) (omega arith) refl

abbrev range : ℕ → ℕ → Range
range a b = record { start = a; end = b }

-- `coalesces_near_ranges_and_places_each_input`
abbrev five : List Range
five = range 30 40 ∷ range 0 10 ∷ range 12 20 ∷ range 100 110 ∷ range 35 45 ∷ []

five_merged :
    (coalesce five 5 100 ≡ (
      range 0 20 ∷ range 30 45 ∷ range 100 110 ∷ [],
      (1, 0) ∷ (0, 0) ∷ (0, 12) ∷ (2, 0) ∷ (1, 5) ∷ [],
    ))
    × ((coalesce five 5 12).0
        ≡ range 0 10 ∷ range 12 20 ∷ range 30 40 ∷ range 35 45 ∷ range 100 110 ∷ [])
unfolding program
five_merged = (refl, refl)

five-IsProper : (i : ℕ) (r : Range) → get_elem? five i ≡ some r → IsProper r
five-IsProper zero r h = ground arith
five-IsProper (suc zero) r h = ground arith
five-IsProper (suc (suc zero)) r h = ground arith
five-IsProper (suc (suc (suc zero))) r h = ground arith
five-IsProper (suc (suc (suc (suc zero)))) r h = ground arith
five-IsProper (suc (suc (suc (suc (suc n))))) r h = absurd (ground arith)

coalesce-place_example :
    let out = coalesce five 5 100 in
    (p : ℕ × ℕ) × (q : Range) × (get_elem? out.1 4 ≡ some p)
    × (get_elem? out.0 p.0 ≡ some q)
    × (q.start + p.1 ≡ 35)
    × (45 ≤ q.end)
coalesce-place_example = coalesce-place 5 100 five five-IsProper 4 (range 35 45) refl

coalesce-limit_example :
    let reqs = (coalesce five 5 12).0 in
    ((k : ℕ) (q : Range)
      → get_elem? reqs k ≡ some q
      → (q.end - q.start ≤ 12) ⊎ ((i : ℕ) × (get_elem? five i ≡ some q)))
    × ((k l : ℕ) (p q : Range)
        → k ≤ l
        → get_elem? reqs k ≡ some p
        → get_elem? reqs l ≡ some q
        → p.start ≤ q.start)
coalesce-limit_example = coalesce-limit 5 12 five five-IsProper
