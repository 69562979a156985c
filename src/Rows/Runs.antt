-- ===== src/Rows/Runs.antt =====
-- The runs of a row are its located pixels, each in one run, in column order.
use a5px.Prelude.{
  ℕ, zero, suc, ◌+◌, ◌-◌, ◌≤◌, ◌<◌, ◌≡◌, ◌≢◌, refl, sym, ap, arith, List, [], ◌∷◌, ◌++◌, true,
  false, if◌then◌else◌, ltb, ◌==◌, get_or, map, Bool-cases, inl, inr,
}
use a5px.Strips.Cover.{joined}
use a5px.Strips.Stripes.{upto}
use a5px.Rows.{Run, no_slot, run_end, runs_from, runs_of}

-- The columns of a run, each with the run's slot.
abbrev pub pixels : Run → List (ℕ × ℕ)
pixels (s, start, end) = map (λ c. (c, s)) (upto start (end - start))

-- The located pixels among `n` columns from `c` on, each with its own slot.
abbrev pub located : List ℕ → ℕ → ℕ → List (ℕ × ℕ)
located row_slot c zero = []
located row_slot c (suc n) =
    let s = get_or row_slot c no_slot in
    let rest = located row_slot (c + 1) n in if s == no_slot then rest else (c, s) ∷ rest

run_end_lem :
    (row_slot : List ℕ) (s n c : ℕ)
    → s ≢ no_slot
    → let end = run_end n c row_slot s in
      (c ≤ end)
      × (end ≤ c + n)
      × (located row_slot c n
          ≡ map (λ k. (k, s)) (upto c (end - c)) ++ located row_slot end (c + n - end))
unfolding run_end
run_end_lem row_slot s zero c h =
    let e : c - c ≡ 0 = omega arith in
    let e' : c + 0 - c ≡ 0 = omega arith in (omega arith, omega arith, rw (e, e') refl)
run_end_lem row_slot s (suc n) c h = elim (Bool-cases (get_or row_slot c no_slot == s)) [
  | inr other ↦
      let e : c - c ≡ 0 = omega arith in
      let e' : c + suc n - c ≡ suc n = omega arith in
      rw other (omega arith, omega arith, rw (e, e') refl)
  | inl same ↦
      let (low, high, rest) = run_end_lem row_slot s n (c + 1) h in
      let end = run_end n (c + 1) row_slot s in
      let slot_here : get_or row_slot c no_slot ≡ s = ground arith in
      let e : end - c ≡ suc (end - (c + 1)) = omega arith in
      let e' : c + suc n - end ≡ c + 1 + n - end = omega arith in
      let here : (s == no_slot) ≡ false = ground arith in
      rw same (omega arith, omega arith, rw (e, e', slot_here, here) (ap (◌∷◌ (c, s)) rest))
]

run_end-le : (row_slot : List ℕ) (s n c : ℕ) → c ≤ run_end n c row_slot s
unfolding run_end
run_end-le row_slot s zero c = omega arith
run_end-le row_slot s (suc n) c = ground (arith, run_end-le row_slot s n (c + 1))

run_end-lt :
    (row_slot : List ℕ) (s n c : ℕ)
    → get_or row_slot c no_slot ≡ s
    → c < run_end (suc n) c row_slot s
unfolding run_end
run_end-lt row_slot s n c h =
    let same : (get_or row_slot c no_slot == s) ≡ true = ground arith in
    rw same (omega (arith, run_end-le row_slot s n (c + 1)))

runs_from_lem :
    (row_slot : List ℕ) (w n c : ℕ)
    → w ≤ c + n
    → joined (map pixels (runs_from n c w row_slot)) ≡ located row_slot c (w - c)
unfolding runs_from
runs_from_lem row_slot w zero c fuel = let e : w - c ≡ 0 = omega arith in rw e refl
runs_from_lem row_slot w (suc n) c fuel = elim (Bool-cases (ltb c w)) [
  | inr past ↦ let e : w - c ≡ 0 = ground arith in rw (past, e) refl
  | inl before ↦
      let s = get_or row_slot c no_slot in
      let left : w - c ≡ suc (w - (c + 1)) = ground arith in
      elim (Bool-cases (s == no_slot)) [
        | inl unlocated ↦
            let rest = runs_from_lem row_slot w n (c + 1) (omega arith) in
            rw (before, unlocated, left) (rw unlocated rest)
        | inr found ↦
            let ne : s ≢ no_slot = ground arith in
            let (low, high, split) = run_end_lem row_slot s (w - c) c ne in
            let end = run_end (w - c) c row_slot s in
            let further : c < end = rw left (run_end-lt row_slot s (w - (c + 1)) c refl) in
            let rest = runs_from_lem row_slot w n end (omega arith) in
            let e : c + (w - c) - end ≡ w - end = ground arith in
            rw (before, found, rest) (sym (rw e at split))
      ]
]

-- The runs of a row of width `w` are its located pixels: put together in their order, with the
-- columns of each run one by one, they are the columns that have a slot, in order, each with that slot.
pub runs_of-located :
    (w : ℕ) (row_slot : List ℕ) → joined (map pixels (runs_of w row_slot)) ≡ located row_slot 0 w
unfolding runs_of
runs_of-located w row_slot =
    let e : w - 0 ≡ w = omega arith in rw e at (runs_from_lem row_slot w w 0 (omega arith))
