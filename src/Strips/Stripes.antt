-- ===== src/Strips/Stripes.antt =====
-- The stripes of a tile are its rows.
use a5px.Prelude.{
  ℕ, zero, suc, ◌+◌, ◌-◌, ◌≤◌, ◌<◌, ◌≡◌, refl, sym, ◌∙◌, ap, arith, List, [], ◌∷◌, ◌++◌, ltb, min,
  map, All, Bool-cases, inl, inr,
}
use a5px.Strips.{stripe_rows, stripes_from, stripes}
use a5px.Strips.Cover.{joined}

-- `n` numbers from `s` on.
abbrev pub upto : ℕ → ℕ → List ℕ
upto s zero = []
upto s (suc n) = s ∷ upto (s + 1) n

-- The rows of a stripe.
abbrev pub rows : ℕ × ℕ → List ℕ
rows r = upto r.0 (r.1 - r.0)

upto-append : (s a b : ℕ) → upto s (a + b) ≡ upto s a ++ upto (s + a) b
upto-append s zero b =
    let e : 0 + b ≡ b = omega arith in let e' : s + 0 ≡ s = omega arith in rw (e, e') refl
upto-append s (suc a) b =
    let e : suc a + b ≡ suc (a + b) = omega arith in
    let e' : s + suc a ≡ s + 1 + a = omega arith in
    rw (e, e') (ap (◌∷◌ s) (upto-append (s + 1) a b))

joined-stripes_from :
    (n r0 h : ℕ) → h ≤ r0 + n → joined (map rows (stripes_from n r0 h)) ≡ upto r0 (h - r0)
unfolding stripes_from
joined-stripes_from zero r0 h fuel = let e : h - r0 ≡ 0 = omega arith in rw e refl
joined-stripes_from (suc n) r0 h fuel = elim (Bool-cases (ltb r0 h)) [
  | inr past ↦ let e : h - r0 ≡ 0 = ground arith in rw (past, e) refl
  | inl before ↦
      let top = min (r0 + stripe_rows) h in
      let low : r0 < h = ground arith in
      let rest = joined-stripes_from n (r0 + stripe_rows) h (omega arith) in
      let past_top : upto (r0 + (top - r0)) (h - (r0 + stripe_rows))
          ≡ upto (r0 + stripe_rows) (h - (r0 + stripe_rows)) =
        elim (Bool-cases (ltb h (r0 + stripe_rows))) [
          | inl short ↦
              let none_left : h - (r0 + stripe_rows) ≡ 0 = ground arith in rw none_left refl
          | inr full ↦
              let reach : r0 + (top - r0) ≡ r0 + stripe_rows = ground arith in rw reach refl
        ] in
      let sum : h - r0 ≡ top - r0 + (h - (r0 + stripe_rows)) = omega arith in
      rw (before, rest, sum)
        (sym (
          upto-append r0 (top - r0) (h - (r0 + stripe_rows))
          ∙ ap (λ xs. upto r0 (top - r0) ++ xs) past_top))
]

stripes_from-bounds :
    (n r0 h : ℕ)
    → All (λ r. (r.0 < r.1) × (r.1 ≤ r.0 + stripe_rows) × (r.1 ≤ h)) (stripes_from n r0 h)
unfolding stripes_from
stripes_from-bounds zero r0 h = tt
stripes_from-bounds (suc n) r0 h = elim (Bool-cases (ltb r0 h)) [
  | inr past ↦ rw past tt
  | inl before ↦
      let low : r0 < h = ground arith in
      rw before
        ((omega arith, omega arith, omega arith), stripes_from-bounds n (r0 + stripe_rows) h)
]

-- The stripes of a tile `h` rows high, put together, are its rows in order, so each row is in one
-- stripe; none is empty, higher than the limit or past the last row.
pub stripes_lem :
    (h : ℕ)
    → (joined (map rows (stripes h)) ≡ upto 0 h)
      × All (λ r. (r.0 < r.1) × (r.1 ≤ r.0 + stripe_rows) × (r.1 ≤ h)) (stripes h)
unfolding stripes
stripes_lem h =
    let e : h - 0 ≡ h = omega arith in
    (rw e at (joined-stripes_from h 0 h (omega arith)), stripes_from-bounds h 0 h)
