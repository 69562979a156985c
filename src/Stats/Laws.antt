-- ===== src/Stats/Laws.antt =====
-- The parsing of stats inverts their printing, and the layout chosen carries every stat asked.
use Prim.Native.String.{String}
use text.Mathlib.Text.{◌==◌ as str_eq}
use text.Mathlib.TextEquality.{eq_iff}
use a5px.Prelude.{
  ℕ, ◌≡◌, ◌≢◌, ◌↔◌, refl, sym, arith, List, [], ◌∷◌, Bool, true, false, ◌&&◌, not, ok, collect, map,
  get_elem?, some, zero, suc, Result-cases, ◌∙◌, inl, inr,
}
use a5px.Stats.{
  Stat, mean, sum, count, min, max, var, sd, majority, as_str, parse, needs_cont, any, keep,
  is_stat, is_several, parse_stats, Layout, sums, range, full, is_spread, is_extreme, layout_for,
}

parse-of_ok : (s : String) (t : Stat) → parse s ≡ ok t → s ≡ as_str t
unfolding parse
parse-of_ok s t h = ground (
  arith,
  eq_iff s "mean",
  eq_iff s "sum",
  eq_iff s "count",
  eq_iff s "min",
  eq_iff s "max",
  eq_iff s "var",
  eq_iff s "sd",
  eq_iff s "majority",
)

parse-as_str : (t : Stat) → parse (as_str t) ≡ ok t
unfolding parse
parse-as_str mean = refl
parse-as_str sum = refl
parse-as_str count = refl
parse-as_str min = refl
parse-as_str max = refl
parse-as_str var = refl
parse-as_str sd = refl
parse-as_str majority = refl

-- `parse` accepts exactly the printed stats, each as the stat that prints so.
pub parse_iff : (s : String) (t : Stat) → (parse s ≡ ok t) ↔ (s ≡ as_str t)
parse_iff s t = (parse-of_ok s t, λ e. rw e (parse-as_str t))

collect-parse : (ss : List String) (ts : List Stat) → collect parse ss ≡ ok ts → ss ≡ map as_str ts
collect-parse [] ts h = ground arith
collect-parse (s ∷ ss) ts h = elim (Result-cases (parse s)) [
  | inr (e, p) ↦ absurd (ground (arith, rw p at h))
  | inl (t, p) ↦ elim (Result-cases (collect parse ss)) [
    | inr (e, q) ↦ absurd (ground (arith, rw (p, q) at h))
    | inl (ts', q) ↦
        let tail = collect-parse ss ts' q in
        let same : t ∷ ts' ≡ ts = ground (arith, rw (p, q) at h) in
        rw (← same) (rw (parse-of_ok s t p, tail) refl)
  ]
]

-- A parsed request: the stats are those asked for by name, in order, without "fractions" and "npix";
-- each of the two flags is whether its name was asked for; "fractions" comes alone; and nothing at all
-- is no request.
pub parse_stats_lem :
    (ss : List String) (ts : List Stat) (fractions npix : Bool)
    → parse_stats ss ≡ ok (ts, fractions, npix)
    → (map as_str ts ≡ keep is_stat ss)
      × (ss ≢ [])
      × (npix ≡ any (λ s. str_eq s "npix") ss)
      × (fractions ≡ any (λ s. str_eq s "fractions") ss)
      × (fractions ≡ true → (ss ≡ "fractions" ∷ []) × (ts ≡ []))
unfolding parse_stats
parse_stats_lem [] ts fractions npix h = absurd (ground arith)
parse_stats_lem (s ∷ ss) ts fractions npix h =
    elim (Result-cases (collect parse (keep is_stat (s ∷ ss)))) [
      | inr (e, p) ↦ absurd (ground arith)
      | inl (ts', p) ↦
          let names = collect-parse (keep is_stat (s ∷ ss)) ts' p in
          let same : ts' ≡ ts = ground arith in
          (
            rw (← same) (sym names),
            (λ e. cc),
            ground arith,
            ground arith,
            λ f. alone s ss ts' p same (ground arith),
          )
    ]
  where
    alone :
        (s : String) (ss : List String) (ts' : List Stat)
        → collect parse (keep is_stat (s ∷ ss)) ≡ ok ts'
        → ts' ≡ ts
        → (is_several (s ∷ ss) ≡ false) × (any (λ s. str_eq s "fractions") (s ∷ ss) ≡ true)
        → (s ∷ ss ≡ "fractions" ∷ []) × (ts ≡ [])
    alone s [] ts' p e (a, b) =
        let q : s ≡ "fractions" = ground (arith, eq_iff s "fractions") in
        let none_left : ts' ≡ [] = ground (arith, rw q at p) in (rw q, sym e ∙ none_left)
    alone s (s' ∷ ss) ts' p e (a, b) = absurd (ground arith)

-- The stats that each layout's accumulator keeps the state for.
abbrev pub carries : Layout → Stat → Bool
carries full t = needs_cont t
carries range t = needs_cont t && not (is_spread t)
carries sums t = needs_cont t && not (is_spread t) && not (is_extreme t)

any-of_get :
    (p : Stat → Bool) (ts : List Stat) (i : ℕ) (t : Stat)
    → get_elem? ts i ≡ some t
    → any p ts ≡ false
    → p t ≡ false
any-of_get p [] i t h a = absurd (ground arith)
any-of_get p (x ∷ xs) zero t h a = let e : x ≡ t = ground arith in rw (← e) (ground arith)
any-of_get p (x ∷ xs) (suc i) t h a = any-of_get p xs i t h (ground arith)

-- The layout chosen for a request carries every stat of it that is not `majority`.
pub layout_for-carries :
    (ts : List Stat) (i : ℕ) (t : Stat)
    → get_elem? ts i ≡ some t
    → t ≢ majority
    → carries (layout_for ts) t ≡ true
unfolding layout_for
layout_for-carries ts i t h n =
    ground (arith, any-of_get is_spread ts i t h, any-of_get is_extreme ts i t h)
