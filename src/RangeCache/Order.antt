-- ===== src/RangeCache/Order.antt =====
-- The recency order of the range cache: entries sorted by strictly rising ticks.
use a5px.Prelude.{
  ℕ, ◌≤◌, ◌<◌, ◌≡◌, refl, List, [], ◌∷◌, ◌++◌, ite, if_pos, if_neg, arith, none, some, All,
  ℕ_discrete,
}
use a5px.Prelude.Map.{find, remove, insert_sorted}

module _ {V : Type 0} where
  abbrev pub Above : ℕ → List (ℕ × V) → Type 0
  Above t = All (λ e. t < e.0)

  abbrev pub IsRising : List (ℕ × V) → Type 0
  IsRising [] = Unit
  IsRising ((t, v) ∷ m) = Above t m × IsRising m

  abbrev pub UpTo : ℕ → List (ℕ × V) → Type 0
  UpTo top = All (λ e. e.0 ≤ top)

  -- A fresh tick goes to the end.
  pub insert_sorted_last :
      (t : ℕ) (v : V) (m : List (ℕ × V))
      → All (λ e. e.0 < t) m
      → insert_sorted t v m ≡ m ++ ((t, v) ∷ [])
  insert_sorted_last t v [] h = refl
  insert_sorted_last t v ((s, w) ∷ m) h = ground (arith, insert_sorted_last t v m h.1)

  pub find-append :
      (q t : ℕ) (v : V) (m : List (ℕ × V))
      → All (λ e. e.0 < t) m
      → find ℕ_discrete q (m ++ ((t, v) ∷ [])) ≡ ite (ℕ_discrete t q) (some v) (find ℕ_discrete q m)
  find-append q t v [] h = refl
  find-append q t v ((s, w) ∷ m) h = ground (arith, find-append q t v m h.1)

  pub IsRising-append :
      (t : ℕ) (v : V) (m : List (ℕ × V))
      → IsRising m
      → All (λ e. e.0 < t) m
      → IsRising (m ++ ((t, v) ∷ []))
  IsRising-append t v [] r h = (tt, tt)
  IsRising-append t v ((s, w) ∷ m) r h = (go m r.0, IsRising-append t v m r.1 h.1)
    where
      go : (m : List (ℕ × V)) → Above s m → Above s (m ++ ((t, v) ∷ []))
      go [] a = (h.0, tt)
      go (e ∷ m) a = (a.0, go m a.1)

  pub UpTo-append :
      (t : ℕ) (v : V) (m : List (ℕ × V)) → All (λ e. e.0 < t) m → UpTo t (m ++ ((t, v) ∷ []))
  UpTo-append t v [] h = (omega arith, tt)
  UpTo-append t v (e ∷ m) h = (omega arith, UpTo-append t v m h.1)

  pub below-remove :
      (k t : ℕ) (m : List (ℕ × V))
      → All (λ e. e.0 < t) m
      → All (λ e. e.0 < t) (remove ℕ_discrete k m)
  below-remove k t [] h = tt
  below-remove k t ((s, w) ∷ m) h = elim (ℕ_discrete s k) [
    | yes p ↦ rw (if_pos _ p) (below-remove k t m h.1)
    | no p ↦ rw (if_neg _ p) (h.0, below-remove k t m h.1)
  ]

  pub Above-remove : (k t : ℕ) (m : List (ℕ × V)) → Above t m → Above t (remove ℕ_discrete k m)
  Above-remove k t [] h = tt
  Above-remove k t ((s, w) ∷ m) h = elim (ℕ_discrete s k) [
    | yes p ↦ rw (if_pos _ p) (Above-remove k t m h.1)
    | no p ↦ rw (if_neg _ p) (h.0, Above-remove k t m h.1)
  ]

  pub remove-IsRising : (k : ℕ) (m : List (ℕ × V)) → IsRising m → IsRising (remove ℕ_discrete k m)
  remove-IsRising k [] r = tt
  remove-IsRising k ((s, w) ∷ m) r = elim (ℕ_discrete s k) [
    | yes p ↦ rw (if_pos _ p) (remove-IsRising k m r.1)
    | no p ↦ rw (if_neg _ p) (Above-remove k s m r.0, remove-IsRising k m r.1)
  ]

  pub below_of_UpTo : (t top : ℕ) (m : List (ℕ × V)) → top < t → UpTo top m → All (λ e. e.0 < t) m
  below_of_UpTo t top [] l h = tt
  below_of_UpTo t top (e ∷ m) l h = (omega arith, below_of_UpTo t top m l h.1)

  -- The tick of an older entry is no key above it.
  pub find-Above : (t : ℕ) (m : List (ℕ × V)) → Above t m → find ℕ_discrete t m ≡ none
  find-Above t [] h = refl
  find-Above t ((s, w) ∷ m) h = ground (arith, find-Above t m h.1)

  -- A fresh tick is no key.
  pub find_fresh : (t : ℕ) (m : List (ℕ × V)) → All (λ e. e.0 < t) m → find ℕ_discrete t m ≡ none
  find_fresh t [] h = refl
  find_fresh t ((s, w) ∷ m) h = ground (arith, find_fresh t m h.1)
