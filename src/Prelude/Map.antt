-- ===== src/Prelude/Map.antt =====
-- `HashMap` as an association list and `BTreeMap` as one sorted by its key. The order of a
-- `HashMap`'s entries is never read by the code.
use Prim.Native.Nat.{ℕ}
use mathlib.Core.Path.{◌≡◌, refl, sym}
use mathlib.Core.Logic.{◌≢◌, ite, if_pos, if_neg}
use mathlib.Core.List.{List, [], ◌∷◌}
use mathlib.Core.Option.{Option, none, some}
use native.Mathlib.Decide.{dec_lt, ℕ_discrete}
use native.Mathlib.Omega.{arith}
use a5px.Prelude.Lists.{All}

-- No key twice.
abbrev pub IsDistinct {ℓ} : {K V : Type ℓ} → List (K × V) → Type ℓ
IsDistinct [] = Unit
IsDistinct ((k, v) ∷ m) = All (λ e. e.0 ≢ k) m × IsDistinct m

module _ {ℓ} {K V : Type ℓ} (dec : Discrete K) where
  -- `HashMap::get`
  abbrev pub find : K → List (K × V) → Option V
  find k [] = none
  find k ((j, v) ∷ m) = ite (dec j k) (some v) (find k m)

  -- `HashMap::remove`
  abbrev pub remove : K → List (K × V) → List (K × V)
  remove k [] = []
  remove k ((j, v) ∷ m) = let rest = remove k m in ite (dec j k) rest ((j, v) ∷ rest)

  -- `HashMap::insert`, and a write through `get_mut`
  abbrev pub put : K → V → List (K × V) → List (K × V)
  put k v [] = (k, v) ∷ []
  put k v ((j, w) ∷ m) = ite (dec j k) ((j, v) ∷ m) ((j, w) ∷ put k v m)

  pub find-remove :
      (k q : K) (m : List (K × V)) → find q (remove k m) ≡ ite (dec k q) none (find q m)
  find-remove k q [] = ground arith
  find-remove k q ((j, v) ∷ m) = ground (arith, find-remove k q m)

  pub find-put :
      (k q : K) (v : V) (m : List (K × V)) → find q (put k v m) ≡ ite (dec k q) (some v) (find q m)
  find-put k q v [] = ground arith
  find-put k q v ((j, w) ∷ m) = ground (arith, find-put k q v m)

  -- A key that no entry has is not found, and removing it changes nothing.
  pub find_absent : (k : K) (m : List (K × V)) → All (λ e. e.0 ≢ k) m → find k m ≡ none
  find_absent k [] h = refl
  find_absent k ((j, v) ∷ m) h = ground (arith, find_absent k m h.1)

  pub remove_absent : (k : K) (m : List (K × V)) → All (λ e. e.0 ≢ k) m → remove k m ≡ m
  remove_absent k [] h = refl
  remove_absent k ((j, v) ∷ m) h = ground (arith, remove_absent k m h.1)

  pub absent_of_find : (k : K) (m : List (K × V)) → find k m ≡ none → All (λ e. e.0 ≢ k) m
  absent_of_find k [] h = tt
  absent_of_find k ((j, v) ∷ m) h = elim (dec j k) [
    | yes p ↦ absurd (ground arith)
    | no p ↦ (p, absent_of_find k m (ground arith))
  ]

  absent-remove :
      (k q : K) (m : List (K × V)) → All (λ e. e.0 ≢ q) m → All (λ e. e.0 ≢ q) (remove k m)
  absent-remove k q [] h = tt
  absent-remove k q ((j, v) ∷ m) h = elim (dec j k) [
    | yes p ↦ rw (if_pos _ p) (absent-remove k q m h.1)
    | no p ↦ rw (if_neg _ p) (h.0, absent-remove k q m h.1)
  ]

  absent-put :
      (k q : K) (v : V) (m : List (K × V))
      → k ≢ q
      → All (λ e. e.0 ≢ q) m
      → All (λ e. e.0 ≢ q) (put k v m)
  absent-put k q v [] n h = (n, tt)
  absent-put k q v ((j, w) ∷ m) n h = elim (dec j k) [
    | yes p ↦ rw (if_pos _ p) h
    | no p ↦ rw (if_neg _ p) (h.0, absent-put k q v m n h.1)
  ]

  pub remove-IsDistinct : (k : K) (m : List (K × V)) → IsDistinct m → IsDistinct (remove k m)
  remove-IsDistinct k [] h = tt
  remove-IsDistinct k ((j, v) ∷ m) h = elim (dec j k) [
    | yes p ↦ rw (if_pos _ p) (remove-IsDistinct k m h.1)
    | no p ↦ rw (if_neg _ p) (absent-remove k j m h.0, remove-IsDistinct k m h.1)
  ]

  pub put-IsDistinct : (k : K) (v : V) (m : List (K × V)) → IsDistinct m → IsDistinct (put k v m)
  put-IsDistinct k v [] h = (tt, tt)
  put-IsDistinct k v ((j, w) ∷ m) h = elim (dec j k) [
    | yes p ↦ rw (if_pos _ p) h
    | no p ↦ rw (if_neg _ p) (absent-put k j v m (λ e. p (sym e)) h.0, put-IsDistinct k v m h.1)
  ]

-- `BTreeMap::insert`
abbrev pub insert_sorted {ℓ} : {V : Type ℓ} → ℕ → V → List (ℕ × V) → List (ℕ × V)
insert_sorted t v [] = (t, v) ∷ []
insert_sorted t v ((s, w) ∷ m) =
    ite (dec_lt t s) ((t, v) ∷ (s, w) ∷ m)
      (ite (ℕ_discrete t s) ((t, v) ∷ m) ((s, w) ∷ insert_sorted t v m))
