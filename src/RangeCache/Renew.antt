-- ===== src/RangeCache/Renew.antt =====
-- A key that takes a fresh tick at the end of the recency order: what `get` and `insert` share.
use a5px.Prelude.{ℕ, ◌<◌, ◌≡◌, refl, ◌≢◌, List, [], ◌∷◌, ◌++◌, arith, none, some, All, ℕ_discrete}
use a5px.Prelude.Map.{find, put, remove, find-put, find-remove, put-IsDistinct, IsDistinct}
use a5px.RangeCache.{Bytes}
use a5px.RangeCache.Order.{IsRising, IsRising-append, find-append, find_fresh, remove-IsRising}
use a5px.RangeCache.Valid.{total, IsLinked}

module _ {K : Type 0} (dec : Discrete K) where
  -- Map and order agree but for `key`, which the order does not hold.
  pub record IsLinkedBut (key : K) (m : List (K × (Bytes × ℕ))) (order : List (ℕ × K))
      : Type 0 where
    pub distinct : IsDistinct m
    pub rising : IsRising order
    pub in_order :
        (k : K) (e : Bytes × ℕ)
        → key ≢ k
        → find dec k m ≡ some e
        → find ℕ_discrete e.1 order ≡ some k
    pub in_map :
        (t : ℕ) (k : K)
        → find ℕ_discrete t order ≡ some k
        → (b : Bytes) × (key ≢ k) × (find dec k m ≡ some (b, t))

  module _ (key : K) (m : List (K × (Bytes × ℕ))) (order : List (ℕ × K)) (b : Bytes) (t : ℕ) where
    pub append-IsLinked :
        All (λ e. e.0 < t) order
        → IsLinkedBut key m order
        → IsLinked dec
            (put dec key (b, t) m)
            (order ++ ((t, key) ∷ []))
            (total (put dec key (b, t) m))
    append-IsLinked low l = record {
      distinct = put-IsDistinct dec key (b, t) m l.distinct;
      rising = IsRising-append t key order l.rising low;
      in_order = λ k e f. in_order k e f;
      in_map = λ s k f. in_map s k f;
      counted = refl;
    }
      where
        in_order :
            (k : K) (e : Bytes × ℕ)
            → find dec k (put dec key (b, t) m) ≡ some e
            → find ℕ_discrete e.1 (order ++ ((t, key) ∷ [])) ≡ some k
        in_order k e f = elim (dec key k) [
          | yes p ↦ ground (arith, find-put dec key k (b, t) m, find-append e.1 t key order low)
          | no p ↦ ground (
            arith,
            find-put dec key k (b, t) m,
            find-append e.1 t key order low,
            l.in_order k e p,
            find_fresh t order low,
          )
        ]

        in_map :
            (s : ℕ) (k : K)
            → find ℕ_discrete s (order ++ ((t, key) ∷ [])) ≡ some k
            → (b' : Bytes) × (find dec k (put dec key (b, t) m) ≡ some (b', s))
        in_map s k f = elim (ℕ_discrete t s) [
          | yes p ↦ (b, ground (arith, find-put dec key k (b, t) m, find-append s t key order low))
          | no p ↦
              let (b', n, g) = l.in_map s k (ground (arith, find-append s t key order low)) in
              (b', ground (arith, find-put dec key k (b, t) m))
        ]

  pub absent-IsLinkedBut :
      (key : K) (m : List (K × (Bytes × ℕ))) (order : List (ℕ × K)) (bytes : ℕ)
      → find dec key m ≡ none
      → IsLinked dec m order bytes
      → IsLinkedBut key m order
  absent-IsLinkedBut key m order bytes h l = record {
    distinct = l.distinct;
    rising = l.rising;
    in_order = λ k e n f. l.in_order k e f;
    in_map = λ t k f. let (b, g) = l.in_map t k f in (b, (λ e. absurd (ground arith)), g);
  }

  pub remove-IsLinkedBut :
      (key : K) (m : List (K × (Bytes × ℕ))) (order : List (ℕ × K)) (bytes : ℕ) (b : Bytes)
      (old : ℕ)
      → find dec key m ≡ some (b, old)
      → IsLinked dec m order bytes
      → IsLinkedBut key m (remove ℕ_discrete old order)
  remove-IsLinkedBut key m order bytes b old h l = record {
    distinct = l.distinct;
    rising = remove-IsRising old order l.rising;
    in_order = λ k e n f.
        ground (
          arith,
          l.in_order k e f,
          l.in_order key (b, old) h,
          find-remove ℕ_discrete old e.1 order,
        );
    in_map = λ t k f. in_map t k f;
  }
    where
      in_map :
          (t : ℕ) (k : K)
          → find ℕ_discrete t (remove ℕ_discrete old order) ≡ some k
          → (b' : Bytes) × (key ≢ k) × (find dec k m ≡ some (b', t))
      in_map t k f =
          let kept = find-remove ℕ_discrete old t order in
          let (b', g) = l.in_map t k (ground arith) in (b', (λ e. absurd (ground arith)), g)
