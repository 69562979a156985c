-- ===== src/Reader/Missing.antt =====
-- The parts of `CachedReader::get_byte_ranges` around its two critical sections.
use a5px.Prelude.{
  ℕ, ◌+◌, ◌<◌, ◌≡◌, ◌⊎◌, refl, ap, arith, List, [], ◌∷◌, zero, suc, Option, none, some, length,
  get_elem?, map, Option-cases, inl, inr, ok,
}
use a5px.RangeCache
use a5px.RangeCache.{RangeCache, Bytes}
use a5px.RangeCache.Reads.{IsCoherent, get-IsCoherent, get-eq-content}
use a5px.Coalesce.{Range}
use a5px.Reader.{Key, ObjectReader, key_of, look_up, missing, unwrap_all}
use a5px.Reader.Slices.{slice}
use a5px.Reader.Fill.{content, Filled}

module _ {A B : Type 0} (f : A → B) where
  pub get_elem?-map :
      (xs : List A) (i : ℕ) (x : A) → get_elem? xs i ≡ some x → get_elem? (map f xs) i ≡ some (f x)
  get_elem?-map [] i x h = absurd (ground arith)
  get_elem?-map (y ∷ ys) zero x h = ground arith
  get_elem?-map (y ∷ ys) (suc i) x h = get_elem?-map ys i x h

  pub get_elem?-of_map :
      (xs : List A) (i : ℕ) (y : B)
      → get_elem? (map f xs) i ≡ some y
      → (x : A) × (get_elem? xs i ≡ some x) × (f x ≡ y)
  get_elem?-of_map [] i y h = absurd (ground arith)
  get_elem?-of_map (x ∷ xs) zero y h = (x, refl, ground arith)
  get_elem?-of_map (x ∷ xs) (suc i) y h = get_elem?-of_map xs i y h

-- A missing range is one of the inputs.
pub missing-input :
    (i : ℕ) (rs : List Range) (out : List (Option Bytes)) (m : ℕ) (e : ℕ × Range)
    → get_elem? (missing i rs out) m ≡ some e
    → (j : ℕ) × (e.0 ≡ i + j) × (get_elem? rs j ≡ some e.1) × (j < length out)
unfolding missing
missing-input i [] out m e h = absurd (ground arith)
missing-input i (r ∷ rs) [] m e h = absurd (ground arith)
missing-input i (r ∷ rs) (none ∷ out) zero e h = (0, ground arith, ground arith, omega arith)
missing-input i (r ∷ rs) (none ∷ out) (suc m) e h =
    let (j, a, b, c) = missing-input (i + 1) rs out m e h in (suc j, omega arith, b, omega arith)
missing-input i (r ∷ rs) (some b ∷ out) m e h =
    let (j, a, b, c) = missing-input (i + 1) rs out m e h in (suc j, omega arith, b, omega arith)

-- An input that was not served is missing.
pub missing-finds :
    (i : ℕ) (rs : List Range) (out : List (Option Bytes)) (j : ℕ) (r : Range)
    → get_elem? rs j ≡ some r
    → get_elem? out j ≡ some none
    → (m : ℕ) × (get_elem? (missing i rs out) m ≡ some (i + j, r))
unfolding missing
missing-finds i [] out j r h g = absurd (ground arith)
missing-finds i (s ∷ rs) [] j r h g = absurd (ground arith)
missing-finds i (s ∷ rs) (none ∷ out) zero r h g = (0, ground arith)
missing-finds i (s ∷ rs) (some b ∷ out) zero r h g = absurd (ground arith)
missing-finds i (s ∷ rs) (none ∷ out) (suc j) r h g =
    let (m, e) = missing-finds (i + 1) rs out j r h g in
    let there : i + suc j ≡ i + 1 + j = omega arith in (suc m, rw there e)
missing-finds i (s ∷ rs) (some b ∷ out) (suc j) r h g =
    let (m, e) = missing-finds (i + 1) rs out j r h g in
    let there : i + suc j ≡ i + 1 + j = omega arith in (m, rw there e)

pub unwrap_all-Filled :
    {E : Type 0} (file : Bytes) (ranges : List Range) (out : List (Option Bytes))
    → length out ≡ length ranges
    → ((j : ℕ) → Filled file ranges out j)
    → unwrap_all {E = E} out ≡ ok (map (slice file) ranges)
unfolding unwrap_all
unwrap_all-Filled file [] [] l f = refl
unwrap_all-Filled file [] (o ∷ out) l f = absurd (omega arith)
unwrap_all-Filled file (r ∷ rs) [] l f = absurd (omega arith)
unwrap_all-Filled file (r ∷ rs) (none ∷ out) l f = absurd (ground (arith, f 0 r refl))
unwrap_all-Filled {E} file (r ∷ rs) (some b ∷ out) l f =
    let same : b ≡ slice file r = ground (arith, f 0 r refl) in
    let rest = unwrap_all-Filled {E = E} file rs out (omega arith) (λ j s h. f (suc j) s h) in
    rw (rest, same)

module _ {S : Type 0} (dec : Discrete (Key S)) (files : S → Bytes) (k : S) where
  -- Not served from the cache, or filled with its bytes.
  abbrev pub Served : List Range → List (Option Bytes) → ℕ → Type 0
  Served ranges out j = (get_elem? out j ≡ some none) ⊎ Filled (files k) ranges out j

  pub look_up_lem :
      (c : RangeCache (Key S)) (ranges : List Range)
      → IsCoherent dec (content files) c
      → let res = look_up dec k c ranges in
        IsCoherent dec (content files) res.0
        × (length res.1 ≡ length ranges)
        × ((j : ℕ) → j < length ranges → Served ranges res.1 j)
  unfolding look_up
  look_up_lem c [] co = (co, refl, λ j h. absurd (omega arith))
  look_up_lem c (r ∷ rs) co =
      let hit = RangeCache.get dec c (key_of k r) in
      let (co', len, served) =
        look_up_lem hit.0 rs (get-IsCoherent dec (content files) c (key_of k r) co) in
      (co', ap suc len, λ j h. at j h served)
    where
      at :
          (j : ℕ)
          → j < suc (length rs)
          → ((j : ℕ)
              → j < length rs
              → Served rs (look_up dec k (RangeCache.get dec c (key_of k r)).0 rs).1 j)
          → Served
              (r ∷ rs)
              ((RangeCache.get dec c (key_of k r)).1
                ∷ (look_up dec k (RangeCache.get dec c (key_of k r)).0 rs).1)
              j
      at zero h served = elim (Option-cases (RangeCache.get dec c (key_of k r)).1) [
        | inl miss ↦ inl (ap some miss)
        | inr (b, hit) ↦ inr λ s e.
            let same : r ≡ s = ground arith in
            rw (hit, ← same)
              (ap (λ x. some (some x)) (get-eq-content dec (content files) c (key_of k r) co b hit))
      ]
      at (suc j) h served = served j (omega arith)

module _ {E : Type 0} (file : Bytes) where
  -- What the object store promises of a source: a range's bytes, cut short at the end of the file.
  pub record IsReader (inner : ObjectReader E) : Type 0 where
    pub exact : (r : Range) (b : Bytes) → inner.get_bytes r ≡ ok b → b ≡ slice file r
    pub exact_ranges :
        (rs : List Range) (bs : List Bytes)
        → inner.get_byte_ranges rs ≡ ok bs
        → bs ≡ map (slice file) rs
