-- ===== src/Reader/Fill.antt =====
-- The two critical sections of `CachedReader::get_byte_ranges`.
use a5px.Prelude.{
  ℕ, ◌+◌, ◌≤◌, ◌<◌, ◌≡◌, ◌≢◌, sym, ◌∙◌, ap, arith, List, [], ◌∷◌, Option, some, All, length,
  get_elem?, set, ltb, Bool-cases, inl, inr, ok, err, sub_u64, add_u64, get_elem?-set_self,
  get_elem?-set_ne, length-set, ℕ_discrete,
}
use a5px.RangeCache
use a5px.RangeCache.{RangeCache, Bytes}
use a5px.RangeCache.Reads.{IsCoherent, insert-IsCoherent}
use a5px.Coalesce.{Range}
use a5px.Coalesce.Cover.{IsProper}
use a5px.Reader.{Key, panic, key_of, cut, fill}
use a5px.Reader.Slices.{slice, cut-slice}

-- What the ranges of every source hold.
abbrev pub content : {S : Type 0} → (S → Bytes) → Key S → Bytes
content files key = slice (files key.0) (record { start = key.1; end = key.2 })

module _ (file : Bytes) where
  -- A missing range, and where it lies in the requests' bytes.
  pub record IsFetched (ranges : List Range) (got : List Bytes) (n : ℕ)
      (item : (ℕ × Range) × (ℕ × ℕ)) : Type 0 where
    pub proper : IsProper item.0.1
    pub asked : get_elem? ranges item.0.0 ≡ some item.0.1
    pub room : item.0.0 < n
    pub request : Range
    pub bytes : get_elem? got item.1.0 ≡ some (slice file request)
    pub offset : request.start + item.1.1 ≡ item.0.1.start
    pub reach : item.0.1.end ≤ request.end

  -- The range asked for at `j` is filled with its bytes.
  abbrev pub Filled : List Range → List (Option Bytes) → ℕ → Type 0
  Filled ranges out j =
      (r : Range) → get_elem? ranges j ≡ some r → get_elem? out j ≡ some (some (slice file r))

  Filled-set :
      (ranges : List Range) (out : List (Option Bytes)) (i j : ℕ) (r : Range)
      → get_elem? ranges i ≡ some r
      → i < length out
      → Filled ranges out j
      → Filled ranges (set out i (some (slice file r))) j
  Filled-set ranges out i j r a h f s b = elim (ℕ_discrete i j) [
    | yes p ↦
        let same : r ≡ s = ground arith in
        rw (← p, ← same) (get_elem?-set_self out i (some (slice file r)) h)
    | no p ↦ get_elem?-set_ne out (some (slice file r)) p ∙ f s b
  ]

module _ {S E : Type 0} (dec : Discrete (Key S)) (files : S → Bytes) (k : S) where
  pub fill_lem :
      (ranges : List Range) (got : List Bytes) (c : RangeCache (Key S)) (out : List (Option Bytes))
      (items : List ((ℕ × Range) × (ℕ × ℕ)))
      → IsCoherent dec (content files) c
      → All (IsFetched (files k) ranges got (length out)) items
      → let res = fill {E = E} dec k c out got items in
        IsCoherent dec (content files) res.0
        × (res.1 ≢ err panic)
        × ((out' : List (Option Bytes))
            → res.1 ≡ ok out'
            → (length out' ≡ length out)
              × All (λ it. Filled (files k) ranges out' it.0.0) items
              × ((j : ℕ) → Filled (files k) ranges out j → Filled (files k) ranges out' j))
  unfolding fill
  fill_lem ranges got c out [] co a = (
    co,
    (λ e. cc),
    λ out' e.
        let same : out ≡ out' = ground arith in (ap length (sym same), tt, λ j f. rw (← same) f),
  )
  fill_lem ranges got c out (((i, r), (n, off)) ∷ items) co (h, a) =
      elim (Bool-cases (ltb (length g) hi)) [
        | inl short ↦ rw (h.bytes, fill) (rw short (co, (λ e. cc), λ out' e. absurd (ground arith)))
        | inr long ↦
            let exact : cut g off hi ≡ slice (files k) r =
              cut-slice (files k) h.request r off h.proper h.offset h.reach (ground arith) in
            let out₁ = set out i (some (slice (files k) r)) in
            let size = length-set out i (some (slice (files k) r)) in
            let (co', np, rest) =
              fill_lem ranges got (RangeCache.insert dec c (key_of k r) (slice (files k) r)) out₁
                items (insert-IsCoherent dec (content files) c (key_of k r) co) (rw size a) in
            rw (h.bytes, fill)
              (rw (long, exact)
                (
                  co',
                  np,
                  λ out' e.
                      let (len, all, keep) = rest out' e in
                      (
                        len ∙ size,
                        (
                          keep i λ s b.
                              let same : r ≡ s = ground (arith, h.asked) in
                              rw (← same)
                                (get_elem?-set_self out i (some (slice (files k) r)) h.room),
                          all,
                        ),
                        λ j f. keep j (Filled-set (files k) ranges out i j r h.asked h.room f),
                      ),
                ))
      ]
    where
      g : Bytes
      g = slice (files k) h.request

      hi : ℕ
      hi = sub_u64 (add_u64 off r.end) r.start
