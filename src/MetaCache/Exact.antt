-- ===== src/MetaCache/Exact.antt =====
-- What `fetch` returns is the file's, whatever chunks were kept.
use a5px.Prelude.{
  ℕ, zero, suc, ◌+◌, ◌-◌, ◌*◌, ◌/◌, ◌%◌, ◌≤◌, ◌<◌, ◌≡◌, ◌≢◌, refl, sym, ◌∙◌, ap, arith, ◌++◌, leb,
  ltb, ◌⊎◌, length, take, drop, Result, ok, err, min, max, ◌==◌, inl, inr, Bool-cases, Result-cases,
  sub_u64, u64_mod, drop-drop,
}
use a5px.RangeCache.{Bytes}
use a5px.Coalesce.{Range}
use a5px.Reader.Slices.{slice}
use a5px.MetaCache.{
  chunk, Chunks, FetchError, panic, beyond_end, load_chunks, part_of, join_parts, one_part, fetch,
}
use a5px.MetaCache.Loads.{
  take-add, part-cut, Held, load_chunks-AreParts, load_chunks-Held_all, load_chunks-ne_panic,
  AreParts,
}

sound_result :
    {E : Type 0} (file : Bytes) (r : Range) (res : Result (FetchError E) Bytes)
    → (res ≡ ok (slice file r)) ⊎ (res ≡ err (beyond_end r))
    → (res ≢ err panic) × ((b : Bytes) → res ≡ ok b → b ≡ slice file r)
sound_result file r res (inl e) = ((λ h. ground (arith, e)), (λ b h. ground (arith, e)))
sound_result file r res (inr e) = ((λ h. ground (arith, e)), (λ b h. absurd (ground (arith, e))))

-- A range of the file that may be asked for: it ends a chunk or more below 2^64.
pub record IsInFile (r : Range) : Type 0 where
  pub forward : r.start < r.end
  pub fits : r.end + chunk ≤ u64_mod

module _ (file : Bytes) (r : Range) (ok_range : IsInFile r) where
  -- The part of the range in chunk `c`, for a chunk that the range reaches into.
  abbrev lo_of : ℕ → ℕ
  lo_of c = max r.start (c * chunk)

  abbrev hi_of : ℕ → ℕ
  hi_of c = min r.end ((c + 1) * chunk)

  part_of-slice :
      (E : Type 0) (get_bytes : Range → Result E Bytes) (c : ℕ) (chunks : Chunks)
      → AreParts file chunks
      → Held c chunks
      → c * chunk < r.end
      → r.start < (c + 1) * chunk
      → (part_of get_bytes r c chunks ≡ ok (slice file (record { start = lo_of c; end = hi_of c })))
        ⊎ (part_of get_bytes r c chunks ≡ err (beyond_end r))
  unfolding part_of
  part_of-slice E get_bytes c chunks h (b, held) low high =
      let lo = sub_u64 (lo_of c) (c * chunk) in
      let hi = sub_u64 (min r.end ((c + 1) * chunk % u64_mod)) (c * chunk) in
      let lo_eq : lo ≡ lo_of c - c * chunk = omega (arith, ok_range.forward, ok_range.fits) in
      let hi_eq : hi ≡ hi_of c - c * chunk = omega (arith, ok_range.forward, ok_range.fits) in
      elim (Bool-cases (ltb (length b) hi)) [
        | inl short ↦ inr (ground (arith, held, short))
        | inr long ↦
            let cut = part-cut file c lo hi b (h.part c b held) (omega arith) (ground arith) in
            let many : hi - lo ≡ hi_of c - lo_of c = omega arith in
            let from : c * chunk + lo ≡ lo_of c = omega arith in
            let bytes : take (hi - lo) (drop lo b)
                ≡ take (hi_of c - lo_of c) (drop (lo_of c) file) =
              cut ∙ rw (many, from) refl in
            inl (ground (arith, held, long, bytes))
      ]

  abbrev from_of : ℕ → ℕ
  from_of c = min r.end (lo_of c)

  slice-split :
      (a m e : ℕ)
      → a ≤ m
      → m ≤ e
      → slice file (record { start = a; end = e })
        ≡ slice file (record { start = a; end = m }) ++ slice file (record { start = m; end = e })
  slice-split a m e h l =
      let sum : e - a ≡ m - a + (e - m) = omega arith in
      let mid : a + (m - a) ≡ m = omega arith in
      rw sum (
        take-add (m - a) (e - m) (drop a file)
        ∙ ap (λ x. take (m - a) (drop a file) ++ take (e - m) x)
            (drop-drop (m - a) a file ∙ rw mid refl))

  join_parts-slice :
      (E : Type 0) (get_bytes : Range → Result E Bytes) (n c : ℕ) (chunks : Chunks)
      → AreParts file chunks
      → ((k : ℕ) → k < n → Held (c + k) chunks)
      → r.start < (c + 1) * chunk
      → (c + n) * chunk < r.end + chunk
      → r.end ≤ (c + n) * chunk
      → (join_parts get_bytes n r c chunks
          ≡ ok (slice file (record { start = from_of c; end = r.end })))
        ⊎ (join_parts get_bytes n r c chunks ≡ err (beyond_end r))
  unfolding join_parts
  join_parts-slice E get_bytes zero c chunks h held a b d =
      let none_left : r.end - from_of c ≡ 0 = omega arith in inl (rw none_left refl)
  join_parts-slice E get_bytes (suc n) c chunks h held a b d =
      let c0 : c + 0 ≡ c = omega arith in
      let one =
        part_of-slice E get_bytes c chunks h (rw c0 at (held 0 (omega arith))) (omega arith) a in
      let rest =
        join_parts-slice E get_bytes n (c + 1) chunks h
          (λ k l. let e : c + 1 + k ≡ c + suc k = omega arith in rw e (held (suc k) (omega arith)))
          (omega arith) (omega arith) (omega arith) in
      let here : lo_of c ≡ from_of c = omega arith in
      let next : hi_of c ≡ from_of (c + 1) = omega arith in
      let both = slice-split (from_of c) (from_of (c + 1)) r.end (omega arith) (omega arith) in
      elim one [
        | inr short ↦ inr (rw (short, join_parts) refl)
        | inl bytes ↦ elim rest [
          | inr later ↦ inr (rw (bytes, join_parts, later) refl)
          | inl more ↦
              let rest_of = slice file (record { start = from_of (c + 1); end = r.end }) in
              let same : slice file (record { start = lo_of c; end = hi_of c })
                    ++ slice file (record { start = from_of (c + 1); end = r.end })
                  ≡ slice file (record { start = from_of c; end = r.end }) =
                ap (λ x. slice file (record { start = x; end = hi_of c }) ++ rest_of) here
                ∙ ap (λ x. slice file (record { start = from_of c; end = x }) ++ rest_of) next
                ∙ sym both in
              inl (rw (bytes, join_parts, more) (ap ok same))
        ]
      ]

  one_part-slice :
      (E : Type 0) (get_bytes : Range → Result E Bytes) (c : ℕ) (chunks : Chunks)
      → AreParts file chunks
      → Held c chunks
      → c * chunk ≤ r.start
      → (one_part get_bytes r c chunks ≡ ok (slice file r))
        ⊎ (one_part get_bytes r c chunks ≡ err (beyond_end r))
  unfolding one_part
  one_part-slice E get_bytes c chunks h (b, held) low =
      let lo = sub_u64 r.start (c * chunk) in
      let hi = sub_u64 r.end (c * chunk) in
      let lo_eq : lo ≡ r.start - c * chunk = omega (arith, ok_range.forward, ok_range.fits) in
      let hi_eq : hi ≡ r.end - c * chunk = omega (arith, ok_range.forward, ok_range.fits) in
      elim (Bool-cases (ltb (length b) hi)) [
        | inl short ↦ inr (ground (arith, held, short))
        | inr long ↦
            let cut =
              part-cut file c lo hi b (h.part c b held) (omega (arith, ok_range.forward))
                (ground arith) in
            let many : hi - lo ≡ r.end - r.start = omega arith in
            let from : c * chunk + lo ≡ r.start = omega arith in
            let bytes : take (hi - lo) (drop lo b) ≡ slice file r = cut ∙ rw (many, from) refl in
            inl (ground (arith, held, long, bytes))
      ]

-- Over a store that returns the bytes of a range cut short at the end of the file, and chunks that
-- are the file's, a fetch of a range that is empty, or that ends a chunk or more below 2^64, keeps
-- the chunks the file's, never panics, and whatever it returns is exactly the file's bytes of the
-- range.
pub fetch-Exact :
    {E : Type 0} (get_bytes : Range → Result E Bytes) (file : Bytes)
    (exact : (r : Range) (b : Bytes) → get_bytes r ≡ ok b → b ≡ slice file r) (chunks : Chunks)
    (r : Range)
    → AreParts file chunks
    → r.end + chunk ≤ u64_mod
    → let res = fetch get_bytes chunks r in
      AreParts file res.0 × (res.1 ≢ err panic) × ((b : Bytes) → res.1 ≡ ok b → b ≡ slice file r)
unfolding fetch
fetch-Exact {E = E} get_bytes file exact chunks r h fits =
    let first = r.start / chunk in
    let last = (r.end - 1) / chunk in
    let n = last + 1 - first in
    elim (Bool-cases (leb r.end r.start)) [
      | inl empty ↦
          let none_left : r.end - r.start ≡ 0 = ground arith in
          rw empty (h, (λ e. cc), (λ b e. rw none_left (ground arith)))
      | inr some_left ↦
          let range : IsInFile r = record { forward = ground arith; fits = fits } in
          let parts = load_chunks-AreParts get_bytes file exact n r first chunks h in
          elim (Result-cases (load_chunks get_bytes n r first chunks).1) [
            | inr (e, bad) ↦
                rw (some_left, fetch, bad)
                  (
                    parts,
                    (λ p. load_chunks-ne_panic get_bytes n r first chunks (ground (arith, p))),
                    (λ b p. absurd (ground (arith, p))),
                  )
            | inl (u, good) ↦
                let held = load_chunks-Held_all get_bytes file exact n r first chunks good in
                let start : first + 0 ≡ first = omega arith in
                let from : from_of file r range first ≡ r.start = omega (arith, range.forward) in
                let chunks' = (load_chunks get_bytes n r first chunks).0 in
                let joined =
                  join_parts-slice file r range E get_bytes n first chunks' parts held (omega arith)
                    (omega (arith, range.forward)) (omega (arith, range.forward)) in
                elim (Bool-cases (first == last)) [
                  | inl same ↦
                      let one =
                        one_part-slice file r range E get_bytes first chunks' parts
                          (rw start at (held 0 (ground (arith, same)))) (omega arith) in
                      let sound = sound_result file r _ one in
                      rw (some_left, fetch, good, same) (parts, sound.0, sound.1)
                  | inr more ↦
                      let sound = sound_result file r _ (rw from at joined) in
                      rw (some_left, fetch, good, more) (parts, sound.0, sound.1)
                ]
          ]
    ]
