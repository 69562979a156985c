-- ===== src/Reader/Ranges.antt =====
-- `CachedReader::get_byte_ranges` and `get_bytes`: what they return is what the file holds.
use a5px.Prelude.{
  ℕ, ◌+◌, ◌-◌, ◌≤◌, ◌<◌, ◌≡◌, ◌≢◌, refl, ◌∙◌, ap, arith, List, [], ◌∷◌, Option, some, All, length,
  get_elem?, map, zip, inl, inr, Result, Result-cases, ok, err, add_u64, All-zip, All-of_zip,
}
use a5px.RangeCache.{Bytes}
use a5px.RangeCache.Reads.{IsCoherent}
use a5px.Coalesce.{Range, coalesce, coalesce_gap, max_merged}
use a5px.Coalesce.Cover.{IsProper, coalesce-place, get_elem?-lt}
use a5px.Reader.{
  Key, ReadError, panic, ObjectReader, CachedReader, Session, look_up, missing, fill, unwrap_all,
  fetch, fetch_all, load, get_byte_ranges,
}
use a5px.Reader.Slices.{slice}
use a5px.Reader.Fill.{content, Filled, IsFetched, fill_lem}
use a5px.Reader.Missing.{
  get_elem?-map, get_elem?-of_map, missing-input, missing-finds, unwrap_all-Filled, Served,
  look_up_lem, IsReader,
}

module _ {S E : Type 0} (file : Bytes) (inner : ObjectReader E) (rd : IsReader file inner) where
  -- A request leaves the cache alone, and returns the file's bytes.
  fetch_lem :
      (s : Session S) (r : Range)
      → ((fetch inner s r).0.cache ≡ s.cache)
        × ((fetch inner s r).1 ≢ err panic)
        × ((b : Bytes) → (fetch inner s r).1 ≡ ok b → b ≡ slice file r)
  unfolding fetch
  fetch_lem s r = elim (Result-cases (inner.get_bytes r)) [
    | inr (e, bad) ↦ rw (bad, fetch) (refl, (λ e. cc), λ b e. cc)
    | inl (b, good) ↦ rw (good, fetch) (refl, (λ e. cc), λ b' e. ground (arith, rd.exact r b good))
  ]

  fetch_all_lem :
      (s : Session S) (reqs : List Range)
      → let res = fetch_all inner s reqs in
        (res.0.cache ≡ s.cache)
        × (res.1 ≢ err panic)
        × ((bs : List Bytes) → res.1 ≡ ok bs → bs ≡ map (slice file) reqs)
  unfolding fetch_all
  fetch_all_lem s [] = (refl, (λ e. cc), λ bs e. ground arith)
  fetch_all_lem s (r ∷ reqs) =
      let s' = (fetch inner s r).0 in
      let (held, np₁, exact) = fetch_lem s r in
      let (same, np, all) = fetch_all_lem s' reqs in
      elim (Result-cases (fetch inner s r).1) [
        | inr (e, bad) ↦
            rw (bad, fetch_all)
              (held, (λ e'. let p : e ≡ panic = cc in np₁ (bad ∙ ap err p)), λ bs e'. cc)
        | inl (b, good) ↦
            rw (good, fetch_all)
              (elim (Result-cases (fetch_all inner s' reqs).1) [
                | inr (e, bad) ↦ rw bad (
                  same ∙ held,
                  (λ e'. let p : e ≡ panic = cc in np (bad ∙ ap err p)),
                  λ bs e'. cc,
                )
                | inl (bs', done) ↦
                    rw done
                      (same ∙ held, (λ e. cc), λ bs e. ground (arith, all bs' done, exact b good))
              ])
      ]

module _ {S E : Type 0} (dec : Discrete (Key S)) (files : S → Bytes) (k : S) where
  module _ (meanwhile : Session S → Session S)
      (steady : (s : Session S)
        → IsCoherent dec (content files) s.cache
        → IsCoherent dec (content files) (meanwhile s).cache)
      (inner : ObjectReader E) (rd : IsReader (files k) inner) where
    -- What a read promises: the cache stays coherent, there is no panic, and a result is the ranges
    -- of the file.
    abbrev Exact : List Range → Session S × Result (ReadError E) (List Bytes) → Type 0
    Exact ranges res =
        IsCoherent dec (content files) res.0.cache
        × (res.1 ≢ err panic)
        × ((bs : List Bytes) → res.1 ≡ ok bs → bs ≡ map (slice (files k)) ranges)

    load-Exact :
        (s : Session S) (ranges : List Range) (out : List (Option Bytes))
        → ((j : ℕ) (r : Range) → get_elem? ranges j ≡ some r → IsProper r)
        → IsCoherent dec (content files) s.cache
        → length out ≡ length ranges
        → ((j : ℕ) → j < length ranges → Served dec files k ranges out j)
        → Exact ranges (load dec meanwhile inner k s out (missing 0 ranges out))
    unfolding load
    load-Exact s ranges out proper co len served =
        elim (Result-cases (fetch_all inner (meanwhile s) plan.0).1) [
          | inr (e, bad) ↦
              rw (bad, load)
                (co₁, (λ e'. let p : e ≡ panic = cc in np (bad ∙ ap err p)), λ bs e'. cc)
          | inl (got, good) ↦
              let items : All (IsFetched (files k) ranges got (length out)) (zip lack plan.1) =
                All-zip _ lack plan.1 λ m e p a b. item got (all got good) m e p a b in
              let (co₂, np₂, full) =
                fill_lem {E = E} dec files k ranges got
                  (fetch_all inner (meanwhile s) plan.0).0.cache out (zip lack plan.1) co₁ items in
              rw (good, load)
                (elim (Result-cases
                  (fill {E = E} dec k (fetch_all inner (meanwhile s) plan.0).0.cache out got
                    (zip lack plan.1)).1) [
                      | inr (e, bad) ↦
                          rw bad (
                            co₂,
                            (λ e'. let p : e ≡ panic = cc in np₂ (bad ∙ ap err p)),
                            λ bs e'. cc,
                          )
                      | inl (out', done) ↦
                          let (len', filled, keep) = full out' done in
                          let unwrapped =
                            unwrap_all-Filled {E = E} (files k) ranges out' (len' ∙ len)
                              (λ j. whole out' filled keep j) in
                          rw done (rw unwrapped (co₂, (λ e. cc), λ bs e. ground arith))
                    ])
        ]
      where
        lack : List (ℕ × Range)
        lack = missing 0 ranges out

        plan : List Range × List (ℕ × ℕ)
        plan = coalesce (map (λ e. e.1) lack) coalesce_gap max_merged

        fetched :
            ((fetch_all inner (meanwhile s) plan.0).0.cache ≡ (meanwhile s).cache)
            × ((fetch_all inner (meanwhile s) plan.0).1 ≢ err panic)
            × ((bs : List Bytes)
                → (fetch_all inner (meanwhile s) plan.0).1 ≡ ok bs
                → bs ≡ map (slice (files k)) plan.0)
        fetched = fetch_all_lem (files k) inner rd (meanwhile s) plan.0

        np : (fetch_all inner (meanwhile s) plan.0).1 ≢ err panic
        np = fetched.1

        all :
            (bs : List Bytes)
            → (fetch_all inner (meanwhile s) plan.0).1 ≡ ok bs
            → bs ≡ map (slice (files k)) plan.0
        all = fetched.2

        co₁ : IsCoherent dec (content files) (fetch_all inner (meanwhile s) plan.0).0.cache
        co₁ = rw fetched.0 (steady s co)

        input :
            (m : ℕ) (e : ℕ × Range)
            → get_elem? lack m ≡ some e
            → (get_elem? ranges e.0 ≡ some e.1) × (e.0 < length out)
        input m e h =
            let (j, a, b, c) = missing-input 0 ranges out m e h in
            let same : e.0 ≡ j = omega arith in rw same (b, c)

        place :
            (m : ℕ) (e : ℕ × Range)
            → get_elem? lack m ≡ some e
            → (p : ℕ × ℕ) × (q : Range) × (get_elem? plan.1 m ≡ some p)
              × (get_elem? plan.0 p.0 ≡ some q)
              × (q.start + p.1 ≡ e.1.start)
              × (e.1.end ≤ q.end)
        place m e h =
            coalesce-place coalesce_gap max_merged (map (λ e. e.1) lack)
              (λ i r g.
                let (f, x, y) = get_elem?-of_map (λ (e : ℕ × Range). e.1) lack i r g in
                rw (← y) (proper f.0 f.1 (input i f x).0))
              m e.1 (get_elem?-map (λ (e : ℕ × Range). e.1) lack m e h)

        item :
            (got : List Bytes)
            → got ≡ map (slice (files k)) plan.0
            → (m : ℕ) (e : ℕ × Range) (p : ℕ × ℕ) → get_elem? lack m ≡ some e
            → get_elem? plan.1 m ≡ some p
            → IsFetched (files k) ranges got (length out) (e, p)
        item got same m e p a b =
            let (p', q, x, y, z, w) = place m e a in
            let (asked, room) = input m e a in
            let eq : p' ≡ p = ground arith in
            record {
              proper = proper e.0 e.1 asked;
              asked = asked;
              room = room;
              request = q;
              bytes = rw (same, ← eq) (get_elem?-map (slice (files k)) plan.0 p'.0 q y);
              offset = rw (← eq) z;
              reach = w;
            }

        whole :
            (out' : List (Option Bytes))
            → All (λ it. Filled (files k) ranges out' it.0.0) (zip lack plan.1)
            → ((j : ℕ) → Filled (files k) ranges out j → Filled (files k) ranges out' j)
            → (j : ℕ) → Filled (files k) ranges out' j
        whole out' filled keep j r h = elim (served j (get_elem?-lt ranges j r h)) [
          | inr f ↦ keep j f r h
          | inl miss ↦
              let (m, found) = missing-finds 0 ranges out j r h miss in
              let here : 0 + j ≡ j = omega arith in
              let (p, q, x, y, z, w) = place m (0 + j, r) found in
              rw here at
                (All-of_zip (λ it. Filled (files k) ranges out' it.0.0) lack plan.1 m (0 + j, r) p
                  filled found x)
                r h
        ]

    -- `get_byte_ranges` of a source with a key, over a store whose bytes are the file's, cut short at
    -- its end, for unreversed 64-bit ranges, with a cache that is right and other threads that keep it
    -- so: the cache stays right, there is no panic, and a result without an error is exactly the file's
    -- bytes of each range, whatever was cached or merged.
    pub get_byte_ranges-Exact :
        (reader : CachedReader S E) (s : Session S) (ranges : List Range)
        → reader.inner ≡ inner
        → reader.key ≡ some k
        → ((j : ℕ) (r : Range) → get_elem? ranges j ≡ some r → IsProper r)
        → IsCoherent dec (content files) s.cache
        → let res = get_byte_ranges dec meanwhile reader s ranges in
          IsCoherent dec (content files) res.0.cache
          × (res.1 ≢ err panic)
          × ((bs : List Bytes) → res.1 ≡ ok bs → bs ≡ map (slice (files k)) ranges)
    unfolding get_byte_ranges
    get_byte_ranges-Exact reader s ranges same keyed proper co =
        let (co', len, served) = look_up_lem dec files k s.cache ranges co in
        let s' : Session S = record s {
          cache = (look_up dec k s.cache ranges).0;
          hits = add_u64 s.hits (
              length (look_up dec k s.cache ranges).1
              - length (missing 0 ranges (look_up dec k s.cache ranges).1));
          misses = add_u64 s.misses (length (missing 0 ranges (look_up dec k s.cache ranges).1));
        } in
        rw keyed (
          rw same (
            split ranges (look_up dec k s.cache ranges).1 s' co' len served
              (missing 0 ranges (look_up dec k s.cache ranges).1) refl
              (load-Exact s' ranges (look_up dec k s.cache ranges).1 proper co' len served)))
      where
        split :
            (ranges : List Range) (out : List (Option Bytes)) (s : Session S)
            → IsCoherent dec (content files) s.cache
            → length out ≡ length ranges
            → ((j : ℕ) → j < length ranges → Served dec files k ranges out j)
            → (lack : List (ℕ × Range)) → missing 0 ranges out ≡ lack
            → Exact ranges (load dec meanwhile inner k s out lack)
            → Exact ranges (elim lack [
              | [] ↦ (s, unwrap_all out)
              | e ∷ es ↦ load dec meanwhile inner k s out (e ∷ es)
            ])
        split ranges out s co len served (e ∷ es) m x = x
        split ranges out s co len served [] m x =
            let all : (j : ℕ) → Filled (files k) ranges out j = λ j r h.
              elim (served j (get_elem?-lt ranges j r h)) [
                | inr f ↦ f r h
                | inl miss ↦
                    let (n, found) = missing-finds 0 ranges out j r h miss in
                    absurd (ground (arith, rw m at found))
              ] in
            rw (unwrap_all-Filled {E = E} (files k) ranges out len all)
              (co, (λ e. cc), λ bs e. ground arith)
