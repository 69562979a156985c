-- ===== src/MetaCache/Loads.antt =====
-- What the first loop of `fetch` leaves in the chunks.
use a5px.Prelude.{
  ℕ, zero, suc, ◌+◌, ◌-◌, ◌*◌, ◌≤◌, ◌<◌, ◌≡◌, ◌≢◌, sym, ◌∙◌, ap, arith, [], ◌∷◌, ◌++◌, some, leb,
  length, take, drop, Result, ok, err, ℕ_discrete, inl, inr, Bool-cases, Option-cases, Result-cases,
  length-take, add_u64, take-drop-take, drop-drop,
}
use a5px.Prelude.Map.{find, find-put}
use a5px.RangeCache.{Bytes}
use a5px.Coalesce.{Range}
use a5px.Reader.Slices.{slice}
use a5px.MetaCache.{
  chunk, Chunks, panic, need_of, has_enough, read_chunk, load_chunk, load_chunks, from_store,
}

pub take-add : (a b : ℕ) (xs : Bytes) → take (a + b) xs ≡ take a xs ++ take b (drop a xs)
take-add zero b xs = let e : 0 + b ≡ b = omega arith in rw e
take-add (suc a) zero [] = let e : suc a + 0 ≡ suc (a + 0) = omega arith in rw e
take-add (suc a) (suc b) [] = let e : suc a + suc b ≡ suc (a + suc b) = omega arith in rw e
take-add (suc a) b (x ∷ xs) =
    let e : suc a + b ≡ suc (a + b) = omega arith in rw e (ap (◌∷◌ x) (take-add a b xs))

-- From one index on: it, and those after it.
this-or_later :
    (P : ℕ → Type 0) (c n : ℕ)
    → P c
    → ((k : ℕ) → k < n → P (c + 1 + k))
    → (k : ℕ) → k < suc n
    → P (c + k)
this-or_later P c n first rest zero h = let e : c + 0 ≡ c = omega arith in rw e first
this-or_later P c n first rest (suc k) h =
    let e : c + suc k ≡ c + 1 + k = omega arith in rw e (rest k (omega arith))

-- Chunk `c` as kept: the file's bytes from the chunk's first on, as far as they were read.
abbrev pub IsPart : Bytes → ℕ → Bytes → Type 0
IsPart file c b = (n : ℕ) × (b ≡ take n (drop (c * chunk) file))

pub record AreParts (file : Bytes) (chunks : Chunks) : Type 0 where
  pub part : (c : ℕ) (b : Bytes) → find ℕ_discrete c chunks ≡ some b → IsPart file c b

abbrev pub Held : ℕ → Chunks → Type 0
Held c chunks = (b : Bytes) × (find ℕ_discrete c chunks ≡ some b)

-- A part that is long enough has the file's bytes.
pub part-cut :
    (file : Bytes) (c lo hi : ℕ) (b : Bytes)
    → IsPart file c b
    → lo ≤ hi
    → hi ≤ length b
    → take (hi - lo) (drop lo b) ≡ take (hi - lo) (drop (c * chunk + lo) file)
part-cut file c lo hi b (n, e) h l =
    let long : hi ≤ n = omega (arith, length-take n (drop (c * chunk) file), ap length e) in
    rw e (take-drop-take (hi - lo) lo n (drop (c * chunk) file) (omega arith))
    ∙ ap (take (hi - lo)) (drop-drop lo (c * chunk) file)

module _ {E : Type 0} (get_bytes : Range → Result E Bytes) (file : Bytes)
    (exact : (r : Range) (b : Bytes) → get_bytes r ≡ ok b → b ≡ slice file r) where
  from_store-IsPart :
      (c need : ℕ) (b : Bytes)
      → from_store get_bytes
          (get_bytes (record { start = c * chunk; end = add_u64 (c * chunk) need }))
        ≡ ok b
      → IsPart file c b
  from_store-IsPart c need b h =
      elim (Result-cases
        (get_bytes (record { start = c * chunk; end = add_u64 (c * chunk) need }))) [
          | inr (e, bad) ↦ absurd (ground (arith, rw bad at h))
          | inl (b', good) ↦
              let same : b' ≡ b = ground (arith, rw good at h) in
              (add_u64 (c * chunk) need - c * chunk, sym same ∙ exact _ b' good)
        ]

  read_chunk-IsPart :
      (c need : ℕ) (b : Bytes) → read_chunk get_bytes (c * chunk) need ≡ ok b → IsPart file c b
  unfolding read_chunk
  read_chunk-IsPart c need b h =
      let base = c * chunk in
      elim (Result-cases (get_bytes (record { start = base; end = add_u64 base chunk }))) [
        | inr (e, bad) ↦ from_store-IsPart c need b (rw (bad, read_chunk) at h)
        | inl (b', good) ↦ elim (Bool-cases (leb need (length b'))) [
          | inl enough ↦
              let same : b' ≡ b = ground (arith, rw (good, enough, read_chunk) at h) in
              (add_u64 base chunk - base, sym same ∙ exact _ b' good)
          | inr short ↦ from_store-IsPart c need b (rw (good, short, read_chunk) at h)
        ]
      ]

  load_chunk-AreParts :
      (r : Range) (c : ℕ) (chunks : Chunks)
      → AreParts file chunks
      → AreParts file (load_chunk get_bytes r c chunks).0
  unfolding load_chunk
  load_chunk-AreParts r c chunks h =
      elim (Bool-cases (has_enough get_bytes (find ℕ_discrete c chunks) (need_of r c))) [
        | inl enough ↦ rw enough h
        | inr short ↦
            rw short (elim (Result-cases (read_chunk get_bytes (c * chunk) (need_of r c))) [
              | inr (e, bad) ↦ rw bad h
              | inl (b, good) ↦ rw good (record {
                part = λ c' b' f. elim (ℕ_discrete c c') [
                  | no n ↦
                      h.part c' b' (ground (arith, rw (find-put ℕ_discrete c c' b chunks) at f))
                  | yes p ↦
                      let same : b ≡ b' =
                        ground (arith, rw (find-put ℕ_discrete c c' b chunks) at f) in
                      rw (← p, ← same) (read_chunk-IsPart c (need_of r c) b good)
                ];
              })
            ])
      ]

  -- A chunk once kept is kept, and a chunk loaded is there.
  load_chunk-Held :
      (r : Range) (c k : ℕ) (chunks : Chunks)
      → Held k chunks
      → Held k (load_chunk get_bytes r c chunks).0
  unfolding load_chunk
  load_chunk-Held r c k chunks (b', held) =
      elim (Bool-cases (has_enough get_bytes (find ℕ_discrete c chunks) (need_of r c))) [
        | inl enough ↦ rw enough (b', held)
        | inr short ↦
            rw short (elim (Result-cases (read_chunk get_bytes (c * chunk) (need_of r c))) [
              | inr (e, bad) ↦ rw bad (b', held)
              | inl (b, good) ↦ rw good (elim (ℕ_discrete c k) [
                | no n ↦ (b', ground (arith, find-put ℕ_discrete c k b chunks))
                | yes p ↦ (b, ground (arith, find-put ℕ_discrete c k b chunks))
              ])
            ])
      ]

  load_chunk-Held_self :
      (r : Range) (c : ℕ) (chunks : Chunks)
      → (load_chunk get_bytes r c chunks).1 ≡ ok tt
      → Held c (load_chunk get_bytes r c chunks).0
  unfolding load_chunk
  load_chunk-Held_self r c chunks h = elim (Option-cases (find ℕ_discrete c chunks)) [
    | inr (b, has) ↦ load_chunk-Held r c c chunks (b, has)
    | inl root ↦ elim (Result-cases (read_chunk get_bytes (c * chunk) (need_of r c))) [
      | inr (e, bad) ↦ absurd (ground (arith, rw (root, bad) at h))
      | inl (b, good) ↦ rw (root, good) (b, ground (arith, find-put ℕ_discrete c c b chunks))
    ]
  ]

  -- The whole first loop.
  pub load_chunks-AreParts :
      (n : ℕ) (r : Range) (c : ℕ) (chunks : Chunks)
      → AreParts file chunks
      → AreParts file (load_chunks get_bytes n r c chunks).0
  unfolding load_chunks
  load_chunks-AreParts zero r c chunks h = h
  load_chunks-AreParts (suc n) r c chunks h =
      let one = load_chunk-AreParts r c chunks h in
      elim (Result-cases (load_chunk get_bytes r c chunks).1) [
        | inr (e, bad) ↦ rw (bad, load_chunks) one
        | inl (u, good) ↦
            rw (good, load_chunks)
              (load_chunks-AreParts n r (c + 1) (load_chunk get_bytes r c chunks).0 one)
      ]

  load_chunks-Held :
      (n : ℕ) (r : Range) (c k : ℕ) (chunks : Chunks)
      → Held k chunks
      → Held k (load_chunks get_bytes n r c chunks).0
  unfolding load_chunks
  load_chunks-Held zero r c k chunks h = h
  load_chunks-Held (suc n) r c k chunks h =
      let one = load_chunk-Held r c k chunks h in
      elim (Result-cases (load_chunk get_bytes r c chunks).1) [
        | inr (e, bad) ↦ rw (bad, load_chunks) one
        | inl (u, good) ↦
            rw (good, load_chunks)
              (load_chunks-Held n r (c + 1) k (load_chunk get_bytes r c chunks).0 one)
      ]

  pub load_chunks-Held_all :
      (n : ℕ) (r : Range) (c : ℕ) (chunks : Chunks)
      → (load_chunks get_bytes n r c chunks).1 ≡ ok tt
      → (k : ℕ) → k < n
      → Held (c + k) (load_chunks get_bytes n r c chunks).0
  unfolding load_chunks
  load_chunks-Held_all zero r c chunks h k lt = elim lt [ ]
  load_chunks-Held_all (suc n) r c chunks h k lt =
      let after = (load_chunk get_bytes r c chunks).0 in
      elim (Result-cases (load_chunk get_bytes r c chunks).1) [
        | inr (e, bad) ↦ absurd (ground (arith, rw (bad, load_chunks) at h))
        | inl (u, good) ↦
            let rest = load_chunks-Held_all n r (c + 1) after (rw (good, load_chunks) at h) in
            let first =
              load_chunks-Held n r (c + 1) c after (load_chunk-Held_self r c chunks good) in
            rw (good, load_chunks)
              (this-or_later (λ i. Held i (load_chunks get_bytes n r (c + 1) after).0) c n first
                rest k lt)
      ]

module _ {E : Type 0} (get_bytes : Range → Result E Bytes) where
  from_store-ne_panic : (x : Result E Bytes) → from_store get_bytes x ≢ err panic
  from_store-ne_panic (ok b) h = cc
  from_store-ne_panic (err e) h = cc

  read_chunk-ne_panic : (base need : ℕ) → read_chunk get_bytes base need ≢ err panic
  unfolding read_chunk
  read_chunk-ne_panic base need h =
      let part =
        from_store-ne_panic (get_bytes (record { start = base; end = add_u64 base need })) in
      elim (Result-cases (get_bytes (record { start = base; end = add_u64 base chunk }))) [
        | inr (e, bad) ↦ part (rw (bad, read_chunk) at h)
        | inl (b, good) ↦ elim (Bool-cases (leb need (length b))) [
          | inl enough ↦ absurd (ground (arith, rw (good, enough, read_chunk) at h))
          | inr short ↦ part (rw (good, short, read_chunk) at h)
        ]
      ]

  pub load_chunks-ne_panic :
      (n : ℕ) (r : Range) (c : ℕ) (chunks : Chunks)
      → (load_chunks get_bytes n r c chunks).1 ≢ err panic
  unfolding load_chunks load_chunk
  load_chunks-ne_panic zero r c chunks h = cc
  load_chunks-ne_panic (suc n) r c chunks h = ground (
    arith,
    read_chunk-ne_panic (c * chunk) (need_of r c),
    load_chunks-ne_panic n r (c + 1) (load_chunk get_bytes r c chunks).0,
  )
