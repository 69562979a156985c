-- ===== src/Aggregate/Writes.antt =====
-- What the chunked fills of `Aggregate` in src/rust/src/read.rs write: each row's values, at its places.
use a5px.Prelude.{
  ℕ, zero, suc, ◌+◌, ◌-◌, ◌*◌, ◌≤◌, ◌<◌, ◌≡◌, ◌≢◌, ◌⊎◌, refl, sym, ◌∙◌, ap, arith, List, [], ◌∷◌,
  false, some, ltb, ◌==◌, length, get_elem?, take, drop, replicate, set, length-set, length-take,
  length-drop, length-replicate, get_elem?-set_self, get_elem?-set_ne, get_elem?-append_left,
  get_elem?-append_right, get_elem?-take, get_elem?-drop, get_elem?-length, get_elem?-map, inl, inr,
  Bool-cases,
}
use a5px.Float.{F64}
use a5px.Stats.{Stat}
use a5px.Layouts.{AccLayout}
use a5px.Store.Merge.{value}
use a5px.Aggregate.{
  write_bands, fill_rows, fill_chunks, Aggregate, part_at, cell_value, flat_into, flat_chunk,
  column_chunk, column_into, columns_from, columns_into, into_output,
}

mul_mono : (a b w : ℕ) → a ≤ b → a * w ≤ b * w
mul_mono a b w h =
    let c = b - a in
    let e : b ≡ a + c = omega (arith, h) in
    let d : (a + c) * w ≡ a * w + c * w = grind arith in rw e (omega (arith, d))

split_mul : (r a c w : ℕ) → r ≡ a + c → r * w ≡ a * w + c * w
split_mul r a c w e = let d : (a + c) * w ≡ a * w + c * w = grind arith in rw e d

-- A chunk of the rows has room in its chunk of the values.
chunk_room :
    {T : Type 0} (chunk width : ℕ) (order : List (ℕ × ℕ)) (out : List T)
    → length out ≡ length order * width
    → length (take chunk order) * width ≤ length (take (chunk * width) out)
chunk_room chunk width order out full =
    let few = length-take chunk order in
    let a = mul_mono (length (take chunk order)) chunk width (omega (arith, few)) in
    let b = mul_mono (length (take chunk order)) (length order) width (omega (arith, few)) in
    omega (arith, a, b, full, length-take (chunk * width) out)

module _ {T : Type 0} where
  pub length-write_bands :
      (base b n : ℕ) (v : ℕ → T) (out : List T) → length (write_bands base b n v out) ≡ length out
  length-write_bands base b zero v out = refl
  length-write_bands base b (suc n) v out =
      length-write_bands base (b + 1) n v (set out (base + b) (v b))
      ∙ length-set out (base + b) (v b)

  -- Elsewhere.
  pub write_bands_other :
      (base b n : ℕ) (v : ℕ → T) (out : List T) (j : ℕ)
      → (j < base + b) ⊎ (base + b + n ≤ j)
      → get_elem? (write_bands base b n v out) j ≡ get_elem? out j
  write_bands_other base b zero v out j h = refl
  write_bands_other base b (suc n) v out j h =
      let apart : (j < base + (b + 1)) ⊎ (base + (b + 1) + n ≤ j) = omega (arith, h) in
      write_bands_other base (b + 1) n v (set out (base + b) (v b)) j apart
      ∙ get_elem?-set_ne out (v b) (omega (arith, h))

  pub write_bands_at :
      (base b n : ℕ) (v : ℕ → T) (out : List T) (q : ℕ)
      → b ≤ q
      → q < b + n
      → base + b + n ≤ length out
      → get_elem? (write_bands base b n v out) (base + q) ≡ some (v q)
  write_bands_at base b zero v out q lo hi room = absurd (omega (arith, lo, hi))
  write_bands_at base b (suc n) v out q lo hi room =
      let out' = set out (base + b) (v b) in
      let same : length out' ≡ length out = length-set out (base + b) (v b) in
      elim (Bool-cases (b == q)) [
        | inl first ↦
            let e : b ≡ q = ground (arith, first) in
            rw (← e) (
              write_bands_other base (b + 1) n v out' (base + b) (inl (omega arith))
              ∙ get_elem?-set_self out (base + b) (v b) (omega (arith, room)))
        | inr later ↦
            let ne : b ≢ q = ground (arith, later) in
            write_bands_at base (b + 1) n v out' q (omega (arith, lo, ne)) (omega (arith, hi))
              (omega (arith, room, same))
      ]

  module _ (width : ℕ) (v : ℕ × ℕ → ℕ → T) where
    length-fill_rows :
        (k : ℕ) (order : List (ℕ × ℕ)) (out : List T)
        → length (fill_rows width v k order out) ≡ length out
    length-fill_rows k [] out = refl
    length-fill_rows k (o ∷ order) out =
        length-fill_rows (k + 1) order (write_bands (k * width) 0 width (v o) out)
        ∙ length-write_bands (k * width) 0 width (v o) out

    -- The rows before.
    fill_rows_before :
        (k : ℕ) (order : List (ℕ × ℕ)) (out : List T) (j : ℕ)
        → j < k * width
        → get_elem? (fill_rows width v k order out) j ≡ get_elem? out j
    fill_rows_before k [] out j h = refl
    fill_rows_before k (o ∷ order) out j h =
        let next : (k + 1) * width ≡ k * width + width = grind arith in
        fill_rows_before (k + 1) order (write_bands (k * width) 0 width (v o) out) j
          (omega (arith, h, next))
        ∙ write_bands_other (k * width) 0 width (v o) out j (inl (omega (arith, h)))

    fill_rows_at :
        (k : ℕ) (order : List (ℕ × ℕ)) (out : List T) (r b : ℕ) (o : ℕ × ℕ)
        → (k + length order) * width ≤ length out
        → b < width
        → get_elem? order r ≡ some o
        → get_elem? (fill_rows width v k order out) ((k + r) * width + b) ≡ some (v o b)
    fill_rows_at k [] out r b o room lo h = absurd (ground (arith, h))
    fill_rows_at k (x ∷ order) out zero b o room lo h =
        let e : x ≡ o = ground (arith, h) in
        let z : (k + 0) * width ≡ k * width = grind arith in
        let next : (k + 1) * width ≡ k * width + width = grind arith in
        let all : (k + suc (length order)) * width ≡ k * width + width + length order * width =
          grind arith in
        rw (z, ← e)
          (fill_rows_before (k + 1) order (write_bands (k * width) 0 width (v x) out)
              (k * width + b) (omega (arith, lo, next))
            ∙ write_bands_at (k * width) 0 width (v x) out b (omega arith) (omega (arith, lo))
                (omega (arith, room, all)))
    fill_rows_at k (x ∷ order) out (suc r) b o room lo h =
        let out' = write_bands (k * width) 0 width (v x) out in
        let e : k + suc r ≡ k + 1 + r = omega arith in
        let z : k + suc (length order) ≡ k + 1 + length order = omega arith in
        rw e (
          fill_rows_at (k + 1) order out' r b o
            (rw (length-write_bands (k * width) 0 width (v x) out) (rw z at room)) lo h)

    -- Chunk by chunk, each row's values stand at its places.
    fill_chunks_at :
        (n chunk : ℕ) (order : List (ℕ × ℕ)) (out : List T) (r b : ℕ) (o : ℕ × ℕ)
        → length order ≤ n
        → 0 < chunk
        → length out ≡ length order * width
        → b < width
        → get_elem? order r ≡ some o
        → get_elem? (fill_chunks width v n chunk order out) (r * width + b) ≡ some (v o b)
    unfolding fill_chunks
    fill_chunks_at zero chunk [] out r b o fuel pos full lo h = absurd (ground (arith, h))
    fill_chunks_at zero chunk (x ∷ order) out r b o fuel pos full lo h =
        absurd (omega (arith, fuel))
    fill_chunks_at (suc n) chunk [] out r b o fuel pos full lo h = absurd (ground (arith, h))
    fill_chunks_at (suc n) chunk (x ∷ order) out r b o fuel pos full lo h =
        let xs = x ∷ order in
        let first = fill_rows width v 0 (take chunk xs) (take (chunk * width) out) in
        let rest = fill_chunks width v n chunk (drop chunk xs) (drop (chunk * width) out) in
        elim (Bool-cases (ltb r chunk)) [
          | inl near ↦
              let z : 0 + r ≡ r = omega arith in
              let none_before : 0 + length (take chunk xs) ≡ length (take chunk xs) = omega arith in
              get_elem?-append_left first rest (r * width + b) (v o b) (
                rw z at (
                  fill_rows_at 0 (take chunk xs) (take (chunk * width) out) r b o
                    (rw none_before (chunk_room chunk width xs out full)) lo
                    (get_elem?-take chunk xs r (ground (arith, near)) ∙ h)))
          | inr far ↦
              let beyond : chunk ≤ r = ground (arith, far) in
              let inside : r < length xs = get_elem?-length xs r o h in
              let wide = mul_mono chunk (length xs) width (omega (arith, beyond, inside)) in
              let size : length first ≡ chunk * width =
                length-fill_rows 0 (take chunk xs) (take (chunk * width) out)
                ∙ (length-take (chunk * width) out ∙ omega (arith, wide, full)) in
              let c = r - chunk in
              let split : r ≡ chunk + c = omega (arith, beyond) in
              let place : r * width + b ≡ length first + (c * width + b) =
                rw size (omega (arith, split_mul r chunk c width split)) in
              let left : length (drop (chunk * width) out) ≡ length (drop chunk xs) * width =
                (let whole : length xs ≡ chunk + (length xs - chunk) =
                    omega (arith, beyond, inside) in
                  let product = split_mul (length xs) chunk (length xs - chunk) width whole in
                  rw (length-drop (chunk * width) out, length-drop chunk xs)
                    (omega (arith, full, product))) in
              let there : get_elem? (drop chunk xs) c ≡ some o =
                get_elem?-drop chunk xs c ∙ (ap (λ i. get_elem? xs i) (sym split) ∙ h) in
              rw place (
                get_elem?-append_right first rest (c * width + b)
                ∙ fill_chunks_at n chunk (drop chunk xs) (drop (chunk * width) out) c b o
                    (omega (arith, fuel, length-drop chunk xs, pos)) pos left lo there)
        ]

module _ {A L : Type 0} ⦃f : F64 A⦄ ⦃l : AccLayout A L⦄ where
  column_into-row :
      {T : Type 0} (agg : Aggregate A L) (stat : Stat) (conv : A → T) (r b : ℕ) (o : ℕ × ℕ)
      → length agg.order ≡ length agg.cells
      → get_elem? agg.order r ≡ some o
      → get_elem? (column_into agg stat conv b) r ≡ some (conv (cell_value agg stat o b))
  column_into-row agg stat conv r b o same h =
      let blank = replicate (length agg.cells) (conv f.naught) in
      let full : length blank ≡ length agg.order * 1 =
        length-replicate (length agg.cells) (conv f.naught) ∙ omega (arith, same) in
      let e : r * 1 + 0 ≡ r = omega arith in
      rw e at (
        fill_chunks_at 1 (λ o z. conv (cell_value agg stat o b)) (length agg.order) column_chunk
          agg.order blank r 0 o (omega arith) (omega arith) full (omega arith) h)

  columns_from-column :
      {T : Type 0} (agg : Aggregate A L) (stat : Stat) (conv : A → T) (from n b : ℕ)
      → b < n
      → get_elem? (columns_from agg stat conv from n) b
        ≡ some (column_into agg stat conv (from + b))
  columns_from-column agg stat conv from zero b h = absurd (omega (arith, h))
  columns_from-column agg stat conv from (suc n) zero h =
      let e : from + 0 ≡ from = omega arith in rw e refl
  columns_from-column agg stat conv from (suc n) (suc b) h =
      let e : from + suc b ≡ from + 1 + b = omega arith in
      rw e (columns_from-column agg stat conv (from + 1) n b (omega (arith, h)))

  flat_into-row :
      (agg : Aggregate A L) (stat : Stat) (out : List A) (r b : ℕ) (o : ℕ × ℕ)
      → length out ≡ length agg.order * agg.n_out
      → b < agg.n_out
      → get_elem? agg.order r ≡ some o
      → get_elem? (flat_into agg stat out) (r * agg.n_out + b) ≡ some (cell_value agg stat o b)
  unfolding flat_into
  flat_into-row agg stat out r b o full lo h =
      let bands : (agg.n_out == 0) ≡ false = ground (arith, lo) in
      rw bands (
        fill_chunks_at agg.n_out (cell_value agg stat) (length agg.order) flat_chunk agg.order out r
          b o (omega arith) (omega arith) full lo h)

  -- Row by row and column by column, an output has the same values: for a band, and a row whose place is
  -- cell `i` of a partition, that cell's value in the band stands in the flat values of the statistic, at
  -- the row times the number of bands plus the band, and, converted, in the band's column, at the row; it
  -- does where there is a place for each cell, in the output of a statistic of the aggregate.
  pub into_output-columns_into :
      {T : Type 0} (agg : Aggregate A L) (conv : A → T) (s : ℕ) (stat : Stat) (r b p i : ℕ)
      → length agg.order ≡ length agg.cells
      → b < agg.n_out
      → get_elem? agg.stats s ≡ some stat
      → get_elem? agg.order r ≡ some (p, i)
      → ((flat : List A) × ((get_elem? (into_output agg).flat_values s ≡ some flat)
            × (get_elem? flat (r * agg.n_out + b) ≡ some (value (part_at agg.parts p) stat i b))))
        × ((column : List T) × ((get_elem? (columns_into agg stat conv) b ≡ some column)
              × (get_elem? column r ≡ some (conv (value (part_at agg.parts p) stat i b)))))
  unfolding into_output columns_into
  into_output-columns_into agg conv s stat r b p i same lo at place =
      let blank = replicate (length agg.cells * agg.n_out) f.naught in
      let z : 0 + b ≡ b = omega arith in
      let full : length blank ≡ length agg.order * agg.n_out =
        length-replicate (length agg.cells * agg.n_out) f.naught
        ∙ ap (λ n. n * agg.n_out) (sym same) in
      (
        (
          flat_into agg stat blank,
          (
            get_elem?-map (λ s. flat_into agg s blank) agg.stats s stat at,
            flat_into-row agg stat blank r b (p, i) full lo place,
          ),
        ),
        (
          column_into agg stat conv b,
          (
            rw z at (columns_from-column agg stat conv 0 agg.n_out b lo),
            column_into-row agg stat conv r b (p, i) same place,
          ),
        ),
      )
