-- ===== src/Aggregate/Shares.antt =====
-- The class shares of `into_output` in src/rust/src/read.rs: the offsets of a band give each cell's slice.
pub mod Listed
use a5px.Prelude.{
  ℕ, zero, suc, ◌+◌, ◌-◌, ◌%◌, ◌^◌, ◌≤◌, ◌<◌, ◌≡◌, ◌≢◌, ◌⊎◌, refl, sym, ◌∙◌, ap, arith, List, [],
  ◌∷◌, ◌++◌, true, ltb, ◌==◌, length, take, drop, get_or, map, length-append, length-modify,
  length-map, length-replicate, get_or-modify_self, get_or-modify_ne, get_or-replicate, Bool-cases,
  inl, inr,
}
use mathlib.Core.List.{append_assoc, append-nil}
use a5px.Prelude.Int.{ℤ, pos, negsuc}
use a5px.Float.{F64}
use a5px.Classes.{ClassWeights}
use a5px.Aggregate.{
  FracOut, as_i32, sorted_classes, total_weight, shown, push_shares, push_cell_shares,
  push_all_shares, no_shares,
}

abbrev pub to_nat : ℤ → ℕ
to_nat (pos n) = n
to_nat (negsuc n) = 0

abbrev pub concat : {T : Type 0} → List (List T) → List T
concat [] = []
concat (x ∷ xs) = x ++ concat xs

-- The slices that offsets delimit.
pub slices : {T : Type 0} → List ℤ → List T → List (List T)
slices [] xs = []
slices (lo ∷ []) xs = []
slices (lo ∷ hi ∷ os) xs = take (to_nat hi - to_nat lo) (drop (to_nat lo) xs) ∷ slices (hi ∷ os) xs

-- The offsets after slices of given lengths.
abbrev offsets_from : ℕ → List ℕ → List ℤ
offsets_from n [] = []
offsets_from n (k ∷ ks) = as_i32 (n + k) ∷ offsets_from (n + k) ks

to_nat-as_i32 : (n : ℕ) → n < 2 ^ 31 → to_nat (as_i32 n) ≡ n
to_nat-as_i32 n h =
    let whole : n % 2 ^ 32 ≡ n = omega (arith, h) in
    let low : ltb n (2 ^ 31) ≡ true = ground (arith, h) in rw (whole, low) refl

drop-append : {T : Type 0} (xs ys : List T) → drop (length xs) (xs ++ ys) ≡ ys
drop-append [] ys = refl
drop-append (x ∷ xs) ys = drop-append xs ys

take-append : {T : Type 0} (xs ys : List T) → take (length xs) (xs ++ ys) ≡ xs
take-append [] ys = refl
take-append (x ∷ xs) ys = ap (◌∷◌ x) (take-append xs ys)

slices-offsets_from :
    {T : Type 0} (pre : List T) (rows : List (List T)) (lo : ℤ)
    → length pre + length (concat rows) < 2 ^ 31
    → to_nat lo ≡ length pre
    → slices (lo ∷ offsets_from (length pre) (map length rows)) (pre ++ concat rows) ≡ rows
unfolding slices
slices-offsets_from pre [] lo small e = refl
slices-offsets_from pre (row ∷ rows) lo small e =
    let whole = length-append row (concat rows) in
    let high : to_nat (as_i32 (length pre + length row)) ≡ length pre + length row =
      to_nat-as_i32 (length pre + length row) (omega (arith, small, whole)) in
    let size : length pre + length row - length pre ≡ length row = omega arith in
    let joined : length (pre ++ row) ≡ length pre + length row = length-append pre row in
    let here : take (length row) (drop (length pre) (pre ++ (row ++ concat rows))) ≡ row =
      rw (drop-append pre (row ++ concat rows)) (take-append row (concat rows)) in
    let there =
      slices-offsets_from (pre ++ row) rows (as_i32 (length pre + length row))
        (omega (arith, small, whole, joined)) (high ∙ sym joined) in
    let flat = append_assoc pre row (concat rows) in
    rw (e, high, size, here) (ap (◌∷◌ row) (rw (joined, flat) at there))

length-concat :
    {T U : Type 0} (xs : List (List T)) (ys : List (List U))
    → map length xs ≡ map length ys
    → length (concat xs) ≡ length (concat ys)
length-concat [] [] h = refl
length-concat [] (y ∷ ys) h = absurd (ground (arith, h))
length-concat (x ∷ xs) [] h = absurd (ground (arith, h))
length-concat (x ∷ xs) (y ∷ ys) h =
    let here : length x ≡ length y = ground (arith, h) in
    let there : map length xs ≡ map length ys = ground (arith, h) in
    omega (
      arith,
      here,
      length-concat xs ys there,
      length-append x (concat xs),
      length-append y (concat ys),
    )

map-map :
    {T U V : Type 0} (g : U → V) (h : T → U) (xs : List T)
    → map g (map h xs) ≡ map (λ x. g (h x)) xs
map-map g h [] = refl
map-map g h (x ∷ xs) = ap (◌∷◌ (g (h x))) (map-map g h xs)

-- What the output has of one band.
record Band (A : Type 0) : Type 0 where
  classes : List ℤ
  shares : List A
  offsets : List ℤ

module _ {A : Type 0} ⦃f : F64 A⦄ where
  -- One cell's classes, ascending, and their shares; none where the cell has no weight.
  abbrev pub class_row : ClassWeights A → List ℤ
  class_row m = map (λ e. e.0) (shown (sorted_classes m))

  abbrev pub share_row : ClassWeights A → List A
  share_row m = map (λ e. f.div e.1 (total_weight (sorted_classes m))) (shown (sorted_classes m))

  abbrev band_state : FracOut A → ℕ → Band A
  band_state fr b = record {
    classes = get_or fr.classes b [];
    shares = get_or fr.shares b [];
    offsets = get_or fr.offsets b [];
  }

  abbrev push_band : Band A → ClassWeights A → Band A
  push_band s m = record {
    classes = s.classes ++ class_row m;
    shares = s.shares ++ share_row m;
    offsets = s.offsets ++ (as_i32 (length (s.classes ++ class_row m)) ∷ []);
  }

  record IsSized (n : ℕ) (fr : FracOut A) : Type 0 where
    all_classes : length fr.classes ≡ n
    all_shares : length fr.shares ≡ n
    all_offsets : length fr.offsets ≡ n

  push_shares-IsSized :
      (n : ℕ) (fr : FracOut A) (b : ℕ) (m : ClassWeights A)
      → IsSized n fr
      → IsSized n (push_shares fr b m)
  push_shares-IsSized n fr b m s = record {
    all_classes = length-modify fr.classes b _ ∙ s.all_classes;
    all_shares = length-modify fr.shares b _ ∙ s.all_shares;
    all_offsets = length-modify fr.offsets b _ ∙ s.all_offsets;
  }

  push_shares_self :
      (n : ℕ) (fr : FracOut A) (b : ℕ) (m : ClassWeights A)
      → IsSized n fr
      → b < n
      → band_state (push_shares fr b m) b ≡ push_band (band_state fr b) m
  push_shares_self n fr b m s h =
      rw
        (
          get_or-modify_self fr.classes b (λ cs. cs ++ class_row m) []
              (omega (arith, h, s.all_classes)),
          get_or-modify_self fr.shares b (λ ws. ws ++ share_row m) []
              (omega (arith, h, s.all_shares)),
          get_or-modify_self fr.offsets b
              (λ os. os ++ (as_i32 (length (get_or fr.classes b [] ++ class_row m)) ∷ [])) []
              (omega (arith, h, s.all_offsets)),
        )
        refl

  push_shares_other :
      (fr : FracOut A) (b j : ℕ) (m : ClassWeights A)
      → b ≢ j
      → band_state (push_shares fr b m) j ≡ band_state fr j
  push_shares_other fr b j m h =
      rw
        (
          get_or-modify_ne fr.classes b j (λ cs. cs ++ class_row m) [] h,
          get_or-modify_ne fr.shares b j (λ ws. ws ++ share_row m) [] h,
          get_or-modify_ne fr.offsets b j
              (λ os. os ++ (as_i32 (length (get_or (push_shares fr b m).classes b [])) ∷ [])) [] h,
        )
        refl

  push_cell_shares-IsSized :
      (n : ℕ) (m : ℕ → ClassWeights A) (b k : ℕ) (fr : FracOut A)
      → IsSized n fr
      → IsSized n (push_cell_shares m b k fr)
  push_cell_shares-IsSized n m b zero fr s = s
  push_cell_shares-IsSized n m b (suc k) fr s =
      push_cell_shares-IsSized n m (b + 1) k (push_shares fr b (m b))
        (push_shares-IsSized n fr b (m b) s)

  push_cell_shares_other :
      (m : ℕ → ClassWeights A) (b k : ℕ) (fr : FracOut A) (j : ℕ)
      → (j < b) ⊎ (b + k ≤ j)
      → band_state (push_cell_shares m b k fr) j ≡ band_state fr j
  push_cell_shares_other m b zero fr j h = refl
  push_cell_shares_other m b (suc k) fr j h =
      let apart : (j < b + 1) ⊎ (b + 1 + k ≤ j) = omega (arith, h) in
      push_cell_shares_other m (b + 1) k (push_shares fr b (m b)) j apart
      ∙ push_shares_other fr b j (m b) (omega (arith, h))

  push_cell_shares_at :
      (n : ℕ) (m : ℕ → ClassWeights A) (b k : ℕ) (fr : FracOut A) (j : ℕ)
      → IsSized n fr
      → b ≤ j
      → j < b + k
      → b + k ≤ n
      → band_state (push_cell_shares m b k fr) j ≡ push_band (band_state fr j) (m j)
  push_cell_shares_at n m b zero fr j s lo hi room = absurd (omega (arith, lo, hi))
  push_cell_shares_at n m b (suc k) fr j s lo hi room =
      let fr' = push_shares fr b (m b) in
      elim (Bool-cases (b == j)) [
        | inl first ↦
            let e : b ≡ j = ground (arith, first) in
            rw (← e) (
              push_cell_shares_other m (b + 1) k fr' b (inl (omega arith))
              ∙ push_shares_self n fr b (m b) s (omega (arith, room)))
        | inr later ↦
            let ne : b ≢ j = ground (arith, later) in
            push_cell_shares_at n m (b + 1) k fr' j (push_shares-IsSized n fr b (m b) s)
              (omega (arith, lo, ne)) (omega (arith, hi)) (omega (arith, room))
            ∙ ap (λ x. push_band x (m j)) (push_shares_other fr b j (m b) ne)
      ]

  -- Band `b` over all rows.
  abbrev run : Band A → List (ClassWeights A) → Band A
  run s [] = s
  run s (m ∷ ms) = run (push_band s m) ms

  push_all_shares-band :
      (n : ℕ) (m : ℕ × ℕ → ℕ → ClassWeights A) (order : List (ℕ × ℕ)) (fr : FracOut A) (b : ℕ)
      → IsSized n fr
      → b < n
      → band_state (push_all_shares m n order fr) b ≡ run (band_state fr b) (map (λ o. m o b) order)
  unfolding push_all_shares
  push_all_shares-band n m [] fr b s h = refl
  push_all_shares-band n m (o ∷ order) fr b s h =
      push_all_shares-band n m order (push_cell_shares (m o) 0 n fr) b
        (push_cell_shares-IsSized n (m o) 0 n fr s) h
      ∙ ap (λ x. run x (map (λ o. m o b) order))
          (push_cell_shares_at n (m o) 0 n fr b s (omega arith) (omega (arith, h)) (omega arith))

  run-classes :
      (s : Band A) (ms : List (ClassWeights A))
      → (run s ms).classes ≡ s.classes ++ concat (map class_row ms)
  run-classes s [] = sym (append-nil s.classes)
  run-classes s (m ∷ ms) =
      run-classes (push_band s m) ms
      ∙ append_assoc s.classes (class_row m) (concat (map class_row ms))

  run-shares :
      (s : Band A) (ms : List (ClassWeights A))
      → (run s ms).shares ≡ s.shares ++ concat (map share_row ms)
  run-shares s [] = sym (append-nil s.shares)
  run-shares s (m ∷ ms) =
      run-shares (push_band s m) ms
      ∙ append_assoc s.shares (share_row m) (concat (map share_row ms))

  run-offsets :
      (s : Band A) (ms : List (ClassWeights A))
      → (run s ms).offsets
        ≡ s.offsets ++ offsets_from (length s.classes) (map (λ m. length (class_row m)) ms)
  run-offsets s [] = sym (append-nil s.offsets)
  run-offsets s (m ∷ ms) =
      let e : length (s.classes ++ class_row m) ≡ length s.classes + length (class_row m) =
        length-append s.classes (class_row m) in
      let rest =
        offsets_from (length s.classes + length (class_row m))
          (map (λ m. length (class_row m)) ms) in
      run-offsets (push_band s m) ms
      ∙ rw e (append_assoc s.offsets (as_i32 (length s.classes + length (class_row m)) ∷ []) rest)

  no_shares-IsSized : (n : ℕ) → IsSized n (no_shares n)
  no_shares-IsSized n = record {
    all_classes = length-replicate n [];
    all_shares = length-replicate n [];
    all_offsets = length-replicate n (pos 0 ∷ []);
  }

  abbrev no_band : Band A
  no_band = record { classes = []; shares = []; offsets = pos 0 ∷ [] }

  no_shares-band : (n b : ℕ) → b < n → band_state (no_shares n) b ≡ no_band
  no_shares-band n b h =
      let no_classes : List ℤ = [] in
      let none_shared : List A = [] in
      rw
        (
          get_or-replicate n b no_classes no_classes h,
          get_or-replicate n b none_shared none_shared h,
          get_or-replicate n b (pos 0 ∷ []) [] h,
        )
        refl

  lengths_classes :
      (ms : List (ClassWeights A))
      → map length (map class_row ms) ≡ map (λ m. length (class_row m)) ms
  lengths_classes [] = refl
  lengths_classes (m ∷ ms) = ap (◌∷◌ (length (class_row m))) (lengths_classes ms)

  lengths_shares :
      (ms : List (ClassWeights A))
      → map length (map share_row ms) ≡ map (λ m. length (class_row m)) ms
  lengths_shares [] = refl
  lengths_shares (m ∷ ms) =
      let shares =
        length-map (λ e. f.div e.1 (total_weight (sorted_classes m))) (shown (sorted_classes m)) in
      let classes = length-map (λ e. e.0) (shown (sorted_classes m)) in
      rw (shares ∙ sym classes) (ap (◌∷◌ (length (class_row m))) (lengths_shares ms))

  -- The offsets of a band.
  abbrev offsets_of : List (ClassWeights A) → List ℤ
  offsets_of ms = pos 0 ∷ offsets_from 0 (map (λ m. length (class_row m)) ms)

  slices-classes :
      (ms : List (ClassWeights A))
      → length (concat (map class_row ms)) < 2 ^ 31
      → slices (offsets_of ms) (concat (map class_row ms)) ≡ map class_row ms
  slices-classes ms small =
      rw (← lengths_classes ms)
        (slices-offsets_from [] (map class_row ms) (pos 0) (omega (arith, small)) refl)

  slices-shares :
      (ms : List (ClassWeights A))
      → length (concat (map class_row ms)) < 2 ^ 31
      → slices (offsets_of ms) (concat (map share_row ms)) ≡ map share_row ms
  slices-shares ms small =
      let same : length (concat (map share_row ms)) ≡ length (concat (map class_row ms)) =
        length-concat (map share_row ms) (map class_row ms)
          (lengths_shares ms ∙ sym (lengths_classes ms)) in
      rw (← lengths_shares ms)
        (slices-offsets_from [] (map share_row ms) (pos 0) (omega (arith, small, same)) refl)

  -- The offsets of a band cut its classes and its shares into those of each cell, where the band has fewer
  -- than 2^31 classes.
  pub push_all_shares-slices :
      (n : ℕ) (m : ℕ × ℕ → ℕ → ClassWeights A) (order : List (ℕ × ℕ)) (b : ℕ)
      → b < n
      → length (get_or (push_all_shares m n order (no_shares n)).classes b []) < 2 ^ 31
      → let fr = push_all_shares m n order (no_shares n) in
        (slices (get_or fr.offsets b []) (get_or fr.classes b [])
          ≡ map (λ o. class_row (m o b)) order)
        × (slices (get_or fr.offsets b []) (get_or fr.shares b [])
            ≡ map (λ o. share_row (m o b)) order)
  push_all_shares-slices n m order b h small =
      let fr = push_all_shares m n order (no_shares n) in
      let ms = map (λ o. m o b) order in
      let whole : band_state fr b ≡ run no_band ms =
        push_all_shares-band n m order (no_shares n) b (no_shares-IsSized n) h
        ∙ ap (λ s. run s ms) (no_shares-band n b h) in
      let classes : get_or fr.classes b [] ≡ concat (map class_row ms) =
        ap (λ s. s.classes) whole ∙ run-classes no_band ms in
      let shares : get_or fr.shares b [] ≡ concat (map share_row ms) =
        ap (λ s. s.shares) whole ∙ run-shares no_band ms in
      let offsets : get_or fr.offsets b [] ≡ offsets_of ms =
        ap (λ s. s.offsets) whole ∙ run-offsets no_band ms in
      let few : length (concat (map class_row ms)) < 2 ^ 31 = rw classes at small in
      (
        rw (classes, offsets) (slices-classes ms few ∙ map-map class_row (λ o. m o b) order),
        rw (shares, offsets) (slices-shares ms few ∙ map-map share_row (λ o. m o b) order),
      )
