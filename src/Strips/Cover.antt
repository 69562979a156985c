-- ===== src/Strips/Cover.antt =====
-- Strips and stripes cover the tiles and the rows, each once and in order.
use a5px.Prelude.{
  ℕ, zero, suc, ◌+◌, ◌≤◌, ◌<◌, ◌≡◌, refl, sym, ◌∙◌, ap, arith, List, [], ◌∷◌, ◌++◌, true, ◌&&◌,
  some, ltb, ◌==◌, length, max, add_u64, u64_mod, All, Bool-cases, inl, inr,
}
use a5px.Strips.{Tile, last, follows, push_tile, strips_from, plan_strips}

abbrev pub joined {ℓ} : {A : Type ℓ} → List (List A) → List A
joined [] = []
joined (xs ∷ xss) = xs ++ joined xss

append_assoc {ℓ} : {A : Type ℓ} (xs ys zs : List A) → (xs ++ ys) ++ zs ≡ xs ++ (ys ++ zs)
append_assoc [] ys zs = refl
append_assoc (x ∷ xs) ys zs = ap (◌∷◌ x) (append_assoc xs ys zs)

append_nil {ℓ} : {A : Type ℓ} (xs : List A) → xs ++ [] ≡ xs
append_nil [] = refl
append_nil (x ∷ xs) = ap (◌∷◌ x) (append_nil xs)

-- `n` tiles of row `y`, from column `x` on.
abbrev pub row : ℕ → ℕ → ℕ → List Tile
row x y zero = []
row x y (suc n) = (x, y) ∷ row (x + 1) y n

-- A run of neighbours in one tile row, within the limit on its length.
abbrev pub IsStrip : ℕ → List Tile → Type 0
IsStrip max_len run =
    (x : ℕ) × (y : ℕ) × (n : ℕ) × (run ≡ row x y (suc n))
    × (suc n ≤ max 1 max_len)
    × (x + suc n < u64_mod)

length-row : (x y n : ℕ) → length (row x y n) ≡ n
length-row x y zero = refl
length-row x y (suc n) = ap suc (length-row (x + 1) y n)

last-row : (x y n : ℕ) → last (row x y (suc n)) ≡ some (x + n, y)
last-row x y zero = let e : x + 0 ≡ x = omega arith in rw e refl
last-row x y (suc n) = let e : x + suc n ≡ x + 1 + n = omega arith in rw e (last-row (x + 1) y n)

row-append : (x y n : ℕ) → row x y n ++ ((x + n, y) ∷ []) ≡ row x y (suc n)
row-append x y zero = let e : x + 0 ≡ x = omega arith in rw e refl
row-append x y (suc n) =
    let e : x + suc n ≡ x + 1 + n = omega arith in rw e (ap (◌∷◌ (x, y)) (row-append (x + 1) y n))

joined-push_tile :
    (max_len : ℕ) (out : List (List Tile)) (tile : Tile)
    → joined (push_tile max_len out tile) ≡ joined out ++ (tile ∷ [])
unfolding push_tile
joined-push_tile max_len [] tile = refl
joined-push_tile max_len (run ∷ []) tile =
    elim (Bool-cases (ltb (length run) max_len && follows (last run) tile)) [
      | inl joins ↦ rw joins (append_nil (run ++ (tile ∷ [])) ∙ rw (append_nil run) refl)
      | inr starts ↦ rw starts (rw (append_nil run) refl)
    ]
joined-push_tile max_len (run ∷ next ∷ out) tile =
    rw (joined-push_tile max_len (next ∷ out) tile)
      (sym (append_assoc run (joined (next ∷ out)) (tile ∷ [])))

joined-strips_from :
    (max_len : ℕ) (out : List (List Tile)) (tiles : List Tile)
    → joined (strips_from max_len out tiles) ≡ joined out ++ tiles
unfolding strips_from
joined-strips_from max_len out [] = sym (append_nil (joined out))
joined-strips_from max_len out (tile ∷ tiles) =
    joined-strips_from max_len (push_tile max_len out tile) tiles
    ∙ rw (joined-push_tile max_len out tile) (append_assoc (joined out) (tile ∷ []) tiles)

longer-IsStrip :
    (max_len : ℕ) (run : List Tile) (tile : Tile)
    → IsStrip max_len run
    → (ltb (length run) max_len && follows (last run) tile) ≡ true
    → tile.0 + 1 < u64_mod
    → IsStrip max_len (run ++ (tile ∷ []))
longer-IsStrip max_len run (tx, ty) (x, y, n, e, fits, below) joins small =
    let size : length run ≡ suc n = rw e (length-row x y (suc n)) in
    let end : last run ≡ some (x + n, y) = rw e (last-row x y n) in
    let at : (ltb (suc n) max_len && (y == ty && add_u64 (x + n) 1 == tx)) ≡ true =
      rw (size, end) at joins in
    let same_row : y ≡ ty = ground arith in
    let next : x + suc n ≡ tx = ground arith in
    (x, y, suc n, rw (e, ← same_row, ← next) (row-append x y (suc n)), ground arith, omega arith)

push_tile-IsStrip :
    (max_len : ℕ) (out : List (List Tile)) (tile : Tile)
    → All (IsStrip max_len) out
    → tile.0 + 1 < u64_mod
    → All (IsStrip max_len) (push_tile max_len out tile)
unfolding push_tile
push_tile-IsStrip max_len [] (tx, ty) h small = ((tx, ty, 0, refl, omega arith, small), tt)
push_tile-IsStrip max_len (run ∷ []) (tx, ty) h small =
    elim (Bool-cases (ltb (length run) max_len && follows (last run) (tx, ty))) [
      | inl joins ↦ rw joins (longer-IsStrip max_len run (tx, ty) h.0 joins small, tt)
      | inr starts ↦ rw starts (h.0, ((tx, ty, 0, refl, omega arith, small), tt))
    ]
push_tile-IsStrip max_len (run ∷ next ∷ out) tile h small =
    (h.0, push_tile-IsStrip max_len (next ∷ out) tile h.1 small)

strips_from-IsStrip :
    (max_len : ℕ) (out : List (List Tile)) (tiles : List Tile)
    → All (IsStrip max_len) out
    → All (λ t. t.0 + 1 < u64_mod) tiles
    → All (IsStrip max_len) (strips_from max_len out tiles)
unfolding strips_from
strips_from-IsStrip max_len out [] h small = h
strips_from-IsStrip max_len out (tile ∷ tiles) h small =
    strips_from-IsStrip max_len (push_tile max_len out tile) tiles
      (push_tile-IsStrip max_len out tile h small.0) small.1

-- Where each tile's column is below 2^64 - 1, the strips put together are the tiles in their order,
-- and each strip is a run of neighbours in one tile row, of at least one tile and, above that, no
-- more than `max_len`.
pub plan_strips-IsStrip :
    (tiles : List Tile) (max_len : ℕ)
    → All (λ t. t.0 + 1 < u64_mod) tiles
    → (joined (plan_strips tiles max_len) ≡ tiles)
      × All (IsStrip max_len) (plan_strips tiles max_len)
unfolding plan_strips
plan_strips-IsStrip tiles max_len small =
    (joined-strips_from max_len [] tiles, strips_from-IsStrip max_len [] tiles tt small)
