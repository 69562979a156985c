-- ===== src/Prelude/Lists.antt =====
-- Lists measured and indexed by native numbers, under the library's names.
use Prim.Native.Nat.{ℕ, zero, suc, ◌+◌, ◌-◌, ◌≤◌, ◌<◌, min}
use mathlib.Core.Path.{◌≡◌, refl, ap}
use mathlib.Core.Logic.{◌≢◌}
use mathlib.Core.List.{List, [], ◌∷◌, ◌++◌}
use mathlib.Core.Option.{Option, none, some}
use native.Mathlib.Omega.{arith}

module _ {ℓ} {A : Type ℓ} where
  abbrev pub length : List A → ℕ
  length [] = 0
  length (x ∷ xs) = suc (length xs)

  abbrev pub get_elem? : List A → ℕ → Option A
  get_elem? [] i = none
  get_elem? (x ∷ xs) zero = some x
  get_elem? (x ∷ xs) (suc i) = get_elem? xs i

  -- A write out of bounds changes nothing.
  abbrev pub set : List A → ℕ → A → List A
  set [] i v = []
  set (x ∷ xs) zero v = v ∷ xs
  set (x ∷ xs) (suc i) v = x ∷ set xs i v

  abbrev pub take : ℕ → List A → List A
  take zero xs = []
  take (suc n) [] = []
  take (suc n) (x ∷ xs) = x ∷ take n xs

  abbrev pub drop : ℕ → List A → List A
  drop zero xs = xs
  drop (suc n) [] = []
  drop (suc n) (x ∷ xs) = drop n xs

  abbrev pub replicate : ℕ → A → List A
  replicate zero a = []
  replicate (suc n) a = a ∷ replicate n a

  -- A predicate of every element.
  abbrev pub All {κ} : (A → Type κ) → List A → Type κ
  All P [] = Unit
  All P (x ∷ xs) = P x × All P xs

module _ {ℓ} {A : Type ℓ} where
  pub length-append : (xs ys : List A) → length (xs ++ ys) ≡ length xs + length ys
  length-append [] ys = omega arith
  length-append (x ∷ xs) ys = omega (arith, length-append xs ys)

  pub length-set : (xs : List A) (i : ℕ) (v : A) → length (set xs i v) ≡ length xs
  length-set [] i v = refl
  length-set (x ∷ xs) zero v = refl
  length-set (x ∷ xs) (suc i) v = ap suc (length-set xs i v)

  pub length-replicate : (n : ℕ) (a : A) → length (replicate n a) ≡ n
  length-replicate zero a = refl
  length-replicate (suc n) a = ap suc (length-replicate n a)

  pub length-take : (n : ℕ) (xs : List A) → length (take n xs) ≡ min n (length xs)
  length-take zero xs = omega arith
  length-take (suc n) [] = omega arith
  length-take (suc n) (x ∷ xs) = omega (arith, length-take n xs)

  pub length-drop : (n : ℕ) (xs : List A) → length (drop n xs) ≡ length xs - n
  length-drop zero xs = omega arith
  length-drop (suc n) [] = omega arith
  length-drop (suc n) (x ∷ xs) = omega (arith, length-drop n xs)

  pub get_elem?-set_self :
      (xs : List A) (i : ℕ) (v : A) → i < length xs → get_elem? (set xs i v) i ≡ some v
  get_elem?-set_self [] i v h = elim h [ ]
  get_elem?-set_self (x ∷ xs) zero v h = refl
  get_elem?-set_self (x ∷ xs) (suc i) v h = get_elem?-set_self xs i v (omega arith)

  pub get_elem?-set_ne :
      (xs : List A) {i j : ℕ} (v : A) → i ≢ j → get_elem? (set xs i v) j ≡ get_elem? xs j
  get_elem?-set_ne [] v h = refl
  get_elem?-set_ne (x ∷ xs) {i = zero} {j = zero} v h = absurd (h refl)
  get_elem?-set_ne (x ∷ xs) {i = zero} {j = suc j} v h = refl
  get_elem?-set_ne (x ∷ xs) {i = suc i} {j = zero} v h = refl
  get_elem?-set_ne (x ∷ xs) {i = suc i} {j = suc j} v h = get_elem?-set_ne xs v (λ e. h (ap suc e))

module _ {ℓ} {A : Type ℓ} where
  pub drop-drop : (a b : ℕ) (xs : List A) → drop a (drop b xs) ≡ drop (b + a) xs
  drop-drop a zero xs = let e : 0 + a ≡ a = omega arith in rw e
  drop-drop zero (suc b) [] = let e : suc b + 0 ≡ suc (b + 0) = omega arith in rw e
  drop-drop (suc a) (suc b) [] = let e : suc b + suc a ≡ suc (b + suc a) = omega arith in rw e
  drop-drop a (suc b) (x ∷ xs) =
      let e : suc b + a ≡ suc (b + a) = omega arith in rw e (drop-drop a b xs)

  -- A part of a prefix that reaches no further than it.
  pub take-drop-take :
      (n a m : ℕ) (xs : List A) → a + n ≤ m → take n (drop a (take m xs)) ≡ take n (drop a xs)
  take-drop-take zero a m xs h = refl
  take-drop-take (suc n) zero zero xs h = absurd (omega arith)
  take-drop-take (suc n) zero (suc m) [] h = refl
  take-drop-take (suc n) zero (suc m) (x ∷ xs) h =
      ap (◌∷◌ x) (take-drop-take n zero m xs (omega arith))
  take-drop-take (suc n) (suc a) zero xs h = absurd (omega arith)
  take-drop-take (suc n) (suc a) (suc m) [] h = refl
  take-drop-take (suc n) (suc a) (suc m) (x ∷ xs) h = take-drop-take (suc n) a m xs (omega arith)

  pub take_all : (n : ℕ) (xs : List A) → length xs ≤ n → take n xs ≡ xs
  take_all zero [] h = refl
  take_all zero (x ∷ xs) h = absurd (omega arith)
  take_all (suc n) [] h = refl
  take_all (suc n) (x ∷ xs) h = ap (◌∷◌ x) (take_all n xs (omega arith))

  abbrev pub zip {κ} : {B : Type κ} → List A → List B → List (A × B)
  zip [] ys = []
  zip (x ∷ xs) [] = []
  zip (x ∷ xs) (y ∷ ys) = (x, y) ∷ zip xs ys

module _ {A B : Type 0} (P : A × B → Type 0) where
  pub All-zip :
      (xs : List A) (ys : List B)
      → ((i : ℕ) (x : A) (y : B) → get_elem? xs i ≡ some x → get_elem? ys i ≡ some y → P (x, y))
      → All P (zip xs ys)
  All-zip [] ys h = tt
  All-zip (x ∷ xs) [] h = tt
  All-zip (x ∷ xs) (y ∷ ys) h = (h 0 x y refl refl, All-zip xs ys (λ i a b. h (suc i) a b))

  pub All-of_zip :
      (xs : List A) (ys : List B) (i : ℕ) (x : A) (y : B)
      → All P (zip xs ys)
      → get_elem? xs i ≡ some x
      → get_elem? ys i ≡ some y
      → P (x, y)
  All-of_zip [] ys i x y h a b = absurd (ground arith)
  All-of_zip (x' ∷ xs) [] i x y h a b = absurd (ground arith)
  All-of_zip (x' ∷ xs) (y' ∷ ys) zero x y h a b =
      let p : x' ≡ x = ground arith in let q : y' ≡ y = ground arith in rw (← p, ← q) h.0
  All-of_zip (x' ∷ xs) (y' ∷ ys) (suc i) x y h a b = All-of_zip xs ys i x y h.1 a b

module _ {ℓ} {A : Type ℓ} where
  -- A read with a value for an index out of bounds.
  abbrev pub get_or : List A → ℕ → A → A
  get_or [] i d = d
  get_or (x ∷ xs) zero d = x
  get_or (x ∷ xs) (suc i) d = get_or xs i d

  -- A write through `&mut xs[i]`.
  abbrev pub modify : List A → ℕ → (A → A) → List A
  modify [] i g = []
  modify (x ∷ xs) zero g = g x ∷ xs
  modify (x ∷ xs) (suc i) g = x ∷ modify xs i g

  pub length-modify : (xs : List A) (i : ℕ) (g : A → A) → length (modify xs i g) ≡ length xs
  length-modify [] i g = refl
  length-modify (x ∷ xs) zero g = refl
  length-modify (x ∷ xs) (suc i) g = ap suc (length-modify xs i g)

  pub get_or-modify_self :
      (xs : List A) (i : ℕ) (g : A → A) (d : A)
      → i < length xs
      → get_or (modify xs i g) i d ≡ g (get_or xs i d)
  get_or-modify_self [] i g d h = elim h [ ]
  get_or-modify_self (x ∷ xs) zero g d h = refl
  get_or-modify_self (x ∷ xs) (suc i) g d h = get_or-modify_self xs i g d (omega arith)

  pub get_or-modify_ne :
      (xs : List A) (i j : ℕ) (g : A → A) (d : A)
      → i ≢ j
      → get_or (modify xs i g) j d ≡ get_or xs j d
  get_or-modify_ne [] i j g d h = refl
  get_or-modify_ne (x ∷ xs) zero zero g d h = absurd (h refl)
  get_or-modify_ne (x ∷ xs) zero (suc j) g d h = refl
  get_or-modify_ne (x ∷ xs) (suc i) zero g d h = refl
  get_or-modify_ne (x ∷ xs) (suc i) (suc j) g d h = get_or-modify_ne xs i j g d (λ e. h (ap suc e))

  pub get_or-append :
      (xs ys : List A) (i : ℕ) (d : A) → i < length xs → get_or (xs ++ ys) i d ≡ get_or xs i d
  get_or-append [] ys i d h = elim h [ ]
  get_or-append (x ∷ xs) ys zero d h = refl
  get_or-append (x ∷ xs) ys (suc i) d h = get_or-append xs ys i d (omega arith)

  pub get_or-append_right :
      (xs ys : List A) (i : ℕ) (d : A) → get_or (xs ++ ys) (length xs + i) d ≡ get_or ys i d
  get_or-append_right [] ys i d = let e : 0 + i ≡ i = omega arith in rw e
  get_or-append_right (x ∷ xs) ys i d =
      let e : suc (length xs) + i ≡ suc (length xs + i) = omega arith in
      rw e (get_or-append_right xs ys i d)

  pub get_or-replicate : (n i : ℕ) (a d : A) → i < n → get_or (replicate n a) i d ≡ a
  get_or-replicate zero i a d h = elim h [ ]
  get_or-replicate (suc n) zero a d h = refl
  get_or-replicate (suc n) (suc i) a d h = get_or-replicate n i a d (omega arith)
