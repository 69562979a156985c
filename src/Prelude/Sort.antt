-- ===== src/Prelude/Sort.antt =====
-- Insertion sort, which is stable: what it keeps of a list, and the order that it gives.
use mathlib.Core.Path.{◌≡◌, refl, ap, ◌∙◌}
use mathlib.Core.Bool.{Bool, true, false}
use mathlib.Core.Logic.{inl, inr}
use mathlib.Core.List.{List, [], ◌∷◌, map, Perm}
use mathlib.Core.List.Perm
use mathlib.Core.Option.{some}
use Prim.Native.Nat.{ℕ, zero, suc}
use native.Mathlib.Omega.{arith}
use a5px.Prelude.Lists.{All, get_elem?}
use a5px.Prelude.Tests.{if◌then◌else◌, Bool-cases}

module _ {A : Type 0} (le : A → A → Bool) where
  abbrev pub insert_by : A → List A → List A
  insert_by e [] = e ∷ []
  insert_by e (x ∷ xs) = let rest = insert_by e xs in if le e x then e ∷ x ∷ xs else x ∷ rest

  abbrev pub sort_by : List A → List A
  sort_by [] = []
  sort_by (x ∷ xs) = insert_by x (sort_by xs)

-- The elements that a test holds of.
abbrev pub filter : {A : Type 0} → (A → Bool) → List A → List A
filter p [] = []
filter p (x ∷ xs) = let rest = filter p xs in if p x then x ∷ rest else rest

-- An element stands at some place.
abbrev pub In : {A : Type 0} → A → List A → Type 0
In x xs = (i : ℕ) × (get_elem? xs i ≡ some x)

-- Of each two elements, the earlier one first.
abbrev pub Pairs : {A : Type 0} → (A → A → Type 0) → List A → Type 0
Pairs R [] = Unit
Pairs R (x ∷ xs) = All (R x) xs × Pairs R xs

pub All-map :
    {A : Type 0} {P Q : A → Type 0} (xs : List A) → ((x : A) → P x → Q x) → All P xs → All Q xs
All-map [] f h = tt
All-map (x ∷ xs) f (here, there) = (f x here, All-map xs f there)

All-both :
    {A : Type 0} (P Q : A → Type 0) (xs : List A) → All P xs → All Q xs → All (λ x. P x × Q x) xs
All-both P Q [] h k = tt
All-both P Q (x ∷ xs) (here, there) (here', there') = ((here, here'), All-both P Q xs there there')

All-of_map :
    {A B : Type 0} (P : B → Type 0) (g : A → B) (xs : List A)
    → All P (map g xs)
    → All (λ x. P (g x)) xs
All-of_map P g [] h = tt
All-of_map P g (x ∷ xs) (here, there) = (here, All-of_map P g xs there)

pub All-to_map :
    {A B : Type 0} (P : B → Type 0) (g : A → B) (xs : List A)
    → All (λ x. P (g x)) xs
    → All P (map g xs)
All-to_map P g [] h = tt
All-to_map P g (x ∷ xs) (here, there) = (here, All-to_map P g xs there)

pub All-In : {A : Type 0} (xs : List A) → All (λ x. In x xs) xs
All-In [] = tt
All-In (x ∷ xs) = ((0, refl), All-map xs (λ y h. (suc h.0, h.1)) (All-In xs))

pub Pairs-map :
    {A : Type 0} {R Q : A → A → Type 0} (xs : List A)
    → ((a b : A) → R a b → Q a b)
    → Pairs R xs
    → Pairs Q xs
Pairs-map [] g h = tt
Pairs-map (x ∷ xs) g (all, rest) = (All-map xs (λ y. g x y) all, Pairs-map xs g rest)

pub Pairs-both :
    {A : Type 0} (R Q : A → A → Type 0) (xs : List A)
    → Pairs R xs
    → Pairs Q xs
    → Pairs (λ a b. R a b × Q a b) xs
Pairs-both R Q [] h k = tt
Pairs-both R Q (x ∷ xs) (all, rest) (all', rest') =
    (All-both (R x) (Q x) xs all all', Pairs-both R Q xs rest rest')

-- Of the images under a function.
pub Pairs-of_map :
    {A B : Type 0} (R : B → B → Type 0) (g : A → B) (xs : List A)
    → Pairs R (map g xs)
    → Pairs (λ a b. R (g a) (g b)) xs
Pairs-of_map R g [] h = tt
Pairs-of_map R g (x ∷ xs) (all, rest) = (All-of_map (R (g x)) g xs all, Pairs-of_map R g xs rest)

pub Pairs-to_map :
    {A B : Type 0} (R : B → B → Type 0) (g : A → B) (xs : List A)
    → Pairs (λ a b. R (g a) (g b)) xs
    → Pairs R (map g xs)
Pairs-to_map R g [] h = tt
Pairs-to_map R g (x ∷ xs) (all, rest) = (All-to_map (R (g x)) g xs all, Pairs-to_map R g xs rest)

module _ {A : Type 0} (le : A → A → Bool) where
  insert_by-All :
      (P : A → Type 0) (e : A) (xs : List A) → P e → All P xs → All P (insert_by le e xs)
  insert_by-All P e [] p h = (p, tt)
  insert_by-All P e (x ∷ xs) p (here, there) = elim (Bool-cases (le e x)) [
    | inl low ↦ rw low (p, (here, there))
    | inr high ↦ rw high (here, insert_by-All P e xs p there)
  ]

  pub sort_by-All : (P : A → Type 0) (xs : List A) → All P xs → All P (sort_by le xs)
  sort_by-All P [] h = tt
  sort_by-All P (x ∷ xs) (here, there) =
      insert_by-All P x (sort_by le xs) here (sort_by-All P xs there)

  insert_by_self : (e : A) (xs : List A) → In e (insert_by le e xs)
  insert_by_self e [] = (0, refl)
  insert_by_self e (x ∷ xs) = elim (Bool-cases (le e x)) [
    | inl low ↦ rw low (0, refl)
    | inr high ↦ let (i, h) = insert_by_self e xs in rw high (suc i, h)
  ]

  insert_by-In : (e y : A) (xs : List A) → In y xs → In y (insert_by le e xs)
  insert_by-In e y [] (i, h) = absurd (ground (arith, h))
  insert_by-In e y (x ∷ xs) (zero, h) = elim (Bool-cases (le e x)) [
    | inl low ↦ rw low (1, h)
    | inr high ↦ rw high (0, h)
  ]
  insert_by-In e y (x ∷ xs) (suc i, h) = elim (Bool-cases (le e x)) [
    | inl low ↦ rw low (suc (suc i), h)
    | inr high ↦ let (j, k) = insert_by-In e y xs (i, h) in rw high (suc j, k)
  ]

  pub sort_by-In : (y : A) (xs : List A) → In y xs → In y (sort_by le xs)
  sort_by-In y [] (i, h) = absurd (ground (arith, h))
  sort_by-In y (x ∷ xs) (zero, h) =
      let e : x ≡ y = ground (arith, h) in rw (← e) (insert_by_self x (sort_by le xs))
  sort_by-In y (x ∷ xs) (suc i, h) = insert_by-In x y (sort_by le xs) (sort_by-In y xs (i, h))

  insert_by-Perm : (e : A) (xs : List A) → Perm (insert_by le e xs) (e ∷ xs)
  insert_by-Perm e [] = Perm.refl (e ∷ [])
  insert_by-Perm e (x ∷ xs) = elim (Bool-cases (le e x)) [
    | inl low ↦ rw low (Perm.refl (e ∷ x ∷ xs))
    | inr high ↦ rw high (Perm.trans (Perm.cons x (insert_by-Perm e xs)) (Perm.swap e x xs))
  ]

  -- The sort has each element as often as the list.
  pub sort_by-Perm : (xs : List A) → Perm (sort_by le xs) xs
  sort_by-Perm [] = Perm.refl []
  sort_by-Perm (x ∷ xs) =
      Perm.trans (insert_by-Perm x (sort_by le xs)) (Perm.cons x (sort_by-Perm xs))

  module _ (R : A → A → Type 0) (before : (a b : A) → le a b ≡ true → R a b)
      (after : (a b : A) → le a b ≡ false → R b a)
      (trans : (a b c : A) → R a b → R b c → R a c) where
    insert_by-Pairs : (e : A) (xs : List A) → Pairs R xs → Pairs R (insert_by le e xs)
    insert_by-Pairs e [] h = (tt, tt)
    insert_by-Pairs e (x ∷ xs) (all, rest) = elim (Bool-cases (le e x)) [
      | inl low ↦
          let r : R e x = before e x low in
          rw low ((r, All-map xs (λ y q. trans e x y r q) all), (all, rest))
      | inr high ↦
          rw high (insert_by-All (R x) e xs (after e x high) all, insert_by-Pairs e xs rest)
    ]

    -- The sort's order.
    pub sort_by-Pairs : (xs : List A) → Pairs R (sort_by le xs)
    sort_by-Pairs [] = tt
    sort_by-Pairs (x ∷ xs) = insert_by-Pairs x (sort_by le xs) (sort_by-Pairs xs)

  insert_by-Pairs_sym :
      (R : A → A → Type 0) (e : A) (xs : List A)
      → ((a b : A) → R a b → R b a)
      → All (R e) xs
      → Pairs R xs
      → Pairs R (insert_by le e xs)
  insert_by-Pairs_sym R e [] flip h k = (tt, tt)
  insert_by-Pairs_sym R e (x ∷ xs) flip (here, there) (all, rest) = elim (Bool-cases (le e x)) [
    | inl low ↦ rw low ((here, there), (all, rest))
    | inr high ↦
        rw high
          (insert_by-All (R x) e xs (flip e x here) all, insert_by-Pairs_sym R e xs flip there rest)
  ]

  -- What holds of each two elements, whichever is first, holds of those of the sorted list.
  pub sort_by-Pairs_sym :
      (R : A → A → Type 0) (xs : List A)
      → ((a b : A) → R a b → R b a)
      → Pairs R xs
      → Pairs R (sort_by le xs)
  sort_by-Pairs_sym R [] flip h = tt
  sort_by-Pairs_sym R (x ∷ xs) flip (all, rest) =
      insert_by-Pairs_sym R x (sort_by le xs) flip (sort_by-All (R x) xs all)
        (sort_by-Pairs_sym R xs flip rest)

  module _ (p : A → Bool) where
    insert_by-other :
        (e : A) (xs : List A) → p e ≡ false → filter p (insert_by le e xs) ≡ filter p xs
    insert_by-other e [] h = rw h refl
    insert_by-other e (x ∷ xs) h = elim (Bool-cases (le e x)) [
      | inl low ↦ rw (low, h) refl
      | inr high ↦ rw high (elim (Bool-cases (p x)) [
        | inl is ↦ rw is (ap (◌∷◌ x) (insert_by-other e xs h))
        | inr isnt ↦ rw isnt (insert_by-other e xs h)
      ])
    ]

    insert_by-first :
        (e : A) (xs : List A)
        → p e ≡ true
        → All (λ x. p x ≡ true → le e x ≡ true) xs
        → filter p (insert_by le e xs) ≡ e ∷ filter p xs
    insert_by-first e [] h first = rw h refl
    insert_by-first e (x ∷ xs) h (here, there) = elim (Bool-cases (le e x)) [
      | inl low ↦ rw (low, h) refl
      | inr high ↦ elim (Bool-cases (p x)) [
        | inl is ↦ absurd (ground (arith, here is, high))
        | inr isnt ↦ rw (high, isnt) (insert_by-first e xs h there)
      ]
    ]

    -- The sort keeps the order of the elements that a test holds of, where they are in order.
    pub filter-sort_by :
        (xs : List A)
        → Pairs (λ a b. p a ≡ true → p b ≡ true → le a b ≡ true) xs
        → filter p (sort_by le xs) ≡ filter p xs
    filter-sort_by [] h = refl
    filter-sort_by (x ∷ xs) (all, rest) = elim (Bool-cases (p x)) [
      | inr isnt ↦ rw isnt (insert_by-other x (sort_by le xs) isnt ∙ filter-sort_by xs rest)
      | inl is ↦
          let first =
            sort_by-All (λ y. p y ≡ true → le x y ≡ true) xs (All-map xs (λ y q. q is) all) in
          rw is (insert_by-first x (sort_by le xs) is first ∙ ap (◌∷◌ x) (filter-sort_by xs rest))
    ]
