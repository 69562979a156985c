-- ===== src/Classes/Majority.antt =====
-- The majority class does not depend on the order in which the classes of a cell came in.
use a5px.Prelude.{
  ℕ, zero, suc, ◌≡◌, refl, sym, ◌∙◌, ap, arith, List, [], ◌∷◌, Bool, true, false, ◌&&◌, ◌||◌, some,
  foldl, get_elem?, ◌⊎◌, ◌↔◌, inl, inr, Bool-cases,
}
use a5px.Prelude.Int.{ℤ, pos, negsuc, ltb_ℤ}
use a5px.Float.{F64}
use a5px.Classes.{ClassWeights, better, majority_and_weight, finalise_majority}

ltb_ℤ-trans_not : (a b c : ℤ) → ltb_ℤ a b ≡ false → ltb_ℤ b c ≡ false → ltb_ℤ a c ≡ false
ltb_ℤ-trans_not (pos a) (pos b) (pos c) h l = ground arith
ltb_ℤ-trans_not (pos a) b (negsuc c) h l = refl
ltb_ℤ-trans_not (pos a) (negsuc b) (pos c) h l = cc
ltb_ℤ-trans_not (negsuc a) (pos b) c h l = cc
ltb_ℤ-trans_not (negsuc a) (negsuc b) (pos c) h l = cc
ltb_ℤ-trans_not (negsuc a) (negsuc b) (negsuc c) h l = ground arith

ltb_ℤ-eq : (a b : ℤ) → ltb_ℤ a b ≡ false → ltb_ℤ b a ≡ false → a ≡ b
ltb_ℤ-eq (pos a) (pos b) h l = ground arith
ltb_ℤ-eq (pos a) (negsuc b) h l = cc
ltb_ℤ-eq (negsuc a) (pos b) h l = cc
ltb_ℤ-eq (negsuc a) (negsuc b) h l = ground arith

ltb_ℤ-flip : (a b : ℤ) → ltb_ℤ a b ≡ true → ltb_ℤ b a ≡ false
ltb_ℤ-flip (pos a) (pos b) h = ground arith
ltb_ℤ-flip (pos a) (negsuc b) h = cc
ltb_ℤ-flip (negsuc a) (pos b) h = refl
ltb_ℤ-flip (negsuc a) (negsuc b) h = ground arith

-- An entry of a list.
abbrev pub Holds : {A : Type 0} → List A → A → Type 0
Holds m e = (i : ℕ) × (get_elem? m i ≡ some e)

Holds-cases : {A : Type 0} (x e : A) (m : List A) → Holds (x ∷ m) e → (x ≡ e) ⊎ Holds m e
Holds-cases x e m (zero, h) = inl (ground arith)
Holds-cases x e m (suc i, h) = inr (i, h)

Holds-later : {A : Type 0} (x e : A) (m : List A) → Holds m e → Holds (x ∷ m) e
Holds-later x e m (i, h) = (suc i, h)

abbrev pub AreGood : {A : Type 0} → (A → Type 0) → ClassWeights A → Type 0
AreGood Good m = (e : ℤ × _) → Holds m e → Good e.1

-- The comparisons of `f64` are a linear order on the values that are `Good`: above zero, not NaN.
pub record IsOrdered {A : Type 0} ⦃f : F64 A⦄ (Good : A → Type 0) : Type 0 where
  pub trans_not :
      (a b c : A)
      → Good a
      → Good b
      → Good c
      → f.lt a b ≡ false
      → f.lt b c ≡ false
      → f.lt a c ≡ false
  pub flip : (a b : A) → Good a → Good b → f.lt a b ≡ true → f.lt b a ≡ false
  pub linear : (a b : A) → Good a → Good b → f.lt a b ≡ false → f.lt b a ≡ false → a ≡ b
  pub eq_iff : (a b : A) → Good a → Good b → (f.eq a b ≡ true) ↔ (a ≡ b)

module _ {A : Type 0} ⦃f : F64 A⦄ (Good : A → Type 0) (order : IsOrdered Good) where
  -- The test of `better`: `e` takes the place of `b`.
  abbrev beats : ℤ × A → ℤ × A → Bool
  beats e b = f.lt b.1 e.1 || (f.eq e.1 b.1 && ltb_ℤ e.0 b.0)

  beats-trans_not :
      (a b c : ℤ × A)
      → Good a.1
      → Good b.1
      → Good c.1
      → beats a b ≡ false
      → beats b c ≡ false
      → beats a c ≡ false
  beats-trans_not (ca, a) (cb, b) (cc', c) ga gb gc h l =
      let no_lt : f.lt c a ≡ false = order.trans_not c b a gc gb ga (ground arith) (ground arith) in
      elim (Bool-cases (f.eq a c)) [
        | inr differ ↦ ground arith
        | inl e ↦
            let p : a ≡ c = (order.eq_iff a c ga gc).0 e in
            let under : f.lt c b ≡ false = ground arith in
            let q : a ≡ b = order.linear a b ga gb (rw p under) (ground arith) in
            let first : ltb_ℤ ca cb ≡ false = ground (arith, (order.eq_iff a b ga gb).1 q) in
            let second : ltb_ℤ cb cc' ≡ false =
              ground (arith, (order.eq_iff b c gb gc).1 (sym q ∙ p)) in
            ground (arith, ltb_ℤ-trans_not ca cb cc' first second)
      ]

  beats-flip : (a b : ℤ × A) → Good a.1 → Good b.1 → beats a b ≡ true → beats b a ≡ false
  beats-flip (ca, a) (cb, b) ga gb h = elim (Bool-cases (f.lt b a)) [
    | inl less ↦
        let back : f.lt a b ≡ false = order.flip b a gb ga less in
        elim (Bool-cases (f.eq b a)) [
          | inr differ ↦ ground arith
          | inl e ↦
              let p : b ≡ a = (order.eq_iff b a gb ga).0 e in
              let up : f.lt a a ≡ true = rw p at less in
              let down : f.lt a a ≡ false = rw p at back in absurd (ground arith)
        ]
    | inr no_lt ↦
        let p : a ≡ b = (order.eq_iff a b ga gb).0 (ground arith) in
        let back : f.lt a b ≡ false = rw p (rw p at no_lt) in
        let less : ltb_ℤ ca cb ≡ true = ground arith in ground (arith, ltb_ℤ-flip ca cb less)
  ]

  beats-eq : (a b : ℤ × A) → Good a.1 → Good b.1 → beats a b ≡ false → beats b a ≡ false → a ≡ b
  beats-eq (ca, a) (cb, b) ga gb h l =
      let p : a ≡ b = order.linear a b ga gb (ground arith) (ground arith) in
      let first : ltb_ℤ ca cb ≡ false = ground (arith, (order.eq_iff a b ga gb).1 p) in
      let second : ltb_ℤ cb ca ≡ false = ground (arith, (order.eq_iff b a gb ga).1 (sym p)) in
      rw (p, ltb_ℤ-eq ca cb first second) refl

  beats_self : (a : ℤ × A) → Good a.1 → beats a a ≡ false
  beats_self a g = elim (Bool-cases (beats a a)) [
    | inr loses ↦ loses
    | inl wins ↦ beats-flip a a g g wins
  ]

  -- The entry that the fold ends with: one of those it saw, which none of them beats.
  abbrev IsBest : List (ℤ × A) → ℤ × A → Type 0
  IsBest m r = Good r.1 × Holds m r × ((e : ℤ × A) → Holds m e → beats e r ≡ false)

  IsBest-cons :
      (b e : ℤ × A) (m : ClassWeights A)
      → Good b.1
      → Good e.1
      → (r : ℤ × A) → (won : ℤ × A) → (won ≡ b) ⊎ (won ≡ e)
      → Good won.1
      → beats b won ≡ false
      → beats e won ≡ false
      → IsBest (won ∷ m) r
      → IsBest (b ∷ e ∷ m) r
  IsBest-cons b e m gb ge r won who gw nb ne (gr, held, top) =
      let over = top won (0, refl) in
      let gone = Holds-cases won r m held in
      (
        gr,
        elim gone [
          | inr later ↦ Holds-later b r (e ∷ m) (Holds-later e r m later)
          | inl here ↦ elim who [
            | inl p ↦ (0, ap some (sym p ∙ here))
            | inr p ↦ (1, ap some (sym p ∙ here))
          ]
        ],
        λ x h. elim (Holds-cases b x (e ∷ m) h) [
          | inl p ↦ rw p at (beats-trans_not b won r gb gw gr nb over)
          | inr h' ↦ elim (Holds-cases e x m h') [
            | inl p ↦ rw p at (beats-trans_not e won r ge gw gr ne over)
            | inr later ↦ top x (Holds-later won x m later)
          ]
        ],
      )

  foldl-IsBest :
      (m : ClassWeights A) (b : ℤ × A)
      → Good b.1
      → AreGood Good m
      → (r : ℤ × A) × (foldl better (some b) m ≡ some r) × IsBest (b ∷ m) r
  foldl-IsBest [] b gb g = (
    b,
    refl,
    (
      gb,
      (0, refl),
      λ x h. elim (Holds-cases b x [] h) [
        | inl p ↦ rw (← p) (beats_self b gb)
        | inr (i, none_there) ↦ absurd (ground arith)
      ],
    ),
  )
  foldl-IsBest ((c, w) ∷ m) (bc, bw) gb g =
      let ge = g (c, w) (0, refl) in
      let g' : AreGood Good m = λ x h. g x (Holds-later (c, w) x m h) in
      elim (Bool-cases (beats (c, w) (bc, bw))) [
        | inl wins ↦
            let (r, ran, best) = foldl-IsBest m (c, w) ge g' in
            (
              r,
              rw wins ran,
              IsBest-cons (bc, bw) (c, w) m gb ge r (c, w) (inr refl) ge
                  (beats-flip (c, w) (bc, bw) ge gb wins) (beats_self (c, w) ge) best,
            )
        | inr loses ↦
            let (r, ran, best) = foldl-IsBest m (bc, bw) gb g' in
            (
              r,
              rw loses ran,
              IsBest-cons (bc, bw) (c, w) m gb ge r (bc, bw) (inl refl) gb (beats_self (bc, bw) gb)
                  loses best,
            )
      ]

  -- Where the comparisons are a linear order on the weights, two lists of class weights with the same
  -- entries, in any order, have the same majority class, with the same weight.
  pub majority-order :
      (m m' : ClassWeights A)
      → AreGood Good m
      → ((e : ℤ × A) → Holds m e ↔ Holds m' e)
      → (majority_and_weight m ≡ majority_and_weight m')
        × (finalise_majority m ≡ finalise_majority m')
  unfolding majority_and_weight finalise_majority
  majority-order [] [] g same = (refl, refl)
  majority-order [] (e ∷ m') g same =
      let (i, none_there) = (same e).1 (0, refl) in absurd (ground arith)
  majority-order (e ∷ m) [] g same =
      let (i, none_there) = (same e).0 (0, refl) in absurd (ground arith)
  majority-order ((c, w) ∷ m) ((c', w') ∷ m') g same =
      let g' : AreGood Good ((c', w') ∷ m') = λ x h. g x ((same x).1 h) in
      let (r, ran, (gr, held, top)) =
        foldl-IsBest m (c, w) (g (c, w) (0, refl)) (λ x h. g x (Holds-later (c, w) x m h)) in
      let (r', ran', (gr', held', top')) =
        foldl-IsBest m' (c', w') (g' (c', w') (0, refl))
          (λ x h. g' x (Holds-later (c', w') x m' h)) in
      let same_best : r ≡ r' =
        beats-eq r r' gr gr' (top' r ((same r).0 held)) (top r' ((same r').1 held')) in
      let both : majority_and_weight ((c, w) ∷ m) ≡ majority_and_weight ((c', w') ∷ m') =
        rw (ran, ran', same_best, majority_and_weight) refl in
      (both, ap (λ x. x.0) both)
