-- ===== src/Lisp/Sort/Order.antt =====
-- Lists of cells in order: stable insertion, and what merging has to do with it.
use holomacs.Prelude.{
  ℕ, suc, ◌≡◌, refl, ap, ◌∙◌, inl, inr, Bool, true, false, ◌||◌, List, [], ◌∷◌, ◌++◌, arith, ◌==◌,
  if◌then◌else◌, Bool-cases, length, has, Distinct,
}

-- A test that says "less": it is asymmetric, and of three objects two that are not less lead to a third.
pub record IsOrder {A : Type 0} (less : A → A → Bool) : Type 0 where
  pub asym : (x y : A) → less x y ≡ true → less y x ≡ false
  pub trans : (x y z : A) → less y x ≡ false → less z y ≡ false → less z x ≡ false

module _ (less : ℕ → ℕ → Bool) where
  -- The merge of two lists; of two equal cells the one from the first list comes first.
  unfoldable pub merged : List ℕ → List ℕ → List ℕ
  merged [] r = r
  merged (x ∷ l) [] = x ∷ l
  merged (x ∷ l) (y ∷ r) = if less y x then y ∷ merged (x ∷ l) r else x ∷ merged l (y ∷ r)

  abbrev pub put_in : ℕ → List ℕ → List ℕ
  put_in a [] = a ∷ []
  put_in a (b ∷ l) = if less b a then b ∷ put_in a l else a ∷ b ∷ l

  -- Insertion sort from the end of the list.
  abbrev pub sorted : List ℕ → List ℕ
  sorted [] = []
  sorted (a ∷ l) = put_in a (sorted l)

  merged-nil : (l : List ℕ) → merged l [] ≡ l
  unfolding merged
  merged-nil [] = refl
  merged-nil (x ∷ l) = refl

  merged_right :
      (x y : ℕ) (l r : List ℕ) → less y x ≡ true → merged (x ∷ l) (y ∷ r) ≡ y ∷ merged (x ∷ l) r
  unfolding merged
  merged_right x y l r h = rw h refl

  merged_left :
      (x y : ℕ) (l r : List ℕ) → less y x ≡ false → merged (x ∷ l) (y ∷ r) ≡ x ∷ merged l (y ∷ r)
  unfolding merged
  merged_left x y l r h = rw h refl

  insert_past : (a b : ℕ) (l : List ℕ) → less b a ≡ true → put_in a (b ∷ l) ≡ b ∷ put_in a l
  insert_past a b l h = rw h refl

  insert_here : (a b : ℕ) (l : List ℕ) → less b a ≡ false → put_in a (b ∷ l) ≡ a ∷ b ∷ l
  insert_here a b l h = rw h refl

  has-merged : (x : ℕ) (l r : List ℕ) → has x (merged l r) ≡ has x l || has x r
  unfolding merged
  has-merged x [] r = refl
  has-merged x (a ∷ l) [] = ground arith
  has-merged x (a ∷ l) (b ∷ r) = elim (Bool-cases (less b a)) [
    | inl h ↦ rw h (ground (arith, has-merged x (a ∷ l) r))
    | inr h ↦ rw h (ground (arith, has-merged x l (b ∷ r)))
  ]

  pub has-put_in : (x a : ℕ) (l : List ℕ) → has x (put_in a l) ≡ (a == x) || has x l
  has-put_in x a [] = refl
  has-put_in x a (b ∷ l) = ground (arith, has-put_in x a l)

  pub has-sorted : (x : ℕ) (l : List ℕ) → has x (sorted l) ≡ has x l
  has-sorted x [] = refl
  has-sorted x (a ∷ l) = has-put_in x a (sorted l) ∙ ap (λ b. (a == x) || b) (has-sorted x l)

  Distinct-put_in : (a : ℕ) (l : List ℕ) → has a l ≡ false → Distinct l → Distinct (put_in a l)
  Distinct-put_in a [] h d = (refl, tt)
  Distinct-put_in a (b ∷ l) h d = elim (Bool-cases (less b a)) [
    | inl i ↦
        rw i (ground (arith, has-put_in b a l, h, d.0), Distinct-put_in a l (ground (arith, h)) d.1)
    | inr i ↦ rw i (h, d)
  ]

  pub Distinct-sorted : (l : List ℕ) → Distinct l → Distinct (sorted l)
  Distinct-sorted [] d = tt
  Distinct-sorted (a ∷ l) d =
      Distinct-put_in a (sorted l) (has-sorted a l ∙ d.0) (Distinct-sorted l d.1)

  length-put_in : (a : ℕ) (l : List ℕ) → length (put_in a l) ≡ suc (length l)
  length-put_in a [] = refl
  length-put_in a (b ∷ l) = elim (Bool-cases (less b a)) [
    | inl i ↦ rw i (ap suc (length-put_in a l))
    | inr i ↦ rw i refl
  ]

  pub length-sorted : (l : List ℕ) → length (sorted l) ≡ length l
  length-sorted [] = refl
  length-sorted (a ∷ l) = length-put_in a (sorted l) ∙ ap suc (length-sorted l)

  module _ (o : IsOrder less) where
    merged_one : (a : ℕ) (r : List ℕ) → merged (a ∷ []) r ≡ put_in a r
    unfolding merged
    merged_one a [] = refl
    merged_one a (y ∷ r) = elim (Bool-cases (less y a)) [
      | inl h ↦ rw h (ap (λ l. y ∷ l) (merged_one a r))
      | inr h ↦ rw h refl
    ]

    -- y < a and a <= x give y < x.
    below : (x y a : ℕ) → less y a ≡ true → less x a ≡ false → less y x ≡ true
    below x y a h i = elim (Bool-cases (less y x)) [
      | inl j ↦ j
      | inr j ↦ ground (arith, h, o.trans a x y i j)
    ]

    above : (x y a : ℕ) → less y x ≡ true → less x a ≡ true → less y a ≡ true
    above x y a h i = below a y x h (o.asym x a i)

    merged-put_in : (a : ℕ) (l r : List ℕ) → merged (put_in a l) r ≡ put_in a (merged l r)
    unfolding merged
    merged-put_in a [] r = merged_one a r
    merged-put_in a (x ∷ l) [] = merged-nil (put_in a (x ∷ l))
    merged-put_in a (x ∷ l) (y ∷ r) =
        let from_right = merged-put_in a (x ∷ l) r in
        elim (Bool-cases (less x a)) [
          | inl i ↦ elim (Bool-cases (less y x)) [
            | inl j ↦ rw i (rw j (rw (above x y a j i) (ap (λ m. y ∷ m) (rw i at from_right))))
            | inr j ↦ rw i (rw j (rw i (ap (λ m. x ∷ m) (merged-put_in a l (y ∷ r)))))
          ]
          | inr i ↦ elim (Bool-cases (less y a)) [
            | inl j ↦
                rw i (rw j (rw (below x y a j i) (rw j (ap (λ m. y ∷ m) (rw i at from_right)))))
            | inr j ↦ rw i (
                rw j (elim (Bool-cases (less y x)) [
                  | inl k ↦ rw k (rw j refl)
                  | inr k ↦ rw k (rw i refl)
                ]))
          ]
        ]

    -- Merging sorts what two sorted parts make.
    pub merged-sorted : (l r : List ℕ) → merged (sorted l) (sorted r) ≡ sorted (l ++ r)
    unfolding merged
    merged-sorted [] r = refl
    merged-sorted (a ∷ l) r =
        merged-put_in a (sorted l) (sorted r) ∙ ap (put_in a) (merged-sorted l r)
