-- ===== src/Lisp/Sort/Stable.antt =====
-- What insertion sort gives: the same cells in order, with equal ones as they were.
use mathlib.Core.List.{Perm}
use mathlib.Core.List.Perm
use holomacs.Prelude.{
  ℕ, ◌≡◌, refl, ap, ◌∙◌, inl, inr, Bool, true, false, not, ◌&&◌, List, [], ◌∷◌, arith,
  if◌then◌else◌, Bool-cases, has,
}
use holomacs.Lisp.Sort.Order.{IsOrder, put_in, sorted, has-put_in}

module _ (less : ℕ → ℕ → Bool) where
  -- No later cell is less than an earlier one.
  abbrev pub InOrder : List ℕ → Type 0
  InOrder [] = Unit
  InOrder (a ∷ l) = ((x : ℕ) → has x l ≡ true → less x a ≡ false) × InOrder l

  abbrev pub same : ℕ → ℕ → Bool
  same x y = not (less x y) && not (less y x)

  -- The cells of a list that are neither less nor greater than a cell.
  abbrev pub equals_of : ℕ → List ℕ → List ℕ
  equals_of x [] = []
  equals_of x (a ∷ l) = if same x a then a ∷ equals_of x l else equals_of x l

  abbrev pub StableSort : List ℕ → List ℕ → Type 0
  StableSort l m = Perm m l × InOrder m × ((x : ℕ) → equals_of x m ≡ equals_of x l)

  put_in-perm : (a : ℕ) (l : List ℕ) → Perm (put_in less a l) (a ∷ l)
  put_in-perm a [] = Perm.rfl
  put_in-perm a (b ∷ l) = elim (Bool-cases (less b a)) [
    | inl h ↦ rw h (Perm.trans (Perm.cons b (put_in-perm a l)) (Perm.swap a b l))
    | inr h ↦ rw h Perm.rfl
  ]

  -- One insertion past a cell that is less moves no cell past an equal one.
  put_in-equals_of :
      IsOrder less → (x a : ℕ) (l : List ℕ) → equals_of x (put_in less a l) ≡ equals_of x (a ∷ l)
  put_in-equals_of o x a [] = refl
  put_in-equals_of o x a (b ∷ l) = elim (Bool-cases (less b a)) [
    | inl h ↦ rw h (
        ap (λ m. if same x b then b ∷ m else m) (put_in-equals_of o x a l)
        ∙ swap (same x b) (same x a) (apart h))
    | inr h ↦ rw h refl
  ]
    where
      swap :
          (p q : Bool)
          → p && q ≡ false
          → (if p
              then b ∷ (if q then a ∷ equals_of x l else equals_of x l)
              else (if q then a ∷ equals_of x l else equals_of x l))
            ≡ (if q
                then a ∷ (if p then b ∷ equals_of x l else equals_of x l)
                else (if p then b ∷ equals_of x l else equals_of x l))
      swap p q h = ground arith

      apart : less b a ≡ true → same x b && same x a ≡ false
      apart h = ground (arith, h, o.trans a x b)

  put_in-InOrder : IsOrder less → (a : ℕ) (l : List ℕ) → InOrder l → InOrder (put_in less a l)
  put_in-InOrder o a [] p = (λ x m. absurd (ground (arith, m)), tt)
  put_in-InOrder o a (b ∷ l) p = elim (Bool-cases (less b a)) [
    | inl i ↦ rw i (
      λ x m. ground (arith, m, i, has-put_in less x a l, p.0 x, o.asym b a i),
      put_in-InOrder o a l p.1,
    )
    | inr i ↦ rw i (λ x m. ground (arith, m, i, p.0 x, o.trans a b x i), p)
  ]

  pub sorted-StableSort : IsOrder less → (l : List ℕ) → StableSort l (sorted less l)
  sorted-StableSort o [] = (Perm.rfl, tt, λ x. refl)
  sorted-StableSort o (a ∷ l) =
      let (p, i, e) = sorted-StableSort o l in
      (
        Perm.trans (put_in-perm a (sorted less l)) (Perm.cons a p),
        put_in-InOrder o a (sorted less l) i,
        λ x. put_in-equals_of o x a (sorted less l) ∙ ap (λ m. if same x a then a ∷ m else m) (e x),
      )
