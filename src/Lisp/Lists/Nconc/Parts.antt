-- ===== src/Lisp/Lists/Nconc/Parts.antt =====
-- The lists that are linked, all of their cells distinct.
use holomacs.Prelude.{
  ℕ, ◌≡◌, ◌++◌, true, false, List, [], ◌∷◌, arith, has, Distinct, has-append, Bool-cases, inl, inr,
  ◌==◌,
}
use holomacs.Lisp.{Object, update}
use holomacs.Lisp.View.{Spine}
use holomacs.Lisp.Lists.Change.{Spine-update}

-- The lists that the arguments are, by their cells.
abbrev pub Lists : (ℕ → Object) → List Object → List (List ℕ) → Type 0
Lists f [] [] = Unit
Lists f (x ∷ xs) (l ∷ ls) = Spine f x l × Lists f xs ls
Lists f xs ls = ⊥

abbrev pub all_cells : List (List ℕ) → List ℕ
all_cells [] = []
all_cells (l ∷ ls) = l ++ all_cells ls

pub Lists-update :
    (f : ℕ → Object) (e : ℕ) (v : Object) (xs : List Object) (ls : List (List ℕ))
    → has e (all_cells ls) ≡ false
    → Lists f xs ls
    → Lists (update f e v) xs ls
Lists-update f e v [] [] h t = tt
Lists-update f e v [] (l ∷ ls) h t = elim t [ ]
Lists-update f e v (x ∷ xs) [] h t = elim t [ ]
Lists-update f e v (x ∷ xs) (l ∷ ls) h t = (
  Spine-update f e v x l (ground (arith, h, has-append e l (all_cells ls))) t.0,
  Lists-update f e v xs ls (ground (arith, h, has-append e l (all_cells ls))) t.1,
)

pub Distinct-apart : (l m : List ℕ) (x : ℕ) → Distinct (l ++ m) → has x l ≡ true → has x m ≡ false
Distinct-apart [] m x d h = absurd (ground (arith, h))
Distinct-apart (a ∷ l) m x d h = elim (Bool-cases (a == x)) [
  | inl i ↦ ground (arith, i, d.0, has-append a l m)
  | inr i ↦ Distinct-apart l m x d.1 (ground (arith, i, h))
]

pub Distinct-left : (l m : List ℕ) → Distinct (l ++ m) → Distinct l
Distinct-left [] m d = tt
Distinct-left (a ∷ l) m d = (ground (arith, d.0, has-append a l m), Distinct-left l m d.1)

pub both_apart :
    (a : ℕ) (l m : List ℕ) → has a (l ++ m) ≡ false → (has a l ≡ false) × (has a m ≡ false)
both_apart a l m h = (ground (arith, h, has-append a l m), ground (arith, h, has-append a l m))
