-- ===== src/Lisp/Lists/Nconc/Last.antt =====
-- The last cell of a list, where the next list is linked.
use mathlib.Core.Path.{subst}
use holomacs.Prelude.{
  ℕ, zero, suc, ◌<◌, ◌≡◌, refl, ◌++◌, true, false, List, [], ◌∷◌, arith, if◌then◌else◌, length, has,
  Distinct, has-append, Bool, Bool-cases, inl, inr, ◌==◌,
}
use holomacs.Lisp.{Object, cons, is_cons, Lisp, done, fcdr, update}
use holomacs.Lisp.View.{Ends, Quit, poll_then, Spine}
use holomacs.Lisp.Lists.Change.{with_cdr, Spine-update, put_here}
use holomacs.Lisp.Lists.Nconc.{last_cell}

-- The last of some cells.
abbrev pub last : ℕ → List ℕ → ℕ
last a [] = a
last a (b ∷ l) = last b l

pub last_inside : (a : ℕ) (l : List ℕ) → has (last a l) (a ∷ l) ≡ true
last_inside a [] = ground arith
last_inside a (b ∷ l) = ground (arith, last_inside b l)

pub last-append : (a : ℕ) (l : List ℕ) (b : ℕ) (m : List ℕ) → last a (l ++ (b ∷ m)) ≡ last b m
last-append a [] b m = refl
last-append a (c ∷ l) b m = last-append c l b m

pub last_cell_lem :
    (s : Lisp) (f : ℕ → Object) (k a : ℕ) (l : List ℕ) (q : Bool) (p : List Bool)
    → Spine f (f a) l
    → length l < k
    → Ends
        (λ v s'. (q : Bool) × (p : List Bool) × (s' ≡ with_cdr s f q p) × (v ≡ cons (last a l)))
        (Quit (with_cdr s f q p))
        (last_cell k (cons a) (with_cdr s f q p))
unfolding last_cell fcdr
last_cell_lem s f zero a l q p c h = absurd (omega arith)
last_cell_lem s f (suc k) a [] q p c h =
    poll_then (λ v s'. (q : Bool) × (p : List Bool) × (s' ≡ with_cdr s f q p) × (v ≡ cons a))
      (Quit (with_cdr s f q p)) (with_cdr s f q p)
      (if is_cons (f a) then last_cell k (f a) else done (cons a))
      (λ q1 p1. rw c (q1, p1, refl, refl)) (λ c s' t. t)
last_cell_lem s f (suc k) a (b ∷ l) q p c h =
    poll_then
      (λ v s'. (q : Bool) × (p : List Bool) × (s' ≡ with_cdr s f q p) × (v ≡ cons (last b l)))
      (Quit (with_cdr s f q p)) (with_cdr s f q p)
      (if is_cons (f a) then last_cell k (f a) else done (cons a))
      (λ q1 p1. rw c.0 (last_cell_lem s f k b l q1 p1 c.1 (omega (arith, h)))) (λ c s' t. t)

-- Two lists linked together at the last cell of the first.
pub linked :
    (f : ℕ → Object) (a : ℕ) (l m : List ℕ) (x next : Object)
    → Spine f x (a ∷ l)
    → Spine f next m
    → Distinct (a ∷ l)
    → has (last a l) m ≡ false
    → Spine (update f (last a l) next) x (a ∷ (l ++ m))
linked f a [] m x next c t d apart = (
  c.0,
  subst (λ y. Spine (update f a next) y m) (put_here f a next)
      (Spine-update f a next next m apart t),
)
linked f a (b ∷ l) m x next c t d apart = (
  c.0,
  subst (λ y. Spine (update f (last b l) next) y (b ∷ (l ++ m)))
      (other (last b l) (last_inside b l)) (linked f b l m (f a) next c.1 t d.1 apart),
)
  where
    other : (e : ℕ) → has e (b ∷ l) ≡ true → f a ≡ update f e next a
    other e i = elim (Bool-cases (e == a)) [
      | inl h ↦ absurd (ground (arith, h, i, d.0))
      | inr h ↦ rw h refl
    ]

pub last_in_front : (a : ℕ) (l m : List ℕ) → has (last a l) (a ∷ (l ++ m)) ≡ true
last_in_front a l m = ground (arith, last_inside a l, has-append (last a l) l m)
