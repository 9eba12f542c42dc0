-- ===== src/Lisp/Sort/Cut.antt =====
-- sort: the cut in the middle of a list, and what it does to the cells.
use mathlib.Core.Path.{subst}
use holomacs.Prelude.{
  ℕ, zero, suc, ◌<◌, ◌≡◌, refl, ap, Bool, List, [], ◌∷◌, ◌++◌, arith, length, has-append, Distinct,
}
use holomacs.Lisp.{Object, cons, nil, Lisp, fcdr, update, polled}
use holomacs.Lisp.View.{Ends, Polled, Quit, Spine, poll_then}
use holomacs.Lisp.Lists.{flength, skip_cells}
use holomacs.Lisp.Lists.Search.{flength_lem}
use holomacs.Lisp.Sort.Merge.{Disjoint}

pub length_of_list :
    (s : Lisp) (k : ℕ) (x : Object) (l : List ℕ)
    → Spine s.cdr x l
    → length l < k
    → Ends (λ n s'. Polled s s' × (n ≡ length l)) (Quit s) (flength k x s)
unfolding flength
length_of_list s k x [] c h = rw c ((s.quit_flag, s.arrivals, refl), refl)
length_of_list s k x (a ∷ l) c h = rw c.0 (flength_lem s k a (a ∷ l) (refl, c.1) h)

-- The cell behind as many others.
pub skip_to :
    (s : Lisp) (x : Object) (l : List ℕ) (b : ℕ) (r : List ℕ) (q : Bool) (p : List Bool)
    → Spine s.cdr x (l ++ b ∷ r)
    → Ends (λ v s'. Polled s s' × (v ≡ cons b)) (Quit s) (skip_cells (length l) x (polled q p s))
unfolding skip_cells fcdr
skip_to s x [] b r q p c = ((q, p, refl), c.0)
skip_to s x (a ∷ l) b r q p c = rw c.0 (
    poll_then (λ v s'. Polled s s' × (v ≡ cons b)) (Quit s) (polled q p s)
      (λ s1. skip_cells (length l) (s1.cdr a) s1) (λ q1 p1. skip_to s (s.cdr a) l b r q1 p1 c.1)
      (λ c s' t. t))

-- A list cut behind the cell `b`.
abbrev pub CutAt : List ℕ → ℕ → Type 0
CutAt l n = (a : List ℕ) × (b : ℕ) × (r : List ℕ) × (l ≡ a ++ b ∷ r) × (length a ≡ n)

pub cut_at : (l : List ℕ) (n : ℕ) → n < length l → CutAt l n
cut_at [] n h = absurd (omega arith)
cut_at (b ∷ r) zero h = ([], b, r, refl, refl)
cut_at (x ∷ l) (suc n) h =
    let (a, b, r, e, i) = cut_at l n (omega arith) in (x ∷ a, b, r, ap (λ m. x ∷ m) e, ap suc i)

-- What the cut does to the cdrs.
pub Spine-front :
    (f : ℕ → Object) (x : Object) (l : List ℕ) (b : ℕ) (r : List ℕ)
    → Distinct (l ++ b ∷ r)
    → Spine f x (l ++ b ∷ r)
    → Spine (update f b nil) x (l ++ b ∷ [])
Spine-front f x [] b r d c = (c.0, ground arith)
Spine-front f x (a ∷ l) b r d c = (
  c.0,
  subst (λ y. Spine (update f b nil) y (l ++ b ∷ [])) (ground (arith, d.0, has-append a l (b ∷ r)))
      (Spine-front f (f a) l b r d.1 c.1),
)

pub Spine-back :
    (f : ℕ → Object) (x : Object) (l : List ℕ) (b : ℕ) (r : List ℕ)
    → Spine f x (l ++ b ∷ r)
    → Spine f (f b) r
Spine-back f x [] b r c = c.1
Spine-back f x (a ∷ l) b r c = Spine-back f (f a) l b r c.1

pub Distinct-front : (a r : List ℕ) → Distinct (a ++ r) → Distinct a
Distinct-front [] r d = tt
Distinct-front (x ∷ a) r d = (ground (arith, d.0, has-append x a r), Distinct-front a r d.1)

pub Distinct-back : (a r : List ℕ) → Distinct (a ++ r) → Distinct r
Distinct-back [] r d = d
Distinct-back (x ∷ a) r d = Distinct-back a r d.1

pub Distinct-Disjoint : (a r : List ℕ) → Distinct (a ++ r) → Disjoint a r
Distinct-Disjoint [] r d x h = absurd (ground (arith, h))
Distinct-Disjoint (y ∷ a) r d x h =
    ground (arith, h, d.0, has-append y a r, Distinct-Disjoint a r d.1 x)
