-- ===== src/Lisp/Lists/Change/Delq.antt =====
-- delq, which takes cells out of a list.
use mathlib.Core.Path.{subst}
use holomacs.Prelude.{
  ℕ, zero, suc, ◌<◌, ◌≡◌, refl, sym, ◌∙◌, inl, inr, Bool, false, List, [], ◌∷◌, arith,
  if◌then◌else◌, Bool-cases, length, has, Distinct,
}
use holomacs.Lisp.{Object, cons, nil, eq, Lisp, Result, fcar, fcdr, update}
use holomacs.Lisp.View.{Ends, Ends-mono, poll_then, Spine}
use holomacs.Lisp.Lists.{delq_loop, delq}
use holomacs.Lisp.Lists.Change.{
  with_cdr, Relinked, Halfway, Writable, Spine-update, fsetcdr-done, stopped,
}

-- The cells whose car is not EQ to an object.
abbrev pub keep : (ℕ → Object) → Object → List ℕ → List ℕ
keep car elt [] = []
keep car elt (a ∷ l) = if eq elt (car a) then keep car elt l else a ∷ keep car elt l

-- What the loop of delq gives behind a cell `b` that stays.
abbrev Behind : Lisp → Object → (ℕ → Object) → ℕ → List ℕ → (list v : Object) → Lisp → Type 0
Behind s elt f b l list v s' =
    (g : ℕ → Object) × Relinked f (b ∷ l) s s' g × (Spine g (g b) (keep s.car elt l) × (v ≡ list))

-- A change of fewer cells.
pub narrower :
    (f f' : ℕ → Object) (l l' : List ℕ) (s : Lisp) (P P' : (ℕ → Object) → Object → Type 0)
    (r : Result Object)
    → ((x : ℕ) → has x l' ≡ false → (has x l ≡ false) × (f' x ≡ f x))
    → ((g : ℕ → Object) (v : Object) → ((x : ℕ) → has x l ≡ false → g x ≡ f' x) → P g v → P' g v)
    → Ends (λ v s'. (g : ℕ → Object) × Relinked f' l s s' g × P g v) (Halfway f' l s) r
    → Ends (λ v s'. (g : ℕ → Object) × Relinked f l' s s' g × P' g v) (Halfway f l' s) r
narrower f f' l l' s P P' r fewer map h =
    Ends-mono (λ v s'. (g : ℕ → Object) × Relinked f' l s s' g × P g v)
      (λ v s'. (g : ℕ → Object) × Relinked f l' s s' g × P' g v) (Halfway f' l s) (Halfway f l' s) r
      h
      (λ v s' (g, (q, p, e, out), x).
        (g, (q, p, e, λ y o. out y (fewer y o).0 ∙ (fewer y o).1), map g v out x))
      (λ c s' (i, n, (g, (q, p, e, out))).
        (i, n, (g, (q, p, e, λ y o. out y (fewer y o).0 ∙ (fewer y o).1))))

delq-Behind :
    (s : Lisp) (elt list : Object) (k b : ℕ) (l : List ℕ) (f : ℕ → Object) (tail : Object)
    (q : Bool) (p : List Bool)
    → Writable s (b ∷ l)
    → Distinct (b ∷ l)
    → f b ≡ tail
    → Spine f tail l
    → length l < k
    → Ends
        (Behind s elt f b l list)
        (Halfway f (b ∷ l) s)
        (delq_loop k elt (cons b) tail list (with_cdr s f q p))
unfolding delq_loop fcdr fcar
delq-Behind s elt list zero b l f tail q p w d e c h = absurd (omega arith)
delq-Behind s elt list (suc k) b [] f tail q p w d e c h =
    rw c (f, (q, p, refl, λ a i. refl), (e ∙ c, refl))
delq-Behind s elt list (suc k) b (a ∷ l) f tail q p w d e c h =
    subst
      (λ x.
        Ends (Behind s elt f b (a ∷ l) list) (Halfway f (b ∷ a ∷ l) s)
          (delq_loop (suc k) elt (cons b) x list (with_cdr s f q p)))
      (sym c.0)
      (elim (Bool-cases (eq elt (s.car a))) [
        | inl i ↦ rw i (
            rw (fsetcdr-done s f q p b (f a) (w b (ground arith))) (
              poll_then (Behind s elt f b (a ∷ l) list) (Halfway f (b ∷ a ∷ l) s)
                (with_cdr s (update f b (f a)) q p)
                (λ s1. delq_loop k elt (cons b) (update f b (f a) a) list s1)
                (λ q1 p1.
                  narrower f (update f b (f a)) (b ∷ l) (b ∷ a ∷ l) s
                    (λ g v. Spine g (g b) (keep s.car elt l) × (v ≡ list))
                    (λ g v. Spine g (g b) (keep s.car elt (a ∷ l)) × (v ≡ list))
                    (delq_loop k elt (cons b) (update f b (f a) a) list
                      (with_cdr s (update f b (f a)) q1 p1))
                    (λ x o. (ground (arith, o), ground (arith, o))) (λ g v out x. rw i x)
                    (delq-Behind s elt list k b l (update f b (f a)) (update f b (f a) a) q1 p1
                      (λ x j. w x (ground (arith, j))) (ground (arith, d.0), d.1.1)
                      (ground (arith, d.0))
                      (subst (λ y. Spine (update f b (f a)) y l) (ground (arith, d.0))
                        (Spine-update f b (f a) (f a) l (ground (arith, d.0)) c.1))
                      (omega (arith, h))))
                (λ c s' (j, (q2, p2, e2), n).
                  (j, n, (update f b (f a), (q2, p2, e2, λ x o. ground (arith, o)))))))
        | inr i ↦ rw i (
            poll_then (Behind s elt f b (a ∷ l) list) (Halfway f (b ∷ a ∷ l) s) (with_cdr s f q p)
              (λ s1. delq_loop k elt (cons a) (f a) list s1)
              (λ q1 p1.
                narrower f f (a ∷ l) (b ∷ a ∷ l) s
                  (λ g v. Spine g (g a) (keep s.car elt l) × (v ≡ list))
                  (λ g v. Spine g (g b) (keep s.car elt (a ∷ l)) × (v ≡ list))
                  (delq_loop k elt (cons a) (f a) list (with_cdr s f q1 p1))
                  (λ x o. (ground (arith, o), refl))
                  (λ g v out x. rw i ((out b d.0 ∙ e ∙ c.0, x.0), x.1))
                  (delq-Behind s elt list k a l f (f a) q1 p1 (λ x j. w x (ground (arith, j))) d.1
                    refl c.1 (omega (arith, h))))
              (stopped s f (b ∷ a ∷ l) q p))
      ])

abbrev Kept : Lisp → Object → (ℕ → Object) → List ℕ → Object → Lisp → Type 0
Kept s elt f l v s' = (g : ℕ → Object) × Relinked f l s s' g × Spine g v (keep s.car elt l)

delq_front :
    (s : Lisp) (elt : Object) (k : ℕ) (l : List ℕ) (f : ℕ → Object) (list : Object) (q : Bool)
    (p : List Bool)
    → Writable s l
    → Distinct l
    → Spine f list l
    → length l < k
    → Ends (Kept s elt f l) (Halfway f l s) (delq_loop k elt nil list list (with_cdr s f q p))
unfolding delq_loop fcdr fcar
delq_front s elt zero l f list q p w d c h = absurd (omega arith)
delq_front s elt (suc k) [] f list q p w d c h = rw c (f, (q, p, refl, λ a i. refl), refl)
delq_front s elt (suc k) (a ∷ l) f list q p w d c h =
    subst
      (λ x.
        Ends (Kept s elt f (a ∷ l)) (Halfway f (a ∷ l) s)
          (delq_loop (suc k) elt nil x x (with_cdr s f q p)))
      (sym c.0)
      (elim (Bool-cases (eq elt (s.car a))) [
        | inl i ↦ rw i (
            poll_then (Kept s elt f (a ∷ l)) (Halfway f (a ∷ l) s) (with_cdr s f q p)
              (λ s1. delq_loop k elt nil (f a) (f a) s1)
              (λ q1 p1.
                narrower f f l (a ∷ l) s (λ g v. Spine g v (keep s.car elt l))
                  (λ g v. Spine g v (keep s.car elt (a ∷ l)))
                  (delq_loop k elt nil (f a) (f a) (with_cdr s f q1 p1))
                  (λ x o. (ground (arith, o), refl)) (λ g v out x. rw i x)
                  (delq_front s elt k l f (f a) q1 p1 (λ x j. w x (ground (arith, j))) d.1 c.1
                    (omega (arith, h))))
              (stopped s f (a ∷ l) q p))
        | inr i ↦ rw i (
            poll_then (Kept s elt f (a ∷ l)) (Halfway f (a ∷ l) s) (with_cdr s f q p)
              (λ s1. delq_loop k elt (cons a) (f a) (cons a) s1)
              (λ q1 p1.
                narrower f f (a ∷ l) (a ∷ l) s
                  (λ g v. Spine g (g a) (keep s.car elt l) × (v ≡ cons a))
                  (λ g v. Spine g v (keep s.car elt (a ∷ l)))
                  (delq_loop k elt (cons a) (f a) (cons a) (with_cdr s f q1 p1)) (λ x o. (o, refl))
                  (λ g v out x. rw i (x.1, x.0))
                  (delq-Behind s elt (cons a) k a l f (f a) q1 p1 w d refl c.1 (omega (arith, h))))
              (stopped s f (a ∷ l) q p))
      ])

-- On a list of distinct cells, none of them in pure storage, delq in more rounds than the list has
-- cells returns a list of just those cells whose car is not EQ to the element, in their order, or a quit
-- comes; in both cases no other cell, no car and nothing but polls changes.
pub delq_lem :
    (s : Lisp) (k : ℕ) (elt list : Object) (l : List ℕ)
    → Spine s.cdr list l
    → Distinct l
    → Writable s l
    → length l < k
    → Ends
        (λ v s'. (g : ℕ → Object) × Relinked s.cdr l s s' g × Spine g v (keep s.car elt l))
        (Halfway s.cdr l s)
        (delq k elt list s)
unfolding delq
delq_lem s k elt list l c d w h = delq_front s elt k l s.cdr list s.quit_flag s.arrivals w d c h
