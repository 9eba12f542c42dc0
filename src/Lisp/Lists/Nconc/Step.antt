-- ===== src/Lisp/Lists/Nconc/Step.antt =====
-- One list linked to those before it.
use holomacs.Prelude.{
  ℕ, ◌<◌, ◌≡◌, refl, ap, ◌∙◌, true, false, List, ◌∷◌, arith, if◌then◌else◌, length, has, Bool,
  Bool-cases, inl, inr, ◌==◌,
}
use holomacs.Lisp.{Object, cons, is_null, Lisp, Result, update}
use holomacs.Lisp.View.{Ends, Ends-bind, Ends-mono, Quit, Spine}
use holomacs.Lisp.Lists.Change.{with_cdr, Relinked, Halfway, fsetcdr-done, stopped}
use holomacs.Lisp.Lists.Nconc.{last_cell, nconc_from}
use holomacs.Lisp.Lists.Nconc.Last.{last, last_cell_lem}

-- The cells of all lists in turn, or a quit half way.
abbrev pub Joined : (ℕ → Object) → List ℕ → Lisp → List ℕ → Object → Lisp → Type 0
Joined f L s c v s' = (g : ℕ → Object) × Relinked f L s s' g × Spine g v c

further :
    (f : ℕ → Object) (e : ℕ) (v : Object) (L c : List ℕ) (s : Lisp) (r : Result Object)
    → has e L ≡ true
    → Ends (Joined (update f e v) L s c) (Halfway (update f e v) L s) r
    → Ends (Joined f L s c) (Halfway f L s) r
further f e v L c s r i h =
    Ends-mono (Joined (update f e v) L s c) (Joined f L s c) (Halfway (update f e v) L s)
      (Halfway f L s) r h
      (λ x s' (g, (q, p, at, same), spine). (g, (q, p, at, λ a o. same a o ∙ other a o), spine))
      (λ d s' (j, n, (g, (q, p, at, same))). (j, n, (g, (q, p, at, λ a o. same a o ∙ other a o))))
  where
    other : (a : ℕ) → has a L ≡ false → update f e v a ≡ f a
    other a o = elim (Bool-cases (e == a)) [
      | inl h ↦ absurd (ground (arith, h, i, o))
      | inr h ↦ rw h refl
    ]

pub step :
    (s : Lisp) (L c : List ℕ) (f : ℕ → Object) (k a e c0 : ℕ) (l : List ℕ) (next : Object)
    (args : List Object) (q : Bool) (p : List Bool)
    → Spine f (f a) l
    → length l < k
    → last a l ≡ e
    → has e L ≡ true
    → s.is_pure e ≡ false
    → ((q : Bool) (p : List Bool)
        → Ends (Joined (update f e next) L s c) (Halfway (update f e next) L s) (
            nconc_from k
              (if is_null next then cons e else next)
              args
              (cons c0)
              (with_cdr s (update f e next) q p)))
    → Ends
        (Joined f L s c)
        (Halfway f L s)
        (nconc_from k (cons a) (next ∷ args) (cons c0) (with_cdr s f q p))
unfolding nconc_from
step s L c f k a e c0 l next args q p spine h end i w rest =
    Ends-bind
      (λ v s'. (q : Bool) × (p : List Bool) × (s' ≡ with_cdr s f q p) × (v ≡ cons (last a l)))
      (Joined f L s c) (Halfway f L s) (last_cell k (cons a) (with_cdr s f q p)) _
      (Ends-mono
        (λ v s'. (q : Bool) × (p : List Bool) × (s' ≡ with_cdr s f q p) × (v ≡ cons (last a l)))
        (λ v s'. (q : Bool) × (p : List Bool) × (s' ≡ with_cdr s f q p) × (v ≡ cons (last a l)))
        (Quit (with_cdr s f q p)) (Halfway f L s) (last_cell k (cons a) (with_cdr s f q p))
        (last_cell_lem s f k a l q p spine h) (λ v s' t. t) (stopped s f L q p))
      (λ v s1 (q1, p1, at, is). rw at (
        rw (is ∙ ap cons end) (
          rw (fsetcdr-done s f q1 p1 e next w) (
            further f e next L c s
              (nconc_from k (if is_null next then cons e else next) args (cons c0)
                (with_cdr s (update f e next) q1 p1))
              i (rest q1 p1)))))
