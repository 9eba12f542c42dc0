-- ===== src/Lisp/Lists/Change.antt =====
-- nreverse, which changes the cdrs of a list.
pub mod Delq
use mathlib.Core.Path.{subst}
use holomacs.Prelude.{
  ℕ, zero, suc, ◌<◌, ◌≡◌, refl, sym, ◌∙◌, inl, inr, Bool, true, false, List, [], ◌∷◌, arith,
  if◌then◌else◌, Bool-cases, length, has, Distinct,
}
use holomacs.Lisp.{
  Object, cons, nil, eq, Lisp, Condition, quit, Result, done, and_then, fcar, fcdr, fsetcdr, polled,
  update,
}
use holomacs.Lisp.View.{Ends, Ends-mono, Quit, poll_then, Spine}
use holomacs.Lisp.Lists.{nreverse_loop, nreverse, delq_loop, delq}

-- A store with other cdrs, after some polls.
abbrev pub with_cdr : Lisp → (ℕ → Object) → Bool → List Bool → Lisp
with_cdr s f q p = polled q p (record s { cdr = f })

abbrev pub Relinked : (ℕ → Object) → List ℕ → Lisp → Lisp → (ℕ → Object) → Type 0
Relinked f l s s' g =
    (q : Bool) × (p : List Bool) × (s' ≡ with_cdr s g q p) × ((a : ℕ) → has a l ≡ false → g a ≡ f a)

-- A quit has stopped the work half way; other cells are as they were.
abbrev pub Halfway : (ℕ → Object) → List ℕ → Lisp → Condition → Lisp → Type 0
Halfway f l s c s' =
    (c ≡ quit) × (s.inhibit_quit ≡ false) × ((g : ℕ → Object) × Relinked f l s s' g)

-- No cell is in pure storage.
abbrev pub Writable : Lisp → List ℕ → Type 0
Writable s l = (a : ℕ) → has a l ≡ true → s.is_pure a ≡ false

pub Spine-update :
    (f : ℕ → Object) (a : ℕ) (v x : Object) (l : List ℕ)
    → has a l ≡ false
    → Spine f x l
    → Spine (update f a v) x l
Spine-update f a v x [] h c = c
Spine-update f a v x (b ∷ l) h c = (
  c.0,
  subst (λ y. Spine (update f a v) y l) (ground (arith, h))
      (Spine-update f a v (f b) l (ground (arith, h)) c.1),
)

pub fsetcdr-done :
    (s : Lisp) (f : ℕ → Object) (q : Bool) (p : List Bool) (a : ℕ) (v : Object)
    → s.is_pure a ≡ false
    → fsetcdr (cons a) v (with_cdr s f q p) ≡ done v (with_cdr s (update f a v) q p)
unfolding fsetcdr
fsetcdr-done s f q p a v h = rw h refl

pub put_here : (f : ℕ → Object) (a : ℕ) (v : Object) → v ≡ update f a v a
put_here f a v = ground arith

pub stopped :
    (s : Lisp) (f : ℕ → Object) (l : List ℕ) (q : Bool) (p : List Bool) (c : Condition) (s' : Lisp)
    → Quit (with_cdr s f q p) c s'
    → Halfway f l s c s'
stopped s f l q p c s' (i, (q2, p2, e), n) = (i, n, (f, (q2, p2, e, λ b j. refl)))

abbrev pub reverse_onto : {A : Type 0} → List A → List A → List A
reverse_onto [] r = r
reverse_onto (a ∷ l) r = reverse_onto l (a ∷ r)

abbrev Reversed : (ℕ → Object) → Lisp → List ℕ → List ℕ → Object → Lisp → Type 0
Reversed f s l r v s' = (g : ℕ → Object) × Relinked f l s s' g × Spine g v (reverse_onto l r)

wider :
    (f : ℕ → Object) (a : ℕ) (v : Object) (l : List ℕ) (s s' : Lisp) (g : ℕ → Object)
    → Relinked (update f a v) l s s' g
    → Relinked f (a ∷ l) s s' g
wider f a v l s s' g (q, p, i, same) =
    (q, p, i, λ b h. same b (ground (arith, h)) ∙ ground (arith, h))

relink_more :
    (f : ℕ → Object) (a : ℕ) (v : Object) (l : List ℕ) (s : Lisp)
    (P : (ℕ → Object) → Object → Type 0) (r : Result Object)
    → Ends
        (λ x s'. (g : ℕ → Object) × Relinked (update f a v) l s s' g × P g x)
        (Halfway (update f a v) l s)
        r
    → Ends (λ x s'. (g : ℕ → Object) × Relinked f (a ∷ l) s s' g × P g x) (Halfway f (a ∷ l) s) r
relink_more f a v l s P r h =
    Ends-mono (λ x s'. (g : ℕ → Object) × Relinked (update f a v) l s s' g × P g x)
      (λ x s'. (g : ℕ → Object) × Relinked f (a ∷ l) s s' g × P g x) (Halfway (update f a v) l s)
      (Halfway f (a ∷ l) s) r h (λ x s' (g, i, j). (g, wider f a v l s s' g i, j))
      (λ c s' (i, n, (g, j)). (i, n, (g, wider f a v l s s' g j)))

nreverse_loop_lem :
    (s : Lisp) (k : ℕ) (l r : List ℕ) (f : ℕ → Object) (prev tail : Object) (q : Bool)
    (p : List Bool)
    → Writable s l
    → Distinct l
    → ((a : ℕ) → has a l ≡ true → has a r ≡ false)
    → Spine f tail l
    → Spine f prev r
    → length l < k
    → Ends (Reversed f s l r) (Halfway f l s) (nreverse_loop k prev tail (with_cdr s f q p))
unfolding nreverse_loop fcdr
nreverse_loop_lem s zero l r f prev tail q p w d apart c t h = absurd (omega arith)
nreverse_loop_lem s (suc k) [] r f prev tail q p w d apart c t h =
    rw c (f, (q, p, refl, λ a i. refl), t)
nreverse_loop_lem s (suc k) (a ∷ l) r f prev tail q p w d apart c t h =
    subst
      (λ x.
        Ends (Reversed f s (a ∷ l) r) (Halfway f (a ∷ l) s)
          (nreverse_loop (suc k) prev x (with_cdr s f q p)))
      (sym c.0)
      (poll_then (Reversed f s (a ∷ l) r) (Halfway f (a ∷ l) s) (with_cdr s f q p)
        (λ s1. and_then (fsetcdr (cons a) prev s1) (λ _. nreverse_loop k (cons a) (s1.cdr a)))
        (λ q1 p1. rw (fsetcdr-done s f q1 p1 a prev (w a (ground arith))) (
          relink_more f a prev l s (λ g v. Spine g v (reverse_onto l (a ∷ r)))
            (nreverse_loop k (cons a) (f a) (with_cdr s (update f a prev) q1 p1))
            (nreverse_loop_lem s k l (a ∷ r) (update f a prev) (cons a) (f a) q1 p1
              (λ b i. w b (ground (arith, i))) d.1 (λ b i. ground (arith, i, apart b, d.0))
              (Spine-update f a prev (f a) l d.0 c.1)
              (
                refl,
                subst (λ y. Spine (update f a prev) y r) (put_here f a prev)
                    (Spine-update f a prev prev r (apart a (ground arith)) t),
              )
              (omega (arith, h)))))
        (stopped s f (a ∷ l) q p))

-- On a list of distinct cells, none of them in pure storage, nreverse in more rounds than the list has
-- cells returns the same cells linked in reverse order, or a quit comes; in both cases no other cell,
-- no car and nothing but polls changes.
pub nreverse_lem :
    (s : Lisp) (k : ℕ) (list : Object) (l : List ℕ)
    → Spine s.cdr list l
    → Distinct l
    → Writable s l
    → length l < k
    → Ends
        (λ v s'. (g : ℕ → Object) × Relinked s.cdr l s s' g × Spine g v (reverse_onto l []))
        (Halfway s.cdr l s)
        (nreverse k list s)
unfolding nreverse
nreverse_lem s k list [] c d w h = rw c (s.cdr, (s.quit_flag, s.arrivals, refl, λ a i. refl), refl)
nreverse_lem s k list (a ∷ l) c d w h =
    subst
      (λ x.
        Ends
          (λ v s'.
            (g : ℕ → Object) × Relinked s.cdr (a ∷ l) s s' g × Spine g v (reverse_onto l (a ∷ [])))
          (Halfway s.cdr (a ∷ l) s) (nreverse k x s))
      (sym c.0)
      (nreverse_loop_lem s k (a ∷ l) [] s.cdr nil (cons a) s.quit_flag s.arrivals w d (λ b i. refl)
        (refl, c.1) refl h)
