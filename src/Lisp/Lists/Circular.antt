-- ===== src/Lisp/Lists/Circular.antt =====
-- Loops over lists whose cdrs go round: a quit ends them.
use mathlib.Core.Path.{subst}
use holomacs.Prelude.{
  ℕ, zero, suc, ◌+◌, ◌<◌, ◌≡◌, refl, sym, inl, inr, Bool, true, false, not, ◌&&◌, ◌||◌, none, List,
  [], ◌∷◌, arith, Bool-cases, get_or,
}
use holomacs.Editor.{typed, later}
use holomacs.Lisp.{Object, cons, eq, Lisp, done, Code, and_then, fcar, fcdr, polled, check_quit}
use holomacs.Lisp.View.{Ends, Quit}
use holomacs.Lisp.Lists.{each, memq, flength, count_cells}
use holomacs.Lisp.Lists.Search.{and_then_assoc}

-- Cells whose cdrs are cells of the same kind, so that no cdr is the end of a list.
abbrev pub Circular : (ℕ → Object) → (ℕ → Type 0) → Type 0
Circular f C = (a : ℕ) → C a → (b : ℕ) × (f a ≡ cons b) × C b

-- Quitting is allowed, and C-g comes by the numbered poll.
abbrev pub QuitComes : ℕ → Lisp → Type 0
QuitComes n s = (s.inhibit_quit ≡ false) × (get_or s.arrivals n false ≡ true)

one_nearer :
    (n : ℕ) (q i : Bool) (p : List Bool)
    → i ≡ false
    → get_or p n false ≡ true
    → (q || typed p) && not i ≡ false
    → (m : ℕ) × (n ≡ suc m) × (get_or (later p) m false ≡ true)
unfolding typed later
one_nearer n q i [] e c h = absurd (ground (arith, c))
one_nearer zero q i (b ∷ p) e c h = absurd (ground (arith, c, e, h))
one_nearer (suc n) q i (b ∷ p) e c h = (n, refl, c)

-- A poll stops the code, or the quit is one poll nearer.
poll_then_on :
    {B : Type 0} (P : B → Lisp → Type 0) (s : Lisp) (n : ℕ) (q : Bool) (p : List Bool) (k : Code B)
    → QuitComes n (polled q p s)
    → ((m : ℕ) (q1 : Bool) (p1 : List Bool)
        → n ≡ suc m
        → QuitComes m (polled q1 p1 s)
        → Ends P (Quit s) (k (polled q1 p1 s)))
    → Ends P (Quit s) (and_then (check_quit (polled q p s)) (λ _. k))
unfolding check_quit
poll_then_on P s n q p k (i, c) next = elim (Bool-cases ((q || typed p) && not s.inhibit_quit)) [
  | inl h ↦ rw h (refl, (false, later p, refl), i)
  | inr h ↦ rw h (
      let (m, e, l) = one_nearer n q s.inhibit_quit p i c h in
      next m (q || typed p) (later p) e (i, l))
]

count_cells_quits :
    (s : Lisp) (C : ℕ → Type 0) (k n i a : ℕ) (q : Bool) (p : List Bool)
    → Circular s.cdr C
    → C a
    → QuitComes n (polled q p s)
    → n < k
    → Ends (λ v s'. ⊥) (Quit s) (count_cells k i (cons a) (polled q p s))
unfolding count_cells fcdr
count_cells_quits s C zero n i a q p c m come h = absurd (omega arith)
count_cells_quits s C (suc k) n i a q p c m come h =
    let (b, e, mb) = c a m in
    poll_then_on (λ v s'. ⊥) s n q p (λ s1. count_cells k (i + 1) (s1.cdr a) s1) come
      (λ j q1 p1 e1 come1.
        subst (λ y. Ends (λ v s'. ⊥) (Quit s) (count_cells k (i + 1) y (polled q1 p1 s))) (sym e)
          (count_cells_quits s C k j (i + 1) b q1 p1 c mb come1 (omega (arith, e1, h))))

-- Where quitting is allowed and C-g comes by the n-th poll, length of a circular list stops with a quit
-- in more than n rounds, and nothing changes but polls.
pub length-Circular :
    (s : Lisp) (C : ℕ → Type 0) (k n a : ℕ)
    → Circular s.cdr C
    → C a
    → QuitComes n s
    → n < k
    → Ends (λ v s'. ⊥) (Quit s) (flength k (cons a) s)
unfolding flength
length-Circular s C k n a = count_cells_quits s C k n 0 a s.quit_flag s.arrivals

-- A cell that has the element.
abbrev FoundIn : Lisp → (ℕ → Type 0) → Object → Object → Lisp → Type 0
FoundIn s C elt v s' = (b : ℕ) × C b × (v ≡ cons b) × (eq elt (s.car b) ≡ true)

-- The same of memq, unless it finds the element.
memq_goes_on :
    (s : Lisp) (C : ℕ → Type 0) (k n a : ℕ) (elt : Object) (q : Bool) (p : List Bool)
    → Circular s.cdr C
    → C a
    → QuitComes n (polled q p s)
    → n < k
    → Ends (FoundIn s C elt) (Quit s) (memq k elt (cons a) (polled q p s))
unfolding memq each fcar fcdr
memq_goes_on s C zero n a elt q p c m come h = absurd (omega arith)
memq_goes_on s C (suc k) n a elt q p c m come h =
    let (b, e, mb) = c a m in
    elim (Bool-cases (eq elt (s.car a))) [
      | inl i ↦ rw i (a, m, refl, i)
      | inr i ↦ rw i (
          subst (λ r. Ends (FoundIn s C elt) (Quit s) r)
            (sym (and_then_assoc (check_quit (polled q p s)) (λ _. done none) _))
            (poll_then_on (FoundIn s C elt) s n q p (λ s1. memq k elt (s1.cdr a) s1) come
              (λ j q1 p1 e1 come1.
                subst (λ y. Ends (FoundIn s C elt) (Quit s) (memq k elt y (polled q1 p1 s))) (sym e)
                  (memq_goes_on s C k j b elt q1 p1 c mb come1 (omega (arith, e1, h))))))
    ]

-- Where quitting is allowed and C-g comes by the n-th poll, memq in a circular list gives a cell that
-- has the element or stops with a quit, in more than n rounds, and nothing changes but polls.
memq-Circular :
    (s : Lisp) (C : ℕ → Type 0) (k n a : ℕ) (elt : Object)
    → Circular s.cdr C
    → C a
    → QuitComes n s
    → n < k
    → Ends (FoundIn s C elt) (Quit s) (memq k elt (cons a) s)
memq-Circular s C k n a elt = memq_goes_on s C k n a elt s.quit_flag s.arrivals
