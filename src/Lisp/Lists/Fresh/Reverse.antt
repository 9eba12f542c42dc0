-- ===== src/Lisp/Lists/Fresh/Reverse.antt =====
-- reverse, which copies.
use mathlib.Core.Path.{subst}
use holomacs.Prelude.{ℕ, suc, ◌<◌, ◌≡◌, refl, sym, ap, ◌∙◌, Bool, List, [], ◌∷◌, map, length}
use holomacs.Lisp.{Object, Lisp, done, polled, fcar, fcdr}
use holomacs.Lisp.View.{Ends, Ends-bind, Polled, Quit, Spine}
use holomacs.Lisp.Lists.{flength}
use holomacs.Lisp.Lists.Search.{flength_lem}
use holomacs.Lisp.Lists.Change.{reverse_onto}
use holomacs.Lisp.Lists.Fresh.{fill_backwards, flist, freverse}
use holomacs.Lisp.Lists.Fresh.Cells.{New, flist_lem}

-- length, of the empty list too.
pub list_length :
    (s : Lisp) (k : ℕ) (list : Object) (l : List ℕ)
    → Spine s.cdr list l
    → length l < k
    → Ends (λ n s'. Polled s s' × (n ≡ length l)) (Quit s) (flength k list s)
unfolding flength
list_length s k list [] c h = rw c ((s.quit_flag, s.arrivals, refl), refl)
list_length s k list (a ∷ l) c h =
    subst (λ x. Ends (λ n s'. Polled s s' × (n ≡ suc (length l))) (Quit s) (flength k x s))
      (sym c.0) (flength_lem s k a (a ∷ l) (refl, c.1) h)

fill_backwards_lem :
    (s : Lisp) (q : Bool) (p : List Bool) (tail : Object) (l : List ℕ) (vec : List Object)
    → Spine s.cdr tail l
    → fill_backwards (length l) tail vec (polled q p s)
      ≡ done (reverse_onto (map s.car l) vec) (polled q p s)
unfolding fill_backwards fcar fcdr
fill_backwards_lem s q p tail [] vec c = refl
fill_backwards_lem s q p tail (a ∷ l) vec c =
    ap (λ x. fill_backwards (suc (length l)) x vec (polled q p s)) c.0
    ∙ fill_backwards_lem s q p (s.cdr a) l (s.car a ∷ vec) c.1

flist-New :
    (s : Lisp) (vs : List Object) (q : Bool) (p : List Bool)
    → Ends
        (λ v s'. (q : Bool) × (p : List Bool) × New (polled q p s) vs v s')
        (Quit s)
        (flist vs (polled q p s))
flist-New s vs q p = let (v, s', run, new) = flist_lem vs (polled q p s) in rw run (q, p, new)

-- On a list that ends, reverse in more rounds than the list has cells returns a list of new cells that
-- hold the elements in reverse order, or a quit comes; the cells that there were, those of the list
-- among them, do not change, and nothing else but polls does.
pub reverse_lem :
    (s : Lisp) (k : ℕ) (list : Object) (l : List ℕ)
    → Spine s.cdr list l
    → length l < k
    → Ends
        (λ v s'.
          (q : Bool) × (p : List Bool) × New (polled q p s) (reverse_onto (map s.car l) []) v s')
        (Quit s)
        (freverse k list s)
unfolding freverse
reverse_lem s k list l c h =
    Ends-bind (λ n s'. Polled s s' × (n ≡ length l))
      (λ v s'.
        (q : Bool) × (p : List Bool) × New (polled q p s) (reverse_onto (map s.car l) []) v s')
      (Quit s) (flength k list s) _ (list_length s k list l c h)
      (λ n s1 ((q, p, at), e). rw at (
        rw e (
          rw (fill_backwards_lem s q p list l [] c)
            (flist-New s (reverse_onto (map s.car l) []) q p))))
