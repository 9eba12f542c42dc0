-- ===== src/Lisp/Lists/Nconc/Whole.antt =====
-- nconc of any number of lists.
use mathlib.Core.Path.{subst}
use holomacs.Prelude.{
  ℕ, ◌<◌, ◌≡◌, refl, sym, ◌++◌, true, List, [], ◌∷◌, arith, length, has, Distinct, Bool, append-nil,
  append_assoc, length-append,
}
use holomacs.Lisp.{Object, cons, nil, Lisp, update}
use holomacs.Lisp.View.{Ends, Spine}
use holomacs.Lisp.Lists.Change.{with_cdr, Halfway, Writable, Spine-update, put_here}
use holomacs.Lisp.Lists.Nconc.{nconc_from, fnconc}
use holomacs.Lisp.Lists.Nconc.Last.{last, last_inside, last-append, linked, last_in_front}
use holomacs.Lisp.Lists.Nconc.Parts.{
  Lists, all_cells, Lists-update, Distinct-apart, Distinct-left, both_apart,
}
use holomacs.Lisp.Lists.Nconc.Step.{Joined, step}

nconc_from_lem :
    (s : Lisp) (L : List ℕ)
    → Writable s L
    → (k : ℕ) (args : List Object) (ls : List (List ℕ)) (f : ℕ → Object) (q : Bool) (p : List Bool)
      (c0 : ℕ) (cs : List ℕ) (a : ℕ) (l : List ℕ)
    → Spine f (f c0) cs
    → Spine f (f a) l
    → length l < k
    → last a l ≡ last c0 cs
    → Lists f args ls
    → Distinct (c0 ∷ (cs ++ all_cells ls))
    → ((x : ℕ) → has x (c0 ∷ (cs ++ all_cells ls)) ≡ true → has x L ≡ true)
    → length (all_cells ls) < k
    → Ends
        (Joined f L s (c0 ∷ (cs ++ all_cells ls)))
        (Halfway f L s)
        (nconc_from k (cons a) args (cons c0) (with_cdr s f q p))
unfolding nconc_from
nconc_from_lem s L w k [] [] f q p c0 cs a l c spine h end lists d inside fits =
    (f, (q, p, refl, λ b o. refl), (refl, subst (Spine f (f c0)) (sym (append-nil cs)) c))
nconc_from_lem s L w k [] (m ∷ ls) f q p c0 cs a l c spine h end lists d inside fits =
    elim lists [ ]
nconc_from_lem s L w k (next ∷ args) [] f q p c0 cs a l c spine h end lists d inside fits =
    elim lists [ ]
nconc_from_lem s L w k (next ∷ args) ([] ∷ ls) f q p c0 cs a l c spine h end lists d inside fits =
    let e = last c0 cs in
    let i = inside e (last_in_front c0 cs (all_cells ls)) in
    step s L (c0 ∷ (cs ++ all_cells ls)) f k a e c0 l next args q p spine h end i (w e i) (λ q1 p1.
      rw lists.0 (
        nconc_from_lem s L w k args ls (update f (last c0 cs) nil) q1 p1 c0 cs (last c0 cs) []
          (subst (λ x. Spine (update f (last c0 cs) nil) (update f (last c0 cs) nil c0) x)
            (append-nil cs)
            (linked f c0 cs [] (cons c0) nil (refl, c) refl
              (Distinct-left (c0 ∷ cs) (all_cells ls) d) refl).1)
          (sym (put_here f (last c0 cs) nil)) (omega (arith, h)) refl
          (Lists-update f (last c0 cs) nil args ls
            (Distinct-apart (c0 ∷ cs) (all_cells ls) (last c0 cs) d (last_inside c0 cs)) lists.1)
          d inside fits))
nconc_from_lem s L w k (next ∷ args) ((b ∷ m) ∷ ls) f q p c0 cs a l c spine h end lists d inside
      fits =
    let e = last c0 cs in
    let i = inside e (last_in_front c0 cs (b ∷ (m ++ all_cells ls))) in
    let apart = Distinct-apart (c0 ∷ cs) (b ∷ (m ++ all_cells ls)) e d (last_inside c0 cs) in
    let off = both_apart e (b ∷ m) (all_cells ls) apart in
    let same = append_assoc cs (b ∷ m) (all_cells ls) in
    step s L (c0 ∷ (cs ++ (b ∷ (m ++ all_cells ls)))) f k a e c0 l next args q p spine h end i
      (w e i)
      (λ q1 p1. rw lists.0.0 (
        subst
          (λ x.
            Ends (Joined (update f e (cons b)) L s (c0 ∷ x)) (Halfway (update f e (cons b)) L s)
              (nconc_from k (cons b) args (cons c0) (with_cdr s (update f e (cons b)) q1 p1)))
          same
          (nconc_from_lem s L w k args ls (update f e (cons b)) q1 p1 c0 (cs ++ (b ∷ m)) b m
            (linked f c0 cs (b ∷ m) (cons c0) (cons b) (refl, c) (refl, lists.0.1)
              (Distinct-left (c0 ∷ cs) (b ∷ (m ++ all_cells ls)) d) off.0).1
            (Spine-update f e (cons b) (cons b) (b ∷ m) off.0 (refl, lists.0.1)).1
            (omega (arith, fits, length-append m (all_cells ls))) (sym (last-append c0 cs b m))
            (Lists-update f e (cons b) args ls off.1 lists.1)
            (subst (λ x. Distinct (c0 ∷ x)) (sym same) d)
            (subst (λ y. (x : ℕ) → has x (c0 ∷ y) ≡ true → has x L ≡ true) (sym same) inside)
            (omega (arith, fits, length-append m (all_cells ls))))))

first_val :
    (k a : ℕ) (args : List Object) (s : Lisp)
    → nconc_from k (cons a) args nil s ≡ nconc_from k (cons a) args (cons a) s
unfolding nconc_from
first_val k a [] s = refl
first_val k a (next ∷ args) s = refl

-- nil arguments in front of the first list.
from_nil :
    (s : Lisp) (k : ℕ) (tem : Object) (args : List Object) (l : List ℕ) (ls : List (List ℕ))
    → Spine s.cdr tem l
    → Lists s.cdr args ls
    → Distinct (l ++ all_cells ls)
    → Writable s (l ++ all_cells ls)
    → length (l ++ all_cells ls) < k
    → Ends
        (Joined s.cdr (l ++ all_cells ls) s (l ++ all_cells ls))
        (Halfway s.cdr (l ++ all_cells ls) s)
        (nconc_from k tem args nil s)
unfolding nconc_from
from_nil s k tem [] [] [] c t d w h =
    rw c (s.cdr, (s.quit_flag, s.arrivals, refl, λ a i. refl), refl)
from_nil s k tem (x ∷ xs) [] (l ∷ ls) c t d w h = rw c (from_nil s k x xs l ls t.0 t.1 d w h)
from_nil s k tem [] l (m ∷ ls) c t d w h = elim t [ ]
from_nil s k tem (x ∷ xs) l [] c t d w h = elim t [ ]
from_nil s k tem args (a ∷ l) ls c t d w h = rw c.0 (
    subst
      (Ends (Joined s.cdr (a ∷ (l ++ all_cells ls)) s (a ∷ (l ++ all_cells ls)))
        (Halfway s.cdr (a ∷ (l ++ all_cells ls)) s))
      (sym (first_val k a args s))
      (nconc_from_lem s (a ∷ (l ++ all_cells ls)) w k args ls s.cdr s.quit_flag s.arrivals a l a l
        c.1 c.1 (omega (arith, h, length-append l (all_cells ls))) refl t d (λ x i. i)
        (omega (arith, h, length-append l (all_cells ls)))))

-- On lists of distinct cells, any of them empty, none of the cells in pure storage, nconc in more rounds
-- than there are cells returns the cells of all lists in turn as one list, or a quit comes; in both cases
-- no other cell, no car and nothing but polls changes.
pub nconc_lem :
    (s : Lisp) (k : ℕ) (args : List Object) (ls : List (List ℕ))
    → Lists s.cdr args ls
    → Distinct (all_cells ls)
    → Writable s (all_cells ls)
    → length (all_cells ls) < k
    → Ends
        (Joined s.cdr (all_cells ls) s (all_cells ls))
        (Halfway s.cdr (all_cells ls) s)
        (fnconc k args s)
unfolding fnconc
nconc_lem s k [] [] t d w h = (s.cdr, (s.quit_flag, s.arrivals, refl, λ a i. refl), refl)
nconc_lem s k (x ∷ xs) (l ∷ ls) t d w h = from_nil s k x xs l ls t.0 t.1 d w h
nconc_lem s k [] (l ∷ ls) t d w h = elim t [ ]
nconc_lem s k (x ∷ xs) [] t d w h = elim t [ ]
