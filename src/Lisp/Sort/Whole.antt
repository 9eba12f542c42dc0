-- ===== src/Lisp/Sort/Whole.antt =====
-- sort: the whole function.
use mathlib.Core.Path.{subst}
use holomacs.Prelude.{
  ℕ, zero, suc, ◌+◌, ◌-◌, ◌/◌, ◌<◌, ◌≤◌, ◌≡◌, refl, sym, ap, ◌∙◌, inl, inr, Bool, List, [], ◌∷◌,
  ◌++◌, append_assoc, arith, ltb, if◌then◌else◌, Bool-cases, length, length-append, has, has-append,
  Distinct, pos,
}
use holomacs.Lisp.{
  Object, int, cons, nil, Lisp, Condition, done, Code, and_then, fcdr, fsetcdr, update,
}
use holomacs.Lisp.View.{Ends, Ends-bind, Ends-mono, Polled, Quit, Spine}
use holomacs.Lisp.Lists.{flength, nthcdr, skip_cells, cells_to_skip}
use holomacs.Lisp.Lists.Change.{
  with_cdr, Relinked, Halfway, Writable, Spine-update, fsetcdr-done, stopped,
}
use holomacs.Lisp.Data.{to_int}
use holomacs.Lisp.Data.Number.Range.{to_int_same}
use holomacs.Lisp.Lists.Change.Delq.{narrower}
use holomacs.Lisp.Sort.{merge, fsort}
use holomacs.Lisp.Sort.Order.{IsOrder, sorted}
use holomacs.Lisp.Sort.Stable.{StableSort, sorted-StableSort}
use holomacs.Lisp.Sort.Merge.{Compares, by_car, Linked}
use holomacs.Lisp.Sort.Cut.{
  length_of_list, skip_to, CutAt, cut_at, Spine-front, Spine-back, Distinct-front, Distinct-back,
  Distinct-Disjoint,
}
use holomacs.Lisp.Sort.Halves.{Sorts, sort_parts}

sorted_short : (less : ℕ → ℕ → Bool) (l : List ℕ) → length l < 2 → sorted less l ≡ l
sorted_short less [] h = refl
sorted_short less (a ∷ []) h = refl
sorted_short less (a ∷ b ∷ l) h = absurd (omega arith)

to_int_small : (n : ℕ) → n < 2147483648 → to_int (pos n) ≡ pos n
to_int_small n h = to_int_same (pos n) (omega arith)

module _ (call2 : (fn arg1 arg2 : Object) → Code Object) (pred : Object)
    (less : Object → Object → Bool) (s : Lisp) (compares : Compares call2 pred less s)
    (order : IsOrder (by_car less s)) where
  -- What sort does from the cell of the cut on.
  abbrev behind_cut : ℕ → Object → Object → Code Object
  behind_cut k x tem s2 = and_then (fcdr tem s2) (λ back s3. and_then (fsetcdr tem nil s3) (λ _ s4.
      and_then (fsort call2 k x pred s4) (λ front s5.
        and_then (fsort call2 k back pred s5) (λ rest. merge call2 (suc k) front rest pred))))

  sort_long :
      (k : ℕ) (a : List ℕ) (b : ℕ) (r : List ℕ) (f : ℕ → Object) (x : Object) (q : Bool)
      (p : List Bool)
      → Writable s (a ++ b ∷ r)
      → Distinct (a ++ b ∷ r)
      → Spine f x (a ++ b ∷ r)
      → length a < 2147483648
      → length (a ++ b ∷ []) + length r < suc k
      → Sorts call2 pred less s compares order k (a ++ b ∷ [])
      → Sorts call2 pred less s compares order k r
      → Ends
          (Linked s f (a ++ b ∷ r) (sorted (by_car less s) (a ++ b ∷ r)))
          (Halfway f (a ++ b ∷ r) s)
          (and_then (nthcdr (int (pos (length a))) x (with_cdr s f q p)) (behind_cut k x))
  unfolding nthcdr fcdr
  sort_long k a b r f x q p w d c small h sort_front sort_back =
      rw (to_int_small (length a) small) (
        Ends-bind (λ v s'. Polled (with_cdr s f q p) s' × (v ≡ cons b))
          (Linked s f (a ++ b ∷ r) (sorted (by_car less s) (a ++ b ∷ r))) (Halfway f (a ++ b ∷ r) s)
          (skip_cells (length a) x (with_cdr s f q p)) _
          (Ends-mono (λ v s'. Polled (with_cdr s f q p) s' × (v ≡ cons b))
            (λ v s'. Polled (with_cdr s f q p) s' × (v ≡ cons b)) (Quit (with_cdr s f q p))
            (Halfway f (a ++ b ∷ r) s) (skip_cells (length a) x (with_cdr s f q p))
            (skip_to (with_cdr s f q p) x a b r q p c) (λ v s' t. t) (stopped s f (a ++ b ∷ r) q p))
          (λ v s' ((q1, p1, e), i).
            subst (λ t. Ends result stop (behind_cut k x v t)) (sym e)
              (subst (λ t. Ends result stop (behind_cut k x t (with_cdr s f q1 p1))) (sym i)
                (rw (fsetcdr-done s f q1 p1 b nil (w b (ground (arith, has-append b a (b ∷ r))))) (
                  narrower f (update f b nil) ((a ++ b ∷ []) ++ r) (a ++ b ∷ r) s
                    (λ g v. Spine g v (sorted (by_car less s) ((a ++ b ∷ []) ++ r)))
                    (λ g v. Spine g v (sorted (by_car less s) (a ++ b ∷ r)))
                    (and_then (fsort call2 k x pred (with_cdr s (update f b nil) q1 p1))
                      (λ front s5.
                        and_then (fsort call2 k (f b) pred s5)
                          (λ rest. merge call2 (suc k) front rest pred)))
                    (λ z o. (ap (has z) whole ∙ o, ground (arith, o, has-append z a (b ∷ r))))
                    (λ g v o. subst (λ m. Spine g v (sorted (by_car less s) m)) whole)
                    (sort_parts call2 pred less s compares order k (a ++ b ∷ []) r (update f b nil)
                      x (f b) q1 p1 (λ z j. w z (sym (ap (has z) whole) ∙ j))
                      (Distinct-front (a ++ b ∷ []) r cut_distinct)
                      (Distinct-back (a ++ b ∷ []) r cut_distinct)
                      (Distinct-Disjoint (a ++ b ∷ []) r cut_distinct) sort_front sort_back
                      (Spine-front f x a b r d c)
                      (Spine-update f b nil (f b) r (Distinct-back a (b ∷ r) d).0
                        (Spine-back f x a b r c))
                      h))))))
    where
      result : Object → Lisp → Type 0
      result = Linked s f (a ++ b ∷ r) (sorted (by_car less s) (a ++ b ∷ r))

      stop : Condition → Lisp → Type 0
      stop = Halfway f (a ++ b ∷ r) s

      whole : (a ++ b ∷ []) ++ r ≡ a ++ b ∷ r
      whole = append_assoc a (b ∷ []) r

      cut_distinct : Distinct ((a ++ b ∷ []) ++ r)
      cut_distinct = subst Distinct (sym whole) d

  -- What sort does behind the count.
  abbrev counted : ℕ → Object → ℕ → Code Object
  counted k x len s1 =
      let length = cells_to_skip (to_int (pos len)) in
      if ltb length 2
      then done x s1
      else and_then (nthcdr (int (pos (length / 2 - 1))) x s1) (behind_cut k x)

  sort_cut :
      (k : ℕ) (l : List ℕ) (f : ℕ → Object) (x : Object) (q : Bool) (p : List Bool)
      → Writable s l
      → Distinct l
      → Spine f x l
      → 2 ≤ length l
      → length l < suc k
      → length l < 2147483648
      → ((m : List ℕ)
          → Writable s m
          → Distinct m
          → length m < k
          → length m < 2147483648
          → Sorts call2 pred less s compares order k m)
      → CutAt l (length l / 2 - 1)
      → Ends
          (Linked s f l (sorted (by_car less s) l))
          (Halfway f l s)
          (and_then (nthcdr (int (pos (length l / 2 - 1))) x (with_cdr s f q p)) (behind_cut k x))
  sort_cut k l f x q p w d c two h small sorts (a, b, r, e, i) = rw (sym i) (
      subst
        (λ m.
          Ends (Linked s f m (sorted (by_car less s) m)) (Halfway f m s)
            (and_then (nthcdr (int (pos (length a))) x (with_cdr s f q p)) (behind_cut k x)))
        (sym e)
        (sort_long k a b r f x q p (subst (Writable s) e w) (subst Distinct e d)
          (subst (Spine f x) e c) (omega (arith, i, small)) (omega (arith, size, h, front_size))
          (sorts (a ++ b ∷ [])
            (λ z j.
              w z
                (ap (has z) e ∙ ground (arith, j, has-append z a (b ∷ r), has-append z a (b ∷ []))))
            (Distinct-front (a ++ b ∷ []) r cut_distinct) (omega (arith, front_size, i, two, h))
            (omega (arith, front_size, i, small)))
          (sorts r (λ z j. w z (ap (has z) e ∙ ground (arith, j, has-append z a (b ∷ r))))
            (Distinct-back (a ++ b ∷ []) r cut_distinct) (omega (arith, size, h, two, i))
            (omega (arith, size, small)))))
    where
      cut_distinct : Distinct ((a ++ b ∷ []) ++ r)
      cut_distinct = subst Distinct (e ∙ sym (append_assoc a (b ∷ []) r)) d

      size : length l ≡ length a + suc (length r)
      size = ap length e ∙ length-append a (b ∷ r)

      front_size : length (a ++ b ∷ []) ≡ length a + 1
      front_size = length-append a (b ∷ [])

  sort_from :
      (k : ℕ) (l : List ℕ)
      → Writable s l
      → Distinct l
      → length l < k
      → length l < 2147483648
      → Sorts call2 pred less s compares order k l
  unfolding fsort
  sort_from zero l w d h small f x q p c = absurd (omega arith)
  sort_from (suc k) l w d h small f x q p c =
      Ends-bind (λ n s'. Polled (with_cdr s f q p) s' × (n ≡ length l))
        (Linked s f l (sorted (by_car less s) l)) (Halfway f l s)
        (flength (suc k) x (with_cdr s f q p)) (counted k x)
        (Ends-mono (λ n s'. Polled (with_cdr s f q p) s' × (n ≡ length l))
          (λ n s'. Polled (with_cdr s f q p) s' × (n ≡ length l)) (Quit (with_cdr s f q p))
          (Halfway f l s) (flength (suc k) x (with_cdr s f q p))
          (length_of_list (with_cdr s f q p) (suc k) x l c h) (λ v s' t. t) (stopped s f l q p))
        (λ n s' ((q1, p1, e), i).
          subst
            (λ t. Ends (Linked s f l (sorted (by_car less s) l)) (Halfway f l s) (counted k x n t))
            (sym e)
            (rw i (
              rw (to_int_small (length l) small) (elim (Bool-cases (ltb (length l) 2)) [
                | inl j ↦ rw j (
                  f,
                  (q1, p1, refl, λ z o. refl),
                  subst (Spine f x) (sym (sorted_short (by_car less s) l (ground (arith, j)))) c,
                )
                | inr j ↦ rw j (
                    sort_cut k l f x q1 p1 w d c (ground (arith, j)) h small (sort_from k)
                      (cut_at l (length l / 2 - 1) (ground (arith, j))))
              ]))))

-- With a comparison that only polls and is an order on the cars, sort of a list of less than 2^31 distinct
-- cells, none of them in pure storage, in more rounds than the list has cells returns a list of the same
-- cells in order, cells that are equal in this order as they came, or a quit comes; in both cases no
-- other cell, no car and nothing but polls changes.
pub sort_lem :
    (call2 : (fn arg1 arg2 : Object) → Code Object) (pred : Object) (less : Object → Object → Bool)
    (s : Lisp) (k : ℕ) (list : Object) (l : List ℕ)
    → Compares call2 pred less s
    → IsOrder (by_car less s)
    → Spine s.cdr list l
    → Distinct l
    → Writable s l
    → length l < k
    → length l < 2147483648
    → Ends
        (λ v s'.
          (m : List ℕ) × StableSort (by_car less s) l m
          × ((g : ℕ → Object) × Relinked s.cdr l s s' g × Spine g v m))
        (Halfway s.cdr l s)
        (fsort call2 k list pred s)
sort_lem call2 pred less s k list l compares order c d w h small =
    Ends-mono (Linked s s.cdr l (sorted (by_car less s) l)) _ (Halfway s.cdr l s) _
      (fsort call2 k list pred s)
      (sort_from call2 pred less s compares order k l w d h small s.cdr list s.quit_flag s.arrivals
        c)
      (λ v s' e. (sorted (by_car less s) l, sorted-StableSort (by_car less s) order l, e))
      (λ c s' e. e)
