-- ===== src/Lisp/Sort/Merge.antt =====
-- merge, which links the cells of two lists into one, against the merge of the lists of cells.
use mathlib.Core.Path.{subst}
use holomacs.Prelude.{
  ℕ, zero, suc, ◌+◌, ◌<◌, ◌≡◌, refl, sym, ◌∙◌, inl, inr, Bool, true, false, not, List, [], ◌∷◌,
  ◌++◌, arith, if◌then◌else◌, Bool-cases, length, has, has-append, Distinct,
}
use holomacs.Lisp.{Object, cons, nil, is_null, Lisp, Condition, Code, and_then, fcar, fcdr, update}
use holomacs.Lisp.View.{Ends, Ends-bind, Ends-mono, Polled, Quit, Spine}
use holomacs.Lisp.Lists.Change.{
  with_cdr, Relinked, Halfway, Writable, put_here, Spine-update, fsetcdr-done, stopped,
}
use holomacs.Lisp.Lists.Change.Delq.{narrower}
use holomacs.Lisp.Sort.{link, merge_loop, merge}
use holomacs.Lisp.Sort.Order.{merged}

-- The function says whether one object is less than another, and does nothing but poll.
abbrev pub Compares :
    ((fn arg1 arg2 : Object) → Code Object) → Object → (Object → Object → Bool) → Lisp → Type 0
Compares call2 pred less s =
    (x y : Object) (f : ℕ → Object) (q : Bool) (p : List Bool)
    → Ends (λ v s'. Polled (with_cdr s f q p) s' × (is_null v ≡ not (less x y)))
        (Quit (with_cdr s f q p)) (call2 pred x y (with_cdr s f q p))

abbrev pub by_car : (Object → Object → Bool) → Lisp → ℕ → ℕ → Bool
by_car less s a b = less (s.car a) (s.car b)

abbrev pub Disjoint : List ℕ → List ℕ → Type 0
Disjoint l1 l2 = (a : ℕ) → has a l1 ≡ true → has a l2 ≡ false

-- Cells of a list are relinked, and the value is a list of the given cells.
abbrev pub Linked : Lisp → (ℕ → Object) → (among cells : List ℕ) → Object → Lisp → Type 0
Linked s f w l v s' = (g : ℕ → Object) × Relinked f w s s' g × Spine g v l

module _ (call2 : (fn arg1 arg2 : Object) → Code Object) (pred : Object)
    (less : Object → Object → Bool) (s : Lisp) (compares : Compares call2 pred less s) where
  -- A round with two cells left.
  round :
      (P : Object → Lisp → Type 0) (Q : Condition → Lisp → Type 0) (k x y : ℕ) (f : ℕ → Object)
      (tail value : Object) (q : Bool) (p : List Bool)
      → ((q : Bool) (p : List Bool)
          → by_car less s y x ≡ true
          → Ends P Q (
              and_then
                (link tail value (cons y) (with_cdr s f q p))
                (λ first. merge_loop call2 k (cons x) (f y) pred (cons y) first)))
      → ((q : Bool) (p : List Bool)
          → by_car less s y x ≡ false
          → Ends P Q (
              and_then
                (link tail value (cons x) (with_cdr s f q p))
                (λ first. merge_loop call2 k (f x) (cons y) pred (cons x) first)))
      → ((c : Condition) (s' : Lisp) → Quit (with_cdr s f q p) c s' → Q c s')
      → Ends P Q (merge_loop call2 (suc k) (cons x) (cons y) pred tail value (with_cdr s f q p))
  unfolding merge_loop fcar fcdr
  round P Q k x y f tail value q p right left stop =
      Ends-bind
        (λ v s'. Polled (with_cdr s f q p) s' × (is_null v ≡ not (less (s.car y) (s.car x)))) P Q
        (call2 pred (s.car y) (s.car x) (with_cdr s f q p)) _
        (Ends-mono
          (λ v s'. Polled (with_cdr s f q p) s' × (is_null v ≡ not (less (s.car y) (s.car x))))
          (λ v s'. Polled (with_cdr s f q p) s' × (is_null v ≡ not (less (s.car y) (s.car x))))
          (Quit (with_cdr s f q p)) Q (call2 pred (s.car y) (s.car x) (with_cdr s f q p))
          (compares (s.car y) (s.car x) f q p) (λ v s' h. h) stop)
        (λ v s' ((q1, p1, e), n).
          subst
            (λ t. Ends P Q (
              if is_null v
              then and_then (link tail value (cons x) t)
                  (λ first. merge_loop call2 k (t.cdr x) (cons y) pred (cons x) first)
              else and_then (link tail value (cons y) t)
                  (λ first. merge_loop call2 k (cons x) (t.cdr y) pred (cons y) first)))
            (sym e)
            (elim (Bool-cases (less (s.car y) (s.car x))) [
              | inl h ↦ rw n (rw h (right q1 p1 h))
              | inr h ↦ rw n (rw h (left q1 p1 h))
            ]))

  abbrev Merged : (ℕ → Object) → ℕ → (l1 l2 : List ℕ) → (value v : Object) → Lisp → Type 0
  Merged f b l1 l2 value v s' =
      (g : ℕ → Object) × Relinked f (b ∷ l1 ++ l2) s s' g
      × (Spine g (g b) (merged (by_car less s) l1 l2) × (v ≡ value))

  -- Behind a cell `b` that is linked.
  merge-Behind :
      (k b : ℕ) (l1 l2 : List ℕ) (f : ℕ → Object) (x1 x2 value : Object) (q : Bool) (p : List Bool)
      → Writable s (b ∷ l1 ++ l2)
      → Distinct (b ∷ l1)
      → Distinct (b ∷ l2)
      → Disjoint l1 l2
      → Spine f x1 l1
      → Spine f x2 l2
      → length l1 + length l2 < k
      → Ends
          (Merged f b l1 l2 value)
          (Halfway f (b ∷ l1 ++ l2) s)
          (merge_loop call2 k x1 x2 pred (cons b) value (with_cdr s f q p))
  unfolding merge_loop link merged
  merge-Behind zero b l1 l2 f x1 x2 value q p w d1 d2 apart c1 c2 h = absurd (omega arith)
  merge-Behind (suc k) b [] l2 f x1 x2 value q p w d1 d2 apart c1 c2 h = rw c1 (
      rw (fsetcdr-done s f q p b x2 (w b (ground arith))) (
        update f b x2,
        (q, p, refl, λ a o. ground (arith, o)),
        (
          subst (λ t. Spine (update f b x2) t l2) (put_here f b x2)
              (Spine-update f b x2 x2 l2 d2.0 c2),
          refl,
        ),
      ))
  merge-Behind (suc k) b (x ∷ l1) [] f x1 x2 value q p w d1 d2 apart c1 c2 h = rw c2 (
      rw c1.0 (
        rw (fsetcdr-done s f q p b (cons x) (w b (ground arith))) (
          update f b (cons x),
          (q, p, refl, λ a o. ground (arith, o)),
          (
            subst (λ t. Spine (update f b (cons x)) t (x ∷ l1)) (put_here f b (cons x))
                (Spine-update f b (cons x) (cons x) (x ∷ l1) d1.0 (refl, c1.1)),
            refl,
          ),
        )))
  merge-Behind (suc k) b (x ∷ l1) (y ∷ l2) f x1 x2 value q p w d1 d2 apart c1 c2 h =
      subst
        (λ t.
          Ends (Merged f b (x ∷ l1) (y ∷ l2) value) (Halfway f (b ∷ x ∷ l1 ++ y ∷ l2) s)
            (merge_loop call2 (suc k) t x2 pred (cons b) value (with_cdr s f q p)))
        (sym c1.0)
        (subst
          (λ t.
            Ends (Merged f b (x ∷ l1) (y ∷ l2) value) (Halfway f (b ∷ x ∷ l1 ++ y ∷ l2) s)
              (merge_loop call2 (suc k) (cons x) t pred (cons b) value (with_cdr s f q p)))
          (sym c2.0)
          (round (Merged f b (x ∷ l1) (y ∷ l2) value) (Halfway f (b ∷ x ∷ l1 ++ y ∷ l2) s) k x y f
            (cons b) value q p
            (λ q1 p1 i. rw (fsetcdr-done s f q1 p1 b (cons y) (w b (ground arith))) (
              narrower f (update f b (cons y)) (y ∷ x ∷ l1 ++ l2) (b ∷ x ∷ l1 ++ y ∷ l2) s
                (λ g v. Spine g (g y) (merged (by_car less s) (x ∷ l1) l2) × (v ≡ value))
                (λ g v. Spine g (g b) (merged (by_car less s) (x ∷ l1) (y ∷ l2)) × (v ≡ value))
                (merge_loop call2 k (cons x) (f y) pred (cons y) value
                  (with_cdr s (update f b (cons y)) q1 p1))
                (λ a o. (
                  ground (arith, o, has-append a l1 l2, has-append a l1 (y ∷ l2)),
                  ground (arith, o),
                ))
                (λ g v out e. rw i (
                  (
                    out b (ground (arith, d1.0, d2.0, has-append b l1 l2))
                        ∙ sym (put_here f b (cons y)),
                    e.0,
                  ),
                  e.1,
                ))
                (merge-Behind k y (x ∷ l1) l2 (update f b (cons y)) (cons x) (f y) value q1 p1
                  (λ a j. w a (ground (arith, j, has-append a l1 l2, has-append a l1 (y ∷ l2))))
                  (ground (arith, apart y), d1.1) d2.1 (λ a j. ground (arith, apart a j))
                  (Spine-update f b (cons y) (cons x) (x ∷ l1) d1.0 (refl, c1.1))
                  (Spine-update f b (cons y) (f y) l2 (ground (arith, d2.0)) c2.1)
                  (omega (arith, h)))))
            (λ q1 p1 i. rw (fsetcdr-done s f q1 p1 b (cons x) (w b (ground arith))) (
              narrower f (update f b (cons x)) (x ∷ l1 ++ y ∷ l2) (b ∷ x ∷ l1 ++ y ∷ l2) s
                (λ g v. Spine g (g x) (merged (by_car less s) l1 (y ∷ l2)) × (v ≡ value))
                (λ g v. Spine g (g b) (merged (by_car less s) (x ∷ l1) (y ∷ l2)) × (v ≡ value))
                (merge_loop call2 k (f x) (cons y) pred (cons x) value
                  (with_cdr s (update f b (cons x)) q1 p1))
                (λ a o. (ground (arith, o), ground (arith, o)))
                (λ g v out e. rw i (
                  (
                    out b (ground (arith, d1.0, d2.0, has-append b l1 (y ∷ l2)))
                        ∙ sym (put_here f b (cons x)),
                    e.0,
                  ),
                  e.1,
                ))
                (merge-Behind k x l1 (y ∷ l2) (update f b (cons x)) (f x) (cons y) value q1 p1
                  (λ a j. w a (ground (arith, j))) d1.1 (ground (arith, apart x), d2.1)
                  (λ a j. apart a (ground (arith, j)))
                  (Spine-update f b (cons x) (f x) l1 (ground (arith, d1.0)) c1.1)
                  (Spine-update f b (cons x) (cons y) (y ∷ l2) d2.0 (refl, c2.1))
                  (omega (arith, h)))))
            (stopped s f (b ∷ x ∷ l1 ++ y ∷ l2) q p)))

  -- merge links the cells of two lists with no cell in common in the order of `merged`.
  pub merge_lem :
      (k : ℕ) (l1 l2 : List ℕ) (f : ℕ → Object) (x1 x2 : Object) (q : Bool) (p : List Bool)
      → Writable s (l1 ++ l2)
      → Distinct l1
      → Distinct l2
      → Disjoint l1 l2
      → Spine f x1 l1
      → Spine f x2 l2
      → length l1 + length l2 < k
      → Ends
          (Linked s f (l1 ++ l2) (merged (by_car less s) l1 l2))
          (Halfway f (l1 ++ l2) s)
          (merge call2 k x1 x2 pred (with_cdr s f q p))
  unfolding merge merge_loop link merged
  merge_lem zero l1 l2 f x1 x2 q p w d1 d2 apart c1 c2 h = absurd (omega arith)
  merge_lem (suc k) [] l2 f x1 x2 q p w d1 d2 apart c1 c2 h =
      rw c1 (f, (q, p, refl, λ a o. refl), c2)
  merge_lem (suc k) (x ∷ l1) [] f x1 x2 q p w d1 d2 apart c1 c2 h =
      rw c2 (rw c1.0 (f, (q, p, refl, λ a o. refl), (refl, c1.1)))
  merge_lem (suc k) (x ∷ l1) (y ∷ l2) f x1 x2 q p w d1 d2 apart c1 c2 h = rw c1.0 (
      rw c2.0 (
        round (Linked s f (x ∷ l1 ++ y ∷ l2) (merged (by_car less s) (x ∷ l1) (y ∷ l2)))
          (Halfway f (x ∷ l1 ++ y ∷ l2) s) k x y f nil nil q p
          (λ q1 p1 i.
            narrower f f (y ∷ x ∷ l1 ++ l2) (x ∷ l1 ++ y ∷ l2) s
              (λ g v. Spine g (g y) (merged (by_car less s) (x ∷ l1) l2) × (v ≡ cons y))
              (λ g v. Spine g v (merged (by_car less s) (x ∷ l1) (y ∷ l2)))
              (merge_loop call2 k (cons x) (f y) pred (cons y) (cons y) (with_cdr s f q1 p1))
              (λ a o. (ground (arith, o, has-append a l1 l2, has-append a l1 (y ∷ l2)), refl))
              (λ g v out e. rw i (e.1, e.0))
              (merge-Behind k y (x ∷ l1) l2 f (cons x) (f y) (cons y) q1 p1
                (λ a j. w a (ground (arith, j, has-append a l1 l2, has-append a l1 (y ∷ l2))))
                (ground (arith, apart y), d1) d2 (λ a j. ground (arith, apart a j)) (refl, c1.1)
                c2.1 (omega (arith, h))))
          (λ q1 p1 i.
            narrower f f (x ∷ l1 ++ y ∷ l2) (x ∷ l1 ++ y ∷ l2) s
              (λ g v. Spine g (g x) (merged (by_car less s) l1 (y ∷ l2)) × (v ≡ cons x))
              (λ g v. Spine g v (merged (by_car less s) (x ∷ l1) (y ∷ l2)))
              (merge_loop call2 k (f x) (cons y) pred (cons x) (cons x) (with_cdr s f q1 p1))
              (λ a o. (o, refl)) (λ g v out e. rw i (e.1, e.0))
              (merge-Behind k x l1 (y ∷ l2) f (f x) (cons y) (cons x) q1 p1 w d1
                (ground (arith, apart x), d2) (λ a j. apart a (ground (arith, j))) c1.1 (refl, c2.1)
                (omega (arith, h))))
          (stopped s f (x ∷ l1 ++ y ∷ l2) q p)))
