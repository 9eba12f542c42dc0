-- ===== src/Lisp/Sort/Halves.antt =====
-- sort: the halves that it makes of a list, and their merge.
use mathlib.Core.Path.{subst}
use holomacs.Prelude.{
  ℕ, suc, ◌+◌, ◌<◌, ◌≡◌, refl, sym, ◌∙◌, Bool, true, false, List, [], ◌∷◌, ◌++◌, arith, length, has,
  has-append, Distinct,
}
use holomacs.Lisp.{Object, Lisp, Result, Code, and_then}
use holomacs.Lisp.View.{Ends, Ends-bind, Ends-mono, Spine}
use holomacs.Lisp.Lists.Change.{with_cdr, Halfway, Writable}
use holomacs.Lisp.Lists.Change.Delq.{narrower}
use holomacs.Lisp.Sort.{merge, fsort}
use holomacs.Lisp.Sort.Order.{
  IsOrder, merged, sorted, merged-sorted, has-sorted, Distinct-sorted, length-sorted,
}
use holomacs.Lisp.Sort.Merge.{Compares, by_car, Disjoint, Linked, merge_lem}

pub Spine-agree :
    (f g : ℕ → Object) (x : Object) (l : List ℕ)
    → ((a : ℕ) → has a l ≡ true → g a ≡ f a)
    → Spine f x l
    → Spine g x l
Spine-agree f g x [] h c = c
Spine-agree f g x (a ∷ l) h c = (
  c.0,
  subst (λ y. Spine g y l) (sym (h a (ground arith)))
      (Spine-agree f g (f a) l (λ b i. h b (ground (arith, i))) c.1),
)

-- What comes behind code that relinks cells of A, in a store where more cells are relinked.
module _ (s : Lisp) where
  after :
      (f : ℕ → Object) (a w m l : List ℕ) (r : Result Object) (go : Object → Code Object)
      → ((x : ℕ) → has x w ≡ false → has x a ≡ false)
      → Ends (Linked s f a m) (Halfway f a s) r
      → ((v : Object) (g : ℕ → Object) (q : Bool) (p : List Bool)
          → ((x : ℕ) → has x a ≡ false → g x ≡ f x)
          → Spine g v m
          → Ends (Linked s g w l) (Halfway g w s) (go v (with_cdr s g q p)))
      → Ends (Linked s f w l) (Halfway f w s) (and_then r go)
  after f a w m l r go more h next =
      Ends-bind (Linked s f a m) (Linked s f w l) (Halfway f w s) r go
        (Ends-mono (Linked s f a m) (Linked s f a m) (Halfway f a s) (Halfway f w s) r h
          (λ v s' e. e)
          (λ c s' (i, n, (g, (q, p, e, out))). (i, n, (g, (q, p, e, λ x o. out x (more x o))))))
        (λ v s' (g, (q, p, e, out), c).
          subst (λ t. Ends (Linked s f w l) (Halfway f w s) (go v t)) (sym e)
            (narrower f g w w s (λ g v. Spine g v l) (λ g v. Spine g v l) (go v (with_cdr s g q p))
              (λ x o. (o, out x (more x o))) (λ g v o c. c) (next v g q p out c)))

module _ (call2 : (fn arg1 arg2 : Object) → Code Object) (pred : Object)
    (less : Object → Object → Bool) (s : Lisp) (compares : Compares call2 pred less s)
    (order : IsOrder (by_car less s)) where
  abbrev order_of : List ℕ → List ℕ
  order_of = sorted (by_car less s)

  -- sort orders the cells of a list in so many rounds, whatever other cells hold.
  abbrev pub Sorts : ℕ → List ℕ → Type 0
  Sorts k l =
      (f : ℕ → Object) (x : Object) (q : Bool) (p : List Bool)
      → Spine f x l
      → Ends (Linked s f l (order_of l)) (Halfway f l s) (fsort call2 k x pred (with_cdr s f q p))

  -- The two parts are sorted and merged.
  pub sort_parts :
      (k : ℕ) (a b : List ℕ) (f : ℕ → Object) (x y : Object) (q : Bool) (p : List Bool)
      → Writable s (a ++ b)
      → Distinct a
      → Distinct b
      → Disjoint a b
      → Sorts k a
      → Sorts k b
      → Spine f x a
      → Spine f y b
      → length a + length b < suc k
      → Ends (Linked s f (a ++ b) (order_of (a ++ b))) (Halfway f (a ++ b) s) (
          and_then (fsort call2 k x pred (with_cdr s f q p)) (λ front s5.
            and_then (fsort call2 k y pred s5) (λ rest. merge call2 (suc k) front rest pred)))
  sort_parts k a b f x y q p w da db apart sort_a sort_b ca cb h =
      after s f a (a ++ b) (order_of a) (order_of (a ++ b))
        (fsort call2 k x pred (with_cdr s f q p))
        (λ front s5.
          and_then (fsort call2 k y pred s5) (λ rest. merge call2 (suc k) front rest pred))
        (λ z o. ground (arith, o, has-append z a b)) (sort_a f x q p ca)
        (λ front g1 q1 p1 out1 c1.
          after s g1 b (a ++ b) (order_of b) (order_of (a ++ b))
            (fsort call2 k y pred (with_cdr s g1 q1 p1))
            (λ rest. merge call2 (suc k) front rest pred)
            (λ z o. ground (arith, o, has-append z a b))
            (sort_b g1 y q1 p1
              (Spine-agree f g1 y b (λ z i. out1 z (ground (arith, i, apart z))) cb))
            (λ rest g2 q2 p2 out2 c2.
              narrower g2 g2 (order_of a ++ order_of b) (a ++ b) s
                (λ g v. Spine g v (merged (by_car less s) (order_of a) (order_of b)))
                (λ g v. Spine g v (order_of (a ++ b)))
                (merge call2 (suc k) front rest pred (with_cdr s g2 q2 p2))
                (λ z o. (same z ∙ o, refl))
                (λ g v o c. subst (Spine g v) (merged-sorted (by_car less s) order a b) c)
                (merge_lem call2 pred less s compares (suc k) (order_of a) (order_of b) g2 front
                  rest q2 p2 (λ z i. w z (sym (same z) ∙ i)) (Distinct-sorted (by_car less s) a da)
                  (Distinct-sorted (by_car less s) b db)
                  (λ z i.
                    has-sorted (by_car less s) z b
                    ∙ apart z (sym (has-sorted (by_car less s) z a) ∙ i))
                  (Spine-agree g1 g2 front (order_of a)
                    (λ z i. out2 z (apart z (sym (has-sorted (by_car less s) z a) ∙ i))) c1)
                  c2
                  (omega
                    (arith, h, length-sorted (by_car less s) a, length-sorted (by_car less s) b)))))
    where
      same : (z : ℕ) → has z (order_of a ++ order_of b) ≡ has z (a ++ b)
      same z = ground (
        arith,
        has-append z a b,
        has-append z (order_of a) (order_of b),
        has-sorted (by_car less s) z a,
        has-sorted (by_car less s) z b,
      )
