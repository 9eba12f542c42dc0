-- ===== src/Lisp/Lists/Fresh/Mapcar.antt =====
-- mapcar over a list: the order of the calls.
use holomacs.Prelude.{
  ℕ, suc, ◌<◌, ◌≡◌, refl, ap, ◌∙◌, ◌⊎◌, inl, inr, true, Bool, List, [], ◌∷◌, map, arith, length,
  has,
}
use holomacs.Lisp.{
  Object, Lisp, Condition, Code, Result, done, raise, endless, and_then, polled, fcar, fcdr,
}
use holomacs.Lisp.View.{Ends, Polled, Quit, Spine}
use holomacs.Lisp.Lists.{flength}
use holomacs.Lisp.Lists.Fresh.{map_cars, mapcar1, fmapcar, flist}
use holomacs.Lisp.Lists.Fresh.Reverse.{list_length}

-- The cells hold what they held.
abbrev pub Same : List ℕ → Lisp → Lisp → Type 0
Same l s s' = (a : ℕ) → has a l ≡ true → (s'.car a ≡ s.car a) × (s'.cdr a ≡ s.cdr a)

and_then_ext :
    {A B : Type 0} (r : Result A) (k k' : A → Code B)
    → ((a : A) (s : Lisp) → r ≡ done a s → k a s ≡ k' a s)
    → and_then r k ≡ and_then r k'
and_then_ext (done a s) k k' h = h a s refl
and_then_ext (raise c s) k k' h = refl
and_then_ext endless k k' h = refl

module _ (call1 : (fn arg : Object) → Code Object) where
  -- The function is called for one object after the other.
  abbrev pub call_each : (fn : Object) → List Object → Code (List Object)
  call_each fn [] s = done [] s
  call_each fn (x ∷ xs) s =
      and_then (call1 fn x s) (λ v s1. and_then (call_each fn xs s1) (λ vs. done (v ∷ vs)))

  map_cars_lem :
      (s : Lisp) (fn : Object) (l : List ℕ)
      → ((x v : Object) (s1 s2 : Lisp) → Same l s s1 → call1 fn x s1 ≡ done v s2 → Same l s s2)
      → (m : List ℕ) (tail : Object) (s1 : Lisp) → ((a : ℕ) → has a m ≡ true → has a l ≡ true)
      → Spine s.cdr tail m
      → Same l s s1
      → map_cars call1 (length m) fn tail s1 ≡ call_each fn (map s.car m) s1
  unfolding map_cars fcar fcdr
  map_cars_lem s fn l keeps [] tail s1 inside c same = refl
  map_cars_lem s fn l keeps (a ∷ m) tail s1 inside c same =
      ap (λ x. map_cars call1 (suc (length m)) fn x s1) c.0
      ∙ ap
          (λ x.
            and_then (call1 fn x s1)
              (λ v s2. and_then (map_cars call1 (length m) fn (s2.cdr a) s2) (λ vs. done (v ∷ vs))))
          (same a (inside a (ground arith))).0
      ∙ and_then_ext (call1 fn (s.car a) s1) _ _ (λ v s2 e.
        let now = keeps (s.car a) v s1 s2 same e in
        ap (λ x. and_then (map_cars call1 (length m) fn x s2) (λ vs. done (v ∷ vs)))
          (now a (inside a (ground arith))).1
        ∙ ap (λ r. and_then r (λ vs. done (v ∷ vs)))
            (map_cars_lem s fn l keeps m (s.cdr a) s2 (λ b h. inside b (ground (arith, h))) c.1
              now))

  -- A quit, or the calls in order and a list of what they return.
  abbrev pub InOrder : (fn : Object) → List Object → Lisp → Result Object → Type 0
  InOrder fn xs s r =
      ((c : Condition) × (s' : Lisp) × (r ≡ raise c s') × Quit s c s')
      ⊎ ((q : Bool) × (p : List Bool) × (r ≡ and_then (call_each fn xs (polled q p s)) flist))

  seq_is_list :
      (n : ℕ) (fn list : Object) (cdr : ℕ → Object) (l : List ℕ) (s1 : Lisp)
      → Spine cdr list l
      → mapcar1 call1 n fn list s1 ≡ map_cars call1 n fn list s1
  unfolding mapcar1
  seq_is_list n fn list cdr [] s1 c = rw c refl
  seq_is_list n fn list cdr (a ∷ l) s1 c = rw c.0 refl

  -- Calls that leave the cells of the list as they are give, on a list that ends, in more rounds than it
  -- has cells: either a quit comes before the first call, or mapcar calls the function for the elements in
  -- their order, ends as the first call that does not return, and else makes a list of the values.
  pub mapcar_lem :
      (s : Lisp) (k : ℕ) (fn list : Object) (l : List ℕ)
      → ((x v : Object) (s1 s2 : Lisp) → Same l s s1 → call1 fn x s1 ≡ done v s2 → Same l s s2)
      → Spine s.cdr list l
      → length l < k
      → InOrder fn (map s.car l) s (fmapcar call1 k fn list s)
  unfolding fmapcar
  mapcar_lem s k fn list l keeps c h = after (flength k list s) (list_length s k list l c h)
    where
      after :
          (r : Result ℕ)
          → Ends (λ n s'. Polled s s' × (n ≡ length l)) (Quit s) r
          → InOrder fn
              (map s.car l)
              s
              (and_then r (λ leni s1. and_then (mapcar1 call1 leni fn list s1) flist))
      after (raise c s') stop = inl (c, s', refl, stop)
      after endless stop = absurd stop
      after (done n s1) ((q, p, at), e) = inr (
        q,
        p,
        ap (λ x. and_then (mapcar1 call1 n fn list x) flist) at
            ∙ ap (λ j. and_then (mapcar1 call1 j fn list (polled q p s)) flist) e
            ∙ ap (λ r. and_then r flist)
                (seq_is_list (length l) fn list s.cdr l (polled q p s) c
                  ∙ map_cars_lem s fn l keeps l list (polled q p s) (λ a i. i) c
                      (λ a i. (refl, refl))),
      )
