-- ===== src/Lisp/Plist/RoundTrip/New.antt =====
-- put of a new property.
use holomacs.Prelude.{
  ℕ, zero, suc, ◌+◌, ◌<◌, ◌≡◌, refl, ◌∙◌, arith, true, false, List, [], ◌∷◌, ◌==◌, length, inl, inr,
  has, Distinct,
}
use holomacs.Lisp.{Object, cons, symbol, nil, Lisp, done, update, fcar, fcdr, fsetcdr, fcons}
use holomacs.Lisp.View.{eq_self}
use holomacs.Lisp.Plist.{get_loop, get, put_new, put_loop, put}
use holomacs.Lisp.Data.{fsymbol_plist, fsetplist}
use holomacs.Lisp.Plist.RoundTrip.{
  Props, Missing, all_cells, last_prop, apart_from, with_car, put_loop_lem,
}

-- The store with two new cells, and with the cdr of a cell changed to the second of them.
abbrev consed : Lisp → (prop val : Object) → Lisp
consed s prop val = record s {
  car = update (update s.car s.unused val) (s.unused + 1) prop;
  cdr = update (update s.cdr s.unused nil) (s.unused + 1) (cons s.unused);
  unused = s.unused + 1 + 1;
}

abbrev appended : Lisp → (prop val : Object) → ℕ → Lisp
appended s prop val b = record (consed s prop val) {
  cdr = update (consed s prop val).cdr b (cons (s.unused + 1));
}

old : {A : Type 0} (f : ℕ → A) (n a : ℕ) (v w : A) → a < n → update (update f n v) (n + 1) w a ≡ f a
old f n a v w h = rw (first n a h) (rw (second n a h) refl)
  where
    first : (n a : ℕ) → a < n → (n + 1 == a) ≡ false
    first n a h = ground (arith, h)

    second : (n a : ℕ) → a < n → (n == a) ≡ false
    second n a h = ground (arith, h)

untouched : {A : Type 0} (f : ℕ → A) (b a : ℕ) (v : A) → (b == a) ≡ false → update f b v a ≡ f a
untouched f b a v h = rw h refl

-- get finds the two new cells.
new_cells :
    (k : ℕ) (prop val : Object) (s : Lisp) (b : ℕ)
    → b < s.unused
    → 0 < k
    → get_loop k prop (cons (s.unused + 1)) (appended s prop val b)
      ≡ done val (appended s prop val b)
unfolding get_loop fcar fcdr
new_cells zero prop val s b h z = absurd (omega (arith, z))
new_cells (suc k) prop val s b h z =
    rw (here (s.unused + 1))
      (rw (eq_self prop) (rw (low b s.unused h) (rw (next s.unused) (rw (here s.unused) refl))))
  where
    here : (n : ℕ) → (n == n) ≡ true
    here n = ground arith

    next : (n : ℕ) → (n + 1 == n) ≡ false
    next n = ground arith

    low : (b n : ℕ) → b < n → (b == n + 1) ≡ false
    low b n h = ground (arith, h)

-- put_new behind a list that is not empty, and then get.
Appends : Lisp → (k : ℕ) → (owner prop val x prev : Object) → List ℕ → Type 0
Appends s k owner prop val x prev cells =
    (b : ℕ) × (has b cells ≡ true)
    × (b < s.unused)
    × (put_new owner prop val prev s ≡ done val (appended s prop val b))
    × (get_loop k prop x (appended s prop val b) ≡ done val (appended s prop val b))

-- What get reads of an old cell whose cdr has not been changed.
old_cell :
    (s : Lisp) (prop val : Object) (b a : ℕ)
    → a < s.unused
    → (b == a) ≡ false
    → (appended s prop val b).cdr a ≡ s.cdr a
old_cell s prop val b a h n =
    untouched (consed s prop val).cdr b a (cons (s.unused + 1)) n
    ∙ old s.cdr s.unused a nil (cons s.unused) h

append_lem :
    (s : Lisp) (k : ℕ) (owner prop val x : Object) (a b : ℕ) (l : List (ℕ × ℕ))
    → Props s x ((a, b) ∷ l)
    → Missing s prop ((a, b) ∷ l)
    → Distinct (all_cells ((a, b) ∷ l))
    → ((a' : ℕ) → has a' (all_cells ((a, b) ∷ l)) ≡ true → s.is_pure a' ≡ false)
    → length l + 1 < k
    → Appends s k owner prop val x (last_prop (cons a) l) (all_cells ((a, b) ∷ l))
unfolding Appends put_new get_loop fcons fcar fcdr fsetcdr
append_lem s zero owner prop val x a b l c m d w h = absurd (omega (arith, h))
append_lem s (suc k) owner prop val x a b [] c m d w h = (
  b,
  last_cell a b,
  c.3,
  rw (old s.cdr s.unused a nil (cons s.unused) c.2) (rw c.1 (rw (w b (last_cell a b)) refl)),
  rw c.0 (
      rw (old s.car s.unused a val prop c.2) (
        rw m.0 (
          rw (old_cell s prop val b a c.2 (apart a b d.0))
            (rw c.1 (rw (here b) (new_cells k prop val s b c.3 (omega (arith, h)))))))),
)
  where
    last_cell : (a b : ℕ) → has b (a ∷ b ∷ []) ≡ true
    last_cell a b = ground arith

    apart : (a b : ℕ) → has a (b ∷ []) ≡ false → (b == a) ≡ false
    apart a b h = ground (arith, h)

    here : (n : ℕ) → (n == n) ≡ true
    here n = ground arith
append_lem s (suc k) owner prop val x a b ((a2, b2) ∷ l) c m d w h =
    let (b', i, less, p, g) =
      append_lem s k owner prop val (s.cdr b) a2 b2 l c.4 m.1 d.1.1
        (λ y j.
          w y (later a y (b ∷ all_cells ((a2, b2) ∷ l)) (later b y (all_cells ((a2, b2) ∷ l)) j)))
        (omega (arith, h)) in
    (
      b',
      later a b' (b ∷ all_cells ((a2, b2) ∷ l)) (later b b' (all_cells ((a2, b2) ∷ l)) i),
      less,
      p,
      rw c.0 (
          rw (old s.car s.unused a val prop c.2) (
            rw m.0 (
              rw
                (old_cell s prop val b' a c.2 (
                  apart_from a b' (b ∷ all_cells ((a2, b2) ∷ l)) d.0
                    (later b b' (all_cells ((a2, b2) ∷ l)) i)))
                (rw c.1 (
                  rw
                    (old_cell s prop val b' b c.3
                      (apart_from b b' (all_cells ((a2, b2) ∷ l)) d.1.0 i))
                    g))))),
    )
  where
    later : (a y : ℕ) (l : List ℕ) → has y l ≡ true → has y (a ∷ l) ≡ true
    later a y l h = ground (arith, h)

abbrev owned : Lisp → (prop val : Object) → ℕ → Lisp
owned s prop val c = record (consed s prop val) { plist = update s.plist c (cons (s.unused + 1)) }

first_property :
    (s : Lisp) (k c : ℕ) (prop val : Object)
    → 1 < k
    → (put_new (symbol c) prop val nil s ≡ done val (owned s prop val c))
      × (get k (symbol c) prop (owned s prop val c) ≡ done val (owned s prop val c))
unfolding put_new get get_loop fcons fcar fcdr fsetplist fsymbol_plist
first_property s zero c prop val h = absurd (omega (arith, h))
first_property s (suc k) c prop val h = (
  refl,
  rw (here c)
      (rw (here (s.unused + 1)) (rw (eq_self prop) (rw (next s.unused) (rw (here s.unused) refl)))),
)
  where
    here : (n : ℕ) → (n == n) ≡ true
    here n = ground arith

    next : (n : ℕ) → (n + 1 == n) ≡ false
    next n = ground arith

-- On a symbol whose property list ends, with distinct cells none of which is in pure storage or free, put
-- returns the value and a get of the same property then gives it, whether the property was there or
-- is new, in more rounds than the list has properties and one.
pub put_then_get :
    (s : Lisp) (k c : ℕ) (prop val : Object) (l : List (ℕ × ℕ))
    → Props s (s.plist c) l
    → Distinct (all_cells l)
    → ((a : ℕ) → has a (all_cells l) ≡ true → s.is_pure a ≡ false)
    → length l + 1 < k
    → (s' : Lisp) × (put k (symbol c) prop val s ≡ done val s')
      × (get k (symbol c) prop s' ≡ done val s')
unfolding put get fsymbol_plist Appends
put_then_get s k c prop val l p d w h =
    elim (put_loop_lem s k (symbol c) prop val nil (s.plist c) l p d w (omega (arith, h))) [
      | inl (b, i, is, found) ↦ (with_car s b val, is, found)
      | inr (is, m) ↦ new l p d w h is m
    ]
  where
    new :
        (l : List (ℕ × ℕ))
        → Props s (s.plist c) l
        → Distinct (all_cells l)
        → ((a : ℕ) → has a (all_cells l) ≡ true → s.is_pure a ≡ false)
        → length l + 1 < k
        → put_loop k (symbol c) prop val nil (s.plist c) s
          ≡ put_new (symbol c) prop val (last_prop nil l) s
        → Missing s prop l
        → (s' : Lisp) × (put k (symbol c) prop val s ≡ done val s')
          × (get k (symbol c) prop s' ≡ done val s')
    new [] p d w h is m =
        let r = first_property s k c prop val (omega (arith, h)) in
        (owned s prop val c, is ∙ r.0, r.1)
    new ((a, b) ∷ l) p d w h is m =
        let (b', i, less, q, g) =
          append_lem s k (symbol c) prop val (s.plist c) a b l p m d w (omega (arith, h)) in
        (appended s prop val b', is ∙ q, g)
