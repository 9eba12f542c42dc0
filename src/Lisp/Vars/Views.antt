-- ===== src/Lisp/Vars/Views.antt =====
-- What the buffers see of a variable after its cells have been written.
use holomacs.Prelude.{
  ℕ, ◌≡◌, refl, sym, ap, ◌∙◌, ◌⊎◌, inl, inr, Bool, true, false, List, [], ◌∷◌, arith, ◌==◌,
  if◌then◌else◌, Bool-cases, has, none, some,
}
use holomacs.Lisp.{Object, symbol, cons, buffer, eq, is_null, Lisp, update, polled}
use holomacs.Lisp.Data.{pointer}
use holomacs.Lisp.Lists.Search.{assq_entry}
use holomacs.Lisp.Sort.Halves.{Spine-agree}
use holomacs.Lisp.Vars.Cache.{element_of, slot, view, Consistent}

-- Other cars and cdrs.
abbrev pub with_cells : Lisp → (car cdr : ℕ → Object) → Lisp
with_cells s f g = record s { car = f; cdr = g }

entry_same :
    (s : Lisp) (f g : ℕ → Object) (key elt : Object)
    → ((y : ℕ) → elt ≡ cons y → f y ≡ s.car y)
    → assq_entry (with_cells s f g) key elt ≡ assq_entry s key elt
entry_same s f g key (cons y) h = rw (h y refl) refl
entry_same s f g key elt h = refl

element_same :
    (s : Lisp) (f g : ℕ → Object) (a : ℕ) (l : List ℕ)
    → ((z : ℕ) → has z l ≡ true → f z ≡ s.car z)
    → ((z y : ℕ) → has z l ≡ true → s.car z ≡ cons y → f y ≡ s.car y)
    → element_of (with_cells s f g) a l ≡ element_of s a l
element_same s f g a [] same keys = refl
element_same s f g a (z ∷ l) same keys =
    ap (λ o. elim o [ none ↦ element_of (with_cells s f g) a l | some v ↦ v ])
      (ap (assq_entry (with_cells s f g) (symbol a)) (same z (ground arith))
        ∙ entry_same s f g (symbol a) (s.car z) (λ y. keys z y (ground arith)))
    ∙ ap (λ m. elim (assq_entry s (symbol a) (s.car z)) [ none ↦ m | some v ↦ v ])
        (element_same s f g a l (λ y i. same y (ground (arith, i)))
          (λ y w i. keys y w (ground (arith, i))))

not_there : (n z : ℕ) (l : List ℕ) → has z l ≡ true → has n l ≡ false → n == z ≡ false
not_there n z l h i = elim (Bool-cases (n == z)) [
  | inl k ↦ absurd (ground (arith, i, ap (λ y. has y l) (path k) ∙ h))
  | inr k ↦ k
]
  where
    path : n == z ≡ true → n ≡ z
    path k = ground (arith, k)

module _ (s : Lisp) (a c b d e : ℕ) (alist : ℕ → List ℕ) (i : Consistent s a c b d e alist) where
  -- What the slots hold once REALVALUE is written back.
  pub view_before :
      (x : ℕ) → update s.cdr e (s.car c) (slot s a d (alist x)) ≡ view s a c b d alist x
  view_before x = elim (Bool-cases (eq (s.car b) (buffer x))) [
    | inl h ↦ rw h (ap (update s.cdr e (s.car c)) (i.cached x h) ∙ ground arith)
    | inr h ↦ rw h (elim (Bool-cases (e == slot s a d (alist x))) [
      | inl k ↦ rw k (old x h (ground (arith, k)))
      | inr k ↦ rw k refl
    ])
  ]
    where
      old :
          (x : ℕ)
          → eq (s.car b) (buffer x) ≡ false
          → slot s a d (alist x) ≡ e
          → s.car c ≡ s.cdr (slot s a d (alist x))
      old x h k = elim (i.uncached x k) [
        | inl t ↦ absurd (ground (arith, h, t))
        | inr t ↦ sym (ap s.cdr k ∙ t)
      ]

module _ (s : Lisp) (a c b d e : ℕ) (alist : ℕ → List ℕ) (i : Consistent s a c b d e alist)
    (f g : ℕ → Object) (cars : (z : ℕ) → has z (c ∷ b ∷ d ∷ []) ≡ false → f z ≡ s.car z)
    (cdrs : (z : ℕ) → has z (d ∷ e ∷ []) ≡ false → g z ≡ s.cdr z) where
  slot_same : (x : ℕ) → slot (with_cells s f g) a d (alist x) ≡ slot s a d (alist x)
  slot_same x =
      ap (λ o. pointer (if is_null o then cons d else o))
        (element_same s f g a (alist x) (λ z m. cars z (ground (arith, i.apart x z m)))
          (λ z y m k. cars y (i.keys x z y m k)))

  -- Set up for the current buffer, with what is stale in the slot of that buffer only.
  module _ (set_up : f b ≡ buffer s.buffers.current)
      (element : f d ≡ cons (slot s a d (alist s.buffers.current)))
      (fresh : (x : ℕ)
        → slot s a d (alist x) ≡ slot s a d (alist s.buffers.current)
        → (x ≡ s.buffers.current) ⊎ (g (slot s a d (alist s.buffers.current)) ≡ f c)) where
    -- The current buffer sees REALVALUE, other buffers what their slots hold.
    pub view_after :
        (x : ℕ)
        → view (with_cells s f g) a c b d alist x
          ≡ (if s.buffers.current == x then f c else g (slot s a d (alist x)))
    view_after x =
        ap (λ n. if eq (f b) (buffer x) then f c else g n) (slot_same x)
        ∙ ap (λ o. if eq o (buffer x) then f c else g (slot s a d (alist x))) set_up

    pub Consistent-after :
        Consistent (with_cells s f g) a c b d (slot s a d (alist s.buffers.current)) alist
    Consistent-after = record {
      contents = i.contents;
      tail = cdrs c (ground (arith, i.distinct.0, i.other)) ∙ i.tail;
      rest = cdrs b (ground (arith, i.distinct.1.0, i.other)) ∙ i.rest;
      element = element;
      spines = λ x.
          Spine-agree s.cdr g (s.buffers.local_var_alist x) (alist x)
            (λ z m. cdrs z (ground (arith, i.apart x z m))) (i.spines x);
      apart = λ x z m. out x z m;
      keys = λ x z y m k. i.keys x z y m (sym (cars z (ground (arith, i.apart x z m))) ∙ k);
      slots = λ x. ap (λ n. has n (c ∷ b ∷ [])) (slot_same x) ∙ i.slots x;
      elements = λ x y. ap (λ n. has n (alist y)) (slot_same x) ∙ i.elements x y;
      own = λ x y h. elim (i.own x y (sym (slot_same x) ∙ h ∙ slot_same y)) [
        | inl k ↦ inl k
        | inr k ↦ inr (slot_same x ∙ k)
      ];
      distinct = i.distinct;
      other = i.slots s.buffers.current;
      writable = (i.writable.1 s.buffers.current, λ x. ap s.is_pure (slot_same x) ∙ i.writable.1 x);
      cached = λ x h. slot_same x ∙ ap (λ y. slot s a d (alist y)) (sym (is_here x h));
      uncached = λ x h. elim (fresh x (sym (slot_same x) ∙ h)) [
        | inl k ↦ inl (ap (λ o. eq o (buffer x)) set_up ∙ ground (arith, k))
        | inr k ↦ inr k
      ];
    }
      where
        is_here : (x : ℕ) → eq (f b) (buffer x) ≡ true → s.buffers.current ≡ x
        is_here x h = ground (arith, sym (ap (λ o. eq o (buffer x)) set_up) ∙ h)

        out :
            (x z : ℕ)
            → has z (alist x) ≡ true
            → has z (c ∷ b ∷ d ∷ slot s a d (alist s.buffers.current) ∷ []) ≡ false
        out x z m =
            let n =
              not_there (slot s a d (alist s.buffers.current)) z (alist x) m
                (i.elements s.buffers.current x) in
            ground (arith, i.apart x z m, n)

pub Consistent-polled :
    (s : Lisp) (a c b d e : ℕ) (alist : ℕ → List ℕ) (q : Bool) (p : List Bool)
    → Consistent s a c b d e alist
    → Consistent (polled q p s) a c b d e alist
Consistent-polled s a c b d e alist q p i = record {
  contents = i.contents;
  tail = i.tail;
  rest = i.rest;
  element = i.element;
  spines = i.spines;
  apart = i.apart;
  keys = i.keys;
  slots = i.slots;
  elements = i.elements;
  own = i.own;
  distinct = i.distinct;
  other = i.other;
  writable = i.writable;
  cached = i.cached;
  uncached = i.uncached;
}

-- REALVALUE is written back, and nothing else is done.
pub Consistent-written :
    (s : Lisp) (a c b d e : ℕ) (alist : ℕ → List ℕ)
    → Consistent s a c b d e alist
    → Consistent (with_cells s s.car (update s.cdr e (s.car c))) a c b d e alist
Consistent-written s a c b d e alist i = record {
  contents = i.contents;
  tail = ground (arith, i.other, i.tail);
  rest = ground (arith, i.other, i.rest);
  element = i.element;
  spines = λ x.
      Spine-agree s.cdr (update s.cdr e (s.car c)) (s.buffers.local_var_alist x) (alist x)
        (λ z m. ground (arith, i.apart x z m)) (i.spines x);
  apart = i.apart;
  keys = i.keys;
  slots = i.slots;
  elements = i.elements;
  own = i.own;
  distinct = i.distinct;
  other = i.other;
  writable = i.writable;
  cached = i.cached;
  uncached = λ x h. inr (ground arith);
}

pub view_written :
    (s : Lisp) (a c b d e : ℕ) (alist : ℕ → List ℕ)
    → Consistent s a c b d e alist
    → (x : ℕ)
    → view (with_cells s s.car (update s.cdr e (s.car c))) a c b d alist x ≡ view s a c b d alist x
view_written s a c b d e alist i x = elim (Bool-cases (eq (s.car b) (buffer x))) [
  | inl h ↦ rw h refl
  | inr h ↦ rw h (
      view_before s a c b d e alist i x
      ∙ ap (λ o. if o then s.car c else s.cdr (slot s a d (alist x))) h)
]
