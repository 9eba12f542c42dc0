-- ===== src/Lisp/Vars/Read.antt =====
-- symbol-value of a variable with values of its own in some buffers.
use mathlib.Core.Path.{subst}
use holomacs.Prelude.{
  ℕ, suc, ◌<◌, ◌≡◌, refl, sym, ap, ◌∙◌, inl, inr, true, false, not, ◌||◌, List, [], ◌∷◌, arith,
  ◌==◌, if◌then◌else◌, Bool-cases, length, has,
}
use holomacs.Lisp.{
  Object, symbol, cons, buffer, some_buffer_local_value, eq, is_null, Lisp, done, update,
}
use holomacs.Lisp.View.{eq_self}
use holomacs.Lisp.Data.{pointer}
use holomacs.Lisp.Vars.{cached_elsewhere, value_in, fsymbol_value}
use holomacs.Lisp.Vars.SetUp.{written_back, moved, plain_value, set_up-done}
use holomacs.Lisp.Vars.Views.{view_after, view_before, Consistent-after}
use holomacs.Lisp.Vars.Cache.{is_plain, slot, view, Consistent}

-- A buffer sees the variable before and after; the value is what the current buffer sees.
abbrev pub Seen : Lisp → (a c b d : ℕ) → (ℕ → List ℕ) → Object → Lisp → Type 0
Seen s a c b d alist v s' =
    (v ≡ view s a c b d alist s.buffers.current)
    × ((x : ℕ) → view s' a c b d alist x ≡ view s a c b d alist x)

-- The cells are set up for the current buffer: BUFFER is that buffer, CURRENT-ALIST-ELEMENT is `here`,
-- and REALVALUE is the value.
abbrev pub SetUpHere : Lisp → (c b d here : ℕ) → Object → Type 0
SetUpHere s c b d here v =
    (eq (s.car b) (buffer s.buffers.current) ≡ true) × (s.car d ≡ cons here) × (s.car c ≡ v)

-- The cells are set up for some buffer, and buffers have their values for the variable in cells of their
-- own; the value that the current buffer sees and REALVALUE are plain. Then symbol-value, in at
-- least two rounds more than the alist of the current buffer has elements, gives what the current buffer
-- sees, and what any buffer sees stays the same. Afterwards the current buffer is the one
-- that it was, and the cells are consistent and set up for it, with its element of the alist, or the
-- default cell where it has none, as CURRENT-ALIST-ELEMENT, and the value as REALVALUE.
pub symbol_value_lem :
    (s : Lisp) (a c b d e k : ℕ) (alist : ℕ → List ℕ)
    → Consistent s a c b d e alist
    → length (alist s.buffers.current) < suc k
    → is_plain (s.car c) ≡ true
    → is_plain (view s a c b d alist s.buffers.current) ≡ true
    → (v : Object) × (s' : Lisp) × (fsymbol_value (suc (suc k)) (symbol a) s ≡ done v s')
      × Seen s a c b d alist v s'
      × (s'.buffers.current ≡ s.buffers.current)
      × Consistent s' a c b d (slot s a d (alist s.buffers.current)) alist
      × SetUpHere s' c b d (slot s a d (alist s.buffers.current)) v
unfolding fsymbol_value value_in
symbol_value_lem s a c b d e k alist i h plain_real plain =
    elim (Bool-cases (cached_elsewhere (some_buffer_local_value c) s)) [
      | inl n ↦ (
        v,
        moved s c b d e here v,
        rw i.contents (
            rw n (
              rw (set_up-done s a c b d e alist (suc k) i h plain_real) (
                subst
                  (λ o.
                    value_in (suc k) (symbol a) o (moved s c b d e here v)
                    ≡ done v (moved s c b d e here v))
                  (sym real)
                  (plain_value k (symbol a) v (moved s c b d e here v)
                    (ap is_plain (view_before s a c b d e alist i s.buffers.current) ∙ plain))))),
        (
          view_before s a c b d e alist i s.buffers.current,
          λ x.
              view_after s a c b d e alist i f g cars cdrs set_up_for element
                (λ y h. inr (sym real)) x
              ∙ current_too x
              ∙ view_before s a c b d e alist i x,
        ),
        refl,
        Consistent-after s a c b d e alist i f g cars cdrs set_up_for element
            (λ x h. inr (sym real)),
        (eq_here (f b) set_up_for, element, real),
      )
      | inr n ↦ (
        s.car c,
        s,
        rw i.contents (rw n (plain_value k (symbol a) (s.car c) s plain_real)),
        (rw (is_set_up n) refl, λ x. refl),
        refl,
        subst (λ y. Consistent s a c b d y alist) (sym (slot_here n)) i,
        (is_set_up n, i.element ∙ ap cons (sym (slot_here n)), refl),
      )
    ]
  where
    here : ℕ
    here = slot s a d (alist s.buffers.current)

    g : ℕ → Object
    g = written_back s c e

    v : Object
    v = written_back s c e (slot s a d (alist s.buffers.current))

    f : ℕ → Object
    f = update (update (update s.car d (cons here)) b (buffer s.buffers.current)) c v

    cars : (z : ℕ) → has z (c ∷ b ∷ d ∷ []) ≡ false → f z ≡ s.car z
    cars z o = ground (arith, o)

    cdrs : (z : ℕ) → has z (d ∷ e ∷ []) ≡ false → g z ≡ s.cdr z
    cdrs z o = ground (arith, o)

    set_up_for : f b ≡ buffer s.buffers.current
    set_up_for = ground (arith, i.distinct.0)

    real : f c ≡ v
    real = ground arith

    element : f d ≡ cons here
    element = ground (arith, i.distinct.0, i.distinct.1.0)

    current_too :
        (x : ℕ)
        → (if s.buffers.current == x then f c else g (slot s a d (alist x)))
          ≡ g (slot s a d (alist x))
    current_too x = elim (Bool-cases (s.buffers.current == x)) [
      | inl h ↦ rw h (real ∙ ap (λ y. g (slot s a d (alist y))) (ground (arith, h)))
      | inr h ↦ rw h refl
    ]

    eq_here : (x : Object) → x ≡ buffer s.buffers.current → eq x (buffer s.buffers.current) ≡ true
    eq_here x h = ap (λ y. eq y (buffer s.buffers.current)) h ∙ eq_self (buffer s.buffers.current)

    is_set_up :
        cached_elsewhere (some_buffer_local_value c) s ≡ false
        → eq (s.car b) (buffer s.buffers.current) ≡ true
    is_set_up n = ground (
      arith,
      subst
          (λ o.
            is_null (s.car (pointer o)) || not (eq (s.car (pointer o)) (buffer s.buffers.current))
            ≡ false)
          i.tail n,
    )

    slot_here :
        cached_elsewhere (some_buffer_local_value c) s ≡ false
        → slot s a d (alist s.buffers.current) ≡ e
    slot_here n = i.cached s.buffers.current (is_set_up n)
