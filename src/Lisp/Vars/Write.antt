-- ===== src/Lisp/Vars/Write.antt =====
-- The whole of set, of a variable with values of its own in some buffers.
use mathlib.Core.Path.{subst}
use holomacs.Prelude.{
  ℕ, ◌<◌, ◌≡◌, refl, sym, ap, ◌∙◌, inl, inr, Bool, true, false, ◌||◌, List, [], ◌∷◌, arith, ◌==◌,
  if◌then◌else◌, Bool-cases, length, has,
}
use holomacs.Lisp.{
  Object, symbol, cons, buffer, qt, eq, is_null, Lisp, Condition, quit, update, polled,
  some_buffer_local_value,
}
use holomacs.Lisp.View.{Ends, Ends-bind, Ends-mono, Polled, Quit, eq-path}
use holomacs.Lisp.Lists.Search.{and_then_assoc}
use holomacs.Lisp.Vars.Set.{fset, swap}
use holomacs.Lisp.Vars.Cache.{is_plain, slot, view, Consistent}
use holomacs.Lisp.Vars.Steps.{
  Stored, with_default, stored, finish, finish-done, set_up_cars, swap-Ends,
}
use holomacs.Lisp.Vars.Views.{
  with_cells, view_before, Consistent-polled, Consistent-written, view_written,
}
use holomacs.Lisp.Vars.SetUp.{written_back}

-- A quit has come, and every buffer sees what it saw.
abbrev pub Stopped : Lisp → (a c b d : ℕ) → (ℕ → List ℕ) → Condition → Lisp → Type 0
Stopped s a c b d alist z s' =
    (z ≡ quit)
    × (s.inhibit_quit ≡ false)
    × ((x : ℕ) → view s' a c b d alist x ≡ view s a c b d alist x)
    × ((e' : ℕ) × Consistent s' a c b d e' alist)

-- In consistent cells of a variable that does not become local by itself, with a plain REALVALUE, set
-- of a symbol other than nil and t stores the value for the current buffer, or a quit comes and every
-- buffer sees what it saw; the cells stay consistent in both cases.
pub set_lem :
    (s : Lisp) (a c b d e k : ℕ) (alist : ℕ → List ℕ) (v : Object)
    → Consistent s a c b d e alist
    → is_null (symbol a) || eq (symbol a) qt ≡ false
    → length (alist s.buffers.current) < k
    → is_plain (s.car c) ≡ true
    → Ends
        (λ r s'. (r ≡ v) × Stored s a c b d alist v s')
        (Stopped s a c b d alist)
        (fset k (symbol a) v s)
unfolding fset
set_lem s a c b d e k alist v i name h plain = rw name (
    rw i.contents (
      rw i.tail (
        rw i.rest (
          rw i.element (elim (Bool-cases (eq (s.car b) (buffer s.buffers.current))) [
            | inl n ↦ rw n (
                subst (λ y. Ends result stop (finish s a c b d e alist i v (cons y) s))
                  (i.cached s.buffers.current n)
                  (finished s.car s.cdr s.quit_flag s.arrivals i.tail i.rest plain (λ z o. refl)
                    (λ z o. refl) (eq-path (s.car b) (buffer s.buffers.current) n)
                    (i.element ∙ ap cons (sym (i.cached s.buffers.current n)))
                    (λ x o. sees_slot x n o)))
            | inr n ↦ rw n (
                subst (Ends result stop)
                  (sym
                    (and_then_assoc (swap k (symbol a) (some_buffer_local_value c) (cons e) s) _ _))
                  (Ends-bind Swapped result stop
                    (swap k (symbol a) (some_buffer_local_value c) (cons e) s)
                    (finish s a c b d e alist i v)
                    (Ends-mono Swapped Swapped (Quit (with_cells s s.car (written_back s c e))) stop
                      (swap k (symbol a) (some_buffer_local_value c) (cons e) s)
                      (swap-Ends s a c b d e alist i v k h plain) (λ o s' t. t)
                      (λ z s' (quits, (q, p, same), free). (
                        quits,
                        free,
                        λ x.
                            ap (λ t. view t a c b d alist x) same
                            ∙ view_written s a c b d e alist i x,
                        (
                          e,
                          subst (λ t. Consistent t a c b d e alist) (sym same)
                              (Consistent-polled (with_cells s s.car (written_back s c e)) a c b d e
                                alist q p (Consistent-written s a c b d e alist i)),
                        ),
                      )))
                    (λ o s' (is, (q, p, same)).
                      subst (λ t. Ends result stop (finish s a c b d e alist i v o t)) (sym same)
                        (subst
                          (λ y. Ends result stop (
                            finish s a c b d e alist i v y (
                              polled q p (
                                with_cells s (set_up_cars s a c b d e alist i v)
                                  (written_back s c e)))))
                          (sym is)
                          (finished (set_up_cars s a c b d e alist i v) (written_back s c e) q p
                            (ground (arith, i.other, i.tail)) (ground (arith, i.other, i.rest))
                            still_plain (λ z o. ground (arith, o)) (λ z o. ground (arith, o))
                            (ground arith) (ground (arith, i.distinct.1.0))
                            (λ x o. view_before s a c b d e alist i x))))))
          ])))))
  where
    unchanged : set_up_cars s a c b d e alist i v c ≡ s.car c
    unchanged = ground (arith, i.distinct.0, i.distinct.1.0)

    still_plain : is_plain (set_up_cars s a c b d e alist i v c) ≡ true
    still_plain = ap is_plain unchanged ∙ plain

    result : Object → Lisp → Type 0
    result r s' = (r ≡ v) × Stored s a c b d alist v s'

    stop : Condition → Lisp → Type 0
    stop = Stopped s a c b d alist

    Swapped : Object → Lisp → Type 0
    Swapped o s' =
        (o ≡ cons (slot s a d (alist s.buffers.current)))
        × Polled (with_cells s (set_up_cars s a c b d e alist i v) (written_back s c e)) s'

    sees_slot :
        (x : ℕ)
        → eq (s.car b) (buffer s.buffers.current) ≡ true
        → s.buffers.current == x ≡ false
        → s.cdr (slot s a d (alist x)) ≡ view s a c b d alist x
    sees_slot x n o = sym (
        ap (λ o. if eq o (buffer x) then s.car c else s.cdr (slot s a d (alist x)))
          (eq-path (s.car b) (buffer s.buffers.current) n)
        ∙ ap (λ o. if o then s.car c else s.cdr (slot s a d (alist x))) o)

    finished :
        (f g : ℕ → Object) (q : Bool) (p : List Bool)
        → g c ≡ cons b
        → g b ≡ cons d
        → is_plain (f c) ≡ true
        → ((z : ℕ) → has z (c ∷ b ∷ d ∷ []) ≡ false → f z ≡ s.car z)
        → ((z : ℕ) → has z (d ∷ e ∷ []) ≡ false → g z ≡ s.cdr z)
        → f b ≡ buffer s.buffers.current
        → f d ≡ cons (slot s a d (alist s.buffers.current))
        → ((x : ℕ)
            → s.buffers.current == x ≡ false
            → g (slot s a d (alist x)) ≡ view s a c b d alist x)
        → Ends result stop (
            finish s a c b d e alist i v
              (cons (slot s a d (alist s.buffers.current)))
              (polled q p (with_cells s f g)))
    finished f g q p tail rest real cars cdrs set_up element old =
        let (views, (e', j)) =
          stored s a c b d e alist i v (update f c v) g (λ z o. ground (arith, o, cars z o)) cdrs
            (ground (arith, i.distinct.0, set_up)) (ground (arith, i.distinct.0, element))
            (ground arith) old in
        subst (Ends result stop) (sym (finish-done s a c b d e alist i v f g q p tail rest real)) (
          refl,
          (
            views,
            (
              e',
              Consistent-polled (with_cells s (update f c v) (with_default s a c b d e alist i v g))
                  a c b d e' alist q p j,
            ),
          ),
        )
