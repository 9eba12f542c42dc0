-- ===== src/Lisp/Eval/Bind.antt =====
-- Dynamic binding: specbind and unbind_to.
use holomacs.Prelude.{
  ℕ, suc, ◌*◌, ◌<◌, ◌≤◌, ◌≡◌, refl, sym, ap, inl, inr, Bool, true, false, ◌||◌, List, ◌∷◌, arith,
  ◌==◌, leb, ltb, if◌then◌else◌, Bool-cases, none, length,
}
use holomacs.Lisp.{
  Object, symbol, intfwd, boolfwd, objfwd, buffer_objfwd, buffer_local_value,
  some_buffer_local_value, void, qt, qunbound, eq, is_null, Lisp, Binding, done, update,
}
use holomacs.Lisp.View.{eq-path}
use holomacs.Lisp.Vars.{set_value, store_symval_forwarding, fsymbol_value}
use holomacs.Lisp.Vars.Set.{fset}
use holomacs.Lisp.Vars.Cache.{is_plain}
use holomacs.Lisp.Vars.SetUp.{plain_value}
use holomacs.Lisp.Eval.{specbind, bind_value, grow_specpdl, push}

-- A value, or that there is none.
abbrev pub is_ordinary : Object → Bool
is_ordinary x = is_plain x || eq x qunbound

-- Fset refuses nil and t.
abbrev pub is_constant : ℕ → Bool
is_constant a = is_null (symbol a) || eq (symbol a) qt

pub set_ordinary :
    (s : Lisp) (k a : ℕ) (x v : Object)
    → s.value a ≡ x
    → is_ordinary x ≡ true
    → is_constant a ≡ false
    → fset k (symbol a) v s ≡ done v (set_value a v s)
unfolding fset store_symval_forwarding
set_ordinary s k a (void z) v e h n = absurd (ground (arith, h))
set_ordinary s k a (intfwd z) v e h n = absurd (ground (arith, h))
set_ordinary s k a (boolfwd z) v e h n = absurd (ground (arith, h))
set_ordinary s k a (objfwd z) v e h n = absurd (ground (arith, h))
set_ordinary s k a (buffer_objfwd z) v e h n = absurd (ground (arith, h))
set_ordinary s k a (buffer_local_value z) v e h n = absurd (ground (arith, h))
set_ordinary s k a (some_buffer_local_value z) v e h n = absurd (ground (arith, h))
set_ordinary s k a x v e h n = rw n (rw e (rw e refl))

bind_ordinary :
    (s : Lisp) (k a : ℕ) (x v : Object)
    → s.value a ≡ x
    → is_ordinary x ≡ true
    → is_constant a ≡ false
    → bind_value k (symbol a) x v s ≡ done tt (set_value a v s)
bind_ordinary s k a (buffer_objfwd z) v e h n = absurd (ground (arith, h))
bind_ordinary s k a x v e h n = rw (set_ordinary s k a x v e h n) refl

-- The value that is saved.
saved :
    (s : Lisp) (k a : ℕ)
    → is_ordinary (s.value a) ≡ true
    → (if eq (s.value a) qunbound then done qunbound s else fsymbol_value (suc k) (symbol a) s)
      ≡ done (s.value a) s
unfolding fsymbol_value
saved s k a h = elim (Bool-cases (eq (s.value a) qunbound)) [
  | inl i ↦ rw i (ap (λ o. done o s) (sym (eq-path (s.value a) qunbound i)))
  | inr i ↦ rw i (plain_value k (symbol a) (s.value a) s (ground (arith, h, i)))
]

-- The stack with the given entries, its sizes and the values of symbols.
abbrev pub with_binding : Lisp → (ℕ → Object) → List Binding → (size max : ℕ) → Lisp
with_binding s f l n m = record s {
  value = f;
  specpdl = record { entries = l; size = n; max_size = m };
}

abbrev pub entry : ℕ → Object → Binding
entry a old = record { symbol_bound = symbol a; old_value = old; func = none }

pub specbind-done :
    (s : Lisp) (k a : ℕ) (v : Object)
    → is_ordinary (s.value a) ≡ true
    → is_constant a ≡ false
    → s.specpdl.size ≤ s.specpdl.max_size
    → length s.specpdl.entries < s.specpdl.max_size
    → (n : ℕ) × (specbind (suc k) (symbol a) v s
        ≡ done tt (
            with_binding s
              (update s.value a v)
              (entry a (s.value a) ∷ s.specpdl.entries)
              n
              s.specpdl.max_size))
      × (n ≤ s.specpdl.max_size)
unfolding specbind grow_specpdl
specbind-done s k a v h n sized room =
    elim (Bool-cases (length s.specpdl.entries == s.specpdl.size)) [
      | inl i ↦ (
        grown,
        rw i (
            rw (room_left i) (
              rw (room_left i) (
                rw (saved grown_stack k a h) (
                  bind_ordinary (push (entry a (s.value a)) grown_stack) (suc k) a (s.value a) v
                    refl h n)))),
        ground arith,
      )
      | inr i ↦ (
        s.specpdl.size,
        rw i (
            rw (saved s k a h)
              (bind_ordinary (push (entry a (s.value a)) s) (suc k) a (s.value a) v refl h n)),
        sized,
      )
    ]
  where
    grown : ℕ
    grown =
        if ltb s.specpdl.max_size (s.specpdl.size * 2)
        then s.specpdl.max_size
        else s.specpdl.size * 2

    grown_stack : Lisp
    grown_stack = record s { specpdl = record s.specpdl { size = grown } }

    room_left :
        length s.specpdl.entries == s.specpdl.size ≡ true
        → leb s.specpdl.max_size s.specpdl.size ≡ false
    room_left i = ground (arith, i, room)
