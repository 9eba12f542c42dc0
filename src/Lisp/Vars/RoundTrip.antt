-- ===== src/Lisp/Vars/RoundTrip.antt =====
-- set and symbol-value of variables without cells for buffers.
use mathlib.Core.Path.{subst}
use holomacs.Prelude.{
  ℕ, suc, ◌≡◌, refl, sym, ap, ◌∙◌, inl, inr, true, false, not, ◌||◌, arith, if◌then◌else◌,
  Bool-cases, ℤ, pos,
}
use holomacs.Lisp.{
  Object, int, symbol, intfwd, boolfwd, objfwd, buffer_objfwd, buffer_local_value,
  some_buffer_local_value, qt, eq, same_int, is_null, Lisp, Condition, wrong_type, integerp, Result,
  done, and_then, update,
}
use holomacs.Lisp.View.{Ends}
use holomacs.Lisp.Data.{to_int, truth}
use holomacs.Lisp.Vars.{
  is_local, set_value, set_field, store_symval_forwarding, fsymbol_value, value_in,
  do_symval_forwarding,
}
use holomacs.Lisp.Vars.Set.{fset, set_local, is_positive, note_local}
use holomacs.Lisp.Vars.Cache.{is_plain}
use holomacs.Lisp.Vars.SetUp.{plain_value}

-- What contents keep of a value: a C int of a number, whether it is nil, or the value.
abbrev pub kept : (contents newval : Object) → Object
kept (intfwd z) (int n) = int (to_int n)
kept (boolfwd z) v = truth (not (is_null v))
kept x v = v

-- Afterwards symbol-value gives what is kept.
abbrev pub Set : (rounds a : ℕ) → (contents newval r : Object) → Lisp → Type 0
Set j a x v r s' = (r ≡ v) × (fsymbol_value (suc j) (symbol a) s' ≡ done (kept x v) s')

-- Only a variable of C that is a number refuses a value, one that is no number.
abbrev pub Refused : (contents newval : Object) → Condition → Lisp → Type 0
Refused x v c s' = (c ≡ wrong_type integerp v) × ((z : ℕ) × (x ≡ intfwd z))

at_self : {A : Type 0} (f : ℕ → A) (z : ℕ) (v : A) → update f z v z ≡ v
at_self f z v = ground arith

after_store :
    (s : Lisp) (a j : ℕ) (x v : Object)
    → s.value a ≡ x
    → is_local x ≡ false
    → is_plain v ≡ true
    → Ends
        (Set j a x v)
        (Refused x v)
        (and_then (store_symval_forwarding (symbol a) x v s) (λ _ s4. done v s4))
unfolding store_symval_forwarding fsymbol_value value_in do_symval_forwarding
after_store s a j (intfwd z) (int n) e h p = (
  refl,
  rw e (
      ap (λ m. done (int m) (record s { int_var = update s.int_var z (to_int n) }))
        (at_self s.int_var z (to_int n))),
)
after_store s a j (intfwd z) v e h p = (refl, (z, refl))
after_store s a j (boolfwd z) v e h p = (
  refl,
  rw e (
      ap (λ n. done (truth (not (same_int n (pos 0)))) stored) (at_self s.int_var z flag)
      ∙ meaning),
)
  where
    flag : ℤ
    flag = if is_null v then pos 0 else pos 1

    stored : Lisp
    stored = record s { int_var = update s.int_var z flag }

    meaning :
        done (truth (not (same_int flag (pos 0)))) stored ≡ done (truth (not (is_null v))) stored
    meaning = elim (Bool-cases (is_null v)) [ inl i ↦ rw i refl | inr i ↦ rw i refl ]
after_store s a j (objfwd z) v e h p = (
  refl,
  rw e (ap (λ o. done o (record s { obj_var = update s.obj_var z v })) (at_self s.obj_var z v)),
)
after_store s a j (buffer_objfwd z) v e h p = (
  refl,
  rw e (
      ap (λ o. done (o z) (set_field s.buffers.current z v s))
        (at_self s.buffers.field s.buffers.current (update (s.buffers.field s.buffers.current) z v))
      ∙ ap (λ o. done o (set_field s.buffers.current z v s))
          (at_self (s.buffers.field s.buffers.current) z v)),
)
after_store s a j (buffer_local_value z) v e h p = absurd (ground (arith, h))
after_store s a j (some_buffer_local_value z) v e h p = absurd (ground (arith, h))
after_store s a j x v e h p = rw e (
  refl,
  ap (λ o. value_in (suc j) (symbol a) o (set_value a v s)) (at_self s.value a v)
      ∙ plain_value j (symbol a) v (set_value a v s) p,
)

value_noted : (a : ℕ) (x : Object) (s : Lisp) → (note_local x s).value a ≡ s.value a
value_noted a (buffer_objfwd i) s = elim (Bool-cases (is_positive (s.buffers.local_flags i))) [
  | inl h ↦ rw h refl
  | inr h ↦ rw h refl
]
value_noted a x s = refl

-- For a symbol other than nil and t whose contents are no cells for buffers, set of a plain value
-- returns it and symbol-value then gives what the variable keeps of it: 32 bits of a number in a
-- variable of C, whether it is nil in one that is true or false, else the value. Only a number
-- variable of C refuses it, where it is no number.
pub set_then_value :
    (s : Lisp) (a k j : ℕ) (x v : Object)
    → s.value a ≡ x
    → is_local x ≡ false
    → is_null (symbol a) || eq (symbol a) qt ≡ false
    → is_plain v ≡ true
    → Ends (Set j a x v) (Refused x v) (fset k (symbol a) v s)
unfolding fset
set_then_value s a k j x v e h name p = rw name (
    subst (λ o. Ends (Set j a x v) (Refused x v) (rest o)) (sym e)
      (rw h (after_store (note_local x s) a j x v (value_noted a x s ∙ e) h p)))
  where
    rest : Object → Result Object
    rest o =
        and_then
          (if is_local o
            then set_local k (symbol a) o v (note_local o s)
            else done o (note_local o s))
          (λ target s3.
            and_then (store_symval_forwarding (symbol a) target v s3) (λ _ s4. done v s4))
