-- ===== src/Lisp/Eval/Scope.antt =====
-- Dynamic scope: several bindings, and what unbinding them restores.
use holomacs.Prelude.{
  ℕ, suc, ◌+◌, ◌≤◌, ◌≡◌, refl, ap, ◌∙◌, inl, inr, true, false, List, [], ◌∷◌, arith, ◌==◌,
  if◌then◌else◌, Bool-cases, length, has,
}
use holomacs.Lisp.{Object, symbol, is_null, Lisp, Binding, Result, done, Code, and_then, update}
use holomacs.Lisp.Eval.{specbind, unbind_entry, unbind_loop, unbind_to}
use holomacs.Lisp.Eval.Bind.{
  is_ordinary, is_constant, set_ordinary, with_binding, entry, specbind-done,
}

-- Each symbol is bound to its value, in turn.
abbrev pub bind_all : (rounds : ℕ) → List (ℕ × Object) → Code (Unit {0})
bind_all k [] s = done tt s
bind_all k ((a, v) ∷ bs) s = and_then (specbind k (symbol a) v s) (λ _. bind_all k bs)

abbrev pub names : List (ℕ × Object) → List ℕ
names [] = []
names ((a, v) ∷ bs) = a ∷ names bs

-- The values that the bindings give, the entries that they push, and the values once they are undone.
abbrev pub bound_value : (ℕ → Object) → List (ℕ × Object) → ℕ → Object
bound_value f [] = f
bound_value f ((a, v) ∷ bs) = bound_value (update f a v) bs

abbrev pub pushed : (ℕ → Object) → List (ℕ × Object) → List Binding → List Binding
pushed f [] r = r
pushed f ((a, v) ∷ bs) r = pushed (update f a v) bs (entry a (f a) ∷ r)

abbrev restored : (before now : ℕ → Object) → List (ℕ × Object) → ℕ → Object
restored f h [] = h
restored f h ((a, v) ∷ bs) = update (restored (update f a v) h bs) a (f a)

-- No symbol is nil or t. What each holds when its turn comes, and what it is bound to, is a value that
-- stands for itself or the mark of a symbol without a value: no C variable (intfwd, boolfwd, objfwd), no
-- field of a buffer (buffer_objfwd), no buffer-local variable (buffer_local_value,
-- some_buffer_local_value), and nothing of type Lisp_Void.
abbrev pub Bindable : (ℕ → Object) → List (ℕ × Object) → Type 0
Bindable f [] = Unit
Bindable f ((a, v) ∷ bs) =
    (is_ordinary (f a) ≡ true)
    × (is_ordinary v ≡ true)
    × (is_constant a ≡ false)
    × Bindable (update f a v) bs

abbrev pub Bound : Lisp → List (ℕ × Object) → Result (Unit {0}) → Type 0
Bound s bs r =
    (n : ℕ) × (r
      ≡ done tt (
          with_binding s (bound_value s.value bs) (pushed s.value bs s.specpdl.entries) n
            s.specpdl.max_size))

-- No symbol is nil or t, and neither what it holds when its turn comes nor what it is bound to makes it a
-- variable of C or of a buffer, buffer-local, or is of type Lisp_Void. With room for the entries below
-- the largest size of the stack, specbind of such symbols in turn gives each its last value, and pushes
-- one entry for each with what it held, be it no value; nothing else changes but the allocated size of
-- the stack.
pub bind_lem :
    (k : ℕ) (bs : List (ℕ × Object)) (s : Lisp)
    → Bindable s.value bs
    → s.specpdl.size ≤ s.specpdl.max_size
    → length s.specpdl.entries + length bs ≤ s.specpdl.max_size
    → Bound s bs (bind_all (suc k) bs s)
bind_lem k [] s ok sized room = (s.specpdl.size, refl)
bind_lem k ((a, v) ∷ bs) s ok sized room =
    let (n, e, small) = specbind-done s k a v ok.0 ok.2 sized (omega (arith, room)) in
    rw e (
      bind_lem k bs
        (with_binding s (update s.value a v) (entry a (s.value a) ∷ s.specpdl.entries) n
          s.specpdl.max_size)
        ok.3 small (omega (arith, room)))

restored_ordinary :
    (f h : ℕ → Object) (bs : List (ℕ × Object)) (x : ℕ)
    → Bindable f bs
    → is_ordinary (h x) ≡ true
    → is_ordinary (restored f h bs x) ≡ true
restored_ordinary f h [] x ok i = i
restored_ordinary f h ((a, v) ∷ bs) x ok i = elim (Bool-cases (a == x)) [
  | inl j ↦ rw j ok.0
  | inr j ↦ rw j (restored_ordinary (update f a v) h bs x ok.3 i)
]

-- What a symbol has once the bindings are undone.
restored_value :
    (f h : ℕ → Object) (bs : List (ℕ × Object)) (x : ℕ)
    → restored f h bs x ≡ (if has x (names bs) then f x else h x)
restored_value f h [] x = refl
restored_value f h ((a, v) ∷ bs) x = elim (Bool-cases (a == x)) [
  | inl j ↦ rw j (ap f (ground (arith, j)))
  | inr j ↦ rw j (
      restored_value (update f a v) h bs x
      ∙ ap (λ o. if has x (names bs) then o else h x) (ground (arith, j)))
]

module _ (feval : Object → Code Object) (call_func : ℕ → Object → Code (Unit {0})) where
  entry_undone :
      (s : Lisp) (k n m a : ℕ) (r : List Binding) (old : Object) (h : ℕ → Object)
      → is_constant a ≡ false
      → is_ordinary (h a) ≡ true
      → unbind_entry feval call_func k (entry a old) (with_binding s h r n m)
        ≡ done tt (with_binding s (update h a old) r n m)
  entry_undone s k n m a r old h name i =
      rw (not_null name) (rw (set_ordinary (with_binding s h r n m) k a (h a) old refl i name) refl)
    where
      not_null : is_constant a ≡ false → is_null (symbol a) ≡ false
      not_null name = ground (arith, name)

  pop_one :
      (s : Lisp) (k count n m a : ℕ) (r : List Binding) (old : Object) (h : ℕ → Object)
      → count ≤ length r
      → is_constant a ≡ false
      → is_ordinary (h a) ≡ true
      → unbind_loop feval call_func (suc k) count (with_binding s h (entry a old ∷ r) n m)
        ≡ unbind_loop feval call_func k count (with_binding s (update h a old) r n m)
  unfolding unbind_loop
  pop_one s k count n m a r old h c name i = rw (higher (length r) c) (
      ap (λ o. and_then o (λ _. unbind_loop feval call_func k count))
        (entry_undone s k n m a r old h name i))
    where
      higher : (l : ℕ) → count ≤ l → suc l == count ≡ false
      higher l c = ground (arith, c)

  unbind_bindings :
      (s : Lisp) (k count n m : ℕ) (bs : List (ℕ × Object)) (r : List Binding) (f h : ℕ → Object)
      → count ≤ length r
      → Bindable f bs
      → ((x : ℕ) → has x (names bs) ≡ true → is_ordinary (h x) ≡ true)
      → unbind_loop feval call_func (length bs + k) count (with_binding s h (pushed f bs r) n m)
        ≡ unbind_loop feval call_func k count (with_binding s (restored f h bs) r n m)
  unfolding unbind_loop
  unbind_bindings s k count n m [] r f h c ok i =
      ap (λ j. unbind_loop feval call_func j count (with_binding s h r n m)) (zero_rounds k)
    where
      zero_rounds : (j : ℕ) → 0 + j ≡ j
      zero_rounds j = omega arith
  unbind_bindings s k count n m ((a, v) ∷ bs) r f h c ok i =
      ap
        (λ j.
          unbind_loop feval call_func j count
            (with_binding s h (pushed (update f a v) bs (entry a (f a) ∷ r)) n m))
        step
      ∙ unbind_bindings s (suc k) count n m bs (entry a (f a) ∷ r) (update f a v) h
          (omega (arith, c)) ok.3 (λ x o. i x (ground (arith, o)))
      ∙ pop_one s k count n m a r (f a) (restored (update f a v) h bs) c ok.2
          (restored_ordinary (update f a v) h bs a ok.3 (i a (ground arith)))
    where
      step : suc (length bs) + k ≡ length bs + suc k
      step = omega arith

  at_bottom : (l : ℕ) → l == l ≡ true
  at_bottom l = ground arith

  -- On top of a stack are the entries that specbind pushes for some symbols, none of them nil or t, such
  -- that neither what each held when its turn came, nor what it was bound to, nor what it holds now makes
  -- it a variable of C or of a buffer, buffer-local, or is of type Lisp_Void. Then unbinding down to the
  -- stack, in one round more than there are such entries, gives each of these symbols back what it held
  -- before it was bound first, be it no value, whatever it holds now; no other symbol, the stack below and
  -- the quit flag change. Of symbols that are variables of C or of buffers, or buffer-local, nothing is said.
  pub unbind_lem :
      (s : Lisp) (bs : List (ℕ × Object)) (r : List Binding) (before now : ℕ → Object) (n m : ℕ)
      → Bindable before bs
      → ((x : ℕ) → has x (names bs) ≡ true → is_ordinary (now x) ≡ true)
      → (after : ℕ → Object) × (unbind_to feval call_func
            (length bs + 1)
            (length r)
            (with_binding s now (pushed before bs r) n m)
          ≡ done tt (with_binding s after r n m))
        × ((x : ℕ) → after x ≡ (if has x (names bs) then before x else now x))
  unfolding unbind_to unbind_loop
  unbind_lem s bs r before now n m ok i = (
    restored before now bs,
    rw
        (unbind_bindings (record s { quit_flag = false }) 1 (length r) n m bs r before now
          (omega arith) ok i)
        (rw (at_bottom (length r)) refl),
    restored_value before now bs,
  )
