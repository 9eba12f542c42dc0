-- ===== src/Lisp/Eval.antt =====
-- eval.c: the binding stack and the special forms. `feval`, which evaluates a form, and `call_func`,
-- which calls a function of C by its address, are parameters.
pub mod Forms
pub mod Bind
pub mod Scope
use holomacs.Prelude.{
  ℕ, zero, suc, ◌+◌, ◌*◌, Bool, true, false, not, ◌&&◌, ◌||◌, Option, none, some, List, [], ◌∷◌,
  ltb, leb, ◌==◌, if◌then◌else◌, length, pos,
}
use holomacs.Lisp.{
  Object, int, symbol, buffer_objfwd, nil, qt, qunbound, eq, is_null, Lisp, Binding, Specpdl,
  binding_depth, Result, done, raise, endless, Code, and_then, fcar, fcdr, check_quit,
}
use holomacs.Lisp.Data.{check_symbol}
use holomacs.Lisp.Vars.{fsymbol_value, store_symval_forwarding}
use holomacs.Lisp.Vars.Set.{fset}

unfoldable pub grow_specpdl : Code (Unit {0})
grow_specpdl s =
    let p = s.specpdl in
    let max = if leb p.max_size p.size && ltb p.max_size 400 then 400 else p.max_size in
    if leb max p.size
    then raise binding_depth (record s { specpdl = record p { max_size = max } })
    else done tt (record s {
      specpdl = record p {
        size = if ltb max (p.size * 2) then max else p.size * 2;
        max_size = max;
      };
    })

-- `if (specpdl_ptr == specpdl + specpdl_size) grow_specpdl ();`
abbrev ensure_room : Code (Unit {0})
ensure_room s = if length s.specpdl.entries == s.specpdl.size then grow_specpdl s else done tt s

abbrev pub push : Binding → Lisp → Lisp
push b s = record s { specpdl = record s.specpdl { entries = b ∷ s.specpdl.entries } }

-- The new value, by its kind of contents before.
abbrev pub bind_value : (rounds : ℕ) → (symbol ovalue value : Object) → Code (Unit {0})
bind_value k sym (buffer_objfwd i) v s = store_symval_forwarding sym (buffer_objfwd i) v s
bind_value k sym ovalue v s = and_then (fset k sym v s) (λ _ s1. done tt s1)

unfoldable pub specbind : (rounds : ℕ) → (symbol value : Object) → Code (Unit {0})
unfolding grow_specpdl fsymbol_value fset store_symval_forwarding
specbind k sym v s = and_then (check_symbol sym s) (λ a s1. and_then (ensure_room s1) (λ _ s2.
    let ovalue = s2.value a in
    and_then (if eq ovalue qunbound then done qunbound s2 else fsymbol_value k sym s2) (λ old s3.
      bind_value k sym ovalue v
        (push (record { symbol_bound = sym; old_value = old; func = none }) s3))))

-- `function` is none for 0.
unfoldable pub record_unwind_protect : (function : Option ℕ) → (arg : Object) → Code (Unit {0})
unfolding grow_specpdl
record_unwind_protect function arg s =
    and_then (ensure_room s)
      (λ _ s1. done tt (push (record { symbol_bound = nil; old_value = arg; func = function }) s1))

module _ (feval : Object → Code Object) (call_func : ℕ → Object → Code (Unit {0})) where
  -- `do { val = Feval (Fcar (args_left)); if (stop) break; args_left = Fcdr (args_left); }
  -- while (!NULL (args_left));`
  unfoldable pub eval_until :
      (stop : Object → Bool) → (rounds : ℕ) → (args_left : Object) → Code Object
  eval_until stop zero left s = endless
  eval_until stop (suc k) left s = and_then (fcar left s) (λ form s1.
      and_then (feval form s1) (λ val s2.
        if stop val
        then done val s2
        else and_then (fcdr left s2)
            (λ next s3. if is_null next then done val s3 else eval_until stop k next s3)))

  -- In Mocklisp code, symbols at the front of the arguments are bound to zero; the others are left.
  unfoldable bind_to_zero : (rounds : ℕ) → (args : Object) → Code Object
  unfolding specbind
  bind_to_zero zero args s = endless
  bind_to_zero (suc k) args s =
      if is_null args
      then done args s
      else and_then (fcar args s) (λ tem s1. elim tem [
        | symbol a ↦ and_then (check_quit s1) (λ _ s2.
            and_then (specbind k (symbol a) (int (pos 0)) s2)
              (λ _ s3. and_then (fcdr args s3) (λ next. bind_to_zero k next)))
        | other ↦ done args s1
      ])

  unfoldable pub fprogn : (rounds : ℕ) → (args : Object) → Code Object
  unfolding eval_until bind_to_zero
  fprogn k args s =
      and_then (if eq s.mocklisp_arguments qt then done args s else bind_to_zero k args s)
        (λ left s1. if is_null left then done nil s1 else eval_until (λ val. false) k left s1)

  -- One entry of the stack.
  abbrev pub unbind_entry : (rounds : ℕ) → Binding → Code (Unit {0})
  unbind_entry k b s = elim b.func [
    | some f ↦ call_func f b.old_value s
    | none ↦
        if is_null b.symbol_bound
        then and_then (fprogn k b.old_value s) (λ _ s1. done tt s1)
        else and_then (fset k b.symbol_bound b.old_value s) (λ _ s1. done tt s1)
  ]

  -- `while (specpdl_ptr != specpdl + count)`. Below the bottom of the stack it would run on.
  unfoldable pub unbind_loop : (rounds count : ℕ) → Code (Unit {0})
  unfolding fprogn fset
  unbind_loop zero count s = endless
  unbind_loop (suc k) count s =
      if length s.specpdl.entries == count then done tt s else elim s.specpdl.entries [
        | [] ↦ endless
        | b ∷ rest ↦
            and_then (unbind_entry k b (record s { specpdl = record s.specpdl { entries = rest } }))
              (λ _. unbind_loop k count)
      ]

  unfoldable pub unbind_to : (rounds count : ℕ) → Code (Unit {0})
  unfolding unbind_loop
  unbind_to k count s =
      let quitf = s.quit_flag in
      and_then (unbind_loop k count (record s { quit_flag = false }))
        (λ _ s1. done tt (record s1 { quit_flag = s1.quit_flag || quitf }))
