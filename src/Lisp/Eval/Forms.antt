-- ===== src/Lisp/Eval/Forms.antt =====
-- eval.c: the special forms. Each takes the list of its arguments, unevaluated.
use holomacs.Prelude.{
  ℕ, zero, suc, Bool, true, false, not, none, List, [], ◌∷◌, if◌then◌else◌, length, ℤ, pos, negsuc,
  ◌+ℤ◌,
}
use holomacs.Lisp.{
  Object, symbol, nil, qt, eq, is_null, same_int, Lisp, done, endless, Code, and_then, fcar, fcdr,
  check_quit,
}
use holomacs.Lisp.Lists.{flength}
use holomacs.Lisp.Vars.{xcdr}
use holomacs.Lisp.Vars.Set.{fset}
use holomacs.Lisp.Eval.{eval_until, fprogn, specbind, unbind_to, record_unwind_protect}

abbrev is_symbol : Object → Bool
is_symbol (symbol a) = true
is_symbol x = false

-- The number of entries of the binding stack.
abbrev depth : Lisp → ℕ
depth s = length s.specpdl.entries

unfoldable fquote : (args : Object) → Code Object
fquote args = fcar args

unfoldable ffunction : (args : Object) → Code Object
ffunction args = fcar args

module _ (feval : Object → Code Object) (call_func : ℕ → Object → Code (Unit {0})) where
  unfoldable f_or : (rounds : ℕ) → (args : Object) → Code Object
  unfolding eval_until
  f_or k args s =
      if is_null args
      then done nil s
      else eval_until feval call_func (λ val. not (is_null val)) k args s

  unfoldable fand : (rounds : ℕ) → (args : Object) → Code Object
  unfolding eval_until
  fand k args s = if is_null args then done qt s else eval_until feval call_func is_null k args s

  unfoldable fif : (rounds : ℕ) → (args : Object) → Code Object
  unfolding fprogn
  fif k args s = and_then (fcar args s) (λ test s1. and_then (feval test s1) (λ cond s2.
      and_then (fcdr args s2) (λ rest s3.
        if is_null cond
        then and_then (fcdr rest s3) (λ forms. fprogn feval call_func k forms)
        else and_then (fcar rest s3) (λ form. feval form))))

  -- The value is what `val` holds at first where there is no clause.
  unfoldable fcond : (rounds : ℕ) → (args val : Object) → Code Object
  unfolding fprogn
  fcond zero args val s = endless
  fcond (suc k) args val s =
      if is_null args
      then done val s
      else and_then (fcar args s) (λ clause s1. and_then (fcar clause s1) (λ test s2.
        and_then (feval test s2) (λ val s3.
          if is_null val
          then fcond k (xcdr args s3) val s3
          else if eq (xcdr clause s3) nil
          then done val s3
          else fprogn feval call_func k (xcdr clause s3) s3)))

  -- The loop of prog1 and prog2: the value of the argument for which `argnum` is 0 is kept.
  unfoldable prog_loop : (rounds : ℕ) → (argnum : ℤ) → (args_left val : Object) → Code Object
  prog_loop zero argnum left val s = endless
  prog_loop (suc k) argnum left val s = and_then (fcar left s) (λ form s1.
      and_then (feval form s1) (λ v s2. and_then (fcdr left s2) (λ next s3.
        let kept = if same_int argnum (pos 0) then v else val in
        if is_null next then done kept s3 else prog_loop k (argnum +ℤ pos 1) next kept s3)))

  unfoldable fprog1 : (rounds : ℕ) → (args : Object) → Code Object
  unfolding prog_loop
  fprog1 k args s = if is_null args then done nil s else prog_loop k (pos 0) args nil s

  unfoldable fprog2 : (rounds : ℕ) → (args : Object) → Code Object
  unfolding prog_loop
  fprog2 k args s = if is_null args then done nil s else prog_loop k (negsuc 0) args nil s

  unfoldable setq_loop : (rounds : ℕ) → (args_left : Object) → Code Object
  unfolding fset
  setq_loop zero left s = endless
  setq_loop (suc k) left s = and_then (fcdr left s) (λ rest s1. and_then (fcar rest s1) (λ form s2.
      and_then (feval form s2) (λ val s3. and_then (fcar left s3) (λ sym s4.
        and_then (fset k sym val s4) (λ _ s5. and_then (fcdr left s5) (λ tail s6.
          and_then (fcdr tail s6)
            (λ next s7. if is_null next then done val s7 else setq_loop k next s7)))))))

  unfoldable fsetq : (rounds : ℕ) → (args : Object) → Code Object
  unfolding setq_loop
  fsetq k args s = if is_null args then done nil s else setq_loop k args s

  unfoldable while_loop : (rounds : ℕ) → (test body : Object) → Code Object
  unfolding fprogn
  while_loop zero test body s = endless
  while_loop (suc k) test body s = and_then (feval test s) (λ tem s1.
      if is_null tem
      then done nil s1
      else and_then (check_quit s1)
          (λ _ s2. and_then (fprogn feval call_func k body s2) (λ _. while_loop k test body)))

  unfoldable fwhile : (rounds : ℕ) → (args : Object) → Code Object
  unfolding while_loop
  fwhile k args s =
      and_then (fcar args s) (λ test s1. and_then (fcdr args s1) (λ body. while_loop k test body))

  -- The value of an entry of a VARLIST.
  abbrev entry_value : Object → Code Object
  entry_value elt s =
      if is_symbol elt
      then done nil s
      else and_then (fcdr elt s) (λ rest s1. and_then (fcar rest s1) (λ form. feval form))

  -- The symbol of an entry of a VARLIST.
  abbrev entry_symbol : Object → Code Object
  entry_symbol elt s = if is_symbol elt then done elt s else fcar elt s

  unfoldable bind_in_turn : (rounds : ℕ) → (varlist : Object) → Code (Unit {0})
  unfolding specbind
  bind_in_turn zero varlist s = endless
  bind_in_turn (suc k) varlist s =
      if is_null varlist
      then done tt s
      else and_then (check_quit s) (λ _ s1. and_then (fcar varlist s1) (λ elt s2.
        and_then (entry_value elt s2) (λ val s3. and_then (entry_symbol elt s3) (λ sym s4.
          and_then (specbind k sym val s4)
            (λ _ s5. and_then (fcdr varlist s5) (λ next. bind_in_turn k next))))))

  -- The end of let and let*: the body, and the bindings undone.
  abbrev body_unbound : (rounds count : ℕ) → (args : Object) → Code Object
  body_unbound k count args s = and_then (fcdr args s) (λ body s1.
      and_then (fprogn feval call_func k body s1)
        (λ val s2. and_then (unbind_to feval call_func k count s2) (λ _ s3. done val s3)))

  unfoldable flet_star : (rounds : ℕ) → (args : Object) → Code Object
  unfolding bind_in_turn fprogn unbind_to
  flet_star k args s =
      and_then (fcar args s)
        (λ varlist s1. and_then (bind_in_turn k varlist s1) (λ _. body_unbound k (depth s) args))

  -- The first loop of Flet, with the room in `temps`; there is none behind it.
  unfoldable let_values : (room : ℕ) → (varlist : Object) → Code (List Object)
  let_values zero varlist s = if is_null varlist then done [] s else endless
  let_values (suc room) varlist s =
      if is_null varlist
      then done [] s
      else and_then (check_quit s) (λ _ s1. and_then (fcar varlist s1) (λ elt s2.
        and_then (entry_value elt s2) (λ val s3.
          and_then (fcdr varlist s3)
            (λ next s4. and_then (let_values room next s4) (λ temps. done (val ∷ temps))))))

  -- The second loop: past the values that there are it would read what is no value.
  unfoldable bind_values :
      (rounds : ℕ) → (varlist : Object) → (temps : List Object) → Code (Unit {0})
  unfolding specbind
  bind_values k varlist [] s = if is_null varlist then done tt s else endless
  bind_values k varlist (tem ∷ temps) s =
      if is_null varlist
      then done tt s
      else and_then (fcar varlist s) (λ elt s1. and_then (entry_symbol elt s1) (λ sym s2.
        and_then (specbind k sym tem s2)
          (λ _ s3. and_then (fcdr varlist s3) (λ next. bind_values k next temps))))

  unfoldable flet : (rounds : ℕ) → (args : Object) → Code Object
  unfolding let_values bind_values fprogn unbind_to flength
  flet k args s = and_then (fcar args s) (λ varlist s1. and_then (flength k varlist s1) (λ room s2.
      and_then (let_values room varlist s2) (λ temps s3. and_then (fcar args s3) (λ again s4.
        and_then (bind_values k again temps s4) (λ _. body_unbound k (depth s) args)))))

  unfoldable funwind_protect : (rounds : ℕ) → (args : Object) → Code Object
  unfolding record_unwind_protect unbind_to
  funwind_protect k args s = and_then (fcdr args s) (λ forms s1.
      and_then (record_unwind_protect none forms s1) (λ _ s2. and_then (fcar args s2) (λ form s3.
        and_then (feval form s3)
          (λ val s4. and_then (unbind_to feval call_func k (depth s) s4) (λ _ s5. done val s5)))))
