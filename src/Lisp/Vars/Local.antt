-- ===== src/Lisp/Vars/Local.antt =====
-- data.c: Fmake_variable_buffer_local, Fmake_local_variable and Fkill_local_variable.
use holomacs.Prelude.{ℕ, not, ◌&&◌, ◌||◌, if◌then◌else◌, ℤ}
use holomacs.Lisp.{
  Object, buffer, buffer_objfwd, buffer_local_value, some_buffer_local_value, nil, qt, qunbound, eq,
  is_null, Lisp, may_not_be_local, done, raise, Code, and_then, update, fcons,
}
use holomacs.Lisp.Data.{pointer, check_symbol}
use holomacs.Lisp.Data.Number.{on_bits}
use holomacs.Lisp.Lists.{assq, delq}
use holomacs.Lisp.Vars.{
  xcar, xcdr, set_xcar, is_current, set_field, set_value, is_local, fsymbol_value,
}
use holomacs.Lisp.Vars.Set.{is_positive, set_alist}

-- The cells (REALVALUE BUFFER TEM . DEFAULT-VALUE), where TEM is the cell of the default value itself.
abbrev local_cells :
    (rounds : ℕ) → (sym : Object) → (symbol_address : ℕ) → (buf : Object) → Code Object
local_cells k sym a buf s =
    let s1 = if eq (s.value a) qunbound then set_value a nil s else s in
    and_then (fsymbol_value k sym s1) (λ v s2. and_then (fcons nil v s2) (λ tem s3.
      let s4 = set_xcar tem tem s3 in
      and_then (fcons buf tem s4) (λ tail s5. fcons (s5.value a) tail s5)))

unfoldable fmake_variable_buffer_local : (rounds : ℕ) → (sym : Object) → Code Object
unfolding fsymbol_value
fmake_variable_buffer_local k sym s = and_then (check_symbol sym s) (λ a s1.
    if eq sym nil || eq sym qt then raise (may_not_be_local sym) s1 else elim (s1.value a) [
      | buffer_local_value c ↦ done sym s1
      | buffer_objfwd i ↦ done sym s1
      | some_buffer_local_value c ↦ done sym (set_value a (buffer_local_value c) s1)
      | contents ↦
          and_then (local_cells k sym a (buffer s1.buffers.current) s1)
            (λ cells s2. done sym (set_value a (buffer_local_value (pointer cells)) s2))
    ])

-- The symbol does not think that it is set up for the current buffer.
abbrev look_again : Object → Lisp → Lisp
look_again contents s =
    if is_current (xcar (xcdr contents s) s) s then set_xcar (xcdr contents s) nil s else s

abbrev own_variable : (rounds : ℕ) → (sym contents : Object) → Code Object
own_variable k sym contents s =
    and_then (assq k sym (s.buffers.local_var_alist s.buffers.current) s) (λ tem s1.
      if is_null tem
      then and_then (fcons sym (xcdr (xcdr (xcdr contents s1) s1) s1) s1) (λ element s2.
        and_then (fcons element (s2.buffers.local_var_alist s2.buffers.current) s2)
          (λ l s3. done sym (look_again contents (set_alist l s3))))
      else done sym s1)

unfoldable fmake_local_variable : (rounds : ℕ) → (sym : Object) → Code Object
unfolding fsymbol_value
fmake_local_variable k sym s = and_then (check_symbol sym s) (λ a s1.
    if eq sym nil || eq sym qt then raise (may_not_be_local sym) s1 else elim (s1.value a) [
      | buffer_local_value c ↦ done sym s1
      | buffer_objfwd i ↦ done sym s1
      | some_buffer_local_value c ↦ own_variable k sym (some_buffer_local_value c) s1
      | contents ↦ and_then (local_cells k sym a nil s1) (λ cells s2.
          let local = some_buffer_local_value (pointer cells) in
          own_variable k sym local (set_value a local s2))
    ])

-- `local_var_flags &= ~mask`
abbrev clear_flags : ℤ → Lisp → Lisp
clear_flags mask s =
    let here = s.buffers.current in
    let flags = s.buffers.local_var_flags in
    record s {
      buffers = record s.buffers {
        local_var_flags = update flags here (on_bits (λ a b. a && not b) (flags here) mask);
      };
    }

unfoldable fkill_local_variable : (rounds : ℕ) → (sym : Object) → Code Object
fkill_local_variable k sym s = and_then (check_symbol sym s) (λ a s1. elim (s1.value a) [
  | buffer_objfwd i ↦
      let mask = s1.buffers.local_flags i in
      done sym (
        if is_positive mask
        then clear_flags mask (set_field s1.buffers.current i (s1.buffers.defaults i) s1)
        else s1)
  | contents ↦
      if is_local contents
      then and_then (assq k sym (s1.buffers.local_var_alist s1.buffers.current) s1) (λ tem s2.
        and_then
          (if is_null tem
            then done nil s2
            else and_then (delq k tem (s2.buffers.local_var_alist s2.buffers.current) s2)
                (λ l s3. done nil (set_alist l s3)))
          (λ _ s4. done sym (look_again contents s4)))
      else done sym s1
])
