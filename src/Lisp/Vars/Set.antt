-- ===== src/Lisp/Vars/Set.antt =====
-- data.c: Fset and Fset_default.
use holomacs.Prelude.{
  ℕ, Bool, false, not, ◌&&◌, ◌||◌, List, [], ◌∷◌, ltb, if◌then◌else◌, ℤ, pos, negsuc,
}
use holomacs.Lisp.{
  Object, buffer_objfwd, some_buffer_local_value, qt, same_int, eq, is_null, Lisp, setting_constant,
  done, raise, Code, and_then, update, fcons, fcar, fcdr, fsetcdr,
}
use holomacs.Lisp.Data.{check_symbol}
use holomacs.Lisp.Data.Number.{on_bits}
use holomacs.Lisp.Lists.{assq}
use holomacs.Lisp.Vars.{
  xcar, xcdr, set_xcdr, is_current, set_field, is_local, do_symval_forwarding,
  store_symval_forwarding, set_cache,
}

-- `mask > 0`
abbrev pub is_positive : ℤ → Bool
is_positive (pos n) = ltb 0 n
is_positive (negsuc n) = false

-- `current_buffer->local_var_flags |= mask` for a field that is local in some buffers.
abbrev pub note_local : Object → Lisp → Lisp
note_local (buffer_objfwd i) s =
    let here = s.buffers.current in
    let flags = s.buffers.local_var_flags in
    if is_positive (s.buffers.local_flags i)
    then record s {
      buffers = record s.buffers {
        local_var_flags =
            update flags here (on_bits (λ a b. a || b) (flags here) (s.buffers.local_flags i));
      };
    }
    else s
note_local x s = s

abbrev pub set_alist : Object → Lisp → Lisp
set_alist l s = record s {
  buffers = record s.buffers {
    local_var_alist = update s.buffers.local_var_alist s.buffers.current l;
  };
}

-- Whether Fset finds another buffer than the current one in the cells.
abbrev set_elsewhere : (contents element : Object) → Lisp → Bool
set_elsewhere (some_buffer_local_value a) element s =
    not (is_current (xcar (xcdr (some_buffer_local_value a) s) s) s)
set_elsewhere contents element s = not (is_current (xcar element s) s)

-- The element of the current buffer, with `found` from its alist.
abbrev pub own_element : (sym contents element found : Object) → Code Object
own_element sym (some_buffer_local_value a) element found s =
    done (if is_null found then xcdr (xcdr (some_buffer_local_value a) s) s else found) s
own_element sym contents element found s =
    if is_null found
    then and_then (fcdr element s) (λ v s1. and_then (fcons sym v s1) (λ tem s2.
      and_then (fcons tem (s2.buffers.local_var_alist s2.buffers.current) s2)
        (λ l s3. done tem (set_alist l s3))))
    else done found s

-- The cached buffer is swapped out, and the current one is cached.
abbrev pub swap : (rounds : ℕ) → (sym contents element : Object) → Code Object
swap k sym contents element s =
    and_then (fsetcdr element (do_symval_forwarding (xcar contents s) s) s) (λ _ s1.
      and_then (assq k sym (s1.buffers.local_var_alist s1.buffers.current) s1) (λ found s2.
        and_then (own_element sym contents element found s2)
          (λ tem s3. done tem (set_cache contents tem s3))))

-- Fset on the cells of a variable; the result is the contents that take the value.
abbrev pub set_local : (rounds : ℕ) → (sym contents newval : Object) → Code Object
set_local k sym contents newval s =
    let element = xcar (xcdr (xcdr contents s) s) s in
    and_then
      (if set_elsewhere contents element s then swap k sym contents element s else done element s)
      (λ current_element s1.
        let s2 =
          if eq (xcdr (xcdr contents s1) s1) current_element
          then set_xcdr current_element newval s1
          else s1 in
        done (xcar contents s2) s2)

unfoldable pub fset : (rounds : ℕ) → (sym newval : Object) → Code Object
unfolding store_symval_forwarding
fset k sym newval s = and_then (check_symbol sym s) (λ a s1.
    if is_null sym || eq sym qt
    then raise (setting_constant sym) s1
    else let contents = s1.value a in
      let s2 = note_local contents s1 in
      and_then (if is_local contents then set_local k sym contents newval s2 else done contents s2)
        (λ target s3.
          and_then (store_symval_forwarding sym target newval s3) (λ _ s4. done newval s4)))

-- The loop of Fset_default over all buffers.
abbrev set_others : (idx : ℕ) → (mask : ℤ) → Object → List ℕ → Lisp → Lisp
set_others i mask v [] s = s
set_others i mask v (b ∷ bs) s = set_others i mask v bs (
    if same_int (on_bits (λ a b. a && b) (s.buffers.local_var_flags b) mask) (pos 0)
    then set_field b i v s
    else s)

abbrev set_default_field : ℕ → Object → Lisp → Lisp
set_default_field i v s = record s {
  buffers = record s.buffers { defaults = update s.buffers.defaults i v };
}

-- The slot DEFAULT-VALUE, and REALVALUE where that slot is current.
abbrev set_default_cell : (sym contents value : Object) → Code Object
set_default_cell sym contents v s =
    let s1 = set_xcdr (xcdr (xcdr contents s) s) v s in
    let element = xcar (xcdr (xcdr contents s1) s1) s1 in
    and_then (fcar element s1) (λ element_buffer s2.
      if eq element_buffer element
      then and_then (store_symval_forwarding sym (xcar contents s2) v s2) (λ _ s3. done v s3)
      else done v s2)

unfoldable fset_default : (rounds : ℕ) → (sym value : Object) → Code Object
unfolding fset
fset_default k sym v s = and_then (check_symbol sym s) (λ a s1. elim (s1.value a) [
  | buffer_objfwd i ↦
      let mask = s1.buffers.local_flags i in
      done v (
        if is_positive mask
        then set_others i mask v s1.buffers.all (set_default_field i v s1)
        else if same_int mask (pos 0)
        then s1
        else set_default_field i v s1)
  | contents ↦ if is_local contents then set_default_cell sym contents v s1 else fset k sym v s1
])
