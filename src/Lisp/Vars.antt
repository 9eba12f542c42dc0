-- ===== src/Lisp/Vars.antt =====
-- data.c: the values of symbols. What XSYMBOL (sym)->value holds is the value, a pointer to a variable
-- of C or to a field of the current buffer, or the cells of a variable with values of its own in
-- buffers: (REALVALUE BUFFER CURRENT-ALIST-ELEMENT . DEFAULT-VALUE).
pub mod Set
pub mod Local
pub mod Cache
pub mod Views
pub mod SetUp
pub mod Read
pub mod Steps
pub mod Write
pub mod RoundTrip
use holomacs.Prelude.{
  ℕ, zero, suc, Bool, true, false, not, ◌&&◌, ◌||◌, Option, none, some, List, [], ◌∷◌, ◌==◌,
  if◌then◌else◌, ℤ, pos, negsuc,
}
use holomacs.Lisp.{
  Object, int, symbol, buffer, void, intfwd, boolfwd, objfwd, buffer_objfwd, buffer_local_value,
  some_buffer_local_value, nil, qt, qunbound, eq, is_null, Lisp, Buffers, void_variable,
  setting_constant, same_int, Result, done, raise, endless, Code, and_then, update, fcons, fcdr,
  fsetcdr,
}
use holomacs.Lisp.Data.{to_int, truth, pointer, check_symbol, check_number}
use holomacs.Lisp.Data.Number.{on_bits}
use holomacs.Lisp.Lists.{assq, assq_no_quit}

-- XCONS (x)->car, XCONS (x)->cdr and assignments to them.
abbrev pub xcar : Object → Lisp → Object
xcar x s = s.car (pointer x)

abbrev pub xcdr : Object → Lisp → Object
xcdr x s = s.cdr (pointer x)

abbrev pub set_xcar : Object → Object → Lisp → Lisp
set_xcar x v s = record s { car = update s.car (pointer x) v }

abbrev pub set_xcdr : Object → Object → Lisp → Lisp
set_xcdr x v s = record s { cdr = update s.cdr (pointer x) v }

abbrev pub set_value : ℕ → Object → Lisp → Lisp
set_value a v s = record s { value = update s.value a v }

-- XTYPE (x) == Lisp_Buffer_Local_Value || XTYPE (x) == Lisp_Some_Buffer_Local_Value
abbrev pub is_local : Object → Bool
is_local (buffer_local_value a) = true
is_local (some_buffer_local_value a) = true
is_local x = false

-- current_buffer == XBUFFER (x). No object of another type has the address of a buffer.
abbrev pub is_current : Object → Lisp → Bool
is_current x s = eq x (buffer s.buffers.current)

-- A field of a buffer.
abbrev pub set_field : (buf idx : ℕ) → Object → Lisp → Lisp
set_field b i v s = record s {
  buffers = record s.buffers { field = update s.buffers.field b (update (s.buffers.field b) i v) };
}

unfoldable pub do_symval_forwarding : Object → Lisp → Object
do_symval_forwarding (intfwd a) s = int (s.int_var a)
do_symval_forwarding (boolfwd a) s = truth (not (same_int (s.int_var a) (pos 0)))
do_symval_forwarding (objfwd a) s = s.obj_var a
do_symval_forwarding (buffer_objfwd i) s = s.buffers.field s.buffers.current i
do_symval_forwarding x s = x

unfoldable pub store_symval_forwarding : (sym valcontents newval : Object) → Code (Unit {0})
store_symval_forwarding sym (intfwd a) v s =
    and_then (check_number v s)
      (λ n s1. done tt (record s1 { int_var = update s1.int_var a (to_int n) }))
store_symval_forwarding sym (boolfwd a) v s =
    done tt (record s { int_var = update s.int_var a (if is_null v then pos 0 else pos 1) })
store_symval_forwarding sym (objfwd a) v s = done tt (record s { obj_var = update s.obj_var a v })
store_symval_forwarding sym (buffer_objfwd i) v s = done tt (set_field s.buffers.current i v s)
store_symval_forwarding sym x v s =
    let contents = s.value (pointer sym) in
    done tt (if is_local contents then set_xcar contents v s else set_value (pointer sym) v s)

-- Fsymbol_value: the cells of a variable are set up for the current buffer.
abbrev pub cached_elsewhere : Object → Lisp → Bool
cached_elsewhere contents s =
    let tem = xcar (xcdr contents s) s in is_null tem || not (is_current tem s)

-- The slots CURRENT-ALIST-ELEMENT and BUFFER.
abbrev pub set_cache : (contents tem : Object) → Lisp → Lisp
set_cache contents tem s =
    let s1 = set_xcar (xcdr (xcdr contents s) s) tem s in
    set_xcar (xcdr contents s1) (buffer s1.buffers.current) s1

abbrev pub set_up : (rounds : ℕ) → (sym contents : Object) → Code (Unit {0})
set_up k sym contents s =
    and_then
      (fsetcdr (xcar (xcdr (xcdr contents s) s) s) (do_symval_forwarding (xcar contents s) s) s)
      (λ _ s1.
        and_then (assq_no_quit k sym (s1.buffers.local_var_alist s1.buffers.current) s1)
          (λ found s2.
            let tem = if is_null found then xcdr (xcdr contents s2) s2 else found in
            let s3 = set_cache contents tem s2 in
            and_then (fcdr tem s3) (λ v. store_symval_forwarding sym (xcar contents s3) v)))

-- From `retry` on.
unfoldable pub value_in : (rounds : ℕ) → (sym valcontents : Object) → Code Object
value_in zero sym contents s = endless
value_in (suc k) sym (void a) s = raise (void_variable sym) s
value_in (suc k) sym contents s =
    if is_local contents
    then and_then (if cached_elsewhere contents s then set_up k sym contents s else done tt s)
        (λ _ s1. value_in k sym (xcar contents s1) s1)
    else if eq contents qunbound
    then raise (void_variable sym) s
    else done (do_symval_forwarding contents s) s

unfoldable pub fsymbol_value : (rounds : ℕ) → (sym : Object) → Code Object
unfolding value_in
fsymbol_value k sym s = and_then (check_symbol sym s) (λ a s1. value_in k sym (s1.value a) s1)

unfoldable fdefault_value : (rounds : ℕ) → (sym : Object) → Code Object
unfolding fsymbol_value
fdefault_value k sym s = and_then (check_symbol sym s) (λ a s1. default_in (s1.value a) s1)
  where
    default_in : Object → Code Object
    default_in (buffer_objfwd i) s =
        if same_int (s.buffers.local_flags i) (pos 0)
        then fsymbol_value k sym s
        else done (s.buffers.defaults i) s
    default_in contents s =
        if is_local contents
        then done (xcdr (xcdr (xcdr contents s) s) s) s
        else fsymbol_value k sym s
