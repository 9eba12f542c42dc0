-- ===== src/Lisp.antt =====
-- Lisp objects and the store that they point into (lisp.h), and the results of C functions on it.
pub mod View
pub mod Lists
pub mod Plist
pub mod Sort
pub mod Data
pub mod Vars
pub mod Eval
use holomacs.Prelude.{
  ℕ, ◌+◌, Bool, true, false, not, ◌&&◌, ◌||◌, Option, none, some, List, [], ◌∷◌, ◌==◌,
  if◌then◌else◌, ℤ, pos, negsuc,
}
use holomacs.Editor.{typed, later}

-- A Lisp object: its type with the number, or with the address that it points to.
pub data Object : Type 0 where
  int : ℤ → Object
  symbol string vector cons marker buffer subr void : ℕ → Object
  -- What only the value of a symbol holds: variables of C by address, a field of each buffer by its
  -- offset, and the cells of a variable with values of its own in buffers.
  intfwd boolfwd objfwd buffer_objfwd buffer_local_value some_buffer_local_value : ℕ → Object

-- Qnil, Qt and Qunbound are symbols.
abbrev pub nil : Object
nil = symbol 0

abbrev pub qt : Object
qt = symbol 1

abbrev pub qunbound : Object
qunbound = symbol 2

abbrev pub same_int : ℤ → ℤ → Bool
same_int (pos m) (pos n) = m == n
same_int (negsuc m) (negsuc n) = m == n
same_int m n = false

-- EQ
abbrev pub eq : Object → Object → Bool
eq (int m) (int n) = same_int m n
eq (symbol a) (symbol b) = a == b
eq (string a) (string b) = a == b
eq (vector a) (vector b) = a == b
eq (cons a) (cons b) = a == b
eq (marker a) (marker b) = a == b
eq (buffer a) (buffer b) = a == b
eq (subr a) (subr b) = a == b
eq (void a) (void b) = a == b
eq (intfwd a) (intfwd b) = a == b
eq (boolfwd a) (boolfwd b) = a == b
eq (objfwd a) (objfwd b) = a == b
eq (buffer_objfwd a) (buffer_objfwd b) = a == b
eq (buffer_local_value a) (buffer_local_value b) = a == b
eq (some_buffer_local_value a) (some_buffer_local_value b) = a == b
eq x y = false

-- NULL and CONSP
abbrev pub is_null : Object → Bool
is_null x = eq x nil

abbrev pub is_cons : Object → Bool
is_cons (cons a) = true
is_cons x = false

-- The fields of the buffers that hold values of variables: by buffer and offset, with buffer_defaults
-- and buffer_local_flags; the buffers' local variables; and all buffers.
pub record Buffers : Type 0 where
  pub current : ℕ
  pub field : ℕ → ℕ → Object
  pub defaults : ℕ → Object
  pub local_flags : ℕ → ℤ
  pub local_var_alist : ℕ → Object
  pub local_var_flags : ℕ → ℤ
  pub all : List ℕ

-- struct specbinding; a function of C by its address.
pub record Binding : Type 0 where
  pub symbol_bound : Object
  pub old_value : Object
  pub func : Option ℕ

-- The entries of specpdl below specpdl_ptr, the last one first, and the sizes.
pub record Specpdl : Type 0 where
  pub entries : List Binding
  pub size : ℕ
  pub max_size : ℕ

-- What Lisp objects point to, by address, the next free address, the addresses in pure storage, and
-- the globals of quitting; variables of C by address, the buffers and the binding stack. A marker has its buffer with its position (marker_position) in it.
pub record Lisp : Type 0 where
  pub car : ℕ → Object
  pub cdr : ℕ → Object
  pub bytes : ℕ → List ℕ
  pub items : ℕ → List Object
  pub value : ℕ → Object
  pub function : ℕ → Object
  pub plist : ℕ → Object
  pub name : ℕ → ℕ
  pub place : ℕ → Option (ℕ × ℕ)
  pub autoload_queue : Object
  pub unused : ℕ
  pub is_pure : ℕ → Bool
  pub quit_flag : Bool
  pub inhibit_quit : Bool
  pub arrivals : List Bool
  pub int_var : ℕ → ℤ
  pub obj_var : ℕ → Object
  pub buffers : Buffers
  pub specpdl : Specpdl
  pub mocklisp_arguments : Object

-- The predicates that wrong_type_argument names.
pub data Predicate : Type 0 where
  listp consp symbolp integerp arrayp sequencep stringp integer_or_marker_p natnump : Predicate

-- What Fsignal is called with: wrong_type_argument and its predicate and value, args_out_of_range,
-- a write to pure storage, a void function or variable, Qarith_error, a plain error, in which
-- may_not_be_local and binding_depth stand for two texts.
pub data Condition : Type 0 where
  wrong_type : Predicate → Object → Condition
  out_of_range : Object → Object → Condition
  void_function void_variable setting_constant may_not_be_local : Object → Condition
  quit read_only_object arith_error unattached_marker binding_depth : Condition

-- `endless` is a loop that has used up its rounds, or an abort.
pub data Result (A : Type 0) : Type 0 where
  done : A → Lisp → Result A
  raise : Condition → Lisp → Result A
  endless : Result A

abbrev pub Code : Type 0 → Type 0
Code A = Lisp → Result A

module _ {A B : Type 0} where
  abbrev pub and_then : Result A → (A → Code B) → Result B
  and_then (done a s) k = k a s
  and_then (raise c s) k = raise c s
  and_then endless k = endless

  infixl 5 ◌>>=◌ ◌>>◌
  abbrev pub ◌>>=◌ : Code A → (A → Code B) → Code B
  m >>= k = λ s. and_then (m s) k

  abbrev pub ◌>>◌ : Code A → Code B → Code B
  m >> n = m >>= λ _. n

-- The same store after some polls of the quit flag.
abbrev pub polled : Bool → List Bool → Lisp → Lisp
polled q a s = record s { quit_flag = q; arrivals = a }

-- QUIT
unfoldable pub check_quit : Code (Unit {0})
check_quit s =
    let flag = s.quit_flag || typed s.arrivals in
    if flag && not s.inhibit_quit
    then raise quit (polled false (later s.arrivals) s)
    else done tt (polled flag (later s.arrivals) s)

unfoldable pub fcar : Object → Code Object
fcar (cons a) s = done (s.car a) s
fcar x s = if is_null x then done nil s else raise (wrong_type listp x) s

unfoldable pub fcdr : Object → Code Object
fcdr (cons a) s = done (s.cdr a) s
fcdr x s = if is_null x then done nil s else raise (wrong_type listp x) s

abbrev pub update : {A : Type 0} → (ℕ → A) → ℕ → A → ℕ → A
update f a v b = if a == b then v else f b

unfoldable pub fsetcar : Object → Object → Code Object
fsetcar (cons a) v s =
    if s.is_pure a then raise read_only_object s else done v (record s { car = update s.car a v })
fsetcar x v s = raise (wrong_type consp x) s

unfoldable pub fsetcdr : Object → Object → Code Object
fsetcdr (cons a) v s =
    if s.is_pure a then raise read_only_object s else done v (record s { cdr = update s.cdr a v })
fsetcdr x v s = raise (wrong_type consp x) s

unfoldable pub fcons : Object → Object → Code Object
fcons x y s = done (cons s.unused) (record s {
  car = update s.car s.unused x;
  cdr = update s.cdr s.unused y;
  unused = s.unused + 1;
})
