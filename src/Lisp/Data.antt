-- ===== src/Lisp/Data.antt =====
-- data.c: type predicates, the parts of symbols, arrays, and the checks of arguments (lisp.h).
pub mod Number
pub mod Array
use holomacs.Prelude.{
  ℕ, zero, suc, ◌+◌, ◌-◌, ◌*◌, ◌%◌, ◌^◌, Bool, true, false, not, ◌&&◌, ◌||◌, Option, none, some,
  List, [], ◌∷◌, ltb, leb, ◌==◌, if◌then◌else◌, ℤ, pos, negsuc, residue, signed, length, get_or,
}
use holomacs.Lisp.{
  Object, int, symbol, string, vector, cons, marker, buffer, subr, void, intfwd, boolfwd, objfwd,
  buffer_objfwd, buffer_local_value, some_buffer_local_value, nil, qt, qunbound, eq, is_null,
  is_cons, Lisp, Predicate, symbolp, integerp, arrayp, integer_or_marker_p, Condition, wrong_type,
  out_of_range, void_function, read_only_object, unattached_marker, Result, done, raise, Code,
  and_then, update, fcons,
}

-- The value that a C integer of 32 bits, and one of the 55 bits of a Lisp integer, keeps of a number.
abbrev pub to_int : ℤ → ℤ
to_int z = signed 2147483648 (residue 4294967296 z)

abbrev pub to_lisp_int : ℤ → ℤ
to_lisp_int z = signed 18014398509481984 (residue 36028797018963968 z)

-- `return test ? Qt : Qnil`
abbrev pub truth : Bool → Object
truth b = if b then qt else nil

abbrev is_int : Object → Bool
is_int (int n) = true
is_int x = false

abbrev is_symbol : Object → Bool
is_symbol (symbol a) = true
is_symbol x = false

abbrev is_string : Object → Bool
is_string (string a) = true
is_string x = false

abbrev is_vector : Object → Bool
is_vector (vector a) = true
is_vector x = false

abbrev is_marker : Object → Bool
is_marker (marker a) = true
is_marker x = false

unfoldable feq : (obj1 obj2 : Object) → Code Object
feq x y = done (truth (eq x y))

unfoldable fnull : Object → Code Object
fnull x = done (truth (is_null x))

unfoldable fconsp : Object → Code Object
fconsp x = done (truth (is_cons x))

unfoldable fatom : Object → Code Object
fatom x = done (if is_cons x then nil else qt)

unfoldable flistp : Object → Code Object
flistp x = done (truth (is_cons x || is_null x))

unfoldable fnlistp : Object → Code Object
fnlistp x = done (if is_cons x || is_null x then nil else qt)

unfoldable fintegerp : Object → Code Object
fintegerp x = done (truth (is_int x))

unfoldable fnatnump : Object → Code Object
fnatnump (int (pos n)) = done qt
fnatnump x = done nil

unfoldable fsymbolp : Object → Code Object
fsymbolp x = done (truth (is_symbol x))

unfoldable fvectorp : Object → Code Object
fvectorp x = done (truth (is_vector x))

unfoldable fstringp : Object → Code Object
fstringp x = done (truth (is_string x))

unfoldable farrayp : Object → Code Object
farrayp x = done (truth (is_vector x || is_string x))

unfoldable fsequencep : Object → Code Object
fsequencep x = done (truth (is_cons x || is_null x || is_vector x || is_string x))

unfoldable fbufferp : Object → Code Object
fbufferp (buffer a) = done qt
fbufferp x = done nil

unfoldable fmarkerp : Object → Code Object
fmarkerp x = done (truth (is_marker x))

unfoldable finteger_or_marker_p : Object → Code Object
finteger_or_marker_p x = done (truth (is_marker x || is_int x))

unfoldable fsubrp : Object → Code Object
fsubrp (subr a) = done qt
fsubrp x = done nil

unfoldable fchar_or_string_p : Object → Code Object
fchar_or_string_p x = done (truth (is_int x || is_string x))

unfoldable fcar_safe : Object → Code Object
fcar_safe (cons a) s = done (s.car a) s
fcar_safe x s = done nil s

unfoldable fcdr_safe : Object → Code Object
fcdr_safe (cons a) s = done (s.cdr a) s
fcdr_safe x s = done nil s

-- CHECK_SYMBOL, CHECK_NUMBER and CHECK_NUMBER_COERCE_MARKER, with the address or the number.
abbrev pub check_symbol : Object → Code ℕ
check_symbol (symbol a) = done a
check_symbol x = raise (wrong_type symbolp x)

abbrev pub check_number : Object → Code ℤ
check_number (int n) = done n
check_number x = raise (wrong_type integerp x)

abbrev pub check_number_coerce_marker : Object → Code ℤ
check_number_coerce_marker (int n) s = done n s
check_number_coerce_marker (marker a) s = elim (s.place a) [
  | none ↦ raise unattached_marker s
  | some (b, position) ↦ done (pos position) s
]
check_number_coerce_marker x s = raise (wrong_type integer_or_marker_p x) s

-- `XTYPE (x) == Lisp_Void || EQ (x, Qunbound)`
abbrev is_void : Object → Bool
is_void (void a) = true
is_void x = eq x qunbound

unfoldable fboundp : Object → Code Object
fboundp x s = and_then (check_symbol x s) (λ a s. done (if is_void (s.value a) then nil else qt) s)

unfoldable ffboundp : Object → Code Object
ffboundp x s =
    and_then (check_symbol x s) (λ a s. done (if is_void (s.function a) then nil else qt) s)

unfoldable fmakunbound : Object → Code Object
fmakunbound x s =
    and_then (check_symbol x s) (λ a s. done x (record s { value = update s.value a qunbound }))

unfoldable ffmakunbound : Object → Code Object
ffmakunbound x s =
    and_then (check_symbol x s)
      (λ a s. done x (record s { function = update s.function a qunbound }))

unfoldable fsymbol_function : Object → Code Object
fsymbol_function x s =
    and_then (check_symbol x s) (λ a s.
      if eq (s.function a) qunbound then raise (void_function x) s else done (s.function a) s)

unfoldable pub fsymbol_plist : Object → Code Object
fsymbol_plist x s = and_then (check_symbol x s) (λ a s. done (s.plist a) s)

unfoldable fsymbol_name : Object → Code Object
fsymbol_name x s = and_then (check_symbol x s) (λ a s. done (string (s.name a)) s)

-- While an autoload is in progress, fset puts the old definition on its queue.
abbrev queue_autoload : Object → (old : Object) → Code Object
queue_autoload x old s =
    if not (is_null s.autoload_queue) && not (eq old qunbound)
    then and_then (fcons x old s) (λ entry s1.
      and_then (fcons entry s1.autoload_queue s1)
        (λ queue s2. done queue (record s2 { autoload_queue = queue })))
    else done nil s

unfoldable ffset : (sym newdef : Object) → Code Object
ffset x v s = and_then (check_symbol x s) (λ a s1.
    and_then (queue_autoload x (s1.function a) s1)
      (λ _ s2. done v (record s2 { function = update s2.function a v })))

unfoldable pub fsetplist : (sym newplist : Object) → Code Object
fsetplist x v s =
    and_then (check_symbol x s) (λ a s. done v (record s { plist = update s.plist a v }))

-- Element `i` of an array, in bounds.
abbrev pub store_at : {A : Type 0} → List A → ℕ → A → List A
store_at [] i v = []
store_at (x ∷ l) zero v = v ∷ l
store_at (x ∷ l) (suc i) v = x ∷ store_at l i v

-- XPNTR: the address in a pointer.
abbrev pub pointer : Object → ℕ
pointer (int z) = residue 36028797018963968 z
pointer (symbol a) = a
pointer (string a) = a
pointer (vector a) = a
pointer (cons a) = a
pointer (marker a) = a
pointer (buffer a) = a
pointer (subr a) = a
pointer (void a) = a
pointer (intfwd a) = a
pointer (boolfwd a) = a
pointer (objfwd a) = a
pointer (buffer_objfwd a) = a
pointer (buffer_local_value a) = a
pointer (some_buffer_local_value a) = a

-- What `data[i] = XINT (x)` keeps of a number, and of another object, whose pointer is its address.
abbrev pub low_byte : Object → ℕ
low_byte (int z) = residue 256 z
low_byte x = pointer x % 256

-- `idxval < 0 || idxval >= size`, else the index.
abbrev checked_index : (array idx : Object) (size : ℕ) → ℤ → Code ℕ
checked_index array idx size (pos i) s =
    if ltb i size then done i s else raise (out_of_range array idx) s
checked_index array idx size (negsuc i) s = raise (out_of_range array idx) s

-- The index of an access: CHECK_NUMBER, the type of the array, its size.
abbrev pub index_of : (array idx : Object) → ℤ → Code ℕ
index_of (vector a) idx n s = checked_index (vector a) idx (length (s.items a)) n s
index_of (string a) idx n s = checked_index (string a) idx (length (s.bytes a)) n s
index_of x idx n s = raise (wrong_type arrayp x) s

abbrev array_index : (array idx : Object) → Code ℕ
array_index array idx s = and_then (check_number idx s) (λ n. index_of array idx (to_int n))

abbrev pub aref_at : Object → (i : ℕ) → Code Object
aref_at (vector a) i s = done (get_or (s.items a) i nil) s
aref_at (string a) i s = done (int (pos (get_or (s.bytes a) i 0))) s
aref_at x i s = done nil s

unfoldable pub faref : (vector idx : Object) → Code Object
faref x idx s = and_then (array_index x idx s) (aref_at x)

abbrev pub aset_at : (array newelt : Object) (i : ℕ) → Code Object
aset_at (vector a) v i s =
    if s.is_pure a
    then raise read_only_object s
    else done v (record s { items = update s.items a (store_at (s.items a) i v) })
aset_at (string a) v i s =
    if s.is_pure a
    then raise read_only_object s
    else done v (record s { bytes = update s.bytes a (store_at (s.bytes a) i (low_byte v)) })
aset_at x v i s = done v s

unfoldable pub faset : (vector idx newelt : Object) → Code Object
faset x idx v s = and_then (array_index x idx s) (aset_at x v)

unfoldable farray_length : Object → Code ℕ
farray_length (vector a) s = done (length (s.items a)) s
farray_length (string a) s = done (length (s.bytes a)) s
farray_length x s = raise (wrong_type arrayp x) s
