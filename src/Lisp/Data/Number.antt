-- ===== src/Lisp/Data/Number.antt =====
-- data.c: comparison, arithmetic and the bits of numbers. A C int of a sum or product keeps 32 bits of
-- it, as the machine's instructions do.
pub mod Range
pub mod Sum
pub mod Quotient
pub mod Bits
use holomacs.Prelude.{
  ℕ, zero, suc, ◌+◌, ◌-◌, ◌*◌, ◌/◌, ◌%◌, ◌^◌, Bool, true, false, not, ◌&&◌, ◌||◌, List, [], ◌∷◌,
  ltb, leb, ◌==◌, if◌then◌else◌, ℤ, pos, negsuc, residue, signed, length, ◌+ℤ◌, ◌-ℤ◌, ◌*ℤ◌, ltb_ℤ,
  sub_ℕ,
}
use holomacs.Lisp.{Object, int, same_int, Lisp, arith_error, Result, done, raise, Code, and_then}
use holomacs.Lisp.Data.{to_int, to_lisp_int, truth, check_number, check_number_coerce_marker}

-- A comparison: both arguments are checked, then `test` is made.
abbrev pub compared : (ℤ → ℤ → Bool) → (num1 num2 : Object) → Code Object
compared test x y s =
    and_then (check_number_coerce_marker x s)
      (λ m s. and_then (check_number_coerce_marker y s) (λ n. done (truth (test m n))))

unfoldable feqlsign : (num1 num2 : Object) → Code Object
feqlsign = compared same_int

unfoldable flss : (num1 num2 : Object) → Code Object
flss = compared (λ m n. ltb_ℤ m n)

unfoldable fgtr : (num1 num2 : Object) → Code Object
fgtr = compared (λ m n. ltb_ℤ n m)

unfoldable fleq : (num1 num2 : Object) → Code Object
fleq = compared (λ m n. not (ltb_ℤ n m))

unfoldable fgeq : (num1 num2 : Object) → Code Object
fgeq = compared (λ m n. not (ltb_ℤ m n))

unfoldable fneq : (num1 num2 : Object) → Code Object
fneq = compared (λ m n. not (same_int m n))

unfoldable fzerop : Object → Code Object
fzerop x s = and_then (check_number x s) (λ n. done (truth (same_int n (pos 0))))

-- The operators `/` and `%` of C, which round to zero; the divisor is not zero.
abbrev pub quotient : ℤ → ℤ → ℤ
quotient (pos a) (pos b) = pos (a / b)
quotient (pos a) (negsuc b) = sub_ℕ 0 (a / suc b)
quotient (negsuc a) (pos b) = sub_ℕ 0 (suc a / b)
quotient (negsuc a) (negsuc b) = pos (suc a / suc b)

abbrev pub remainder : ℤ → ℤ → ℤ
remainder (pos a) (pos b) = pos (a % b)
remainder (pos a) (negsuc b) = pos (a % suc b)
remainder (negsuc a) (pos b) = sub_ℕ 0 (suc a % b)
remainder (negsuc a) (negsuc b) = sub_ℕ 0 (suc a % suc b)

-- A bitwise operator on the lowest `w` bits.
unfoldable pub bitwise : (Bool → Bool → Bool) → (w a b : ℕ) → ℕ
bitwise op zero a b = 0
bitwise op (suc w) a b =
    (if op (a % 2 == 1) (b % 2 == 1) then 1 else 0) + 2 * bitwise op w (a / 2) (b / 2)

abbrev pub on_bits : (Bool → Bool → Bool) → ℤ → ℤ → ℤ
on_bits op m n = signed 2147483648 (bitwise op 32 (residue 4294967296 m) (residue 4294967296 n))

abbrev pub exclusive : Bool → Bool → Bool
exclusive a b = if a then not b else b

-- enum arithop
pub data Arithop : Type 0 where
  add sub mult div logand logior logxor max min : Arithop

-- The first `accum`; div, max and min set it at the first argument.
abbrev pub start : Arithop → ℤ
start mult = pos 1
start logand = negsuc 0
start code = pos 0

-- `accum /= next` in ints. The quotient of the lowest int and -1 is none: the division traps, and
-- arith_error, the handler of SIGFPE, signals.
unfoldable pub divide : (accum next : ℤ) → Code ℤ
divide accum next =
    if same_int accum (negsuc 2147483647) && same_int next (negsuc 0)
    then raise arith_error
    else done (quotient accum next)

-- One turn of the switch in arith_driver.
unfoldable pub arith_step : Arithop → (nargs argnum : ℕ) → (accum next : ℤ) → Code ℤ
unfolding divide
arith_step add nargs i accum next = done (to_int (accum +ℤ next))
arith_step sub nargs i accum next =
    if i == 0 && not (nargs == 1)
    then done (to_int (accum -ℤ to_int (pos 0 -ℤ next)))
    else done (to_int (accum -ℤ next))
arith_step mult nargs i accum next = done (to_int (accum *ℤ next))
arith_step div nargs i accum next =
    if i == 0
    then done next
    else if same_int next (pos 0)
    then raise arith_error
    else divide accum next
arith_step logand nargs i accum next = done (on_bits (λ a b. a && b) accum next)
arith_step logior nargs i accum next = done (on_bits (λ a b. a || b) accum next)
arith_step logxor nargs i accum next = done (on_bits exclusive accum next)
arith_step max nargs i accum next = done (if i == 0 || ltb_ℤ accum next then next else accum)
arith_step min nargs i accum next = done (if i == 0 || ltb_ℤ next accum then next else accum)

unfoldable pub arith_loop : Arithop → (nargs argnum : ℕ) → (accum : ℤ) → List Object → Code ℤ
arith_loop code nargs i accum [] s = done accum s
arith_loop code nargs i accum (val ∷ args) s = and_then (check_number_coerce_marker val s) (λ n s1.
    and_then (arith_step code nargs i accum (to_int n) s1)
      (λ accum. arith_loop code nargs (i + 1) accum args))

unfoldable pub arith_driver : Arithop → List Object → Code Object
arith_driver code args s =
    and_then (arith_loop code (length args) 0 (start code) args s) (λ accum. done (int accum))

unfoldable pub fplus : List Object → Code Object
fplus = arith_driver add

unfoldable pub fminus : List Object → Code Object
fminus = arith_driver sub

unfoldable ftimes : List Object → Code Object
ftimes = arith_driver mult

unfoldable pub fquo : List Object → Code Object
fquo = arith_driver div

unfoldable pub frem : (num1 num2 : Object) → Code Object
frem x y s = and_then (check_number x s) (λ m s.
    and_then (check_number y s)
      (λ n. if same_int n (pos 0) then raise arith_error else done (int (remainder m n))))

unfoldable fmax : List Object → Code Object
fmax = arith_driver max

unfoldable fmin : List Object → Code Object
fmin = arith_driver min

unfoldable flogand : List Object → Code Object
flogand = arith_driver logand

unfoldable flogior : List Object → Code Object
flogior = arith_driver logior

unfoldable flogxor : List Object → Code Object
flogxor = arith_driver logxor

-- `m << k` and `m >> k`, where the machine shifts a number of `w` bits by k modulo w.
abbrev shift_left : (w : ℕ) → ℤ → (k : ℕ) → ℤ
shift_left w m k = m *ℤ pos (2 ^ (k % w))

abbrev shift_right : (w : ℕ) → ℤ → (k : ℕ) → ℤ
shift_right w (pos m) k = pos (m / 2 ^ (k % w))
shift_right w (negsuc m) k = negsuc (m / 2 ^ (k % w))

-- Shift to the left for a positive count, to the right for any other.
abbrev pub shift : (left right : ℕ → ℤ) → ℤ → ℤ
shift left right (pos zero) = right 0
shift left right (pos (suc k)) = left (suc k)
shift left right (negsuc k) = right (suc k)

unfoldable pub fash : (num1 num2 : Object) → Code Object
fash x y s = and_then (check_number x s) (λ m s.
    and_then (check_number y s)
      (λ n. done (int (to_lisp_int (shift (shift_left 64 m) (shift_right 64 m) n)))))

unfoldable pub flsh : (num1 num2 : Object) → Code Object
flsh x y s = and_then (check_number x s) (λ m s. and_then (check_number y s) (λ n.
    let bits = residue 4294967296 m in
    done (
      int
        (shift (λ k. pos (bits * 2 ^ (k % 32) % 4294967296)) (λ k. pos (bits / 2 ^ (k % 32))) n))))

unfoldable fadd1 : Object → Code Object
fadd1 x s = and_then (check_number_coerce_marker x s) (λ n. done (int (to_lisp_int (n +ℤ pos 1))))

unfoldable fsub1 : Object → Code Object
fsub1 x s = and_then (check_number_coerce_marker x s) (λ n. done (int (to_lisp_int (n -ℤ pos 1))))

unfoldable flognot : Object → Code Object
flognot x s = and_then (check_number x s) (λ n. done (int (to_lisp_int (negsuc 0 -ℤ n))))
