-- ===== src/Lisp/Data/Number/Quotient.antt =====
-- `/` and `%`: truncating division, and division by zero.
use native.Mathlib.Nat.{div-add-mod', div-le_self, div-lt_self, div-one}
use holomacs.Prelude.{
  ℕ, zero, suc, ◌+◌, ◌*◌, ◌/◌, ◌<◌, ◌≤◌, ◌≡◌, refl, arith, false, ◌&&◌, ◌⊎◌, List, [], ◌∷◌, ◌==◌, ℤ,
  pos, negsuc, length, ◌+ℤ◌, ◌*ℤ◌, sub_ℕ, pos_part, neg_part, Bool-cases, inl, inr,
}
use holomacs.Lisp.{Object, int, same_int, Lisp, arith_error, Result, done}
use holomacs.Lisp.View.{Ends, Ends-bind, Ends-mono, same_int-eq}
use holomacs.Lisp.Data.{to_int}
use holomacs.Lisp.Data.Number.{
  div, divide, arith_step, arith_loop, arith_driver, fquo, frem, quotient, remainder,
}
use holomacs.Lisp.Data.Number.Range.{IsInt, to_int-IsInt}
use holomacs.Lisp.Data.Number.Sum.{Numbers}

-- The absolute value.
abbrev pub size : ℤ → ℕ
size n = pos_part n + neg_part n

-- r is what is left when a is divided by b, rounding to zero: it has the sign of a.
abbrev pub IsRemainder : (a b q r : ℤ) → Type 0
IsRemainder a b q r =
    (q *ℤ b +ℤ r ≡ a)
    × (size r < size b)
    × (neg_part a ≡ 0 → neg_part r ≡ 0)
    × (pos_part a ≡ 0 → pos_part r ≡ 0)

-- Products by the signs.
mul_pos_pos : (q b : ℕ) → pos q *ℤ pos b ≡ pos (q * b)
unfolding ◌*ℤ◌
mul_pos_pos q b = ground arith

mul_minus_negsuc : (q b : ℕ) → sub_ℕ 0 q *ℤ negsuc b ≡ pos (q * suc b)
unfolding ◌*ℤ◌
mul_minus_negsuc zero b = ground arith
mul_minus_negsuc (suc q) b = ground arith

mul_minus_pos : (q b : ℕ) → sub_ℕ 0 q *ℤ pos b ≡ sub_ℕ 0 (q * b)
unfolding ◌*ℤ◌
mul_minus_pos zero b = ground arith
mul_minus_pos (suc q) b = ground arith

mul_pos_negsuc : (q b : ℕ) → pos q *ℤ negsuc b ≡ sub_ℕ 0 (q * suc b)
unfolding ◌*ℤ◌
mul_pos_negsuc q b = ground arith

remainder-IsRemainder :
    (a b : ℤ) → same_int b (pos 0) ≡ false → IsRemainder a b (quotient a b) (remainder a b)
unfolding ◌+ℤ◌
remainder-IsRemainder (pos a) (pos b) h = (
  rw (mul_pos_pos (a / b) b) (ground (arith, div-add-mod' a b)),
  ground arith,
  ground arith,
  ground arith,
)
remainder-IsRemainder (pos a) (negsuc b) h = (
  rw (mul_minus_negsuc (a / suc b) b) (ground (arith, div-add-mod' a (suc b))),
  ground arith,
  ground arith,
  ground arith,
)
remainder-IsRemainder (negsuc a) (pos b) h = (
  rw (mul_minus_pos (suc a / b) b) (ground (arith, div-add-mod' (suc a) b)),
  ground arith,
  ground arith,
  ground arith,
)
remainder-IsRemainder (negsuc a) (negsuc b) h = (
  rw (mul_pos_negsuc (suc a / suc b) b) (ground (arith, div-add-mod' (suc a) (suc b))),
  ground arith,
  ground arith,
  ground arith,
)

-- The lowest int.
abbrev lowest : ℤ
lowest = negsuc 2147483647

size_high : (n : ℕ) (h : n < 2147483648) (k : ℕ) → k ≤ n → IsInt (pos k)
size_high n h k i = omega (arith, h, i)

low : (n : ℕ) → n < 2147483649 → IsInt (sub_ℕ 0 n)
low n h = ground (arith, h)

-- The quotient of two ints is an int but for one pair of them.
quotient-IsInt :
    (a b : ℤ)
    → IsInt a
    → same_int b (pos 0) ≡ false
    → (same_int a lowest && same_int b (negsuc 0)) ≡ false
    → IsInt (quotient a b)
quotient-IsInt (pos a) (pos b) h z t = size_high a h (a / b) (div-le_self a b)
quotient-IsInt (pos a) (negsuc b) h z t = low (a / suc b) (omega (arith, h, div-le_self a (suc b)))
quotient-IsInt (negsuc a) (pos b) h z t = low (suc a / b) (omega (arith, h, div-le_self (suc a) b))
quotient-IsInt (negsuc a) (negsuc zero) h z t = rw (div-one (suc a)) (ground (arith, h, t))
quotient-IsInt (negsuc a) (negsuc (suc b)) h z t =
    size_high a h (suc a / suc (suc b))
      (omega (arith, div-lt_self {n = suc a} {k = suc (suc b)} (omega arith) (omega arith)))

-- z is what is left of a number that is divided by one number after the other, each cut to an int,
-- where every quotient is an int.
abbrev pub Divided : ℤ → List ℤ → ℤ → Type 0
Divided a [] z = a ≡ z
Divided a (n ∷ ns) z = (q r : ℤ) × IsRemainder a (to_int n) q r × IsInt q × Divided q ns z

-- On the way a divisor is 0, or it is -1 and the lowest int is to be divided by it.
abbrev pub Traps : ℤ → List ℤ → Type 0
Traps a [] = ⊥
Traps a (n ∷ ns) =
    (to_int n ≡ pos 0)
    ⊎ (((a ≡ lowest) × (to_int n ≡ negsuc 0))
        ⊎ ((q r : ℤ) × IsRemainder a (to_int n) q r × IsInt q × Traps q ns))

abbrev Divides : Lisp → ℤ → List ℤ → Result ℤ → Type 0
Divides s a ns =
    Ends (λ z s'. (s' ≡ s) × Divided a ns z) (λ c s'. (c ≡ arith_error) × (s' ≡ s) × Traps a ns)

divide_loop :
    (s : Lisp) (nargs i : ℕ) (acc : ℤ) (args : List Object) (ns : List ℤ)
    → (i == 0) ≡ false
    → IsInt acc
    → Numbers s args ns
    → Divides s acc ns (arith_loop div nargs i acc args s)
unfolding arith_loop arith_step divide
divide_loop s nargs i acc [] [] e g h = (refl, refl)
divide_loop s nargs i acc (x ∷ args) (n ∷ ns) e g h = rw h.0 (
    rw e (elim (Bool-cases (same_int (to_int n) (pos 0))) [
      | inl f ↦ rw f (refl, refl, inl (same_int-eq (to_int n) (pos 0) f))
      | inr f ↦ rw f (elim (Bool-cases (same_int acc lowest && same_int (to_int n) (negsuc 0))) [
        | inl t ↦ rw t (
          refl,
          refl,
          inr (
              inl (
                same_int-eq acc lowest (ground (arith, t)),
                same_int-eq (to_int n) (negsuc 0) (ground (arith, t)),
              )),
        )
        | inr t ↦
            let is = remainder-IsRemainder acc (to_int n) f in
            let fits = quotient-IsInt acc (to_int n) g f t in
            rw t (
              Ends-mono (λ z s'. (s' ≡ s) × Divided (quotient acc (to_int n)) ns z)
                (λ z s'. (s' ≡ s) × Divided acc (n ∷ ns) z)
                (λ c s'. (c ≡ arith_error) × (s' ≡ s) × Traps (quotient acc (to_int n)) ns)
                (λ c s'. (c ≡ arith_error) × (s' ≡ s) × Traps acc (n ∷ ns))
                (arith_loop div nargs (i + 1) (quotient acc (to_int n)) args s)
                (divide_loop s nargs (i + 1) (quotient acc (to_int n)) args ns (ground arith) fits
                  h.1)
                (λ z s' (j, d).
                  (j, (quotient acc (to_int n), remainder acc (to_int n), is, fits, d)))
                (λ c s' (j, k, d). (
                  j,
                  k,
                  inr (inr (quotient acc (to_int n), remainder acc (to_int n), is, fits, d)),
                )))
      ])
    ]))
divide_loop s nargs i acc [] (n ∷ ns) e g h = absurd h
divide_loop s nargs i acc (x ∷ args) [] e g h = absurd h

-- `/` of one or more arguments that are numbers, or markers with a position, each cut to an int. Either
-- it returns what is left when the first is divided by the others in turn, where each quotient q of a and
-- b is an int, q * b + r is a for an r that is smaller than b in size and is 0 or has the sign of a; or it
-- signals arith_error, and the divisions in turn come to a divisor 0 or to the lowest int by -1. The
-- store is as it was.
pub quo_lem :
    (s : Lisp) (x : Object) (args : List Object) (n : ℤ) (ns : List ℤ)
    → Numbers s (x ∷ args) (n ∷ ns)
    → Ends
        (λ v s'. (s' ≡ s) × ((z : ℤ) × (v ≡ int z) × Divided (to_int n) ns z))
        (λ c s'. (c ≡ arith_error) × (s' ≡ s) × Traps (to_int n) ns)
        (fquo (x ∷ args) s)
unfolding fquo arith_driver arith_loop arith_step
quo_lem s x args n ns h = rw h.0 (
    Ends-bind (λ z s'. (s' ≡ s) × Divided (to_int n) ns z)
      (λ v s'. (s' ≡ s) × ((z : ℤ) × (v ≡ int z) × Divided (to_int n) ns z))
      (λ c s'. (c ≡ arith_error) × (s' ≡ s) × Traps (to_int n) ns)
      (arith_loop div (suc (length args)) 1 (to_int n) args s) (λ z. done (int z))
      (divide_loop s (suc (length args)) 1 (to_int n) args ns refl (to_int-IsInt n) h.1)
      (λ z s' (e, d). (e, (z, refl, d))))

-- `%` of two numbers signals arith_error for a divisor 0, and else gives the remainder of the quotient
-- that is rounded to zero.
rem_lem :
    (s : Lisp) (m n : ℤ)
    → Ends
        (λ v s'. (s' ≡ s) × ((q r : ℤ) × (v ≡ int r) × IsRemainder m n q r))
        (λ c s'. (c ≡ arith_error) × (s' ≡ s) × (n ≡ pos 0))
        (frem (int m) (int n) s)
unfolding frem
rem_lem s m n = elim (Bool-cases (same_int n (pos 0))) [
  | inl z ↦ rw z (refl, refl, same_int-eq n (pos 0) z)
  | inr z ↦ rw z (refl, (quotient m n, remainder m n, refl, remainder-IsRemainder m n z))
]
