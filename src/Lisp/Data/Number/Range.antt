-- ===== src/Lisp/Data/Number/Range.antt =====
-- What arith_driver gives, in 32 bits.
use holomacs.Prelude.{
  ℕ, ◌+◌, ◌-◌, ◌%◌, ◌<◌, ◌≡◌, sym, ap, ◌∙◌, arith, ℤ, pos, negsuc, residue, signed, ◌+ℤ◌, ◌-ℤ◌,
}
use holomacs.Lisp.Data.{to_int}

-- A C int holds the number.
abbrev pub IsInt : ℤ → Type 0
IsInt (pos n) = n < 2147483648
IsInt (negsuc n) = n < 2147483648

pub to_int-IsInt : (z : ℤ) → IsInt (to_int z)
to_int-IsInt (pos n) = ground arith
to_int-IsInt (negsuc n) = ground arith

pub to_int_same : (z : ℤ) → IsInt z → to_int z ≡ z
to_int_same (pos n) h = ground arith
to_int_same (negsuc n) h = ground arith

abbrev mod32 : ℤ → ℕ
mod32 z = residue 4294967296 z

mod32-to_int : (z : ℤ) → mod32 (to_int z) ≡ mod32 z
mod32-to_int (pos n) = ground arith
mod32-to_int (negsuc n) = ground arith

mod32_add : (a b : ℤ) → mod32 (a +ℤ b) ≡ (mod32 a + mod32 b) % 4294967296
unfolding ◌+ℤ◌
mod32_add (pos a) (pos b) = ground arith
mod32_add (pos a) (negsuc b) = ground arith
mod32_add (negsuc a) (pos b) = ground arith
mod32_add (negsuc a) (negsuc b) = ground arith

mod32_sub : (a b : ℤ) → mod32 (a -ℤ b) ≡ (mod32 a + (4294967296 - mod32 b)) % 4294967296
unfolding ◌-ℤ◌
mod32_sub (pos a) (pos b) = ground arith
mod32_sub (pos a) (negsuc b) = ground arith
mod32_sub (negsuc a) (pos b) = ground arith
mod32_sub (negsuc a) (negsuc b) = ground arith

-- A sum or a difference can be cut to an int before or after.
pub to_int_add : (a b : ℤ) → to_int (to_int a +ℤ to_int b) ≡ to_int (a +ℤ b)
to_int_add a b = ap (signed 2147483648) (
    mod32_add (to_int a) (to_int b)
    ∙ ap (λ x. (x + mod32 (to_int b)) % 4294967296) (mod32-to_int a)
    ∙ ap (λ x. (mod32 a + x) % 4294967296) (mod32-to_int b)
    ∙ sym (mod32_add a b))

pub to_int_sub : (a b : ℤ) → to_int (to_int a -ℤ to_int b) ≡ to_int (a -ℤ b)
to_int_sub a b = ap (signed 2147483648) (
    mod32_sub (to_int a) (to_int b)
    ∙ ap (λ x. (x + (4294967296 - mod32 (to_int b))) % 4294967296) (mod32-to_int a)
    ∙ ap (λ x. (mod32 a + (4294967296 - x)) % 4294967296) (mod32-to_int b)
    ∙ sym (mod32_sub a b))
