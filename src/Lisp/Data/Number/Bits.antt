-- ===== src/Lisp/Data/Number/Bits.antt =====
-- logand, logior and logxor, bit by bit.
use native.Mathlib.Nat.{two-pow-succ}
use holomacs.Prelude.{
  ℕ, zero, suc, ◌+◌, ◌-◌, ◌*◌, ◌/◌, ◌%◌, ◌^◌, ◌<◌, ◌≡◌, refl, ap, ◌∙◌, arith, Bool, true, false,
  ◌&&◌, ◌||◌, List, [], ◌∷◌, ◌==◌, if◌then◌else◌, ℤ, pos, negsuc, residue, signed, length,
}
use holomacs.Lisp.{Object, int, Lisp, Result, done, and_then}
use holomacs.Lisp.Data.{to_int}
use holomacs.Lisp.Data.Number.{
  Arithop, logand, logior, logxor, start, arith_step, arith_loop, arith_driver, bitwise, on_bits,
  exclusive,
}
use holomacs.Lisp.Data.Number.Sum.{Numbers}

-- Bit k of a number, from the lowest, and of an integer in two's complement.
abbrev pub bit_ℕ : ℕ → ℕ → Bool
bit_ℕ zero a = a % 2 == 1
bit_ℕ (suc k) a = bit_ℕ k (a / 2)

abbrev pub bit : ℕ → ℤ → Bool
bit k z = bit_ℕ k (residue 4294967296 z)

half : (b : Bool) (r : ℕ) → ((if b then 1 else 0) + 2 * r) / 2 ≡ r
half true r = omega arith
half false r = omega arith

parity : (b : Bool) (r : ℕ) → (((if b then 1 else 0) + 2 * r) % 2 == 1) ≡ b
parity true r = ground arith
parity false r = ground arith

bit-bitwise :
    (op : Bool → Bool → Bool) (w k a b : ℕ)
    → k < w
    → bit_ℕ k (bitwise op w a b) ≡ op (bit_ℕ k a) (bit_ℕ k b)
unfolding bitwise
bit-bitwise op zero k a b h = absurd (omega arith)
bit-bitwise op (suc w) zero a b h =
    parity (op (a % 2 == 1) (b % 2 == 1)) (bitwise op w (a / 2) (b / 2))
bit-bitwise op (suc w) (suc k) a b h =
    ap (bit_ℕ k) (half (op (a % 2 == 1) (b % 2 == 1)) (bitwise op w (a / 2) (b / 2)))
    ∙ bit-bitwise op w k (a / 2) (b / 2) (omega (arith, h))

with_bit : (b : Bool) (r p : ℕ) → r < p → (if b then 1 else 0) + 2 * r < p + p
with_bit true r p h = omega (arith, h)
with_bit false r p h = omega (arith, h)

bitwise_lt : (op : Bool → Bool → Bool) (w a b : ℕ) → bitwise op w a b < 2 ^ w
unfolding bitwise
bitwise_lt op zero a b = omega arith
bitwise_lt op (suc w) a b = rw (two-pow-succ w) (
    with_bit (op (a % 2 == 1) (b % 2 == 1)) (bitwise op w (a / 2) (b / 2)) (2 ^ w)
      (bitwise_lt op w (a / 2) (b / 2)))

same_bits : (r : ℕ) → r < 4294967296 → residue 4294967296 (signed 2147483648 r) ≡ r
same_bits r h = ground arith

bit-on_bits :
    (op : Bool → Bool → Bool) (k : ℕ) (m n : ℤ)
    → k < 32
    → bit k (on_bits op m n) ≡ op (bit k m) (bit k n)
bit-on_bits op k m n h =
    ap (bit_ℕ k) (
      same_bits (bitwise op 32 (residue 4294967296 m) (residue 4294967296 n))
        (bitwise_lt op 32 (residue 4294967296 m) (residue 4294967296 n)))
    ∙ bit-bitwise op 32 k (residue 4294967296 m) (residue 4294967296 n) h

bit-to_int : (k : ℕ) (z : ℤ) → bit k (to_int z) ≡ bit k z
bit-to_int k (pos n) = ap (bit_ℕ k) (same_bits (n % 4294967296) (omega arith))
bit-to_int k (negsuc n) = ap (bit_ℕ k) (same_bits (4294967295 - n % 4294967296) (omega arith))

-- What a Boolean operator makes of the bits of several numbers.
abbrev pub fold_bits : (Bool → Bool → Bool) → Bool → ℕ → List ℤ → Bool
fold_bits op b k [] = b
fold_bits op b k (n ∷ ns) = fold_bits op (op b (bit k n)) k ns

-- The operators of the bitwise functions and what they start from.
pub data Bitwise : Arithop → (Bool → Bool → Bool) → Bool → Type 0 where
  is_and : Bitwise logand (λ a b. a && b) true
  is_or : Bitwise logior (λ a b. a || b) false
  is_xor : Bitwise logxor exclusive false

one_step :
    (s : Lisp) (code : Arithop) (op : Bool → Bool → Bool) (b : Bool)
    → Bitwise code op b
    → (nargs i : ℕ) (acc n : ℤ) → arith_step code nargs i acc n s ≡ done (on_bits op acc n) s
unfolding arith_step
one_step s code op b is_and nargs i acc n = refl
one_step s code op b is_or nargs i acc n = refl
one_step s code op b is_xor nargs i acc n = refl

pow2_pos : (w : ℕ) → 0 < 2 ^ w
pow2_pos zero = omega arith
pow2_pos (suc w) = rw (two-pow-succ w) (omega (arith, pow2_pos w))

start_bits :
    (code : Arithop) (op : Bool → Bool → Bool) (b : Bool)
    → Bitwise code op b
    → (k : ℕ) → k < 32
    → bit k (start code) ≡ b
start_bits code op b is_and k h = ones 32 k h
  where
    lower : (w : ℕ) → (2 ^ w + 2 ^ w - 1) / 2 ≡ 2 ^ w - 1
    lower w = omega (arith, pow2_pos w)

    ones : (w k : ℕ) → k < w → bit_ℕ k (2 ^ w - 1) ≡ true
    ones zero k h = absurd (omega (arith, h))
    ones (suc w) zero h = rw (two-pow-succ w) (ground (arith, pow2_pos w))
    ones (suc w) (suc k) h =
        rw (two-pow-succ w) (ap (bit_ℕ k) (lower w) ∙ ones w k (omega (arith, h)))
start_bits code op b is_or k h = zeros k
  where
    zeros : (k : ℕ) → bit_ℕ k 0 ≡ false
    zeros zero = refl
    zeros (suc k) = zeros k
start_bits code op b is_xor k h = zeros k
  where
    zeros : (k : ℕ) → bit_ℕ k 0 ≡ false
    zeros zero = refl
    zeros (suc k) = zeros k

abbrev Folds : (Bool → Bool → Bool) → ℤ → List ℤ → Lisp → Result ℤ → Type 0
Folds op acc ns s r =
    (z : ℤ) × (r ≡ done z s) × ((k : ℕ) → k < 32 → bit k z ≡ fold_bits op (bit k acc) k ns)

bits_loop :
    (s : Lisp) (code : Arithop) (op : Bool → Bool → Bool) (b : Bool)
    → Bitwise code op b
    → (nargs i : ℕ) (acc : ℤ) (args : List Object) (ns : List ℤ) → Numbers s args ns
    → Folds op acc ns s (arith_loop code nargs i acc args s)
unfolding arith_loop
bits_loop s code op b is nargs i acc [] [] h = (acc, refl, λ k j. refl)
bits_loop s code op b is nargs i acc (x ∷ args) (n ∷ ns) h = rw h.0 (
    rw (one_step s code op b is nargs i acc (to_int n)) (
      let rest = bits_loop s code op b is nargs (i + 1) (on_bits op acc (to_int n)) args ns h.1 in
      (
        rest.0,
        rest.1,
        λ k j.
            rest.2 k j
            ∙ ap (λ c. fold_bits op c k ns)
                (bit-on_bits op k acc (to_int n) j ∙ ap (op (bit k acc)) (bit-to_int k n)),
      )))
bits_loop s code op b is nargs i acc [] (n ∷ ns) h = absurd h
bits_loop s code op b is nargs i acc (x ∷ args) [] h = absurd h

-- Each of the 32 bits of what logand, logior and logxor give is the `and`, the `or` and the exclusive
-- `or` of the bits of all arguments at that place; without arguments it is 1 for logand, 0 for the others.
pub bitwise_lem :
    (s : Lisp) (code : Arithop) (op : Bool → Bool → Bool) (b : Bool)
    → Bitwise code op b
    → (args : List Object) (ns : List ℤ) → Numbers s args ns
    → (z : ℤ) × (arith_driver code args s ≡ done (int z) s)
      × ((k : ℕ) → k < 32 → bit k z ≡ fold_bits op b k ns)
unfolding arith_driver
bitwise_lem s code op b is args ns h =
    let r = bits_loop s code op b is (length args) 0 (start code) args ns h in
    (
      r.0,
      ap (λ c. and_then c (λ z. done (int z))) r.1,
      λ k j. r.2 k j ∙ ap (λ c. fold_bits op c k ns) (start_bits code op b is k j),
    )
