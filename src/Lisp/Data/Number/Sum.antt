-- ===== src/Lisp/Data/Number/Sum.antt =====
-- The sums and differences of arith_driver.
use holomacs.Prelude.{
  ℕ, suc, ◌+◌, ◌≡◌, refl, ap, ◌∙◌, arith, false, List, [], ◌∷◌, ◌==◌, ℤ, pos, length, ◌+ℤ◌, ◌-ℤ◌,
  int_laws,
}
use holomacs.Lisp.{Object, int, Lisp, done, and_then}
use holomacs.Lisp.Data.{to_int, check_number_coerce_marker}
use holomacs.Lisp.Data.Number.{add, sub, arith_step, arith_loop, arith_driver, fplus, fminus}
use holomacs.Lisp.Data.Number.Range.{to_int-IsInt, to_int_same, to_int_add, to_int_sub}

-- The numbers that arguments are, as integers or as markers.
abbrev pub Numbers : Lisp → List Object → List ℤ → Type 0
Numbers s [] [] = Unit {0}
Numbers s (x ∷ args) (n ∷ ns) = (check_number_coerce_marker x s ≡ done n s) × Numbers s args ns
Numbers s args ns = ⊥

abbrev pub total : List ℤ → ℤ
total [] = pos 0
total (n ∷ ns) = n +ℤ total ns

-- What `-` means: the negative of one number, the first less the others.
abbrev pub difference : List ℤ → ℤ
difference [] = pos 0
difference (n ∷ []) = pos 0 -ℤ n
difference (n ∷ ns) = n -ℤ total ns

sum_step : (a n t : ℤ) → a +ℤ n +ℤ t ≡ a +ℤ (n +ℤ t)
sum_step a n t = omega int_laws

difference_step : (a n t : ℤ) → a -ℤ n -ℤ t ≡ a -ℤ (n +ℤ t)
difference_step a n t = omega int_laws

sum_loop :
    (s : Lisp) (nargs i : ℕ) (acc : ℤ) (args : List Object) (ns : List ℤ)
    → Numbers s args ns
    → arith_loop add nargs i (to_int acc) args s ≡ done (to_int (acc +ℤ total ns)) s
unfolding arith_loop arith_step
sum_loop s nargs i acc [] [] h = ap (λ z. done (to_int z) s) (omega int_laws)
sum_loop s nargs i acc (x ∷ args) (n ∷ ns) h = rw h.0 (
    ap (λ z. arith_loop add nargs (i + 1) z args s) (to_int_add acc n)
    ∙ sum_loop s nargs (i + 1) (acc +ℤ n) args ns h.1
    ∙ ap (λ z. done (to_int z) s) (sum_step acc n (total ns)))
sum_loop s nargs i acc [] (n ∷ ns) h = absurd h
sum_loop s nargs i acc (x ∷ args) [] h = absurd h

-- `+` gives the sum of its arguments, cut to 32 bits once at the end, whatever order the
-- partial sums overflow in.
pub plus_lem :
    (s : Lisp) (args : List Object) (ns : List ℤ)
    → Numbers s args ns
    → fplus args s ≡ done (int (to_int (total ns))) s
unfolding fplus arith_driver
plus_lem s args ns h =
    ap (λ r. and_then r (λ z. done (int z)))
      (sum_loop s (length args) 0 (pos 0) args ns h ∙ ap (λ z. done (to_int z) s) (omega int_laws))

difference_loop :
    (s : Lisp) (nargs i : ℕ) (acc : ℤ) (args : List Object) (ns : List ℤ)
    → (i == 0) ≡ false
    → Numbers s args ns
    → arith_loop sub nargs i (to_int acc) args s ≡ done (to_int (acc -ℤ total ns)) s
unfolding arith_loop arith_step
difference_loop s nargs i acc [] [] e h = ap (λ z. done (to_int z) s) (omega int_laws)
difference_loop s nargs i acc (x ∷ args) (n ∷ ns) e h = rw h.0 (
    rw e (
      ap (λ z. arith_loop sub nargs (i + 1) z args s) (to_int_sub acc n)
      ∙ difference_loop s nargs (i + 1) (acc -ℤ n) args ns (ground arith) h.1
      ∙ ap (λ z. done (to_int z) s) (difference_step acc n (total ns))))
difference_loop s nargs i acc [] (n ∷ ns) e h = absurd h
difference_loop s nargs i acc (x ∷ args) [] e h = absurd h

twice_negative : (n : ℤ) → to_int (pos 0 -ℤ to_int (pos 0 -ℤ to_int n)) ≡ to_int n
twice_negative n =
    to_int_sub (pos 0) (pos 0 -ℤ to_int n)
    ∙ ap to_int (double (to_int n))
    ∙ to_int_same (to_int n) (to_int-IsInt n)
  where
    double : (z : ℤ) → pos 0 -ℤ (pos 0 -ℤ z) ≡ z
    double z = omega int_laws

only_one :
    (s : Lisp) (n : ℤ) → arith_step sub 1 0 (pos 0) (to_int n) s ≡ done (to_int (pos 0 -ℤ n)) s
unfolding arith_step
only_one s n = ap (λ z. done z s) (to_int_sub (pos 0) n)

first_of_several :
    (s : Lisp) (k : ℕ) (n : ℤ)
    → arith_step sub (suc (suc k)) 0 (pos 0) (to_int n) s ≡ done (to_int n) s
unfolding arith_step
first_of_several s k n = rw (several k) (ap (λ z. done z s) (twice_negative n))
  where
    several : (k : ℕ) → (suc (suc k) == 1) ≡ false
    several k = ground arith

-- `-` gives the negative of one number, and the first of several less the sum of the others,
-- cut to 32 bits once at the end; 0 for no arguments.
minus_lem :
    (s : Lisp) (args : List Object) (ns : List ℤ)
    → Numbers s args ns
    → fminus args s ≡ done (int (to_int (difference ns))) s
unfolding fminus arith_driver arith_loop
minus_lem s [] [] h = refl
minus_lem s (x ∷ []) (n ∷ []) h = rw h.0 (rw (only_one s n) refl)
minus_lem s (x ∷ y ∷ args) (n ∷ m ∷ ns) h = rw h.0 (
    ap
      (λ r.
        and_then (and_then r (λ z. arith_loop sub (suc (suc (length args))) 1 z (y ∷ args)))
          (λ z. done (int z)))
      (first_of_several s (length args) n)
    ∙ ap (λ r. and_then r (λ z. done (int z)))
        (difference_loop s (suc (suc (length args))) 1 n (y ∷ args) (m ∷ ns) refl h.1))
minus_lem s [] (n ∷ ns) h = absurd h
minus_lem s (x ∷ args) [] h = absurd h
minus_lem s (x ∷ []) (n ∷ m ∷ ns) h = absurd h.1
minus_lem s (x ∷ y ∷ args) (n ∷ []) h = absurd h.1
