-- ===== src/Tests/Lisp.antt =====
-- A small Lisp store, and the theorems on Lisp data applied to it.
use holomacs.Prelude.{
  ℕ, ◌<◌, ◌≡◌, refl, arith, false, ◌&&◌, some, List, [], ◌∷◌, ◌==◌, if◌then◌else◌, ℤ, pos, negsuc,
  ◌*ℤ◌,
}
use holomacs.Lisp.{
  Object, symbol, int, string, cons, nil, qt, same_int, eq, Lisp, done, fcar, arith_error,
}
use holomacs.Lisp.View.{Ends, Spine}
use holomacs.Lisp.Lists.{assq, delq, nreverse}
use holomacs.Lisp.Lists.Change.{Relinked, Halfway, nreverse_lem}
use holomacs.Lisp.Lists.Change.Delq.{delq_lem}
use holomacs.Lisp.Plist.{get, put}
use holomacs.Lisp.Plist.RoundTrip.New.{put_then_get}
use holomacs.Lisp.Data.{to_int, faref, faset}
use holomacs.Lisp.Data.Array.{value_of, aset_lem}
use holomacs.Lisp.Data.Number.{fquo, logxor, exclusive, arith_driver, fplus, fash, flsh}
use holomacs.Lisp.Data.Number.Quotient.{Divided, Traps, quo_lem}
use holomacs.Lisp.Data.Number.Sum.{total, plus_lem}
use holomacs.Lisp.Data.Number.Bits.{bit, fold_bits, is_xor, bitwise_lem}

-- The list (1 2 1) in the cells 10, 11 and 12, the alist ((1 . 2)) in the cells 20 and 21, the string
-- "ab", a vector of two elements, and a property of symbol 3 in the cells 15 and 16.
abbrev pub store : Lisp
store = record {
  car = λ a.
      if a == 15
      then symbol 4
      else if a == 11
      then int (pos 2)
      else if a == 20
      then cons 21
      else int (pos 1);
  cdr = λ a.
      if a == 15
      then cons 16
      else if a == 10
      then cons 11
      else if a == 11
      then cons 12
      else if a == 21
      then int (pos 2)
      else nil;
  bytes = λ a. 97 ∷ 98 ∷ [];
  items = λ a. nil ∷ int (pos 7) ∷ [];
  value = λ a. nil;
  function = λ a. nil;
  plist = λ a. if a == 3 then cons 15 else nil;
  name = λ a. 0;
  place = λ a. some (0, a);
  autoload_queue = nil;
  unused = 30;
  is_pure = λ a. false;
  quit_flag = false;
  inhibit_quit = false;
  arrivals = false ∷ false ∷ [];
  int_var = λ a. pos 0;
  obj_var = λ a. nil;
  buffers = record {
    current = 0;
    field = λ b i. nil;
    defaults = λ i. nil;
    local_flags = λ i. pos 0;
    local_var_alist = λ b. nil;
    local_var_flags = λ b. pos 0;
    all = 0 ∷ 1 ∷ [];
  };
  specpdl = record { entries = []; size = 50; max_size = 600 };
  mocklisp_arguments = qt;
}

abbrev pub cells : List ℕ
cells = 10 ∷ 11 ∷ 12 ∷ []

assq_run : value_of (assq 2 (int (pos 1)) (cons 20) store) ≡ some (cons 21)
unfolding assq fcar
assq_run = refl

nreverse_lem_example :
    Ends
      (λ v s'.
        (g : ℕ → Object) × Relinked store.cdr cells store s' g × Spine g v (12 ∷ 11 ∷ 10 ∷ []))
      (Halfway store.cdr cells store)
      (nreverse 4 (cons 10) store)
nreverse_lem_example =
    nreverse_lem store 4 (cons 10) cells (refl, (refl, (refl, refl))) (refl, (refl, (refl, tt)))
      (λ a h. refl) (omega arith)

delq_lem_example :
    Ends
      (λ v s'. (g : ℕ → Object) × Relinked store.cdr cells store s' g × Spine g v (11 ∷ []))
      (Halfway store.cdr cells store)
      (delq 4 (int (pos 1)) (cons 10) store)
delq_lem_example =
    delq_lem store 4 (int (pos 1)) (cons 10) cells (refl, (refl, (refl, refl)))
      (refl, (refl, (refl, tt))) (λ a h. refl) (omega arith)

aset_lem_example :
    Ends
      (λ r s'.
        (r ≡ int (pos 300))
        × (value_of (faref (string 5) (int (pos 1)) s') ≡ some (int (pos 44)))
        × ((y : Object) (j : ℤ)
            → (eq y (string 5) && same_int (to_int j) (pos 1)) ≡ false
            → value_of (faref y (int j) s') ≡ value_of (faref y (int j) store)))
      (λ c s'. s' ≡ store)
      (faset (string 5) (int (pos 1)) (int (pos 300)) store)
aset_lem_example = aset_lem store (string 5) (int (pos 300)) (pos 1)

quo_lem_example :
    Ends
      (λ v s'. (s' ≡ store) × ((z : ℤ) × (v ≡ int z) × Divided (pos 7) (pos 2 ∷ pos 0 ∷ []) z))
      (λ c s'. (c ≡ arith_error) × (s' ≡ store) × Traps (pos 7) (pos 2 ∷ pos 0 ∷ []))
      (fquo (int (pos 7) ∷ int (pos 2) ∷ int (pos 0) ∷ []) store)
quo_lem_example =
    quo_lem store (int (pos 7)) (int (pos 2) ∷ int (pos 0) ∷ []) (pos 7) (pos 2 ∷ pos 0 ∷ [])
      (refl, (refl, (refl, tt)))

plus_lem_example :
    fplus (int (pos 2147483647) ∷ int (pos 1) ∷ []) store
    ≡ done (int (to_int (total (pos 2147483647 ∷ pos 1 ∷ [])))) store
plus_lem_example =
    plus_lem store (int (pos 2147483647) ∷ int (pos 1) ∷ []) (pos 2147483647 ∷ pos 1 ∷ [])
      (refl, (refl, tt))

bitwise_lem_example :
    (z : ℤ) × (arith_driver logxor (int (pos 12) ∷ int (pos 10) ∷ []) store ≡ done (int z) store)
    × ((k : ℕ) → k < 32 → bit k z ≡ fold_bits exclusive false k (pos 12 ∷ pos 10 ∷ []))
bitwise_lem_example =
    bitwise_lem store logxor exclusive false is_xor (int (pos 12) ∷ int (pos 10) ∷ [])
      (pos 12 ∷ pos 10 ∷ []) (refl, (refl, tt))

-- -1 shifted to the left by one place, and its 32 bits to the right.
ash_run : value_of (fash (int (negsuc 0)) (int (pos 1)) store) ≡ some (int (negsuc 1))
unfolding fash ◌*ℤ◌
ash_run = refl

lsh_run : value_of (flsh (int (negsuc 0)) (int (negsuc 0)) store) ≡ some (int (pos 2147483647))
unfolding flsh
lsh_run = refl

put_then_get_example :
    (s' : Lisp) × (put 3 (symbol 3) (symbol 5) (int (pos 9)) store ≡ done (int (pos 9)) s')
    × (get 3 (symbol 3) (symbol 5) s' ≡ done (int (pos 9)) s')
put_then_get_example =
    put_then_get store 3 3 (symbol 5) (int (pos 9)) ((15, 16) ∷ [])
      (refl, refl, omega arith, omega arith, refl) (refl, (refl, tt)) (λ a h. refl) (omega arith)
