-- ===== src/Tests/Binding.antt =====
-- The theorems on sorting, circular lists, variables and bindings, at small stores.
use holomacs.Prelude.{
  ℕ, ◌≡◌, refl, arith, Bool, true, false, not, inl, inr, List, [], ◌∷◌, ltb, ◌==◌, if◌then◌else◌,
  Bool-cases, pos, has,
}
use holomacs.Lisp.{
  Object, symbol, int, cons, buffer, some_buffer_local_value, objfwd, nil, qt, is_null, Lisp, done,
  Code,
}
use holomacs.Lisp.View.{Ends, Spine, Quit}
use holomacs.Lisp.Data.{truth}
use holomacs.Lisp.Lists.{flength}
use holomacs.Lisp.Lists.Change.{Relinked, Halfway}
use holomacs.Lisp.Lists.Circular.{Circular, length-Circular}
use holomacs.Lisp.Sort.{fsort}
use holomacs.Lisp.Sort.Order.{IsOrder}
use holomacs.Lisp.Sort.Stable.{StableSort}
use holomacs.Lisp.Sort.Merge.{Compares, by_car}
use holomacs.Lisp.Sort.Whole.{sort_lem}
use holomacs.Lisp.Vars.{fsymbol_value}
use holomacs.Lisp.Vars.Set.{fset}
use holomacs.Lisp.Vars.Cache.{slot, Consistent}
use holomacs.Lisp.Vars.Read.{Seen, SetUpHere, symbol_value_lem}
use holomacs.Lisp.Vars.Steps.{Stored}
use holomacs.Lisp.Vars.Write.{Stopped, set_lem}
use holomacs.Lisp.Vars.RoundTrip.{Set, Refused, set_then_value}
use holomacs.Lisp.Eval.{unbind_to}
use holomacs.Lisp.Eval.Bind.{with_binding}
use holomacs.Lisp.Eval.Scope.{bind_all, names, pushed, Bound, bind_lem, unbind_lem}
use holomacs.Tests.Lisp.{store, cells}

-- Natural numbers are compared, all else counts as 0.
abbrev rank : Object → ℕ
rank (int (pos n)) = n
rank x = 0

abbrev less : Object → Object → Bool
less x y = ltb (rank x) (rank y)

abbrev call_less : (fn arg1 arg2 : Object) → Code Object
call_less fn x y s = done (truth (less x y)) s

abbrev call_less-Compares : Compares call_less qt less store
call_less-Compares x y f q p = ((q, p, refl), null_of (less x y))
  where
    null_of : (o : Bool) → is_null (truth o) ≡ not o
    null_of true = refl
    null_of false = refl

less-IsOrder : IsOrder (by_car less store)
less-IsOrder = record {
  asym = λ x y h. asym_ℕ (rank (store.car x)) (rank (store.car y)) h;
  trans = λ x y z h i. trans_ℕ (rank (store.car x)) (rank (store.car y)) (rank (store.car z)) h i;
}
  where
    asym_ℕ : (m n : ℕ) → ltb m n ≡ true → ltb n m ≡ false
    asym_ℕ m n h = ground (arith, h)

    trans_ℕ : (l m n : ℕ) → ltb m l ≡ false → ltb n m ≡ false → ltb n l ≡ false
    trans_ℕ l m n h i = ground (arith, h, i)

sort_lem_example :
    Ends
      (λ v s'.
        (m : List ℕ) × StableSort (by_car less store) cells m
        × ((g : ℕ → Object) × Relinked store.cdr cells store s' g × Spine g v m))
      (Halfway store.cdr cells store)
      (fsort call_less 4 (cons 10) qt store)
sort_lem_example =
    sort_lem call_less qt less store 4 (cons 10) cells call_less-Compares less-IsOrder
      (refl, (refl, (refl, refl))) (refl, (refl, (refl, tt))) (λ a h. refl) (omega arith)
      (omega arith)

-- One cell that is its own cdr, and C-g by the second poll.
abbrev ring : Lisp
ring = record store { cdr = λ a. cons a; arrivals = false ∷ true ∷ [] }

abbrev ring-Circular : Circular ring.cdr (λ a. Unit {0})
ring-Circular a h = (a, refl, tt)

length-Circular_example : Ends (λ v s'. ⊥) (Quit ring) (flength 3 (cons 10) ring)
length-Circular_example =
    length-Circular ring (λ a. Unit {0}) 3 1 10 ring-Circular tt (refl, refl) (omega arith)

-- Symbol 3 has the value 8 in buffer 1, the current one, and 7 elsewhere; its cells 40, 41 and 42 are
-- set up for buffer 0. The alist of buffer 1 is in cell 50, with the element in cell 51. Symbol 4 stands
-- for a variable of C.
abbrev local_store : Lisp
local_store = record store {
  value = λ a. if a == 3 then some_buffer_local_value 40 else if a == 4 then objfwd 9 else nil;
  car = λ a.
      if a == 40
      then int (pos 7)
      else if a == 41
      then buffer 0
      else if a == 42
      then cons 42
      else if a == 50
      then cons 51
      else if a == 51
      then symbol 3
      else nil;
  cdr = λ a.
      if a == 40
      then cons 41
      else if a == 41
      then cons 42
      else if a == 42
      then int (pos 7)
      else if a == 51
      then int (pos 8)
      else nil;
  buffers = record store.buffers {
    current = 1;
    local_var_alist = λ x. if x == 1 then cons 50 else nil;
  };
}

abbrev alist : ℕ → List ℕ
alist x = if x == 1 then 50 ∷ [] else []

slot_value : (x : ℕ) → slot local_store 3 42 (alist x) ≡ (if x == 1 then 51 else 42)
slot_value x = elim (Bool-cases (x == 1)) [ inl h ↦ rw h refl | inr h ↦ rw h refl ]

Spine-alist : (x : ℕ) → Spine local_store.cdr (if x == 1 then cons 50 else nil) (alist x)
Spine-alist x = elim (Bool-cases (x == 1)) [ inl h ↦ rw h (refl, refl) | inr h ↦ rw h refl ]

local_store-Consistent : Consistent local_store 3 40 41 42 42 alist
local_store-Consistent = record {
  contents = refl;
  tail = refl;
  rest = refl;
  element = refl;
  spines = λ x. Spine-alist x;
  apart = λ x z h. ground (arith, h);
  keys = λ x z y h i. ground (arith, h, i);
  slots = λ x. ground (arith, slot_value x);
  elements = λ x y. ground (arith, slot_value x);
  own = λ x y h. ground (arith, h, slot_value x, slot_value y);
  distinct = (refl, (refl, (refl, tt)));
  other = refl;
  writable = (refl, λ x. refl);
  cached = λ x h. ground (arith, h, slot_value x);
  uncached = λ x h. inr refl;
}

symbol_value_lem_example :
    (v : Object) × (s' : Lisp) × (fsymbol_value 3 (symbol 3) local_store ≡ done v s')
    × Seen local_store 3 40 41 42 alist v s'
    × (s'.buffers.current ≡ local_store.buffers.current)
    × Consistent s' 3 40 41 42 (slot local_store 3 42 (alist local_store.buffers.current)) alist
    × SetUpHere s' 40 41 42 (slot local_store 3 42 (alist local_store.buffers.current)) v
symbol_value_lem_example =
    symbol_value_lem local_store 3 40 41 42 42 1 alist local_store-Consistent (omega arith) refl
      refl

set_lem_example :
    Ends
      (λ r s'. (r ≡ int (pos 9)) × Stored local_store 3 40 41 42 alist (int (pos 9)) s')
      (Stopped local_store 3 40 41 42 alist)
      (fset 2 (symbol 3) (int (pos 9)) local_store)
set_lem_example =
    set_lem local_store 3 40 41 42 42 2 alist (int (pos 9)) local_store-Consistent refl
      (omega arith) refl

set_then_value_example :
    Ends
      (Set 0 4 (objfwd 9) (int (pos 9)))
      (Refused (objfwd 9) (int (pos 9)))
      (fset 1 (symbol 4) (int (pos 9)) local_store)
set_then_value_example =
    set_then_value local_store 4 1 0 (objfwd 9) (int (pos 9)) refl refl refl refl

-- Symbol 3 is bound_value twice.
abbrev bindings : List (ℕ × Object)
bindings = (3, int (pos 1)) ∷ (5, qt) ∷ (3, int (pos 2)) ∷ []

bind_lem_example : Bound store bindings (bind_all 1 bindings store)
bind_lem_example =
    bind_lem 0 bindings store (refl, refl, refl, (refl, refl, refl, (refl, refl, refl, tt)))
      (omega arith) (omega arith)

abbrev no_eval : Object → Code Object
no_eval form = done form

abbrev no_call : ℕ → Object → Code (Unit {0})
no_call f arg = done tt

unbind_lem_example :
    (after : ℕ → Object) × (unbind_to no_eval no_call 4 0
        (with_binding store (λ a. int (pos 6)) (pushed store.value bindings []) 50 600)
      ≡ done tt (with_binding store after [] 50 600))
    × ((x : ℕ) → after x ≡ (if has x (names bindings) then store.value x else int (pos 6)))
unbind_lem_example =
    unbind_lem no_eval no_call store bindings [] store.value (λ a. int (pos 6)) 50 600
      (refl, refl, refl, (refl, refl, refl, (refl, refl, refl, tt))) (λ x h. refl)
