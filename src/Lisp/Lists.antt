-- ===== src/Lisp/Lists.antt =====
-- fns.c: the functions on lists. A loop that follows cdrs may go round a circular list, so it has
-- a number of rounds.
pub mod Search
pub mod Change
pub mod Circular
pub mod Fresh
pub mod Nconc
use holomacs.Prelude.{
  ℕ, zero, suc, ◌+◌, ◌-◌, ◌≡◌, Bool, true, false, not, ◌&&◌, ◌||◌, Option, none, some, List, [],
  ◌∷◌, ltb, leb, ◌==◌, if◌then◌else◌, ℤ, pos, negsuc, length,
}
use holomacs.Lisp.Data.{to_int, check_number}
use holomacs.Lisp.{
  Object, int, string, vector, cons, nil, eq, is_null, is_cons, Lisp, wrong_type, sequencep, Result,
  done, raise, endless, Code, and_then, ◌>>=◌, ◌>>◌, check_quit, fcar, fcdr, fsetcar, fsetcdr,
  fcons,
}

-- `for (tail = list; !NULL (tail); tail = Fcdr (tail)) body; return Qnil;` where a body may return a
-- value, or go on.
unfoldable pub each : (rounds : ℕ) → (Object → Code (Option Object)) → Object → Code Object
each zero body tail s = endless
each (suc k) body tail s =
    if is_null tail
    then done nil s
    else and_then (body tail s) (λ found s1. elim found [
      | some v ↦ done v s1
      | none ↦ and_then (fcdr tail s1) (λ next. each k body next)
    ])

-- `QUIT`, and then on.
abbrev go_on : Code (Option Object)
go_on s = and_then (check_quit s) (λ _. done none)

-- The body of a search: `value` is returned where the test holds of `tem`.
abbrev pub found_if : Object → Object → (value : Object) → Code (Option Object)
found_if x tem value s = if eq x tem then done (some value) s else go_on s

unfoldable pub memq : (rounds : ℕ) → (elt list : Object) → Code Object
unfolding each
memq k elt = each k (λ tail s. and_then (fcar tail s) (λ tem. found_if elt tem tail))

unfoldable pub assq : (rounds : ℕ) → (key list : Object) → Code Object
unfolding each
assq k key = each k (λ tail s. and_then (fcar tail s) (λ elt s1.
    if is_cons elt then and_then (fcar elt s1) (λ tem. found_if key tem elt) else done none s1))

unfoldable pub rassq : (rounds : ℕ) → (key list : Object) → Code Object
unfolding each
rassq k key = each k (λ tail s. and_then (fcar tail s) (λ elt s1.
    if is_cons elt then and_then (fcdr elt s1) (λ tem. found_if key tem elt) else done none s1))

-- assq without errors and quits: the loop ends at anything that is no cons cell.
unfoldable pub assq_no_quit : (rounds : ℕ) → (key list : Object) → Code Object
assq_no_quit zero key tail s = endless
assq_no_quit (suc k) key tail s =
    let next = and_then (fcdr tail s) (λ rest. assq_no_quit k key rest) in
    if is_cons tail
    then and_then (fcar tail s) (λ elt s1.
      if is_cons elt
      then and_then (fcar elt s1) (λ tem s2. if eq key tem then done elt s2 else next)
      else next)
    else done nil s

-- The loop of Flength over a list.
unfoldable pub count_cells : (rounds i : ℕ) → Object → Code ℕ
count_cells zero i tail s = endless
count_cells (suc k) i tail s =
    if is_null tail
    then done i s
    else and_then (check_quit s)
        (λ _ s1. and_then (fcdr tail s1) (λ next. count_cells k (i + 1) next))

unfoldable pub flength : (rounds : ℕ) → Object → Code ℕ
unfolding count_cells
flength k (vector a) s = done (length (s.items a)) s
flength k (string a) s = done (length (s.bytes a)) s
flength k (cons a) s = count_cells k 0 (cons a) s
flength k x s = if is_null x then done 0 s else raise (wrong_type sequencep x) s

-- The loop of Fnthcdr.
unfoldable pub skip_cells : (num : ℕ) → Object → Code Object
skip_cells zero list s = done list s
skip_cells (suc n) list s =
    if is_null list
    then done list s
    else and_then (check_quit s) (λ _ s1. and_then (fcdr list s1) (λ next. skip_cells n next))

-- `i < num` never holds for a negative number.
abbrev pub cells_to_skip : ℤ → ℕ
cells_to_skip (pos n) = n
cells_to_skip (negsuc n) = 0

unfoldable pub nthcdr : (n list : Object) → Code Object
unfolding skip_cells
nthcdr n list s = and_then (check_number n s) (λ num. skip_cells (cells_to_skip (to_int num)) list)

unfoldable pub nth : (n list : Object) → Code Object
unfolding nthcdr
nth n list = do tail ← nthcdr n list; fcar tail

-- Fdelq: `prev` is the last cell that stays, or nil.
unfoldable pub delq_loop : (rounds : ℕ) → (elt prev tail list : Object) → Code Object
delq_loop zero elt prev tail list s = endless
delq_loop (suc k) elt prev tail list s =
    if is_null tail
    then done list s
    else and_then (fcar tail s) (λ tem s1.
      if eq elt tem
      then (if is_null prev
          then and_then (fcdr tail s1) (λ rest s2.
            and_then (fcdr tail s2)
              (λ next s3. and_then (check_quit s3) (λ _. delq_loop k elt prev next rest)))
          else and_then (fcdr tail s1) (λ rest s2. and_then (fsetcdr prev rest s2) (λ _ s3.
            and_then (fcdr tail s3)
              (λ next s4. and_then (check_quit s4) (λ _. delq_loop k elt prev next list)))))
      else and_then (fcdr tail s1)
          (λ next s2. and_then (check_quit s2) (λ _. delq_loop k elt tail next list)))

unfoldable pub delq : (rounds : ℕ) → (elt list : Object) → Code Object
unfolding delq_loop
delq k elt list = delq_loop k elt nil list list

unfoldable pub nreverse_loop : (rounds : ℕ) → (prev tail : Object) → Code Object
nreverse_loop zero prev tail s = endless
nreverse_loop (suc k) prev tail s =
    if is_null tail
    then done prev s
    else and_then (check_quit s) (λ _ s1.
      and_then (fcdr tail s1)
        (λ next s2. and_then (fsetcdr tail prev s2) (λ _. nreverse_loop k tail next)))

unfoldable pub nreverse : (rounds : ℕ) → Object → Code Object
unfolding nreverse_loop
nreverse k list = if is_null list then done list else nreverse_loop k nil list
