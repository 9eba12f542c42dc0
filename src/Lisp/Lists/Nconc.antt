-- ===== src/Lisp/Lists/Nconc.antt =====
-- fns.c: nconc, which links lists together.
pub mod Last
pub mod Parts
pub mod Step
pub mod Whole
use mathlib.Core.Path.{subst}
use holomacs.Prelude.{
  ℕ, zero, suc, ◌<◌, ◌≡◌, refl, sym, ap, ◌∙◌, ◌++◌, true, false, List, [], ◌∷◌, arith,
  if◌then◌else◌, length, has, Distinct, has-append, Bool, Bool-cases, inl, inr, ◌==◌, append-nil,
  append_assoc, length-append,
}
use holomacs.Lisp.{
  Object, cons, nil, is_null, is_cons, Lisp, Condition, wrong_type, listp, Result, done, raise,
  endless, Code, and_then, check_quit, fcdr, fsetcdr, update, polled,
}
use holomacs.Lisp.View.{Ends, Ends-bind, Ends-mono, Quit, poll_then, Spine}
use holomacs.Lisp.Lists.Change.{
  with_cdr, Relinked, Halfway, Writable, Spine-update, fsetcdr-done, put_here, stopped,
}

-- The loop that goes to the last cell.
unfoldable pub last_cell : (rounds : ℕ) → (tem : Object) → Code Object
last_cell zero tem s = endless
last_cell (suc k) tem s =
    and_then (fcdr tem s) (λ next s1.
      and_then (check_quit s1) (λ _. if is_cons next then last_cell k next else done tem))

-- The arguments from `tem` on; an argument that is nil gives its place to the last cell before it.
unfoldable pub nconc_from :
    (rounds : ℕ) → (tem : Object) → (args : List Object) → (val : Object) → Code Object
unfolding last_cell
nconc_from k tem [] val s = done (if is_null val then tem else val) s
nconc_from k tem (next ∷ args) val s =
    if is_null tem
    then nconc_from k next args val s
    else if is_cons tem
    then and_then (last_cell k tem s) (λ tail s1. and_then (fsetcdr tail next s1) (λ _.
      nconc_from k (if is_null next then tail else next) args (if is_null val then tem else val)))
    else raise (wrong_type listp tem) s

unfoldable pub fnconc : (rounds : ℕ) → (args : List Object) → Code Object
unfolding nconc_from
fnconc k [] s = done nil s
fnconc k (tem ∷ args) s = nconc_from k tem args nil s
