-- ===== src/Lisp/Plist.antt =====
-- fns.c: get and put, on the property list of a symbol. A loop has a number of rounds, as the list may
-- be circular.
pub mod RoundTrip
use holomacs.Prelude.{ℕ, zero, suc, Bool, true, false, Option, none, some, if◌then◌else◌}
use holomacs.Lisp.{
  Object, nil, eq, is_null, Lisp, Result, done, raise, endless, Code, and_then, fcar, fcdr, fsetcar,
  fsetcdr, fcons,
}
use holomacs.Lisp.Data.{fsymbol_plist, fsetplist}

unfoldable pub get_loop : (rounds : ℕ) → (prop tail : Object) → Code Object
get_loop zero prop tail s = endless
get_loop (suc k) prop tail s =
    if is_null tail
    then done nil s
    else and_then (fcar tail s) (λ tem s1. and_then (fcdr tail s1) (λ rest s2.
      if eq prop tem then fcar rest s2 else and_then (fcdr rest s2) (λ next. get_loop k prop next)))

unfoldable pub get : (rounds : ℕ) → (sym prop : Object) → Code Object
unfolding get_loop
get k sym prop s = and_then (fsymbol_plist sym s) (λ tail. get_loop k prop tail)

-- A new property behind `prev`, or as the whole list.
unfoldable pub put_new : (sym prop val prev : Object) → Code Object
put_new sym prop val prev s = and_then (fcons val nil s) (λ rest s1.
    and_then (fcons prop rest s1) (λ newcell s2.
      and_then
        (if is_null prev
          then fsetplist sym newcell s2
          else and_then (fcdr prev s2) (λ last. fsetcdr last newcell))
        (λ _. done val)))

unfoldable pub put_loop : (rounds : ℕ) → (sym prop val prev tail : Object) → Code Object
unfolding put_new
put_loop zero sym prop val prev tail s = endless
put_loop (suc k) sym prop val prev tail s =
    if is_null tail
    then put_new sym prop val prev s
    else and_then (fcar tail s) (λ tem s1. and_then (fcdr tail s1) (λ rest s2.
      if eq prop tem
      then fsetcar rest val s2
      else and_then (fcdr rest s2) (λ next. put_loop k sym prop val tail next)))

unfoldable pub put : (rounds : ℕ) → (sym prop val : Object) → Code Object
unfolding put_loop
put k sym prop val s = and_then (fsymbol_plist sym s) (λ tail. put_loop k sym prop val nil tail)
