-- ===== src/Lisp/Sort.antt =====
-- fns.c: sort and merge. `call2`, which calls the Lisp function that compares, is a parameter.
pub mod Order
pub mod Merge
pub mod Halves
pub mod Cut
pub mod Whole
pub mod Stable
use holomacs.Prelude.{
  ℕ, zero, suc, ◌-◌, ◌/◌, Bool, true, false, ltb, if◌then◌else◌, ℤ, pos, negsuc, List, [], ◌∷◌,
}
use holomacs.Lisp.{
  Object, int, nil, is_null, Lisp, Result, done, raise, endless, Code, and_then, fcar, fcdr,
  fsetcdr,
}
use holomacs.Lisp.Data.{to_int}
use holomacs.Lisp.Lists.{flength, nthcdr, cells_to_skip}

-- `if (NULL (tail)) value = tem; else Fsetcdr (tail, tem);` with the value that it gives.
unfoldable pub link : (tail value tem : Object) → Code Object
link tail value tem s =
    if is_null tail then done tem s else and_then (fsetcdr tail tem s) (λ _ s1. done value s1)

module _ (call2 : (fn arg1 arg2 : Object) → Code Object) where
  -- The loop of merge: `tail` is the last cell of the list that starts at `value`, or nil.
  unfoldable pub merge_loop : (rounds : ℕ) → (l1 l2 pred tail value : Object) → Code Object
  merge_loop zero l1 l2 pred tail value s = endless
  merge_loop (suc k) l1 l2 pred tail value s =
      if is_null l1
      then link tail value l2 s
      else if is_null l2
      then link tail value l1 s
      else and_then (fcar l2 s) (λ x2 s1. and_then (fcar l1 s1) (λ x1 s2.
        and_then (call2 pred x2 x1 s2) (λ tem s3.
          if is_null tem
          then and_then (fcdr l1 s3) (λ next s4.
            and_then (link tail value l1 s4) (λ first. merge_loop k next l2 pred l1 first))
          else and_then (fcdr l2 s3) (λ next s4.
            and_then (link tail value l2 s4) (λ first. merge_loop k l1 next pred l2 first)))))

  unfoldable pub merge : (rounds : ℕ) → (org_l1 org_l2 pred : Object) → Code Object
  unfolding merge_loop
  merge k l1 l2 pred = merge_loop k l1 l2 pred nil nil

  -- Fsort: the rounds bound the loops and the depth of the calls.
  unfoldable pub fsort : (rounds : ℕ) → (list pred : Object) → Code Object
  unfolding merge
  fsort zero list pred s = endless
  fsort (suc k) list pred s = and_then (flength (suc k) list s) (λ len s1.
      let length = cells_to_skip (to_int (pos len)) in
      if ltb length 2
      then done list s1
      else and_then (nthcdr (int (pos (length / 2 - 1))) list s1) (λ tem s2.
        and_then (fcdr tem s2) (λ back s3. and_then (fsetcdr tem nil s3) (λ _ s4.
          and_then (fsort k list pred s4) (λ front s5.
            and_then (fsort k back pred s5) (λ rest. merge (suc k) front rest pred))))))
