-- ===== src/Tests/Copies.antt =====
-- Lists of new cells and lists linked together: the theorems applied to a store.
use holomacs.Prelude.{ℕ, ◌≡◌, refl, sym, ap, ◌∙◌, Bool, List, [], ◌∷◌, arith, some, pos}
use holomacs.Lisp.{Object, int, symbol, cons, nil, Code, Result, done, polled, check_quit}
use holomacs.Editor.{typed, later}
use holomacs.Lisp.View.{Ends, Quit}
use holomacs.Lisp.Lists.Fresh.{freverse, fmapcar}
use holomacs.Lisp.Lists.Fresh.Cells.{New}
use holomacs.Lisp.Lists.Fresh.Reverse.{reverse_lem}
use holomacs.Lisp.Lists.Fresh.Mapcar.{InOrder, mapcar_lem}
use holomacs.Lisp.Lists.Change.{Halfway}
use holomacs.Lisp.Lists.Nconc.{fnconc}
use holomacs.Lisp.Lists.Nconc.Step.{Joined}
use holomacs.Lisp.Lists.Nconc.Whole.{nconc_lem}
use holomacs.Lisp.Data.Array.{value_of}
use holomacs.Tests.Lisp.{store, cells}

reverse_lem_example :
    Ends
      (λ v s'.
        (q : Bool) × (p : List Bool) × New
          (polled q p store)
          (int (pos 1) ∷ int (pos 2) ∷ int (pos 1) ∷ [])
          v
          s')
      (Quit store)
      (freverse 4 (cons 10) store)
reverse_lem_example = reverse_lem store 4 (cons 10) cells (refl, (refl, (refl, refl))) (omega arith)

reverse_run : value_of (freverse 4 (cons 10) store) ≡ some (cons 32)
unfolding freverse check_quit typed later
reverse_run = refl

-- A function that notes its argument in a variable of C and returns it.
abbrev note : (fn arg : Object) → Code Object
note fn x s = done x (record s { obj_var = λ a. x })

-- A cell of the store that a result has.
abbrev car_in : ℕ → Result Object → Object
car_in a (done v s) = s.car a
car_in a r = nil

abbrev cdr_in : ℕ → Result Object → Object
cdr_in a (done v s) = s.cdr a
cdr_in a r = nil

mapcar_lem_example :
    InOrder note
      (symbol 5)
      (int (pos 1) ∷ int (pos 2) ∷ int (pos 1) ∷ [])
      store
      (fmapcar note 4 (symbol 5) (cons 10) store)
mapcar_lem_example =
    mapcar_lem note store 4 (symbol 5) (cons 10) cells
      (λ x v s1 s2 same e a h.
        (sym (ap (car_in a) e) ∙ (same a h).0, sym (ap (cdr_in a) e) ∙ (same a h).1))
      (refl, (refl, (refl, refl))) (omega arith)

mapcar_run : value_of (fmapcar note 4 (symbol 5) (cons 10) store) ≡ some (cons 32)
unfolding fmapcar check_quit typed later
mapcar_run = refl

-- The lists in the cells 10, 11 and 12 and in the cell 20, with nil between them.
abbrev linked_cells : List ℕ
linked_cells = 10 ∷ 11 ∷ 12 ∷ 20 ∷ []

nconc_lem_example :
    Ends
      (Joined store.cdr linked_cells store linked_cells)
      (Halfway store.cdr linked_cells store)
      (fnconc 5 (cons 10 ∷ nil ∷ cons 20 ∷ []) store)
nconc_lem_example =
    nconc_lem store 5 (cons 10 ∷ nil ∷ cons 20 ∷ []) (cells ∷ [] ∷ (20 ∷ []) ∷ [])
      ((refl, (refl, (refl, refl))), (refl, ((refl, refl), tt))) (refl, (refl, (refl, (refl, tt))))
      (λ a h. refl) (omega arith)
