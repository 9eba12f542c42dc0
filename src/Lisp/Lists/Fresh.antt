-- ===== src/Lisp/Lists/Fresh.antt =====
-- alloc.c and fns.c: the functions that return a list of new cells.
pub mod Cells
pub mod Reverse
pub mod Mapcar
use holomacs.Prelude.{ℕ, zero, suc, List, [], ◌∷◌, if◌then◌else◌, length, pos, ◌+◌, get_or}
use holomacs.Lisp.{
  Object, int, cons, vector, string, nil, is_null, Lisp, wrong_type, natnump, done, raise, endless,
  Code, and_then, update, fcar, fcdr, fcons,
}
use holomacs.Lisp.Lists.{flength}

-- The loop of Fmake_list.
unfoldable pub make_cells : (size : ℕ) → (init val : Object) → Code Object
unfolding fcons
make_cells zero init val s = done val s
make_cells (suc n) init val s = and_then (fcons init val s) (λ v. make_cells n init v)

unfoldable pub fmake_list : (length init : Object) → Code Object
unfolding make_cells
fmake_list (int (pos n)) init s = make_cells n init nil s
fmake_list length init s = raise (wrong_type natnump length) s

-- The loop of Flist: past the arguments it would read what is no argument.
unfoldable pub fill_cars : (args : List Object) → (val_tail : Object) → Code (Unit {0})
fill_cars [] tail s = if is_null tail then done tt s else endless
fill_cars (v ∷ args) (cons a) s = fill_cars args (s.cdr a) (record s { car = update s.car a v })
fill_cars (v ∷ args) tail s = if is_null tail then done tt s else endless

unfoldable pub flist : (args : List Object) → Code Object
unfolding fmake_list fill_cars
flist args s =
    and_then (fmake_list (int (pos (length args))) nil s)
      (λ val s1. and_then (fill_cars args val s1) (λ _. done val))

-- The loop of Freverse, which fills `vec` from its end.
unfoldable pub fill_backwards :
    (rounds : ℕ) → (tail : Object) → (vec : List Object) → Code (List Object)
unfolding fcar fcdr
fill_backwards zero tail vec s = done vec s
fill_backwards (suc i) tail vec s =
    and_then (fcar tail s)
      (λ v s1. and_then (fcdr tail s1) (λ next. fill_backwards i next (v ∷ vec)))

unfoldable pub freverse : (rounds : ℕ) → (list : Object) → Code Object
unfolding flength fill_backwards flist
freverse k list s =
    and_then (flength k list s)
      (λ length s1. and_then (fill_backwards length list [] s1) (λ vec. flist vec))

module _ (call1 : (fn arg : Object) → Code Object) where
  -- The loop of mapcar1 over a vector or a string: each element is read when it is its turn.
  unfoldable pub map_elements :
      (leni i : ℕ) → (element : ℕ → Lisp → Object) → (fn : Object) → Code (List Object)
  map_elements zero i element fn s = done [] s
  map_elements (suc n) i element fn s =
      and_then (call1 fn (element i s) s)
        (λ v s1. and_then (map_elements n (i + 1) element fn s1) (λ vals. done (v ∷ vals)))

  -- The loop over a list.
  unfoldable pub map_cars : (leni : ℕ) → (fn tail : Object) → Code (List Object)
  unfolding fcar fcdr
  map_cars zero fn tail s = done [] s
  map_cars (suc i) fn tail s = and_then (fcar tail s) (λ x s1. and_then (call1 fn x s1) (λ v s2.
      and_then (fcdr tail s2)
        (λ next s3. and_then (map_cars i fn next s3) (λ vals. done (v ∷ vals)))))

  unfoldable pub mapcar1 : (leni : ℕ) → (fn seq : Object) → Code (List Object)
  unfolding map_elements map_cars
  mapcar1 leni fn (vector a) = map_elements leni 0 (λ i s. get_or (s.items a) i nil) fn
  mapcar1 leni fn (string a) = map_elements leni 0 (λ i s. int (pos (get_or (s.bytes a) i 0))) fn
  mapcar1 leni fn seq = map_cars leni fn seq

  unfoldable pub fmapcar : (rounds : ℕ) → (fn seq : Object) → Code Object
  unfolding flength mapcar1 flist
  fmapcar k fn seq s =
      and_then (flength k seq s) (λ leni s1. and_then (mapcar1 leni fn seq s1) (λ args. flist args))
