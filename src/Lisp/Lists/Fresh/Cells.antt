-- ===== src/Lisp/Lists/Fresh/Cells.antt =====
-- The cells of a new list, and what they hold.
use mathlib.Core.Path.{subst}
use holomacs.Prelude.{
  ℕ, zero, suc, ◌+◌, ◌<◌, ◌≡◌, refl, sym, ap, ◌∙◌, false, List, [], ◌∷◌, map, arith, length, has,
  Distinct,
}
use holomacs.Lisp.{Object, cons, nil, Lisp, done, update, fcons}
use holomacs.Lisp.View.{Spine}
use holomacs.Lisp.Lists.Change.{Spine-update, put_here}
use holomacs.Lisp.Lists.Fresh.{make_cells, fmake_list, fill_cars, flist}

-- So many addresses from `base`, the last one first.
abbrev pub fresh : (base n : ℕ) → List ℕ
fresh base zero = []
fresh base (suc n) = (base + n) ∷ fresh base n

has-fresh : (base n a : ℕ) → base + n < suc a → has a (fresh base n) ≡ false
has-fresh base zero a h = refl
has-fresh base (suc n) a h = ground (arith, h, has-fresh base n a (omega (arith, h)))

old-fresh : (base n a : ℕ) → a < base → has a (fresh base n) ≡ false
old-fresh base zero a h = refl
old-fresh base (suc n) a h = ground (arith, h, old-fresh base n a h)

fresh-Distinct : (base n : ℕ) → Distinct (fresh base n)
fresh-Distinct base zero = tt
fresh-Distinct base (suc n) = (has-fresh base n (base + n) (omega arith), fresh-Distinct base n)

length-fresh : (base n : ℕ) → length (fresh base n) ≡ n
length-fresh base zero = refl
length-fresh base (suc n) = ap suc (length-fresh base n)

abbrev pub with_cells : Lisp → (car cdr : ℕ → Object) → (unused : ℕ) → Lisp
with_cells s f g u = record s { car = f; cdr = g; unused = u }

-- The cells that there were are as they were.
abbrev pub Kept : Lisp → (car cdr : ℕ → Object) → Type 0
Kept s f g = (a : ℕ) → a < s.unused → (f a ≡ s.car a) × (g a ≡ s.cdr a)

make_cells_lem :
    (s : Lisp) (n i t u : ℕ) (init val : Object) (f g : ℕ → Object)
    → n + i ≡ t
    → u ≡ s.unused + i
    → Spine g val (fresh s.unused i)
    → Kept s f g
    → (f' g' : ℕ → Object) × (v : Object) × (make_cells n init val (with_cells s f g u)
        ≡ done v (with_cells s f' g' (s.unused + t)))
      × Spine g' v (fresh s.unused t)
      × Kept s f' g'
unfolding make_cells fcons
make_cells_lem s zero i t u init val f g e at c k = (
  f,
  g,
  val,
  ap (λ j. done val (with_cells s f g j)) (omega (arith, e, at)),
  subst (λ j. Spine g val (fresh s.unused j)) (omega (arith, e)) c,
  k,
)
make_cells_lem s (suc n) i t u init val f g e at c k =
    make_cells_lem s n (suc i) t (u + 1) init (cons u) (update f u init) (update g u val)
      (omega (arith, e)) (omega (arith, at))
      (
        ap cons at,
        subst (λ x. Spine (update g u val) x (fresh s.unused i)) (val_at (s.unused + i) at)
            (Spine-update g u val val (fresh s.unused i)
              (has-fresh s.unused i u (omega (arith, at))) c),
      )
      (λ b h. (ground (arith, h, at, (k b h).0), ground (arith, h, at, (k b h).1)))
  where
    val_at : (j : ℕ) → u ≡ j → val ≡ update g u val j
    val_at j at = ground (arith, at)

cons_filled :
    (s : Lisp) (x : Object) (vs : List Object) (v : Object) (a : ℕ) (f g : ℕ → Object) (u : ℕ)
    → v ≡ cons a
    → fill_cars (x ∷ vs) v (with_cells s f g u)
      ≡ fill_cars vs (g a) (with_cells s (update f a x) g u)
unfolding fill_cars
cons_filled s x vs v a f g u e = rw e refl

fill_cars_lem :
    (s : Lisp) (vs : List Object) (m : List ℕ) (v : Object) (f g : ℕ → Object) (u : ℕ)
    → Spine g v m
    → length m ≡ length vs
    → Distinct m
    → (f' : ℕ → Object) × (fill_cars vs v (with_cells s f g u) ≡ done tt (with_cells s f' g u))
      × (map f' m ≡ vs)
      × ((a : ℕ) → has a m ≡ false → f' a ≡ f a)
unfolding fill_cars
fill_cars_lem s [] [] v f g u c e d = (f, rw c refl, refl, λ a h. refl)
fill_cars_lem s [] (a ∷ m) v f g u c e d = absurd (omega (arith, e))
fill_cars_lem s (x ∷ vs) [] v f g u c e d = absurd (omega (arith, e))
fill_cars_lem s (x ∷ vs) (a ∷ m) v f g u c e d =
    let (f', run, is, same) =
      fill_cars_lem s vs m (g a) (update f a x) g u c.1 (omega (arith, e)) d.1 in
    (
      f',
      cons_filled s x vs v a f g u c.0 ∙ run,
      ap (λ y. y ∷ map f' m) (same a d.0 ∙ sym (put_here f a x)) ∙ ap (λ l. x ∷ l) is,
      λ b h. same b (ground (arith, h)) ∙ ground (arith, h),
    )

-- The value is a list of new cells that hold the values; nothing else changes.
abbrev pub New : Lisp → List Object → Object → Lisp → Type 0
New s vs v s' =
    (f g : ℕ → Object) × (s' ≡ with_cells s f g (s.unused + length vs))
    × Spine g v (fresh s.unused (length vs))
    × (map f (fresh s.unused (length vs)) ≡ vs)
    × Kept s f g

pub flist_lem :
    (vs : List Object) (s : Lisp)
    → (v : Object) × (s' : Lisp) × (flist vs s ≡ done v s') × New s vs v s'
unfolding flist fmake_list
flist_lem vs s =
    let (f, g, v, run, spine, kept) =
      make_cells_lem s (length vs) 0 (length vs) s.unused nil nil s.car s.cdr (omega arith)
        (omega arith) refl (λ a h. (refl, refl)) in
    let (f', filled, is, same) =
      fill_cars_lem s vs (fresh s.unused (length vs)) v f g (s.unused + length vs) spine
        (length-fresh s.unused (length vs)) (fresh-Distinct s.unused (length vs)) in
    (
      v,
      with_cells s f' g (s.unused + length vs),
      rw run (rw filled refl),
      (
        f',
        g,
        refl,
        spine,
        is,
        λ a h. (same a (old-fresh s.unused (length vs) a h) ∙ (kept a h).0, (kept a h).1),
      ),
    )
