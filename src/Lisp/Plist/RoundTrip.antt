-- ===== src/Lisp/Plist/RoundTrip.antt =====
-- get after put.
pub mod New
use mathlib.Core.Path.{subst}
use holomacs.Prelude.{
  ℕ, zero, suc, ◌+◌, ◌-◌, ◌<◌, ◌≤◌, ◌≡◌, refl, sym, ap, ◌∙◌, arith, Bool, true, false, Option, none,
  some, List, [], ◌∷◌, ◌==◌, if◌then◌else◌, length, Bool-cases, inl, inr, ◌⊎◌, has, Distinct,
}
use holomacs.Lisp.{
  Object, cons, symbol, nil, eq, is_null, Lisp, Result, done, raise, endless, Code, and_then,
  update, fcar, fcdr, fsetcar, fsetcdr, fcons,
}
use holomacs.Lisp.View.{eq_self}
use holomacs.Lisp.Plist.{get_loop, get, put_new, put_loop, put}
use holomacs.Lisp.Data.{fsymbol_plist, fsetplist}

-- A property list: the cells of each property and of its value, all of them allocated.
abbrev pub Props : Lisp → Object → List (ℕ × ℕ) → Type 0
Props s x [] = x ≡ nil
Props s x ((a, b) ∷ l) =
    (x ≡ cons a) × (s.cdr a ≡ cons b) × (a < s.unused) × (b < s.unused) × Props s (s.cdr b) l

-- What get finds in a property list.
abbrev pub lookup : Lisp → (prop : Object) → List (ℕ × ℕ) → Object
lookup s prop [] = nil
lookup s prop ((a, b) ∷ l) = if eq prop (s.car a) then s.car b else lookup s prop l

get_loop_lem :
    (s : Lisp) (k : ℕ) (prop x : Object) (l : List (ℕ × ℕ))
    → Props s x l
    → length l < k
    → get_loop k prop x s ≡ done (lookup s prop l) s
unfolding get_loop fcar fcdr
get_loop_lem s zero prop x l c h = absurd (omega (arith, h))
get_loop_lem s (suc k) prop x [] c h = rw c refl
get_loop_lem s (suc k) prop x ((a, b) ∷ l) c h = rw c.0 (
    rw c.1 (elim (Bool-cases (eq prop (s.car a))) [
      | inl e ↦ rw e refl
      | inr e ↦ rw e (get_loop_lem s k prop (s.cdr b) l c.4 (omega (arith, h)))
    ]))

abbrev pub all_cells : List (ℕ × ℕ) → List ℕ
all_cells [] = []
all_cells ((a, b) ∷ l) = a ∷ b ∷ all_cells l

-- The last cell of a property, or what stands before the list.
abbrev pub last_prop : Object → List (ℕ × ℕ) → Object
last_prop prev [] = prev
last_prop prev ((a, b) ∷ l) = last_prop (cons a) l

-- No property of the list is EQ to an object.
abbrev pub Missing : Lisp → (prop : Object) → List (ℕ × ℕ) → Type 0
Missing s prop [] = Unit {0}
Missing s prop ((a, b) ∷ l) = (eq prop (s.car a) ≡ false) × Missing s prop l

abbrev pub with_car : Lisp → ℕ → Object → Lisp
with_car s b v = record s { car = update s.car b v }

-- The loop of put finds the property, and then get does too, or it comes to the end.
abbrev Put : Lisp → (k : ℕ) → (owner prop val prev x : Object) → List (ℕ × ℕ) → Type 0
Put s k owner prop val prev x l =
    ((b : ℕ) × (has b (all_cells l) ≡ true)
      × (put_loop k owner prop val prev x s ≡ done val (with_car s b val))
      × (get_loop k prop x (with_car s b val) ≡ done val (with_car s b val)))
    ⊎ ((put_loop k owner prop val prev x s ≡ put_new owner prop val (last_prop prev l) s)
        × Missing s prop l)

pub apart_from : (a y : ℕ) (l : List ℕ) → has a l ≡ false → has y l ≡ true → (y == a) ≡ false
apart_from a y l h i = elim (Bool-cases (y == a)) [
  | inr n ↦ n
  | inl n ↦ absurd (clash (subst (λ z. has z l ≡ true) (same y a n) i) h)
]
  where
    same : (y a : ℕ) → (y == a) ≡ true → y ≡ a
    same y a n = ground (arith, n)

    clash : {c : Bool} → c ≡ true → c ≡ false → ⊥
    clash e f = ground (arith, e, f)

pub put_loop_lem :
    (s : Lisp) (k : ℕ) (owner prop val prev x : Object) (l : List (ℕ × ℕ))
    → Props s x l
    → Distinct (all_cells l)
    → ((a : ℕ) → has a (all_cells l) ≡ true → s.is_pure a ≡ false)
    → length l < k
    → Put s k owner prop val prev x l
unfolding put_loop get_loop fcar fcdr fsetcar
put_loop_lem s zero owner prop val prev x l c d w h = absurd (omega (arith, h))
put_loop_lem s (suc k) owner prop val prev x [] c d w h = inr (rw c refl, tt)
put_loop_lem s (suc k) owner prop val prev x ((a, b) ∷ l) c d w h =
    elim (Bool-cases (eq prop (s.car a))) [
      | inl e ↦ inl (
        b,
        self_last a b (all_cells l),
        rw c.0 (rw e (rw c.1 (rw (w b (self_last a b (all_cells l))) refl))),
        rw c.0 (rw (apart b (ground (arith, d.0))) (rw e (rw c.1 (rw (self b) refl)))),
      )
      | inr e ↦
          elim (put_loop_lem s k owner prop val (cons a) (s.cdr b) l c.4 d.1.1
            (λ y i. w y (further a b y (all_cells l) i)) (omega (arith, h))) [
              | inl (b', i, p, g) ↦ inl (
                b',
                further a b b' (all_cells l) i,
                rw c.0 (rw e (rw c.1 p)),
                rw c.0 (
                    rw
                      (apart b'
                        (apart_from a b' (b ∷ all_cells l) d.0 (behind b b' (all_cells l) i)))
                      (rw e (rw c.1 g))),
              )
              | inr (p, m) ↦ inr (rw c.0 (rw e (rw c.1 p)), (e, m))
            ]
    ]
  where
    self : (b : ℕ) → (b == b) ≡ true
    self b = ground arith

    self_last : (a b : ℕ) (l : List ℕ) → has b (a ∷ b ∷ l) ≡ true
    self_last a b l = ground arith

    further : (a b y : ℕ) (l : List ℕ) → has y l ≡ true → has y (a ∷ b ∷ l) ≡ true
    further a b y l h = ground (arith, h)

    behind : (b y : ℕ) (l : List ℕ) → has y l ≡ true → has y (b ∷ l) ≡ true
    behind b y l h = ground (arith, h)

    apart : (b' : ℕ) → (b' == a) ≡ false → update s.car b' val a ≡ s.car a
    apart b' n = rw n refl
