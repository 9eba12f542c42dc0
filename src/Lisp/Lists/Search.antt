-- ===== src/Lisp/Lists/Search.antt =====
-- The functions that look something up in a list, against a search of its cells.
use mathlib.Core.Path.{subst}
use holomacs.Prelude.{
  ℕ, zero, suc, ◌+◌, ◌<◌, ◌≡◌, refl, sym, ap, ◌∙◌, inl, inr, Bool, Option, none, some, List, [],
  ◌∷◌, arith, if◌then◌else◌, Bool-cases, ℤ, length,
}
use holomacs.Lisp.{
  Object, int, cons, nil, eq, is_cons, Lisp, Result, done, raise, endless, Code, and_then,
  check_quit, fcar, fcdr, polled,
}
use holomacs.Lisp.View.{Ends, Ends-bind, Ends-mono, Polled, Quit, check_quit-Ends, poll_then, Spine}
use holomacs.Lisp.Lists.{
  each, memq, assq, rassq, found_if, flength, count_cells, nthcdr, skip_cells, cells_to_skip, nth,
}
use holomacs.Lisp.Data.{to_int}

-- The first cell of a list for which there is a value.
abbrev pub first_found : (ℕ → Option Object) → List ℕ → Object
first_found f [] = nil
first_found f (a ∷ l) = elim (f a) [ none ↦ first_found f l | some v ↦ v ]

abbrev Looks : Lisp → (ℕ → Option Object) → (Object → Code (Option Object)) → Type 0
Looks s f body =
    (a : ℕ) (q : Bool) (p : List Bool)
    → Ends (λ r s'. Polled s s' × (r ≡ f a)) (Quit s) (body (cons a) (polled q p s))

-- What each does with what a body gives.
abbrev resume : Option Object → Object → (Object → Code Object) → Code Object
resume found tail go s1 = elim found [
  | none ↦ and_then (fcdr tail s1) (λ next. go next)
  | some v ↦ done v s1
]

abbrev pub Found : Lisp → (ℕ → Option Object) → List ℕ → Object → Lisp → Type 0
Found s f l v s' = Polled s s' × (v ≡ first_found f l)

resume-Found :
    (s : Lisp) (f : ℕ → Option Object) (a : ℕ) (l : List ℕ) (go : Object → Code Object) (q : Bool)
    (p : List Bool) (r : Option Object)
    → Ends (Found s f l) (Quit s) (go (s.cdr a) (polled q p s))
    → r ≡ f a
    → Ends (Found s f (a ∷ l)) (Quit s) (resume r (cons a) go (polled q p s))
unfolding fcdr
resume-Found s f a l go q p (some v) rest e =
    ((q, p, refl), ap (λ o. elim o [ none ↦ first_found f l | some x ↦ x ]) e)
resume-Found s f a l go q p none rest e =
    Ends-mono (Found s f l) (Found s f (a ∷ l)) (Quit s) (Quit s) (go (s.cdr a) (polled q p s)) rest
      (λ v s' (same, is). (same, is ∙ ap (λ o. elim o [ none ↦ first_found f l | some x ↦ x ]) e))
      (λ c s' h. h)

each_lem :
    (s : Lisp) (f : ℕ → Option Object) (body : Object → Code (Option Object))
    → Looks s f body
    → (k : ℕ) (tail : Object) (l : List ℕ) (q : Bool) (p : List Bool) → Spine s.cdr tail l
    → length l < k
    → Ends (Found s f l) (Quit s) (each k body tail (polled q p s))
unfolding each
each_lem s f body looks zero tail l q p c h = absurd (omega arith)
each_lem s f body looks (suc k) tail [] q p c h = rw c ((q, p, refl), refl)
each_lem s f body looks (suc k) tail (a ∷ l) q p c h =
    subst (λ x. Ends (Found s f (a ∷ l)) (Quit s) (each (suc k) body x (polled q p s))) (sym c.0)
      (Ends-bind (λ r s'. Polled s s' × (r ≡ f a)) (Found s f (a ∷ l)) (Quit s)
        (body (cons a) (polled q p s)) _ (looks a q p)
        λ r s1 (same, found).
          subst (λ x. Ends (Found s f (a ∷ l)) (Quit s) (resume r (cons a) (each k body) x))
            (sym same.2)
            (resume-Found s f a l (each k body) same.0 same.1 r
              (each_lem s f body looks k (s.cdr a) l same.0 same.1 c.1 (omega (arith, h))) found))

-- `found_if` after a look at an object.
found_if-Ends :
    (s : Lisp) (x tem value : Object) (q : Bool) (p : List Bool)
    → Ends
        (λ r s'. Polled s s' × (r ≡ (if eq x tem then some value else none)))
        (Quit s)
        (found_if x tem value (polled q p s))
found_if-Ends s x tem value q p = elim (Bool-cases (eq x tem)) [
  | inl h ↦ rw h ((q, p, refl), refl)
  | inr h ↦ rw h (
      Ends-bind (λ _ s'. Polled s s') (λ r s'. Polled s s' × (r ≡ none)) (Quit s)
        (check_quit (polled q p s)) _ (check_quit-Ends (polled q p s)) (λ _ s' same. (same, refl)))
]

-- On a list that ends, memq in more rounds than the list has cells gives the first tail whose car is
-- EQ to the element, or nil, or a quit comes; nothing changes but polls.
memq_lem :
    (s : Lisp) (k : ℕ) (elt list : Object) (l : List ℕ)
    → Spine s.cdr list l
    → length l < k
    → Ends
        (Found s (λ a. if eq elt (s.car a) then some (cons a) else none) l)
        (Quit s)
        (memq k elt list s)
unfolding memq fcar
memq_lem s k elt list l c h =
    each_lem s (λ a. if eq elt (s.car a) then some (cons a) else none) _
      (λ a q p. found_if-Ends s elt (s.car a) (cons a) q p) k list l s.quit_flag s.arrivals c h

-- The elements that assq and rassq look for.
abbrev pub assq_entry : Lisp → (key elt : Object) → Option Object
assq_entry s key (cons b) = if eq key (s.car b) then some (cons b) else none
assq_entry s key elt = none

abbrev pub rassq_entry : Lisp → (key elt : Object) → Option Object
rassq_entry s key (cons b) = if eq key (s.cdr b) then some (cons b) else none
rassq_entry s key elt = none

assq_body :
    (s : Lisp) (key elt : Object) (q : Bool) (p : List Bool)
    → Ends
        (λ r s'. Polled s s' × (r ≡ assq_entry s key elt))
        (Quit s)
        (if is_cons elt
          then and_then (fcar elt (polled q p s)) (λ tem. found_if key tem elt)
          else done none (polled q p s))
unfolding fcar
assq_body s key (cons b) q p = found_if-Ends s key (s.car b) (cons b) q p
assq_body s key elt q p = ((q, p, refl), refl)

rassq_body :
    (s : Lisp) (key elt : Object) (q : Bool) (p : List Bool)
    → Ends
        (λ r s'. Polled s s' × (r ≡ rassq_entry s key elt))
        (Quit s)
        (if is_cons elt
          then and_then (fcdr elt (polled q p s)) (λ tem. found_if key tem elt)
          else done none (polled q p s))
unfolding fcdr
rassq_body s key (cons b) q p = found_if-Ends s key (s.cdr b) (cons b) q p
rassq_body s key elt q p = ((q, p, refl), refl)

-- On a list that ends, assq in more rounds than the list has cells gives the first element that is a
-- cons cell with the key as its car, or nil, whatever the other elements are, or a quit comes; nothing
-- changes but polls.
pub assq_lem :
    (s : Lisp) (k : ℕ) (key list : Object) (l : List ℕ)
    → Spine s.cdr list l
    → length l < k
    → Ends (Found s (λ a. assq_entry s key (s.car a)) l) (Quit s) (assq k key list s)
unfolding assq fcar
assq_lem s k key list l c h =
    each_lem s (λ a. assq_entry s key (s.car a)) _ (λ a q p. assq_body s key (s.car a) q p) k list l
      s.quit_flag s.arrivals c h

-- The same of rassq, with the cdr of the element.
rassq_lem :
    (s : Lisp) (k : ℕ) (key list : Object) (l : List ℕ)
    → Spine s.cdr list l
    → length l < k
    → Ends (Found s (λ a. rassq_entry s key (s.car a)) l) (Quit s) (rassq k key list s)
unfolding rassq fcar
rassq_lem s k key list l c h =
    each_lem s (λ a. rassq_entry s key (s.car a)) _ (λ a q p. rassq_body s key (s.car a) q p) k list
      l s.quit_flag s.arrivals c h

count_cells_lem :
    (s : Lisp) (k i : ℕ) (tail : Object) (l : List ℕ) (q : Bool) (p : List Bool)
    → Spine s.cdr tail l
    → length l < k
    → Ends (λ n s'. Polled s s' × (n ≡ i + length l)) (Quit s) (count_cells k i tail (polled q p s))
unfolding count_cells fcdr
count_cells_lem s zero i tail l q p c h = absurd (omega arith)
count_cells_lem s (suc k) i tail [] q p c h = rw c ((q, p, refl), omega arith)
count_cells_lem s (suc k) i tail (a ∷ l) q p c h =
    subst
      (λ x.
        Ends (λ n s'. Polled s s' × (n ≡ i + suc (length l))) (Quit s)
          (count_cells (suc k) i x (polled q p s)))
      (sym c.0)
      (poll_then (λ n s'. Polled s s' × (n ≡ i + suc (length l))) (Quit s) (polled q p s)
        (λ s1. and_then (fcdr (cons a) s1) (λ next. count_cells k (i + 1) next))
        (λ q1 p1.
          Ends-mono (λ n s'. Polled s s' × (n ≡ i + 1 + length l))
            (λ n s'. Polled s s' × (n ≡ i + suc (length l))) (Quit s) (Quit s)
            (count_cells k (i + 1) (s.cdr a) (polled q1 p1 s))
            (count_cells_lem s k (i + 1) (s.cdr a) l q1 p1 c.1 (omega (arith, h)))
            (λ n s' (t, e). (t, omega (arith, e))) (λ c s' t. t))
        (λ c s' t. t))

-- On a list that ends and is not empty, length in more rounds than the list has cells gives the number
-- of the cells, or a quit comes; nothing changes but polls.
pub flength_lem :
    (s : Lisp) (k a : ℕ) (l : List ℕ)
    → Spine s.cdr (cons a) l
    → length l < k
    → Ends (λ n s'. Polled s s' × (n ≡ length l)) (Quit s) (flength k (cons a) s)
unfolding flength
flength_lem s k a l c h =
    Ends-mono (λ n s'. Polled s s' × (n ≡ 0 + length l)) (λ n s'. Polled s s' × (n ≡ length l))
      (Quit s) (Quit s) (count_cells k 0 (cons a) s)
      (count_cells_lem s k 0 (cons a) l s.quit_flag s.arrivals c h)
      (λ n s' (t, e). (t, omega (arith, e))) (λ c s' t. t)

-- The car of a numbered cell, nil where the list is shorter.
abbrev pub nth_car : (ℕ → Object) → List ℕ → ℕ → Object
nth_car car [] n = nil
nth_car car (a ∷ l) zero = car a
nth_car car (a ∷ l) (suc n) = nth_car car l n

pub and_then_assoc :
    {A B C : Type 0} (r : Result A) (f : A → Code B) (g : B → Code C)
    → and_then (and_then r f) g ≡ and_then r (λ a s. and_then (f a s) g)
and_then_assoc (done a s) f g = refl
and_then_assoc (raise c s) f g = refl
and_then_assoc endless f g = refl

nth_from :
    (s : Lisp) (n : ℕ) (list : Object) (l : List ℕ) (q : Bool) (p : List Bool)
    → Spine s.cdr list l
    → Ends
        (λ v s'. Polled s s' × (v ≡ nth_car s.car l n))
        (Quit s)
        (and_then (skip_cells n list (polled q p s)) fcar)
unfolding skip_cells fcdr fcar
nth_from s zero list [] q p c = rw c ((q, p, refl), refl)
nth_from s zero list (a ∷ l) q p c = rw c.0 ((q, p, refl), refl)
nth_from s (suc n) list [] q p c = rw c ((q, p, refl), refl)
nth_from s (suc n) list (a ∷ l) q p c =
    subst
      (λ x.
        Ends (λ v s'. Polled s s' × (v ≡ nth_car s.car l n)) (Quit s)
          (and_then (skip_cells (suc n) x (polled q p s)) fcar))
      (sym c.0)
      (subst (λ r. Ends (λ v s'. Polled s s' × (v ≡ nth_car s.car l n)) (Quit s) r)
        (sym (and_then_assoc (check_quit (polled q p s)) (λ _ s1. skip_cells n (s1.cdr a) s1) fcar))
        (poll_then (λ v s'. Polled s s' × (v ≡ nth_car s.car l n)) (Quit s) (polled q p s)
          (λ s1. and_then (skip_cells n (s1.cdr a) s1) fcar)
          (λ q1 p1. nth_from s n (s.cdr a) l q1 p1 c.1) (λ c s' t. t)))

-- On a list that ends, nth gives the car of the numbered cell, nil behind the end and the first car for
-- a negative number, or a quit comes; nothing changes but polls. The number is what an int holds of it.
nth_lem :
    (s : Lisp) (n : ℤ) (list : Object) (l : List ℕ)
    → Spine s.cdr list l
    → Ends
        (λ v s'. Polled s s' × (v ≡ nth_car s.car l (cells_to_skip (to_int n))))
        (Quit s)
        (nth (int n) list s)
unfolding nth nthcdr
nth_lem s n list l c = nth_from s (cells_to_skip (to_int n)) list l s.quit_flag s.arrivals c
