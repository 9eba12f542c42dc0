-- ===== src/Lisp/View.antt =====
-- How code on the Lisp store ends, and the lists that cons cells make.
use mathlib.Core.Path.{subst}
use holomacs.Prelude.{
  ℕ, ◌≡◌, refl, sym, ap, Bool, true, false, not, ◌&&◌, ◌||◌, List, [], ◌∷◌, arith, Bool-cases, inl,
  inr, ℤ, pos, negsuc,
}
use holomacs.Editor.{typed, later}
use holomacs.Lisp.{
  Object, int, symbol, string, vector, cons, marker, buffer, subr, void, intfwd, boolfwd, objfwd,
  buffer_objfwd, buffer_local_value, some_buffer_local_value, nil, eq, same_int, Lisp, Condition,
  quit, Result, done, raise, endless, Code, and_then, polled, check_quit,
}

-- The code returns and P holds, or it signals and Q holds; it is not endless.
abbrev pub Ends :
    {A : Type 0} → (A → Lisp → Type 0) → (Condition → Lisp → Type 0) → Result A → Type 0
Ends P Q (done a s) = P a s
Ends P Q (raise c s) = Q c s
Ends P Q endless = ⊥

pub Ends-bind :
    {A B : Type 0} (R : A → Lisp → Type 0) (P : B → Lisp → Type 0) (Q : Condition → Lisp → Type 0)
    (r : Result A) (k : A → Code B)
    → Ends R Q r
    → ((a : A) (s : Lisp) → R a s → Ends P Q (k a s))
    → Ends P Q (and_then r k)
Ends-bind R P Q (done a s) k h next = next a s h
Ends-bind R P Q (raise c s) k h next = h
Ends-bind R P Q endless k h next = h

pub Ends-mono :
    {A : Type 0} (P P' : A → Lisp → Type 0) (Q Q' : Condition → Lisp → Type 0) (r : Result A)
    → Ends P Q r
    → ((a : A) (s : Lisp) → P a s → P' a s)
    → ((c : Condition) (s : Lisp) → Q c s → Q' c s)
    → Ends P' Q' r
Ends-mono P P' Q Q' (done a s) h f g = f a s h
Ends-mono P P' Q Q' (raise c s) h f g = g c s h
Ends-mono P P' Q Q' endless h f g = h

-- A store that differs in nothing but polls.
abbrev pub Polled : Lisp → Lisp → Type 0
Polled s s' = (q : Bool) × (a : List Bool) × (s' ≡ polled q a s)

-- A quit came, and nothing else happened.
abbrev pub Quit : Lisp → Condition → Lisp → Type 0
Quit s c s' = (c ≡ quit) × Polled s s' × (s.inhibit_quit ≡ false)

pub check_quit-Ends : (s : Lisp) → Ends (λ _ s'. Polled s s') (Quit s) (check_quit s)
unfolding check_quit
check_quit-Ends s = elim (Bool-cases ((s.quit_flag || typed s.arrivals) && not s.inhibit_quit)) [
  | inl h ↦ rw h (refl, (false, later s.arrivals, refl), ground arith)
  | inr h ↦ rw h (s.quit_flag || typed s.arrivals, later s.arrivals, refl)
]

-- Code after a poll.
pub poll_then :
    {B : Type 0} (P : B → Lisp → Type 0) (Q : Condition → Lisp → Type 0) (s : Lisp) (k : Code B)
    → ((q : Bool) (p : List Bool) → Ends P Q (k (polled q p s)))
    → ((c : Condition) (s' : Lisp) → Quit s c s' → Q c s')
    → Ends P Q (and_then (check_quit s) (λ _. k))
poll_then P Q s k go stop =
    Ends-bind (λ _ s'. Polled s s') P Q (check_quit s) (λ _. k)
      (Ends-mono (λ _ s'. Polled s s') (λ _ s'. Polled s s') (Quit s) Q (check_quit s)
        (check_quit-Ends s) (λ _ s' h. h) stop)
      (λ _ s' (q, p, e). subst (λ x. Ends P Q (k x)) (sym e) (go q p))

-- The cells of a list that ends in nil.
abbrev pub Spine : (ℕ → Object) → Object → List ℕ → Type 0
Spine cdr x [] = x ≡ nil
Spine cdr x (a ∷ l) = (x ≡ cons a) × Spine cdr (cdr a) l

pub eq_self : (x : Object) → eq x x ≡ true
eq_self (int (pos n)) = ground arith
eq_self (int (negsuc n)) = ground arith
eq_self (symbol a) = ground arith
eq_self (string a) = ground arith
eq_self (vector a) = ground arith
eq_self (cons a) = ground arith
eq_self (marker a) = ground arith
eq_self (buffer a) = ground arith
eq_self (subr a) = ground arith
eq_self (void a) = ground arith
eq_self (intfwd a) = ground arith
eq_self (boolfwd a) = ground arith
eq_self (objfwd a) = ground arith
eq_self (buffer_objfwd a) = ground arith
eq_self (buffer_local_value a) = ground arith
eq_self (some_buffer_local_value a) = ground arith

pub same_int-eq : (m n : ℤ) → same_int m n ≡ true → m ≡ n
same_int-eq (pos m) (pos n) h = ground arith
same_int-eq (negsuc m) (negsuc n) h = ground arith
same_int-eq m n h = ground arith

-- Objects that are EQ are the same.
pub eq-path : (x y : Object) → eq x y ≡ true → x ≡ y
eq-path (int m) (int n) h = ap int (same_int-eq m n h)
eq-path (symbol a) (symbol b) h = ground arith
eq-path (string a) (string b) h = ground arith
eq-path (vector a) (vector b) h = ground arith
eq-path (cons a) (cons b) h = ground arith
eq-path (marker a) (marker b) h = ground arith
eq-path (buffer a) (buffer b) h = ground arith
eq-path (subr a) (subr b) h = ground arith
eq-path (void a) (void b) h = ground arith
eq-path (intfwd a) (intfwd b) h = ground arith
eq-path (boolfwd a) (boolfwd b) h = ground arith
eq-path (objfwd a) (objfwd b) h = ground arith
eq-path (buffer_objfwd a) (buffer_objfwd b) h = ground arith
eq-path (buffer_local_value a) (buffer_local_value b) h = ground arith
eq-path (some_buffer_local_value a) (some_buffer_local_value b) h = ground arith
eq-path x y h = ground arith
