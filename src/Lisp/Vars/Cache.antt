-- ===== src/Lisp/Vars/Cache.antt =====
-- Variables with values of their own in some buffers: the value that each buffer sees, whichever buffer
-- the cells of the variable are set up for.
use holomacs.Prelude.{
  ℕ, zero, suc, ◌<◌, ◌≡◌, refl, ◌⊎◌, inl, inr, Bool, true, false, not, ◌&&◌, List, [], ◌∷◌, arith,
  if◌then◌else◌, Bool-cases, length, has, Distinct, none, some,
}
use holomacs.Lisp.{
  Object, symbol, cons, buffer, void, intfwd, boolfwd, objfwd, buffer_objfwd,
  some_buffer_local_value, qunbound, eq, is_null, is_cons, Lisp, Result, done, and_then, fcar, fcdr,
}
use holomacs.Lisp.View.{Spine}
use holomacs.Lisp.Data.{pointer}
use holomacs.Lisp.Lists.{assq_no_quit}
use holomacs.Lisp.Lists.Search.{first_found, assq_entry}
use holomacs.Lisp.Vars.{is_local}

-- A value that stands for itself.
abbrev pub is_plain : Object → Bool
is_plain (void a) = false
is_plain (intfwd a) = false
is_plain (boolfwd a) = false
is_plain (objfwd a) = false
is_plain (buffer_objfwd a) = false
is_plain x = not (is_local x) && not (eq x qunbound)

-- The element of an alist for a symbol, or nil.
abbrev pub element_of : Lisp → ℕ → List ℕ → Object
element_of s a l = first_found (λ x. assq_entry s (symbol a) (s.car x)) l

-- The cell whose cdr is a buffer's value while the cells are set up for another buffer.
abbrev pub slot : Lisp → (a d : ℕ) → List ℕ → ℕ
slot s a d l = pointer (if is_null (element_of s a l) then cons d else element_of s a l)

-- What a buffer with the given alist sees.
abbrev pub view : Lisp → (a c b d : ℕ) → (ℕ → List ℕ) → ℕ → Object
view s a c b d alist x = if eq (s.car b) (buffer x) then s.car c else s.cdr (slot s a d (alist x))

-- The symbol `a` has the cells `c`, `b` and `d` of REALVALUE, BUFFER and DEFAULT-VALUE with `e` as
-- CURRENT-ALIST-ELEMENT, and all buffers have alists in cells of their own.
pub record Consistent (s : Lisp) (a c b d e : ℕ) (alist : ℕ → List ℕ) : Type 0 where
  pub contents : s.value a ≡ some_buffer_local_value c
  pub tail : s.cdr c ≡ cons b
  pub rest : s.cdr b ≡ cons d
  pub element : s.car d ≡ cons e
  pub spines : (x : ℕ) → Spine s.cdr (s.buffers.local_var_alist x) (alist x)
  pub apart : (x z : ℕ) → has z (alist x) ≡ true → has z (c ∷ b ∷ d ∷ e ∷ []) ≡ false
  pub keys :
      (x z y : ℕ) → has z (alist x) ≡ true → s.car z ≡ cons y → has y (c ∷ b ∷ d ∷ []) ≡ false
  pub slots : (x : ℕ) → has (slot s a d (alist x)) (c ∷ b ∷ []) ≡ false
  pub elements : (x y : ℕ) → has (slot s a d (alist x)) (alist y) ≡ false
  pub own :
      (x y : ℕ) → slot s a d (alist x) ≡ slot s a d (alist y) → (x ≡ y) ⊎ (slot s a d (alist x) ≡ d)
  pub distinct : Distinct (c ∷ b ∷ d ∷ [])
  pub other : has e (c ∷ b ∷ []) ≡ false
  pub writable : (s.is_pure e ≡ false) × ((x : ℕ) → s.is_pure (slot s a d (alist x)) ≡ false)
  pub cached : (x : ℕ) → eq (s.car b) (buffer x) ≡ true → slot s a d (alist x) ≡ e
  pub uncached :
      (x : ℕ) → slot s a d (alist x) ≡ e → (eq (s.car b) (buffer x) ≡ true) ⊎ (s.cdr e ≡ s.car c)

look_at :
    (s : Lisp) (key elt o : Object) (next : Result Object)
    → next ≡ done o s
    → (if is_cons elt
        then and_then (fcar elt s) (λ tem s2. if eq key tem then done elt s2 else next)
        else next)
      ≡ done (elim (assq_entry s key elt) [ none ↦ o | some v ↦ v ]) s
unfolding fcar
look_at s key (cons b) o next h = elim (Bool-cases (eq key (s.car b))) [
  | inl i ↦ rw i refl
  | inr i ↦ rw i h
]
look_at s key elt o next h = h

-- assq_no_quit gives the first element with the key.
pub assq_no_quit_lem :
    (s : Lisp) (key : Object) (k : ℕ) (x : Object) (l : List ℕ)
    → Spine s.cdr x l
    → length l < k
    → assq_no_quit k key x s ≡ done (first_found (λ z. assq_entry s key (s.car z)) l) s
unfolding assq_no_quit fcar fcdr
assq_no_quit_lem s key zero x l c h = absurd (omega arith)
assq_no_quit_lem s key (suc k) x [] c h = rw c refl
assq_no_quit_lem s key (suc k) x (a ∷ l) c h = rw c.0 (
    look_at s key (s.car a) (first_found (λ z. assq_entry s key (s.car z)) l)
      (assq_no_quit k key (s.cdr a) s) (assq_no_quit_lem s key k (s.cdr a) l c.1 (omega arith)))
