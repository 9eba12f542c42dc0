-- ===== src/Lisp/Data/Array.antt =====
-- aset, then aref.
use mathlib.Core.Path.{subst}
use holomacs.Prelude.{
  ℕ, zero, suc, ◌≡◌, refl, sym, ap, ◌∙◌, arith, Bool, true, false, ◌&&◌, Option, none, some, List,
  [], ◌∷◌, ltb, ◌==◌, if◌then◌else◌, ℤ, pos, negsuc, length, get_or, Bool-cases, inl, inr,
}
use holomacs.Lisp.{
  Condition, out_of_range, Object, int, string, vector, nil, same_int, eq, Lisp, Result, done,
  raise, and_then, update,
}
use holomacs.Lisp.View.{Ends, Ends-bind, Ends-mono}
use holomacs.Lisp.Data.{to_int, faref, faset, store_at, low_byte, index_of, aref_at, aset_at}

-- What code returns, if it does.
abbrev pub value_of : {A : Type 0} → Result A → Option A
value_of (done a s) = some a
value_of r = none

-- An element by an index with a sign.
abbrev pub entry : {A : Type 0} → List A → A → ℤ → Option A
entry l d (pos i) = if ltb i (length l) then some (get_or l i d) else none
entry l d (negsuc i) = none

length-store_at : {A : Type 0} (l : List A) (i : ℕ) (v : A) → length (store_at l i v) ≡ length l
length-store_at [] i v = refl
length-store_at (x ∷ l) zero v = refl
length-store_at (x ∷ l) (suc i) v = ap suc (length-store_at l i v)

put_there :
    {A : Type 0} (l : List A) (i : ℕ) (v d : A)
    → ltb i (length l) ≡ true
    → get_or (store_at l i v) i d ≡ v
put_there [] i v d h = absurd (ground arith)
put_there (x ∷ l) zero v d h = refl
put_there (x ∷ l) (suc i) v d h = put_there l i v d (ground arith)

put_elsewhere :
    {A : Type 0} (l : List A) (i j : ℕ) (v d : A)
    → (j == i) ≡ false
    → get_or (store_at l i v) j d ≡ get_or l j d
put_elsewhere [] i j v d h = refl
put_elsewhere (x ∷ l) zero zero v d h = absurd (ground arith)
put_elsewhere (x ∷ l) zero (suc j) v d h = refl
put_elsewhere (x ∷ l) (suc i) zero v d h = refl
put_elsewhere (x ∷ l) (suc i) (suc j) v d h = put_elsewhere l i j v d (ground arith)

entry-put_there :
    {A : Type 0} (l : List A) (i : ℕ) (v d : A)
    → ltb i (length l) ≡ true
    → entry (store_at l i v) d (pos i) ≡ some v
entry-put_there l i v d h = rw (length-store_at l i v) (rw h (ap some (put_there l i v d h)))

entry-put_elsewhere :
    {A : Type 0} (l : List A) (i : ℕ) (z : ℤ) (v d : A)
    → same_int z (pos i) ≡ false
    → entry (store_at l i v) d z ≡ entry l d z
entry-put_elsewhere l i (pos j) v d h =
    rw (length-store_at l i v)
      (ap (λ x. if ltb j (length l) then some x else none) (put_elsewhere l i j v d h))
entry-put_elsewhere l i (negsuc j) v d h = refl

abbrev of_byte : Option ℕ → Option Object
of_byte none = none
of_byte (some b) = some (int (pos b))

-- The elements of all arrays.
abbrev pub element : Lisp → Object → ℤ → Option Object
element s (vector a) z = entry (s.items a) nil z
element s (string a) z = of_byte (entry (s.bytes a) 0 z)
element s x z = none

-- What a string keeps of a value, and a vector.
abbrev pub kept : Object → Object → Object
kept (string a) v = int (pos (low_byte v))
kept x v = v

-- aref reads the element that the index has as an int.
faref-element :
    (s : Lisp) (x : Object) (n : ℤ) → value_of (faref x (int n) s) ≡ element s x (to_int n)
unfolding faref
faref-element s x n = go x (to_int n)
  where
    item :
        (a i : ℕ) (c : Condition) (b : Bool)
        → value_of (and_then (if b then done i s else raise c s) (aref_at (vector a)))
          ≡ (if b then some (get_or (s.items a) i nil) else none)
    item a i c true = refl
    item a i c false = refl

    byte :
        (a i : ℕ) (c : Condition) (b : Bool)
        → value_of (and_then (if b then done i s else raise c s) (aref_at (string a)))
          ≡ of_byte (if b then some (get_or (s.bytes a) i 0) else none)
    byte a i c true = refl
    byte a i c false = refl

    go :
        (x : Object) (z : ℤ)
        → value_of (and_then (index_of x (int n) z s) (aref_at x)) ≡ element s x z
    go (vector a) (pos i) = item a i (out_of_range (vector a) (int n)) (ltb i (length (s.items a)))
    go (string a) (pos i) = byte a i (out_of_range (string a) (int n)) (ltb i (length (s.bytes a)))
    go (vector a) (negsuc i) = refl
    go (string a) (negsuc i) = refl
    go x z = refl

-- Element z of x is `v`, and all other elements are as they were.
abbrev Stored : Lisp → Object → ℤ → Object → Lisp → Type 0
Stored s x z v s' =
    (element s' x z ≡ some v)
    × ((y : Object) (j : ℤ) → (eq y x && same_int j z) ≡ false → element s' y j ≡ element s y j)

-- The index of an access is in the array, or there is a signal; nothing changes.
IsIndex : Lisp → Object → ℤ → ℕ → Lisp → Type 0
IsIndex s (vector a) z i s' = (s' ≡ s) × (z ≡ pos i) × (ltb i (length (s.items a)) ≡ true)
IsIndex s (string a) z i s' = (s' ≡ s) × (z ≡ pos i) × (ltb i (length (s.bytes a)) ≡ true)
IsIndex s x z i s' = ⊥

index_of-Ends :
    (s : Lisp) (x idx : Object) (z : ℤ)
    → Ends (IsIndex s x z) (λ c s'. (s' ≡ s) × (element s x z ≡ none)) (index_of x idx z s)
unfolding IsIndex
index_of-Ends s (vector a) idx (pos i) = elim (Bool-cases (ltb i (length (s.items a)))) [
  | inl h ↦ rw h (refl, refl, h)
  | inr h ↦ rw h (refl, refl)
]
index_of-Ends s (string a) idx (pos i) = elim (Bool-cases (ltb i (length (s.bytes a)))) [
  | inl h ↦ rw h (refl, refl, h)
  | inr h ↦ rw h (refl, refl)
]
index_of-Ends s (vector a) idx (negsuc i) = (refl, refl)
index_of-Ends s (string a) idx (negsuc i) = (refl, refl)
index_of-Ends s x idx z = (refl, refl)

-- One of several lists after a change of an element.
entry_here :
    {A : Type 0} (f : ℕ → List A) (a i : ℕ) (v d : A)
    → ltb i (length (f a)) ≡ true
    → entry (update f a (store_at (f a) i v) a) d (pos i) ≡ some v
entry_here f a i v d h =
    subst (λ l. entry l d (pos i) ≡ some v) (sym (same a (store_at (f a) i v)))
      (entry-put_there (f a) i v d h)
  where
    same : (a : ℕ) (l : List _) → update f a l a ≡ l
    same a l = ground arith

entry_elsewhere :
    {A : Type 0} (f : ℕ → List A) (a i b : ℕ) (j : ℤ) (v d : A)
    → (b == a && same_int j (pos i)) ≡ false
    → entry (update f a (store_at (f a) i v) b) d j ≡ entry (f b) d j
entry_elsewhere f a i b j v d h = elim (Bool-cases (a == b)) [
  | inl e ↦ rw e (
      entry-put_elsewhere (f a) i j v d (index (same_int j (pos i)) e h)
      ∙ ap (λ c. entry (f c) d j) (ground arith))
  | inr e ↦ rw e refl
]
  where
    index : (c : Bool) → (a == b) ≡ true → (b == a && c) ≡ false → c ≡ false
    index c e h = ground arith

items-Stored :
    (s : Lisp) (a i : ℕ) (v : Object)
    → ltb i (length (s.items a)) ≡ true
    → Stored s
        (vector a)
        (pos i)
        v
        (record s { items = update s.items a (store_at (s.items a) i v) })
items-Stored s a i v h = (entry_here s.items a i v nil h, others)
  where
    others :
        (y : Object) (j : ℤ)
        → (eq y (vector a) && same_int j (pos i)) ≡ false
        → element (record s { items = update s.items a (store_at (s.items a) i v) }) y j
          ≡ element s y j
    others (vector b) j e = entry_elsewhere s.items a i b j v nil e
    others y j e = refl

bytes-Stored :
    (s : Lisp) (a i : ℕ) (v : Object)
    → ltb i (length (s.bytes a)) ≡ true
    → Stored s
        (string a)
        (pos i)
        (int (pos (low_byte v)))
        (record s { bytes = update s.bytes a (store_at (s.bytes a) i (low_byte v)) })
bytes-Stored s a i v h = (ap of_byte (entry_here s.bytes a i (low_byte v) 0 h), others)
  where
    others :
        (y : Object) (j : ℤ)
        → (eq y (string a) && same_int j (pos i)) ≡ false
        → element (record s { bytes = update s.bytes a (store_at (s.bytes a) i (low_byte v)) }) y j
          ≡ element s y j
    others (string b) j e = ap of_byte (entry_elsewhere s.bytes a i b j (low_byte v) 0 e)
    others y j e = refl

-- The writes of aset.
aset_at-Stored :
    (s : Lisp) (x : Object) (z : ℤ) (i : ℕ) (s1 : Lisp) (v : Object)
    → IsIndex s x z i s1
    → Ends (λ r s'. (r ≡ v) × Stored s x z (kept x v) s') (λ c s'. s' ≡ s) (aset_at x v i s1)
unfolding IsIndex
aset_at-Stored s (vector a) z i s1 v (e, f, h) = rw e (
    rw f (elim (Bool-cases (s.is_pure a)) [
      | inl p ↦ rw p refl
      | inr p ↦ rw p (refl, items-Stored s a i v h)
    ]))
aset_at-Stored s (string a) z i s1 v (e, f, h) = rw e (
    rw f (elim (Bool-cases (s.is_pure a)) [
      | inl p ↦ rw p refl
      | inr p ↦ rw p (refl, bytes-Stored s a i v h)
    ]))
aset_at-Stored s x z i s1 v h = absurd h

-- aset returns the value and then aref gives it (its low byte in a string) for that array and index,
-- and for every other array or index what it gave before; or it signals, and nothing has changed. An
-- index is what an int holds of the number.
pub aset_lem :
    (s : Lisp) (x v : Object) (n : ℤ)
    → Ends
        (λ r s'.
          (r ≡ v)
          × (value_of (faref x (int n) s') ≡ some (kept x v))
          × ((y : Object) (j : ℤ)
              → (eq y x && same_int (to_int j) (to_int n)) ≡ false
              → value_of (faref y (int j) s') ≡ value_of (faref y (int j) s)))
        (λ c s'. s' ≡ s)
        (faset x (int n) v s)
unfolding faset
aset_lem s x v n =
    Ends-bind (IsIndex s x (to_int n)) _ (λ c s'. s' ≡ s) (index_of x (int n) (to_int n) s)
      (aset_at x v)
      (Ends-mono (IsIndex s x (to_int n)) (IsIndex s x (to_int n)) _ (λ c s'. s' ≡ s)
        (index_of x (int n) (to_int n) s) (index_of-Ends s x (int n) (to_int n)) (λ i s' h. h)
        (λ c s' h. h.0))
      (λ i s1 h.
        Ends-mono _ _ (λ c s'. s' ≡ s) (λ c s'. s' ≡ s) (aset_at x v i s1)
          (aset_at-Stored s x (to_int n) i s1 v h)
          (λ r s' (e, (there, others)). (
            e,
            faref-element s' x n ∙ there,
            λ y j d. faref-element s' y j ∙ others y (to_int j) d ∙ sym (faref-element s y j),
          ))
          (λ c s' h. h))
