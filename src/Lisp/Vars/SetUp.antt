-- ===== src/Lisp/Vars/SetUp.antt =====
-- The cells of a variable set up for the current buffer, as symbol-value does it.
use mathlib.Core.Path.{subst}
use holomacs.Prelude.{
  ℕ, suc, ◌<◌, ◌≡◌, refl, sym, ◌⊎◌, inl, inr, true, false, List, [], ◌∷◌, arith, if◌then◌else◌,
  Bool-cases, length, has, Distinct, none, some,
}
use holomacs.Lisp.{
  Object, symbol, cons, buffer, void, intfwd, boolfwd, objfwd, buffer_objfwd, buffer_local_value,
  some_buffer_local_value, nil, eq, is_null, Lisp, done, Code, and_then, update, fcdr, fsetcdr,
}
use holomacs.Lisp.View.{Spine}
use holomacs.Lisp.Lists.Change.{Spine-update}
use holomacs.Lisp.Lists.Search.{assq_entry}
use holomacs.Lisp.Vars.{
  xcar, xcdr, set_cache, set_up, value_in, do_symval_forwarding, store_symval_forwarding,
}
use holomacs.Lisp.Vars.Cache.{is_plain, element_of, slot, Consistent, assq_no_quit_lem}

-- The store after CURRENT-ALIST-ELEMENT has got REALVALUE, and the cells are set up for the current buffer.
abbrev pub written_back : Lisp → (c e : ℕ) → ℕ → Object
written_back s c e = update s.cdr e (s.car c)

abbrev pub moved : Lisp → (c b d e here : ℕ) → Object → Lisp
moved s c b d e here v = record s {
  cdr = update s.cdr e (s.car c);
  car = update (update (update s.car d (cons here)) b (buffer s.buffers.current)) c v;
}

pub plain_forwarding : (x : Object) (s : Lisp) → is_plain x ≡ true → do_symval_forwarding x s ≡ x
unfolding do_symval_forwarding
plain_forwarding (void a) s h = absurd (ground (arith, h))
plain_forwarding (intfwd a) s h = absurd (ground (arith, h))
plain_forwarding (boolfwd a) s h = absurd (ground (arith, h))
plain_forwarding (objfwd a) s h = absurd (ground (arith, h))
plain_forwarding (buffer_objfwd a) s h = absurd (ground (arith, h))
plain_forwarding x s h = refl

-- A plain value is what the retry gives.
pub plain_value :
    (k : ℕ) (sym x : Object) (s : Lisp) → is_plain x ≡ true → value_in (suc k) sym x s ≡ done x s
unfolding value_in do_symval_forwarding
plain_value k sym (void a) s h = absurd (ground (arith, h))
plain_value k sym (intfwd a) s h = absurd (ground (arith, h))
plain_value k sym (boolfwd a) s h = absurd (ground (arith, h))
plain_value k sym (objfwd a) s h = absurd (ground (arith, h))
plain_value k sym (buffer_objfwd a) s h = absurd (ground (arith, h))
plain_value k sym (buffer_local_value a) s h = absurd (ground (arith, h))
plain_value k sym (some_buffer_local_value a) s h = absurd (ground (arith, h))
plain_value k sym (symbol a) s h = ground (arith, h)
plain_value k sym x s h = refl

-- A value is stored in REALVALUE where that holds a plain one.
pub store_plain :
    (a c : ℕ) (x v : Object) (s : Lisp)
    → is_plain x ≡ true
    → s.value a ≡ some_buffer_local_value c
    → store_symval_forwarding (symbol a) x v s ≡ done tt (record s { car = update s.car c v })
unfolding store_symval_forwarding
store_plain a c (intfwd z) v s h i = absurd (ground (arith, h))
store_plain a c (boolfwd z) v s h i = absurd (ground (arith, h))
store_plain a c (objfwd z) v s h i = absurd (ground (arith, h))
store_plain a c (buffer_objfwd z) v s h i = absurd (ground (arith, h))
store_plain a c x v s h i = rw i refl

-- What set_up does with an element, or nil, from the alist.
abbrev behind_assq : (sym contents found : Object) → Code (Unit {0})
behind_assq sym contents found s2 =
    let tem = if is_null found then xcdr (xcdr contents s2) s2 else found in
    let s3 = set_cache contents tem s2 in
    and_then (fcdr tem s3) (λ v. store_symval_forwarding sym (xcar contents s3) v)

behind_assq-done :
    (s : Lisp) (a c b d f : ℕ) (found : Object)
    → s.value a ≡ some_buffer_local_value c
    → s.cdr c ≡ cons b
    → s.cdr b ≡ cons d
    → Distinct (c ∷ b ∷ d ∷ [])
    → (if is_null found then cons d else found) ≡ cons f
    → is_plain (s.car c) ≡ true
    → behind_assq (symbol a) (some_buffer_local_value c) found s
      ≡ done tt (record s {
        car = update (update (update s.car d (cons f)) b (buffer s.buffers.current)) c (s.cdr f);
      })
unfolding fcdr
behind_assq-done s a c b d f found contents tail rest apart tem plain = rw tail (
    rw rest (
      rw tem (
        store_plain a c _ (s.cdr f)
          (record s { car = update (update s.car d (cons f)) b (buffer s.buffers.current) })
          (subst (λ x. is_plain x ≡ true) (sym here) plain) contents)))
  where
    here : update (update s.car d (cons f)) b (buffer s.buffers.current) c ≡ s.car c
    here = ground (arith, apart.0, apart.1.0)

abbrev NilOrCons : Object → Type 0
NilOrCons x = (x ≡ nil) ⊎ ((f : ℕ) × (x ≡ cons f))

entry_or :
    (s : Lisp) (key elt rest : Object)
    → NilOrCons rest
    → NilOrCons (elim (assq_entry s key elt) [ none ↦ rest | some v ↦ v ])
entry_or s key (cons b) rest h = elim (Bool-cases (eq key (s.car b))) [
  | inl i ↦ rw i (inr (b, refl))
  | inr i ↦ rw i h
]
entry_or s key elt rest h = h

element_of-NilOrCons : (s : Lisp) (a : ℕ) (l : List ℕ) → NilOrCons (element_of s a l)
element_of-NilOrCons s a [] = inl refl
element_of-NilOrCons s a (z ∷ l) =
    entry_or s (symbol a) (s.car z) (element_of s a l) (element_of-NilOrCons s a l)

pub element_or_default :
    (s : Lisp) (a d : ℕ) (l : List ℕ)
    → (if is_null (element_of s a l) then cons d else element_of s a l) ≡ cons (slot s a d l)
element_or_default s a d l = elim (element_of-NilOrCons s a l) [
  | inl h ↦ rw h refl
  | inr (f, h) ↦ rw h refl
]

-- The alists are as they were once REALVALUE is written back.
pub Spine-written :
    (s : Lisp) (a c b d e : ℕ) (alist : ℕ → List ℕ)
    → Consistent s a c b d e alist
    → (x : ℕ) → Spine (written_back s c e) (s.buffers.local_var_alist x) (alist x)
Spine-written s a c b d e alist i x =
    Spine-update s.cdr e (s.car c) (s.buffers.local_var_alist x) (alist x) not_e (i.spines x)
  where
    not_e : has e (alist x) ≡ false
    not_e = elim (Bool-cases (has e (alist x))) [
      | inl m ↦ absurd (ground (arith, i.apart x e m))
      | inr m ↦ m
    ]

-- The cells are set up for the current buffer.
pub set_up-done :
    (s : Lisp) (a c b d e : ℕ) (alist : ℕ → List ℕ) (k : ℕ)
    → Consistent s a c b d e alist
    → length (alist s.buffers.current) < k
    → is_plain (s.car c) ≡ true
    → set_up k (symbol a) (some_buffer_local_value c) s
      ≡ done tt (
          moved s c b d e
            (slot s a d (alist s.buffers.current))
            (written_back s c e (slot s a d (alist s.buffers.current))))
unfolding fsetcdr
set_up-done s a c b d e alist k i h plain = rw i.tail (
    rw i.rest (
      rw i.element (
        rw i.writable.0 (
          rw (plain_forwarding (s.car c) s plain) (
            rw
              (assq_no_quit_lem (record s { cdr = written_back s c e }) (symbol a) k
                (s.buffers.local_var_alist s.buffers.current) (alist s.buffers.current)
                (Spine-written s a c b d e alist i s.buffers.current) h)
              (behind_assq-done (record s { cdr = written_back s c e }) a c b d
                (slot s a d (alist s.buffers.current)) (element_of s a (alist s.buffers.current))
                i.contents (ground (arith, i.other, i.tail)) (ground (arith, i.other, i.rest))
                i.distinct (element_or_default s a d (alist s.buffers.current)) plain))))))
