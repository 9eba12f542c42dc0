-- ===== src/Lisp/Vars/Steps.antt =====
-- The steps of set, of a variable with values of its own in some buffers.
use mathlib.Core.Path.{subst}
use holomacs.Prelude.{
  ℕ, ◌<◌, ◌≡◌, refl, sym, ◌∙◌, ◌⊎◌, inl, inr, Bool, true, false, ◌&&◌, ◌||◌, List, [], ◌∷◌, arith,
  ◌==◌, if◌then◌else◌, Bool-cases, length, has,
}
use holomacs.Lisp.{
  Object, symbol, cons, buffer, eq, Lisp, Condition, done, Code, and_then, update, fsetcdr, polled,
  some_buffer_local_value,
}
use holomacs.Lisp.View.{Ends, Ends-bind, Polled, Quit}
use holomacs.Lisp.Lists.{assq}
use holomacs.Lisp.Lists.Search.{Found, assq_entry, assq_lem}
use holomacs.Lisp.Vars.{xcar, xcdr, set_xcdr, set_cache, store_symval_forwarding}
use holomacs.Lisp.Vars.Set.{swap, own_element}
use holomacs.Lisp.Vars.Cache.{is_plain, slot, view, Consistent}
use holomacs.Lisp.Vars.Views.{with_cells, view_after, Consistent-after}
use holomacs.Lisp.Vars.SetUp.{
  written_back, Spine-written, store_plain, element_or_default, plain_forwarding,
}

-- The current buffer, and where it has no value of its own all buffers that have none, see the new value;
-- the others see what they saw.
abbrev pub Stored : Lisp → (a c b d : ℕ) → (ℕ → List ℕ) → Object → Lisp → Type 0
Stored s a c b d alist v s' =
    ((x : ℕ)
      → view s' a c b d alist x ≡ (
          if (s.buffers.current == x)
            || ((slot s a d (alist x) == d) && (slot s a d (alist s.buffers.current) == d))
          then v
          else view s a c b d alist x))
    × ((e' : ℕ) × Consistent s' a c b d e' alist)

pick :
    (n h d here x : ℕ) (real v old : Object) (g : ℕ → Object)
    → real ≡ v
    → (here == x ≡ false → g n ≡ old)
    → (if here == x then real else (if d == h then update g h v else g) n)
      ≡ (if (here == x) || ((n == d) && (h == d)) then v else old)
pick n h d here x real v old g e k = elim (Bool-cases (here == x)) [
  | inl i ↦ rw i e
  | inr i ↦ elim (Bool-cases (d == h)) [
    | inl j ↦ rw i (rw j (ground (arith, j, k i)))
    | inr j ↦ rw i (rw j (k i ∙ ground (arith, j)))
  ]
]

module _ (s : Lisp) (a c b d e : ℕ) (alist : ℕ → List ℕ) (i : Consistent s a c b d e alist)
    (v : Object) where
  abbrev here : ℕ
  here = slot s a d (alist s.buffers.current)

  -- DEFAULT-VALUE is set where the current buffer has no value of its own.
  abbrev pub with_default : (ℕ → Object) → ℕ → Object
  with_default g = if d == here then update g here v else g

  pub stored :
      (f g : ℕ → Object)
      → ((z : ℕ) → has z (c ∷ b ∷ d ∷ []) ≡ false → f z ≡ s.car z)
      → ((z : ℕ) → has z (d ∷ e ∷ []) ≡ false → g z ≡ s.cdr z)
      → f b ≡ buffer s.buffers.current
      → f d ≡ cons here
      → f c ≡ v
      → ((x : ℕ)
          → s.buffers.current == x ≡ false
          → g (slot s a d (alist x)) ≡ view s a c b d alist x)
      → Stored s a c b d alist v (with_cells s f (with_default g))
  stored f g cars cdrs set_up element real old = (
    λ x.
        view_after s a c b d e alist i f (with_default g) cars default_cdrs set_up element fresh x
        ∙ pick (slot s a d (alist x)) here d s.buffers.current x (f c) v (view s a c b d alist x) g
            real (old x),
    (
      here,
      Consistent-after s a c b d e alist i f (with_default g) cars default_cdrs set_up element
          fresh,
    ),
  )
    where
      default_cdrs : (z : ℕ) → has z (d ∷ e ∷ []) ≡ false → with_default g z ≡ s.cdr z
      default_cdrs z o = elim (Bool-cases (d == here)) [
        | inl h ↦ rw h (ground (arith, o, h) ∙ cdrs z o)
        | inr h ↦ rw h (cdrs z o)
      ]

      apart_slots : d ≡ here → d == here ≡ false → ⊥
      apart_slots h k = ground (arith, h, k)

      fresh :
          (x : ℕ)
          → slot s a d (alist x) ≡ here
          → (x ≡ s.buffers.current) ⊎ (with_default g here ≡ f c)
      fresh x h = elim (Bool-cases (d == here)) [
        | inl k ↦ inr (rw k (ground (arith, real)))
        | inr k ↦ elim (i.own x s.buffers.current h) [
          | inl j ↦ inl j
          | inr j ↦ absurd (apart_slots (sym j ∙ h) k)
        ]
      ]

  -- Fset from the current element on.
  abbrev pub finish : Object → Code Object
  finish element s1 =
      let contents = some_buffer_local_value c in
      let s2 = if eq (xcdr (xcdr contents s1) s1) element then set_xcdr element v s1 else s1 in
      and_then (store_symval_forwarding (symbol a) (xcar contents s2) v s2) (λ _ s4. done v s4)

  pub finish-done :
      (f g : ℕ → Object) (q : Bool) (p : List Bool)
      → g c ≡ cons b
      → g b ≡ cons d
      → is_plain (f c) ≡ true
      → finish (cons here) (polled q p (with_cells s f g))
        ≡ done v (polled q p (with_cells s (update f c v) (with_default g)))
  finish-done f g q p tail rest plain = elim (Bool-cases (d == here)) [
    | inl h ↦ rw tail (
        rw rest (
          rw h (
            rw
              (store_plain a c (f c) v (polled q p (with_cells s f (update g here v))) plain
                i.contents)
              refl)))
    | inr h ↦ rw tail (
        rw rest (
          rw h
            (rw (store_plain a c (f c) v (polled q p (with_cells s f g)) plain i.contents) refl)))
  ]

  abbrev pub set_up_cars : ℕ → Object
  set_up_cars = update (update s.car d (cons here)) b (buffer s.buffers.current)

  pub swap-Ends :
      (k : ℕ)
      → length (alist s.buffers.current) < k
      → is_plain (s.car c) ≡ true
      → Ends
          (λ element s'.
            (element ≡ cons here) × Polled (with_cells s set_up_cars (written_back s c e)) s')
          (Quit (with_cells s s.car (written_back s c e)))
          (swap k (symbol a) (some_buffer_local_value c) (cons e) s)
  unfolding fsetcdr
  swap-Ends k h plain = rw i.writable.0 (
      rw (plain_forwarding (s.car c) s plain) (
        Ends-bind
          (Found (with_cells s s.car (written_back s c e)) (λ z. assq_entry s (symbol a) (s.car z))
            (alist s.buffers.current))
          (λ element s'.
            (element ≡ cons here) × Polled (with_cells s set_up_cars (written_back s c e)) s')
          (Quit (with_cells s s.car (written_back s c e)))
          (assq k (symbol a) (s.buffers.local_var_alist s.buffers.current)
            (with_cells s s.car (written_back s c e)))
          _
          (assq_lem (with_cells s s.car (written_back s c e)) k (symbol a)
            (s.buffers.local_var_alist s.buffers.current) (alist s.buffers.current)
            (Spine-written s a c b d e alist i s.buffers.current) h)
          (λ found s' ((q, p, same), is).
            subst
              (λ t. Ends Swapped stop (
                and_then (own_element (symbol a) (some_buffer_local_value c) (cons e) found t)
                  cache))
              (sym same)
              (subst
                (λ o. Ends Swapped stop (
                  and_then
                    (own_element (symbol a) (some_buffer_local_value c) (cons e) o
                      (polled q p (with_cells s s.car (written_back s c e))))
                    cache))
                (sym is)
                (rw tail (
                  rw rest (
                    rw (element_or_default s a d (alist s.buffers.current))
                      (refl, (q, p, refl)))))))))
    where
      Swapped : Object → Lisp → Type 0
      Swapped element s' =
          (element ≡ cons here) × Polled (with_cells s set_up_cars (written_back s c e)) s'

      stop : Condition → Lisp → Type 0
      stop = Quit (with_cells s s.car (written_back s c e))

      cache : Object → Code Object
      cache tem s3 = done tem (set_cache (some_buffer_local_value c) tem s3)

      tail : written_back s c e c ≡ cons b
      tail = ground (arith, i.other, i.tail)

      rest : written_back s c e b ≡ cons d
      rest = ground (arith, i.other, i.rest)
