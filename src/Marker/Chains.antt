-- ===== src/Marker/Chains.antt =====
-- Each marker is in the chain of the buffer that it says, once, and in no other.
use holomacs.Prelude.{
  ℕ, ◌≢◌, ◌≤◌, ◌≡◌, refl, sym, ◌∙◌, ap, inl, inr, Bool, true, false, not, ◌||◌, none, some, List,
  [], ◌∷◌, arith, ◌==◌, if◌then◌else◌, Bool-cases, has, Distinct,
}
use holomacs.Editor.View.{IsPlaced}
use holomacs.Marker.{
  World, Outcome, done, abort, set_buf, set_obj, unlink, bad_next, unchain_marker,
}

pub record WellChained (w : World) : Type 0 where
  pub attached : (m b : ℕ) → has m (w.buf b).markers ≡ true → (w.obj m).buffer ≡ some b
  pub chained : (m b : ℕ) → (w.obj m).buffer ≡ some b → has m (w.buf b).markers ≡ true
  pub once : (b : ℕ) → Distinct (w.buf b).markers
  pub live : (m b : ℕ) → (w.obj m).buffer ≡ some b → (w.buf b).alive ≡ true
  pub gap : (b : ℕ) → (1 ≤ (w.buf b).gpt) × ((w.buf b).gpt ≤ (w.buf b).z)
  pub visible :
      (b : ℕ)
      → (1 ≤ (w.buf b).begv) × ((w.buf b).begv ≤ (w.buf b).zv) × ((w.buf b).zv ≤ (w.buf b).z)
  pub placed :
      (m b : ℕ)
      → (w.obj m).buffer ≡ some b
      → IsPlaced (w.buf b).gpt (w.buf b).gap_size (w.buf b).z (w.obj m).bufpos

pub has-unlink :
    (a m : ℕ) (l : List ℕ) → Distinct l → has a (unlink m l) ≡ (if a == m then false else has a l)
unfolding unlink
has-unlink a m [] d = ground arith
has-unlink a m (x ∷ l) d = ground (arith, has-unlink a m l)

pub Distinct-unlink : (m : ℕ) (l : List ℕ) → Distinct l → Distinct (unlink m l)
unfolding unlink
Distinct-unlink m [] d = tt
Distinct-unlink m (x ∷ l) d = elim (Bool-cases (x == m)) [
  | inl e ↦ rw e d.1
  | inr e ↦ rw e (has-unlink x m l d.1 ∙ ground arith, Distinct-unlink m l d.1)
]

-- Where the head of a chain points to its buffer, the check for a new head passes.
pub no_bad_next :
    (w : World) (b m : ℕ) (l : List ℕ)
    → ((a : ℕ) → has a l ≡ true → (w.obj a).buffer ≡ some b)
    → bad_next w b m l ≡ false
unfolding bad_next
no_bad_next w b m [] all = refl
no_bad_next w b m (x ∷ []) all = refl
no_bad_next w b m (x ∷ y ∷ chain) all = elim (Bool-cases (x == m)) [
  | inl e ↦ rw e (
      ap (λ o. not (elim o [ none ↦ false | some c ↦ c == b ])) (all y (ground arith))
      ∙ ground arith)
  | inr e ↦ ground arith
]

abbrev pub freed : ℕ → ℕ → World → World
freed m b w =
    set_obj m (record (w.obj m) { buffer = none })
      (set_buf b (record (w.buf b) { markers = unlink m (w.buf b).markers }) w)

pub passed :
    (x y : Bool) (r : Outcome (Unit {0}))
    → x ≡ true
    → y ≡ false
    → (if not x || y then abort else r) ≡ r
passed x y r i j = rw (i, j) refl

unchain_marker-freed :
    (w : World) (m b : ℕ)
    → WellChained w
    → (w.obj m).buffer ≡ some b
    → unchain_marker m w ≡ done tt (freed m b w)
unfolding unchain_marker
unchain_marker-freed w m b v e =
    rw (unchain_marker, e)
      (passed (w.buf b).alive (bad_next w b m (w.buf b).markers) (done tt (freed m b w))
        (v.live m b e) (no_bad_next w b m (w.buf b).markers (λ a. v.attached a b)))

pub same : (a b : ℕ) → a == b ≡ true → a ≡ b
same a b i = ground arith

apart : (c b : ℕ) → c == b ≡ false → some c ≢ some b
apart c b i k = ground arith

-- Membership in the chains where `m` is out of the chain of `b`.
has-freed :
    (w : World) (m b : ℕ)
    → WellChained w
    → (w.obj m).buffer ≡ some b
    → (a c : ℕ)
    → has a ((freed m b w).buf c).markers ≡ (if a == m then false else has a (w.buf c).markers)
has-freed w m b v e a c = elim (Bool-cases (c == b)) [
  | inl i ↦ rw i (
      has-unlink a m (w.buf b).markers (v.once b)
      ∙ ap (λ d. if a == m then false else has a (w.buf d).markers) (sym (same c b i)))
  | inr i ↦ rw i (elim (Bool-cases (a == m)) [
    | inl j ↦ rw j (elim (Bool-cases (has a (w.buf c).markers)) [
      | inl k ↦
          absurd
            (apart c b i (sym (v.attached a c k) ∙ ap (λ x. (w.obj x).buffer) (same a m j) ∙ e))
      | inr k ↦ k
    ])
    | inr j ↦ rw j refl
  ])
]

-- Where every marker is in the chain of the buffer that it says, once and in no other chain, and
-- marker `m` points into buffer `b`, `unchain_marker` does not abort; afterwards `m` points nowhere
-- and is in no chain, every other marker has the object that it had, and it is in the chains that it
-- was in.
pub unchain_marker_lem :
    (w : World) (m b : ℕ)
    → WellChained w
    → (w.obj m).buffer ≡ some b
    → (w' : World) × (unchain_marker m w ≡ done tt w')
      × ((w'.obj m).buffer ≡ none)
      × ((c : ℕ) → has m (w'.buf c).markers ≡ false)
      × ((a : ℕ) → a == m ≡ false → w'.obj a ≡ w.obj a)
      × ((a c : ℕ) → a == m ≡ false → has a (w'.buf c).markers ≡ has a (w.buf c).markers)
unchain_marker_lem w m b v e = (
  freed m b w,
  unchain_marker-freed w m b v e,
  ground arith,
  λ c. has-freed w m b v e m c ∙ ground arith,
  λ a i. rw i refl,
  λ a c i. has-freed w m b v e a c ∙ rw i refl,
)
