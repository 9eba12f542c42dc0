-- ===== src/Cmds/PointLine.antt =====
-- beginning-of-line and end-of-line, at the line that point is on.
use mathlib.Core.Path.{subst}
use holomacs.Prelude.{
  ℕ, zero, suc, ◌+◌, ◌-◌, ◌<◌, ◌≤◌, ◌≡◌, refl, ap, arith, Bool, true, false, ◌||◌, none, some, ltb,
  ◌==◌, pos, negsuc, ◌+ℤ◌, ◌-ℤ◌, Bool-cases, inl, inr, ◌⊎◌,
}
use holomacs.Editor.{Editor, ok, and_then, char_at}
use holomacs.Editfns.{newline, bolp, eolp}
use holomacs.Search.Scan.{next_left}
use holomacs.Cmds.Lines.Look.{next_left-Behind, Scannable, forward_line-look}
use holomacs.Cmds.{beginning_of_line, end_of_line, line_end}

-- There is no target from p up to q.
abbrev pub Without : (ℕ → ℕ) → (target p q : ℕ) → Type 0
Without char target p q = (i : ℕ) → p ≤ i → i < q → (char i == target) ≡ false

-- The search for the newline before.
next_left-Without :
    (k : ℕ) (char : ℕ → ℕ) (target p : ℕ)
    → k ≤ p
    → Without char target (next_left k char target p (negsuc 0)).0 p
unfolding next_left ◌+ℤ◌
next_left-Without zero char target p h = λ i a b. absurd (omega (arith, a, b))
next_left-Without (suc k) char target p h = elim (Bool-cases (char (p - 1) == target)) [
  | inl t ↦ rw t (λ i a b. absurd (omega (arith, a, b)))
  | inr t ↦ rw t (
      longer (next_left k char target (p - 1) (negsuc 0)).0 t
        (next_left-Without k char target (p - 1) (omega (arith, h))))
]
  where
    longer :
        (q : ℕ)
        → (char (p - 1) == target) ≡ false
        → Without char target q (p - 1)
        → Without char target q p
    longer q t w i a b = elim (Bool-cases (i == p - 1)) [
      | inl e ↦ subst (λ x. (char x == target) ≡ false) (ground (arith, e)) t
      | inr e ↦ w i a (ground (arith, e, b))
    ]

Without-from :
    (char : ℕ → ℕ) (target p q : ℕ)
    → (char p == target) ≡ false
    → Without char target (p + 1) q
    → Without char target p q
Without-from char target p q t w i a b = elim (Bool-cases (i == p)) [
  | inl e ↦ subst (λ x. (char x == target) ≡ false) (ground (arith, e)) t
  | inr e ↦ w i (ground (arith, e, a)) b
]

-- The first newline from a position on, or the end of the search.
abbrev IsLineEnd : Editor → (at end x : ℕ) → Type 0
IsLineEnd e at end x =
    (at ≤ x)
    × (x ≤ end)
    × ((x ≡ end) ⊎ ((char_at e x == newline) ≡ true))
    × Without (char_at e) newline at x

line_end_lem :
    (k : ℕ) (e : Editor) (at end : ℕ) → end ≡ at + k → IsLineEnd e at end (line_end k e at)
unfolding line_end
line_end_lem zero e at end f =
    (omega arith, omega (arith, f), inl (omega (arith, f)), λ i a b. absurd (omega (arith, a, b)))
line_end_lem (suc k) e at end f = elim (Bool-cases (char_at e at == newline)) [
  | inl t ↦ rw t (omega arith, omega (arith, f), inr t, λ i a b. absurd (omega (arith, a, b)))
  | inr t ↦
      rw t (further (line_end k e (at + 1)) t (line_end_lem k e (at + 1) end (omega (arith, f))))
]
  where
    further :
        (x : ℕ)
        → (char_at e at == newline) ≡ false
        → IsLineEnd e (at + 1) end x
        → IsLineEnd e at end x
    further x t (a, b, c, w) = (omega (arith, a), b, c, Without-from (char_at e) newline at x t w)

-- beginning-of-line and end-of-line without an argument move point to the two ends of its line, and
-- change nothing else: the first is behind a newline or at the beginning of the visible part, the second
-- is at a newline or at the end, and no newline lies between them.
pub line_lem :
    (ceiling floor : Editor → ℕ → ℕ) (e : Editor)
    → Scannable ceiling floor e
    → (b : ℕ) × (x : ℕ) × (beginning_of_line ceiling floor none e ≡ ok tt (record e { pt = b }))
      × (end_of_line ceiling floor none e ≡ ok tt (record e { pt = x }))
      × (e.begv ≤ b)
      × (b ≤ e.pt)
      × (e.pt ≤ x)
      × (x ≤ e.zv)
      × (bolp (record e { pt = b }) ≡ true)
      × (eolp (record e { pt = x }) ≡ true)
      × Without (char_at e) newline b x
unfolding beginning_of_line end_of_line bolp eolp ◌-ℤ◌
line_lem ceiling floor e s =
    let b = (next_left (e.pt - e.begv) (char_at e) newline e.pt (negsuc 0)).0 in
    let x = line_end (e.zv - e.pt) e e.pt in
    let left =
      next_left-Behind (e.pt - e.begv) (char_at e) newline e.begv e.pt (negsuc 0)
        (omega (arith, s.3)) in
    let right = line_end_lem (e.zv - e.pt) e e.pt e.zv (omega (arith, s.4)) in
    (
      b,
      x,
      ap (λ r. and_then r (λ _. ok tt)) (forward_line-look ceiling floor e (some (pos 0)) s),
      refl,
      left.0,
      left.1,
      right.0,
      right.1,
      begins b left.2,
      ends x right.2,
      both b x (next_left-Without (e.pt - e.begv) (char_at e) newline e.pt (omega arith)) right.3,
    )
  where
    or_true : (c : Bool) {d : Bool} → d ≡ true → (c || d) ≡ true
    or_true true h = refl
    or_true false h = h

    begins :
        (b : ℕ)
        → (b ≡ e.begv) ⊎ ((char_at e (b - 1) == newline) ≡ true)
        → (b == e.begv || char_at e (b - 1) == newline) ≡ true
    begins b (inl h) = ground (arith, h)
    begins b (inr h) = or_true (b == e.begv) h

    ends :
        (x : ℕ)
        → (x ≡ e.zv) ⊎ ((char_at e x == newline) ≡ true)
        → (x == e.zv || char_at e x == newline) ≡ true
    ends x (inl h) = ground (arith, h)
    ends x (inr h) = or_true (x == e.zv) h

    both :
        (b x : ℕ)
        → Without (char_at e) newline b e.pt
        → Without (char_at e) newline e.pt x
        → Without (char_at e) newline b x
    both b x l r i h k = elim (Bool-cases (ltb i e.pt)) [
      | inl t ↦ l i h (ground (arith, t))
      | inr t ↦ r i (ground (arith, t)) k
    ]
