-- ===== src/Cmds/Lines/Look.antt =====
-- forward-line as one look at the characters from point on.
use holomacs.Prelude.{
  ℕ, zero, suc, ◌+◌, ◌-◌, ◌≤◌, ◌≡◌, ap, arith, true, not, Option, ◌==◌, if◌then◌else◌, ℤ, pos, ◌+ℤ◌,
  ◌-ℤ◌, ltb_ℤ, Bool-cases, inl, inr, ◌⊎◌,
}
use holomacs.Editor.{Editor, ok, and_then, char_at}
use holomacs.Editfns.{newline}
use holomacs.Lisp.Data.{to_int}
use holomacs.Search.{is_zero}
use holomacs.Search.Scan.{next_right, next_left}
use holomacs.Search.Scan.Right.Loop.{IsCeiling}
use holomacs.Search.Scan.Left.Loop.{IsFloor}
use holomacs.Search.Scan.Buffer.{scan_buffer_lem}
use holomacs.Cmds.{prefix, lines_left, forward_line}

-- Where a look ends: behind a target, or at the end of what it looks at.
abbrev pub Behind : (ℕ → ℕ) → (target low high end p : ℕ) → Type 0
Behind char target low high end p =
    (low ≤ p) × (p ≤ high) × ((p ≡ end) ⊎ ((char (p - 1) == target) ≡ true))

-- A look to the left ends behind a target, or at the lowest character.
pub next_left-Behind :
    (k : ℕ) (char : ℕ → ℕ) (target o p : ℕ) (cnt : ℤ)
    → p ≡ o + k
    → Behind char target o p o (next_left k char target p cnt).0
unfolding next_left
next_left-Behind zero char target o p cnt e =
    (omega (arith, e), omega arith, inl (omega (arith, e)))
next_left-Behind (suc k) char target o p cnt e = elim (Bool-cases (char (p - 1) == target)) [
  | inl t ↦ rw t (elim (Bool-cases (is_zero (cnt +ℤ pos 1))) [
    | inl z ↦ rw z (omega (arith, e), omega arith, inr t)
    | inr z ↦ rw z (
        further (next_left k char target (p - 1) (cnt +ℤ pos 1)).0
          (next_left-Behind k char target o (p - 1) (cnt +ℤ pos 1) (omega (arith, e))))
  ])
  | inr t ↦ rw t (
      further (next_left k char target (p - 1) cnt).0
        (next_left-Behind k char target o (p - 1) cnt (omega (arith, e))))
]
  where
    further : (q : ℕ) → Behind char target o (p - 1) o q → Behind char target o p o q
    further q (a, b, c) = (a, omega (arith, b, e), c)

-- What a look of scan_buffer gives.
abbrev pub look : Editor → ℤ → ℕ × ℤ
look e cnt =
    if ltb_ℤ (pos 0) cnt
    then next_right (e.zv - e.pt) (char_at e) newline e.pt cnt
    else next_left (e.pt - e.begv) (char_at e) newline e.pt cnt

-- The count that forward-line gives scan_buffer.
abbrev pub scan_count : ℤ → ℤ
scan_count count = if not (ltb_ℤ (pos 0) count) then to_int (count -ℤ pos 1) else count

-- What the section asks of the buffer and of the ceiling and the floor.
abbrev pub Scannable : (Editor → ℕ → ℕ) → (Editor → ℕ → ℕ) → Editor → Type 0
Scannable ceiling floor e =
    IsCeiling e ceiling × IsFloor e floor × (1 ≤ e.begv) × (e.begv ≤ e.pt) × (e.pt ≤ e.zv)

pub forward_line-look :
    (ceiling floor : Editor → ℕ → ℕ) (e : Editor) (n : Option ℤ)
    → Scannable ceiling floor e
    → let r = look e (scan_count (to_int (prefix n))) in
      forward_line ceiling floor n e
      ≡ ok (lines_left e (not (ltb_ℤ (pos 0) (to_int (prefix n)))) r) (record e { pt = r.0 })
unfolding forward_line
forward_line-look ceiling floor e n (up, down, low, b, z) =
    ap
      (λ r. and_then r (λ r s.
        ok (lines_left s (not (ltb_ℤ (pos 0) (to_int (prefix n)))) r) (record s { pt = r.0 })))
      (scan_buffer_lem ceiling floor e newline e.pt (scan_count (to_int (prefix n))) up down low b
        z)
