-- ===== src/Cmds/Lines/Passed.antt =====
-- The newlines that forward-line passes, and those that are left.
use holomacs.Prelude.{
  ℕ, zero, suc, Bool, refl, ◌∙◌, ◌&&◌, ◌+◌, ◌-◌, ◌≤◌, ◌≡◌, sym, ap, arith, true, false, not, ◌==◌,
  if◌then◌else◌, ℤ, pos, negsuc, ltb, ◌-ℤ◌, ltb_ℤ, inl, inr, ◌⊎◌,
}
use holomacs.Editor.{Editor, char_at}
use holomacs.Editfns.{newline}
use holomacs.Search.Scan.Count.{targets, PassedRight, PassedLeft}
use holomacs.Cmds.{lines_left}

-- The number of newlines from p up to q.
abbrev pub newlines : Editor → (p q : ℕ) → ℕ
newlines e p q = targets (char_at e) newline (q - p) p

-- Point is in front of a last line that is not ended by a newline, and not at the end.
abbrev pub has_partial_line : Editor → Bool
has_partial_line e = not (e.zv == e.pt) && not (char_at e (e.zv - 1) == newline)

-- n lines forward, to p: behind the n-th newline, and none is left; or there are fewer newlines up to the
-- end, p is the end, and the others are left, one less where the last line is not ended by a newline.
abbrev pub Forward : Editor → (n p : ℕ) → (left : ℤ) → Type 0
Forward e n p left =
    (e.pt ≤ p)
    × (p ≤ e.zv)
    × (((newlines e e.pt p ≡ n) × ((char_at e (p - 1) == newline) ≡ true) × (left ≡ pos 0))
        ⊎ ((p ≡ e.zv)
            × ((m : ℕ) × (newlines e e.pt p + suc m ≡ n)
                × (left ≡ (if has_partial_line e then pos m else pos (suc m))))))

-- n lines back, to p: behind a newline with n others up to point, and none is left; or p is the beginning,
-- and as many are left, as a negative number, as there are fewer newlines than n up to point.
abbrev pub Backward : Editor → (n p : ℕ) → (left : ℤ) → Type 0
Backward e n p left =
    (e.begv ≤ p)
    × (p ≤ e.pt)
    × (((newlines e p e.pt ≡ n) × ((char_at e (p - 1) == newline) ≡ true) × (left ≡ pos 0))
        ⊎ ((p ≡ e.begv) × ((m : ℕ) × (newlines e p e.pt + m ≡ n) × (left ≡ pos 0 -ℤ pos m))))

abbrev pub Moved : Editor → (count : ℤ) → (p : ℕ) → (left : ℤ) → Type 0
Moved e (pos zero) p left = Backward e 0 p left
Moved e (pos (suc n)) p left = Forward e (suc n) p left
Moved e (negsuc n) p left = Backward e (suc n) p left

difference : (p q i : ℕ) → q ≡ p + i → i ≡ q - p
difference p q i h = omega (arith, h)

left_over :
    (begv pt zv m : ℕ) (c : Bool)
    → begv ≤ pt
    → pt ≤ zv
    → (if ltb_ℤ (pos 0) (pos (suc m)) && (ltb begv zv && not (zv == pt) && c)
        then pos (suc m) -ℤ pos 1
        else pos (suc m))
      ≡ (if not (zv == pt) && c then pos m else pos (suc m))
unfolding ◌-ℤ◌
left_over begv pt zv m c b z = ground (arith, b, z)

left_back :
    (m : ℕ)
    → pos 0 -ℤ (if ltb_ℤ (pos 0) (pos (suc m)) && true then pos (suc m) -ℤ pos 1 else pos (suc m))
      ≡ pos 0 -ℤ pos m
unfolding ◌-ℤ◌
left_back m = ground arith

pub lines_left-Forward :
    (e : Editor) (n : ℕ) (r : ℕ × ℤ)
    → e.begv ≤ e.pt
    → e.pt ≤ e.zv
    → PassedRight (char_at e) newline (e.zv - e.pt) e.pt (suc n) r
    → Forward e (suc n) r.0 (lines_left e false r)
lines_left-Forward e n (q, left) b z (i, h, at, inl (t, c, l)) = (
  omega (arith, at),
  omega (arith, at, h, z),
  inl (
    ap (λ j. targets (char_at e) newline j e.pt) (sym (difference e.pt q i at)) ∙ t,
    c,
    rw l refl,
  ),
)
lines_left-Forward e n (q, left) b z (i, h, at, inr (all, (m, t, l))) = (
  omega (arith, at),
  omega (arith, at, h, z),
  inr (
    end,
    (
      m,
      ap (λ j. targets (char_at e) newline j e.pt + suc m) (sym (difference e.pt q i at)) ∙ t,
      rw l (rw end (left_over e.begv e.pt e.zv m (not (char_at e (e.zv - 1) == newline)) b z)),
    ),
  ),
)
  where
    end : q ≡ e.zv
    end = omega (arith, at, all, z)

pub lines_left-Backward :
    (e : Editor) (n : ℕ) (r : ℕ × ℤ)
    → PassedLeft (char_at e) newline e.begv e.pt n r
    → Backward e n r.0 (lines_left e true r)
unfolding ◌-ℤ◌
lines_left-Backward e n (q, left) (i, low, at, inl (t, c, l)) = (
  low,
  omega (arith, at),
  inl (
    ap (λ j. targets (char_at e) newline j q) (sym (difference q e.pt i (sym at))) ∙ t,
    c,
    rw l refl,
  ),
)
lines_left-Backward e n (q, left) (i, low, at, inr (o, (m, t, l))) = (
  low,
  omega (arith, at),
  inr (
    o,
    (
      m,
      ap (λ j. targets (char_at e) newline j q + m) (sym (difference q e.pt i (sym at))) ∙ t,
      rw l (left_back m),
    ),
  ),
)
