-- ===== src/Search/Scan/Left/Loop.antt =====
-- The scan to the left, block by block.
use holomacs.Prelude.{
  ℕ, zero, suc, ◌+◌, ◌-◌, ◌<◌, ◌≤◌, ◌≡◌, sym, ap, ◌∙◌, arith, true, false, ltb, leb, if◌then◌else◌,
  ℤ, pos, Bool-cases, inl, inr, Option, none, some,
}
use holomacs.Editor.{Editor, char_at, char_address}
use holomacs.Search.{Block, hit, miss, lost, block_left, scan_left}
use holomacs.Search.Scan.{next_left}
use holomacs.Search.Scan.Left.{Holds, Scanned, block_lem}

-- What the scan relies on: from the floor of a visible position up to it the characters lie side by side.
abbrev pub IsFloor : Editor → (Editor → ℕ → ℕ) → Type 0
IsFloor e floor =
    (n : ℕ)
    → e.begv ≤ n
    → n < e.zv
    → (floor e n ≤ n)
      × ((p i : ℕ) → floor e n ≤ p → p + i ≡ n → char_address e n ≡ char_address e p + i)

module _ (ceiling floor : Editor → ℕ → ℕ) (e : Editor) (target : ℕ) (down : IsFloor e floor)
    (low : 1 ≤ e.begv) where
  -- What the loop does with what a block comes to.
  abbrev onward : (k at base : ℕ) → Block → Option (ℕ × ℤ)
  onward k at base b = elim b [
    | hit c ↦ some (at - 1 + c - base, pos 0)
    | miss c cnt' ↦ scan_left ceiling floor k e target (at + c - (base + 1)) e.begv cnt'
    | lost ↦ none
  ]

  onward_lem :
      (k at base limit o j n : ℕ) (cnt : ℤ) (b : Block)
      → at ≡ o + suc j
      → base ≡ limit + j
      → ((left : ℤ)
          → scan_left ceiling floor k e target o e.begv left
            ≡ some (next_left n (char_at e) target o left))
      → Scanned e.beg (char_at e) target limit o (suc j) cnt b
      → onward k at base b ≡ some (next_left (suc j + n) (char_at e) target (o + suc j) cnt)
  unfolding Scanned
  onward_lem k at base limit o j n cnt (hit a) f g next (i, u, is) =
      ap (λ y. some (y, pos 0)) (position at base a f g u) ∙ ap some (sym (is n))
    where
      position :
          (at base a : ℕ)
          → at ≡ o + suc j
          → base ≡ limit + j
          → a ≡ limit + 1 + i
          → at - 1 + a - base ≡ suc (o + i)
      position at base a f g u = omega (arith, f, g, u)
  onward_lem k at base limit o j n cnt (miss a left) f g next (u, is) =
      ap (λ y. scan_left ceiling floor k e target y e.begv left) (position at base a f g u)
      ∙ next left
      ∙ ap some (sym (is n))
    where
      position :
          (at base a : ℕ) → at ≡ o + suc j → base ≡ limit + j → a ≡ limit → at + a - (base + 1) ≡ o
      position at base a f g u = omega (arith, f, g, u)
  onward_lem k at base limit o j n cnt lost f g next h = absurd h

  -- The scan of a block from `at` to the position o.
  one_block :
      (k at o j n : ℕ) (cnt : ℤ)
      → e.begv ≤ o
      → at ≡ o + suc j
      → at ≤ e.zv
      → floor e (at - 1) ≤ o
      → ((left : ℤ)
          → scan_left ceiling floor k e target o e.begv left
            ≡ some (next_left n (char_at e) target o left))
      → onward k at (char_address e (at - 1)) (
          block_left
            (suc (char_address e (at - 1) + 1 - char_address e o))
            e.beg
            target
            (char_address e o)
            (char_address e (at - 1) + 2)
            cnt)
        ≡ some (next_left (suc j + n) (char_at e) target (o + suc j) cnt)
  one_block k at o j n cnt b is z h next =
      onward_lem k at (char_address e (at - 1)) (char_address e o) o j n cnt _ is base_is next (
        block_lem e.beg (char_at e) target (char_address e o) o
          (suc (char_address e (at - 1) + 1 - char_address e o)) (suc j)
          (char_address e (at - 1) + 2) cnt (omega (arith, base_is)) (omega (arith, base_is))
          beside)
    where
      from :
          (p i : ℕ)
          → floor e (at - 1) ≤ p
          → p + i ≡ at - 1
          → char_address e (at - 1) ≡ char_address e p + i
      from = (down (at - 1) (omega (arith, b, is)) (omega (arith, z, is))).1

      base_is : char_address e (at - 1) ≡ char_address e o + j
      base_is = from o j h (omega (arith, is))

      beside : Holds e.beg (char_at e) target (char_address e o) o (suc j)
      beside i l = ap e.beg (
          cancel (char_address e o) (char_address e (o + i)) (char_address e (at - 1)) i l base_is
            (from (o + i) (j - i) (omega (arith, h)) (omega (arith, l, is))))
        where
          cancel : (x y base i : ℕ) → i < suc j → base ≡ x + j → base ≡ y + (j - i) → x + i ≡ y
          cancel x y base i l f g = omega (arith, f, g, l)

  pub scan_left_lem :
      (k at : ℕ) (cnt : ℤ)
      → e.begv ≤ at
      → at ≤ e.zv
      → at - e.begv < k
      → scan_left ceiling floor k e target at e.begv cnt
        ≡ some (next_left (at - e.begv) (char_at e) target at cnt)
  unfolding scan_left next_left
  scan_left_lem zero at cnt b z f = absurd (omega arith)
  scan_left_lem (suc k) at cnt b z f = elim (Bool-cases (leb at e.begv)) [
    | inl h ↦ rw h (ap (λ n. some (next_left n (char_at e) target at cnt)) (nothing_left h))
    | inr h ↦ rw h (
        let o = (if ltb (floor e (at - 1)) e.begv then e.begv else floor e (at - 1)) in
        let bounds =
          lowest at (floor e (at - 1)) z (inside h)
            ((down (at - 1) (omega (arith, inside h)) (omega (arith, inside h, z))).0) in
        let j = at - 1 - o in
        let n = o - e.begv in
        let total : suc j + n ≡ at - e.begv = omega (arith, inside h, bounds) in
        let place : at ≡ o + suc j = omega (arith, inside h, bounds) in
        one_block k at o j n cnt bounds.0 place z bounds.2 (λ left.
          scan_left_lem k o left bounds.0 (omega (arith, bounds, z))
            (omega (arith, bounds, f, inside h)))
        ∙ ap (λ y. some (next_left y (char_at e) target (o + suc j) cnt)) total
        ∙ ap (λ y. some (next_left (at - e.begv) (char_at e) target y cnt)) (sym place))
  ]
    where
      nothing_left : leb at e.begv ≡ true → 0 ≡ at - e.begv
      nothing_left h = ground (arith, h)

      inside : leb at e.begv ≡ false → e.begv < at
      inside h = ground (arith, h)

      lowest :
          (at fl : ℕ)
          → at ≤ e.zv
          → e.begv < at
          → fl ≤ at - 1
          → let o = (if ltb fl e.begv then e.begv else fl) in (e.begv ≤ o) × (o < at) × (fl ≤ o)
      lowest at fl z i h = ground (arith, h, i)
