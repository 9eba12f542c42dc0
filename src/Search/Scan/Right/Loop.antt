-- ===== src/Search/Scan/Right/Loop.antt =====
-- The scan to the right, block by block.
use mathlib.Core.Path.{subst}
use holomacs.Prelude.{
  ℕ, zero, suc, ◌+◌, ◌-◌, ◌<◌, ◌≤◌, ◌≡◌, refl, sym, ap, ◌∙◌, arith, true, false, ◌==◌, ℤ, pos,
  Bool-cases, inl, inr, Option, none, some, min,
}
use holomacs.Editor.{Editor, char_at, char_address}
use holomacs.Search.{Block, hit, miss, lost, block_right, scan_right}
use holomacs.Search.Scan.{next_right}
use holomacs.Search.Scan.Right.{Holds, Scanned, block_lem}

-- What the scan relies on: from each visible position to its ceiling the characters lie side by side.
abbrev pub IsCeiling : Editor → (Editor → ℕ → ℕ) → Type 0
IsCeiling e ceiling =
    (n : ℕ)
    → e.begv ≤ n
    → n < e.zv
    → (n ≤ ceiling e n)
      × ((i : ℕ) → n + i ≤ ceiling e n → char_address e (n + i) ≡ char_address e n + i)

module _ (ceiling floor : Editor → ℕ → ℕ) (e : Editor) (target : ℕ) (up : IsCeiling e ceiling)
    (low : 1 ≤ e.begv) where
  -- What the loop does with what a block comes to.
  abbrev onward : (k at base : ℕ) → Block → Option (ℕ × ℤ)
  onward k at base b = elim b [
    | hit c ↦ some (at + c - base + 1, pos 0)
    | miss c cnt' ↦ scan_right ceiling floor k e target (at + c - base) (e.zv - 1) cnt'
    | lost ↦ none
  ]

  onward_lem :
      (k at base j n : ℕ) (cnt : ℤ) (b : Block)
      → at + suc j + n ≡ e.zv
      → ((left : ℤ)
          → scan_right ceiling floor k e target (at + suc j) (e.zv - 1) left
            ≡ some (next_right n (char_at e) target (at + suc j) left))
      → Scanned e.beg (char_at e) target base at j (base + suc j) cnt b
      → onward k at base b ≡ some (next_right (suc (j + n)) (char_at e) target at cnt)
  unfolding Scanned
  onward_lem k at base j n cnt (hit a) f next (i, u, is) =
      ap (λ y. some (y, pos 0)) (position at base i a u) ∙ ap some (sym (is n))
    where
      position : (at base i a : ℕ) → a ≡ base + i → at + a - base + 1 ≡ at + i + 1
      position at base i a u = omega (arith, u)
  onward_lem k at base j n cnt (miss a left) f next (u, is) =
      ap (λ y. scan_right ceiling floor k e target y (e.zv - 1) left) (position at base j a u)
      ∙ next left
      ∙ ap some (sym (is n))
    where
      position : (at base j a : ℕ) → a ≡ base + suc j → at + a - base ≡ at + suc j
      position at base j a u = omega (arith, u)
  onward_lem k at base j n cnt lost f next h = absurd h

  one_block :
      (k at j n last : ℕ) (cnt : ℤ)
      → e.begv ≤ at
      → last ≡ at + j
      → at + suc j + n ≡ e.zv
      → last ≤ ceiling e at
      → ((left : ℤ)
          → scan_right ceiling floor k e target (at + suc j) (e.zv - 1) left
            ≡ some (next_right n (char_at e) target (at + suc j) left))
      → onward k at (char_address e at) (
          block_right
            (suc (char_address e last + 1 - char_address e at))
            e.beg
            target
            (char_address e last + 1)
            (char_address e at)
            cnt)
        ≡ some (next_right (suc (j + n)) (char_at e) target at cnt)
  one_block k at j n last cnt b is f h next = onward_lem k at (char_address e at) j n cnt _ f next (
      subst
        (λ limit.
          Scanned e.beg (char_at e) target (char_address e at) at j (char_address e at + suc j) cnt
            (block_right (suc (limit - char_address e at)) e.beg target limit (char_address e at)
              cnt))
        (sym limit_is)
        (block_lem e.beg (char_at e) target (suc (char_address e at + suc j - char_address e at)) j
          (char_address e at) at (char_address e at + suc j) cnt (omega arith) refl beside))
    where
      beside : Holds e.beg (char_at e) target (char_address e at) at (suc j)
      beside i l = ap e.beg (sym ((up at b (omega (arith, f))).1 i (omega (arith, l, h, is))))

      limit_is : char_address e last + 1 ≡ char_address e at + suc j
      limit_is =
          ap (λ x. char_address e x + 1) is
          ∙ omega (arith, (up at b (omega (arith, f))).1 j (omega (arith, h, is)))

  pub scan_right_lem :
      (k at : ℕ) (cnt : ℤ)
      → e.begv ≤ at
      → at ≤ e.zv
      → e.zv - at < k
      → scan_right ceiling floor k e target at (e.zv - 1) cnt
        ≡ some (next_right (e.zv - at) (char_at e) target at cnt)
  unfolding scan_right next_right
  scan_right_lem zero at cnt b z f = absurd (omega arith)
  scan_right_lem (suc k) at cnt b z f = elim (Bool-cases (at == e.zv - 1 + 1)) [
    | inl h ↦ rw h (ap (λ n. some (next_right n (char_at e) target at cnt)) (nothing_left h))
    | inr h ↦ rw h (
        let last = min (e.zv - 1) (ceiling e at) in
        let j = last - at in
        let n = e.zv - (at + suc j) in
        let total : suc (j + n) ≡ e.zv - at = omega (arith, inside h, (up at b (inside h)).0) in
        one_block k at j n last cnt b (omega (arith, inside h, (up at b (inside h)).0))
          (omega (arith, inside h)) (omega (arith, (up at b (inside h)).0))
          (λ left.
            scan_right_lem k (at + suc j) left (omega (arith, b)) (omega (arith, inside h))
              (omega (arith, f, inside h)))
        ∙ ap (λ y. some (next_right y (char_at e) target at cnt)) total)
  ]
    where
      nothing_left : (at == e.zv - 1 + 1) ≡ true → 0 ≡ e.zv - at
      nothing_left h = ground (arith, h, low, b, z)

      inside : (at == e.zv - 1 + 1) ≡ false → at < e.zv
      inside h = ground (arith, h, z, low)
