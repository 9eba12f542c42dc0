-- ===== src/Search/Scan/Left.antt =====
-- The scan of a block to the left.
pub mod Loop
use mathlib.Core.Path.{subst}
use holomacs.Prelude.{
  ℕ, zero, suc, ◌+◌, ◌-◌, ◌<◌, ◌≤◌, ◌≡◌, refl, sym, ap, ◌∙◌, arith, Bool, true, false, ltb, leb,
  ◌==◌, if◌then◌else◌, ℤ, pos, negsuc, ◌+ℤ◌, ◌-ℤ◌, Bool-cases, inl, inr, ◌⊎◌,
}
use holomacs.Search.{is_zero, seek_left, Block, hit, miss, lost, block_left}
use holomacs.Search.Scan.{next_left}

-- A block has its lowest byte at `limit`, which is the character at o.
module _ (m char : ℕ → ℕ) (target limit o : ℕ) where
  abbrev pub Holds : (k : ℕ) → Type 0
  Holds k = (i : ℕ) → i < k → m (limit + i) ≡ char (o + i)

  -- What the look at the `k` lowest characters of the block, and n below it, is when the last target
  -- is at j, and when there is none.
  abbrev Sought : (k q : ℕ) → Type 0
  Sought k q =
      (j : ℕ) × (q ≡ limit + 1 + j)
      × (j < k)
      × ((n : ℕ) (cnt : ℤ)
          → next_left (k + n) char target (o + k) cnt ≡ (
              if is_zero (cnt +ℤ pos 1)
              then (suc (o + j), pos 0)
              else next_left (j + n) char target (o + j) (cnt +ℤ pos 1)))

  abbrev Unfound : (k : ℕ) → Type 0
  Unfound k =
      (n : ℕ) (cnt : ℤ) → next_left (k + n) char target (o + k) cnt ≡ next_left n char target o cnt

  Outcome : (k q : ℕ) → Type 0
  Outcome k q = ((q ≡ limit) × Unfound k) ⊎ Sought k q

  counted :
      (k k' p p' : ℕ) (cnt : ℤ)
      → k ≡ k'
      → p ≡ p'
      → next_left k char target p cnt ≡ next_left k' char target p' cnt
  counted k k' p p' cnt e f =
      ap (λ y. next_left y char target p cnt) e ∙ ap (λ y. next_left k' char target y cnt) f

  -- The look at one character.
  looked :
      (k n : ℕ) (cnt : ℤ) (b : Bool)
      → (char (o + k) == target) ≡ b
      → next_left (suc k + n) char target (o + suc k) cnt ≡ (
          if b
          then (if is_zero (cnt +ℤ pos 1)
              then (suc (o + k), pos 0)
              else next_left (k + n) char target (o + k) (cnt +ℤ pos 1))
          else next_left (k + n) char target (o + k) cnt)
  unfolding next_left
  looked k n cnt b t =
      counted (suc k + n) (suc (k + n)) (o + suc k) (suc (o + k)) cnt (omega arith) (omega arith)
      ∙ rw (one_less (o + k)) (rw t refl)
    where
      one_less : (x : ℕ) → suc x - 1 ≡ x
      one_less x = omega arith

  passed : (k q : ℕ) → (char (o + k) == target) ≡ false → Outcome k q → Outcome (suc k) q
  unfolding Outcome
  passed k q t (inl (e, is)) = inl (e, λ n cnt. looked k n cnt false t ∙ is n cnt)
  passed k q t (inr (j, e, less, is)) =
      inr (j, e, omega (arith, less), λ n cnt. looked k n cnt false t ∙ is n cnt)

  seek_lem :
      (r k c : ℕ)
      → suc k ≤ r
      → c ≡ limit + 1 + k
      → Holds k
      → Outcome k (seek_left r m target limit c)
  unfolding seek_left Outcome
  seek_lem zero k c f e h = absurd (omega arith)
  seek_lem (suc r) zero c f e h =
      rw (at_limit c e)
        (inl (refl, λ n cnt. counted (0 + n) n (o + 0) o cnt (omega arith) (omega arith)))
    where
      at_limit : (c : ℕ) → c ≡ limit + 1 + 0 → (c - 1 == limit) ≡ true
      at_limit c e = ground (arith, e)
  seek_lem (suc r) (suc k) c f e h = elim (Bool-cases (m (c - 1 - 1) == target)) [
    | inl t ↦ rw (above c e) (
        rw t
          (inr (k, omega (arith, e), omega arith, λ n cnt. looked k n cnt true (same_char true t))))
    | inr t ↦ rw (above c e) (
        rw t (
          passed k (seek_left r m target limit (c - 1)) (same_char false t) (
            seek_lem r k (c - 1) (omega (arith, f)) (omega (arith, e))
              (λ i l. h i (omega (arith, l))))))
  ]
    where
      above : (c : ℕ) → c ≡ limit + 1 + suc k → (c - 1 == limit) ≡ false
      above c e = ground (arith, e)

      at_byte : (c : ℕ) → c ≡ limit + 1 + suc k → c - 1 - 1 ≡ limit + k
      at_byte c e = omega (arith, e)

      same_char : (b : Bool) → (m (c - 1 - 1) == target) ≡ b → (char (o + k) == target) ≡ b
      same_char b t = subst (λ x. (x == target) ≡ b) (ap m (at_byte c e) ∙ h k (omega arith)) t

  -- What the look comes to when the block has been scanned.
  unfoldable pub Scanned : (k : ℕ) → (cnt : ℤ) → Block → Type 0
  Scanned k cnt (hit a) =
      (j : ℕ) × (a ≡ limit + 1 + j)
      × ((n : ℕ) → next_left (k + n) char target (o + k) cnt ≡ (suc (o + j), pos 0))
  Scanned k cnt (miss a left) =
      (a ≡ limit)
      × ((n : ℕ) → next_left (k + n) char target (o + k) cnt ≡ next_left n char target o left)
  Scanned k cnt lost = ⊥

  Scanned-from :
      (k j : ℕ) (cnt left : ℤ) (b : Block)
      → ((n : ℕ)
          → next_left (k + n) char target (o + k) cnt ≡ next_left (j + n) char target (o + j) left)
      → Scanned j left b
      → Scanned k cnt b
  unfolding Scanned
  Scanned-from k j cnt left (hit a) is (i, e, same) = (i, e, λ n. is n ∙ same n)
  Scanned-from k j cnt left (miss a l) is (e, same) = (e, λ n. is n ∙ same n)
  Scanned-from k j cnt left lost is h = h

  same_end : (q : ℕ) → q ≡ limit → (q == limit) ≡ true
  same_end q e = ground (arith, e)

  inside : (q : ℕ) → limit < q → (q == limit) ≡ false
  inside q e = ground (arith, e)

  after_seek :
      (r k q : ℕ) (cnt : ℤ)
      → Outcome k q
      → ((j : ℕ)
          → j < k
          → q ≡ limit + 1 + j
          → Scanned j (cnt +ℤ pos 1) (block_left r m target limit q (cnt +ℤ pos 1)))
      → Scanned k cnt (
          if q == limit
          then miss q cnt
          else if is_zero (cnt +ℤ pos 1)
          then hit q
          else block_left r m target limit q (cnt +ℤ pos 1))
  unfolding Outcome Scanned
  after_seek r k q cnt (inl (e, is)) next = rw (same_end q e) (e, λ n. is n cnt)
  after_seek r k q cnt (inr (j, e, less, is)) next =
      rw (inside q (omega (arith, e))) (elim (Bool-cases (is_zero (cnt +ℤ pos 1))) [
        | inl z ↦ rw z (j, e, λ n. is n cnt ∙ rw z refl)
        | inr z ↦ rw z (
            Scanned-from k j cnt (cnt +ℤ pos 1) (block_left r m target limit q (cnt +ℤ pos 1))
              (λ n. is n cnt ∙ rw z refl) (next j less e))
      ])

  pub block_lem :
      (r k c : ℕ) (cnt : ℤ)
      → suc k ≤ r
      → c ≡ limit + 1 + k
      → Holds k
      → Scanned k cnt (block_left r m target limit c cnt)
  unfolding block_left
  block_lem zero k c cnt f e h = absurd (omega arith)
  block_lem (suc r) k c cnt f e h =
      after_seek r k (seek_left (c - limit) m target limit c) cnt
        (seek_lem (c - limit) k c (omega (arith, e)) e h)
        (λ j less at.
          block_lem r j (seek_left (c - limit) m target limit c) (cnt +ℤ pos 1)
            (omega (arith, f, less)) at (λ i l. h i (omega (arith, l, less))))
