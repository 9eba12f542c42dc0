-- ===== src/Search/Scan/Count.antt =====
-- How many targets a look at one character after the other passes.
use holomacs.Prelude.{
  ℕ, zero, suc, ◌+◌, ◌-◌, ◌≤◌, ◌≡◌, refl, ap, ◌∙◌, ◌⊎◌, arith, true, false, ◌==◌, if◌then◌else◌, ℤ,
  pos, negsuc, ◌+ℤ◌, ◌-ℤ◌, Bool-cases, inl, inr,
}
use mathlib.Core.Path.{subst}
use holomacs.Search.{is_zero}
use holomacs.Search.Scan.{next_right, next_left}

module _ (char : ℕ → ℕ) (target : ℕ) where
  abbrev hit : ℕ → ℕ
  hit p = if char p == target then 1 else 0

  -- The targets among `k` characters from position p on.
  unfoldable pub targets : (k p : ℕ) → ℕ
  targets zero p = 0
  targets (suc k) p = hit p + targets k (p + 1)

  -- The first `i` of `k` characters are passed, with the n-th target as the last of them; or there are
  -- fewer targets, all characters are passed, and the others are left.
  abbrev pub PassedRight : (k p n : ℕ) → ℕ × ℤ → Type 0
  PassedRight k p n (q, left) =
      (i : ℕ) × (i ≤ k)
      × (q ≡ p + i)
      × (((targets i p ≡ n) × ((char (q - 1) == target) ≡ true) × (left ≡ pos 0))
          ⊎ ((i ≡ k) × ((m : ℕ) × (targets i p + suc m ≡ n) × (left ≡ pos (suc m)))))

  right_again :
      (k p n m : ℕ) (r : ℕ × ℤ)
      → hit p + m ≡ n
      → PassedRight k (p + 1) m r
      → PassedRight (suc k) p n r
  unfolding targets
  right_again k p n m (q, left) e (i, h, at, inl (t, c, z)) =
      (suc i, omega (arith, h), omega (arith, at), inl (omega (arith, t, e), c, z))
  right_again k p n m (q, left) e (i, h, at, inr (all, (d, t, z))) = (
    suc i,
    omega (arith, h),
    omega (arith, at),
    inr (omega (arith, all), (d, omega (arith, t, e), z)),
  )

  hit_here : (p : ℕ) → (char p == target) ≡ true → hit p ≡ 1
  hit_here p t = rw t refl

  no_hit : (p : ℕ) → (char p == target) ≡ false → hit p ≡ 0
  no_hit p t = rw t refl

  less_one : (m : ℕ) → pos (suc m) -ℤ pos 1 ≡ pos m
  unfolding ◌-ℤ◌
  less_one m = ground arith

  more_one : (m : ℕ) → negsuc (suc m) +ℤ pos 1 ≡ negsuc m
  unfolding ◌+ℤ◌
  more_one m = ground arith

  not_zero : (n : ℕ) → (suc n == 0) ≡ false
  not_zero n = ground arith

  right_hit :
      (k p n : ℕ)
      → (char p == target) ≡ true
      → ((m : ℕ) → PassedRight k (p + 1) (suc m) (next_right k char target (p + 1) (pos (suc m))))
      → PassedRight
          (suc k)
          p
          (suc n)
          (if is_zero (pos n) then (p + 1, pos 0) else next_right k char target (p + 1) (pos n))
  unfolding targets
  right_hit k p zero t rest = (
    1,
    omega arith,
    refl,
    inl (omega (arith, hit_here p t), subst (λ x. (char x == target) ≡ true) (omega arith) t, refl),
  )
  right_hit k p (suc n) t rest = rw (not_zero n) (
      right_again k p (suc (suc n)) (suc n) (next_right k char target (p + 1) (pos (suc n)))
        (omega (arith, hit_here p t)) (rest n))

  pub next_right-PassedRight :
      (k p n : ℕ) → PassedRight k p (suc n) (next_right k char target p (pos (suc n)))
  unfolding next_right targets
  next_right-PassedRight zero p n =
      (0, omega arith, omega arith, inr (refl, (n, omega arith, refl)))
  next_right-PassedRight (suc k) p n = elim (Bool-cases (char p == target)) [
    | inl t ↦ rw t (rw (less_one n) (right_hit k p n t (λ m. next_right-PassedRight k (p + 1) m)))
    | inr t ↦ rw t (
        right_again k p (suc n) (suc n) (next_right k char target (p + 1) (pos (suc n)))
          (omega (arith, no_hit p t)) (next_right-PassedRight k (p + 1) n))
  ]

  -- The last `i` characters before p are passed, with n targets in them and one more in front of them;
  -- or no character is left, and the targets that there are and the others are n.
  abbrev pub PassedLeft : (o p n : ℕ) → ℕ × ℤ → Type 0
  PassedLeft o p n (q, left) =
      (i : ℕ) × (o ≤ q)
      × (q + i ≡ p)
      × (((targets i q ≡ n) × ((char (q - 1) == target) ≡ true) × (left ≡ pos 0))
          ⊎ ((q ≡ o) × ((m : ℕ) × (targets i q + m ≡ n) × (left ≡ pos (suc m)))))

  targets_end : (k p : ℕ) → targets (suc k) p ≡ targets k p + hit (p + k)
  unfolding targets
  targets_end zero p = ap (λ x. hit x + 0) (plus_zero p) ∙ omega arith
    where
      plus_zero : (p : ℕ) → p ≡ p + 0
      plus_zero p = omega arith
  targets_end (suc k) p = omega (arith, targets_end k (p + 1), ap hit (shift p k))
    where
      shift : (p k : ℕ) → p + 1 + k ≡ p + suc k
      shift p k = omega arith

  left_again :
      (o p n m : ℕ) (r : ℕ × ℤ)
      → 1 ≤ p
      → hit (p - 1) + m ≡ n
      → PassedLeft o (p - 1) m r
      → PassedLeft o p n r
  left_again o p n m (q, left) low e (i, h, at, inl (t, c, z)) = (
    suc i,
    h,
    omega (arith, at, low),
    inl (omega (arith, t, e, targets_end i q, ap hit at), c, z),
  )
  left_again o p n m (q, left) low e (i, h, at, inr (all, (d, t, z))) = (
    suc i,
    h,
    omega (arith, at, low),
    inr (all, (d, omega (arith, t, e, targets_end i q, ap hit at), z)),
  )

  left_hit :
      (k o p n : ℕ)
      → o ≤ p
      → 1 ≤ p
      → (char (p - 1) == target) ≡ true
      → ((m : ℕ) → PassedLeft o (p - 1) m (next_left k char target (p - 1) (negsuc m)))
      → PassedLeft o p n (
          if is_zero (negsuc n +ℤ pos 1)
          then (p, pos 0)
          else next_left k char target (p - 1) (negsuc n +ℤ pos 1))
  unfolding targets ◌+ℤ◌
  left_hit k o p zero b low t rest = (0, b, omega arith, inl (refl, t, refl))
  left_hit k o p (suc n) b low t rest = rw (more_one n) (
      left_again o p (suc n) n (next_left k char target (p - 1) (negsuc n)) low
        (omega (arith, hit_here (p - 1) t)) (rest n))

  minus : (n : ℕ) → pos 0 -ℤ negsuc n ≡ pos (suc n)
  unfolding ◌-ℤ◌
  minus n = ground arith

  pub next_left-PassedLeft :
      (k o p n : ℕ) → 1 ≤ o → p ≡ o + k → PassedLeft o p n (next_left k char target p (negsuc n))
  unfolding next_left targets
  next_left-PassedLeft zero o p n low e =
      (0, omega (arith, e), omega arith, inr (omega (arith, e), (n, omega arith, minus n)))
  next_left-PassedLeft (suc k) o p n low e = elim (Bool-cases (char (p - 1) == target)) [
    | inl t ↦ rw t (
        left_hit k o p n (omega (arith, e)) (omega (arith, e, low)) t
          (λ m. next_left-PassedLeft k o (p - 1) m low (omega (arith, e))))
    | inr t ↦ rw t (
        left_again o p n n (next_left k char target (p - 1) (negsuc n)) (omega (arith, e, low))
          (omega (arith, no_hit (p - 1) t))
          (next_left-PassedLeft k o (p - 1) n low (omega (arith, e))))
  ]
