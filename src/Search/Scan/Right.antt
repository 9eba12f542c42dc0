-- ===== src/Search/Scan/Right.antt =====
-- The scan of a block to the right.
pub mod Loop
use mathlib.Core.Path.{subst}
use holomacs.Prelude.{
  ℕ, zero, suc, ◌+◌, ◌-◌, ◌<◌, ◌≤◌, ◌≡◌, refl, sym, ap, ◌∙◌, arith, Bool, true, false, ltb, leb,
  ◌==◌, if◌then◌else◌, ℤ, pos, negsuc, ◌+ℤ◌, ◌-ℤ◌, Bool-cases, inl, inr, ◌⊎◌, Option, none, some,
  min,
}
use holomacs.Editor.{Editor, char_at, char_address}
use holomacs.Search.{is_zero, seek_right, Block, hit, miss, lost, block_right, scan_right}
use holomacs.Search.Scan.{next_right}

module _ (m char : ℕ → ℕ) (target : ℕ) where
  -- The bytes of a block are characters.
  abbrev pub Holds : (c p k : ℕ) → Type 0
  Holds c p k = (i : ℕ) → i < k → m (c + i) ≡ char (p + i)

  Holds-first : (c p k : ℕ) → Holds c p (suc k) → m c ≡ char p
  Holds-first c p k h = ap m (omega arith) ∙ h 0 (omega arith) ∙ ap char (omega arith)

  Holds-rest : (c p k : ℕ) → Holds c p (suc k) → Holds (c + 1) (p + 1) k
  Holds-rest c p k h i j = ap m (omega arith) ∙ h (i + 1) (omega (arith, j)) ∙ ap char (omega arith)

  Holds-later :
      (c p k j rest q x : ℕ)
      → Holds c p (suc k)
      → q ≡ c + j
      → j + suc rest ≡ k
      → x ≡ p + j
      → Holds (q + 1) (x + 1) (suc rest)
  Holds-later c p k j rest q x h e f at i l =
      ap m (shift c j q i e)
      ∙ h (j + 1 + i) (omega (arith, f, l))
      ∙ ap char (sym (shift p j x i at))
    where
      shift : (c j q i : ℕ) → q ≡ c + j → q + 1 + i ≡ c + (j + 1 + i)
      shift c j q i e = omega (arith, e)

  -- What the look at `k + 1` characters and n others is when the first target is j on, at x.
  abbrev pub Sought : (c p k q : ℕ) → Type 0
  Sought c p k q =
      (j : ℕ) × (rest : ℕ) × (x : ℕ) × (q ≡ c + j)
      × (j + rest ≡ k)
      × (x ≡ p + j)
      × ((n : ℕ) (cnt : ℤ)
          → next_right (suc (k + n)) char target p cnt ≡ (
              if is_zero (cnt -ℤ pos 1)
              then (x + 1, pos 0)
              else next_right (rest + n) char target (x + 1) (cnt -ℤ pos 1)))

  abbrev pub Unfound : (p k : ℕ) → Type 0
  Unfound p k =
      (x : ℕ) × (x ≡ p + suc k)
      × ((n : ℕ) (cnt : ℤ)
          → next_right (suc (k + n)) char target p cnt ≡ next_right n char target x cnt)

  same_char :
      (c p k : ℕ) (b : Bool) → Holds c p (suc k) → (m c == target) ≡ b → (char p == target) ≡ b
  same_char c p k b h t = subst (λ x. (x == target) ≡ b) (Holds-first c p k h) t

  counted :
      (k k' p p' : ℕ) (cnt : ℤ)
      → k ≡ k'
      → p ≡ p'
      → next_right k char target p cnt ≡ next_right k' char target p' cnt
  counted k k' p p' cnt e f =
      ap (λ y. next_right y char target p cnt) e ∙ ap (λ y. next_right k' char target y cnt) f

  behind : (p p' : ℕ) → p ≡ p' → ◌≡◌ {A = ℕ × ℤ} (p, pos 0) (p', pos 0)
  behind p p' e = ap (λ y. (y, pos 0)) e

  -- A character that is not the target, before k others.
  passed :
      (p k n : ℕ) (cnt : ℤ)
      → (char p == target) ≡ false
      → next_right (suc (suc k + n)) char target p cnt
        ≡ next_right (suc (k + n)) char target (p + 1) cnt
  unfolding next_right
  passed p k n cnt t =
      rw t (counted (suc k + n) (suc (k + n)) (p + 1) (p + 1) cnt (omega arith) refl)

  Outcome : (c p k limit q : ℕ) → Type 0
  Outcome c p k limit q = ((q ≡ limit) × Unfound p k) ⊎ Sought c p k q

  found_here :
      (c p k limit : ℕ) → Holds c p (suc k) → (m c == target) ≡ true → Outcome c p k limit c
  unfolding next_right Outcome
  found_here c p k limit h t =
      inr (
        0,
        k,
        p,
        omega arith,
        omega arith,
        omega arith,
        λ n cnt. rw (same_char c p k true h t) refl,
      )

  end_here : (c p limit : ℕ) → Holds c p 1 → (m c == target) ≡ false → Outcome c p 0 limit limit
  unfolding next_right Outcome
  end_here c p limit h t = inl (
    refl,
    (
      p + 1,
      omega arith,
      λ n cnt.
          rw (same_char c p 0 false h t) (counted (0 + n) n (p + 1) (p + 1) cnt (omega arith) refl),
    ),
  )

  found_later :
      (c p k limit q : ℕ)
      → (char p == target) ≡ false
      → Outcome (c + 1) (p + 1) k limit q
      → Outcome c p (suc k) limit q
  unfolding Outcome
  found_later c p k limit q t (inl (e, (x, at, is))) =
      inl (e, (x, omega (arith, at), λ n cnt. passed p k n cnt t ∙ is n cnt))
  found_later c p k limit q t (inr (j, rest, x, e, f, at, is)) = inr (
    suc j,
    rest,
    x,
    omega (arith, e),
    omega (arith, f),
    omega (arith, at),
    λ n cnt. passed p k n cnt t ∙ is n cnt,
  )

  at_end : (c limit : ℕ) → limit ≡ c + 1 → (c + 1 == limit) ≡ true
  at_end c limit e = ground (arith, e)

  before_end : (c k limit : ℕ) → limit ≡ c + suc (suc k) → (c + 1 == limit) ≡ false
  before_end c k limit e = ground (arith, e)

  seek_lem :
      (r k c p limit : ℕ)
      → suc k ≤ r
      → limit ≡ c + suc k
      → Holds c p (suc k)
      → Outcome c p k limit (seek_right r m target limit c)
  unfolding seek_right
  seek_lem zero k c p limit f e h = absurd (omega arith)
  seek_lem (suc r) zero c p limit f e h = elim (Bool-cases (m c == target)) [
    | inl t ↦ rw t (found_here c p 0 limit h t)
    | inr t ↦ rw t (rw (at_end c limit e) (end_here c p limit h t))
  ]
  seek_lem (suc r) (suc k) c p limit f e h = elim (Bool-cases (m c == target)) [
    | inl t ↦ rw t (found_here c p (suc k) limit h t)
    | inr t ↦ rw t (
        rw (before_end c k limit e) (
          found_later c p k limit (seek_right r m target limit (c + 1))
            (same_char c p (suc k) false h t)
            (seek_lem r k (c + 1) (p + 1) limit (omega (arith, f)) (omega (arith, e))
              (Holds-rest c p (suc k) h))))
  ]

  -- What the look at the `k + 1` characters of a block and n others is when the block has been scanned.
  unfoldable pub Scanned : (c p k limit : ℕ) → (cnt : ℤ) → Block → Type 0
  Scanned c p k limit cnt (hit a) =
      (j : ℕ) × (a ≡ c + j)
      × ((n : ℕ) → next_right (suc (k + n)) char target p cnt ≡ (p + j + 1, pos 0))
  Scanned c p k limit cnt (miss a left) =
      (a ≡ limit)
      × ((n : ℕ)
          → next_right (suc (k + n)) char target p cnt ≡ next_right n char target (p + suc k) left)
  Scanned c p k limit cnt lost = ⊥

  Scanned-later :
      (c p k limit q x rest : ℕ) (cnt left : ℤ) (b : Block) (j : ℕ)
      → q ≡ c + j
      → j + suc rest ≡ k
      → x ≡ p + j
      → ((n : ℕ)
          → next_right (suc (k + n)) char target p cnt
            ≡ next_right (suc rest + n) char target (x + 1) left)
      → Scanned (q + 1) (x + 1) rest limit left b
      → Scanned c p k limit cnt b
  unfolding Scanned
  Scanned-later c p k limit q x rest cnt left (hit a) j e f at is (i, u, same) = (
    j + i + 1,
    omega (arith, e, u),
    λ n.
        is n
        ∙ counted (suc rest + n) (suc (rest + n)) (x + 1) (x + 1) left (omega arith) refl
        ∙ same n
        ∙ behind (x + 1 + i + 1) (p + (j + i + 1) + 1) (omega (arith, at)),
  )
  Scanned-later c p k limit q x rest cnt left (miss a l) j e f at is (u, same) = (
    u,
    λ n.
        is n
        ∙ counted (suc rest + n) (suc (rest + n)) (x + 1) (x + 1) left (omega arith) refl
        ∙ same n
        ∙ counted n n (x + 1 + suc rest) (p + suc k) l refl (omega (arith, at, f)),
  )
  Scanned-later c p k limit q x rest cnt left lost j e f at is h = h

  -- What the code does where a byte has been found or not.
  after_seek : (r limit q : ℕ) → (cnt : ℤ) → Block
  after_seek r limit q cnt =
      if q == limit
      then miss q cnt
      else if is_zero (cnt -ℤ pos 1)
      then hit q
      else if q + 1 == limit
      then miss limit (cnt -ℤ pos 1)
      else block_right r m target limit (q + 1) (cnt -ℤ pos 1)

  same_end : (q limit : ℕ) → q ≡ limit → (q == limit) ≡ true
  same_end q limit e = ground (arith, e)

  inside : (q limit : ℕ) → q < limit → (q == limit) ≡ false
  inside q limit e = ground (arith, e)

  after_seek-Scanned :
      (r k c p limit q : ℕ) (cnt : ℤ)
      → limit ≡ c + suc k
      → Holds c p (suc k)
      → ((k' c' p' : ℕ)
          → k' < k
          → limit ≡ c' + suc k'
          → Holds c' p' (suc k')
          → Scanned c' p' k' limit (cnt -ℤ pos 1) (block_right r m target limit c' (cnt -ℤ pos 1)))
      → Outcome c p k limit q
      → Scanned c p k limit cnt (after_seek r limit q cnt)
  unfolding after_seek Scanned Outcome
  after_seek-Scanned r k c p limit q cnt e h next (inl (u, (x, at, is))) =
      rw (same_end q limit u) (u, λ n. is n cnt ∙ counted n n x (p + suc k) cnt refl at)
  after_seek-Scanned r k c p limit q cnt e h next (inr (j, rest, x, u, f, at, is)) =
      rw (inside q limit (omega (arith, e, u, f))) (elim (Bool-cases (is_zero (cnt -ℤ pos 1))) [
        | inl z ↦ rw z (j, u, λ n. is n cnt ∙ rw z (behind (x + 1) (p + j + 1) (omega (arith, at))))
        | inr z ↦ rw z (go rest f (λ n. is n cnt ∙ rw z refl))
      ])
    where
      go :
          (rest : ℕ)
          → j + rest ≡ k
          → ((n : ℕ)
              → next_right (suc (k + n)) char target p cnt
                ≡ next_right (rest + n) char target (x + 1) (cnt -ℤ pos 1))
          → Scanned c p k limit cnt (
              if q + 1 == limit
              then miss limit (cnt -ℤ pos 1)
              else block_right r m target limit (q + 1) (cnt -ℤ pos 1))
      go zero f is = rw (same_end (q + 1) limit (omega (arith, e, u, f))) (
        refl,
        λ n.
            is n
            ∙ counted (0 + n) n (x + 1) (p + suc k) (cnt -ℤ pos 1) (omega arith)
                (omega (arith, at, f)),
      )
      go (suc rest) f is = rw (inside (q + 1) limit (omega (arith, e, u, f))) (
          Scanned-later c p k limit q x rest cnt (cnt -ℤ pos 1)
            (block_right r m target limit (q + 1) (cnt -ℤ pos 1)) j u f at is
            (next rest (q + 1) (x + 1) (omega (arith, f)) (omega (arith, e, u, f))
              (Holds-later c p k j rest q x h u f at)))

  pub block_lem :
      (r k c p limit : ℕ) (cnt : ℤ)
      → suc k ≤ r
      → limit ≡ c + suc k
      → Holds c p (suc k)
      → Scanned c p k limit cnt (block_right r m target limit c cnt)
  unfolding block_right after_seek
  block_lem zero k c p limit cnt f e h = absurd (omega arith)
  block_lem (suc r) k c p limit cnt f e h =
      after_seek-Scanned r k c p limit (seek_right (limit - c) m target limit c) cnt e h
        (λ k' c' p' less e' h'.
          block_lem r k' c' p' limit (cnt -ℤ pos 1) (omega (arith, f, less)) e' h')
        (seek_lem (limit - c) k c p limit (omega (arith, e)) e h)
