-- ===== src/Search/SkipChars/Motion.antt =====
-- That skip_chars ends, and where.
use holomacs.Prelude.{
  ℕ, zero, suc, ◌+◌, ◌-◌, ◌%◌, ◌<◌, ◌≤◌, ◌≡◌, refl, ap, arith, Bool, true, false, not, Option, none,
  some, List, [], ◌∷◌, leb, ◌==◌, if◌then◌else◌, ℤ, length, Bool-cases, inl, inr, ◌⊎◌,
}
use mathlib.Core.Path.{subst}
use holomacs.Editor.{Editor, ok, fault, char_at}
use holomacs.Search.SkipChars.{
  FastMap, mark, mark_range, range_or_char, quoted, read_set, fastmap, skip_limit, skip_right,
  skip_left, skip_chars,
}

-- No byte of the string is the last one, 255.
abbrev pub Below255 : List ℕ → Type 0
Below255 [] = Unit {0}
Below255 (c ∷ p) = (c < 255) × Below255 p

mark_range_lem :
    (k c high : ℕ) (f : FastMap)
    → c < 256
    → high < 255
    → 0 < k
    → high + 1 < k + c
    → (f' : FastMap) × (mark_range k c high f ≡ some f')
unfolding mark_range
mark_range_lem zero c high f a b z d = absurd (omega (arith, z))
mark_range_lem (suc k) c high f a b z d = elim (Bool-cases (leb c high)) [
  | inr h ↦ rw h (f, refl)
  | inl h ↦ rw h (
      mark_range_lem k ((c + 1) % 256) high (mark f c) (omega arith) b
        (some_left c d (ground (arith, h))) (next c d (ground (arith, h))))
]
  where
    some_left : (c : ℕ) → high + 1 < suc k + c → c ≤ high → 0 < k
    some_left c d h = omega (arith, d, h)

    next : (c : ℕ) → high + 1 < suc k + c → c ≤ high → high + 1 < k + (c + 1) % 256
    next c d h = omega (arith, d, h, b)

-- What the rest of the set makes of a fastmap.
abbrev Total : (List ℕ → FastMap → Option FastMap) → (n : ℕ) → Type 0
Total go n =
    (q : List ℕ) (g : FastMap) → length q ≤ n → Below255 q → (f' : FastMap) × (go q g ≡ some f')

range_or_char_lem :
    (c : ℕ) (p : List ℕ) (f : FastMap) (go : List ℕ → FastMap → Option FastMap)
    → c < 255
    → Below255 p
    → Total go (length p)
    → (f' : FastMap) × (range_or_char c p f go ≡ some f')
range_or_char_lem c [] f go a b t = t [] (mark f c) (omega arith) b
range_or_char_lem c (d ∷ []) f go a b t = elim (Bool-cases (d == b'-')) [
  | inl h ↦ rw h (f, refl)
  | inr h ↦ rw h (t (d ∷ []) (mark f c) (omega arith) b)
]
range_or_char_lem c (d ∷ high ∷ p) f go a b t = elim (Bool-cases (d == b'-')) [
  | inl h ↦ rw h (
      let r =
        mark_range_lem 256 c high f (omega (arith, a)) b.1.0 (omega arith) (omega (arith, b.1.0)) in
      rw r.1 (t p r.0 (omega arith) b.1.1))
  | inr h ↦ rw h (t (d ∷ high ∷ p) (mark f c) (omega arith) b)
]

quoted_lem :
    (c : ℕ) (p : List ℕ) (f : FastMap) (go : List ℕ → FastMap → Option FastMap)
    → c < 255
    → Below255 p
    → Total go (length p)
    → (f' : FastMap) × (quoted c p f go ≡ some f')
quoted_lem c [] f go a b t = elim (Bool-cases (c == b'\\')) [
  | inl h ↦ rw h (f, refl)
  | inr h ↦ rw h (range_or_char_lem c [] f go a b t)
]
quoted_lem c (d ∷ p) f go a b t = elim (Bool-cases (c == b'\\')) [
  | inl h ↦ rw h (range_or_char_lem d p f go b.0 b.1 (λ q g l. t q g (omega (arith, l))))
  | inr h ↦ rw h (range_or_char_lem c (d ∷ p) f go a b t)
]

read_set_lem :
    (k : ℕ) (p : List ℕ) (f : FastMap)
    → length p < k
    → Below255 p
    → (f' : FastMap) × (read_set k p f ≡ some f')
unfolding read_set
read_set_lem zero p f l b = absurd (omega (arith, l))
read_set_lem (suc k) [] f l b = (f, refl)
read_set_lem (suc k) (c ∷ p) f l b =
    quoted_lem c p f (λ q g. read_set k q g) b.0 b.1
      (λ q g m b'. read_set_lem k q g (omega (arith, l, m)) b')

fastmap_lem : (string : List ℕ) → Below255 string → (f : FastMap) × (fastmap string ≡ some f)
unfolding fastmap
fastmap_lem [] b = (λ b. false, refl)
fastmap_lem (c ∷ p) b = elim (Bool-cases (c == b'^')) [
  | inl h ↦ rw h (
      let r = read_set_lem (suc (length p)) p (λ b. false) (omega arith) b.1 in
      rw r.1 (λ b. not (r.0 b), refl))
  | inr h ↦ rw h (read_set_lem (suc (suc (length p))) (c ∷ p) (λ b. false) (omega arith) b)
]

-- The run of characters of the set from a position on.
abbrev pub IsRun : FastMap → Editor → (at end x : ℕ) → Type 0
IsRun f e at end x =
    (at ≤ x)
    × ((x ≡ end) ⊎ (x < end) × (f (char_at e x) ≡ false))
    × ((i : ℕ) → at ≤ i → i < x → f (char_at e i) ≡ true)

skip_right_lem :
    (k : ℕ) (f : FastMap) (e : Editor) (at end : ℕ)
    → end ≡ at + k
    → IsRun f e at end (skip_right k f e at)
unfolding skip_right
skip_right_lem zero f e at end h =
    (omega arith, inl (omega (arith, h)), λ i a b. absurd (omega (arith, a, b)))
skip_right_lem (suc k) f e at end h = elim (Bool-cases (f (char_at e at))) [
  | inr t ↦ rw t (omega arith, inr (omega (arith, h), t), λ i a b. absurd (omega (arith, a, b)))
  | inl t ↦
      rw t (
        further (skip_right k f e (at + 1)) t
          (skip_right_lem k f e (at + 1) end (omega (arith, h))))
]
  where
    further : (x : ℕ) → f (char_at e at) ≡ true → IsRun f e (at + 1) end x → IsRun f e at end x
    further x t (a, b, w) = (
      omega (arith, a),
      b,
      λ i l m. elim (Bool-cases (i == at)) [
        | inl u ↦ subst (λ y. f (char_at e y) ≡ true) (ground (arith, u)) t
        | inr u ↦ w i (ground (arith, u, l)) m
      ],
    )

-- The same before a position.
abbrev pub IsRunBack : FastMap → Editor → (at end x : ℕ) → Type 0
IsRunBack f e at end x =
    (x ≤ at)
    × ((x ≡ end) ⊎ (end < x) × (f (char_at e (x - 1)) ≡ false))
    × ((i : ℕ) → x ≤ i → i < at → f (char_at e i) ≡ true)

skip_left_lem :
    (k : ℕ) (f : FastMap) (e : Editor) (at end : ℕ)
    → at ≡ end + k
    → IsRunBack f e at end (skip_left k f e at)
unfolding skip_left
skip_left_lem zero f e at end h =
    (omega arith, inl (omega (arith, h)), λ i a b. absurd (omega (arith, a, b)))
skip_left_lem (suc k) f e at end h = elim (Bool-cases (f (char_at e (at - 1)))) [
  | inr t ↦ rw t (omega arith, inr (omega (arith, h), t), λ i a b. absurd (omega (arith, a, b)))
  | inl t ↦
      rw t
        (further (skip_left k f e (at - 1)) t (skip_left_lem k f e (at - 1) end (omega (arith, h))))
]
  where
    further :
        (x : ℕ)
        → f (char_at e (at - 1)) ≡ true
        → IsRunBack f e (at - 1) end x
        → IsRunBack f e at end x
    further x t (a, b, w) = (
      omega (arith, a),
      b,
      λ i l m. elim (Bool-cases (i == at - 1)) [
        | inl u ↦ subst (λ y. f (char_at e y) ≡ true) (ground (arith, u)) t
        | inr u ↦ w i l (ground (arith, u, m))
      ],
    )

-- With a string whose bytes are below 255 skip_chars reads the set to its end and returns, with
-- nothing changed but point: forward it passes all characters of the set that follow, up to the limit,
-- and backward those before. Where the limit lies on the other side of point, point stays.
pub skip_chars_lem :
    (e : Editor) (forwardp : Bool) (string : List ℕ) (lim : Option ℤ)
    → Below255 string
    → (f : FastMap) × (p : ℕ) × (fastmap string ≡ some f)
      × (skip_chars forwardp string lim e ≡ ok tt (record e { pt = p }))
      × (if forwardp
          then IsRun f e e.pt (e.pt + (skip_limit true lim e - e.pt)) p
          else IsRunBack f e e.pt (e.pt - (e.pt - skip_limit false lim e)) p)
unfolding skip_chars
skip_chars_lem e true string lim b =
    let (f, is) = fastmap_lem string b in
    let k = skip_limit true lim e - e.pt in
    (
      f,
      skip_right k f e e.pt,
      is,
      ap (λ o. elim o [ none ↦ fault | some g ↦ ok tt (record e { pt = skip_right k g e e.pt }) ])
          is,
      skip_right_lem k f e e.pt (e.pt + k) refl,
    )
skip_chars_lem e false string lim b =
    let (f, is) = fastmap_lem string b in
    let k = e.pt - skip_limit false lim e in
    (
      f,
      skip_left k f e e.pt,
      is,
      ap (λ o. elim o [ none ↦ fault | some g ↦ ok tt (record e { pt = skip_left k g e e.pt }) ])
          is,
      skip_left_lem k f e e.pt (e.pt - k) (omega arith),
    )
