-- ===== src/Editfns/Substring.antt =====
-- buffer_substring returns the characters of the region, also where the gap stood in it.
use holomacs.Prelude.{
  ℕ, zero, suc, ◌+◌, ◌-◌, ◌≤◌, ◌<◌, ◌≡◌, refl, ap, ◌⊎◌, inl, inr, false, ◌&&◌, some, List, [], ◌∷◌,
  arith, ltb, leb, if◌then◌else◌, Bool-cases,
}
use holomacs.Editor.{Editor, Signal, quit, args_out_of_range, ok, char_at, char_address}
use holomacs.Editor.View.{
  IsValid, SameText, Ends, Ends-bind, Ends-mono, Kept, Kept-refl, Kept-widen, Arrived, Stopped,
}
use holomacs.Gap.{move_gap}
use holomacs.Gap.Move.{move_gap_keeps}
use holomacs.Editfns.{validate_region, read_bytes, make_string, buffer_substring}

-- The `n` characters from a position on.
abbrev pub substring : Editor → (first n : ℕ) → List ℕ
substring e first zero = []
substring e first (suc n) = char_at e first ∷ substring e (first + 1) n

pub substring-same :
    (e e' : Editor) (first n : ℕ)
    → SameText e e'
    → 1 ≤ first
    → first + n ≤ e.z
    → substring e' first n ≡ substring e first n
substring-same e e' first zero same h1 h2 = refl
substring-same e e' first (suc n) same h1 h2 = ground (
  arith,
  same first h1 (omega arith),
  substring-same e e' (first + 1) n same (omega arith) (omega arith),
)

read_below :
    (e : Editor) (a first n : ℕ)
    → e.gpt ≤ e.room + 1
    → a + 1 ≡ first
    → first + n ≤ e.gpt
    → read_bytes e.room e.beg a n ≡ some (substring e first n)
unfolding read_bytes
read_below e a first zero h0 h1 h2 = refl
read_below e a first (suc n) h0 h1 h2 =
    ground (arith, read_below e (a + 1) (first + 1) n h0 (omega arith) (omega arith), ap e.beg at)
  where
    at : char_address e first ≡ a
    at = ground arith

read_above :
    (e : Editor) (a first n : ℕ)
    → e.gpt ≤ first
    → a + 1 ≡ first + e.gap_size
    → a + n ≤ e.room
    → read_bytes e.room e.beg a n ≡ some (substring e first n)
unfolding read_bytes
read_above e a first zero h0 h1 h2 = refl
read_above e a first (suc n) h0 h1 h2 = ground (
  arith,
  read_above e (a + 1) (first + 1) n (omega arith) (omega arith) (omega arith),
  ap e.beg at,
)
  where
    at : char_address e first ≡ a
    at = ground arith

-- A region that the gap does not divide is read as it stands.
pub make_string_lem :
    (first n : ℕ) (e : Editor)
    → IsValid e
    → 1 ≤ first
    → first + n ≤ e.z
    → (first + n ≤ e.gpt) ⊎ (e.gpt ≤ first)
    → make_string first n e ≡ ok (substring e first n) e
unfolding make_string
make_string_lem first n e v h1 h2 whole = elim (Bool-cases (leb e.gpt first)) [
  | inl at ↦
      let a : char_address e first + 1 ≡ first + e.gap_size = ground arith in
      rw (
        read_above e (char_address e first) first n (ground arith) a (omega (arith, v.allocated)),
        make_string,
      )
  | inr under ↦
      let a : char_address e first + 1 ≡ first = ground arith in
      rw (
        read_below e (char_address e first) first n (omega (arith, v.allocated, v.gpt_high)) a
            (ground (arith, v.gpt_high)),
        make_string,
      )
]

abbrev pub low : ℕ → ℕ → ℕ
low b f = if ltb f b then f else b

abbrev pub high : ℕ → ℕ → ℕ
high b f = if ltb f b then b else f

-- The result is the region's text and the buffer shows what it did.
abbrev pub Read : (b f : ℕ) → Editor → List ℕ → Editor → Type 0
Read b f e text e' =
    Kept 1 e.z e e'
    × (text ≡ substring e (low b f) (high b f - low b f))
    × (e.begv ≤ low b f)
    × (high b f ≤ e.zv)
    × ((e'.gpt ≡ e.gpt) ⊎ (e'.gpt ≡ low b f))

-- A quit stopped the gap, or the region is not in the visible part and nothing was done.
abbrev pub NotRead : (b f : ℕ) → Editor → Signal → Editor → Type 0
NotRead b f e s e' =
    ((s ≡ quit) × Kept 1 e.z e e' × (e.inhibit_quit ≡ false))
    ⊎ ((s ≡ args_out_of_range) × (e' ≡ e) × ((low b f < e.begv) ⊎ (e.zv < high b f)))

-- The rest of the function where the gap has moved to `first`.
after_move :
    (b f : ℕ) (e e' : Editor)
    → Kept 1 e.z e e'
    → e.begv ≤ low b f
    → high b f ≤ e.zv
    → e.zv ≤ e.z
    → 1 ≤ e.begv
    → (high b f ≤ e'.gpt) ⊎ (e'.gpt ≤ low b f)
    → (e'.gpt ≡ e.gpt) ⊎ (e'.gpt ≡ low b f)
    → Ends (Read b f e) (NotRead b f e) (make_string (low b f) (high b f - low b f) e')
after_move b f e e' k h1 h2 h3 h4 whole moved =
    let ordered : low b f ≤ high b f = ground arith in
    let end : low b f + (high b f - low b f) ≡ high b f = omega arith in
    let text =
      make_string_lem (low b f) (high b f - low b f) e' k.valid (omega arith)
        (omega (arith, k.same.fields.z)) (rw end whole) in
    rw text (
      k,
      substring-same e e' (low b f) (high b f - low b f) k.same.text (omega arith) (omega arith),
      h1,
      h2,
      moved,
    )

pub buffer_substring_lem :
    (b f : ℕ) (e : Editor) → IsValid e → Ends (Read b f e) (NotRead b f e) (buffer_substring b f e)
unfolding buffer_substring validate_region
buffer_substring_lem b f e v = elim (Bool-cases (leb e.begv (low b f) && leb (high b f) e.zv)) [
  | inr outside ↦ rw (outside, buffer_substring) (inr (refl, refl, ground arith))
  | inl inside ↦ elim (Bool-cases (ltb (low b f) e.gpt && ltb e.gpt (high b f))) [
    | inr whole ↦
        rw (inside, whole)
          (after_move b f e e (Kept-widen 1 e.z (Kept-refl v) v.gpt_low v.gpt_high) (ground arith)
            (ground arith) v.zv_high v.begv_low (ground arith) (inl refl))
    | inl divided ↦
        rw (inside, divided)
          (Ends-bind (Arrived 1 e.z (low b f) e) (Read b f e) (NotRead b f e) (move_gap (low b f) e)
            _
            (Ends-mono (Arrived 1 e.z (low b f) e) (Arrived 1 e.z (low b f) e) (Stopped 1 e.z e)
              (NotRead b f e) (move_gap (low b f) e)
              (move_gap_keeps e (low b f) v (ground (arith, v.begv_low))
                (ground (arith, v.gpt_high)))
              (λ _ e' h. h) (λ s e' h. inl h))
            (λ _ e' h.
              after_move b f e e' h.0 (ground arith) (ground arith) v.zv_high v.begv_low
                (inr (omega (arith, h.1))) (inr h.1)))
  ]
]
