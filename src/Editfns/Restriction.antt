-- ===== src/Editfns/Restriction.antt =====
-- Narrowing, widening and save-restriction keep the buffer well formed.
use holomacs.Prelude.{
  ℕ, ◌+◌, ◌-◌, ◌≤◌, ◌≡◌, refl, arith, pos, ℤ, negsuc, ltb, leb, if◌then◌else◌, ◌&&◌, Bool-cases,
  inl, inr,
}
use holomacs.Editor.{Editor, args_out_of_range}
use holomacs.Editor.View.{IsValid, Ends}
use holomacs.Editfns.{clip_to_bounds, goto_char, widen, narrow_to_region, save_restriction_restore}

-- The fields of the invariant but for the visible part.
revalid :
    {e : Editor} (low p high : ℕ)
    → IsValid e
    → 1 ≤ low
    → low ≤ p
    → p ≤ high
    → high ≤ e.z
    → IsValid (record e { begv = low; pt = p; zv = high })
revalid low p high v h1 h2 h3 h4 = record {
  begv_low = h1;
  pt_low = h2;
  pt_high = h3;
  zv_high = h4;
  gpt_low = v.gpt_low;
  gpt_high = v.gpt_high;
  allocated = v.allocated;
  chain = v.chain;
  placed = v.placed;
}

pub clip_bounds :
    (low high : ℕ) (n : ℤ)
    → low ≤ high
    → (low ≤ clip_to_bounds low n high) × (clip_to_bounds low n high ≤ high)
unfolding clip_to_bounds
clip_bounds low high (pos n) h = ground arith
clip_bounds low high (negsuc n) h = ground arith

-- In a valid buffer, goto_char leaves the buffer valid, with point inside of the visible part,
-- whatever number it is given.
pub goto_char-IsValid : (n : ℤ) {e : Editor} → IsValid e → IsValid (goto_char n e)
unfolding goto_char
goto_char-IsValid n {e} v =
    let c = clip_bounds e.begv e.zv n (omega arith) in
    revalid e.begv (clip_to_bounds e.begv n e.zv) e.zv v v.begv_low c.0 c.1 v.zv_high

-- In a valid buffer, save_restriction_restore leaves the buffer valid whatever was saved.
pub restore-IsValid :
    (saved : ℕ × ℕ) {e : Editor} → IsValid e → IsValid (save_restriction_restore saved e)
unfolding save_restriction_restore
restore-IsValid (head, rear) {e} v =
    let over = ltb (e.z - 1) (head + rear) in
    let low = 1 + (if over then 0 else head) in
    let high = e.z - (if over then 0 else rear) in
    let sizes : (low ≤ high) × (high ≤ e.z) = ground (arith, v.gpt_low, v.gpt_high) in
    let c = clip_bounds low high (pos e.pt) sizes.0 in
    revalid low (clip_to_bounds low (pos e.pt) high) high v (omega arith) c.0 c.1 sizes.1

abbrev low : ℕ → ℕ → ℕ
low b f = if ltb f b then f else b

abbrev high : ℕ → ℕ → ℕ
high b f = if ltb f b then b else f

abbrev inner : ℕ → ℕ → ℕ → ℕ
inner low high p = let p' = if ltb p low then low else p in if ltb high p' then high else p'

-- In a valid buffer, narrow_to_region leaves the buffer valid, also when widen then shows the
-- whole again, or it signals that the arguments are out of range and changes nothing.
narrow-IsValid :
    (b f : ℕ) {e : Editor}
    → IsValid e
    → Ends
        (λ _ e'. IsValid e' × IsValid (widen e'))
        (λ s e'. (s ≡ args_out_of_range) × (e' ≡ e))
        (narrow_to_region b f e)
unfolding narrow_to_region widen
narrow-IsValid b f {e} v = elim (Bool-cases (leb 1 (low b f) && leb (high b f) e.z)) [
  | inl inside ↦
      let sizes : (1 ≤ low b f) × (low b f ≤ high b f) × (high b f ≤ e.z) = ground arith in
      rw inside (
        revalid (low b f) (inner (low b f) (high b f) e.pt) (high b f) v sizes.0 (ground arith)
            (ground arith) sizes.2,
        revalid 1 (inner (low b f) (high b f) e.pt) e.z v (omega arith) (ground arith)
            (ground arith) (omega arith),
      )
  | inr outside ↦ rw outside (refl, refl)
]
