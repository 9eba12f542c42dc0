-- ===== src/Gap/Adjust.antt =====
-- What adjust_markers does to each marker of the chain.
use holomacs.Prelude.{
  ℕ, zero, suc, ◌+◌, ◌-◌, ◌≤◌, ◌≡◌, refl, List, [], ◌∷◌, arith, ltb, if◌then◌else◌, ℤ, pos, negsuc,
  has, Distinct, sub_ℕ,
}
use holomacs.Editor.{write}
use holomacs.Editor.View.{place, IsPlaced}
use holomacs.Gap.{adjust_pos, adjust_chain}

-- Where no marker is twice in the chain, each marker that is in it is adjusted once, and any
-- other is left alone.
pub adjust_chain_lem :
    (first last : ℕ) (amount : ℤ) (chain : List ℕ) (b : ℕ → ℕ) (m : ℕ)
    → Distinct chain
    → adjust_chain first last amount chain b m
      ≡ (if has m chain then adjust_pos first last amount (b m) else b m)
unfolding adjust_chain
adjust_chain_lem first last amount [] b m d = refl
adjust_chain_lem first last amount (x ∷ chain) b m d = ground (
  arith,
  adjust_chain_lem first last amount chain (write b x (adjust_pos first last amount (b x))) m,
)

-- The adjustment that goes with a gap moved down to `g'` leaves each marker's position.
pub place-adjust_left :
    (g' g gap i : ℕ) → g' ≤ g → place g' gap (adjust_pos g' g (pos gap) i) ≡ place g gap i
unfolding adjust_pos
place-adjust_left g' g gap i h = ground arith

pub adjust_left_range :
    (g' g gap z i : ℕ)
    → g' ≤ g
    → g ≤ z
    → IsPlaced g gap z i
    → IsPlaced g' gap z (adjust_pos g' g (pos gap) i)
unfolding adjust_pos
adjust_left_range g' g gap z i h1 h2 h3 = ground arith

-- And that of a gap moved up to `g'`.
minus_suc : (k : ℕ) → sub_ℕ 0 (suc k) ≡ negsuc k
minus_suc k = ground arith

abbrev lowered : (g g' gap i : ℕ) → ℕ
lowered g g' gap i =
    if ltb (g' + gap) i then i else if ltb (g + gap) i then i - gap else if ltb g i then g else i

adjust_pos-suc :
    (g g' k i : ℕ)
    → g ≤ g'
    → adjust_pos (g + suc k) (g' + suc k) (negsuc k) i ≡ lowered g g' (suc k) i
unfolding adjust_pos
adjust_pos-suc g g' k i h = ground arith

adjust_pos-lowered :
    (g g' gap i : ℕ) → g ≤ g' → adjust_pos (g + gap) (g' + gap) (sub_ℕ 0 gap) i ≡ lowered g g' gap i
unfolding adjust_pos
adjust_pos-lowered g g' zero i h = ground arith
adjust_pos-lowered g g' (suc k) i h = rw (minus_suc k) (adjust_pos-suc g g' k i h)

pub place-adjust_right :
    (g' g gap i : ℕ)
    → g ≤ g'
    → place g' gap (adjust_pos (g + gap) (g' + gap) (sub_ℕ 0 gap) i) ≡ place g gap i
place-adjust_right g' g gap i h = rw (adjust_pos-lowered g g' gap i h) (ground arith)

pub adjust_right_range :
    (g' g gap z i : ℕ)
    → 1 ≤ g
    → g ≤ g'
    → g' ≤ z
    → IsPlaced g gap z i
    → IsPlaced g' gap z (adjust_pos (g + gap) (g' + gap) (sub_ℕ 0 gap) i)
adjust_right_range g' g gap z i h0 h1 h2 h3 = rw (adjust_pos-lowered g g' gap i h1) (ground arith)
