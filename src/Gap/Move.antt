-- ===== src/Gap/Move.antt =====
-- move_gap changes neither the text nor where the markers point, also where a quit stops it
-- half way.
pub mod Loop
pub mod Left
pub mod Right
use holomacs.Prelude.{ℕ, ◌≤◌, ◌<◌, ◌≡◌, refl, inl, inr, false, arith, ltb, min, Bool-cases}
use holomacs.Editor.{Editor, quit}
use holomacs.Editor.View.{IsValid, Kept, Kept-widen, Kept-refl, Arrived, Stopped, Ends, Ends-mono}
use holomacs.Gap.{gap_left, gap_right, move_gap}
use Left.{gap_left_keeps}
use Right.{gap_right_keeps}

-- In a valid buffer, move_gap to a `position` in the text puts the gap there, or a quit stops it
-- on its way and is signalled; in both cases the text, the places of the markers and the other
-- fields are what they were.
pub move_gap_keeps :
    (e : Editor) (position : ℕ)
    → IsValid e
    → 1 ≤ position
    → position ≤ e.z
    → Ends (Arrived 1 e.z position e) (Stopped 1 e.z e) (move_gap position e)
unfolding move_gap
move_gap_keeps e position v h1 h2 = elim (Bool-cases (ltb position e.gpt)) [
  | inl below ↦ rw below (
      Ends-mono (Arrived position e.gpt position e) (Arrived 1 e.z position e)
        (Stopped position e.gpt e) (Stopped 1 e.z e) (gap_left position false e)
        (gap_left_keeps e position false v h1 (ground arith))
        (λ _ e' h. (Kept-widen 1 e.z h.0 h1 v.gpt_high, h.1))
        (λ s e' h. (h.0, Kept-widen 1 e.z h.1 h1 v.gpt_high, h.2)))
  | inr at_least ↦ elim (Bool-cases (ltb e.gpt position)) [
    | inl above ↦
        rw (at_least, above)
          (Ends-mono (Arrived e.gpt position position e) (Arrived 1 e.z position e)
            (Stopped e.gpt position e) (Stopped 1 e.z e) (gap_right position e)
            (gap_right_keeps e position v (ground arith) h2)
            (λ _ e' h. (Kept-widen 1 e.z h.0 v.gpt_low h2, h.1))
            (λ s e' h. (h.0, Kept-widen 1 e.z h.1 v.gpt_low h2, h.2)))
    | inr there ↦
        let at : e.gpt ≡ position = ground arith in
        rw (at_least, there) (Kept-widen 1 e.z (Kept-refl v) v.gpt_low v.gpt_high, at)
  ]
]
