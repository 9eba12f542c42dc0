-- ===== src/Search/Scan/Buffer.antt =====
-- scan_buffer in both directions.
use holomacs.Prelude.{
  ℕ, suc, ◌-◌, ◌≤◌, ◌≡◌, ap, arith, Bool, true, false, if◌then◌else◌, ℤ, pos, ltb_ℤ, Option, none,
  some,
}
use holomacs.Editor.{Editor, ok, fault, char_at}
use holomacs.Search.{scan_buffer}
use holomacs.Search.Scan.{next_right, next_left}
use holomacs.Search.Scan.Right.Loop.{IsCeiling, scan_right_lem}
use holomacs.Search.Scan.Left.Loop.{IsFloor, scan_left_lem}

pub scan_buffer_lem :
    (ceiling floor : Editor → ℕ → ℕ) (e : Editor) (target at : ℕ) (cnt : ℤ)
    → IsCeiling e ceiling
    → IsFloor e floor
    → 1 ≤ e.begv
    → e.begv ≤ at
    → at ≤ e.zv
    → scan_buffer ceiling floor target at cnt e
      ≡ ok
          (if ltb_ℤ (pos 0) cnt
            then next_right (e.zv - at) (char_at e) target at cnt
            else next_left (at - e.begv) (char_at e) target at cnt)
          e
unfolding scan_buffer
scan_buffer_lem ceiling floor e target at cnt up down low b z =
    ap (λ o. elim o [ none ↦ fault | some r ↦ ok r e ])
      (either (ltb_ℤ (pos 0) cnt)
        (scan_right_lem ceiling floor e target up low (suc (e.zv - at)) at cnt b z (omega arith))
        (scan_left_lem ceiling floor e target down low (suc (at - e.begv)) at cnt b z
          (omega arith)))
  where
    either :
        {x y : Option (ℕ × ℤ)} {r l : ℕ × ℤ} (c : Bool)
        → x ≡ some r
        → y ≡ some l
        → (if c then x else y) ≡ some (if c then r else l)
    either true e f = e
    either false e f = f
