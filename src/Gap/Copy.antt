-- ===== src/Gap/Copy.antt =====
-- The copying loops move a block of bytes, also where source and target overlap.
use holomacs.Prelude.{
  ℕ, zero, suc, ◌+◌, ◌-◌, ◌≤◌, ◌≡◌, refl, ◌&&◌, some, arith, ltb, leb, if◌then◌else◌,
}
use holomacs.Editor.{write}
use holomacs.Gap.{copy_down, copy_up}

pub copy_down_lem :
    (room i to from : ℕ) (m : ℕ → ℕ)
    → i ≤ from
    → from ≤ to
    → to ≤ room
    → (m' : ℕ → ℕ) × (copy_down room i to from m ≡ some m')
      × ((a : ℕ) → m' a ≡ (if leb (to - i) a && ltb a to then m (a + from - to) else m a))
unfolding copy_down
copy_down_lem room zero to from m hi hf ht = (m, refl, λ a. ground arith)
copy_down_lem room (suc i) to from m hi hf ht =
    let m1 = write m (to - 1) (m (from - 1)) in
    let (m', e, all) =
      copy_down_lem room i (to - 1) (from - 1) m1 (omega arith) (omega arith) (omega arith) in
    (m', ground arith, λ a. ground (arith, all a))

pub copy_up_lem :
    (room i to from : ℕ) (m : ℕ → ℕ)
    → to ≤ from
    → from + i ≤ room
    → (m' : ℕ → ℕ) × (copy_up room i to from m ≡ some m')
      × ((a : ℕ) → m' a ≡ (if leb to a && ltb a (to + i) then m (a + from - to) else m a))
unfolding copy_up
copy_up_lem room zero to from m hf ht = (m, refl, λ a. ground arith)
copy_up_lem room (suc i) to from m hf ht =
    let m1 = write m to (m from) in
    let (m', e, all) = copy_up_lem room i (to + 1) (from + 1) m1 (omega arith) (omega arith) in
    (m', ground arith, λ a. ground (arith, all a))
